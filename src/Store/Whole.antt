-- ===== src/Store/Whole.antt =====
-- embedding-store/src/store.rs: what holds of a store between two calls: its files replay to its maps.
use embedding_processing_rs.Base.{
  ℕ, ◌<◌, ◌≤◌, ◌≡◌, ◌≢◌, ap, sym, ◌∙◌, subst, none, some, List, [], ◌∷◌, arith, ok, All,
}
use embedding_processing_rs.HashMap
use embedding_processing_rs.HashMap.{HashMap}
use embedding_processing_rs.Record.{Frame}
use embedding_processing_rs.Record.Encode.{Fits}
use embedding_processing_rs.Maps.{Maps, RemovedDoc}
use embedding_processing_rs.Manifest.{Manifest, SegmentInfo}
use embedding_processing_rs.Crates.{Crates, IsFaithful}
use embedding_processing_rs.Segment
use embedding_processing_rs.Segment.{Disk, ActiveSegment}
use embedding_processing_rs.Segment.Log.{log, IsSegment, flush-ok}
use embedding_processing_rs.Replay.Frames.{encode_all}
use embedding_processing_rs.Replay.Records.{Replays}
use embedding_processing_rs.Dto.{DocumentDto}
use embedding_processing_rs.Store.Types.{Store, Replaced}
use embedding_processing_rs.Store.Write.{record_document, on_active}
use embedding_processing_rs.Store.Seal.{record_delete}
use embedding_processing_rs.Store.Appends.{IsInRange, untouched}
use embedding_processing_rs.Store.Durable.{
  Durable, IsConsistent, record_document-Durable, record_delete-Durable,
}
use embedding_processing_rs.Store.Reopen.{IsRecoverable, Durable-IsRecoverable}

module _ (crates : Crates) (snapshot_seq : ℕ) where
  -- A sealed segment: whole records whose replay leads from the maps `m` to `m'` and leaves no entity
  -- waiting. Where the snapshot covers the segment the replay changes nothing.
  pub record SegmentReplays (info : SegmentInfo) (bytes : List ℕ) (m m' : Maps) : Type 0 where
    pub frames : List Frame
    pub bytes_frames : bytes ≡ encode_all crates.crc32 frames
    pub fits : All Fits frames
    pub replays : Replays crates info.id snapshot_seq frames 0 m [] m' []
    pub covered : info.last_seq ≤ snapshot_seq → m' ≡ m

  -- The sealed segments of a manifest, in its order.
  abbrev pub SealedReplays : List SegmentInfo → HashMap (List ℕ) → Maps → Maps → Type 0
  SealedReplays [] sealed m m' = m ≡ m'
  SealedReplays (i ∷ is) sealed m m' =
      (bytes : List ℕ) × (mid : Maps) × (HashMap.get i.id sealed ≡ some bytes)
      × SegmentReplays i bytes m mid
      × SealedReplays is sealed mid m'

-- What the manifest on disk shares with the one in memory: all but the counters.
abbrev pub on_disk_part : Manifest → Manifest
on_disk_part m = record m { next_seq = 0; tombstone_bytes = 0 }

-- The ids of the segments differ, the next one is above them, and no file has it.
pub record IdsDiffer (s : Store) (active_id : ℕ) : Type 0 where
  pub others : All (λ i. i.id ≢ active_id) s.manifest.sealed
  pub below : All (λ i. i.id < s.manifest.next_segment_id) s.manifest.sealed
  pub active_below : active_id < s.manifest.next_segment_id
  pub active : s.manifest.active ≡ active_id
  pub unused : (k : ℕ) → s.manifest.next_segment_id ≤ k → HashMap.get k s.files ≡ none

-- The sealed segments and the manifest that names them are on disk.
pub record IsStored (s : Store) : Type 0 where
  pub on_disk : Manifest
  pub stored : s.stored ≡ some on_disk
  pub agrees : on_disk_part on_disk ≡ on_disk_part s.manifest
  pub files : All (λ i. HashMap.get i.id s.files ≡ HashMap.get i.id s.sealed) s.manifest.sealed

-- The sealed segments lead from the maps of the snapshot to `base`, and the log of the active one
-- from there to the maps of the store; what the snapshot covers adds nothing.
pub record IsWhole (crates : Crates) (start : Maps) (s : Store) : Type 0 where
  pub base : Maps
  pub sealed : SealedReplays crates s.manifest.snapshot_seq s.manifest.sealed s.sealed start base
  pub active : IsRecoverable crates s.manifest.snapshot_seq base s
  pub covered : s.active.last_seq ≤ s.manifest.snapshot_seq → s.maps ≡ base
  pub newer : s.manifest.snapshot_seq < s.manifest.next_seq
  pub ids : IdsDiffer (untouched s) s.active.id
  pub stored : IsStored (untouched s)

module _ (crates : Crates) (disk : Disk) (start : Maps) where
  Durable-IsWhole :
      (s t : Store) (fs : List Frame)
      → IsFaithful crates
      → Durable crates s.manifest.snapshot_seq s t fs
      → IsWhole crates start s
      → IsWhole crates start t
  Durable-IsWhole s t fs faithful d w =
      let same : t.manifest.snapshot_seq ≡ s.manifest.snapshot_seq =
        ap (λ (u : Store). u.manifest.snapshot_seq) d.rest in
      record {
        base = w.base;
        sealed =
            subst
              (λ u.
                SealedReplays crates u.manifest.snapshot_seq u.manifest.sealed u.sealed start
                  w.base)
              (sym d.rest) w.sealed;
        active =
            subst (λ n. IsRecoverable crates n w.base t) (sym same)
              (Durable-IsRecoverable crates disk s.manifest.snapshot_seq w.base faithful s t fs d
                w.active);
        covered = λ h. absurd (omega (arith, d.last, w.newer, same));
        newer = omega (arith, d.seq, w.newer, same);
        ids =
            subst (λ id. IdsDiffer (untouched t) id) (sym d.id)
              (subst (λ u. IdsDiffer u s.active.id) (sym d.rest) w.ids);
        stored = subst IsStored (sym d.rest) w.stored;
      }

  -- Another segment state with the same log.
  relogged :
      (s : Store) (a : ActiveSegment)
      → log a ≡ log s.active
      → a.id ≡ s.active.id
      → a.last_seq ≡ s.active.last_seq
      → IsSegment a
      → IsWhole crates start s
      → IsWhole crates start (record s { active = a })
  relogged s a same id last valid w = record {
    base = w.base;
    sealed = w.sealed;
    active = record {
      frames = w.active.frames;
      log_frames = same ∙ w.active.log_frames;
      fits = w.active.fits;
      valid = valid;
      replays =
          subst
            (λ k. Replays crates k s.manifest.snapshot_seq w.active.frames 0 w.base [] s.maps [])
            (sym id) w.active.replays;
    };
    covered = λ h. w.covered (omega (arith, last));
    newer = w.newer;
    ids = subst (λ k. IdsDiffer (untouched s) k) (sym id) w.ids;
    stored = w.stored;
  }

  pub flush-IsWhole :
      (s t : Store)
      → on_active (Segment.flush disk) s ≡ (ok tt, t)
      → IsWhole crates start s
      → IsWhole crates start t × (t.active.buffer ≡ [])
  flush-IsWhole s t h w =
      let a : ActiveSegment = (Segment.flush disk s.active).1 in
      let e : Segment.flush disk s.active ≡ (ok tt, a) = λ i. ((h i).0, a) in
      let (same, empty, id, len, first, last, valid) = flush-ok disk s.active a e w.active.valid in
      let et : record s { active = a } ≡ t = λ i. (h i).1 in
      (
        subst (IsWhole crates start) et (relogged s a same id last valid w),
        subst (λ (u : Store). u.active.buffer ≡ []) et empty,
      )

  -- The records of an insert keep the files in step with the maps.
  pub record_document-IsWhole :
      (doc : DocumentDto) (s t : Store) (replaced : Replaced)
      → IsFaithful crates
      → record_document crates disk doc s ≡ (ok replaced, t)
      → IsConsistent doc
      → IsInRange t
      → IsWhole crates start s
      → IsWhole crates start t
  record_document-IsWhole doc s t replaced faithful h consistent r w =
      let (fs, d) =
        record_document-Durable crates disk doc s t replaced s.manifest.snapshot_seq faithful h
          consistent w.active.valid w.newer r in
      Durable-IsWhole s t fs faithful d w

  pub record_delete-IsWhole :
      (d : ℕ) (s t : Store) (removed : RemovedDoc)
      → IsFaithful crates
      → record_delete crates disk d s ≡ (ok removed, t)
      → IsInRange t
      → IsWhole crates start s
      → IsWhole crates start t
  record_delete-IsWhole doc_id s t removed faithful h r w =
      let (fs, d) =
        record_delete-Durable crates disk doc_id s t removed s.manifest.snapshot_seq faithful h
          w.active.valid w.newer r in
      Durable-IsWhole s t fs faithful d w

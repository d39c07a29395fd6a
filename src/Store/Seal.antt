-- ===== src/Store/Seal.antt =====
-- embedding-store/src/store.rs: sealing the active segment, and the methods that end in it.
use embedding_processing_rs.Base.{
  ℕ, ◌+◌, ◌||◌, Option, none, some, List, [], ◌∷◌, ◌++◌, ltb, ◌==◌, Result, ok, err, if◌then◌else◌,
}
use embedding_processing_rs.Base.Action.{Action, pure, modify, ◌>>=◌, ◌>>◌}
use embedding_processing_rs.HashMap
use embedding_processing_rs.Maps.{RemovedDoc}
use embedding_processing_rs.Crates.{Crates}
use embedding_processing_rs.Errors.{Error, io}
use embedding_processing_rs.Manifest.{SegmentInfo}
use embedding_processing_rs.Segment
use embedding_processing_rs.Segment.{Disk, ActiveSegment, open_segment}
use embedding_processing_rs.Dto.{DocumentDto}
use embedding_processing_rs.Store.Types.{Store, Replaced}
use embedding_processing_rs.Store.Write.{
  on_active, record_document, append_delete, remove_from_maps,
}

abbrev pub or_zero : Option ℕ → ℕ
or_zero none = 0
or_zero (some n) = n

abbrev pub file_of : Option (List ℕ) → List ℕ
file_of none = []
file_of (some bytes) = bytes

unfoldable pub claim_segment_id : Action Error Store ℕ
claim_segment_id s = (
  ok s.manifest.next_segment_id,
  record s { manifest = record (s.manifest) { next_segment_id = s.manifest.next_segment_id + 1 } },
)

module _ (disk : Disk) where
  -- `Manifest::store`. The rename may have been done when the directory is not synced.
  unfoldable pub store_manifest : Action Error Store (Unit {0})
  store_manifest s =
      if disk.can_store_manifest
      then (if disk.can_sync_manifest then ok tt else err io, record s { stored = some s.manifest })
      else (err io, s)

  -- `ActiveSegment::open(&self.dir, new_id)`, and the old segment taken out of the store.
  unfoldable pub replace_active : ℕ → Action Error Store ActiveSegment
  replace_active id s =
      if disk.can_open id
      then (ok s.active, record s { active = open_segment id (file_of (HashMap.get id s.files)) })
      else (err io, s)

  -- `old.seal()`: the old segment is flushed, synced and mapped. On an error it is
  -- dropped, and its buffer is handed to the file once more.
  abbrev pub seal_result :
      Result Error (Unit {0}) × ActiveSegment → Store → Result Error (List ℕ) × Store
  seal_result (ok _, old) s =
      let t = record s { files = HashMap.insert old.id old.file s.files } in
      if disk.can_open old.id then (ok old.file, t) else (err io, t)
  seal_result (err e, old) s = (
    err e,
    record s { files = HashMap.insert old.id (Segment.flush_buf disk old).1.file s.files },
  )

  unfoldable pub seal_old : ActiveSegment → Action Error Store (List ℕ)
  seal_old old s = seal_result (Segment.sync disk old) s

  abbrev pub info_of : ActiveSegment → SegmentInfo
  info_of old = record {
    id = old.id;
    bytes = old.len;
    first_seq = or_zero old.first_seq;
    last_seq = old.last_seq;
  }

  -- The manifest and the list of sealed segments, once the old segment is sealed.
  abbrev pub note_sealed : ActiveSegment → ℕ → List ℕ → Store → Store
  note_sealed old new_id bytes s = record s {
    sealed = HashMap.insert old.id bytes s.sealed;
    manifest = record (s.manifest) {
      sealed = s.manifest.sealed ++ (info_of old ∷ []);
      active = new_id;
      tombstone_bytes = s.manifest.tombstone_bytes + s.pending_tombstone_bytes;
    };
    pending_tombstone_bytes = 0;
  }

  unfoldable pub seal_nonempty : Action Error Store (Unit {0})
  seal_nonempty = do
    new_id ← claim_segment_id
    old ← replace_active new_id
    bytes ← seal_old old
    modify (note_sealed old new_id bytes)
    store_manifest

  unfoldable pub seal_active : Action Error Store (Unit {0})
  seal_active s = if s.active.len == 0 then (ok tt, s) else seal_nonempty s

  unfoldable pub seal_if_needed : Action Error Store (Unit {0})
  seal_if_needed s =
      if ltb s.active.len s.opts.segment_max_bytes || s.active.len == 0
      then (ok tt, s)
      else seal_active s

  unfoldable pub fsync : Action Error Store (Unit {0})
  fsync = on_active (Segment.sync disk)

module _ (crates : Crates) (disk : Disk) where
  unfoldable pub insert : DocumentDto → Action Error Store Replaced
  insert doc = do
    replaced ← record_document crates disk doc
    on_active (Segment.flush disk)
    seal_if_needed disk
    pure replaced

  -- `delete` up to its flush, for a document that is there.
  unfoldable pub record_delete : ℕ → Action Error Store RemovedDoc
  record_delete doc_id = do append_delete crates disk doc_id; remove_from_maps doc_id

  unfoldable pub delete_present : ℕ → Action Error Store (Option RemovedDoc)
  delete_present doc_id = do
    removed ← record_delete doc_id
    on_active (Segment.flush disk)
    seal_if_needed disk
    pure (some removed)

  unfoldable pub delete : ℕ → Action Error Store (Option RemovedDoc)
  delete doc_id s =
      if HashMap.contains_key doc_id s.maps.docs then delete_present doc_id s else (ok none, s)

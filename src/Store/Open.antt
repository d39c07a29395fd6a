-- ===== src/Store/Open.antt =====
-- embedding-store/src/store.rs: opening a shard's directory, and writing its snapshot.
-- A step changes the `Directory`; what it has read passes through its values. A file that is there can
-- be read, and the directory itself is there.
use embedding_processing_rs.Base.{
  ℕ, ◌+◌, ◌-◌, max, Bool, true, false, Option, none, some, List, [], ◌∷◌, if◌then◌else◌, contains,
  Result, ok, err,
}
use embedding_processing_rs.Base.Action.{Action, pure, lift, gets, modify, ◌>>=◌, ◌>>◌}
use embedding_processing_rs.HashMap
use embedding_processing_rs.HashMap.{HashMap}
use embedding_processing_rs.Maps.{Maps}
use embedding_processing_rs.Record.{dtype_to_u8}
use embedding_processing_rs.Crates.{Crates}
use embedding_processing_rs.Errors.{Error, io}
use embedding_processing_rs.Manifest.{Manifest, SegmentInfo, new_manifest, segment_ids}
use embedding_processing_rs.Segment
use embedding_processing_rs.Segment.{Disk, ActiveSegment, open_segment}
use embedding_processing_rs.Replay.{scan_segment}
use embedding_processing_rs.Snapshot.File.{load, store}
use embedding_processing_rs.Store.Types.{Store, StoreOptions}
use embedding_processing_rs.Store.Write.{on_active}
use embedding_processing_rs.Store.Seal.{file_of, store_manifest}
use embedding_processing_rs.Store.Opening.{check_manifest, choose_snapshot, replay_all}

-- The files of a shard that a store opens.
pub record Directory : Type 0 where
  pub segments : HashMap (List ℕ)
  pub manifest : Option Manifest
  pub snapshot : Option (List ℕ)

module _ (disk : Disk) where
  unfoldable pub write_manifest : Manifest → Action Error Directory (Unit {0})
  write_manifest m d =
      if disk.can_store_manifest
      then (if disk.can_sync_manifest then ok tt else err io, record d { manifest = some m })
      else (err io, d)

  abbrev pub load_manifest : StoreOptions → Option Manifest → Action Error Directory Manifest
  load_manifest opts (some m) = do lift (check_manifest opts m); pure m
  load_manifest opts none = do
    let m = new_manifest opts.model_id opts.n_embd (dtype_to_u8 opts.dtype)
    write_manifest m
    pure m

  -- One round of `remove_orphan_segments`.
  unfoldable pub remove_orphan : List ℕ → ℕ → Action Error Directory (Unit {0})
  remove_orphan known id d =
      if contains known id
      then (ok tt, d)
      else if disk.can_remove id
      then (ok tt, record d { segments = HashMap.remove id d.segments })
      else (err io, d)

  abbrev pub remove_orphans : List ℕ → List ℕ → Action Error Directory (Unit {0})
  remove_orphans known [] d = (ok tt, d)
  remove_orphans known (id ∷ ids) d = (remove_orphan known id >> remove_orphans known ids) d

  unfoldable pub remove_orphan_segments : Manifest → Action Error Directory (Unit {0})
  unfolding segment_ids
  remove_orphan_segments m d = remove_orphans (m.active ∷ segment_ids m) (HashMap.keys d.segments) d

  -- `SealedSegment::open`
  unfoldable pub open_sealed : ℕ → Action Error Directory (List ℕ)
  open_sealed id d = elim (HashMap.get id d.segments) [
    | some bytes ↦ if disk.can_open id then (ok bytes, d) else (err io, d)
    | none ↦ (err io, d)
  ]

  abbrev pub open_all :
      List SegmentInfo → HashMap (List ℕ) → Action Error Directory (HashMap (List ℕ))
  open_all [] sealed d = (ok sealed, d)
  open_all (i ∷ is) sealed d =
      (open_sealed i.id >>= λ bytes. open_all is (HashMap.insert i.id bytes sealed)) d

  -- `ActiveSegment::open`, which makes a file that is not there.
  unfoldable pub open_active : ℕ → Action Error Directory ActiveSegment
  open_active id d =
      let bytes = file_of (HashMap.get id d.segments) in
      if disk.can_open id
      then (ok (open_segment id bytes), record d { segments = HashMap.insert id bytes d.segments })
      else (err io, d)

  unfoldable pub remove_snapshot : Action Error Directory (Unit {0})
  remove_snapshot d = elim d.snapshot [
    | some bytes ↦
        if disk.can_remove_snapshot then (ok tt, record d { snapshot = none }) else (err io, d)
    | none ↦ (ok tt, d)
  ]

  -- A rejected snapshot is deleted, and the manifest says so.
  abbrev pub discard_snapshot : Bool → Manifest → Action Error Directory Manifest
  discard_snapshot false m d = (ok m, d)
  discard_snapshot true m d =
      (do
        remove_snapshot
        write_manifest (record m { snapshot_seq = 0 })
        pure (record m { snapshot_seq = 0 }))
        d

  abbrev pub keep_file :
      Result Error (Unit {0}) × ActiveSegment → Directory → Result Error ActiveSegment × Directory
  keep_file (ok u, a) d = (ok a, record d { segments = HashMap.insert a.id a.file d.segments })
  keep_file (err e, a) d = (err e, record d { segments = HashMap.insert a.id a.file d.segments })

  -- The tail behind `torn_at` is cut off.
  abbrev pub cut_torn : Option ℕ → ActiveSegment → Action Error Directory ActiveSegment
  cut_torn none active d = (ok active, d)
  cut_torn (some torn_at) active d = keep_file (Segment.truncate_to disk torn_at active) d

  -- `self.manifest.next_seq` goes past what was replayed.
  abbrev pub opened :
      StoreOptions → Manifest → HashMap (List ℕ) → ActiveSegment → Maps → ℕ → Directory → Store
  opened opts m sealed active maps max_seq d = record {
    opts = opts;
    manifest = record m { next_seq = max m.next_seq (max_seq + 1) };
    sealed = sealed;
    active = active;
    maps = maps;
    pending_tombstone_bytes = 0;
    files = HashMap.remove active.id d.segments;
    stored = d.manifest;
    snapshot = d.snapshot;
  }

  module _ (crates : Crates) (is_utf8 : List ℕ → Bool) where
    -- `open` from the replay on.
    unfoldable pub open_replayed :
        StoreOptions
        → Manifest
        → HashMap (List ℕ)
        → ActiveSegment
        → Maps
        → ℕ
        → Action Error Directory Store
    open_replayed opts m sealed active maps snapshot_seq = do
      (maps₁, max_seq) ← lift (replay_all crates snapshot_seq sealed m.sealed maps snapshot_seq)
      active_bytes ← lift (Segment.read_all active)
      (scan, maps₂) ← lift (scan_segment crates active_bytes active.id snapshot_seq maps₁ true)
      let seen = record active { first_seq = scan.first_seq; last_seq = scan.last_seq }
      active' ← cut_torn scan.torn_at seen
      gets (opened opts m sealed active' maps₂ (max max_seq scan.last_seq))

    -- `open` once the segments are open.
    unfoldable pub open_segments :
        StoreOptions → Manifest → HashMap (List ℕ) → ActiveSegment → Action Error Directory Store
    open_segments opts m sealed active d =
        let chosen =
          choose_snapshot (load crates.crc32 is_utf8 d.snapshot) m.snapshot_seq sealed active in
        (discard_snapshot chosen.0 m >>= λ m'.
        open_replayed opts m' sealed active chosen.1.0 chosen.1.1)
          d

    -- `Store::open`
    unfoldable pub open_store : StoreOptions → Action Error Directory Store
    open_store opts d =
        (do
          m ← load_manifest opts d.manifest
          remove_orphan_segments m
          sealed ← open_all m.sealed []
          active ← open_active m.active
          open_segments opts m sealed active)
          d

    -- `meta_snapshot::store`
    unfoldable pub store_snapshot : ℕ → Action Error Store (Unit {0})
    store_snapshot snapshot_seq s =
        if disk.can_store_snapshot
        then (
          if disk.can_sync_snapshot then ok tt else err io,
          record s { snapshot = some (store crates.crc32 is_utf8 s.maps snapshot_seq) },
        )
        else (err io, s)

    unfoldable pub snapshot_meta : Action Error Store ℕ
    snapshot_meta = do
      on_active (Segment.sync disk)
      snapshot_seq ← gets (λ s. s.manifest.next_seq - 1)
      store_snapshot snapshot_seq
      modify (λ s. record s { manifest = record (s.manifest) { snapshot_seq = snapshot_seq } })
      store_manifest disk
      pure snapshot_seq

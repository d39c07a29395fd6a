-- ===== src/Compact.antt =====
-- embedding-store/src/compact.rs: the sealed segments are rewritten into one that holds the live
-- records. The writer is a segment of its own beside the store. A writer that is dropped after an error
-- hands its buffer to the file once more.
pub mod Copies
pub mod Documents
pub mod Relocated
pub mod Swapped
pub mod Reading
pub mod Keeping
pub mod Kept
pub mod Stranded
use embedding_processing_rs.Base.{
  ℕ, ◌+◌, ◌-◌, ◌%◌, ◌^◌, min, max, Bool, true, false, not, Option, none, some, List, [], ◌∷◌, ◌++◌,
  leb, ◌==◌, if◌then◌else◌, is_empty, length, contains, is_some, Result, ok, err, map_err,
  reject_if,
}
use embedding_processing_rs.Base.Action.{
  Action, pure, raise, lift, gets, modify, within, ◌>>=◌, ◌>>◌,
}
use embedding_processing_rs.HashMap
use embedding_processing_rs.HashMap.{HashMap}
use embedding_processing_rs.Record.{decode}
use embedding_processing_rs.Maps.{Loc, DocEntry, SplitEntry, SummaryEntry, Maps, owned_summary_ids}
use embedding_processing_rs.Manifest.{SegmentInfo, segment_ids}
use embedding_processing_rs.Crates.{Crates}
use embedding_processing_rs.Errors.{Error, io, panicked, segment_in_use, bad_record}
use embedding_processing_rs.Segment
use embedding_processing_rs.Segment.{Disk, ActiveSegment, open_segment}
use embedding_processing_rs.Store.Types.{Store}
use embedding_processing_rs.Store.Read.{read_record}
use embedding_processing_rs.Store.Seal.{file_of, store_manifest, seal_old}
use embedding_processing_rs.Store.Open.{snapshot_meta}

-- Where the records that were copied are now.
abbrev pub NewLocs : Type 0
NewLocs = HashMap Loc

-- The local variables of the copy loop.
pub record Copying : Type 0 where
  pub writer : ActiveSegment
  pub split_locs : NewLocs
  pub summary_locs : NewLocs
  pub doc_locs : NewLocs
  pub first_seq : ℕ
  pub last_seq : ℕ

-- `u64::MAX`
abbrev pub no_seq : ℕ
no_seq = 2 ^ 64 - 1

abbrev pub start_copying : ActiveSegment → Copying
start_copying writer = record {
  writer = writer;
  split_locs = [];
  summary_locs = [];
  doc_locs = [];
  first_seq = no_seq;
  last_seq = 0;
}

abbrev pub note_split : ℕ → Loc → Copying → Copying
note_split id loc c = record c { split_locs = c.split_locs ++ ((id, loc) ∷ []) }

abbrev pub note_summary : ℕ → Loc → Copying → Copying
note_summary id loc c = record c { summary_locs = c.summary_locs ++ ((id, loc) ∷ []) }

abbrev pub note_doc : ℕ → Loc → Copying → Copying
note_doc id loc c = record c { doc_locs = c.doc_locs ++ ((id, loc) ∷ []) }

abbrev pub note_seq : ℕ → Copying → Copying
note_seq seq c = record c { first_seq = min c.first_seq seq; last_seq = max c.last_seq seq }

-- The documents whose record is in a sealed segment.
abbrev pub sealed_docs : List ℕ → HashMap DocEntry → List ℕ
sealed_docs sealed_ids [] = []
sealed_docs sealed_ids ((id, e) ∷ docs) =
    let rest = sealed_docs sealed_ids docs in
    if contains sealed_ids e.loc.segment then id ∷ rest else rest

unfoldable pub place_id : ℕ → List ℕ → List ℕ
place_id id [] = id ∷ []
place_id id (j ∷ ids) = let rest = place_id id ids in if leb id j then id ∷ (j ∷ ids) else j ∷ rest

-- `sort_unstable` on ids that differ.
abbrev pub sort_ids : List ℕ → List ℕ
sort_ids [] = []
sort_ids (id ∷ ids) = place_id id (sort_ids ids)

module _ (crates : Crates) (disk : Disk) (store : Store) where
  abbrev pub on_writer : {A : Type 0} → Action Error ActiveSegment A → Action Error Copying A
  on_writer m = within (λ c. c.writer) (λ w c. record c { writer = w }) m

  -- The bytes of a record are copied as they are.
  unfoldable pub copy_record : Loc → Action Error Copying Loc
  copy_record loc = do
    bytes ← lift (read_record store loc)
    view ← lift (map_err (bad_record loc) (decode crates.crc32 bytes))
    offset ← on_writer (Segment.append disk bytes view.seq)
    modify (note_seq view.seq)
    id ← gets (λ c. c.writer.id)
    pure (record { segment = id; offset = offset; len = length bytes % 2 ^ 32 })

  module _ {V : Type 0} (at : V → Loc) (note : ℕ → Loc → Copying → Copying) (m : HashMap V) where
    abbrev pub copy_at : ℕ → Option V → Action Error Copying (Unit {0})
    copy_at id none = pure tt
    copy_at id (some e) = do loc ← copy_record (at e); modify (note id loc)

    -- One round of the loops over the summaries and over the splits of a document.
    abbrev pub copy_found : ℕ → Action Error Copying (Unit {0})
    copy_found id = copy_at id (HashMap.get id m)

    abbrev pub copy_each : List ℕ → Action Error Copying (Unit {0})
    copy_each [] = pure tt
    copy_each (id ∷ ids) = do copy_found id; copy_each ids

  unfoldable pub copy_entry : ℕ → DocEntry → Action Error Copying (Unit {0})
  copy_entry doc_id entry = do
    copy_each (λ (e : SummaryEntry). e.loc) note_summary store.maps.summaries
        (owned_summary_ids entry)
    copy_each (λ (e : SplitEntry). e.loc) note_split store.maps.splits entry.split_ids
    loc ← copy_record entry.loc
    modify (note_doc doc_id loc)

  abbrev pub copy_known : ℕ → Option DocEntry → Action Error Copying (Unit {0})
  copy_known doc_id none = raise panicked
  copy_known doc_id (some entry) = copy_entry doc_id entry

  abbrev pub copy_document : ℕ → Action Error Copying (Unit {0})
  copy_document doc_id = copy_known doc_id (HashMap.get doc_id store.maps.docs)

  abbrev pub copy_documents : List ℕ → Action Error Copying (Unit {0})
  copy_documents [] = pure tt
  copy_documents (id ∷ ids) = do copy_document id; copy_documents ids

-- The loops that enter the new locations: `get_mut`, and nothing for a key that is not there.
module _ {V : Type 0} (put : V → Loc → V) where
  abbrev pub relocate_at : ℕ → Loc → HashMap V → Option V → HashMap V
  relocate_at id loc m none = m
  relocate_at id loc m (some e) = HashMap.insert id (put e loc) m

  abbrev pub relocate : ℕ → Loc → HashMap V → HashMap V
  relocate id loc m = relocate_at id loc m (HashMap.get id m)

  abbrev pub relocate_each : NewLocs → HashMap V → HashMap V
  relocate_each [] m = m
  relocate_each ((id, loc) ∷ locs) m = relocate_each locs (relocate id loc m)

abbrev pub put_split : SplitEntry → Loc → SplitEntry
put_split e loc = record e { loc = loc }

abbrev pub put_summary : SummaryEntry → Loc → SummaryEntry
put_summary e loc = record e { loc = loc }

abbrev pub put_doc : DocEntry → Loc → DocEntry
put_doc e loc = record e { loc = loc }

unfoldable pub relocate_all : Copying → Maps → Maps
relocate_all c m = record {
  docs = relocate_each put_doc c.doc_locs m.docs;
  splits = relocate_each put_split c.split_locs m.splits;
  summaries = relocate_each put_summary c.summary_locs m.summaries;
}

abbrev pub info_of_copy : ℕ → Copying → SegmentInfo
info_of_copy new_id c = record {
  id = new_id;
  bytes = c.writer.len;
  first_seq = if c.first_seq == no_seq then 0 else c.first_seq;
  last_seq = c.last_seq;
}

-- The manifest names the segments of the list and no snapshot.
abbrev pub name_segments : List SegmentInfo → Store → Store
name_segments sealed s = record s {
  manifest = record (s.manifest) { sealed = sealed; snapshot_seq = 0; tombstone_bytes = 0 };
}

module _ (disk : Disk) where
  -- `fs::remove_file` with an error that is logged or dropped.
  unfoldable pub remove_file : ℕ → Store → Store
  remove_file id s =
      if disk.can_remove id then record s { files = HashMap.remove id s.files } else s

  abbrev pub remove_files : List ℕ → Store → Store
  remove_files [] s = s
  remove_files (id ∷ ids) s = remove_files ids (remove_file id s)

  -- `meta_snapshot::remove`
  unfoldable pub remove_meta_snapshot : Action Error Store (Unit {0})
  remove_meta_snapshot s = elim s.snapshot [
    | none ↦ (ok tt, s)
    | some bytes ↦
        if disk.can_remove_snapshot then (ok tt, record s { snapshot = none }) else (err io, s)
  ]

  -- `ActiveSegment::open`, which makes the file.
  unfoldable pub open_writer : ℕ → Action Error Store ActiveSegment
  open_writer new_id s =
      let bytes = file_of (HashMap.get new_id s.files) in
      if disk.can_open new_id
      then (
        ok (open_segment new_id bytes),
        record s { files = HashMap.insert new_id bytes s.files },
      )
      else (err io, s)

  -- The file that a writer leaves when it is dropped.
  abbrev pub dropped : ActiveSegment → Store → Store
  dropped w s = record s { files = HashMap.insert w.id (Segment.flush_buf disk w).1.file s.files }

  module _ (crates : Crates) (is_utf8 : List ℕ → Bool) where
    unfoldable pub drop_sealed : Action Error Store (Unit {0})
    unfolding segment_ids
    drop_sealed = do
      old_ids ← gets (λ s. segment_ids s.manifest)
      remove_meta_snapshot
      modify (name_segments [])
      store_manifest disk
      modify (λ s. record s { sealed = [] })
      modify (remove_files old_ids)
      snapshot_meta disk crates is_utf8
      pure tt

    -- Behind the seal of the new segment.
    unfoldable pub swap : ℕ → Copying → List ℕ → Action Error Store (Unit {0})
    unfolding segment_ids
    swap new_id c bytes = do
      remove_meta_snapshot
      old_ids ← gets (λ s. segment_ids s.manifest)
      modify (name_segments (info_of_copy new_id c ∷ []))
      store_manifest disk
      modify (λ s. record s { maps = relocate_all c s.maps; sealed = (new_id, bytes) ∷ [] })
      modify (remove_files old_ids)
      snapshot_meta disk crates is_utf8
      pure tt

    unfoldable pub seal_copy : ℕ → Copying → Action Error Store (Unit {0})
    seal_copy new_id c = do bytes ← seal_old disk c.writer; swap new_id c bytes

    -- Where nothing was copied, the sealed segments are dropped outright.
    unfoldable pub finish_copy : ℕ → Copying → Action Error Store (Unit {0})
    finish_copy new_id c s =
        if c.writer.len == 0 then drop_sealed (remove_file new_id s) else seal_copy new_id c s

    abbrev pub copied : ℕ → Result Error (Unit {0}) × Copying → Action Error Store (Unit {0})
    copied new_id (ok u, c) s = finish_copy new_id c s
    copied new_id (err e, c) s = (err e, dropped c.writer s)

    unfoldable pub copy_into : ℕ → List ℕ → ActiveSegment → Action Error Store (Unit {0})
    copy_into new_id sealed_ids writer s =
        copied new_id
          (copy_documents crates disk s (sort_ids (sealed_docs sealed_ids s.maps.docs))
            (start_copying writer))
          s

    unfoldable pub compact_into : ℕ → List ℕ → Action Error Store (Unit {0})
    compact_into new_id sealed_ids = do
      writer ← open_writer new_id
      lift (reject_if (not (writer.len == 0)) (segment_in_use new_id))
      copy_into new_id sealed_ids writer

    -- What `compact` does with the result: the file of the new segment goes with an error.
    abbrev pub or_remove : ℕ → Result Error (Unit {0}) × Store → Result Error (Unit {0}) × Store
    or_remove new_id (ok u, s) = (ok tt, s)
    or_remove new_id (err e, s) =
        (err e, if HashMap.contains_key new_id s.files then remove_file new_id s else s)

    abbrev pub claimed : Store → Store
    claimed s = record s {
      manifest = record (s.manifest) { next_segment_id = s.manifest.next_segment_id + 1 };
    }

    unfoldable pub compact : Action Error Store (Unit {0})
    compact s =
        if is_empty s.sealed
        then (ok tt, s)
        else or_remove s.manifest.next_segment_id
            (compact_into s.manifest.next_segment_id (HashMap.keys s.sealed) (claimed s))

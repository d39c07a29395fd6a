-- ===== src/Replay.antt =====
-- embedding-store/src/replay.rs: rebuilding the maps from the bytes of a segment.
-- The loop of `scan_segment` is a recursion on fuel over the bytes from `offset` on; the length of
-- the segment is fuel enough, since every record takes 22 bytes at least. The maps are passed and
-- returned; on an error they are dropped, as `Store::open` drops them.
pub mod Fuel
pub mod Frames
pub mod Torn
pub mod Records
pub mod Commit
pub mod Untorn
use embedding_processing_rs.Base.{
  ℕ, zero, suc, ◌+◌, ◌-◌, ◌^◌, Bool, true, false, ◌&&◌, not, Option, none, some, List, [], ◌∷◌,
  ◌++◌, ltb, leb, ◌==◌, if◌then◌else◌, length, drop, filter_by, contains, dedup_seen, Result, ok,
  err, ok_or, ◌>>=◌, ◌>>◌,
}
use embedding_processing_rs.HashMap
use embedding_processing_rs.Record.{
  RecordKind, RecordView, DecodeError, DocMeta, SplitMeta, SummaryMeta, DeleteMeta, decode,
  peek_len,
}
use embedding_processing_rs.Maps.{
  Loc, DocEntry, SplitEntry, SummaryEntry, Maps, flatten_ids, remove_doc,
}
use embedding_processing_rs.Crates.{Crates}
use embedding_processing_rs.Errors.{Error, corrupt, bad_meta, out_of_fuel}

pub record SegmentScan : Type 0 where
  pub applied : ℕ
  pub skipped : ℕ
  pub good_bytes : ℕ
  pub torn_at : Option ℕ
  pub first_seq : Option ℕ
  pub last_seq : ℕ

-- `SegmentScan::default()`
abbrev pub no_scan : SegmentScan
no_scan = record {
  applied = 0;
  skipped = 0;
  good_bytes = 0;
  torn_at = none;
  first_seq = none;
  last_seq = 0;
}

-- One entity waiting for its document's `Doc` record.
pub data Pending : Type 0 where
  -- split_id, doc_id, summary_ids, loc
  split : ℕ → ℕ → List ℕ → Loc → Pending
  -- summary_id, doc_id, split_id, loc
  summary : ℕ → ℕ → ℕ → Loc → Pending

abbrev pub doc_id_of : Pending → ℕ
doc_id_of (split split_id doc_id summary_ids loc) = doc_id
doc_id_of (summary summary_id doc_id split_id loc) = doc_id

-- `u32::MAX`
abbrev pub u32_max : ℕ
u32_max = 2 ^ 32 - 1

abbrev pub dedup_preserving_order : List ℕ → List ℕ
dedup_preserving_order ids = dedup_seen [] ids

-- The summary ids that the splits of `mine` name, in order.
abbrev pub split_summary_ids : List Pending → List ℕ
split_summary_ids [] = []
split_summary_ids (split split_id doc_id summary_ids loc ∷ mine) =
    summary_ids ++ split_summary_ids mine
split_summary_ids (summary summary_id doc_id split_id loc ∷ mine) = split_summary_ids mine

-- The loop over `mine`: each entity goes into its map.
unfoldable pub insert_pending : List Pending → Maps → Maps
insert_pending [] m = m
insert_pending (split split_id doc_id summary_ids loc ∷ mine) m =
    insert_pending mine (record m {
      splits = HashMap.insert split_id (record { doc_id = doc_id; loc = loc }) m.splits;
    })
insert_pending (summary summary_id doc_id split_id loc ∷ mine) m = insert_pending mine (record m {
  summaries =
      HashMap.insert summary_id (record { doc_id = doc_id; split_id = split_id; loc = loc })
        m.summaries;
})

abbrev pub belongs_to : ℕ → Pending → Bool
belongs_to doc_id p = doc_id_of p == doc_id

-- Move this document's buffered entities into the maps and record the document itself.
unfoldable pub commit_doc : DocMeta → ℕ → Loc → Maps → List Pending → Maps × List Pending
commit_doc meta seq loc maps pending =
    let cleared =
      if HashMap.contains_key meta.doc_id maps.docs
      then (remove_doc meta.doc_id u32_max maps).1
      else maps in
    let mine = filter_by (belongs_to meta.doc_id) pending in
    let entered = insert_pending mine cleared in
    let in_doc_list = flatten_ids meta.summary_ids in
    let extra =
      dedup_preserving_order
        (filter_by (λ id. not (contains in_doc_list id)) (split_summary_ids mine)) in
    (
      record entered {
        docs =
            HashMap.insert meta.doc_id
              (record {
                url = meta.url;
                split_ids = meta.split_ids;
                summary_ids = meta.summary_ids;
                extra_summary_ids = extra;
                seq = seq;
                loc = loc;
              })
              entered.docs;
      },
      filter_by (λ p. not (belongs_to meta.doc_id p)) pending,
    )

unfoldable pub apply :
    Crates
    → RecordKind
    → ℕ
    → List ℕ
    → Loc
    → Maps
    → List Pending
    → Result Error (Maps × List Pending)
apply crates RecordKind.split seq meta loc maps pending = do
  m ← ok_or (crates.split.from_slice meta) bad_meta
  ok (maps, pending ++ (split m.split_id m.doc_id m.summary_ids loc ∷ []))
apply crates RecordKind.summary seq meta loc maps pending = do
  m ← ok_or (crates.summary.from_slice meta) bad_meta
  ok (maps, pending ++ (summary m.summary_id m.doc_id m.split_id loc ∷ []))
apply crates RecordKind.delete_doc seq meta loc maps pending = do
  m ← ok_or (crates.delete.from_slice meta) bad_meta
  ok ((remove_doc m.doc_id u32_max maps).1, filter_by (λ p. not (belongs_to m.doc_id p)) pending)
apply crates RecordKind.doc seq meta loc maps pending = do
  m ← ok_or (crates.doc.from_slice meta) bad_meta
  ok (commit_doc m seq loc maps pending)

-- Is this bad record a torn write rather than corruption?
unfoldable pub is_torn_tail : DecodeError → List ℕ → Bool
unfolding peek_len
is_torn_tail (DecodeError.truncated need have) rest = true
is_torn_tail _ rest = elim (peek_len rest) [ some len ↦ leb (length rest) len | none ↦ true ]

-- The variables of the loop.
pub record Scanning : Type 0 where
  pub scan : SegmentScan
  pub maps : Maps
  pub pending : List Pending

abbrev pub or_else : Option ℕ → ℕ → Option ℕ
or_else none n = some n
or_else (some m) n = some m

-- The body of the loop behind a record that decodes.
unfoldable pub scan_record : Crates → ℕ → ℕ → ℕ → RecordView → Scanning → Result Error Scanning
scan_record crates segment_id snapshot_seq offset view s =
    let loc : Loc = record { segment = segment_id; offset = offset; len = view.len } in
    let seen : SegmentScan = record (s.scan) {
      first_seq = or_else s.scan.first_seq view.seq;
      last_seq = view.seq;
      good_bytes = offset + view.len;
    } in
    if ltb snapshot_seq view.seq
    then (do
      (maps, pending) ← apply crates view.kind view.seq view.meta loc s.maps s.pending
      ok (record {
        scan = record seen { applied = s.scan.applied + 1 };
        maps = maps;
        pending = pending;
      }))
    else ok (record s { scan = record seen { skipped = s.scan.skipped + 1 } })

-- What the loop does at a record that does not decode: it stops at a torn tail.
unfoldable pub scan_bad : ℕ → Bool → ℕ → DecodeError → List ℕ → Scanning → Result Error Scanning
scan_bad segment_id allow_torn_tail offset e rest s =
    if allow_torn_tail && is_torn_tail e rest
    then ok (record s { scan = record (s.scan) { torn_at = some offset } })
    else err (corrupt segment_id offset e)

unfoldable pub scan_loop : Crates → ℕ → ℕ → Bool → ℕ → List ℕ → ℕ → Scanning → Result Error Scanning
scan_loop crates segment_id snapshot_seq allow fuel [] offset s = ok s
scan_loop crates segment_id snapshot_seq allow zero (b ∷ bs) offset s = err out_of_fuel
scan_loop crates segment_id snapshot_seq allow (suc fuel) (b ∷ bs) offset s =
    elim (decode crates.crc32 (b ∷ bs)) [
      | err e ↦ scan_bad segment_id allow offset e (b ∷ bs) s
      | ok view ↦ do
        s' ← scan_record crates segment_id snapshot_seq offset view s
        scan_loop crates segment_id snapshot_seq allow fuel (drop view.len (b ∷ bs))
            (offset + view.len) s'
    ]

unfoldable pub scan_segment :
    Crates → List ℕ → ℕ → ℕ → Maps → Bool → Result Error (SegmentScan × Maps)
scan_segment crates bytes segment_id snapshot_seq maps allow_torn_tail = do
  s ←
      scan_loop crates segment_id snapshot_seq allow_torn_tail (length bytes) bytes 0
        (record { scan = no_scan; maps = maps; pending = [] })
  ok (s.scan, s.maps)

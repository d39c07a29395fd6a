-- ===== src/Store/Write.antt =====
-- embedding-store/src/store.rs: inserting, deleting and sealing. A method that fails leaves what it
-- had changed.
use embedding_processing_rs.Base.{
  ℕ, ◌+◌, ◌%◌, ◌^◌, Bool, true, false, not, Option, none, some, List, [], ◌∷◌, ◌++◌, map, is_empty,
  length, contains, filter_by, dedup_seen, Result, ok, err, ok_or, if◌then◌else◌,
}
use embedding_processing_rs.Base.Action.{Action, pure, lift, gets, modify, ◌>>=◌, ◌>>◌}
use embedding_processing_rs.HashMap
use embedding_processing_rs.Record.{
  RecordKind, no_vector, encode, encode_vector, DocMeta, SplitMeta, SummaryMeta,
}
use embedding_processing_rs.Maps.{Loc, DocEntry, Maps, RemovedDoc, flatten_ids, remove_doc}
use embedding_processing_rs.Crates.{Crates}
use embedding_processing_rs.Errors.{Error, bad_meta, not_rewound, panicked}
use embedding_processing_rs.Segment
use embedding_processing_rs.Segment.{Disk, ActiveSegment, open_segment}
use embedding_processing_rs.Dto.{EmbeddingDto, SummaryDto, SplitDto, DocumentDto}
use embedding_processing_rs.Store.Types.{Store, Placed, Appended, Replaced}
use embedding_processing_rs.Store.Validate.{validate}

-- A method of the active segment, run by the store.
abbrev pub on_active : {A : Type 0} → Action Error ActiveSegment A → Action Error Store A
on_active m s = let (r, active) = m s.active in (r, record s { active = active })

unfoldable pub next_seq : Action Error Store ℕ
next_seq s = (
  ok s.manifest.next_seq,
  record s { manifest = record (s.manifest) { next_seq = s.manifest.next_seq + 1 } },
)

abbrev pub vector_of : Option EmbeddingDto → Result Error (List ℕ)
vector_of none = err panicked
vector_of (some e) = ok e.embedding

abbrev pub model_of : ℕ → Option EmbeddingDto → ℕ
model_of default none = default
model_of default (some e) = e.model_id

-- A loop that appends a record for each element.
unfoldable pub append_each :
    {A : Type 0}
    → (A → Action Error Store (Placed A))
    → List A
    → Action Error Store (List (Placed A))
append_each one [] = pure []
append_each one (x ∷ xs) = do placed ← one x; rest ← append_each one xs; pure (placed ∷ rest)

abbrev pub summary_meta : ℕ → SummaryDto → SummaryMeta
summary_meta model_id s = record {
  summary_id = s.summary_id;
  doc_id = s.document_id;
  split_id = s.split_id;
  split_seq_id = s.split_sequence_id;
  token_len = s.token_len;
  centrality = s.centrality;
  text = s.text_content;
  model_id = model_of model_id s.embedding;
}

abbrev pub split_meta : ℕ → SplitDto → SplitMeta
split_meta model_id s = record {
  split_id = s.split_id;
  seq_id = s.sequence_id;
  doc_id = s.doc_id;
  token_len = s.token_len;
  text = s.text_content;
  summary_ids = map (λ x. x.summary_id) s.summaries;
  model_id = model_of model_id s.embedding;
}

-- The ids of the document's own list.
abbrev pub list_ids : Option (List SummaryDto) → Option (List ℕ)
list_ids none = none
list_ids (some ss) = some (map (λ s. s.summary_id) ss)

abbrev pub doc_meta : DocumentDto → DocMeta
doc_meta doc = record {
  doc_id = doc.document_id;
  url = doc.document_url;
  split_ids = map (λ s. s.split_id) doc.splits;
  summary_ids = list_ids doc.summaries;
}

-- The summary ids that the splits name, in order.
abbrev pub named_by_splits : List SplitDto → List ℕ
named_by_splits [] = []
named_by_splits (s ∷ ss) = map (λ x. x.summary_id) s.summaries ++ named_by_splits ss

abbrev pub extra_ids : DocumentDto → List ℕ
extra_ids doc = dedup_seen [] (
    filter_by (λ id. not (contains (flatten_ids (list_ids doc.summaries)) id))
      (named_by_splits doc.splits))

module _ (crates : Crates) (disk : Disk) where
  unfoldable pub append : RecordKind → List ℕ → List ℕ → Action Error Store Loc
  append kind meta vector = do
    dtype ← gets (λ s. if is_empty vector then no_vector else s.opts.dtype)
    seq ← next_seq
    let bytes = encode crates.crc32 seq kind dtype meta vector
    offset ← on_active (Segment.append disk bytes seq)
    id ← gets (λ s. s.active.id)
    pure (record { segment = id; offset = offset; len = length bytes % 2 ^ 32 })

  -- The tombstone that `insert` and `delete` write.
  unfoldable pub append_delete : ℕ → Action Error Store (Unit {0})
  append_delete doc_id = do
    seq ← next_seq
    meta ← lift (ok_or (crates.delete.to_vec (record { doc_id = doc_id })) bad_meta)
    on_active
        (Segment.append disk (encode crates.crc32 seq RecordKind.delete_doc no_vector meta []) seq)
    pure tt

  unfoldable pub append_summary : SummaryDto → Action Error Store (Placed SummaryDto)
  append_summary s = do
    model_id ← gets (λ t. t.opts.model_id)
    dtype ← gets (λ t. t.opts.dtype)
    meta ← lift (ok_or (crates.summary.to_vec (summary_meta model_id s)) bad_meta)
    elements ← lift (vector_of s.embedding)
    loc ← append RecordKind.summary meta (encode_vector crates.to_half elements dtype)
    pure (s, loc)

  unfoldable pub append_summaries : List SummaryDto → Action Error Store (List (Placed SummaryDto))
  append_summaries = append_each append_summary

  unfoldable pub append_split : SplitDto → Action Error Store (Placed SplitDto)
  append_split s = do
    model_id ← gets (λ t. t.opts.model_id)
    dtype ← gets (λ t. t.opts.dtype)
    meta ← lift (ok_or (crates.split.to_vec (split_meta model_id s)) bad_meta)
    elements ← lift (vector_of s.embedding)
    loc ← append RecordKind.split meta (encode_vector crates.to_half elements dtype)
    pure (s, loc)

  unfoldable pub append_splits : List SplitDto → Action Error Store (List (Placed SplitDto))
  append_splits = append_each append_split

  unfoldable pub append_doc : DocumentDto → Action Error Store DocEntry
  append_doc doc = do
    meta ← lift (ok_or (crates.doc.to_vec (doc_meta doc)) bad_meta)
    seq ← gets (λ s. s.manifest.next_seq)
    loc ← append RecordKind.doc meta []
    pure (record {
      url = doc.document_url;
      split_ids = map (λ s. s.split_id) doc.splits;
      summary_ids = list_ids doc.summaries;
      extra_summary_ids = extra_ids doc;
      seq = seq;
      loc = loc;
    })

  unfoldable pub append_document : DocumentDto → List SummaryDto → Action Error Store Appended
  append_document doc summaries = do
    replaces ← gets (λ s. HashMap.contains_key doc.document_id s.maps.docs)
    if replaces then append_delete doc.document_id else pure tt
    placed_summaries ← append_summaries summaries
    placed_splits ← append_splits doc.splits
    doc_entry ← append_doc doc
    pure (record {
      replaces = replaces;
      summaries = placed_summaries;
      splits = placed_splits;
      doc_entry = doc_entry;
    })

-- The two loops of `insert` that enter the new locations into the maps.
abbrev pub enter_summaries : List (Placed SummaryDto) → Maps → Maps
enter_summaries [] m = m
enter_summaries ((s, loc) ∷ rest) m = enter_summaries rest (record m {
  summaries =
      HashMap.insert s.summary_id
        (record { doc_id = s.document_id; split_id = s.split_id; loc = loc }) m.summaries;
})

abbrev pub enter_splits : List (Placed SplitDto) → Maps → Maps
enter_splits [] m = m
enter_splits ((s, loc) ∷ rest) m = enter_splits rest (record m {
  splits = HashMap.insert s.split_id (record { doc_id = s.doc_id; loc = loc }) m.splits;
})

-- What `insert` does to the maps behind the removal.
unfoldable pub enter_document : DocumentDto → Appended → Maps → Maps
enter_document doc a m =
    let n = enter_splits a.splits (enter_summaries a.summaries m) in
    record n { docs = HashMap.insert doc.document_id a.doc_entry n.docs }

-- The bytes of the records that a removal frees: in sealed segments, and in the active one.
unfoldable pub account_removed : RemovedDoc → Store → Store
account_removed removed s = record s {
  manifest = record (s.manifest) {
    tombstone_bytes = s.manifest.tombstone_bytes + removed.sealed_bytes;
  };
  pending_tombstone_bytes = s.pending_tombstone_bytes + removed.active_bytes;
}

-- `self.maps.remove_doc(doc_id, self.active.id).expect(…)` and the accounting behind it.
abbrev pub take_out : Option RemovedDoc × Maps → Action Error Store RemovedDoc
take_out (none, m) s = (err panicked, record s { maps = m })
take_out (some removed, m) s = (ok removed, account_removed removed (record s { maps = m }))

unfoldable pub remove_from_maps : ℕ → Action Error Store RemovedDoc
unfolding account_removed
remove_from_maps doc_id s = take_out (remove_doc doc_id s.active.id s.maps) s

-- `Replaced::default()`
abbrev pub not_replaced : Replaced
not_replaced = record { existed = false; split_ids = []; summary_ids = [] }

unfoldable pub displace : Bool → ℕ → Action Error Store Replaced
displace false doc_id = pure not_replaced
displace true doc_id = do
  removed ← remove_from_maps doc_id
  pure (record { existed = true; split_ids = removed.split_ids; summary_ids = removed.summary_ids })

-- Put the segment and the sequence number back after a failed append. What the active segment's
-- `truncate_to` returned decides which error is passed on.
unfoldable pub rewind :
    {A : Type 0} → ℕ → ℕ → Error → Result Error (Unit {0}) × Store → Result Error A × Store
rewind rewind_len rewind_seq e (err rewind_error, s) =
    (err (not_rewound e rewind_len rewind_error), s)
rewind rewind_len rewind_seq e (ok _, s) =
    (err e, record s { manifest = record (s.manifest) { next_seq = rewind_seq } })

module _ (crates : Crates) (disk : Disk) where
  -- The append phase, rewound on an error.
  abbrev pub or_rewind : ℕ → ℕ → Result Error Appended × Store → Result Error Appended × Store
  or_rewind rewind_len rewind_seq (ok appended, s) = (ok appended, s)
  or_rewind rewind_len rewind_seq (err e, s) =
      rewind rewind_len rewind_seq e (on_active (Segment.truncate_to disk rewind_len) s)

  unfoldable pub append_or_rewind : DocumentDto → List SummaryDto → Action Error Store Appended
  unfolding rewind
  append_or_rewind doc summaries s =
      or_rewind s.active.len s.manifest.next_seq (append_document crates disk doc summaries s)

  -- `insert` up to its flush: the records are appended and the maps brought up to date.
  unfoldable pub record_document : DocumentDto → Action Error Store Replaced
  record_document doc = do
    opts ← gets (λ s. s.opts)
    summaries ← lift (validate opts doc)
    appended ← append_or_rewind doc summaries
    replaced ← displace appended.replaces doc.document_id
    modify (λ s. record s { maps = enter_document doc appended s.maps })
    let live_splits = map (λ s. s.split_id) doc.splits
    let live_summaries = map (λ s. s.summary_id) summaries
    pure (record replaced {
      split_ids = filter_by (λ id. not (contains live_splits id)) replaced.split_ids;
      summary_ids = filter_by (λ id. not (contains live_summaries id)) replaced.summary_ids;
    })

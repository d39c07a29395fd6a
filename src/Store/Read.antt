-- ===== src/Store/Read.antt =====
-- embedding-store/src/store.rs: reading entities back.
use embedding_processing_rs.Base.{
  ℕ, ◌+◌, ◌-◌, ◌%◌, ◌^◌, ◌==◌, ltb, Bool, true, false, Option, none, some, List, [], ◌∷◌, Result,
  ok, err, ok_or, map_err, ◌>>=◌, if◌then◌else◌,
}
use embedding_processing_rs.HashMap
use embedding_processing_rs.Record.{
  VectorDtype, SplitMeta, SummaryMeta, record_header_len, vector_bytes, decode, decode_vector,
}
use embedding_processing_rs.Maps.{Loc, SplitEntry, SummaryEntry}
use embedding_processing_rs.Crates.{Crates}
use embedding_processing_rs.Errors.{Error, bad_meta, unreadable, segment_not_open, record_too_short}
use embedding_processing_rs.Segment.{read_at, sealed_slice}
use embedding_processing_rs.Dto.{EmbeddingDto, SummaryDto, SplitDto, DocumentDto}
use embedding_processing_rs.Store.Types.{Store}

pub data EntityKind : Type 0 where
  split summary : EntityKind

-- `read_record`, and what `with_bytes` hands to its function.
unfoldable pub read_record : Store → Loc → Result Error (List ℕ)
read_record s loc = if loc.segment == s.active.id then read_at s.active loc.offset loc.len else (do
  segment ← ok_or (HashMap.get loc.segment s.sealed) (segment_not_open loc.segment)
  sealed_slice loc.segment segment loc.offset loc.len)

abbrev loc_of_split : Option SplitEntry → Option Loc
loc_of_split none = none
loc_of_split (some e) = some e.loc

abbrev loc_of_summary : Option SummaryEntry → Option Loc
loc_of_summary none = none
loc_of_summary (some e) = some e.loc

abbrev loc_of_entity : Store → EntityKind → ℕ → Option Loc
loc_of_entity s EntityKind.split id = loc_of_split (HashMap.get id s.maps.splits)
loc_of_entity s EntityKind.summary id = loc_of_summary (HashMap.get id s.maps.summaries)

abbrev vector_len : Store → ℕ
vector_len s = vector_bytes s.opts.dtype s.opts.n_embd % 2 ^ 32

-- The end of a record, which is its vector.
abbrev tail_of : Loc → ℕ → Loc
tail_of loc len = record { segment = loc.segment; offset = loc.offset + (loc.len - len); len = len }

-- The bytes and the type that `with_vector` hands to its function.
unfoldable pub with_vector : Store → EntityKind → ℕ → Result Error (Option (List ℕ × VectorDtype))
with_vector s kind id = elim (loc_of_entity s kind id) [
  | none ↦ ok none
  | some loc ↦
      if ltb loc.len (record_header_len + vector_len s)
      then err (record_too_short id loc.len (vector_len s))
      else (do bytes ← read_record s (tail_of loc (vector_len s)); ok (some (bytes, s.opts.dtype)))
]

-- `summary_dto` and `split_dto`
abbrev pub summary_dto : SummaryMeta → Option EmbeddingDto → SummaryDto
summary_dto m embedding = record {
  summary_id = m.summary_id;
  document_id = m.doc_id;
  split_id = m.split_id;
  split_sequence_id = m.split_seq_id;
  text_content = m.text;
  token_len = m.token_len;
  centrality = m.centrality;
  embedding = embedding;
  query_distance = none;
  rank = none;
}

abbrev pub split_dto : SplitMeta → List SummaryDto → Option EmbeddingDto → Option ℕ → SplitDto
split_dto m summaries embedding query_distance = record {
  split_id = m.split_id;
  sequence_id = m.seq_id;
  doc_id = m.doc_id;
  text_content = m.text;
  token_len = m.token_len;
  summaries = summaries;
  embedding = embedding;
  query_distance = query_distance;
  rank = none;
}

abbrev pub keep : {A : Type 0} → Option A → List A → List A
keep none rest = rest
keep (some a) rest = a ∷ rest

module _ (crates : Crates) where
  -- The embedding that is built where it is asked for.
  abbrev pub embedding_of : Bool → ℕ → List ℕ → VectorDtype → ℕ → Option EmbeddingDto
  embedding_of false id vector dtype model_id = none
  embedding_of true id vector dtype model_id = some (record {
    embedding_id = id;
    embedding = decode_vector crates.from_half vector dtype;
    model_id = model_id;
  })

  unfoldable pub read_split :
      Store → ℕ → Bool → Result Error (Option (SplitMeta × Option EmbeddingDto))
  read_split s split_id with_embedding = elim (HashMap.get split_id s.maps.splits) [
    | none ↦ ok none
    | some entry ↦ do
      bytes ← read_record s entry.loc
      view ← map_err (unreadable split_id) (decode crates.crc32 bytes)
      meta ← ok_or (crates.split.from_slice view.meta) bad_meta
      ok (some (meta, embedding_of with_embedding split_id view.vector view.dtype meta.model_id))
  ]

  unfoldable pub read_summary :
      Store → ℕ → Bool → Result Error (Option (SummaryMeta × Option EmbeddingDto))
  read_summary s summary_id with_embedding = elim (HashMap.get summary_id s.maps.summaries) [
    | none ↦ ok none
    | some entry ↦ do
      bytes ← read_record s entry.loc
      view ← map_err (unreadable summary_id) (decode crates.crc32 bytes)
      meta ← ok_or (crates.summary.from_slice view.meta) bad_meta
      ok (some (meta, embedding_of with_embedding summary_id view.vector view.dtype meta.model_id))
  ]

  abbrev pub as_summary : Option (SummaryMeta × Option EmbeddingDto) → Option SummaryDto
  as_summary none = none
  as_summary (some (meta, embedding)) = some (summary_dto meta embedding)

  unfoldable pub get_summary : Store → ℕ → Bool → Result Error (Option SummaryDto)
  get_summary s summary_id with_embeddings = do
    found ← read_summary s summary_id with_embeddings
    ok (as_summary found)

  unfoldable pub get_summaries : Store → List ℕ → Bool → Result Error (List SummaryDto)
  get_summaries s [] with_embeddings = ok []
  get_summaries s (id ∷ ids) with_embeddings = do
    dto ← get_summary s id with_embeddings
    rest ← get_summaries s ids with_embeddings
    ok (keep dto rest)

  abbrev pub with_summaries :
      Store → Bool → Option (SplitMeta × Option EmbeddingDto) → Result Error (Option SplitDto)
  with_summaries s with_embeddings none = ok none
  with_summaries s with_embeddings (some (meta, embedding)) = do
    summaries ← get_summaries s meta.summary_ids with_embeddings
    ok (some (split_dto meta summaries embedding none))

  unfoldable pub get_split : Store → ℕ → Bool → Result Error (Option SplitDto)
  get_split s split_id with_embeddings = do
    found ← read_split s split_id with_embeddings
    with_summaries s with_embeddings found

  abbrev pub without_summaries : Option (SplitMeta × Option EmbeddingDto) → Option SplitDto
  without_summaries none = none
  without_summaries (some (meta, embedding)) = some (split_dto meta [] embedding none)

  unfoldable pub get_split_without_summaries : Store → ℕ → Bool → Result Error (Option SplitDto)
  get_split_without_summaries s split_id with_embeddings = do
    found ← read_split s split_id with_embeddings
    ok (without_summaries found)

  unfoldable pub get_splits : Store → List ℕ → Bool → Result Error (List SplitDto)
  get_splits s [] with_embeddings = ok []
  get_splits s (id ∷ ids) with_embeddings = do
    dto ← get_split s id with_embeddings
    rest ← get_splits s ids with_embeddings
    ok (keep dto rest)

  abbrev pub own_summaries :
      Store → Bool → Option (List ℕ) → Result Error (Option (List SummaryDto))
  own_summaries s with_embeddings none = ok none
  own_summaries s with_embeddings (some ids) = do
    summaries ← get_summaries s ids with_embeddings
    ok (some summaries)

  unfoldable pub get_doc : Store → ℕ → Bool → Result Error (Option DocumentDto)
  get_doc s doc_id with_embeddings = elim (HashMap.get doc_id s.maps.docs) [
    | none ↦ ok none
    | some entry ↦ do
      splits ← get_splits s entry.split_ids with_embeddings
      summaries ← own_summaries s with_embeddings entry.summary_ids
      ok (
          some (record {
            document_id = doc_id;
            document_url = entry.url;
            splits = splits;
            summaries = summaries;
          }))
  ]

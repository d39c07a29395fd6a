-- ===== src/Shard/Loading.antt =====
-- embedding-store/src/shard.rs: what a query loads, read from the store of a shard.
use embedding_processing_rs.Base.{
  ℕ, ◌≡◌, refl, ap, sym, ◌∙◌, Bool, Option, none, some, List, [], ◌∷◌, Result, ok, err, ◌>>=◌,
}
use embedding_processing_rs.HashMap
use embedding_processing_rs.HashMap.{HashMap}
use embedding_processing_rs.Record.{SplitMeta}
use embedding_processing_rs.Maps.{DocEntry}
use embedding_processing_rs.Crates.{Crates}
use embedding_processing_rs.Errors.{Error}
use embedding_processing_rs.Dto.{EmbeddingDto, SummaryDto, SplitDto, DocumentDto}
use embedding_processing_rs.Store.Types.{Store}
use embedding_processing_rs.Store.Read.{
  keep, read_split, with_summaries, get_summary, get_summaries, get_split,
  get_split_without_summaries, get_splits, get_doc, own_summaries, split_dto,
}

-- `distances.and_then(|d| d.get(id).copied())`
abbrev pub distance_of : Option (HashMap ℕ) → ℕ → Option ℕ
distance_of none id = none
distance_of (some d) id = HashMap.get id d

-- `hits.get(id).cloned().unwrap_or_default()`
abbrev pub or_no_hits : Option (List SummaryDto) → List SummaryDto
or_no_hits none = []
or_no_hits (some hits) = hits

abbrev at_distance : Option ℕ → Option SummaryDto → Option SummaryDto
at_distance d none = none
at_distance d (some summary) = some (record summary { query_distance = d })

abbrev pub split_at_distance : Option ℕ → Option SplitDto → Option SplitDto
split_at_distance d none = none
split_at_distance d (some split) = some (record split { query_distance = d })

abbrev pub with_hits : List SummaryDto → Option SplitDto → Option SplitDto
with_hits hits none = none
with_hits hits (some split) = some (record split { summaries = hits })

module _ (crates : Crates) (s : Store) (with_embeddings : Bool) where
  unfoldable pub load_summaries : List ℕ → Option (HashMap ℕ) → Result Error (List SummaryDto)
  load_summaries [] distances = ok []
  load_summaries (id ∷ ids) distances = do
    found ← get_summary crates s id with_embeddings
    rest ← load_summaries ids distances
    ok (keep (at_distance (distance_of distances id) found) rest)

  -- The split as `hit_summaries` asks for it.
  unfoldable pub load_split :
      ℕ → Option (HashMap (List SummaryDto)) → Result Error (Option SplitDto)
  load_split id none = get_split crates s id with_embeddings
  load_split id (some hit_summaries) = do
    found ← get_split_without_summaries crates s id with_embeddings
    ok (with_hits (or_no_hits (HashMap.get id hit_summaries)) found)

  unfoldable pub load_splits :
      List ℕ
      → Option (HashMap ℕ)
      → Option (HashMap (List SummaryDto))
      → Result Error (List SplitDto)
  load_splits [] direct_distances hit_summaries = ok []
  load_splits (id ∷ ids) direct_distances hit_summaries = do
    found ← load_split id hit_summaries
    rest ← load_splits ids direct_distances hit_summaries
    ok (keep (split_at_distance (distance_of direct_distances id) found) rest)

  unfoldable pub load_doc : ℕ → List SplitDto → Result Error (Option DocumentDto)
  load_doc doc_id splits = elim (HashMap.get doc_id s.maps.docs) [
    | none ↦ ok none
    | some entry ↦ do
      summaries ← own_summaries crates s with_embeddings entry.summary_ids
      ok (
          some (record {
            document_id = doc_id;
            document_url = entry.url;
            splits = splits;
            summaries = summaries;
          }))
  ]

  undistanced_split :
      (meta : SplitMeta) (embedding : Option EmbeddingDto) (r : Result Error (List SummaryDto))
      → (let found : Result Error (Option SplitDto) =
            r >>= (λ summaries. ok (some (split_dto meta summaries embedding none))) in
          (found >>= (λ f. ok (split_at_distance none f))) ≡ found)
  undistanced_split meta embedding (ok summaries) = refl
  undistanced_split meta embedding (err e) = refl

  undistanced_found :
      (r : Result Error (Option (SplitMeta × Option EmbeddingDto)))
      → ((r >>= with_summaries crates s with_embeddings) >>= (λ f. ok (split_at_distance none f)))
        ≡ (r >>= with_summaries crates s with_embeddings)
  undistanced_found (ok none) = refl
  undistanced_found (ok (some (meta, embedding))) =
      undistanced_split meta embedding (get_summaries crates s meta.summary_ids with_embeddings)
  undistanced_found (err e) = refl

  -- A split that is read has no distance of its own.
  get_split-undistanced :
      (id : ℕ)
      → (get_split crates s id with_embeddings >>= (λ f. ok (split_at_distance none f)))
        ≡ get_split crates s id with_embeddings
  unfolding get_split
  get_split-undistanced id = undistanced_found (read_split crates s id with_embeddings)

  -- What is done to the element of a loop may be done before the rest of it.
  done_before :
      {A B : Type 0} (r : Result Error A) (f : A → B) (k : B → Result Error (List SplitDto))
      → (r >>= (λ a. k (f a))) ≡ ((r >>= (λ a. ok (f a))) >>= k)
  done_before (ok a) f k = refl
  done_before (err e) f k = refl

  load_splits-get_splits :
      (ids : List ℕ) → load_splits ids none none ≡ get_splits crates s ids with_embeddings
  unfolding load_splits get_splits load_split
  load_splits-get_splits [] = refl
  load_splits-get_splits (id ∷ ids) =
      let after : Result Error (List SplitDto) → Option SplitDto → Result Error (List SplitDto) =
        λ rest f. rest >>= (λ out. ok (keep f out)) in
      done_before (get_split crates s id with_embeddings) (split_at_distance none)
        (after (load_splits ids none none))
      ∙ ap (λ r. r >>= after (load_splits ids none none)) (get_split-undistanced id)
      ∙ ap (λ r. get_split crates s id with_embeddings >>= after r) (load_splits-get_splits ids)

  -- What `load_doc` and `get_doc` do with the splits of a document that is held.
  abbrev around : ℕ → DocEntry → List SplitDto → Result Error (Option DocumentDto)
  around doc_id entry splits = do
    summaries ← own_summaries crates s with_embeddings entry.summary_ids
    ok (
        some (record {
          document_id = doc_id;
          document_url = entry.url;
          splits = splits;
          summaries = summaries;
        }))

  load_doc-held :
      (doc_id : ℕ) (entry : DocEntry) (splits : Result Error (List SplitDto))
      → HashMap.get doc_id s.maps.docs ≡ some entry
      → (splits >>= load_doc doc_id) ≡ (splits >>= around doc_id entry)
  unfolding load_doc
  load_doc-held doc_id entry (ok splits) held = rw (held, load_doc) refl
  load_doc-held doc_id entry (err e) held = refl

  get_doc-held :
      (doc_id : ℕ) (entry : DocEntry)
      → HashMap.get doc_id s.maps.docs ≡ some entry
      → get_doc crates s doc_id with_embeddings
        ≡ (get_splits crates s entry.split_ids with_embeddings >>= around doc_id entry)
  unfolding get_doc
  get_doc-held doc_id entry held = rw (held, get_doc) refl

  -- Where the shard holds a document, loading all its splits without hits and then the document gives
  -- what retrieving the document gives, errors included.
  pub load_doc-get_doc :
      (doc_id : ℕ) (entry : DocEntry)
      → HashMap.get doc_id s.maps.docs ≡ some entry
      → (load_splits entry.split_ids none none >>= load_doc doc_id)
        ≡ get_doc crates s doc_id with_embeddings
  load_doc-get_doc doc_id entry held =
      ap (λ r. r >>= load_doc doc_id) (load_splits-get_splits entry.split_ids)
      ∙ load_doc-held doc_id entry (get_splits crates s entry.split_ids with_embeddings) held
      ∙ sym (get_doc-held doc_id entry held)

-- ===== src/Shard/Search.antt =====
-- embedding-store/src/shard.rs: searching a shard, with a filter on documents or without.
-- A set of document ids is the list of its elements. An `IndexMap` of hits is the list of its entries.
pub mod Candidates
pub mod Scored
pub mod Filtered
pub mod Count
use embedding_processing_rs.Base.{
  ℕ, ◌+◌, Bool, true, false, ◌&&◌, ◌||◌, Option, none, some, List, [], ◌∷◌, ◌++◌, leb, ltb, ◌==◌,
  if◌then◌else◌, length, take, contains, Result, ok, err, ◌>>=◌,
}
use embedding_processing_rs.Base.Sorting.{sort}
use embedding_processing_rs.HashMap
use embedding_processing_rs.HashMap.{HashMap}
use embedding_processing_rs.Record.{VectorDtype, decode_vector}
use embedding_processing_rs.Maps.{DocEntry, SplitEntry, SummaryEntry, Maps, owned_summary_ids}
use embedding_processing_rs.Crates.{Crates}
use embedding_processing_rs.Errors.{Error}
use embedding_processing_rs.Distance.{Float, MetricKind, distance}
use embedding_processing_rs.Store.Types.{Store}
use embedding_processing_rs.Store.Read.{EntityKind, with_vector}
use embedding_processing_rs.VectorIndex
use embedding_processing_rs.VectorIndex.{Usearch, VectorIndex}
use embedding_processing_rs.Shard.{Shard}

-- The entities of a kind that a document's entry names, and how many these are.
abbrev pub named_ids : EntityKind → DocEntry → List ℕ
named_ids EntityKind.split entry = entry.split_ids
named_ids EntityKind.summary entry = owned_summary_ids entry

abbrev length_or_zero : Option (List ℕ) → ℕ
length_or_zero none = 0
length_or_zero (some ids) = length ids

abbrev pub named_count : EntityKind → DocEntry → ℕ
named_count EntityKind.split entry = length entry.split_ids
named_count EntityKind.summary entry =
    length_or_zero entry.summary_ids + length entry.extra_summary_ids

abbrev count_of : EntityKind → Option DocEntry → ℕ
count_of kind none = 0
count_of kind (some entry) = named_count kind entry

abbrev ids_of : EntityKind → Option DocEntry → List ℕ
ids_of kind none = []
ids_of kind (some entry) = named_ids kind entry

module _ (store : Store) (kind : EntityKind) where
  abbrev pub candidate_count : List ℕ → ℕ
  candidate_count [] = 0
  candidate_count (d ∷ doc_ids) =
      count_of kind (HashMap.get d store.maps.docs) + candidate_count doc_ids

  abbrev pub candidates : List ℕ → List ℕ
  candidates [] = []
  candidates (d ∷ doc_ids) = ids_of kind (HashMap.get d store.maps.docs) ++ candidates doc_ids

-- The document that the maps give an entity.
abbrev doc_of_split : Option SplitEntry → Option ℕ
doc_of_split none = none
doc_of_split (some e) = some e.doc_id

abbrev doc_of_summary : Option SummaryEntry → Option ℕ
doc_of_summary none = none
doc_of_summary (some e) = some e.doc_id

abbrev pub doc_of : Store → EntityKind → ℕ → Option ℕ
doc_of store EntityKind.split key = doc_of_split (HashMap.get key store.maps.splits)
doc_of store EntityKind.summary key = doc_of_summary (HashMap.get key store.maps.summaries)

abbrev among : List ℕ → Option ℕ → Bool
among doc_ids none = false
among doc_ids (some d) = contains doc_ids d

-- The filter that `filtered_search` is given.
abbrev pub passes : Store → EntityKind → List ℕ → ℕ → Bool
passes store kind doc_ids key = among doc_ids (doc_of store kind key)

-- `hits.into_iter().collect()`: of two entries with one key the place of the first is kept and the
-- value of the last.
abbrev pub collect : HashMap ℕ → List (ℕ × ℕ) → HashMap ℕ
collect m [] = m
collect m ((id, d) ∷ hits) = collect (HashMap.insert id d m) hits

module _ (crates : Crates) (float : Float) where
  -- The order of the hits: by distance, and by id where the distances are equal.
  abbrev pub comes_before : ℕ × ℕ → ℕ × ℕ → Bool
  comes_before (i, d) (j, e) =
      float.total_less d e || (if float.total_less e d then false else ltb i j)

  abbrev score : MetricKind → List ℕ → ℕ → Option (List ℕ × VectorDtype) → List (ℕ × ℕ)
  score metric query id none = []
  score metric query id (some (bytes, dtype)) =
      (id, distance float metric query (decode_vector crates.from_half bytes dtype)) ∷ []

  abbrev pub score_each :
      Store → EntityKind → MetricKind → List ℕ → List ℕ → Result Error (List (ℕ × ℕ))
  score_each store kind metric query [] = ok []
  score_each store kind metric query (id ∷ ids) = do
    found ← with_vector store kind id
    rest ← score_each store kind metric query ids
    ok (score metric query id found ++ rest)

  unfoldable pub brute_force :
      Store → EntityKind → MetricKind → List ℕ → ℕ → List ℕ → Result Error (List (ℕ × ℕ))
  brute_force store kind metric query top_k doc_ids = do
    scored ← score_each store kind metric query (candidates store kind doc_ids)
    ok (take top_k (sort comes_before scored))

  module _ {I : Type 0} (usearch : Usearch I) where
    abbrev pub index : Shard I → EntityKind → VectorIndex I
    index s EntityKind.split = s.splits
    index s EntityKind.summary = s.summaries

    unfoldable pub filtered_hits :
        Shard I → EntityKind → MetricKind → List ℕ → ℕ → List ℕ → ℕ → Result Error (List (ℕ × ℕ))
    filtered_hits s kind metric query top_k doc_ids brute_force_max =
        let count = candidate_count s.store kind doc_ids in
        if count == 0
        then ok []
        else if leb count brute_force_max
        then brute_force s.store kind metric query top_k doc_ids
        else VectorIndex.filtered_search usearch query top_k (passes s.store kind doc_ids)
            (index s kind)

    abbrev pub hits_of :
        Shard I
        → EntityKind
        → MetricKind
        → List ℕ
        → ℕ
        → Option (List ℕ)
        → ℕ
        → Result Error (List (ℕ × ℕ))
    hits_of s kind metric query top_k none brute_force_max =
        VectorIndex.search usearch query top_k (index s kind)
    hits_of s kind metric query top_k (some doc_ids) brute_force_max =
        filtered_hits s kind metric query top_k doc_ids brute_force_max

    unfoldable pub search :
        Shard I
        → EntityKind
        → MetricKind
        → List ℕ
        → ℕ
        → Option (List ℕ)
        → ℕ
        → Result Error (HashMap ℕ)
    search s kind metric query top_k doc_filter brute_force_max = if top_k == 0 then ok [] else (do
      hits ← hits_of s kind metric query top_k doc_filter brute_force_max
      ok (collect [] hits))

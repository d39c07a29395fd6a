-- ===== src/Shard/Search/Candidates.antt =====
-- embedding-store/src/shard.rs: counting the candidates agrees with listing them.
use embedding_processing_rs.Base.{
  ℕ, ◌≡◌, refl, Option, none, some, List, [], ◌∷◌, arith, length, length-append,
}
use embedding_processing_rs.HashMap
use embedding_processing_rs.Maps.{DocEntry, flatten_ids}
use embedding_processing_rs.Store.Types.{Store}
use embedding_processing_rs.Store.Read.{EntityKind}
use embedding_processing_rs.Shard.Search.{
  named_ids, named_count, length_or_zero, count_of, ids_of, candidate_count, candidates,
}

length-flatten_ids : (o : Option (List ℕ)) → length_or_zero o ≡ length (flatten_ids o)
length-flatten_ids none = refl
length-flatten_ids (some ids) = refl

named_count-length :
    (kind : EntityKind) (entry : DocEntry) → named_count kind entry ≡ length (named_ids kind entry)
named_count-length EntityKind.split entry = refl
named_count-length EntityKind.summary entry = omega (
  arith,
  length-flatten_ids entry.summary_ids,
  length-append (flatten_ids entry.summary_ids) entry.extra_summary_ids,
)

count_of-length :
    (kind : EntityKind) (o : Option DocEntry) → count_of kind o ≡ length (ids_of kind o)
count_of-length kind none = refl
count_of-length kind (some entry) = named_count-length kind entry

-- The number of candidates that decides on the kind of search is that of the candidates which the
-- search through all of them lists, whatever the documents and the maps are.
pub candidate_count-length :
    (store : Store) (kind : EntityKind) (doc_ids : List ℕ)
    → candidate_count store kind doc_ids ≡ length (candidates store kind doc_ids)
candidate_count-length store kind [] = refl
candidate_count-length store kind (d ∷ doc_ids) = omega (
  arith,
  count_of-length kind (HashMap.get d store.maps.docs),
  candidate_count-length store kind doc_ids,
  length-append (ids_of kind (HashMap.get d store.maps.docs)) (candidates store kind doc_ids),
)

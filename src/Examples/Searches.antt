-- ===== src/Examples/Searches.antt =====
-- embedding-store/src/shard.rs: a search through all the splits of one document.
use embedding_processing_rs.Base.{
  ℕ, ◌+◌, ◌-◌, ◌*◌, ◌≤◌, ◌≡◌, refl, true, some, List, [], ◌∷◌, ltb, leb, ◌==◌, Bool-cases, arith,
  length, to_le_bytes, from_le_bytes, All, subst, inl, inr, Result, ok,
}
use embedding_processing_rs.Base.Sorting
use embedding_processing_rs.HashMap
use embedding_processing_rs.Record.{encode, decode_vector}
use embedding_processing_rs.Errors.{Error}
use embedding_processing_rs.Distance.{Float, MetricKind, distance}
use embedding_processing_rs.Segment
use embedding_processing_rs.Store.Types.{Store}
use embedding_processing_rs.Store.Read.{EntityKind, with_vector, read_record}
use embedding_processing_rs.Shard.{Shard}
use embedding_processing_rs.Shard.Search.{
  candidate_count, candidates, brute_force, filtered_hits, search,
}
use embedding_processing_rs.Shard.Search.Filtered.{IsSearching, AreOwned, IsAmong, search-IsAmong}
use embedding_processing_rs.Shard.Search.Count.{search_bounds}
use embedding_processing_rs.Shard.Search.Candidates.{candidate_count-length}
use embedding_processing_rs.Examples.Codecs.{plain_crates}
use embedding_processing_rs.Examples.Shards.{Keys, key_usearch, new_shard}
use embedding_processing_rs.Examples.Compactions.{old_store}

-- Numbers for floats.
abbrev whole_float : Float
whole_float = record {
  add = λ a b. a + b;
  sub = λ a b. (a - b) + (b - a);
  mul = λ a b. a * b;
  div = λ a b. a;
  sqrt = λ a. a;
  le = leb;
  total_less = ltb;
  empty_sum = 0;
  one = 1;
  epsilon = 0;
  infinity = 1000;
}

abbrev search_store : Store
search_store = record old_store { opts = record (old_store.opts) { n_embd = 1 } }

abbrev search_shard : Shard Keys
search_shard = record new_shard { store = search_store }

abbrev near_hits : List (ℕ × ℕ)
near_hits = (20, 4) ∷ []

ok-injective :
    {hits : List (ℕ × ℕ)} → ◌≡◌ {A = Result Error (List (ℕ × ℕ))} (ok []) (ok hits) → [] ≡ hits
ok-injective h = cc

key_usearch-IsSearching : IsSearching key_usearch
key_usearch-IsSearching = record {
  search_count = λ query k i hits h. ground (arith, h);
  filtered_count = λ query k f i hits h. ground (arith, h);
  filtered = λ query k f i hits h. subst (All (λ p. f p.0 ≡ true)) (ok-injective h) tt;
}

search_store-AreOwned : AreOwned search_store EntityKind.split
unfolding HashMap.get
search_store-AreOwned d id entry found named =
    let key : d ≡ 10 = ground (arith, found) in
    elim (Bool-cases (20 == id)) [
      | inl e ↦ inr (ground (arith, e, key))
      | inr e ↦ inl (ground (arith, e))
    ]

search-near :
    search plain_crates whole_float key_usearch search_shard EntityKind.split MetricKind.l2sq
      (5 ∷ [])
      3
      (some (10 ∷ 11 ∷ []))
      100
    ≡ ok near_hits
unfolding search filtered_hits brute_force distance with_vector read_record Segment.sealed_slice
    HashMap.get HashMap.insert decode_vector Sorting.insert encode to_le_bytes from_le_bytes
search-near = refl

search-IsAmong_example :
    All (λ p. IsAmong search_store EntityKind.split (10 ∷ 11 ∷ []) p.0) near_hits
search-IsAmong_example =
    search-IsAmong key_usearch key_usearch-IsSearching plain_crates whole_float search_shard
      EntityKind.split MetricKind.l2sq (5 ∷ []) 3 100 (10 ∷ 11 ∷ []) near_hits search_store-AreOwned
      search-near

search_bounds_example : length near_hits ≤ 3
search_bounds_example =
    search_bounds key_usearch key_usearch-IsSearching plain_crates whole_float search_shard
      EntityKind.split MetricKind.l2sq (5 ∷ []) 3 100 (some (10 ∷ 11 ∷ [])) near_hits search-near

candidate_count-length_example :
    candidate_count search_store EntityKind.split (10 ∷ 11 ∷ [])
    ≡ length (candidates search_store EntityKind.split (10 ∷ 11 ∷ []))
candidate_count-length_example = candidate_count-length search_store EntityKind.split (10 ∷ 11 ∷ [])

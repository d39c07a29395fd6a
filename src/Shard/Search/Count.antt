-- ===== src/Shard/Search/Count.antt =====
-- embedding-store/src/shard.rs: a search answers with no more hits than it was asked for.
use embedding_processing_rs.Base.{
  ℕ, ◌+◌, ◌≤◌, ◌≡◌, ap, Bool-cases, inl, inr, Option, none, some, List, [], ◌∷◌, ◌==◌, leb, arith,
  length, length-take, take, ok, >>=-eq-ok,
}
use embedding_processing_rs.Base.Sorting.{sort}
use embedding_processing_rs.HashMap
use embedding_processing_rs.HashMap.{HashMap}
use embedding_processing_rs.Crates.{Crates}
use embedding_processing_rs.Distance.{Float, MetricKind}
use embedding_processing_rs.Store.Types.{Store}
use embedding_processing_rs.Store.Read.{EntityKind}
use embedding_processing_rs.VectorIndex
use embedding_processing_rs.VectorIndex.{Usearch, VectorIndex}
use embedding_processing_rs.Shard.{Shard}
use embedding_processing_rs.Shard.Search.{
  candidates, candidate_count, passes, comes_before, score_each, brute_force, collect, index,
  filtered_hits, hits_of, search,
}
use embedding_processing_rs.Shard.Search.Filtered.{IsSearching}

length-insert : (id d : ℕ) (m : HashMap ℕ) → length (HashMap.insert id d m) ≤ length m + 1
unfolding HashMap.insert
length-insert id d [] = omega arith
length-insert id d ((j, e) ∷ m) = ground (arith, length-insert id d m)

length-collect :
    (m : HashMap ℕ) (hits : List (ℕ × ℕ)) → length (collect m hits) ≤ length m + length hits
length-collect m [] = omega arith
length-collect m ((id, d) ∷ hits) =
    omega (arith, length-collect (HashMap.insert id d m) hits, length-insert id d m)

module _ (crates : Crates) (float : Float) (store : Store) (kind : EntityKind) where
  brute_force-count :
      (metric : MetricKind) (query : List ℕ) (top_k : ℕ) (doc_ids : List ℕ) (hits : List (ℕ × ℕ))
      → brute_force crates float store kind metric query top_k doc_ids ≡ ok hits
      → length hits ≤ top_k
  unfolding brute_force
  brute_force-count metric query top_k doc_ids hits h =
      let (scored, ran, h₁) =
        >>=-eq-ok (score_each crates float store kind metric query (candidates store kind doc_ids))
          _ h in
      let made : take top_k (sort (comes_before crates float) scored) ≡ hits = cc in
      omega (arith, ap length made, length-take top_k (sort (comes_before crates float) scored))

module _ {I : Type 0} (usearch : Usearch I) (searching : IsSearching usearch) (crates : Crates)
    (float : Float) (s : Shard I) (kind : EntityKind) (metric : MetricKind) (query : List ℕ)
    (top_k brute_force_max : ℕ) where
  filtered_hits-count :
      (doc_ids : List ℕ) (hits : List (ℕ × ℕ))
      → filtered_hits crates float usearch s kind metric query top_k doc_ids brute_force_max
        ≡ ok hits
      → length hits ≤ top_k
  unfolding filtered_hits VectorIndex.filtered_search
  filtered_hits-count doc_ids hits h =
      let count = candidate_count s.store kind doc_ids in
      elim (Bool-cases (count == 0)) [
        | inl e ↦ let nothing : [] ≡ hits = ground (arith, h, e) in omega (arith, ap length nothing)
        | inr e ↦ elim (Bool-cases (leb count brute_force_max)) [
          | inl q ↦
              brute_force-count crates float s.store kind metric query top_k doc_ids hits
                (ground (arith, h, e, q))
          | inr q ↦
              searching.filtered_count query top_k (passes s.store kind doc_ids)
                (index crates float usearch s kind).index hits (ground (arith, h, e, q))
        ]
      ]

  hits_of-count :
      (doc_filter : Option (List ℕ)) (hits : List (ℕ × ℕ))
      → hits_of crates float usearch s kind metric query top_k doc_filter brute_force_max ≡ ok hits
      → length hits ≤ top_k
  unfolding VectorIndex.search
  hits_of-count none hits h =
      searching.search_count query top_k (index crates float usearch s kind).index hits
        (ground (arith, h))
  hits_of-count (some doc_ids) hits h = filtered_hits-count doc_ids hits h

  -- A search returns `top_k` hits at most, with a filter or without. usearch keeps to the number that
  -- it is asked for.
  pub search_bounds :
      (doc_filter : Option (List ℕ)) (hits : HashMap ℕ)
      → search crates float usearch s kind metric query top_k doc_filter brute_force_max ≡ ok hits
      → length hits ≤ top_k
  unfolding search
  search_bounds doc_filter hits h = elim (Bool-cases (top_k == 0)) [
    | inl e ↦ let nothing : [] ≡ hits = ground (arith, h, e) in omega (arith, ap length nothing)
    | inr e ↦
        let (found, ran, h₁) =
          >>=-eq-ok {y = hits}
            (hits_of crates float usearch s kind metric query top_k doc_filter brute_force_max)
            (λ l. ok (collect [] l)) (ground (arith, h, e)) in
        let made : collect [] found ≡ hits = cc in
        omega (arith, ap length made, length-collect [] found, hits_of-count doc_filter found ran)
  ]

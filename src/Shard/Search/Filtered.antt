-- ===== src/Shard/Search/Filtered.antt =====
-- embedding-store/src/shard.rs: a search with a filter answers with entities of its documents only.
use embedding_processing_rs.Base.{
  ℕ, suc, ◌≤◌, ◌≡◌, ◌≢◌, ◌⊎◌, zero, refl, subst, Bool, true, Bool-cases, Option-cases, inl, inr,
  Option, none, some, List, [], ◌∷◌, ◌++◌, ◌==◌, ==_refl, leb, arith, contains, length, take, ◌||◌,
  All, ok, >>=-eq-ok,
}
use embedding_processing_rs.Base.Sorting.{sort, All-sort}
use embedding_processing_rs.HashMap
use embedding_processing_rs.HashMap.{HashMap}
use embedding_processing_rs.Maps.{DocEntry, SplitEntry, SummaryEntry}
use embedding_processing_rs.Record.{VectorDtype}
use embedding_processing_rs.Crates.{Crates}
use embedding_processing_rs.Distance.{Float, MetricKind}
use embedding_processing_rs.Store.Types.{Store}
use embedding_processing_rs.Store.Read.{EntityKind, with_vector}
use embedding_processing_rs.VectorIndex
use embedding_processing_rs.VectorIndex.{Usearch, VectorIndex}
use embedding_processing_rs.Shard.{Shard}
use embedding_processing_rs.Shard.Search.{
  named_ids, ids_of, candidates, candidate_count, doc_of, passes, comes_before, score_each,
  brute_force, collect, index, filtered_hits, search,
}
use embedding_processing_rs.Shard.Search.Scored.{HasDistance, score_each-IsScored}

-- What usearch promises: as many hits as asked for at most, and those that pass the filter.
pub record IsSearching {I : Type 0} (usearch : Usearch I) : Type 0 where
  pub search_count :
      (query : List ℕ) (k : ℕ) (i : I) (hits : List (ℕ × ℕ))
      → usearch.search query k i ≡ ok hits
      → length hits ≤ k
  pub filtered_count :
      (query : List ℕ) (k : ℕ) (f : ℕ → Bool) (i : I) (hits : List (ℕ × ℕ))
      → usearch.filtered_search query k f i ≡ ok hits
      → length hits ≤ k
  pub filtered :
      (query : List ℕ) (k : ℕ) (f : ℕ → Bool) (i : I) (hits : List (ℕ × ℕ))
      → usearch.filtered_search query k f i ≡ ok hits
      → All (λ p. f p.0 ≡ true) hits

-- An entity that a document's entry names, and that the maps hold, is the document's.
abbrev pub AreOwned : Store → EntityKind → Type 0
AreOwned store kind =
    (d id : ℕ) (entry : DocEntry)
    → HashMap.get d store.maps.docs ≡ some entry
    → contains (named_ids kind entry) id ≡ true
    → (doc_of store kind id ≡ none) ⊎ (doc_of store kind id ≡ some d)

-- The maps hold the entity, for one of these documents.
abbrev pub IsAmong : Store → EntityKind → List ℕ → ℕ → Type 0
IsAmong store EntityKind.split doc_ids id =
    (e : SplitEntry) × (HashMap.get id store.maps.splits ≡ some e)
    × (contains doc_ids e.doc_id ≡ true)
IsAmong store EntityKind.summary doc_ids id =
    (e : SummaryEntry) × (HashMap.get id store.maps.summaries ≡ some e)
    × (contains doc_ids e.doc_id ≡ true)

-- What passes the filter is among the entities of the documents.
passes-IsAmong :
    (store : Store) (kind : EntityKind) (doc_ids : List ℕ) (id : ℕ)
    → passes store kind doc_ids id ≡ true
    → IsAmong store kind doc_ids id
passes-IsAmong store EntityKind.split doc_ids id h =
    elim (Option-cases (HashMap.get id store.maps.splits)) [
      | inl e ↦ absurd (ground (arith, h, e))
      | inr (x, e) ↦ (x, e, ground (arith, h, e))
    ]
passes-IsAmong store EntityKind.summary doc_ids id h =
    elim (Option-cases (HashMap.get id store.maps.summaries)) [
      | inl e ↦ absurd (ground (arith, h, e))
      | inr (x, e) ↦ (x, e, ground (arith, h, e))
    ]

All-IsAmong :
    (store : Store) (kind : EntityKind) (doc_ids : List ℕ) (hits : List (ℕ × ℕ))
    → All (λ p. passes store kind doc_ids p.0 ≡ true) hits
    → All (λ p. IsAmong store kind doc_ids p.0) hits
All-IsAmong store kind doc_ids [] h = tt
All-IsAmong store kind doc_ids ((id, d) ∷ hits) (h, hs) =
    (passes-IsAmong store kind doc_ids id h, All-IsAmong store kind doc_ids hits hs)

contains-append :
    (xs ys : List ℕ) (k : ℕ) → contains (xs ++ ys) k ≡ (contains xs k || contains ys k)
contains-append [] ys k = refl
contains-append (x ∷ xs) ys k = ground (arith, contains-append xs ys k)

All-take : (P : ℕ × ℕ → Type 0) (n : ℕ) (xs : List (ℕ × ℕ)) → All P xs → All P (take n xs)
All-take P zero xs h = tt
All-take P (suc n) [] h = tt
All-take P (suc n) (x ∷ xs) (p, h) = (p, All-take P n xs h)

-- A list of hits as a map has their keys, and no more of them.
module _ (P : ℕ → Type 0) where
  All-insert :
      (id d : ℕ) (m : HashMap ℕ)
      → P id
      → All (λ p. P p.0) m
      → All (λ p. P p.0) (HashMap.insert id d m)
  unfolding HashMap.insert
  All-insert id d [] h all = (h, tt)
  All-insert id d ((j, e) ∷ m) h (p, all) = elim (Bool-cases (j == id)) [
    | inl q ↦ rw q (h, all)
    | inr q ↦ rw q (p, All-insert id d m h all)
  ]

  All-collect :
      (m : HashMap ℕ) (hits : List (ℕ × ℕ))
      → All (λ p. P p.0) m
      → All (λ p. P p.0) hits
      → All (λ p. P p.0) (collect m hits)
  All-collect m [] all h = all
  All-collect m ((id, d) ∷ hits) all (p, h) =
      All-collect (HashMap.insert id d m) hits (All-insert id d m p all) h

-- An entity with a vector is in the maps.
doc_of-vector :
    (store : Store) (kind : EntityKind) (id : ℕ) (v : List ℕ × VectorDtype)
    → with_vector store kind id ≡ ok (some v)
    → doc_of store kind id ≢ none
unfolding with_vector
doc_of-vector store EntityKind.split id v h =
    elim (Option-cases (HashMap.get id store.maps.splits)) [
      | inl e ↦ absurd (ground (arith, h, e))
      | inr (x, e) ↦ λ q. ground (arith, q, e)
    ]
doc_of-vector store EntityKind.summary id v h =
    elim (Option-cases (HashMap.get id store.maps.summaries)) [
      | inl e ↦ absurd (ground (arith, h, e))
      | inr (x, e) ↦ λ q. ground (arith, q, e)
    ]

module _ (crates : Crates) (float : Float) (store : Store) (kind : EntityKind) where
  owned-passes :
      (all : List ℕ) (d id : ℕ) (o : Option DocEntry)
      → AreOwned store kind
      → HashMap.get d store.maps.docs ≡ o
      → contains all d ≡ true
      → contains (ids_of kind o) id ≡ true
      → doc_of store kind id ≢ none
      → passes store kind all id ≡ true
  owned-passes all d id none owned e known h there = absurd (ground (arith, h))
  owned-passes all d id (some entry) owned e known h there = elim (owned d id entry e h) [
    | inl q ↦ absurd (there q)
    | inr q ↦ rw q known
  ]

  -- A candidate that the maps hold passes the filter.
  candidate-passes :
      (all doc_ids : List ℕ) (id : ℕ)
      → AreOwned store kind
      → ((d : ℕ) → contains doc_ids d ≡ true → contains all d ≡ true)
      → contains (candidates store kind doc_ids) id ≡ true
      → doc_of store kind id ≢ none
      → passes store kind all id ≡ true
  candidate-passes all [] id owned within h there = absurd (ground (arith, h))
  candidate-passes all (d ∷ doc_ids) id owned within h there =
      let here : List ℕ = ids_of kind (HashMap.get d store.maps.docs) in
      elim (Bool-cases (contains here id)) [
        | inl q ↦
            owned-passes all d id (HashMap.get d store.maps.docs) owned refl
              (within d (ground (arith, ==_refl d))) q there
        | inr q ↦
            candidate-passes all doc_ids id owned (λ k l. within k (ground (arith, l)))
              (ground (arith, h, q, contains-append here (candidates store kind doc_ids) id)) there
      ]

  scored-passes :
      (metric : MetricKind) (query all ids : List ℕ) (scored : List (ℕ × ℕ))
      → ((id : ℕ)
          → contains ids id ≡ true
          → doc_of store kind id ≢ none
          → passes store kind all id ≡ true)
      → All (HasDistance crates float store kind metric query) scored
      → All (λ p. contains ids p.0 ≡ true) scored
      → All (λ p. passes store kind all p.0 ≡ true) scored
  scored-passes metric query all ids [] f right named = tt
  scored-passes metric query all ids ((id, d) ∷ scored) f ((v, read, e), right) (n, named) = (
    f id n (doc_of-vector store kind id v read),
    scored-passes metric query all ids scored f right named,
  )

  brute_force-passes :
      (metric : MetricKind) (query : List ℕ) (top_k : ℕ) (doc_ids : List ℕ) (hits : List (ℕ × ℕ))
      → AreOwned store kind
      → brute_force crates float store kind metric query top_k doc_ids ≡ ok hits
      → All (λ p. passes store kind doc_ids p.0 ≡ true) hits
  unfolding brute_force
  brute_force-passes metric query top_k doc_ids hits owned h =
      let ids : List ℕ = candidates store kind doc_ids in
      let (scored, ran, h₁) = >>=-eq-ok (score_each crates float store kind metric query ids) _ h in
      let made : take top_k (sort (comes_before crates float) scored) ≡ hits = cc in
      let w = score_each-IsScored crates float store kind metric query ids scored ran in
      let P : ℕ × ℕ → Type 0 = λ p. passes store kind doc_ids p.0 ≡ true in
      subst (All P) made (
        All-take P top_k (sort (comes_before crates float) scored) (
          All-sort (comes_before crates float) P scored (
            scored-passes metric query doc_ids ids scored
              (λ id l. candidate-passes doc_ids doc_ids id owned (λ k q. q) l) w.right w.named)))

module _ {I : Type 0} (usearch : Usearch I) (searching : IsSearching usearch) (crates : Crates)
    (float : Float) (s : Shard I) (kind : EntityKind) (metric : MetricKind) (query : List ℕ)
    (top_k brute_force_max : ℕ) where
  filtered_hits-passes :
      (doc_ids : List ℕ) (hits : List (ℕ × ℕ))
      → AreOwned s.store kind
      → filtered_hits crates float usearch s kind metric query top_k doc_ids brute_force_max
        ≡ ok hits
      → All (λ p. passes s.store kind doc_ids p.0 ≡ true) hits
  unfolding filtered_hits VectorIndex.filtered_search
  filtered_hits-passes doc_ids hits owned h =
      let count = candidate_count s.store kind doc_ids in
      elim (Bool-cases (count == 0)) [
        | inl e ↦
            let nothing : [] ≡ hits = ground (arith, h, e) in
            subst (All (λ p. passes s.store kind doc_ids p.0 ≡ true)) nothing tt
        | inr e ↦ elim (Bool-cases (leb count brute_force_max)) [
          | inl q ↦
              brute_force-passes crates float s.store kind metric query top_k doc_ids hits owned
                (ground (arith, h, e, q))
          | inr q ↦
              searching.filtered query top_k (passes s.store kind doc_ids)
                (index crates float usearch s kind).index hits (ground (arith, h, e, q))
        ]
      ]

  -- A search with a filter returns entities that the maps hold, and hold for one of the documents of the
  -- filter, whichever way it takes. usearch applies the filter that it is given, and what a document
  -- names and the maps hold is the document's.
  pub search-IsAmong :
      (doc_ids : List ℕ) (hits : HashMap ℕ)
      → AreOwned s.store kind
      → search crates float usearch s kind metric query top_k (some doc_ids) brute_force_max
        ≡ ok hits
      → All (λ p. IsAmong s.store kind doc_ids p.0) hits
  unfolding search
  search-IsAmong doc_ids hits owned h = elim (Bool-cases (top_k == 0)) [
    | inl e ↦
        let nothing : [] ≡ hits = ground (arith, h, e) in
        subst (All (λ p. IsAmong s.store kind doc_ids p.0)) nothing tt
    | inr e ↦
        let (found, ran, h₁) =
          >>=-eq-ok {y = hits}
            (filtered_hits crates float usearch s kind metric query top_k doc_ids brute_force_max)
            (λ l. ok (collect [] l)) (ground (arith, h, e)) in
        let made : collect [] found ≡ hits = cc in
        subst (All (λ p. IsAmong s.store kind doc_ids p.0)) made (
          All-collect (λ id. IsAmong s.store kind doc_ids id) [] found tt
            (All-IsAmong s.store kind doc_ids found (filtered_hits-passes doc_ids found owned ran)))
  ]

-- ===== src/Shard/Search/Scored.antt =====
-- embedding-store/src/shard.rs: the search through all candidates finds the nearest ones.
use embedding_processing_rs.Base.{
  ℕ, ◌≡◌, refl, subst, true, false, Bool-cases, inl, inr, Option, none, some, List, [], ◌∷◌, ◌++◌,
  ◌==◌, ==→eq, ==_refl, arith, contains, All, ok, >>=-eq-ok,
}
use embedding_processing_rs.HashMap
use embedding_processing_rs.HashMap.{HashMap}
use embedding_processing_rs.Record.{VectorDtype, decode_vector}
use embedding_processing_rs.Crates.{Crates}
use embedding_processing_rs.Distance.{Float, MetricKind, distance}
use embedding_processing_rs.Store.Types.{Store}
use embedding_processing_rs.Store.Read.{EntityKind, with_vector}
use embedding_processing_rs.Shard.Search.{score, score_each}

-- What `total_cmp` is: a total order.
pub record IsTotal (float : Float) : Type 0 where
  pub asymmetric : (a b : ℕ) → float.total_less a b ≡ true → float.total_less b a ≡ false
  pub transitive :
      (a b c : ℕ)
      → float.total_less b a ≡ false
      → float.total_less c b ≡ false
      → float.total_less c a ≡ false
  pub antisymmetric :
      (a b : ℕ) → float.total_less a b ≡ false → float.total_less b a ≡ false → a ≡ b

module _ (crates : Crates) (float : Float) (store : Store) (kind : EntityKind) (metric : MetricKind)
    (query : List ℕ) where
  -- An entry of the list has the distance of its vector.
  abbrev pub HasDistance : ℕ × ℕ → Type 0
  HasDistance p =
      (v : List ℕ × VectorDtype) × (with_vector store kind p.0 ≡ ok (some v))
      × (p.1 ≡ distance float metric query (decode_vector crates.from_half v.0 v.1))

  -- The list has every candidate with a vector, and each entry the distance of its vector.
  pub record IsScored (ids : List ℕ) (scored : List (ℕ × ℕ)) : Type 0 where
    pub right : All HasDistance scored
    pub named : All (λ p. contains ids p.0 ≡ true) scored
    pub complete :
        (id : ℕ) (v : List ℕ × VectorDtype)
        → contains ids id ≡ true
        → with_vector store kind id ≡ ok (some v)
        → contains (HashMap.keys scored) id ≡ true

  All-wider :
      (id : ℕ) (ids : List ℕ) (scored : List (ℕ × ℕ))
      → All (λ p. contains ids p.0 ≡ true) scored
      → All (λ p. contains (id ∷ ids) p.0 ≡ true) scored
  All-wider id ids [] h = tt
  All-wider id ids ((j, d) ∷ scored) (e, h) = (ground (arith, e), All-wider id ids scored h)

  score-IsScored :
      (id : ℕ) (ids : List ℕ) (o : Option (List ℕ × VectorDtype)) (scored : List (ℕ × ℕ))
      → with_vector store kind id ≡ ok o
      → IsScored ids scored
      → IsScored (id ∷ ids) (score crates float metric query id o ++ scored)
  score-IsScored id ids none scored e w = record {
    right = w.right;
    named = All-wider id ids scored w.named;
    complete = λ k v l h. elim (Bool-cases (k == id)) [
      | inl q ↦ cc (e, subst (λ j. with_vector store kind j ≡ ok (some v)) (==→eq k id q) h)
      | inr q ↦ w.complete k v (ground (arith, l, q)) h
    ];
  }
  score-IsScored id ids (some v) scored e w = record {
    right = ((v, e, refl), w.right);
    named = (ground (arith, ==_refl id), All-wider id ids scored w.named);
    complete = λ k u l h. elim (Bool-cases (k == id)) [
      | inl q ↦ ground (arith, q)
      | inr q ↦ ground (arith, q, w.complete k u (ground (arith, l, q)) h)
    ];
  }

  pub score_each-IsScored :
      (ids : List ℕ) (scored : List (ℕ × ℕ))
      → score_each crates float store kind metric query ids ≡ ok scored
      → IsScored ids scored
  score_each-IsScored [] [] h = record {
    right = tt;
    named = tt;
    complete = λ id v l q. absurd (ground (arith, l));
  }
  score_each-IsScored [] (p ∷ scored) h = cc
  score_each-IsScored (id ∷ ids) scored h =
      let (o, read, h₁) = >>=-eq-ok (with_vector store kind id) _ h in
      let (rest, others, h₂) =
        >>=-eq-ok (score_each crates float store kind metric query ids) _ h₁ in
      let made : score crates float metric query id o ++ rest ≡ scored = cc in
      subst (IsScored (id ∷ ids)) made
        (score-IsScored id ids o rest read (score_each-IsScored ids rest others))

-- ===== src/Pool/Budget.antt =====
-- embedding-store/src/pool.rs: the loop of `enforce_budget` ends, and what it leaves.
use embedding_processing_rs.Base.{
  ℕ, zero, suc, ◌+◌, ◌*◌, ◌<◌, ◌≤◌, ◌≡◌, refl, ap, sym, ◌∙◌, subst, Bool, true, false, Bool-cases,
  inl, inr, ◌⊎◌, Option, none, some, List, [], ◌∷◌, leb, leb→le, ◌==◌, if◌then◌else◌, length,
  contains, arith, Result, ok, err,
}
use embedding_processing_rs.Base.Action.{Action, continue}
use embedding_processing_rs.HashMap
use embedding_processing_rs.HashMap.{
  HashMap, All-get, HasUniqueKeys, insert-HasUniqueKeys, get-insert,
}
use embedding_processing_rs.Errors.{Error}
use embedding_processing_rs.VectorIndex.{Usearch, Files}
use embedding_processing_rs.Crates.{Crates}
use embedding_processing_rs.Segment.{Disk}
use embedding_processing_rs.Shard
use embedding_processing_rs.Shard.{Shard, IndexResidency, residency}
use embedding_processing_rs.Shard.Mapped.{demote-mapped}
use embedding_processing_rs.Pool.Victim.{IsVictim, victim-IsVictim}
use embedding_processing_rs.Pool.{
  Entry, ShardPool, is_mapped, is_unheld, victim, measured, refresh_all, refresh_bytes, total_bytes,
  put_back, demote_entry, budget_loop, next_round, enforce_budget,
}

mapped_of : (r : IndexResidency) → is_mapped r ≡ true → r ≡ IndexResidency.viewed
mapped_of IndexResidency.loaded h = cc
mapped_of IndexResidency.viewed h = refl

module _ {I : Type 0} where
  abbrev weight : Entry I → ℕ
  weight e = if is_mapped (residency e.shard) then 1 else 2

  -- How many rounds are left: a loaded shard can be demoted and skipped, a mapped one skipped.
  abbrev rounds : List ℕ → HashMap (Entry I) → ℕ
  rounds skip [] = 0
  rounds skip ((ws, e) ∷ m) = (if contains skip ws then 0 else weight e) + rounds skip m

  rounds-bound : (skip : List ℕ) (m : HashMap (Entry I)) → rounds skip m ≤ 2 * length m
  rounds-bound skip [] = omega arith
  rounds-bound skip ((ws, e) ∷ m) = ground (arith, rounds-bound skip m)

  rounds-skip_le :
      (ws : ℕ) (skip : List ℕ) (m : HashMap (Entry I)) → rounds (ws ∷ skip) m ≤ rounds skip m
  rounds-skip_le ws skip [] = omega arith
  rounds-skip_le ws skip ((k, e) ∷ m) = ground (arith, rounds-skip_le ws skip m)

  rounds-skip :
      (ws : ℕ) (skip : List ℕ) (m : HashMap (Entry I)) (e : Entry I)
      → HashMap.get ws m ≡ some e
      → contains skip ws ≡ false
      → rounds (ws ∷ skip) m < rounds skip m
  unfolding HashMap.get
  rounds-skip ws skip [] e h c = cc
  rounds-skip ws skip ((k, d) ∷ m) e h c =
      ground (arith, h, c, rounds-skip ws skip m e, rounds-skip_le ws skip m)

  rounds-insert :
      (ws : ℕ) (skip : List ℕ) (m : HashMap (Entry I)) (e d : Entry I)
      → HashMap.get ws m ≡ some e
      → contains skip ws ≡ false
      → weight d < weight e
      → rounds skip (HashMap.insert ws d m) < rounds skip m
  unfolding HashMap.get HashMap.insert
  rounds-insert ws skip [] e d h c l = cc
  rounds-insert ws skip ((k, x) ∷ m) e d h c l =
      ground (arith, h, c, l, rounds-insert ws skip m e d)

  module _ (usearch : Usearch I) where
    refresh-rounds :
        (skip : List ℕ) (m : HashMap (Entry I))
        → rounds skip (refresh_all usearch m) ≡ rounds skip m
    refresh-rounds skip [] = refl
    refresh-rounds skip ((ws, e) ∷ m) = ground (arith, refresh-rounds skip m)

    pub get-refresh-none :
        (k : ℕ) (m : HashMap (Entry I))
        → HashMap.get k m ≡ none
        → HashMap.get k (refresh_all usearch m) ≡ none
    unfolding HashMap.get
    get-refresh-none k [] h = refl
    get-refresh-none k ((ws, e) ∷ m) h = ground (arith, h, get-refresh-none k m)

    refresh-HasUniqueKeys :
        (m : HashMap (Entry I)) → HasUniqueKeys m → HasUniqueKeys (refresh_all usearch m)
    refresh-HasUniqueKeys [] u = tt
    refresh-HasUniqueKeys ((ws, e) ∷ m) (u, us) =
        (get-refresh-none ws m u, refresh-HasUniqueKeys m us)

    measured-shard : (e : Entry I) → (measured usearch e).shard ≡ e.shard
    measured-shard e = ground arith

    get-refresh :
        (k : ℕ) (m : HashMap (Entry I)) (d : Entry I)
        → HashMap.get k (refresh_all usearch m) ≡ some d
        → (e : Entry I) × (HashMap.get k m ≡ some e) × (d.shard ≡ e.shard)
    unfolding HashMap.get
    get-refresh k [] d h = absurd (ground (arith, h))
    get-refresh k ((ws, e) ∷ m) d h = elim (Bool-cases (ws == k)) [
      | inl b ↦ (e, ground (arith, b), ground (arith, b, h))
      | inr b ↦
          let (x, there, same) = get-refresh k m d (ground (arith, b, h)) in
          (x, ground (arith, b, there), same)
    ]

    module _ (crates : Crates) (disk : Disk) (files : Files) (is_utf8 : List ℕ → Bool)
        (budget : ℕ) where
      -- What is skipped is mapped.
      abbrev Skipped : List ℕ → HashMap (Entry I) → Type 0
      Skipped skip m =
          (k : ℕ) (e : Entry I)
          → contains skip k ≡ true
          → HashMap.get k m ≡ some e
          → residency e.shard ≡ IndexResidency.viewed

      -- The budget fits, or no shard that nobody holds is loaded.
      abbrev pub Fits : ShardPool I → Type 0
      Fits q =
          (total_bytes q ≤ budget)
          ⊎ ((k : ℕ) (e : Entry I)
              → HashMap.get k q.shards ≡ some e
              → is_unheld e ≡ true
              → residency e.shard ≡ IndexResidency.viewed)

      -- An error is that of a demotion.
      abbrev pub Settled : Result Error ℕ × ShardPool I → Type 0
      Settled (ok n, q) = Fits q
      Settled (err x, q) =
          (s : Shard I) × ((Shard.demote usearch crates disk files is_utf8 s).0 ≡ err x)

      Skipped-refresh :
          (skip : List ℕ) (m : HashMap (Entry I))
          → Skipped skip m
          → Skipped skip (refresh_all usearch m)
      Skipped-refresh skip m h k d c there =
          let (e, was, same) = get-refresh k m d there in ap residency same ∙ h k e c was

      Skipped-cons :
          (ws : ℕ) (e : Entry I) (skip : List ℕ) (m : HashMap (Entry I))
          → HashMap.get ws m ≡ some e
          → residency e.shard ≡ IndexResidency.viewed
          → Skipped skip m
          → Skipped (ws ∷ skip) m
      Skipped-cons ws e skip m there r h k d c was = elim (Bool-cases (ws == k)) [
        | inl b ↦ ground (arith, b, there, was, r)
        | inr b ↦ h k d (ground (arith, b, c)) was
      ]

      Skipped-insert :
          (ws : ℕ) (e : Entry I) (skip : List ℕ) (m : HashMap (Entry I))
          → residency e.shard ≡ IndexResidency.viewed
          → Skipped skip m
          → Skipped skip (HashMap.insert ws e m)
      Skipped-insert ws e skip m r h k d c was = elim (Bool-cases (ws == k)) [
        | inl b ↦ ground (arith, b, was, r, get-insert ws k e m)
        | inr b ↦ h k d c (ground (arith, b, was, get-insert ws k e m))
      ]

      -- A loop that settles wherever fewer rounds are left than it has fuel.
      abbrev Settles : ℕ → (List ℕ → ℕ → Action Error (ShardPool I) ℕ) → Type 0
      Settles fuel go =
          (skip : List ℕ) (evicted : ℕ) (p : ShardPool I)
          → HasUniqueKeys p.shards
          → rounds skip p.shards < fuel
          → Skipped skip p.shards
          → Settled (go skip evicted p)

      put_back-Settled :
          (fuel : ℕ) (go : List ℕ → ℕ → Action Error (ShardPool I) ℕ) (skip : List ℕ)
          (evicted ws : ℕ) (e : Entry I) (p : ShardPool I) (r : Result Error (Unit {0}) × Shard I)
          → Shard.demote usearch crates disk files is_utf8 e.shard ≡ r
          → Settles fuel go
          → HasUniqueKeys p.shards
          → rounds skip p.shards < suc fuel
          → Skipped skip p.shards
          → HashMap.get ws p.shards ≡ some e
          → contains skip ws ≡ false
          → is_mapped (residency e.shard) ≡ false
          → Settled (
              continue (put_back usearch crates disk files is_utf8 ws e r p) (λ demoted.
                go
                  (if demoted then skip else ws ∷ skip)
                  (if demoted then evicted + 1 else evicted)))
      put_back-Settled fuel go skip evicted ws e p (ok u, s) h ih unique less sk there out loaded =
          let d : Entry I = measured usearch (record e { shard = s }) in
          let mapped : residency s ≡ IndexResidency.viewed =
            demote-mapped usearch files crates disk is_utf8 e.shard s h in
          let viewed : residency d.shard ≡ IndexResidency.viewed =
            ap residency (measured-shard (record e { shard = s })) ∙ mapped in
          let lighter : weight d < weight e = ground (arith, viewed, loaded) in
          ih skip (evicted + 1) (record p { shards = HashMap.insert ws d p.shards })
            (insert-HasUniqueKeys ws d p.shards unique)
            (omega (arith, less, rounds-insert ws skip p.shards e d there out lighter))
            (Skipped-insert ws d skip p.shards viewed sk)
      put_back-Settled fuel go skip evicted ws e p (err x, s) h ih unique less sk there out loaded =
          (e.shard, ap (λ q. q.0) h)

      next_round-Settled :
          (fuel : ℕ) (go : List ℕ → ℕ → Action Error (ShardPool I) ℕ) (skip : List ℕ) (evicted : ℕ)
          (p : ShardPool I) (v : Option (ℕ × Entry I))
          → IsVictim skip p.shards v
          → Settles fuel go
          → HasUniqueKeys p.shards
          → rounds skip p.shards < suc fuel
          → Skipped skip p.shards
          → Settled (next_round usearch crates disk files is_utf8 budget go skip evicted v p)
      unfolding demote_entry
      next_round-Settled fuel go skip evicted p none none_free ih unique less sk =
          inr (λ k e there unheld.
            sk k e (ground (arith, unheld, All-get _ p.shards k e none_free there)) there)
      next_round-Settled fuel go skip evicted p (some (ws, e)) (there, is_free, least) ih unique
            less sk =
          elim (Bool-cases (is_mapped (residency e.shard))) [
            | inl b ↦ rw b (
                ih (ws ∷ skip) evicted p unique
                  (omega
                    (arith, less, rounds-skip ws skip p.shards e there (ground (arith, is_free))))
                  (Skipped-cons ws e skip p.shards there (mapped_of (residency e.shard) b) sk))
            | inr b ↦ rw b (
                put_back-Settled fuel go skip evicted ws e p _ refl ih unique less sk there
                  (ground (arith, is_free)) b)
          ]

      -- The loop where the budget fits, and where it does not.
      pub loop_fits :
          (fuel : ℕ) (skip : List ℕ) (evicted : ℕ) (p : ShardPool I)
          → leb (total_bytes (refresh_bytes usearch p)) budget ≡ true
          → budget_loop usearch crates disk files is_utf8 budget (suc fuel) skip evicted p
            ≡ (ok evicted, refresh_bytes usearch p)
      unfolding budget_loop
      loop_fits fuel skip evicted p h = ground (arith, h)

      pub loop_over :
          (fuel : ℕ) (skip : List ℕ) (evicted : ℕ) (p : ShardPool I)
          → leb (total_bytes (refresh_bytes usearch p)) budget ≡ false
          → budget_loop usearch crates disk files is_utf8 budget (suc fuel) skip evicted p
            ≡ next_round usearch crates disk files is_utf8 budget
                (budget_loop usearch crates disk files is_utf8 budget fuel)
                skip
                evicted
                (victim skip (refresh_bytes usearch p).shards)
                (refresh_bytes usearch p)
      unfolding budget_loop
      loop_over fuel skip evicted p h = ground (arith, h)

      budget_loop-Settled :
          (fuel : ℕ) → Settles fuel (budget_loop usearch crates disk files is_utf8 budget fuel)
      unfolding refresh_bytes
      budget_loop-Settled zero skip evicted p unique less sk = absurd (omega (arith, less))
      budget_loop-Settled (suc fuel) skip evicted p unique less sk =
          let fresh = refresh_bytes usearch p in
          let unique' = refresh-HasUniqueKeys p.shards unique in
          elim (Bool-cases (leb (total_bytes fresh) budget)) [
            | inl e ↦
                subst Settled (sym (loop_fits fuel skip evicted p e))
                  (inl (leb→le (total_bytes fresh) budget e))
            | inr e ↦ subst Settled (sym (loop_over fuel skip evicted p e)) (
                next_round-Settled fuel (budget_loop usearch crates disk files is_utf8 budget fuel)
                  skip evicted fresh (victim skip fresh.shards)
                  (victim-IsVictim skip fresh.shards unique') (budget_loop-Settled fuel) unique'
                  (omega (arith, less, refresh-rounds skip p.shards))
                  (Skipped-refresh skip p.shards sk))
          ]

      -- `enforce_budget` ends: it returns with the budget met or with every shard that nobody holds mapped,
      -- or with the error of a demotion. Each workspace is in the pool once.
      pub enforce_budget-Settled :
          (p : ShardPool I)
          → HasUniqueKeys p.shards
          → Settled (enforce_budget usearch crates disk files is_utf8 budget p)
      unfolding enforce_budget
      enforce_budget-Settled p unique =
          budget_loop-Settled (2 * length p.shards + 1) [] 0 p unique
            (omega (arith, rounds-bound [] p.shards)) (λ k e c there. absurd (ground (arith, c)))

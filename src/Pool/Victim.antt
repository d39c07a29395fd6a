-- ===== src/Pool/Victim.antt =====
-- embedding-store/src/pool.rs: which shard `enforce_budget` takes.
use embedding_processing_rs.Base.{
  ℕ, ◌≤◌, ◌≡◌, refl, sym, subst, ◌&&◌, Bool, true, false, not, Bool-cases, inl, inr, Option, none,
  some, List, [], ◌∷◌, leb, leb→le, if◌then◌else◌, contains, arith, All,
}
use embedding_processing_rs.HashMap
use embedding_processing_rs.HashMap.{HashMap, HasUniqueKeys}
use embedding_processing_rs.Pool.{Entry, is_unheld, earlier, victim}

module _ {I : Type 0} where
  -- May be taken.
  abbrev pub free : List ℕ → ℕ → Entry I → Bool
  free skip ws e = not (contains skip ws) && is_unheld e

  -- Nothing that may be taken, or the entry of a key that may be, used before all others.
  abbrev pub IsVictim : List ℕ → HashMap (Entry I) → Option (ℕ × Entry I) → Type 0
  IsVictim skip m none = All (λ q. free skip q.0 q.1 ≡ false) m
  IsVictim skip m (some (ws, e)) =
      (HashMap.get ws m ≡ some e)
      × (free skip ws e ≡ true)
      × All (λ q. free skip q.0 q.1 ≡ true → e.last_used ≤ q.1.last_used) m

  All-later :
      (skip : List ℕ) (n k : ℕ) (m : HashMap (Entry I))
      → n ≤ k
      → All (λ q. free skip q.0 q.1 ≡ true → k ≤ q.1.last_used) m
      → All (λ q. free skip q.0 q.1 ≡ true → n ≤ q.1.last_used) m
  All-later skip n k [] le h = tt
  All-later skip n k (q ∷ m) le (a, h) = (λ f. omega (arith, le, a f), All-later skip n k m le h)

  All-none :
      (skip : List ℕ) (n : ℕ) (m : HashMap (Entry I))
      → All (λ q. free skip q.0 q.1 ≡ false) m
      → All (λ q. free skip q.0 q.1 ≡ true → n ≤ q.1.last_used) m
  All-none skip n [] h = tt
  All-none skip n (q ∷ m) (a, h) = (λ f. absurd (ground (arith, f, a)), All-none skip n m h)

  chosen : (p q : ℕ × Entry I) (b : Bool) → b ≡ true → (if b then p else q) ≡ p
  chosen p q true h = refl
  chosen p q false h = cc

  left : (p q : ℕ × Entry I) (b : Bool) → b ≡ false → (if b then p else q) ≡ q
  left p q true h = cc
  left p q false h = refl

  cons-free :
      (skip : List ℕ) (ws : ℕ) (e : Entry I) (m : HashMap (Entry I)) (v : Option (ℕ × Entry I))
      → HashMap.get ws m ≡ none
      → free skip ws e ≡ true
      → IsVictim skip m v
      → IsVictim skip ((ws, e) ∷ m) (some (earlier (ws, e) v))
  unfolding HashMap.get
  cons-free skip ws e m none u f h =
      (ground arith, f, ((λ _. omega arith), All-none skip e.last_used m h))
  cons-free skip ws e m (some (k, d)) u f (there, g, least) =
      elim (Bool-cases (leb e.last_used d.last_used)) [
        | inl c ↦
            subst (λ (q : ℕ × Entry I). IsVictim skip ((ws, e) ∷ m) (some q))
              (sym (chosen (ws, e) (k, d) (leb e.last_used d.last_used) c))
              (
                ground arith,
                f,
                (
                  (λ _. omega arith),
                  All-later skip e.last_used d.last_used m (leb→le e.last_used d.last_used c) least,
                ),
              )
        | inr c ↦
            subst (λ (q : ℕ × Entry I). IsVictim skip ((ws, e) ∷ m) (some q))
              (sym (left (ws, e) (k, d) (leb e.last_used d.last_used) c))
              (ground (arith, u, there), g, ((λ _. ground (arith, c)), least))
      ]

  cons-other :
      (skip : List ℕ) (ws : ℕ) (e : Entry I) (m : HashMap (Entry I)) (v : Option (ℕ × Entry I))
      → HashMap.get ws m ≡ none
      → free skip ws e ≡ false
      → IsVictim skip m v
      → IsVictim skip ((ws, e) ∷ m) v
  unfolding HashMap.get
  cons-other skip ws e m none u f h = (f, h)
  cons-other skip ws e m (some (k, d)) u f (there, g, least) =
      (ground (arith, u, there), g, ((λ t. absurd (ground (arith, t, f))), least))

  -- The shard that is taken is one that nobody holds and that is not to be skipped, used before every other
  -- such shard; and none is taken exactly where there is none. Each workspace is in the pool once.
  pub victim-IsVictim :
      (skip : List ℕ) (m : HashMap (Entry I)) → HasUniqueKeys m → IsVictim skip m (victim skip m)
  unfolding victim
  victim-IsVictim skip [] u = tt
  victim-IsVictim skip ((ws, e) ∷ m) (u, us) = elim (Bool-cases (free skip ws e)) [
    | inl f ↦ rw f (cons-free skip ws e m (victim skip m) u f (victim-IsVictim skip m us))
    | inr f ↦ rw f (cons-other skip ws e m (victim skip m) u f (victim-IsVictim skip m us))
  ]

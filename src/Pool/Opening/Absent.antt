-- ===== src/Pool/Opening/Absent.antt =====
-- embedding-store/src/pool.rs: a workspace whose shard is not open stays so, whatever another method
-- of the pool does.
use embedding_processing_rs.Base.{
  ℕ, zero, suc, ◌+◌, ◌≡◌, refl, sym, subst, ◌&&◌, not, Bool, false, Bool-cases, inl, inr, Option,
  none, some, List, [], ◌∷◌, leb, ◌==◌, ==→eq, contains, arith, Result, ok, err,
}
use embedding_processing_rs.Base.Action.{Action, continue}
use embedding_processing_rs.HashMap
use embedding_processing_rs.HashMap.{HashMap, get-insert, get-remove}
use embedding_processing_rs.Errors.{Error}
use embedding_processing_rs.Crates.{Crates}
use embedding_processing_rs.Segment.{Disk}
use embedding_processing_rs.VectorIndex.{Usearch, Files}
use embedding_processing_rs.Shard.{Shard, residency}
use embedding_processing_rs.Pool.{
  Entry, ShardPool, touch, touched, is_mapped, is_unheld, earlier, victim, refresh_bytes,
  total_bytes, put_back, demote_entry, claim_for_eviction, demote_claimed, evict, remove_closed,
  close_claimed, close, budget_loop, next_round, enforce_budget,
}
use embedding_processing_rs.Pool.Opening.{held_by, set_held}
use embedding_processing_rs.Pool.Budget.{get-refresh-none, loop_fits, loop_over}

module _ {I : Type 0} where
  -- What is not in the first map is not in the second.
  abbrev pub Shrinks : HashMap (Entry I) → HashMap (Entry I) → Type 0
  Shrinks m m' = (k : ℕ) → HashMap.get k m ≡ none → HashMap.get k m' ≡ none

  insert-absent :
      (ws k : ℕ) (e : Entry I) (m : HashMap (Entry I))
      → (ws == k) ≡ false
      → HashMap.get k m ≡ none
      → HashMap.get k (HashMap.insert ws e m) ≡ none
  insert-absent ws k e m b h = ground (arith, b, h, get-insert ws k e m)

  Shrinks-insert :
      (ws : ℕ) (e d : Entry I) (m : HashMap (Entry I))
      → HashMap.get ws m ≡ some d
      → Shrinks m (HashMap.insert ws e m)
  Shrinks-insert ws e d m there k h = elim (Bool-cases (ws == k)) [
    | inl b ↦ absurd (cc (there, h, ==→eq ws k b))
    | inr b ↦ insert-absent ws k e m b h
  ]

  Shrinks-remove : (ws : ℕ) (m : HashMap (Entry I)) → Shrinks m (HashMap.remove ws m)
  Shrinks-remove ws m k h = ground (arith, h, get-remove ws k m)

  touched-shards :
      (ws : ℕ) (p : ShardPool I) (o : Option (Entry I))
      → HashMap.get ws p.shards ≡ o
      → Shrinks p.shards (touched ws p o).1.shards
  touched-shards ws p none e k h = h
  touched-shards ws p (some d) e k h =
      Shrinks-insert ws (record d { last_used = p.tick }) d p.shards e k h

  pub touch-Shrinks : (ws : ℕ) (p : ShardPool I) → Shrinks p.shards (touch ws p).1.shards
  unfolding touch
  touch-Shrinks ws p = touched-shards ws (record p { tick = p.tick + 1 }) _ refl

  touched-none :
      (ws : ℕ) (p : ShardPool I) (o : Option (Entry I)) → (touched ws p o).0 ≡ none → o ≡ none
  touched-none ws p none h = refl
  touched-none ws p (some d) h = cc

  pub touch-none :
      (ws : ℕ) (p : ShardPool I) → (touch ws p).0 ≡ none → HashMap.get ws p.shards ≡ none
  unfolding touch
  touch-none ws p h = touched-none ws (record p { tick = p.tick + 1 }) _ h

  held_by-Shrinks :
      (ws holders : ℕ) (busy : Bool) (p : ShardPool I) (o : Option (Entry I))
      → HashMap.get ws p.shards ≡ o
      → Shrinks p.shards (held_by ws holders busy p o).shards
  held_by-Shrinks ws holders busy p none e = λ k h. h
  held_by-Shrinks ws holders busy p (some d) e =
      Shrinks-insert ws (record d { holders = holders; busy = busy }) d p.shards e

  pub set_held-Shrinks :
      (ws holders : ℕ) (busy : Bool) (p : ShardPool I)
      → Shrinks p.shards (set_held ws holders busy p).shards
  unfolding set_held
  set_held-Shrinks ws holders busy p = held_by-Shrinks ws holders busy p _ refl

  -- A victim is one of the entries of the map.
  abbrev Differs : ℕ → Option (ℕ × Entry I) → Type 0
  Differs k none = Unit
  Differs k (some (ws, e)) = (ws == k) ≡ false

  Differs-earlier :
      (k ws : ℕ) (e : Entry I) (v : Option (ℕ × Entry I))
      → (ws == k) ≡ false
      → Differs k v
      → Differs k (some (earlier (ws, e) v))
  Differs-earlier k ws e none h d = h
  Differs-earlier k ws e (some (w, x)) h d = ground (arith, h, d)

  victim-Differs :
      (skip : List ℕ) (m : HashMap (Entry I)) (k : ℕ)
      → HashMap.get k m ≡ none
      → Differs k (victim skip m)
  unfolding victim HashMap.get
  victim-Differs skip [] k h = tt
  victim-Differs skip ((ws, e) ∷ m) k h = elim (Bool-cases (ws == k)) [
    | inl b ↦ absurd (ground (arith, h, b))
    | inr b ↦ elim (Bool-cases (not (contains skip ws) && is_unheld e)) [
      | inl f ↦ rw f (
          Differs-earlier k ws e (victim skip m) b (victim-Differs skip m k (ground (arith, h, b))))
      | inr f ↦ rw f (victim-Differs skip m k (ground (arith, h, b)))
    ]
  ]

  module _ (usearch : Usearch I) where
    module _ (crates : Crates) (disk : Disk) (files : Files) (is_utf8 : List ℕ → Bool) where
      put_back-absent :
          (ws k : ℕ) (e : Entry I) (r : Result Error (Unit {0}) × Shard I) (p : ShardPool I)
          → (ws == k) ≡ false
          → HashMap.get k p.shards ≡ none
          → HashMap.get k (put_back usearch crates disk files is_utf8 ws e r p).1.shards ≡ none
      put_back-absent ws k e (ok u, s) p b h = insert-absent ws k _ p.shards b h
      put_back-absent ws k e (err x, s) p b h = insert-absent ws k _ p.shards b h

      demote_entry-absent :
          (ws k : ℕ) (e : Entry I) (p : ShardPool I)
          → (ws == k) ≡ false
          → HashMap.get k p.shards ≡ none
          → HashMap.get k (demote_entry usearch crates disk files is_utf8 ws e p).1.shards ≡ none
      unfolding demote_entry
      demote_entry-absent ws k e p b h = elim (Bool-cases (is_mapped (residency e.shard))) [
        | inl f ↦ rw f h
        | inr f ↦ rw f (put_back-absent ws k e _ p b h)
      ]

      -- A claimed shard is in the map.
      claimed-Differs :
          (ws k : ℕ) (p : ShardPool I) (e : Entry I)
          → claim_for_eviction ws p ≡ some e
          → HashMap.get k p.shards ≡ none
          → (ws == k) ≡ false
      unfolding claim_for_eviction
      claimed-Differs ws k p e q h = elim (Bool-cases (ws == k)) [
        | inl b ↦ absurd (ground (arith, q, h, ==→eq ws k b))
        | inr b ↦ b
      ]

      demote_claimed-Shrinks :
          (ws : ℕ) (p : ShardPool I) (o : Option (Entry I))
          → claim_for_eviction ws p ≡ o
          → Shrinks p.shards (demote_claimed usearch crates disk files is_utf8 ws o p).1.shards
      demote_claimed-Shrinks ws p none q k h = h
      demote_claimed-Shrinks ws p (some e) q k h =
          demote_entry-absent ws k e p (claimed-Differs ws k p e q h) h

      pub evict-Shrinks :
          (ws : ℕ) (p : ShardPool I)
          → Shrinks p.shards (evict usearch crates disk files is_utf8 ws p).1.shards
      unfolding evict
      evict-Shrinks ws p = demote_claimed-Shrinks ws p _ refl

      remove_closed-absent :
          (ws k : ℕ) (e : Entry I) (r : Result Error ℕ × Shard I) (p : ShardPool I)
          → (ws == k) ≡ false
          → HashMap.get k p.shards ≡ none
          → HashMap.get k (remove_closed usearch crates disk files is_utf8 ws e r p).1.shards ≡ none
      remove_closed-absent ws k e (ok seq, s) p b h = ground (arith, h, get-remove ws k p.shards)
      remove_closed-absent ws k e (err x, s) p b h = insert-absent ws k _ p.shards b h

      close_claimed-Shrinks :
          (ws : ℕ) (p : ShardPool I) (o : Option (Entry I))
          → claim_for_eviction ws p ≡ o
          → Shrinks p.shards (close_claimed usearch crates disk files is_utf8 ws o p).1.shards
      close_claimed-Shrinks ws p none q k h = h
      close_claimed-Shrinks ws p (some e) q k h =
          remove_closed-absent ws k e _ p (claimed-Differs ws k p e q h) h

      pub close-Shrinks :
          (ws : ℕ) (p : ShardPool I)
          → Shrinks p.shards (close usearch crates disk files is_utf8 ws p).1.shards
      unfolding close
      close-Shrinks ws p = close_claimed-Shrinks ws p _ refl

      module _ (budget : ℕ) where
        abbrev Shrinking : Action Error (ShardPool I) ℕ → Type 0
        Shrinking go = (p : ShardPool I) → Shrinks p.shards (go p).1.shards

        continue-absent :
            (k : ℕ) (r : Result Error Bool × ShardPool I) (f : Bool → Action Error (ShardPool I) ℕ)
            → ((b : Bool) → Shrinking (f b))
            → HashMap.get k r.1.shards ≡ none
            → HashMap.get k (continue r f).1.shards ≡ none
        continue-absent k (ok b, p) f s h = s b p k h
        continue-absent k (err e, p) f s h = h

        next_round-absent :
            (go : List ℕ → ℕ → Action Error (ShardPool I) ℕ) (skip : List ℕ) (evicted : ℕ)
            (v : Option (ℕ × Entry I)) (p : ShardPool I) (k : ℕ)
            → ((skip : List ℕ) (evicted : ℕ) → Shrinking (go skip evicted))
            → Differs k v
            → HashMap.get k p.shards ≡ none
            → HashMap.get k
                (next_round usearch crates disk files is_utf8 budget go skip evicted v p).1.shards
              ≡ none
        next_round-absent go skip evicted none p k s d h = h
        next_round-absent go skip evicted (some (ws, e)) p k s d h =
            continue-absent k _ _ (λ b. s _ _) (demote_entry-absent ws k e p d h)

        budget_loop-Shrinks :
            (fuel : ℕ) (skip : List ℕ) (evicted : ℕ)
            → Shrinking (budget_loop usearch crates disk files is_utf8 budget fuel skip evicted)
        unfolding budget_loop refresh_bytes
        budget_loop-Shrinks zero skip evicted p k h = h
        budget_loop-Shrinks (suc fuel) skip evicted p k h =
            let fresh = refresh_bytes usearch p in
            let gone : HashMap.get k fresh.shards ≡ none = get-refresh-none usearch k p.shards h in
            elim (Bool-cases (leb (total_bytes fresh) budget)) [
              | inl b ↦
                  subst (λ (r : Result Error ℕ × ShardPool I). HashMap.get k r.1.shards ≡ none)
                    (sym (loop_fits usearch crates disk files is_utf8 budget fuel skip evicted p b))
                    gone
              | inr b ↦
                  subst (λ (r : Result Error ℕ × ShardPool I). HashMap.get k r.1.shards ≡ none)
                    (sym (loop_over usearch crates disk files is_utf8 budget fuel skip evicted p b))
                    (next_round-absent (budget_loop usearch crates disk files is_utf8 budget fuel)
                      skip evicted (victim skip fresh.shards) fresh k (budget_loop-Shrinks fuel)
                      (victim-Differs skip fresh.shards k gone) gone)
            ]

        pub enforce_budget-Shrinks :
            (p : ShardPool I)
            → Shrinks p.shards (enforce_budget usearch crates disk files is_utf8 budget p).1.shards
        unfolding enforce_budget
        enforce_budget-Shrinks p = budget_loop-Shrinks _ [] 0 p

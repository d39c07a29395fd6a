-- ===== src/Pool/Opening/Moves.antt =====
-- embedding-store/src/pool.rs: each step of a thread keeps the invariant of the openings.
use embedding_processing_rs.Base.{
  ℕ, ◌<◌, ◌≡◌, sym, ◌∙◌, ap, false, Bool-cases, inl, inr, none, some, ◌==◌, ==→eq, arith,
}
use embedding_processing_rs.HashMap
use embedding_processing_rs.HashMap.{HashMap, get-insert}
use embedding_processing_rs.VectorIndex.{Usearch}
use embedding_processing_rs.Shard.{Shard}
use embedding_processing_rs.Pool.{ShardPool}
use embedding_processing_rs.Pool.Opening.Absent.{Shrinks}
use embedding_processing_rs.Pool.Opening.{
  Pc, waiting, entered, opened, leaving, retiring, returning, Shared, update, with_pool, gate_for,
  with_gate, set_owner, gate_of, retain_held, retire_gates, publish,
}
use embedding_processing_rs.Pool.Opening.Invariant.{
  inside, opening_of, Registered, Owned, Locked, Absent, Inv, is_held-of, get-retain_held,
  Inv-unique,
}

pub pool-Inv :
    {I : Type 0} {n : ℕ} {m : Shared I} {pc : ℕ → Pc I}
    → Inv n m pc
    → (pool : ShardPool I) → Shrinks m.pool.shards pool.shards
    → Inv n (with_pool pool m) pc
pool-Inv inv pool shrinks = record {
  registered = inv.registered;
  owned = inv.owned;
  locked = inv.locked;
  absent = λ i ws l h. shrinks ws (inv.absent i ws l h);
}

module _ {I : Type 0} {n : ℕ} {m : Shared I} {pc : ℕ → Pc I} (inv : Inv n m pc) (i : ℕ)
    (lt : i < n) where
  -- What holds of the thread that moved and of every other one.
  update-elim :
      (P : ℕ → Pc I → Type 0) (p' : Pc I)
      → P i p'
      → ((j : ℕ) → (i == j) ≡ false → P j (pc j))
      → (j : ℕ) → P j (update pc i p' j)
  update-elim P p' here there j = elim (Bool-cases (i == j)) [
    | inl b ↦ rw (b, sym (==→eq i j b)) here
    | inr b ↦ rw b (there j b)
  ]

  -- Only the pool changes.
  pub pool_moves-Inv :
      (p' : Pc I) (pool : ShardPool I)
      → ((ws g : ℕ) → gate_of p' ≡ some (ws, g) → gate_of (pc i) ≡ some (ws, g))
      → inside p' ≡ inside (pc i)
      → ((ws : ℕ) → opening_of p' ≡ some ws → HashMap.get ws pool.shards ≡ none)
      → Shrinks m.pool.shards pool.shards
      → Inv n (with_pool pool m) (update pc i p')
  pool_moves-Inv p' pool gates same fresh shrinks = record {
    registered =
        update-elim (Registered n (with_pool pool m)) p'
          (λ ws g l h. inv.registered i ws g l (gates ws g h)) (λ j b. inv.registered j);
    owned =
        update-elim (Owned n (with_pool pool m)) p' (λ g l h. inv.owned i g l (sym same ∙ h))
          (λ j b. inv.owned j);
    locked =
        update-elim (Locked n (with_pool pool m)) p' (λ g h. (lt, same ∙ (inv.locked i g h).1))
          (λ j b. inv.locked j);
    absent =
        update-elim (Absent n (with_pool pool m)) p' (λ ws l h. fresh ws h)
          (λ j b ws l h. shrinks ws (inv.absent j ws l h));
  }

  get-with_gate :
      (ws w g : ℕ)
      → HashMap.get w m.opening ≡ some g
      → HashMap.get w (HashMap.insert ws (gate_for ws m) m.opening) ≡ some g
  get-with_gate ws w g h = elim (Bool-cases (ws == w)) [
    | inl b ↦
        get-insert ws w (gate_for ws m) m.opening
        ∙ ground (arith, b, h, ap (λ k. HashMap.get k m.opening) (==→eq ws w b))
    | inr b ↦ ground (arith, b, h, get-insert ws w (gate_for ws m) m.opening)
  ]

  pub take_gate-Inv :
      (ws : ℕ)
      → inside (pc i) ≡ none
      → Inv n (with_gate ws m) (update pc i (waiting ws (gate_for ws m)))
  take_gate-Inv ws out = record {
    registered =
        update-elim (Registered n (with_gate ws m)) (waiting ws (gate_for ws m))
          (λ w g l h. ground (arith, h, get-insert ws w (gate_for ws m) m.opening))
          (λ j b w g l h. get-with_gate ws w g (inv.registered j w g l h));
    owned =
        update-elim (Owned n (with_gate ws m)) (waiting ws (gate_for ws m)) (λ g l h. cc)
          (λ j b. inv.owned j);
    locked =
        update-elim (Locked n (with_gate ws m)) (waiting ws (gate_for ws m))
          (λ g h. (lt, absurd (cc (out, (inv.locked i g h).1)))) (λ j b. inv.locked j);
    absent =
        update-elim (Absent n (with_gate ws m)) (waiting ws (gate_for ws m)) (λ w l h. cc)
          (λ j b. inv.absent j);
  }

  pub lock_gate-Inv :
      (ws g : ℕ)
      → pc i ≡ waiting ws g
      → m.owner g ≡ none
      → Inv n (set_owner g (some i) m) (update pc i (entered ws g))
  lock_gate-Inv ws g e is_free = record {
    registered =
        update-elim (Registered n (set_owner g (some i) m)) (entered ws g)
          (λ w h l q. inv.registered i w h l (ap gate_of e ∙ q)) (λ j b. inv.registered j);
    owned =
        update-elim (Owned n (set_owner g (some i) m)) (entered ws g) (λ h l q. ground (arith, q))
          (λ j b h l q.
            let own = inv.owned j h l q in
            elim (Bool-cases (g == h)) [
              | inl c ↦ absurd (cc (own, is_free, ==→eq g h c))
              | inr c ↦ rw c own
            ]);
    locked =
        update-elim (Locked n (set_owner g (some i) m)) (entered ws g)
          (λ h q. elim (Bool-cases (g == h)) [
            | inl c ↦ (lt, ap some (==→eq g h c))
            | inr c ↦ absurd (cc ((inv.locked i h (ground (arith, q, c))).1, ap inside e))
          ])
          (λ j b h q. elim (Bool-cases (g == h)) [
            | inl c ↦ absurd (ground (arith, b, q, c))
            | inr c ↦ inv.locked j h (ground (arith, q, c))
          ]);
    absent =
        update-elim (Absent n (set_owner g (some i) m)) (entered ws g) (λ w l h. cc)
          (λ j b. inv.absent j);
  }

  -- The lock of a gate is given back, at the end of an open or by a panic in it.
  pub unlock_gate-Inv :
      (g : ℕ) (p' : Pc I)
      → inside (pc i) ≡ some g
      → inside p' ≡ none
      → opening_of p' ≡ none
      → ((ws h : ℕ) → gate_of p' ≡ some (ws, h) → gate_of (pc i) ≡ some (ws, h))
      → Inv n (set_owner g none m) (update pc i p')
  unlock_gate-Inv g p' was out idles gates = record {
    registered =
        update-elim (Registered n (set_owner g none m)) p'
          (λ w h l q. inv.registered i w h l (gates w h q)) (λ j b. inv.registered j);
    owned =
        update-elim (Owned n (set_owner g none m)) p' (λ h l q. absurd (cc (q, out)))
          (λ j b h l q.
            let own = inv.owned j h l q in
            elim (Bool-cases (g == h)) [
              | inl c ↦
                  let same : some i ≡ some j =
                    sym (inv.owned i g lt was) ∙ ap m.owner (==→eq g h c) ∙ own in
                  absurd (ground (arith, same, b))
              | inr c ↦ rw c own
            ]);
    locked =
        update-elim (Locked n (set_owner g none m)) p'
          (λ h q. elim (Bool-cases (g == h)) [
            | inl c ↦ absurd (ground (arith, q, c))
            | inr c ↦
                let here = (inv.locked i h (ground (arith, q, c))).1 in
                let same : some g ≡ some h = sym was ∙ here in absurd (ground (arith, same, c))
          ])
          (λ j b h q. elim (Bool-cases (g == h)) [
            | inl c ↦ absurd (ground (arith, q, c))
            | inr c ↦ inv.locked j h (ground (arith, q, c))
          ]);
    absent =
        update-elim (Absent n (set_owner g none m)) p' (λ w l h. absurd (cc (h, idles)))
          (λ j b. inv.absent j);
  }

  pub enter_shard-Inv :
      (usearch : Usearch I) (ws g : ℕ) (shard : Shard I)
      → pc i ≡ opened ws g shard
      → Inv n (with_pool (publish usearch ws shard m.pool) m) (update pc i (leaving ws g))
  unfolding publish
  enter_shard-Inv usearch ws g shard e = record {
    registered =
        update-elim (Registered n (with_pool (publish usearch ws shard m.pool) m)) (leaving ws g)
          (λ w h l q. inv.registered i w h l (ap gate_of e ∙ q)) (λ j b. inv.registered j);
    owned =
        update-elim (Owned n (with_pool (publish usearch ws shard m.pool) m)) (leaving ws g)
          (λ h l q. inv.owned i h l (ap inside e ∙ q)) (λ j b. inv.owned j);
    locked =
        update-elim (Locked n (with_pool (publish usearch ws shard m.pool) m)) (leaving ws g)
          (λ h q. (lt, sym (ap inside e) ∙ (inv.locked i h q).1)) (λ j b. inv.locked j);
    absent =
        update-elim (Absent n (with_pool (publish usearch ws shard m.pool) m)) (leaving ws g)
          (λ w l h. cc)
          (λ j b w l h. elim (Bool-cases (ws == w)) [
            | inl c ↦
                let same =
                  Inv-unique inv j i ws l lt (h ∙ ap some (sym (==→eq ws w c))) g (ap gate_of e)
                    (ap inside e) in
                absurd (ground (arith, b, same))
            | inr c ↦ get-insert ws w _ m.pool.shards ∙ rw c (inv.absent j w l h)
          ]);
  }

  pub retire-Inv :
      (ws g : ℕ) → pc i ≡ retiring ws g → Inv n (retire_gates n pc m) (update pc i (returning ws g))
  retire-Inv ws g e = record {
    registered =
        update-elim (Registered n (retire_gates n pc m)) (returning ws g)
          (λ w h l q. stays i w h l (ap gate_of e ∙ q)) (λ j b. stays j);
    owned =
        update-elim (Owned n (retire_gates n pc m)) (returning ws g) (λ h l q. cc)
          (λ j b. inv.owned j);
    locked =
        update-elim (Locked n (retire_gates n pc m)) (returning ws g)
          (λ h q. (lt, sym (ap inside e) ∙ (inv.locked i h q).1)) (λ j b. inv.locked j);
    absent =
        update-elim (Absent n (retire_gates n pc m)) (returning ws g) (λ w l h. cc)
          (λ j b. inv.absent j);
  }
    where
      stays :
          (j w h : ℕ)
          → j < n
          → gate_of (pc j) ≡ some (w, h)
          → HashMap.get w (retain_held n pc m.opening) ≡ some h
      stays j w h l q =
          get-retain_held n pc m.opening w h (is_held-of n pc j w h l q) (inv.registered j w h l q)

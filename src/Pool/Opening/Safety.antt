-- ===== src/Pool/Opening/Safety.antt =====
-- embedding-store/src/pool.rs: a workspace's directory is opened by one thread at a time.
use embedding_processing_rs.Base.{
  ℕ, ◌<◌, ◌≡◌, refl, sym, ◌∙◌, ap, subst, Bool, ◌⊎◌, inl, inr, Option, none, some, List,
  Option-cases,
}
use embedding_processing_rs.HashMap
use embedding_processing_rs.HashMap.{HashMap, get-insert}
use embedding_processing_rs.Crates.{Crates}
use embedding_processing_rs.Segment.{Disk}
use embedding_processing_rs.VectorIndex.{Usearch, Files}
use embedding_processing_rs.Pool.{ShardPool, touch}
use embedding_processing_rs.Pool.Opening.Absent.{
  touch-Shrinks, touch-none, evict-Shrinks, close-Shrinks, enforce_budget-Shrinks, set_held-Shrinks,
}
use embedding_processing_rs.Pool.Opening.{
  Pc, idle, missed, waiting, entered, opens, opened, leaving, retiring, returning, closed, Shared,
  update, gate_of, Move, peek_hit, peek_miss, open_now, take_gate, lock_gate, done_before,
  begin_open, open_fails, open_panics, open_returns, enter_shard, unlock_gate, retire, keep_budget,
  return, evicting, closing, calling, close_returns, pick, Reach, start, later,
}
use embedding_processing_rs.Pool.Opening.Invariant.{
  inside, opening_of, Inv, opening-inside, Inv-unique,
}
use embedding_processing_rs.Pool.Opening.Moves.{
  pool-Inv, pool_moves-Inv, take_gate-Inv, lock_gate-Inv, unlock_gate-Inv, enter_shard-Inv,
  retire-Inv,
}

at_some :
    {V : Type 0} {v w : ℕ} (m : HashMap V)
    → some v ≡ some w
    → HashMap.get v m ≡ none
    → HashMap.get w m ≡ none
at_some m h gone = cc (ap (λ o. get_some m o) h, gone)
  where
    get_some : {V : Type 0} → HashMap V → Option ℕ → Option V
    get_some m none = none
    get_some m (some k) = HashMap.get k m

-- Every step keeps the invariant, and it holds at the start.
module _ {I : Type 0} (usearch : Usearch I) (crates : Crates) (disk : Disk) (files : Files)
    (is_utf8 : List ℕ → Bool) (budget : ℕ) where
  Move-Inv :
      (i : ℕ) {n : ℕ} {pc : ℕ → Pc I} {m m' : Shared I} {p p' : Pc I}
      → Inv n m pc
      → i < n
      → Move usearch crates disk files is_utf8 budget n pc i m p m' p'
      → pc i ≡ p
      → Inv n m' (update pc i p')
  Move-Inv i {m} inv lt (peek_hit ws q) e =
      pool_moves-Inv inv i lt idle _ (λ w g h. cc) (sym (ap inside e)) (λ w h. cc)
        (touch-Shrinks ws m.pool)
  Move-Inv i {m} inv lt (peek_miss ws q) e =
      pool_moves-Inv inv i lt (missed ws) _ (λ w g h. cc) (sym (ap inside e)) (λ w h. cc)
        (touch-Shrinks ws m.pool)
  Move-Inv i {m} inv lt (open_now {ws} q) e =
      pool_moves-Inv inv i lt idle _ (λ w g h. cc) (sym (ap inside e)) (λ w h. cc)
        (touch-Shrinks ws m.pool)
  Move-Inv i {m} inv lt (take_gate {ws} q) e =
      take_gate-Inv (pool-Inv inv (touch ws m.pool).1 (touch-Shrinks ws m.pool)) i lt ws
        (ap inside e)
  Move-Inv i inv lt (lock_gate {ws} {g} q) e = lock_gate-Inv inv i lt ws g e q
  Move-Inv i {m} inv lt (done_before {ws} {g} q) e =
      pool_moves-Inv inv i lt (leaving ws g) _ (λ w h q. ap gate_of e ∙ q) (sym (ap inside e))
        (λ w h. cc) (touch-Shrinks ws m.pool)
  Move-Inv i {m} inv lt (begin_open {ws} {g} q) e =
      pool_moves-Inv inv i lt (opens ws g) _ (λ w h q. ap gate_of e ∙ q) (sym (ap inside e))
        (λ w h. touch-Shrinks ws m.pool w (at_some m.pool.shards h (touch-none ws m.pool q)))
        (touch-Shrinks ws m.pool)
  Move-Inv i {m} inv lt (open_fails {ws} {g}) e =
      pool_moves-Inv inv i lt (leaving ws g) m.pool (λ w h q. ap gate_of e ∙ q) (sym (ap inside e))
        (λ w h. cc) (λ k h. h)
  Move-Inv i inv lt (open_panics {ws} {g}) e =
      unlock_gate-Inv inv i lt g idle (ap inside e) refl refl (λ w h q. cc)
  Move-Inv i {m} inv lt (open_returns {ws} {g} shard) e =
      pool_moves-Inv inv i lt (opened ws g shard) m.pool (λ w h q. ap gate_of e ∙ q)
        (sym (ap inside e)) (λ w h. inv.absent i w lt (ap opening_of e ∙ h)) (λ k h. h)
  Move-Inv i inv lt (enter_shard {ws} {g} {shard}) e = enter_shard-Inv inv i lt usearch ws g shard e
  Move-Inv i inv lt (unlock_gate {ws} {g}) e =
      unlock_gate-Inv inv i lt g (retiring ws g) (ap inside e) refl refl (λ w h q. ap gate_of e ∙ q)
  Move-Inv i inv lt (retire {ws} {g}) e = retire-Inv inv i lt ws g e
  Move-Inv i {m} inv lt (keep_budget {ws} {g}) e =
      pool_moves-Inv inv i lt (returning ws g) _ (λ w h q. ap gate_of e ∙ q) (sym (ap inside e))
        (λ w h. cc) (enforce_budget-Shrinks usearch crates disk files is_utf8 budget m.pool)
  Move-Inv i {m} inv lt (return {ws} {g}) e =
      pool_moves-Inv inv i lt idle m.pool (λ w h q. cc) (sym (ap inside e)) (λ w h. cc) (λ k h. h)
  Move-Inv i {m} inv lt (evicting ws) e =
      pool_moves-Inv inv i lt idle _ (λ w h q. cc) (sym (ap inside e)) (λ w h. cc)
        (evict-Shrinks usearch crates disk files is_utf8 ws m.pool)
  Move-Inv i {m} inv lt (closing ws) e =
      pool_moves-Inv inv i lt (closed ws) _ (λ w h q. cc) (sym (ap inside e)) (λ w h. cc)
        (close-Shrinks usearch crates disk files is_utf8 ws m.pool)
  Move-Inv i {m} inv lt (calling ws holders busy) e =
      pool_moves-Inv inv i lt idle _ (λ w h q. cc) (sym (ap inside e)) (λ w h. cc)
        (set_held-Shrinks ws holders busy m.pool)
  Move-Inv i {m} inv lt (close_returns {ws}) e =
      pool_moves-Inv inv i lt idle m.pool (λ w h q. cc) (sym (ap inside e)) (λ w h. cc) (λ k h. h)

  Reach-Inv :
      {n : ℕ} {pool : ShardPool I} {m : Shared I} {pc : ℕ → Pc I}
      → Reach usearch crates disk files is_utf8 budget n pool m pc
      → Inv n m pc
  Reach-Inv start = record {
    registered = λ i ws g l h. cc;
    owned = λ i g l h. cc;
    locked = λ i g h. cc;
    absent = λ i ws l h. cc;
  }
  Reach-Inv (later r (pick i lt mv)) = Move-Inv i (Reach-Inv r) lt mv refl

  -- However the calls of several threads interleave, two threads that are in `Shard::open_with` of one
  -- workspace are the same thread, and the pool has no shard of that workspace, until the one that was
  -- opened is entered in it. The threads open, evict and close shards and keep the budget.
  pub opening_unique :
      {n : ℕ} {pool : ShardPool I} {m : Shared I} {pc : ℕ → Pc I}
      → Reach usearch crates disk files is_utf8 budget n pool m pc
      → (i j ws : ℕ) → i < n
      → j < n
      → opening_of (pc i) ≡ some ws
      → opening_of (pc j) ≡ some ws
      → (i ≡ j) × (HashMap.get ws m.pool.shards ≡ none)
  opening_unique {pc} r i j ws li lj hi hj =
      let inv = Reach-Inv r in
      let (g, gate, here) = opening-inside (pc j) ws hj in
      (Inv-unique inv i j ws li lj hi g gate here, inv.absent i ws li hi)

  -- A step that the thread can take.
  abbrev pub CanMove : ℕ → Shared I → (ℕ → Pc I) → ℕ → Type 0
  CanMove n m pc j =
      (m' : Shared I) × (p' : Pc I) × Move usearch crates disk files is_utf8 budget n pc j m (pc j)
        m' p'

  entered-moves :
      (n : ℕ) (m : Shared I) (pc : ℕ → Pc I) (j ws g : ℕ)
      → (m' : Shared I) × (p' : Pc I) × Move usearch crates disk files is_utf8 budget n pc j m
          (entered ws g)
          m'
          p'
  entered-moves n m pc j ws g = elim (Option-cases (touch ws m.pool).0) [
    | inl none_open ↦ (_, _, begin_open none_open)
    | inr (shard, there) ↦ (_, _, done_before there)
  ]

  inside-moves :
      (n : ℕ) (m : Shared I) (pc : ℕ → Pc I) (j g : ℕ) (p : Pc I)
      → inside p ≡ some g
      → (m' : Shared I) × (p' : Pc I) × Move usearch crates disk files is_utf8 budget n pc j m p m'
          p'
  inside-moves n m pc j g (entered ws h) q = entered-moves n m pc j ws h
  inside-moves n m pc j g (opens ws h) q = (_, _, open_fails)
  inside-moves n m pc j g (opened ws h shard) q = (_, _, enter_shard)
  inside-moves n m pc j g (leaving ws h) q = (_, _, unlock_gate)
  inside-moves n m pc j g idle q = cc
  inside-moves n m pc j g (missed ws) q = cc
  inside-moves n m pc j g (waiting ws h) q = cc
  inside-moves n m pc j g (retiring ws h) q = cc
  inside-moves n m pc j g (returning ws h) q = cc
  inside-moves n m pc j g (closed ws) q = cc

  -- A thread that waits for a gate can lock it, or the thread that has locked it is past its wait and can
  -- move on: the gates do not deadlock, also where an open fails or panics.
  pub waiting_moves :
      {n : ℕ} {pool : ShardPool I} {m : Shared I} {pc : ℕ → Pc I}
      → Reach usearch crates disk files is_utf8 budget n pool m pc
      → (i ws g : ℕ) → pc i ≡ waiting ws g
      → (j : ℕ) × ((j ≡ i) ⊎ ((j < n) × (inside (pc j) ≡ some g))) × CanMove n m pc j
  waiting_moves {n} {m} {pc} r i ws g e = elim (Option-cases (m.owner g)) [
    | inl is_free ↦ (
      i,
      inl refl,
      subst
          (λ (p : Pc I).
            (m' : Shared I) × (p' : Pc I) × Move usearch crates disk files is_utf8 budget n pc i m p
              m' p')
          (sym e) (_, _, lock_gate is_free),
    )
    | inr (j, held) ↦
        let (lj, here) = (Reach-Inv r).locked j g held in
        (j, inr (lj, here), inside-moves n m pc j g (pc j) here)
  ]

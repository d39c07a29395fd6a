-- ===== src/Pool/Opening.antt =====
-- embedding-store/src/pool.rs: `get_with` in several threads, one access to the pool's lock or to a
-- gate at a time. A gate is the number of its allocation. What `Shard::open_with` returns, and whether
-- it returns at all, is left open. The other methods of the pool are one step each, and a thread that
-- has closed a shard keeps its own reference for one step more.
pub mod Absent
pub mod Invariant
pub mod Moves
pub mod Safety
use embedding_processing_rs.Base.{
  ℕ, zero, suc, ◌+◌, ◌<◌, ◌≡◌, Bool, false, ◌||◌, Option, none, some, List, [], ◌∷◌, ◌==◌,
  if◌then◌else◌,
}
use embedding_processing_rs.HashMap
use embedding_processing_rs.HashMap.{HashMap}
use embedding_processing_rs.Crates.{Crates}
use embedding_processing_rs.Segment.{Disk}
use embedding_processing_rs.VectorIndex.{Usearch, Files}
use embedding_processing_rs.Shard.{Shard}
use embedding_processing_rs.Pool.{
  Entry, ShardPool, touch, index_memory_bytes, evict, close, enforce_budget,
}

-- Where a thread stands, with the local variables that are live there.
pub data Pc (I : Type 0) : Type 0 where
  idle : Pc I
  -- `peek` found nothing
  missed : (ws : ℕ) → Pc I
  -- before `gate.lock()`
  waiting : (ws g : ℕ) → Pc I
  -- the start of `open_and_insert`
  entered : (ws g : ℕ) → Pc I
  -- in `Shard::open_with`
  opens : (ws g : ℕ) → Pc I
  -- before the shard is entered in the map
  opened : (ws g : ℕ) (shard : Shard I) → Pc I
  -- before `drop(opening)`
  leaving : (ws g : ℕ) → Pc I
  -- before `retire_gates`
  retiring : (ws g : ℕ) → Pc I
  -- behind it, with the gate still a local variable
  returning : (ws g : ℕ) → Pc I
  -- the end of `close`, with the shard still a local variable
  closed : (ws : ℕ) → Pc I

-- What the threads share: the pool, the gates by workspace, the thread that has locked a gate, and the
-- number of the next gate.
pub record Shared (I : Type 0) : Type 0 where
  pub pool : ShardPool I
  pub opening : HashMap ℕ
  pub owner : ℕ → Option ℕ
  pub made : ℕ

abbrev pub update {ℓ} : {A : Type ℓ} → (ℕ → A) → ℕ → A → ℕ → A
update f i a j = if i == j then a else f j

-- The new gate goes in where there is none.
abbrev pub or_made : ℕ → Option ℕ → ℕ
or_made made none = made
or_made made (some g) = g

abbrev pub is_gate : ℕ → Option (ℕ × ℕ) → Bool
is_gate g none = false
is_gate g (some (ws, h)) = h == g

module _ {I : Type 0} where
  abbrev pub with_pool : ShardPool I → Shared I → Shared I
  with_pool p m = record m { pool = p }

  abbrev pub held_by : ℕ → ℕ → Bool → ShardPool I → Option (Entry I) → ShardPool I
  held_by ws holders busy p none = p
  held_by ws holders busy p (some e) = record p {
    shards = HashMap.insert ws (record e { holders = holders; busy = busy }) p.shards;
  }

  -- What callers hold of an open shard, and whether one of them has its lock.
  unfoldable pub set_held : ℕ → ℕ → Bool → ShardPool I → ShardPool I
  set_held ws holders busy p = held_by ws holders busy p (HashMap.get ws p.shards)

  -- `entry(workspace).or_insert_with(..)`
  abbrev pub gate_for : ℕ → Shared I → ℕ
  gate_for ws m = or_made m.made (HashMap.get ws m.opening)

  abbrev pub with_gate : ℕ → Shared I → Shared I
  with_gate ws m = record m {
    opening = HashMap.insert ws (gate_for ws m) m.opening;
    made = m.made + 1;
  }

  abbrev pub set_owner : ℕ → Option ℕ → Shared I → Shared I
  set_owner g o m = record m { owner = update m.owner g o }

  -- The gate that a thread has a reference to, with its workspace.
  abbrev pub gate_of : Pc I → Option (ℕ × ℕ)
  gate_of (waiting ws g) = some (ws, g)
  gate_of (entered ws g) = some (ws, g)
  gate_of (opens ws g) = some (ws, g)
  gate_of (opened ws g shard) = some (ws, g)
  gate_of (leaving ws g) = some (ws, g)
  gate_of (retiring ws g) = some (ws, g)
  gate_of (returning ws g) = some (ws, g)
  gate_of _ = none

  -- `Arc::strong_count(gate) > 1`: one of the first `n` threads has it.
  unfoldable pub is_held : ℕ → (ℕ → Pc I) → ℕ → Bool
  is_held zero pc g = false
  is_held (suc n) pc g = is_gate g (gate_of (pc n)) || is_held n pc g

  unfoldable pub retain_held : ℕ → (ℕ → Pc I) → HashMap ℕ → HashMap ℕ
  retain_held n pc [] = []
  retain_held n pc ((ws, g) ∷ opening) =
      let rest = retain_held n pc opening in if is_held n pc g then (ws, g) ∷ rest else rest

  abbrev pub retire_gates : ℕ → (ℕ → Pc I) → Shared I → Shared I
  retire_gates n pc m = record m { opening = retain_held n pc m.opening }

  module _ (usearch : Usearch I) where
    -- The end of `open_and_insert`.
    unfoldable pub publish : ℕ → Shard I → ShardPool I → ShardPool I
    publish ws shard p = record {
      shards =
          HashMap.insert ws
            (record {
              shard = shard;
              holders = 1;
              busy = false;
              last_used = p.tick + 1;
              bytes = index_memory_bytes usearch shard;
            })
            p.shards;
      tick = p.tick + 1;
    }

    module _ (crates : Crates) (disk : Disk) (files : Files) (is_utf8 : List ℕ → Bool) (budget : ℕ)
        (n : ℕ) (pc : ℕ → Pc I) (i : ℕ) (m : Shared I) where
      -- One step of thread `i` of `n`.
      pub data Move : Pc I → Shared I → Pc I → Type 0 where
        peek_hit :
            (ws : ℕ) {shard : Shard I}
            → (touch ws m.pool).0 ≡ some shard
            → Move idle (with_pool (touch ws m.pool).1 m) idle
        peek_miss :
            (ws : ℕ)
            → (touch ws m.pool).0 ≡ none
            → Move idle (with_pool (touch ws m.pool).1 m) (missed ws)
        open_now :
            {ws : ℕ} {shard : Shard I}
            → (touch ws m.pool).0 ≡ some shard
            → Move (missed ws) (with_pool (touch ws m.pool).1 m) idle
        take_gate :
            {ws : ℕ}
            → (touch ws m.pool).0 ≡ none
            → Move
                (missed ws)
                (with_gate ws (with_pool (touch ws m.pool).1 m))
                (waiting ws (gate_for ws m))
        lock_gate :
            {ws g : ℕ}
            → m.owner g ≡ none
            → Move (waiting ws g) (set_owner g (some i) m) (entered ws g)
        done_before :
            {ws g : ℕ} {shard : Shard I}
            → (touch ws m.pool).0 ≡ some shard
            → Move (entered ws g) (with_pool (touch ws m.pool).1 m) (leaving ws g)
        begin_open :
            {ws g : ℕ}
            → (touch ws m.pool).0 ≡ none
            → Move (entered ws g) (with_pool (touch ws m.pool).1 m) (opens ws g)
        open_fails : {ws g : ℕ} → Move (opens ws g) m (leaving ws g)
        open_panics : {ws g : ℕ} → Move (opens ws g) (set_owner g none m) idle
        open_returns : {ws g : ℕ} (shard : Shard I) → Move (opens ws g) m (opened ws g shard)
        enter_shard :
            {ws g : ℕ} {shard : Shard I}
            → Move (opened ws g shard) (with_pool (publish ws shard m.pool) m) (leaving ws g)
        unlock_gate : {ws g : ℕ} → Move (leaving ws g) (set_owner g none m) (retiring ws g)
        retire : {ws g : ℕ} → Move (retiring ws g) (retire_gates n pc m) (returning ws g)
        keep_budget :
            {ws g : ℕ}
            → Move
                (returning ws g)
                (with_pool (enforce_budget usearch crates disk files is_utf8 budget m.pool).1 m)
                (returning ws g)
        return : {ws g : ℕ} → Move (returning ws g) m idle
        evicting :
            (ws : ℕ)
            → Move idle (with_pool (evict usearch crates disk files is_utf8 ws m.pool).1 m) idle
        closing :
            (ws : ℕ)
            → Move idle
                (with_pool (close usearch crates disk files is_utf8 ws m.pool).1 m)
                (closed ws)
        -- A caller takes a reference to an open shard or drops it, or takes or leaves its lock.
        calling :
            (ws holders : ℕ) (busy : Bool)
            → Move idle (with_pool (set_held ws holders busy m.pool) m) idle
        close_returns : {ws : ℕ} → Move (closed ws) m idle

    module _ (crates : Crates) (disk : Disk) (files : Files) (is_utf8 : List ℕ → Bool)
        (budget : ℕ) where
      pub data Step (n : ℕ) (m : Shared I) (pc : ℕ → Pc I) : Shared I → (ℕ → Pc I) → Type 0 where
        pick :
            (i : ℕ) {m' : Shared I} {p : Pc I}
            → i < n
            → Move crates disk files is_utf8 budget n pc i m (pc i) m' p
            → Step n m pc m' (update pc i p)

      -- From a pool with no gates, and no thread in it.
      pub data Reach (n : ℕ) (pool : ShardPool I) : Shared I → (ℕ → Pc I) → Type 0 where
        start :
            Reach n pool
              (record { pool = pool; opening = []; owner = λ _. none; made = 0 })
              (λ _. idle)
        later :
            {m m' : Shared I} {pc pc' : ℕ → Pc I}
            → Reach n pool m pc
            → Step n m pc m' pc'
            → Reach n pool m' pc'

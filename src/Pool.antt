-- ===== src/Pool.antt =====
-- embedding-store/src/pool.rs: the shards of the workspaces, under one memory budget.
-- A workspace's Uuid is a number. `holders` counts the references to a shard outside the pool, and `busy`
-- says that another thread has its lock, so that `try_stats` returns nothing. A method of the pool is
-- one step: what other threads do between two of its locks is not in it. The gates that keep a second
-- thread from opening the same directory are in Opening.
pub mod Victim
pub mod Recency
pub mod Budget
pub mod Opening
pub mod All
use embedding_processing_rs.Base.{
  ℕ, zero, suc, ◌+◌, ◌*◌, ◌&&◌, Bool, true, false, not, Option, none, some, List, [], ◌∷◌, leb, ltb,
  ◌==◌, if◌then◌else◌, length, contains, Result, ok, err,
}
use embedding_processing_rs.Base.Action.{Action, pure, continue, ◌>>=◌, ◌>>◌}
use embedding_processing_rs.HashMap
use embedding_processing_rs.HashMap.{HashMap}
use embedding_processing_rs.Crates.{Crates}
use embedding_processing_rs.Errors.{Error, out_of_fuel}
use embedding_processing_rs.Segment.{Disk}
use embedding_processing_rs.Store.Seal.{fsync}
use embedding_processing_rs.VectorIndex
use embedding_processing_rs.VectorIndex.{Usearch, Files}
use embedding_processing_rs.Shard
use embedding_processing_rs.Shard.{Shard, IndexResidency, residency, on_store}

pub record Entry (I : Type 0) : Type 0 where
  pub shard : Shard I
  pub holders : ℕ
  pub busy : Bool
  pub last_used : ℕ
  pub bytes : ℕ

pub record ShardPool (I : Type 0) : Type 0 where
  pub shards : HashMap (Entry I)
  pub tick : ℕ

-- `residency() == IndexResidency::Viewed`
abbrev pub is_mapped : IndexResidency → Bool
is_mapped IndexResidency.loaded = false
is_mapped IndexResidency.viewed = true

module _ {I : Type 0} where
  abbrev pub touched : ℕ → ShardPool I → Option (Entry I) → Option (Shard I) × ShardPool I
  touched workspace p none = (none, p)
  touched workspace p (some e) = (
    some e.shard,
    record p { shards = HashMap.insert workspace (record e { last_used = p.tick }) p.shards },
  )

  -- `Inner::touch`, which is `peek`: a shard that is open, now the last one used.
  unfoldable pub touch : ℕ → ShardPool I → Option (Shard I) × ShardPool I
  touch workspace p =
      let ticked = record p { tick = p.tick + 1 } in
      touched workspace ticked (HashMap.get workspace p.shards)

  abbrev pub is_loaded : ℕ → ShardPool I → Bool
  is_loaded workspace p = HashMap.contains_key workspace p.shards

  abbrev sum_bytes : HashMap (Entry I) → ℕ
  sum_bytes [] = 0
  sum_bytes ((ws, e) ∷ m) = e.bytes + sum_bytes m

  unfoldable pub total_bytes : ShardPool I → ℕ
  total_bytes p = sum_bytes p.shards

  -- Nobody but the pool has the shard.
  abbrev pub is_unheld : Entry I → Bool
  is_unheld e = e.holders == 0

  abbrev pub earlier : ℕ × Entry I → Option (ℕ × Entry I) → ℕ × Entry I
  earlier p none = p
  earlier p (some q) = if leb p.1.last_used q.1.last_used then p else q

  -- The least recently used of the unheld shards that are not to be skipped.
  unfoldable pub victim : List ℕ → HashMap (Entry I) → Option (ℕ × Entry I)
  victim skip [] = none
  victim skip ((ws, e) ∷ m) =
      let rest = victim skip m in
      if not (contains skip ws) && is_unheld e then some (earlier (ws, e) rest) else rest

  -- `claim_for_eviction`
  abbrev pub claimed : Option (Entry I) → Option (Entry I)
  claimed none = none
  claimed (some e) = if is_unheld e then some e else none

  unfoldable pub claim_for_eviction : ℕ → ShardPool I → Option (Entry I)
  claim_for_eviction workspace p = claimed (HashMap.get workspace p.shards)

  module _ (usearch : Usearch I) where
    unfoldable pub index_memory_bytes : Shard I → ℕ
    index_memory_bytes s =
        VectorIndex.memory_bytes usearch s.splits + VectorIndex.memory_bytes usearch s.summaries

    -- The figure of a busy shard stays.
    abbrev pub measured : Entry I → Entry I
    measured e = if e.busy then e else record e { bytes = index_memory_bytes e.shard }

    abbrev pub refresh_all : HashMap (Entry I) → HashMap (Entry I)
    refresh_all [] = []
    refresh_all ((ws, e) ∷ m) = (ws, measured e) ∷ refresh_all m

    unfoldable pub refresh_bytes : ShardPool I → ShardPool I
    refresh_bytes p = record p { shards = refresh_all p.shards }

    module _ (crates : Crates) (disk : Disk) (files : Files) (is_utf8 : List ℕ → Bool) where
      abbrev pub put_back :
          ℕ
          → Entry I
          → Result Error (Unit {0}) × Shard I
          → ShardPool I
          → Result Error Bool × ShardPool I
      put_back ws e (ok u, s) p = (
        ok true,
        record p { shards = HashMap.insert ws (measured (record e { shard = s })) p.shards },
      )
      put_back ws e (err x, s) p =
          (err x, record p { shards = HashMap.insert ws (record e { shard = s }) p.shards })

      -- `ShardPool::demote`
      unfoldable pub demote_entry : ℕ → Entry I → Action Error (ShardPool I) Bool
      demote_entry ws e p =
          if is_mapped (residency e.shard)
          then (ok false, p)
          else put_back ws e (Shard.demote usearch crates disk files is_utf8 e.shard) p

      abbrev pub demote_claimed : ℕ → Option (Entry I) → Action Error (ShardPool I) Bool
      demote_claimed ws none = pure false
      demote_claimed ws (some e) = demote_entry ws e

      unfoldable pub evict : ℕ → Action Error (ShardPool I) Bool
      evict ws p = demote_claimed ws (claim_for_eviction ws p) p

      abbrev pub remove_closed :
          ℕ → Entry I → Result Error ℕ × Shard I → ShardPool I → Result Error Bool × ShardPool I
      remove_closed ws e (ok seq, s) p = (ok true, record p { shards = HashMap.remove ws p.shards })
      remove_closed ws e (err x, s) p =
          (err x, record p { shards = HashMap.insert ws (record e { shard = s }) p.shards })

      abbrev pub close_claimed : ℕ → Option (Entry I) → Action Error (ShardPool I) Bool
      close_claimed ws none p = (ok false, p)
      close_claimed ws (some e) p =
          remove_closed ws e (Shard.snapshot usearch crates disk files is_utf8 e.shard) p

      unfoldable pub close : ℕ → Action Error (ShardPool I) Bool
      close ws p = close_claimed ws (claim_for_eviction ws p) p

      module _ (budget : ℕ) where
        -- A victim is demoted, or skipped from then on, and the loop goes on.
        abbrev pub next_round :
            (List ℕ → ℕ → Action Error (ShardPool I) ℕ)
            → List ℕ
            → ℕ
            → Option (ℕ × Entry I)
            → Action Error (ShardPool I) ℕ
        next_round go skip evicted none p = (ok evicted, p)
        next_round go skip evicted (some (ws, e)) p = continue (demote_entry ws e p) (λ demoted.
            go (if demoted then skip else ws ∷ skip) (if demoted then evicted + 1 else evicted))

        -- The loop of `enforce_budget`.
        unfoldable pub budget_loop : ℕ → List ℕ → ℕ → Action Error (ShardPool I) ℕ
        budget_loop zero skip evicted p = (err out_of_fuel, p)
        budget_loop (suc fuel) skip evicted p =
            let fresh = refresh_bytes p in
            elim (leb (total_bytes fresh) budget) [
              | true ↦ (ok evicted, fresh)
              | false ↦ next_round (budget_loop fuel) skip evicted (victim skip fresh.shards) fresh
            ]

        -- Each entry is demoted and skipped once at most.
        unfoldable pub enforce_budget : Action Error (ShardPool I) ℕ
        enforce_budget p = budget_loop (2 * length p.shards + 1) [] 0 p

-- ===== src/Examples/Openings.antt =====
-- Two threads that want the same workspace: the first opens its shard, and the second waits for the gate.
use embedding_processing_rs.Base.{ℕ, ◌<◌, ◌≡◌, refl, ◌⊎◌, none, some, [], arith}
use embedding_processing_rs.HashMap
use embedding_processing_rs.Pool.{ShardPool, touch}
use embedding_processing_rs.Pool.Opening.{
  Pc, Shared, Reach, start, later, pick, peek_miss, take_gate, lock_gate, begin_open,
}
use embedding_processing_rs.Pool.Opening.Safety.{opening_unique, waiting_moves, CanMove}
use embedding_processing_rs.Pool.Opening.Invariant.{inside}
use embedding_processing_rs.Examples.Codecs.{plain_crates}
use embedding_processing_rs.Examples.Runs.{big_disk}
use embedding_processing_rs.Examples.Shards.{Keys, key_usearch, all_files, any_text}

abbrev empty_pool : ShardPool Keys
empty_pool = record { shards = []; tick = 0 }

abbrev Run : Type 0
Run =
    (m : Shared Keys) × (pc : ℕ → Pc Keys) × Reach key_usearch plain_crates big_disk all_files
      any_text 3 2 empty_pool m pc

contended : Run
unfolding touch HashMap.get HashMap.insert
contended = (
  _,
  _,
  later
      (later
        (later
          (later
            (later (later start (pick 0 (omega arith) (peek_miss 5 refl)))
              (pick 1 (omega arith) (peek_miss 5 refl)))
            (pick 0 (omega arith) (take_gate refl)))
          (pick 1 (omega arith) (take_gate refl)))
        (pick 0 (omega arith) (lock_gate refl)))
      (pick 0 (omega arith) (begin_open refl)),
)

opening_unique_example : (◌≡◌ {A = ℕ} 0 0) × (HashMap.get 5 contended.0.pool.shards ≡ none)
unfolding touch contended
opening_unique_example =
    opening_unique key_usearch plain_crates big_disk all_files any_text 3 contended.2 0 0 5
      (omega arith) (omega arith) refl refl

waiting_moves_example :
    (j : ℕ) × ((j ≡ 1) ⊎ ((j < 2) × (inside (contended.1 j) ≡ some 0)))
    × CanMove key_usearch plain_crates big_disk all_files any_text 3 2 contended.0 contended.1 j
unfolding touch contended HashMap.get HashMap.insert
waiting_moves_example =
    waiting_moves key_usearch plain_crates big_disk all_files any_text 3 contended.2 1 5 0 refl

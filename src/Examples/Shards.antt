-- ===== src/Examples/Shards.antt =====
-- Shards over an index that keeps only the keys, and a pool of them.
use embedding_processing_rs.Base.{
  ℕ, ◌+◌, ◌≡◌, ◌≢◌, refl, Bool, true, false, not, ◌==◌, none, some, List, [], ◌∷◌, ◌++◌, length,
  filter_by, arith, ok,
}
use embedding_processing_rs.Base.Action.{◌>>=◌, ◌>>◌}
use embedding_processing_rs.HashMap
use embedding_processing_rs.HashMap.{HashMap, HasUniqueKeys}
use embedding_processing_rs.Segment
use embedding_processing_rs.Store.Types.{Store}
use embedding_processing_rs.Store.Seal.{fsync, store_manifest}
use embedding_processing_rs.Store.Open.{snapshot_meta, store_snapshot}
use embedding_processing_rs.VectorIndex
use embedding_processing_rs.VectorIndex.{Usearch, VectorIndex, Files}
use embedding_processing_rs.Shard.{
  on_store, Shard, IndexResidency, store_state, check_published, publish, save_if_needed, snapshot,
  view_if_needed, demote,
}
use embedding_processing_rs.Shard.InStep.{KeepsVectors, IsInStep}
use embedding_processing_rs.Shard.Snapshot.{Ends, Finished, snapshot-IsInStep}
use embedding_processing_rs.Shard.Open.{
  snapshot_is_usable, check_state, read_saved, load_indexes, open_indexes,
}
use embedding_processing_rs.Shard.Trust.{beside_files, SameVectors, open_indexes-vectors}
use embedding_processing_rs.Shard.Demote.{Demoted, demote-Demoted}
use embedding_processing_rs.Pool.{ShardPool, touch, victim, enforce_budget}
use embedding_processing_rs.Pool.All.{Attempted, for_each_loaded-Attempted}
use embedding_processing_rs.Pool.Recency.{IsTicked, touch-victim}
use embedding_processing_rs.Pool.Victim.{IsVictim, victim-IsVictim}
use embedding_processing_rs.Pool.Budget.{Settled, enforce_budget-Settled}
use embedding_processing_rs.Examples.Codecs.{plain_crates}
use embedding_processing_rs.Examples.Runs.{big_disk, empty_store}

abbrev pub Keys : Type 0
Keys = List ℕ

abbrev key_vectors : Keys → HashMap (List ℕ)
key_vectors [] = []
key_vectors (k ∷ ks) = (k, k ∷ []) ∷ key_vectors ks

abbrev pub key_usearch : Usearch Keys
key_usearch = record {
  create = λ dimensions. [];
  size = λ i. length i;
  capacity = λ i. 1000;
  reserve = λ n i. (ok tt, i);
  add = λ k v i. (ok tt, i ++ (k ∷ []));
  add_f16 = λ k v i. (ok tt, i ++ (k ∷ []));
  remove = λ k i. (ok tt, filter_by (λ j. not (j == k)) i);
  load = λ bytes i. (ok tt, bytes);
  view = λ bytes i. (ok tt, bytes);
  save = λ i. ok i;
  search = λ q k i. ok [];
  filtered_search = λ q k f i. ok [];
  graph_allocated = λ i. 8 + length i;
  graph_reserved = λ i. 8;
  vectors_allocated = λ i. length i;
  vectors_reserved = λ i. 0;
}

abbrev pub all_files : Files
all_files = record {
  can_save = λ bytes. true;
  can_remove_index = true;
  can_store_state = true;
  can_sync_state = true;
  can_remove_state = true;
}

key_usearch-KeepsVectors : KeepsVectors key_usearch key_vectors key_vectors
key_usearch-KeepsVectors = record {
  saved = λ i bytes e. ground (arith, e);
  loaded = λ bytes i j e. ground (arith, e);
  viewed = λ bytes i j e. ground (arith, e);
}

abbrev pub any_text : List ℕ → Bool
any_text bytes = true

abbrev later_store : Store
later_store = record empty_store { manifest = record (empty_store.manifest) { next_seq = 4 } }

-- Two splits and a summary that were never saved.
abbrev pub new_shard : Shard Keys
new_shard = record {
  store = later_store;
  splits = record { index = 20 ∷ 21 ∷ []; dimensions = 2; viewed = false; file = none };
  summaries = record { index = 30 ∷ []; dimensions = 2; viewed = false; file = none };
  state = none;
}

new_shard-IsInStep : IsInStep key_vectors key_vectors new_shard
new_shard-IsInStep = record {
  positive = omega arith;
  known = λ st e. absurd (ground (arith, e));
  matches = λ st e q. absurd (ground (arith, e));
}

snapshot-IsInStep_example :
    Ends key_usearch key_vectors key_vectors all_files key_usearch-KeepsVectors new_shard
      (Finished key_usearch key_vectors key_vectors all_files key_usearch-KeepsVectors new_shard
        plain_crates big_disk any_text)
      (snapshot key_usearch plain_crates big_disk all_files any_text new_shard)
snapshot-IsInStep_example =
    snapshot-IsInStep key_usearch key_vectors key_vectors all_files key_usearch-KeepsVectors
      new_shard plain_crates big_disk any_text new_shard-IsInStep

abbrev demoted_shard : Shard Keys
demoted_shard = (demote key_usearch plain_crates big_disk all_files any_text new_shard).1

demoted-ok :
    demote key_usearch plain_crates big_disk all_files any_text new_shard ≡ (ok tt, demoted_shard)
unfolding demote snapshot save_if_needed publish check_published view_if_needed store_state
    VectorIndex.save_atomically VectorIndex.view fsync Segment.sync Segment.flush Segment.sync_data
    snapshot_meta store_snapshot store_manifest ◌>>=◌ ◌>>◌
demoted-ok = refl

demote-Demoted_example :
    Demoted key_usearch key_vectors key_vectors key_usearch-KeepsVectors all_files plain_crates
      big_disk any_text new_shard demoted_shard
demote-Demoted_example =
    demote-Demoted key_usearch key_vectors key_vectors key_usearch-KeepsVectors all_files
      plain_crates big_disk any_text new_shard demoted_shard demoted-ok new_shard-IsInStep
      (λ (st, here, last, other). absurd (ground (arith, here)))

-- The shard, saved, and stopped.
abbrev saved_shard : Shard Keys
saved_shard = record {
  store = record later_store { manifest = record (later_store.manifest) { snapshot_seq = 3 } };
  splits = record {
    index = 20 ∷ 21 ∷ [];
    dimensions = 2;
    viewed = false;
    file = some (20 ∷ 21 ∷ []);
  };
  summaries = record { index = 30 ∷ []; dimensions = 2; viewed = false; file = some (30 ∷ []) };
  state = some (record { version = 1; seq = 3; splits = 2; summaries = 1 });
}

saved_shard-IsInStep : IsInStep key_vectors key_vectors saved_shard
saved_shard-IsInStep = record {
  positive = omega arith;
  known = λ st e. ground (arith, e);
  matches = λ st e q. ((20 ∷ 21 ∷ [], refl, refl), (30 ∷ [], refl, refl));
}

abbrev read_shard : Shard Keys
read_shard =
    (open_indexes key_usearch plain_crates all_files IndexResidency.viewed (
      beside_files key_usearch key_vectors key_vectors key_usearch-KeepsVectors all_files
        saved_shard saved_shard.store)).1

read-ok :
    open_indexes key_usearch plain_crates all_files IndexResidency.viewed (
      beside_files key_usearch key_vectors key_vectors key_usearch-KeepsVectors all_files
        saved_shard saved_shard.store)
    ≡ (ok true, read_shard)
unfolding open_indexes load_indexes read_saved snapshot_is_usable check_state VectorIndex.view ◌>>◌
read-ok = refl

open_indexes-vectors_example :
    SameVectors key_usearch key_vectors key_vectors key_usearch-KeepsVectors all_files saved_shard
      saved_shard.store read_shard
open_indexes-vectors_example =
    open_indexes-vectors key_usearch key_vectors key_vectors key_usearch-KeepsVectors all_files
      saved_shard saved_shard.store plain_crates IndexResidency.viewed read_shard
      saved_shard-IsInStep refl read-ok

abbrev two_shards : ShardPool Keys
two_shards = record {
  shards =
      (1, record { shard = new_shard; holders = 0; busy = false; last_used = 7; bytes = 0 })
      ∷ (2, record { shard = saved_shard; holders = 0; busy = false; last_used = 5; bytes = 0 })
      ∷ [];
  tick = 7;
}

two_shards-HasUniqueKeys : HasUniqueKeys two_shards.shards
unfolding HashMap.get
two_shards-HasUniqueKeys = (refl, (refl, tt))

victim-IsVictim_example : IsVictim [] two_shards.shards (victim [] two_shards.shards)
victim-IsVictim_example = victim-IsVictim [] two_shards.shards two_shards-HasUniqueKeys

enforce_budget-Settled_example :
    Settled key_usearch plain_crates big_disk all_files any_text 3
      (enforce_budget key_usearch plain_crates big_disk all_files any_text 3 two_shards)
enforce_budget-Settled_example =
    enforce_budget-Settled key_usearch plain_crates big_disk all_files any_text 3 two_shards
      two_shards-HasUniqueKeys

for_each_loaded-Attempted_example : Attempted (λ _. true) (on_store (fsync big_disk)) two_shards
for_each_loaded-Attempted_example =
    for_each_loaded-Attempted (λ _. true) (on_store (fsync big_disk)) two_shards

two_shards-IsTicked : IsTicked two_shards
unfolding HashMap.get
two_shards-IsTicked k e h = ground (arith, h)

-- The second shard was used less recently, until it is asked for.
touch-victim_example : ◌≢◌ {A = ℕ} 2 1
unfolding touch HashMap.get HashMap.insert victim
touch-victim_example =
    touch-victim 2 1 1 two_shards
      (record { shard = new_shard; holders = 0; busy = false; last_used = 7; bytes = 0 })
      (record { shard = new_shard; holders = 0; busy = false; last_used = 7; bytes = 0 })
      two_shards-HasUniqueKeys two_shards-IsTicked refl refl refl (omega arith) refl

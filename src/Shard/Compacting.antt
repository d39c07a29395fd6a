-- ===== src/Shard/Compacting.antt =====
-- embedding-store/src/shard.rs: `compact_if_needed`, with the tests of embedding-store/src/store.rs.
-- The comparison of the ratio, in f64, is the parameter `exceeds`.
use embedding_processing_rs.Base.{ℕ, Bool, true, false, not, List, ◌&&◌, ltb, if◌then◌else◌, ok}
use embedding_processing_rs.Base.Action.{Action, pure, ◌>>◌}
use embedding_processing_rs.Crates.{Crates}
use embedding_processing_rs.Errors.{Error}
use embedding_processing_rs.Segment.{Disk}
use embedding_processing_rs.Manifest.{sealed_bytes}
use embedding_processing_rs.Store.Types.{Store}
use embedding_processing_rs.Compact.{compact}
use embedding_processing_rs.VectorIndex.{Usearch, Files}
use embedding_processing_rs.Shard.{Shard, on_store, promote, snapshot}

module _ (exceeds : ℕ → ℕ → Bool) where
  -- Of the bytes of the sealed segments, those of dead records are more than the ratio.
  unfoldable pub needs_compaction : Store → Bool
  needs_compaction s =
      let bytes = sealed_bytes s.manifest in ltb 0 bytes && exceeds s.manifest.tombstone_bytes bytes

  module _ (crates : Crates) (disk : Disk) (is_utf8 : List ℕ → Bool) where
    unfoldable pub compact_store_if_needed : Action Error Store Bool
    compact_store_if_needed s =
        if not (needs_compaction s)
        then (ok false, s)
        else (do compact disk crates is_utf8; pure true) s

    module _ {I : Type 0} (usearch : Usearch I) (files : Files) where
      -- What is done where there is something to compact. A mapped index is read in first, since the
      -- snapshot writes it.
      unfoldable pub rewrite_sealed : Action Error (Shard I) Bool
      rewrite_sealed = do
        promote usearch
        on_store compact_store_if_needed
        snapshot usearch crates disk files is_utf8
        pure true

      unfoldable pub compact_if_needed : Action Error (Shard I) Bool
      compact_if_needed s =
          if not (needs_compaction s.store) then (ok false, s) else rewrite_sealed s

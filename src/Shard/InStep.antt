-- ===== src/Shard/InStep.antt =====
-- embedding-store/src/shard.rs: what ties the files of a shard's indexes to its log.
use embedding_processing_rs.Base.{
  ℕ, ◌+◌, ◌-◌, ◌<◌, ◌≡◌, ◌≢◌, refl, Bool, true, false, some, List, Result, ok, err, if◌then◌else◌,
}
use embedding_processing_rs.HashMap.{HashMap}
use embedding_processing_rs.Errors.{Error, io}
use embedding_processing_rs.VectorIndex
use embedding_processing_rs.VectorIndex.{Usearch, VectorIndex, Files}
use embedding_processing_rs.Shard.{Shard, IndexState, load_state}

-- What usearch documents of its files: one that was saved holds the vectors of the index, and an index
-- that was read back or mapped holds those of the file.
pub record KeepsVectors {I : Type 0} (usearch : Usearch I) (vectors : I → HashMap (List ℕ))
    (in_file : List ℕ → HashMap (List ℕ)) : Type 0 where
  pub saved : (i : I) (bytes : List ℕ) → usearch.save i ≡ ok bytes → in_file bytes ≡ vectors i
  pub loaded :
      (bytes : List ℕ) (i j : I) → usearch.load bytes i ≡ (ok tt, j) → vectors j ≡ in_file bytes
  pub viewed :
      (bytes : List ℕ) (i j : I) → usearch.view bytes i ≡ (ok tt, j) → vectors j ≡ in_file bytes

-- The store has taken a snapshot of its own since the state file was written: that snapshot covers the
-- last sequence number, and the state file names another one.
abbrev pub IsOvertaken : {I : Type 0} → Shard I → Type 0
IsOvertaken s =
    (st : IndexState) × (load_state s.state ≡ some st)
    × (s.store.manifest.snapshot_seq ≡ s.store.manifest.next_seq - 1)
    × (st.seq ≢ s.store.manifest.snapshot_seq)

module _ {I : Type 0} (vectors : I → HashMap (List ℕ)) (in_file : List ℕ → HashMap (List ℕ)) where
  -- The file of an index is there and holds its vectors.
  abbrev pub Matches : VectorIndex I → Type 0
  Matches x = (bytes : List ℕ) × (x.file ≡ some bytes) × (in_file bytes ≡ vectors x.index)

  -- A state file never names a sequence number that is still to come, and where it names the last one,
  -- both files hold the vectors of their indexes.
  pub record IsInStep (s : Shard I) : Type 0 where
    pub positive : 0 < s.store.manifest.next_seq
    pub known : (st : IndexState) → s.state ≡ some st → st.seq < s.store.manifest.next_seq
    pub matches :
        (st : IndexState)
        → s.state ≡ some st
        → st.seq + 1 ≡ s.store.manifest.next_seq
        → Matches s.splits × Matches s.summaries

  -- A file that replaces the old one holds the vectors of the index.
  abbrev pub Saved : VectorIndex I → Result Error (Unit {0}) × VectorIndex I → Type 0
  Saved x (ok u, y) = (y.index ≡ x.index) × Matches y
  Saved x (err e, y) = y ≡ x

  module _ (usearch : Usearch I) (files : Files)
      (keeps : KeepsVectors usearch vectors in_file) where
    written :
        (b : Bool) (x : VectorIndex I) (bytes : List ℕ)
        → in_file bytes ≡ vectors x.index
        → Saved x (if b then (ok tt, record x { file = some bytes }) else (err io, x))
    written true x bytes h = (refl, (bytes, refl, h))
    written false x bytes h = refl

    write_file-Saved :
        (x : VectorIndex I) (r : Result Error (List ℕ))
        → ((bytes : List ℕ) → r ≡ ok bytes → in_file bytes ≡ vectors x.index)
        → Saved x (VectorIndex.write_file usearch files r x)
    write_file-Saved x (ok bytes) h = written (files.can_save bytes) x bytes (h bytes refl)
    write_file-Saved x (err e) h = refl

    pub save_atomically-Saved :
        (x : VectorIndex I) → Saved x (VectorIndex.save_atomically usearch files x)
    unfolding VectorIndex.save_atomically
    save_atomically-Saved x = write_file-Saved x (usearch.save x.index) (keeps.saved x.index)

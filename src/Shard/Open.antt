-- ===== src/Shard/Open.antt =====
-- embedding-store/src/shard.rs: opening a shard, from the saved indexes or from the log.
use embedding_processing_rs.Base.{
  ℕ, ◌+◌, ◌-◌, Bool, true, false, not, ◌&&◌, ◌||◌, Option, none, some, [], ◌∷◌, ltb, ◌==◌,
  if◌then◌else◌, length, Result, ok, err, map_err,
}
use embedding_processing_rs.Base.Action.{Action, pure, lift, gets, ◌>>=◌, ◌>>◌}
use embedding_processing_rs.HashMap.{HashMap}
use embedding_processing_rs.Crates.{Crates}
use embedding_processing_rs.Errors.{Error, unreadable, record_without_vector}
use embedding_processing_rs.Manifest.{Manifest}
use embedding_processing_rs.Maps.{Loc, SplitEntry, SummaryEntry}
use embedding_processing_rs.Record.{VectorDtype, no_vector, decode}
use embedding_processing_rs.Store.Types.{Store}
use embedding_processing_rs.Store.Read.{read_record}
use embedding_processing_rs.VectorIndex
use embedding_processing_rs.VectorIndex.{Usearch, VectorIndex, Files, exists}
use embedding_processing_rs.Shard.{
  Shard, IndexState, IndexResidency, load_state, on_splits, on_summaries, remove_state,
}

-- Why the saved indexes are not used.
pub data Unusable : Type 0 where
  no_saved_indexes no_state : Unusable
  -- where the indexes were saved, where the snapshot is
  saved_elsewhere : ℕ → ℕ → Unusable
  -- records behind the snapshot, where it is
  replayed_after : ℕ → ℕ → Unusable

unfoldable pub check_state : IndexState → Manifest → Result Unusable (Unit {0})
check_state state m =
    if not (state.seq == m.snapshot_seq)
    then err (saved_elsewhere state.seq m.snapshot_seq)
    else if not (m.snapshot_seq + 1 == m.next_seq)
    then err (replayed_after (m.next_seq - m.snapshot_seq - 1) m.snapshot_seq)
    else ok tt

abbrev pub check_found : Option IndexState → Manifest → Result Unusable (Unit {0})
check_found none m = err no_state
check_found (some state) m = check_state state m

-- Are the index files on disk the ones this log's snapshot describes?
unfoldable pub snapshot_is_usable :
    Bool → Bool → Option IndexState → Manifest → Result Unusable (Unit {0})
snapshot_is_usable splits_exist summaries_exist state m =
    if not splits_exist || not summaries_exist
    then err no_saved_indexes
    else check_found (load_state state) m

module _ {I : Type 0} (usearch : Usearch I) where
  abbrev pub read_back : IndexResidency → Action Error (VectorIndex I) (Unit {0})
  read_back IndexResidency.loaded = VectorIndex.load usearch
  read_back IndexResidency.viewed = VectorIndex.view usearch

  abbrev pub both_read : Result Error (Unit {0}) → Result Error (Unit {0}) → Bool
  both_read (ok _) (ok _) = true
  both_read _ _ = false

  -- Both indexes are read, even if the first one fails; they are used if they hold a vector for each
  -- live record.
  unfoldable pub read_saved : IndexResidency → Shard I → Bool × Shard I
  read_saved residency s =
      let (r₁, splits) = read_back residency s.splits in
      let (r₂, summaries) = read_back residency s.summaries in
      (
        both_read r₁ r₂
            && not (
                ltb (usearch.size splits.index) (length s.store.maps.splits)
                || ltb (usearch.size summaries.index) (length s.store.maps.summaries)),
        record s { splits = splits; summaries = summaries },
      )

  abbrev pub load_if_usable : Result Unusable (Unit {0}) → IndexResidency → Shard I → Bool × Shard I
  load_if_usable (ok u) residency s = read_saved residency s
  load_if_usable (err e) residency s = (false, s)

  unfoldable pub load_indexes : IndexResidency → Shard I → Bool × Shard I
  load_indexes residency s =
      load_if_usable
        (snapshot_is_usable (exists s.splits) (exists s.summaries) s.state s.store.manifest)
        residency s

  abbrev with_vector_check : VectorDtype → ℕ → Result Error (Unit {0})
  with_vector_check no_vector id = err (record_without_vector id)
  with_vector_check _ id = ok tt

  module _ (crates : Crates) where
    -- What `rebuild` does with one live vector.
    unfoldable pub index_record : Store → ℕ → Loc → Action Error (VectorIndex I) (Unit {0})
    index_record store id loc = do
      bytes ← lift (read_record store loc)
      view ← lift (map_err (unreadable id) (decode crates.crc32 bytes))
      lift (with_vector_check view.dtype id)
      VectorIndex.add_raw usearch crates.from_half id view.vector view.dtype

    -- `for_each_live_vector` at each kind.
    abbrev pub index_splits : Store → HashMap SplitEntry → Action Error (VectorIndex I) (Unit {0})
    index_splits store [] x = (ok tt, x)
    index_splits store ((id, e) ∷ m) x = (index_record store id e.loc >> index_splits store m) x

    abbrev pub index_summaries :
        Store → HashMap SummaryEntry → Action Error (VectorIndex I) (Unit {0})
    index_summaries store [] x = (ok tt, x)
    index_summaries store ((id, e) ∷ m) x =
        (index_record store id e.loc >> index_summaries store m) x

    -- Fill both indexes from the live records.
    unfoldable pub rebuild : Action Error (Shard I) (Unit {0})
    rebuild = do
      store ← gets (λ s. s.store)
      on_splits (VectorIndex.reserve_for usearch (length store.maps.splits))
      on_summaries (VectorIndex.reserve_for usearch (length store.maps.summaries))
      on_splits (index_splits store store.maps.splits)
      on_summaries (index_summaries store store.maps.summaries)

    -- The files go before the indexes are filled.
    unfoldable pub start_over : Files → Action Error (Shard I) (Unit {0})
    start_over files = do
      on_splits (VectorIndex.remove_file usearch files)
      on_summaries (VectorIndex.remove_file usearch files)
      remove_state files
      rebuild

    abbrev pub finish : Files → Bool × Shard I → Result Error Bool × Shard I
    finish files (true, s) = (ok true, s)
    finish files (false, s) = (do start_over files; pure false) s

    -- `open_with` once the store is open, beside the files of the indexes: whether the indexes were
    -- read back, and the shard.
    unfoldable pub open_indexes : Files → IndexResidency → Action Error (Shard I) Bool
    open_indexes files residency s = finish files (load_indexes residency s)

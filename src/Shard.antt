-- ===== src/Shard.antt =====
-- embedding-store/src/shard.rs: a store with the indexes of its splits and of its summaries.
-- The shard is the state behind its lock, with the state file of the indexes beside it. Where a method
-- takes the lock twice, nothing else comes in between.
pub mod InStep
pub mod Snapshot
pub mod Open
pub mod Trust
pub mod Mapped
pub mod Demote
pub mod Loading
pub mod Answers
pub mod Search
pub mod Compacting
pub mod Overtaken
use embedding_processing_rs.Base.{
  ℕ, ◌+◌, ◌-◌, Bool, true, false, not, ◌&&◌, ◌||◌, Option, none, some, List, [], ◌∷◌, ◌++◌, ltb,
  ◌==◌, if◌then◌else◌, length, contains, is_some, Result, ok, err, ok_or,
}
use embedding_processing_rs.Base.Action.{
  Action, pure, raise, lift, gets, modify, within, ◌>>=◌, ◌>>◌,
}
use embedding_processing_rs.HashMap
use embedding_processing_rs.Crates.{Crates}
use embedding_processing_rs.Errors.{Error, io, no_embedding, a_split, a_summary, log_moved}
use embedding_processing_rs.Maps.{RemovedDoc}
use embedding_processing_rs.Segment.{Disk}
use embedding_processing_rs.Dto.{EmbeddingDto, SummaryDto, SplitDto, DocumentDto}
use embedding_processing_rs.Store.Types.{Store, Replaced}
use embedding_processing_rs.Store.Seal.{fsync, insert, delete}
use embedding_processing_rs.Store.Open.{snapshot_meta}
use embedding_processing_rs.Store.Checked.{all_summaries}
use embedding_processing_rs.VectorIndex
use embedding_processing_rs.VectorIndex.{Usearch, VectorIndex, Files}

pub record IndexState : Type 0 where
  pub version : ℕ
  pub seq : ℕ
  pub splits : ℕ
  pub summaries : ℕ

abbrev pub index_state_version : ℕ
index_state_version = 1

pub record Shard (I : Type 0) : Type 0 where
  pub store : Store
  pub splits : VectorIndex I
  pub summaries : VectorIndex I
  pub state : Option IndexState

pub data IndexResidency : Type 0 where
  loaded viewed : IndexResidency

-- `IndexState::load` of the file's content: a state of another version is none.
abbrev pub load_state : Option IndexState → Option IndexState
load_state none = none
load_state (some state) = if state.version == index_state_version then some state else none

module _ {I : Type 0} where
  abbrev pub on_store : {A : Type 0} → Action Error Store A → Action Error (Shard I) A
  on_store m = within (λ s. s.store) (λ t s. record s { store = t }) m

  abbrev pub on_splits : {A : Type 0} → Action Error (VectorIndex I) A → Action Error (Shard I) A
  on_splits m = within (λ s. s.splits) (λ x s. record s { splits = x }) m

  abbrev pub on_summaries : {A : Type 0} → Action Error (VectorIndex I) A → Action Error (Shard I) A
  on_summaries m = within (λ s. s.summaries) (λ x s. record s { summaries = x }) m

  unfoldable pub residency : Shard I → IndexResidency
  residency s =
      if s.splits.viewed || s.summaries.viewed then IndexResidency.viewed else IndexResidency.loaded

  module _ (files : Files) where
    -- `IndexState::store` and `IndexState::remove`
    unfoldable pub store_state : IndexState → Action Error (Shard I) (Unit {0})
    store_state state s =
        if files.can_store_state
        then (if files.can_sync_state then ok tt else err io, record s { state = some state })
        else (err io, s)

    unfoldable pub remove_state : Action Error (Shard I) (Unit {0})
    remove_state s = elim s.state [
      | some state ↦
          if files.can_remove_state then (ok tt, record s { state = none }) else (err io, s)
      | none ↦ (ok tt, s)
    ]

  module _ (usearch : Usearch I) where
    -- One index of `promote`.
    unfoldable pub promote_index : Action Error (VectorIndex I) (Unit {0})
    promote_index x = if x.viewed then VectorIndex.load usearch x else (ok tt, x)

    unfoldable pub promote : Action Error (Shard I) (Unit {0})
    promote = do on_splits promote_index; on_summaries promote_index

    abbrev pub remove_each : List ℕ → Action Error (VectorIndex I) (Unit {0})
    remove_each [] x = (ok tt, x)
    remove_each (id ∷ ids) x = (VectorIndex.remove usearch id >> remove_each ids) x

    abbrev upsert_split : SplitDto → Action Error (VectorIndex I) (Unit {0})
    upsert_split split = do
      embedding ← lift (ok_or split.embedding (no_embedding a_split split.split_id))
      VectorIndex.upsert usearch split.split_id embedding.embedding

    abbrev pub upsert_splits : List SplitDto → Action Error (VectorIndex I) (Unit {0})
    upsert_splits [] x = (ok tt, x)
    upsert_splits (split ∷ splits) x = (upsert_split split >> upsert_splits splits) x

    abbrev upsert_summary : SummaryDto → Action Error (VectorIndex I) (Unit {0})
    upsert_summary summary = do
      embedding ← lift (ok_or summary.embedding (no_embedding a_summary summary.summary_id))
      VectorIndex.upsert usearch summary.summary_id embedding.embedding

    -- A summary that was seen is not indexed again.
    abbrev upsert_unseen : List ℕ → SummaryDto → Action Error (VectorIndex I) (Unit {0})
    upsert_unseen seen summary x =
        if contains seen summary.summary_id then (ok tt, x) else upsert_summary summary x

    abbrev pub upsert_summaries : List ℕ → List SummaryDto → Action Error (VectorIndex I) (Unit {0})
    upsert_summaries seen [] x = (ok tt, x)
    upsert_summaries seen (summary ∷ summaries) x =
        (upsert_unseen seen summary >> upsert_summaries (summary.summary_id ∷ seen) summaries) x

    module _ (crates : Crates) (disk : Disk) where
      -- The indexes, once the store has taken the document.
      unfoldable pub index_document : DocumentDto → Replaced → Action Error (Shard I) (Unit {0})
      index_document doc replaced = do
        on_splits (remove_each replaced.split_ids)
        on_summaries (remove_each replaced.summary_ids)
        on_splits (VectorIndex.reserve_for usearch (length doc.splits))
        on_splits (upsert_splits doc.splits)
        on_summaries (upsert_summaries [] (all_summaries doc))

      unfoldable pub insert_document : DocumentDto → Action Error (Shard I) Replaced
      insert_document doc = do
        promote
        replaced ← on_store (insert crates disk doc)
        index_document doc replaced
        pure replaced

      abbrev unindex : Option RemovedDoc → Action Error (Shard I) Bool
      unindex none = pure false
      unindex (some removed) = do
        on_splits (remove_each removed.split_ids)
        on_summaries (remove_each removed.summary_ids)
        pure true

      unfoldable pub delete_there : ℕ → Action Error (Shard I) Bool
      delete_there doc_id = do
        promote
        removed ← on_store (delete crates disk doc_id)
        unindex removed

      unfoldable pub delete_document : ℕ → Action Error (Shard I) Bool
      delete_document doc_id s =
          if not (HashMap.contains_key doc_id s.store.maps.docs)
          then (ok false, s)
          else delete_there doc_id s

      module _ (files : Files) (is_utf8 : List ℕ → Bool) where
        -- The check behind `snapshot_meta`.
        unfoldable pub check_published : ℕ → ℕ → Action Error (Shard I) ℕ
        check_published seq published =
            if published == seq
            then pure seq
            else (do remove_state files; raise (log_moved seq published))

        -- `snapshot`, where there is something to save.
        unfoldable pub publish : ℕ → Action Error (Shard I) ℕ
        publish seq = do
          on_splits (VectorIndex.save_atomically usearch files)
          on_summaries (VectorIndex.save_atomically usearch files)
          state ← gets (λ s. record {
            version = index_state_version;
            seq = seq;
            splits = usearch.size s.splits.index;
            summaries = usearch.size s.summaries.index;
          })
          store_state files state
          published ← on_store (snapshot_meta disk crates is_utf8)
          check_published seq published

        unfoldable pub save_if_needed : Action Error (Shard I) ℕ
        save_if_needed s =
            let seq = s.store.manifest.next_seq - 1 in
            if (seq == s.store.manifest.snapshot_seq) && is_some (load_state s.state)
            then (ok seq, s)
            else publish seq s

        unfoldable pub snapshot : Action Error (Shard I) ℕ
        snapshot = do on_store (fsync disk); save_if_needed

        abbrev pub view_both : Action Error (Shard I) (Unit {0})
        view_both = do on_splits (VectorIndex.view usearch); on_summaries (VectorIndex.view usearch)

        unfoldable pub view_if_needed : Action Error (Shard I) (Unit {0})
        view_if_needed s = if s.splits.viewed && s.summaries.viewed then (ok tt, s) else view_both s

        unfoldable pub demote : Action Error (Shard I) (Unit {0})
        demote = do snapshot; view_if_needed

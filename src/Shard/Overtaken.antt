-- ===== src/Shard/Overtaken.antt =====
-- embedding-store/src/shard.rs and compact.rs: a compaction takes a snapshot of the store, and the one of
-- the shard that follows it finds nothing to save.
use embedding_processing_rs.Base.{
  ℕ, ◌-◌, ◌≡◌, ◌≢◌, refl, ap, sym, ◌∙◌, subst, Bool, true, false, Bool-cases, inl, inr, some, List,
  arith, is_empty, ◌==◌, Option-cases, Result, ok, err, Result-cases,
}
use embedding_processing_rs.Base.Action.{pure, lift, gets, modify, ◌>>=◌, ◌>>◌, >>-ok, >>=-ok}
use embedding_processing_rs.HashMap
use embedding_processing_rs.Crates.{Crates}
use embedding_processing_rs.Errors.{Error}
use embedding_processing_rs.Segment.{Disk}
use embedding_processing_rs.Manifest.{segment_ids}
use embedding_processing_rs.Store.Types.{Store}
use embedding_processing_rs.Store.Seal.{fsync, store_manifest, seal_old}
use embedding_processing_rs.Store.Open.{snapshot_meta, store_snapshot}
use embedding_processing_rs.Compact.{
  Copying, finish_copy, drop_sealed, swap, seal_copy, copied, copy_into, compact_into, or_remove,
  compact, claimed, remove_meta_snapshot, remove_file, open_writer,
}
use embedding_processing_rs.VectorIndex
use embedding_processing_rs.VectorIndex.{Usearch, VectorIndex, Files}
use embedding_processing_rs.Shard.{
  Shard, IndexState, load_state, on_store, on_splits, on_summaries, promote, promote_index,
  snapshot, save_if_needed,
}
use embedding_processing_rs.Shard.InStep.{IsOvertaken}
use embedding_processing_rs.Shard.Compacting.{
  needs_compaction, compact_store_if_needed, rewrite_sealed, compact_if_needed,
}

-- The snapshot of the store covers its last sequence number.
abbrev IsCovered : Store → Type 0
IsCovered s = s.manifest.snapshot_seq ≡ s.manifest.next_seq - 1

module _ (crates : Crates) (disk : Disk) (is_utf8 : List ℕ → Bool) where
  snapshot_meta-IsCovered :
      (s t : Store) (n : ℕ) → snapshot_meta disk crates is_utf8 s ≡ (ok n, t) → IsCovered t
  unfolding snapshot_meta store_snapshot store_manifest ◌>>=◌ ◌>>◌
  snapshot_meta-IsCovered s t n h = ground arith

  snapshot_meta-IsCovered-end :
      (s t : Store) → (snapshot_meta disk crates is_utf8 >> pure tt) s ≡ (ok tt, t) → IsCovered t
  snapshot_meta-IsCovered-end s t h =
      let (n, u, ran, last) = >>-ok (snapshot_meta disk crates is_utf8) (pure tt) s h in
      subst IsCovered (λ i. (last i).1) (snapshot_meta-IsCovered s u n ran)

  drop_sealed-IsCovered :
      (s t : Store) → drop_sealed disk crates is_utf8 s ≡ (ok tt, t) → IsCovered t
  unfolding drop_sealed segment_ids
  drop_sealed-IsCovered s t h =
      let (ids, s₁, e₁, h₁) = >>=-ok (gets _) _ s h in
      let (u₂, s₂, e₂, h₂) = >>-ok (remove_meta_snapshot disk) _ s₁ h₁ in
      let (u₃, s₃, e₃, h₃) = >>-ok (modify _) _ s₂ h₂ in
      let (u₄, s₄, e₄, h₄) = >>-ok (store_manifest disk) _ s₃ h₃ in
      let (u₅, s₅, e₅, h₅) = >>-ok (modify _) _ s₄ h₄ in
      let (u₆, s₆, e₆, h₆) = >>-ok (modify _) _ s₅ h₅ in snapshot_meta-IsCovered-end s₆ t h₆

  swap-IsCovered :
      (new_id : ℕ) (c : Copying) (bytes : List ℕ) (s t : Store)
      → swap disk crates is_utf8 new_id c bytes s ≡ (ok tt, t)
      → IsCovered t
  unfolding swap segment_ids
  swap-IsCovered new_id c bytes s t h =
      let (u₁, s₁, e₁, h₁) = >>-ok (remove_meta_snapshot disk) _ s h in
      let (ids, s₂, e₂, h₂) = >>=-ok (gets _) _ s₁ h₁ in
      let (u₃, s₃, e₃, h₃) = >>-ok (modify _) _ s₂ h₂ in
      let (u₄, s₄, e₄, h₄) = >>-ok (store_manifest disk) _ s₃ h₃ in
      let (u₅, s₅, e₅, h₅) = >>-ok (modify _) _ s₄ h₄ in
      let (u₆, s₆, e₆, h₆) = >>-ok (modify _) _ s₅ h₅ in snapshot_meta-IsCovered-end s₆ t h₆

  finish_copy-IsCovered :
      (new_id : ℕ) (c : Copying) (s t : Store)
      → finish_copy disk crates is_utf8 new_id c s ≡ (ok tt, t)
      → IsCovered t
  unfolding finish_copy seal_copy
  finish_copy-IsCovered new_id c s t h = elim (Bool-cases (c.writer.len == 0)) [
    | inl e ↦ drop_sealed-IsCovered (remove_file disk new_id s) t (ground (arith, e, h))
    | inr e ↦
        let sealed : (seal_old disk c.writer >>= swap disk crates is_utf8 new_id c) s ≡ (ok tt, t) =
          ground (arith, e, h) in
        let (bytes, s₁, e₁, h₁) =
          >>=-ok (seal_old disk c.writer) (swap disk crates is_utf8 new_id c) s sealed in
        swap-IsCovered new_id c bytes s₁ t h₁
  ]

  copied-IsCovered :
      (new_id : ℕ) (r : Result Error (Unit {0}) × Copying) (s t : Store)
      → copied disk crates is_utf8 new_id r s ≡ (ok tt, t)
      → IsCovered t
  copied-IsCovered new_id (ok u, c) s t h = finish_copy-IsCovered new_id c s t h
  copied-IsCovered new_id (err e, c) s t h = absurd (ground (arith, h))

  compact_into-IsCovered :
      (new_id : ℕ) (ids : List ℕ) (s t : Store)
      → compact_into disk crates is_utf8 new_id ids s ≡ (ok tt, t)
      → IsCovered t
  unfolding compact_into copy_into
  compact_into-IsCovered new_id ids s t h =
      let (writer, s₁, e₁, h₁) = >>=-ok (open_writer disk new_id) _ s h in
      let (u, s₂, e₂, h₂) = >>-ok (lift _) _ s₁ h₁ in copied-IsCovered new_id _ s₂ t h₂

  or_remove-IsCovered :
      (new_id : ℕ) (r : Result Error (Unit {0}) × Store) (t : Store)
      → ((u : Store) → r ≡ (ok tt, u) → IsCovered u)
      → or_remove disk crates is_utf8 new_id r ≡ (ok tt, t)
      → IsCovered t
  or_remove-IsCovered new_id (ok u, s) t k h = subst IsCovered (λ i. (h i).1) (k s refl)
  or_remove-IsCovered new_id (err e, s) t k h = absurd (ground (arith, h))

  compact-IsCovered :
      (s t : Store)
      → compact disk crates is_utf8 s ≡ (ok tt, t)
      → is_empty s.sealed ≡ false
      → IsCovered t
  unfolding compact
  compact-IsCovered s t h some_sealed =
      or_remove-IsCovered s.manifest.next_segment_id _ t
        (λ u.
          compact_into-IsCovered s.manifest.next_segment_id (HashMap.keys s.sealed)
            (claimed disk crates is_utf8 s) u)
        (ground (arith, some_sealed, h))

-- The files of the indexes and the state file are the same.
abbrev pub SameFiles : {I : Type 0} → Shard I → Shard I → Type 0
SameFiles s t =
    (t.splits.file ≡ s.splits.file) × (t.summaries.file ≡ s.summaries.file) × (t.state ≡ s.state)

module _ {I : Type 0} (usearch : Usearch I) (files : Files) (crates : Crates) (disk : Disk)
    (is_utf8 : List ℕ → Bool) (exceeds : ℕ → ℕ → Bool) where
  promote_index-file : (x : VectorIndex I) → (promote_index usearch x).1.file ≡ x.file
  unfolding promote_index VectorIndex.load ◌>>◌
  promote_index-file x = elim (Option-cases x.file) [
    | inl e ↦ ground (arith, e)
    | inr (bytes, e) ↦ elim (Result-cases (usearch.load bytes x.index).0) [
      | inl (u, q) ↦ ground (arith, e, q)
      | inr (z, q) ↦ ground (arith, e, q)
    ]
  ]

  promote-ok :
      (s t : Shard I) → promote usearch s ≡ (ok tt, t) → (t.store ≡ s.store) × SameFiles s t
  unfolding promote
  promote-ok s t h =
      let p = promote_index usearch in
      let (u, s₁, e, e') = >>-ok (on_splits p) (on_summaries p) s h in
      let at : record s { splits = (p s.splits).1 } ≡ s₁ = λ i. (e i).1 in
      let end : record s₁ { summaries = (p s₁.summaries).1 } ≡ t = λ i. (e' i).1 in
      (
        sym (ap (λ (x : Shard I). x.store) end) ∙ sym (ap (λ (x : Shard I). x.store) at),
        (
          sym (ap (λ (x : Shard I). x.splits.file) end)
              ∙ sym (ap (λ (x : Shard I). x.splits.file) at)
              ∙ promote_index-file s.splits,
          sym (ap (λ (x : Shard I). x.summaries.file) end)
              ∙ promote_index-file s₁.summaries
              ∙ sym (ap (λ (x : Shard I). x.summaries.file) at),
          sym (ap (λ (x : Shard I). x.state) end) ∙ sym (ap (λ (x : Shard I). x.state) at),
        ),
      )

  nothing_saved :
      (s t : Shard I) (n : ℕ) (st : IndexState)
      → save_if_needed usearch crates disk files is_utf8 s ≡ (ok n, t)
      → IsCovered s.store
      → load_state s.state ≡ some st
      → s ≡ t
  unfolding save_if_needed
  nothing_saved s t n st h covered here = ground (arith, h, covered, here)

  compact_store-IsCovered :
      (s t : Store) (b : Bool)
      → compact_store_if_needed exceeds crates disk is_utf8 s ≡ (ok b, t)
      → needs_compaction exceeds s ≡ true
      → is_empty s.sealed ≡ false
      → IsCovered t
  unfolding compact_store_if_needed
  compact_store-IsCovered s t b h needs some_sealed =
      let ran : (compact disk crates is_utf8 >> pure true) s ≡ (ok b, t) =
        ground (arith, h, needs) in
      let (u, s₁, e, e') = >>-ok (compact disk crates is_utf8) (pure true) s ran in
      subst IsCovered (λ i. (e' i).1) (compact-IsCovered crates disk is_utf8 s s₁ e some_sealed)

  snapshot-ok :
      (s t : Shard I) (n : ℕ) (st : IndexState)
      → snapshot usearch crates disk files is_utf8 s ≡ (ok n, t)
      → IsCovered s.store
      → load_state s.state ≡ some st
      → IsCovered t.store × SameFiles s t
  unfolding snapshot save_if_needed fsync
  snapshot-ok s t n st h covered here =
      let (u, s₁, e, e') =
        >>-ok (on_store (fsync disk)) (save_if_needed usearch crates disk files is_utf8) s h in
      let synced : Shard I = record s { store = (fsync disk s.store).1 } in
      let at : synced ≡ s₁ = λ i. (e i).1 in
      let ran : save_if_needed usearch crates disk files is_utf8 synced ≡ (ok n, t) =
        ap (save_if_needed usearch crates disk files is_utf8) at ∙ e' in
      let end : synced ≡ t = nothing_saved synced t n st ran covered here in
      (
        subst (λ (x : Shard I). IsCovered x.store) end covered,
        subst (λ (x : Shard I). SameFiles s x) end (refl, refl, refl),
      )

  compacted :
      (s t : Shard I) (st : IndexState)
      → rewrite_sealed exceeds crates disk is_utf8 usearch files s ≡ (ok true, t)
      → needs_compaction exceeds s.store ≡ true
      → is_empty s.store.sealed ≡ false
      → load_state s.state ≡ some st
      → st.seq ≢ t.store.manifest.next_seq - 1
      → IsOvertaken t × SameFiles s t
  unfolding rewrite_sealed
  compacted s t st h needs some_sealed here older =
      let m = compact_store_if_needed exceeds crates disk is_utf8 in
      let (u₁, s₁, e₁, h₁) = >>-ok (promote usearch) _ s h in
      let (b, s₂, e₂, h₂) = >>-ok (on_store m) _ s₁ h₁ in
      let (n, s₃, e₃, h₃) = >>-ok (snapshot usearch crates disk files is_utf8) (pure true) s₂ h₂ in
      let (store, (f₁, g₁, c₁)) = promote-ok s s₁ e₁ in
      let x : Store = (m s₁.store).1 in
      let at : record s₁ { store = x } ≡ s₂ = λ i. (e₂ i).1 in
      let covered : IsCovered x =
        compact_store-IsCovered s₁.store x b (λ i. ((e₂ i).0, x))
          (ap (needs_compaction exceeds) store ∙ needs)
          (ap (λ (y : Store). is_empty y.sealed) store ∙ some_sealed) in
      let state : s₂.state ≡ s.state = sym (ap (λ (y : Shard I). y.state) at) ∙ c₁ in
      let (covered', (f₃, g₃, c₃)) =
        snapshot-ok s₂ s₃ n st e₃ (subst (λ (y : Shard I). IsCovered y.store) at covered)
          (ap load_state state ∙ here) in
      let end : s₃ ≡ t = λ i. (h₃ i).1 in
      let last : IsCovered t.store = subst (λ (y : Shard I). IsCovered y.store) end covered' in
      let kept : t.state ≡ s.state = sym (ap (λ (y : Shard I). y.state) end) ∙ c₃ ∙ state in
      (
        (st, ap load_state kept ∙ here, last, λ q. older (q ∙ last)),
        (
          sym (ap (λ (y : Shard I). y.splits.file) end)
              ∙ f₃
              ∙ sym (ap (λ (y : Shard I). y.splits.file) at)
              ∙ f₁,
          sym (ap (λ (y : Shard I). y.summaries.file) end)
              ∙ g₃
              ∙ sym (ap (λ (y : Shard I). y.summaries.file) at)
              ∙ g₁,
          kept,
        ),
      )

  -- A shard has a readable state file that names a sequence number other than the last, and
  -- compact_if_needed compacts a store with sealed segments. When it returns, the store's own snapshot has
  -- overtaken the state file, and neither that file nor those of the indexes were written, although
  -- compact_if_needed ends in a snapshot of the shard.
  pub compact_if_needed-Overtaken :
      (s t : Shard I) (st : IndexState)
      → compact_if_needed exceeds crates disk is_utf8 usearch files s ≡ (ok true, t)
      → is_empty s.store.sealed ≡ false
      → load_state s.state ≡ some st
      → st.seq ≢ t.store.manifest.next_seq - 1
      → IsOvertaken t × SameFiles s t
  unfolding compact_if_needed
  compact_if_needed-Overtaken s t st h some_sealed here older =
      elim (Bool-cases (needs_compaction exceeds s.store)) [
        | inl needs ↦ compacted s t st (ground (arith, needs, h)) needs some_sealed here older
        | inr needs ↦ absurd (ground (arith, h, needs))
      ]

-- ===== src/Compact/Swapped.antt =====
-- embedding-store/src/compact.rs: the store behind a compaction that returned.
use embedding_processing_rs.Base.{
  ℕ, ◌-◌, ◌≡◌, refl, ap, sym, ◌∙◌, Bool, List, [], ◌∷◌, ◌++◌, arith, append-nil, subst,
  Option-cases, inl, inr, Result, ok, err,
}
use embedding_processing_rs.Base.Action.{gets, modify, pure, ◌>>=◌, ◌>>◌, >>-ok}
use embedding_processing_rs.Crates.{Crates}
use embedding_processing_rs.Manifest.{segment_ids}
use embedding_processing_rs.Errors.{Error}
use embedding_processing_rs.Segment
use embedding_processing_rs.Segment.{Disk, ActiveSegment}
use embedding_processing_rs.Segment.Log.{log, IsSegment, flush-ok}
use embedding_processing_rs.Store.Types.{Store}
use embedding_processing_rs.Store.Write.{on_active}
use embedding_processing_rs.Store.Seal.{store_manifest, seal_result, seal_old}
use embedding_processing_rs.Store.Open.{snapshot_meta, store_snapshot}
use embedding_processing_rs.Compact.{
  Copying, relocate_all, remove_file, remove_files, remove_meta_snapshot, swap, drop_sealed,
  name_segments, info_of_copy,
}

module _ (disk : Disk) where
  -- Removing files changes nothing else.
  pub remove_files-keeps :
      (ids : List ℕ) (s : Store)
      → ((remove_files disk ids s).maps ≡ s.maps)
        × ((remove_files disk ids s).sealed ≡ s.sealed)
        × ((remove_files disk ids s).active ≡ s.active)
  unfolding remove_file
  remove_files-keeps [] s = (refl, refl, refl)
  remove_files-keeps (id ∷ ids) s = ground (arith, remove_files-keeps ids (remove_file disk id s))

  -- A sync that returned has put the buffer in the file.
  pub sync-ok :
      (a b : ActiveSegment)
      → Segment.sync disk a ≡ (ok tt, b)
      → IsSegment a
      → (b.id ≡ a.id) × (b.file ≡ log a)
  unfolding Segment.sync Segment.sync_data ◌>>◌
  sync-ok a b h valid =
      let (u, a', flushed, rest) = >>-ok (Segment.flush disk) (Segment.sync_data disk) a h in
      let (same, empty, id, len, first, last, others) = flush-ok disk a a' flushed valid in
      let at_end : a' ≡ b = ground (arith, rest) in
      (
        sym (ap (λ (x : ActiveSegment). x.id) at_end) ∙ id,
        sym (ap (λ (x : ActiveSegment). x.file) at_end)
            ∙ sym (append-nil a'.file)
            ∙ ap (λ (l : List ℕ). a'.file ++ l) (sym empty)
            ∙ same,
      )

  sealed-ok :
      (r : Result Error (Unit {0}) × ActiveSegment) (s t : Store) (bytes : List ℕ)
      → seal_result disk r s ≡ (ok bytes, t)
      → (r ≡ (ok tt, r.1)) × (bytes ≡ r.1.file) × (t.maps ≡ s.maps) × (t.active ≡ s.active)
  sealed-ok (ok u, old) s t bytes h = ground arith
  sealed-ok (err e, old) s t bytes h = absurd (ground arith)

  -- A segment that was sealed is its log.
  pub seal_old-ok :
      (old : ActiveSegment) (s t : Store) (bytes : List ℕ)
      → seal_old disk old s ≡ (ok bytes, t)
      → IsSegment old
      → (bytes ≡ log old) × (t.maps ≡ s.maps) × (t.active ≡ s.active)
  unfolding seal_old
  seal_old-ok old s t bytes h valid =
      let (synced, here, maps, active) = sealed-ok (Segment.sync disk old) s t bytes h in
      let (id, file) = sync-ok old (Segment.sync disk old).1 synced valid in
      (here ∙ file, maps, active)

  module _ (crates : Crates) (is_utf8 : List ℕ → Bool) where
    -- `snapshot_meta` behind its sync.
    kept :
        (s t : Store) (n : ℕ)
        → ((do
          snapshot_seq ← gets (λ x. x.manifest.next_seq - 1)
          store_snapshot disk crates is_utf8 snapshot_seq
          modify (λ x. record x { manifest = record (x.manifest) { snapshot_seq = snapshot_seq } })
          store_manifest disk
          pure snapshot_seq)
              s
            ≡ (ok n, t))
        → (t.maps ≡ s.maps) × (t.sealed ≡ s.sealed) × (t.active ≡ s.active)
    unfolding store_snapshot store_manifest ◌>>=◌ ◌>>◌
    kept s t n h = ground arith

    pub snapshot_meta-ok :
        (s t : Store) (n : ℕ)
        → snapshot_meta disk crates is_utf8 s ≡ (ok n, t)
        → IsSegment s.active
        → (t.maps ≡ s.maps)
          × (t.sealed ≡ s.sealed)
          × (t.active.id ≡ s.active.id)
          × (t.active.file ≡ log s.active)
    unfolding snapshot_meta store_snapshot store_manifest ◌>>=◌ ◌>>◌
    snapshot_meta-ok s t n h valid =
        let (u, s', synced, rest) = >>-ok (on_active (Segment.sync disk)) _ s h in
        let b : ActiveSegment = (Segment.sync disk s.active).1 in
        let done : Segment.sync disk s.active ≡ (ok tt, b) = λ i. ((synced i).0, b) in
        let (id, file) = sync-ok s.active b done valid in
        let at : record s { active = b } ≡ s' = λ i. (synced i).1 in
        let (maps, sealed, active) = kept s' t n rest in
        (
          maps ∙ sym (ap (λ (x : Store). x.maps) at),
          sealed ∙ sym (ap (λ (x : Store). x.sealed) at),
          ap (λ (x : ActiveSegment). x.id) active ∙ sym (ap (λ (x : Store). x.active.id) at) ∙ id,
          ap (λ (x : ActiveSegment). x.file) active
              ∙ sym (ap (λ (x : Store). x.active.file) at)
              ∙ file,
        )

    remove_meta_snapshot-ok :
        (s t : Store)
        → remove_meta_snapshot disk s ≡ (ok tt, t)
        → (t.maps ≡ s.maps) × (t.active ≡ s.active)
    unfolding remove_meta_snapshot
    remove_meta_snapshot-ok s t h = elim (Option-cases s.snapshot) [
      | inl e ↦ ground (arith, e, h)
      | inr (x, e) ↦ ground (arith, e, h)
    ]

    store_manifest-ok :
        (s t : Store)
        → store_manifest disk s ≡ (ok tt, t)
        → (t.maps ≡ s.maps) × (t.active ≡ s.active)
    unfolding store_manifest
    store_manifest-ok s t h = ground arith

    -- Behind the manifest: what the segments and the maps are changed to, and nothing else of them.
    module _ (s t : Store) (valid : IsSegment s.active) where
      pub swap-ok :
          (new_id : ℕ) (c : Copying) (bytes : List ℕ)
          → swap disk crates is_utf8 new_id c bytes s ≡ (ok tt, t)
          → (t.maps ≡ relocate_all c s.maps)
            × (t.sealed ≡ (new_id, bytes) ∷ [])
            × (t.active.id ≡ s.active.id)
            × (t.active.file ≡ log s.active)
      unfolding swap ◌>>=◌ ◌>>◌
      swap-ok new_id c bytes h =
          let (u, s₁, ran₁, h₁) = >>-ok (remove_meta_snapshot disk) _ s h in
          let (u', s₂, ran₂, h₂) =
            >>-ok (store_manifest disk) _ (name_segments (info_of_copy new_id c ∷ []) s₁) h₁ in
          let s₃ : Store = record s₂ {
            maps = relocate_all c s₂.maps;
            sealed = (new_id, bytes) ∷ [];
          } in
          let s₄ : Store = remove_files disk (segment_ids s₁.manifest) s₃ in
          let (n, s₅, ran₃, h₃) = >>-ok (snapshot_meta disk crates is_utf8) _ s₄ h₂ in
          let (m₁, a₁) = remove_meta_snapshot-ok s s₁ ran₁ in
          let (m₂, a₂) =
            store_manifest-ok (name_segments (info_of_copy new_id c ∷ []) s₁) s₂ ran₂ in
          let (m₃, e₃, a₃) = remove_files-keeps (segment_ids s₁.manifest) s₃ in
          let active : s₄.active ≡ s.active = a₃ ∙ a₂ ∙ a₁ in
          let (m₄, e₄, id, file) =
            snapshot_meta-ok s₄ s₅ n ran₃ (subst IsSegment (sym active) valid) in
          let end : s₅ ≡ t = λ i. (h₃ i).1 in
          (
            sym (ap (λ (x : Store). x.maps) end) ∙ m₄ ∙ m₃ ∙ ap (relocate_all c) (m₂ ∙ m₁),
            sym (ap (λ (x : Store). x.sealed) end) ∙ e₄ ∙ e₃,
            sym (ap (λ (x : Store). x.active.id) end)
                ∙ id
                ∙ ap (λ (x : ActiveSegment). x.id) active,
            sym (ap (λ (x : Store). x.active.file) end) ∙ file ∙ ap log active,
          )

      pub drop_sealed-ok :
          drop_sealed disk crates is_utf8 s ≡ (ok tt, t)
          → (t.maps ≡ s.maps)
            × (t.sealed ≡ [])
            × (t.active.id ≡ s.active.id)
            × (t.active.file ≡ log s.active)
      unfolding drop_sealed ◌>>=◌ ◌>>◌
      drop_sealed-ok h =
          let (u, s₁, ran₁, h₁) = >>-ok (remove_meta_snapshot disk) _ s h in
          let (u', s₂, ran₂, h₂) = >>-ok (store_manifest disk) _ (name_segments [] s₁) h₁ in
          let s₃ : Store = record s₂ { sealed = [] } in
          let s₄ : Store = remove_files disk (segment_ids s.manifest) s₃ in
          let (n, s₅, ran₃, h₃) = >>-ok (snapshot_meta disk crates is_utf8) _ s₄ h₂ in
          let (m₁, a₁) = remove_meta_snapshot-ok s s₁ ran₁ in
          let (m₂, a₂) = store_manifest-ok (name_segments [] s₁) s₂ ran₂ in
          let (m₃, e₃, a₃) = remove_files-keeps (segment_ids s.manifest) s₃ in
          let active : s₄.active ≡ s.active = a₃ ∙ a₂ ∙ a₁ in
          let (m₄, e₄, id, file) =
            snapshot_meta-ok s₄ s₅ n ran₃ (subst IsSegment (sym active) valid) in
          let end : s₅ ≡ t = λ i. (h₃ i).1 in
          (
            sym (ap (λ (x : Store). x.maps) end) ∙ m₄ ∙ m₃ ∙ m₂ ∙ m₁,
            sym (ap (λ (x : Store). x.sealed) end) ∙ e₄ ∙ e₃,
            sym (ap (λ (x : Store). x.active.id) end)
                ∙ id
                ∙ ap (λ (x : ActiveSegment). x.id) active,
            sym (ap (λ (x : Store). x.active.file) end) ∙ file ∙ ap log active,
          )

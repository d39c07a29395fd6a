-- ===== src/Shard/Mapped.antt =====
-- embedding-store/src/shard.rs: what a demotion that returns has mapped.
use embedding_processing_rs.Base.{
  ℕ, ◌≡◌, ap, sym, ◌∙◌, Bool, true, ◌&&◌, Bool-cases, inl, inr, Option-cases, List, arith, ok,
}
use embedding_processing_rs.Base.Action.{Action, modify, ◌>>◌, >>-ok}
use embedding_processing_rs.Crates.{Crates}
use embedding_processing_rs.Errors.{Error}
use embedding_processing_rs.Segment.{Disk}
use embedding_processing_rs.VectorIndex
use embedding_processing_rs.VectorIndex.{Usearch, VectorIndex, Files, on_index}
use embedding_processing_rs.Shard.{
  Shard, IndexResidency, residency, on_splits, on_summaries, snapshot, view_if_needed, view_both,
  demote,
}

module _ {I : Type 0} (usearch : Usearch I) where
  pub set-ok :
      (m : Action Error I (Unit {0})) (b : Bool) (x y : VectorIndex I)
      → (on_index usearch m >> modify (λ z. record z { viewed = b })) x ≡ (ok tt, y)
      → (m x.index ≡ (ok tt, y.index)) × (y.file ≡ x.file) × (y.viewed ≡ b)
  set-ok m b x y h =
      let (u, x', e, e') = >>-ok (on_index usearch m) (modify (λ z. record z { viewed = b })) x h in
      (
        (λ i. ((e i).0, (e i).1.index)) ∙ (λ i. (ok tt, (e' i).1.index)),
        sym (ap (λ p. p.1.file) e') ∙ sym (ap (λ p. p.1.file) e),
        sym (ap (λ p. p.1.viewed) e'),
      )

  module _ (files : Files) (crates : Crates) (disk : Disk) (is_utf8 : List ℕ → Bool) where
    view-mapped : (x y : VectorIndex I) → VectorIndex.view usearch x ≡ (ok tt, y) → y.viewed ≡ true
    unfolding VectorIndex.view
    view-mapped x y h = elim (Option-cases x.file) [
      | inl e ↦ absurd (ground (arith, e, h))
      | inr (bytes, e) ↦ (set-ok (usearch.view bytes) true x y (ground (arith, e, h))).2
    ]

    -- A demotion that returns leaves mapped indexes.
    pub demote-mapped :
        (s t : Shard I)
        → demote usearch crates disk files is_utf8 s ≡ (ok tt, t)
        → residency t ≡ IndexResidency.viewed
    unfolding demote view_if_needed residency
    demote-mapped s t h =
        let (seq, s', e, e') =
          >>-ok (snapshot usearch crates disk files is_utf8)
            (view_if_needed usearch crates disk files is_utf8) s h in
        elim (Bool-cases (s'.splits.viewed && s'.summaries.viewed)) [
          | inl b ↦ ground (arith, b, e')
          | inr b ↦
              let f : view_both usearch crates disk files is_utf8 s' ≡ (ok tt, t) =
                ground (arith, b, e') in
              let (u, s'', g, g') =
                >>-ok (on_splits (VectorIndex.view usearch))
                  (on_summaries (VectorIndex.view usearch)) s' f in
              let v : t.summaries.viewed ≡ true =
                view-mapped s''.summaries t.summaries (λ i. ((g' i).0, (g' i).1.summaries)) in
              ground (arith, v)
        ]

-- ===== src/Shard/Demote.antt =====
-- embedding-store/src/shard.rs: a demoted shard answers from the vectors that it had.
use embedding_processing_rs.Base.{
  ℕ, ◌≡◌, refl, ap, sym, ◌∙◌, subst, Bool, true, ◌&&◌, Bool-cases, inl, inr, List, arith, ok,
}
use embedding_processing_rs.Base.Action.{>>-ok}
use embedding_processing_rs.HashMap.{HashMap}
use embedding_processing_rs.Crates.{Crates}
use embedding_processing_rs.Segment.{Disk}
use embedding_processing_rs.VectorIndex
use embedding_processing_rs.VectorIndex.{Usearch, VectorIndex, Files, on_index}
use embedding_processing_rs.Shard.{
  Shard, IndexResidency, residency, on_splits, on_summaries, snapshot, view_if_needed, view_both,
  demote,
}
use embedding_processing_rs.Shard.Mapped.{set-ok}
use embedding_processing_rs.Shard.InStep.{KeepsVectors, Matches, IsInStep, IsOvertaken}
use embedding_processing_rs.Shard.Snapshot.{Ends, Finished, snapshot-IsInStep}

module _ {I : Type 0} (usearch : Usearch I) (vectors : I → HashMap (List ℕ))
    (in_file : List ℕ → HashMap (List ℕ)) (keeps : KeepsVectors usearch vectors in_file) where
  -- A mapped index holds the vectors that its file and the index before it held.
  view-ok :
      (x y : VectorIndex I)
      → VectorIndex.view usearch x ≡ (ok tt, y)
      → Matches vectors in_file x
      → Matches vectors in_file y × (vectors y.index ≡ vectors x.index) × (y.viewed ≡ true)
  unfolding VectorIndex.view
  view-ok x y h (bytes, file, same) =
      let (e, f, v) = set-ok usearch (usearch.view bytes) true x y (ground (arith, file, h)) in
      let back : vectors y.index ≡ in_file bytes = keeps.viewed bytes x.index y.index e in
      ((bytes, f ∙ file, sym back), back ∙ same, v)

  module _ (files : Files) (crates : Crates) (disk : Disk) (is_utf8 : List ℕ → Bool) where
    -- What a demotion leaves: mapped indexes with the vectors they had.
    pub record Demoted (s t : Shard I) : Type 0 where
      pub in_step : IsInStep vectors in_file t
      pub splits : vectors t.splits.index ≡ vectors s.splits.index
      pub summaries : vectors t.summaries.index ≡ vectors s.summaries.index
      pub mapped : residency t ≡ IndexResidency.viewed

    view_both-Demoted :
        (s t : Shard I)
        → view_both usearch crates disk files is_utf8 s ≡ (ok tt, t)
        → IsInStep vectors in_file s
        → Matches vectors in_file s.splits × Matches vectors in_file s.summaries
        → Demoted s t
    unfolding residency
    view_both-Demoted s t h w (ms, mm) =
        let (u, s', e, e') =
          >>-ok (on_splits (VectorIndex.view usearch)) (on_summaries (VectorIndex.view usearch)) s
            h in
        let x₁ = (VectorIndex.view usearch s.splits).1 in
        let x₂ = (VectorIndex.view usearch s.summaries).1 in
        let e'' : on_summaries (VectorIndex.view usearch) (record s { splits = x₁ }) ≡ (ok tt, t) =
          (λ i. on_summaries (VectorIndex.view usearch) (e i).1) ∙ e' in
        let (m₁, v₁, b₁) = view-ok s.splits x₁ (λ i. ((e i).0, x₁)) ms in
        let (m₂, v₂, b₂) = view-ok s.summaries x₂ (λ i. ((e'' i).0, x₂)) mm in
        subst (Demoted s) (ap (λ p. p.1) e'') (record {
          in_step = record { positive = w.positive; known = w.known; matches = λ st f q. (m₁, m₂) };
          splits = v₁;
          summaries = v₂;
          mapped = ground (arith, b₁, b₂);
        })

    view_if_needed-Demoted :
        (s t : Shard I)
        → view_if_needed usearch crates disk files is_utf8 s ≡ (ok tt, t)
        → IsInStep vectors in_file s
        → Matches vectors in_file s.splits × Matches vectors in_file s.summaries
        → Demoted s t
    unfolding view_if_needed residency
    view_if_needed-Demoted s t h w m = elim (Bool-cases (s.splits.viewed && s.summaries.viewed)) [
      | inl e ↦
          let same : s ≡ t = ground (arith, e, h) in
          subst (Demoted s) same
            (record { in_step = w; splits = refl; summaries = refl; mapped = ground (arith, e) })
      | inr e ↦ view_both-Demoted s t (ground (arith, e, h)) w m
    ]

    saved_files :
        (n : ℕ) (s t : Shard I)
        → (IsOvertaken s → ⊥)
        → Finished usearch vectors in_file files keeps s crates disk is_utf8 n t
        → Matches vectors in_file t.splits × Matches vectors in_file t.summaries
    saved_files n s t apart (w, same, inl (st, here, seq, last, m)) = m
    saved_files n s t apart (w, same, inr (over, left)) = absurd (apart over)

    -- A shard's state file names the last sequence number of the log only where both index files hold the
    -- vectors of the indexes in memory, and the store has taken no snapshot of its own since that file was
    -- written. If a demotion of the shard returns, its indexes are mapped and hold the vectors that they
    -- held before, and the state file still names the last sequence number only where both index files
    -- hold the vectors. Usearch keeps vectors.
    pub demote-Demoted :
        (s t : Shard I)
        → demote usearch crates disk files is_utf8 s ≡ (ok tt, t)
        → IsInStep vectors in_file s
        → (IsOvertaken s → ⊥)
        → Demoted s t
    unfolding demote
    demote-Demoted s t h w apart =
        let (seq, s', e, e') =
          >>-ok (snapshot usearch crates disk files is_utf8)
            (view_if_needed usearch crates disk files is_utf8) s h in
        let done =
          subst
            (Ends usearch vectors in_file files keeps s
              (Finished usearch vectors in_file files keeps s crates disk is_utf8))
            e (snapshot-IsInStep usearch vectors in_file files keeps s crates disk is_utf8 w) in
        let d = view_if_needed-Demoted s' t e' done.0 (saved_files seq s s' apart done) in
        record {
          in_step = d.in_step;
          splits = d.splits ∙ ap vectors done.1.0;
          summaries = d.summaries ∙ ap vectors done.1.1;
          mapped = d.mapped;
        }

-- ===== src/Store/Recovery.antt =====
-- embedding-store/src/store.rs and replay.rs: the replay of what `insert` and `delete` append makes the
-- same change to the maps.
use embedding_processing_rs.Base.{
  ℕ, ◌<◌, ◌≤◌, ◌≡◌, refl, ap, sym, ◌∙◌, subst, Bool, none, List, ◌++◌, map, append_assoc, arith, ok,
  All, All-append, if◌then◌else◌,
}
use embedding_processing_rs.Base.Action.{pure, ◌>>=◌, ◌>>◌, >>=-ok, >>-ok, last-ok}
use embedding_processing_rs.HashMap
use embedding_processing_rs.Record.{Frame}
use embedding_processing_rs.Maps.{Maps, DocEntry, remove_doc}
use embedding_processing_rs.Maps.Remove.{get-remove_doc}
use embedding_processing_rs.Crates.{Crates, IsFaithful}
use embedding_processing_rs.Segment.{Disk}
use embedding_processing_rs.Segment.Log.{IsSegment}
use embedding_processing_rs.Replay.{Pending, doc_id_of, u32_max, insert_pending}
use embedding_processing_rs.Replay.Commit.{NoneOf}
use embedding_processing_rs.Dto.{SummaryDto, SplitDto, DocumentDto}
use embedding_processing_rs.Store.Types.{Store, Placed, Appended}
use embedding_processing_rs.Store.Write.{
  append_delete, append_doc, append_document, append_summaries, append_splits, append_summary,
  append_split, enter_document, enter_summaries, enter_splits, named_by_splits,
}
use embedding_processing_rs.Store.Logged.{
  Logged, Logged-trans, append_each-Logged, append_summary-Logged, append_split-Logged,
  pending_summary, pending_split,
}
use embedding_processing_rs.Store.Document.{
  clear_step, append_doc-Logged, insert_pending-enter, split_summary_ids-pending, OnlyOf-summaries,
  OnlyOf-splits,
}

module _ (crates : Crates) (snapshot_seq : ℕ) (disk : Disk) (faithful : IsFaithful crates) where
  -- The two loops and the `Doc` record, on maps that do not hold the document.
  entities-Logged :
      (doc : DocumentDto) (s₁ s₂ s₃ s₄ : Store) (ss : List SummaryDto)
      (ps : List (Placed SummaryDto)) (qs : List (Placed SplitDto)) (entry : DocEntry) (m : Maps)
      (pending : List Pending)
      → append_summaries crates disk ss s₁ ≡ (ok ps, s₂)
      → append_splits crates disk doc.splits s₂ ≡ (ok qs, s₃)
      → append_doc crates disk doc s₃ ≡ (ok entry, s₄)
      → IsSegment s₁.active
      → snapshot_seq < s₁.manifest.next_seq
      → HashMap.get doc.document_id m.docs ≡ none
      → NoneOf doc.document_id pending
      → All (λ x. x.document_id ≡ doc.document_id) ss
      → All (λ x. x.doc_id ≡ doc.document_id) doc.splits
      → (s₁.manifest.next_seq ≤ s₄.active.last_seq)
        × (fs : List Frame) × Logged crates snapshot_seq s₁ s₄ fs m pending
            (record (enter_splits qs (enter_summaries ps m)) {
              docs =
                  HashMap.insert doc.document_id entry
                    (enter_splits qs (enter_summaries ps m)).docs;
            })
            pending
  unfolding append_summaries append_splits
  entities-Logged doc s₁ s₂ s₃ s₄ ss ps qs entry m pending e₂ e₃ e₄ valid newer absent others own
        own' =
      let d = doc.document_id in
      let (same, fs, logged) =
        append_each-Logged crates snapshot_seq (append_summary crates disk) pending_summary
          (append_summary-Logged crates snapshot_seq disk faithful) ss s₁ s₂ ps e₂ valid newer in
      let a = (logged m pending).appends in
      let (same', gs, logged') =
        append_each-Logged crates snapshot_seq (append_split crates disk) pending_split
          (append_split-Logged crates snapshot_seq disk faithful) doc.splits s₂ s₃ qs e₃ a.valid
          (omega (arith, a.seq)) in
      let a' = (logged' m (pending ++ map pending_summary ps)).appends in
      let mine : List Pending = map pending_summary ps ++ map pending_split qs in
      let (last, hs, logged'') =
        append_doc-Logged crates snapshot_seq disk faithful doc s₃ s₄ entry m pending mine e₄
          a'.valid (omega (arith, a.seq, a'.seq)) absent others
          (All-append (λ (p : Pending). doc_id_of p ≡ d) (map pending_summary ps)
            (map pending_split qs)
            (OnlyOf-summaries d ps
              (subst (All (λ (x : SummaryDto). x.document_id ≡ d)) (sym same) own))
            (OnlyOf-splits d qs (subst (All (λ (x : SplitDto). x.doc_id ≡ d)) (sym same') own')))
          (split_summary_ids-pending ps qs ∙ ap named_by_splits same') in
      let buffered =
        Logged-trans crates snapshot_seq s₂ s₃ s₄ gs hs
          (logged' m (pending ++ map pending_summary ps))
          (subst
            (λ l.
              Logged crates snapshot_seq s₃ s₄ hs m l
                (record (insert_pending mine m) {
                  docs = HashMap.insert d entry (insert_pending mine m).docs;
                })
                pending)
            (sym (append_assoc pending (map pending_summary ps) (map pending_split qs)))
            logged'') in
      (
        omega (arith, a.seq, a'.seq, last),
        fs ++ (gs ++ hs),
        subst
            (λ n.
              Logged crates snapshot_seq s₁ s₄ (fs ++ (gs ++ hs)) m pending
                (record n { docs = HashMap.insert d entry n.docs }) pending)
            (insert_pending-enter ps qs m)
            (Logged-trans crates snapshot_seq s₁ s₂ s₄ fs (gs ++ hs) (logged m pending) buffered),
      )

  -- The append phase of a whole document.
  pub append_document-Logged :
      (doc : DocumentDto) (ss : List SummaryDto) (s t : Store) (a : Appended)
      (pending : List Pending)
      → append_document crates disk doc ss s ≡ (ok a, t)
      → IsSegment s.active
      → snapshot_seq < s.manifest.next_seq
      → NoneOf doc.document_id pending
      → All (λ x. x.document_id ≡ doc.document_id) ss
      → All (λ x. x.doc_id ≡ doc.document_id) doc.splits
      → (a.replaces ≡ HashMap.contains_key doc.document_id s.maps.docs)
        × (s.manifest.next_seq ≤ t.active.last_seq)
        × (fs : List Frame) × Logged crates snapshot_seq s t fs s.maps pending
            (enter_document doc a (remove_doc doc.document_id u32_max s.maps).1)
            pending
  unfolding append_document enter_document ◌>>=◌ ◌>>◌
  append_document-Logged doc ss s t a pending h valid newer others own own' =
      let d = doc.document_id in
      let there : Bool = HashMap.contains_key d s.maps.docs in
      let (u, s₁, e₁, h₁) = >>-ok (if there then append_delete crates disk d else pure tt) _ s h in
      let (ps, s₂, e₂, h₂) = >>=-ok (append_summaries crates disk ss) _ s₁ h₁ in
      let (qs, s₃, e₃, h₃) = >>=-ok (append_splits crates disk doc.splits) _ s₂ h₂ in
      let (entry, e₄, ea) = last-ok (append_doc crates disk doc) _ s₃ h₃ in
      let (fs, cleared) =
        clear_step crates snapshot_seq disk faithful there d s s₁ pending refl e₁ valid newer
          others in
      let removed : Maps = (remove_doc d u32_max s.maps).1 in
      let (last, gs, entered) =
        entities-Logged doc s₁ s₂ s₃ t ss ps qs entry removed pending e₂ e₃ e₄ cleared.appends.valid
          (omega (arith, cleared.appends.seq)) (get-remove_doc d u32_max s.maps) others own own' in
      rw ea (
        refl,
        omega (arith, cleared.appends.seq, last),
        fs ++ gs,
        Logged-trans crates snapshot_seq s s₁ t fs gs cleared entered,
      )

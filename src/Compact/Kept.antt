-- ===== src/Compact/Kept.antt =====
-- embedding-store/src/compact.rs: a compaction that returns keeps every live record.
use embedding_processing_rs.Base.{
  ℕ, ◌≡◌, ◌≢◌, refl, ap, sym, ◌∙◌, subst, Bool, not, List, [], ◌∷◌, ◌==◌, Bool-cases, arith,
  is_empty, length, inl, inr, Result, ok, err, reject_if,
}
use embedding_processing_rs.Base.Action.{◌>>=◌, ◌>>◌, >>=-ok, >>-ok, lift}
use embedding_processing_rs.HashMap
use embedding_processing_rs.HashMap.{HashMap}
use embedding_processing_rs.Crates.{Crates}
use embedding_processing_rs.Errors.{Error, segment_in_use}
use embedding_processing_rs.Segment.{Disk, ActiveSegment, open_segment}
use embedding_processing_rs.Segment.Log.{log, IsSegment}
use embedding_processing_rs.Store.Types.{Store}
use embedding_processing_rs.Store.Read.{read_record}
use embedding_processing_rs.Store.Seal.{seal_old, file_of}
use embedding_processing_rs.Compact.{
  Copying, start_copying, copy_documents, sort_ids, sealed_docs, relocate_all, remove_file,
  open_writer, seal_copy, swap, finish_copy, copied, copy_into, compact_into, compact, claimed,
  or_remove, drop_sealed,
}
use embedding_processing_rs.Compact.Copies.{split_loc, summary_loc, doc_loc}
use embedding_processing_rs.Compact.Documents.{
  copy_documents-ok, contains-sort_ids, contains-sealed_docs,
}
use embedding_processing_rs.Compact.Swapped.{
  seal_old-ok, remove_files-keeps, swap-ok, drop_sealed-ok,
}
use embedding_processing_rs.Compact.Reading.{read_record-copied}
use embedding_processing_rs.Compact.Keeping.{
  AreShort, IsCompactable, IsCopied, IsGrouped, Keeps, no_copies, no_room, open_segment-IsSegment,
  relocate_all-nothing, relocated-Keeps,
}

module _ (crates : Crates) (disk : Disk) (is_utf8 : List ℕ → Bool) where
  -- Nothing was copied, so nothing was sealed that lives.
  module _ (s : Store) (new_id : ℕ) (c : Copying) (w : IsCopied s new_id c)
      (valid : IsSegment s.active) (grouped : IsGrouped s) (short : AreShort s.maps) where
    dropped-Keeps :
        (s₁ t : Store)
        → drop_sealed disk crates is_utf8 s₁ ≡ (ok tt, t)
        → s₁.maps ≡ s.maps
        → s₁.active ≡ s.active
        → length (log c.writer) ≡ 0
        → Keeps s t
    dropped-Keeps s₁ t run m₁ a₁ nothing =
        let (m₂, e₂, id, file) =
          drop_sealed-ok disk crates is_utf8 s₁ t (subst IsSegment (sym a₁) valid) run in
        let same : relocate_all c s.maps ≡ s.maps =
          relocate_all-nothing c s.maps
            (no_copies s doc_loc s.maps.docs (log c.writer) new_id c.doc_locs nothing
              w.copying.docs)
            (no_copies s split_loc s.maps.splits (log c.writer) new_id c.split_locs nothing
              w.copying.splits)
            (no_copies s summary_loc s.maps.summaries (log c.writer) new_id c.summary_locs nothing
              w.copying.summaries) in
        relocated-Keeps s new_id c w grouped short t (id ∙ ap (λ (a : ActiveSegment). a.id) a₁)
          (file ∙ ap log a₁)
          (λ old new held _. absurd (no_room s (log c.writer) new_id old new held nothing))
          (m₂ ∙ m₁ ∙ sym same)

    swapped-Keeps :
        (s₁ t : Store) (bytes : List ℕ)
        → swap disk crates is_utf8 new_id c bytes s₁ ≡ (ok tt, t)
        → s₁.maps ≡ s.maps
        → s₁.active ≡ s.active
        → bytes ≡ log c.writer
        → s.active.id ≢ new_id
        → Keeps s t
    swapped-Keeps s₁ t bytes run m₁ a₁ written differ =
        let (m₂, sealed, id, file) =
          swap-ok disk crates is_utf8 s₁ t (subst IsSegment (sym a₁) valid) new_id c bytes run in
        let id' : t.active.id ≡ s.active.id = id ∙ ap (λ (a : ActiveSegment). a.id) a₁ in
        relocated-Keeps s new_id c w grouped short t id' (file ∙ ap log a₁)
          (λ old new held fits.
            ap (read_record t) held.new_loc
            ∙ read_record-copied t new_id bytes held.before held.bytes held.after sealed
                (λ q. differ (sym id' ∙ q)) (written ∙ held.placed) fits)
          (m₂ ∙ ap (relocate_all c) m₁)

    finish_copy-Keeps :
        (t : Store)
        → finish_copy disk crates is_utf8 new_id c s ≡ (ok tt, t)
        → s.active.id ≢ new_id
        → Keeps s t
    unfolding finish_copy seal_copy ◌>>=◌
    finish_copy-Keeps t h differ = elim (Bool-cases (c.writer.len == 0)) [
      | inl e ↦
          let (maps, sealed, active) = remove_files-keeps disk (new_id ∷ []) s in
          dropped-Keeps (remove_file disk new_id s) t (ground (arith, e, h)) maps active
            (ground (arith, e, w.copying.writer.len_log))
      | inr e ↦
          let (bytes, s₁, ran, rest) =
            >>=-ok (seal_old disk c.writer) (swap disk crates is_utf8 new_id c) s
              (ground (arith, e, h)) in
          let (written, maps, active) = seal_old-ok disk c.writer s s₁ bytes ran w.copying.writer in
          swapped-Keeps s₁ t bytes rest maps active written differ
    ]

  copied-ok :
      (s t : Store) (new_id : ℕ) (p : Result Error (Unit {0}) × Copying)
      → copied disk crates is_utf8 new_id p s ≡ (ok tt, t)
      → (p ≡ (ok tt, p.1)) × (finish_copy disk crates is_utf8 new_id p.1 s ≡ (ok tt, t))
  copied-ok s t new_id (ok u, c) h = (refl, h)
  copied-ok s t new_id (err e, c) h = absurd (ground arith)

  copy_into-Keeps :
      (s t : Store) (new_id : ℕ) (writer : ActiveSegment)
      → copy_into disk crates is_utf8 new_id (HashMap.keys s.sealed) writer s ≡ (ok tt, t)
      → IsSegment writer
      → writer.id ≡ new_id
      → IsSegment s.active
      → s.active.id ≢ new_id
      → IsGrouped s
      → AreShort s.maps
      → Keeps s t
  unfolding copy_into
  copy_into-Keeps s t new_id writer h sound id valid differ grouped short =
      let ids : List ℕ = sort_ids (sealed_docs (HashMap.keys s.sealed) s.maps.docs) in
      let p : Result Error (Unit {0}) × Copying =
        copy_documents crates disk s ids (start_copying writer) in
      let (ran, finished) = copied-ok s t new_id p h in
      let (copying, grown, covers) =
        copy_documents-ok crates disk s new_id ids (start_copying writer) p.1 ran
          (record { writer = sound; id = id; splits = tt; summaries = tt; docs = tt }) in
      let copied_all : IsCopied s new_id p.1 = record {
        copying = copying;
        covers = λ d entry found sealed.
            covers d entry
              (contains-sort_ids (sealed_docs (HashMap.keys s.sealed) s.maps.docs) d
                ∙ contains-sealed_docs (HashMap.keys s.sealed) s.maps.docs d entry found sealed)
              found;
      } in
      finish_copy-Keeps s new_id p.1 copied_all valid grouped short t finished differ

  opened_writer :
      (s t : Store) (new_id : ℕ) (writer : ActiveSegment)
      → open_writer disk new_id s ≡ (ok writer, t)
      → (writer ≡ open_segment new_id (file_of (HashMap.get new_id s.files)))
        × (t ≡ record s {
          files = HashMap.insert new_id (file_of (HashMap.get new_id s.files)) s.files;
        })
  unfolding open_writer
  opened_writer s t new_id writer h = ground arith

  compact_into-Keeps :
      (s t : Store) (new_id : ℕ)
      → compact_into disk crates is_utf8 new_id (HashMap.keys s.sealed) s ≡ (ok tt, t)
      → IsSegment s.active
      → s.active.id ≢ new_id
      → IsGrouped s
      → AreShort s.maps
      → Keeps s t
  unfolding compact_into open_writer read_record ◌>>=◌ ◌>>◌
  compact_into-Keeps s t new_id h valid differ grouped short =
      let (writer, s₁, opened, h₁) = >>=-ok (open_writer disk new_id) _ s h in
      let bytes : List ℕ = file_of (HashMap.get new_id s.files) in
      let s₂ : Store = record s { files = HashMap.insert new_id bytes s.files } in
      let (made, at) = opened_writer s s₁ new_id writer opened in
      let (u, s₃, lifted, run) =
        >>-ok (lift (reject_if (not (writer.len == 0)) (segment_in_use new_id))) _ s₁ h₁ in
      let end : s₃ ≡ s₂ = (λ i. (sym lifted i).1) ∙ at in
      let kept : Keeps s₂ t =
        copy_into-Keeps s₂ t new_id writer
          (subst
            (λ x.
              copy_into disk crates is_utf8 new_id (HashMap.keys s.sealed) writer x ≡ (ok tt, t))
            end run)
          (subst IsSegment (sym made) (open_segment-IsSegment new_id bytes))
          (ap (λ (a : ActiveSegment). a.id) made) valid differ
          (record { splits = grouped.splits; summaries = grouped.summaries }) short in
      record { docs = kept.docs; splits = kept.splits; summaries = kept.summaries }

  or_remove-ok :
      (s t : Store) (new_id : ℕ) (p : Result Error (Unit {0}) × Store)
      → or_remove disk crates is_utf8 new_id p ≡ (ok tt, t)
      → p ≡ (ok tt, t)
  or_remove-ok s t new_id (ok u, x) h = h
  or_remove-ok s t new_id (err e, x) h = absurd (ground arith)

  -- Nothing was done.
  Keeps-refl : (s : Store) → Keeps s s
  Keeps-refl s = record {
    docs = λ k. ((λ h. h), (λ e h. (e.loc, h, (λ bytes read. read))));
    splits = λ k. ((λ h. h), (λ e h. (e.loc, h, (λ bytes read. read))));
    summaries = λ k. ((λ h. h), (λ e h. (e.loc, h, (λ bytes read. read))));
  }

  -- A compaction that returns keeps every document, split and summary, all but the locations, and loses
  -- none of their records: what was read before is read at the new location. The active segment is well
  -- formed and its id was given out, the records of a document are sealed together, and lengths are u32.
  pub compact-Keeps :
      (s t : Store) → compact disk crates is_utf8 s ≡ (ok tt, t) → IsCompactable s → Keeps s t
  unfolding compact read_record
  compact-Keeps s t h w = elim (Bool-cases (is_empty s.sealed)) [
    | inl e ↦ let same : s ≡ t = ground (arith, e, h) in subst (Keeps s) same (Keeps-refl s)
    | inr e ↦
        let new_id : ℕ = s.manifest.next_segment_id in
        let ran : or_remove disk crates is_utf8 new_id (
              compact_into disk crates is_utf8 new_id (HashMap.keys s.sealed)
                (claimed disk crates is_utf8 s))
            ≡ (ok tt, t) =
          ground (arith, e, h) in
        let kept : Keeps (claimed disk crates is_utf8 s) t =
          compact_into-Keeps (claimed disk crates is_utf8 s) t new_id
            (or_remove-ok s t new_id _ ran) w.active (λ q. absurd (omega (arith, q, w.below)))
            (record { splits = w.grouped.splits; summaries = w.grouped.summaries }) w.short in
        record { docs = kept.docs; splits = kept.splits; summaries = kept.summaries }
  ]

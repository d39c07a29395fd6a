-- ===== src/Compact/Documents.antt =====
-- embedding-store/src/compact.rs: every document that is copied is copied with all it owns.
use embedding_processing_rs.Base.{
  ℕ, ◌≡◌, refl, ap, sym, ◌∙◌, subst, true, false, Option, none, some, List, [], ◌∷◌, ◌++◌, ◌==◌,
  ==_refl, ==→eq, Bool-cases, ◌||◌, arith, contains, All-append, ok, inl, inr,
}
use embedding_processing_rs.Base.Action.{◌>>=◌, ◌>>◌, >>=-ok, >>-ok}
use embedding_processing_rs.HashMap
use embedding_processing_rs.HashMap.{HashMap}
use embedding_processing_rs.Maps.{Loc, DocEntry, SplitEntry, SummaryEntry, owned_summary_ids}
use embedding_processing_rs.Crates.{Crates}
use embedding_processing_rs.Segment.{Disk}
use embedding_processing_rs.Segment.Log.{log}
use embedding_processing_rs.Store.Types.{Store}
use embedding_processing_rs.Compact.{
  NewLocs, Copying, copy_record, copy_each, copy_entry, copy_known, copy_document, copy_documents,
  note_split, note_summary, note_doc, place_id, sort_ids, sealed_docs,
}
use embedding_processing_rs.Compact.Copies.{
  Held, IsCopy, IsCopying, Grows, Grows-refl, Grows-trans, is_noted, is_noted-append, split_loc,
  summary_loc, doc_loc, copy_record-ok, copy_each-ok,
}

grows_by_one :
    (locs : NewLocs) (id k : ℕ) (loc : Loc)
    → is_noted locs k ≡ true
    → is_noted (locs ++ ((id, loc) ∷ [])) k ≡ true
grows_by_one locs id k loc h = ground (arith, is_noted-append locs id k loc)

is_noted_last :
    (locs : NewLocs) (id : ℕ) (loc : Loc) → is_noted (locs ++ ((id, loc) ∷ [])) id ≡ true
is_noted_last locs id loc = ground (arith, is_noted-append locs id id loc, ==_refl id)

module _ (s : Store) (new_id : ℕ) (id : ℕ) (loc : Loc) (c : Copying)
    (w : IsCopying s new_id c) where
  noted_summary :
      (e : SummaryEntry)
      → HashMap.get id s.maps.summaries ≡ some e
      → Held s (log c.writer) new_id (summary_loc e) loc
      → IsCopying s new_id (note_summary id loc c)
        × Grows c (note_summary id loc c)
        × (is_noted (note_summary id loc c).summary_locs id ≡ true)
  noted_summary e found held = (
    record {
      writer = w.writer;
      id = w.id;
      splits = w.splits;
      summaries =
          All-append (IsCopy s summary_loc s.maps.summaries (log c.writer) new_id) c.summary_locs
            ((id, loc) ∷ []) w.summaries ((e, found, held), tt);
      docs = w.docs;
    },
    record {
      splits = λ k h. h;
      summaries = λ k. grows_by_one c.summary_locs id k loc;
      docs = λ k h. h;
    },
    is_noted_last c.summary_locs id loc,
  )

  noted_split :
      (e : SplitEntry)
      → HashMap.get id s.maps.splits ≡ some e
      → Held s (log c.writer) new_id (split_loc e) loc
      → IsCopying s new_id (note_split id loc c)
        × Grows c (note_split id loc c)
        × (is_noted (note_split id loc c).split_locs id ≡ true)
  noted_split e found held = (
    record {
      writer = w.writer;
      id = w.id;
      splits =
          All-append (IsCopy s split_loc s.maps.splits (log c.writer) new_id) c.split_locs
            ((id, loc) ∷ []) w.splits ((e, found, held), tt);
      summaries = w.summaries;
      docs = w.docs;
    },
    record {
      splits = λ k. grows_by_one c.split_locs id k loc;
      summaries = λ k h. h;
      docs = λ k h. h;
    },
    is_noted_last c.split_locs id loc,
  )

  noted_doc :
      (e : DocEntry)
      → HashMap.get id s.maps.docs ≡ some e
      → Held s (log c.writer) new_id (doc_loc e) loc
      → IsCopying s new_id (note_doc id loc c)
        × Grows c (note_doc id loc c)
        × (is_noted (note_doc id loc c).doc_locs id ≡ true)
  noted_doc e found held = (
    record {
      writer = w.writer;
      id = w.id;
      splits = w.splits;
      summaries = w.summaries;
      docs =
          All-append (IsCopy s doc_loc s.maps.docs (log c.writer) new_id) c.doc_locs
            ((id, loc) ∷ []) w.docs ((e, found, held), tt);
    },
    record {
      splits = λ k h. h;
      summaries = λ k h. h;
      docs = λ k. grows_by_one c.doc_locs id k loc;
    },
    is_noted_last c.doc_locs id loc,
  )

-- A document and what it owns, where the maps hold it, are noted.
pub record Covers (s : Store) (c : Copying) (id : ℕ) (entry : DocEntry) : Type 0 where
  pub doc : is_noted c.doc_locs id ≡ true
  pub splits :
      (k : ℕ)
      → contains entry.split_ids k ≡ true
      → HashMap.contains_key k s.maps.splits ≡ true
      → is_noted c.split_locs k ≡ true
  pub summaries :
      (k : ℕ)
      → contains (owned_summary_ids entry) k ≡ true
      → HashMap.contains_key k s.maps.summaries ≡ true
      → is_noted c.summary_locs k ≡ true

Covers-Grows :
    (s : Store) (c c' : Copying) (id : ℕ) (entry : DocEntry)
    → Covers s c id entry
    → Grows c c'
    → Covers s c' id entry
Covers-Grows s c c' id entry v g = record {
  doc = g.docs id v.doc;
  splits = λ k l h. g.splits k (v.splits k l h);
  summaries = λ k l h. g.summaries k (v.summaries k l h);
}

module _ (crates : Crates) (disk : Disk) (s : Store) (new_id : ℕ) where
  copy_entry-ok :
      (id : ℕ) (entry : DocEntry) (c c' : Copying)
      → HashMap.get id s.maps.docs ≡ some entry
      → copy_entry crates disk s id entry c ≡ (ok tt, c')
      → IsCopying s new_id c
      → IsCopying s new_id c' × Grows c c' × Covers s c' id entry
  unfolding copy_entry ◌>>=◌
  copy_entry-ok id entry c c' e h w =
      let (u, c₁, ran₁, h₁) =
        >>-ok
          (copy_each crates disk s summary_loc note_summary s.maps.summaries
            (owned_summary_ids entry))
          _ c h in
      let (w₁, g₁, here₁) =
        copy_each-ok crates disk s new_id summary_loc note_summary s.maps.summaries
          (λ x. x.summary_locs) (λ x y k g. g.summaries k)
          (λ j loc v x found held good. noted_summary s new_id j loc x good v found held)
          (owned_summary_ids entry) c c₁ ran₁ w in
      let (u', c₂, ran₂, h₂) =
        >>-ok (copy_each crates disk s split_loc note_split s.maps.splits entry.split_ids) _ c₁
          h₁ in
      let (w₂, g₂, here₂) =
        copy_each-ok crates disk s new_id split_loc note_split s.maps.splits (λ x. x.split_locs)
          (λ x y k g. g.splits k)
          (λ j loc v x found held good. noted_split s new_id j loc x good v found held)
          entry.split_ids c₁ c₂ ran₂ w₁ in
      let (loc, c₃, ran₃, h₃) = >>=-ok (copy_record crates disk s entry.loc) _ c₂ h₂ in
      let (w₃, g₃, held) = copy_record-ok crates disk s new_id entry.loc loc c₂ c₃ ran₃ w₂ in
      let (w₄, g₄, here₄) = noted_doc s new_id id loc c₃ w₃ entry e held in
      let d : Copying = note_doc id loc c₃ in
      let after : Grows c₂ d = Grows-trans c₂ c₃ d g₃ g₄ in
      subst (λ x. IsCopying s new_id x × Grows c x × Covers s x id entry) (λ i. (h₃ i).1)
        (
          w₄,
          Grows-trans c c₁ d g₁ (Grows-trans c₁ c₂ d g₂ after),
          record {
            doc = here₄;
            splits = λ k l there. after.splits k (here₂ k l there);
            summaries = λ k l there. after.summaries k (g₂.summaries k (here₁ k l there));
          },
        )

  copy_known-ok :
      (id : ℕ) (o : Option DocEntry) (c c' : Copying)
      → HashMap.get id s.maps.docs ≡ o
      → copy_known crates disk s id o c ≡ (ok tt, c')
      → IsCopying s new_id c
      → IsCopying s new_id c'
        × Grows c c'
        × ((entry : DocEntry) → HashMap.get id s.maps.docs ≡ some entry → Covers s c' id entry)
  copy_known-ok id none c c' e h w = cc
  copy_known-ok id (some entry) c c' e h w =
      let (w₁, g₁, v) = copy_entry-ok id entry c c' e h w in
      (w₁, g₁, (λ entry' e'. subst (λ x. Covers s c' id x) (cc) v))

  pub copy_documents-ok :
      (ids : List ℕ) (c c' : Copying)
      → copy_documents crates disk s ids c ≡ (ok tt, c')
      → IsCopying s new_id c
      → IsCopying s new_id c'
        × Grows c c'
        × ((id : ℕ) (entry : DocEntry)
            → contains ids id ≡ true
            → HashMap.get id s.maps.docs ≡ some entry
            → Covers s c' id entry)
  unfolding ◌>>◌
  copy_documents-ok [] c c' h w =
      subst
        (λ x.
          IsCopying s new_id x
          × Grows c x
          × ((id : ℕ) (entry : DocEntry)
              → false ≡ true
              → HashMap.get id s.maps.docs ≡ some entry
              → Covers s x id entry))
        (λ i. (h i).1) (w, Grows-refl c, (λ id entry l e. absurd (ground (arith, l))))
  copy_documents-ok (id ∷ ids) c c' h w =
      let (u, c₁, first, rest) = >>-ok (copy_document crates disk s id) _ c h in
      let (w₁, g₁, here) = copy_known-ok id (HashMap.get id s.maps.docs) c c₁ refl first w in
      let (w₂, g₂, there) = copy_documents-ok ids c₁ c' rest w₁ in
      (
        w₂,
        Grows-trans c c₁ c' g₁ g₂,
        (λ k entry l e. elim (Bool-cases (k == id)) [
          | inl q ↦
              Covers-Grows s c₁ c' k entry
                (subst (λ j. Covers s c₁ j entry) (sym (==→eq k id q))
                  (here entry
                    (subst (λ j. HashMap.get j s.maps.docs ≡ some entry) (==→eq k id q) e)))
                g₂
          | inr q ↦ there k entry (ground (arith, l, q)) e
        ]),
      )

-- Sorting keeps the ids.
contains-place_id :
    (id : ℕ) (ids : List ℕ) (k : ℕ) → contains (place_id id ids) k ≡ (k == id || contains ids k)
unfolding place_id
contains-place_id id [] k = refl
contains-place_id id (j ∷ ids) k = ground (arith, contains-place_id id ids k)

pub contains-sort_ids : (ids : List ℕ) (k : ℕ) → contains (sort_ids ids) k ≡ contains ids k
contains-sort_ids [] k = refl
contains-sort_ids (id ∷ ids) k =
    contains-place_id id (sort_ids ids) k ∙ ap (λ b. k == id || b) (contains-sort_ids ids k)

-- A document whose record is in a sealed segment is on the list.
pub contains-sealed_docs :
    (sealed_ids : List ℕ) (docs : HashMap DocEntry) (k : ℕ) (e : DocEntry)
    → HashMap.get k docs ≡ some e
    → contains sealed_ids e.loc.segment ≡ true
    → contains (sealed_docs sealed_ids docs) k ≡ true
unfolding HashMap.get
contains-sealed_docs sealed_ids [] k e h q = cc
contains-sealed_docs sealed_ids ((j, v) ∷ docs) k e h q = elim (Bool-cases (j == k)) [
  | inl here ↦
      let same : v ≡ e = ground (arith, h, here) in
      let sealed : contains sealed_ids v.loc.segment ≡ true =
        subst (λ x. contains sealed_ids x.loc.segment ≡ true) (sym same) q in
      rw sealed (ground (arith, here))
  | inr there ↦ ground (arith, there, h, contains-sealed_docs sealed_ids docs k e)
]

-- ===== src/Replay/Commit.antt =====
-- embedding-store/src/replay.rs: what the `Doc` record of a document does, behind the records of its
-- summaries and splits.
use embedding_processing_rs.Base.{
  ℕ, ◌≡◌, ◌≢◌, refl, ap, subst, not, none, List, [], ◌∷◌, ◌++◌, append-nil, ne→==_false, filter_by,
  contains, All, arith,
}
use embedding_processing_rs.HashMap
use embedding_processing_rs.Record.{DocMeta}
use embedding_processing_rs.Maps.{Loc, Maps, flatten_ids}
use embedding_processing_rs.Replay.{
  Pending, doc_id_of, belongs_to, insert_pending, split_summary_ids, commit_doc,
  dedup_preserving_order,
}

-- The list holds entities of this document only, or none of it.
abbrev pub OnlyOf : ℕ → List Pending → Type 0
OnlyOf doc_id = All (λ p. doc_id_of p ≡ doc_id)

abbrev pub NoneOf : ℕ → List Pending → Type 0
NoneOf doc_id = All (λ p. doc_id_of p ≢ doc_id)

module _ (d : ℕ) where
  filter-NoneOf :
      (others mine : List Pending)
      → NoneOf d others
      → OnlyOf d mine
      → filter_by (belongs_to d) (others ++ mine) ≡ mine
  filter-NoneOf [] [] n o = refl
  filter-NoneOf [] (p ∷ ps) n o = ground (arith, o.0, filter-NoneOf [] ps n o.1)
  filter-NoneOf (q ∷ qs) mine n o =
      rw (ne→==_false (doc_id_of q) d n.0) (filter-NoneOf qs mine n.1 o)

  filter_not-NoneOf :
      (others mine : List Pending)
      → NoneOf d others
      → OnlyOf d mine
      → filter_by (λ p. not (belongs_to d p)) (others ++ mine) ≡ others
  filter_not-NoneOf [] [] n o = refl
  filter_not-NoneOf [] (p ∷ ps) n o = ground (arith, o.0, filter_not-NoneOf [] ps n o.1)
  filter_not-NoneOf (q ∷ qs) mine n o =
      rw (ne→==_false (doc_id_of q) d n.0) (ap (◌∷◌ q) (filter_not-NoneOf qs mine n.1 o))

-- Where the document is not in the maps and the buffer ends in its entities: these enter the maps,
-- and the others stay in the buffer.
pub commit_doc_entered :
    (meta : DocMeta) (seq : ℕ) (loc : Loc) (m : Maps) (others mine : List Pending)
    → HashMap.get meta.doc_id m.docs ≡ none
    → NoneOf meta.doc_id others
    → OnlyOf meta.doc_id mine
    → commit_doc meta seq loc m (others ++ mine) ≡ (
      record (insert_pending mine m) {
        docs =
            HashMap.insert meta.doc_id
              (record {
                url = meta.url;
                split_ids = meta.split_ids;
                summary_ids = meta.summary_ids;
                extra_summary_ids = dedup_preserving_order (
                    filter_by
                      (λ id. not (contains (flatten_ids meta.summary_ids) id))
                      (split_summary_ids mine));
                seq = seq;
                loc = loc;
              })
              (insert_pending mine m).docs;
      },
      others,
    )
unfolding commit_doc
commit_doc_entered meta seq loc m others mine absent n o = rw (
  absent,
  filter-NoneOf meta.doc_id others mine n o,
  filter_not-NoneOf meta.doc_id others mine n o,
)

-- A tombstone drops no entity of other documents.
pub keep-NoneOf :
    (d : ℕ) (others : List Pending)
    → NoneOf d others
    → filter_by (λ p. not (belongs_to d p)) others ≡ others
keep-NoneOf d others n =
    subst (λ l. filter_by (λ p. not (belongs_to d p)) l ≡ others) (append-nil others)
      (filter_not-NoneOf d others [] n tt)

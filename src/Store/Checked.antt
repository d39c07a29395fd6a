-- ===== src/Store/Checked.antt =====
-- embedding-store/src/store.rs: what `validate` checks, and what it returns.
use embedding_processing_rs.Base.{
  ℕ, ◌≡◌, refl, sym, ◌∙◌, subst, List, [], ◌∷◌, ◌++◌, append-nil, append_assoc, contains, All,
  Result, ok, err, ◌>>=◌, ◌>>◌, >>=-assoc, >>=-congr, >>=-eq-ok, Option, if◌then◌else◌, Bool-cases,
  inl, inr,
}
use embedding_processing_rs.Errors.{Error, Entity, a_split, a_summary}
use embedding_processing_rs.Dto.{EmbeddingDto, SummaryDto, SplitDto, DocumentDto}
use embedding_processing_rs.Store.Types.{StoreOptions}
use embedding_processing_rs.Store.Validate.{
  check_embedding, Validated, note_summary, validate_summaries, validate_splits, flatten_summaries,
  validate,
}

-- Every embedding of a document, in the order of its own list, then split by split.
abbrev Embedded : Type 0
Embedded = Entity × ℕ × Option EmbeddingDto

abbrev of_summaries : List SummaryDto → List Embedded
of_summaries [] = []
of_summaries (s ∷ ss) = (a_summary, s.summary_id, s.embedding) ∷ of_summaries ss

abbrev of_splits : List SplitDto → List Embedded
of_splits [] = []
of_splits (s ∷ ss) = (a_split, s.split_id, s.embedding) ∷ (of_summaries s.summaries ++ of_splits ss)

abbrev pub embedded : DocumentDto → List Embedded
embedded doc = of_summaries (flatten_summaries doc.summaries) ++ of_splits doc.splits

-- The first failing check of a list decides.
abbrev pub check_each : StoreOptions → List Embedded → Result Error (Unit {0})
check_each opts [] = ok tt
check_each opts ((what, id, e) ∷ es) = check_embedding opts what id e >> check_each opts es

-- Every summary of a document, with repetitions.
abbrev split_summaries : List SplitDto → List SummaryDto
split_summaries [] = []
split_summaries (s ∷ ss) = s.summaries ++ split_summaries ss

abbrev pub all_summaries : DocumentDto → List SummaryDto
all_summaries doc = flatten_summaries doc.summaries ++ split_summaries doc.splits

-- The summaries whose id no earlier one has.
abbrev pub first_of_each : List ℕ → List SummaryDto → List SummaryDto
first_of_each seen [] = []
first_of_each seen (s ∷ ss) =
    if contains seen s.summary_id
    then first_of_each seen ss
    else s ∷ first_of_each (s.summary_id ∷ seen) ss

note_all : List SummaryDto → Validated → Validated
note_all [] v = v
note_all (s ∷ ss) v = note_all ss (note_summary s v)

note_all-append :
    (ss ts : List SummaryDto) (v : Validated) → note_all (ss ++ ts) v ≡ note_all ts (note_all ss v)
unfolding note_all
note_all-append [] ts v = refl
note_all-append (s ∷ ss) ts v = note_all-append ss ts (note_summary s v)

noted :
    (s : SummaryDto) (ss : List SummaryDto) (v : Validated)
    → (note_summary s v).distinct ++ first_of_each (note_summary s v).seen ss
      ≡ v.distinct ++ first_of_each v.seen (s ∷ ss)
noted s ss v = elim (Bool-cases (contains v.seen s.summary_id)) [
  | inl e ↦ rw e
  | inr e ↦ rw e (append_assoc v.distinct (s ∷ []) (first_of_each (s.summary_id ∷ v.seen) ss))
]

note_all-distinct :
    (ss : List SummaryDto) (v : Validated)
    → (note_all ss v).distinct ≡ v.distinct ++ first_of_each v.seen ss
unfolding note_all
note_all-distinct [] v = sym (append-nil v.distinct)
note_all-distinct (s ∷ ss) v = note_all-distinct ss (note_summary s v) ∙ noted s ss v

check_each-append :
    (opts : StoreOptions) (es fs : List Embedded)
    → check_each opts (es ++ fs) ≡ (check_each opts es >> check_each opts fs)
check_each-append opts [] fs = refl
check_each-append opts ((what, id, e) ∷ es) fs =
    >>=-congr (check_embedding opts what id e) (λ _. check_each-append opts es fs)
    ∙ sym (
        >>=-assoc (check_embedding opts what id e) (λ _. check_each opts es)
          (λ _. check_each opts fs))

validate_summaries-checks :
    (opts : StoreOptions) (ss : List SummaryDto) (v : Validated)
    → validate_summaries opts ss v ≡ (check_each opts (of_summaries ss) >> ok (note_all ss v))
unfolding validate_summaries note_all
validate_summaries-checks opts [] v = refl
validate_summaries-checks opts (s ∷ ss) v =
    >>=-congr (check_embedding opts a_summary s.summary_id s.embedding)
      (λ _. validate_summaries-checks opts ss (note_summary s v))
    ∙ sym (
        >>=-assoc (check_embedding opts a_summary s.summary_id s.embedding)
          (λ _. check_each opts (of_summaries ss)) (λ _. ok (note_all ss (note_summary s v))))

validate_splits-checks :
    (opts : StoreOptions) (ss : List SplitDto) (v : Validated)
    → validate_splits opts ss v
      ≡ (check_each opts (of_splits ss) >> ok (note_all (split_summaries ss) v))
unfolding validate_splits note_all
validate_splits-checks opts [] v = refl
validate_splits-checks opts (s ∷ ss) v =
    >>=-congr (check_embedding opts a_split s.split_id s.embedding) (λ _.
      behind (validate_splits-checks opts ss (note_all s.summaries v))
        (check_each opts (of_summaries s.summaries)) refl)
    ∙ sym (
        >>=-assoc (check_embedding opts a_split s.split_id s.embedding)
          (λ _. check_each opts (of_summaries s.summaries ++ of_splits ss))
          (λ _. ok (note_all (s.summaries ++ split_summaries ss) v)))
  where
    behind :
        (validate_splits opts ss (note_all s.summaries v) ≡ (
          check_each opts (of_splits ss)
          >> ok (note_all (split_summaries ss) (note_all s.summaries v))))
        → (r : Result Error (Unit {0})) → r ≡ check_each opts (of_summaries s.summaries)
        → (validate_summaries opts s.summaries v >>= validate_splits opts ss) ≡ (
            check_each opts (of_summaries s.summaries ++ of_splits ss)
            >> ok (note_all (s.summaries ++ split_summaries ss) v))
    behind rest (ok u) e =
        rw
          (
            validate_summaries-checks opts s.summaries v,
            check_each-append opts (of_summaries s.summaries) (of_splits ss),
            ← e,
            note_all-append s.summaries (split_summaries ss) v,
          )
          rest
    behind rest (err x) e = rw (
      validate_summaries-checks opts s.summaries v,
      check_each-append opts (of_summaries s.summaries) (of_splits ss),
      ← e,
    )

abbrev nothing_seen : Validated
nothing_seen = record { seen = []; distinct = [] }

-- `validate` fails with the first failing check, in the order of the document's own summaries, then
-- each split and its summaries; where no check fails it returns the first summary with each id.
pub validate_lem :
    (opts : StoreOptions) (doc : DocumentDto)
    → validate opts doc
      ≡ (check_each opts (embedded doc) >> ok (first_of_each [] (all_summaries doc)))
unfolding validate
validate_lem opts doc =
    behind (check_each opts (of_summaries (flatten_summaries doc.summaries))) refl
  where
    behind :
        (r : Result Error (Unit {0}))
        → r ≡ check_each opts (of_summaries (flatten_summaries doc.summaries))
        → (validate_summaries opts (flatten_summaries doc.summaries) nothing_seen >>= λ v.
            validate_splits opts doc.splits v >>= λ w. ok w.distinct)
          ≡ (check_each opts
                (of_summaries (flatten_summaries doc.summaries) ++ of_splits doc.splits)
              >> ok (
                  first_of_each []
                    ((flatten_summaries doc.summaries) ++ split_summaries doc.splits)))
    behind (ok u) e = rw (
      validate_summaries-checks opts (flatten_summaries doc.summaries) nothing_seen,
      check_each-append opts (of_summaries (flatten_summaries doc.summaries))
          (of_splits doc.splits),
      ← e,
      validate_splits-checks opts doc.splits
          (note_all (flatten_summaries doc.summaries) nothing_seen),
      ← note_all-append (flatten_summaries doc.summaries) (split_summaries doc.splits) nothing_seen,
      >>=-assoc (check_each opts (of_splits doc.splits))
          (λ _. ok (
            note_all ((flatten_summaries doc.summaries) ++ split_summaries doc.splits)
              nothing_seen))
          (λ w. ok w.distinct),
      note_all-distinct ((flatten_summaries doc.summaries) ++ split_summaries doc.splits)
          nothing_seen,
    )
    behind (err x) e = rw (
      validate_summaries-checks opts (flatten_summaries doc.summaries) nothing_seen,
      check_each-append opts (of_summaries (flatten_summaries doc.summaries))
          (of_splits doc.splits),
      ← e,
    )

-- What holds of every summary of the document holds of every one that `validate` returns.
All-first_of_each :
    (P : SummaryDto → Type 0) (seen : List ℕ) (ss : List SummaryDto)
    → All P ss
    → All P (first_of_each seen ss)
All-first_of_each P seen [] h = tt
All-first_of_each P seen (s ∷ ss) h = elim (Bool-cases (contains seen s.summary_id)) [
  | inl e ↦ rw e (All-first_of_each P seen ss h.1)
  | inr e ↦ rw e (h.0, All-first_of_each P (s.summary_id ∷ seen) ss h.1)
]

pub validate-All :
    (P : SummaryDto → Type 0) (opts : StoreOptions) (doc : DocumentDto) (ss : List SummaryDto)
    → validate opts doc ≡ ok ss
    → All P (all_summaries doc)
    → All P ss
validate-All P opts doc ss h every =
    let (u, e, e') =
      >>=-eq-ok (check_each opts (embedded doc)) _ (sym (validate_lem opts doc) ∙ h) in
    subst (All P) (cc e') (All-first_of_each P [] (all_summaries doc) every)

-- ===== src/Store/Validate.antt =====
-- embedding-store/src/store.rs: `validate`, which runs before anything is written.
use embedding_processing_rs.Base.{
  ℕ, not, Option, none, some, List, [], ◌∷◌, ◌++◌, ◌==◌, length, contains, Result, ok, err, ◌>>=◌,
  ◌>>◌, if◌then◌else◌,
}
use embedding_processing_rs.Errors.{
  Error, Entity, a_split, a_summary, no_embedding, wrong_dimensions, wrong_model,
}
use embedding_processing_rs.Dto.{EmbeddingDto, SummaryDto, SplitDto, DocumentDto}
use embedding_processing_rs.Store.Types.{StoreOptions}

unfoldable pub check_embedding :
    StoreOptions → Entity → ℕ → Option EmbeddingDto → Result Error (Unit {0})
check_embedding opts what id none = err (no_embedding what id)
check_embedding opts what id (some e) =
    if not (length e.embedding == opts.n_embd)
    then err (wrong_dimensions what id (length e.embedding) opts.n_embd)
    else if not (e.model_id == opts.model_id)
    then err (wrong_model what id e.model_id opts.model_id)
    else ok tt

-- `seen` and `distinct` of the loops of `validate`.
pub record Validated : Type 0 where
  pub seen : List ℕ
  pub distinct : List SummaryDto

abbrev pub note_summary : SummaryDto → Validated → Validated
note_summary s v =
    if contains v.seen s.summary_id
    then v
    else record { seen = s.summary_id ∷ v.seen; distinct = v.distinct ++ (s ∷ []) }

unfoldable pub validate_summaries :
    StoreOptions → List SummaryDto → Validated → Result Error Validated
validate_summaries opts [] v = ok v
validate_summaries opts (s ∷ ss) v = do
  check_embedding opts a_summary s.summary_id s.embedding
  validate_summaries opts ss (note_summary s v)

unfoldable pub validate_splits : StoreOptions → List SplitDto → Validated → Result Error Validated
validate_splits opts [] v = ok v
validate_splits opts (s ∷ ss) v = do
  check_embedding opts a_split s.split_id s.embedding
  w ← validate_summaries opts s.summaries v
  validate_splits opts ss w

-- `doc.summaries.iter().flatten()`
abbrev pub flatten_summaries : Option (List SummaryDto) → List SummaryDto
flatten_summaries none = []
flatten_summaries (some ss) = ss

-- The distinct summaries, the document's own list first, once every embedding is checked.
unfoldable pub validate : StoreOptions → DocumentDto → Result Error (List SummaryDto)
validate opts doc = do
  v ←
      validate_summaries opts (flatten_summaries doc.summaries)
        (record { seen = []; distinct = [] })
  w ← validate_splits opts doc.splits v
  ok w.distinct

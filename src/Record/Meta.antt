-- ===== src/Record/Meta.antt =====
-- embedding-store/src/record.rs: the metadata of each record kind. A text is the list of its UTF-8
-- bytes, an f32 is its bit pattern, and an i32 is its bit pattern.
use embedding_processing_rs.Base.{ℕ, Option, List}

pub record DocMeta : Type 0 where
  pub doc_id : ℕ
  pub url : List ℕ
  pub split_ids : List ℕ
  pub summary_ids : Option (List ℕ)

pub record SplitMeta : Type 0 where
  pub split_id : ℕ
  pub seq_id : ℕ
  pub doc_id : ℕ
  pub token_len : ℕ
  pub text : List ℕ
  pub summary_ids : List ℕ
  pub model_id : ℕ

pub record SummaryMeta : Type 0 where
  pub summary_id : ℕ
  pub doc_id : ℕ
  pub split_id : ℕ
  pub split_seq_id : ℕ
  pub token_len : ℕ
  pub centrality : ℕ
  pub text : List ℕ
  pub model_id : ℕ

pub record DeleteMeta : Type 0 where
  pub doc_id : ℕ

-- ===== src/Dto.antt =====
-- embedding-common/src/dtos and services/rerank_types.rs: the documents that are stored. A text is
-- the list of its UTF-8 bytes, an f32 and an i32 are their bit patterns.
use embedding_processing_rs.Base.{ℕ, Option, List}

pub record EmbeddingDto : Type 0 where
  pub embedding_id : ℕ
  pub embedding : List ℕ
  pub model_id : ℕ

pub record Rank : Type 0 where
  pub index : ℕ
  pub rank : Option ℕ
  pub score : Option ℕ
  pub text : Option (List ℕ)

pub record SummaryDto : Type 0 where
  pub summary_id : ℕ
  pub document_id : ℕ
  pub split_id : ℕ
  pub split_sequence_id : ℕ
  pub text_content : List ℕ
  pub token_len : ℕ
  pub centrality : ℕ
  pub embedding : Option EmbeddingDto
  pub query_distance : Option ℕ
  pub rank : Option Rank

pub record SplitDto : Type 0 where
  pub split_id : ℕ
  pub sequence_id : ℕ
  pub doc_id : ℕ
  pub text_content : List ℕ
  pub token_len : ℕ
  pub summaries : List SummaryDto
  pub embedding : Option EmbeddingDto
  pub query_distance : Option ℕ
  pub rank : Option Rank

pub record DocumentDto : Type 0 where
  pub document_id : ℕ
  pub document_url : List ℕ
  pub splits : List SplitDto
  pub summaries : Option (List SummaryDto)

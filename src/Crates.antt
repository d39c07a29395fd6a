-- ===== src/Crates.antt =====
-- The functions of other crates that the store calls: `crc32fast::hash`, `rmp_serde::to_vec_named`
-- and `rmp_serde::from_slice` at the four kinds of metadata, and the conversions of `half`.
-- They are parameters; `IsFaithful` says what the store relies on.
use embedding_processing_rs.Base.{ℕ, ◌<◌, ◌^◌, ◌≡◌, Option, some, List, IsU32}
use embedding_processing_rs.Record.{DocMeta, SplitMeta, SummaryMeta, DeleteMeta}

-- MessagePack at one type; `none` is an error.
pub record Serde (A : Type 0) : Type 0 where
  pub to_vec : A → Option (List ℕ)
  pub from_slice : List ℕ → Option A

pub record Crates : Type 0 where
  pub crc32 : List ℕ → ℕ
  pub doc : Serde DocMeta
  pub split : Serde SplitMeta
  pub summary : Serde SummaryMeta
  pub delete : Serde DeleteMeta
  pub to_half : ℕ → ℕ
  pub from_half : ℕ → ℕ

-- What is written is read back.
abbrev pub RoundTrips : {A : Type 0} → Serde A → Type 0
RoundTrips {A} s = (a : A) (bytes : List ℕ) → s.to_vec a ≡ some bytes → s.from_slice bytes ≡ some a

pub record IsFaithful (c : Crates) : Type 0 where
  pub crc_u32 : (bytes : List ℕ) → IsU32 (c.crc32 bytes)
  pub half_u16 : (x : ℕ) → c.to_half x < 2 ^ 16
  pub doc_trips : RoundTrips c.doc
  pub split_trips : RoundTrips c.split
  pub summary_trips : RoundTrips c.summary
  pub delete_trips : RoundTrips c.delete

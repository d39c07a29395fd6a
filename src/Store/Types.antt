-- ===== src/Store/Types.antt =====
-- embedding-store/src/store.rs: the state of a store.
-- `files` holds the bytes of the segment files other than the active one, `stored` the manifest file
-- and `snapshot` the bytes of `meta.snap`. Sequence numbers, segment ids and byte counts grow by one or by a length; they are taken as
-- plain numbers, without the bound of a u64 or u32.
use embedding_processing_rs.Base.{ℕ, ◌*◌, Bool, Option, List}
use embedding_processing_rs.HashMap.{HashMap}
use embedding_processing_rs.Record.{VectorDtype}
use embedding_processing_rs.Maps.{Loc, DocEntry, Maps}
use embedding_processing_rs.Manifest.{Manifest}
use embedding_processing_rs.Segment.{ActiveSegment}
use embedding_processing_rs.Dto.{SummaryDto, SplitDto}

pub record StoreOptions : Type 0 where
  pub model_id : ℕ
  pub n_embd : ℕ
  pub dtype : VectorDtype
  pub segment_max_bytes : ℕ

-- `StoreOptions::new`
abbrev pub new_options : ℕ → ℕ → StoreOptions
new_options model_id n_embd = record {
  model_id = model_id;
  n_embd = n_embd;
  dtype = VectorDtype.f16;
  segment_max_bytes = 256 * 1024 * 1024;
}

pub record Replaced : Type 0 where
  pub existed : Bool
  pub split_ids : List ℕ
  pub summary_ids : List ℕ

pub record Store : Type 0 where
  pub opts : StoreOptions
  pub manifest : Manifest
  pub sealed : HashMap (List ℕ)
  pub active : ActiveSegment
  pub maps : Maps
  pub pending_tombstone_bytes : ℕ
  pub files : HashMap (List ℕ)
  pub stored : Option Manifest
  pub snapshot : Option (List ℕ)

-- A summary with the location of its record, and a split with that of its.
abbrev pub Placed : Type 0 → Type 0
Placed A = A × Loc

pub record Appended : Type 0 where
  pub replaces : Bool
  pub summaries : List (Placed SummaryDto)
  pub splits : List (Placed SplitDto)
  pub doc_entry : DocEntry

-- ===== src/Errors.antt =====
-- The errors of embedding-store, one constructor for each message, without its text.
use embedding_processing_rs.Base.{ℕ}
use embedding_processing_rs.Record.{DecodeError}
use embedding_processing_rs.Maps.{Loc}

-- The first word of the messages of `validate`.
pub data Entity : Type 0 where
  a_split a_summary : Entity

pub data Error : Type 0 where
  corrupt : ℕ → ℕ → DecodeError → Error
  bad_meta : Error
  no_embedding : Entity → ℕ → Error
  wrong_dimensions : Entity → ℕ → ℕ → ℕ → Error
  wrong_model : Entity → ℕ → ℕ → ℕ → Error
  -- The operating system refused to write, to sync, to cut or to open a file.
  io : Error
  -- An error, and the one met while the segment was rewound.
  not_rewound : Error → ℕ → Error → Error
  -- start, end, segment, bytes of the segment
  past_end : ℕ → ℕ → ℕ → ℕ → Error
  segment_not_open : ℕ → Error
  -- id, bytes of the record, bytes of the vector
  record_too_short : ℕ → ℕ → ℕ → Error
  -- The record of this id does not decode.
  unreadable : ℕ → DecodeError → Error
  -- version found
  newer_manifest : ℕ → Error
  -- what the manifest says, what the options say
  other_model other_dimensions other_dtype : ℕ → ℕ → Error
  -- usearch refused.
  index_failed : Error
  -- dimensions or bytes of the index, those of the vector, key
  wrong_size : ℕ → ℕ → ℕ → Error
  -- the key to index, the id of the record
  no_vector_to_index record_without_vector : ℕ → Error
  -- The log moved from this sequence number to that one during a snapshot.
  log_moved : ℕ → ℕ → Error
  -- The segment that a compaction would write has bytes already.
  segment_in_use : ℕ → Error
  -- A compaction read a record that does not decode.
  bad_record : Loc → DecodeError → Error
  -- An `expect` or `unwrap` that failed.
  panicked : Error
  -- The model's own: a loop ran out of fuel.
  out_of_fuel : Error

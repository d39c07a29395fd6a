-- ===== src/Examples/Rejections.antt =====
-- A document whose split is not encoded: its summary is written, and taken back.
use embedding_processing_rs.Base.{◌≡◌, refl, none, [], ◌∷◌, err, to_le_bytes}
use embedding_processing_rs.Base.Action.{◌>>=◌, ◌>>◌}
use embedding_processing_rs.HashMap
use embedding_processing_rs.Record.{encode, encode_vector}
use embedding_processing_rs.Errors.{bad_meta}
use embedding_processing_rs.Crates.{Crates}
use embedding_processing_rs.Segment
use embedding_processing_rs.Store.Types.{Store}
use embedding_processing_rs.Store.Write.{
  append, append_each, append_summary, append_summaries, append_split, append_splits, append_doc,
  append_document, append_or_rewind, next_seq, rewind,
}
use embedding_processing_rs.Store.Rewound.{Rejected, append_or_rewind-Rejected}
use embedding_processing_rs.Examples.Codecs.{plain_crates}
use embedding_processing_rs.Examples.Runs.{
  big_disk, empty_store, the_summary, the_document, empty_store-IsSegment,
}

-- The encoder fails at every split.
abbrev no_splits : Crates
no_splits = record plain_crates { split = record (plain_crates.split) { to_vec = λ meta. none } }

abbrev rejected_store : Store
rejected_store = (append_or_rewind no_splits big_disk the_document (the_summary ∷ []) empty_store).1

rejected-err :
    append_or_rewind no_splits big_disk the_document (the_summary ∷ []) empty_store
    ≡ (err bad_meta, rejected_store)
unfolding append append_each append_summary append_summaries append_split append_splits append_doc
    append_document append_or_rewind next_seq rewind HashMap.get Segment.append Segment.write_all
    Segment.make_room Segment.buffer_or_write Segment.truncate_to Segment.flush Segment.flush_buf
    Segment.set_len ◌>>=◌ ◌>>◌ encode encode_vector to_le_bytes
rejected-err = refl

append_or_rewind-Rejected_example : Rejected no_splits big_disk empty_store bad_meta rejected_store
append_or_rewind-Rejected_example =
    append_or_rewind-Rejected no_splits big_disk the_document (the_summary ∷ []) empty_store
      rejected_store bad_meta rejected-err empty_store-IsSegment

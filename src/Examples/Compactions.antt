-- ===== src/Examples/Compactions.antt =====
-- embedding-store/src/compact.rs: a store with one sealed segment is compacted.
use embedding_processing_rs.Base.{
  ℕ, ◌≡◌, ◌≢◌, refl, Bool, true, false, none, some, List, [], ◌∷◌, ◌++◌, arith, ok, err,
  to_le_bytes, from_le_bytes,
}
use embedding_processing_rs.Base.Action.{◌>>=◌, ◌>>◌}
use embedding_processing_rs.HashMap
use embedding_processing_rs.Record.{Frame, RecordKind, no_vector, encode, decode, decode_frame}
use embedding_processing_rs.Record.Encode.{encode_frame}
use embedding_processing_rs.Manifest.{Manifest, segment_ids}
use embedding_processing_rs.Errors.{io}
use embedding_processing_rs.Segment
use embedding_processing_rs.Segment.{Disk, open_segment}
use embedding_processing_rs.Store.Types.{Store}
use embedding_processing_rs.Store.Read.{read_record}
use embedding_processing_rs.Store.Seal.{store_manifest, seal_old}
use embedding_processing_rs.Store.Open.{open_store, snapshot_meta, store_snapshot}
use embedding_processing_rs.Store.Files.{directory_of}
use embedding_processing_rs.Compact.{
  compact, compact_into, copy_into, finish_copy, seal_copy, swap, open_writer, remove_meta_snapshot,
  remove_file, relocate_all, copy_entry, copy_record, place_id,
}
use embedding_processing_rs.Compact.Keeping.{IsCompactable, IsGrouped, Keeps}
use embedding_processing_rs.Compact.Kept.{compact-Keeps}
use embedding_processing_rs.Compact.Stranded.{compact-Stranded}
use embedding_processing_rs.Examples.Codecs.{plain_crates}
use embedding_processing_rs.Examples.Runs.{big_disk, plain_options, empty_store}
use embedding_processing_rs.Examples.Witnesses.{split_record}

abbrev doc_record : Frame
doc_record = record {
  seq = 5;
  kind = RecordKind.doc;
  dtype = no_vector;
  meta = 10 ∷ 0 ∷ 1 ∷ 104 ∷ 20 ∷ [];
  vector = [];
}

abbrev old_bytes : List ℕ
old_bytes =
    0
    ∷ 0
    ∷ (encode_frame plain_crates.crc32 split_record ++ encode_frame plain_crates.crc32 doc_record)

abbrev pub old_store : Store
old_store = record empty_store {
  manifest = record (empty_store.manifest) {
    sealed = record { id = 0; bytes = 63; first_seq = 4; last_seq = 5 } ∷ [];
    active = 1;
    next_segment_id = 2;
    next_seq = 6;
  };
  sealed = (0, old_bytes) ∷ [];
  active = open_segment 1 [];
  maps = record {
    docs =
        (
          10,
          record {
            url = 104 ∷ [];
            split_ids = 20 ∷ [];
            summary_ids = none;
            extra_summary_ids = [];
            seq = 5;
            loc = record { segment = 0; offset = 36; len = 27 };
          },
        )
        ∷ [];
    splits = (20, record { doc_id = 10; loc = record { segment = 0; offset = 2; len = 34 } }) ∷ [];
    summaries = [];
  };
  files = (0, old_bytes) ∷ [];
}

abbrev any_text : List ℕ → Bool
any_text _ = true

abbrev compacted_store : Store
compacted_store = (compact big_disk plain_crates any_text old_store).1

compacted-ok : compact big_disk plain_crates any_text old_store ≡ (ok tt, compacted_store)
unfolding compact compact_into copy_into finish_copy seal_copy swap open_writer remove_meta_snapshot
    remove_file relocate_all copy_entry copy_record place_id read_record Segment.sealed_slice
    Segment.append Segment.write_all Segment.make_room Segment.buffer_or_write Segment.flush
    Segment.flush_buf Segment.sync Segment.sync_data seal_old store_manifest snapshot_meta
    store_snapshot segment_ids encode decode decode_frame to_le_bytes from_le_bytes HashMap.get
    HashMap.insert HashMap.remove ◌>>=◌ ◌>>◌
compacted-ok = refl

old_store-IsGrouped : IsGrouped old_store
unfolding HashMap.get
old_store-IsGrouped = record {
  splits = λ k e found sealed. (10, _, refl, refl, ground (arith, found));
  summaries = λ k e found sealed. absurd (ground (arith, found));
}

old_store-IsCompactable : IsCompactable old_store
unfolding HashMap.get
old_store-IsCompactable = record {
  active = record { len_log = refl; flushed = λ _. refl };
  below = omega arith;
  grouped = old_store-IsGrouped;
  short = record {
    docs = λ k e found. ground (arith, found);
    splits = λ k e found. ground (arith, found);
    summaries = λ k e found. absurd (ground (arith, found));
  };
}

compact-Keeps_example : Keeps old_store compacted_store
compact-Keeps_example =
    compact-Keeps plain_crates big_disk any_text old_store compacted_store compacted-ok
      old_store-IsCompactable

-- A disk with no room for the snapshot.
abbrev full_disk : Disk
full_disk = record big_disk { can_store_snapshot = false }

abbrev stranded_store : Store
stranded_store = (compact full_disk plain_crates any_text old_store).1

abbrev new_manifest_2 : Manifest
new_manifest_2 = record (old_store.manifest) {
  sealed = record { id = 2; bytes = 61; first_seq = 4; last_seq = 5 } ∷ [];
  next_segment_id = 3;
}

stranded-run :
    (compact full_disk plain_crates any_text old_store ≡ (err io, stranded_store))
    × (stranded_store.stored ≡ some new_manifest_2)
    × (stranded_store.active.id ≡ 1)
unfolding compact compact_into copy_into finish_copy seal_copy swap open_writer remove_meta_snapshot
    remove_file relocate_all copy_entry copy_record place_id read_record Segment.sealed_slice
    Segment.append Segment.write_all Segment.make_room Segment.buffer_or_write Segment.flush
    Segment.flush_buf Segment.sync Segment.sync_data seal_old store_manifest snapshot_meta
    store_snapshot segment_ids encode decode decode_frame to_le_bytes from_le_bytes HashMap.get
    HashMap.insert HashMap.remove ◌>>=◌ ◌>>◌
stranded-run = (refl, refl, refl)

compact-Stranded_example :
    open_store big_disk plain_crates any_text plain_options (directory_of stranded_store)
    ≢ (ok empty_store, directory_of empty_store)
unfolding segment_ids
compact-Stranded_example =
    compact-Stranded plain_crates full_disk big_disk any_text old_store stranded_store io
      new_manifest_2 plain_options empty_store (directory_of empty_store) stranded-run.0
      stranded-run.1 refl refl (omega (arith, stranded-run.2))

-- ===== src/Examples/Overtaken.antt =====
-- embedding-store/src/shard.rs: a shard that was saved, written to and compacted.
use embedding_processing_rs.Base.{
  ◌≡◌, refl, true, false, some, [], ◌∷◌, arith, ok, to_le_bytes, from_le_bytes,
}
use embedding_processing_rs.Base.Action.{◌>>=◌, ◌>>◌}
use embedding_processing_rs.HashMap
use embedding_processing_rs.Manifest.{sealed_bytes, segment_ids}
use embedding_processing_rs.Record.{encode, decode, decode_frame}
use embedding_processing_rs.Segment
use embedding_processing_rs.Store.Read.{read_record}
use embedding_processing_rs.Store.Seal.{fsync, store_manifest, seal_old}
use embedding_processing_rs.Store.Open.{snapshot_meta, store_snapshot}
use embedding_processing_rs.Compact.{
  compact, compact_into, copy_into, finish_copy, seal_copy, swap, open_writer, remove_meta_snapshot,
  remove_file, relocate_all, copy_entry, copy_record, place_id,
}
use embedding_processing_rs.Shard.{
  Shard, IndexState, promote, promote_index, snapshot, save_if_needed,
}
use embedding_processing_rs.Shard.InStep.{IsOvertaken}
use embedding_processing_rs.Shard.Compacting.{
  needs_compaction, compact_store_if_needed, rewrite_sealed, compact_if_needed,
}
use embedding_processing_rs.Shard.Overtaken.{SameFiles, compact_if_needed-Overtaken}
use embedding_processing_rs.Examples.Codecs.{plain_crates}
use embedding_processing_rs.Examples.Runs.{big_disk}
use embedding_processing_rs.Examples.Shards.{Keys, key_usearch, all_files, any_text}
use embedding_processing_rs.Examples.Compactions.{old_store}

abbrev old_state : IndexState
old_state = record { version = 1; seq = 3; splits = 0; summaries = 0 }

-- The files are from before the split was inserted.
abbrev old_shard : Shard Keys
old_shard = record {
  store = old_store;
  splits = record { index = 20 ∷ []; dimensions = 2; viewed = false; file = some [] };
  summaries = record { index = []; dimensions = 2; viewed = false; file = some [] };
  state = some old_state;
}

abbrev overtaken_shard : Shard Keys
overtaken_shard =
    (compact_if_needed (λ dead all. true) plain_crates big_disk any_text key_usearch all_files
      old_shard).1

overtaken-run :
    (compact_if_needed
        (λ dead all. true)
        plain_crates
        big_disk
        any_text
        key_usearch
        all_files
        old_shard
      ≡ (ok true, overtaken_shard))
    × (overtaken_shard.store.manifest.next_seq ≡ 6)
unfolding compact_if_needed rewrite_sealed needs_compaction compact_store_if_needed sealed_bytes
    promote promote_index snapshot save_if_needed fsync compact compact_into copy_into finish_copy
    seal_copy swap open_writer remove_meta_snapshot remove_file relocate_all copy_entry copy_record
    place_id read_record Segment.sealed_slice Segment.append Segment.write_all Segment.make_room
    Segment.buffer_or_write Segment.flush Segment.flush_buf Segment.sync Segment.sync_data seal_old
    store_manifest snapshot_meta store_snapshot segment_ids encode decode decode_frame to_le_bytes
    from_le_bytes HashMap.get HashMap.insert HashMap.remove ◌>>=◌ ◌>>◌
overtaken-run = (refl, refl)

compact_if_needed-Overtaken_example :
    IsOvertaken overtaken_shard × SameFiles old_shard overtaken_shard
compact_if_needed-Overtaken_example =
    compact_if_needed-Overtaken key_usearch all_files plain_crates big_disk any_text
      (λ dead all. true) old_shard overtaken_shard old_state overtaken-run.0 refl refl
      (omega (arith, overtaken-run.1))

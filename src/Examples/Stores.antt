-- ===== src/Examples/Stores.antt =====
-- A store with small segments: a document is put into it, which seals its segment, and deleted, and
-- the store is opened again.
use embedding_processing_rs.Base.{
  ◌<◌, ◌≡◌, refl, true, false, Option, none, some, [], ◌∷◌, arith, ok, List, ℕ, to_le_bytes, Bool,
}
use embedding_processing_rs.Base.Action.{◌>>=◌, ◌>>◌}
use embedding_processing_rs.HashMap
use embedding_processing_rs.Record.{encode, encode_vector}
use embedding_processing_rs.Maps.{RemovedDoc, no_maps, remove_doc, remove_each, sweep_doc}
use embedding_processing_rs.Segment
use embedding_processing_rs.Segment.Log.{log}
use embedding_processing_rs.Replay.Records.{Replays-nil}
use embedding_processing_rs.Store.Types.{Store}
use embedding_processing_rs.Store.Write.{
  append_delete, remove_from_maps, account_removed, append, append_each, append_summary,
  append_summaries, append_split, append_splits, append_doc, append_document, append_or_rewind,
  next_seq, displace, enter_document, record_document, not_replaced,
}
use embedding_processing_rs.Store.Validate.{
  validate, validate_summaries, validate_splits, check_embedding,
}
use embedding_processing_rs.Store.Seal.{
  record_delete, insert, delete, delete_present, seal_if_needed, seal_active, seal_nonempty,
  claim_segment_id, replace_active, seal_old, store_manifest,
}
use embedding_processing_rs.Store.Opening.{choose_snapshot, check_manifest}
use embedding_processing_rs.Snapshot.File.{load}
use embedding_processing_rs.Store.Appends.{IsInRange}
use embedding_processing_rs.Store.Durable.{IsConsistent}
use embedding_processing_rs.Store.Whole.{IsWhole}
use embedding_processing_rs.Store.Sealing.{insert-IsWhole, delete-IsWhole}
use embedding_processing_rs.Store.Files.{IsWilling, directory_of}
use embedding_processing_rs.Store.Open.{Directory, open_store}
use embedding_processing_rs.Store.Reopened.{
  open_store-directory_of, reopened_sealed, reopened_active,
}
use embedding_processing_rs.Examples.Codecs.{plain_crates, plain_crates-IsFaithful}
use embedding_processing_rs.Examples.Runs.{
  big_disk, plain_options, empty_store, the_document, empty_store-IsSegment,
}

abbrev tiny_store : Store
tiny_store = record empty_store { opts = record plain_options { segment_max_bytes = 50 } }

tiny_store-IsWhole : IsWhole plain_crates no_maps tiny_store
tiny_store-IsWhole = record {
  base = no_maps;
  sealed = refl;
  active = record {
    frames = [];
    log_frames = refl;
    fits = tt;
    valid = empty_store-IsSegment;
    replays = Replays-nil plain_crates 0 0 0 no_maps [];
  };
  covered = λ _. refl;
  newer = omega arith;
  ids = record {
    others = tt;
    below = tt;
    active_below = omega arith;
    active = refl;
    unused = λ k _. HashMap.get-empty k;
  };
  stored = record { on_disk = tiny_store.manifest; stored = refl; agrees = refl; files = tt };
}

a_document-IsConsistent : IsConsistent the_document
a_document-IsConsistent = record { summaries = (refl, tt); splits = (refl, tt) }

abbrev inserted_store : Store
inserted_store = (insert plain_crates big_disk the_document tiny_store).1

inserted-ok :
    insert plain_crates big_disk the_document tiny_store ≡ (ok not_replaced, inserted_store)
unfolding record_document append append_each append_summary append_summaries append_split
    append_splits append_doc append_document append_or_rewind next_seq displace enter_document
    validate validate_summaries validate_splits check_embedding HashMap.get HashMap.insert
    Segment.append Segment.write_all Segment.make_room Segment.buffer_or_write ◌>>=◌ ◌>>◌ encode
    encode_vector to_le_bytes insert Segment.flush Segment.flush_buf Segment.sync Segment.sync_data
    seal_if_needed seal_active seal_nonempty claim_segment_id replace_active seal_old store_manifest
inserted-ok = refl

recorded-len : (record_document plain_crates big_disk the_document tiny_store).1.active.len ≡ 104
unfolding record_document append append_each append_summary append_summaries append_split
    append_splits append_doc append_document append_or_rewind next_seq displace enter_document
    validate validate_summaries validate_splits check_embedding HashMap.get HashMap.insert
    Segment.append Segment.write_all Segment.make_room Segment.buffer_or_write ◌>>=◌ ◌>>◌ encode
    encode_vector to_le_bytes
recorded-len = refl

recorded-next_seq :
    (record_document plain_crates big_disk the_document tiny_store).1.manifest.next_seq ≡ 4
unfolding record_document append append_each append_summary append_summaries append_split
    append_splits append_doc append_document append_or_rewind next_seq displace enter_document
    validate validate_summaries validate_splits check_embedding HashMap.get HashMap.insert
    Segment.append Segment.write_all Segment.make_room Segment.buffer_or_write ◌>>=◌ ◌>>◌ encode
    encode_vector to_le_bytes
recorded-next_seq = refl

recorded-IsInRange : IsInRange (record_document plain_crates big_disk the_document tiny_store).1
recorded-IsInRange = (omega (arith, recorded-len), omega (arith, recorded-next_seq))

insert-IsWhole_example :
    IsWhole plain_crates no_maps inserted_store × (inserted_store.active.buffer ≡ [])
insert-IsWhole_example =
    insert-IsWhole plain_crates big_disk no_maps plain_crates-IsFaithful the_document tiny_store
      inserted_store not_replaced inserted-ok a_document-IsConsistent recorded-IsInRange
      tiny_store-IsWhole

inserted_store-IsWhole :
    IsWhole plain_crates no_maps inserted_store × (inserted_store.active.buffer ≡ [])
inserted_store-IsWhole =
    insert-IsWhole plain_crates big_disk no_maps plain_crates-IsFaithful the_document tiny_store
      inserted_store not_replaced inserted-ok a_document-IsConsistent recorded-IsInRange
      tiny_store-IsWhole

abbrev emptied_store : Store
emptied_store = (delete plain_crates big_disk 10 inserted_store).1

abbrev removed_option : Option RemovedDoc
removed_option = some (record {
  entry = record {
    url = 104 ∷ [];
    split_ids = 20 ∷ [];
    summary_ids = none;
    extra_summary_ids = 30 ∷ [];
    seq = 3;
    loc = record { segment = 0; offset = 77; len = 27 };
  };
  split_ids = 20 ∷ [];
  summary_ids = 30 ∷ [];
  sealed_bytes = 104;
  active_bytes = 0;
})

emptied-ok : delete plain_crates big_disk 10 inserted_store ≡ (ok removed_option, emptied_store)
unfolding record_document append append_each append_summary append_summaries append_split
    append_splits append_doc append_document append_or_rewind next_seq displace enter_document
    validate validate_summaries validate_splits check_embedding HashMap.get HashMap.insert
    Segment.append Segment.write_all Segment.make_room Segment.buffer_or_write ◌>>=◌ ◌>>◌ encode
    encode_vector to_le_bytes insert Segment.flush Segment.flush_buf Segment.sync Segment.sync_data
    seal_if_needed seal_active seal_nonempty claim_segment_id replace_active seal_old store_manifest
    delete delete_present record_delete append_delete remove_from_maps account_removed remove_doc
    remove_each sweep_doc HashMap.remove
emptied-ok = refl

emptied-len : (record_delete plain_crates big_disk 10 inserted_store).1.active.len ≡ 23
unfolding record_document append append_each append_summary append_summaries append_split
    append_splits append_doc append_document append_or_rewind next_seq displace enter_document
    validate validate_summaries validate_splits check_embedding HashMap.get HashMap.insert
    Segment.append Segment.write_all Segment.make_room Segment.buffer_or_write ◌>>=◌ ◌>>◌ encode
    encode_vector to_le_bytes insert Segment.flush Segment.flush_buf Segment.sync Segment.sync_data
    seal_if_needed seal_active seal_nonempty claim_segment_id replace_active seal_old store_manifest
    delete delete_present record_delete append_delete remove_from_maps account_removed remove_doc
    remove_each sweep_doc HashMap.remove
emptied-len = refl

emptied-next_seq : (record_delete plain_crates big_disk 10 inserted_store).1.manifest.next_seq ≡ 5
unfolding record_document append append_each append_summary append_summaries append_split
    append_splits append_doc append_document append_or_rewind next_seq displace enter_document
    validate validate_summaries validate_splits check_embedding HashMap.get HashMap.insert
    Segment.append Segment.write_all Segment.make_room Segment.buffer_or_write ◌>>=◌ ◌>>◌ encode
    encode_vector to_le_bytes insert Segment.flush Segment.flush_buf Segment.sync Segment.sync_data
    seal_if_needed seal_active seal_nonempty claim_segment_id replace_active seal_old store_manifest
    delete delete_present record_delete append_delete remove_from_maps account_removed remove_doc
    remove_each sweep_doc HashMap.remove
emptied-next_seq = refl

delete-IsWhole_example :
    IsWhole plain_crates no_maps emptied_store × (emptied_store.active.buffer ≡ [])
delete-IsWhole_example =
    delete-IsWhole plain_crates big_disk no_maps plain_crates-IsFaithful 10 inserted_store
      emptied_store removed_option emptied-ok
      (omega (arith, emptied-len), omega (arith, emptied-next_seq)) inserted_store-IsWhole.0
      inserted_store-IsWhole.1

big_disk-IsWilling : IsWilling big_disk
big_disk-IsWilling = record { opens = λ id. refl; removes = λ id. refl }

all_text : List ℕ → Bool
all_text bytes = true

inserted-trusted :
    choose_snapshot
      (load plain_crates.crc32 all_text inserted_store.snapshot)
      inserted_store.manifest.snapshot_seq
      (reopened_sealed inserted_store)
      (reopened_active inserted_store)
    ≡ (false, (no_maps, inserted_store.manifest.snapshot_seq))
unfolding record_document append append_each append_summary append_summaries append_split
    append_splits append_doc append_document append_or_rewind next_seq displace enter_document
    validate validate_summaries validate_splits check_embedding HashMap.get HashMap.insert
    Segment.append Segment.write_all Segment.make_room Segment.buffer_or_write ◌>>=◌ ◌>>◌ encode
    encode_vector to_le_bytes insert Segment.flush Segment.flush_buf Segment.sync Segment.sync_data
    seal_if_needed seal_active seal_nonempty claim_segment_id replace_active seal_old store_manifest
    load
inserted-trusted = refl

inserted-checked : check_manifest inserted_store.opts inserted_store.manifest ≡ ok tt
unfolding record_document append append_each append_summary append_summaries append_split
    append_splits append_doc append_document append_or_rewind next_seq displace enter_document
    validate validate_summaries validate_splits check_embedding HashMap.get HashMap.insert
    Segment.append Segment.write_all Segment.make_room Segment.buffer_or_write ◌>>=◌ ◌>>◌ encode
    encode_vector to_le_bytes insert Segment.flush Segment.flush_buf Segment.sync Segment.sync_data
    seal_if_needed seal_active seal_nonempty claim_segment_id replace_active seal_old store_manifest
inserted-checked = refl

open_store-directory_of_example :
    (t : Store) × (d : Directory) × (open_store big_disk plain_crates all_text inserted_store.opts
        (directory_of inserted_store)
      ≡ (ok t, d))
    × (t.maps ≡ inserted_store.maps)
    × (log t.active ≡ log inserted_store.active)
    × (inserted_store.manifest.snapshot_seq < t.manifest.next_seq)
open_store-directory_of_example =
    open_store-directory_of plain_crates plain_crates-IsFaithful all_text big_disk
      big_disk-IsWilling no_maps inserted_store inserted_store-IsWhole.0 inserted_store-IsWhole.1
      inserted-checked inserted-trusted

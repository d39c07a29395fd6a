-- ===== src/Examples/Runs.antt =====
-- A store that a document is put into and taken from.
use embedding_processing_rs.Base.{
  ◌<◌, ◌≡◌, refl, true, Option, none, some, [], ◌∷◌, length, arith, ok, Result,
}
use embedding_processing_rs.Record.{f32}
use embedding_processing_rs.Maps.{RemovedDoc, no_maps, remove_doc, remove_each, sweep_doc}
use embedding_processing_rs.Segment.{Disk, ActiveSegment, open_segment}
use embedding_processing_rs.Segment.Log.{IsSegment}
use embedding_processing_rs.Manifest.{new_manifest}
use embedding_processing_rs.Dto.{EmbeddingDto, SummaryDto, SplitDto, DocumentDto}
use embedding_processing_rs.Errors.{Error}
use embedding_processing_rs.Store.Types.{Store, StoreOptions, Replaced}
use embedding_processing_rs.Store.Write.{
  append_delete, remove_from_maps, account_removed, append, append_each, append_summary,
  append_summaries, append_split, append_splits, append_doc, append_document, append_or_rewind,
  next_seq, displace, enter_document, record_document, not_replaced,
}
use embedding_processing_rs.Store.Validate.{
  validate, validate_summaries, validate_splits, check_embedding,
}
use embedding_processing_rs.Store.Seal.{record_delete}
use embedding_processing_rs.HashMap
use embedding_processing_rs.Segment
use embedding_processing_rs.Base.Action.{◌>>=◌, ◌>>◌}
use embedding_processing_rs.Record.{encode, encode_vector}
use embedding_processing_rs.Base.{to_le_bytes}
use embedding_processing_rs.Store.Appends.{IsInRange}
use embedding_processing_rs.Examples.Codecs.{plain_crates}

-- A disk that takes everything.
abbrev pub big_disk : Disk
big_disk = record {
  accepts = λ file bytes. length bytes;
  can_cut = λ file len. true;
  can_sync = λ file. true;
  can_open = λ id. true;
  can_store_manifest = true;
  can_sync_manifest = true;
  can_store_snapshot = true;
  can_sync_snapshot = true;
  can_remove = λ id. true;
  can_remove_snapshot = true;
}

abbrev pub plain_options : StoreOptions
plain_options = record { model_id = 5; n_embd = 2; dtype = f32; segment_max_bytes = 1000 }

abbrev pub empty_store : Store
empty_store = record {
  opts = plain_options;
  manifest = new_manifest 5 2 2;
  sealed = [];
  active = open_segment 0 [];
  maps = no_maps;
  pending_tombstone_bytes = 0;
  files = [];
  stored = some (new_manifest 5 2 2);
  snapshot = none;
}

abbrev a_vector : Option EmbeddingDto
a_vector = some (record { embedding_id = 1; embedding = 3 ∷ 4 ∷ []; model_id = 5 })

abbrev pub the_summary : SummaryDto
the_summary = record {
  summary_id = 30;
  document_id = 10;
  split_id = 20;
  split_sequence_id = 0;
  text_content = 97 ∷ [];
  token_len = 1;
  centrality = 0;
  embedding = a_vector;
  query_distance = none;
  rank = none;
}

abbrev the_split : SplitDto
the_split = record {
  split_id = 20;
  sequence_id = 0;
  doc_id = 10;
  text_content = 97 ∷ 98 ∷ [];
  token_len = 1;
  summaries = the_summary ∷ [];
  embedding = a_vector;
  query_distance = none;
  rank = none;
}

abbrev pub the_document : DocumentDto
the_document = record {
  document_id = 10;
  document_url = 104 ∷ [];
  splits = the_split ∷ [];
  summaries = none;
}

abbrev pub recorded : Result Error Replaced × Store
recorded = record_document plain_crates big_disk the_document empty_store

abbrev pub kept_store : Store
kept_store = recorded.1

pub recorded-ok :
    record_document plain_crates big_disk the_document empty_store ≡ (ok not_replaced, kept_store)
unfolding record_document append append_each append_summary append_summaries append_split
    append_splits append_doc append_document append_or_rewind next_seq displace enter_document
    validate validate_summaries validate_splits check_embedding HashMap.get HashMap.insert
    Segment.append Segment.write_all Segment.make_room Segment.buffer_or_write ◌>>=◌ ◌>>◌ encode
    encode_vector to_le_bytes
recorded-ok = refl

kept_store-len : kept_store.active.len ≡ 104
unfolding record_document append append_each append_summary append_summaries append_split
    append_splits append_doc append_document append_or_rewind next_seq displace enter_document
    validate validate_summaries validate_splits check_embedding HashMap.get HashMap.insert
    Segment.append Segment.write_all Segment.make_room Segment.buffer_or_write ◌>>=◌ ◌>>◌ encode
    encode_vector to_le_bytes
kept_store-len = refl

kept_store-next_seq : kept_store.manifest.next_seq ≡ 4
unfolding record_document append append_each append_summary append_summaries append_split
    append_splits append_doc append_document append_or_rewind next_seq displace enter_document
    validate validate_summaries validate_splits check_embedding HashMap.get HashMap.insert
    Segment.append Segment.write_all Segment.make_room Segment.buffer_or_write ◌>>=◌ ◌>>◌ encode
    encode_vector to_le_bytes
kept_store-next_seq = refl

pub kept_store-IsInRange : IsInRange kept_store
kept_store-IsInRange = (omega (arith, kept_store-len), omega (arith, kept_store-next_seq))

pub empty_store-IsSegment : IsSegment empty_store.active
empty_store-IsSegment = record { len_log = refl; flushed = λ _. refl }

pub kept_store-newer : 0 < kept_store.manifest.next_seq
kept_store-newer = omega (arith, kept_store-next_seq)

abbrev deleted : Result Error RemovedDoc × Store
deleted = record_delete plain_crates big_disk 10 kept_store

abbrev pub deleted_store : Store
deleted_store = deleted.1

abbrev pub removed_document : RemovedDoc
removed_document = record {
  entry = record {
    url = 104 ∷ [];
    split_ids = 20 ∷ [];
    summary_ids = none;
    extra_summary_ids = 30 ∷ [];
    seq = 3;
    loc = record { segment = 0; offset = 77; len = 27 };
  };
  split_ids = 20 ∷ [];
  summary_ids = 30 ∷ [];
  sealed_bytes = 0;
  active_bytes = 104;
}

pub deleted-ok :
    record_delete plain_crates big_disk 10 kept_store ≡ (ok removed_document, deleted_store)
unfolding record_document append append_each append_summary append_summaries append_split
    append_splits append_doc append_document append_or_rewind next_seq displace enter_document
    validate validate_summaries validate_splits check_embedding HashMap.get HashMap.insert
    Segment.append Segment.write_all Segment.make_room Segment.buffer_or_write ◌>>=◌ ◌>>◌ encode
    encode_vector to_le_bytes record_delete append_delete remove_from_maps account_removed
    remove_doc remove_each sweep_doc HashMap.remove
deleted-ok = refl

deleted_store-len : deleted_store.active.len ≡ 127
unfolding record_document append append_each append_summary append_summaries append_split
    append_splits append_doc append_document append_or_rewind next_seq displace enter_document
    validate validate_summaries validate_splits check_embedding HashMap.get HashMap.insert
    Segment.append Segment.write_all Segment.make_room Segment.buffer_or_write ◌>>=◌ ◌>>◌ encode
    encode_vector to_le_bytes record_delete append_delete remove_from_maps account_removed
    remove_doc remove_each sweep_doc HashMap.remove
deleted_store-len = refl

deleted_store-next_seq : deleted_store.manifest.next_seq ≡ 5
unfolding record_document append append_each append_summary append_summaries append_split
    append_splits append_doc append_document append_or_rewind next_seq displace enter_document
    validate validate_summaries validate_splits check_embedding HashMap.get HashMap.insert
    Segment.append Segment.write_all Segment.make_room Segment.buffer_or_write ◌>>=◌ ◌>>◌ encode
    encode_vector to_le_bytes record_delete append_delete remove_from_maps account_removed
    remove_doc remove_each sweep_doc HashMap.remove
deleted_store-next_seq = refl

pub deleted_store-IsInRange : IsInRange deleted_store
deleted_store-IsInRange = (omega (arith, deleted_store-len), omega (arith, deleted_store-next_seq))

abbrev pub short_segment : ActiveSegment
short_segment = open_segment 3 (9 ∷ [])

abbrev pub longer_segment : ActiveSegment
longer_segment = (Segment.append big_disk (1 ∷ 2 ∷ []) 7 short_segment).1

pub longer_segment-ok :
    Segment.append big_disk (1 ∷ 2 ∷ []) 7 short_segment ≡ (ok 1, longer_segment)
unfolding Segment.append Segment.write_all Segment.make_room Segment.buffer_or_write ◌>>=◌ ◌>>◌
longer_segment-ok = refl

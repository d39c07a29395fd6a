-- ===== src/Examples/Witnesses.antt =====
-- The theorems at concrete inputs.
use embedding_processing_rs.Base.{
  ap, sym, append-nil, ℕ, ◌+◌, ◌%◌, ◌^◌, ◌≤◌, ◌≡◌, ◌≢◌, refl, true, false, none, some, List, [],
  ◌∷◌, ◌++◌, length, arith, ok, err, drop, ◌>>=◌, ◌>>◌, to_le_bytes,
}
use embedding_processing_rs.HashMap
use embedding_processing_rs.HashMap.{HashMap}
use embedding_processing_rs.Record.{
  SplitMeta, Frame, RecordKind, truncated, no_vector, f16, encode, decode, encode_vector,
  decode_vector,
}
use embedding_processing_rs.Record.Encode.{encode_frame, view, Fits}
use embedding_processing_rs.Record.RoundTrip.{decode-encode, decode_cut}
use embedding_processing_rs.Record.Bounds.{decode_bounds}
use embedding_processing_rs.Record.Floats.{decode_vector-encode_vector}
use embedding_processing_rs.Maps.{Loc, Maps, DocEntry, RemovedDoc, no_maps, remove_doc, sweep_doc}
use embedding_processing_rs.Maps.Remove.{
  IsWellKeyed, live_bytes, remove_doc_lookups, remove_doc_bytes,
}
use embedding_processing_rs.Errors.{out_of_fuel}
use embedding_processing_rs.Segment.Log.{log, IsSegment, append-ok}
use embedding_processing_rs.Replay.{SegmentScan, scan_segment}
use embedding_processing_rs.Replay.Fuel.{scan_segment-ne-out_of_fuel}
use embedding_processing_rs.Replay.Frames.{encode_all, replay_frames}
use embedding_processing_rs.Replay.Torn.{scan_segment_whole, scan_segment_torn, start, outcome}
use embedding_processing_rs.Replay.Records.{Replays-nil}
use embedding_processing_rs.Snapshot.File.{load, store, MapsFit, load-store}
use embedding_processing_rs.Store.Read.{read_split}
use embedding_processing_rs.Store.ReadBack.{read_split-encode_vector}
use embedding_processing_rs.Record.{f32}
use embedding_processing_rs.Segment.{open_segment}
use embedding_processing_rs.Store.Types.{Store}
use embedding_processing_rs.Store.Validate.{validate}
use embedding_processing_rs.Store.Write.{not_replaced}
use embedding_processing_rs.Store.Checked.{
  validate_lem, check_each, embedded, first_of_each, all_summaries,
}
use embedding_processing_rs.Store.Durable.{IsConsistent}
use embedding_processing_rs.Store.History.{
  History, unchanged, inserted, deleted, scan_segment-History,
}
use embedding_processing_rs.Store.Reopen.{
  IsRecoverable, record_document-IsRecoverable, record_delete-IsRecoverable,
}
use embedding_processing_rs.Examples.Codecs.{plain_crates, plain_crates-IsFaithful}
use embedding_processing_rs.Examples.Runs.{
  big_disk, plain_options, empty_store, the_document, kept_store, recorded-ok, kept_store-IsInRange,
  empty_store-IsSegment, deleted_store, removed_document, deleted-ok, deleted_store-IsInRange,
  kept_store-newer, short_segment, longer_segment, longer_segment-ok,
}

abbrev tombstone : Frame
tombstone = record {
  seq = 1;
  kind = RecordKind.delete_doc;
  dtype = no_vector;
  meta = 10 ∷ [];
  vector = [];
}

tombstone-Fits : Fits tombstone
tombstone-Fits = record { seq_u64 = omega arith; size_u32 = omega arith }

decode-encode_example :
    decode plain_crates.crc32 (encode_frame plain_crates.crc32 tombstone ++ (9 ∷ []))
    ≡ ok (view tombstone)
decode-encode_example =
    decode-encode plain_crates.crc32 plain_crates-IsFaithful.crc_u32 tombstone tombstone-Fits
      (9 ∷ [])

-- The first five bytes of the tombstone.
abbrev some_bytes : List ℕ
some_bytes = 23 ∷ 0 ∷ 0 ∷ 0 ∷ 23 ∷ []

abbrev other_bytes : List ℕ
other_bytes = drop 5 (encode_frame plain_crates.crc32 tombstone)

tombstone_cut : encode_frame plain_crates.crc32 tombstone ≡ some_bytes ++ other_bytes
unfolding encode to_le_bytes
tombstone_cut = refl

decode_cut_example : decode plain_crates.crc32 some_bytes ≡ err (truncated 22 5)
decode_cut_example =
    decode_cut plain_crates.crc32 plain_crates-IsFaithful.crc_u32 tombstone tombstone-Fits
      some_bytes other_bytes tombstone_cut (omega arith)

decode_bounds_example :
    (22 ≤ (view tombstone).len)
    × ((view tombstone).len ≤ length (encode_frame plain_crates.crc32 tombstone ++ (9 ∷ [])))
    × (22 + length (view tombstone).meta + length (view tombstone).vector ≡ (view tombstone).len)
decode_bounds_example =
    decode_bounds plain_crates.crc32 (encode_frame plain_crates.crc32 tombstone ++ (9 ∷ []))
      (view tombstone) decode-encode_example

decode_vector-encode_vector_example :
    decode_vector (λ x. x) (encode_vector (λ x. x % 2 ^ 16) (70000 ∷ 2 ∷ []) f16) f16
    ≡ 4464 ∷ 2 ∷ []
decode_vector-encode_vector_example =
    decode_vector-encode_vector (λ x. x % 2 ^ 16) (λ x. x) f16 (70000 ∷ 2 ∷ []) (λ x. omega arith)
      (omega arith, (omega arith, tt))

abbrev at : ℕ → ℕ → Loc
at offset len = record { segment = 0; offset = offset; len = len }

abbrev kept_entry : DocEntry
kept_entry = record {
  url = [];
  split_ids = 20 ∷ [];
  summary_ids = none;
  extra_summary_ids = 30 ∷ [];
  seq = 3;
  loc = at 60 30;
}

abbrev some_maps : Maps
some_maps = record {
  docs = (10, kept_entry) ∷ [];
  splits =
      (20, record { doc_id = 10; loc = at 30 30 })
      ∷ (21, record { doc_id = 11; loc = at 90 30 })
      ∷ [];
  summaries = (30, record { doc_id = 10; split_id = 20; loc = at 0 30 }) ∷ [];
}

some_maps-IsWellKeyed : IsWellKeyed some_maps
unfolding HashMap.get
some_maps-IsWellKeyed = record {
  docs = (refl, tt);
  splits = (refl, (refl, tt));
  summaries = (refl, tt);
}

kept_entry-there : HashMap.get 10 some_maps.docs ≡ some kept_entry
unfolding HashMap.get
kept_entry-there = refl

remove_doc_lookups_example :
    (HashMap.get 21 (remove_doc 10 0 some_maps).1.docs ≡ HashMap.get 21 some_maps.docs)
    × (HashMap.get 21 (remove_doc 10 0 some_maps).1.splits ≡ HashMap.get 21 some_maps.splits)
    × (HashMap.get 21 (remove_doc 10 0 some_maps).1.summaries ≡ HashMap.get 21 some_maps.summaries)
remove_doc_lookups_example = remove_doc_lookups 10 0 some_maps kept_entry kept_entry-there 21

abbrev swept_maps : RemovedDoc × Maps
swept_maps = sweep_doc kept_entry 10 0 some_maps

remove_doc-found : remove_doc 10 0 some_maps ≡ (some swept_maps.0, swept_maps.1)
unfolding remove_doc HashMap.get
remove_doc-found = refl

remove_doc_bytes_example :
    live_bytes swept_maps.1 + swept_maps.0.sealed_bytes + swept_maps.0.active_bytes ≡ 120
remove_doc_bytes_example =
    remove_doc_bytes 10 0 some_maps swept_maps.1 swept_maps.0 some_maps-IsWellKeyed remove_doc-found

append-ok_example :
    (log longer_segment ≡ 9 ∷ 1 ∷ 2 ∷ [])
    × (1 ≡ short_segment.len)
    × (longer_segment.id ≡ 3)
    × (longer_segment.len ≡ 3)
    × IsSegment longer_segment
append-ok_example =
    append-ok big_disk (1 ∷ 2 ∷ []) 7 1 short_segment longer_segment longer_segment-ok
      (record { len_log = refl; flushed = λ _. refl })

scan_segment-ne-out_of_fuel_example :
    scan_segment plain_crates (1 ∷ 2 ∷ []) 0 0 no_maps true ≢ err out_of_fuel
scan_segment-ne-out_of_fuel_example =
    scan_segment-ne-out_of_fuel plain_crates 0 0 true (1 ∷ 2 ∷ []) no_maps

scan_segment_whole_example :
    scan_segment plain_crates (encode_all plain_crates.crc32 (tombstone ∷ [])) 0 0 no_maps false
    ≡ (replay_frames plain_crates 0 0 (tombstone ∷ []) 0 (start no_maps) >>= outcome)
scan_segment_whole_example =
    scan_segment_whole plain_crates plain_crates-IsFaithful.crc_u32 0 0 false no_maps
      (tombstone ∷ []) (tombstone-Fits, tt)

scan_segment_torn_example :
    scan_segment plain_crates
      (encode_all plain_crates.crc32 (tombstone ∷ []) ++ some_bytes)
      0
      0
      no_maps
      true
    ≡ (replay_frames plain_crates 0 0 (tombstone ∷ []) 0 (start no_maps) >>= λ s.
        ok (record (s.scan) { torn_at = some 23 }, s.maps))
scan_segment_torn_example =
    scan_segment_torn plain_crates plain_crates-IsFaithful.crc_u32 0 0 true no_maps (tombstone ∷ [])
      (tombstone-Fits, tt) tombstone tombstone-Fits 23 (0 ∷ 0 ∷ 0 ∷ 23 ∷ []) other_bytes
      tombstone_cut (omega arith)

validate_lem_example : validate plain_options the_document ≡ (
    check_each plain_options (embedded the_document)
    >> ok (first_of_each [] (all_summaries the_document)))
validate_lem_example = validate_lem plain_options the_document

the_document-IsConsistent : IsConsistent the_document
the_document-IsConsistent = record { summaries = (refl, tt); splits = (refl, tt) }

empty_store-IsRecoverable : IsRecoverable plain_crates 0 no_maps empty_store
empty_store-IsRecoverable = record {
  frames = [];
  log_frames = refl;
  fits = tt;
  valid = empty_store-IsSegment;
  replays = Replays-nil plain_crates 0 0 0 no_maps [];
}

record_document-IsRecoverable_example : IsRecoverable plain_crates 0 no_maps kept_store
record_document-IsRecoverable_example =
    record_document-IsRecoverable plain_crates big_disk 0 no_maps plain_crates-IsFaithful
      the_document empty_store kept_store not_replaced recorded-ok the_document-IsConsistent
      (omega arith) kept_store-IsInRange empty_store-IsRecoverable

kept_store-IsRecoverable : IsRecoverable plain_crates 0 no_maps kept_store
kept_store-IsRecoverable =
    record_document-IsRecoverable plain_crates big_disk 0 no_maps plain_crates-IsFaithful
      the_document empty_store kept_store not_replaced recorded-ok the_document-IsConsistent
      (omega arith) kept_store-IsInRange empty_store-IsRecoverable

record_delete-IsRecoverable_example : IsRecoverable plain_crates 0 no_maps deleted_store
record_delete-IsRecoverable_example =
    record_delete-IsRecoverable plain_crates big_disk 0 no_maps plain_crates-IsFaithful 10
      kept_store deleted_store removed_document deleted-ok kept_store-newer deleted_store-IsInRange
      kept_store-IsRecoverable

-- The document is inserted and deleted.
a_history : History plain_crates big_disk empty_store deleted_store
a_history =
    deleted 10 removed_document
      (inserted the_document not_replaced unchanged recorded-ok the_document-IsConsistent
        kept_store-IsInRange)
      deleted-ok deleted_store-IsInRange

scan_segment-History_example :
    (scan : SegmentScan) × (scan_segment plain_crates
        (log deleted_store.active)
        deleted_store.active.id
        0
        no_maps
        true
      ≡ ok (scan, deleted_store.maps))
scan_segment-History_example =
    scan_segment-History plain_crates big_disk plain_crates-IsFaithful 0 empty_store
      empty_store-IsSegment refl (omega arith) deleted_store true a_history

some_maps-MapsFit : MapsFit plain_crates.crc32 (λ bytes. true) some_maps 9
some_maps-MapsFit = record {
  seq = omega arith;
  n_docs = omega arith;
  n_splits = omega arith;
  n_summaries = omega arith;
  docs = (
    record {
      key = omega arith;
      seq = omega arith;
      loc = record { segment = omega arith; offset = omega arith; len = omega arith };
      url_len = omega arith;
      url_text = refl;
      split_ids = record { count = omega arith; each = (omega arith, tt) };
      summary_ids = tt;
      extra_summary_ids = record { count = omega arith; each = (omega arith, tt) };
    },
    tt,
  );
  splits = (
    record {
      key = omega arith;
      doc_id = omega arith;
      loc = record { segment = omega arith; offset = omega arith; len = omega arith };
    },
    (
      record {
        key = omega arith;
        doc_id = omega arith;
        loc = record { segment = omega arith; offset = omega arith; len = omega arith };
      },
      tt,
    ),
  );
  summaries = (
    record {
      key = omega arith;
      doc_id = omega arith;
      split_id = omega arith;
      loc = record { segment = omega arith; offset = omega arith; len = omega arith };
    },
    tt,
  );
}

load-store_example :
    (maps' : Maps) × (load plain_crates.crc32
        (λ bytes. true)
        (some (store plain_crates.crc32 (λ bytes. true) some_maps 9))
      ≡ ok (some (maps', 9)))
    × ((k : ℕ)
        → (HashMap.get k maps'.docs ≡ HashMap.get k some_maps.docs)
          × (HashMap.get k maps'.splits ≡ HashMap.get k some_maps.splits)
          × (HashMap.get k maps'.summaries ≡ HashMap.get k some_maps.summaries))
load-store_example =
    load-store plain_crates.crc32 (λ bytes. true) some_maps 9 plain_crates-IsFaithful.crc_u32
      some_maps-MapsFit some_maps-IsWellKeyed

abbrev pub split_record : Frame
split_record = record {
  seq = 4;
  kind = RecordKind.split;
  dtype = f32;
  meta = 20 ∷ 0 ∷ 10 ∷ 1 ∷ 5 ∷ 1 ∷ 97 ∷ 30 ∷ [];
  vector = 3 ∷ 0 ∷ 0 ∷ 0 ∷ [];
}

abbrev pub one_split_store : Store
one_split_store = record empty_store {
  active = open_segment 0 (7 ∷ encode_frame plain_crates.crc32 split_record);
  maps = record no_maps {
    splits = (20, record { doc_id = 10; loc = record { segment = 0; offset = 1; len = 34 } }) ∷ [];
  };
}

pub split_at :
    HashMap.get 20 one_split_store.maps.splits
    ≡ some (record { doc_id = 10; loc = record { segment = 0; offset = 1; len = 34 } })
unfolding HashMap.get
split_at = refl

abbrev split_meta : SplitMeta
split_meta = record {
  split_id = 20;
  seq_id = 0;
  doc_id = 10;
  token_len = 1;
  text = 97 ∷ [];
  summary_ids = 30 ∷ [];
  model_id = 5;
}

read_split-encode_vector_example :
    (read_split plain_crates one_split_store 20 false ≡ ok (some (split_meta, none)))
    × (read_split plain_crates one_split_store 20 true
        ≡ ok (
            some
              (split_meta, some (record { embedding_id = 20; embedding = 3 ∷ []; model_id = 5 }))))
unfolding encode_vector to_le_bytes
read_split-encode_vector_example =
    read_split-encode_vector plain_crates plain_crates-IsFaithful one_split_store (7 ∷ []) []
      split_record (record { seq_u64 = omega arith; size_u32 = omega arith })
      (ap (◌∷◌ 7) (sym (append-nil (encode_frame plain_crates.crc32 split_record)))) 20 10
      split_meta (3 ∷ []) split_at refl refl (omega arith, tt)

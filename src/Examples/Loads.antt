-- ===== src/Examples/Loads.antt =====
-- embedding-store/src/shard.rs: a document loaded from a store that holds one split.
use embedding_processing_rs.Base.{
  ◌≡◌, refl, ap, sym, true, Option, none, some, List, [], ◌∷◌, map, append-nil, arith, ok, ◌>>=◌,
}
use embedding_processing_rs.HashMap
use embedding_processing_rs.HashMap.{HashMap}
use embedding_processing_rs.Maps.{DocEntry}
use embedding_processing_rs.Store.Types.{Store}
use embedding_processing_rs.Record.{SplitMeta}
use embedding_processing_rs.Record.Encode.{encode_frame}
use embedding_processing_rs.Dto.{EmbeddingDto, SummaryDto, SplitDto}
use embedding_processing_rs.Store.Read.{
  read_split, read_summary, embedding_of, split_dto, get_summary, get_summaries, get_split,
  get_splits, get_doc,
}
use embedding_processing_rs.Store.ReadBack.{read_split-encode}
use embedding_processing_rs.Shard.Loading.{load_splits, load_doc, load_doc-get_doc}
use embedding_processing_rs.Shard.Answers.{answer, IsNamed, load_splits-answer}
use embedding_processing_rs.Examples.Codecs.{plain_crates, plain_crates-IsFaithful}
use embedding_processing_rs.Examples.Witnesses.{one_split_store, split_record, split_at}

abbrev one_entry : DocEntry
one_entry = record {
  url = 104 ∷ [];
  split_ids = 20 ∷ [];
  summary_ids = some (30 ∷ []);
  extra_summary_ids = [];
  seq = 5;
  loc = record { segment = 0; offset = 35; len = 30 };
}

abbrev one_doc_store : Store
one_doc_store = record one_split_store {
  maps = record (one_split_store.maps) { docs = (10, one_entry) ∷ [] };
}

entry_at : HashMap.get 10 one_doc_store.maps.docs ≡ some one_entry
unfolding HashMap.get
entry_at = refl

load_doc-get_doc_example :
    (load_splits plain_crates one_doc_store true (20 ∷ []) none none
      >>= load_doc plain_crates one_doc_store true 10)
    ≡ get_doc plain_crates one_doc_store 10 true
load_doc-get_doc_example = load_doc-get_doc plain_crates one_doc_store true 10 one_entry entry_at

abbrev split_20 : SplitMeta
split_20 = record {
  split_id = 20;
  seq_id = 0;
  doc_id = 10;
  token_len = 1;
  text = 97 ∷ [];
  summary_ids = 30 ∷ [];
  model_id = 5;
}

abbrev embedding_20 : Option EmbeddingDto
embedding_20 =
    embedding_of plain_crates true 20 split_record.vector split_record.dtype split_20.model_id

read_20 : read_split plain_crates one_split_store 20 true ≡ ok (some (split_20, embedding_20))
read_20 =
    read_split-encode plain_crates plain_crates-IsFaithful one_split_store (7 ∷ []) [] split_record
      (record { seq_u64 = omega arith; size_u32 = omega arith })
      (ap (◌∷◌ 7) (sym (append-nil (encode_frame plain_crates.crc32 split_record)))) 20 10 _ true
      split_at refl

abbrev read_splits : List SplitDto
read_splits = split_dto split_20 [] embedding_20 none ∷ []

no_summary_30 : get_summaries plain_crates one_split_store (30 ∷ []) true ≡ ok []
unfolding get_summaries get_summary read_summary HashMap.get
no_summary_30 = refl

get_splits-read : get_splits plain_crates one_split_store (20 ∷ []) true ≡ ok read_splits
unfolding get_splits get_split
get_splits-read = rw (read_20, no_summary_30) refl

abbrev one_hit : SummaryDto
one_hit = record {
  summary_id = 30;
  document_id = 10;
  split_id = 20;
  split_sequence_id = 0;
  text_content = 98 ∷ [];
  token_len = 1;
  centrality = 0;
  embedding = none;
  query_distance = some 2;
  rank = none;
}

abbrev hits_30 : HashMap (List SummaryDto)
hits_30 = (20, one_hit ∷ []) ∷ []

IsNamed-20 : IsNamed plain_crates one_split_store true (some []) hits_30 20
IsNamed-20 m e q = cc (read_20, q)

load_splits-answer_example :
    load_splits plain_crates one_split_store true (20 ∷ []) (some []) (some hits_30)
    ≡ ok (map (answer plain_crates one_split_store true (some []) hits_30) read_splits)
load_splits-answer_example =
    load_splits-answer plain_crates one_split_store true (some []) hits_30 (20 ∷ []) read_splits
      (IsNamed-20, tt) get_splits-read

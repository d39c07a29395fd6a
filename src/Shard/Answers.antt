-- ===== src/Shard/Answers.antt =====
-- embedding-store/src/shard.rs: the splits that a query loads are those of retrieval, with its hits.
use embedding_processing_rs.Base.{
  ℕ, ◌≡◌, refl, ap, sym, ◌∙◌, Bool, Option, none, some, List, [], ◌∷◌, map, All, ok, >>=-eq-ok,
}
use embedding_processing_rs.HashMap
use embedding_processing_rs.HashMap.{HashMap}
use embedding_processing_rs.Record.{SplitMeta}
use embedding_processing_rs.Crates.{Crates}
use embedding_processing_rs.Dto.{EmbeddingDto, SummaryDto, SplitDto}
use embedding_processing_rs.Store.Types.{Store}
use embedding_processing_rs.Store.Read.{
  keep, split_dto, read_split, with_summaries, without_summaries, get_summaries, get_split,
  get_split_without_summaries, get_splits,
}
use embedding_processing_rs.Shard.Loading.{
  distance_of, or_no_hits, split_at_distance, with_hits, load_split, load_splits,
}

module _ (crates : Crates) (s : Store) (with_embeddings : Bool) (distances : Option (HashMap ℕ))
    (hits : HashMap (List SummaryDto)) where
  -- A split as retrieval has it, with the hits and the distance of the query.
  abbrev pub answer : SplitDto → SplitDto
  answer split = record split {
    summaries = or_no_hits (HashMap.get split.split_id hits);
    query_distance = distance_of distances split.split_id;
  }

  -- A record that the maps place under the id carries it.
  abbrev pub IsNamed : ℕ → Type 0
  IsNamed id =
      (m : SplitMeta) (e : Option EmbeddingDto)
      → read_split crates s id with_embeddings ≡ ok (some (m, e))
      → m.split_id ≡ id

  abbrev answered : ℕ → Option (SplitMeta × Option EmbeddingDto) → Option SplitDto
  answered id found =
      split_at_distance (distance_of distances id)
        (with_hits (or_no_hits (HashMap.get id hits)) (without_summaries crates found))

  keep-answered :
      (id : ℕ) (found : Option (SplitMeta × Option EmbeddingDto)) (f : Option SplitDto)
      (rest : List SplitDto)
      → with_summaries crates s with_embeddings found ≡ ok f
      → ((m : SplitMeta) (e : Option EmbeddingDto) → found ≡ some (m, e) → m.split_id ≡ id)
      → keep (answered id found) (map answer rest) ≡ map answer (keep f rest)
  keep-answered id none none rest q named = refl
  keep-answered id none (some x) rest q named = cc
  keep-answered id (some (m, e)) f rest q named =
      let (summaries, _, built) =
        >>=-eq-ok (get_summaries crates s m.summary_ids with_embeddings) _ q in
      let same : some (split_dto m summaries e none) ≡ f = cc in
      ap
        (λ i.
          split_dto m (or_no_hits (HashMap.get i hits)) e (distance_of distances i)
          ∷ map answer rest)
        (sym (named m e refl))
      ∙ ap (λ g. map answer (keep g rest)) same

  -- Where the records of the ids that are asked for carry these ids and retrieval reads the splits,
  -- the loads of a query succeed: they give the same splits in the same order, each with the summaries
  -- that the query hit and the distance that the search gave it.
  pub load_splits-answer :
      (ids : List ℕ) (splits : List SplitDto)
      → All IsNamed ids
      → get_splits crates s ids with_embeddings ≡ ok splits
      → load_splits crates s with_embeddings ids distances (some hits) ≡ ok (map answer splits)
  unfolding load_splits get_splits get_split load_split get_split_without_summaries
  load_splits-answer [] [] named q = refl
  load_splits-answer [] (x ∷ xs) named q = cc
  load_splits-answer (id ∷ ids) splits (named, others) q =
      let (f, q1, r1) = >>=-eq-ok (get_split crates s id with_embeddings) _ q in
      let (rest, q2, r2) = >>=-eq-ok (get_splits crates s ids with_embeddings) _ r1 in
      let (found, q3, q4) = >>=-eq-ok (read_split crates s id with_embeddings) _ q1 in
      let same : keep f rest ≡ splits = cc in
      rw (q3, load_splits-answer ids rest others q2)
        (ap ok (
          keep-answered id found f rest q4 (λ m e x. named m e (q3 ∙ ap ok x))
          ∙ ap (map answer) same))

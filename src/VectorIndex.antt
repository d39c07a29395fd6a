-- ===== src/VectorIndex.antt =====
-- embedding-store/src/vector_index.rs: an index of vectors under keys, with its file.
-- The crate `usearch` is the parameter `Usearch`: an `Index` of it is a value of the type `I`, and a
-- call of it may change the index and may fail. `save` gives the bytes of a file, `load` and `view` take
-- them.
use embedding_processing_rs.Base.{
  ℕ, ◌+◌, ◌-◌, max, Bool, true, false, not, Option, none, some, List, ltb, ◌==◌, if◌then◌else◌,
  length, Result, ok, err, is_some,
}
use embedding_processing_rs.Base.Action.{Action, raise, modify, within, ◌>>◌}
use embedding_processing_rs.Errors.{Error, io, index_failed, wrong_size, no_vector_to_index}
use embedding_processing_rs.Record.{VectorDtype, no_vector, f16, f32, vector_bytes, decode_vector}

pub record Usearch (I : Type 0) : Type 0 where
  -- dimensions
  pub create : ℕ → I
  pub size : I → ℕ
  pub capacity : I → ℕ
  pub reserve : ℕ → Action Error I (Unit {0})
  pub add : ℕ → List ℕ → Action Error I (Unit {0})
  -- the bytes of a vector of halves
  pub add_f16 : ℕ → List ℕ → Action Error I (Unit {0})
  pub remove : ℕ → Action Error I (Unit {0})
  pub load : List ℕ → Action Error I (Unit {0})
  pub view : List ℕ → Action Error I (Unit {0})
  pub save : I → Result Error (List ℕ)
  pub search : List ℕ → ℕ → I → Result Error (List (ℕ × ℕ))
  pub filtered_search : List ℕ → ℕ → (ℕ → Bool) → I → Result Error (List (ℕ × ℕ))
  pub graph_allocated : I → ℕ
  pub graph_reserved : I → ℕ
  pub vectors_allocated : I → ℕ
  pub vectors_reserved : I → ℕ

pub record VectorIndex (I : Type 0) : Type 0 where
  pub index : I
  pub dimensions : ℕ
  pub viewed : Bool
  pub file : Option (List ℕ)

-- The files that the system takes: an index file that replaces the old one, and one that is removed.
pub record Files : Type 0 where
  pub can_save : List ℕ → Bool
  pub can_remove_index : Bool
  -- up to the rename, and the sync of the directory behind it
  pub can_store_state : Bool
  pub can_sync_state : Bool
  pub can_remove_state : Bool

abbrev pub exists : {I : Type 0} → VectorIndex I → Bool
exists x = is_some x.file

module _ {I : Type 0} (usearch : Usearch I) where
  abbrev pub on_index : {A : Type 0} → Action Error I A → Action Error (VectorIndex I) A
  on_index m = within (λ x. x.index) (λ i x. record x { index = i }) m

  -- `VectorIndex::create`, beside a file that may be there.
  abbrev pub create : ℕ → Option (List ℕ) → VectorIndex I
  create dimensions file = record {
    index = usearch.create dimensions;
    dimensions = dimensions;
    viewed = false;
    file = file;
  }

  abbrev set_viewed : Bool → Action Error (VectorIndex I) (Unit {0})
  set_viewed b = modify (λ x. record x { viewed = b })

  unfoldable pub load : Action Error (VectorIndex I) (Unit {0})
  unfolding ◌>>◌
  load x = elim x.file [
    | some bytes ↦ (on_index (usearch.load bytes) >> set_viewed false) x
    | none ↦ (err index_failed, x)
  ]

  unfoldable pub view : Action Error (VectorIndex I) (Unit {0})
  unfolding ◌>>◌
  view x = elim x.file [
    | some bytes ↦ (on_index (usearch.view bytes) >> set_viewed true) x
    | none ↦ (err index_failed, x)
  ]

  unfoldable pub reserve_for : ℕ → Action Error (VectorIndex I) (Unit {0})
  reserve_for additional x =
      let wanted = usearch.size x.index + max additional 64 in
      if ltb wanted (usearch.capacity x.index)
      then (ok tt, x)
      else on_index (usearch.reserve wanted) x

  unfoldable pub remove : ℕ → Action Error (VectorIndex I) (Unit {0})
  remove key = on_index (usearch.remove key)

  unfoldable pub replace : ℕ → List ℕ → Action Error (VectorIndex I) (Unit {0})
  replace key vector = do remove key; reserve_for 1; on_index (usearch.add key vector)

  unfoldable pub upsert : ℕ → List ℕ → Action Error (VectorIndex I) (Unit {0})
  upsert key vector x =
      if not (length vector == x.dimensions)
      then (err (wrong_size x.dimensions (length vector) key), x)
      else replace key vector x

  -- `add` at each type of vector. `from_half` is the conversion of `half`.
  abbrev add_as : (ℕ → ℕ) → ℕ → List ℕ → VectorDtype → Action Error I (Unit {0})
  add_as from_half key bytes no_vector = raise (no_vector_to_index key)
  add_as from_half key bytes f16 = usearch.add_f16 key bytes
  add_as from_half key bytes f32 = usearch.add key (decode_vector from_half bytes f32)

  unfoldable pub add_raw :
      (ℕ → ℕ) → ℕ → List ℕ → VectorDtype → Action Error (VectorIndex I) (Unit {0})
  add_raw from_half key bytes dtype x =
      if not (length bytes == vector_bytes dtype x.dimensions)
      then (err (wrong_size (vector_bytes dtype x.dimensions) (length bytes) key), x)
      else on_index (add_as from_half key bytes dtype) x

  abbrev checked_query : {A : Type 0} → VectorIndex I → List ℕ → Result Error A → Result Error A
  checked_query x query r =
      if not (length query == x.dimensions)
      then err (wrong_size x.dimensions (length query) 0)
      else r

  unfoldable pub search : List ℕ → ℕ → VectorIndex I → Result Error (List (ℕ × ℕ))
  search query k x = checked_query x query (usearch.search query k x.index)

  unfoldable pub filtered_search :
      List ℕ → ℕ → (ℕ → Bool) → VectorIndex I → Result Error (List (ℕ × ℕ))
  filtered_search query k filter x =
      checked_query x query (usearch.filtered_search query k filter x.index)

  module _ (files : Files) where
    abbrev pub write_file : Result Error (List ℕ) → Action Error (VectorIndex I) (Unit {0})
    write_file (ok bytes) x =
        if files.can_save bytes then (ok tt, record x { file = some bytes }) else (err io, x)
    write_file (err e) x = (err e, x)

    -- The file is the old one or the new one.
    unfoldable pub save_atomically : Action Error (VectorIndex I) (Unit {0})
    save_atomically x = write_file (usearch.save x.index) x

    unfoldable pub remove_file : Action Error (VectorIndex I) (Unit {0})
    remove_file x = elim x.file [
      | some bytes ↦
          if files.can_remove_index then (ok tt, record x { file = none }) else (err io, x)
      | none ↦ (ok tt, x)
    ]

  unfoldable pub memory_bytes : VectorIndex I → ℕ
  memory_bytes x =
      (usearch.graph_allocated x.index - usearch.graph_reserved x.index)
      + (usearch.vectors_allocated x.index - usearch.vectors_reserved x.index)

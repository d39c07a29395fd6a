-- ===== src/Shard/Trust.antt =====
-- embedding-store/src/shard.rs: an open that reads the indexes back gets the vectors that they held.
use embedding_processing_rs.Base.{
  ℕ, ◌+◌, ◌≡◌, refl, ap, sym, ◌∙◌, Bool, true, false, Option, none, some, List, arith, Result, ok,
  err,
}
use embedding_processing_rs.Base.Action.{Action, pure, modify, ◌>>◌, >>-ok}
use embedding_processing_rs.HashMap.{HashMap}
use embedding_processing_rs.Crates.{Crates}
use embedding_processing_rs.Errors.{Error}
use embedding_processing_rs.Manifest.{Manifest}
use embedding_processing_rs.Store.Types.{Store}
use embedding_processing_rs.VectorIndex
use embedding_processing_rs.VectorIndex.{Usearch, VectorIndex, Files, exists, create, on_index}
use embedding_processing_rs.Shard.{Shard, IndexState, IndexResidency, load_state}
use embedding_processing_rs.Shard.InStep.{KeepsVectors, Matches, IsInStep}
use embedding_processing_rs.Shard.Open.{
  Unusable, snapshot_is_usable, check_state, check_found, read_back, read_saved, both_read,
  load_if_usable, load_indexes, start_over, finish, open_indexes,
}

-- The state file that was found, and where it stands.
check_found-ok :
    (o : Option IndexState) (m : Manifest)
    → check_found (load_state o) m ≡ ok tt
    → (st : IndexState) × (o ≡ some st) × (st.seq + 1 ≡ m.next_seq)
unfolding check_state
check_found-ok none m h = cc
check_found-ok (some st) m h = (st, refl, ground (arith, h))

snapshot_is_usable-ok :
    (a b : Bool) (o : Option IndexState) (m : Manifest)
    → snapshot_is_usable a b o m ≡ ok tt
    → (st : IndexState) × (o ≡ some st) × (st.seq + 1 ≡ m.next_seq)
unfolding snapshot_is_usable
snapshot_is_usable-ok true true o m h = check_found-ok o m h
snapshot_is_usable-ok true false o m h = cc
snapshot_is_usable-ok false b o m h = cc

module _ {I : Type 0} (usearch : Usearch I) (vectors : I → HashMap (List ℕ))
    (in_file : List ℕ → HashMap (List ℕ)) (keeps : KeepsVectors usearch vectors in_file) where
  run-ok :
      (m : Action Error I (Unit {0})) (b : Bool) (x y : VectorIndex I)
      → (on_index usearch m >> modify (λ z. record z { viewed = b })) x ≡ (ok tt, y)
      → m x.index ≡ (ok tt, y.index)
  run-ok m b x y h =
      let (u, x', e, e') = >>-ok (on_index usearch m) (modify (λ z. record z { viewed = b })) x h in
      (λ i. ((e i).0, (e i).1.index)) ∙ (λ i. (ok tt, (e' i).1.index))

  read_back-vectors :
      (residency : IndexResidency) (x y : VectorIndex I) (bytes : List ℕ)
      → x.file ≡ some bytes
      → read_back usearch residency x ≡ (ok tt, y)
      → vectors y.index ≡ in_file bytes
  unfolding VectorIndex.load VectorIndex.view
  read_back-vectors IndexResidency.loaded x y bytes e h =
      keeps.loaded bytes x.index y.index
        (run-ok (usearch.load bytes) false x y (ground (arith, e, h)))
  read_back-vectors IndexResidency.viewed x y bytes e h =
      keeps.viewed bytes x.index y.index
        (run-ok (usearch.view bytes) true x y (ground (arith, e, h)))

  both_read-ok :
      (r₁ r₂ : Result Error (Unit {0}))
      → both_read usearch r₁ r₂ ≡ true
      → (r₁ ≡ ok tt) × (r₂ ≡ ok tt)
  both_read-ok (ok u) (ok v) h = (refl, refl)
  both_read-ok (ok u) (err e) h = cc
  both_read-ok (err e) r h = cc

  -- An index as it is opened beside its file, and the vectors that it then reads.
  reopened :
      (residency : IndexResidency) (x y : VectorIndex I) (r : Result Error (Unit {0}))
      → Matches vectors in_file x
      → read_back usearch residency (create usearch x.dimensions x.file) ≡ (r, y)
      → r ≡ ok tt
      → vectors y.index ≡ vectors x.index
  reopened residency x y r (bytes, file, same) h e =
      read_back-vectors residency (create usearch x.dimensions x.file) y bytes file
        (h ∙ (λ i. (e i, y)))
      ∙ same

  module _ (files : Files) (s : Shard I) (t : Store) where
    -- A shard with this store, beside the files that the other one left.
    abbrev pub beside_files : Shard I
    beside_files = record {
      store = t;
      splits = create usearch s.splits.dimensions s.splits.file;
      summaries = create usearch s.summaries.dimensions s.summaries.file;
      state = s.state;
    }

    abbrev pub SameVectors : Shard I → Type 0
    SameVectors u =
        (vectors u.splits.index ≡ vectors s.splits.index)
        × (vectors u.summaries.index ≡ vectors s.summaries.index)

    read_saved-vectors :
        (residency : IndexResidency) (u : Shard I)
        → Matches vectors in_file s.splits × Matches vectors in_file s.summaries
        → read_saved usearch residency beside_files ≡ (true, u)
        → SameVectors u
    unfolding read_saved
    read_saved-vectors residency u (ms, mm) h =
        let r₁ = read_back usearch residency beside_files.splits in
        let r₂ = read_back usearch residency beside_files.summaries in
        let (e₁, e₂) = both_read-ok r₁.0 r₂.0 (ground (arith, ap (λ p. p.0) h)) in
        (
          ap (λ p. vectors p.1.splits.index) (sym h)
              ∙ reopened residency s.splits r₁.1 r₁.0 ms refl e₁,
          ap (λ p. vectors p.1.summaries.index) (sym h)
              ∙ reopened residency s.summaries r₂.1 r₂.0 mm refl e₂,
        )

    finish-ok :
        (crates : Crates) (r : Bool × Shard I) (u : Shard I)
        → finish usearch crates files r ≡ (ok true, u)
        → r ≡ (true, u)
    unfolding ◌>>◌
    finish-ok crates (true, v) u h = λ i. (true, (h i).1)
    finish-ok crates (false, v) u h =
        let (a, v', e, e') = >>-ok (start_over usearch crates files) (pure false) v h in
        absurd (ground (arith, e'))

    load_if_usable-vectors :
        (residency : IndexResidency) (r : Result Unusable (Unit {0})) (u : Shard I)
        → (r ≡ ok tt → Matches vectors in_file s.splits × Matches vectors in_file s.summaries)
        → load_if_usable usearch r residency beside_files ≡ (true, u)
        → SameVectors u
    load_if_usable-vectors residency (ok v) u m h = read_saved-vectors residency u (m refl) h
    load_if_usable-vectors residency (err e) u m h = absurd (ground (arith, h))

    -- A shard stops whose state file names the last sequence number of its log only where both index files
    -- hold the vectors of the indexes, and another is opened beside its files, with a store that goes on at
    -- the same sequence number. If that open reads the indexes back, in memory or mapped, they hold the
    -- vectors that the indexes of the first one held. Usearch keeps vectors.
    pub open_indexes-vectors :
        (crates : Crates) (residency : IndexResidency) (u : Shard I)
        → IsInStep vectors in_file s
        → t.manifest.next_seq ≡ s.store.manifest.next_seq
        → open_indexes usearch crates files residency beside_files ≡ (ok true, u)
        → SameVectors u
    unfolding open_indexes load_indexes
    open_indexes-vectors crates residency u w same h =
        load_if_usable-vectors residency _ u
          (λ e.
            let (st, here, last) =
              snapshot_is_usable-ok (exists s.splits) (exists s.summaries) s.state t.manifest e in
            w.matches st here (last ∙ same))
          (finish-ok crates _ u h)

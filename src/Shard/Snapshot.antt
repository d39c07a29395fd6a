-- ===== src/Shard/Snapshot.antt =====
-- embedding-store/src/shard.rs: what `snapshot` leaves of the files of the indexes and of the state file,
-- wherever it stops.
use embedding_processing_rs.Base.{
  ℕ, ◌+◌, ◌-◌, ◌≡◌, refl, ap, sym, ◌∙◌, subst, Bool, true, false, Bool-cases, ◌&&◌, inl, inr, ◌⊎◌,
  Option, Option-cases, none, some, List, arith, Result, ok, err, if◌then◌else◌, ◌==◌, is_some,
  ==→eq,
}
use embedding_processing_rs.Base.Action.{Action, continue, pure, raise, ◌>>=◌, ◌>>◌}
use embedding_processing_rs.HashMap.{HashMap}
use embedding_processing_rs.Crates.{Crates}
use embedding_processing_rs.Errors.{Error, io, log_moved}
use embedding_processing_rs.Manifest.{Manifest}
use embedding_processing_rs.Segment.{Disk}
use embedding_processing_rs.Store.Types.{Store}
use embedding_processing_rs.Store.Seal.{fsync, store_manifest}
use embedding_processing_rs.Store.Open.{snapshot_meta, store_snapshot}
use embedding_processing_rs.VectorIndex.{Usearch, VectorIndex, Files}
use embedding_processing_rs.Shard.{
  Shard, IndexState, load_state, index_state_version, on_store, store_state, remove_state,
  check_published, publish, save_if_needed, snapshot,
}
use embedding_processing_rs.Shard.InStep.{
  KeepsVectors, Matches, IsInStep, IsOvertaken, Saved, save_atomically-Saved,
}

module _ (crates : Crates) (disk : Disk) (is_utf8 : List ℕ → Bool) where
  -- The sequence numbers of a store behind `snapshot_meta`, however it ends.
  snapshot_meta-seqs :
      (s : Store)
      → ((snapshot_meta disk crates is_utf8 s).1.manifest.next_seq ≡ s.manifest.next_seq)
  unfolding snapshot_meta store_snapshot store_manifest ◌>>=◌ ◌>>◌
  snapshot_meta-seqs s = ground arith

  fsync-manifest : (s : Store) → (fsync disk s).1.manifest ≡ s.manifest
  unfolding fsync
  fsync-manifest s = refl

some_state :
    (o : Option IndexState)
    → is_some (load_state o) ≡ true
    → (st : IndexState) × (load_state o ≡ some st)
some_state o h = elim (Option-cases (load_state o)) [
  | inl e ↦ absurd (ground (arith, h, e))
  | inr found ↦ found
]

-- A state file that is of the version is the one that is there.
load_state-some : (o : Option IndexState) (st : IndexState) → load_state o ≡ some st → o ≡ some st
load_state-some none st h = cc
load_state-some (some x) st h = ground (arith, h)

module _ {I : Type 0} (usearch : Usearch I) (vectors : I → HashMap (List ℕ))
    (in_file : List ℕ → HashMap (List ℕ)) (files : Files)
    (keeps : KeepsVectors usearch vectors in_file) (s₀ : Shard I) where
  abbrev pub InStep : Shard I → Type 0
  InStep = IsInStep vectors in_file

  -- The indexes are as at the beginning.
  abbrev pub SameIndexes : Shard I → Type 0
  SameIndexes t = (t.splits.index ≡ s₀.splits.index) × (t.summaries.index ≡ s₀.summaries.index)

  abbrev pub FilesMatch : Shard I → Type 0
  FilesMatch t = Matches vectors in_file t.splits × Matches vectors in_file t.summaries

  -- An error leaves the files in step and the indexes as they were.
  abbrev pub Ends : {A : Type 0} → (A → Shard I → Type 0) → Result Error A × Shard I → Type 0
  Ends Q (ok a, t) = Q a t
  Ends Q (err e, t) = InStep t × SameIndexes t

  Ends-continue :
      {A B : Type 0} (Q : A → Shard I → Type 0) (R : B → Shard I → Type 0)
      (r : Result Error A × Shard I) (f : A → Action Error (Shard I) B)
      → Ends Q r
      → ((a : A) (t : Shard I) → Q a t → Ends R (f a t))
      → Ends R (continue r f)
  Ends-continue Q R (ok a, t) f h k = k a t h
  Ends-continue Q R (err e, t) f h k = h

  -- In step, with no change of the indexes.
  abbrev Fine : {A : Type 0} → A → Shard I → Type 0
  Fine a t = InStep t × SameIndexes t

  -- A change of the store that leaves the sequence numbers.
  store-changed :
      (s : Shard I) (t : Store)
      → t.manifest ≡ s.store.manifest
      → InStep s
      → InStep (record s { store = t })
  store-changed s t same w = record {
    positive = omega (arith, w.positive, ap (λ m. m.next_seq) same);
    known = λ st e. omega (arith, w.known st e, ap (λ m. m.next_seq) same);
    matches = λ st e q. w.matches st e (omega (arith, q, ap (λ m. m.next_seq) same));
  }

  abbrev SplitsSaved : ℕ → Unit {0} → Shard I → Type 0
  SplitsSaved seq u t =
      InStep t
      × SameIndexes t
      × Matches vectors in_file t.splits
      × (seq + 1 ≡ t.store.manifest.next_seq)

  abbrev BothSaved : ℕ → Unit {0} → Shard I → Type 0
  BothSaved seq u t =
      InStep t × SameIndexes t × FilesMatch t × (seq + 1 ≡ t.store.manifest.next_seq)

  splits-saved :
      (seq : ℕ) (s : Shard I) (r : Result Error (Unit {0}) × VectorIndex I)
      → Saved vectors in_file s.splits r
      → InStep s
      → SameIndexes s
      → seq + 1 ≡ s.store.manifest.next_seq
      → Ends (SplitsSaved seq) (r.0, record s { splits = r.1 })
  splits-saved seq s (ok u, y) (same, m) w (a, b) last = (
    record {
      positive = w.positive;
      known = w.known;
      matches = λ st e q. (m, (w.matches st e q).1);
    },
    (same ∙ a, b),
    m,
    last,
  )
  splits-saved seq s (err e, y) same w i last =
      subst (λ x. InStep (record s { splits = x }) × SameIndexes (record s { splits = x }))
        (sym same) (w, i)

  summaries-saved :
      (seq : ℕ) (s : Shard I) (r : Result Error (Unit {0}) × VectorIndex I)
      → Saved vectors in_file s.summaries r
      → InStep s
      → SameIndexes s
      → Matches vectors in_file s.splits
      → seq + 1 ≡ s.store.manifest.next_seq
      → Ends (BothSaved seq) (r.0, record s { summaries = r.1 })
  summaries-saved seq s (ok u, y) (same, m) w (a, b) ms last = (
    record { positive = w.positive; known = w.known; matches = λ st e q. (ms, m) },
    (a, same ∙ b),
    (ms, m),
    last,
  )
  summaries-saved seq s (err e, y) same w i ms last =
      subst (λ x. InStep (record s { summaries = x }) × SameIndexes (record s { summaries = x }))
        (sym same) (w, i)

  -- The state file names the last sequence number and both files match.
  record Published (seq : ℕ) (t : Shard I) : Type 0 where
    last : seq + 1 ≡ t.store.manifest.next_seq
    state :
        t.state
        ≡ some (record {
          version = index_state_version;
          seq = seq;
          splits = usearch.size t.splits.index;
          summaries = usearch.size t.summaries.index;
        })
    same : SameIndexes t
    files_match : FilesMatch t

  Published-InStep : (seq : ℕ) (t : Shard I) → Published seq t → InStep t
  Published-InStep seq t p = record {
    positive = omega (arith, p.last);
    known = λ st e. ground (arith, e, p.state, p.last);
    matches = λ st e q. p.files_match;
  }

  module _ (crates : Crates) (disk : Disk) (is_utf8 : List ℕ → Bool) where
    -- The state file names the last sequence number, and both files hold the vectors.
    abbrev pub IsSaved : ℕ → Shard I → Type 0
    IsSaved n t =
        (st : IndexState) × (load_state t.state ≡ some st)
        × (st.seq ≡ n)
        × (n + 1 ≡ t.store.manifest.next_seq)
        × FilesMatch t

    -- The files and the state file are those at the beginning.
    abbrev pub IsLeft : Shard I → Type 0
    IsLeft t = (t.splits ≡ s₀.splits) × (t.summaries ≡ s₀.summaries) × (t.state ≡ s₀.state)

    abbrev pub Finished : ℕ → Shard I → Type 0
    Finished n t = InStep t × SameIndexes t × (IsSaved n t ⊎ (IsOvertaken s₀ × IsLeft t))

    Published-IsSaved : (seq : ℕ) (t : Shard I) → Published seq t → IsSaved seq t
    Published-IsSaved seq t p = (_, ap load_state p.state, refl, p.last, p.files_match)

    without_state : (t : Shard I) → InStep t → InStep (record t { state = none })
    without_state t w = record {
      positive = w.positive;
      known = λ st e. absurd (ground (arith, e));
      matches = λ st e q. absurd (ground (arith, e));
    }

    remove_state-cases :
        (t : Shard I)
        → ((remove_state files t).1 ≡ t) ⊎ ((remove_state files t).1 ≡ record t { state = none })
    unfolding remove_state
    remove_state-cases t = elim (Option-cases t.state) [
      | inl e ↦ inl (ground (arith, e))
      | inr (st, e) ↦ elim (Bool-cases files.can_remove_state) [
        | inl b ↦ inr (ground (arith, e, b))
        | inr b ↦ inl (ground (arith, e, b))
      ]
    ]

    remove_state-fine :
        (t : Shard I)
        → InStep t
        → SameIndexes t
        → InStep (remove_state files t).1 × SameIndexes (remove_state files t).1
    remove_state-fine t w i = elim (remove_state-cases t) [
      | inl e ↦ subst (λ u. InStep u × SameIndexes u) (sym e) (w, i)
      | inr e ↦ subst (λ u. InStep u × SameIndexes u) (sym e) (without_state t w, i)
    ]

    -- A step that leaves what is published ends well, whatever it returns.
    either_way :
        {A : Type 0} (r : Result Error A) (seq : ℕ) (u : Shard I)
        → Published seq u
        → Ends (λ _. Published seq) (r, u)
    either_way (ok a) seq u p = p
    either_way (err e) seq u p = (Published-InStep seq u p, p.same)

    store_state-Published :
        (seq : ℕ) (t : Shard I)
        → seq + 1 ≡ t.store.manifest.next_seq
        → InStep t
        → SameIndexes t
        → FilesMatch t
        → Ends
            (λ _. Published seq)
            (store_state files
              (record {
                version = index_state_version;
                seq = seq;
                splits = usearch.size t.splits.index;
                summaries = usearch.size t.summaries.index;
              })
              t)
    unfolding store_state
    store_state-Published seq t last w i ms =
        elim files.can_store_state
          as (λ b.
            Ends (λ _. Published seq)
              (if b
                then (
                  if files.can_sync_state then ok tt else err io,
                  record t {
                    state = some (record {
                      version = index_state_version;
                      seq = seq;
                      splits = usearch.size t.splits.index;
                      summaries = usearch.size t.summaries.index;
                    });
                  },
                )
                else (err io, t))) [
                  | true ↦
                      either_way (if files.can_sync_state then ok tt else err io) seq _
                        (record { last = last; state = refl; same = i; files_match = ms })
                  | false ↦ (w, i)
                ]

    meta-Published :
        (seq : ℕ) (t : Shard I)
        → Published seq t
        → Ends (λ _. Published seq) (on_store (snapshot_meta disk crates is_utf8) t)
    meta-Published seq t p =
        let u : Shard I = record t { store = (snapshot_meta disk crates is_utf8 t.store).1 } in
        let q : Published seq u = record {
          last = omega (arith, p.last, snapshot_meta-seqs crates disk is_utf8 t.store);
          state = p.state;
          same = p.same;
          files_match = p.files_match;
        } in
        either_way (snapshot_meta disk crates is_utf8 t.store).0 seq u q

    raised :
        (e : Error) (r : Result Error (Unit {0}) × Shard I)
        → InStep r.1 × SameIndexes r.1
        → Ends Finished (continue r (λ _. raise e))
    raised e (ok u, t) h = h
    raised e (err x, t) h = h

    checked :
        (seq published : ℕ) (t : Shard I)
        → Published seq t
        → Ends Finished (check_published usearch crates disk files is_utf8 seq published t)
    unfolding check_published ◌>>◌
    checked seq published t p =
        elim (published == seq)
          as (λ b. Ends Finished (
            (if b
                then pure seq
                else (λ s. continue (remove_state files s) (λ _. raise (log_moved seq published))))
              t)) [
                | true ↦ (Published-InStep seq t p, p.same, inl (Published-IsSaved seq t p))
                | false ↦
                    raised (log_moved seq published) (remove_state files t)
                      (remove_state-fine t (Published-InStep seq t p) p.same)
              ]

    publish-Ends :
        (seq : ℕ) (t : Shard I)
        → seq + 1 ≡ t.store.manifest.next_seq
        → InStep t
        → SameIndexes t
        → Ends Finished (publish usearch crates disk files is_utf8 seq t)
    unfolding publish ◌>>=◌ ◌>>◌
    publish-Ends seq t last w i =
        Ends-continue (SplitsSaved seq) Finished _ _
          (splits-saved seq t _ (save_atomically-Saved vectors in_file usearch files keeps t.splits)
            w i last)
          (λ _ t₁ (w₁, i₁, m₁, last₁).
            Ends-continue (BothSaved seq) Finished _ _
              (summaries-saved seq t₁ _
                (save_atomically-Saved vectors in_file usearch files keeps t₁.summaries) w₁ i₁ m₁
                last₁)
              (λ _ t₂ (w₂, i₂, m₂, last₂).
                Ends-continue (λ _. Published seq) Finished _ _
                  (store_state-Published seq t₂ last₂ w₂ i₂ m₂)
                  (λ _ t₃ p₃.
                    Ends-continue (λ _. Published seq) Finished _ _ (meta-Published seq t₃ p₃)
                      (λ published t₄ p₄. checked seq published t₄ p₄))))

    -- Where there is nothing to save, the state file names the last sequence number, or the store has gone
    -- ahead of it.
    nothing_to_save :
        (u : Store)
        → u.manifest ≡ s₀.store.manifest
        → InStep (record s₀ { store = u })
        → s₀.store.manifest.next_seq - 1 ≡ s₀.store.manifest.snapshot_seq
        → (st : IndexState) → load_state s₀.state ≡ some st
        → Finished (u.manifest.next_seq - 1) (record s₀ { store = u })
    nothing_to_save u same w last st here =
        let at : s₀.state ≡ some st = load_state-some s₀.state st here in
        let next : u.manifest.next_seq ≡ s₀.store.manifest.next_seq = ap (λ m. m.next_seq) same in
        elim (Bool-cases (st.seq == s₀.store.manifest.snapshot_seq)) [
          | inl e ↦
              let seq : st.seq ≡ s₀.store.manifest.snapshot_seq = ==→eq _ _ e in
              (
                w,
                (refl, refl),
                inl (
                  st,
                  here,
                  omega (arith, seq, last, next),
                  omega (arith, w.positive),
                  w.matches st at (omega (arith, w.positive, seq, last, next)),
                ),
              )
          | inr e ↦ (
            w,
            (refl, refl),
            inr ((st, here, sym last, λ q. absurd (ground (arith, e, q))), (refl, refl, refl)),
          )
        ]

    save_if_needed-Ends :
        (u : Store)
        → u.manifest ≡ s₀.store.manifest
        → InStep (record s₀ { store = u })
        → Ends Finished (save_if_needed usearch crates disk files is_utf8 (record s₀ { store = u }))
    unfolding save_if_needed
    save_if_needed-Ends u same w =
        let test : Bool =
          (u.manifest.next_seq - 1 == u.manifest.snapshot_seq) && is_some (load_state s₀.state) in
        elim (Bool-cases test) [
          | inl e ↦
              let (st, here) = some_state s₀.state (ground (arith, e)) in
              let last : u.manifest.next_seq - 1 ≡ u.manifest.snapshot_seq = ground (arith, e) in
              rw e (
                nothing_to_save u same w
                  (subst (λ (m : Manifest). m.next_seq - 1 ≡ m.snapshot_seq) same last) st here)
          | inr e ↦ rw e (
              publish-Ends (u.manifest.next_seq - 1) (record s₀ { store = u })
                (omega (arith, w.positive)) w (refl, refl))
        ]

    synced :
        (r : Result Error (Unit {0})) (u : Store)
        → u.manifest ≡ s₀.store.manifest
        → InStep (record s₀ { store = u })
        → Ends Finished (
            continue
              (r, record s₀ { store = u })
              (λ _. save_if_needed usearch crates disk files is_utf8))
    synced (ok u) t same w = save_if_needed-Ends t same w
    synced (err e) t same w = (w, (refl, refl))

    -- If a shard's state file names the last sequence number of the log only where both index files hold the
    -- vectors of the indexes in memory, then so it is wherever a snapshot stops, be it at an error of the
    -- disk, of usearch or of the store, and the indexes are as they were. A snapshot that returns leaves a
    -- state file that names the last sequence number and files that hold the vectors, unless the store had
    -- taken a snapshot of its own since the state file was written: then it leaves both the files and the
    -- state file as they are. Usearch keeps vectors.
    pub snapshot-IsInStep :
        IsInStep vectors in_file s₀ → Ends Finished (snapshot usearch crates disk files is_utf8 s₀)
    unfolding snapshot ◌>>◌
    snapshot-IsInStep w =
        let same = fsync-manifest crates disk is_utf8 s₀.store in
        synced (fsync disk s₀.store).0 (fsync disk s₀.store).1 same
          (store-changed s₀ (fsync disk s₀.store).1 same w)

-- ===== src/Store/Rewound.antt =====
-- embedding-store/src/store.rs: an insert whose append phase fails leaves the log and the maps as they
-- were.
use embedding_processing_rs.Base.{
  ℕ, ◌≡◌, refl, ◌∙◌, Bool, true, false, List, [], ◌∷◌, arith, Result, Result-cases, subst, ok, err,
  ◌⊎◌, inl, inr, if◌then◌else◌,
}
use embedding_processing_rs.Base.Action.{Action, pure, continue, ◌>>=◌, ◌>>◌}
use embedding_processing_rs.Crates.{Crates}
use embedding_processing_rs.Errors.{Error, not_rewound}
use embedding_processing_rs.Segment
use embedding_processing_rs.Segment.{Disk, ActiveSegment, open_segment}
use embedding_processing_rs.Segment.Log.{log, IsSegment}
use embedding_processing_rs.Segment.Rewind.{
  Grows, Grows-refl, Grows-trans, append-Grows, truncate_to-ok,
}
use embedding_processing_rs.Record.{RecordKind}
use embedding_processing_rs.Dto.{SummaryDto, SplitDto, DocumentDto}
use embedding_processing_rs.Store.Types.{Store, Appended, Placed}
use embedding_processing_rs.Store.Write.{
  on_active, next_seq, append, append_each, append_delete, append_summary, append_summaries,
  append_split, append_splits, append_doc, append_document, rewind, or_rewind, append_or_rewind,
}

abbrev Flushed : Store → Type 0
Flushed s = s.active.unflushed ≡ false → s.active.buffer ≡ []

-- The store without its active segment and its next sequence number.
abbrev pub outside : Store → Store
outside s = record s { manifest = record (s.manifest) { next_seq = 0 }; active = open_segment 0 [] }

-- From `s` to `t` the log was only added to, and what is outside of it stays.
record Holds (s t : Store) : Type 0 where
  grows : Grows s.active t.active
  maps : t.maps ≡ s.maps
  rest : outside t ≡ outside s

Holds-refl : (s : Store) → Flushed s → Holds s s
Holds-refl s f = record { grows = Grows-refl s.active f; maps = refl; rest = refl }

Holds-trans : (s t u : Store) → Holds s t → Holds t u → Holds s u
Holds-trans s t u g h = record {
  grows = Grows-trans s.active t.active u.active g.grows h.grows;
  maps = h.maps ∙ g.maps;
  rest = h.rest ∙ g.rest;
}

-- However the method ends.
abbrev Keeps : {A : Type 0} → Action Error Store A → Type 0
Keeps m = (s : Store) → Flushed s → Holds s (m s).1

module _ {A B : Type 0} where
  continue-Holds :
      (s : Store) (r : Result Error A × Store) (f : A → Action Error Store B)
      → Holds s r.1
      → ((a : A) → Keeps (f a))
      → Holds s (continue r f).1
  continue-Holds s (ok a, t) f h k = Holds-trans s t (f a t).1 h (k a t h.grows.flushed)
  continue-Holds s (err e, t) f h k = h

  Keeps->>= :
      (m : Action Error Store A) (f : A → Action Error Store B)
      → Keeps m
      → ((a : A) → Keeps (f a))
      → Keeps (m >>= f)
  unfolding ◌>>=◌
  Keeps->>= m f h k s flushed = continue-Holds s (m s) f (h s flushed) k

  Keeps->> :
      (m : Action Error Store A) (n : Action Error Store B) → Keeps m → Keeps n → Keeps (m >> n)
  unfolding ◌>>◌
  Keeps->> m n h k s flushed = continue-Holds s (m s) (λ _. n) (h s flushed) (λ _. k)

Keeps-next_seq : Keeps next_seq
unfolding next_seq
Keeps-next_seq s f = record { grows = Grows-refl s.active f; maps = refl; rest = refl }

module _ (crates : Crates) (disk : Disk) where
  Keeps-segment_append :
      (bytes : List ℕ) (seq : ℕ) → Keeps (on_active (Segment.append disk bytes seq))
  Keeps-segment_append bytes seq s f = record {
    grows = append-Grows disk bytes seq s.active f;
    maps = refl;
    rest = refl;
  }

  Keeps-append :
      (kind : RecordKind) (meta vector : List ℕ) → Keeps (append crates disk kind meta vector)
  unfolding append
  Keeps-append kind meta vector = Keeps->>= _ _ Holds-refl (λ dtype.
      Keeps->>= _ _ Keeps-next_seq (λ seq.
        Keeps->>= _ _ (Keeps-segment_append _ seq)
          (λ offset. Keeps->>= _ _ Holds-refl (λ id. Holds-refl))))

  Keeps-append_delete : (d : ℕ) → Keeps (append_delete crates disk d)
  unfolding append_delete
  Keeps-append_delete d = Keeps->>= _ _ Keeps-next_seq (λ seq.
      Keeps->>= _ _ Holds-refl (λ meta. Keeps->> _ _ (Keeps-segment_append _ seq) Holds-refl))

  Keeps-append_each :
      {A : Type 0} (one : A → Action Error Store (Placed A)) (xs : List A)
      → ((x : A) → Keeps (one x))
      → Keeps (append_each one xs)
  unfolding append_each
  Keeps-append_each one [] k = Holds-refl
  Keeps-append_each one (x ∷ xs) k =
      Keeps->>= _ _ (k x)
        (λ placed. Keeps->>= _ _ (Keeps-append_each one xs k) (λ rest. Holds-refl))

  Keeps-append_summary : (x : SummaryDto) → Keeps (append_summary crates disk x)
  unfolding append_summary
  Keeps-append_summary x = Keeps->>= _ _ Holds-refl (λ model_id. Keeps->>= _ _ Holds-refl (λ dtype.
      Keeps->>= _ _ Holds-refl (λ meta.
        Keeps->>= _ _ Holds-refl
          (λ elements. Keeps->>= _ _ (Keeps-append _ _ _) (λ loc. Holds-refl)))))

  Keeps-append_split : (x : SplitDto) → Keeps (append_split crates disk x)
  unfolding append_split
  Keeps-append_split x = Keeps->>= _ _ Holds-refl (λ model_id. Keeps->>= _ _ Holds-refl (λ dtype.
      Keeps->>= _ _ Holds-refl (λ meta.
        Keeps->>= _ _ Holds-refl
          (λ elements. Keeps->>= _ _ (Keeps-append _ _ _) (λ loc. Holds-refl)))))

  Keeps-append_doc : (doc : DocumentDto) → Keeps (append_doc crates disk doc)
  unfolding append_doc
  Keeps-append_doc doc = Keeps->>= _ _ Holds-refl (λ meta.
      Keeps->>= _ _ Holds-refl (λ seq. Keeps->>= _ _ (Keeps-append _ _ _) (λ loc. Holds-refl)))

  Keeps-tombstone : (b : Bool) (d : ℕ) → Keeps (if b then append_delete crates disk d else pure tt)
  Keeps-tombstone true d = Keeps-append_delete d
  Keeps-tombstone false d = Holds-refl

  Keeps-append_document :
      (doc : DocumentDto) (ss : List SummaryDto) → Keeps (append_document crates disk doc ss)
  unfolding append_document append_summaries append_splits
  Keeps-append_document doc ss = Keeps->>= _ _ Holds-refl (λ replaces.
      Keeps->> _ _ (Keeps-tombstone replaces doc.document_id) (
        Keeps->>= _ _ (Keeps-append_each _ ss Keeps-append_summary) (λ placed.
          Keeps->>= _ _ (Keeps-append_each _ doc.splits Keeps-append_split)
            (λ splits. Keeps->>= _ _ (Keeps-append_doc doc) (λ entry. Holds-refl)))))

  -- The log and the next sequence number are as they were, and so is all that is outside of the active
  -- segment. The range of sequence numbers that the segment keeps is not looked at.
  pub record IsUnharmed (s t : Store) : Type 0 where
    pub log : Segment.Log.log t.active ≡ Segment.Log.log s.active
    pub len : t.active.len ≡ s.active.len
    pub id : t.active.id ≡ s.active.id
    pub valid : IsSegment t.active
    pub maps : t.maps ≡ s.maps
    pub next_seq : t.manifest.next_seq ≡ s.manifest.next_seq
    pub rest : outside t ≡ outside s

  -- What an error of the append phase means.
  abbrev pub Rejected : Store → Error → Store → Type 0
  Rejected s e t = ((x y : Error) × (n : ℕ) × (e ≡ not_rewound x n y)) ⊎ IsUnharmed s t

  -- The store behind a rewind that cut the file.
  abbrev rewound : Store → Store → ActiveSegment → Store
  rewound s u a = record u {
    active = a;
    manifest = record (u.manifest) { next_seq = s.manifest.next_seq };
  }

  cut-IsUnharmed :
      (s u : Store) (a : ActiveSegment)
      → IsSegment s.active
      → Holds s u
      → Segment.truncate_to disk s.active.len u.active ≡ (ok tt, a)
      → IsUnharmed s (rewound s u a)
  cut-IsUnharmed s u a valid h cut =
      let (log, len, id, valid') =
        truncate_to-ok disk s.active u.active a h.grows valid.len_log cut in
      record {
        log = log;
        len = len;
        id = id;
        valid = valid';
        maps = h.maps;
        next_seq = refl;
        rest = h.rest;
      }

  or_rewind-Rejected :
      (s : Store) (r : Result Error Appended × Store) (e : Error) (t : Store)
      → IsSegment s.active
      → Holds s r.1
      → or_rewind crates disk s.active.len s.manifest.next_seq r ≡ (err e, t)
      → Rejected s e t
  unfolding rewind
  or_rewind-Rejected s (ok a, u) e t valid h q = absurd (ground (arith, q))
  or_rewind-Rejected s (err x, u) e t valid h q =
      let cut = Segment.truncate_to disk s.active.len u.active in
      elim (Result-cases cut.0) [
        | inl (v, k) ↦
            let same : rewound s u cut.1 ≡ t = ground (arith, q, k) in
            inr (subst (IsUnharmed s) same (cut-IsUnharmed s u cut.1 valid h (λ i. (k i, cut.1))))
        | inr (y, k) ↦ inl (x, y, s.active.len, ground (arith, q, k))
      ]

  -- If the append phase of an insert fails, then either the segment could not be rewound, and the error
  -- says so, or the log, with its length and its segment's id, the maps, the next sequence number and all
  -- else outside of the active segment are as they were. The first and the last sequence number that the
  -- segment keeps need not be. The active segment was well formed.
  pub append_or_rewind-Rejected :
      (doc : DocumentDto) (summaries : List SummaryDto) (s t : Store) (e : Error)
      → append_or_rewind crates disk doc summaries s ≡ (err e, t)
      → IsSegment s.active
      → Rejected s e t
  unfolding append_or_rewind
  append_or_rewind-Rejected doc ss s t e h valid =
      or_rewind-Rejected s (append_document crates disk doc ss s) e t valid
        (Keeps-append_document doc ss s valid.flushed) h

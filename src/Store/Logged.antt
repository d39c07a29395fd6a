-- ===== src/Store/Logged.antt =====
-- embedding-store/src/store.rs and replay.rs: a step of the append phase, with what the replay of the
-- records that it writes does.
use embedding_processing_rs.Base.{
  ℕ, ◌%◌, ◌^◌, ◌<◌, ◌≡◌, refl, ap, sym, ◌∙◌, subst, some, List, [], ◌∷◌, ◌++◌, map, append-nil,
  append_assoc, arith, ok, ok_or, ok_or-ok,
}
use embedding_processing_rs.Base.Action.{Action, ◌>>=◌, >>=-ok, lift-ok, last-ok}
use embedding_processing_rs.Record.{Frame, RecordKind}
use embedding_processing_rs.Record.Encode.{size}
use embedding_processing_rs.Maps.{Loc, Maps}
use embedding_processing_rs.Crates.{Crates, IsFaithful}
use embedding_processing_rs.Errors.{Error, bad_meta}
use embedding_processing_rs.Segment.{Disk}
use embedding_processing_rs.Segment.Log.{IsSegment}
use embedding_processing_rs.Replay.{Pending, split, summary}
use embedding_processing_rs.Replay.Records.{
  Replays, Replays-nil, Replays-append, Replays-summary, Replays-split,
}
use embedding_processing_rs.Dto.{SummaryDto, SplitDto}
use embedding_processing_rs.Store.Types.{Store, Placed}
use embedding_processing_rs.Store.Write.{
  append, append_each, append_summary, append_split, summary_meta, split_meta, vector_of,
}
use embedding_processing_rs.Store.Appends.{
  Appends, Appends-nil, Appends-trans, append-Appends, frame_of, IsInRange,
}

-- The buffered entity that a record becomes.
abbrev pub pending_summary : Placed SummaryDto → Pending
pending_summary (s, loc) = summary s.summary_id s.document_id s.split_id loc

abbrev pub pending_split : Placed SplitDto → Pending
pending_split (s, loc) = split s.split_id s.doc_id (map (λ x. x.summary_id) s.summaries) loc

module _ (crates : Crates) (snapshot_seq : ℕ) where
  -- The records `fs` were appended between `s` and `t`, and their replay leads from these maps and
  -- this buffer to those.
  pub record Logged (s t : Store) (fs : List Frame) (maps : Maps) (pending : List Pending)
      (maps' : Maps) (pending' : List Pending) : Type 0 where
    pub appends : Appends crates s t fs
    pub replays :
        IsInRange t
        → Replays crates s.active.id snapshot_seq fs s.active.len maps pending maps' pending'

  pub Logged-nil :
      (s : Store) (maps : Maps) (pending : List Pending)
      → IsSegment s.active
      → Logged s s [] maps pending maps pending
  Logged-nil s maps pending valid = record {
    appends = Appends-nil crates s valid;
    replays = λ _. Replays-nil crates s.active.id snapshot_seq s.active.len maps pending;
  }

  pub Logged-trans :
      (s t u : Store) (fs gs : List Frame) {m₀ m₁ m₂ : Maps} {p₀ p₁ p₂ : List Pending}
      → Logged s t fs m₀ p₀ m₁ p₁
      → Logged t u gs m₁ p₁ m₂ p₂
      → Logged s u (fs ++ gs) m₀ p₀ m₂ p₂
  Logged-trans s t u fs gs a b = record {
    appends = Appends-trans crates s t u fs gs a.appends b.appends;
    replays = λ r.
        Replays-append crates s.active.id snapshot_seq
          (a.replays (omega (arith, b.appends.len, b.appends.seq)))
          (rw (sym a.appends.id, sym a.appends.len) (b.replays r));
  }

  module _ (disk : Disk) (faithful : IsFaithful crates) where
    append_summary-ok :
        (x : SummaryDto) (s t : Store) (placed : Placed SummaryDto)
        → append_summary crates disk x s ≡ (ok placed, t)
        → (meta vector : List ℕ) × (loc : Loc) × (crates.summary.to_vec
              (summary_meta s.opts.model_id x)
            ≡ some meta)
          × (append crates disk RecordKind.summary meta vector s ≡ (ok loc, t))
          × (placed ≡ (x, loc))
    unfolding append_summary ◌>>=◌
    append_summary-ok x s t placed h =
        let (meta, em, h₁) =
          lift-ok (ok_or (crates.summary.to_vec (summary_meta s.opts.model_id x)) bad_meta) _ s h in
        let (vector, ev, h₂) = lift-ok (vector_of x.embedding) _ s h₁ in
        let (loc, ea, ep) = last-ok (append crates disk RecordKind.summary meta _) _ s h₂ in
        (meta, _, loc, ok_or-ok _ bad_meta em, ea, ep)

    -- The location that `append` returns is the one that the replay computes.
    pub same_loc :
        (kind : RecordKind) (meta vector : List ℕ) (s t : Store) (loc : Loc)
        → append crates disk kind meta vector s ≡ (ok loc, t)
        → IsSegment s.active
        → IsInRange t
        → loc ≡ record {
          segment = s.active.id;
          offset = s.active.len;
          len = size (frame_of crates disk kind meta vector s);
        }
    same_loc kind meta vector s t loc h valid r =
        let (appends, e, last) = append-Appends crates disk kind meta vector s t loc h valid in
        let fits = (appends.fits r).0 in
        e ∙ wrap (size (frame_of crates disk kind meta vector s)) fits.size_u32
      where
        wrap :
            (n : ℕ)
            → n < 2 ^ 32
            → ◌≡◌ {A = Loc}
                (record { segment = s.active.id; offset = s.active.len; len = n % 2 ^ 32 })
                (record { segment = s.active.id; offset = s.active.len; len = n })
        wrap n h = ground arith

    pub append_summary-Logged :
        (x : SummaryDto) (s t : Store) (placed : Placed SummaryDto)
        → append_summary crates disk x s ≡ (ok placed, t)
        → IsSegment s.active
        → snapshot_seq < s.manifest.next_seq
        → (placed.0 ≡ x)
          × (fs : List Frame) × ((maps : Maps) (pending : List Pending)
              → Logged s t fs maps pending maps (pending ++ (pending_summary placed ∷ [])))
    append_summary-Logged x s t placed h valid newer =
        let (meta, vector, loc, em, ea, ep) = append_summary-ok x s t placed h in
        let f : Frame = frame_of crates disk RecordKind.summary meta vector s in
        (
          ap (λ (p : Placed SummaryDto). p.0) ep,
          f ∷ [],
          λ maps pending. record {
            appends =
                (append-Appends crates disk RecordKind.summary meta vector s t loc ea valid).0;
            replays = λ r.
                rw (ep, same_loc RecordKind.summary meta vector s t loc ea valid r)
                  (Replays-summary crates s.active.id snapshot_seq f s.active.len newer
                    (summary_meta s.opts.model_id x) maps pending refl
                    (faithful.summary_trips _ meta em));
          },
        )

    append_split-ok :
        (x : SplitDto) (s t : Store) (placed : Placed SplitDto)
        → append_split crates disk x s ≡ (ok placed, t)
        → (meta vector : List ℕ) × (loc : Loc) × (crates.split.to_vec (split_meta s.opts.model_id x)
            ≡ some meta)
          × (append crates disk RecordKind.split meta vector s ≡ (ok loc, t))
          × (placed ≡ (x, loc))
    unfolding append_split ◌>>=◌
    append_split-ok x s t placed h =
        let (meta, em, h₁) =
          lift-ok (ok_or (crates.split.to_vec (split_meta s.opts.model_id x)) bad_meta) _ s h in
        let (vector, ev, h₂) = lift-ok (vector_of x.embedding) _ s h₁ in
        let (loc, ea, ep) = last-ok (append crates disk RecordKind.split meta _) _ s h₂ in
        (meta, _, loc, ok_or-ok _ bad_meta em, ea, ep)

    pub append_split-Logged :
        (x : SplitDto) (s t : Store) (placed : Placed SplitDto)
        → append_split crates disk x s ≡ (ok placed, t)
        → IsSegment s.active
        → snapshot_seq < s.manifest.next_seq
        → (placed.0 ≡ x)
          × (fs : List Frame) × ((maps : Maps) (pending : List Pending)
              → Logged s t fs maps pending maps (pending ++ (pending_split placed ∷ [])))
    append_split-Logged x s t placed h valid newer =
        let (meta, vector, loc, em, ea, ep) = append_split-ok x s t placed h in
        let f : Frame = frame_of crates disk RecordKind.split meta vector s in
        (
          ap (λ (p : Placed SplitDto). p.0) ep,
          f ∷ [],
          λ maps pending. record {
            appends = (append-Appends crates disk RecordKind.split meta vector s t loc ea valid).0;
            replays = λ r.
                rw (ep, same_loc RecordKind.split meta vector s t loc ea valid r)
                  (Replays-split crates s.active.id snapshot_seq f s.active.len newer
                    (split_meta s.opts.model_id x) maps pending refl
                    (faithful.split_trips _ meta em));
          },
        )

  -- A loop over entities whose records are buffered one by one buffers them all, in order.
  module _ {A : Type 0} (one : A → Action Error Store (Placed A)) (as_pending : Placed A → Pending)
      (one_Logged : (x : A) (s t : Store) (placed : Placed A)
        → one x s ≡ (ok placed, t)
        → IsSegment s.active
        → snapshot_seq < s.manifest.next_seq
        → (placed.0 ≡ x)
          × (fs : List Frame) × ((maps : Maps) (pending : List Pending)
              → Logged s t fs maps pending maps (pending ++ (as_pending placed ∷ [])))) where
    pub append_each-Logged :
        (xs : List A) (s t : Store) (placed : List (Placed A))
        → append_each one xs s ≡ (ok placed, t)
        → IsSegment s.active
        → snapshot_seq < s.manifest.next_seq
        → (map (λ p. p.0) placed ≡ xs)
          × (fs : List Frame) × ((maps : Maps) (pending : List Pending)
              → Logged s t fs maps pending maps (pending ++ map as_pending placed))
    unfolding append_each ◌>>=◌
    append_each-Logged [] s t placed h valid newer =
        let e : [] ≡ placed = cc h in
        let e' : s ≡ t = cc h in
        rw (← e, ← e') (refl, [], λ maps pending. rw append-nil (Logged-nil s maps pending valid))
    append_each-Logged (x ∷ xs) s t placed h valid newer =
        let (p, s', e, h₁) = >>=-ok (one x) _ s h in
        let (ps, e', ep) = last-ok (append_each one xs) _ s' h₁ in
        let (same, fs, logged) = one_Logged x s s' p e valid newer in
        let appends = (logged s.maps []).appends in
        let (same', gs, logged') =
          append_each-Logged xs s' t ps e' appends.valid (omega (arith, appends.seq)) in
        rw ep (
          cc (same, same'),
          fs ++ gs,
          λ maps pending.
              subst (λ l. Logged s t (fs ++ gs) maps pending maps l)
                (append_assoc pending (as_pending p ∷ []) (map as_pending ps))
                (Logged-trans s s' t fs gs (logged maps pending)
                  (logged' maps (pending ++ (as_pending p ∷ [])))),
        )

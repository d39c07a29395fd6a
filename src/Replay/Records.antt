-- ===== src/Replay/Records.antt =====
-- embedding-store/src/replay.rs: what the replay of some records does to the maps and to the buffer of
-- entities that wait for their document, whatever the counters of the scan are.
use embedding_processing_rs.Base.{
  ℕ, ◌+◌, ◌<◌, ◌≡◌, refl, ap, sym, ◌∙◌, some, List, [], ◌∷◌, ◌++◌, lt→ltb, not, filter_by, Result,
  ok, ◌>>=◌, >>=-assoc, >>=-congr,
}
use embedding_processing_rs.Record.{Frame, RecordKind, DocMeta, SplitMeta, SummaryMeta, DeleteMeta}
use embedding_processing_rs.Record.Encode.{size, view}
use embedding_processing_rs.Crates.{Crates}
use embedding_processing_rs.Errors.{Error}
use embedding_processing_rs.Maps.{Loc, Maps, remove_doc}
use embedding_processing_rs.Replay.{
  Scanning, SegmentScan, or_else, Pending, split, summary, scan_record, apply, commit_doc,
  belongs_to, u32_max,
}
use embedding_processing_rs.Replay.Frames.{replay_frames, total_size}
use native.Mathlib.Nat.{add-zero, add_assoc}

module _ (crates : Crates) (segment_id snapshot_seq : ℕ) where
  abbrev replay : List Frame → ℕ → Scanning → Result Error Scanning
  replay = replay_frames crates segment_id snapshot_seq

  -- The records, replayed from `offset` on, lead from these maps and this buffer to those.
  pub record Replays (fs : List Frame) (offset : ℕ) (maps : Maps) (pending : List Pending)
      (maps' : Maps) (pending' : List Pending) : Type 0 where
    pub at :
        (scan : SegmentScan)
        → (scan' : SegmentScan) × (replay fs offset
              (record { scan = scan; maps = maps; pending = pending })
            ≡ ok (record { scan = scan'; maps = maps'; pending = pending' }))

  pub Replays-nil :
      (offset : ℕ) (maps : Maps) (pending : List Pending)
      → Replays [] offset maps pending maps pending
  Replays-nil offset maps pending = record { at = λ scan. (scan, refl) }

  replay-append :
      (fs gs : List Frame) (offset : ℕ) (s : Scanning)
      → replay (fs ++ gs) offset s ≡ (replay fs offset s >>= replay gs (offset + total_size fs))
  replay-append [] gs offset s = rw add-zero
  replay-append (f ∷ fs) gs offset s =
      >>=-congr (scan_record crates segment_id snapshot_seq offset (view f) s) (λ s'.
        replay-append fs gs (offset + size f) s'
        ∙ ap (λ (n : ℕ). replay fs (offset + size f) s' >>= replay gs n)
            (add_assoc offset (size f) (total_size fs)))
      ∙ sym (
          >>=-assoc (scan_record crates segment_id snapshot_seq offset (view f) s)
            (replay fs (offset + size f)) (replay gs (offset + total_size (f ∷ fs))))

  pub Replays-append :
      {fs gs : List Frame} {offset : ℕ} {m₀ m₁ m₂ : Maps} {p₀ p₁ p₂ : List Pending}
      → Replays fs offset m₀ p₀ m₁ p₁
      → Replays gs (offset + total_size fs) m₁ p₁ m₂ p₂
      → Replays (fs ++ gs) offset m₀ p₀ m₂ p₂
  Replays-append {fs} {gs} {offset} {m₀} {m₁} {m₂} {p₀} {p₁} {p₂} first second = record {
    at = λ scan.
        let (scan₁, e₁) = first.at scan in
        let (scan₂, e₂) = second.at scan₁ in
        (
          scan₂,
          replay-append fs gs offset (record { scan = scan; maps = m₀; pending = p₀ })
              ∙ ap (λ (r : Result Error Scanning). r >>= replay gs (offset + total_size fs)) e₁
              ∙ e₂,
        );
  }

  -- One record that the snapshot does not cover.
  module _ (f : Frame) (offset : ℕ) (newer : snapshot_seq < f.seq) where
    abbrev pub loc_of : Loc
    loc_of = record { segment = segment_id; offset = offset; len = size f }

    after : SegmentScan → SegmentScan
    after scan = record scan {
      applied = scan.applied + 1;
      first_seq = or_else scan.first_seq f.seq;
      last_seq = f.seq;
      good_bytes = offset + size f;
    }

    Replays-one :
        (maps maps' : Maps) (pending pending' : List Pending)
        → apply crates f.kind f.seq f.meta loc_of maps pending ≡ ok (maps', pending')
        → Replays (f ∷ []) offset maps pending maps' pending'
    unfolding scan_record after
    Replays-one maps maps' pending pending' e = record {
      at = λ scan. (after scan, rw (lt→ltb snapshot_seq f.seq newer, e));
    }

    pub Replays-split :
        (m : SplitMeta) (maps : Maps) (pending : List Pending)
        → f.kind ≡ RecordKind.split
        → crates.split.from_slice f.meta ≡ some m
        → Replays
            (f ∷ [])
            offset
            maps
            pending
            maps
            (pending ++ (split m.split_id m.doc_id m.summary_ids loc_of ∷ []))
    unfolding apply
    Replays-split m maps pending k e = Replays-one maps maps pending _ (rw (k, e))

    pub Replays-summary :
        (m : SummaryMeta) (maps : Maps) (pending : List Pending)
        → f.kind ≡ RecordKind.summary
        → crates.summary.from_slice f.meta ≡ some m
        → Replays
            (f ∷ [])
            offset
            maps
            pending
            maps
            (pending ++ (summary m.summary_id m.doc_id m.split_id loc_of ∷ []))
    unfolding apply
    Replays-summary m maps pending k e = Replays-one maps maps pending _ (rw (k, e))

    pub Replays-delete :
        (m : DeleteMeta) (maps : Maps) (pending : List Pending)
        → f.kind ≡ RecordKind.delete_doc
        → crates.delete.from_slice f.meta ≡ some m
        → Replays
            (f ∷ [])
            offset
            maps
            pending
            (remove_doc m.doc_id u32_max maps).1
            (filter_by (λ p. not (belongs_to m.doc_id p)) pending)
    unfolding apply
    Replays-delete m maps pending k e = Replays-one maps _ pending _ (rw (k, e))

    pub Replays-doc :
        (m : DocMeta) (maps : Maps) (pending : List Pending)
        → f.kind ≡ RecordKind.doc
        → crates.doc.from_slice f.meta ≡ some m
        → Replays
            (f ∷ [])
            offset
            maps
            pending
            (commit_doc m f.seq loc_of maps pending).0
            (commit_doc m f.seq loc_of maps pending).1
    unfolding apply
    Replays-doc m maps pending k e = Replays-one maps _ pending _ (rw (k, e))

-- ===== src/Store/Rescanned.antt =====
-- embedding-store/src/store.rs: the replay of `open` on segments that hold whole records.
use embedding_processing_rs.Base.{
  ℕ, ◌≤◌, max, ◌≡◌, refl, ap, sym, ◌∙◌, Bool, true, false, Bool-cases, inl, inr, some, List, [],
  ◌∷◌, append-nil, arith, length, take_first, leb, leb→le, ok, All,
}
use embedding_processing_rs.Base.Action.{◌>>=◌}
use embedding_processing_rs.HashMap
use embedding_processing_rs.HashMap.{HashMap, get-insert, get-remove}
use embedding_processing_rs.Maps.{Maps}
use embedding_processing_rs.Crates.{Crates, IsFaithful}
use embedding_processing_rs.Record.{Frame}
use embedding_processing_rs.Record.Encode.{Fits}
use embedding_processing_rs.Manifest.{Manifest, SegmentInfo}
use embedding_processing_rs.Segment
use embedding_processing_rs.Segment.{Disk, ActiveSegment, open_segment}
use embedding_processing_rs.Replay.{SegmentScan, scan_segment}
use embedding_processing_rs.Replay.Frames.{encode_all}
use embedding_processing_rs.Replay.Records.{Replays}
use embedding_processing_rs.Replay.Untorn.{scan_segment-Replays}
use embedding_processing_rs.Store.Types.{Store, StoreOptions}
use embedding_processing_rs.Store.Opening.{replay_sealed, replay_all}
use embedding_processing_rs.Store.Open.{Directory, opened, open_replayed}
use embedding_processing_rs.Store.Whole.{SegmentReplays, SealedReplays}

length-eq-zero : (xs : List ℕ) → length xs ≡ 0 → [] ≡ xs
length-eq-zero [] h = refl
length-eq-zero (x ∷ xs) h = absurd (ground (arith, h))

module _ (crates : Crates) (faithful : IsFaithful crates) (snapshot_seq : ℕ) where
  -- A segment that the snapshot covers is skipped, and the others are replayed.
  replay_sealed-SegmentReplays :
      (i : SegmentInfo) (sealed : HashMap (List ℕ)) (bytes : List ℕ) (m m' : Maps) (max_seq : ℕ)
      → HashMap.get i.id sealed ≡ some bytes
      → SegmentReplays crates snapshot_seq i bytes m m'
      → (n : ℕ) × (replay_sealed crates snapshot_seq sealed i m max_seq ≡ ok (m', n))
        × (max_seq ≤ n)
  unfolding replay_sealed
  replay_sealed-SegmentReplays i sealed bytes m m' max_seq found r =
      elim (Bool-cases (leb i.last_seq snapshot_seq)) [
        | inl e ↦ (
          max_seq,
          rw e (ap (λ (u : Maps). ok (u, max_seq)) (sym (r.covered (leb→le _ _ e)))),
          omega arith,
        )
        | inr e ↦
            let (scan, whole, torn) =
              scan_segment-Replays crates faithful snapshot_seq i.id false m m' r.frames r.fits
                r.replays in
            (max max_seq scan.last_seq, rw (e, found, r.bytes_frames, whole) refl, omega arith)
      ]

  pub replay_all-SealedReplays :
      (is : List SegmentInfo) (sealed sealed' : HashMap (List ℕ)) (m m' : Maps) (max_seq : ℕ)
      → All (λ i. HashMap.get i.id sealed' ≡ HashMap.get i.id sealed) is
      → SealedReplays crates snapshot_seq is sealed m m'
      → (n : ℕ) × (replay_all crates snapshot_seq sealed' is m max_seq ≡ ok (m', n)) × (max_seq ≤ n)
  replay_all-SealedReplays [] sealed sealed' m m' max_seq same e =
      (max_seq, ap (λ (u : Maps). ok (u, max_seq)) e, omega arith)
  replay_all-SealedReplays (i ∷ is) sealed sealed' m m' max_seq same (bytes, mid, found, r, rest) =
      let (n, e, le) =
        replay_sealed-SegmentReplays i sealed' bytes m mid max_seq (same.0 ∙ found) r in
      let (n', e', le') = replay_all-SealedReplays is sealed sealed' mid m' n same.1 rest in
      (n', rw e e', omega (arith, le, le'))

  read_all-file : (a : ActiveSegment) → a.len ≡ length a.file → Segment.read_all a ≡ ok a.file
  unfolding Segment.read_all Segment.read_at
  read_all-file a h = ground (
    arith,
    h,
    take_first (length a.file) a.file [] refl,
    append-nil a.file,
    length-eq-zero a.file,
  )

  module _ (disk : Disk) (is_utf8 : List ℕ → Bool) (opts : StoreOptions) (m : Manifest)
      (sealed : HashMap (List ℕ)) (a : ActiveSegment) (start base maps : Maps) (d : Directory)
      (frames : List Frame) where
    -- What is opened with the counters of the scan.
    abbrev pub scanned : SegmentScan → ℕ → Store
    scanned scan n =
        opened disk opts m sealed
          (record a { first_seq = scan.first_seq; last_seq = scan.last_seq }) maps
          (max n scan.last_seq) d

    pub open_replayed-ok :
        (n : ℕ)
        → replay_all crates snapshot_seq sealed m.sealed start snapshot_seq ≡ ok (base, n)
        → a.len ≡ length a.file
        → a.file ≡ encode_all crates.crc32 frames
        → All Fits frames
        → Replays crates a.id snapshot_seq frames 0 base [] maps []
        → (scan : SegmentScan) × (open_replayed disk crates is_utf8 opts m sealed a start
              snapshot_seq d
            ≡ (ok (scanned scan n), d))
    unfolding open_replayed ◌>>=◌
    open_replayed-ok n e len bytes fits r =
        let (scan, whole, torn) =
          scan_segment-Replays crates faithful snapshot_seq a.id true base maps frames fits r in
        let scan_ok : scan_segment crates a.file a.id snapshot_seq base true ≡ ok (scan, maps) =
          ap (λ l. scan_segment crates l a.id snapshot_seq base true) bytes ∙ whole in
        (scan, ground (arith, e, read_all-file a len, scan_ok, torn))

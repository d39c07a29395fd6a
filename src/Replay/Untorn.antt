-- ===== src/Replay/Untorn.antt =====
-- embedding-store/src/replay.rs: the scan of a segment of whole records whose replay is known.
use embedding_processing_rs.Base.{
  ℕ, ◌+◌, ◌≡◌, ap, ◌∙◌, Bool, none, List, [], ◌∷◌, arith, All, Result, ok, ◌>>=◌, >>=-eq-ok,
}
use embedding_processing_rs.Record.{Frame}
use embedding_processing_rs.Record.Encode.{view, size, Fits}
use embedding_processing_rs.Crates.{Crates, IsFaithful}
use embedding_processing_rs.Errors.{Error}
use embedding_processing_rs.Maps.{Maps}
use embedding_processing_rs.Replay.{Scanning, SegmentScan, no_scan, scan_segment, scan_record}
use embedding_processing_rs.Replay.Frames.{replay_frames, encode_all}
use embedding_processing_rs.Replay.Torn.{scan_segment_whole, outcome}
use embedding_processing_rs.Replay.Records.{Replays}

module _ (crates : Crates) (faithful : IsFaithful crates) (snapshot_seq id : ℕ) where
  scan_record-torn_at :
      (f : Frame) (offset : ℕ) (s s' : Scanning)
      → scan_record crates id snapshot_seq offset (view f) s ≡ ok s'
      → s'.scan.torn_at ≡ s.scan.torn_at
  unfolding scan_record
  scan_record-torn_at f offset s s' h = ground (arith, h)

  replay_frames-torn_at :
      (fs : List Frame) (offset : ℕ) (s s' : Scanning)
      → replay_frames crates id snapshot_seq fs offset s ≡ ok s'
      → s'.scan.torn_at ≡ s.scan.torn_at
  replay_frames-torn_at [] offset s s' h = cc
  replay_frames-torn_at (f ∷ fs) offset s s' h =
      let (s₁, e, e') =
        >>=-eq-ok (scan_record crates id snapshot_seq offset (view f) s)
          (replay_frames crates id snapshot_seq fs (offset + size f)) h in
      replay_frames-torn_at fs (offset + size f) s₁ s' e' ∙ scan_record-torn_at f offset s s₁ e

  -- The scan succeeds with the maps of the replay, and finds no torn tail.
  pub scan_segment-Replays :
      (allow_torn_tail : Bool) (m m' : Maps) (frames : List Frame)
      → All Fits frames
      → Replays crates id snapshot_seq frames 0 m [] m' []
      → (scan : SegmentScan) × (scan_segment crates
            (encode_all crates.crc32 frames)
            id
            snapshot_seq
            m
            allow_torn_tail
          ≡ ok (scan, m'))
        × (scan.torn_at ≡ none)
  scan_segment-Replays allow m m' frames fits r =
      let (scan, f) = r.at no_scan in
      (
        scan,
        scan_segment_whole crates faithful.crc_u32 id snapshot_seq allow m frames fits
            ∙ ap (λ (q : Result Error Scanning). q >>= outcome) f,
        replay_frames-torn_at frames 0 _ _ f,
      )

-- ===== src/Replay/Torn.antt =====
-- embedding-store/src/replay.rs: the scan of a segment of whole records, and of one whose last
-- record was cut off by a crash.
use embedding_processing_rs.Base.{
  ℕ, ◌+◌, ◌<◌, ◌≡◌, ap, sym, ◌∙◌, Bool, some, List, [], ◌∷◌, ◌++◌, append-nil, arith, length, All,
  Result, ok, err, ◌>>=◌, >>=-congr, >>=-assoc, >>=-ok, if◌then◌else◌, ltb,
}
use embedding_processing_rs.Record.{Frame, record_header_len, truncated}
use embedding_processing_rs.Record.Encode.{encode_frame, size, Fits, IsChecksum}
use embedding_processing_rs.Record.RoundTrip.{decode_cut}
use embedding_processing_rs.Crates.{Crates}
use embedding_processing_rs.Errors.{Error, corrupt}
use embedding_processing_rs.Maps.{Maps}
use embedding_processing_rs.Replay.{
  Scanning, SegmentScan, scan_loop, scan_bad, scan_segment, is_torn_tail, no_scan,
}
use embedding_processing_rs.Replay.Frames.{encode_all, total_size, replay_frames, scan_frames}
use native.Mathlib.Nat.{zero-add}

-- Where the loop begins.
abbrev pub start : Maps → Scanning
start maps = record { scan = no_scan; maps = maps; pending = [] }

abbrev pub outcome : Scanning → Result Error (SegmentScan × Maps)
outcome s = ok (s.scan, s.maps)

-- The bytes that a cut record was short of.
abbrev pub need : Frame → List ℕ → ℕ
need f front = if ltb (length front) record_header_len then record_header_len else size f

module _ (crates : Crates) (u32 : IsChecksum crates.crc32) (segment_id snapshot_seq : ℕ)
    (allow : Bool) (maps : Maps) (fs : List Frame) (fit : All Fits fs) where
  scan_whole :
      scan_loop crates segment_id snapshot_seq allow
        (length (encode_all crates.crc32 fs))
        (encode_all crates.crc32 fs)
        0
        (start maps)
      ≡ replay_frames crates segment_id snapshot_seq fs 0 (start maps)
  unfolding scan_loop
  scan_whole =
      ap
        (λ (t : List ℕ). scan_loop crates segment_id snapshot_seq allow (length t) t 0 (start maps))
        (sym (append-nil (encode_all crates.crc32 fs)))
      ∙ scan_frames crates u32 segment_id snapshot_seq allow fs [] 0 (start maps) fit
      ∙ >>=-ok (replay_frames crates segment_id snapshot_seq fs 0 (start maps))

  -- The scan of a segment of encoded records, each of which fits its fields, is the replay of these
  -- records in order, each at the offset where the ones before it end. The checksum is a u32.
  pub scan_segment_whole :
      scan_segment crates (encode_all crates.crc32 fs) segment_id snapshot_seq maps allow
      ≡ (replay_frames crates segment_id snapshot_seq fs 0 (start maps) >>= outcome)
  unfolding scan_segment
  scan_segment_whole = ap (λ (r : Result Error Scanning). r >>= outcome) scan_whole

  module _ (f : Frame) (fits : Fits f) (x : ℕ) (front back : List ℕ)
      (cut : encode_frame crates.crc32 f ≡ (x ∷ front) ++ back)
      (short : length (x ∷ front) < size f) where
    scan_front :
        (offset : ℕ) (s : Scanning)
        → scan_loop crates segment_id snapshot_seq allow (length (x ∷ front)) (x ∷ front) offset s
          ≡ (if allow
              then ok (record s { scan = record (s.scan) { torn_at = some offset } })
              else err
                  (corrupt segment_id offset (truncated (need f (x ∷ front)) (length (x ∷ front)))))
    unfolding scan_loop scan_bad is_torn_tail
    scan_front offset s =
        rw (decode_cut crates.crc32 u32 f fits (x ∷ front) back cut short, scan_loop) (ground arith)

    torn_end :
        (s : Scanning)
        → (scan_loop crates segment_id snapshot_seq allow
              (length (x ∷ front))
              (x ∷ front)
              (0 + total_size fs)
              s
            >>= outcome)
          ≡ (if allow
              then ok (record (s.scan) { torn_at = some (total_size fs) }, s.maps)
              else err (
                  corrupt segment_id
                    (total_size fs)
                    (truncated (need f (x ∷ front)) (length (x ∷ front)))))
    torn_end s = rw (zero-add (total_size fs), scan_front (total_size fs) s) (ground arith)

    -- With the nonempty bytes of a record that was cut off behind encoded records that fit: where a
    -- torn tail is allowed, the whole records are replayed and the scan reports where they end;
    -- otherwise it is an error at that offset, with the length that was missing. The checksum is a
    -- u32.
    pub scan_segment_torn :
        scan_segment crates
          (encode_all crates.crc32 fs ++ (x ∷ front))
          segment_id
          snapshot_seq
          maps
          allow
        ≡ (replay_frames crates segment_id snapshot_seq fs 0 (start maps) >>= λ s.
            if allow
            then ok (record (s.scan) { torn_at = some (total_size fs) }, s.maps)
            else err (
                corrupt segment_id
                  (total_size fs)
                  (truncated (need f (x ∷ front)) (length (x ∷ front)))))
    unfolding scan_segment
    scan_segment_torn =
        ap (λ (r : Result Error Scanning). r >>= outcome)
          (scan_frames crates u32 segment_id snapshot_seq allow fs (x ∷ front) 0 (start maps) fit)
        ∙ >>=-assoc (replay_frames crates segment_id snapshot_seq fs 0 (start maps))
            (scan_loop crates segment_id snapshot_seq allow (length (x ∷ front)) (x ∷ front)
              (0 + total_size fs))
            outcome
        ∙ >>=-congr (replay_frames crates segment_id snapshot_seq fs 0 (start maps))
            (λ s. torn_end s)

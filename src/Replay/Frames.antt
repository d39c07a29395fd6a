-- ===== src/Replay/Frames.antt =====
-- embedding-store/src/replay.rs: a segment that holds whole records is replayed record by record,
-- and a record that is cut off at its end is a torn tail.
use embedding_processing_rs.Base.{
  ℕ, ◌+◌, ◌<◌, ◌≡◌, refl, ap, sym, ◌∙◌, Bool, List, [], ◌∷◌, ◌++◌, append_assoc, arith, length,
  drop, length-append, drop_first, All, Result, ok, ◌>>=◌, >>=-congr, >>=-assoc,
}
use native.Mathlib.Nat.{add-zero, add_assoc}
use embedding_processing_rs.Record.{Frame, RecordView, decode}
use embedding_processing_rs.Record.Encode.{
  encode_frame, length-encode, size, view, Fits, IsChecksum,
}
use embedding_processing_rs.Record.RoundTrip.{decode-encode}
use embedding_processing_rs.Crates.{Crates}
use embedding_processing_rs.Errors.{Error}
use embedding_processing_rs.Replay.{Scanning, scan_loop, scan_record}
use embedding_processing_rs.Replay.Fuel.{scan_loop_ok, scan_loop_fuel, shorter}

-- The bytes of a log: the records one after the other.
abbrev pub encode_all : (List ℕ → ℕ) → List Frame → List ℕ
encode_all crc [] = []
encode_all crc (f ∷ fs) = encode_frame crc f ++ encode_all crc fs

abbrev pub total_size : List Frame → ℕ
total_size [] = 0
total_size (f ∷ fs) = size f + total_size fs

-- The replay of a list of records from `offset` on, with no bytes: what the scan is to do.
abbrev pub replay_frames : Crates → ℕ → ℕ → List Frame → ℕ → Scanning → Result Error Scanning
replay_frames crates segment_id snapshot_seq [] offset s = ok s
replay_frames crates segment_id snapshot_seq (f ∷ fs) offset s =
    scan_record crates segment_id snapshot_seq offset (view f) s
    >>= replay_frames crates segment_id snapshot_seq fs (offset + size f)

pub encode_all-append :
    (crc : List ℕ → ℕ) (fs gs : List Frame)
    → encode_all crc (fs ++ gs) ≡ encode_all crc fs ++ encode_all crc gs
encode_all-append crc [] gs = refl
encode_all-append crc (f ∷ fs) gs = rw (encode_all-append crc fs gs, append_assoc)

pub length-encode_all :
    (crc : List ℕ → ℕ) (fs : List Frame) → length (encode_all crc fs) ≡ total_size fs
length-encode_all crc [] = refl
length-encode_all crc (f ∷ fs) = omega (
  arith,
  length-append (encode_frame crc f) (encode_all crc fs),
  length-encode crc f.seq f.kind f.dtype f.meta f.vector,
  length-encode_all crc fs,
)

module _ (crates : Crates) (u32 : IsChecksum crates.crc32) (segment_id snapshot_seq : ℕ)
    (allow : Bool) where
  -- The scan without its fuel.
  abbrev pub scan_from : List ℕ → ℕ → Scanning → Result Error Scanning
  scan_from rest = scan_loop crates segment_id snapshot_seq allow (length rest) rest

  scan_from_ok :
      (rest : List ℕ) (offset : ℕ) (s : Scanning) (v : RecordView)
      → 0 < length rest
      → decode crates.crc32 rest ≡ ok v
      → scan_from rest offset s ≡ (
          scan_record crates segment_id snapshot_seq offset v s
          >>= scan_from (drop v.len rest) (offset + v.len))
  scan_from_ok [] offset s v h e = absurd (omega arith)
  scan_from_ok (b ∷ bs) offset s v h e =
      scan_loop_ok crates segment_id snapshot_seq allow (length bs) b bs offset s v e
      ∙ >>=-congr (scan_record crates segment_id snapshot_seq offset v s) (λ s'.
        scan_loop_fuel crates segment_id snapshot_seq allow (length bs)
          (length (drop v.len (b ∷ bs))) (drop v.len (b ∷ bs)) (offset + v.len) s'
          (shorter crates segment_id snapshot_seq allow b bs v e) (omega arith))

  frame_first :
      (f : Frame) (rest : List ℕ) (offset : ℕ) (s : Scanning)
      → Fits f
      → scan_from (encode_frame crates.crc32 f ++ rest) offset s ≡ (
          scan_record crates segment_id snapshot_seq offset (view f) s
          >>= scan_from rest (offset + size f))
  frame_first f rest offset s fits =
      scan_from_ok (encode_frame crates.crc32 f ++ rest) offset s (view f)
        (omega (
          arith,
          length-append (encode_frame crates.crc32 f) rest,
          length-encode crates.crc32 f.seq f.kind f.dtype f.meta f.vector,
        ))
        (decode-encode crates.crc32 u32 f fits rest)
      ∙ ap
          (λ (t : List ℕ).
            scan_record crates segment_id snapshot_seq offset (view f) s
            >>= scan_from t (offset + size f))
          (drop_first (size f) (encode_frame crates.crc32 f) rest
            (length-encode crates.crc32 f.seq f.kind f.dtype f.meta f.vector))

  -- The scan of whole records, whatever follows them, replays them and goes on behind them.
  pub scan_frames :
      (fs : List Frame) (rest : List ℕ) (offset : ℕ) (s : Scanning)
      → All Fits fs
      → scan_from (encode_all crates.crc32 fs ++ rest) offset s ≡ (
          replay_frames crates segment_id snapshot_seq fs offset s
          >>= scan_from rest (offset + total_size fs))
  scan_frames [] rest offset s h = rw add-zero
  scan_frames (f ∷ fs) rest offset s h =
      ap (λ (t : List ℕ). scan_from t offset s)
        (append_assoc (encode_frame crates.crc32 f) (encode_all crates.crc32 fs) rest)
      ∙ frame_first f (encode_all crates.crc32 fs ++ rest) offset s h.0
      ∙ >>=-congr (scan_record crates segment_id snapshot_seq offset (view f) s) (λ s'.
        scan_frames fs rest (offset + size f) s' h.1
        ∙ ap
            (λ (n : ℕ).
              replay_frames crates segment_id snapshot_seq fs (offset + size f) s'
              >>= scan_from rest n)
            (add_assoc offset (size f) (total_size fs)))
      ∙ sym (
          >>=-assoc (scan_record crates segment_id snapshot_seq offset (view f) s)
            (replay_frames crates segment_id snapshot_seq fs (offset + size f))
            (scan_from rest (offset + total_size (f ∷ fs))))

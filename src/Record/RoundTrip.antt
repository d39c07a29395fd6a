-- ===== src/Record/RoundTrip.antt =====
-- embedding-store/src/record.rs: `decode` reads back what `encode` wrote.
use embedding_processing_rs.Base.{
  ℕ, ◌+◌, ◌-◌, ◌%◌, ◌^◌, ◌<◌, ◌≤◌, ◌≡◌, ap, sym, ◌∙◌, List, ◌∷◌, ◌++◌, arith, length, take, slice,
  take-append_le, length-append, take_first, drop-drop, take-append_length, drop-append_length, ok,
  err, to_le_bytes, from_le_bytes, from_le_bytes-to_le_bytes, length-to_le_bytes, IsU32, ltb,
  le→ltb_false, lt→ltb, Bool-cases, inl, inr, if◌then◌else◌, ==_refl, some,
}
use embedding_processing_rs.Record.Kind.{
  RecordKind, VectorDtype, kind_to_u8, dtype_to_u8, kind_from_u8, dtype_from_u8,
  kind_from_u8-kind_to_u8, dtype_from_u8-dtype_to_u8, record_header_len,
}
use embedding_processing_rs.Record.Layout.{
  layout, drop_8, drop_22, kind_byte, dtype_byte, length_bytes, crc_bytes, seq_bytes,
  meta_len_bytes,
}
use embedding_processing_rs.Record.Codec.{Frame, decode, decode_frame, truncated}
use embedding_processing_rs.Record.Encode.{
  frame_len, encode-layout, length-encode, encode_frame, size, view, Fits, IsChecksum,
}

header_cancel : (n : ℕ) → record_header_len + n - record_header_len ≡ n
header_cancel n = omega arith

-- The fields of a frame whose checksum, codes and lengths are right.
decode_frame-layout :
    (crc : List ℕ → ℕ) (l c s : List ℕ) (k d : ℕ) (m meta vector : List ℕ) (kind : RecordKind)
    (dtype : VectorDtype)
    → length l ≡ 4
    → length c ≡ 4
    → length s ≡ 8
    → length m ≡ 4
    → from_le_bytes c ≡ crc (s ++ (k ∷ d ∷ (m ++ (meta ++ vector))))
    → kind_from_u8 k ≡ some kind
    → dtype_from_u8 d ≡ some dtype
    → from_le_bytes m ≡ length meta
    → decode_frame crc (frame_len meta vector) (layout l c s k d m meta vector)
      ≡ ok (record {
        len = frame_len meta vector;
        seq = from_le_bytes s;
        kind = kind;
        dtype = dtype;
        meta = meta;
        vector = vector;
      })
unfolding decode_frame
decode_frame-layout crc l c s k d m meta vector kind dtype hl hc hs hm ec ek ed em = rw (
  crc_bytes l c s k d m meta vector hl hc hs hm,
  seq_bytes l c s k d m meta vector hl hc hs hm,
  drop_8 l c s k d m meta vector hl hc hs hm,
  kind_byte l c s k d m meta vector hl hc hs hm,
  dtype_byte l c s k d m meta vector hl hc hs hm,
  meta_len_bytes l c s k d m meta vector hl hc hs hm,
  ec,
  ==_refl,
  ek,
  ed,
  em,
  le→ltb_false (frame_len meta vector) (record_header_len + length meta) (omega arith),
  drop-drop 22 (length meta) (layout l c s k d m meta vector),
  drop_22 l c s k d m meta vector hl hc hs hm,
  header_cancel (length meta),
  take-append_length meta vector,
  drop-append_length meta vector,
)

u32_read : (n : ℕ) → IsU32 n → from_le_bytes (to_le_bytes 4 n) ≡ n
u32_read n h = from_le_bytes-to_le_bytes 4 n h

u32_wrap : (n : ℕ) → IsU32 n → n % 2 ^ 32 ≡ n
u32_wrap n h = omega arith

module _ (crc : List ℕ → ℕ) (u32 : IsChecksum crc) (f : Frame) (fits : Fits f) where
  len_bytes : slice 0 4 (encode_frame crc f) ≡ to_le_bytes 4 (size f)
  len_bytes = rw (encode-layout crc f.seq f.kind f.dtype f.meta f.vector) (
      length_bytes _ _ (to_le_bytes 8 f.seq) (kind_to_u8 f.kind) (dtype_to_u8 f.dtype)
        (to_le_bytes 4 (length f.meta % 2 ^ 32)) f.meta f.vector (length-to_le_bytes 4 _)
        (length-to_le_bytes 4 _) (length-to_le_bytes 8 f.seq) (length-to_le_bytes 4 _)
      ∙ ap (to_le_bytes 4) (u32_wrap (size f) fits.size_u32))

  frame_read : decode_frame crc (size f) (encode_frame crc f) ≡ ok (view f)
  frame_read = rw (encode-layout crc f.seq f.kind f.dtype f.meta f.vector) (
      decode_frame-layout crc _ _ (to_le_bytes 8 f.seq) (kind_to_u8 f.kind) (dtype_to_u8 f.dtype)
        (to_le_bytes 4 (length f.meta % 2 ^ 32)) f.meta f.vector f.kind f.dtype
        (length-to_le_bytes 4 _) (length-to_le_bytes 4 _) (length-to_le_bytes 8 f.seq)
        (length-to_le_bytes 4 _) (u32_read _ (u32 _)) (kind_from_u8-kind_to_u8 f.kind)
        (dtype_from_u8-dtype_to_u8 f.dtype)
        (u32_read _ (omega arith) ∙ u32_wrap (length f.meta) (omega (arith, fits.size_u32)))
      ∙ ap (λ (n : ℕ). ok (record (view f) { seq = n }))
          (from_le_bytes-to_le_bytes 8 f.seq fits.seq_u64))

  len_read : (rest : List ℕ) → from_le_bytes (slice 0 4 (encode_frame crc f ++ rest)) ≡ size f
  len_read rest =
      ap from_le_bytes (
        take-append_le 4 (encode_frame crc f) rest
          (omega (arith, length-encode crc f.seq f.kind f.dtype f.meta f.vector))
        ∙ len_bytes)
      ∙ u32_read (size f) fits.size_u32

  -- `decode` returns the record that was encoded and its length, whatever bytes follow it, if the
  -- record fits its fields and the checksum is a u32.
  pub decode-encode : (rest : List ℕ) → decode crc (encode_frame crc f ++ rest) ≡ ok (view f)
  unfolding decode
  decode-encode rest =
      rw
        (
          length-append (encode_frame crc f) rest,
          length-encode crc f.seq f.kind f.dtype f.meta f.vector,
          len_read rest,
          le→ltb_false (size f + length rest) record_header_len (omega arith),
          le→ltb_false (size f) record_header_len (omega arith),
          le→ltb_false (size f + length rest) (size f) (omega arith),
          take_first (size f) (encode_frame crc f) rest
              (length-encode crc f.seq f.kind f.dtype f.meta f.vector),
        )
        frame_read

  module _ (front back : List ℕ) (cut : encode_frame crc f ≡ front ++ back)
      (short : length front < size f) where
    len_read_cut : record_header_len ≤ length front → from_le_bytes (slice 0 4 front) ≡ size f
    len_read_cut h =
        ap from_le_bytes
          (sym (take-append_le 4 front back (omega arith)) ∙ sym (ap (take 4) cut) ∙ len_bytes)
        ∙ u32_read (size f) fits.size_u32

    -- `decode` of a proper prefix of an encoded record that fits is the error `truncated`, with the
    -- length that was wanted: the header's, or the record's once the header is there. The checksum
    -- is a u32.
    pub decode_cut :
        decode crc front
        ≡ err (
            truncated
              (if ltb (length front) record_header_len then record_header_len else size f)
              (length front))
    unfolding decode
    decode_cut = elim (Bool-cases (ltb (length front) record_header_len)) [
      | inl less ↦ rw less
      | inr more ↦
          rw (more, len_read_cut (ground arith))
            (rw (
              le→ltb_false (size f) record_header_len (omega arith),
              lt→ltb (length front) (size f) short,
            ))
    ]

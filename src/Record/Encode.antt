-- ===== src/Record/Encode.antt =====
-- embedding-store/src/record.rs: the bytes that `encode` writes.
use embedding_processing_rs.Base.{
  ℕ, ◌+◌, ◌%◌, ◌^◌, ◌≡◌, ap, ◌∙◌, List, ◌∷◌, ◌++◌, length, drop, to_le_bytes, length-to_le_bytes,
  IsU32, IsU64,
}
use embedding_processing_rs.Record.Kind.{
  RecordKind, VectorDtype, kind_to_u8, dtype_to_u8, record_header_len,
}
use embedding_processing_rs.Record.Layout.{layout, drop_8, length-layout, copy_crc}
use embedding_processing_rs.Record.Codec.{Frame, RecordView, encode}

-- What the checksum of a frame covers: everything from `seq` on.
abbrev pub covered : ℕ → RecordKind → VectorDtype → List ℕ → List ℕ → List ℕ
covered seq kind dtype meta vector =
    to_le_bytes 8 seq
    ++ (kind_to_u8 kind
        ∷ dtype_to_u8 dtype
        ∷ (to_le_bytes 4 (length meta % 2 ^ 32) ++ (meta ++ vector)))

abbrev pub frame_len : List ℕ → List ℕ → ℕ
frame_len meta vector = record_header_len + length meta + length vector

module _ (crc : List ℕ → ℕ) (seq : ℕ) (kind : RecordKind) (dtype : VectorDtype)
    (meta vector : List ℕ) where
  -- The frame with the bytes `c` in its checksum field.
  abbrev pub with_crc : List ℕ → List ℕ
  with_crc c =
      layout (to_le_bytes 4 (frame_len meta vector % 2 ^ 32)) c (to_le_bytes 8 seq)
        (kind_to_u8 kind) (dtype_to_u8 dtype) (to_le_bytes 4 (length meta % 2 ^ 32)) meta vector

  abbrev pub checksum : ℕ
  checksum = crc (covered seq kind dtype meta vector)

  covered_bytes : (n : ℕ) → drop 8 (with_crc (to_le_bytes 4 n)) ≡ covered seq kind dtype meta vector
  covered_bytes n =
      drop_8 _ _ (to_le_bytes 8 seq) (kind_to_u8 kind) (dtype_to_u8 dtype)
        (to_le_bytes 4 (length meta % 2 ^ 32)) meta vector (length-to_le_bytes 4 _)
        (length-to_le_bytes 4 n) (length-to_le_bytes 8 seq) (length-to_le_bytes 4 _)

  pub encode-layout : encode crc seq kind dtype meta vector ≡ with_crc (to_le_bytes 4 checksum)
  unfolding encode
  encode-layout =
      copy_crc _ (to_le_bytes 4 0) (to_le_bytes 8 seq) (kind_to_u8 kind) (dtype_to_u8 dtype)
        (to_le_bytes 4 (length meta % 2 ^ 32)) meta vector _ (length-to_le_bytes 4 _)
        (length-to_le_bytes 4 0) (length-to_le_bytes 8 seq) (length-to_le_bytes 4 _)
        (length-to_le_bytes 4 _)
      ∙ ap (λ (b : List ℕ). with_crc (to_le_bytes 4 (crc b))) (covered_bytes 0)

  pub length-encode : length (encode crc seq kind dtype meta vector) ≡ frame_len meta vector
  length-encode =
      ap length encode-layout
      ∙ length-layout _ _ (to_le_bytes 8 seq) (kind_to_u8 kind) (dtype_to_u8 dtype)
          (to_le_bytes 4 (length meta % 2 ^ 32)) meta vector (length-to_le_bytes 4 _)
          (length-to_le_bytes 4 _) (length-to_le_bytes 8 seq) (length-to_le_bytes 4 _)

abbrev pub encode_frame : (List ℕ → ℕ) → Frame → List ℕ
encode_frame crc f = encode crc f.seq f.kind f.dtype f.meta f.vector

abbrev pub size : Frame → ℕ
size f = frame_len f.meta f.vector

-- What `decode` is to return for a frame.
abbrev pub view : Frame → RecordView
view f = record {
  len = size f;
  seq = f.seq;
  kind = f.kind;
  dtype = f.dtype;
  meta = f.meta;
  vector = f.vector;
}

-- The sequence number is a u64 and the length of the frame fits the u32 that stores it.
pub record Fits (f : Frame) : Type 0 where
  pub seq_u64 : IsU64 f.seq
  pub size_u32 : IsU32 (size f)

-- `crc32fast::hash` returns a u32.
abbrev pub IsChecksum : (List ℕ → ℕ) → Type 0
IsChecksum crc = (bytes : List ℕ) → IsU32 (crc bytes)

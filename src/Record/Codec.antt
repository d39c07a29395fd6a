-- ===== src/Record/Codec.antt =====
-- embedding-store/src/record.rs: the frame around one record.
-- Bytes are numbers below 256, u32 and u64 are numbers below 2 ^ 32 and 2 ^ 64, and `as u32` is the
-- remainder. `crc32fast::hash` is the parameter `crc` of the functions that call it.
use embedding_processing_rs.Base.{
  ℕ, ◌+◌, ◌%◌, ◌^◌, Option, none, some, List, ◌∷◌, ◌++◌, ltb, ◌==◌, not, length, take, drop, slice,
  get_or, to_le_bytes, from_le_bytes, Result, ok, reject_if, ok_or, ◌>>=◌, ◌>>◌, if◌then◌else◌,
}
use embedding_processing_rs.Record.Kind.{
  RecordKind, VectorDtype, kind_to_u8, kind_from_u8, dtype_to_u8, dtype_from_u8, record_header_len,
  crc_covered_from,
}

pub data DecodeError : Type 0 where
  truncated : ℕ → ℕ → DecodeError
  bad_length : ℕ → DecodeError
  bad_crc : ℕ → ℕ → DecodeError
  bad_kind : ℕ → DecodeError
  bad_dtype : ℕ → DecodeError

-- What `encode` is called with.
pub record Frame : Type 0 where
  pub seq : ℕ
  pub kind : RecordKind
  pub dtype : VectorDtype
  pub meta : List ℕ
  pub vector : List ℕ

pub record RecordView : Type 0 where
  pub len : ℕ
  pub seq : ℕ
  pub kind : RecordKind
  pub dtype : VectorDtype
  pub meta : List ℕ
  pub vector : List ℕ

-- `buf[lo..lo + bytes.len()].copy_from_slice(bytes)`
abbrev pub copy_from_slice : ℕ → List ℕ → List ℕ → List ℕ
copy_from_slice lo bytes buf = take lo buf ++ (bytes ++ drop (lo + length bytes) buf)

unfoldable pub encode : (List ℕ → ℕ) → ℕ → RecordKind → VectorDtype → List ℕ → List ℕ → List ℕ
encode crc seq kind dtype meta vector =
    let len = record_header_len + length meta + length vector in
    let buf : List ℕ =
      to_le_bytes 4 (len % 2 ^ 32)
      ++ (to_le_bytes 4 0
          ++ (to_le_bytes 8 seq
              ++ (kind_to_u8 kind
                  ∷ dtype_to_u8 dtype
                  ∷ (to_le_bytes 4 (length meta % 2 ^ 32) ++ (meta ++ vector))))) in
    copy_from_slice 4 (to_le_bytes 4 (crc (drop crc_covered_from buf))) buf

unfoldable pub peek_len : List ℕ → Option ℕ
peek_len buf = if ltb (length buf) 4 then none else some (from_le_bytes (slice 0 4 buf))

-- What follows the length checks, on the bytes `buf[..len]`.
unfoldable pub decode_frame : (List ℕ → ℕ) → ℕ → List ℕ → Result DecodeError RecordView
decode_frame crc len frame = do
  let expected = from_le_bytes (slice 4 8 frame)
  let found = crc (drop crc_covered_from frame)
  reject_if (not (expected == found)) (bad_crc expected found)
  let seq = from_le_bytes (slice 8 16 frame)
  kind ← ok_or (kind_from_u8 (get_or frame 16 0)) (bad_kind (get_or frame 16 0))
  dtype ← ok_or (dtype_from_u8 (get_or frame 17 0)) (bad_dtype (get_or frame 17 0))
  let meta_len = from_le_bytes (slice 18 22 frame)
  reject_if (ltb len (record_header_len + meta_len)) (bad_length len)
  let meta_end = record_header_len + meta_len
  ok (record {
    len = len;
    seq = seq;
    kind = kind;
    dtype = dtype;
    meta = slice record_header_len meta_end frame;
    vector = drop meta_end frame;
  })

unfoldable pub decode : (List ℕ → ℕ) → List ℕ → Result DecodeError RecordView
decode crc buf = do
  reject_if (ltb (length buf) record_header_len) (truncated record_header_len (length buf))
  let len = from_le_bytes (slice 0 4 buf)
  reject_if (ltb len record_header_len) (bad_length len)
  reject_if (ltb (length buf) len) (truncated len (length buf))
  decode_frame crc len (take len buf)

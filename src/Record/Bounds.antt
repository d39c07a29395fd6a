-- ===== src/Record/Bounds.antt =====
-- embedding-store/src/record.rs: what a successful `decode` says of any bytes.
use embedding_processing_rs.Base.{
  ℕ, ◌+◌, ◌-◌, ◌≤◌, ◌≡◌, List, arith, length, take, drop, slice, length-take, length-drop, ok,
  from_le_bytes,
}
use embedding_processing_rs.Record.Kind.{record_header_len}
use embedding_processing_rs.Record.Codec.{RecordView, decode, decode_frame}

decode_frame_bounds :
    (crc : List ℕ → ℕ) (len : ℕ) (frame : List ℕ) (v : RecordView)
    → length frame ≡ len
    → decode_frame crc len frame ≡ ok v
    → (v.len ≡ len) × (record_header_len + length v.meta + length v.vector ≡ len)
unfolding decode_frame
decode_frame_bounds crc len frame v hl h = ground (
  arith,
  length-take (22 + from_le_bytes (slice 18 22 frame) - 22) (drop 22 frame),
  length-drop 22 frame,
  length-drop (22 + from_le_bytes (slice 18 22 frame)) frame,
)

-- A record that `decode` returns lies inside the bytes, takes a header at least, and its header,
-- metadata and vector fill it.
pub decode_bounds :
    (crc : List ℕ → ℕ) (buf : List ℕ) (v : RecordView)
    → decode crc buf ≡ ok v
    → (record_header_len ≤ v.len)
      × (v.len ≤ length buf)
      × (record_header_len + length v.meta + length v.vector ≡ v.len)
unfolding decode
decode_bounds crc buf v h = ground (
  arith,
  length-take (from_le_bytes (slice 0 4 buf)) buf,
  decode_frame_bounds crc (from_le_bytes (slice 0 4 buf)) (take (from_le_bytes (slice 0 4 buf)) buf)
      v,
)

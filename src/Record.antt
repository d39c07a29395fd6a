-- ===== src/Record.antt =====
-- embedding-store/src/record.rs: the record frame and the four record kinds.
mod Kind
mod Meta
mod Codec
mod Vector
mod Layout
pub mod Encode
pub mod RoundTrip
pub mod Bounds
pub mod Floats
pub use Kind.*
pub use Meta.*
pub use Codec.*
pub use Vector.*
unfoldable pub use Codec.{encode, decode, decode_frame, peek_len}
unfoldable pub use Vector.{encode_vector, decode_vector}

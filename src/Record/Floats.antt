-- ===== src/Record/Floats.antt =====
-- embedding-store/src/record.rs: a vector that is written is read back, at the precision of its type.
use embedding_processing_rs.Base.{
  ℕ, ◌^◌, ◌<◌, ◌≡◌, refl, ap, List, [], ◌∷◌, map, All, to_le_bytes, from_le_bytes-to_le_bytes,
  IsU32,
}
use embedding_processing_rs.Record.Kind.{VectorDtype, no_vector, f16, f32}
use embedding_processing_rs.Record.Vector.{encode_vector, decode_vector}

-- What a vector becomes at a type: nothing, rounded elements, or the elements.
abbrev pub stored_as : (ℕ → ℕ) → (ℕ → ℕ) → VectorDtype → List ℕ → List ℕ
stored_as to_half from_half no_vector v = []
stored_as to_half from_half f16 v = map (λ x. from_half (to_half x)) v
stored_as to_half from_half f32 v = v

module _ (to_half from_half : ℕ → ℕ) where
  -- Reading what was written gives each element back, rounded to a half where the type is `F16`, and
  -- nothing where it is `None`; each f32 is a u32 of bits, and a half is a u16.
  pub decode_vector-encode_vector :
      (dtype : VectorDtype) (v : List ℕ)
      → ((x : ℕ) → to_half x < 2 ^ 16)
      → All IsU32 v
      → decode_vector from_half (encode_vector to_half v dtype) dtype
        ≡ stored_as to_half from_half dtype v
  unfolding decode_vector encode_vector to_le_bytes
  decode_vector-encode_vector no_vector v h u = refl
  decode_vector-encode_vector f16 [] h u = refl
  decode_vector-encode_vector f16 (x ∷ v) h u =
      rw (from_le_bytes-to_le_bytes 2 (to_half x) (h x))
        (ap (◌∷◌ (from_half (to_half x))) (decode_vector-encode_vector f16 v h u.1))
  decode_vector-encode_vector f32 [] h u = refl
  decode_vector-encode_vector f32 (x ∷ v) h u =
      rw (from_le_bytes-to_le_bytes 4 x u.0) (ap (◌∷◌ x) (decode_vector-encode_vector f32 v h u.1))

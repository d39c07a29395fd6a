-- ===== src/Record/Vector.antt =====
-- embedding-store/src/record.rs: the vectors behind the metadata. An f32 is its bit pattern. The
-- conversions of the crate `half` are parameters: `to_half` is `f16::from_f32(x).to_bits()`, and
-- `from_half` is `f16::from_bits(b).to_f32()`.
use embedding_processing_rs.Base.{ℕ, List, [], ◌∷◌, ◌++◌, to_le_bytes, from_le_bytes}
use embedding_processing_rs.Record.Kind.{VectorDtype, no_vector, f16, f32}

abbrev write_f16 : (ℕ → ℕ) → List ℕ → List ℕ
write_f16 to_half [] = []
write_f16 to_half (x ∷ v) = to_le_bytes 2 (to_half x) ++ write_f16 to_half v

abbrev write_f32 : List ℕ → List ℕ
write_f32 [] = []
write_f32 (x ∷ v) = to_le_bytes 4 x ++ write_f32 v

unfoldable pub encode_vector : (ℕ → ℕ) → List ℕ → VectorDtype → List ℕ
encode_vector to_half v no_vector = []
encode_vector to_half v f16 = write_f16 to_half v
encode_vector to_half v f32 = write_f32 v

-- `chunks_exact`: an incomplete chunk at the end is left out.
abbrev read_f16 : (ℕ → ℕ) → List ℕ → List ℕ
read_f16 from_half (a ∷ b ∷ bytes) =
    from_half (from_le_bytes (a ∷ b ∷ [])) ∷ read_f16 from_half bytes
read_f16 from_half _ = []

abbrev read_f32 : List ℕ → List ℕ
read_f32 (a ∷ b ∷ c ∷ d ∷ bytes) = from_le_bytes (a ∷ b ∷ c ∷ d ∷ []) ∷ read_f32 bytes
read_f32 _ = []

unfoldable pub decode_vector : (ℕ → ℕ) → List ℕ → VectorDtype → List ℕ
decode_vector from_half bytes no_vector = []
decode_vector from_half bytes f16 = read_f16 from_half bytes
decode_vector from_half bytes f32 = read_f32 bytes

-- ===== src/Record/Kind.antt =====
-- embedding-store/src/record.rs: the record kinds, the vector types and their codes.
use embedding_processing_rs.Base.{ℕ, ◌*◌, ◌≡◌, refl, Option, none, some, ◌==◌, if◌then◌else◌}

-- len(4) + crc(4) + seq(8) + kind(1) + dtype(1) + meta_len(4)
abbrev pub record_header_len : ℕ
record_header_len = 22

abbrev pub crc_covered_from : ℕ
crc_covered_from = 8

pub data RecordKind : Type 0 where
  doc split summary delete_doc : RecordKind

-- `kind as u8`
abbrev pub kind_to_u8 : RecordKind → ℕ
kind_to_u8 doc = 1
kind_to_u8 split = 2
kind_to_u8 summary = 3
kind_to_u8 delete_doc = 4

abbrev pub kind_from_u8 : ℕ → Option RecordKind
kind_from_u8 v =
    if v == 1
    then some doc
    else if v == 2
    then some split
    else if v == 3
    then some summary
    else if v == 4
    then some delete_doc
    else none

pub data VectorDtype : Type 0 where
  no_vector f16 f32 : VectorDtype

-- `dtype as u8`
abbrev pub dtype_to_u8 : VectorDtype → ℕ
dtype_to_u8 no_vector = 0
dtype_to_u8 f16 = 1
dtype_to_u8 f32 = 2

abbrev pub dtype_from_u8 : ℕ → Option VectorDtype
dtype_from_u8 v =
    if v == 0
    then some no_vector
    else if v == 1
    then some f16
    else if v == 2
    then some f32
    else none

abbrev pub bytes_per_element : VectorDtype → ℕ
bytes_per_element no_vector = 0
bytes_per_element f16 = 2
bytes_per_element f32 = 4

abbrev pub vector_bytes : VectorDtype → ℕ → ℕ
vector_bytes dtype n_embd = bytes_per_element dtype * n_embd

pub kind_from_u8-kind_to_u8 : (k : RecordKind) → kind_from_u8 (kind_to_u8 k) ≡ some k
kind_from_u8-kind_to_u8 doc = refl
kind_from_u8-kind_to_u8 split = refl
kind_from_u8-kind_to_u8 summary = refl
kind_from_u8-kind_to_u8 delete_doc = refl

pub dtype_from_u8-dtype_to_u8 : (d : VectorDtype) → dtype_from_u8 (dtype_to_u8 d) ≡ some d
dtype_from_u8-dtype_to_u8 no_vector = refl
dtype_from_u8-dtype_to_u8 f16 = refl
dtype_from_u8-dtype_to_u8 f32 = refl

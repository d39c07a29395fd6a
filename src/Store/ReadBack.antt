-- ===== src/Store/ReadBack.antt =====
-- embedding-store/src/store.rs: a split whose record is in the active segment's file is read back.
use embedding_processing_rs.Base.{
  ℕ, ◌+◌, ◌≡◌, refl, ap, sym, ◌∙◌, Bool, true, false, Option, none, some, All, IsU32, Result, List,
  [], ◌++◌, append-nil, length, length-append, arith, take_first, drop_first, ==_refl, ok, le→leb,
}
use embedding_processing_rs.HashMap
use embedding_processing_rs.Record.{Frame, SplitMeta, decode, encode_vector, decode_vector}
use embedding_processing_rs.Record.Encode.{encode_frame, size, Fits, view, length-encode}
use embedding_processing_rs.Record.RoundTrip.{decode-encode}
use embedding_processing_rs.Record.Floats.{stored_as, decode_vector-encode_vector}
use embedding_processing_rs.Maps.{Loc}
use embedding_processing_rs.Dto.{EmbeddingDto}
use embedding_processing_rs.Errors.{Error}
use embedding_processing_rs.Crates.{Crates, IsFaithful}
use embedding_processing_rs.Segment.{read_at}
use embedding_processing_rs.Store.Types.{Store}
use embedding_processing_rs.Store.Read.{read_record, read_split, embedding_of}

module _ (crates : Crates) (faithful : IsFaithful crates) (s : Store) (before after : List ℕ)
    (f : Frame) (fits : Fits f)
    (file : s.active.file ≡ before ++ (encode_frame crates.crc32 f ++ after)) where
  abbrev here : Loc
  here = record { segment = s.active.id; offset = length before; len = size f }

  read_record-here : read_record s here ≡ ok (encode_frame crates.crc32 f)
  unfolding read_record read_at
  read_record-here =
      let counted : length (encode_frame crates.crc32 f) ≡ size f =
        length-encode crates.crc32 f.seq f.kind f.dtype f.meta f.vector in
      rw (
        ==_refl s.active.id,
        file,
        le→leb (length before + size f) (length (before ++ (encode_frame crates.crc32 f ++ after)))
            (omega (
              arith,
              counted,
              length-append before (encode_frame crates.crc32 f ++ after),
              length-append (encode_frame crates.crc32 f) after,
            )),
        drop_first (length before) before (encode_frame crates.crc32 f ++ after) refl,
        take_first (size f) (encode_frame crates.crc32 f) after counted,
      )

  -- The record is decoded, and its metadata.
  pub read_split-encode :
      (split_id doc_id : ℕ) (m : SplitMeta) (with_embedding : Bool)
      → HashMap.get split_id s.maps.splits ≡ some (record { doc_id = doc_id; loc = here })
      → crates.split.from_slice f.meta ≡ some m
      → read_split crates s split_id with_embedding
        ≡ ok (some (m, embedding_of crates with_embedding split_id f.vector f.dtype m.model_id))
  unfolding read_split
  read_split-encode split_id doc_id m with_embedding placed meta =
      let decoded : decode crates.crc32 (encode_frame crates.crc32 f) ≡ ok (view f) =
        ap (decode crates.crc32) (sym (append-nil (encode_frame crates.crc32 f)))
        ∙ decode-encode crates.crc32 faithful.crc_u32 f fits [] in
      rw (placed, read_split, read_record-here, decoded, meta)

  abbrev as_read : ℕ → SplitMeta → List ℕ → Result Error (Option (SplitMeta × Option EmbeddingDto))
  as_read id m e =
      ok (some (m, some (record { embedding_id = id; embedding = e; model_id = m.model_id })))

  -- A split that the maps place at a whole record of the active segment's file is read back: its
  -- metadata is the one that was encoded, and where the embedding is asked for, it holds the vector that
  -- was encoded, at the precision of the record's type. The crates are faithful, the record fits its
  -- fields and each f32 is a u32 of bits.
  pub read_split-encode_vector :
      (split_id doc_id : ℕ) (m : SplitMeta) (v : List ℕ)
      → HashMap.get split_id s.maps.splits ≡ some (record { doc_id = doc_id; loc = here })
      → crates.split.to_vec m ≡ some f.meta
      → f.vector ≡ encode_vector crates.to_half v f.dtype
      → All IsU32 v
      → (read_split crates s split_id false ≡ ok (some (m, none)))
        × (read_split crates s split_id true
            ≡ ok (
                some (
                  m,
                  some (record {
                    embedding_id = split_id;
                    embedding = stored_as crates.to_half crates.from_half f.dtype v;
                    model_id = m.model_id;
                  }),
                )))
  read_split-encode_vector split_id doc_id m v placed meta vector u32 =
      let read : crates.split.from_slice f.meta ≡ some m = faithful.split_trips m f.meta meta in
      let back : decode_vector crates.from_half f.vector f.dtype
          ≡ stored_as crates.to_half crates.from_half f.dtype v =
        ap (λ (b : List ℕ). decode_vector crates.from_half b f.dtype) vector
        ∙ decode_vector-encode_vector crates.to_half crates.from_half f.dtype v faithful.half_u16
            u32 in
      (
        read_split-encode split_id doc_id m false placed read,
        read_split-encode split_id doc_id m true placed read ∙ ap (as_read split_id m) back,
      )

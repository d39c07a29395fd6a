-- ===== src/Record/Layout.antt =====
-- embedding-store/src/record.rs: where the fields of a frame lie.
use embedding_processing_rs.Record.Codec.{copy_from_slice}
use embedding_processing_rs.Base.{
  ℕ, ◌+◌, ◌≡◌, ap, ◌∙◌, List, ◌∷◌, ◌++◌, arith, length, take, drop, slice, get_or, length-append,
  take_first, drop_first, drop-drop, get_or-drop,
}

-- The parts of a frame: length, checksum, sequence number, kind, vector type, length of the
-- metadata, metadata and vector.
module _ (l c s : List ℕ) (k d : ℕ) (m meta vector : List ℕ) where
  abbrev pub layout : List ℕ
  layout = l ++ (c ++ (s ++ (k ∷ d ∷ (m ++ (meta ++ vector)))))

  module _ (hl : length l ≡ 4) (hc : length c ≡ 4) (hs : length s ≡ 8) (hm : length m ≡ 4) where
    pub drop_4 : drop 4 layout ≡ c ++ (s ++ (k ∷ d ∷ (m ++ (meta ++ vector))))
    drop_4 = drop_first 4 l _ hl

    pub drop_8 : drop 8 layout ≡ s ++ (k ∷ d ∷ (m ++ (meta ++ vector)))
    drop_8 = drop-drop 4 4 layout ∙ ap (drop 4) drop_4 ∙ drop_first 4 c _ hc

    pub drop_16 : drop 16 layout ≡ k ∷ d ∷ (m ++ (meta ++ vector))
    drop_16 = drop-drop 8 8 layout ∙ ap (drop 8) drop_8 ∙ drop_first 8 s _ hs

    pub drop_18 : drop 18 layout ≡ m ++ (meta ++ vector)
    drop_18 = drop-drop 16 2 layout ∙ ap (drop 2) drop_16

    pub drop_22 : drop 22 layout ≡ meta ++ vector
    drop_22 = drop-drop 18 4 layout ∙ ap (drop 4) drop_18 ∙ drop_first 4 m _ hm

    pub kind_byte : get_or layout 16 0 ≡ k
    kind_byte = get_or-drop 16 0 layout 0 ∙ ap (λ (b : List ℕ). get_or b 0 0) drop_16

    pub dtype_byte : get_or layout 17 0 ≡ d
    dtype_byte = get_or-drop 16 1 layout 0 ∙ ap (λ (b : List ℕ). get_or b 1 0) drop_16

    pub length_bytes : slice 0 4 layout ≡ l
    length_bytes = take_first 4 l _ hl

    pub crc_bytes : slice 4 8 layout ≡ c
    crc_bytes = ap (take 4) drop_4 ∙ take_first 4 c _ hc

    pub seq_bytes : slice 8 16 layout ≡ s
    seq_bytes = ap (take 8) drop_8 ∙ take_first 8 s _ hs

    pub meta_len_bytes : slice 18 22 layout ≡ m
    meta_len_bytes = ap (take 4) drop_18 ∙ take_first 4 m _ hm

    pub length-layout : length layout ≡ 22 + length meta + length vector
    length-layout = omega (
      arith,
      hl,
      hc,
      hs,
      hm,
      length-append l (c ++ (s ++ (k ∷ d ∷ (m ++ (meta ++ vector))))),
      length-append c (s ++ (k ∷ d ∷ (m ++ (meta ++ vector)))),
      length-append s (k ∷ d ∷ (m ++ (meta ++ vector))),
      length-append m (meta ++ vector),
      length-append meta vector,
    )

-- Overwriting the checksum field leaves the rest.
pub copy_crc :
    (l c s : List ℕ) (k d : ℕ) (m meta vector c' : List ℕ)
    → length l ≡ 4
    → length c ≡ 4
    → length s ≡ 8
    → length m ≡ 4
    → length c' ≡ 4
    → copy_from_slice 4 c' (layout l c s k d m meta vector) ≡ layout l c' s k d m meta vector
copy_crc l c s k d m meta vector c' hl hc hs hm hc' = rw (
  hc',
  take_first 4 l (c ++ (s ++ (k ∷ d ∷ (m ++ (meta ++ vector))))) hl,
  drop_8 l c s k d m meta vector hl hc hs hm,
)

-- ===== src/Snapshot/RoundTrip.antt =====
-- embedding-store/src/meta_snapshot.rs: each reader takes back what its writer put.
use embedding_processing_rs.Base.{
  ℕ, ◌<◌, ◌≡◌, refl, Bool, true, Option, none, some, List, [], ◌∷◌, ◌++◌, arith, length, All,
  le→ltb_false, ne→==_false, length-append, take_first, drop_first, length-to_le_bytes, IsU32,
  IsU64, from_le_bytes-to_le_bytes, to_le_bytes, ok,
}
use embedding_processing_rs.Maps.{Loc, DocEntry, SplitEntry, SummaryEntry}
use embedding_processing_rs.Snapshot.{
  take_bytes, get_u32, get_u64, get_loc, get_each, get_ids, get_ids_opt, get_string, get_doc,
  get_split, get_summary, put_u32, put_u64, put_loc, put_each, put_ids, put_ids_opt, put_string,
  put_doc, put_split, put_summary, no_ids,
}

pub take_bytes-append :
    (n : ℕ) (s rest : List ℕ) → length s ≡ n → take_bytes n (s ++ rest) ≡ ok (s, rest)
unfolding take_bytes
take_bytes-append n s rest e = rw (
  le→ltb_false (length (s ++ rest)) n (omega (arith, length-append s rest)),
  take_first n s rest e,
  drop_first n s rest e,
)

pub get_u32-put_u32 : (v : ℕ) (rest : List ℕ) → IsU32 v → get_u32 (put_u32 v rest) ≡ ok (v, rest)
unfolding get_u32
get_u32-put_u32 v rest h = rw (
  take_bytes-append 4 (to_le_bytes 4 v) rest (length-to_le_bytes 4 v),
  from_le_bytes-to_le_bytes 4 v h,
)

pub get_u64-put_u64 : (v : ℕ) (rest : List ℕ) → IsU64 v → get_u64 (put_u64 v rest) ≡ ok (v, rest)
unfolding get_u64
get_u64-put_u64 v rest h = rw (
  take_bytes-append 8 (to_le_bytes 8 v) rest (length-to_le_bytes 8 v),
  from_le_bytes-to_le_bytes 8 v h,
)

pub record LocFits (loc : Loc) : Type 0 where
  pub segment : IsU32 loc.segment
  pub offset : IsU64 loc.offset
  pub len : IsU32 loc.len

pub get_loc-put_loc :
    (loc : Loc) (rest : List ℕ) → LocFits loc → get_loc (put_loc loc rest) ≡ ok (loc, rest)
unfolding get_loc
get_loc-put_loc loc rest h = rw (
  get_u32-put_u32 loc.segment (put_u64 loc.offset (put_u32 loc.len rest)) h.segment,
  get_u64-put_u64 loc.offset (put_u32 loc.len rest) h.offset,
  get_u32-put_u32 loc.len rest h.len,
)

pub get_each-put_each :
    (ids rest : List ℕ) → All IsU64 ids → get_each (length ids) (put_each ids rest) ≡ ok (ids, rest)
unfolding get_each
get_each-put_each [] rest h = refl
get_each-put_each (id ∷ ids) rest h =
    rw (get_u64-put_u64 id (put_each ids rest) h.0, get_each-put_each ids rest h.1)

pub record IdsFit (ids : List ℕ) : Type 0 where
  pub count : IsU32 (length ids)
  pub each : All IsU64 ids

pub get_ids-put_ids : (ids rest : List ℕ) → IdsFit ids → get_ids (put_ids ids rest) ≡ ok (ids, rest)
unfolding get_ids
get_ids-put_ids ids rest h =
    rw (get_u32-put_u32 (length ids) (put_each ids rest) h.count)
      (get_each-put_each ids rest h.each)

-- The length of a list is not the one that stands for `None`.
abbrev pub IdsOptFit : Option (List ℕ) → Type 0
IdsOptFit none = Unit {0}
IdsOptFit (some ids) = (length ids < no_ids) × All IsU64 ids

pub get_ids_opt-put_ids_opt :
    (ids : Option (List ℕ)) (rest : List ℕ)
    → IdsOptFit ids
    → get_ids_opt (put_ids_opt ids rest) ≡ ok (ids, rest)
unfolding get_ids_opt
get_ids_opt-put_ids_opt none rest h = rw (get_u32-put_u32 no_ids rest (omega arith))
get_ids_opt-put_ids_opt (some ids) rest h = rw (
  get_u32-put_u32 (length ids) (put_each ids rest) (omega (arith, h.0)),
  ne→==_false (length ids) no_ids (λ e. omega (arith, h.0, e)),
  get_each-put_each ids rest h.1,
)

module _ (is_utf8 : List ℕ → Bool) where
  pub record DocFits (k : ℕ) (e : DocEntry) : Type 0 where
    pub key : IsU64 k
    pub seq : IsU64 e.seq
    pub loc : LocFits e.loc
    pub url_len : IsU32 (length e.url)
    pub url_text : is_utf8 e.url ≡ true
    pub split_ids : IdsFit e.split_ids
    pub summary_ids : IdsOptFit e.summary_ids
    pub extra_summary_ids : IdsFit e.extra_summary_ids

  get_string-put_string :
      (s rest : List ℕ)
      → IsU32 (length s)
      → is_utf8 s ≡ true
      → get_string is_utf8 (put_string s rest) ≡ ok (s, rest)
  unfolding get_string
  get_string-put_string s rest h text =
      rw (get_u32-put_u32 (length s) (s ++ rest) h, take_bytes-append (length s) s rest refl, text)

  pub get_doc-put_doc :
      (k : ℕ) (e : DocEntry) (rest : List ℕ)
      → DocFits k e
      → get_doc is_utf8 (put_doc k e rest) ≡ ok ((k, e), rest)
  unfolding get_doc
  get_doc-put_doc k e rest h =
      let r₇ = put_ids e.extra_summary_ids rest in
      let r₆ = put_ids_opt e.summary_ids r₇ in
      let r₅ = put_ids e.split_ids r₆ in
      let r₄ = put_string e.url r₅ in
      let r₃ = put_loc e.loc r₄ in
      rw (
        get_u64-put_u64 k (put_u64 e.seq r₃) h.key,
        get_u64-put_u64 e.seq r₃ h.seq,
        get_loc-put_loc e.loc r₄ h.loc,
        get_string-put_string e.url r₅ h.url_len h.url_text,
        get_ids-put_ids e.split_ids r₆ h.split_ids,
        get_ids_opt-put_ids_opt e.summary_ids r₇ h.summary_ids,
        get_ids-put_ids e.extra_summary_ids rest h.extra_summary_ids,
      )

pub record SplitFits (k : ℕ) (e : SplitEntry) : Type 0 where
  pub key : IsU64 k
  pub doc_id : IsU64 e.doc_id
  pub loc : LocFits e.loc

pub get_split-put_split :
    (k : ℕ) (e : SplitEntry) (rest : List ℕ)
    → SplitFits k e
    → get_split (put_split k e rest) ≡ ok ((k, e), rest)
unfolding get_split
get_split-put_split k e rest h = rw (
  get_u64-put_u64 k (put_u64 e.doc_id (put_loc e.loc rest)) h.key,
  get_u64-put_u64 e.doc_id (put_loc e.loc rest) h.doc_id,
  get_loc-put_loc e.loc rest h.loc,
)

pub record SummaryFits (k : ℕ) (e : SummaryEntry) : Type 0 where
  pub key : IsU64 k
  pub doc_id : IsU64 e.doc_id
  pub split_id : IsU64 e.split_id
  pub loc : LocFits e.loc

pub get_summary-put_summary :
    (k : ℕ) (e : SummaryEntry) (rest : List ℕ)
    → SummaryFits k e
    → get_summary (put_summary k e rest) ≡ ok ((k, e), rest)
unfolding get_summary
get_summary-put_summary k e rest h = rw (
  get_u64-put_u64 k (put_u64 e.doc_id (put_u64 e.split_id (put_loc e.loc rest))) h.key,
  get_u64-put_u64 e.doc_id (put_u64 e.split_id (put_loc e.loc rest)) h.doc_id,
  get_u64-put_u64 e.split_id (put_loc e.loc rest) h.split_id,
  get_loc-put_loc e.loc rest h.loc,
)

-- ===== src/Snapshot.antt =====
-- embedding-store/src/meta_snapshot.rs: the three maps in a flat file.
-- A writer puts bytes before those that follow, and a reader returns the bytes behind what it took. A
-- hash map is written in the order of its list. A text is its UTF-8 bytes; whether bytes are UTF-8 is
-- the parameter `is_utf8`, for `String::from_utf8`.
pub mod RoundTrip
pub mod File
use embedding_processing_rs.Base.{
  ℕ, zero, suc, ◌-◌, ◌^◌, Bool, not, Option, none, some, List, [], ◌∷◌, ◌++◌, ltb, ◌==◌, length,
  take, drop, Result, ok, err, ◌>>=◌, ◌>>◌, reject_if, to_le_bytes, from_le_bytes, if◌then◌else◌,
}
use embedding_processing_rs.HashMap
use embedding_processing_rs.HashMap.{HashMap}
use embedding_processing_rs.Maps.{Loc, Maps, DocEntry, SplitEntry, SummaryEntry, no_maps}

pub data SnapshotError : Type 0 where
  -- wanted, left
  truncated : ℕ → ℕ → SnapshotError
  bad_text too_short not_a_snapshot : SnapshotError
  -- expected, found
  bad_checksum : ℕ → ℕ → SnapshotError
  bad_version : ℕ → SnapshotError

abbrev pub magic : ℕ
magic = 1296389185

abbrev pub version : ℕ
version = 1

-- `u32::MAX`, the length that stands for `None`.
abbrev pub no_ids : ℕ
no_ids = 2 ^ 32 - 1

abbrev pub put_u32 : ℕ → List ℕ → List ℕ
put_u32 v rest = to_le_bytes 4 v ++ rest

abbrev pub put_u64 : ℕ → List ℕ → List ℕ
put_u64 v rest = to_le_bytes 8 v ++ rest

abbrev pub put_loc : Loc → List ℕ → List ℕ
put_loc loc rest = put_u32 loc.segment (put_u64 loc.offset (put_u32 loc.len rest))

abbrev pub put_each : List ℕ → List ℕ → List ℕ
put_each [] rest = rest
put_each (id ∷ ids) rest = put_u64 id (put_each ids rest)

abbrev pub put_ids : List ℕ → List ℕ → List ℕ
put_ids ids rest = put_u32 (length ids) (put_each ids rest)

abbrev pub put_ids_opt : Option (List ℕ) → List ℕ → List ℕ
put_ids_opt none rest = put_u32 no_ids rest
put_ids_opt (some ids) rest = put_ids ids rest

abbrev pub put_string : List ℕ → List ℕ → List ℕ
put_string s rest = put_u32 (length s) (s ++ rest)

-- `Reader::take`
unfoldable pub take_bytes : ℕ → List ℕ → Result SnapshotError (List ℕ × List ℕ)
take_bytes n buf =
    if ltb (length buf) n then err (truncated n (length buf)) else ok (take n buf, drop n buf)

unfoldable pub get_u32 : List ℕ → Result SnapshotError (ℕ × List ℕ)
get_u32 buf = do (b, rest) ← take_bytes 4 buf; ok (from_le_bytes b, rest)

unfoldable pub get_u64 : List ℕ → Result SnapshotError (ℕ × List ℕ)
get_u64 buf = do (b, rest) ← take_bytes 8 buf; ok (from_le_bytes b, rest)

unfoldable pub get_loc : List ℕ → Result SnapshotError (Loc × List ℕ)
get_loc buf = do
  (segment, b₁) ← get_u32 buf
  (offset, b₂) ← get_u64 b₁
  (len, b₃) ← get_u32 b₂
  ok (record { segment = segment; offset = offset; len = len }, b₃)

-- The loops over `0..n`.
unfoldable pub get_each : ℕ → List ℕ → Result SnapshotError (List ℕ × List ℕ)
get_each zero buf = ok ([], buf)
get_each (suc n) buf = do (id, b₁) ← get_u64 buf; (ids, b₂) ← get_each n b₁; ok (id ∷ ids, b₂)

unfoldable pub get_ids : List ℕ → Result SnapshotError (List ℕ × List ℕ)
get_ids buf = do (n, b₁) ← get_u32 buf; get_each n b₁

unfoldable pub get_ids_opt : List ℕ → Result SnapshotError (Option (List ℕ) × List ℕ)
get_ids_opt buf = do
  (n, b₁) ← get_u32 buf
  if n == no_ids then ok (none, b₁) else (do (ids, b₂) ← get_each n b₁; ok (some ids, b₂))

unfoldable pub get_string : (List ℕ → Bool) → List ℕ → Result SnapshotError (List ℕ × List ℕ)
get_string is_utf8 buf = do
  (n, b₁) ← get_u32 buf
  (s, b₂) ← take_bytes n b₁
  reject_if (not (is_utf8 s)) bad_text
  ok (s, b₂)

-- The entries of the three maps.
abbrev pub put_doc : ℕ → DocEntry → List ℕ → List ℕ
put_doc doc_id e rest = put_u64 doc_id (
    put_u64 e.seq (
      put_loc e.loc (
        put_string e.url
          (put_ids e.split_ids (put_ids_opt e.summary_ids (put_ids e.extra_summary_ids rest))))))

unfoldable pub get_doc : (List ℕ → Bool) → List ℕ → Result SnapshotError ((ℕ × DocEntry) × List ℕ)
get_doc is_utf8 buf = do
  (doc_id, b₁) ← get_u64 buf
  (seq, b₂) ← get_u64 b₁
  (loc, b₃) ← get_loc b₂
  (url, b₄) ← get_string is_utf8 b₃
  (split_ids, b₅) ← get_ids b₄
  (summary_ids, b₆) ← get_ids_opt b₅
  (extra_summary_ids, b₇) ← get_ids b₆
  ok (
    (
      doc_id,
      record {
        url = url;
        split_ids = split_ids;
        summary_ids = summary_ids;
        extra_summary_ids = extra_summary_ids;
        seq = seq;
        loc = loc;
      },
    ),
    b₇,
  )

abbrev pub put_split : ℕ → SplitEntry → List ℕ → List ℕ
put_split split_id e rest = put_u64 split_id (put_u64 e.doc_id (put_loc e.loc rest))

unfoldable pub get_split : List ℕ → Result SnapshotError ((ℕ × SplitEntry) × List ℕ)
get_split buf = do
  (split_id, b₁) ← get_u64 buf
  (doc_id, b₂) ← get_u64 b₁
  (loc, b₃) ← get_loc b₂
  ok ((split_id, record { doc_id = doc_id; loc = loc }), b₃)

abbrev pub put_summary : ℕ → SummaryEntry → List ℕ → List ℕ
put_summary summary_id e rest =
    put_u64 summary_id (put_u64 e.doc_id (put_u64 e.split_id (put_loc e.loc rest)))

unfoldable pub get_summary : List ℕ → Result SnapshotError ((ℕ × SummaryEntry) × List ℕ)
get_summary buf = do
  (summary_id, b₁) ← get_u64 buf
  (doc_id, b₂) ← get_u64 b₁
  (split_id, b₃) ← get_u64 b₂
  (loc, b₄) ← get_loc b₃
  ok ((summary_id, record { doc_id = doc_id; split_id = split_id; loc = loc }), b₄)

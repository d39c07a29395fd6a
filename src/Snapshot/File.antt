-- ===== src/Snapshot/File.antt =====
-- embedding-store/src/meta_snapshot.rs: `store` and `load` on the bytes of the file, and what `load`
-- makes of what `store` wrote.
use embedding_processing_rs.Base.{
  ℕ, zero, suc, ◌-◌, ◌≡◌, refl, ◌∙◌, Bool, not, Option, none, some, List, [], ◌∷◌, ◌++◌, arith,
  length, All, ltb, ◌==◌, ==_refl, le→ltb_false, length-append, take_first, drop_first, take, drop,
  length-to_le_bytes, IsU64, from_le_bytes-to_le_bytes, to_le_bytes, from_le_bytes, Result, ok,
  ◌>>=◌, ◌>>◌, reject_if,
}
use embedding_processing_rs.HashMap
use embedding_processing_rs.HashMap.{HashMap, HasUniqueKeys, get-insert}
use embedding_processing_rs.Maps.{Maps}
use embedding_processing_rs.Maps.Remove.{IsWellKeyed}
use embedding_processing_rs.Record.Encode.{IsChecksum}
use embedding_processing_rs.Snapshot
use embedding_processing_rs.Snapshot.{
  SnapshotError, bad_checksum, bad_version, too_short, not_a_snapshot, magic, version, put_u32,
  put_u64, get_u32, get_u64, put_doc, put_split, put_summary,
}
use embedding_processing_rs.Snapshot.RoundTrip.{
  get_u32-put_u32, get_u64-put_u64, DocFits, SplitFits, SummaryFits, get_doc-put_doc,
  get_split-put_split, get_summary-put_summary,
}

-- A loop over a map.
abbrev pub put_entries : {V : Type 0} → (ℕ → V → List ℕ → List ℕ) → HashMap V → List ℕ → List ℕ
put_entries put [] rest = rest
put_entries put ((k, e) ∷ m) rest = put k e (put_entries put m rest)

-- A loop over `0..n` that inserts what it reads.
abbrev pub get_entries :
    {V : Type 0}
    → (List ℕ → Result SnapshotError ((ℕ × V) × List ℕ))
    → ℕ
    → HashMap V
    → List ℕ
    → Result SnapshotError (HashMap V × List ℕ)
get_entries read zero m buf = ok (m, buf)
get_entries read (suc n) m buf = do
  ((k, e), rest) ← read buf
  get_entries read n (HashMap.insert k e m) rest

abbrev pub insert_all : {V : Type 0} → HashMap V → HashMap V → HashMap V
insert_all [] m = m
insert_all ((k, e) ∷ l) m = insert_all l (HashMap.insert k e m)

module _ {V : Type 0} (put : ℕ → V → List ℕ → List ℕ)
    (read : List ℕ → Result SnapshotError ((ℕ × V) × List ℕ)) where
  get_entries-put_entries :
      (Fits : ℕ → V → Type 0)
      → ((k : ℕ) (e : V) (rest : List ℕ) → Fits k e → read (put k e rest) ≡ ok ((k, e), rest))
      → (l m : HashMap V) (rest : List ℕ) → All (λ p. Fits p.0 p.1) l
      → get_entries read (length l) m (put_entries put l rest) ≡ ok (insert_all l m, rest)
  get_entries-put_entries Fits back [] m rest h = refl
  get_entries-put_entries Fits back ((k, e) ∷ l) m rest h =
      rw (back k e (put_entries put l rest) h.0)
        (get_entries-put_entries Fits back l (HashMap.insert k e m) rest h.1)

abbrev pub either : {V : Type 0} → Option V → Option V → Option V
either none o = o
either (some v) o = some v

get-insert_all :
    {V : Type 0} (l m : HashMap V) (j : ℕ)
    → HasUniqueKeys l
    → HashMap.get j (insert_all l m) ≡ either (HashMap.get j l) (HashMap.get j m)
unfolding HashMap.get
get-insert_all [] m j u = refl
get-insert_all ((k, e) ∷ l) m j u =
    ground (arith, u.0, get-insert_all l (HashMap.insert k e m) j u.1, get-insert k j e m)

either-none : {V : Type 0} (o : Option V) → either o none ≡ o
either-none none = refl
either-none (some v) = refl

module _ (crc : List ℕ → ℕ) (is_utf8 : List ℕ → Bool) where
  abbrev put_body : Maps → ℕ → List ℕ
  put_body maps snapshot_seq = put_u32 magic (
      put_u32 version (
        put_u64 snapshot_seq (
          put_u64 (length maps.docs) (
            put_u64 (length maps.splits) (
              put_u64 (length maps.summaries) (
                put_entries put_doc maps.docs (
                  put_entries put_split maps.splits
                    (put_entries put_summary maps.summaries []))))))))

  -- The bytes of the file that `store` writes and renames.
  unfoldable pub store : Maps → ℕ → List ℕ
  store maps snapshot_seq =
      put_body maps snapshot_seq ++ to_le_bytes 4 (crc (put_body maps snapshot_seq))

  unfoldable pub load_body : List ℕ → Result SnapshotError (Maps × ℕ)
  load_body body = do
    (found_magic, b₁) ← get_u32 body
    reject_if (not (found_magic == magic)) not_a_snapshot
    (found_version, b₂) ← get_u32 b₁
    reject_if (not (found_version == version)) (bad_version found_version)
    (snapshot_seq, b₃) ← get_u64 b₂
    (n_docs, b₄) ← get_u64 b₃
    (n_splits, b₅) ← get_u64 b₄
    (n_summaries, b₆) ← get_u64 b₅
    (docs, b₇) ← get_entries (Snapshot.get_doc is_utf8) n_docs [] b₆
    (splits, b₈) ← get_entries Snapshot.get_split n_splits [] b₇
    (summaries, b₉) ← get_entries Snapshot.get_summary n_summaries [] b₈
    ok (record { docs = docs; splits = splits; summaries = summaries }, snapshot_seq)

  -- `load` of the bytes of a file, or of none.
  unfoldable pub load : Option (List ℕ) → Result SnapshotError (Option (Maps × ℕ))
  load none = ok none
  load (some bytes) = do
    reject_if (ltb (length bytes) 4) too_short
    let body = take (length bytes - 4) bytes
    let expected = from_le_bytes (drop (length bytes - 4) bytes)
    reject_if (not (expected == crc body)) (bad_checksum expected (crc body))
    loaded ← load_body body
    ok (some loaded)

  pub record MapsFit (maps : Maps) (snapshot_seq : ℕ) : Type 0 where
    pub seq : IsU64 snapshot_seq
    pub n_docs : IsU64 (length maps.docs)
    pub n_splits : IsU64 (length maps.splits)
    pub n_summaries : IsU64 (length maps.summaries)
    pub docs : All (λ p. DocFits is_utf8 p.0 p.1) maps.docs
    pub splits : All (λ p. SplitFits p.0 p.1) maps.splits
    pub summaries : All (λ p. SummaryFits p.0 p.1) maps.summaries

  abbrev reloaded : Maps → Maps
  reloaded maps = record {
    docs = insert_all maps.docs [];
    splits = insert_all maps.splits [];
    summaries = insert_all maps.summaries [];
  }

  load_body-put_body :
      (maps : Maps) (seq : ℕ)
      → MapsFit maps seq
      → load_body (put_body maps seq) ≡ ok (reloaded maps, seq)
  unfolding load_body
  load_body-put_body maps seq h =
      let r₉ = put_entries put_summary maps.summaries [] in
      let r₈ = put_entries put_split maps.splits r₉ in
      let r₇ = put_entries put_doc maps.docs r₈ in
      let r₆ = put_u64 (length maps.summaries) r₇ in
      let r₅ = put_u64 (length maps.splits) r₆ in
      let r₄ = put_u64 (length maps.docs) r₅ in
      let r₃ = put_u64 seq r₄ in
      rw (
        get_u32-put_u32 magic (put_u32 version r₃) (omega arith),
        get_u32-put_u32 version r₃ (omega arith),
        get_u64-put_u64 seq r₄ h.seq,
        get_u64-put_u64 (length maps.docs) r₅ h.n_docs,
        get_u64-put_u64 (length maps.splits) r₆ h.n_splits,
        get_u64-put_u64 (length maps.summaries) r₇ h.n_summaries,
        get_entries-put_entries put_doc (Snapshot.get_doc is_utf8) (DocFits is_utf8)
            (get_doc-put_doc is_utf8) maps.docs [] r₈ h.docs,
        get_entries-put_entries put_split Snapshot.get_split SplitFits get_split-put_split
            maps.splits [] r₉ h.splits,
        get_entries-put_entries put_summary Snapshot.get_summary SummaryFits get_summary-put_summary
            maps.summaries [] [] h.summaries,
      )

  -- `load` of the file that `store` wrote returns the sequence number and maps with the same entry at
  -- every key. The checksum is a u32, each map has a key once, every number fits the width that it is
  -- written at, no optional list has the length that stands for `None`, and every URL is UTF-8.
  pub load-store :
      (maps : Maps) (snapshot_seq : ℕ)
      → IsChecksum crc
      → MapsFit maps snapshot_seq
      → IsWellKeyed maps
      → (maps' : Maps) × (load (some (store maps snapshot_seq)) ≡ ok (some (maps', snapshot_seq)))
        × ((k : ℕ)
            → (HashMap.get k maps'.docs ≡ HashMap.get k maps.docs)
              × (HashMap.get k maps'.splits ≡ HashMap.get k maps.splits)
              × (HashMap.get k maps'.summaries ≡ HashMap.get k maps.summaries))
  unfolding load store HashMap.get
  load-store maps seq u32 fits keyed =
      let body = put_body maps seq in
      let sum = to_le_bytes 4 (crc body) in
      let four : length sum ≡ 4 = length-to_le_bytes 4 (crc body) in
      let whole : length (body ++ sum) - 4 ≡ length body =
        omega (arith, length-append body sum, four) in
      (
        reloaded maps,
        rw (
          le→ltb_false (length (body ++ sum)) 4 (omega (arith, length-append body sum, four)),
          whole,
          take_first (length body) body sum refl,
          drop_first (length body) body sum refl,
          from_le_bytes-to_le_bytes 4 (crc body) (u32 body),
          ==_refl (crc body),
          load_body-put_body maps seq fits,
        ),
        λ k. (
          get-insert_all maps.docs [] k keyed.docs ∙ either-none (HashMap.get k maps.docs),
          get-insert_all maps.splits [] k keyed.splits ∙ either-none (HashMap.get k maps.splits),
          get-insert_all maps.summaries [] k keyed.summaries
              ∙ either-none (HashMap.get k maps.summaries),
        ),
      )

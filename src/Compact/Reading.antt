-- ===== src/Compact/Reading.antt =====
-- embedding-store/src/compact.rs: the records of a compacted store read as they did.
use embedding_processing_rs.Base.{
  ℕ, ◌+◌, ◌%◌, ◌^◌, ◌<◌, ◌≤◌, ◌≡◌, ◌≢◌, refl, ap, sym, ◌∙◌, subst, Bool, true, false, none, some,
  List, [], ◌∷◌, ◌++◌, ◌==◌, ==_refl, Bool-cases, leb, leb→le, le→leb, le→ltb_false, arith,
  contains, length, take, drop, length-append, length-take, length-drop, take-append_le,
  drop-append_le, take_first, drop_first, All, inl, inr, ok, Option-cases,
}
use embedding_processing_rs.HashMap
use embedding_processing_rs.HashMap.{HashMap, get-none_of_keys}
use embedding_processing_rs.Maps.{Loc}
use embedding_processing_rs.Segment.{ActiveSegment, read_at, sealed_slice}
use embedding_processing_rs.Segment.Log.{log}
use embedding_processing_rs.Store.Types.{Store}
use embedding_processing_rs.Store.Read.{read_record}
use embedding_processing_rs.Compact.{NewLocs, relocate_each}
use embedding_processing_rs.Compact.Copies.{Held, IsCopy, is_noted}
use embedding_processing_rs.Compact.Relocated.{All-Names, get-relocate_each, get-relocate_each-none}

-- A segment that is sealed in the store.
abbrev pub is_sealed : Store → ℕ → Bool
is_sealed s id = contains (HashMap.keys s.sealed) id

-- A record that is read is as long as its location says, and in the active segment or in a sealed one.
length-read_record :
    (s : Store) (loc : Loc) (bytes : List ℕ) → read_record s loc ≡ ok bytes → length bytes ≡ loc.len
unfolding read_record read_at sealed_slice
length-read_record s loc bytes h = elim (Bool-cases (loc.segment == s.active.id)) [
  | inl e ↦ ground (
    arith,
    h,
    e,
    length-take loc.len (drop loc.offset s.active.file),
    length-drop loc.offset s.active.file,
  )
  | inr e ↦ elim (Option-cases (HashMap.get loc.segment s.sealed)) [
    | inl q ↦ absurd (ground (arith, h, e, q))
    | inr (segment, q) ↦ ground (
      arith,
      h,
      e,
      q,
      length-take loc.len (drop loc.offset segment),
      length-drop loc.offset segment,
    )
  ]
]

read_record-sealed :
    (s : Store) (loc : Loc) (bytes : List ℕ)
    → read_record s loc ≡ ok bytes
    → (loc.segment == s.active.id) ≡ false
    → is_sealed s loc.segment ≡ true
unfolding read_record
read_record-sealed s loc bytes h e = elim (Bool-cases (is_sealed s loc.segment)) [
  | inl q ↦ q
  | inr q ↦ absurd (ground (arith, h, e, get-none_of_keys loc.segment s.sealed q))
]

-- Bytes that are in the file are read when more follow them.
read_at-grown :
    (a b : ActiveSegment) (offset len : ℕ) (bytes : List ℕ)
    → b.file ≡ log a
    → read_at a offset len ≡ ok bytes
    → read_at b offset len ≡ ok bytes
unfolding read_at
read_at-grown a b offset len bytes grown h =
    elim (Bool-cases (leb (offset + len) (length a.file))) [
      | inl e ↦
          let fits : offset + len ≤ length a.file = leb→le (offset + len) (length a.file) e in
          let cut : bytes ≡ take len (drop offset a.file) = ground (arith, h, e) in
          let more : length b.file ≡ length a.file + length a.buffer =
            ap length grown ∙ length-append a.file a.buffer in
          let dropped : drop offset b.file ≡ drop offset a.file ++ a.buffer =
            ap (drop offset) grown ∙ drop-append_le offset a.file a.buffer (omega arith) in
          rw (le→leb (offset + len) (length b.file) (omega arith), dropped)
            (ap ok (
              take-append_le len (drop offset a.file) a.buffer
                (omega (arith, length-drop offset a.file))
              ∙ sym cut))
      | inr e ↦ absurd (ground (arith, h, e))
    ]

-- A record in the new segment.
pub read_record-copied :
    (t : Store) (new_id : ℕ) (written before bytes after : List ℕ)
    → t.sealed ≡ (new_id, written) ∷ []
    → t.active.id ≢ new_id
    → written ≡ before ++ (bytes ++ after)
    → length bytes < 2 ^ 32
    → read_record t
        (record { segment = new_id; offset = length before; len = length bytes % 2 ^ 32 })
      ≡ ok bytes
unfolding read_record sealed_slice HashMap.get
read_record-copied t new_id written before bytes after sealed differ placed small =
    let len : length bytes % 2 ^ 32 ≡ length bytes = omega arith in
    let all : length written ≡ length before + (length bytes + length after) =
      ap length placed
      ∙ length-append before (bytes ++ after)
      ∙ ap (λ n. length before + n) (length-append bytes after) in
    let other : (new_id == t.active.id) ≡ false = ground (arith, differ) in
    let cut : take (length bytes) (drop (length before) written) ≡ bytes =
      ap (λ (l : List ℕ). take (length bytes) (drop (length before) l)) placed
      ∙ ap (take (length bytes)) (drop_first (length before) before (bytes ++ after) refl)
      ∙ take_first (length bytes) bytes after refl in
    rw
      (
        other,
        sealed,
        ==_refl new_id,
        len,
        le→ltb_false (length written) (length before + length bytes) (omega arith),
      )
      (ap ok cut)

-- A record in the active segment, whose buffer has gone to its file.
read_record-active :
    (s t : Store) (loc : Loc) (bytes : List ℕ)
    → t.active.id ≡ s.active.id
    → t.active.file ≡ log s.active
    → (loc.segment == s.active.id) ≡ true
    → read_record s loc ≡ ok bytes
    → read_record t loc ≡ ok bytes
unfolding read_record
read_record-active s t loc bytes id file e h =
    let own : read_at s.active loc.offset loc.len ≡ ok bytes = ground (arith, h, e) in
    ground (arith, id, e, read_at-grown s.active t.active loc.offset loc.len bytes file own)

-- What a key's entry becomes: the same one but for its location, where the record reads as before.
abbrev pub KeepsKey :
    {V : Type 0} → (V → Loc) → (V → Loc → V) → Store → Store → HashMap V → HashMap V → ℕ → Type 0
KeepsKey at put s t m m' k =
    (HashMap.get k m ≡ none → HashMap.get k m' ≡ none)
    × ((e : _)
        → HashMap.get k m ≡ some e
        → (loc : Loc) × (HashMap.get k m' ≡ some (put e loc))
          × ((bytes : List ℕ) → read_record s (at e) ≡ ok bytes → read_record t loc ≡ ok bytes))

module _ (s t : Store) (new_id : ℕ) (written : List ℕ) (id : t.active.id ≡ s.active.id)
    (file : t.active.file ≡ log s.active)
    (copies : (old new : Loc) (h : Held s written new_id old new)
      → length h.bytes < 2 ^ 32
      → read_record t new ≡ ok h.bytes)
    {V : Type 0} (at : V → Loc) (put : V → Loc → V) (put_at : (v : V) → put v (at v) ≡ v)
    (at_put : (v : V) (l : Loc) → at (put v l) ≡ l)
    (put_put : (v : V) (l l' : Loc) → put (put v l) l' ≡ put v l') (m : HashMap V)
    (small : (k : ℕ) (e : V) → HashMap.get k m ≡ some e → (at e).len < 2 ^ 32) (locs : NewLocs)
    (copied : All (IsCopy s at m written new_id) locs)
    (covered : (k : ℕ) (e : V)
      → HashMap.get k m ≡ some e
      → is_sealed s (at e).segment ≡ true
      → is_noted locs k ≡ true) where
  reads_moved :
      (k : ℕ) (e : V) (loc : Loc) (bytes : List ℕ)
      → HashMap.get k m ≡ some e
      → IsCopy s at m written new_id (k, loc)
      → read_record s (at e) ≡ ok bytes
      → read_record t loc ≡ ok bytes
  reads_moved k e loc bytes found (e', found', held) read =
      let same : e' ≡ e = cc in
      let there : read_record s (at e') ≡ ok bytes = ap (λ x. read_record s (at x)) same ∙ read in
      let these : held.bytes ≡ bytes = cc (held.read, there) in
      copies (at e') loc held
        (omega (arith, length-read_record s (at e') held.bytes held.read, small k e' found'))
      ∙ ap ok these

  reads_own :
      (k : ℕ) (e : V) (bytes : List ℕ)
      → HashMap.get k m ≡ some e
      → is_noted locs k ≡ false
      → read_record s (at e) ≡ ok bytes
      → read_record t (at e) ≡ ok bytes
  reads_own k e bytes found new read = elim (Bool-cases ((at e).segment == s.active.id)) [
    | inl q ↦ read_record-active s t (at e) bytes id file q read
    | inr q ↦ cc (covered k e found (read_record-sealed s (at e) bytes read q))
  ]

  pub relocate_each-KeepsKey : (k : ℕ) → KeepsKey at put s t m (relocate_each put locs m) k
  relocate_each-KeepsKey k = (
    get-relocate_each-none put locs m k,
    (λ e found.
        let (loc, now, which) = get-relocate_each put at put_at at_put put_put locs m k e found in
        (
          loc,
          now,
          elim which [
            | inl n ↦ λ bytes.
                reads_moved k e loc bytes found
                  (All-Names (IsCopy s at m written new_id) locs k loc copied n)
            | inr (own, new) ↦ λ bytes read.
                subst (λ l. read_record t l ≡ ok bytes) (sym own)
                  (reads_own k e bytes found new read)
          ],
        )),
  )

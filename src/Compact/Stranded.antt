-- ===== src/Compact/Stranded.antt =====
-- embedding-store/src/compact.rs: what an error behind the new manifest does to the next start.
use embedding_processing_rs.Base.{
  ℕ, ◌≡◌, ◌≢◌, refl, ap, sym, ◌∙◌, Bool, true, false, Option, none, some, List, [], ◌∷◌, ◌==◌,
  arith, contains, map, is_empty, Bool-cases, Option-cases, inl, inr, Result, ok, err,
}
use embedding_processing_rs.Base.Action.{Action, continue, lift, pure, ◌>>=◌, ◌>>◌, >>=-ok, >>-ok}
use embedding_processing_rs.HashMap
use embedding_processing_rs.HashMap.{HashMap, get-insert, get-remove}
use embedding_processing_rs.Crates.{Crates}
use embedding_processing_rs.Errors.{Error}
use embedding_processing_rs.Manifest.{Manifest, SegmentInfo, segment_ids}
use embedding_processing_rs.Segment.{Disk}
use embedding_processing_rs.Store.Types.{Store, StoreOptions}
use embedding_processing_rs.Store.Open.{
  Directory, load_manifest, remove_orphan, remove_orphans, remove_orphan_segments, open_sealed,
  open_all, open_store,
}
use embedding_processing_rs.Store.Opening.{check_manifest}
use embedding_processing_rs.Store.Files.{directory_of}
use embedding_processing_rs.Compact.{remove_file, compact_into, compact, claimed, or_remove}

module _ (disk : Disk) (k : ℕ) where
  abbrev Lacks : Directory → Type 0
  Lacks d = HashMap.get k d.segments ≡ none

  Lacks-continue :
      (r : Result Error (Unit {0}) × Directory) (f : Action Error Directory (Unit {0}))
      → Lacks r.1
      → ((d : Directory) → Lacks d → Lacks (f d).1)
      → Lacks (continue r (λ _. f)).1
  Lacks-continue (ok u, d) f h g = g d h
  Lacks-continue (err e, d) f h g = h

  remove_orphan-Lacks :
      (known : List ℕ) (id : ℕ) (d : Directory) → Lacks d → Lacks (remove_orphan disk known id d).1
  unfolding remove_orphan
  remove_orphan-Lacks known id d h = ground (arith, h, get-remove id k d.segments)

  remove_orphans-Lacks :
      (known ids : List ℕ) (d : Directory) → Lacks d → Lacks (remove_orphans disk known ids d).1
  unfolding ◌>>◌
  remove_orphans-Lacks known [] d h = h
  remove_orphans-Lacks known (id ∷ ids) d h =
      Lacks-continue (remove_orphan disk known id d) (remove_orphans disk known ids)
        (remove_orphan-Lacks known id d h) (remove_orphans-Lacks known ids)

  open_sealed-there :
      (id : ℕ) (bytes : List ℕ) (d d' : Directory)
      → open_sealed disk id d ≡ (ok bytes, d')
      → (d' ≡ d) × (HashMap.get id d.segments ≢ none)
  unfolding open_sealed
  open_sealed-there id bytes d d' h = elim (Option-cases (HashMap.get id d.segments)) [
    | inl e ↦ absurd (ground (arith, h, e))
    | inr (b, e) ↦ (ground (arith, h, e), λ q. ground (arith, q, e))
  ]

  -- A segment that is not there is not opened.
  open_all-there :
      (is : List SegmentInfo) (sealed out : HashMap (List ℕ)) (d d' : Directory)
      → open_all disk is sealed d ≡ (ok out, d')
      → Lacks d
      → contains (map (λ (i : SegmentInfo). i.id) is) k ≡ false
  open_all-there [] sealed out d d' h none_there = refl
  open_all-there (i ∷ is) sealed out d d' h none_there =
      let (bytes, d₁, opened, rest) = >>=-ok (open_sealed disk i.id) _ d h in
      let (same, there) = open_sealed-there i.id bytes d d₁ opened in
      let others =
        open_all-there is (HashMap.insert i.id bytes sealed) out d₁ d' rest
          (ap (λ (x : Directory). HashMap.get k x.segments) same ∙ none_there) in
      elim (Bool-cases (k == i.id)) [
        | inl e ↦ absurd (there (ground (arith, e, none_there)))
        | inr e ↦ ground (arith, e, others)
      ]

  module _ (crates : Crates) (is_utf8 : List ℕ → Bool) where
    load_manifest-there :
        (opts : StoreOptions) (o : Option Manifest) (d d' : Directory) (m m' : Manifest)
        → o ≡ some m
        → load_manifest disk opts o d ≡ (ok m', d')
        → (m' ≡ m) × (d' ≡ d)
    unfolding ◌>>◌ ◌>>=◌
    load_manifest-there opts none d d' m m' e h = cc
    load_manifest-there opts (some x) d d' m m' e h =
        let (u, s', checked, ran) = >>-ok (lift (check_manifest opts x)) (pure x) d h in
        let given : ◌≡◌ {A = Result Error Manifest} (ok x) (ok m') = λ i. (ran i).0 in
        (cc, (λ i. (sym ran i).1) ∙ (λ i. (sym checked i).1))

    -- A directory whose manifest names a segment that is not there is not opened.
    open_store-ne-ok :
        (opts : StoreOptions) (d d' : Directory) (m : Manifest) (s : Store)
        → d.manifest ≡ some m
        → contains (segment_ids m) k ≡ true
        → Lacks d
        → open_store disk crates is_utf8 opts d ≢ (ok s, d')
    unfolding open_store remove_orphan_segments segment_ids
    open_store-ne-ok opts d d' m s here names none_there h =
        let (m₁, d₁, loaded, h₁) = >>=-ok (load_manifest disk opts d.manifest) _ d h in
        let (same_m, same_d) = load_manifest-there opts d.manifest d d₁ m m₁ here loaded in
        let (u, d₂, removed, h₂) = >>-ok (remove_orphan_segments disk m₁) _ d₁ h₁ in
        let (sealed, d₃, opened, h₃) = >>=-ok (open_all disk m₁.sealed []) _ d₂ h₂ in
        let known : List ℕ = m₁.active ∷ segment_ids m₁ in
        let lacks : Lacks d₂ =
          ap (λ (x : Directory). HashMap.get k x.segments) (λ i. (sym removed i).1)
          ∙ remove_orphans-Lacks known (HashMap.keys d₁.segments) d₁
              (ap (λ (x : Directory). HashMap.get k x.segments) same_d ∙ none_there) in
        let absent : contains (segment_ids m₁) k ≡ false =
          open_all-there m₁.sealed [] sealed d₂ d₃ opened lacks in
        cc (names, absent, ap (λ (x : Manifest). contains (segment_ids x) k) same_m)

    -- The file of the new segment goes with an error.
    or_remove-none :
        (p : Result Error (Unit {0}) × Store) (e : Error) (t : Store)
        → or_remove disk crates is_utf8 k p ≡ (err e, t)
        → disk.can_remove k ≡ true
        → HashMap.get k t.files ≡ none
    unfolding remove_file
    or_remove-none (ok u, s) e t h can = absurd (ground arith)
    or_remove-none (err x, s) e t h can = elim (Option-cases (HashMap.get k s.files)) [
      | inl q ↦ ground (arith, h, q, can)
      | inr (b, q) ↦ ground (arith, h, q, can, get-remove k k s.files)
    ]

module _ (crates : Crates) (disk later : Disk) (is_utf8 : List ℕ → Bool) where
  -- A compaction that fails when the manifest on disk names the new segment already leaves a directory
  -- that no later start can open, since the file of that segment is removed. The system removes it, and
  -- the id is not that of the active segment.
  pub compact-Stranded :
      (s t : Store) (e : Error) (m : Manifest) (opts : StoreOptions) (u : Store) (d : Directory)
      → compact disk crates is_utf8 s ≡ (err e, t)
      → t.stored ≡ some m
      → contains (segment_ids m) s.manifest.next_segment_id ≡ true
      → disk.can_remove s.manifest.next_segment_id ≡ true
      → t.active.id ≢ s.manifest.next_segment_id
      → open_store later crates is_utf8 opts (directory_of t) ≢ (ok u, d)
  unfolding compact
  compact-Stranded s t e m opts u d h stored names can differ =
      let k : ℕ = s.manifest.next_segment_id in
      elim (Bool-cases (is_empty s.sealed)) [
        | inl q ↦ absurd (ground (arith, q, h))
        | inr q ↦
            let ran : or_remove disk crates is_utf8 k (
                  compact_into disk crates is_utf8 k (HashMap.keys s.sealed)
                    (claimed disk crates is_utf8 s))
                ≡ (err e, t) =
              ground (arith, q, h) in
            let gone : HashMap.get k t.files ≡ none =
              or_remove-none disk k crates is_utf8 _ e t ran can in
            open_store-ne-ok later k crates is_utf8 opts (directory_of t) d m u stored names
              (ground (arith, gone, differ, get-insert t.active.id k t.active.file t.files))
      ]

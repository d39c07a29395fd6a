-- ===== src/Store/Files.antt =====
-- embedding-store/src/store.rs: the segment files that `open` removes and opens.
use embedding_processing_rs.Base.{
  ℕ, ◌≡◌, ◌≢◌, refl, ap, sym, ◌∙◌, true, Bool-cases, inl, inr, ◌⊎◌, Option, some, List, [], ◌∷◌,
  arith, ◌==◌, ==_refl, if◌then◌else◌, contains, Result, ok, All, map,
}
use embedding_processing_rs.Base.Action.{continue, ◌>>=◌, ◌>>◌}
use embedding_processing_rs.HashMap
use embedding_processing_rs.HashMap.{HashMap, get-insert, get-remove}
use embedding_processing_rs.Maps.{Maps}
use embedding_processing_rs.Crates.{Crates}
use embedding_processing_rs.Errors.{Error}
use embedding_processing_rs.Manifest.{SegmentInfo}
use embedding_processing_rs.Segment.{Disk}
use embedding_processing_rs.Store.Types.{Store}
use embedding_processing_rs.Store.Seal.{file_of}
use embedding_processing_rs.Store.Open.{
  Directory, remove_orphan, remove_orphans, open_sealed, open_all,
}
use embedding_processing_rs.Store.Whole.{SealedReplays}

-- The operating system opens and removes every segment file.
pub record IsWilling (disk : Disk) : Type 0 where
  pub opens : (id : ℕ) → disk.can_open id ≡ true
  pub removes : (id : ℕ) → disk.can_remove id ≡ true

-- What is in the directory when the process that held the store ends.
abbrev pub directory_of : Store → Directory
directory_of s = record {
  segments = HashMap.insert s.active.id s.active.file s.files;
  manifest = s.stored;
  snapshot = s.snapshot;
}

-- The segment files that stay when the unknown ones among `ids` are removed.
abbrev pub remaining : List ℕ → List ℕ → HashMap (List ℕ) → HashMap (List ℕ)
remaining known [] m = m
remaining known (id ∷ ids) m =
    remaining known ids (if contains known id then m else HashMap.remove id m)

pub get-remaining :
    (known ids : List ℕ) (m : HashMap (List ℕ)) (k : ℕ)
    → contains known k ≡ true
    → HashMap.get k (remaining known ids m) ≡ HashMap.get k m
get-remaining known [] m k h = refl
get-remaining known (id ∷ ids) m k h =
    get-remaining known ids (if contains known id then m else HashMap.remove id m) k h
    ∙ ground (arith, h, get-remove id k m)

module _ (disk : Disk) (willing : IsWilling disk) where
  pub remove_orphans-remaining :
      (known ids : List ℕ) (d : Directory)
      → remove_orphans disk known ids d
        ≡ (ok tt, record d { segments = remaining known ids d.segments })
  unfolding remove_orphan ◌>>◌
  remove_orphans-remaining known [] d = refl
  remove_orphans-remaining known (id ∷ ids) d = elim (Bool-cases (contains known id)) [
    | inl e ↦ rw e (remove_orphans-remaining known ids d)
    | inr e ↦
        rw (e, willing.removes id)
          (remove_orphans-remaining known ids
            (record d { segments = HashMap.remove id d.segments }))
  ]

-- The sealed segments of the manifest, as they are opened.
abbrev pub opened_sealed : List SegmentInfo → HashMap (List ℕ) → HashMap (List ℕ) → HashMap (List ℕ)
opened_sealed [] files sealed = sealed
opened_sealed (i ∷ is) files sealed =
    opened_sealed is files (HashMap.insert i.id (file_of (HashMap.get i.id files)) sealed)

-- The segments of a list are all there.
abbrev pub AllThere : List SegmentInfo → HashMap (List ℕ) → Type 0
AllThere is files = All (λ i. (bytes : List ℕ) × (HashMap.get i.id files ≡ some bytes)) is

-- A segment that is in the map from the start, as it is in the files, or that the list names.
get-opened_sealed :
    (is : List SegmentInfo) (files sealed : HashMap (List ℕ)) (k : ℕ) (bytes : List ℕ)
    → HashMap.get k files ≡ some bytes
    → (HashMap.get k sealed ≡ some bytes) ⊎ (contains (map (λ i. i.id) is) k ≡ true)
    → HashMap.get k (opened_sealed is files sealed) ≡ some bytes
get-opened_sealed [] files sealed k bytes h (inl e) = e
get-opened_sealed [] files sealed k bytes h (inr e) = absurd (ground (arith, e))
get-opened_sealed (i ∷ is) files sealed k bytes h (inl e) =
    get-opened_sealed is files _ k bytes h
      (inl (ground (arith, h, e, get-insert i.id k (file_of (HashMap.get i.id files)) sealed)))
get-opened_sealed (i ∷ is) files sealed k bytes h (inr e) = elim (Bool-cases (i.id == k)) [
  | inl q ↦
      get-opened_sealed is files _ k bytes h
        (inl (ground (arith, h, q, get-insert i.id k (file_of (HashMap.get i.id files)) sealed)))
  | inr q ↦ get-opened_sealed is files _ k bytes h (inr (ground (arith, e, q)))
]

-- What holds of every id of the list holds of its entries.
pub All-of_ids :
    (P : ℕ → Type 0) (is : List SegmentInfo)
    → ((k : ℕ) → contains (map (λ i. i.id) is) k ≡ true → P k)
    → All (λ i. P i.id) is
All-of_ids P [] f = tt
All-of_ids P (i ∷ is) f =
    (f i.id (ground (arith, ==_refl i.id)), All-of_ids P is (λ k h. f k (ground (arith, h))))

pub opened_sealed-congr :
    (is : List SegmentInfo) (files files' sealed : HashMap (List ℕ))
    → All (λ i. HashMap.get i.id files ≡ HashMap.get i.id files') is
    → opened_sealed is files sealed ≡ opened_sealed is files' sealed
opened_sealed-congr [] files files' sealed h = refl
opened_sealed-congr (i ∷ is) files files' sealed (e, h) =
    rw e (opened_sealed-congr is files files' _ h)

pub AllThere-congr :
    (is : List SegmentInfo) (files files' : HashMap (List ℕ))
    → All (λ i. HashMap.get i.id files ≡ HashMap.get i.id files') is
    → AllThere is files'
    → AllThere is files
AllThere-congr [] files files' h there = tt
AllThere-congr (i ∷ is) files files' (e, h) ((bytes, found), there) =
    ((bytes, e ∙ found), AllThere-congr is files files' h there)

pub SealedReplays-AllThere :
    (crates : Crates) (n : ℕ) (is : List SegmentInfo) (sealed : HashMap (List ℕ)) (m m' : Maps)
    → SealedReplays crates n is sealed m m'
    → AllThere is sealed
SealedReplays-AllThere crates n [] sealed m m' r = tt
SealedReplays-AllThere crates n (i ∷ is) sealed m m' (bytes, mid, found, r, rest) =
    ((bytes, found), SealedReplays-AllThere crates n is sealed mid m' rest)

-- The segments are opened as they are in the files.
pub get-opened_segments :
    (is all : List SegmentInfo) (files : HashMap (List ℕ))
    → All (λ i. contains (map (λ j. j.id) all) i.id ≡ true) is
    → AllThere is files
    → All (λ i. HashMap.get i.id (opened_sealed all files []) ≡ HashMap.get i.id files) is
get-opened_segments [] all files h there = tt
get-opened_segments (i ∷ is) all files (e, h) ((bytes, found), there) = (
  get-opened_sealed all files [] i.id bytes found (inr e) ∙ sym found,
  get-opened_segments is all files h there,
)

pub All-trans :
    (F G H : ℕ → Option (List ℕ)) (is : List SegmentInfo)
    → All (λ i. F i.id ≡ G i.id) is
    → All (λ i. G i.id ≡ H i.id) is
    → All (λ i. F i.id ≡ H i.id) is
All-trans F G H [] h k = tt
All-trans F G H (i ∷ is) (e, h) (f, k) = (e ∙ f, All-trans F G H is h k)

-- The files of a store, other than the active one, in the directory that it leaves.
pub get-others :
    (is : List SegmentInfo) (k : ℕ) (bytes : List ℕ) (files : HashMap (List ℕ))
    → All (λ i. i.id ≢ k) is
    → All (λ i. HashMap.get i.id (HashMap.insert k bytes files) ≡ HashMap.get i.id files) is
get-others [] k bytes files h = tt
get-others (i ∷ is) k bytes files (e, h) =
    (ground (arith, e, get-insert k i.id bytes files), get-others is k bytes files h)

module _ (disk : Disk) (willing : IsWilling disk) where
  open_sealed-ok :
      (k : ℕ) (bytes : List ℕ) (d : Directory)
      → HashMap.get k d.segments ≡ some bytes
      → open_sealed disk k d ≡ (ok bytes, d)
  unfolding open_sealed
  open_sealed-ok k bytes d h = ground (arith, h, willing.opens k)

  pub open_all-opened_sealed :
      (is : List SegmentInfo) (sealed : HashMap (List ℕ)) (d : Directory)
      → AllThere is d.segments
      → open_all disk is sealed d ≡ (ok (opened_sealed is d.segments sealed), d)
  unfolding ◌>>=◌
  open_all-opened_sealed [] sealed d h = refl
  open_all-opened_sealed (i ∷ is) sealed d ((bytes, found), h) =
      ap
        (λ (r : Result Error (List ℕ) × Directory).
          continue r (λ b. open_all disk is (HashMap.insert i.id b sealed)))
        (open_sealed-ok i.id bytes d found)
      ∙ open_all-opened_sealed is (HashMap.insert i.id bytes sealed) d h
      ∙ rw found refl

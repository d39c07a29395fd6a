-- ===== src/Maps/Remove.antt =====
-- embedding-store/src/maps.rs: what `remove_doc` takes away and what it leaves.
use embedding_processing_rs.Base.{
  ℕ, ◌+◌, ◌≡◌, refl, none, some, List, [], ◌∷◌, ◌==◌, if◌then◌else◌, contains, arith, ◌&&◌,
  Option-cases, inl, inr,
}
use embedding_processing_rs.HashMap
use embedding_processing_rs.HashMap.{
  HashMap, get-remove, HasUniqueKeys, remove-HasUniqueKeys, total, total-remove,
}
use embedding_processing_rs.Maps.{
  Loc, Maps, Freed, DocEntry, SplitEntry, SummaryEntry, RemovedDoc, remove_each, sweep_doc,
  remove_doc, account, owned_summary_ids,
}

module _ {ℓ} {V : Type ℓ} (at : V → Loc) (active : ℕ) where
  -- The keys of the list are gone, and every other key is as it was.
  pub get-remove_each :
      (ids : List ℕ) (m : HashMap V) (f : Freed) (k : ℕ)
      → HashMap.get k (remove_each at active ids m f).map
        ≡ (if contains ids k then none else HashMap.get k m)
  unfolding remove_each
  get-remove_each [] m f k = refl
  get-remove_each (id ∷ ids) m f k = elim (Option-cases (HashMap.get id m)) [
    | inl e ↦ ground (arith, get-remove_each ids m f k)
    | inr (v, e) ↦ ground (
      arith,
      e,
      get-remove_each ids (HashMap.remove id m) (account active (at v) f) k,
      get-remove id k m,
    )
  ]

  -- The keys that are reported are those of the list that were there.
  pub contains-remove_each_ids :
      (ids : List ℕ) (m : HashMap V) (f : Freed) (k : ℕ)
      → contains (remove_each at active ids m f).ids k
        ≡ (contains ids k && HashMap.contains_key k m)
  unfolding remove_each
  contains-remove_each_ids [] m f k = refl
  contains-remove_each_ids (id ∷ ids) m f k = elim (Option-cases (HashMap.get id m)) [
    | inl e ↦ ground (arith, contains-remove_each_ids ids m f k)
    | inr (v, e) ↦ ground (
      arith,
      e,
      contains-remove_each_ids ids (HashMap.remove id m) (account active (at v) f) k,
      get-remove id k m,
    )
  ]

  abbrev bytes : Freed → ℕ
  bytes f = f.sealed_bytes + f.active_bytes

  bytes-account : (v : V) (f : Freed) → bytes (account active (at v) f) ≡ bytes f + (at v).len
  bytes-account v f = ground arith

  -- Every byte that leaves the map is counted, once.
  pub total-remove_each :
      (ids : List ℕ) (m : HashMap V) (f : Freed)
      → HasUniqueKeys m
      → total (λ v. (at v).len) m + bytes f
        ≡ total (λ v. (at v).len) (remove_each at active ids m f).map
          + bytes (remove_each at active ids m f).freed
  unfolding remove_each
  total-remove_each [] m f u = refl
  total-remove_each (id ∷ ids) m f u = elim (Option-cases (HashMap.get id m)) [
    | inl e ↦ rw (e, remove_each) (total-remove_each ids m f u)
    | inr (v, e) ↦
        rw (e, remove_each)
          (omega (
            arith,
            total-remove (λ v. (at v).len) id v m u e,
            total-remove_each ids (HashMap.remove id m) (account active (at v) f)
                (remove-HasUniqueKeys id m u),
            bytes-account v f,
          ))
  ]

-- The three maps have each key once.
pub record IsWellKeyed (m : Maps) : Type 0 where
  pub docs : HasUniqueKeys m.docs
  pub splits : HasUniqueKeys m.splits
  pub summaries : HasUniqueKeys m.summaries

-- The bytes of all live records.
abbrev pub live_bytes : Maps → ℕ
live_bytes m =
    total (λ (e : DocEntry). e.loc.len) m.docs
    + total (λ (e : SplitEntry). e.loc.len) m.splits
    + total (λ (e : SummaryEntry). e.loc.len) m.summaries

module _ (doc_id active : ℕ) (m : Maps) (entry : DocEntry)
    (present : HashMap.get doc_id m.docs ≡ some entry) where
  pub remove_doc_present :
      remove_doc doc_id active m
      ≡ (some (sweep_doc entry doc_id active m).0, (sweep_doc entry doc_id active m).1)
  unfolding remove_doc
  remove_doc_present = rw (present, remove_doc)

  -- Removing a document that is there: its own key, its split ids and its summary ids lose their
  -- entries, and every other lookup in the three maps is unchanged.
  pub remove_doc_lookups :
      (k : ℕ)
      → (HashMap.get k (remove_doc doc_id active m).1.docs
          ≡ (if doc_id == k then none else HashMap.get k m.docs))
        × (HashMap.get k (remove_doc doc_id active m).1.splits
            ≡ (if contains entry.split_ids k then none else HashMap.get k m.splits))
        × (HashMap.get k (remove_doc doc_id active m).1.summaries
            ≡ (if contains (owned_summary_ids entry) k then none else HashMap.get k m.summaries))
  unfolding remove_doc
  remove_doc_lookups k = rw (remove_doc_present) (
    get-remove doc_id k m.docs,
    get-remove_each _ active _ _ _ k,
    get-remove_each _ active _ _ _ k,
  )

  sweep_doc_bytes :
      IsWellKeyed m
      → live_bytes (sweep_doc entry doc_id active m).1
          + (sweep_doc entry doc_id active m).0.sealed_bytes
          + (sweep_doc entry doc_id active m).0.active_bytes
        ≡ live_bytes m
  unfolding sweep_doc
  sweep_doc_bytes u =
      let at_split : SplitEntry → Loc = λ e. e.loc in
      let start : Freed =
        account active entry.loc (record { sealed_bytes = 0; active_bytes = 0 }) in
      omega (
        arith,
        total-remove (λ (e : DocEntry). e.loc.len) doc_id entry m.docs u.docs present,
        total-remove_each at_split active entry.split_ids m.splits start u.splits,
        total-remove_each (λ (e : SummaryEntry). e.loc) active (owned_summary_ids entry) m.summaries
            (remove_each at_split active entry.split_ids m.splits start).freed u.summaries,
        bytes-account (λ (e : DocEntry). e.loc) active entry
            (record { sealed_bytes = 0; active_bytes = 0 }),
      )

-- Where each key is there once, the bytes counted as freed, in sealed segments and in the active
-- one, are those of the records that left the maps.
pub remove_doc_bytes :
    (doc_id active : ℕ) (m m' : Maps) (removed : RemovedDoc)
    → IsWellKeyed m
    → remove_doc doc_id active m ≡ (some removed, m')
    → live_bytes m' + removed.sealed_bytes + removed.active_bytes ≡ live_bytes m
unfolding remove_doc
remove_doc_bytes doc_id active m m' removed u h = elim (Option-cases (HashMap.get doc_id m.docs)) [
  | inl e ↦ ground (arith, e)
  | inr (entry, e) ↦ ground (arith, e, sweep_doc_bytes doc_id active m entry e u)
]

-- Which segment is being appended to decides the accounting alone.
remove_each_map {ℓ} :
    {V : Type ℓ} (at : V → Loc) (a b : ℕ) (ids : List ℕ) (m : HashMap V) (f g : Freed)
    → (remove_each at a ids m f).map ≡ (remove_each at b ids m g).map
unfolding remove_each
remove_each_map at a b [] m f g = refl
remove_each_map at a b (id ∷ ids) m f g = elim (Option-cases (HashMap.get id m)) [
  | inl e ↦ rw (e, remove_each) (remove_each_map at a b ids m f g)
  | inr (v, e) ↦ rw (e, remove_each) (remove_each_map at a b ids (HashMap.remove id m) _ _)
]

-- The accounting of the document's own record, and that behind its splits.
abbrev freed_doc : ℕ → DocEntry → Freed
freed_doc a entry = account a entry.loc (record { sealed_bytes = 0; active_bytes = 0 })

abbrev freed_splits : ℕ → DocEntry → Maps → Freed
freed_splits a entry m =
    (remove_each (λ (x : SplitEntry). x.loc) a entry.split_ids m.splits (freed_doc a entry)).freed

sweep_doc_maps :
    (entry : DocEntry) (doc_id a b : ℕ) (m : Maps)
    → (sweep_doc entry doc_id a m).1 ≡ (sweep_doc entry doc_id b m).1
unfolding sweep_doc
sweep_doc_maps entry doc_id a b m = λ i. record {
  docs = HashMap.remove doc_id m.docs;
  splits =
      remove_each_map (λ (x : SplitEntry). x.loc) a b entry.split_ids m.splits (freed_doc a entry)
        (freed_doc b entry) i;
  summaries =
      remove_each_map (λ (x : SummaryEntry). x.loc) a b (owned_summary_ids entry) m.summaries
        (freed_splits a entry m) (freed_splits b entry m) i;
}

pub remove_doc_maps :
    (doc_id a b : ℕ) (m : Maps) → (remove_doc doc_id a m).1 ≡ (remove_doc doc_id b m).1
unfolding remove_doc
remove_doc_maps doc_id a b m = elim (Option-cases (HashMap.get doc_id m.docs)) [
  | inl e ↦ rw (e, remove_doc)
  | inr (entry, e) ↦
      rw (remove_doc_present doc_id a m entry e, remove_doc_present doc_id b m entry e)
        (sweep_doc_maps entry doc_id a b m)
]

-- A removed document is not there.
pub get-remove_doc :
    (doc_id a : ℕ) (m : Maps) → HashMap.get doc_id (remove_doc doc_id a m).1.docs ≡ none
unfolding remove_doc
get-remove_doc doc_id a m = elim (Option-cases (HashMap.get doc_id m.docs)) [
  | inl e ↦ rw (e, remove_doc) e
  | inr (entry, e) ↦ rw (e, remove_doc) (ground (arith, get-remove doc_id doc_id m.docs))
]

-- Removing a document that is not there changes nothing.
pub remove_doc_absent :
    (doc_id a : ℕ) (m : Maps) → HashMap.get doc_id m.docs ≡ none → remove_doc doc_id a m ≡ (none, m)
unfolding remove_doc
remove_doc_absent doc_id a m e = rw (e, remove_doc)

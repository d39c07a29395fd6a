-- ===== src/HashMap.antt =====
-- `std::collections::HashMap` with u64 keys, as the list of its entries. A write to a key that is
-- there replaces its value in place, and another key goes to the end. The program leaves the order
-- of iteration to the map; here it is the order of the list.
use embedding_processing_rs.Base.{
  ℕ, ◌+◌, ◌≡◌, refl, subst, Bool, false, Bool-cases, inl, inr, All, ==→eq, Option, none, some, List,
  [], ◌∷◌, ◌++◌, arith, ◌==◌, if◌then◌else◌, contains, is_some,
}

abbrev pub HashMap {ℓ} : Type ℓ → Type ℓ
HashMap V = List (ℕ × V)

module _ {ℓ} {V : Type ℓ} where
  unfoldable pub get : ℕ → HashMap V → Option V
  get k [] = none
  get k ((j, v) ∷ m) = if j == k then some v else get k m

  unfoldable pub insert : ℕ → V → HashMap V → HashMap V
  insert k v [] = (k, v) ∷ []
  insert k v ((j, w) ∷ m) = let rest = insert k v m in if j == k then (k, v) ∷ m else (j, w) ∷ rest

  unfoldable pub remove : ℕ → HashMap V → HashMap V
  remove k [] = []
  remove k ((j, w) ∷ m) = let rest = remove k m in if j == k then rest else (j, w) ∷ rest

  abbrev pub contains_key : ℕ → HashMap V → Bool
  contains_key k m = is_some (get k m)

  abbrev pub keys : HashMap V → List ℕ
  keys [] = []
  keys ((k, v) ∷ m) = k ∷ keys m

  pub get-insert :
      (k j : ℕ) (v : V) (m : HashMap V)
      → get j (insert k v m) ≡ (if k == j then some v else get j m)
  unfolding get insert
  get-insert k j v [] = refl
  get-insert k j v ((i, w) ∷ m) = ground (arith, get-insert k j v m)

  pub get-remove :
      (k j : ℕ) (m : HashMap V) → get j (remove k m) ≡ (if k == j then none else get j m)
  unfolding get remove
  get-remove k j [] = ground arith
  get-remove k j ((i, w) ∷ m) = ground (arith, get-remove k j m)

  -- A key that is not there goes to the end.
  pub insert_new :
      (k : ℕ) (v : V) (m : HashMap V) → get k m ≡ none → insert k v m ≡ m ++ ((k, v) ∷ [])
  unfolding get insert
  insert_new k v [] h = refl
  insert_new k v ((j, w) ∷ m) h = ground (arith, insert_new k v m)

  pub remove_absent : (k : ℕ) (m : HashMap V) → get k m ≡ none → remove k m ≡ m
  unfolding get remove
  remove_absent k [] h = refl
  remove_absent k ((j, w) ∷ m) h = ground (arith, remove_absent k m)

  pub get-append : (k : ℕ) (l m : HashMap V) → get k l ≡ none → get k (l ++ m) ≡ get k m
  unfolding get
  get-append k [] m h = refl
  get-append k ((j, w) ∷ l) m h = ground (arith, get-append k l m)

  pub get-none_of_keys : (k : ℕ) (m : HashMap V) → contains (keys m) k ≡ false → get k m ≡ none
  unfolding get
  get-none_of_keys k [] h = refl
  get-none_of_keys k ((j, w) ∷ m) h = ground (arith, get-none_of_keys k m)

pub get-empty {ℓ} : {V : Type ℓ} (k : ℕ) → get {V = V} k [] ≡ none
unfolding get
get-empty k = refl

-- What holds of every entry holds of the one at a key.
pub All-get :
    {V : Type 0} (P : ℕ × V → Type 0) (m : HashMap V) (k : ℕ) (v : V)
    → All P m
    → get k m ≡ some v
    → P (k, v)
unfolding get
All-get P [] k v h there = absurd (ground (arith, there))
All-get {V} P ((j, w) ∷ m) k v (h, hs) there = elim (Bool-cases (j == k)) [
  | inl b ↦
      let same : w ≡ v = ground (arith, b, there) in
      subst (λ (q : ℕ × V). P q) (λ i. (==→eq j k b i, same i)) h
  | inr b ↦ All-get P m k v hs (ground (arith, b, there))
]

pub ruleset map_laws = (get-insert, get-remove)

module _ {ℓ} {V : Type ℓ} where
  -- A map has each key once.
  abbrev pub HasUniqueKeys : HashMap V → Type ℓ
  HasUniqueKeys [] = Unit {ℓ}
  HasUniqueKeys ((k, v) ∷ m) = (get k m ≡ none) × HasUniqueKeys m

  pub insert-HasUniqueKeys :
      (k : ℕ) (v : V) (m : HashMap V) → HasUniqueKeys m → HasUniqueKeys (insert k v m)
  unfolding get insert
  insert-HasUniqueKeys k v [] u = (refl, tt)
  insert-HasUniqueKeys k v ((j, w) ∷ m) u =
      ground (arith, insert-HasUniqueKeys k v m, get-insert k j v m)

  pub remove-HasUniqueKeys : (k : ℕ) (m : HashMap V) → HasUniqueKeys m → HasUniqueKeys (remove k m)
  unfolding get remove
  remove-HasUniqueKeys k [] u = tt
  remove-HasUniqueKeys k ((j, w) ∷ m) u = ground (arith, remove-HasUniqueKeys k m, get-remove k j m)

  -- The sum of a number over the entries.
  abbrev pub total : (V → ℕ) → HashMap V → ℕ
  total f [] = 0
  total f ((k, v) ∷ m) = f v + total f m

  pub total-remove :
      (f : V → ℕ) (k : ℕ) (v : V) (m : HashMap V)
      → HasUniqueKeys m
      → get k m ≡ some v
      → total f m ≡ f v + total f (remove k m)
  unfolding get remove
  total-remove f k v [] u h = cc
  total-remove f k v ((j, w) ∷ m) u h = ground (arith, total-remove f k v m, remove_absent k m)

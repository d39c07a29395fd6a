-- ===== src/Query/Kept.antt =====
-- embedding-server/src/api/query.rs: the lists that `keep_nearest` leaves, as one list of hits.
use embedding_processing_rs.Base.{
  ℕ, suc, ◌+◌, ◌≤◌, ◌<◌, ◌≡◌, ◌≢◌, refl, sym, subst, Bool, true, false, Bool-cases, inl, inr, ◌&&◌,
  ◌||◌, List, [], ◌∷◌, ◌++◌, ==_refl, length, arith, All, leb, none,
}
use embedding_processing_rs.HashMap
use embedding_processing_rs.HashMap.{HashMap, HasUniqueKeys}
use embedding_processing_rs.Query.{
  Hit, total_hits, tag_hits, all_hits, kept_ids, retain_hits, retain_each, sort_hits, nearest,
  keep_nearest,
}
use embedding_processing_rs.Query.Sorting.{
  has, is_in, AreDistinct, count_in, sort_hits-AreDistinct, All-of_sort_hits, count_in-sort_hits,
  IsOrder, sort_hits-AreSorted,
}
use embedding_processing_rs.Query.Nearest.{
  contains-kept_ids, count_in-take, KeepsNearest, take-KeepsNearest, All-map, All-zip,
}

has-append : (xs ys : List Hit) (i id : ℕ) → has (xs ++ ys) i id ≡ has xs i id || has ys i id
has-append [] ys i id = refl
has-append (x ∷ xs) ys i id = ground (arith, has-append xs ys i id)

count_in-append :
    (near xs ys : List Hit) → count_in near (xs ++ ys) ≡ count_in near xs + count_in near ys
count_in-append near [] ys = omega arith
count_in-append near (x ∷ xs) ys = ground (arith, count_in-append near xs ys)

-- A hit of a shard is in no other's list.
has-tag_hits : (i j id : ℕ) (hits : HashMap ℕ) → i ≢ j → has (tag_hits i hits) j id ≡ false
has-tag_hits i j id [] ne = refl
has-tag_hits i j id ((k, d) ∷ hits) ne = ground (arith, ne, has-tag_hits i j id hits ne)

has-absent :
    (i id : ℕ) (hits : HashMap ℕ) → HashMap.get id hits ≡ none → has (tag_hits i hits) i id ≡ false
unfolding HashMap.get
has-absent i id [] e = refl
has-absent i id ((k, d) ∷ hits) e = ground (arith, e, has-absent i id hits)

has-all_hits : (i j id : ℕ) (per : List (HashMap ℕ)) → i < j → has (all_hits j per) i id ≡ false
has-all_hits i j id [] lt = refl
has-all_hits i j id (hits ∷ per) lt = ground (
  arith,
  has-append (tag_hits j hits) (all_hits (suc j) per) i id,
  has-tag_hits j i id hits (omega arith),
  has-all_hits i (suc j) id per (omega (arith, lt)),
)

tagged-AreDistinct :
    (i : ℕ) (hits : HashMap ℕ) (rest : List Hit)
    → HasUniqueKeys hits
    → ((id : ℕ) → has rest i id ≡ false)
    → AreDistinct rest
    → AreDistinct (tag_hits i hits ++ rest)
tagged-AreDistinct i [] rest u out d = d
tagged-AreDistinct i ((k, x) ∷ hits) rest (u, us) out d = (
  ground (arith, has-append (tag_hits i hits) rest i k, has-absent i k hits u, out k),
  tagged-AreDistinct i hits rest us out d,
)

all_hits-AreDistinct :
    (i : ℕ) (per : List (HashMap ℕ)) → All HasUniqueKeys per → AreDistinct (all_hits i per)
all_hits-AreDistinct i [] u = tt
all_hits-AreDistinct i (hits ∷ per) (u, us) =
    tagged-AreDistinct i hits (all_hits (suc i) per) u
      (λ id. has-all_hits i (suc i) id per (omega arith)) (all_hits-AreDistinct (suc i) per us)

-- What is retained, counted and looked up.
length-retain_hits :
    (i : ℕ) (near : List Hit) (hits : HashMap ℕ)
    → length (retain_hits (kept_ids i near) hits) ≡ count_in near (tag_hits i hits)
length-retain_hits i near [] = refl
length-retain_hits i near ((k, d) ∷ hits) =
    ground (arith, contains-kept_ids i k near, length-retain_hits i near hits)

total_hits-retain_each :
    (near : List Hit) (i : ℕ) (per : List (HashMap ℕ))
    → total_hits (retain_each near i per) ≡ count_in near (all_hits i per)
total_hits-retain_each near i [] = refl
total_hits-retain_each near i (hits ∷ per) = omega (
  arith,
  length-retain_hits i near hits,
  total_hits-retain_each near (suc i) per,
  count_in-append near (tag_hits i hits) (all_hits (suc i) per),
)

has-retain_hits :
    (i j id : ℕ) (near : List Hit) (hits : HashMap ℕ)
    → has (tag_hits i (retain_hits (kept_ids i near) hits)) j id
      ≡ has near j id && has (tag_hits i hits) j id
has-retain_hits i j id near [] = ground arith
has-retain_hits i j id near ((k, d) ∷ hits) =
    ground (arith, has-retain_hits i j id near hits, contains-kept_ids i k near)

has-retain_each :
    (near : List Hit) (i j id : ℕ) (per : List (HashMap ℕ))
    → has (all_hits i (retain_each near i per)) j id ≡ has near j id && has (all_hits i per) j id
has-retain_each near i j id [] = ground arith
has-retain_each near i j id (hits ∷ per) = ground (
  arith,
  has-append (tag_hits i (retain_hits (kept_ids i near) hits))
      (all_hits (suc i) (retain_each near (suc i) per)) j id,
  has-append (tag_hits i hits) (all_hits (suc i) per) j id,
  has-retain_hits i j id near hits,
  has-retain_each near (suc i) j id per,
)

is_in_self : (hs : List Hit) → All (λ h. is_in hs h ≡ true) hs
is_in_self [] = tt
is_in_self (h ∷ hs) = (
  ground (arith, ==_refl h.shard, ==_refl h.id),
  All-map _ _ hs (λ g e. ground (arith, e)) (is_in_self hs),
)

module _ (less : ℕ → ℕ → Bool) (per : List (HashMap ℕ)) (top_k : ℕ) where
  abbrev all : List Hit
  all = all_hits 0 per

  abbrev near : List Hit
  near = nearest less per top_k

  -- At most `top_k` hits are left. No shard has an id twice.
  pub total_hits-keep_nearest :
      All HasUniqueKeys per → total_hits (keep_nearest less per top_k) ≤ top_k
  unfolding keep_nearest
  total_hits-keep_nearest u = elim (Bool-cases (leb (total_hits per) top_k)) [
    | inl e ↦ ground (arith, e)
    | inr e ↦ ground (
      arith,
      e,
      total_hits-retain_each near 0 per,
      count_in-sort_hits less near all,
      count_in-take top_k (sort_hits less all)
          (sort_hits-AreDistinct less all (all_hits-AreDistinct 0 per u)),
    )
  ]

  near-KeepsNearest : IsOrder less → All HasUniqueKeys per → KeepsNearest less near all
  near-KeepsNearest order u =
      All-map _ _ all (λ h k e. All-of_sort_hits less _ all (k e))
        (All-of_sort_hits less _ all (
          take-KeepsNearest less top_k (sort_hits less all) (sort_hits-AreSorted less order all)
            (sort_hits-AreDistinct less all (all_hits-AreDistinct 0 per u))))

  -- The same of the lists that are left.
  retained-KeepsNearest :
      (r hs : List Hit)
      → ((i id : ℕ) → has r i id ≡ has near i id && has hs i id)
      → KeepsNearest less near hs
      → KeepsNearest less r hs
  retained-KeepsNearest r hs same k =
      All-map _ _ hs
        (λ h q e.
          All-zip _ _ _ hs (λ g here f o. f (ground (arith, o, here, same g.shard g.id)))
            (is_in_self hs) (q (ground (arith, e, same h.shard h.id))))
        k

  nothing_dropped :
      (gs hs : List Hit)
      → All (λ g. is_in hs g ≡ true) gs
      → All
          (λ h.
            is_in hs h ≡ true
            → All (λ g. is_in hs g ≡ false → less g.distance h.distance ≡ false) gs)
          hs
  nothing_dropped gs hs here =
      All-map _ _ hs (λ h _ _. All-map _ _ gs (λ g e o. absurd (ground (arith, e, o))) here)
        (is_in_self hs)

  -- Of the hits of all shards, none that was dropped is nearer than one that was kept. No shard has an id
  -- twice, and distances are ordered by `less`.
  pub keep_nearest-KeepsNearest :
      IsOrder less
      → All HasUniqueKeys per
      → KeepsNearest less (all_hits 0 (keep_nearest less per top_k)) (all_hits 0 per)
  unfolding keep_nearest
  keep_nearest-KeepsNearest order u = elim (Bool-cases (leb (total_hits per) top_k)) [
    | inl e ↦
        let same : keep_nearest less per top_k ≡ per = ground (arith, e) in
        subst (λ (r : List (HashMap ℕ)). KeepsNearest less (all_hits 0 r) all) (sym same)
          (nothing_dropped all all (is_in_self all))
    | inr e ↦
        let same : keep_nearest less per top_k ≡ retain_each near 0 per = ground (arith, e) in
        subst (λ (r : List (HashMap ℕ)). KeepsNearest less (all_hits 0 r) all) (sym same)
          (retained-KeepsNearest (all_hits 0 (retain_each near 0 per)) all
            (λ i id. has-retain_each near 0 i id per) (near-KeepsNearest order u))
  ]

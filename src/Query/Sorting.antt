-- ===== src/Query/Sorting.antt =====
-- embedding-server/src/api/query.rs: the sorted hits, and which of them are among the first.
use embedding_processing_rs.Base.{
  ℕ, suc, ◌≡◌, refl, subst, Bool, true, false, Bool-cases, inl, inr, ◌&&◌, ◌||◌, List, [], ◌∷◌,
  ◌==◌, if◌then◌else◌, arith, All,
}
use embedding_processing_rs.Query.{Hit, place, sort_hits}

-- Is the hit of this shard with this id in the list?
abbrev pub has : List Hit → ℕ → ℕ → Bool
has [] i id = false
has (h ∷ hs) i id = (h.shard == i && h.id == id) || has hs i id

abbrev pub is_in : List Hit → Hit → Bool
is_in hs h = has hs h.shard h.id

-- No shard has an id twice.
abbrev pub AreDistinct : List Hit → Type 0
AreDistinct [] = Unit {0}
AreDistinct (h ∷ hs) = (is_in hs h ≡ false) × AreDistinct hs

abbrev pub count_in : List Hit → List Hit → ℕ
count_in near [] = 0
count_in near (h ∷ hs) = let rest = count_in near hs in if is_in near h then suc rest else rest

module _ (less : ℕ → ℕ → Bool) where
  -- Nothing behind a hit is nearer.
  abbrev pub AreSorted : List Hit → Type 0
  AreSorted [] = Unit {0}
  AreSorted (h ∷ hs) = All (λ g. less g.distance h.distance ≡ false) hs × AreSorted hs

  has-place :
      (h : Hit) (hs : List Hit) (i id : ℕ)
      → has (place less h hs) i id ≡ (h.shard == i && h.id == id) || has hs i id
  unfolding place
  has-place h [] i id = refl
  has-place h (g ∷ gs) i id = ground (arith, has-place h gs i id)

  pub has-sort_hits : (hs : List Hit) (i id : ℕ) → has (sort_hits less hs) i id ≡ has hs i id
  has-sort_hits [] i id = refl
  has-sort_hits (h ∷ hs) i id =
      ground (arith, has-place h (sort_hits less hs) i id, has-sort_hits hs i id)

  place-AreDistinct :
      (h : Hit) (hs : List Hit)
      → is_in hs h ≡ false
      → AreDistinct hs
      → AreDistinct (place less h hs)
  unfolding place
  place-AreDistinct h [] out d = (refl, tt)
  place-AreDistinct h (g ∷ gs) out (o, d) = elim (Bool-cases (less g.distance h.distance)) [
    | inl e ↦ rw e (
      ground (arith, o, out, has-place h gs g.shard g.id),
      place-AreDistinct h gs (ground (arith, out)) d,
    )
    | inr e ↦ rw e (out, (o, d))
  ]

  pub sort_hits-AreDistinct : (hs : List Hit) → AreDistinct hs → AreDistinct (sort_hits less hs)
  sort_hits-AreDistinct [] d = tt
  sort_hits-AreDistinct (h ∷ hs) (o, d) =
      place-AreDistinct h (sort_hits less hs) (ground (arith, o, has-sort_hits hs h.shard h.id))
        (sort_hits-AreDistinct hs d)

  All-place :
      (P : Hit → Type 0) (h : Hit) (hs : List Hit) → P h → All P hs → All P (place less h hs)
  unfolding place
  All-place P h [] p ps = (p, tt)
  All-place P h (g ∷ gs) p (q, ps) = elim (Bool-cases (less g.distance h.distance)) [
    | inl e ↦ rw e (q, All-place P h gs p ps)
    | inr e ↦ rw e (p, (q, ps))
  ]

  All-of_place :
      (P : Hit → Type 0) (h : Hit) (hs : List Hit) → All P (place less h hs) → P h × All P hs
  unfolding place
  All-of_place P h [] ps = ps
  All-of_place P h (g ∷ gs) ps =
      let same =
        λ (b : Bool). All P (let rest = place less h gs in if b then g ∷ rest else h ∷ (g ∷ gs)) in
      elim (Bool-cases (less g.distance h.distance)) [
        | inl e ↦
            let qs : P g × All P (place less h gs) = subst same e ps in
            let (p, rs) = All-of_place P h gs qs.1 in (p, (qs.0, rs))
        | inr e ↦ let qs : P h × (P g × All P gs) = subst same e ps in qs
      ]

  pub All-of_sort_hits : (P : Hit → Type 0) (hs : List Hit) → All P (sort_hits less hs) → All P hs
  All-of_sort_hits P [] ps = tt
  All-of_sort_hits P (h ∷ hs) ps =
      let (p, qs) = All-of_place P h (sort_hits less hs) ps in (p, All-of_sort_hits P hs qs)

  count_in-place :
      (near : List Hit) (h : Hit) (hs : List Hit)
      → count_in near (place less h hs) ≡ count_in near (h ∷ hs)
  unfolding place
  count_in-place near h [] = refl
  count_in-place near h (g ∷ gs) = ground (arith, count_in-place near h gs)

  pub count_in-sort_hits :
      (near hs : List Hit) → count_in near (sort_hits less hs) ≡ count_in near hs
  count_in-sort_hits near [] = refl
  count_in-sort_hits near (h ∷ hs) =
      ground (arith, count_in-place near h (sort_hits less hs), count_in-sort_hits near hs)

  -- What `partial_cmp` is on distances that are numbers: a strict order where what is not less is
  -- transitive.
  pub record IsOrder : Type 0 where
    pub asymmetric : (a b : ℕ) → less a b ≡ true → less b a ≡ false
    pub transitive : (a b c : ℕ) → less b a ≡ false → less c b ≡ false → less c a ≡ false

  module _ (order : IsOrder) where
    All-behind :
        (a b : ℕ) (hs : List Hit)
        → less b a ≡ false
        → All (λ h. less h.distance b ≡ false) hs
        → All (λ h. less h.distance a ≡ false) hs
    All-behind a b [] e ps = tt
    All-behind a b (h ∷ hs) e (p, ps) =
        (order.transitive a b h.distance e p, All-behind a b hs e ps)

    place-AreSorted : (h : Hit) (hs : List Hit) → AreSorted hs → AreSorted (place less h hs)
    unfolding place
    place-AreSorted h [] s = (tt, tt)
    place-AreSorted h (g ∷ gs) (a, s) = elim (Bool-cases (less g.distance h.distance)) [
      | inl e ↦ rw e (
        All-place (λ x. less x.distance g.distance ≡ false) h gs
            (order.asymmetric g.distance h.distance e) a,
        place-AreSorted h gs s,
      )
      | inr e ↦ rw e ((e, All-behind h.distance g.distance gs e a), (a, s))
    ]

    pub sort_hits-AreSorted : (hs : List Hit) → AreSorted (sort_hits less hs)
    sort_hits-AreSorted [] = tt
    sort_hits-AreSorted (h ∷ hs) = place-AreSorted h (sort_hits less hs) (sort_hits-AreSorted hs)

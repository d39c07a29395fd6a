-- ===== src/Query/Nearest.antt =====
-- embedding-server/src/api/query.rs: what `keep_nearest` keeps.
use embedding_processing_rs.Base.{
  ℕ, zero, suc, ◌≤◌, ◌≡◌, refl, Bool, true, false, ◌&&◌, List, [], ◌∷◌, ◌==◌, ==_refl, take, arith,
  All, contains,
}
use embedding_processing_rs.Query.{Hit, kept_ids}
use embedding_processing_rs.Query.Sorting.{has, is_in, AreDistinct, count_in, AreSorted}

has-take : (n : ℕ) (hs : List Hit) (i id : ℕ) → has hs i id ≡ false → has (take n hs) i id ≡ false
has-take zero hs i id e = refl
has-take (suc n) [] i id e = refl
has-take (suc n) (h ∷ hs) i id e = ground (arith, e, has-take n hs i id)

count_in-none : (hs : List Hit) → count_in [] hs ≡ 0
count_in-none [] = refl
count_in-none (h ∷ hs) = count_in-none hs

-- A hit that is not in the list counts for none of it.
count_in-other :
    (near : List Hit) (h : Hit) (hs : List Hit)
    → is_in hs h ≡ false
    → count_in (h ∷ near) hs ≡ count_in near hs
count_in-other near h [] e = refl
count_in-other near h (g ∷ gs) e = ground (arith, e, count_in-other near h gs)

-- Of distinct hits the first `n` are `n` at most.
pub count_in-take : (n : ℕ) (hs : List Hit) → AreDistinct hs → count_in (take n hs) hs ≤ n
count_in-take zero hs d = omega (arith, count_in-none hs)
count_in-take (suc n) [] d = omega arith
count_in-take (suc n) (h ∷ hs) (o, d) =
    ground (
      arith,
      count_in-other (take n hs) h hs o,
      count_in-take n hs d,
      ==_refl h.shard,
      ==_refl h.id,
    )

pub All-map {ℓ κ μ} :
    {A : Type ℓ} (P : A → Type κ) (Q : A → Type μ) (xs : List A)
    → ((x : A) → P x → Q x)
    → All P xs
    → All Q xs
All-map P Q [] f h = tt
All-map P Q (x ∷ xs) f (h, hs) = (f x h, All-map P Q xs f hs)

pub All-zip {ℓ κ μ ν} :
    {A : Type ℓ} (P : A → Type κ) (Q : A → Type μ) (R : A → Type ν) (xs : List A)
    → ((x : A) → P x → Q x → R x)
    → All P xs
    → All Q xs
    → All R xs
All-zip P Q R [] f h k = tt
All-zip P Q R (x ∷ xs) f (h, hs) (k, ks) = (f x h k, All-zip P Q R xs f hs ks)

abbrev Apart : Hit → Hit → Type 0
Apart h x = (h.shard == x.shard && h.id == x.id) ≡ false

All-Apart : (h : Hit) (hs : List Hit) → is_in hs h ≡ false → All (Apart h) hs
All-Apart h [] e = tt
All-Apart h (g ∷ gs) e = (ground (arith, e), All-Apart h gs (ground (arith, e)))

module _ (less : ℕ → ℕ → Bool) where
  -- No hit that is not among `near` is nearer than this one.
  abbrev pub NoneNearer : List Hit → List Hit → Hit → Type 0
  NoneNearer near hs h = All (λ g. is_in near g ≡ false → less g.distance h.distance ≡ false) hs

  -- What is kept is nearest.
  abbrev pub KeepsNearest : List Hit → List Hit → Type 0
  KeepsNearest near hs = All (λ h. is_in near h ≡ true → NoneNearer near hs h) hs

  nothing_kept : (hs gs : List Hit) → All (λ h. is_in [] h ≡ true → NoneNearer [] gs h) hs
  nothing_kept [] gs = tt
  nothing_kept (h ∷ hs) gs = ((λ e. absurd (ground (arith, e))), nothing_kept hs gs)

  pub take-KeepsNearest :
      (n : ℕ) (hs : List Hit) → AreSorted less hs → AreDistinct hs → KeepsNearest (take n hs) hs
  take-KeepsNearest zero hs s d = nothing_kept hs hs
  take-KeepsNearest (suc n) [] s d = tt
  take-KeepsNearest (suc n) (h ∷ hs) (a, s) (o, d) =
      let self : is_in (h ∷ take n hs) h ≡ true = ground (arith, ==_refl h.shard, ==_refl h.id) in
      (
        (λ _. ((λ e. absurd (ground (arith, e, self))), All-map _ _ hs (λ g e _. e) a)),
        All-zip _ _ _ hs
            (λ x apart ih e. (
              (λ f. absurd (ground (arith, f, self))),
              All-map _ _ hs (λ g q f. q (ground (arith, f))) (ih (ground (arith, e, apart))),
            ))
            (All-Apart h hs o) (take-KeepsNearest n hs s d),
      )

pub contains-kept_ids : (i id : ℕ) (near : List Hit) → contains (kept_ids i near) id ≡ has near i id
contains-kept_ids i id [] = refl
contains-kept_ids i id (h ∷ hs) = ground (arith, contains-kept_ids i id hs)

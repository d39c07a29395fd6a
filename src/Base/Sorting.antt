-- ===== src/Base/Sorting.antt =====
-- A sort by a Boolean test, and the elements that a sorted list is cut to.
use Prim.Native.Nat.{ℕ, suc, min}
use mathlib.Core.Path.{◌≡◌, refl, sym, ap, ◌∙◌, subst}
use mathlib.Core.Logic.{inl, inr}
use mathlib.Core.Bool.{Bool, true, false}
use mathlib.Core.List.{List, [], ◌∷◌, ◌++◌, Perm}
use mathlib.Core.List.Perm
use native.Mathlib.Omega.{arith}
use embedding_processing_rs.Base.Tests.{if◌then◌else◌, Bool-cases}
use embedding_processing_rs.Base.Lists.{length, take, drop, All, take-append-drop, length-take}

module _ {A : Type 0} (before : A → A → Bool) where
  unfoldable pub insert : A → List A → List A
  insert x [] = x ∷ []
  insert x (y ∷ ys) = let rest = insert x ys in if before y x then y ∷ rest else x ∷ (y ∷ ys)

  abbrev pub sort : List A → List A
  sort [] = []
  sort (x ∷ xs) = insert x (sort xs)

  -- Nothing behind an element comes before it.
  abbrev pub AreSorted : List A → Type 0
  AreSorted [] = Unit {0}
  AreSorted (x ∷ xs) = All (λ y. before y x ≡ false) xs × AreSorted xs

  -- A strict order where what is not before is transitive.
  pub record IsOrder : Type 0 where
    pub asymmetric : (a b : A) → before a b ≡ true → before b a ≡ false
    pub transitive : (a b c : A) → before b a ≡ false → before c b ≡ false → before c a ≡ false

  insert-perm : (x : A) (xs : List A) → Perm (insert x xs) (x ∷ xs)
  unfolding insert
  insert-perm x [] = Perm.refl (x ∷ [])
  insert-perm x (y ∷ ys) = elim (Bool-cases (before y x)) [
    | inl e ↦ rw e (Perm.trans (Perm.cons y (insert-perm x ys)) (Perm.swap x y ys))
    | inr e ↦ rw e (Perm.refl (x ∷ (y ∷ ys)))
  ]

  pub sort-perm : (xs : List A) → Perm (sort xs) xs
  sort-perm [] = Perm.refl []
  sort-perm (x ∷ xs) = Perm.trans (insert-perm x (sort xs)) (Perm.cons x (sort-perm xs))

  length-insert : (x : A) (xs : List A) → length (insert x xs) ≡ suc (length xs)
  unfolding insert
  length-insert x [] = refl
  length-insert x (y ∷ ys) = ground (arith, length-insert x ys)

  pub length-sort : (xs : List A) → length (sort xs) ≡ length xs
  length-sort [] = refl
  length-sort (x ∷ xs) = length-insert x (sort xs) ∙ ap suc (length-sort xs)

  All-insert : (P : A → Type 0) (x : A) (xs : List A) → P x → All P xs → All P (insert x xs)
  unfolding insert
  All-insert P x [] p ps = (p, tt)
  All-insert P x (y ∷ ys) p (q, ps) = elim (Bool-cases (before y x)) [
    | inl e ↦ rw e (q, All-insert P x ys p ps)
    | inr e ↦ rw e (p, (q, ps))
  ]

  pub All-sort : (P : A → Type 0) (xs : List A) → All P xs → All P (sort xs)
  All-sort P [] ps = tt
  All-sort P (x ∷ xs) (p, ps) = All-insert P x (sort xs) p (All-sort P xs ps)

  module _ (order : IsOrder) where
    All-behind :
        (a b : A) (xs : List A)
        → before b a ≡ false
        → All (λ y. before y b ≡ false) xs
        → All (λ y. before y a ≡ false) xs
    All-behind a b [] e ps = tt
    All-behind a b (x ∷ xs) e (p, ps) = (order.transitive a b x e p, All-behind a b xs e ps)

    insert-AreSorted : (x : A) (xs : List A) → AreSorted xs → AreSorted (insert x xs)
    unfolding insert
    insert-AreSorted x [] s = (tt, tt)
    insert-AreSorted x (y ∷ ys) (a, s) = elim (Bool-cases (before y x)) [
      | inl e ↦ rw e (
        All-insert (λ z. before z y ≡ false) x ys (order.asymmetric y x e) a,
        insert-AreSorted x ys s,
      )
      | inr e ↦ rw e ((e, All-behind x y ys e a), (a, s))
    ]

    pub sort-AreSorted : (xs : List A) → AreSorted (sort xs)
    sort-AreSorted [] = tt
    sort-AreSorted (x ∷ xs) = insert-AreSorted x (sort xs) (sort-AreSorted xs)

  -- `chosen` are the first `n` of the elements `all` in their order: with `rest` they are all of them,
  -- they are in order, and none of the rest comes before one of them.
  pub record AreFirst (n : ℕ) (all chosen : List A) : Type 0 where
    pub rest : List A
    pub perm : Perm (chosen ++ rest) all
    pub sorted : AreSorted (chosen ++ rest)
    pub count : length chosen ≡ min n (length all)

  -- Sorting and truncating chooses the first ones.
  pub take-sort-AreFirst : IsOrder → (n : ℕ) (xs : List A) → AreFirst n xs (take n (sort xs))
  take-sort-AreFirst order n xs = record {
    rest = drop n (sort xs);
    perm = subst (λ l. Perm l xs) (sym (take-append-drop n (sort xs))) (sort-perm xs);
    sorted = subst AreSorted (sym (take-append-drop n (sort xs))) (sort-AreSorted order xs);
    count = length-take n (sort xs) ∙ ap (min n) (length-sort xs);
  }

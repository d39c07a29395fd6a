-- ===== src/Compact/Relocated.antt =====
-- embedding-store/src/compact.rs: the maps once the new locations are entered.
use embedding_processing_rs.Base.{
  ℕ, ◌≡◌, refl, ap, sym, ◌∙◌, subst, false, Option, none, some, [], ◌∷◌, ◌==◌, ==→eq, Bool-cases,
  arith, if◌then◌else◌, All, inl, inr, ◌⊎◌,
}
use embedding_processing_rs.HashMap
use embedding_processing_rs.HashMap.{HashMap, get-insert}
use embedding_processing_rs.Maps.{Loc}
use embedding_processing_rs.Compact.{NewLocs, relocate, relocate_at, relocate_each}
use embedding_processing_rs.Compact.Copies.{is_noted}

-- The list has this location at the key.
abbrev pub Names : NewLocs → ℕ → Loc → Type 0
Names [] k loc = ⊥
Names ((j, l) ∷ locs) k loc = ((j ≡ k) × (l ≡ loc)) ⊎ Names locs k loc

pub All-Names :
    (P : ℕ × Loc → Type 0) (locs : NewLocs) (k : ℕ) (loc : Loc)
    → All P locs
    → Names locs k loc
    → P (k, loc)
All-Names P [] k loc h n = elim n [ ]
All-Names P ((j, l) ∷ locs) k loc (p, h) (inl (e, q)) = subst P (λ i. (e i, q i)) p
All-Names P ((j, l) ∷ locs) k loc (p, h) (inr n) = All-Names P locs k loc h n

module _ {V : Type 0} (put : V → Loc → V) where
  get-relocate_at :
      (id k : ℕ) (loc : Loc) (m : HashMap V) (o : Option V) (e : V)
      → HashMap.get id m ≡ o
      → HashMap.get k m ≡ some e
      → HashMap.get k (relocate_at put id loc m o) ≡ some (if id == k then put e loc else e)
  get-relocate_at id k loc m none e q h = ground (arith, q, h)
  get-relocate_at id k loc m (some v) e q h = ground (arith, q, h, get-insert id k (put v loc) m)

  get-relocate_at-none :
      (id k : ℕ) (loc : Loc) (m : HashMap V) (o : Option V)
      → HashMap.get id m ≡ o
      → HashMap.get k m ≡ none
      → HashMap.get k (relocate_at put id loc m o) ≡ none
  get-relocate_at-none id k loc m none q h = h
  get-relocate_at-none id k loc m (some v) q h = ground (arith, q, h, get-insert id k (put v loc) m)

  pub get-relocate_each-none :
      (locs : NewLocs) (m : HashMap V) (k : ℕ)
      → HashMap.get k m ≡ none
      → HashMap.get k (relocate_each put locs m) ≡ none
  get-relocate_each-none [] m k h = h
  get-relocate_each-none ((id, loc) ∷ locs) m k h =
      get-relocate_each-none locs (relocate put id loc m) k
        (get-relocate_at-none id k loc m (HashMap.get id m) refl h)

  module _ (at : V → Loc) (put_at : (v : V) → put v (at v) ≡ v)
      (at_put : (v : V) (l : Loc) → at (put v l) ≡ l)
      (put_put : (v : V) (l l' : Loc) → put (put v l) l' ≡ put v l') where
    -- A key keeps its entry, at a location that the list has for it, or at its own where there is none.
    pub get-relocate_each :
        (locs : NewLocs) (m : HashMap V) (k : ℕ) (e : V)
        → HashMap.get k m ≡ some e
        → (loc : Loc) × (HashMap.get k (relocate_each put locs m) ≡ some (put e loc))
          × (Names locs k loc ⊎ ((loc ≡ at e) × (is_noted locs k ≡ false)))
    get-relocate_each [] m k e h = (at e, h ∙ ap some (sym (put_at e)), inr (refl, refl))
    get-relocate_each ((id, l) ∷ locs) m k e h = elim (Bool-cases (id == k)) [
      | inl q ↦
          let here : HashMap.get k (relocate put id l m) ≡ some (put e l) =
            get-relocate_at id k l m (HashMap.get id m) e refl h ∙ rw q refl in
          let (loc, found, which) = get-relocate_each locs (relocate put id l m) k (put e l) here in
          (
            loc,
            found ∙ ap some (put_put e l loc),
            elim which [
              | inl n ↦ inl (inr n)
              | inr (own, new) ↦ inl (inl (==→eq id k q, sym (at_put e l) ∙ sym own))
            ],
          )
      | inr q ↦
          let here : HashMap.get k (relocate put id l m) ≡ some e =
            get-relocate_at id k l m (HashMap.get id m) e refl h ∙ rw q refl in
          let (loc, found, which) = get-relocate_each locs (relocate put id l m) k e here in
          (
            loc,
            found,
            elim which [ inl n ↦ inl (inr n) | inr (own, new) ↦ inr (own, ground (arith, q, new)) ],
          )
    ]

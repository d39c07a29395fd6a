-- ===== src/Pool/Opening/Invariant.antt =====
-- embedding-store/src/pool.rs: what holds of the threads that open shards, whatever their order.
use embedding_processing_rs.Base.{
  ℕ, zero, suc, ◌<◌, ◌≡◌, refl, true, Bool-cases, inl, inr, Option, none, some, [], ◌∷◌, ◌==◌,
  ==→eq, arith,
}
use embedding_processing_rs.HashMap
use embedding_processing_rs.HashMap.{HashMap, get-insert}
use embedding_processing_rs.Pool.Opening.{
  Pc, idle, missed, waiting, entered, opens, opened, leaving, retiring, returning, closed, Shared,
  gate_of, is_held, retain_held,
}

module _ {I : Type 0} where
  -- The gate that a thread has locked.
  abbrev pub inside : Pc I → Option ℕ
  inside (entered ws g) = some g
  inside (opens ws g) = some g
  inside (opened ws g shard) = some g
  inside (leaving ws g) = some g
  inside _ = none

  -- The workspace whose directory a thread is opening, until the shard is in the map.
  abbrev pub opening_of : Pc I → Option ℕ
  opening_of (opens ws g) = some ws
  opening_of (opened ws g shard) = some ws
  opening_of _ = none

  -- What holds of each thread `j`, which stands at `q`: its gate is the one in the map, and it has
  -- locked the gate that it is inside of, and no other.
  abbrev pub Registered : ℕ → Shared I → ℕ → Pc I → Type 0
  Registered n m j q =
      (ws g : ℕ) → j < n → gate_of q ≡ some (ws, g) → HashMap.get ws m.opening ≡ some g

  abbrev pub Owned : ℕ → Shared I → ℕ → Pc I → Type 0
  Owned n m j q = (g : ℕ) → j < n → inside q ≡ some g → m.owner g ≡ some j

  abbrev pub Locked : ℕ → Shared I → ℕ → Pc I → Type 0
  Locked n m j q = (g : ℕ) → m.owner g ≡ some j → (j < n) × (inside q ≡ some g)

  -- The pool has no shard of the workspace that it opens.
  abbrev pub Absent : ℕ → Shared I → ℕ → Pc I → Type 0
  Absent n m j q = (ws : ℕ) → j < n → opening_of q ≡ some ws → HashMap.get ws m.pool.shards ≡ none

  pub record Inv (n : ℕ) (m : Shared I) (pc : ℕ → Pc I) : Type 0 where
    pub registered : (i : ℕ) → Registered n m i (pc i)
    pub owned : (i : ℕ) → Owned n m i (pc i)
    pub locked : (i : ℕ) → Locked n m i (pc i)
    pub absent : (i : ℕ) → Absent n m i (pc i)

  pub opening-inside :
      (p : Pc I) (ws : ℕ)
      → opening_of p ≡ some ws
      → (g : ℕ) × (gate_of p ≡ some (ws, g)) × (inside p ≡ some g)
  opening-inside (opens w g) ws h = (g, cc, refl)
  opening-inside (opened w g shard) ws h = (g, cc, refl)
  opening-inside idle ws h = cc
  opening-inside (missed w) ws h = cc
  opening-inside (waiting w g) ws h = cc
  opening-inside (entered w g) ws h = cc
  opening-inside (leaving w g) ws h = cc
  opening-inside (retiring w g) ws h = cc
  opening-inside (returning w g) ws h = cc
  opening-inside (closed w) ws h = cc

  pub is_held-of :
      (n : ℕ) (pc : ℕ → Pc I) (i ws g : ℕ)
      → i < n
      → gate_of (pc i) ≡ some (ws, g)
      → is_held n pc g ≡ true
  unfolding is_held
  is_held-of zero pc i ws g lt h = absurd (omega arith)
  is_held-of (suc n) pc i ws g lt h = elim (Bool-cases (i == n)) [
    | inl b ↦ ground (arith, h, ==→eq i n b)
    | inr b ↦ ground (arith, b, is_held-of n pc i ws g (ground (arith, b, lt)) h)
  ]

  pub get-retain_held :
      (n : ℕ) (pc : ℕ → Pc I) (opening : HashMap ℕ) (ws g : ℕ)
      → is_held n pc g ≡ true
      → HashMap.get ws opening ≡ some g
      → HashMap.get ws (retain_held n pc opening) ≡ some g
  unfolding HashMap.get retain_held
  get-retain_held n pc [] ws g b h = cc
  get-retain_held n pc ((w, k) ∷ opening) ws g b h =
      ground (arith, b, h, get-retain_held n pc opening ws g b)

  -- Two threads that open one workspace are the same, and its shard is not in the pool.
  pub Inv-unique :
      {n : ℕ} {m : Shared I} {pc : ℕ → Pc I}
      → Inv n m pc
      → (i j ws : ℕ) → i < n
      → j < n
      → opening_of (pc i) ≡ some ws
      → (g : ℕ) → gate_of (pc j) ≡ some (ws, g)
      → inside (pc j) ≡ some g
      → i ≡ j
  Inv-unique inv i j ws li lj h g gate here =
      let (k, held, owns) = opening-inside _ ws h in
      cc (
        inv.registered i ws k li held,
        inv.registered j ws g lj gate,
        inv.owned i k li owns,
        inv.owned j g lj here,
      )

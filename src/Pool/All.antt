-- ===== src/Pool/All.antt =====
-- embedding-store/src/pool.rs: what is done to every loaded shard, and the figures of the pool.
use embedding_processing_rs.Base.{
  ℕ, ◌+◌, ◌≡◌, refl, sym, ap, ◌∙◌, Bool, true, Bool-cases, inl, inr, Option, none, some, List, [],
  ◌∷◌, ◌==◌, if◌then◌else◌, length, arith, Result, ok, err,
}
use embedding_processing_rs.Base.Action.{Action}
use embedding_processing_rs.HashMap
use embedding_processing_rs.HashMap.{HashMap}
use embedding_processing_rs.Crates.{Crates}
use embedding_processing_rs.Errors.{Error}
use embedding_processing_rs.Segment.{Disk}
use embedding_processing_rs.Store.Seal.{fsync}
use embedding_processing_rs.VectorIndex.{Usearch, Files}
use embedding_processing_rs.Shard
use embedding_processing_rs.Shard.{Shard, on_store, residency}
use embedding_processing_rs.Shard.Compacting
use embedding_processing_rs.Pool.{Entry, ShardPool, is_mapped, refresh_bytes, total_bytes}

pub record PoolStats : Type 0 where
  pub loaded : ℕ
  pub viewed : ℕ
  pub memory_bytes : ℕ
  pub budget_bytes : ℕ

-- `done` and `first_error`, with what counts as done.
module _ {A : Type 0} (counts : A → Bool) where
  abbrev pub noted : Result Error A → ℕ × Option Error → ℕ × Option Error
  noted (ok a) (done, first) = (if counts a then done + 1 else done, first)
  noted (err e) (done, none) = (done, some e)
  noted (err e) (done, some first) = (done, some first)

  module _ {I : Type 0} (op : Action Error (Shard I) A) where
    abbrev pub each_shard :
        ℕ × Option Error → HashMap (Entry I) → (ℕ × Option Error) × HashMap (Entry I)
    each_shard acc [] = (acc, [])
    each_shard acc ((ws, e) ∷ m) =
        let (r, s) = op e.shard in
        let (last, rest) = each_shard (noted r acc) m in (last, (ws, record e { shard = s }) ∷ rest)

abbrev pub all_done : ℕ × Option Error → Result Error ℕ
all_done (done, none) = ok done
all_done (done, some e) = err e

module _ {I : Type 0} {A : Type 0} where
  -- Every shard is attempted, and the first error is returned afterwards.
  unfoldable pub for_each_loaded :
      (A → Bool) → Action Error (Shard I) A → Action Error (ShardPool I) ℕ
  for_each_loaded counts op p =
      let (acc, shards) = each_shard counts op (0, none) p.shards in
      (all_done acc, record p { shards = shards })

module _ {I : Type 0} where
  abbrev count_mapped : HashMap (Entry I) → ℕ
  count_mapped [] = 0
  count_mapped ((ws, e) ∷ m) =
      let rest = count_mapped m in if is_mapped (residency e.shard) then rest + 1 else rest

  module _ (usearch : Usearch I) where
    abbrev stats_of : ℕ → ShardPool I → PoolStats
    stats_of budget p = record {
      loaded = length p.shards;
      viewed = count_mapped p.shards;
      memory_bytes = total_bytes p;
      budget_bytes = budget;
    }

    -- The figures are measured anew.
    unfoldable pub stats : ℕ → ShardPool I → PoolStats × ShardPool I
    stats budget p = let fresh = refresh_bytes usearch p in (stats_of budget fresh, fresh)

    module _ (crates : Crates) (disk : Disk) (files : Files) (is_utf8 : List ℕ → Bool) where
      unfoldable pub snapshot_all : Action Error (ShardPool I) ℕ
      snapshot_all = for_each_loaded (λ _. true) (Shard.snapshot usearch crates disk files is_utf8)

      unfoldable pub fsync_all : Action Error (ShardPool I) ℕ
      fsync_all = for_each_loaded (λ _. true) (on_store (fsync disk))

      -- A shard that had nothing to compact does not count.
      unfoldable pub compact_if_needed : (ℕ → ℕ → Bool) → Action Error (ShardPool I) ℕ
      compact_if_needed exceeds =
          for_each_loaded (λ b. b)
            (Compacting.compact_if_needed exceeds crates disk is_utf8 usearch files)

-- What `for_each_loaded` is to do.
module _ {I : Type 0} {A : Type 0} (counts : A → Bool) (op : Action Error (Shard I) A) where
  abbrev first_error : HashMap (Entry I) → Option Error
  first_error [] = none
  first_error ((ws, e) ∷ m) = elim (op e.shard).0 [ ok a ↦ first_error m | err x ↦ some x ]

  abbrev counted : Result Error A → ℕ
  counted (ok a) = if counts a then 1 else 0
  counted (err x) = 0

  abbrev how_many : HashMap (Entry I) → ℕ
  how_many [] = 0
  how_many ((ws, e) ∷ m) = counted (op e.shard).0 + how_many m

  abbrev answer : ℕ → Option Error → Result Error ℕ
  answer n none = ok n
  answer n (some e) = err e

  abbrev attempted : Option (Entry I) → Option (Entry I)
  attempted none = none
  attempted (some e) = some (record e { shard = (op e.shard).1 })

  or_first : Option Error → Option Error → Option Error
  or_first none o = o
  or_first (some e) o = some e

  noted-parts :
      (r : Result Error A) (done : ℕ) (first : Option Error)
      → noted counts r (done, first)
        ≡ (done + counted r, or_first first (elim r [ ok a ↦ none | err x ↦ some x ]))
  unfolding or_first
  noted-parts (ok a) done none = ground arith
  noted-parts (ok a) done (some e) = ground arith
  noted-parts (err x) done none = ground arith
  noted-parts (err x) done (some e) = ground arith

  or_first_assoc : (a b c : Option Error) → or_first (or_first a b) c ≡ or_first a (or_first b c)
  unfolding or_first
  or_first_assoc none b c = refl
  or_first_assoc (some e) b c = refl

  first_error-cons :
      (ws : ℕ) (e : Entry I) (m : HashMap (Entry I))
      → first_error ((ws, e) ∷ m)
        ≡ or_first (elim (op e.shard).0 [ ok a ↦ none | err x ↦ some x ]) (first_error m)
  unfolding or_first
  first_error-cons ws e m = go (op e.shard).0
    where
      go :
          (r : Result Error A)
          → ◌≡◌ {A = Option Error}
              (elim r [ ok a ↦ first_error m | err x ↦ some x ])
              (or_first (elim r [ ok a ↦ none | err x ↦ some x ]) (first_error m))
      go (ok a) = refl
      go (err x) = refl

  add_zero : (n : ℕ) → n ≡ n + 0
  add_zero n = omega arith

  answer-all_done : (n : ℕ) (o : Option Error) → all_done (0 + n, o) ≡ answer n o
  answer-all_done n none = ap ok (omega arith)
  answer-all_done n (some e) = refl

  each_shard-counts :
      (m : HashMap (Entry I)) (done : ℕ) (first : Option Error)
      → (each_shard counts op (done, first) m).0
        ≡ (done + how_many m, or_first first (first_error m))
  unfolding or_first
  each_shard-counts [] done none = λ i. (add_zero done i, none)
  each_shard-counts [] done (some e) = λ i. (add_zero done i, some e)
  each_shard-counts ((ws, e) ∷ m) done first =
      let r = (op e.shard).0 in
      let o : Option Error = elim r [ ok a ↦ none | err x ↦ some x ] in
      let sums : done + counted r + how_many m ≡ done + (counted r + how_many m) = omega arith in
      let firsts : or_first (or_first first o) (first_error m)
          ≡ or_first first (first_error ((ws, e) ∷ m)) =
        or_first_assoc first o (first_error m)
        ∙ ap (or_first first) (sym (first_error-cons ws e m)) in
      ap (λ acc. (each_shard counts op acc m).0) (noted-parts r done first)
      ∙ each_shard-counts m (done + counted r) (or_first first o)
      ∙ λ i. (sums i, firsts i)

  each_shard-get :
      (k : ℕ) (m : HashMap (Entry I)) (acc : ℕ × Option Error)
      → HashMap.get k (each_shard counts op acc m).1 ≡ attempted (HashMap.get k m)
  unfolding HashMap.get
  each_shard-get k [] acc = refl
  each_shard-get k ((ws, e) ∷ m) acc = elim (Bool-cases (ws == k)) [
    | inl b ↦ rw b refl
    | inr b ↦ rw b (each_shard-get k m (noted counts (op e.shard).0 acc))
  ]

  abbrev pub Attempted : ShardPool I → Type 0
  Attempted p =
      ((for_each_loaded counts op p).0 ≡ answer (how_many p.shards) (first_error p.shards))
      × ((k : ℕ)
          → HashMap.get k (for_each_loaded counts op p).1.shards
            ≡ attempted (HashMap.get k p.shards))

  -- Every loaded shard is attempted, also behind one that fails, and no other entry changes. The answer is
  -- the first error if there was one, and else how many succeeded with a result that counts.
  pub for_each_loaded-Attempted : (p : ShardPool I) → Attempted p
  unfolding for_each_loaded or_first
  for_each_loaded-Attempted p = (
    ap all_done (each_shard-counts p.shards 0 none)
        ∙ answer-all_done (how_many p.shards) (first_error p.shards),
    λ k. each_shard-get k p.shards (0, none),
  )

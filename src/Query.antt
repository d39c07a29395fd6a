-- ===== src/Query.antt =====
-- embedding-server/src/api/query.rs: the hits of several shards cut down to the nearest ones.
-- A hit list is an `IndexMap`, in its order. `less` is `partial_cmp` at two distances, where it says
-- less; a stable sort by it is `sort_hits`.
pub mod Sorting
pub mod Nearest
pub mod Kept
use embedding_processing_rs.Base.{
  ℕ, zero, suc, ◌+◌, Bool, List, [], ◌∷◌, ◌++◌, leb, ◌==◌, if◌then◌else◌, length, take, contains,
}
use embedding_processing_rs.HashMap.{HashMap}

pub record Hit : Type 0 where
  pub shard : ℕ
  pub id : ℕ
  pub distance : ℕ

abbrev pub total_hits : List (HashMap ℕ) → ℕ
total_hits [] = 0
total_hits (hits ∷ per_shard) = length hits + total_hits per_shard

abbrev pub tag_hits : ℕ → HashMap ℕ → List Hit
tag_hits i [] = []
tag_hits i ((id, d) ∷ hits) = record { shard = i; id = id; distance = d } ∷ tag_hits i hits

-- `enumerate` and `flat_map`
abbrev pub all_hits : ℕ → List (HashMap ℕ) → List Hit
all_hits i [] = []
all_hits i (hits ∷ per_shard) = tag_hits i hits ++ all_hits (suc i) per_shard

-- `kept[i]`
abbrev pub kept_ids : ℕ → List Hit → List ℕ
kept_ids i [] = []
kept_ids i (h ∷ hs) = let rest = kept_ids i hs in if h.shard == i then h.id ∷ rest else rest

-- `retain`
abbrev pub retain_hits : List ℕ → HashMap ℕ → HashMap ℕ
retain_hits kept [] = []
retain_hits kept ((id, d) ∷ hits) =
    let rest = retain_hits kept hits in if contains kept id then (id, d) ∷ rest else rest

abbrev pub retain_each : List Hit → ℕ → List (HashMap ℕ) → List (HashMap ℕ)
retain_each near i [] = []
retain_each near i (hits ∷ per_shard) =
    retain_hits (kept_ids i near) hits ∷ retain_each near (suc i) per_shard

module _ (less : ℕ → ℕ → Bool) where
  unfoldable pub place : Hit → List Hit → List Hit
  place h [] = h ∷ []
  place h (g ∷ gs) =
      let rest = place h gs in if less g.distance h.distance then g ∷ rest else h ∷ (g ∷ gs)

  abbrev pub sort_hits : List Hit → List Hit
  sort_hits [] = []
  sort_hits (h ∷ hs) = place h (sort_hits hs)

  -- `all`, sorted and truncated.
  abbrev pub nearest : List (HashMap ℕ) → ℕ → List Hit
  nearest per_shard top_k = take top_k (sort_hits (all_hits 0 per_shard))

  unfoldable pub keep_nearest : List (HashMap ℕ) → ℕ → List (HashMap ℕ)
  keep_nearest per_shard top_k =
      if leb (total_hits per_shard) top_k
      then per_shard
      else retain_each (nearest per_shard top_k) 0 per_shard

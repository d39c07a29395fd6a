-- ===== src/Examples/Queries.antt =====
-- Two shards with three hits each.
use embedding_processing_rs.Base.{◌≤◌, ◌≡◌, refl, ltb, List, [], ◌∷◌, arith, All, ℕ}
use embedding_processing_rs.HashMap
use embedding_processing_rs.HashMap.{HashMap, HasUniqueKeys}
use embedding_processing_rs.Query.{all_hits, total_hits, keep_nearest, place}
use embedding_processing_rs.Query.Sorting.{IsOrder}
use embedding_processing_rs.Query.Nearest.{KeepsNearest}
use embedding_processing_rs.Query.Kept.{total_hits-keep_nearest, keep_nearest-KeepsNearest}

abbrev two_lists : List (HashMap ℕ)
two_lists = ((1, 1) ∷ (2, 5) ∷ (3, 9) ∷ []) ∷ ((4, 2) ∷ (5, 3) ∷ (6, 8) ∷ []) ∷ []

two_lists-HasUniqueKeys : All HasUniqueKeys two_lists
unfolding HashMap.get
two_lists-HasUniqueKeys = ((refl, (refl, (refl, tt))), ((refl, (refl, (refl, tt))), tt))

ltb-IsOrder : IsOrder ltb
ltb-IsOrder = record {
  asymmetric = λ a b e. ground (arith, e);
  transitive = λ a b c e f. ground (arith, e, f);
}

keep_nearest-runs : keep_nearest ltb two_lists 3 ≡ ((1, 1) ∷ []) ∷ ((4, 2) ∷ (5, 3) ∷ []) ∷ []
unfolding keep_nearest place
keep_nearest-runs = refl

total_hits-keep_nearest_example : total_hits (keep_nearest ltb two_lists 3) ≤ 3
total_hits-keep_nearest_example = total_hits-keep_nearest ltb two_lists 3 two_lists-HasUniqueKeys

keep_nearest-KeepsNearest_example :
    KeepsNearest ltb (all_hits 0 (keep_nearest ltb two_lists 3)) (all_hits 0 two_lists)
keep_nearest-KeepsNearest_example =
    keep_nearest-KeepsNearest ltb two_lists 3 ltb-IsOrder two_lists-HasUniqueKeys

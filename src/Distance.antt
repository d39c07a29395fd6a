-- ===== src/Distance.antt =====
-- embedding-store/src/vector_index.rs: the distance between two vectors under a metric.
-- An f32 is its bit pattern, and its arithmetic is the parameter `Float`.
use embedding_processing_rs.Base.{ℕ, Bool, List, [], ◌∷◌, if◌then◌else◌}

pub data MetricKind : Type 0 where
  l2sq ip cos other : MetricKind

pub record Float : Type 0 where
  pub add : ℕ → ℕ → ℕ
  pub sub : ℕ → ℕ → ℕ
  pub mul : ℕ → ℕ → ℕ
  pub div : ℕ → ℕ → ℕ
  pub sqrt : ℕ → ℕ
  pub le : ℕ → ℕ → Bool
  -- `total_cmp` that says less
  pub total_less : ℕ → ℕ → Bool
  -- what `sum` starts from
  pub empty_sum : ℕ
  pub one : ℕ
  pub epsilon : ℕ
  pub infinity : ℕ

module _ (float : Float) where
  -- `zip`, `map` and `sum`, which adds from the left.
  abbrev pub sum_zip : (ℕ → ℕ → ℕ) → ℕ → List ℕ → List ℕ → ℕ
  sum_zip f acc [] b = acc
  sum_zip f acc (x ∷ a) [] = acc
  sum_zip f acc (x ∷ a) (y ∷ b) = sum_zip f (float.add acc (f x y)) a b

  abbrev pub squared_difference : ℕ → ℕ → ℕ
  squared_difference x y = float.mul (float.sub x y) (float.sub x y)

  unfoldable pub dot : List ℕ → List ℕ → ℕ
  dot a b = sum_zip float.mul float.empty_sum a b

  unfoldable pub norm_squared : List ℕ → ℕ
  norm_squared a = sum_zip (λ x _. float.mul x x) float.empty_sum a a

  unfoldable pub distance : MetricKind → List ℕ → List ℕ → ℕ
  distance MetricKind.l2sq a b = sum_zip squared_difference float.empty_sum a b
  distance MetricKind.ip a b = float.sub float.one (dot a b)
  distance MetricKind.cos a b =
      let denom = float.sqrt (float.mul (norm_squared a) (norm_squared b)) in
      if float.le denom float.epsilon
      then float.one
      else float.sub float.one (float.div (dot a b) denom)
  distance MetricKind.other a b = float.infinity

-- ===== src/Monitoring/Metrics.antt =====
-- Comparators and the anomaly test of metric rules (apps/api/src/modules/monitoring/
-- metric-alert-rule.ts). JavaScript's doubles are a parameter.
use claude_cloud_ops_tool.Base.{
  Bool, List, [], false, if◌then◌else◌, length, ltb, map, not, ℕ, ◌||◌, ◌∷◌,
}

-- Double-precision numbers and the operations that the program uses.
pub record Double : Type 1 where
  pub Num : Type 0
  pub of_ℕ : ℕ → Num
  pub add : Num → Num → Num
  pub sub : Num → Num → Num
  pub mul : Num → Num → Num
  pub div : Num → Num → Num
  pub sqrt : Num → Num
  pub abs : Num → Num
  -- `<` and `===`; a comparison with NaN is false.
  pub less : Num → Num → Bool
  pub same : Num → Num → Bool

pub data MetricComparator : Type 0 where
  gt gte lt lte : MetricComparator

abbrev pub min_baseline_samples : ℕ
min_baseline_samples = 5

module _ (d : Double) where
  open d use {Num, of_ℕ, add, sub, mul, div, sqrt, abs, less, same}

  abbrev pub less_or_same : Num → Num → Bool
  less_or_same a b = less a b || same a b

  unfoldable pub compare_metric : Num → MetricComparator → Num → Bool
  compare_metric value gt threshold = less threshold value
  compare_metric value gte threshold = less_or_same threshold value
  compare_metric value lt threshold = less value threshold
  compare_metric value lte threshold = less_or_same value threshold

  pub sum : Num → List Num → Num
  sum acc [] = acc
  sum acc (v ∷ rest) = sum (add acc v) rest

  unfoldable pub mean : List Num → Num
  unfolding sum
  mean vs = div (sum (of_ℕ 0) vs) (of_ℕ (length vs))

  unfoldable pub stddev : List Num → Num
  unfolding sum mean
  stddev vs =
      let m = mean vs in
      sqrt (div (sum (of_ℕ 0) (map (λ v. mul (sub v m) (sub v m)) vs)) (of_ℕ (length vs)))

  -- `detectMetricAnomaly(baseline, latest, sensitivity).isAnomaly`
  unfoldable pub is_metric_anomaly : List Num → Num → Num → Bool
  unfolding mean stddev
  is_metric_anomaly baseline latest sensitivity =
      if ltb (length baseline) min_baseline_samples
      then false
      else if same (stddev baseline) (of_ℕ 0)
      then not (same latest (mean baseline))
      else less_or_same sensitivity (abs (div (sub latest (mean baseline)) (stddev baseline)))

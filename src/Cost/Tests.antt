-- ===== src/Cost/Tests.antt =====
-- The pace of spending on whole numbers.
use claude_cloud_ops_tool.Base.{arith, false, none, refl, some, true, ℕ, ◌*◌, ◌-◌, ◌/◌, ◌≡◌, ◌≤◌}
use native.Mathlib.Nat.{div-mul-le_self, le-div_iff_mul-le, le_trans, mul-le-mul_right}
use claude_cloud_ops_tool.Monitoring.Metrics.{Double, less_or_same}
use claude_cloud_ops_tool.Monitoring.Tests.{whole}
use claude_cloud_ops_tool.Cost.Pace.{
  BudgetPaceInput, BudgetPaceResult, critical, budget, calculate_budget_pace, severity_of,
  pace_against,
}
use claude_cloud_ops_tool.Cost.Pace.Monotone.{IsDouble, rank, calculate_budget_pace-monotone}

-- Division that rounds down.
abbrev rounded : Double
rounded = record whole { div = λ a b. a / b }

le_of : (x y : ℕ) → less_or_same rounded x y ≡ true → x ≤ y
le_of x y h = ground arith

of_le : (x y : ℕ) → x ≤ y → less_or_same rounded x y ≡ true
of_le x y h = ground arith

rounded-IsDouble : IsDouble rounded (λ x. true)
rounded-IsDouble = record {
  hundred = (refl, refl);
  le_trans = λ x y z h k. ground arith;
  less-le = λ x y z h k. ground arith;
  positive = λ x f h. ground arith;
  sub-le = λ x y b f h. let le = le_of x y h in of_le (x - b) (y - b) (omega arith);
  mul-le = λ x y c f p h. of_le (x * c) (y * c) (mul-le-mul_right c (le_of x y h));
  div-le = λ x y c f p h. of_le (x / c) (y / c) (
      (le-div_iff_mul-le {k = c} {x = x / c} {y = y} (ground arith)).1
        (le_trans (div-mul-le_self x c) (le_of x y h)));
}

abbrev spent : BudgetPaceInput rounded
spent = record {
  mtd_spend = 42;
  previous_month_total = none;
  monthly_budget_amount = some 100;
  days_elapsed = 10;
  days_in_month = 31;
  warning_threshold_pct = 20;
  critical_threshold_pct = 40;
}

abbrev judged : BudgetPaceResult rounded
judged = record {
  projected_full_month = 124;
  baseline = 100;
  baseline_source = budget;
  pct_over_pace = 0;
  severity = none;
  hard_cap_breached = false;
}

judged_test : calculate_budget_pace rounded spent ≡ some judged
unfolding calculate_budget_pace pace_against severity_of
judged_test = refl

calculate_budget_pace-monotone_example :
    (r' : BudgetPaceResult rounded) × (calculate_budget_pace rounded
        (record spent { mtd_spend = 120 })
      ≡ some r')
    × (r'.baseline ≡ 100)
    × (0 ≤ rank r'.severity)
    × (false ≡ true → (r'.hard_cap_breached ≡ true) × (r'.severity ≡ some critical))
calculate_budget_pace-monotone_example =
    calculate_budget_pace-monotone rounded (λ x. true) rounded-IsDouble spent 120 judged refl refl
      refl refl refl judged_test

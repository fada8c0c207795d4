-- ===== src/Cost/Pace.antt =====
-- Month-to-date pace of spending against a budget (`calculateBudgetPace`, apps/api/src/modules/cost/
-- cost-pace.ts). JavaScript's doubles are a parameter.
pub mod Monotone
use claude_cloud_ops_tool.Base.{
  Bool, Option, arith, false, if◌then◌else◌, is_some, none, refl, some, true, ℕ, ◌||◌, ◌≡◌,
}
use claude_cloud_ops_tool.Monitoring.Metrics.{Double, less_or_same}

pub data BudgetPaceSeverity : Type 0 where
  info warning critical : BudgetPaceSeverity

pub data BaselineSource : Type 0 where
  budget last_month : BaselineSource

abbrev pub info_threshold_pct : ℕ
info_threshold_pct = 10

module _ (d : Double) where
  open d use {Num, of_ℕ, sub, mul, div, less}

  pub record BudgetPaceInput : Type 0 where
    pub mtd_spend : Num
    pub previous_month_total : Option Num
    pub monthly_budget_amount : Option Num
    pub days_elapsed : Num
    pub days_in_month : Num
    pub warning_threshold_pct : Num
    pub critical_threshold_pct : Num

  pub record BudgetPaceResult : Type 0 where
    pub projected_full_month : Num
    pub baseline : Num
    pub baseline_source : BaselineSource
    pub pct_over_pace : Num
    pub severity : Option BudgetPaceSeverity
    pub hard_cap_breached : Bool

  -- `monthlyBudgetAmount ?? previousMonthTotal`
  abbrev pub baseline_of : BudgetPaceInput → Option Num
  baseline_of input = elim input.monthly_budget_amount [
    | some amount ↦ some amount
    | none ↦ input.previous_month_total
  ]

  abbrev pub is_hard_cap_breached : BudgetPaceInput → Bool
  is_hard_cap_breached input = elim input.monthly_budget_amount [
    | some amount ↦ less amount input.mtd_spend
    | none ↦ false
  ]

  unfoldable pub severity_of : BudgetPaceInput → Bool → Num → Option BudgetPaceSeverity
  severity_of input breached pct =
      if breached || less_or_same d input.critical_threshold_pct pct
      then some critical
      else if less_or_same d input.warning_threshold_pct pct
      then some warning
      else if less_or_same d (of_ℕ info_threshold_pct) pct
      then some info
      else none

  abbrev pub projected : BudgetPaceInput → Num
  projected input = mul (div input.mtd_spend input.days_elapsed) input.days_in_month

  abbrev pub over_pace : Num → Num → Num
  over_pace total baseline = mul (div (sub total baseline) baseline) (of_ℕ 100)

  -- The result for a baseline.
  unfoldable pub pace_against : BudgetPaceInput → Num → BudgetPaceResult
  pace_against input baseline = record {
    projected_full_month = projected input;
    baseline = baseline;
    baseline_source = if is_some input.monthly_budget_amount then budget else last_month;
    pct_over_pace = over_pace (projected input) baseline;
    severity =
        severity_of input (is_hard_cap_breached input) (over_pace (projected input) baseline);
    hard_cap_breached = is_hard_cap_breached input;
  }

  unfoldable pub calculate_budget_pace : BudgetPaceInput → Option BudgetPaceResult
  calculate_budget_pace input =
      if less_or_same d input.days_elapsed (of_ℕ 0) then none else (elim (baseline_of input) [
        | none ↦ none
        | some baseline ↦
            if less_or_same d baseline (of_ℕ 0) then none else some (pace_against input baseline)
      ])

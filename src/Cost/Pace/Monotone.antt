-- ===== src/Cost/Pace/Monotone.antt =====
-- More spending is never judged less severe (apps/api/src/modules/cost/cost-pace.ts).
use claude_cloud_ops_tool.Base.{
  Bool, Bool-cases, Option, Option-cases, ap, arith, false, inl, inr, none, refl, some, subst, true,
  ℕ, ◌∙◌, ◌≡◌, ◌≤◌,
}
use claude_cloud_ops_tool.Monitoring.Metrics.{Double, less_or_same}
use claude_cloud_ops_tool.Cost.Pace.{
  BudgetPaceSeverity, info, warning, critical, BudgetPaceInput, BudgetPaceResult, baseline_of,
  is_hard_cap_breached, severity_of, projected, over_pace, pace_against, calculate_budget_pace,
  info_threshold_pct,
}

-- What IEEE 754 guarantees of the order of doubles: rounding keeps it, so that the operations with a
-- finite number do.
pub record IsDouble (d : Double) (is_finite : d.Num → Bool) : Type 0 where
  pub hundred : (is_finite (d.of_ℕ 100) ≡ true) × (d.less (d.of_ℕ 0) (d.of_ℕ 100) ≡ true)
  pub le_trans :
      (x y z : d.Num)
      → less_or_same d x y ≡ true
      → less_or_same d y z ≡ true
      → less_or_same d x z ≡ true
  pub less-le : (x y z : d.Num) → d.less x y ≡ true → less_or_same d y z ≡ true → d.less x z ≡ true
  pub positive :
      (x : d.Num)
      → is_finite x ≡ true
      → less_or_same d x (d.of_ℕ 0) ≡ false
      → d.less (d.of_ℕ 0) x ≡ true
  pub sub-le :
      (x y b : d.Num)
      → is_finite b ≡ true
      → less_or_same d x y ≡ true
      → less_or_same d (d.sub x b) (d.sub y b) ≡ true
  pub mul-le :
      (x y c : d.Num)
      → is_finite c ≡ true
      → d.less (d.of_ℕ 0) c ≡ true
      → less_or_same d x y ≡ true
      → less_or_same d (d.mul x c) (d.mul y c) ≡ true
  pub div-le :
      (x y c : d.Num)
      → is_finite c ≡ true
      → d.less (d.of_ℕ 0) c ≡ true
      → less_or_same d x y ≡ true
      → less_or_same d (d.div x c) (d.div y c) ≡ true

abbrev pub rank : Option BudgetPaceSeverity → ℕ
rank none = 0
rank (some info) = 1
rank (some warning) = 2
rank (some critical) = 3

module _ (d : Double) (is_finite : d.Num → Bool) (is_double : IsDouble d is_finite) where
  abbrev pub spending : BudgetPaceInput d → d.Num → BudgetPaceInput d
  spending input more = record input { mtd_spend = more }

  severity_of-rank :
      (input : BudgetPaceInput d) (more : d.Num) (b b' : Bool) (pct pct' : d.Num)
      → (b ≡ true → b' ≡ true)
      → less_or_same d pct pct' ≡ true
      → rank (severity_of d input b pct) ≤ rank (severity_of d (spending input more) b' pct')
  unfolding severity_of
  severity_of-rank input more b b' pct pct' breached le =
      let critical_too = is_double.le_trans input.critical_threshold_pct pct pct' in
      let warning_too = is_double.le_trans input.warning_threshold_pct pct pct' in
      let info_too = is_double.le_trans (d.of_ℕ info_threshold_pct) pct pct' in
      ground (arith, critical_too, warning_too, info_too)

  over_pace-le :
      (input : BudgetPaceInput d) (more baseline : d.Num)
      → less_or_same d input.mtd_spend more ≡ true
      → is_finite input.days_elapsed ≡ true
      → d.less (d.of_ℕ 0) input.days_elapsed ≡ true
      → is_finite input.days_in_month ≡ true
      → d.less (d.of_ℕ 0) input.days_in_month ≡ true
      → is_finite baseline ≡ true
      → d.less (d.of_ℕ 0) baseline ≡ true
      → less_or_same d
          (over_pace d (projected d input) baseline)
          (over_pace d (projected d (spending input more)) baseline)
        ≡ true
  over_pace-le input more baseline le elapsed some_days month long known budgeted =
      let total =
        is_double.mul-le (d.div input.mtd_spend input.days_elapsed) (d.div more input.days_elapsed)
          input.days_in_month month long
          (is_double.div-le input.mtd_spend more input.days_elapsed elapsed some_days le) in
      let above =
        is_double.sub-le (projected d input) (projected d (spending input more)) baseline known
          total in
      is_double.mul-le _ _ (d.of_ℕ 100) is_double.hundred.0 is_double.hundred.1
        (is_double.div-le _ _ baseline known budgeted above)

  breached-spending :
      (input : BudgetPaceInput d) (more : d.Num)
      → less_or_same d input.mtd_spend more ≡ true
      → is_hard_cap_breached d input ≡ true
      → is_hard_cap_breached d (spending input more) ≡ true
  breached-spending input more le breached = elim (Option-cases input.monthly_budget_amount) [
    | inl unset ↦ ground arith
    | inr (amount, set) ↦
        let over : d.less amount input.mtd_spend ≡ true = ground arith in
        let still = is_double.less-le amount input.mtd_spend more over le in ground arith
  ]

  calculate-inv :
      (input : BudgetPaceInput d) (r : BudgetPaceResult d)
      → calculate_budget_pace d input ≡ some r
      → (less_or_same d input.days_elapsed (d.of_ℕ 0) ≡ false)
        × (b : d.Num) × (baseline_of d input ≡ some b)
        × (less_or_same d b (d.of_ℕ 0) ≡ false)
        × (pace_against d input b ≡ r)
  unfolding calculate_budget_pace
  calculate-inv input r e = elim (Bool-cases (less_or_same d input.days_elapsed (d.of_ℕ 0))) [
    | inl early ↦ let nothing = rw (early, calculate_budget_pace) at e in cc
    | inr started ↦ elim (Option-cases (baseline_of d input)) [
      | inl missing ↦ let nothing = rw (started, missing, calculate_budget_pace) at e in cc
      | inr (b, found) ↦ elim (Bool-cases (less_or_same d b (d.of_ℕ 0))) [
        | inl empty ↦ let nothing = rw (started, found, empty, calculate_budget_pace) at e in cc
        | inr positive ↦
            let done : some (pace_against d input b) ≡ some r =
              rw (started, found, positive, calculate_budget_pace) at e in
            (started, b, found, positive, cc)
      ]
    ]
  ]

  calculate-of :
      (input : BudgetPaceInput d) (b : d.Num)
      → less_or_same d input.days_elapsed (d.of_ℕ 0) ≡ false
      → baseline_of d input ≡ some b
      → less_or_same d b (d.of_ℕ 0) ≡ false
      → calculate_budget_pace d input ≡ some (pace_against d input b)
  unfolding calculate_budget_pace
  calculate-of input b started found positive =
      rw (started, found, positive, calculate_budget_pace) refl

  -- If spending is judged against a finite baseline, over a finite number of days of a month with
  -- finitely many, then with more spending and all else the same it is judged against the same baseline,
  -- its severity is no lower, and a cap that was breached still is, which is critical.
  pub calculate_budget_pace-monotone :
      (input : BudgetPaceInput d) (more : d.Num) (r : BudgetPaceResult d)
      → less_or_same d input.mtd_spend more ≡ true
      → is_finite input.days_elapsed ≡ true
      → is_finite input.days_in_month ≡ true
      → d.less (d.of_ℕ 0) input.days_in_month ≡ true
      → is_finite r.baseline ≡ true
      → calculate_budget_pace d input ≡ some r
      → (r' : BudgetPaceResult d) × (calculate_budget_pace d (record input { mtd_spend = more })
          ≡ some r')
        × (r'.baseline ≡ r.baseline)
        × (rank r.severity ≤ rank r'.severity)
        × (r.hard_cap_breached ≡ true
            → (r'.hard_cap_breached ≡ true) × (r'.severity ≡ some critical))
  unfolding pace_against severity_of
  calculate_budget_pace-monotone input more r le elapsed month long known e =
      let (started, b, found, positive, is_r) = calculate-inv input r e in
      let same : b ≡ r.baseline = ap (λ (x : BudgetPaceResult d). x.baseline) is_r in
      let finite : is_finite b ≡ true = ap is_finite same ∙ known in
      let some_days = is_double.positive input.days_elapsed elapsed started in
      let over =
        over_pace-le input more b le elapsed some_days month long finite
          (is_double.positive b finite positive) in
      let later = breached-spending input more le in
      (
        pace_against d (spending input more) b,
        calculate-of (spending input more) b started found positive,
        same,
        subst
            (λ (x : BudgetPaceResult d).
              rank x.severity ≤ rank (pace_against d (spending input more) b).severity)
            is_r (severity_of-rank input more _ _ _ _ later over),
        λ breached.
            let cap : is_hard_cap_breached d (spending input more) ≡ true =
              later (ap (λ (x : BudgetPaceResult d). x.hard_cap_breached) is_r ∙ breached) in
            (cap, rw cap refl),
      )

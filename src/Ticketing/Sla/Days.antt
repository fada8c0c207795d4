-- ===== src/Ticketing/Sla/Days.antt =====
-- The search for the next working day, and the loop that uses it, end (apps/api/src/modules/ticketing/
-- sla/business-hours.ts).
use claude_cloud_ops_tool.Base.{
  Bool-cases, String, ap, arith, false, inl, inr, leb, refl, some, suc, sym, true, zero, ℕ, ◌%◌,
  ◌*◌, ◌+◌, ◌-◌, ◌<◌, ◌∙◌, ◌≡◌, ◌≢◌, ◌≤◌,
}
use claude_cloud_ops_tool.Ticketing.Sla.{
  BusinessHours, Calendar, ZonedParts, zoned_parts, instant_at, is_working_day, skip_days,
  next_working_day, day_ms, weekday_index, consume,
}

weekday_index-lt : (name : String) → weekday_index name < 7
unfolding weekday_index
weekday_index-lt name = ground arith

module _ (calendar : Calendar) (hours : BusinessHours) where
  abbrev pub shown : ℕ → ZonedParts
  shown instant = zoned_parts calendar instant hours.timezone

  abbrev pub noon : ℕ → ℕ
  noon instant = instant_at calendar hours (shown instant) (12 * 60)

  -- Steps of 24 hours from local noon go through the days of the week, for a week: no change of the
  -- clocks is as long as half a day.
  abbrev pub IsWeekly : Type 0
  IsWeekly =
      (instant k : ℕ)
      → k ≤ 7
      → (shown (noon instant + k * day_ms)).weekday ≡ ((shown instant).weekday + k) % 7

  shown-weekday : (instant : ℕ) → (shown instant).weekday < 7
  unfolding zoned_parts
  shown-weekday instant = weekday_index-lt _

  module _ (weekly : IsWeekly) where
    skip_days_total :
        (rounds k j instant probe : ℕ)
        → probe ≡ noon instant + k * day_ms
        → k < j
        → j ≤ k + rounds
        → k + rounds ≤ 7
        → is_working_day calendar hours (((shown instant).weekday + j) % 7) ≡ true
        → (t : ℕ) × (skip_days calendar rounds hours probe ≡ some (shown t))
    unfolding skip_days
    skip_days_total zero k j instant probe at more within week works = absurd (omega arith)
    skip_days_total (suc rounds) k j instant probe at more within week works =
        let next : probe + day_ms ≡ noon instant + (k + 1) * day_ms = omega arith in
        let day : (shown (probe + day_ms)).weekday ≡ ((shown instant).weekday + (k + 1)) % 7 =
          ap (λ x. (shown x).weekday) next ∙ weekly instant (k + 1) (omega arith) in
        elim (Bool-cases (is_working_day calendar hours (shown (probe + day_ms)).weekday)) [
          | inl t ↦ (probe + day_ms, rw (t, skip_days) refl)
          | inr t ↦
              let other : j ≢ k + 1 = λ e.
                let same : is_working_day calendar hours (((shown instant).weekday + j) % 7)
                    ≡ false =
                  ap (λ x. is_working_day calendar hours (((shown instant).weekday + x) % 7)) e
                  ∙ ap (is_working_day calendar hours) (sym day)
                  ∙ t in
                cc in
              rw (t, skip_days)
                (skip_days_total rounds (k + 1) j instant (probe + day_ms) next (omega arith)
                  (omega arith) (omega arith) works)
        ]

    module _ (d : ℕ) (in_week : d < 7) (works : is_working_day calendar hours d ≡ true) where
      pub next_working_day_total :
          (instant : ℕ)
          → (t : ℕ) × (next_working_day calendar hours (shown instant) ≡ some (shown t))
      unfolding next_working_day
      next_working_day_total instant =
          let w = (shown instant).weekday in
          let below : w < 7 = shown-weekday instant in
          let days = (d + 6 - w) % 7 + 1 in
          let reached : (w + days) % 7 ≡ d = omega arith in
          skip_days_total 7 0 days instant (noon instant) (omega arith) (omega arith) (omega arith)
            (omega arith) (ap (is_working_day calendar hours) reached ∙ works)

      pub consume_total :
          (rounds minutes minute instant : ℕ)
          → hours.start_minute < hours.end_minute
          → minute < hours.end_minute
          → minutes < rounds
          → (r : ℕ) × (consume calendar rounds hours minutes (shown instant) minute ≡ some r)
      unfolding consume
      consume_total zero minutes minute instant window inside enough = absurd (omega arith)
      consume_total (suc rounds) minutes minute instant window inside enough =
          elim (Bool-cases (leb minutes (hours.end_minute - minute))) [
            | inl fits ↦ (
              instant_at calendar hours (shown instant) (minute + minutes),
              rw (fits, consume) refl,
            )
            | inr more ↦
                let (t, found) = next_working_day_total instant in
                let (r, e) =
                  consume_total rounds (minutes - (hours.end_minute - minute)) hours.start_minute t
                    window window (ground arith) in
                (r, rw (more, consume) (rw found e))
          ]

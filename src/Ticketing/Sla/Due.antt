-- ===== src/Ticketing/Sla/Due.antt =====
-- Business minutes as a whole: `addBusinessMinutes` ends, and where (apps/api/src/modules/ticketing/sla/
-- business-hours.ts).
use claude_cloud_ops_tool.Base.{
  Bool, Bool-cases, Option, arith, false, if◌then◌else◌, inl, inr, leb, length, ltb, nat_eq, none,
  not, option_eq, refl, some, string_eq, suc, true, zero, ℕ, ◌%◌, ◌*◌, ◌+◌, ◌-◌, ◌/◌, ◌<◌, ◌==◌,
  ◌||◌, ◌≡◌, ◌≤◌,
}
use claude_cloud_ops_tool.Ticketing.Sla.{
  BusinessHours, Calendar, SlaDueDates, SlaTargets, ZonedParts, calculate_due_dates, due_at,
  instant_at, is_working_day, first_position, add_business_minutes, is_empty, consume,
}
use claude_cloud_ops_tool.Ticketing.Sla.Days.{
  shown, IsWeekly, next_working_day_total, consume_total,
}
use claude_cloud_ops_tool.Ticketing.Sla.Loop.{
  window, at_minute, nth_working_day, consume_first, consume_later,
}

start_minute-lt :
    (off : Bool) (minute first last : ℕ)
    → (off || leb last minute) ≡ false
    → first < last
    → (if ltb minute first then first else minute) < last
start_minute-lt off minute first last today open_hours = ground arith

minutes-gt :
    (full part length left minutes : ℕ)
    → 0 < part
    → part ≤ length
    → minutes ≡ left + full * length + part
    → full + 1 < minutes + 1
minutes-gt zero part length left minutes positive fits e = omega arith
minutes-gt (suc full) part length left minutes positive fits e =
    let rest : full + 1 < full * length + part + 1 =
      minutes-gt full part length 0 (full * length + part) positive fits (omega arith) in
    grind arith

divided_lem :
    (minutes left length : ℕ)
    → 0 < length
    → left < minutes
    → ((minutes - left - 1) % length + 1 ≤ length)
      × (minutes
          ≡ left + (minutes - left - 1) / length * length + ((minutes - left - 1) % length + 1))
divided_lem minutes left length positive more = omega arith

module _ (calendar : Calendar) (hours : BusinessHours) where
  abbrev pub is_flat : ℕ → Bool
  is_flat minutes =
      leb hours.end_minute hours.start_minute || is_empty calendar hours.days || minutes == 0

  module _ (weekly : IsWeekly calendar hours) (d : ℕ) (in_week : d < 7)
      (works : is_working_day calendar hours d ≡ true) where
    first_position_total :
        (instant : ℕ)
        → hours.start_minute < hours.end_minute
        → (t : ℕ) × (minute : ℕ) × (first_position calendar hours (shown calendar hours instant)
            ≡ some (shown calendar hours t, minute))
          × (minute < hours.end_minute)
    unfolding first_position
    first_position_total instant open_hours =
        let cursor = shown calendar hours instant in
        let minute_of_day = cursor.hour * 60 + cursor.minute in
        elim (Bool-cases (
          not (is_working_day calendar hours cursor.weekday)
          || leb hours.end_minute minute_of_day)) [
            | inl later ↦
                let (t, found) =
                  next_working_day_total calendar hours weekly d in_week works instant in
                (t, hours.start_minute, rw (later, found) refl, open_hours)
            | inr today ↦ (
              instant,
              if ltb minute_of_day hours.start_minute then hours.start_minute else minute_of_day,
              rw today refl,
              start_minute-lt _ minute_of_day hours.start_minute hours.end_minute today open_hours,
            )
          ]

    add_business_minutes_total :
        (anchor minutes : ℕ)
        → (r : ℕ) × (add_business_minutes calendar anchor minutes hours ≡ some r)
    unfolding add_business_minutes
    add_business_minutes_total anchor minutes = elim (Bool-cases (is_flat minutes)) [
      | inl flat ↦ (anchor + minutes * 60000, rw flat refl)
      | inr timed ↦
          let (t, minute, first, inside) = first_position_total anchor (ground arith) in
          let (r, e) =
            consume_total calendar hours weekly d in_week works (minutes + 1) minutes minute t
              (ground arith) inside (omega arith) in
          (r, rw timed (rw first e))
    ]

    due_at_total :
        (created_at target : ℕ) (policy : SlaTargets)
        → (r : ℕ) × (due_at calendar created_at policy (some hours) target ≡ some r)
    unfolding due_at
    due_at_total created_at target policy = elim (Bool-cases policy.business_hours_only) [
      | inl counted ↦ let (r, e) = add_business_minutes_total created_at target in (r, rw counted e)
      | inr flat ↦ (created_at + target * 60000, rw flat refl)
    ]

    -- If some day of the week is a working day, and steps of 24 hours from local noon go through the
    -- days of the week, then the due dates of every ticket are computed: no loop runs forever, whatever
    -- the window, the instant and the targets are.
    pub calculate_due_dates_total :
        (created_at : ℕ) (policy : Option SlaTargets)
        → (r : SlaDueDates) × (calculate_due_dates calendar created_at policy (some hours) ≡ some r)
    unfolding calculate_due_dates
    calculate_due_dates_total created_at none =
        (record { first_response_due_at = none; resolution_due_at = none }, refl)
    calculate_due_dates_total created_at (some policy) =
        let (first, e) = due_at_total created_at policy.first_response_target_minutes policy in
        let (second, d) = due_at_total created_at policy.resolution_target_minutes policy in
        (
          record { first_response_due_at = some first; resolution_due_at = some second },
          rw (e, d) refl,
        )

  -- The end of business minutes by a division: of what the first day does not hold, all whole windows
  -- but the last are passed over, and the rest, one whole window at most, falls on one more day.
  abbrev pub by_division : ℕ → ZonedParts → ℕ → Option ℕ
  by_division minutes cursor minute =
      if leb minutes (hours.end_minute - minute)
      then some (instant_at calendar hours cursor (minute + minutes))
      else (let rest = minutes - (hours.end_minute - minute) - 1 in
          at_minute calendar hours (hours.start_minute + (rest % window calendar hours + 1))
            (nth_working_day calendar hours (suc (rest / window calendar hours)) cursor))

  consume-by_division :
      (minutes minute : ℕ) (cursor : ZonedParts)
      → hours.start_minute < hours.end_minute
      → consume calendar (minutes + 1) hours minutes cursor minute
        ≡ by_division minutes cursor minute
  consume-by_division minutes minute cursor open_hours =
      elim (Bool-cases (leb minutes (hours.end_minute - minute))) [
        | inl fits ↦
            let rounds : minutes + 1 ≡ suc minutes = omega arith in
            rw (fits, rounds)
              (consume_first calendar hours minutes minutes minute cursor (ground arith))
        | inr more ↦
            let left = hours.end_minute - minute in
            let rest = minutes - left - 1 in
            let length = window calendar hours in
            let (inside, divided) = divided_lem minutes left length (ground arith) (ground arith) in
            rw more (
              consume_later calendar hours (rest / length) (minutes + 1) (rest % length + 1) minutes
                minute cursor (omega arith) inside divided
                (minutes-gt (rest / length) (rest % length + 1) length left minutes (omega arith)
                  inside divided))
      ]

  -- From the first business minute at the anchor or after it, adding business minutes by the loop is
  -- the division of them by the length of the window.
  pub add_business_minutes-by_division :
      (anchor minutes minute : ℕ) (cursor : ZonedParts)
      → is_flat minutes ≡ false
      → first_position calendar hours (shown calendar hours anchor) ≡ some (cursor, minute)
      → add_business_minutes calendar anchor minutes hours ≡ by_division minutes cursor minute
  unfolding add_business_minutes
  add_business_minutes-by_division anchor minutes minute cursor timed first =
      rw timed (rw first (consume-by_division minutes minute cursor (ground arith)))

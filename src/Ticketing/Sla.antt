-- ===== src/Ticketing/Sla.antt =====
-- Due dates of SLA targets, by the clock or by business hours (apps/api/src/modules/ticketing/sla/
-- business-hours.ts, calculate-due-dates.ts). `Intl.DateTimeFormat` and `Date.UTC` are a parameter.
-- An instant is a number of milliseconds since 1970, at which subtraction stops.
pub mod Days
pub mod Loop
pub mod Due
pub mod Tests
use claude_cloud_ops_tool.Base.{
  Bool, List, Option, String, [], contains, default_to, false, if◌then◌else◌, index_of, leb, ltb,
  nat_eq, none, not, option_eq, some, string_eq, suc, true, zero, ℕ, ◌%◌, ◌*◌, ◌+◌, ◌-◌, ◌/◌, ◌==◌,
  ◌||◌, ◌∷◌,
}

pub record BusinessHours : Type 0 where
  pub start_minute : ℕ
  pub end_minute : ℕ
  pub days : List ℕ
  pub timezone : String

-- What `formatToParts` shows of an instant, its numbers read.
pub record Parts : Type 0 where
  pub weekday : String
  pub year : ℕ
  pub month : ℕ
  pub day : ℕ
  pub hour : ℕ
  pub minute : ℕ

pub record Calendar : Type 0 where
  -- `new Intl.DateTimeFormat('en-US', { timeZone, … }).formatToParts(instant)`
  pub format_to_parts : String → ℕ → Parts
  -- `Date.UTC(year, month - 1, day, hour, minute, 0, 0)`
  pub utc : (year month day hour minute : ℕ) → ℕ

pub record ZonedParts : Type 0 where
  pub year : ℕ
  pub month : ℕ
  pub day : ℕ
  pub hour : ℕ
  pub minute : ℕ
  pub weekday : ℕ

-- `WEEKDAY_INDEX[…] ?? 0`
unfoldable pub weekday_index : String → ℕ
weekday_index name =
    default_to 0 (index_of name ("Sun" ∷ "Mon" ∷ "Tue" ∷ "Wed" ∷ "Thu" ∷ "Fri" ∷ "Sat" ∷ []))

pub record SlaTargets : Type 0 where
  pub first_response_target_minutes : ℕ
  pub resolution_target_minutes : ℕ
  pub business_hours_only : Bool

pub record SlaDueDates : Type 0 where
  pub first_response_due_at : Option ℕ
  pub resolution_due_at : Option ℕ

abbrev pub day_ms : ℕ
day_ms = 86400000

module _ (calendar : Calendar) where
  unfoldable pub zoned_parts : ℕ → String → ZonedParts
  zoned_parts instant timezone =
      let parts = calendar.format_to_parts timezone instant in
      record {
        year = parts.year;
        month = parts.month;
        day = parts.day;
        hour = if parts.hour == 24 then 0 else parts.hour;
        minute = parts.minute;
        weekday = weekday_index parts.weekday;
      }

  -- One round of the loop of `zonedTimeToUtc`: `naiveUtc - (zonedAsUtc - guess)`.
  unfoldable pub correct : ℕ → String → ℕ → ℕ
  correct naive_utc timezone guess =
      let zoned = zoned_parts guess timezone in
      naive_utc + guess - calendar.utc zoned.year zoned.month zoned.day zoned.hour zoned.minute

  unfoldable pub zoned_time_to_utc : (year month day minutes_into_day : ℕ) → String → ℕ
  unfolding correct
  zoned_time_to_utc year month day minutes_into_day timezone =
      let naive_utc = calendar.utc year month day (minutes_into_day / 60) (minutes_into_day % 60) in
      correct naive_utc timezone (correct naive_utc timezone naive_utc)

  -- A minute of the cursor's day, as an instant.
  unfoldable pub instant_at : BusinessHours → ZonedParts → ℕ → ℕ
  instant_at hours cursor minutes =
      zoned_time_to_utc cursor.year cursor.month cursor.day minutes hours.timezone

  abbrev pub is_working_day : BusinessHours → ℕ → Bool
  is_working_day hours weekday = contains hours.days weekday

  -- The loop of `advanceToNextWorkingDayStart`, from an instant near noon; `none` is a loop that has
  -- not ended in the rounds given.
  unfoldable pub skip_days : ℕ → BusinessHours → ℕ → Option ZonedParts
  skip_days zero hours probe = none
  skip_days (suc rounds) hours probe =
      let cursor = zoned_parts (probe + day_ms) hours.timezone in
      elim (is_working_day hours cursor.weekday) [
        | true ↦ some cursor
        | false ↦ skip_days rounds hours (probe + day_ms)
      ]

  -- A week of rounds.
  unfoldable pub next_working_day : BusinessHours → ZonedParts → Option ZonedParts
  next_working_day hours cursor = skip_days 7 hours (instant_at hours cursor (12 * 60))

  -- The loop that consumes business minutes day by day.
  unfoldable pub consume : ℕ → BusinessHours → ℕ → ZonedParts → ℕ → Option ℕ
  consume zero hours remaining cursor minute_of_day = none
  consume (suc rounds) hours remaining cursor minute_of_day =
      let available_today = hours.end_minute - minute_of_day in
      elim (leb remaining available_today) [
        | true ↦ some (instant_at hours cursor (minute_of_day + remaining))
        | false ↦ elim (next_working_day hours cursor) [
          | none ↦ none
          | some next ↦ consume rounds hours (remaining - available_today) next hours.start_minute
        ]
      ]

  -- Where the cursor starts: the first business minute at the anchor or after it.
  unfoldable pub first_position : BusinessHours → ZonedParts → Option (ZonedParts × ℕ)
  first_position hours cursor =
      let minute_of_day = cursor.hour * 60 + cursor.minute in
      if not (is_working_day hours cursor.weekday) || leb hours.end_minute minute_of_day
      then (elim (next_working_day hours cursor) [
        | none ↦ none
        | some next ↦ some (next, hours.start_minute)
      ])
      else some (
        cursor,
        if ltb minute_of_day hours.start_minute then hours.start_minute else minute_of_day,
      )

  abbrev pub is_empty : List ℕ → Bool
  is_empty [] = true
  is_empty (d ∷ ds) = false

  unfoldable pub add_business_minutes : ℕ → ℕ → BusinessHours → Option ℕ
  add_business_minutes anchor minutes_to_add hours =
      if leb hours.end_minute hours.start_minute || is_empty hours.days || minutes_to_add == 0
      then some (anchor + minutes_to_add * 60000)
      else (elim (first_position hours (zoned_parts anchor hours.timezone)) [
        | none ↦ none
        | some (cursor, minute) ↦ consume (minutes_to_add + 1) hours minutes_to_add cursor minute
      ])

  -- `due`; `none` is a loop that has not ended.
  unfoldable pub due_at : ℕ → SlaTargets → Option BusinessHours → ℕ → Option ℕ
  due_at created_at policy none target = some (created_at + target * 60000)
  due_at created_at policy (some hours) target =
      if policy.business_hours_only
      then add_business_minutes created_at target hours
      else some (created_at + target * 60000)

  abbrev pub both_due : Option ℕ → Option ℕ → Option SlaDueDates
  both_due none _ = none
  both_due (some first) none = none
  both_due (some first) (some second) =
      some (record { first_response_due_at = some first; resolution_due_at = some second })

  unfoldable pub calculate_due_dates :
      ℕ → Option SlaTargets → Option BusinessHours → Option SlaDueDates
  unfolding due_at
  calculate_due_dates created_at none hours =
      some (record { first_response_due_at = none; resolution_due_at = none })
  calculate_due_dates created_at (some policy) hours =
      both_due (due_at created_at policy hours policy.first_response_target_minutes)
        (due_at created_at policy hours policy.resolution_target_minutes)

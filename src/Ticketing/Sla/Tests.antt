-- ===== src/Ticketing/Sla/Tests.antt =====
-- Business hours in a calendar that counts days, in universal time.
use claude_cloud_ops_tool.Base.{
  String, [], ap, arith, refl, some, suc, true, zero, ℕ, ◌%◌, ◌*◌, ◌+◌, ◌/◌, ◌<◌, ◌∙◌, ◌∷◌, ◌≡◌,
}
use claude_cloud_ops_tool.Ticketing.Sla.{
  BusinessHours, Calendar, add_business_minutes, correct, consume, day_ms, first_position,
  instant_at, next_working_day, skip_days, weekday_index, zoned_parts, zoned_time_to_utc,
  SlaTargets, SlaDueDates, calculate_due_dates,
}
use claude_cloud_ops_tool.Ticketing.Sla.Days.{IsWeekly, noon, shown}
use claude_cloud_ops_tool.Ticketing.Sla.Due.{
  add_business_minutes-by_division, calculate_due_dates_total, by_division,
}

abbrev name_of : ℕ → String
name_of zero = "Sun"
name_of (suc zero) = "Mon"
name_of (suc (suc zero)) = "Tue"
name_of (suc (suc (suc zero))) = "Wed"
name_of (suc (suc (suc (suc zero)))) = "Thu"
name_of (suc (suc (suc (suc (suc zero))))) = "Fri"
name_of (suc (suc (suc (suc (suc (suc n)))))) = "Sat"

-- The year is the number of the day since 1 January 1970, which was a Thursday.
abbrev pub day_count : Calendar
day_count = record {
  format_to_parts = λ timezone instant. record {
    weekday = name_of ((instant / day_ms + 4) % 7);
    year = instant / day_ms;
    month = 1;
    day = 1;
    hour = instant % day_ms / 3600000;
    minute = instant % 3600000 / 60000;
  };
  utc = λ year month day hour minute. year * day_ms + hour * 3600000 + minute * 60000;
}

abbrev office : BusinessHours
office = record {
  start_minute = 540;
  end_minute = 1020;
  days = 1 ∷ 2 ∷ 3 ∷ 4 ∷ 5 ∷ [];
  timezone = "UTC";
}

weekday_index-name_of : (n : ℕ) → n < 7 → weekday_index (name_of n) ≡ n
unfolding weekday_index
weekday_index-name_of zero below = refl
weekday_index-name_of (suc zero) below = refl
weekday_index-name_of (suc (suc zero)) below = refl
weekday_index-name_of (suc (suc (suc zero))) below = refl
weekday_index-name_of (suc (suc (suc (suc zero)))) below = refl
weekday_index-name_of (suc (suc (suc (suc (suc zero))))) below = refl
weekday_index-name_of (suc (suc (suc (suc (suc (suc zero)))))) below = refl
weekday_index-name_of (suc (suc (suc (suc (suc (suc (suc n))))))) below = absurd (omega arith)

-- At noon the clock shows noon, so that there is nothing to correct.
correct-noon :
    (y : ℕ)
    → correct day_count (y * day_ms + 43200000) "UTC" (y * day_ms + 43200000)
      ≡ y * day_ms + 43200000
unfolding correct zoned_parts
correct-noon y =
    let hour : (y * day_ms + 43200000) % day_ms ≡ 43200000 = omega arith in
    let day : (y * day_ms + 43200000) / day_ms ≡ y = omega arith in
    let minute : (y * day_ms + 43200000) % 3600000 ≡ 0 = omega arith in
    rw (hour, day, minute) (omega arith)

noon-day_count :
    (instant : ℕ) → noon day_count office instant ≡ instant / day_ms * day_ms + 43200000
unfolding instant_at zoned_time_to_utc zoned_parts
noon-day_count instant =
    let y = instant / day_ms in
    let naive : y * day_ms + 43200000 + 0 ≡ y * day_ms + 43200000 = omega arith in
    ap (λ n. correct day_count n "UTC" (correct day_count n "UTC" n)) naive
    ∙ rw (correct-noon y) (correct-noon y)

day_count-IsWeekly : IsWeekly day_count office
unfolding zoned_parts
day_count-IsWeekly instant k week =
    let day : (noon day_count office instant + k * day_ms) / day_ms ≡ instant / day_ms + k =
      omega (arith, noon-day_count instant) in
    let w = instant / day_ms in
    let names = λ (n : ℕ). weekday_index-name_of ((n + 4) % 7) (omega arith) in
    rw (day, names (w + k), names w) (omega arith)

-- Friday, 16:00.
abbrev friday : ℕ
friday = 1 * day_ms + 16 * 3600000

-- Two business hours later it is Monday, 10:00.
add_business_minutes_test :
    add_business_minutes day_count friday 120 office ≡ some (4 * day_ms + 10 * 3600000)
unfolding add_business_minutes first_position consume next_working_day skip_days instant_at
    zoned_time_to_utc correct zoned_parts weekday_index
add_business_minutes_test = refl

abbrev two_hours : SlaTargets
two_hours = record {
  first_response_target_minutes = 120;
  resolution_target_minutes = 1000;
  business_hours_only = true;
}

calculate_due_dates_total_example :
    (r : SlaDueDates) × (calculate_due_dates day_count friday (some two_hours) (some office)
      ≡ some r)
calculate_due_dates_total_example =
    calculate_due_dates_total day_count office day_count-IsWeekly 1 (omega arith) refl friday
      (some two_hours)

add_business_minutes-by_division_example :
    add_business_minutes day_count friday 1000 office
    ≡ by_division day_count office 1000 (shown day_count office friday) 960
unfolding first_position zoned_parts weekday_index
add_business_minutes-by_division_example =
    add_business_minutes-by_division day_count office friday 1000 960
      (shown day_count office friday) refl refl

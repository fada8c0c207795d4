-- ===== src/Ticketing/Sla/Loop.antt =====
-- The loop that consumes business minutes against a division (apps/api/src/modules/ticketing/sla/
-- business-hours.ts).
use claude_cloud_ops_tool.Base.{
  Option, arith, false, leb, none, refl, some, suc, zero, ℕ, ◌*◌, ◌+◌, ◌-◌, ◌<◌, ◌∙◌, ◌≡◌, ◌≤◌,
}
use claude_cloud_ops_tool.Ticketing.Sla.{
  BusinessHours, Calendar, ZonedParts, instant_at, next_working_day, consume,
}

module _ (calendar : Calendar) (hours : BusinessHours) where
  -- The n-th working day after a cursor's day.
  abbrev pub nth_working_day : ℕ → ZonedParts → Option ZonedParts
  nth_working_day zero cursor = some cursor
  nth_working_day (suc n) cursor = elim (next_working_day calendar hours cursor) [
    | none ↦ none
    | some next ↦ nth_working_day n next
  ]

  abbrev pub at_minute : ℕ → Option ZonedParts → Option ℕ
  at_minute minute none = none
  at_minute minute (some cursor) = some (instant_at calendar hours cursor minute)

  -- If the minutes to add fit into the first day, it ends there. If not, and they are what is left of
  -- the first day, `full` whole windows and `part` minutes of one more, it ends `part` minutes into the
  -- window of the working day after those.
  pub consume_first :
      (rounds minutes minute : ℕ) (cursor : ZonedParts)
      → minutes ≤ hours.end_minute - minute
      → consume calendar (suc rounds) hours minutes cursor minute
        ≡ some (instant_at calendar hours cursor (minute + minutes))
  unfolding consume
  consume_first rounds minutes minute cursor fits = ground arith

  consume_next :
      (rounds minutes minute : ℕ) (cursor : ZonedParts)
      → hours.end_minute - minute < minutes
      → consume calendar (suc rounds) hours minutes cursor minute
        ≡ elim (next_working_day calendar hours cursor) [
          | none ↦ none
          | some next ↦
              consume calendar rounds hours
                (minutes - (hours.end_minute - minute))
                next
                hours.start_minute
        ]
  unfolding consume
  consume_next rounds minutes minute cursor more =
      let test : leb minutes (hours.end_minute - minute) ≡ false = ground arith in
      rw (test, consume) refl

  abbrev pub window : ℕ
  window = hours.end_minute - hours.start_minute

  -- Where the rest of the loop agrees from every next day, so does the whole.
  same_after :
      (run : ZonedParts → Option ℕ) (full minute : ℕ) (o : Option ZonedParts)
      → ((next : ZonedParts) → run next ≡ at_minute minute (nth_working_day full next))
      → (elim o [ none ↦ none | some next ↦ run next ])
        ≡ at_minute minute (elim o [ none ↦ none | some next ↦ nth_working_day full next ])
  same_after run full minute none same = refl
  same_after run full minute (some next) same = same next

  -- Minutes that are what is left of the first day, `full` whole windows and `part` minutes of one more
  -- end `part` minutes into the window of the working day after those.
  pub consume_later :
      (full rounds part minutes minute : ℕ) (cursor : ZonedParts)
      → 0 < part
      → part ≤ window
      → minutes ≡ (hours.end_minute - minute) + full * window + part
      → full + 1 < rounds
      → consume calendar rounds hours minutes cursor minute
        ≡ at_minute (hours.start_minute + part) (nth_working_day (suc full) cursor)
  consume_later full zero part minutes minute cursor positive fits e enough = absurd (omega arith)
  consume_later full (suc zero) part minutes minute cursor positive fits e enough =
      absurd (omega arith)
  consume_later zero (suc (suc rounds)) part minutes minute cursor positive fits e enough =
      let left : minutes - (hours.end_minute - minute) ≡ part = grind arith in
      consume_next (suc rounds) minutes minute cursor (grind arith)
      ∙ same_after _ zero (hours.start_minute + part) (next_working_day calendar hours cursor)
          (λ next. rw left (consume_first rounds part hours.start_minute next fits))
  consume_later (suc full) (suc (suc rounds)) part minutes minute cursor positive fits e enough =
      let left : minutes - (hours.end_minute - minute) ≡ window + full * window + part =
        grind arith in
      consume_next (suc rounds) minutes minute cursor (grind arith)
      ∙ same_after _ (suc full) (hours.start_minute + part) (next_working_day calendar hours cursor)
          (λ next.
            consume_later full (suc rounds) part (minutes - (hours.end_minute - minute))
              hours.start_minute next positive fits left (omega arith))

-- ===== src/Ticketing/Timers.antt =====
-- One tick of a timer, which sweeps the tenants one after the other and logs what one throws
-- (`runSweepOnce` of apps/api/src/modules/ticketing/automation/time-automation-sweep.service.ts
-- and sla/overdue-sweep.service.ts). `running` is the field that keeps two ticks apart.
use claude_cloud_ops_tool.Base.{
  Bool, Error, List, Option, Option-cases, Result, String, [], all, ap, err, false, if◌then◌else◌,
  inl, inr, length, none, ok, refl, some, sym, true, ℕ, ◌++◌, ◌+◌, ◌∙◌, ◌∷◌, ◌≡◌,
}
use claude_cloud_ops_tool.Ticketing.Db.{Db}
use claude_cloud_ops_tool.Ticketing.Automation.Engine.{TextOps}
use claude_cloud_ops_tool.Ticketing.Automation.Engine as Engine
use claude_cloud_ops_tool.Ticketing.Overdue.{OverdueBreach}
use claude_cloud_ops_tool.Ticketing.Overdue as Overdue

-- What a timer has after a tick: the number of its result, `running`, and the tables.
pub record Tick (S : Type 0) : Type 0 where
  pub count : ℕ
  pub running : Bool
  pub tables : S

module _ {S : Type 0} (pass : String → S → Option ℕ × S) where
  -- The loop over the tenants. A pass gives `none` if it throws.
  unfoldable pub sweep_each : List String → ℕ → S → ℕ × S
  sweep_each [] count s = (count, s)
  sweep_each (t ∷ rest) count s = elim ((pass t s).0) [
    | some n ↦ sweep_each rest (count + n) (pass t s).1
    | none ↦ sweep_each rest count (pass t s).1
  ]

  unfoldable pub run_sweep_once : Bool → List String → S → Tick S
  run_sweep_once running tenants s =
      let swept = sweep_each tenants 0 s in
      if running
      then record { count = 0; running = true; tables = s }
      else record { count = swept.0; running = false; tables = swept.1 }

  sweep_each-append :
      (before rest : List String) (count : ℕ) (s : S)
      → sweep_each (before ++ rest) count s
        ≡ sweep_each rest (sweep_each before count s).0 (sweep_each before count s).1
  unfolding sweep_each
  sweep_each-append [] rest count s = refl
  sweep_each-append (t ∷ before) rest count s = elim (Option-cases ((pass t s).0)) [
    | inl e ↦ rw (e, sweep_each) (sweep_each-append before rest count (pass t s).1)
    | inr (n, e) ↦ rw (e, sweep_each) (sweep_each-append before rest (count + n) (pass t s).1)
  ]

  sweep_each-none :
      (t : String) (rest : List String) (count : ℕ) (s : S)
      → pass t s ≡ (none, s)
      → sweep_each (t ∷ rest) count s ≡ sweep_each rest count s
  unfolding sweep_each
  sweep_each-none t rest count s e =
      ap
        (λ (p : Option ℕ × S). elim p.0 [
          | some n ↦ sweep_each rest (count + n) p.1
          | none ↦ sweep_each rest count p.1
        ])
        e

  pub run_sweep_once-skips :
      (before rest : List String) (t : String) (s : S)
      → pass t (sweep_each before 0 s).1 ≡ (none, (sweep_each before 0 s).1)
      → run_sweep_once false (before ++ t ∷ rest) s ≡ run_sweep_once false (before ++ rest) s
  unfolding run_sweep_once
  run_sweep_once-skips before rest t s e =
      let reached = sweep_each before 0 s in
      ap (λ (p : ℕ × S). record { count = p.0; running = false; tables = p.1 })
        (sweep_each-append before (t ∷ rest) 0 s
          ∙ sweep_each-none t rest reached.0 reached.1 e
          ∙ sym (sweep_each-append before rest 0 s))

-- The pass of TimeAutomationSweepService: an error rolls its transaction back.
unfoldable pub time_pass : TextOps → ℕ → String → Db → Option ℕ × Db
time_pass text now tenant db = elim (Engine.sweep_tenant text now tenant db) [
  | ok (n, db') ↦ (some n, db')
  | err e ↦ (none, db)
]

-- The pass of OverdueSweepService, given which breaches the event bus and the notifications accept: it
-- throws after its commit if one is refused.
unfoldable pub overdue_pass : (OverdueBreach → Bool) → ℕ → String → Db → Option ℕ × Db
overdue_pass accepted now tenant db = elim (Overdue.sweep_tenant now tenant db) [
  | ok (found, db') ↦ (if all accepted found then some (length found) else none, db')
  | err e ↦ (none, db)
]

time_pass-none :
    (text : TextOps) (now : ℕ) (tenant : String) (e : Error) (db : Db)
    → Engine.sweep_tenant text now tenant db ≡ err e
    → time_pass text now tenant db ≡ (none, db)
unfolding time_pass
time_pass-none text now tenant e db failed =
    ap (λ (r : Result (ℕ × Db)). elim r [ ok (n, db') ↦ (some n, db') | err c ↦ (none, db) ]) failed

-- In a tick of the timer for rules, a tenant whose sweep throws, in the tables that the tick has reached,
-- is as good as left out: the other tenants are swept as without it, and the count is theirs.
pub run_sweep_once-isolates :
    (text : TextOps) (now : ℕ) (before rest : List String) (t : String) (db : Db) (e : Error)
    → Engine.sweep_tenant text now t (sweep_each (time_pass text now) before 0 db).1 ≡ err e
    → run_sweep_once (time_pass text now) false (before ++ t ∷ rest) db
      ≡ run_sweep_once (time_pass text now) false (before ++ rest) db
run_sweep_once-isolates text now before rest t db e failed =
    run_sweep_once-skips (time_pass text now) before rest t db
      (time_pass-none text now t e (sweep_each (time_pass text now) before 0 db).1 failed)

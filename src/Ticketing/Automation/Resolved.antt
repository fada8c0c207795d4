-- ===== src/Ticketing/Automation/Resolved.antt =====
-- A ticket has a resolution time exactly while its status is a closing one: what automation does to
-- this link between `status` and `resolved_at` (automation/apply-action.ts).
use claude_cloud_ops_tool.Base.{
  >>=-eq-ok, All, All-update_where, Ensures->>=, Ensures-if, Keeps, Keeps-pure, List, String, [],
  arith, if◌then◌else◌, is_some, ok, pure, some, ℕ, ◌+◌, ◌∷◌, ◌≡◌,
}
use claude_cloud_ops_tool.Ticketing.Db.{
  Db, Ticket, Column, AutomationAction, is_ticket, AutomationRule, Trigger,
}
use claude_cloud_ops_tool.Ticketing.Automation.Engine.{
  TextOps, action_field, apply_actions, conditions_met, fire, is_closing, record_application,
  run_rules, sweep_candidates, written,
}
use claude_cloud_ops_tool.Ticketing.Automation.Keeps.{apply_actions-Keeps, run_rules-Keeps}
use claude_cloud_ops_tool.Ticketing.Automation.Effects.{Effect, same, noted, changed, tagged}

abbrev pub IsSettled : Ticket → Type 0
IsSettled t = is_closing t.status ≡ is_some t.resolved_at

-- Every ticket of every tenant.
abbrev pub AllSettled : Db → Type 0
AllSettled db = All IsSettled db.tickets

written-IsSettled :
    (now : ℕ) (action : AutomationAction) (column : Column) (t : Ticket)
    → action_field action.type ≡ some column
    → IsSettled t
    → IsSettled (written now action column t)
unfolding written action_field
written-IsSettled now action column t field h = ground arith

module _ (text : TextOps) (now : ℕ) (tenant : String) where
  Effect-AllSettled :
      (t t' : Ticket) (action : AutomationAction) (db db' : Db)
      → Effect text now tenant t action db t' db'
      → AllSettled db
      → AllSettled db'
  Effect-AllSettled t t' action db db' (same _ d) h = rw d h
  Effect-AllSettled t t' action db db' (noted m _ d) h = rw d h
  Effect-AllSettled t t' action db db' (changed column field _ _ _ d) h = rw d (
      All-update_where IsSettled (is_ticket tenant t.id) (written now action column)
        (λ x settled _. written-IsSettled now action column x field settled) db.tickets h)
  Effect-AllSettled t t' action db db' (tagged tag _ _ _ _ d) h =
      rw d
        (All-update_where IsSettled (is_ticket tenant t.id) _ (λ x settled _. settled) db.tickets h)

  -- If every ticket has a resolution time exactly while it is resolved or closed, running the rules
  -- of a trigger keeps it so, for every ticket.
  pub run_rules-AllSettled :
      (trigger : Trigger) (t : Ticket) (db : Db)
      → AllSettled db
      → (t' : Ticket) (db' : Db) → run_rules text now tenant trigger t db ≡ ok (t', db')
      → AllSettled db'
  run_rules-AllSettled trigger t db h =
      run_rules-Keeps text now tenant AllSettled Effect-AllSettled trigger t db h

  fire-AllSettled :
      (rule : AutomationRule) (t : Ticket) → Keeps AllSettled (fire text now tenant rule t)
  unfolding fire record_application
  fire-AllSettled rule t db h n db' e =
      let (q, e1, e2) = >>=-eq-ok (apply_actions text now tenant rule.actions t) _ db e in
      let kept =
        apply_actions-Keeps text now tenant AllSettled Effect-AllSettled rule.actions t db h q.0 q.1
          e1 in
      ground arith

  sweep_candidates-AllSettled :
      (rule : AutomationRule) (ts : List Ticket) (count : ℕ)
      → Keeps AllSettled (sweep_candidates text now tenant rule ts count)
  unfolding sweep_candidates
  sweep_candidates-AllSettled rule [] count = Keeps-pure AllSettled count
  sweep_candidates-AllSettled rule (t ∷ rest) count =
      Ensures->>= AllSettled
        (if conditions_met text now tenant rule.conditions t
          then fire text now tenant rule t
          else pure 0)
        (λ _. AllSettled) (λ fired. sweep_candidates text now tenant rule rest (count + fired))
        (λ _. AllSettled)
        (Ensures-if AllSettled (λ _. AllSettled) (conditions_met text now tenant rule.conditions t)
          _ _ (fire-AllSettled rule t) (Keeps-pure AllSettled 0))
        (λ fired. sweep_candidates-AllSettled rule rest (count + fired))

-- ===== src/Ticketing/Automation/Keeps.antt =====
-- An invariant that every action keeps is kept by a run of rules (automation/apply-action.ts,
-- automation/automation-rules.service.ts).
use claude_cloud_ops_tool.Base.{
  Ensures->>=, Ensures-if, Keeps, Keeps-pure, List, String, [], if◌then◌else◌, pure, ℕ, ◌∷◌,
}
use claude_cloud_ops_tool.Ticketing.Db.{AutomationAction, AutomationRule, Db, Ticket, Trigger}
use claude_cloud_ops_tool.Ticketing.Automation.Engine.{
  TextOps, active_rules, apply_action, apply_actions, conditions_met, run_each, run_rules,
}
use claude_cloud_ops_tool.Ticketing.Automation.Effects.{Effect, apply_action-Effect}

module _ (text : TextOps) (now : ℕ) (tenant : String) (I : Db → Type 0)
    (kept : (t t' : Ticket) (action : AutomationAction) (db db' : Db)
      → Effect text now tenant t action db t' db'
      → I db
      → I db') where
  pub apply_actions-Keeps :
      (actions : List AutomationAction) (t : Ticket)
      → Keeps I (apply_actions text now tenant actions t)
  unfolding apply_actions
  apply_actions-Keeps [] t = Keeps-pure I t
  apply_actions-Keeps (a ∷ rest) t =
      Ensures->>= I (apply_action text now tenant t a) (λ _. I) (apply_actions text now tenant rest)
        (λ _. I)
        (λ db h t' db' e. kept t t' a db db' (apply_action-Effect text now tenant t a db e) h)
        (apply_actions-Keeps rest)

  run_each-Keeps :
      (rules : List AutomationRule) (t : Ticket) → Keeps I (run_each text now tenant rules t)
  unfolding run_each
  run_each-Keeps [] t = Keeps-pure I t
  run_each-Keeps (r ∷ rest) t =
      Ensures->>= I
        (if conditions_met text now tenant r.conditions t
          then apply_actions text now tenant r.actions t
          else pure t)
        (λ _. I) (run_each text now tenant rest) (λ _. I)
        (Ensures-if I (λ _. I) (conditions_met text now tenant r.conditions t) _ _
          (apply_actions-Keeps r.actions t) (Keeps-pure I t))
        (run_each-Keeps rest)

  pub run_rules-Keeps :
      (trigger : Trigger) (t : Ticket) → Keeps I (run_rules text now tenant trigger t)
  unfolding run_rules
  run_rules-Keeps trigger t db h = run_each-Keeps (active_rules text now tenant trigger db) t db h

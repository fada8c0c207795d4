-- ===== src/Monitoring/Alerting/Service.antt =====
-- The transaction of `AlertEvaluationService` (apps/api/src/modules/monitoring/
-- alert-evaluation.service.ts) and what follows its commit. The SELECTs of a transaction may see older
-- tables than its UPDATE and INSERT meet, so it reads a snapshot and changes the current tables.
use claude_cloud_ops_tool.Base.{
  Bool, List, Option, String, Tx, [], any, err, find, if◌then◌else◌, is_some, modify, nat_eq, none,
  not, ok, option_eq, pure, some, string_eq, throw, true, update_where, ℕ, ◌%◌, ◌&&◌, ◌++◌, ◌+◌,
  ◌==◌, ◌>>=◌, ◌>>◌, ◌∷◌,
}
use claude_cloud_ops_tool.Monitoring.Metrics.{Double}
use claude_cloud_ops_tool.Monitoring.Alerting.{
  CheckStatus, up, opened, resolved, Alert, is_open_alert, AlertRule, Check, Db, status_eq,
}
use claude_cloud_ops_tool.Monitoring.Alerting.Evaluate.{
  EvaluatedMonitor, EvaluationOutcome, history, judge, quorum_reached, is_status_rule, update_alert,
  repeat_note_every, no_rule, not_bad, not_yet_due, lost_race, awaiting_location_quorum, repeated,
  recovered, created,
}

-- What the service does after the commit, in order. A note's wording is left out.
pub data Effect : Type 0 where
  publish_alert_created : (alert_id monitor_id : String) → Effect
  open_ticket : (alert_id resource_id : String) → Effect
  post_repeat_note : (ticket_id : String) → Effect
  post_recovery_note : (ticket_id : String) → Effect
  generate_narrative : (alert_id : String) → Effect

module _ (d : Double) (now : ℕ) (new_id : String) (monitor : EvaluatedMonitor) where
  -- `if (!isBad) { … }`
  unfoldable pub on_good : AlertRule d → CheckStatus → Option Alert → Tx (Db d) EvaluationOutcome
  on_good rule status none = pure not_bad
  on_good rule status (some a) =
      if (if is_status_rule rule.rule_kind then status == up else true)
      then (do
        modify (update_alert d a.id (λ x. record x { status = resolved; resolved_at = some now }))
        pure (recovered a.ticket_id))
      else pure not_bad

  abbrev pub new_alert : AlertRule d → Alert
  new_alert rule = record {
    id = new_id;
    monitor_id = some monitor.id;
    alert_rule_id = some rule.id;
    severity = rule.severity;
    status = opened;
    ticket_id = none;
    repeat_count = 0;
    escalated_steps = 0;
    opened_at = now;
    last_seen_at = now;
    acknowledged_at = none;
    resolved_at = none;
  }

  -- INSERT INTO alerts under the index `idx_alerts_one_active_per_monitor`, whose violation is caught.
  unfoldable pub insert_alert : AlertRule d → Tx (Db d) EvaluationOutcome
  insert_alert rule db =
      if any (is_open_alert monitor.id) db.alerts
      then ok (lost_race, db)
      else ok (created new_id, record db { alerts = db.alerts ++ new_alert rule ∷ [] })

  -- The rest of the transaction, for a bad check.
  unfoldable pub on_bad :
      AlertRule d → List (Check d) → Bool → Option Alert → Tx (Db d) EvaluationOutcome
  on_bad rule checks threshold_reached (some a) = do
    let new_repeat_count = a.repeat_count + 1
    modify (
        update_alert d a.id (λ x. record x { repeat_count = new_repeat_count; last_seen_at = now }))
    pure (repeated a.ticket_id (is_some a.ticket_id && new_repeat_count % repeat_note_every == 0))
  on_bad rule checks threshold_reached none =
      if not threshold_reached
      then pure not_yet_due
      else if is_status_rule rule.rule_kind && not (quorum_reached d rule monitor checks)
      then pure awaiting_location_quorum
      else insert_alert rule

  unfoldable pub enabled_rule : Db d → Option (AlertRule d)
  enabled_rule db = find (λ r. r.monitor_id == monitor.id && r.is_enabled) db.rules

  unfoldable pub by_rule : Db d → CheckStatus → AlertRule d → Tx (Db d) EvaluationOutcome
  by_rule snapshot status rule =
      let checks = history d monitor.id snapshot in
      let open_alert = find (is_open_alert monitor.id) snapshot.alerts in
      elim (judge d rule monitor status checks) [
        | err e ↦ throw e
        | ok ev ↦
            if ev.is_bad
            then on_bad rule checks ev.threshold_reached open_alert
            else on_good rule status open_alert
      ]

  -- `applyToDatabase`
  unfoldable pub apply_to_database : Db d → CheckStatus → Tx (Db d) EvaluationOutcome
  apply_to_database snapshot status = elim (enabled_rule snapshot) [
    | none ↦ pure no_rule
    | some rule ↦ by_rule snapshot status rule
  ]

  -- The switch of `evaluate`.
  unfoldable pub after_commit : EvaluationOutcome → List Effect
  after_commit (created alert) =
      publish_alert_created alert monitor.id
      ∷ open_ticket alert monitor.resource_id
      ∷ generate_narrative alert
      ∷ []
  after_commit (repeated (some ticket) true) = post_repeat_note ticket ∷ []
  after_commit (recovered (some ticket)) = post_recovery_note ticket ∷ []
  after_commit _ = []

  -- `evaluate`: the tables and what is sent.
  unfoldable pub evaluate : Db d → CheckStatus → Tx (Db d) (List Effect)
  unfolding after_commit
  evaluate snapshot status = do
    outcome ← apply_to_database snapshot status
    pure (after_commit outcome)

  -- The UPDATE of `linkTicket`: a ticket that the alert already has stays.
  unfoldable pub link_ticket : String → String → Db d → Db d
  link_ticket alert ticket db = record db {
    alerts =
        update_where (λ a. a.id == alert && not (is_some a.ticket_id))
          (λ a. record a { ticket_id = some ticket }) db.alerts;
  }

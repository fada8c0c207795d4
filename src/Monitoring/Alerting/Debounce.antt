-- ===== src/Monitoring/Alerting/Debounce.antt =====
-- When an alert opens, and when it does not (apps/api/src/modules/monitoring/
-- alert-evaluation.service.ts).
use claude_cloud_ops_tool.Base.{
  Bool, List, Option, Option-cases, String, [], all, ap, arith, contains, false, find,
  if◌then◌else◌, inl, inr, length, map, nat_eq, none, ok, option_eq, refl, some, string_eq, sym,
  take, true, update_where, ℕ, ◌<◌, ◌==◌, ◌↔◌, ◌∙◌, ◌∷◌, ◌≡◌, ◌≤◌,
}
use claude_cloud_ops_tool.Monitoring.Metrics.{Double}
use claude_cloud_ops_tool.Monitoring.Alerting.{
  CheckStatus, is_open_alert, RuleKind, AlertRule, Db, status_eq, Alert, up, resolved,
}
use claude_cloud_ops_tool.Monitoring.Alerting.Evaluate.{
  EvaluatedMonitor, history, judge, quorum_reached, recent_checks_fail, failing_locations,
  is_bad_check, created, recovered, update_alert,
}
use claude_cloud_ops_tool.Monitoring.Alerting.Service.{
  on_good, on_bad, insert_alert, by_rule, apply_to_database, enabled_rule,
}

update_where-map :
    (p : Alert → Bool) (f : Alert → Alert) (xs : List Alert)
    → update_where p f xs ≡ map (λ x. if p x then f x else x) xs
update_where-map p f [] = refl
update_where-map p f (x ∷ xs) = ap (λ l. (if p x then f x else x) ∷ l) (update_where-map p f xs)

module _ (d : Double) (now : ℕ) (new_id : String) (monitor : EvaluatedMonitor) where
  -- Why a status rule may open an alert, in terms of the tables that were read.
  pub record IsDue (snapshot : Db d) (status : CheckStatus) (rule : AlertRule d) : Type 0 where
    pub none_open : find (is_open_alert monitor.id) snapshot.alerts ≡ none
    pub bad_now : contains rule.status_in status ≡ true
    pub enough_checks :
        length (take monitor.consecutive_failures_to_alert (history d monitor.id snapshot))
        ≡ monitor.consecutive_failures_to_alert
    pub all_bad :
        all
          (is_bad_check d rule)
          (take monitor.consecutive_failures_to_alert (history d monitor.id snapshot))
        ≡ true
    pub enough_locations :
        (k : ℕ)
        → monitor.min_failing_locations ≡ some k
        → 1 < k
        → k ≤ failing_locations d rule (history d monitor.id snapshot)

  by_rule-IsDue :
      (snapshot : Db d) (status : CheckStatus) (rule : AlertRule d) (db db' : Db d) (id : String)
      → rule.rule_kind ≡ RuleKind.status
      → by_rule d now new_id monitor snapshot status rule db ≡ ok (created id, db')
      → IsDue snapshot status rule
  unfolding by_rule judge on_bad on_good insert_alert recent_checks_fail quorum_reached
  by_rule-IsDue snapshot status rule db db' id kind e = record {
    none_open = ground arith;
    bad_now = ground arith;
    enough_checks = ground arith;
    all_bad = ground arith;
    enough_locations = λ k min more. ground arith;
  }

  -- An alert that a status rule opens is due: the monitor had no active alert, the check is bad, the
  -- last N recorded checks exist and are all bad (N the monitor's `consecutive_failures_to_alert`),
  -- and at least as many locations fail as it asks for, if it asks for more than one.
  pub apply_to_database-IsDue :
      (snapshot : Db d) (status : CheckStatus) (db db' : Db d) (id : String) (rule : AlertRule d)
      → enabled_rule d now new_id monitor snapshot ≡ some rule
      → rule.rule_kind ≡ RuleKind.status
      → apply_to_database d now new_id monitor snapshot status db ≡ ok (created id, db')
      → IsDue snapshot status rule
  unfolding apply_to_database
  apply_to_database-IsDue snapshot status db db' id rule found kind e =
      by_rule-IsDue snapshot status rule db db' id kind (rw (found, apply_to_database) at e)

  -- The row of an alert that has recovered.
  abbrev pub resolved_row : Alert → Alert
  resolved_row x = record x { status = resolved; resolved_at = some now }

  -- A status rule answers that an alert has recovered exactly on an `up` that the rule does not count as
  -- bad, while an alert of the monitor is active; the ticket is that of this alert, and the alert's rows
  -- are resolved at that instant, while every other row and table stays as it was.
  pub apply_to_database-recovered_iff :
      (snapshot : Db d) (status : CheckStatus) (db : Db d) (rule : AlertRule d)
      (ticket : Option String) (db' : Db d)
      → enabled_rule d now new_id monitor snapshot ≡ some rule
      → rule.rule_kind ≡ RuleKind.status
      → (apply_to_database d now new_id monitor snapshot status db ≡ ok (recovered ticket, db')) ↔ (
          (a : Alert) × (find (is_open_alert monitor.id) snapshot.alerts ≡ some a)
          × (contains rule.status_in status ≡ false)
          × (status ≡ up)
          × (ticket ≡ a.ticket_id)
          × (db' ≡ record db {
            alerts = map (λ x. if x.id == a.id then resolved_row x else x) db.alerts;
          }))
  unfolding apply_to_database by_rule judge on_bad on_good insert_alert
  apply_to_database-recovered_iff snapshot status db rule ticket db' found kind = (
    λ e. elim (Option-cases (find (is_open_alert monitor.id) snapshot.alerts)) [
      | inl absent ↦ absurd (ground arith)
      | inr (a, active) ↦
          let rows : db' ≡ update_alert d a.id resolved_row db = ground arith in
          (
            a,
            active,
            ground arith,
            ground arith,
            ground arith,
            rows
                ∙ ap (λ (l : List Alert). record db { alerts = l })
                    (update_where-map (λ x. x.id == a.id) resolved_row db.alerts),
          )
    ],
    λ h.
        let (a, active, good, is_up, same, rows) = h in
        let done : apply_to_database d now new_id monitor snapshot status db
            ≡ ok (recovered a.ticket_id, update_alert d a.id resolved_row db) =
          ground arith in
        let back : db' ≡ update_alert d a.id resolved_row db =
          rows
          ∙ ap (λ (l : List Alert). record db { alerts = l })
              (sym (update_where-map (λ x. x.id == a.id) resolved_row db.alerts)) in
        rw (same, back) done,
  )

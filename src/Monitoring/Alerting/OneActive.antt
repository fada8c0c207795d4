-- ===== src/Monitoring/Alerting/OneActive.antt =====
-- The number of active alerts of a monitor under an evaluation (apps/api/src/modules/monitoring/
-- alert-evaluation.service.ts).
use claude_cloud_ops_tool.Base.{
  Bool, Ensures-if, Keeps, Keeps-pure, List, Option, Option-cases, Result, String, [], any, ap,
  arith, err, false, filter, find, if◌then◌else◌, inl, inr, length, nat_eq, none, not, ok,
  option_eq, refl, some, str_iff, string_eq, true, update_where, ℕ, ◌&&◌, ◌++◌, ◌+◌, ◌==◌, ◌∷◌, ◌≡◌,
  ◌≤◌,
}
use claude_cloud_ops_tool.Monitoring.Metrics.{Double}
use claude_cloud_ops_tool.Monitoring.Alerting.{
  CheckStatus, resolved, Alert, is_open_alert, AlertRule, Check, Db, status_eq,
}
use claude_cloud_ops_tool.Monitoring.Alerting.Evaluate.{
  EvaluatedMonitor, history, judge, MetricEvaluation, not_yet_due, is_status_rule, quorum_reached,
  awaiting_location_quorum, EvaluationOutcome,
}
use claude_cloud_ops_tool.Monitoring.Alerting.Service.{
  on_good, on_bad, insert_alert, enabled_rule, by_rule, apply_to_database, new_alert,
}

abbrev pub active_count : String → List Alert → ℕ
active_count monitor alerts = length (filter (is_open_alert monitor) alerts)

module _ (d : Double) where
  abbrev pub OneActive : Db d → Type 0
  OneActive db = (monitor : String) → active_count monitor db.alerts ≤ 1

active_count-update_where :
    (m : String) (p : Alert → Bool) (f : Alert → Alert)
    → ((a : Alert) → is_open_alert m (f a) ≡ true → is_open_alert m a ≡ true)
    → (alerts : List Alert) → active_count m (update_where p f alerts) ≤ active_count m alerts
active_count-update_where m p f keep [] = omega arith
active_count-update_where m p f keep (a ∷ rest) =
    ground (arith, keep a, active_count-update_where m p f keep rest)

active_count-none :
    (m : String) (alerts : List Alert)
    → any (is_open_alert m) alerts ≡ false
    → active_count m alerts ≡ 0
active_count-none m [] h = refl
active_count-none m (a ∷ rest) h = ground (arith, active_count-none m rest)

active_count-append :
    (m : String) (alerts : List Alert) (a : Alert)
    → active_count m (alerts ++ a ∷ [])
      ≡ active_count m alerts + (if is_open_alert m a then 1 else 0)
active_count-append m [] a = ground arith
active_count-append m (b ∷ rest) a = ground (arith, active_count-append m rest a)

module _ (d : Double) (now : ℕ) (new_id : String) (monitor : EvaluatedMonitor) where
  on_good-OneActive :
      (rule : AlertRule d) (status : CheckStatus) (o : Option Alert)
      → Keeps (OneActive d) (on_good d now new_id monitor rule status o)
  unfolding on_good
  on_good-OneActive rule status none db h out db' e m = ground (arith, h m)
  on_good-OneActive rule status (some a) db h out db' e m = ground (
    arith,
    h m,
    active_count-update_where m (λ x. x.id == a.id)
        (λ x. record x { status = resolved; resolved_at = some now }) (λ x k. ground arith)
        db.alerts,
  )

  insert_alert-OneActive :
      (rule : AlertRule d) → Keeps (OneActive d) (insert_alert d now new_id monitor rule)
  unfolding insert_alert
  insert_alert-OneActive rule db h out db' e m = ground (
    arith,
    h m,
    str_iff monitor.id m,
    active_count-none m db.alerts,
    active_count-append m db.alerts (new_alert d now new_id monitor rule),
    same_monitor,
  )
    where
      same_monitor :
          monitor.id ≡ m
          → any (is_open_alert monitor.id) db.alerts ≡ any (is_open_alert m) db.alerts
      same_monitor s = ap (λ k. any (is_open_alert k) db.alerts) s

  on_bad-OneActive :
      (rule : AlertRule d) (checks : List (Check d)) (reached : Bool) (o : Option Alert)
      → Keeps (OneActive d) (on_bad d now new_id monitor rule checks reached o)
  unfolding on_bad
  on_bad-OneActive rule checks reached (some a) db h out db' e m = ground (
    arith,
    h m,
    active_count-update_where m (λ x. x.id == a.id)
        (λ x. record x { repeat_count = a.repeat_count + 1; last_seen_at = now }) (λ x k. k)
        db.alerts,
  )
  on_bad-OneActive rule checks reached none db h out db' e m =
      Ensures-if (OneActive d) (λ _. OneActive d) (not reached) _ _
        (Keeps-pure (OneActive d) not_yet_due)
        (Ensures-if (OneActive d) (λ _. OneActive d)
          (is_status_rule rule.rule_kind && not (quorum_reached d rule monitor checks)) _ _
          (Keeps-pure (OneActive d) awaiting_location_quorum) (insert_alert-OneActive rule))
        db h out db' e m

  by_rule-OneActive :
      (snapshot : Db d) (status : CheckStatus) (rule : AlertRule d)
      → Keeps (OneActive d) (by_rule d now new_id monitor snapshot status rule)
  unfolding by_rule
  by_rule-OneActive snapshot status rule db h out db' e =
      split (judge d rule monitor status (history d monitor.id snapshot)) refl
    where
      split :
          (r : Result MetricEvaluation)
          → judge d rule monitor status (history d monitor.id snapshot) ≡ r
          → OneActive d db'
      split (err c) j = absurd (ground arith)
      split (ok ev) j =
          Ensures-if (OneActive d) (λ _. OneActive d) ev.is_bad _ _
            (on_bad-OneActive rule (history d monitor.id snapshot) ev.threshold_reached
              (find (is_open_alert monitor.id) snapshot.alerts))
            (on_good-OneActive rule status (find (is_open_alert monitor.id) snapshot.alerts)) db h
            out db' (rw (j, by_rule) at e)

  -- If each monitor has at most one active alert, an evaluation keeps it so, even if the tables that
  -- it has read are older than those that it changes.
  pub apply_to_database-OneActive :
      (snapshot : Db d) (status : CheckStatus) (db : Db d)
      → OneActive d db
      → (out : EvaluationOutcome) (db' : Db d)
      → apply_to_database d now new_id monitor snapshot status db ≡ ok (out, db')
      → OneActive d db'
  unfolding apply_to_database
  apply_to_database-OneActive snapshot status db h out db' e =
      elim (Option-cases (enabled_rule d now new_id monitor snapshot)) [
        | inl missing ↦ λ m. ground (arith, h m)
        | inr (rule, found) ↦
            by_rule-OneActive snapshot status rule db h out db' (rw (found, apply_to_database) at e)
      ]

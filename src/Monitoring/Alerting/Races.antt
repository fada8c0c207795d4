-- ===== src/Monitoring/Alerting/Races.antt =====
-- Two evaluations of one monitor at the same time (apps/api/src/modules/monitoring/
-- alert-evaluation.service.ts).
use claude_cloud_ops_tool.Base.{
  ==_refl, Bool, Option-cases, String, any, any-append_new, any-of_find-none, arith, false, inl,
  inr, nat_eq, ok, option_eq, string_eq, true, ℕ, ◌≡◌, ◌≢◌,
}
use claude_cloud_ops_tool.Monitoring.Metrics.{Double}
use claude_cloud_ops_tool.Monitoring.Alerting.{CheckStatus, is_open_alert, AlertRule, Db}
use claude_cloud_ops_tool.Monitoring.Alerting.Evaluate.{EvaluatedMonitor, created, lost_race}
use claude_cloud_ops_tool.Monitoring.Alerting.Service.{
  on_good, on_bad, insert_alert, by_rule, apply_to_database, new_alert, enabled_rule,
}

module _ (d : Double) (now : ℕ) (new_id : String) (monitor : EvaluatedMonitor) where
  abbrev has_active : Db d → Bool
  has_active db = any (is_open_alert monitor.id) db.alerts

  -- Opening an alert needs that none is active, and leaves one active.
  abbrev OpensOnce : Db d → Db d → Type 0
  OpensOnce db db' = (has_active db ≡ false) × (has_active db' ≡ true)

  insert_alert-OpensOnce :
      (rule : AlertRule d) (db db' : Db d) (id : String)
      → insert_alert d now new_id monitor rule db ≡ ok (created id, db')
      → OpensOnce db db'
  unfolding insert_alert
  insert_alert-OpensOnce rule db db' id e = ground (
    arith,
    ==_refl monitor.id,
    any-append_new (is_open_alert monitor.id) db.alerts (new_alert d now new_id monitor rule),
  )

  by_rule-OpensOnce :
      (snapshot : Db d) (status : CheckStatus) (rule : AlertRule d) (db db' : Db d) (id : String)
      → by_rule d now new_id monitor snapshot status rule db ≡ ok (created id, db')
      → OpensOnce db db'
  unfolding by_rule on_bad on_good
  by_rule-OpensOnce snapshot status rule db db' id e =
      ground (arith, insert_alert-OpensOnce rule db db' id)

  created-OpensOnce :
      (snapshot : Db d) (status : CheckStatus) (db db' : Db d) (id : String)
      → apply_to_database d now new_id monitor snapshot status db ≡ ok (created id, db')
      → OpensOnce db db'
  unfolding apply_to_database
  created-OpensOnce snapshot status db db' id e =
      elim (Option-cases (enabled_rule d now new_id monitor snapshot)) [
        | inl missing ↦ absurd (ground arith)
        | inr (rule, found) ↦
            by_rule-OpensOnce snapshot status rule db db' id (rw (found, apply_to_database) at e)
      ]

  by_rule_serial :
      (status : CheckStatus) (rule : AlertRule d) (db db' : Db d)
      → by_rule d now new_id monitor db status rule db ≢ ok (lost_race, db')
  unfolding by_rule on_bad on_good insert_alert
  by_rule_serial status rule db db' e =
      ground (arith, any-of_find-none (is_open_alert monitor.id) db.alerts)

  -- An evaluation that nothing interrupts, which changes the tables that it has read, never loses the
  -- race for the index.
  pub apply_to_database_serial :
      (status : CheckStatus) (db db' : Db d)
      → apply_to_database d now new_id monitor db status db ≢ ok (lost_race, db')
  unfolding apply_to_database
  apply_to_database_serial status db db' e =
      elim (Option-cases (enabled_rule d now new_id monitor db)) [
        | inl missing ↦ absurd (ground arith)
        | inr (rule, found) ↦ by_rule_serial status rule db db' (rw (found, apply_to_database) at e)
      ]

-- Of two evaluations of one monitor, whatever tables each has read, the second does not open an
-- alert if the first, whose tables it changes next, has opened one.
pub apply_to_database-created_once :
    (d : Double) (monitor : EvaluatedMonitor) (now1 now2 : ℕ) (id1 id2 : String)
    (seen1 seen2 : Db d) (status1 status2 : CheckStatus) (db db1 db2 : Db d) (a1 a2 : String)
    → apply_to_database d now1 id1 monitor seen1 status1 db ≡ ok (created a1, db1)
    → apply_to_database d now2 id2 monitor seen2 status2 db1 ≢ ok (created a2, db2)
apply_to_database-created_once d monitor now1 now2 id1 id2 seen1 seen2 s1 s2 db db1 db2 a1 a2 e f =
    let first = (created-OpensOnce d now1 id1 monitor seen1 s1 db db1 a1 e).1 in
    let second = (created-OpensOnce d now2 id2 monitor seen2 s2 db1 db2 a2 f).0 in cc

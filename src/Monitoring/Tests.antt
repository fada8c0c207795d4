-- ===== src/Monitoring/Tests.antt =====
-- The alert service on a small table: two failed checks of one monitor, and an alert by hand.
use claude_cloud_ops_tool.Base.{
  All, List, Option, String, [], arith, contains, false, find, if◌then◌else◌, length, ltb, map,
  nat_eq, none, ok, option_eq, refl, some, string_eq, true, ℕ, ◌*◌, ◌+◌, ◌-◌, ◌/◌, ◌==◌, ◌↔◌, ◌∷◌,
  ◌≡◌, ◌≢◌,
}
use claude_cloud_ops_tool.Monitoring.Metrics.{Double, gt}
use claude_cloud_ops_tool.Monitoring.Alerting.{
  status_eq, Alert, AlertRule, AlertStatus, Check, Db, RuleKind, Severity, acknowledged, critical,
  down, is_open_alert, opened, resolved, up,
}
use claude_cloud_ops_tool.Monitoring.Alerting.Evaluate.{
  EvaluatedMonitor, created, failing_locations, judge, lost_race, newest_per_location,
  quorum_reached, recent_checks_fail, recovered,
}
use claude_cloud_ops_tool.Monitoring.Alerting.Service.{
  Effect, post_repeat_note, apply_to_database, by_rule, enabled_rule, insert_alert, on_bad,
}
use claude_cloud_ops_tool.Monitoring.Alerting.Debounce.{
  apply_to_database-IsDue, apply_to_database-recovered_iff, resolved_row, IsDue,
}
use claude_cloud_ops_tool.Monitoring.Alerting.Repeats.{Round, evaluate_all, evaluate_all-notes}
use claude_cloud_ops_tool.Monitoring.Alerting.OneActive.{OneActive, apply_to_database-OneActive}
use claude_cloud_ops_tool.Monitoring.Alerting.Races.{apply_to_database-created_once}
use claude_cloud_ops_tool.Monitoring.Lifecycle.{acknowledge, resolve}
use claude_cloud_ops_tool.Monitoring.Lifecycle.Order.{
  Advances, acknowledge-Advances, acknowledge-revives_resolved,
}
use claude_cloud_ops_tool.Monitoring.Escalation.{
  EscalationStep, PendingEscalation, Policies, join, is_selected, sweep_tenant,
}
use claude_cloud_ops_tool.Monitoring.Escalation.Steps.{sweep_tenant-fires}

-- Whole numbers in the place of doubles.
abbrev pub whole : Double
whole = record {
  Num = ℕ;
  of_ℕ = λ n. n;
  add = λ a b. a + b;
  sub = λ a b. a - b;
  mul = λ a b. a * b;
  div = λ a b. a;
  sqrt = λ a. a;
  abs = λ a. a;
  less = ltb;
  same = λ a b. a == b;
}

abbrev site : EvaluatedMonitor
site = record {
  id = "m1";
  resource_id = "r1";
  consecutive_failures_to_alert = 2;
  min_failing_locations = some 2;
}

abbrev down_rule : AlertRule whole
down_rule = record {
  id = "rule1";
  monitor_id = "m1";
  is_enabled = true;
  rule_kind = RuleKind.status;
  status_in = down ∷ critical ∷ [];
  severity = Severity.critical;
  metric = "response_time_ms";
  comparator = gt;
  limit = 0;
  for_consecutive = 1;
  anomaly_sensitivity = 3;
  escalation_policy_id = some "p1";
}

abbrev failed_at : String → Check whole
failed_at location = record {
  monitor_id = "m1";
  status = down;
  location = location;
  value = λ _. none;
}

abbrev before : Db whole
before = record {
  rules = down_rule ∷ [];
  checks = failed_at "fra" ∷ failed_at "sin" ∷ [];
  alerts = [];
}

abbrev raised : ℕ → AlertStatus → Option ℕ → Option ℕ → Alert
raised repeats s acked done = record {
  id = "a1";
  monitor_id = some "m1";
  alert_rule_id = some "rule1";
  severity = Severity.critical;
  status = s;
  ticket_id = none;
  repeat_count = repeats;
  escalated_steps = 0;
  opened_at = 100;
  last_seen_at = 100;
  acknowledged_at = acked;
  resolved_at = done;
}

abbrev with_alert : Alert → Db whole
with_alert a = record before { alerts = a ∷ [] }

abbrev after : Db whole
after = with_alert (raised 0 opened none none)

opens : apply_to_database whole 100 "a1" site before down before ≡ ok (created "a1", after)
unfolding apply_to_database by_rule enabled_rule judge recent_checks_fail on_bad quorum_reached
    failing_locations newest_per_location insert_alert
opens = refl

none_active : OneActive whole before
none_active m = ground arith

apply_to_database-OneActive_example : OneActive whole after
apply_to_database-OneActive_example =
    apply_to_database-OneActive whole 100 "a1" site before down before none_active (created "a1")
      after opens

enabled_in_before : enabled_rule whole 100 "a1" site before ≡ some down_rule
unfolding enabled_rule
enabled_in_before = refl

enabled_in_after : enabled_rule whole 200 "a2" site after ≡ some down_rule
unfolding enabled_rule
enabled_in_after = refl

apply_to_database-IsDue_example : IsDue whole 100 "a1" site before down down_rule
apply_to_database-IsDue_example =
    apply_to_database-IsDue whole 100 "a1" site before down before after "a1" down_rule
      enabled_in_before refl opens

apply_to_database-recovered_iff_example :
    (apply_to_database whole 200 "a2" site after up after
      ≡ ok (recovered none, with_alert (raised 0 resolved none (some 200))))
    ↔ ((a : Alert) × (find (is_open_alert "m1") after.alerts ≡ some a)
        × (contains (down ∷ critical ∷ []) up ≡ false)
        × (up ≡ up)
        × (none ≡ a.ticket_id)
        × (with_alert (raised 0 resolved none (some 200)) ≡ record after {
          alerts =
              map
                (λ x. if x.id == a.id then resolved_row whole 200 "a2" site x else x)
                after.alerts;
        }))
apply_to_database-recovered_iff_example =
    apply_to_database-recovered_iff whole 200 "a2" site after up after down_rule none
      (with_alert (raised 0 resolved none (some 200))) enabled_in_after refl

abbrev linked_alert : Alert
linked_alert = record (raised 3 opened none none) { ticket_id = some "x1" }

abbrev failing : ℕ → Round whole
failing now = record { now = now; new_id = "a2"; status = down; checks = before.checks }

abbrev failures : List (Round whole)
failures = failing 200 ∷ failing 210 ∷ failing 220 ∷ []

evaluate_all-notes_example :
    (sent : List Effect) × (db' : Db whole) × (b : Alert) × (evaluate_all whole site failures
        (with_alert linked_alert)
      ≡ ok (sent, db'))
    × All (λ s. s ≡ post_repeat_note "x1") sent
    × (length sent + 3 / 5 ≡ (3 + length failures) / 5)
    × (find (is_open_alert "m1") db'.alerts ≡ some b)
    × (b.id ≡ "a1")
    × (b.repeat_count ≡ 3 + length failures)
    × (length db'.alerts ≡ 1)
evaluate_all-notes_example =
    evaluate_all-notes whole site down_rule failures (with_alert linked_alert) linked_alert "x1"
      refl refl refl refl (refl, (refl, (refl, tt)))

apply_to_database-created_once_example :
    apply_to_database whole 101 "a2" site before down after ≢ ok (created "a2", after)
apply_to_database-created_once_example =
    apply_to_database-created_once whole site 100 101 "a1" "a2" before before down down before after
      after "a1" "a2" opens

-- The second evaluation does meet the index when it read the tables before the first had written.
loses : apply_to_database whole 101 "a2" site before down after ≡ ok (lost_race, after)
unfolding apply_to_database by_rule enabled_rule judge recent_checks_fail on_bad quorum_reached
    failing_locations newest_per_location insert_alert
loses = refl

acknowledges :
    acknowledge whole 150 after "a1" after
    ≡ ok (
      some (raised 0 acknowledged (some 150) none),
      with_alert (raised 0 acknowledged (some 150) none),
    )
unfolding acknowledge
acknowledges = refl

acknowledge-Advances_example :
    Advances after.alerts (with_alert (raised 0 acknowledged (some 150) none)).alerts
acknowledge-Advances_example =
    acknowledge-Advances whole 150 "a1" after (with_alert (raised 0 acknowledged (some 150) none))
      (some (raised 0 acknowledged (some 150) none)) (tt, tt) acknowledges

resolves :
    resolve whole 150 after "a1" after
    ≡ ok (some (raised 0 resolved none (some 150)), with_alert (raised 0 resolved none (some 150)))
unfolding resolve
resolves = refl

acknowledge-revives_resolved_example :
    (c : Alert) × (db2 : Db whole) × (acknowledge whole 160 after "a1"
        (with_alert (raised 0 resolved none (some 150)))
      ≡ ok (some c, db2))
    × (resolved ≡ resolved)
    × (c.status ≡ acknowledged)
    × (find (λ a. a.id == "a1") db2.alerts ≡ some c)
acknowledge-revives_resolved_example =
    acknowledge-revives_resolved whole 150 160 "a1" after
      (with_alert (raised 0 resolved none (some 150))) (raised 0 opened none none)
      (raised 0 resolved none (some 150)) refl refl resolves

abbrev page : EscalationStep
page = record { delay_minutes = 0; notify = record { channel = "sms"; recipient = "ann" } ∷ [] }

abbrev policies : Policies whole
policies = record {
  rules = down_rule ∷ [];
  policies = record { id = "p1"; steps = page ∷ [] } ∷ [];
  monitors = record { id = "m1"; name = "shop" } ∷ [];
}

abbrev first_page : PendingEscalation
first_page = record { alert_id = "a1"; monitor_name = "shop"; step = page; step_number = 0 }

abbrev paged : Alert
paged = record (raised 0 opened none none) { escalated_steps = 1 }

sweep_tenant-fires_example :
    sweep_tenant whole 500 policies after.alerts ≡ ok (first_page ∷ [], paged ∷ [])
unfolding join is_selected
sweep_tenant-fires_example = sweep_tenant-fires 500 whole policies after.alerts (tt, tt)

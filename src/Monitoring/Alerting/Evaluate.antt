-- ===== src/Monitoring/Alerting/Evaluate.antt =====
-- `AlertEvaluationService` (apps/api/src/modules/monitoring/alert-evaluation.service.ts): one recorded
-- check, and what it does to the monitor's alert. The query that a transaction starts with may see
-- older tables than its INSERT meets: `apply_to_database` reads a snapshot and writes the tables.
use claude_cloud_ops_tool.Base.{
  Bool, List, Option, Result, String, [], all, contains, db_error, default_to, drop, err, false,
  filter, if◌then◌else◌, leb, length, ltb, map, nat_eq, none, ok, option_eq, some, string_eq, take,
  true, update_where, ℕ, ◌&&◌, ◌+◌, ◌==◌, ◌∷◌,
}
use claude_cloud_ops_tool.Monitoring.Metrics.{Double, compare_metric, is_metric_anomaly}
use claude_cloud_ops_tool.Monitoring.Alerting.{
  CheckStatus, Alert, RuleKind, AlertRule, Check, Db, status_eq,
}

abbrev pub anomaly_baseline_window : ℕ
anomaly_baseline_window = 30

abbrev pub repeat_note_every : ℕ
repeat_note_every = 5

abbrev pub known_metrics : List String
known_metrics =
    "response_time_ms" ∷ "cpu_percent" ∷ "mem_percent" ∷ "disk_percent" ∷ "cloud_metric_value" ∷ []

pub record EvaluatedMonitor : Type 0 where
  pub id : String
  pub resource_id : String
  pub consecutive_failures_to_alert : ℕ
  pub min_failing_locations : Option ℕ

pub record MetricEvaluation : Type 0 where
  pub is_bad : Bool
  pub threshold_reached : Bool

-- `noted` says whether `noteBody` is set.
pub data EvaluationOutcome : Type 0 where
  no_rule not_bad not_yet_due lost_race awaiting_location_quorum : EvaluationOutcome
  repeated : (ticket_id : Option String) (noted : Bool) → EvaluationOutcome
  recovered : (ticket_id : Option String) → EvaluationOutcome
  created : (alert_id : String) → EvaluationOutcome

abbrev pub is_status_rule : RuleKind → Bool
is_status_rule RuleKind.status = true
is_status_rule _ = false

module _ (d : Double) where
  abbrev pub history : String → Db d → List (Check d)
  history monitor db = filter (λ c. c.monitor_id == monitor) db.checks

  abbrev holds_value : (d.Num → Bool) → Option d.Num → Bool
  holds_value p none = false
  holds_value p (some v) = p v

  abbrev present : List (Option d.Num) → List d.Num
  present [] = []
  present (none ∷ vs) = present vs
  present (some v ∷ vs) = v ∷ present vs

  abbrev head_holds : (d.Num → Bool) → List d.Num → Bool
  head_holds p [] = false
  head_holds p (v ∷ vs) = p v

  abbrev first_value : List (Option d.Num) → Option d.Num
  first_value [] = none
  first_value (v ∷ vs) = v

  unfoldable pub threshold_evaluation : AlertRule d → List (Check d) → MetricEvaluation
  threshold_evaluation rule checks =
      let values = map (λ c. c.value rule.metric) (take rule.for_consecutive checks) in
      let over = holds_value (λ v. compare_metric d v rule.comparator rule.limit) in
      record {
        is_bad = over (first_value values);
        threshold_reached = length values == rule.for_consecutive && all over values;
      }

  unfoldable pub anomaly_evaluation : AlertRule d → List (Check d) → MetricEvaluation
  anomaly_evaluation rule checks =
      let rows =
        map (λ c. c.value rule.metric)
          (take (rule.for_consecutive + anomaly_baseline_window) checks) in
      let newest = present (take rule.for_consecutive rows) in
      let baseline = present (drop rule.for_consecutive rows) in
      let odd = λ (v : d.Num). is_metric_anomaly d baseline v rule.anomaly_sensitivity in
      record {
        is_bad = head_holds odd newest;
        threshold_reached = length newest == rule.for_consecutive && all odd newest;
      }

  -- `evaluateMetricRule`; `metricValueSql` throws on a metric that is not listed.
  unfoldable pub evaluate_metric_rule : AlertRule d → List (Check d) → Result MetricEvaluation
  evaluate_metric_rule rule checks =
      if contains known_metrics rule.metric
      then (elim rule.rule_kind [
        | RuleKind.threshold ↦ ok (threshold_evaluation rule checks)
        | _ ↦ ok (anomaly_evaluation rule checks)
      ])
      else err db_error

  abbrev pub is_bad_check : AlertRule d → Check d → Bool
  is_bad_check rule c = contains rule.status_in c.status

  -- The debounce of a status rule: the last N checks exist and all fail.
  unfoldable pub recent_checks_fail : AlertRule d → EvaluatedMonitor → List (Check d) → Bool
  recent_checks_fail rule monitor checks =
      let recent = take monitor.consecutive_failures_to_alert checks in
      length recent == monitor.consecutive_failures_to_alert && all (is_bad_check rule) recent

  -- SELECT DISTINCT ON (location) … ORDER BY location, checked_at DESC: the newest check of each.
  unfoldable pub newest_per_location : List String → List (Check d) → List (Check d)
  newest_per_location seen [] = []
  newest_per_location seen (c ∷ rest) =
      let skip = newest_per_location seen rest in
      let keep = c ∷ newest_per_location (c.location ∷ seen) rest in
      if contains seen c.location then skip else keep

  unfoldable pub failing_locations : AlertRule d → List (Check d) → ℕ
  failing_locations rule checks =
      length (filter (is_bad_check rule) (newest_per_location [] checks))

  unfoldable pub quorum_reached : AlertRule d → EvaluatedMonitor → List (Check d) → Bool
  quorum_reached rule monitor checks =
      let min_locations = default_to 1 monitor.min_failing_locations in
      if ltb 1 min_locations then leb min_locations (failing_locations rule checks) else true

  -- `isBad` and `thresholdReached` of a rule, whatever its kind.
  unfoldable pub judge :
      AlertRule d → EvaluatedMonitor → CheckStatus → List (Check d) → Result MetricEvaluation
  judge rule monitor status checks = elim rule.rule_kind [
    | RuleKind.status ↦ ok (record {
      is_bad = contains rule.status_in status;
      threshold_reached = recent_checks_fail rule monitor checks;
    })
    | _ ↦ evaluate_metric_rule rule checks
  ]

  abbrev pub update_alert : String → (Alert → Alert) → Db d → Db d
  update_alert id f db = record db { alerts = update_where (λ a. a.id == id) f db.alerts }

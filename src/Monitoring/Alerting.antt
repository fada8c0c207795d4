-- ===== src/Monitoring/Alerting.antt =====
-- The tables behind alerts, as the transactions of one tenant see them
-- (apps/api/src/database/migrations, CreateMonitoringSchema and CreateAlertingSchema).
pub mod Evaluate
pub mod Service
pub mod Debounce
pub mod OneActive
pub mod Repeats
pub mod Races
use claude_cloud_ops_tool.Base.{
  Bool, Eq, List, Option, String, arith, false, nat_eq, option_eq, some, string_eq, true, ℕ, ◌&&◌,
  ◌==◌, ◌↔◌, ◌≡◌,
}
use claude_cloud_ops_tool.Monitoring.Metrics.{Double, MetricComparator}

pub data CheckStatus : Type 0 where
  up down critical trouble : CheckStatus

abbrev pub status_beq : CheckStatus → CheckStatus → Bool
status_beq up up = true
status_beq down down = true
status_beq critical critical = true
status_beq trouble trouble = true
status_beq _ _ = false

pub status_beq_iff : (a b : CheckStatus) → (status_beq a b ≡ true) ↔ (a ≡ b)
status_beq_iff a b = ground arith

instance abbrev pub status_eq : Eq CheckStatus
status_eq = record { test = status_beq; decides = status_beq_iff }

-- 'open', 'acknowledged', 'resolved'
pub data AlertStatus : Type 0 where
  opened acknowledged resolved : AlertStatus

abbrev pub alert_status_beq : AlertStatus → AlertStatus → Bool
alert_status_beq opened opened = true
alert_status_beq acknowledged acknowledged = true
alert_status_beq resolved resolved = true
alert_status_beq _ _ = false

pub alert_status_beq_iff : (a b : AlertStatus) → (alert_status_beq a b ≡ true) ↔ (a ≡ b)
alert_status_beq_iff a b = ground arith

instance abbrev pub alert_status_eq : Eq AlertStatus
alert_status_eq = record { test = alert_status_beq; decides = alert_status_beq_iff }

-- status IN ('open', 'acknowledged')
abbrev pub is_active_status : AlertStatus → Bool
is_active_status opened = true
is_active_status acknowledged = true
is_active_status resolved = false

pub data Severity : Type 0 where
  info warning critical : Severity

-- A row of `alerts`. `escalated_steps` is `last_escalated_step + 1`, which starts at 0. The wording
-- of `reason_text` is left out.
pub record Alert : Type 0 where
  pub id : String
  pub monitor_id : Option String
  pub alert_rule_id : Option String
  pub severity : Severity
  pub status : AlertStatus
  pub ticket_id : Option String
  pub repeat_count : ℕ
  pub escalated_steps : ℕ
  pub opened_at : ℕ
  pub last_seen_at : ℕ
  pub acknowledged_at : Option ℕ
  pub resolved_at : Option ℕ

abbrev pub is_open_alert : String → Alert → Bool
is_open_alert monitor a = a.monitor_id == some monitor && is_active_status a.status

pub data RuleKind : Type 0 where
  status threshold anomaly : RuleKind

module _ (d : Double) where
  -- A row of `alert_rules`, its `condition.statusIn` defaulted.
  pub record AlertRule : Type 0 where
    pub id : String
    pub monitor_id : String
    pub is_enabled : Bool
    pub rule_kind : RuleKind
    pub status_in : List CheckStatus
    pub severity : Severity
    pub metric : String
    pub comparator : MetricComparator
    pub limit : d.Num
    pub for_consecutive : ℕ
    pub anomaly_sensitivity : d.Num
    pub escalation_policy_id : Option String

  -- A row of `monitor_checks`; `value` is what METRIC_SQL reads of it for a metric.
  pub record Check : Type 0 where
    pub monitor_id : String
    pub status : CheckStatus
    pub location : String
    pub value : String → Option d.Num

  -- The checks stand newest first, as ORDER BY checked_at DESC returns them.
  pub record Db : Type 0 where
    pub rules : List AlertRule
    pub checks : List Check
    pub alerts : List Alert

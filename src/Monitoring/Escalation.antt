-- ===== src/Monitoring/Escalation.antt =====
-- `EscalationSweepService` (apps/api/src/modules/monitoring/escalation-sweep.service.ts): one pass over
-- the active alerts of a tenant. The state is the table of alerts; the pass reads the other tables and
-- does not change them. The wording of a notification is left out.
pub mod Steps
use claude_cloud_ops_tool.Base.{
  Bool, List, Option, String, Tx, [], filter, find, get_elem?, gets, if◌then◌else◌, is_some, ltb,
  map, modify, nat_eq, none, option_eq, pure, some, string_eq, update_where, ℕ, ◌&&◌, ◌*◌, ◌++◌,
  ◌+◌, ◌==◌, ◌>>=◌, ◌>>◌, ◌∷◌,
}
use claude_cloud_ops_tool.Monitoring.Metrics.{Double}
use claude_cloud_ops_tool.Monitoring.Alerting.{Alert, AlertRule, is_active_status}

pub record Target : Type 0 where
  pub channel : String
  pub recipient : String

pub record EscalationStep : Type 0 where
  pub delay_minutes : ℕ
  pub notify : List Target

-- A row of `escalation_policies`.
pub record EscalationPolicy : Type 0 where
  pub id : String
  pub steps : List EscalationStep

-- The columns of `monitors` that the pass reads.
pub record Monitor : Type 0 where
  pub id : String
  pub name : String

pub record PendingEscalation : Type 0 where
  pub alert_id : String
  pub monitor_name : String
  pub step : EscalationStep
  pub step_number : ℕ

-- A call of `NotificationsService.enqueue`.
pub record Notice : Type 0 where
  pub channel : String
  pub recipient : String
  pub monitor_name : String
  pub step_number : ℕ

abbrev and_then : {A B : Type 0} → Option A → (A → Option B) → Option B
and_then none f = none
and_then (some a) f = f a

module _ (d : Double) where
  -- The tables that a pass reads.
  pub record Policies : Type 0 where
    pub rules : List (AlertRule d)
    pub policies : List EscalationPolicy
    pub monitors : List Monitor

  module _ (tables : Policies) where
    -- The three JOINs: the monitor's name and the steps of the alert's policy.
    unfoldable pub join : Alert → Option (String × List EscalationStep)
    join a = and_then a.alert_rule_id (λ rule_id.
        and_then (find (λ r. r.id == rule_id) tables.rules) (λ rule.
          and_then rule.escalation_policy_id (λ policy_id.
            and_then (find (λ p. p.id == policy_id) tables.policies) (λ policy.
              and_then a.monitor_id (λ monitor_id.
                and_then (find (λ m. m.id == monitor_id) tables.monitors)
                  (λ monitor. some (monitor.name, policy.steps)))))))

    -- The query: active alerts whose joins succeed.
    unfoldable pub is_selected : Alert → Bool
    is_selected a = is_active_status a.status && is_some (join a)

  module _ (now : ℕ) where
    abbrev pub mark : Alert → Alert → Alert
    mark a x = record x { escalated_steps = a.escalated_steps + 1 }

    -- The body of the loop, from the next step on: too early, or marked and reported.
    unfoldable pub fire : Alert → String → EscalationStep → Tx (List Alert) (List PendingEscalation)
    fire a name step =
        let due_at = a.opened_at + step.delay_minutes * 60000 in
        if ltb now due_at then pure [] else (do
          modify (update_where (λ x. x.id == a.id) (mark a))
          pure (
              record {
                alert_id = a.id;
                monitor_name = name;
                step = step;
                step_number = a.escalated_steps;
              }
              ∷ []))

    module _ (tables : Policies) where
      -- The body of the loop. `last_escalated_step + 1` is `escalated_steps`.
      unfoldable pub escalate : Alert → Tx (List Alert) (List PendingEscalation)
      escalate a = elim (join tables a) [
        | none ↦ pure []
        | some columns ↦ elim (get_elem? columns.1 a.escalated_steps) [
          | none ↦ pure []
          | some step ↦ fire a columns.0 step
        ]
      ]

      unfoldable pub escalate_each :
          List Alert → List PendingEscalation → Tx (List Alert) (List PendingEscalation)
      escalate_each [] actions = pure actions
      escalate_each (a ∷ rest) actions = do new ← escalate a; escalate_each rest (actions ++ new)

      -- The transaction of `sweepTenant`.
      unfoldable pub sweep_tenant : Tx (List Alert) (List PendingEscalation)
      sweep_tenant = do due_alerts ← gets (filter (is_selected tables)); escalate_each due_alerts []

-- The notifications of one step.
unfoldable pub notices : PendingEscalation → List Notice
notices p =
    map
      (λ (target : Target). record {
        channel = target.channel;
        recipient = target.recipient;
        monitor_name = p.monitor_name;
        step_number = p.step_number;
      })
      p.step.notify

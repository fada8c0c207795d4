-- ===== src/Ticketing/Automation/Engine.antt =====
-- Conditions, actions and the two engines that run rules. JavaScript's operations on text are a
-- parameter: case mapping, trimming and substring search range over Unicode.
use claude_cloud_ops_tool.Base.{
  Bool, List, Option, String, Tx, [], all, any, contains, db_error, default_to, filter, gets, guard,
  if◌then◌else◌, inl, inr, is_some, leb, ltb, modify, nat_eq, none, not, option_eq, pure, some,
  sort_by, string_eq, ℕ, ◌&&◌, ◌*◌, ◌++◌, ◌+◌, ◌==◌, ◌>>=◌, ◌>>◌, ◌||◌, ◌∷◌, ◌⊎◌,
}
use claude_cloud_ops_tool.Ticketing.Db.{
  Db, Ticket, Column, column_accepts, AutomationCondition, ConditionField, Operator,
  AutomationAction, ActionType, set_status, set_priority, set_group, set_agent, set_platform,
  add_note, add_tag, AutomationRule, Trigger, trigger_beq, RuleApplication, update_ticket,
  insert_activity, insert_message, system_note,
}

-- `trim`, `toLowerCase` and `includes` of String.prototype.
pub record TextOps : Type 0 where
  pub trim : String → String
  pub to_lower : String → String
  pub includes : String → String → Bool

-- ACTION_FIELD
unfoldable pub action_field : ActionType → Option Column
action_field set_status = some Column.status
action_field set_priority = some Column.priority
action_field set_group = some Column.group_id
action_field set_agent = some Column.agent_id
action_field set_platform = some Column.platform
action_field add_note = none
action_field add_tag = none

-- `ticket[field] ?? null`
abbrev pub column_value : Ticket → Column → Option String
column_value t Column.status = some t.status
column_value t Column.priority = some t.priority
column_value t Column.platform = t.platform
column_value t Column.group_id = t.group_id
column_value t Column.agent_id = t.agent_id
column_value t Column.ticket_type_id = t.ticket_type_id

-- SET column = $1
abbrev pub set_column : Column → String → Ticket → Ticket
set_column Column.status v t = record t { status = v }
set_column Column.priority v t = record t { priority = v }
set_column Column.platform v t = record t { platform = some v }
set_column Column.group_id v t = record t { group_id = some v }
set_column Column.agent_id v t = record t { agent_id = some v }
set_column Column.ticket_type_id v t = record t { ticket_type_id = some v }

abbrev pub is_closing : String → Bool
is_closing s = s == "resolved" || s == "closed"

-- `resolvedAtClause`: only `set_status` writes `resolved_at`.
unfoldable pub resolved_at_clause : ℕ → AutomationAction → Ticket → Ticket
resolved_at_clause now action t = elim action.type [
  | set_status ↦ record t { resolved_at = if is_closing action.value then some now else none }
  | _ ↦ t
]

-- The UPDATE of `applyAction`: the column, `updated_at` and the clause above.
unfoldable pub written : ℕ → AutomationAction → Column → Ticket → Ticket
unfolding resolved_at_clause
written now action column t =
    resolved_at_clause now action (record (set_column column action.value t) { updated_at = now })

module _ (text : TextOps) where
  -- What a condition reads: a scalar as text (`null` as the empty text), or the array of tags.
  abbrev pub raw_value : Ticket → ConditionField → String ⊎ List String
  raw_value t f = elim f [
    | ConditionField.status ↦ inl t.status
    | ConditionField.priority ↦ inl t.priority
    | ConditionField.source ↦ inl t.source
    | ConditionField.subject ↦ inl t.subject
    | ConditionField.ticket_type_id ↦ inl (default_to "" t.ticket_type_id)
    | ConditionField.group_id ↦ inl (default_to "" t.group_id)
    | ConditionField.platform ↦ inl (default_to "" t.platform)
    | ConditionField.tags ↦ inr t.tags
  ]

  abbrev lower_includes : String → String → Bool
  lower_includes s needle = text.includes (text.to_lower s) (text.to_lower needle)

  unfoldable pub condition_matches : Ticket → AutomationCondition → Bool
  condition_matches t c = elim (raw_value t c.field) [
    | inr tags ↦ elim c.operator [
      | Operator.equals ↦ contains tags c.value
      | Operator.includes ↦ any (λ tag. lower_includes tag c.value) tags
    ]
    | inl actual ↦ elim c.operator [
      | Operator.equals ↦ actual == c.value
      | Operator.includes ↦ lower_includes actual c.value
    ]
  ]

module _ (text : TextOps) (now : ℕ) (tenant : String) where
  -- The UPDATE of a property-changing action and its row of the timeline.
  unfoldable pub change_property : Ticket → AutomationAction → Column → Tx Db Ticket
  change_property ticket action column = do
    accepted ← gets (λ db. column_accepts db column action.value)
    guard accepted db_error
    row ← update_ticket tenant ticket.id (written now action column)
    insert_activity (record {
      tenant_id = tenant;
      ticket_id = ticket.id;
      field = column;
      old_value = column_value ticket column;
      new_value = some action.value;
      actor_agent_id = none;
    })
    pure row

  -- A property-changing action does nothing if the value is there already.
  unfoldable pub set_property : Ticket → AutomationAction → Column → Tx Db Ticket
  unfolding change_property
  set_property ticket action column =
      if column_value ticket column == some action.value
      then pure ticket
      else change_property ticket action column

  unfoldable pub append_tag : Ticket → String → Tx Db Ticket
  append_tag ticket tag =
      let append : Tx Db Ticket =
        update_ticket tenant ticket.id
          (λ t. record t { tags = t.tags ++ tag ∷ []; updated_at = now }) in
      if tag == "" then pure ticket else if contains ticket.tags tag then pure ticket else append

  unfoldable pub post_note : Ticket → String → Tx Db Ticket
  post_note ticket body = do insert_message (system_note tenant ticket.id body); pure ticket

  -- The actions that change no property.
  unfoldable pub apply_other : ActionType → Ticket → String → Tx Db Ticket
  apply_other add_note ticket value = post_note ticket value
  apply_other add_tag ticket value = append_tag ticket (text.trim value)
  apply_other _ ticket value = pure ticket

  -- `applyAction`
  unfoldable pub apply_action : Ticket → AutomationAction → Tx Db Ticket
  apply_action ticket action = elim (action_field action.type) [
    | some column ↦ set_property ticket action column
    | none ↦ apply_other action.type ticket action.value
  ]

  unfoldable pub apply_actions : List AutomationAction → Ticket → Tx Db Ticket
  apply_actions [] ticket = pure ticket
  apply_actions (a ∷ rest) ticket = do current ← apply_action ticket a; apply_actions rest current

  abbrev pub conditions_met : List AutomationCondition → Ticket → Bool
  conditions_met conditions ticket = all (condition_matches text ticket) conditions

  -- The loop of `runRules`: a rule whose conditions fail is skipped.
  unfoldable pub run_each : List AutomationRule → Ticket → Tx Db Ticket
  run_each [] ticket = pure ticket
  run_each (r ∷ rest) ticket = do
    current ←
        if conditions_met r.conditions ticket then apply_actions r.actions ticket else pure ticket
    run_each rest current

  abbrev rule_order : AutomationRule → AutomationRule → Bool
  rule_order a b =
      ltb a.position b.position || (a.position == b.position && leb a.created_at b.created_at)

  -- The rules that `runRules` runs for a trigger.
  unfoldable pub is_triggered : Trigger → AutomationRule → Bool
  is_triggered trigger r = r.tenant_id == tenant && trigger_beq r.trigger trigger && r.is_active

  -- The query of `runRules`.
  unfoldable pub active_rules : Trigger → Db → List AutomationRule
  active_rules trigger db = sort_by rule_order (filter (is_triggered trigger) db.rules)

  unfoldable pub run_rules : Trigger → Ticket → Tx Db Ticket
  run_rules trigger ticket = do rules ← gets (active_rules trigger); run_each rules ticket

  abbrev pub applied : String → Ticket → RuleApplication → Bool
  applied rule t a = a.rule_id == rule && a.ticket_id == t.id

  -- The query of `sweepRule`: open, old enough, and the rule has not fired for the ticket yet.
  unfoldable pub is_candidate : String → ℕ → Db → Ticket → Bool
  is_candidate rule minutes db t =
      t.tenant_id == tenant
      && not (is_closing t.status)
      && leb (t.created_at + minutes * 60000) now
      && not (any (applied rule t) db.applications)

  -- INSERT … ON CONFLICT DO NOTHING
  unfoldable pub record_application : String → Ticket → Tx Db (Unit {0})
  record_application rule t = modify (λ db. record db {
    applications =
        if any (applied rule t) db.applications
        then db.applications
        else db.applications ++ record { rule_id = rule; ticket_id = t.id } ∷ [];
  })

  -- One round of the loop of `sweepRule`.
  unfoldable pub fire : AutomationRule → Ticket → Tx Db ℕ
  fire rule t = do current ← apply_actions rule.actions t; record_application rule.id t; pure 1

  -- The loop of `sweepRule`; the result counts the tickets that the rule fired for.
  unfoldable pub sweep_candidates : AutomationRule → List Ticket → ℕ → Tx Db ℕ
  sweep_candidates rule [] count = pure count
  sweep_candidates rule (t ∷ rest) count = do
    fired ← if conditions_met rule.conditions t then fire rule t else pure 0
    sweep_candidates rule rest (count + fired)

  unfoldable pub sweep_rule : AutomationRule → ℕ → Tx Db ℕ
  sweep_rule rule minutes = do
    candidates ← gets (λ db. filter (is_candidate rule.id minutes db) db.tickets)
    sweep_candidates rule candidates 0

  unfoldable pub sweep_rules : List AutomationRule → ℕ → Tx Db ℕ
  sweep_rules [] count = pure count
  sweep_rules (r ∷ rest) count = do
    fired ← elim r.time_trigger_minutes [ some minutes ↦ sweep_rule r minutes | none ↦ pure 0 ]
    sweep_rules rest (count + fired)

  -- The rules that the timer runs.
  unfoldable pub is_timed : AutomationRule → Bool
  is_timed r =
      r.tenant_id == tenant
      && trigger_beq r.trigger Trigger.time_based
      && r.is_active
      && is_some r.time_trigger_minutes

  -- `sweepTenant`
  unfoldable pub sweep_tenant : Tx Db ℕ
  sweep_tenant = do rules ← gets (λ db. filter is_timed db.rules); sweep_rules rules 0

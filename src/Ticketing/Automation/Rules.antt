-- ===== src/Ticketing/Automation/Rules.antt =====
-- Creating, changing and removing rules (`AutomationRulesService` and
-- `assertActionTargetsBelongToTenant`, apps/api/src/modules/ticketing/automation/
-- automation-rules.service.ts, apply-action.ts). The shapes that the DTO classes check are types here.
use claude_cloud_ops_tool.Base.{
  Bool, List, Option, String, Tx, [], any, bad_request, db_error, default_to, false, filter, find,
  gets, guard, if◌then◌else◌, is_some, modify, nat_eq, none, not, not_found, option_eq, pure,
  require, some, string_eq, true, update_where, ℕ, ◌&&◌, ◌++◌, ◌==◌, ◌>>=◌, ◌>>◌, ◌||◌, ◌∷◌,
}
use claude_cloud_ops_tool.Ticketing.Db.{
  Db, AutomationCondition, AutomationAction, set_group, set_agent, AutomationRule, Trigger,
  trigger_beq,
}

-- CreateAutomationRuleDto
pub record NewRule : Type 0 where
  pub name : String
  pub trigger : Trigger
  pub position : Option ℕ
  pub is_active : Option Bool
  pub time_trigger_minutes : Option ℕ
  pub conditions : List AutomationCondition
  pub actions : List AutomationAction

-- UpdateAutomationRuleDto: the fields that are not `undefined`. `null` is a value of the nullable column
-- only: the other columns refuse it, or store it as JSON, which is outside the model.
pub record RulePatch : Type 0 where
  pub name : Option String
  pub trigger : Option Trigger
  pub position : Option ℕ
  pub is_active : Option Bool
  pub time_trigger_minutes : Option (Option ℕ)
  pub conditions : Option (List AutomationCondition)
  pub actions : Option (List AutomationAction)

-- `!dto.timeTriggerMinutes` is true of 0 as well.
abbrev pub has_minutes : Option ℕ → Bool
has_minutes none = false
has_minutes (some n) = not (n == 0)

module _ (tenant : String) where
  -- Whether the target of an action is a row of the tenant.
  unfoldable pub target_exists : Db → AutomationAction → Bool
  target_exists db action = elim action.type [
    | set_group ↦ any (λ g. g.tenant_id == tenant && g.id == action.value) db.groups
    | set_agent ↦ any (λ a. a.tenant_id == tenant && a.id == action.value) db.agents
    | _ ↦ true
  ]

  unfoldable pub assert_action_targets : List AutomationAction → Tx Db (Unit {0})
  assert_action_targets [] = pure tt
  assert_action_targets (action ∷ rest) = do
    exists ← gets (λ db. target_exists db action)
    guard exists bad_request
    assert_action_targets rest

  abbrev pub is_rule : String → AutomationRule → Bool
  is_rule id r = r.tenant_id == tenant && r.id == id

  module _ (now : ℕ) where
    abbrev pub row_of : String → NewRule → AutomationRule
    row_of id dto = record {
      id = id;
      tenant_id = tenant;
      name = dto.name;
      trigger = dto.trigger;
      position = default_to 0 dto.position;
      is_active = default_to true dto.is_active;
      conditions = dto.conditions;
      actions = dto.actions;
      time_trigger_minutes = dto.time_trigger_minutes;
      created_at = now;
      updated_at = now;
    }

    -- `create`, with the id that the database generates.
    unfoldable pub create : String → NewRule → Tx Db AutomationRule
    create id dto = do
      guard
          (not (trigger_beq dto.trigger Trigger.time_based) || has_minutes dto.time_trigger_minutes)
          bad_request
      assert_action_targets dto.actions
      modify (λ db. record db { rules = db.rules ++ row_of id dto ∷ [] })
      pure (row_of id dto)

    -- SET … for the columns that are given, and `updated_at`.
    abbrev pub patched : RulePatch → AutomationRule → AutomationRule
    patched dto r = record r {
      name = default_to r.name dto.name;
      trigger = default_to r.trigger dto.trigger;
      position = default_to r.position dto.position;
      is_active = default_to r.is_active dto.is_active;
      time_trigger_minutes = default_to r.time_trigger_minutes dto.time_trigger_minutes;
      conditions = default_to r.conditions dto.conditions;
      actions = default_to r.actions dto.actions;
      updated_at = now;
    }

    -- `sets.length === 0`
    abbrev pub is_empty : RulePatch → Bool
    is_empty dto = not (
        is_some dto.name
        || is_some dto.trigger
        || is_some dto.position
        || is_some dto.is_active
        || is_some dto.time_trigger_minutes
        || is_some dto.conditions
        || is_some dto.actions)

    unfoldable pub write_rule : String → RulePatch → Tx Db AutomationRule
    write_rule id dto = do
      modify (λ db. record db { rules = update_where (is_rule id) (patched dto) db.rules })
      row ← gets (λ db. find (is_rule id) db.rules)
      require row db_error

    unfoldable pub update : String → RulePatch → Tx Db AutomationRule
    update id dto = do
      found ← gets (λ db. find (is_rule id) db.rules)
      existing ← require found not_found
      assert_action_targets (default_to [] dto.actions)
      if is_empty dto then pure existing else write_rule id dto

  unfoldable pub remove : String → Tx Db (Unit {0})
  remove id = do
    found ← gets (λ db. any (is_rule id) db.rules)
    guard found not_found
    modify (λ db. record db { rules = filter (λ r. not (is_rule id r)) db.rules })

-- ===== src/Ticketing/Tests.antt =====
-- The ticketing operations on a small table of tickets, agents and rules.
pub mod Edits
pub mod Desk
pub mod Replies
pub mod Forms
pub mod Mails
use claude_cloud_ops_tool.Base.{
  All, Bool, Option, String, [], if◌then◌else◌, nat_eq, ne-of-==, none, ok, option_eq, refl, some,
  sort_by, string_eq, true, ℕ, ◌==◌, ◌>>=◌, ◌>>◌, ◌∷◌, ◌≡◌,
}
use claude_cloud_ops_tool.Ticketing.Directory.{empty_directory}
use claude_cloud_ops_tool.Ticketing.Db.{
  Db, Ticket, Group, Agent, AutomationRule, set_status, Strategy, ticket_created, ConditionField,
  Operator, Column, column_accepts,
}
use claude_cloud_ops_tool.Ticketing.Automation.Engine.{
  TextOps, run_rules, run_each, active_rules, is_triggered, apply_actions, apply_action,
  action_field, set_property, change_property, written, resolved_at_clause, condition_matches,
}
use claude_cloud_ops_tool.Ticketing.Automation.Audit.{Run}
use claude_cloud_ops_tool.Ticketing.Automation.Runs.{run_rules-Run}
use claude_cloud_ops_tool.Ticketing.Automation.Resolved.{AllSettled, run_rules-AllSettled}
use claude_cloud_ops_tool.Ticketing.Assignment.{
  pick_assignee, load_group_config, active_group_agents, assign_by, least_loaded,
  open_ticket_counts, open_tickets,
}
use claude_cloud_ops_tool.Ticketing.Assignment.Fairness.{nth_turn, round_robin-cycles}
use claude_cloud_ops_tool.Ticketing.Assignment.Load.{IsLeast, least_loaded-IsLeast}
use claude_cloud_ops_tool.Ticketing.Assignment.Eligible.{IsEligible, pick_assignee-IsEligible}
use claude_cloud_ops_tool.Ticketing.Overdue.{
  sweep_tenant, is_overdue, is_unnotified, first_response_due, resolution_due,
}
use claude_cloud_ops_tool.Ticketing.Overdue.Marks.{all_breaches}
use claude_cloud_ops_tool.Ticketing.Overdue.Once.{IsClosed, sweep_tenant-once}

-- Text as it stands, without Unicode tables.
abbrev pub plain : TextOps
plain = record { trim = λ s. s; to_lower = λ s. s; includes = λ s needle. s == needle }

abbrev ticket : String → ℕ → String → Option String → Option ℕ → Ticket
ticket id number st agent due = record {
  id = id;
  tenant_id = "t";
  ticket_number = number;
  subject = "disk full";
  contact_id = "c1";
  ticket_type_id = none;
  status = st;
  priority = "medium";
  platform = none;
  group_id = some "g";
  agent_id = agent;
  resource_id = none;
  sla_policy_id = none;
  first_response_due_at = none;
  first_response_at = none;
  resolution_due_at = due;
  resolved_at = none;
  first_response_overdue_notified_at = none;
  resolution_overdue_notified_at = none;
  source = "portal";
  source_detail = none;
  tags = [];
  custom_fields = [];
  required_skill = none;
  merged_into_id = none;
  created_at = 1;
  updated_at = 1;
}

abbrev pub disk : Ticket
disk = ticket "x1" 1 "open" none (some 50)

abbrev pub again : Ticket
again = ticket "x2" 2 "new" (some "ann") none

abbrev agent : String → Agent
agent id = record {
  id = id;
  tenant_id = "t";
  group_ids = "g" ∷ [];
  is_active = true;
  name = id;
  email = none;
}

abbrev pub resolve_full : AutomationRule
resolve_full = record {
  id = "r1";
  tenant_id = "t";
  name = "full disks";
  trigger = ticket_created;
  position = 0;
  is_active = true;
  conditions =
      record { field = ConditionField.subject; operator = Operator.equals; value = "disk full" }
      ∷ [];
  actions = record { type = set_status; value = "resolved" } ∷ [];
  time_trigger_minutes = none;
  created_at = 1;
  updated_at = 1;
}

abbrev support : Strategy → Group
support s = record {
  id = "g";
  tenant_id = "t";
  assignment_strategy = s;
  max_open_tickets_per_agent = some 1;
}

abbrev desk : Strategy → Db
desk s = record {
  tickets = disk ∷ again ∷ [];
  messages = [];
  attachments = [];
  activities = [];
  rules = resolve_full ∷ [];
  applications = [];
  groups = support s ∷ [];
  agents = agent "ann" ∷ agent "bob" ∷ [];
  skills = [];
  cursors = [];
  directory = empty_directory;
}

abbrev pub start : Db
start = desk Strategy.load_based

abbrev solved : Ticket
solved = record disk { status = "resolved"; resolved_at = some 100; updated_at = 100 }

abbrev after_rules : Db
after_rules = record start {
  tickets = solved ∷ again ∷ [];
  activities =
      record {
        tenant_id = "t";
        ticket_id = "x1";
        field = Column.status;
        old_value = some "open";
        new_value = some "resolved";
        actor_agent_id = none;
      }
      ∷ [];
}

solves : run_rules plain 100 "t" ticket_created disk start ≡ ok (solved, after_rules)
unfolding run_rules run_each active_rules is_triggered apply_actions apply_action action_field
    set_property change_property written resolved_at_clause condition_matches column_accepts sort_by
solves = refl

run_rules-Run_example : Run "t" disk start solved after_rules
run_rules-Run_example =
    run_rules-Run plain 100 "t" ticket_created disk start refl solved after_rules solves

run_rules-AllSettled_example : AllSettled after_rules
run_rules-AllSettled_example =
    run_rules-AllSettled plain 100 "t" ticket_created disk start (refl, (refl, tt)) solved
      after_rules solves

-- Every order of identifiers will do here.
abbrev any_order : String → String → Bool
any_order a b = true

picks_bob : pick_assignee any_order any_order "t" "g" none start ≡ ok (some "bob", start)
unfolding pick_assignee load_group_config active_group_agents assign_by least_loaded
    open_ticket_counts open_tickets sort_by
picks_bob = refl

pick_assignee-IsEligible_example : IsEligible "t" "g" start none "bob"
pick_assignee-IsEligible_example =
    pick_assignee-IsEligible "t" "g" any_order any_order none start start "bob" picks_bob

abbrev load_of : String → ℕ
load_of a = if a == "ann" then 3 else 1

picks_least : least_loaded any_order any_order ("ann" ∷ "bob" ∷ []) load_of (some 5) ≡ some "bob"
unfolding least_loaded sort_by
picks_least = refl

least_loaded-IsLeast_example : IsLeast ("ann" ∷ "bob" ∷ []) load_of (some 5) "bob"
least_loaded-IsLeast_example =
    least_loaded-IsLeast any_order any_order ("ann" ∷ "bob" ∷ []) load_of (some 5) "bob" picks_least

round_robin-cycles_example :
    (db' : Db) × (nth_turn "t" "g" "ann" ("bob" ∷ []) 3 start ≡ ok (some "bob", db'))
round_robin-cycles_example =
    round_robin-cycles "t" "g" "ann" ("bob" ∷ []) 3 start
      ((ne-of-== "ann" "bob" refl, tt), (tt, tt)) refl

sweep_tenant-once_example :
    (db' : Db) × (sweep_tenant 100 "t" start ≡ ok (all_breaches 100 "t" (disk ∷ []), db'))
    × (sweep_tenant 100 "t" db' ≡ ok ([], db'))
    × All (IsClosed 100 "t" db'.tickets) (all_breaches 100 "t" (disk ∷ []))
unfolding is_overdue is_unnotified
sweep_tenant-once_example =
    sweep_tenant-once 100 "t" start (((ne-of-== "x1" "x2" refl, tt), (tt, tt)))

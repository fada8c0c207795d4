-- ===== src/Ticketing/Tickets/Create.antt =====
-- The creation of tickets (`create` of apps/api/src/modules/ticketing/tickets.service.ts). The
-- generated identifiers are arguments; `now()` and `new Date()` of one request are one instant.
use claude_cloud_ops_tool.Base.{
  Bool, Option, String, Tx, [], bad_request, db_error, default_to, gets, none, pure, require, some,
  throw, ℕ, ◌>>=◌, ◌>>◌,
}
use claude_cloud_ops_tool.Ticketing.Values.{Fields}
use claude_cloud_ops_tool.Ticketing.Fields.{Conversions, invalid, valid, validate_custom_fields}
use claude_cloud_ops_tool.Ticketing.Sla.{Calendar, SlaDueDates, calculate_due_dates}
use claude_cloud_ops_tool.Ticketing.Db.{Db, Ticket, Trigger}
use claude_cloud_ops_tool.Ticketing.Assignment.{pick_assignee}
use claude_cloud_ops_tool.Ticketing.Automation.Engine.{TextOps, run_rules}
use claude_cloud_ops_tool.Ticketing.Tickets.Checks.{
  NewTicket, agents, assert_given, fetch_sla_policy, groups, hours_for, insert_ticket, load_defs,
  next_ticket_number, resolve_contact, resources, type_defaults,
}

module _ (js : Conversions) (tenant : String) where
  -- `validateCustomFields`, whose errors are bad requests.
  unfoldable pub checked_fields : Option Fields → Tx Db Fields
  checked_fields submitted = do
    defs ← gets (load_defs tenant)
    elim (validate_custom_fields js defs submitted) [
      | valid fields ↦ pure fields
      | invalid e ↦ throw bad_request
    ]

module _ (now : ℕ) (tenant : String) where
  -- The row of the INSERT, with the defaults of the other columns.
  abbrev pub new_row :
      String
      → ℕ
      → NewTicket
      → String
      → Option String × Option String
      → SlaDueDates
      → Fields
      → Option String
      → Ticket
  new_row id number dto contact defaults dates fields agent = record {
    id = id;
    tenant_id = tenant;
    ticket_number = number;
    subject = dto.subject;
    contact_id = contact;
    ticket_type_id = dto.ticket_type_id;
    status = "new";
    priority = default_to "medium" dto.priority;
    platform = dto.platform;
    group_id = defaults.0;
    agent_id = agent;
    resource_id = dto.resource_id;
    sla_policy_id = defaults.1;
    first_response_due_at = dates.first_response_due_at;
    first_response_at = none;
    resolution_due_at = dates.resolution_due_at;
    resolved_at = none;
    first_response_overdue_notified_at = none;
    resolution_overdue_notified_at = none;
    source = dto.source;
    source_detail = dto.source_detail;
    tags = default_to [] dto.tags;
    custom_fields = fields;
    required_skill = dto.required_skill;
    merged_into_id = none;
    created_at = now;
    updated_at = now;
  }

module _ (uuid_le locale_le : String → String → Bool) (now : ℕ) (tenant : String) where
  -- An explicit agent is kept; otherwise the group assigns one.
  unfoldable pub choose_agent : NewTicket → Option String → Tx Db (Option String)
  choose_agent dto group = elim dto.agent_id [
    | some id ↦ pure (some id)
    | none ↦ elim group [
      | none ↦ pure none
      | some g ↦ pick_assignee uuid_le locale_le tenant g dto.required_skill
    ]
  ]

  unfoldable pub insert_row :
      String
      → ℕ
      → NewTicket
      → String
      → Option String × Option String
      → SlaDueDates
      → Fields
      → Tx Db Ticket
  insert_row id number dto contact defaults dates fields = do
    agent ← choose_agent dto defaults.0
    let row = new_row now tenant id number dto contact defaults dates fields agent
    insert_ticket tenant row
    pure row

module _ (text : TextOps) (js : Conversions) (calendar : Calendar)
    (uuid_le locale_le : String → String → Bool) (now : ℕ) (tenant : String) where
  -- Everything after the ids have been checked, up to the INSERT. A due date that is never found (see
  -- `Sla`) stands as `db_error`.
  unfoldable pub insert_new :
      String → NewTicket → String → Option String × Option String → Tx Db Ticket
  insert_new id dto contact defaults = do
    policy ← gets (fetch_sla_policy tenant defaults.1)
    hours ← gets (hours_for tenant policy)
    number ← next_ticket_number tenant
    dates ← require (calculate_due_dates calendar now policy hours) db_error
    fields ← checked_fields js tenant dto.custom_fields
    insert_row uuid_le locale_le now tenant id number dto contact defaults dates fields

  -- `create`, without the triage that starts after the commit.
  unfoldable pub create : String → String → NewTicket → Tx Db Ticket
  create new_contact id dto = do
    contact ← resolve_contact tenant new_contact dto
    defaults ← type_defaults tenant dto
    assert_given tenant groups defaults.0
    assert_given tenant agents dto.agent_id
    assert_given tenant resources dto.resource_id
    ticket ← insert_new id dto contact defaults
    run_rules text now tenant Trigger.ticket_created ticket

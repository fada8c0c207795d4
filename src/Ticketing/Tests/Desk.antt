-- ===== src/Ticketing/Tests/Desk.antt =====
-- A new ticket, a change of a ticket, and custom fields, on small tables.
use claude_cloud_ops_tool.Base.{
  All, Bool, List, Result, String, [], ap, arith, err, false, nat_eq, ne-of-==, none, ok, option_eq,
  refl, some, sort_by, string_eq, true, ℕ, ◌++◌, ◌+◌, ◌↔◌, ◌∷◌, ◌≡◌,
}
use claude_cloud_ops_tool.Ticketing.Directory.{empty_directory}
use claude_cloud_ops_tool.Ticketing.Values.{FieldDef, FieldType, Fields, Value}
use claude_cloud_ops_tool.Ticketing.Fields.{
  Conversions, FieldError, check_field, check_fields, invalid, valid, validate_custom_fields,
}
use claude_cloud_ops_tool.Ticketing.Fields.Stored.{IsStored, active, validate_custom_fields-stores}
use claude_cloud_ops_tool.Ticketing.Fields.Typed.{is_typed, validate_custom_fields-typed}
use claude_cloud_ops_tool.Ticketing.Sla.Tests.{day_count}
use claude_cloud_ops_tool.Ticketing.Db.{Db, Ticket}
use claude_cloud_ops_tool.Ticketing.Tests.{disk, plain, start}
use claude_cloud_ops_tool.Ticketing.Sla.{calculate_due_dates}
use claude_cloud_ops_tool.Ticketing.Db.{column_accepts}
use claude_cloud_ops_tool.Ticketing.Automation.Engine.{
  action_field, active_rules, apply_action, apply_actions, change_property, condition_matches,
  is_triggered, resolved_at_clause, run_each, run_rules, set_property, written,
}
use claude_cloud_ops_tool.Ticketing.Tickets.Checks.{
  NewTicket, assert_belongs_to_tenant, belongs, contact_by_email, fetch_sla_policy, insert_ticket,
  load_defs, next_ticket_number, resolve_contact, type_defaults, upsert_contact_by_email,
}
use claude_cloud_ops_tool.Ticketing.Tickets.Create.{
  checked_fields, choose_agent, create, insert_new, insert_row,
}
use claude_cloud_ops_tool.Ticketing.Db.{ticket_created}
use claude_cloud_ops_tool.Ticketing.Automation.Audit.{Run}
use claude_cloud_ops_tool.Ticketing.Automation.Resolved.{AllSettled}
use claude_cloud_ops_tool.Ticketing.Tickets.Checks.{next_value}
use claude_cloud_ops_tool.Ticketing.Tickets.Ownership.{IsOwned, create-IsOwned, is_named}
use claude_cloud_ops_tool.Ticketing.Tickets.Patch.{
  TicketPatch, UpdateEffect, agent_email, given, track,
}
use claude_cloud_ops_tool.Ticketing.Tickets.Update.{
  apply_patch, merged_fields, sla_change, update, write_patch,
}
use claude_cloud_ops_tool.Ticketing.Tickets.Audited.{update-Run}
use claude_cloud_ops_tool.Ticketing.Tickets.Settled.{update-AllSettled}
use claude_cloud_ops_tool.Ticketing.Tickets.Numbers.{Numbered, create-Numbered}
use claude_cloud_ops_tool.Ticketing.Fields.Faults.{FirstFault, validate_custom_fields-invalid_iff}

-- Conversions of texts, and of nothing else.
abbrev pub conversions : Conversions
conversions = record {
  to_number = λ v. elim v [ Value.text s ↦ some s | _ ↦ some "NaN" ];
  to_text = λ v. elim v [ Value.text s ↦ some s | _ ↦ none ];
  inherited = λ key. none;
}

abbrev field : String → FieldType → Bool → FieldDef
field key type required = record {
  id = key;
  tenant_id = "t";
  key = key;
  label = key;
  field_type = type;
  options = "gold" ∷ "silver" ∷ [];
  is_required = required;
  is_active = true;
  position = 0;
  created_at = 0;
}

abbrev defs : List FieldDef
defs = field "tier" FieldType.dropdown true ∷ field "seats" FieldType.number false ∷ []

abbrev submitted : Fields
submitted = ("seats", Value.text "12") ∷ ("tier", Value.text "gold") ∷ []

abbrev cleaned : Fields
cleaned = ("tier", Value.text "gold") ∷ ("seats", Value.number "12") ∷ []

validate_custom_fields_test :
    validate_custom_fields conversions defs (some submitted) ≡ valid cleaned
unfolding validate_custom_fields check_fields check_field
validate_custom_fields_test = refl

validate_custom_fields-stores_example : All (IsStored conversions submitted cleaned) (active defs)
validate_custom_fields-stores_example =
    validate_custom_fields-stores conversions defs (some submitted) cleaned
      ((ne-of-== ⦃e = string_eq⦄ "tier" "seats" refl, tt), (tt, tt)) validate_custom_fields_test

validate_custom_fields-typed_example : All (λ f. is_typed defs f.0 f.1 ≡ true) cleaned
validate_custom_fields-typed_example =
    validate_custom_fields-typed conversions defs (some submitted) cleaned
      validate_custom_fields_test

validate_custom_fields-invalid_iff_example :
    (validate_custom_fields conversions defs none ≡ invalid (FieldError.is_required "tier"))
    ↔ FirstFault conversions (active defs) [] (FieldError.is_required "tier")
validate_custom_fields-invalid_iff_example =
    validate_custom_fields-invalid_iff conversions defs none (FieldError.is_required "tier")

abbrev before : Db
before = record start {
  directory = record empty_directory { counters = record { tenant_id = "t"; next_value = 3 } ∷ [] };
}

abbrev request : NewTicket
request = record {
  subject = "disk full";
  contact_id = none;
  contact = some (record { name = "Cy"; email = "cy@example.com" });
  source = "email";
  source_detail = none;
  ticket_type_id = none;
  group_id = none;
  agent_id = some "bob";
  required_skill = none;
  resource_id = none;
  priority = none;
  platform = none;
  tags = none;
  custom_fields = none;
}

abbrev no_order : String → String → Bool
no_order a b = true

abbrev pub outcome : {A : Type 0} → A → Result A → A
outcome other (ok a) = a
outcome other (err e) = other

unfoldable new_ticket : Ticket × Db
unfolding create resolve_contact upsert_contact_by_email contact_by_email type_defaults
    assert_belongs_to_tenant belongs insert_new fetch_sla_policy next_ticket_number checked_fields
    load_defs choose_agent insert_row insert_ticket
new_ticket =
    outcome (disk, before)
      (create plain conversions day_count no_order no_order 100 "t" "c9" "x9" request before)

created_ok :
    create plain conversions day_count no_order no_order 100 "t" "c9" "x9" request before
    ≡ ok (new_ticket.0, new_ticket.1)
unfolding new_ticket create resolve_contact upsert_contact_by_email contact_by_email type_defaults
    assert_belongs_to_tenant belongs insert_new fetch_sla_policy next_ticket_number checked_fields
    load_defs choose_agent insert_row insert_ticket calculate_due_dates validate_custom_fields
    check_fields run_rules run_each active_rules is_triggered apply_actions apply_action
    action_field set_property change_property written resolved_at_clause condition_matches
    column_accepts sort_by
created_ok = refl

create-Numbered_example : Numbered new_ticket.1
create-Numbered_example =
    create-Numbered plain conversions day_count no_order no_order 100 "t" "c9" "x9" request before
      (
        (omega arith, (omega arith, tt)),
        (((λ e. let k : 1 ≡ 2 = ap (λ (k : String × ℕ). k.1) e in omega arith), tt), (tt, tt)),
      )
      new_ticket.0 new_ticket.1 created_ok

create-IsOwned_example :
    (row : Ticket) × (inserted : Db) × (run_rules plain 100 "t" ticket_created row inserted
      ≡ ok (new_ticket.0, new_ticket.1))
    × (inserted.tickets ≡ before.tickets ++ row ∷ [])
    × (row.id ≡ "x9")
    × IsOwned "t" row inserted
    × (is_named (some "bob") row.agent_id ≡ true)
    × (row.ticket_number ≡ next_value "t" before.directory.counters)
    × (next_value "t" inserted.directory.counters ≡ row.ticket_number + 1)
create-IsOwned_example =
    create-IsOwned plain conversions day_count no_order no_order 100 "t" "c9" "x9" request before
      new_ticket.0 new_ticket.1 created_ok

abbrev patch : TicketPatch
patch = record {
  status = some "closed";
  priority = none;
  platform = some none;
  group_id = none;
  agent_id = some (some "bob");
  ticket_type_id = none;
  tags = some ("disk" ∷ "" ∷ "disk" ∷ []);
  custom_fields = none;
}

unfoldable changed_ticket : (Ticket × List UpdateEffect) × Db
unfolding update
changed_ticket =
    outcome ((disk, []), start)
      (update plain conversions day_count 100 "t" (some "ann") "x1" patch start)

changed_ok :
    update plain conversions day_count 100 "t" (some "ann") "x1" patch start
    ≡ ok (changed_ticket.0, changed_ticket.1)
unfolding changed_ticket update apply_patch merged_fields sla_change write_patch track given
    assert_belongs_to_tenant belongs agent_email run_rules run_each active_rules is_triggered
    sort_by
changed_ok = refl

update-Run_example : Run "t" disk start changed_ticket.0.0 changed_ticket.1
update-Run_example =
    update-Run plain conversions day_count 100 "t" (some "ann") "x1" patch start disk refl
      changed_ticket.0 changed_ticket.1 changed_ok

update-AllSettled_example : AllSettled changed_ticket.1
update-AllSettled_example =
    update-AllSettled plain conversions day_count 100 "t" (some "ann") "x1" patch start disk
      (refl, (refl, tt)) refl changed_ticket.0 changed_ticket.1 changed_ok

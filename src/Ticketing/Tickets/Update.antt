-- ===== src/Ticketing/Tickets/Update.antt =====
-- The transaction that changes a ticket's properties (`update` of apps/api/src/modules/ticketing/
-- tickets.service.ts).
use claude_cloud_ops_tool.Base.{
  Bool, List, Option, String, Tx, [], db_error, default_to, false, filter, find, gets,
  if◌then◌else◌, map, nat_eq, none, not, not_found, option_eq, pure, require, some, string_eq, ℕ,
  ◌++◌, ◌==◌, ◌>>=◌, ◌>>◌, ◌∷◌,
}
use claude_cloud_ops_tool.Ticketing.Values.{Fields}
use claude_cloud_ops_tool.Ticketing.Fields.{Conversions}
use claude_cloud_ops_tool.Ticketing.Sla.{Calendar, SlaDueDates, calculate_due_dates}
use claude_cloud_ops_tool.Ticketing.Db.{Db, Ticket, Trigger, is_ticket, update_ticket}
use claude_cloud_ops_tool.Ticketing.Automation.Engine.{TextOps, is_closing, run_rules}
use claude_cloud_ops_tool.Ticketing.Tickets.Checks.{
  agents, assert_given, fetch_sla_policy, groups, hours_for, ticket_types,
}
use claude_cloud_ops_tool.Ticketing.Tickets.Create.{checked_fields}
use claude_cloud_ops_tool.Ticketing.Tickets.Patch.{
  TicketPatch, UpdateEffect, assign_all, assigned_agent, create_article, has_sets,
  insert_activities, new_sla_policy_id, notify_agent_assignment, overlay, resolved_now, track,
  tracked_columns, unique,
}

module _ (js : Conversions) (tenant : String) where
  -- The stored map under the submitted one, validated as a whole.
  unfoldable pub merged_fields : Ticket → TicketPatch → Tx Db (Option Fields)
  merged_fields existing dto = elim dto.custom_fields [
    | none ↦ pure none
    | some submitted ↦ do
      fields ← checked_fields js tenant (some (overlay existing.custom_fields submitted))
      pure (some fields)
  ]

module _ (calendar : Calendar) (tenant : String) where
  unfoldable pub recalculate : Ticket → Option String → Tx Db (Option (Option String × SlaDueDates))
  recalculate existing policy_id = do
    policy ← gets (fetch_sla_policy tenant policy_id)
    hours ← gets (hours_for tenant policy)
    dates ← require (calculate_due_dates calendar existing.created_at policy hours) db_error
    pure (some (policy_id, dates))

  -- The policy and the due dates, if a new type brings another policy.
  unfoldable pub sla_change : Ticket → TicketPatch → Tx Db (Option (Option String × SlaDueDates))
  sla_change existing dto = elim dto.ticket_type_id [
    | none ↦ pure none
    | some type ↦ do
      policy_id ← gets (new_sla_policy_id tenant type)
      if policy_id == existing.sla_policy_id then pure none else recalculate existing policy_id
  ]

module _ (text : TextOps) (now : ℕ) where
  -- The row that the UPDATE leaves.
  abbrev pub patched :
      TicketPatch → Option Fields → Option (Option String × SlaDueDates) → Ticket → Ticket
  patched dto fields sla row =
      let t = assign_all dto tracked_columns row in
      record t {
        resolved_at = elim dto.status [
          | none ↦ t.resolved_at
          | some s ↦ if is_closing s then some now else none
        ];
        tags = elim dto.tags [
          | none ↦ t.tags
          | some tags ↦ unique (filter (λ tag. not (tag == "")) (map text.trim tags))
        ];
        custom_fields = default_to t.custom_fields fields;
        sla_policy_id = elim sla [ none ↦ t.sla_policy_id | some s ↦ s.0 ];
        first_response_due_at = elim sla [
          | none ↦ t.first_response_due_at
          | some s ↦ s.1.first_response_due_at
        ];
        resolution_due_at = elim sla [
          | none ↦ t.resolution_due_at
          | some s ↦ s.1.resolution_due_at
        ];
        updated_at = now;
      }

module _ (text : TextOps) (js : Conversions) (calendar : Calendar) (now : ℕ) (tenant : String) where
  -- The UPDATE, the rows of the timeline and the rules.
  unfoldable pub write_patch :
      Option String
      → Ticket
      → TicketPatch
      → Option Fields
      → Option (Option String × SlaDueDates)
      → Tx Db Ticket
  write_patch actor existing dto fields sla = do
    row ← update_ticket tenant existing.id (patched text now dto fields sla)
    insert_activities tenant (track tenant actor existing dto tracked_columns)
    run_rules text now tenant Trigger.ticket_updated row

  -- The transaction of `update`: the ticket, and what to start after the commit.
  unfoldable pub apply_patch :
      Option String → Ticket → TicketPatch → Tx Db (Ticket × Option String × Bool)
  apply_patch actor existing dto = do
    assert_given tenant groups (default_to none dto.group_id)
    assert_given tenant agents (default_to none dto.agent_id)
    assert_given tenant ticket_types (default_to none dto.ticket_type_id)
    fields ← merged_fields js tenant existing dto
    sla ← sla_change calendar tenant existing dto
    let write : Tx Db (Ticket × Option String × Bool) = do
      t ← write_patch actor existing dto fields sla
      pure (t, assigned_agent tenant existing dto, resolved_now tenant existing dto)
    if has_sets dto then write else pure (existing, none, false)

  -- `update`
  unfoldable pub update : Option String → String → TicketPatch → Tx Db (Ticket × List UpdateEffect)
  update actor id dto = do
    found ← gets (λ db. find (is_ticket tenant id) db.tickets)
    existing ← require found not_found
    done ← apply_patch actor existing dto
    mail ← gets (notify_agent_assignment tenant done.1 done.0)
    pure (done.0, mail ++ (if done.2 then create_article id ∷ [] else []))

-- ===== src/Ticketing/Tickets/Patch.antt =====
-- What a change of a ticket's properties assigns and tracks (`update` of apps/api/src/modules/ticketing/
-- tickets.service.ts). `null` as a status or a priority, which the columns refuse, is left out.
use mathlib.Core.Option
use claude_cloud_ops_tool.Base.{
  Bool, List, Option, String, Tx, [], any, filter, find, if◌then◌else◌, is_some, modify, nat_eq,
  none, not, option_eq, some, string_eq, ℕ, ◌&&◌, ◌++◌, ◌==◌, ◌||◌, ◌∷◌,
}
use claude_cloud_ops_tool.Ticketing.Values.{Fields, set_key}
use claude_cloud_ops_tool.Ticketing.Db.{Activity, Column, Db, Ticket}
use claude_cloud_ops_tool.Ticketing.Automation.Engine.{column_value}
use claude_cloud_ops_tool.Ticketing.Tickets.Checks.{ticket_type_of}

-- `UpdateTicketDto`. Of an inner option, `none` is `null`.
pub record TicketPatch : Type 0 where
  pub status : Option String
  pub priority : Option String
  pub platform : Option (Option String)
  pub group_id : Option (Option String)
  pub agent_id : Option (Option String)
  pub ticket_type_id : Option (Option String)
  pub tags : Option (List String)
  pub custom_fields : Option Fields

-- The value that a request gives for a tracked column.
unfoldable pub given : TicketPatch → Column → Option (Option String)
given dto Column.status = Option.map some dto.status
given dto Column.priority = Option.map some dto.priority
given dto Column.platform = dto.platform
given dto Column.group_id = dto.group_id
given dto Column.agent_id = dto.agent_id
given dto Column.ticket_type_id = dto.ticket_type_id

-- The order of the assignments.
abbrev pub tracked_columns : List Column
tracked_columns =
    Column.status ∷ Column.priority ∷ Column.platform ∷ Column.group_id ∷ Column.agent_id
    ∷ Column.ticket_type_id ∷ []

-- `assign(column, value)`
abbrev pub assign : Column → Option String → Ticket → Ticket
assign Column.status (some v) t = record t { status = v }
assign Column.status none t = t
assign Column.priority (some v) t = record t { priority = v }
assign Column.priority none t = t
assign Column.platform v t = record t { platform = v }
assign Column.group_id v t = record t { group_id = v }
assign Column.agent_id v t = record t { agent_id = v }
assign Column.ticket_type_id v t = record t { ticket_type_id = v }

abbrev pub assign_given : TicketPatch → Column → Ticket → Ticket
assign_given dto c t = elim (given dto c) [ none ↦ t | some v ↦ assign c v t ]

abbrev pub assign_all : TicketPatch → List Column → Ticket → Ticket
assign_all dto [] t = t
assign_all dto (c ∷ cs) t = assign_all dto cs (assign_given dto c t)

-- `Array.from(new Set(…))`
abbrev pub unique : List String → List String
unique [] = []
unique (x ∷ xs) = x ∷ filter (λ y. not (y == x)) (unique xs)

-- `{ ...stored, ...submitted }`
abbrev pub overlay : Fields → Fields → Fields
overlay stored [] = stored
overlay stored (f ∷ fs) = overlay (set_key f.0 f.1 stored) fs

abbrev pub is_given : TicketPatch → Column → Bool
is_given dto c = is_some (given dto c)

-- Whether there is anything to set.
abbrev pub has_sets : TicketPatch → Bool
has_sets dto = any (is_given dto) tracked_columns || is_some dto.tags || is_some dto.custom_fields

-- What `update` starts after the commit.
pub data UpdateEffect : Type 0 where
  assignment_email : (recipient : String) (ticket_number : ℕ) (subject : String) → UpdateEffect
  create_article : (ticket : String) → UpdateEffect

module _ (tenant : String) where
  -- `trackChange`: the rows of the timeline, for the columns whose value differs.
  unfoldable pub track : Option String → Ticket → TicketPatch → List Column → List Activity
  track actor existing dto [] = []
  track actor existing dto (c ∷ cs) =
      let rest = track actor existing dto cs in
      elim (given dto c) [
        | none ↦ rest
        | some v ↦
            if column_value existing c == v
            then rest
            else record {
              tenant_id = tenant;
              ticket_id = existing.id;
              field = c;
              old_value = column_value existing c;
              new_value = v;
              actor_agent_id = actor;
            }
              ∷ rest
      ]

  abbrev pub insert_activities : List Activity → Tx Db (Unit {0})
  insert_activities rows = modify (λ db. record db { activities = db.activities ++ rows })

  -- The SLA policy of the new ticket type.
  unfoldable pub new_sla_policy_id : Option String → Db → Option String
  new_sla_policy_id none db = none
  new_sla_policy_id (some id) db = elim (ticket_type_of tenant id db) [
    | none ↦ none
    | some t ↦ t.default_sla_policy_id
  ]

  -- `assignedAgentId`
  abbrev pub assigned_agent : Ticket → TicketPatch → Option String
  assigned_agent existing dto = elim dto.agent_id [
    | none ↦ none
    | some v ↦ if existing.agent_id == v then none else v
  ]

  abbrev pub resolved_now : Ticket → TicketPatch → Bool
  resolved_now existing dto = dto.status == some "resolved" && not (existing.status == "resolved")

  unfoldable pub agent_email : String → Db → Option String
  agent_email id db = elim (find (λ a. a.tenant_id == tenant && a.id == id) db.agents) [
    | none ↦ none
    | some a ↦ a.email
  ]

  -- `notifyAgentAssignment`
  abbrev pub notify_agent_assignment : Option String → Ticket → Db → List UpdateEffect
  notify_agent_assignment none t db = []
  notify_agent_assignment (some agent) t db = elim (agent_email agent db) [
    | none ↦ []
    | some email ↦ if email == "" then [] else assignment_email email t.ticket_number t.subject ∷ []
  ]

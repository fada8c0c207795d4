-- ===== src/Ticketing/Tickets/Checks.antt =====
-- What a new ticket is checked against and numbered by (the helpers of `create` in
-- apps/api/src/modules/ticketing/tickets.service.ts).
use mathlib.Core.Option
use claude_cloud_ops_tool.Base.{
  Bool, List, Option, String, Tx, [], any, bad_request, db_error, filter, find, gets, guard,
  if◌then◌else◌, leb, ltb, map, modify, nat_eq, none, not, option_eq, pure, some, sort_by,
  string_eq, throw, update_where, ℕ, ◌&&◌, ◌++◌, ◌+◌, ◌==◌, ◌>>=◌, ◌>>◌, ◌||◌, ◌∷◌,
}
use claude_cloud_ops_tool.Ticketing.Directory.{Contact, Counter, TicketType}
use claude_cloud_ops_tool.Ticketing.Values.{FieldDef, Fields}
use claude_cloud_ops_tool.Ticketing.Sla.{BusinessHours, SlaTargets}
use claude_cloud_ops_tool.Ticketing.Db.{Db, Ticket}

pub record InlineContact : Type 0 where
  pub name : String
  pub email : String

-- `CreateTicketDto`
pub record NewTicket : Type 0 where
  pub subject : String
  pub contact_id : Option String
  pub contact : Option InlineContact
  pub source : String
  pub source_detail : Option String
  pub ticket_type_id : Option String
  pub group_id : Option String
  pub agent_id : Option String
  pub required_skill : Option String
  pub resource_id : Option String
  pub priority : Option String
  pub platform : Option String
  pub tags : Option (List String)
  pub custom_fields : Option Fields

-- The tables of which `assertBelongsToTenant` is asked.
pub data Table : Type 0 where
  contacts ticket_types groups agents resources : Table

-- Tenants and identifiers of the rows of a table.
abbrev pub rows_of : Table → Db → List (String × String)
rows_of contacts db = map (λ c. (c.tenant_id, c.id)) db.directory.contacts
rows_of ticket_types db = map (λ t. (t.tenant_id, t.id)) db.directory.ticket_types
rows_of groups db = map (λ g. (g.tenant_id, g.id)) db.groups
rows_of agents db = map (λ a. (a.tenant_id, a.id)) db.agents
rows_of resources db = map (λ r. (r.tenant_id, r.id)) db.directory.resources

-- A UUID that a request leaves out.
abbrev pub or_else : Option String → Option String → Option String
or_else none b = b
or_else (some a) b = some a

abbrev pub value_of : Option Counter → ℕ
value_of none = 1
value_of (some c) = c.next_value

abbrev pub count_up : Counter → Counter
count_up c = record c { next_value = c.next_value + 1 }

module _ (tenant : String) where
  abbrev pub first_counter : Counter
  first_counter = record { tenant_id = tenant; next_value = 2 }

  unfoldable pub belongs : Table → String → Db → Bool
  belongs table id db = any (λ r. r.0 == tenant && r.1 == id) (rows_of table db)

  unfoldable pub assert_belongs_to_tenant : Table → String → Tx Db (Unit {0})
  assert_belongs_to_tenant table id = do found ← gets (belongs table id); guard found bad_request

  -- `if (id) await assertBelongsToTenant(…)`
  abbrev pub assert_given : Table → Option String → Tx Db (Unit {0})
  assert_given table none = pure tt
  assert_given table (some id) = assert_belongs_to_tenant table id

  abbrev pub insert_contact : Contact → Tx Db (Unit {0})
  insert_contact c = modify (λ db. record db {
    directory = record db.directory { contacts = db.directory.contacts ++ c ∷ [] };
  })

  -- SELECT id FROM contacts WHERE email = …
  unfoldable pub contact_by_email : String → Db → Option Contact
  contact_by_email email db =
      find (λ c. c.tenant_id == tenant && c.email == some email) db.directory.contacts

  unfoldable pub upsert_contact_by_email : String → InlineContact → Tx Db String
  upsert_contact_by_email new_id contact = do
    existing ← gets (contact_by_email contact.email)
    elim existing [
      | some c ↦ pure c.id
      | none ↦ do
        insert_contact (record {
          id = new_id;
          tenant_id = tenant;
          name = contact.name;
          email = some contact.email;
        })
        pure new_id
    ]

  abbrev pub is_counter : Counter → Bool
  is_counter c = c.tenant_id == tenant

  -- The next value of the tenant's counter: 1 with no row.
  abbrev pub next_value : List Counter → ℕ
  next_value counters = value_of (find is_counter counters)

  -- INSERT … ON CONFLICT (tenant_id) DO UPDATE
  abbrev pub upsert_counter : List Counter → List Counter
  upsert_counter counters =
      if any is_counter counters
      then update_where is_counter count_up counters
      else counters ++ first_counter ∷ []

  unfoldable pub next_ticket_number : Tx Db ℕ
  next_ticket_number = do
    number ← gets (λ db. next_value db.directory.counters)
    modify (λ db. record db {
      directory = record db.directory { counters = upsert_counter db.directory.counters };
    })
    pure number

  unfoldable pub fetch_sla_policy : Option String → Db → Option SlaTargets
  fetch_sla_policy none db = none
  fetch_sla_policy (some id) db =
      Option.map (λ p. p.targets)
        (find (λ p. p.tenant_id == tenant && p.id == id) db.directory.sla_policies)

  unfoldable pub fetch_business_hours : Db → Option BusinessHours
  fetch_business_hours db =
      Option.map (λ t. t.hours) (find (λ t. t.id == tenant) db.directory.tenants)

  -- `slaPolicy?.business_hours_only ? await fetchBusinessHours(…) : null`
  abbrev pub hours_for : Option SlaTargets → Db → Option BusinessHours
  hours_for none db = none
  hours_for (some policy) db = if policy.business_hours_only then fetch_business_hours db else none

  -- `loadDefs`
  unfoldable pub load_defs : Db → List FieldDef
  load_defs db =
      sort_by
        (λ a b.
          ltb a.position b.position || (a.position == b.position && leb a.created_at b.created_at))
        (filter (λ d. d.tenant_id == tenant) db.directory.field_defs)

  unfoldable pub ticket_type_of : String → Db → Option TicketType
  ticket_type_of id db = find (λ t. t.tenant_id == tenant && t.id == id) db.directory.ticket_types

  -- The contact of a new ticket.
  unfoldable pub resolve_contact : String → NewTicket → Tx Db String
  resolve_contact new_id dto = elim dto.contact_id [
    | some id ↦ do assert_belongs_to_tenant contacts id; pure id
    | none ↦ elim dto.contact [
      | some contact ↦ upsert_contact_by_email new_id contact
      | none ↦ throw bad_request
    ]
  ]

  -- The group and the SLA policy that the ticket type sets.
  unfoldable pub type_defaults : NewTicket → Tx Db (Option String × Option String)
  type_defaults dto = elim dto.ticket_type_id [
    | none ↦ pure (dto.group_id, none)
    | some id ↦ do
      assert_belongs_to_tenant ticket_types id
      type ← gets (ticket_type_of id)
      elim type [
        | none ↦ pure (dto.group_id, none)
        | some t ↦ pure (or_else dto.group_id t.default_group_id, t.default_sla_policy_id)
      ]
  ]

  -- UNIQUE (tenant_id, ticket_number). The foreign keys of the row have been checked, and its
  -- enumerations by the request's DTO.
  unfoldable pub insert_ticket : Ticket → Tx Db (Unit {0})
  insert_ticket t = do
    taken ← gets (λ db.
        any (λ u. u.tenant_id == t.tenant_id && u.ticket_number == t.ticket_number) db.tickets)
    guard (not taken) db_error
    modify (λ db. record db { tickets = db.tickets ++ t ∷ [] })

-- ===== src/Ticketing/Tickets/Ownership.antt =====
-- The rows that a new ticket refers to are rows of its tenant, and a new ticket has no resolution time
-- (apps/api/src/modules/ticketing/tickets.service.ts).
use claude_cloud_ops_tool.Base.{
  ==_refl, All-append, Bool, List, Option, String, [], ap, is_some, nat_eq, none, not, ok,
  option_eq, refl, some, string_eq, subst, sym, true, ℕ, ◌++◌, ◌+◌, ◌==◌, ◌||◌, ◌∙◌, ◌∷◌, ◌≡◌,
}
use claude_cloud_ops_tool.Ticketing.Fields.{Conversions}
use claude_cloud_ops_tool.Ticketing.Sla.{Calendar}
use claude_cloud_ops_tool.Ticketing.Db.{Cursor, Db, Ticket, Trigger}
use claude_cloud_ops_tool.Ticketing.Automation.Engine.{TextOps, run_rules}
use claude_cloud_ops_tool.Ticketing.Automation.Resolved.{
  AllSettled, IsSettled, run_rules-AllSettled,
}
use claude_cloud_ops_tool.Ticketing.Tickets.Checks.{
  NewTicket, Table, agents, belongs, contacts, groups, next_value, resources, ticket_types,
}
use claude_cloud_ops_tool.Ticketing.Tickets.Create.{create, new_row}
use claude_cloud_ops_tool.Ticketing.Tickets.Created.{create-Created, with_row}
use claude_cloud_ops_tool.Ticketing.Tickets.Steps.{owned, with_contacts}
use claude_cloud_ops_tool.Ticketing.Tickets.Numbers.{next_value-upsert}

-- Every row that a ticket refers to is one of the ticket's tenant.
abbrev pub IsOwned : String → Ticket → Db → Type 0
IsOwned tenant t db =
    (t.tenant_id ≡ tenant)
    × (belongs tenant contacts t.contact_id db ≡ true)
    × (owned tenant ticket_types t.ticket_type_id db ≡ true)
    × (owned tenant groups t.group_id db ≡ true)
    × (owned tenant agents t.agent_id db ≡ true)
    × (owned tenant resources t.resource_id db ≡ true)

belongs-with_row :
    (tenant : String) (table : Table) (id : String) (cs : List Cursor) (row : Ticket) (db : Db)
    → belongs tenant table id (with_row tenant cs row db) ≡ belongs tenant table id db
unfolding belongs
belongs-with_row tenant contacts id cs row db = refl
belongs-with_row tenant ticket_types id cs row db = refl
belongs-with_row tenant groups id cs row db = refl
belongs-with_row tenant agents id cs row db = refl
belongs-with_row tenant resources id cs row db = refl

owned-with_row :
    (tenant : String) (table : Table) (o : Option String) (cs : List Cursor) (row : Ticket)
    (db : Db)
    → owned tenant table o (with_row tenant cs row db) ≡ owned tenant table o db
owned-with_row tenant table none cs row db = refl
owned-with_row tenant table (some id) cs row db = belongs-with_row tenant table id cs row db

-- An agent that the request names, if any, is the one given.
abbrev pub is_named : Option String → Option String → Bool
is_named asked got = not (is_some asked) || got == asked

named-of_pinned :
    (asked got : Option String)
    → ((a : String) → asked ≡ some a → got ≡ some a)
    → is_named asked got ≡ true
named-of_pinned none got h = refl
named-of_pinned (some a) got h = rw (h a refl) (==_refl (some a))

module _ (text : TextOps) (js : Conversions) (calendar : Calendar)
    (uuid_le locale_le : String → String → Bool) (now : ℕ) (tenant : String) where
  -- A committed `create` adds one row to the end of the table of tickets, with the identifier that was
  -- generated, and then runs the rules of the trigger on this row in these tables, which gives its
  -- result. The contact, type, group, agent and resource of the row are rows of the tenant, it has the
  -- agent that the request names, if it names one, and the next number of the tenant, and in these
  -- tables the next number is one more.
  pub create-IsOwned :
      (new_contact id : String) (dto : NewTicket) (db : Db) (t : Ticket) (db' : Db)
      → create text js calendar uuid_le locale_le now tenant new_contact id dto db ≡ ok (t, db')
      → (row : Ticket) × (inserted : Db) × (run_rules text now tenant Trigger.ticket_created row
            inserted
          ≡ ok (t, db'))
        × (inserted.tickets ≡ db.tickets ++ row ∷ [])
        × (row.id ≡ id)
        × IsOwned tenant row inserted
        × (is_named dto.agent_id row.agent_id ≡ true)
        × (row.ticket_number ≡ next_value tenant db.directory.counters)
        × (next_value tenant inserted.directory.counters ≡ row.ticket_number + 1)
  create-IsOwned new_contact id dto db t db' e =
      let c =
        create-Created text js calendar uuid_le locale_le now tenant new_contact id dto db t db'
          e in
      let i = c.inserted in
      let before = with_contacts c.known db in
      let moved : (table : Table) (o : Option String)
          → owned tenant table o before ≡ true
          → owned tenant table o c.inserted_db ≡ true =
        λ table o h.
          ap (owned tenant table o) i.appended
          ∙ owned-with_row tenant table o i.cursors c.row before
          ∙ h in
      let new : IsOwned tenant
          (new_row now tenant id (next_value tenant db.directory.counters) dto c.contact c.defaults
            i.dates i.fields i.agent)
          c.inserted_db =
        (
          refl,
          moved contacts (some c.contact) c.contact_owned,
          moved ticket_types dto.ticket_type_id c.type_owned,
          moved groups c.defaults.0 c.group_owned,
          moved agents i.agent i.assigned,
          moved resources dto.resource_id c.resource_owned,
        ) in
      (
        c.row,
        c.inserted_db,
        c.ran,
        ap (λ (d : Db). d.tickets) i.appended,
        ap (λ r. r.id) i.is_row,
        subst (λ r. IsOwned tenant r c.inserted_db) (sym i.is_row) new,
        subst (λ r. is_named dto.agent_id r.agent_id ≡ true) (sym i.is_row)
            (named-of_pinned dto.agent_id i.agent i.pinned),
        ap (λ r. r.ticket_number) i.is_row,
        ap (λ (d : Db). next_value tenant d.directory.counters) i.appended
            ∙ next_value-upsert tenant db.directory.counters
            ∙ sym (ap (λ r. r.ticket_number + 1) i.is_row),
      )

  -- If every ticket has a resolution time exactly while it is resolved or closed, a committed `create`
  -- keeps it so, the rules that it runs included.
  pub create-AllSettled :
      (new_contact id : String) (dto : NewTicket) (db : Db)
      → AllSettled db
      → (t : Ticket) (db' : Db)
      → create text js calendar uuid_le locale_le now tenant new_contact id dto db ≡ ok (t, db')
      → AllSettled db'
  create-AllSettled new_contact id dto db h t db' e =
      let c =
        create-Created text js calendar uuid_le locale_le now tenant new_contact id dto db t db'
          e in
      let i = c.inserted in
      let new : IsSettled c.row = subst IsSettled (sym i.is_row) refl in
      run_rules-AllSettled text now tenant Trigger.ticket_created c.row c.inserted_db
        (subst AllSettled (sym i.appended)
          (All-append IsSettled db.tickets (c.row ∷ []) h (new, tt)))
        t db' c.ran

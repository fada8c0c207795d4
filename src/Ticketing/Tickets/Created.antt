-- ===== src/Ticketing/Tickets/Created.antt =====
-- What `create` has done once it commits: the row that it inserts, the tables before that, and the
-- rules run after it (apps/api/src/modules/ticketing/tickets.service.ts).
use claude_cloud_ops_tool.Base.{
  >>=-eq-ok, Bool, List, Option, String, Tx, [], ap, arith, bad_request, db_error, none, ok, pure,
  refl, require, require-inv, some, subst, sym, throw, true, ℕ, ◌++◌, ◌∙◌, ◌∷◌, ◌≡◌,
}
use claude_cloud_ops_tool.Ticketing.Directory.{Contact}
use claude_cloud_ops_tool.Ticketing.Values.{Fields}
use claude_cloud_ops_tool.Ticketing.Fields.{
  Conversions, Validation, invalid, valid, validate_custom_fields,
}
use claude_cloud_ops_tool.Ticketing.Sla.{Calendar, SlaDueDates, calculate_due_dates}
use claude_cloud_ops_tool.Ticketing.Db.{Cursor, Db, Ticket, Trigger}
use claude_cloud_ops_tool.Ticketing.Automation.Engine.{TextOps, run_rules}
use claude_cloud_ops_tool.Ticketing.Tickets.Checks.{
  NewTicket, agents, assert_given, belongs, contacts, fetch_sla_policy, groups, hours_for,
  insert_ticket, load_defs, next_ticket_number, next_value, resolve_contact, resources,
  ticket_types, type_defaults, upsert_counter,
}
use claude_cloud_ops_tool.Ticketing.Tickets.Create.{
  checked_fields, choose_agent, create, insert_new, insert_row, new_row,
}
use claude_cloud_ops_tool.Ticketing.Tickets.Steps.{
  assert_given-inv, choose_agent-inv, choose_agent-pinned, insert_ticket-inv, owned,
  resolve_contact-inv, type_defaults-inv, with_contacts,
}

-- The tables after a ticket number has been taken, agents have been assigned in turn and the row has
-- been added.
abbrev pub with_row : String → List Cursor → Ticket → Db → Db
with_row tenant cs row db = record db {
  tickets = db.tickets ++ row ∷ [];
  cursors = cs;
  directory = record db.directory { counters = upsert_counter tenant db.directory.counters };
}

abbrev pub counted : String → Db → Db
counted tenant db = record db {
  directory = record db.directory { counters = upsert_counter tenant db.directory.counters };
}

pub checked_fields-inv :
    (js : Conversions) (tenant : String) (submitted : Option Fields) (db : Db) (q : Fields × Db)
    → checked_fields js tenant submitted db ≡ ok q
    → q.1 ≡ db
unfolding checked_fields
checked_fields-inv js tenant submitted db q e =
    split (validate_custom_fields js (load_defs tenant db) submitted) e
  where
    split :
        (v : Validation)
        → (let m : Tx Db Fields = elim v [
          | valid fields ↦ pure fields
          | invalid c ↦ throw bad_request
        ] in
            m db)
          ≡ ok q
        → q.1 ≡ db
    split (valid fields) h = ground arith
    split (invalid c) h = cc

owned-counted :
    (tenant : String) (o : Option String) (db : Db)
    → owned tenant agents o (counted tenant db) ≡ owned tenant agents o db
unfolding belongs
owned-counted tenant none db = refl
owned-counted tenant (some id) db = refl

module _ (now : ℕ) (tenant : String) where
  -- The row that is inserted.
  pub record Inserted (id contact : String) (dto : NewTicket)
      (defaults : Option String × Option String) (db : Db) (row : Ticket) (db' : Db) : Type 0 where
    pub dates : SlaDueDates
    pub fields : Fields
    pub agent : Option String
    pub cursors : List Cursor
    pub is_row :
        row
        ≡ new_row now tenant id
            (next_value tenant db.directory.counters)
            dto
            contact
            defaults
            dates
            fields
            agent
    pub appended : db' ≡ with_row tenant cursors row db
    pub assigned : owned tenant agents agent db ≡ true
    pub pinned : (a : String) → dto.agent_id ≡ some a → agent ≡ some a

  module _ (uuid_le locale_le : String → String → Bool) where
    insert_row-Inserted :
        (id contact : String) (dto : NewTicket) (defaults : Option String × Option String)
        (dates : SlaDueDates) (fields : Fields) (db : Db) (row : Ticket) (db' : Db)
        → owned tenant agents dto.agent_id db ≡ true
        → insert_row uuid_le locale_le now tenant id
            (next_value tenant db.directory.counters)
            dto
            contact
            defaults
            dates
            fields
            (counted tenant db)
          ≡ ok (row, db')
        → Inserted id contact dto defaults db row db'
    unfolding insert_row
    insert_row-Inserted id contact dto defaults dates fields db row db' given e =
        let (q, chosen, rest) =
          >>=-eq-ok (choose_agent uuid_le locale_le now tenant dto defaults.0) _ (counted tenant db)
            e in
        let new =
          new_row now tenant id (next_value tenant db.directory.counters) dto contact defaults dates
            fields q.0 in
        let (u, added, last) = >>=-eq-ok (insert_ticket tenant new) (λ _. pure new) q.1 rest in
        let (cs, moved, member) =
          choose_agent-inv tenant uuid_le locale_le now dto defaults.0 q.0 (counted tenant db) q.1
            (owned-counted tenant dto.agent_id db ∙ given) chosen in
        let inserted = insert_ticket-inv tenant new q.1 u.1 u.0 added in
        let same : (new ≡ row) × (u.1 ≡ db') = (cc, cc) in
        record {
          dates = dates;
          fields = fields;
          agent = q.0;
          cursors = cs;
          is_row = sym same.0;
          appended =
              sym same.1
              ∙ inserted
              ∙ ap (λ (x : Db). record x { tickets = x.tickets ++ new ∷ [] }) moved
              ∙ ap (λ (r : Ticket). with_row tenant cs r db) same.0;
          assigned = sym (owned-counted tenant q.0 db) ∙ member;
          pinned =
              choose_agent-pinned tenant uuid_le locale_le now dto defaults.0 q.0
                (counted tenant db) q.1 chosen;
        }

module _ (text : TextOps) (js : Conversions) (calendar : Calendar)
    (uuid_le locale_le : String → String → Bool) (now : ℕ) (tenant : String) where
  insert_new-Inserted :
      (id contact : String) (dto : NewTicket) (defaults : Option String × Option String) (db : Db)
      (row : Ticket) (db' : Db)
      → owned tenant agents dto.agent_id db ≡ true
      → insert_new text js calendar uuid_le locale_le now tenant id dto contact defaults db
        ≡ ok (row, db')
      → Inserted now tenant id contact dto defaults db row db'
  unfolding insert_new next_ticket_number
  insert_new-Inserted id contact dto defaults db row db' given e =
      let policy = fetch_sla_policy tenant defaults.1 db in
      let hours = hours_for tenant policy db in
      let (q, dated, rest) =
        >>=-eq-ok (require (calculate_due_dates calendar now policy hours) db_error) _
          (counted tenant db) e in
      let (found, same) =
        require-inv (calculate_due_dates calendar now policy hours) db_error (counted tenant db) q
          dated in
      let (f, checked, last) = >>=-eq-ok (checked_fields js tenant dto.custom_fields) _ q.1 rest in
      let unmoved : f.1 ≡ counted tenant db =
        checked_fields-inv js tenant dto.custom_fields q.1 f checked ∙ same in
      insert_row-Inserted now tenant uuid_le locale_le id contact dto defaults q.0 f.0 db row db'
        given
        (subst
          (λ x.
            insert_row uuid_le locale_le now tenant id (next_value tenant db.directory.counters) dto
              contact defaults q.0 f.0 x
            ≡ ok (row, db'))
          unmoved last)

  -- What a committed `create` has done.
  pub record Created (id : String) (dto : NewTicket) (db : Db) (t : Ticket) (db' : Db)
      : Type 0 where
    pub contact : String
    pub known : List Contact
    pub defaults : Option String × Option String
    pub row : Ticket
    pub inserted_db : Db
    pub inserted :
        Inserted now tenant id contact dto defaults (with_contacts known db) row inserted_db
    pub ran : run_rules text now tenant Trigger.ticket_created row inserted_db ≡ ok (t, db')
    pub contact_owned : belongs tenant contacts contact (with_contacts known db) ≡ true
    pub type_owned : owned tenant ticket_types dto.ticket_type_id (with_contacts known db) ≡ true
    pub group_owned : owned tenant groups defaults.0 (with_contacts known db) ≡ true
    pub resource_owned : owned tenant resources dto.resource_id (with_contacts known db) ≡ true

  pub create-Created :
      (new_contact id : String) (dto : NewTicket) (db : Db) (t : Ticket) (db' : Db)
      → create text js calendar uuid_le locale_le now tenant new_contact id dto db ≡ ok (t, db')
      → Created id dto db t db'
  unfolding create
  create-Created new_contact id dto db t db' e =
      let (c, s1, e1) = >>=-eq-ok (resolve_contact tenant new_contact dto) _ db e in
      let (d, s2, e2) = >>=-eq-ok (type_defaults tenant dto) _ c.1 e1 in
      let (g, s3, e3) = >>=-eq-ok (assert_given tenant groups d.0.0) _ d.1 e2 in
      let (a, s4, e4) = >>=-eq-ok (assert_given tenant agents dto.agent_id) _ g.1 e3 in
      let (r, s5, e5) = >>=-eq-ok (assert_given tenant resources dto.resource_id) _ a.1 e4 in
      let (i, s6, e6) =
        >>=-eq-ok (insert_new text js calendar uuid_le locale_le now tenant id dto c.0 d.0) _ r.1
          e5 in
      let (cs, moved, contact) = resolve_contact-inv tenant new_contact c.0 dto db c.1 s1 in
      let (k2, typed) = type_defaults-inv tenant dto d.0 c.1 d.1 s2 in
      let (k3, grouped) = assert_given-inv tenant groups d.0.0 d.1 g.1 g.0 s3 in
      let (k4, assigned) = assert_given-inv tenant agents dto.agent_id g.1 a.1 a.0 s4 in
      let (k5, resourced) = assert_given-inv tenant resources dto.resource_id a.1 r.1 r.0 s5 in
      let k6 : g.1 ≡ with_contacts cs db = k3 ∙ k2 ∙ moved in
      let k7 : r.1 ≡ with_contacts cs db = k5 ∙ k4 ∙ k6 in
      record {
        contact = c.0;
        known = cs;
        defaults = d.0;
        row = i.0;
        inserted_db = i.1;
        inserted =
            subst (λ x. Inserted now tenant id c.0 dto d.0 x i.0 i.1) k7
              (insert_new-Inserted id c.0 dto d.0 r.1 i.0 i.1
                (subst (λ x. owned tenant agents dto.agent_id x ≡ true) (sym (k5 ∙ k4)) assigned)
                s6);
        ran = e6;
        contact_owned = subst (λ x. belongs tenant contacts c.0 x ≡ true) moved contact;
        type_owned = subst (λ x. owned tenant ticket_types dto.ticket_type_id x ≡ true) moved typed;
        group_owned = subst (λ x. owned tenant groups d.0.0 x ≡ true) (k2 ∙ moved) grouped;
        resource_owned =
            subst (λ x. owned tenant resources dto.resource_id x ≡ true) (k4 ∙ k6) resourced;
      }

-- ===== src/Ticketing/Tickets/Steps.antt =====
-- What the helpers of `create` have done once they commit (apps/api/src/modules/ticketing/
-- tickets.service.ts).
use claude_cloud_ops_tool.Base.{
  ==_refl, Bool, Bool-cases, List, Option, Option-cases, String, [], any-map_append, find-any-map,
  any-map_imp, arith, find-true, inl, inr, nat_eq, none, ok, option_eq, refl, some, string_eq,
  subst, sym, true, ℕ, ◌&&◌, ◌++◌, ◌==◌, ◌∷◌, ◌≡◌,
}
use claude_cloud_ops_tool.Ticketing.Directory.{Contact}
use claude_cloud_ops_tool.Ticketing.Db.{Cursor, Db, Group, Strategy, Ticket}
use claude_cloud_ops_tool.Ticketing.Assignment.{
  assign_by, load_group_config, pick_assignee, round_robin, upsert_cursor,
}
use claude_cloud_ops_tool.Ticketing.Assignment.Eligible.{pick_assignee-IsEligible}
use claude_cloud_ops_tool.Ticketing.Tickets.Create.{choose_agent}
use claude_cloud_ops_tool.Ticketing.Tickets.Checks.{
  InlineContact, NewTicket, Table, assert_belongs_to_tenant, assert_given, belongs, contacts,
  insert_ticket, contact_by_email, resolve_contact, ticket_type_of, ticket_types, type_defaults,
  upsert_contact_by_email, agents,
}

-- A given identifier is that of a row of the tenant.
abbrev pub owned : String → Table → Option String → Db → Bool
owned tenant table none db = true
owned tenant table (some id) db = belongs tenant table id db

-- The tables with other contacts.
abbrev pub with_contacts : List Contact → Db → Db
with_contacts cs db = record db { directory = record db.directory { contacts = cs } }

module _ (tenant : String) where
  pub assert_given-inv :
      (table : Table) (o : Option String) (db db' : Db) (u : Unit {0})
      → assert_given tenant table o db ≡ ok (u, db')
      → (db' ≡ db) × (owned tenant table o db ≡ true)
  unfolding assert_belongs_to_tenant
  assert_given-inv table none db db' u e = ground arith
  assert_given-inv table (some id) db db' u e = ground arith

  upsert-inv :
      (new_id c : String) (contact : InlineContact) (db db' : Db)
      → upsert_contact_by_email tenant new_id contact db ≡ ok (c, db')
      → (cs : List Contact) × (db' ≡ with_contacts cs db) × (belongs tenant contacts c db' ≡ true)
  unfolding upsert_contact_by_email belongs contact_by_email
  upsert-inv new_id c contact db db' e =
      elim (Option-cases (contact_by_email tenant contact.email db)) [
        | inl missing ↦
            let row : Contact = record {
              id = new_id;
              tenant_id = tenant;
              name = contact.name;
              email = some contact.email;
            } in
            let added = with_contacts (db.directory.contacts ++ row ∷ []) db in
            let same : (new_id ≡ c) × (added ≡ db') = ground arith in
            (
              db.directory.contacts ++ row ∷ [],
              sym same.1,
              subst (λ x. belongs tenant contacts c x ≡ true) same.1
                  (subst (λ k. belongs tenant contacts k added ≡ true) same.0
                    (any-map_append (λ k. (k.tenant_id, k.id)) (λ r. r.0 == tenant && r.1 == new_id)
                      db.directory.contacts row (rw (==_refl tenant, ==_refl new_id)))),
            )
        | inr (k, found) ↦
            let same : (k.id ≡ c) × (db ≡ db') = ground arith in
            let test = find-true _ db.directory.contacts found in
            (
              db.directory.contacts,
              sym same.1,
              subst (λ x. belongs tenant contacts c x ≡ true) same.1
                  (subst (λ k. belongs tenant contacts k db ≡ true) same.0
                    (find-any-map (λ k. (k.tenant_id, k.id)) _ (λ r. r.0 == tenant && r.1 == k.id)
                      db.directory.contacts found (let self = ==_refl k.id in ground arith))),
            )
      ]

  -- Only contacts may be added, and the contact is one of the tenant.
  pub resolve_contact-inv :
      (new_id c : String) (dto : NewTicket) (db db' : Db)
      → resolve_contact tenant new_id dto db ≡ ok (c, db')
      → (cs : List Contact) × (db' ≡ with_contacts cs db) × (belongs tenant contacts c db' ≡ true)
  unfolding resolve_contact assert_belongs_to_tenant
  resolve_contact-inv new_id c dto db db' e = elim (Option-cases dto.contact_id) [
    | inl omitted ↦ elim (Option-cases dto.contact) [
      | inl nobody ↦ absurd (ground arith)
      | inr (k, inline) ↦ upsert-inv new_id c k db db' (rw (omitted, inline, resolve_contact) at e)
    ]
    | inr (id, given) ↦ elim (Bool-cases (belongs tenant contacts id db)) [
      | inl t ↦
          let same : (id ≡ c) × (db ≡ db') = ground arith in
          (
            db.directory.contacts,
            sym same.1,
            subst (λ x. belongs tenant contacts c x ≡ true) same.1
                (subst (λ k. belongs tenant contacts k db ≡ true) same.0 t),
          )
      | inr t ↦ absurd (ground arith)
    ]
  ]

  pub type_defaults-inv :
      (dto : NewTicket) (d : Option String × Option String) (db db' : Db)
      → type_defaults tenant dto db ≡ ok (d, db')
      → (db' ≡ db) × (owned tenant ticket_types dto.ticket_type_id db ≡ true)
  unfolding type_defaults assert_belongs_to_tenant
  type_defaults-inv dto d db db' e = elim (Option-cases dto.ticket_type_id) [
    | inl omitted ↦ (ground arith, rw omitted refl)
    | inr (id, given) ↦ elim (Bool-cases (belongs tenant ticket_types id db)) [
      | inl t ↦ elim (Option-cases (ticket_type_of tenant id db)) [
        | inl missing ↦ (ground arith, rw given t)
        | inr (type, found) ↦ (ground arith, rw given t)
      ]
      | inr t ↦ absurd (ground arith)
    ]
  ]

  pub insert_ticket-inv :
      (t : Ticket) (db db' : Db) (u : Unit {0})
      → insert_ticket tenant t db ≡ ok (u, db')
      → db' ≡ record db { tickets = db.tickets ++ t ∷ [] }
  unfolding insert_ticket
  insert_ticket-inv t db db' u e = ground arith

  module _ (uuid_le locale_le : String → String → Bool) where
    round_robin-inv :
        (group : String) (ids : List String) (a : Option String) (db db' : Db)
        → round_robin tenant group ids db ≡ ok (a, db')
        → (cs : List Cursor) × (db' ≡ record db { cursors = cs })
    unfolding round_robin upsert_cursor
    round_robin-inv group [] a db db' e = (db.cursors, ground arith)
    round_robin-inv group (i ∷ ids) a db db' e = (db'.cursors, ground arith)

    assign_by-inv :
        (strategy : Strategy) (group : String) (skill a : Option String) (config : Group)
        (ids : List String) (db db' : Db)
        → config.assignment_strategy ≡ strategy
        → assign_by uuid_le locale_le tenant group skill config ids db ≡ ok (a, db')
        → (cs : List Cursor) × (db' ≡ record db { cursors = cs })
    unfolding assign_by
    assign_by-inv Strategy.manual group skill a config ids db db' same e =
        (db.cursors, ground arith)
    assign_by-inv Strategy.round_robin group skill a config ids db db' same e =
        round_robin-inv group ids a db db' (rw (same, assign_by) at e)
    assign_by-inv Strategy.load_based group skill a config ids db db' same e =
        (db.cursors, ground arith)
    assign_by-inv Strategy.skill_based group none a config ids db db' same e =
        (db.cursors, ground arith)
    assign_by-inv Strategy.skill_based group (some s) a config ids db db' same e =
        (db.cursors, ground arith)

    pick_assignee-inv :
        (group : String) (skill a : Option String) (db db' : Db)
        → pick_assignee uuid_le locale_le tenant group skill db ≡ ok (a, db')
        → (cs : List Cursor) × (db' ≡ record db { cursors = cs })
    unfolding pick_assignee
    pick_assignee-inv group skill a db db' e =
        elim (Option-cases (load_group_config tenant group db)) [
          | inl missing ↦ (db.cursors, ground arith)
          | inr (config, found) ↦
              assign_by-inv config.assignment_strategy group _ a config _ db db' refl
                (rw found at e)
        ]

    member :
        (group : String) (skill a : Option String) (db db' : Db)
        → pick_assignee uuid_le locale_le tenant group skill db ≡ ok (a, db')
        → owned tenant agents a db ≡ true
    unfolding belongs
    member group skill none db db' e = refl
    member group skill (some id) db db' e =
        let eligible = pick_assignee-IsEligible tenant group uuid_le locale_le skill db db' id e in
        any-map_imp (λ k. (k.tenant_id, k.id)) _ (λ r. r.0 == tenant && r.1 == id)
          (λ k h. ground arith) db.agents eligible.member

    -- Only the turns of a group may change, and the agent is one of the tenant.
    pub choose_agent-inv :
        (now : ℕ) (dto : NewTicket) (group a : Option String) (db db' : Db)
        → owned tenant agents dto.agent_id db ≡ true
        → choose_agent uuid_le locale_le now tenant dto group db ≡ ok (a, db')
        → (cs : List Cursor) × (db' ≡ record db { cursors = cs })
          × (owned tenant agents a db ≡ true)
    unfolding choose_agent
    choose_agent-inv now dto group a db db' given e = elim (Option-cases dto.agent_id) [
      | inr (id, pinned) ↦ (db.cursors, ground arith, ground arith)
      | inl free ↦ elim (Option-cases group) [
        | inl ungrouped ↦ (db.cursors, ground arith, ground arith)
        | inr (g, grouped) ↦
            let picked : pick_assignee uuid_le locale_le tenant g dto.required_skill db
                ≡ ok (a, db') =
              ground arith in
            let (cs, tables) = pick_assignee-inv g dto.required_skill a db db' picked in
            (cs, tables, member g dto.required_skill a db db' picked)
      ]
    ]

    -- An agent that the request names is kept.
    pub choose_agent-pinned :
        (now : ℕ) (dto : NewTicket) (group a : Option String) (db db' : Db)
        → choose_agent uuid_le locale_le now tenant dto group db ≡ ok (a, db')
        → (id : String) → dto.agent_id ≡ some id
        → a ≡ some id
    unfolding choose_agent
    choose_agent-pinned now dto group a db db' e id named = ground arith

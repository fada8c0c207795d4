-- ===== src/Ticketing/Tickets/Numbers.antt =====
-- Ticket numbers: every number is below the counter of its tenant, so that no two tickets of a tenant
-- share one (apps/api/src/modules/ticketing/tickets.service.ts).
use native.Mathlib.Nat.{lt_of_lt_of_le}
use mathlib.Core.List.{map-append}
use claude_cloud_ops_tool.Base.{
  ==-of-ne, ==_refl, All, All-append, All-imp, All-map, All-update_where, Bool, Bool-cases,
  IsDistinct, IsDistinct-append, List, String, [], any, ap, arith, eq-of-==, false, find,
  find-append_new, find-of_any, find-update_where, find-update_where_ne, inl, inr, map,
  map-update_where, nat_eq, ne-of-==, none, ok, option_eq, refl, string_eq, subst, sym,
  update_where, ℕ, ◌++◌, ◌+◌, ◌<◌, ◌==◌, ◌∙◌, ◌∷◌, ◌≡◌, ◌≢◌, ◌≤◌,
}
use claude_cloud_ops_tool.Ticketing.Directory.{Counter}
use claude_cloud_ops_tool.Ticketing.Fields.{Conversions}
use claude_cloud_ops_tool.Ticketing.Sla.{Calendar}
use claude_cloud_ops_tool.Ticketing.Db.{
  AutomationAction, Column, Cursor, Db, Ticket, Trigger, is_ticket,
}
use claude_cloud_ops_tool.Ticketing.Automation.Engine.{TextOps, written}
use claude_cloud_ops_tool.Ticketing.Automation.Effects.{Effect, changed, noted, same, tagged}
use claude_cloud_ops_tool.Ticketing.Automation.Keeps.{run_rules-Keeps}
use claude_cloud_ops_tool.Ticketing.Tickets.Checks.{
  NewTicket, count_up, first_counter, is_counter, next_value, upsert_counter, value_of,
}
use claude_cloud_ops_tool.Ticketing.Tickets.Create.{create}
use claude_cloud_ops_tool.Ticketing.Tickets.Steps.{with_contacts}
use claude_cloud_ops_tool.Ticketing.Tickets.Created.{create-Created, with_row}

abbrev pub number_key : Ticket → String × ℕ
number_key t = (t.tenant_id, t.ticket_number)

abbrev pub IsBelow : List Counter → Ticket → Type 0
IsBelow counters t = t.ticket_number < next_value t.tenant_id counters

-- Every ticket of every tenant has a number that its tenant's counter has passed, and no two tickets
-- of a tenant have the same number.
abbrev pub Numbered : Db → Type 0
Numbered db =
    All (IsBelow db.directory.counters) db.tickets × IsDistinct (map number_key db.tickets)

find-none_of_any : {A : Type 0} (p : A → Bool) (xs : List A) → any p xs ≡ false → find p xs ≡ none
find-none_of_any p [] h = refl
find-none_of_any p (x ∷ xs) h = ground (arith, find-none_of_any p xs)

find-append_other :
    {A : Type 0} (p : A → Bool) (xs : List A) (x : A)
    → p x ≡ false
    → find p (xs ++ x ∷ []) ≡ find p xs
find-append_other p [] x h = rw h
find-append_other p (y ∷ ys) x h = ground (arith, find-append_other p ys x h)

pub next_value-upsert :
    (tenant : String) (counters : List Counter)
    → next_value tenant (upsert_counter tenant counters) ≡ next_value tenant counters + 1
next_value-upsert tenant counters = elim (Bool-cases (any (is_counter tenant) counters)) [
  | inl t ↦
      let (c, found) = find-of_any (is_counter tenant) counters t in
      rw t (
        ap value_of (find-update_where (is_counter tenant) count_up (λ x e. e) counters found)
        ∙ sym (ap (λ o. value_of o + 1) found))
  | inr t ↦ rw t (
      ap value_of
        (find-append_new (is_counter tenant) counters (first_counter tenant) t (==_refl tenant))
      ∙ sym (ap (λ o. value_of o + 1) (find-none_of_any (is_counter tenant) counters t)))
]

-- The counters of the other tenants stay as they are.
next_value-upsert_other :
    (u tenant : String) (counters : List Counter)
    → tenant ≢ u
    → next_value u (upsert_counter tenant counters) ≡ next_value u counters
next_value-upsert_other u tenant counters other =
    elim (Bool-cases (any (is_counter tenant) counters)) [
      | inl t ↦ rw t (
          ap value_of (
            find-update_where_ne (is_counter u) (is_counter tenant) count_up
              (λ x e.
                let missed : is_counter u x ≡ false =
                  ==-of-ne x.tenant_id u (λ k. other (sym (eq-of-== x.tenant_id tenant e) ∙ k)) in
                (missed, missed))
              counters))
      | inr t ↦ rw t (
          ap value_of (
            find-append_other (is_counter u) counters (first_counter tenant)
              (==-of-ne tenant u other)))
    ]

next_value-upsert_le :
    (u tenant : String) (counters : List Counter)
    → next_value u counters ≤ next_value u (upsert_counter tenant counters)
next_value-upsert_le u tenant counters = elim (Bool-cases (tenant == u)) [
  | inl mine ↦
      subst (λ k. next_value k counters ≤ next_value k (upsert_counter tenant counters))
        (eq-of-== tenant u mine) (omega (arith, next_value-upsert tenant counters))
  | inr other ↦ omega (arith, next_value-upsert_other u tenant counters (ne-of-== tenant u other))
]

with_row-Numbered :
    (tenant : String) (cs : List Cursor) (row : Ticket) (db : Db)
    → row.tenant_id ≡ tenant
    → row.ticket_number ≡ next_value tenant db.directory.counters
    → Numbered db
    → Numbered (with_row tenant cs row db)
with_row-Numbered tenant cs row db mine next h =
    let counters = db.directory.counters in
    let new : (t : Ticket) → IsBelow counters t → number_key t ≢ number_key row = λ t below e.
      let theirs : t.tenant_id ≡ tenant = ap (λ k. k.0) e ∙ mine in
      let bound : t.ticket_number < next_value tenant counters =
        subst (λ k. t.ticket_number < next_value k counters) theirs below in
      let number : t.ticket_number ≡ next_value tenant counters = ap (λ k. k.1) e ∙ next in
      omega arith in
    (
      All-append (IsBelow (upsert_counter tenant counters)) db.tickets (row ∷ [])
          (All-imp (IsBelow counters) (IsBelow (upsert_counter tenant counters))
            (λ t below. lt_of_lt_of_le below (next_value-upsert_le t.tenant_id tenant counters))
            db.tickets h.0)
          (
            subst (λ k. row.ticket_number < next_value k (upsert_counter tenant counters))
                (sym mine) (omega (arith, next, next_value-upsert tenant counters)),
            tt,
          ),
      subst IsDistinct (sym (map-append number_key db.tickets (row ∷ []))) (
          IsDistinct-append (map number_key db.tickets) (number_key row) h.1 (
            All-map (λ k. k ≢ number_key row) number_key db.tickets
              (All-imp (IsBelow counters) (λ t. number_key t ≢ number_key row) new db.tickets
                h.0))),
    )

update_where-Numbered :
    (p : Ticket → Bool) (f : Ticket → Ticket) (db : Db)
    → ((x : Ticket) → number_key (f x) ≡ number_key x)
    → Numbered db
    → Numbered (record db { tickets = update_where p f db.tickets })
update_where-Numbered p f db keys h = (
  All-update_where (IsBelow db.directory.counters) p f
      (λ x below _. subst (λ k. k.1 < next_value k.0 db.directory.counters) (sym (keys x)) below)
      db.tickets h.0,
  subst IsDistinct (sym (map-update_where number_key p f keys db.tickets)) h.1,
)

written-number_key :
    (now : ℕ) (a : AutomationAction) (column : Column) (t : Ticket)
    → number_key (written now a column t) ≡ number_key t
unfolding written
written-number_key now a column t = ground arith

module _ (text : TextOps) (now : ℕ) (tenant : String) where
  Effect-Numbered :
      (t t' : Ticket) (action : AutomationAction) (db db' : Db)
      → Effect text now tenant t action db t' db'
      → Numbered db
      → Numbered db'
  Effect-Numbered t t' action db db' (same _ d) h = rw d h
  Effect-Numbered t t' action db db' (noted m _ d) h = rw d h
  Effect-Numbered t t' action db db' (changed column field _ _ _ d) h = rw d (
      update_where-Numbered (is_ticket tenant t.id) (written now action column) db
        (written-number_key now action column) h)
  Effect-Numbered t t' action db db' (tagged tag _ _ _ _ d) h =
      rw d (update_where-Numbered (is_ticket tenant t.id) _ db (λ x. refl) h)

module _ (text : TextOps) (js : Conversions) (calendar : Calendar)
    (uuid_le locale_le : String → String → Bool) (now : ℕ) (tenant : String) where
  -- If every ticket has a number that its tenant's counter has passed, and no two tickets of a tenant
  -- have the same number, then a committed `create` keeps it so, the rules that it runs included.
  pub create-Numbered :
      (new_contact id : String) (dto : NewTicket) (db : Db)
      → Numbered db
      → (t : Ticket) (db' : Db)
      → create text js calendar uuid_le locale_le now tenant new_contact id dto db ≡ ok (t, db')
      → Numbered db'
  create-Numbered new_contact id dto db h t db' e =
      let c =
        create-Created text js calendar uuid_le locale_le now tenant new_contact id dto db t db'
          e in
      let i = c.inserted in
      let inserted : Numbered c.inserted_db = subst Numbered (sym i.appended) (
        with_row-Numbered tenant i.cursors c.row (with_contacts c.known db)
          (ap (λ r. r.tenant_id) i.is_row) (ap (λ r. r.ticket_number) i.is_row) h) in
      run_rules-Keeps text now tenant Numbered (Effect-Numbered text now tenant)
        Trigger.ticket_created c.row c.inserted_db inserted t db' c.ran

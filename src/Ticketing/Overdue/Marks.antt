-- ===== src/Ticketing/Overdue/Marks.antt =====
-- The breaches that a pass of the sweep reports, and the rows that it marks (apps/api/src/modules/
-- ticketing/sla/overdue-sweep.service.ts).
use mathlib.Core.List.{append_assoc, append-nil}
use claude_cloud_ops_tool.Base.{
  ==_refl, >>=-of-ok, Bool, Bool-cases, IsDistinct, List, Option, String, [], ap, arith, default_to,
  false, filter, if◌then◌else◌, inl, inr, map, nat_eq, ok, option_eq, refl, str_iff, string_eq, sym,
  true, update_rows, update_rows-map, update_where, update_where_id, update_where_twice, ℕ, ◌++◌,
  ◌∙◌, ◌∷◌, ◌≡◌,
}
use claude_cloud_ops_tool.Ticketing.Db.{Db, Ticket, is_ticket}
use claude_cloud_ops_tool.Ticketing.Overdue.{
  OverdueType, first_response, resolution, OverdueBreach, is_unnotified, first_response_due,
  resolution_due, is_overdue, mark_first_response, mark_resolution, sweep_ticket, sweep_tickets,
  sweep_tenant, notice_both,
}

module _ (now : ℕ) (tenant : String) where
  -- What the two UPDATEs for a ticket do to a row, given the tests.
  abbrev pub marked : Bool → Bool → Ticket → Ticket
  marked first_due second_due x =
      let y : Ticket = if first_due then mark_first_response now tenant x else x in
      if second_due then mark_resolution now tenant y else y

  abbrev pub mark : Ticket → Ticket → Ticket
  mark t = marked (first_response_due now t) (resolution_due now t)

  abbrev pub matches : Ticket → Ticket → Bool
  matches t x = is_ticket tenant t.id x

  abbrev pub breach : Ticket → OverdueType → Option ℕ → OverdueBreach
  breach t kind due = record { ticket = t; overdue_type = kind; due_at = default_to 0 due }

  abbrev pub breaches_if : Bool → Bool → Ticket → List OverdueBreach
  breaches_if first_due second_due t =
      (if first_due then breach t first_response t.first_response_due_at ∷ [] else [])
      ++ (if second_due then breach t resolution t.resolution_due_at ∷ [] else [])

  -- The breaches of a ticket, by the clock alone.
  abbrev pub breaches : Ticket → List OverdueBreach
  breaches t = breaches_if (first_response_due now t) (resolution_due now t) t

  abbrev pub all_breaches : List Ticket → List OverdueBreach
  all_breaches [] = []
  all_breaches (t ∷ rest) = breaches t ++ all_breaches rest

  notice_both_lem :
      (b c : Bool) (t : Ticket) (db : Db)
      → notice_both now tenant b c t db
        ≡ ok (
          breaches_if b c t,
          record db { tickets = update_where (matches t) (marked b c) db.tickets },
        )
  unfolding notice_both
  notice_both_lem true true t db =
      ap (λ ts. ok (breaches_if true true t, record db { tickets = ts }))
        (update_where_twice (matches t) (mark_first_response now tenant)
          (mark_resolution now tenant) db.tickets (λ x h. h))
  notice_both_lem true false t db = refl
  notice_both_lem false true t db = refl
  notice_both_lem false false t db =
      ap (λ ts. ok (breaches_if false false t, record db { tickets = ts }))
        (sym (update_where_id (matches t) db.tickets))

  sweep_ticket_lem :
      (t : Ticket) (db : Db)
      → sweep_ticket now tenant t db
        ≡ ok (breaches t, record db { tickets = update_where (matches t) (mark t) db.tickets })
  unfolding sweep_ticket
  sweep_ticket_lem t db = notice_both_lem (first_response_due now t) (resolution_due now t) t db

  sweep_tickets_lem :
      (todo : List Ticket) (found : List OverdueBreach) (db : Db)
      → sweep_tickets now tenant todo found db
        ≡ ok (
          found ++ all_breaches todo,
          record db { tickets = update_rows matches mark todo db.tickets },
        )
  unfolding sweep_tickets update_rows
  sweep_tickets_lem [] found db = rw (append-nil found)
  sweep_tickets_lem (t ∷ rest) found db =
      >>=-of-ok (sweep_ticket now tenant t) (λ new. sweep_tickets now tenant rest (found ++ new)) db
        (sweep_ticket_lem t db)
      ∙ sweep_tickets_lem rest (found ++ breaches t)
          (record db { tickets = update_where (matches t) (mark t) db.tickets })
      ∙ ap (λ l. ok (l, record db { tickets = update_rows matches mark (t ∷ rest) db.tickets }))
          (append_assoc found (breaches t) (all_breaches rest))

  pub same_id : (x y : Ticket) → matches x y ≡ true → x.id ≡ y.id
  same_id x y h = ground (arith, str_iff y.id x.id)

  self_match : (x : Ticket) → is_overdue now tenant x ≡ true → matches x x ≡ true
  unfolding is_overdue
  self_match x h = ground (arith, ==_refl x.id)

  pub mark-id : (t x : Ticket) → (mark t x).id ≡ x.id
  mark-id t x = ground arith

  -- With distinct ticket ids, a sweep marks each overdue ticket in place, and leaves the rest.
  pub sweep_tenant_lem :
      (db : Db)
      → IsDistinct (map (λ t. t.id) db.tickets)
      → sweep_tenant now tenant db
        ≡ ok (
          all_breaches (filter (is_overdue now tenant) db.tickets),
          record db { tickets = update_where (is_overdue now tenant) (λ t. mark t t) db.tickets },
        )
  unfolding sweep_tenant
  sweep_tenant_lem db distinct =
      sweep_tickets_lem (filter (is_overdue now tenant) db.tickets) [] db
      ∙ ap
          (λ ts.
            ok (
              all_breaches (filter (is_overdue now tenant) db.tickets),
              record db { tickets = ts },
            ))
          (update_rows-map (λ t. t.id) matches mark (is_overdue now tenant) db.tickets
            (λ x y h. same_id x y h) (λ x h. self_match x h) (λ x. mark-id x x) distinct)

  -- A marked ticket is not overdue at the same instant.
  pub mark-is_overdue : (t : Ticket) → is_overdue now tenant (mark t t) ≡ false
  unfolding is_overdue is_unnotified
  mark-is_overdue t = ground arith

pub filter-update_where_none :
    (p : Ticket → Bool) (f : Ticket → Ticket) (ts : List Ticket)
    → ((t : Ticket) → p (f t) ≡ false)
    → filter p (update_where p f ts) ≡ []
filter-update_where_none p f [] h = refl
filter-update_where_none p f (t ∷ rest) h = elim (Bool-cases (p t)) [
  | inl u ↦ rw (u, h t, filter-update_where_none p f rest h)
  | inr u ↦ rw (u, u, filter-update_where_none p f rest h)
]

-- ===== src/Ticketing/Overdue/Once.antt =====
-- An SLA breach is reported once (apps/api/src/modules/ticketing/sla/overdue-sweep.service.ts).
use claude_cloud_ops_tool.Base.{
  All, All-append, All-both, All-filter, All-imp, All-of_map, Bool, Bool-cases, IsDistinct, List,
  Option, String, [], ap, arith, false, filter, if◌then◌else◌, inl, inr, map, ok, refl, sym, true,
  update_where, ℕ, ◌∙◌, ◌∷◌, ◌≡◌, ◌≢◌,
}
use claude_cloud_ops_tool.Ticketing.Db.{Db, Ticket, is_ticket}
use claude_cloud_ops_tool.Ticketing.Overdue.{
  OverdueType, first_response, resolution, OverdueBreach, is_unnotified, first_response_due,
  resolution_due, is_overdue, sweep_tickets, sweep_tenant,
}
use claude_cloud_ops_tool.Ticketing.Overdue.Marks.{
  mark, matches, breach, breaches, all_breaches, sweep_tenant_lem, same_id, mark-id,
  mark-is_overdue, filter-update_where_none,
}

-- With distinct keys, a row is the only one with its key.
All-only :
    (ts : List Ticket)
    → IsDistinct (map (λ t. t.id) ts)
    → All (λ t. All (λ x. x.id ≡ t.id → x ≡ t) ts) ts
All-only [] h = tt
All-only (t ∷ rest) h =
    let apart : All (λ x. t.id ≢ x.id) rest = All-of_map (λ k. t.id ≢ k) (λ x. x.id) rest h.0 in
    (
      (
        λ _. refl,
        All-imp (λ x. t.id ≢ x.id) (λ x. x.id ≡ t.id → x ≡ t) (λ x ne e. absurd (ne (sym e))) rest
            apart,
      ),
      All-imp (λ y. (t.id ≢ y.id) × All (λ x. x.id ≡ y.id → x ≡ y) rest)
          (λ y. All (λ x. x.id ≡ y.id → x ≡ y) (t ∷ rest)) (λ y k. (λ e. absurd (k.0 e), k.1)) rest
          (All-both (λ x. t.id ≢ x.id) (λ y. All (λ x. x.id ≡ y.id → x ≡ y) rest) rest apart
            (All-only rest h.1)),
    )

All-update_where_each :
    (P Q : Ticket → Type 0) (p : Ticket → Bool) (f : Ticket → Ticket)
    → ((t : Ticket) → P t → Q (if p t then f t else t))
    → (ts : List Ticket) → All P ts
    → All Q (update_where p f ts)
All-update_where_each P Q p f each [] h = tt
All-update_where_each P Q p f each (t ∷ rest) h =
    (each t h.0, All-update_where_each P Q p f each rest h.1)

-- What a sweep tests for a breach of a kind.
abbrev pub is_due : OverdueType → ℕ → Ticket → Bool
is_due first_response now t = first_response_due now t
is_due resolution now t = resolution_due now t

module _ (now : ℕ) (tenant : String) where
  -- No row of a breach's ticket is due for the breach's kind, at any instant.
  abbrev pub IsClosed : List Ticket → OverdueBreach → Type 0
  IsClosed rows b =
      (later : ℕ)
      → All (λ x. is_ticket tenant b.ticket.id x ≡ true → is_due b.overdue_type later x ≡ false)
          rows

  mark-is_due :
      (kind : OverdueType) (later : ℕ) (t : Ticket)
      → is_due kind now t ≡ true
      → is_due kind later (mark now tenant t t) ≡ false
  unfolding is_unnotified
  mark-is_due first_response later t h = ground arith
  mark-is_due resolution later t h = ground arith

  swept-IsClosed :
      (ts : List Ticket) (t : Ticket) (kind : OverdueType) (due : Option ℕ)
      → is_overdue now tenant t ≡ true
      → All (λ x. x.id ≡ t.id → x ≡ t) ts
      → is_due kind now t ≡ true
      → IsClosed
          (update_where (is_overdue now tenant) (λ x. mark now tenant x x) ts)
          (breach now tenant t kind due)
  swept-IsClosed ts t kind due overdue only is_now later =
      All-update_where_each (λ x. x.id ≡ t.id → x ≡ t)
        (λ x. is_ticket tenant t.id x ≡ true → is_due kind later x ≡ false) (is_overdue now tenant)
        (λ x. mark now tenant x x)
        (λ x same match. elim (Bool-cases (is_overdue now tenant x)) [
          | inl o ↦
              let matched : matches now tenant t (mark now tenant x x) ≡ true = rw o at match in
              let is_t : x ≡ t = same (
                sym (mark-id now tenant x x)
                ∙ sym (same_id now tenant t (mark now tenant x x) matched)) in
              rw (o, is_t) (mark-is_due kind later t is_now)
          | inr o ↦
              let matched : matches now tenant t x ≡ true = rw o at match in
              let is_t : x ≡ t = same (sym (same_id now tenant t x matched)) in absurd (cc)
        ])
        ts only

  breaches-IsClosed :
      (ts : List Ticket) (t : Ticket)
      → is_overdue now tenant t ≡ true
      → All (λ x. x.id ≡ t.id → x ≡ t) ts
      → All
          (IsClosed (update_where (is_overdue now tenant) (λ x. mark now tenant x x) ts))
          (breaches now tenant t)
  breaches-IsClosed ts t o only =
      let closed = swept-IsClosed ts t in
      elim (Bool-cases (first_response_due now t)) [
        | inl b ↦ elim (Bool-cases (resolution_due now t)) [
          | inl c ↦
              rw (b, c)
                (
                  closed first_response t.first_response_due_at o only b,
                  (closed resolution t.resolution_due_at o only c, tt),
                )
          | inr c ↦ rw (b, c) (closed first_response t.first_response_due_at o only b, tt)
        ]
        | inr b ↦ elim (Bool-cases (resolution_due now t)) [
          | inl c ↦ rw (b, c) (closed resolution t.resolution_due_at o only c, tt)
          | inr c ↦ rw (b, c) tt
        ]
      ]

  all_breaches-IsClosed :
      (rows todo : List Ticket)
      → All (λ t. All (λ x. x.id ≡ t.id → x ≡ t) rows × (is_overdue now tenant t ≡ true)) todo
      → All
          (IsClosed (update_where (is_overdue now tenant) (λ x. mark now tenant x x) rows))
          (all_breaches now tenant todo)
  all_breaches-IsClosed rows [] h = tt
  all_breaches-IsClosed rows (t ∷ todo) h =
      All-append (IsClosed (update_where (is_overdue now tenant) (λ x. mark now tenant x x) rows))
        (breaches now tenant t) (all_breaches now tenant todo)
        (breaches-IsClosed rows t h.0.1 h.0.0) (all_breaches-IsClosed rows todo h.1)

-- With distinct ticket ids, a sweep reports exactly the breaches of the overdue tickets that no sweep
-- has marked, in the order of the table; a second sweep at the same instant reports nothing and
-- changes nothing; and in the tables that the sweep leaves, no row of a reported breach's ticket meets
-- the test of that kind of breach, at any instant.
pub sweep_tenant-once :
    (now : ℕ) (tenant : String) (db : Db)
    → IsDistinct (map (λ t. t.id) db.tickets)
    → (db' : Db) × (sweep_tenant now tenant db
        ≡ ok (all_breaches now tenant (filter (is_overdue now tenant) db.tickets), db'))
      × (sweep_tenant now tenant db' ≡ ok ([], db'))
      × All
          (IsClosed now tenant db'.tickets)
          (all_breaches now tenant (filter (is_overdue now tenant) db.tickets))
unfolding sweep_tenant sweep_tickets
sweep_tenant-once now tenant db distinct = (
  record db {
    tickets = update_where (is_overdue now tenant) (λ t. mark now tenant t t) db.tickets;
  },
  sweep_tenant_lem now tenant db distinct,
  ap
      (λ ts. sweep_tickets now tenant ts [] (record db {
        tickets = update_where (is_overdue now tenant) (λ t. mark now tenant t t) db.tickets;
      }))
      (filter-update_where_none (is_overdue now tenant) (λ t. mark now tenant t t) db.tickets
        (mark-is_overdue now tenant)),
  all_breaches-IsClosed now tenant db.tickets (filter (is_overdue now tenant) db.tickets) (
      All-filter (λ t. All (λ x. x.id ≡ t.id → x ≡ t) db.tickets) (is_overdue now tenant) db.tickets
        (All-only db.tickets distinct)),
)

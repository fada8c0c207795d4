-- ===== src/Ticketing/Tickets/Changed.antt =====
-- The UPDATE of a ticket's properties with its rows of the timeline is a run on the ticket (`update` of
-- apps/api/src/modules/ticketing/tickets.service.ts).
use mathlib.Core.Path.{fun_ext}
use claude_cloud_ops_tool.Base.{
  All, All-of_every, Bool-cases, List, Option, Option-cases, String, [], ap, find, inl, inr, nat_eq,
  none, option_eq, refl, some, string_eq, subst, sym, update_where, ℕ, ◌++◌, ◌==◌, ◌∙◌, ◌∷◌, ◌≡◌,
}
use claude_cloud_ops_tool.Ticketing.Values.{Fields}
use claude_cloud_ops_tool.Ticketing.Sla.{SlaDueDates}
use claude_cloud_ops_tool.Ticketing.Db.{Column, Db, Ticket, is_ticket}
use claude_cloud_ops_tool.Ticketing.Automation.Engine.{TextOps, column_value}
use claude_cloud_ops_tool.Ticketing.Automation.Audit.{
  IsCurrent, Run, others_row, updated_row, Explains,
}
use claude_cloud_ops_tool.Ticketing.Tickets.Patch.{
  TicketPatch, assign, assign_all, given, track, tracked_columns,
}
use claude_cloud_ops_tool.Ticketing.Tickets.Patch.{assign_given as assign_column}
use claude_cloud_ops_tool.Ticketing.Tickets.Update.{patched}
use claude_cloud_ops_tool.Ticketing.Tickets.Timeline.{
  Apart, column_value-assign_all, column_value-patched, track-Explains,
}

module _ (tenant : String) (actor : Option String) (existing : Ticket) (dto : TicketPatch) where
  track-about :
      (cs : List Column) → All (λ a. a.ticket_id ≡ existing.id) (track tenant actor existing dto cs)
  unfolding track
  track-about [] = tt
  track-about (c ∷ cs) = elim (Option-cases (given dto c)) [
    | inl e ↦ rw (e, track) (track-about cs)
    | inr (x, e) ↦ elim (Bool-cases (column_value existing c == x)) [
      | inl t ↦ rw (e, track, t) (track-about cs)
      | inr t ↦ rw (e, track, t) (refl, track-about cs)
    ]
  ]

tracked_columns-Apart : Apart tracked_columns
tracked_columns-Apart = (
  (refl, (refl, (refl, (refl, (refl, tt))))),
  (
    (refl, (refl, (refl, (refl, tt)))),
    ((refl, (refl, (refl, tt))), ((refl, (refl, tt)), ((refl, tt), (tt, tt)))),
  ),
)

abbrev pub identity : Ticket → String × String × ℕ
identity t = (t.tenant_id, t.id, t.ticket_number)

assign-identity :
    (c : Column) (v : Option String) (t : Ticket) → identity (assign c v t) ≡ identity t
assign-identity Column.status none t = refl
assign-identity Column.status (some v) t = refl
assign-identity Column.priority none t = refl
assign-identity Column.priority (some v) t = refl
assign-identity Column.platform v t = refl
assign-identity Column.group_id v t = refl
assign-identity Column.agent_id v t = refl
assign-identity Column.ticket_type_id v t = refl

assign_all-identity :
    (dto : TicketPatch) (cs : List Column) (t : Ticket)
    → identity (assign_all dto cs t) ≡ identity t
assign_all-identity dto [] t = refl
assign_all-identity dto (c ∷ cs) t = elim (Option-cases (given dto c)) [
  | inl e ↦ rw (e, assign_all, assign_column) (assign_all-identity dto cs t)
  | inr (v, e) ↦
      rw (e, assign_all, assign_column)
        (assign_all-identity dto cs (assign c v t) ∙ assign-identity c v t)
]

module _ (text : TextOps) (now : ℕ) (tenant : String) where
  -- The UPDATE and the rows of the timeline.
  pub patch-Run :
      (actor : Option String) (dto : TicketPatch) (fields : Option Fields)
      (sla : Option (Option String × SlaDueDates)) (t t' : Ticket) (db : Db)
      → IsCurrent tenant t db
      → find
          (is_ticket tenant t.id)
          (update_where (is_ticket tenant t.id) (patched text now dto fields sla) db.tickets)
        ≡ some t'
      → Run tenant t db t' (record db {
        tickets = update_where (is_ticket tenant t.id) (patched text now dto fields sla) db.tickets;
        activities = db.activities ++ track tenant actor t dto tracked_columns;
      })
  patch-Run actor dto fields sla t t' db current found =
      let f = patched text now dto fields sla in
      let kept : (x : Ticket) → identity (f x) ≡ identity x =
        assign_all-identity dto tracked_columns in
      let ids : (x : Ticket) → (f x).id ≡ x.id = λ x. ap (λ k. k.1) (kept x) in
      let tenants : (x : Ticket) → (f x).tenant_id ≡ x.tenant_id = λ x. ap (λ k. k.0) (kept x) in
      let row : t' ≡ f t = updated_row tenant f t db.tickets ids tenants current found in
      let same : t'.id ≡ t.id = ap (λ x. x.id) row ∙ ids t in
      record {
        added = track tenant actor t dto tracked_columns;
        appended = refl;
        explained =
            subst (Explains (column_value t) (track tenant actor t dto tracked_columns))
              (sym (
                fun_ext (λ c.
                  ap (λ x. column_value x c) row
                  ∙ column_value-patched text now dto fields sla t c
                  ∙ ap (λ v. v c) (column_value-assign_all dto tracked_columns t))))
              (track-Explains tenant actor t dto tracked_columns (column_value t)
                tracked_columns-Apart
                (All-of_every (λ c. column_value t c ≡ column_value t c) (λ c. refl)
                  tracked_columns));
        about = track-about tenant actor t dto tracked_columns;
        current =
            subst
              (λ k.
                find (is_ticket tenant k) (update_where (is_ticket tenant t.id) f db.tickets)
                ≡ some t')
              (sym same) found;
        same_id = same;
        others = λ u j h. others_row tenant f t.id db.tickets u j ids tenants h;
      }

-- ===== src/Ticketing/Tickets/Settled.antt =====
-- `update` keeps the link between the status of a ticket and its resolution time (apps/api/src/
-- modules/ticketing/tickets.service.ts).
use claude_cloud_ops_tool.Base.{
  >>=-eq-ok, All, All-update_where, Bool-cases, List, Option, Option-cases, String, [], ap,
  db_error, drop, false, find, if◌then◌else◌, inl, inr, is_some, nat_eq, none, ok, option_eq, refl,
  require-inv, some, string_eq, subst, sym, update_where, ℕ, ◌++◌, ◌==◌, ◌∙◌, ◌∷◌, ◌≡◌,
}
use claude_cloud_ops_tool.Ticketing.Values.{Fields}
use claude_cloud_ops_tool.Ticketing.Fields.{Conversions}
use claude_cloud_ops_tool.Ticketing.Sla.{Calendar, SlaDueDates}
use claude_cloud_ops_tool.Ticketing.Db.{
  Column, Db, Ticket, Trigger, column_eq, is_ticket, update_ticket,
}
use claude_cloud_ops_tool.Ticketing.Automation.Engine.{TextOps, is_closing}
use claude_cloud_ops_tool.Ticketing.Automation.Resolved.{
  AllSettled, IsSettled, run_rules-AllSettled,
}
use claude_cloud_ops_tool.Ticketing.Tickets.Patch.{
  TicketPatch, UpdateEffect, assign, assign_all, given, track, tracked_columns,
}
use claude_cloud_ops_tool.Ticketing.Tickets.Patch.{assign_given as assign_column}
use claude_cloud_ops_tool.Ticketing.Tickets.Update.{patched, update, write_patch}
use claude_cloud_ops_tool.Ticketing.Tickets.Written.{apply_patch-inv, update-inv}

-- What settles a ticket.
abbrev settlement : Ticket → String × Option ℕ
settlement t = (t.status, t.resolved_at)

assign-settlement :
    (c : Column) (v : Option String) (t : Ticket)
    → (c == Column.status) ≡ false
    → settlement (assign c v t) ≡ settlement t
assign-settlement Column.status v t other = cc
assign-settlement Column.priority none t other = refl
assign-settlement Column.priority (some v) t other = refl
assign-settlement Column.platform v t other = refl
assign-settlement Column.group_id v t other = refl
assign-settlement Column.agent_id v t other = refl
assign-settlement Column.ticket_type_id v t other = refl

assign_all-settlement :
    (dto : TicketPatch) (cs : List Column) (t : Ticket)
    → All (λ c. (c == Column.status) ≡ false) cs
    → settlement (assign_all dto cs t) ≡ settlement t
assign_all-settlement dto [] t others = refl
assign_all-settlement dto (c ∷ cs) t others = elim (Option-cases (given dto c)) [
  | inl e ↦ rw (e, assign_all, assign_column) (assign_all-settlement dto cs t others.1)
  | inr (v, e) ↦
      rw (e, assign_all, assign_column)
        (assign_all-settlement dto cs (assign c v t) others.1 ∙ assign-settlement c v t others.0)
]

rest_settlement :
    (dto : TicketPatch) (t : Ticket)
    → settlement (assign_all dto tracked_columns t) ≡ settlement (assign_column dto Column.status t)
rest_settlement dto t =
    assign_all-settlement dto (drop 1 tracked_columns) (assign_column dto Column.status t)
      (refl, (refl, (refl, (refl, (refl, tt)))))

kept_settlement :
    (dto : TicketPatch) (t : Ticket)
    → dto.status ≡ none
    → settlement (assign_column dto Column.status t) ≡ settlement t
unfolding given
kept_settlement dto t omitted = rw omitted refl

new_status :
    (dto : TicketPatch) (t : Ticket) (s : String)
    → dto.status ≡ some s
    → (assign_column dto Column.status t).status ≡ s
unfolding given
new_status dto t s changed = rw changed refl

module _ (text : TextOps) (now : ℕ) where
  closed_iff : (s : String) → is_closing s ≡ is_some (if is_closing s then some now else none)
  closed_iff s = elim (Bool-cases (is_closing s)) [ inl e ↦ rw e refl | inr e ↦ rw e refl ]

  -- The assignments and the clause of `resolved_at` for a given status.
  abbrev Settles : TicketPatch → Ticket → Option String → Type 0
  Settles dto t status =
      let x = assign_all dto tracked_columns t in
      let clause : Option ℕ = elim status [
        | none ↦ x.resolved_at
        | some s ↦ if is_closing s then some now else none
      ] in
      is_closing x.status ≡ is_some clause

  patched-IsSettled :
      (dto : TicketPatch) (fields : Option Fields) (sla : Option (Option String × SlaDueDates))
      (t : Ticket)
      → IsSettled t
      → IsSettled (patched text now dto fields sla t)
  patched-IsSettled dto fields sla t h = elim (Option-cases dto.status) [
    | inl omitted ↦ subst (Settles dto t) (sym omitted) (
        subst (λ k. is_closing k.0 ≡ is_some k.1)
          (sym (rest_settlement dto t ∙ kept_settlement dto t omitted)) h)
    | inr (s, changed) ↦ subst (Settles dto t) (sym changed) (
        subst (λ k. is_closing k ≡ is_some (if is_closing s then some now else none))
          (sym (ap (λ k. k.0) (rest_settlement dto t) ∙ new_status dto t s changed)) (closed_iff s))
  ]

module _ (text : TextOps) (js : Conversions) (calendar : Calendar) (now : ℕ) (tenant : String) where
  -- If every ticket has a resolution time exactly while it is resolved or closed, a committed `update`
  -- of a stored ticket keeps it so, the rules that it runs included.
  pub update-AllSettled :
      (actor : Option String) (id : String) (dto : TicketPatch) (db : Db) (t : Ticket)
      → AllSettled db
      → find (is_ticket tenant id) db.tickets ≡ some t
      → (r : Ticket × List UpdateEffect) (db' : Db)
      → update text js calendar now tenant actor id dto db ≡ ok (r, db')
      → AllSettled db'
  unfolding write_patch
  update-AllSettled actor id dto db t h found r db' e =
      let (done, same, applied) =
        update-inv text js calendar now tenant actor id dto db t found r db' e in
      elim (apply_patch-inv text js calendar now tenant actor t dto db done db' applied) [
        | inl (kept, tables) ↦ subst AllSettled (sym tables) h
        | inr (fields, sla, written) ↦
            let f = patched text now dto fields sla in
            let table = update_where (is_ticket tenant t.id) f db.tickets in
            let (q, updated, rest) = >>=-eq-ok (update_ticket tenant t.id f) _ db written in
            let (row, tables) =
              require-inv (find (is_ticket tenant t.id) table) db_error
                (record db { tickets = table }) q updated in
            run_rules-AllSettled text now tenant Trigger.ticket_updated q.0
              (record q.1 {
                activities = q.1.activities ++ track tenant actor t dto tracked_columns;
              })
              (subst AllSettled (sym tables) (
                All-update_where IsSettled (is_ticket tenant t.id) f
                  (λ x settled _. patched-IsSettled text now dto fields sla x settled) db.tickets
                  h))
              done.0 db' rest
      ]

-- ===== src/Ticketing/Tickets/Audited.antt =====
-- A committed `update` is a run on its ticket, as a run of rules is (apps/api/src/modules/ticketing/
-- tickets.service.ts).
use claude_cloud_ops_tool.Base.{
  >>=-eq-ok, List, Option, String, ap, arith, db_error, eq-of-==, find, find-true, inl, inr, nat_eq,
  ok, option_eq, require-inv, some, string_eq, subst, sym, update_where, ℕ, ◌++◌, ◌≡◌,
}
use claude_cloud_ops_tool.Ticketing.Values.{Fields}
use claude_cloud_ops_tool.Ticketing.Fields.{Conversions}
use claude_cloud_ops_tool.Ticketing.Sla.{Calendar, SlaDueDates}
use claude_cloud_ops_tool.Ticketing.Db.{Db, Ticket, Trigger, is_ticket, update_ticket}
use claude_cloud_ops_tool.Ticketing.Automation.Engine.{TextOps, run_rules}
use claude_cloud_ops_tool.Ticketing.Automation.Audit.{IsCurrent, Run, Run-refl, Run-trans}
use claude_cloud_ops_tool.Ticketing.Automation.Runs.{run_rules-Run}
use claude_cloud_ops_tool.Ticketing.Tickets.Patch.{
  TicketPatch, UpdateEffect, track, tracked_columns,
}
use claude_cloud_ops_tool.Ticketing.Tickets.Update.{patched, update, write_patch}
use claude_cloud_ops_tool.Ticketing.Tickets.Changed.{patch-Run}
use claude_cloud_ops_tool.Ticketing.Tickets.Written.{apply_patch-inv, update-inv}

module _ (text : TextOps) (js : Conversions) (calendar : Calendar) (now : ℕ) (tenant : String) where
  write_patch-Run :
      (actor : Option String) (t : Ticket) (dto : TicketPatch) (fields : Option Fields)
      (sla : Option (Option String × SlaDueDates)) (db : Db) (t' : Ticket) (db' : Db)
      → IsCurrent tenant t db
      → write_patch text js calendar now tenant actor t dto fields sla db ≡ ok (t', db')
      → Run tenant t db t' db'
  unfolding write_patch
  write_patch-Run actor t dto fields sla db t' db' current e =
      let (q, updated, rest) =
        >>=-eq-ok (update_ticket tenant t.id (patched text now dto fields sla)) _ db e in
      let (found, kept) =
        require-inv
          (find (is_ticket tenant t.id)
            (update_where (is_ticket tenant t.id) (patched text now dto fields sla) db.tickets))
          db_error
          (record db {
            tickets =
                update_where (is_ticket tenant t.id) (patched text now dto fields sla) db.tickets;
          })
          q updated in
      let first = patch-Run text now tenant actor dto fields sla t q.0 db current found in
      let ran =
        subst
          (λ x.
            run_rules text now tenant Trigger.ticket_updated q.0
              (record x { activities = x.activities ++ track tenant actor t dto tracked_columns })
            ≡ ok (t', db'))
          kept rest in
      Run-trans tenant first
        (run_rules-Run text now tenant Trigger.ticket_updated q.0 _ first.current t' db' ran)

  -- A committed `update` of a stored ticket appends rows to the timeline, about this ticket, that
  -- explain, one real change after the other, every difference in a tracked column, those made by the
  -- rules included; the ticket returned is the row then stored; and every other ticket, of this or
  -- another tenant, is as it was.
  pub update-Run :
      (actor : Option String) (id : String) (dto : TicketPatch) (db : Db) (t : Ticket)
      → find (is_ticket tenant id) db.tickets ≡ some t
      → (r : Ticket × List UpdateEffect) (db' : Db)
      → update text js calendar now tenant actor id dto db ≡ ok (r, db')
      → Run tenant t db r.0 db'
  update-Run actor id dto db t found r db' e =
      let (done, same, applied) =
        update-inv text js calendar now tenant actor id dto db t found r db' e in
      let current : IsCurrent tenant t db =
        let key : t.id ≡ id =
          let test = find-true (is_ticket tenant id) db.tickets found in
          eq-of-== t.id id (ground arith) in
        subst (λ k. find (is_ticket tenant k) db.tickets ≡ some t) (sym key) found in
      subst (λ x. Run tenant t db x db') (sym same)
        (elim (apply_patch-inv text js calendar now tenant actor t dto db done db' applied) [
          | inl (kept, tables) ↦
              Run-refl tenant done.0 db' current kept (ap (λ (x : Db). x.activities) tables)
                (ap (λ (x : Db). x.tickets) tables)
          | inr (fields, sla, written) ↦
              write_patch-Run actor t dto fields sla db done.0 db' current written
        ])

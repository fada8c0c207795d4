-- ===== src/Ticketing/Tickets/Written.antt =====
-- What the transaction of `update` has written once it commits (apps/api/src/modules/ticketing/
-- tickets.service.ts).
use claude_cloud_ops_tool.Base.{
  >>=-eq-ok, Bool, Bool-cases, List, Option, Option-cases, String, Tx, ap, arith, default_to, false,
  find, if-pure_inv, if◌then◌else◌, inl, inr, nat_eq, none, not_found, ok, ok_inj, option_eq, pure,
  require, require-inv, some, string_eq, subst, sym, ℕ, ◌==◌, ◌>>=◌, ◌∙◌, ◌≡◌, ◌⊎◌,
}
use claude_cloud_ops_tool.Ticketing.Values.{Fields}
use claude_cloud_ops_tool.Ticketing.Fields.{Conversions}
use claude_cloud_ops_tool.Ticketing.Sla.{Calendar, SlaDueDates, calculate_due_dates}
use claude_cloud_ops_tool.Ticketing.Db.{Db, Ticket, is_ticket}
use claude_cloud_ops_tool.Ticketing.Automation.Engine.{TextOps}
use claude_cloud_ops_tool.Ticketing.Tickets.Checks.{
  agents, assert_given, fetch_sla_policy, groups, hours_for, ticket_types,
}
use claude_cloud_ops_tool.Ticketing.Tickets.Steps.{assert_given-inv}
use claude_cloud_ops_tool.Ticketing.Tickets.Create.{checked_fields}
use claude_cloud_ops_tool.Ticketing.Tickets.Created.{checked_fields-inv}
use claude_cloud_ops_tool.Ticketing.Tickets.Patch.{
  TicketPatch, UpdateEffect, assigned_agent, has_sets, new_sla_policy_id, overlay, resolved_now,
}
use claude_cloud_ops_tool.Ticketing.Tickets.Update.{
  apply_patch, merged_fields, recalculate, sla_change, update, write_patch,
}

module _ (js : Conversions) (tenant : String) where
  merged_fields-inv :
      (t : Ticket) (dto : TicketPatch) (db : Db) (q : Option Fields × Db)
      → merged_fields js tenant t dto db ≡ ok q
      → q.1 ≡ db
  unfolding merged_fields
  merged_fields-inv t dto db q e = elim (Option-cases dto.custom_fields) [
    | inl omitted ↦ ground arith
    | inr (submitted, some_fields) ↦
        let opened : (checked_fields js tenant (some (overlay t.custom_fields submitted))
                >>= λ fields. pure (some fields))
              db
            ≡ ok q =
          rw some_fields at e in
        let (f, checked, rest) =
          >>=-eq-ok (checked_fields js tenant (some (overlay t.custom_fields submitted)))
            (λ fields. pure (some fields)) db opened in
        let kept =
          checked_fields-inv js tenant (some (overlay t.custom_fields submitted)) db f checked in
        let same : f.1 ≡ q.1 = ground arith in sym same ∙ kept
  ]

module _ (calendar : Calendar) (tenant : String) where
  recalculate-inv :
      (t : Ticket) (policy_id : Option String) (db : Db)
      (q : Option (Option String × SlaDueDates) × Db)
      → recalculate calendar tenant t policy_id db ≡ ok q
      → q.1 ≡ db
  unfolding recalculate
  recalculate-inv t policy_id db q e =
      let policy = fetch_sla_policy tenant policy_id db in
      let dates = calculate_due_dates calendar t.created_at policy (hours_for tenant policy db) in
      elim (Option-cases dates) [
        | inl missing ↦ absurd (ground arith)
        | inr (d, found) ↦ ground arith
      ]

  sla_change-inv :
      (t : Ticket) (dto : TicketPatch) (db : Db) (q : Option (Option String × SlaDueDates) × Db)
      → sla_change calendar tenant t dto db ≡ ok q
      → q.1 ≡ db
  unfolding sla_change
  sla_change-inv t dto db q e = elim (Option-cases dto.ticket_type_id) [
    | inl omitted ↦ ground arith
    | inr (type, retyped) ↦
        let policy_id = new_sla_policy_id tenant type db in
        elim (Bool-cases (policy_id == t.sla_policy_id)) [
          | inl same ↦ ground arith
          | inr other ↦ recalculate-inv t policy_id db q (ground arith)
        ]
  ]

module _ (text : TextOps) (js : Conversions) (calendar : Calendar) (now : ℕ) (tenant : String) where
  -- The end of the transaction of `update`.
  abbrev write_or_keep :
      Option String
      → Ticket
      → TicketPatch
      → Option Fields
      → Option (Option String × SlaDueDates)
      → Tx Db (Ticket × Option String × Bool)
  write_or_keep actor t dto fields sla =
      let write : Tx Db (Ticket × Option String × Bool) =
        write_patch text js calendar now tenant actor t dto fields sla >>= λ u.
        pure (u, assigned_agent tenant t dto, resolved_now tenant t dto) in
      if has_sets dto then write else pure (t, none, false)

  write_or_keep-inv :
      (actor : Option String) (t : Ticket) (dto : TicketPatch) (fields : Option Fields)
      (sla : Option (Option String × SlaDueDates)) (db : Db) (r : Ticket × Option String × Bool)
      (db' : Db)
      → write_or_keep actor t dto fields sla db ≡ ok (r, db')
      → ((r.0 ≡ t) × (db' ≡ db))
        ⊎ ((fields : Option Fields) × (sla : Option (Option String × SlaDueDates)) × (write_patch
                text js calendar now tenant actor t dto fields sla db
              ≡ ok (r.0, db')))
  write_or_keep-inv actor t dto fields sla db r db' e =
      let summary : Ticket → Ticket × Option String × Bool =
        λ u. (u, assigned_agent tenant t dto, resolved_now tenant t dto) in
      elim (if-pure_inv (has_sets dto)
        (write_patch text js calendar now tenant actor t dto fields sla) summary (t, none, false) db
        r db' e) [
          | inl (same, tables) ↦ inl (ap (λ (x : Ticket × Option String × Bool). x.0) same, tables)
          | inr (u, written, same) ↦ inr (
            fields,
            sla,
            subst
                (λ x.
                  write_patch text js calendar now tenant actor t dto fields sla db ≡ ok (x, db'))
                (sym (ap (λ (x : Ticket × Option String × Bool). x.0) same)) written,
          )
        ]

  -- A transaction of `update` that commits has either changed nothing or written the patch.
  pub apply_patch-inv :
      (actor : Option String) (t : Ticket) (dto : TicketPatch) (db : Db)
      (r : Ticket × Option String × Bool) (db' : Db)
      → apply_patch text js calendar now tenant actor t dto db ≡ ok (r, db')
      → ((r.0 ≡ t) × (db' ≡ db))
        ⊎ ((fields : Option Fields) × (sla : Option (Option String × SlaDueDates)) × (write_patch
                text js calendar now tenant actor t dto fields sla db
              ≡ ok (r.0, db')))
  unfolding apply_patch
  apply_patch-inv actor t dto db r db' e =
      let (g, s1, e1) =
        >>=-eq-ok (assert_given tenant groups (default_to none dto.group_id)) _ db e in
      let (a, s2, e2) =
        >>=-eq-ok (assert_given tenant agents (default_to none dto.agent_id)) _ g.1 e1 in
      let (k, s3, e3) =
        >>=-eq-ok (assert_given tenant ticket_types (default_to none dto.ticket_type_id)) _ a.1
          e2 in
      let (f, s4, e4) = >>=-eq-ok (merged_fields js tenant t dto) _ k.1 e3 in
      let (s, s5, e5) = >>=-eq-ok (sla_change calendar tenant t dto) _ f.1 e4 in
      let k1 = (assert_given-inv tenant groups (default_to none dto.group_id) db g.1 g.0 s1).0 in
      let k2 = (assert_given-inv tenant agents (default_to none dto.agent_id) g.1 a.1 a.0 s2).0 in
      let k3 =
        (assert_given-inv tenant ticket_types (default_to none dto.ticket_type_id) a.1 k.1 k.0
          s3).0 in
      let k4 = merged_fields-inv js tenant t dto k.1 f s4 in
      let k5 = sla_change-inv calendar tenant t dto f.1 s s5 in
      let unmoved : s.1 ≡ db = k5 ∙ k4 ∙ k3 ∙ k2 ∙ k1 in
      write_or_keep-inv actor t dto f.0 s.0 db r db'
        (subst (λ x. write_or_keep actor t dto f.0 s.0 x ≡ ok (r, db')) unmoved e5)

  -- A committed `update` has found the ticket, and what it returns is what its transaction returns.
  pub update-inv :
      (actor : Option String) (id : String) (dto : TicketPatch) (db : Db) (t : Ticket)
      → find (is_ticket tenant id) db.tickets ≡ some t
      → (r : Ticket × List UpdateEffect) (db' : Db)
      → update text js calendar now tenant actor id dto db ≡ ok (r, db')
      → (done : Ticket × Option String × Bool) × (r.0 ≡ done.0)
        × (apply_patch text js calendar now tenant actor t dto db ≡ ok (done, db'))
  unfolding update
  update-inv actor id dto db t found r db' e =
      let (q, looked, rest) =
        >>=-eq-ok (require (find (is_ticket tenant id) db.tickets) not_found) _ db e in
      let (stored, kept) =
        require-inv (find (is_ticket tenant id) db.tickets) not_found db q looked in
      let same : q.0 ≡ t = ground arith in
      let (done, applied, last) =
        >>=-eq-ok (apply_patch text js calendar now tenant actor q.0 dto) _ q.1 rest in
      let ended : (r.0 ≡ done.0.0) × (done.1 ≡ db') = (
        sym (ap (λ (x : (Ticket × List UpdateEffect) × Db). x.0.0) (ok_inj last)),
        ap (λ (x : (Ticket × List UpdateEffect) × Db). x.1) (ok_inj last),
      ) in
      (
        done.0,
        ended.0,
        subst (λ x. apply_patch text js calendar now tenant actor t dto x ≡ ok (done.0, db')) kept
            (subst (λ u. apply_patch text js calendar now tenant actor u dto q.1 ≡ ok (done.0, db'))
              same
              (subst
                (λ x. apply_patch text js calendar now tenant actor q.0 dto q.1 ≡ ok (done.0, x))
                ended.1 applied)),
      )

-- ===== src/Ticketing/Merge/Cycle.antt =====
-- What a merge does to the rows of the two tickets (`TicketsService.merge`,
-- apps/api/src/modules/ticketing/tickets.service.ts).
use claude_cloud_ops_tool.Base.{
  ==-of-ne, >>=-of-ok, String, [], arith, false, find, find-update_where, find-update_where_ne,
  nat_eq, none, ok, option_eq, some, str_iff, string_eq, sym, ℕ, ◌++◌, ◌==◌, ◌∙◌, ◌∷◌, ◌≡◌, ◌≢◌,
}
use claude_cloud_ops_tool.Ticketing.Db.{Db, Ticket, is_ticket, system_note}
use claude_cloud_ops_tool.Ticketing.Merge.{
  carry_over, closed_into, close_source, absorb, merge_one, merge_each, merge, merged_into_text,
  merged_in_text, finish_merge,
}

module _ (of_ℕ : ℕ → String) (now : ℕ) (tenant : String) where
  abbrev pub IsStored : Ticket → Db → Type 0
  IsStored t db = find (is_ticket tenant t.id) db.tickets ≡ some t

  close_source-source :
      (p s : Ticket) (db : Db)
      → IsStored s db
      → find (is_ticket tenant s.id) (close_source of_ℕ now tenant p.id s.id db).tickets
        ≡ some (closed_into of_ℕ now tenant p.id s)
  unfolding close_source
  close_source-source p s db h =
      find-update_where (is_ticket tenant s.id) (closed_into of_ℕ now tenant p.id) (λ x e. e)
        db.tickets h

  close_source-other :
      (p s : Ticket) (db : Db)
      → p.id ≢ s.id
      → find (is_ticket tenant p.id) (close_source of_ℕ now tenant p.id s.id db).tickets
        ≡ find (is_ticket tenant p.id) db.tickets
  unfolding close_source
  close_source-other p s db apart =
      find-update_where_ne (is_ticket tenant p.id) (is_ticket tenant s.id)
        (closed_into of_ℕ now tenant p.id)
        (λ x e.
          let missed : is_ticket tenant p.id x ≡ false =
            ground (arith, str_iff x.id p.id, str_iff x.id s.id) in
          (missed, missed))
        db.tickets

  -- The tables after a source has been taken in.
  abbrev pub absorbed : Ticket → Ticket → Db → Db
  absorbed p s db =
      let rows = close_source of_ℕ now tenant p.id s.id (carry_over of_ℕ now tenant p.id s.id db) in
      record rows {
        messages =
            rows.messages ++ system_note tenant s.id (merged_into_text of_ℕ p.ticket_number) ∷ [];
      }

  pub merge_one-absorbed :
      (p s : Ticket) (db : Db)
      → p.id ≢ s.id
      → IsStored s db
      → s.merged_into_id ≡ none
      → merge_one of_ℕ now tenant p s.id db ≡ ok (s.ticket_number ∷ [], absorbed p s db)
  unfolding merge_one absorb
  merge_one-absorbed p s db apart hs fresh =
      let other : (s.id == p.id) ≡ false = ==-of-ne s.id p.id (λ e. apart (sym e)) in
      rw (other, hs) (rw fresh)

  abbrev announced : Ticket → Ticket → Db → Db
  announced p s db =
      let rows = absorbed p s db in
      record rows {
        messages =
            rows.messages
            ++ system_note tenant p.id (merged_in_text of_ℕ (s.ticket_number ∷ [])) ∷ [];
      }

  merge_each-absorbed :
      (p s : Ticket) (db : Db)
      → p.id ≢ s.id
      → IsStored s db
      → s.merged_into_id ≡ none
      → merge_each of_ℕ now tenant p (s.id ∷ []) [] db ≡ ok (s.ticket_number ∷ [], absorbed p s db)
  unfolding merge_each
  merge_each-absorbed p s db apart hs fresh =
      >>=-of-ok (merge_one of_ℕ now tenant p s.id)
        (λ new. merge_each of_ℕ now tenant p [] ([] ++ new)) db
        (merge_one-absorbed p s db apart hs fresh)

  finish_merge-announced :
      (p s : Ticket) (db : Db)
      → IsStored p (absorbed p s db)
      → finish_merge of_ℕ now tenant p.id (s.ticket_number ∷ []) (absorbed p s db)
        ≡ ok (p, announced p s db)
  unfolding finish_merge
  finish_merge-announced p s db stays = rw stays

  -- Merging one stored ticket, not merged yet, into another stored one closes it and points it at the
  -- other, whose row stays as it was.
  pub merge_pair :
      (p s : Ticket) (db : Db)
      → p.id ≢ s.id
      → IsStored p db
      → IsStored s db
      → s.merged_into_id ≡ none
      → (db' : Db) × (merge of_ℕ now tenant p.id (s.id ∷ []) db ≡ ok (p, db'))
        × (find (is_ticket tenant s.id) db'.tickets ≡ some (closed_into of_ℕ now tenant p.id s))
        × IsStored p db'
  unfolding merge carry_over
  merge_pair p s db apart hp hs fresh =
      let moved = carry_over of_ℕ now tenant p.id s.id db in
      let stays : find (is_ticket tenant p.id)
            (close_source of_ℕ now tenant p.id s.id moved).tickets
          ≡ some p =
        close_source-other p s moved apart ∙ hp in
      let loop = merge_each-absorbed p s db apart hs fresh in
      let merged : merge of_ℕ now tenant p.id (s.id ∷ []) db ≡ ok (p, announced p s db) = rw hp (
        >>=-of-ok (merge_each of_ℕ now tenant p (s.id ∷ []) []) (finish_merge of_ℕ now tenant p.id)
          db loop
        ∙ finish_merge-announced p s db stays) in
      (announced p s db, merged, close_source-source p s moved hs, stays)

  -- Nothing stops two tickets from being merged into each other: after b is merged into a, a can be
  -- merged into b, and then both are closed, each with the other as the ticket that it went into.
  pub merge-cycle :
      (a b : Ticket) (db : Db)
      → a.id ≢ b.id
      → IsStored a db
      → IsStored b db
      → a.merged_into_id ≡ none
      → b.merged_into_id ≡ none
      → (db1 : Db) × (db2 : Db) × (merge of_ℕ now tenant a.id (b.id ∷ []) db ≡ ok (a, db1))
        × (merge of_ℕ now tenant b.id (a.id ∷ []) db1
            ≡ ok (closed_into of_ℕ now tenant a.id b, db2))
        × (find (is_ticket tenant a.id) db2.tickets ≡ some (closed_into of_ℕ now tenant b.id a))
        × (find (is_ticket tenant b.id) db2.tickets ≡ some (closed_into of_ℕ now tenant a.id b))
  merge-cycle a b db apart ha hb fresh_a fresh_b =
      let (db1, first, closed, kept) = merge_pair a b db apart ha hb fresh_b in
      let (db2, second, closed2, kept2) =
        merge_pair (closed_into of_ℕ now tenant a.id b) a db1 (λ e. apart (sym e)) closed kept
          fresh_a in
      (db1, db2, first, second, closed2, kept2)

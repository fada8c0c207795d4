-- ===== src/Ticketing/Tickets/Responses.antt =====
-- The first response of a ticket, and which messages leave the helpdesk (`addMessage` of apps/api/src/
-- modules/ticketing/tickets.service.ts).
use claude_cloud_ops_tool.Base.{
  >>=-eq-ok, Bool, Bool-cases, List, Option, String, [], ap, arith, false, find, find-update_where,
  if◌then◌else◌, inl, inr, is_some, nat_eq, none, not, not_found, ok, ok_inj, option_eq, pure, refl,
  require, require-inv, some, string_eq, sym, true, update_where, ℕ, ◌&&◌, ◌++◌, ◌==◌, ◌∙◌, ◌∷◌,
  ◌≡◌, ◌≢◌, ◌⊎◌,
}
use claude_cloud_ops_tool.Ticketing.Db.{Db, Message, Ticket, is_ticket}
use claude_cloud_ops_tool.Ticketing.Automation.Audit.{others_row}
use claude_cloud_ops_tool.Ticketing.Tickets.Checks.{Table, agents, assert_given, contacts}
use claude_cloud_ops_tool.Ticketing.Tickets.Steps.{assert_given-inv}
use claude_cloud_ops_tool.Ticketing.Tickets.Messages.{
  Html, MessageEffect, NewMessage, add_message, check_author, is_by, mark_responded,
  message_effects, message_row,
}

-- The first response of a ticket after a message: the first public reply of an agent sets it, and
-- nothing changes it.
abbrev pub response_after : ℕ → NewMessage → Option ℕ → Option ℕ
response_after now dto (some at) = some at
response_after now dto none = if is_by dto "reply" "agent" then some now else none

response_lem :
    (now : ℕ) (dto : NewMessage) (o : Option ℕ)
    → response_after now dto o
      ≡ (if is_by dto "reply" "agent" && not (is_some o) then some now else o)
response_lem now dto none = elim (Bool-cases (is_by dto "reply" "agent")) [
  | inl e ↦ rw e refl
  | inr e ↦ rw e refl
]
response_lem now dto (some at) = elim (Bool-cases (is_by dto "reply" "agent")) [
  | inl e ↦ rw e refl
  | inr e ↦ rw e refl
]

module _ (html : Html) (now : ℕ) (tenant : String) where
  if_assert-inv :
      (b : Bool) (table : Table) (o : Option String) (db : Db) (q : Unit {0} × Db)
      → (if b then assert_given tenant table o else pure tt) db ≡ ok q
      → q.1 ≡ db
  if_assert-inv true table o db q e = (assert_given-inv tenant table o db q.1 q.0 e).0
  if_assert-inv false table o db q e = ap (λ (x : Unit {0} × Db). x.1) (sym (ok_inj e))

  -- The tables after the UPDATE of the first response, if there is one.
  abbrev responded : Bool → String → Db → Db
  responded b id db =
      if b
      then record db {
        tickets =
            update_where (is_ticket tenant id) (λ t. record t { first_response_at = some now })
              db.tickets;
      }
      else db

  if_mark-inv :
      (b : Bool) (id : String) (db : Db) (q : Unit {0} × Db)
      → (if b then mark_responded tenant now id else pure tt) db ≡ ok q
      → q.1 ≡ responded b id db
  unfolding mark_responded
  if_mark-inv true id db q e = ap (λ (x : Unit {0} × Db). x.1) (sym (ok_inj e))
  if_mark-inv false id db q e = ap (λ (x : Unit {0} × Db). x.1) (sym (ok_inj e))

  responded-find :
      (b : Bool) (id : String) (db : Db) (t : Ticket)
      → find (is_ticket tenant id) db.tickets ≡ some t
      → find (is_ticket tenant id) (responded b id db).tickets
        ≡ some (record t { first_response_at = if b then some now else t.first_response_at })
  responded-find true id db t found =
      find-update_where (is_ticket tenant id) (λ t. record t { first_response_at = some now })
        (λ x e. e) db.tickets found
  responded-find false id db t found = found

  responded-messages :
      (b : Bool) (id : String) (db : Db) → (responded b id db).messages ≡ db.messages
  responded-messages true id db = refl
  responded-messages false id db = refl

  responded-others :
      (b : Bool) (id u j : String) (db : Db)
      → (u ≢ tenant) ⊎ (j ≢ id)
      → find (is_ticket u j) (responded b id db).tickets ≡ find (is_ticket u j) db.tickets
  responded-others true id u j db apart =
      others_row tenant (λ t. record t { first_response_at = some now }) id db.tickets u j
        (λ x. refl) (λ x. refl) apart
  responded-others false id u j db apart = refl

  check_author-inv :
      (dto : NewMessage) (db : Db) (q : Unit {0} × Db)
      → check_author html now tenant dto db ≡ ok q
      → q.1 ≡ db
  unfolding check_author
  check_author-inv dto db q e =
      let (a, s1, e1) =
        >>=-eq-ok
          (if dto.author_type == "agent" then assert_given tenant agents dto.author_id else pure tt)
          _ db e in
      if_assert-inv (dto.author_type == "contact") contacts dto.author_id a.1 q e1
      ∙ if_assert-inv (dto.author_type == "agent") agents dto.author_id db a s1

  conclude :
      (id : String) (dto : NewMessage) (db : Db) (t : Ticket)
      → find (is_ticket tenant id) db.tickets ≡ some t
      → (m m' : Message) (db1 db' : Db) (b : Bool) → m ≡ m'
      → db1 ≡ db
      → response_after now dto t.first_response_at ≡ (if b then some now else t.first_response_at)
      → db' ≡ responded b id (record db1 { messages = db1.messages ++ m ∷ [] })
      → (u j : String) → (u ≢ tenant) ⊎ (j ≢ id)
      → (db'.messages ≡ db.messages ++ m' ∷ [])
        × (find (is_ticket tenant id) db'.tickets
            ≡ some (record t { first_response_at = response_after now dto t.first_response_at }))
        × (find (is_ticket u j) db'.tickets ≡ find (is_ticket u j) db.tickets)
  conclude id dto db t found m m' db1 db' b row kept response after u j apart =
      let posted : Db = record db { messages = db.messages ++ m ∷ [] } in
      let moved : db' ≡ responded b id posted =
        after
        ∙ ap (λ (x : Db). responded b id (record x { messages = x.messages ++ m ∷ [] })) kept in
      (
        ap (λ (x : Db). x.messages) moved
            ∙ responded-messages b id posted
            ∙ ap (λ k. db.messages ++ k ∷ []) row,
        ap (λ (x : Db). find (is_ticket tenant id) x.tickets) moved
            ∙ responded-find b id posted t found
            ∙ ap (λ k. some (record t { first_response_at = k })) (sym response),
        ap (λ (x : Db). find (is_ticket u j) x.tickets) moved
            ∙ responded-others b id u j posted apart,
      )

  -- A committed `addMessage` on a stored ticket adds one message and leaves the ticket as it is but for
  -- its first response, which the first public reply of an agent sets and nothing changes later; every
  -- other ticket, of this or another tenant, is as it was.
  pub add_message-response_after :
      (id : String) (dto : NewMessage) (db : Db) (t : Ticket)
      → find (is_ticket tenant id) db.tickets ≡ some t
      → (r : Message × List MessageEffect) (db' : Db)
      → add_message html now tenant id dto db ≡ ok (r, db')
      → (u j : String) → (u ≢ tenant) ⊎ (j ≢ id)
      → (db'.messages ≡ db.messages ++ r.0 ∷ [])
        × (find (is_ticket tenant id) db'.tickets
            ≡ some (record t { first_response_at = response_after now dto t.first_response_at }))
        × (find (is_ticket u j) db'.tickets ≡ find (is_ticket u j) db.tickets)
  unfolding add_message
  add_message-response_after id dto db t found r db' e u j apart =
      let (q, looked, rest) =
        >>=-eq-ok (require (find (is_ticket tenant id) db.tickets) not_found) _ db e in
      let (stored, same) =
        require-inv (find (is_ticket tenant id) db.tickets) not_found db q looked in
      let (a, authored, rest2) = >>=-eq-ok (check_author html now tenant dto) _ q.1 rest in
      let kept : a.1 ≡ db = check_author-inv dto q.1 a authored ∙ same in
      let b = is_by dto "reply" "agent" && not (is_some q.0.first_response_at) in
      let posted : Db = record a.1 {
        messages = a.1.messages ++ message_row html now tenant id dto ∷ [];
      } in
      let (w, marked, rest3) =
        >>=-eq-ok (if b then mark_responded tenant now id else pure tt) _ posted rest2 in
      let row : message_row html now tenant id dto ≡ r.0 =
        ap (λ (x : (Message × List MessageEffect) × Db). x.0.0) (ok_inj rest3) in
      let done : w.1 ≡ db' = ap (λ (x : (Message × List MessageEffect) × Db). x.1) (ok_inj rest3) in
      let after : db' ≡ responded b id posted = sym done ∙ if_mark-inv b id posted w marked in
      let mine : q.0 ≡ t = ground arith in
      conclude id dto db t found (message_row html now tenant id dto) r.0 a.1 db' b row kept
        (response_lem now dto t.first_response_at
          ∙ ap
              (λ (x : Ticket).
                if is_by dto "reply" "agent" && not (is_some x.first_response_at)
                then some now
                else t.first_response_at)
              (sym mine))
        after u j apart

  message_effects-private :
      (dto : NewMessage) (t : Ticket) (db : Db)
      → (dto.type == "reply") ≡ false
      → message_effects tenant html dto t db ≡ []
  unfolding message_effects
  message_effects-private dto t db other = rw (message_effects, other) refl

  -- A committed `addMessage` of a message that is not a reply (a note or a forward) sends no mail and
  -- starts nothing.
  pub add_message-private :
      (id : String) (dto : NewMessage) (db : Db)
      → (dto.type == "reply") ≡ false
      → (r : Message × List MessageEffect) (db' : Db)
      → add_message html now tenant id dto db ≡ ok (r, db')
      → r.1 ≡ []
  unfolding add_message
  add_message-private id dto db other r db' e =
      let (q, looked, rest) =
        >>=-eq-ok (require (find (is_ticket tenant id) db.tickets) not_found) _ db e in
      let (a, authored, rest2) = >>=-eq-ok (check_author html now tenant dto) _ q.1 rest in
      let b = is_by dto "reply" "agent" && not (is_some q.0.first_response_at) in
      let posted : Db = record a.1 {
        messages = a.1.messages ++ message_row html now tenant id dto ∷ [];
      } in
      let (w, marked, rest3) =
        >>=-eq-ok (if b then mark_responded tenant now id else pure tt) _ posted rest2 in
      ap (λ (x : (Message × List MessageEffect) × Db). x.0.1) (sym (ok_inj rest3))
      ∙ message_effects-private dto q.0 w.1 other

-- ===== src/Events/Notifications/Settled.antt =====
-- A notification that was queued is sent or has failed (apps/api/src/notifications).
use claude_cloud_ops_tool.Base.{
  ==_refl, Bool, Bool-cases, List, Option, String, [], any, ap, arith, false, find, find-append_new,
  if◌then◌else◌, inl, inr, nat_eq, option_eq, refl, some, string_eq, true, update_where, ℕ, ◌&&◌,
  ◌++◌, ◌∙◌, ◌∷◌, ◌≡◌, ◌≤◌,
}
use claude_cloud_ops_tool.Events.Bus.{Json, IsJson, Stream, IsStream, EventRow, Round, consume}
use claude_cloud_ops_tool.Events.Bus.Delivery.{message, Posting, reads, consume-publish_all}
use claude_cloud_ops_tool.Events.Notifications.{
  Status, Notification, EnqueueInput, Mailroom, Payloads, IsPayloads, is_notification, Transport,
  dispatch, handle_event, request_event, row_of, mark_failed, mark_sent, is_implemented,
  is_template, queued_row, enqueue,
}

-- Whether a notification can be delivered: its channel is implemented, its template is known and the
-- transport takes it.
abbrev pub is_deliverable : Transport → Notification → Bool
is_deliverable transport n = is_implemented n.channel && is_template n.template_name && transport n

-- What becomes of the row.
abbrev pub settle : Transport → ℕ → Notification → Notification
settle transport now n =
    if is_deliverable transport n
    then record n { status = Status.sent; sent_at = some now }
    else record n { status = Status.failed }

dispatch-mark_sent :
    (transport : Transport) (now : ℕ) (n : Notification) (h : Mailroom)
    → is_deliverable transport n ≡ true
    → dispatch transport now n h
      ≡ mark_sent now n.tenant_id n.id (record h { outbox = h.outbox ++ n ∷ [] })
unfolding dispatch
dispatch-mark_sent transport now n h e = ground arith

dispatch-mark_failed :
    (transport : Transport) (now : ℕ) (n : Notification) (h : Mailroom)
    → is_deliverable transport n ≡ false
    → dispatch transport now n h ≡ mark_failed n.tenant_id n.id h
unfolding dispatch
dispatch-mark_failed transport now n h e = ground arith

module _ {P : Type 0} (payloads : Payloads P) (is_payloads : IsPayloads payloads) where
  -- The event of a queued row settles this row.
  handle_event-dispatch :
      (transport : Transport) (now : ℕ) (event_id id created_at : String) (input : EnqueueInput)
      (h : Mailroom) (n : Notification)
      → find (is_notification input.tenant_id id) h.notifications ≡ some n
      → (handle_event payloads transport now
          (message (record {
            id = event_id;
            created_at = created_at;
            event = request_event payloads id input;
          }))
          h).1
        ≡ dispatch transport now n h
  unfolding handle_event
  handle_event-dispatch transport now event_id id created_at input h n found =
      let seen : row_of (some input.tenant_id) (payloads.notification_id (payloads.request id)) h
          ≡ some n =
        ap (λ (o : Option String). row_of (some input.tenant_id) o h)
          (is_payloads.notification_id-request id)
        ∙ found in
      rw seen refl

update_where-append_new :
    {A : Type 0} (p : A → Bool) (f : A → A) (xs : List A) (x : A)
    → any p xs ≡ false
    → p x ≡ true
    → update_where p f (xs ++ x ∷ []) ≡ xs ++ f x ∷ []
update_where-append_new p f [] x h e = rw e refl
update_where-append_new p f (y ∷ ys) x h e = elim (Bool-cases (p y)) [
  | inl t ↦ ground arith
  | inr t ↦ rw t (ap (λ (rest : List _). y ∷ rest) (update_where-append_new p f ys x (rw t at h) e))
]

dispatch-settle :
    (transport : Transport) (now : ℕ) (h : Mailroom) (n : Notification)
    → any (is_notification n.tenant_id n.id) h.notifications ≡ false
    → let after =
        dispatch transport now n (record h { notifications = h.notifications ++ n ∷ [] }) in
      (after.notifications ≡ h.notifications ++ settle transport now n ∷ [])
      × (after.outbox ≡ (if is_deliverable transport n then h.outbox ++ n ∷ [] else h.outbox))
dispatch-settle transport now h n fresh =
    let own : is_notification n.tenant_id n.id n ≡ true =
      rw (==_refl n.tenant_id, ==_refl n.id) refl in
    let queued : Mailroom = record h { notifications = h.notifications ++ n ∷ [] } in
    elim (Bool-cases (is_deliverable transport n)) [
      | inl t ↦ rw t (
        ap (λ (m : Mailroom). m.notifications) (dispatch-mark_sent transport now n queued t)
            ∙ update_where-append_new (is_notification n.tenant_id n.id) _ h.notifications n fresh
                own,
        ap (λ (m : Mailroom). m.outbox) (dispatch-mark_sent transport now n queued t),
      )
      | inr t ↦ rw t (
        ap (λ (m : Mailroom). m.notifications) (dispatch-mark_failed transport now n queued t)
            ∙ update_where-append_new (is_notification n.tenant_id n.id) _ h.notifications n fresh
                own,
        ap (λ (m : Mailroom). m.outbox) (dispatch-mark_failed transport now n queued t),
      )
    ]

module _ {P : Type 0} (payloads : Payloads P) (is_payloads : IsPayloads payloads) (json : Json P)
    (is_json : IsJson json) {S : Type 0} (r : Stream S) (is_stream : IsStream r) where
  -- If a group has been given all earlier entries, and the id of a notification is new, then after the
  -- notification is queued, a dispatcher that reads at least once without an error has changed nothing
  -- but the new row. The row is sent, and a transport has taken it once, if its channel is implemented,
  -- its template known and the transport takes it; otherwise it has failed, and nothing is sent.
  pub enqueue-settle :
      (transport : Transport) (now : ℕ) (group id event_id created_at : String)
      (input : EnqueueInput) (h : Mailroom) (rows : List EventRow) (s : S) (rounds : List Round)
      → r.undelivered group s ≡ []
      → any (is_notification input.tenant_id id) h.notifications ≡ false
      → 1 ≤ reads rounds
      → let queued = enqueue payloads json r id event_id created_at input h rows s in
        let run =
          consume json r group (handle_event payloads transport now) rounds queued.1.1 queued.0 in
        let n = queued_row id input in
        (run.tables.notifications ≡ h.notifications ++ settle transport now n ∷ [])
        × (run.tables.outbox
            ≡ (if is_deliverable transport n then h.outbox ++ n ∷ [] else h.outbox))
  unfolding enqueue
  enqueue-settle transport now group id event_id created_at input h rows s rounds idle fresh alive =
      let n = queued_row id input in
      let queued : Mailroom = record h { notifications = h.notifications ++ n ∷ [] } in
      let posting : Posting P = record {
        id = event_id;
        created_at = created_at;
        event = request_event payloads id input;
      } in
      let (_, tables, _) =
        consume-publish_all json is_json r is_stream group (handle_event payloads transport now)
          rounds (posting ∷ []) rows s queued idle (omega arith) in
      let found =
        find-append_new (is_notification input.tenant_id id) h.notifications n fresh
          (rw (==_refl input.tenant_id, ==_refl id) refl) in
      let dispatched =
        tables
        ∙ handle_event-dispatch payloads is_payloads transport now event_id id created_at input
            queued n found in
      let (rows_after, taken) = dispatch-settle transport now h n fresh in
      (
        ap (λ (m : Mailroom). m.notifications) dispatched ∙ rows_after,
        ap (λ (m : Mailroom). m.outbox) dispatched ∙ taken,
      )

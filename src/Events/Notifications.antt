-- ===== src/Events/Notifications.antt =====
-- Notifications: the row, the event and the dispatcher (apps/api/src/notifications/
-- {notifications.service,notification-dispatcher.service}.ts). The wording of a template and the
-- transports of the channels (Twilio, SMTP, webhooks) are parameters.
pub mod Settled
use claude_cloud_ops_tool.Base.{
  Bool, List, Option, String, [], contains, false, find, if◌then◌else◌, nat_eq, none, option_eq,
  some, string_eq, true, update_where, ℕ, ◌&&◌, ◌++◌, ◌==◌, ◌||◌, ◌∷◌, ◌≡◌,
}
use claude_cloud_ops_tool.Events.Bus.{Json, Stream, PublishInput, DomainEvent, EventRow, publish}

pub data Status : Type 0 where
  queued sent failed : Status

pub record Notification : Type 0 where
  pub id : String
  pub tenant_id : String
  pub channel : String
  pub recipient : String
  pub template_name : String
  pub payload : String
  pub status : Status
  pub sent_at : Option ℕ

-- `EnqueueNotificationInput`
pub record EnqueueInput : Type 0 where
  pub tenant_id : String
  pub channel : String
  pub recipient : String
  pub template_name : String
  pub payload : String

-- The table, and what the transports have taken.
pub record Mailroom : Type 0 where
  pub notifications : List Notification
  pub outbox : List Notification

-- The payloads of events, and their property `notificationId`.
pub record Payloads (P : Type 0) : Type 0 where
  pub request : String → P
  pub notification_id : P → Option String

pub record IsPayloads {P : Type 0} (payloads : Payloads P) : Type 0 where
  pub notification_id-request :
      (id : String) → payloads.notification_id (payloads.request id) ≡ some id

-- The names in template-registry.ts.
abbrev pub template_names : List String
template_names =
    "sprint0.test_email" ∷ "ticket.overdue" ∷ "ticket.reply" ∷ "ticket.assigned"
    ∷ "ticket.contact_reply" ∷ "ticket.watcher_update" ∷ "monitoring.escalation"
    ∷ "platform.password_reset" ∷ "cost.pace_alert" ∷ "cost.scheduled_report" ∷ []

-- NOTIFICATION_REQUESTED
abbrev pub notification_requested : String
notification_requested = "notification.requested"

abbrev pub is_notification : String → String → Notification → Bool
is_notification tenant id n = n.tenant_id == tenant && n.id == id

abbrev pub queued_row : String → EnqueueInput → Notification
queued_row id input = record {
  id = id;
  tenant_id = input.tenant_id;
  channel = input.channel;
  recipient = input.recipient;
  template_name = input.template_name;
  payload = input.payload;
  status = Status.queued;
  sent_at = none;
}

-- Whether a transport takes a message, which is rendered from the template and the payload.
abbrev pub Transport : Type 0
Transport = Notification → Bool

-- A stub always throws.
abbrev pub stub_channel : Transport
stub_channel n = false

-- The channels of the constructor that have an implementation, and those with a stub.
unfoldable pub is_implemented : String → Bool
is_implemented channel = contains ("email" ∷ "slack" ∷ "webhook" ∷ "sms" ∷ "voice" ∷ []) channel

unfoldable pub is_stubbed : String → Bool
is_stubbed channel = contains ("whatsapp" ∷ "in_app" ∷ []) channel

-- The functions of Object.prototype that `templates[name]` finds and that return when they are called
-- without a receiver; the others throw.
abbrev pub inherited_renderers : List String
inherited_renderers = "constructor" ∷ "toString" ∷ []

-- Whether `renderTemplate` returns.
unfoldable pub is_template : String → Bool
is_template name = contains template_names name || contains inherited_renderers name

-- `this.channels.get`
abbrev pub channel_of : Transport → String → Option Transport
channel_of transport channel =
    if is_implemented channel
    then some transport
    else (if is_stubbed channel then some stub_channel else none)

abbrev pub mark_failed : String → String → Mailroom → Mailroom
mark_failed tenant id h = record h {
  notifications =
      update_where (is_notification tenant id) (λ n. record n { status = Status.failed })
        h.notifications;
}

abbrev pub mark_sent : ℕ → String → String → Mailroom → Mailroom
mark_sent now tenant id h = record h {
  notifications =
      update_where (is_notification tenant id)
        (λ n. record n { status = Status.sent; sent_at = some now }) h.notifications;
}

-- renderTemplate throws on an unknown name, and `send` may throw.
unfoldable pub dispatch : Transport → ℕ → Notification → Mailroom → Mailroom
dispatch transport now n h = elim (channel_of transport n.channel) [
  | none ↦ mark_failed n.tenant_id n.id h
  | some send ↦
      if is_template n.template_name && send n
      then mark_sent now n.tenant_id n.id (record h { outbox = h.outbox ++ n ∷ [] })
      else mark_failed n.tenant_id n.id h
]

-- The row that an event asks for. Without a tenant no row is seen.
abbrev pub row_of : Option String → Option String → Mailroom → Option Notification
row_of none id h = none
row_of (some tenant) none h = none
row_of (some tenant) (some id) h = find (is_notification tenant id) h.notifications

module _ {P : Type 0} (payloads : Payloads P) where
  -- It resolves in any case: what `send` throws is caught.
  unfoldable pub handle_event : Transport → ℕ → DomainEvent P → Mailroom → Bool × Mailroom
  handle_event transport now event h =
      if event.event_type == some notification_requested
      then elim (row_of event.tenant_id (payloads.notification_id event.payload) h) [
        | none ↦ (true, h)
        | some n ↦ (true, dispatch transport now n h)
      ]
      else (true, h)

  abbrev pub request_event : String → EnqueueInput → PublishInput P
  request_event id input = record {
    tenant_id = input.tenant_id;
    event_type = notification_requested;
    payload = payloads.request id;
  }

  module _ (json : Json P) {S : Type 0} (r : Stream S) where
    -- The row is committed before the event is published.
    unfoldable pub enqueue :
        String
        → String
        → String
        → EnqueueInput
        → Mailroom
        → List EventRow
        → S
        → Mailroom × (List EventRow × S)
    enqueue id event_id created_at input h rows s = (
      record h { notifications = h.notifications ++ queued_row id input ∷ [] },
      (publish json r event_id created_at (request_event id input) rows s).1,
    )

-- ===== src/Events/Tests.antt =====
-- The event bus and the dispatcher on a small stream.
use claude_cloud_ops_tool.Events.Bus.{deliver, publish, parse_fields}
use claude_cloud_ops_tool.Base.{
  Bool, List, String, [], arith, drop, filter, if◌then◌else◌, length, map, nat_eq, not, option_eq,
  refl, some, string_eq, take, true, ℕ, ◌++◌, ◌+◌, ◌==◌, ◌∷◌, ◌≡◌,
}
use claude_cloud_ops_tool.Events.Bus.{
  Json, IsJson, Stream, IsStream, DomainEvent, read, read_error, consume,
}
use claude_cloud_ops_tool.Events.Bus.Delivery.{
  Posting, handle_all, publish_all, consume-publish_all,
}
use claude_cloud_ops_tool.Events.Notifications.{
  EnqueueInput, Mailroom, Payloads, IsPayloads, Transport, queued_row, enqueue, handle_event,
}
use claude_cloud_ops_tool.Events.Notifications.Settled.{is_deliverable, settle, enqueue-settle}

-- JSON of texts.
abbrev texts : Json String
texts = record { stringify = λ p. p; parse = λ s. some s }

texts-IsJson : IsJson texts
texts-IsJson = record { parse-stringify = λ p. refl }

-- A stream with one group: what is new, what is pending, and the next id.
abbrev Log : Type 0
Log = List (ℕ × List String) × (List ℕ × ℕ)

abbrev log : Stream Log
log = record {
  undelivered = λ g s. s.0;
  pending = λ g s. s.1.0;
  xadd = λ fields s. (s.1.1, (s.0 ++ (s.1.1, fields) ∷ [], (s.1.0, s.1.1 + 1)));
  xreadgroup = λ g n s. (take n s.0, (drop n s.0, (s.1.0 ++ map (λ e. e.0) (take n s.0), s.1.1)));
  xack = λ g id s. (s.0, (filter (λ j. not (j == id)) s.1.0, s.1.1));
}

log-IsStream : IsStream log
log-IsStream = record {
  undelivered-xadd = λ g fields s. refl;
  xreadgroup-entries = λ g n s. refl;
  undelivered-xreadgroup = λ g n s. refl;
  undelivered-xack = λ g id s. refl;
}

abbrev empty : Log
empty = ([], ([], 1))

-- It keeps the payloads, and fails on the first message.
abbrev keep : DomainEvent String → List String → Bool × List String
keep event seen = (not (length seen == 0), seen ++ event.payload ∷ [])

abbrev posting : String → Posting String
posting text = record {
  id = text;
  created_at = "now";
  event = record { tenant_id = "acme"; event_type = "note"; payload = text };
}

abbrev postings : List (Posting String)
postings = posting "a" ∷ posting "b" ∷ []

consume_test :
    (consume texts log "g" keep
      (read_error ∷ read ∷ [])
      (publish_all texts log postings [] empty).1
      []).tables
    ≡ "a" ∷ "b" ∷ []
unfolding consume deliver publish parse_fields
consume_test = refl

consume-publish_all_example :
    let run =
      consume texts log "g" keep
        (read_error ∷ read ∷ [])
        (publish_all texts log postings [] empty).1
        [] in
    (run.is_running ≡ true)
    × (run.tables ≡ handle_all keep postings [])
    × (log.undelivered "g" run.stream ≡ [])
consume-publish_all_example =
    consume-publish_all texts texts-IsJson log log-IsStream "g" keep (read_error ∷ read ∷ [])
      postings [] empty [] refl (omega arith)

abbrev ids : Payloads String
ids = record { request = λ id. id; notification_id = λ p. some p }

ids-IsPayloads : IsPayloads ids
ids-IsPayloads = record { notification_id-request = λ id. refl }

abbrev reset_mail : EnqueueInput
reset_mail = record {
  tenant_id = "acme";
  channel = "email";
  recipient = "ann@example.org";
  template_name = "platform.password_reset";
  payload = "{}";
}

abbrev no_mail : Mailroom
no_mail = record { notifications = []; outbox = [] }

abbrev working : Transport
working n = true

enqueue-settle_example :
    let queued = enqueue ids texts log "n1" "e1" "now" reset_mail no_mail [] empty in
    let run =
      consume texts log "dispatcher" (handle_event ids working 9) (read ∷ []) queued.1.1 queued.0 in
    let n = queued_row "n1" reset_mail in
    (run.tables.notifications ≡ settle working 9 n ∷ [])
    × (run.tables.outbox ≡ (if is_deliverable working n then n ∷ [] else []))
enqueue-settle_example =
    enqueue-settle ids ids-IsPayloads texts texts-IsJson log log-IsStream working 9 "dispatcher"
      "n1" "e1" "now" reset_mail no_mail [] empty (read ∷ []) refl refl (omega arith)

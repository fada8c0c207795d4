-- ===== src/Events/Bus.antt =====
-- The event bus over one Redis stream (apps/api/src/event-bus/event-bus.service.ts). The commands on
-- the stream and JSON are parameters.
pub mod Delivery
use claude_cloud_ops_tool.Base.{
  Bool, List, Option, String, [], drop, false, if◌then◌else◌, nat_eq, none, option_eq, some,
  string_eq, take, true, ℕ, ◌++◌, ◌==◌, ◌∷◌, ◌≡◌,
}

-- `JSON` on payloads
pub record Json (P : Type 0) : Type 0 where
  pub stringify : P → String
  pub parse : String → Option P

pub record IsJson {P : Type 0} (json : Json P) : Type 0 where
  pub parse-stringify : (p : P) → json.parse (json.stringify p) ≡ some p

-- The stream as a consumer group sees it. XADD gives the entry's id, and XREADGROUP with the id `>` the
-- entries that no consumer of the group has been given.
pub record Stream (S : Type 0) : Type 0 where
  pub undelivered : String → S → List (ℕ × List String)
  pub pending : String → S → List ℕ
  pub xadd : List String → S → ℕ × S
  pub xreadgroup : String → ℕ → S → List (ℕ × List String) × S
  pub xack : String → ℕ → S → S

-- What Redis documents of the commands.
pub record IsStream {S : Type 0} (r : Stream S) : Type 0 where
  pub undelivered-xadd :
      (g : String) (fields : List String) (s : S)
      → r.undelivered g (r.xadd fields s).1
        ≡ r.undelivered g s ++ ((r.xadd fields s).0, fields) ∷ []
  pub xreadgroup-entries :
      (g : String) (n : ℕ) (s : S) → (r.xreadgroup g n s).0 ≡ take n (r.undelivered g s)
  pub undelivered-xreadgroup :
      (g : String) (n : ℕ) (s : S)
      → r.undelivered g (r.xreadgroup g n s).1 ≡ drop n (r.undelivered g s)
  pub undelivered-xack :
      (g : String) (id : ℕ) (s : S) → r.undelivered g (r.xack g id s) ≡ r.undelivered g s

-- `PublishEventInput`
pub record PublishInput (P : Type 0) : Type 0 where
  pub tenant_id : String
  pub event_type : String
  pub payload : P

-- `DomainEventMessage`; a field that the entry of the stream lacks is `undefined`.
pub record DomainEvent (P : Type 0) : Type 0 where
  pub id : Option String
  pub tenant_id : Option String
  pub event_type : Option String
  pub payload : P
  pub created_at : Option String

-- A row of `events`.
pub record EventRow : Type 0 where
  pub id : String
  pub tenant_id : String
  pub event_type : String
  pub payload : String
  pub created_at : String

-- `map[key]` after the loop of parseFields.
abbrev pub field_of : String → Option String → List String → Option String
field_of key found [] = found
field_of key found (k ∷ []) = if k == key then none else found
field_of key found (k ∷ v ∷ rest) = field_of key (if k == key then some v else found) rest

module _ {P : Type 0} (json : Json P) where
  -- `none` is an exception of JSON.parse, also on `undefined`.
  unfoldable pub parse_fields : List String → Option (DomainEvent P)
  parse_fields fields = elim (field_of "payload" none fields) [
    | none ↦ none
    | some text ↦ elim (json.parse text) [
      | none ↦ none
      | some payload ↦ some (record {
        id = field_of "id" none fields;
        tenant_id = field_of "tenantId" none fields;
        event_type = field_of "eventType" none fields;
        payload = payload;
        created_at = field_of "createdAt" none fields;
      })
    ]
  ]

  -- The id and the time of an event, with what is published.
  abbrev pub fields_of : String → String → PublishInput P → List String
  fields_of id created_at event =
      "id"
      ∷ id
      ∷ "tenantId"
      ∷ event.tenant_id
      ∷ "eventType"
      ∷ event.event_type
      ∷ "payload"
      ∷ json.stringify event.payload
      ∷ "createdAt"
      ∷ created_at
      ∷ []

  abbrev pub event_row : String → String → PublishInput P → EventRow
  event_row id created_at event = record {
    id = id;
    tenant_id = event.tenant_id;
    event_type = event.event_type;
    payload = json.stringify event.payload;
    created_at = created_at;
  }

  -- What `publish` returns.
  abbrev pub message_of : String → String → PublishInput P → DomainEvent P
  message_of id created_at event = record {
    id = some id;
    tenant_id = some event.tenant_id;
    event_type = some event.event_type;
    payload = event.payload;
    created_at = some created_at;
  }

  module _ {S : Type 0} (r : Stream S) where
    -- The row is committed first, then the entry is added.
    unfoldable pub publish :
        String → String → PublishInput P → List EventRow → S → DomainEvent P × (List EventRow × S)
    publish id created_at event rows s = (
      message_of id created_at event,
      (rows ++ event_row id created_at event ∷ [], (r.xadd (fields_of id created_at event) s).1),
    )

-- How a read ends: with an exception, or with what is new, which may be nothing.
pub data Round : Type 0 where
  read_error read : Round

-- The stream and the tables after some rounds, and whether the loop still runs.
pub record Run (S H : Type 0) : Type 0 where
  pub is_running : Bool
  pub stream : S
  pub tables : H

module _ {P : Type 0} (json : Json P) {S : Type 0} (r : Stream S) (group : String) {H : Type 0}
    (handler : DomainEvent P → H → Bool × H) where
  -- The messages of one reply. The handler gives `false` if it throws, and then XACK is skipped; an
  -- exception of parseFields ends the loop.
  unfoldable pub deliver : List (ℕ × List String) → S → H → Run S H
  deliver [] s h = record { is_running = true; stream = s; tables = h }
  deliver ((id, fields) ∷ entries) s h = elim (parse_fields json fields) [
    | none ↦ record { is_running = false; stream = s; tables = h }
    | some event ↦
        deliver entries (if (handler event h).0 then r.xack group id s else s) (handler event h).1
  ]

  -- `loop`, until the client has ended.
  unfoldable pub consume : List Round → S → H → Run S H
  consume [] s h = record { is_running = true; stream = s; tables = h }
  consume (read_error ∷ rounds) s h = consume rounds s h
  consume (read ∷ rounds) s h =
      let (entries, s') = r.xreadgroup group 10 s in
      let delivered = deliver entries s' h in
      let rest = consume rounds delivered.stream delivered.tables in
      if delivered.is_running then rest else delivered

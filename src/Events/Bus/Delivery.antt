-- ===== src/Events/Bus/Delivery.antt =====
-- Every event that is published comes to the handler, once and in order (apps/api/src/event-bus/
-- event-bus.service.ts).
use mathlib.Core.List.{append-nil, append_assoc}
use claude_cloud_ops_tool.Base.{
  Bool, List, String, [], all, ap, arith, drop, false, if◌then◌else◌, length, refl, some, subst,
  suc, sym, take, true, zero, ℕ, ◌*◌, ◌++◌, ◌+◌, ◌∙◌, ◌∷◌, ◌≡◌, ◌≤◌,
}
use claude_cloud_ops_tool.Events.Bus.{
  Json, IsJson, Stream, IsStream, PublishInput, DomainEvent, EventRow, Round, read, read_error,
  parse_fields, fields_of, publish, deliver, consume,
}

-- An event to publish, with the id and the time that it is given.
pub record Posting (P : Type 0) : Type 0 where
  pub id : String
  pub created_at : String
  pub event : PublishInput P

-- How often the loop reads without an error.
abbrev pub reads : List Round → ℕ
reads [] = 0
reads (read_error ∷ rounds) = reads rounds
reads (read ∷ rounds) = suc (reads rounds)

abbrev pub message : {P : Type 0} → Posting P → DomainEvent P
message p = record {
  id = some p.id;
  tenant_id = some p.event.tenant_id;
  event_type = some p.event.event_type;
  payload = p.event.payload;
  created_at = some p.created_at;
}

-- The tables after the handler has got messages one after the other.
abbrev pub handle_all : {P H : Type 0} → (DomainEvent P → H → Bool × H) → List (Posting P) → H → H
handle_all handler [] h = h
handle_all handler (p ∷ ps) h = handle_all handler ps (handler (message p) h).1

handle_all-take-drop :
    {P H : Type 0} (handler : DomainEvent P → H → Bool × H) (n : ℕ) (ps : List (Posting P)) (h : H)
    → handle_all handler (drop n ps) (handle_all handler (take n ps) h) ≡ handle_all handler ps h
handle_all-take-drop handler zero ps h = refl
handle_all-take-drop handler (suc n) [] h = refl
handle_all-take-drop handler (suc n) (p ∷ ps) h =
    handle_all-take-drop handler n ps (handler (message p) h).1

length-drop_le : {A : Type 0} (n k : ℕ) (xs : List A) → length xs ≤ n + k → length (drop n xs) ≤ k
length-drop_le zero k xs h = omega arith
length-drop_le (suc n) k [] h = omega arith
length-drop_le (suc n) k (x ∷ xs) h = length-drop_le n k xs (omega arith)

module _ {P : Type 0} (json : Json P) where
  -- Entries of the stream that hold events.
  abbrev pub Carries : List (ℕ × List String) → List (Posting P) → Type 0
  Carries [] [] = Unit
  Carries [] (p ∷ ps) = ⊥
  Carries (e ∷ es) [] = ⊥
  Carries (e ∷ es) (p ∷ ps) = (e.1 ≡ fields_of json p.id p.created_at p.event) × Carries es ps

  Carries-append :
      (es : List (ℕ × List String)) (ps : List (Posting P)) (e : ℕ × List String) (p : Posting P)
      → Carries es ps
      → e.1 ≡ fields_of json p.id p.created_at p.event
      → Carries (es ++ e ∷ []) (ps ++ p ∷ [])
  Carries-append [] [] e p h same = (same, tt)
  Carries-append [] (q ∷ ps) e p h same = elim h [ ]
  Carries-append (d ∷ es) [] e p h same = elim h [ ]
  Carries-append (d ∷ es) (q ∷ ps) e p h same = (h.0, Carries-append es ps e p h.1 same)

  Carries-nil : (es : List (ℕ × List String)) → Carries es [] → es ≡ []
  Carries-nil [] h = refl
  Carries-nil (e ∷ es) h = elim h [ ]

  Carries-take-drop :
      (n : ℕ) (es : List (ℕ × List String)) (ps : List (Posting P))
      → Carries es ps
      → Carries (take n es) (take n ps) × Carries (drop n es) (drop n ps)
  Carries-take-drop zero es ps h = (tt, h)
  Carries-take-drop (suc n) [] [] h = (tt, tt)
  Carries-take-drop (suc n) [] (p ∷ ps) h = elim h [ ]
  Carries-take-drop (suc n) (e ∷ es) [] h = elim h [ ]
  Carries-take-drop (suc n) (e ∷ es) (p ∷ ps) h =
      let (taken, dropped) = Carries-take-drop n es ps h.1 in ((h.0, taken), dropped)

  module _ {S : Type 0} (r : Stream S) where
    -- `publish` for each event, one after the other.
    abbrev pub publish_all : List (Posting P) → List EventRow → S → List EventRow × S
    publish_all [] rows s = (rows, s)
    publish_all (p ∷ ps) rows s =
        let after = (publish json r p.id p.created_at p.event rows s).1 in
        publish_all ps after.0 after.1

  module _ (is_json : IsJson json) where
    -- The fields of an entry are read back as the event.
    pub parse_fields-fields_of :
        (p : Posting P)
        → parse_fields json (fields_of json p.id p.created_at p.event) ≡ some (message p)
    unfolding parse_fields
    parse_fields-fields_of p = rw (is_json.parse-stringify p.event.payload) refl

    module _ {S : Type 0} (r : Stream S) (is_stream : IsStream r) (group : String) {H : Type 0}
        (handler : DomainEvent P → H → Bool × H) where
      undelivered-xack_if :
          (resolved : Bool) (id : ℕ) (s : S)
          → r.undelivered group (if resolved then r.xack group id s else s) ≡ r.undelivered group s
      undelivered-xack_if true id s = is_stream.undelivered-xack group id s
      undelivered-xack_if false id s = refl

      deliver-handle_all :
          (es : List (ℕ × List String)) (ps : List (Posting P)) (s : S) (h : H)
          → Carries es ps
          → let run = deliver json r group handler es s h in
            (run.is_running ≡ true)
            × (run.tables ≡ handle_all handler ps h)
            × (r.undelivered group run.stream ≡ r.undelivered group s)
      unfolding deliver
      deliver-handle_all [] [] s h c = (refl, refl, refl)
      deliver-handle_all [] (p ∷ ps) s h c = elim c [ ]
      deliver-handle_all (e ∷ es) [] s h c = elim c [ ]
      deliver-handle_all ((id, fields) ∷ es) (p ∷ ps) s h c =
          let parsed = ap (parse_fields json) c.0 ∙ parse_fields-fields_of p in
          let resolved = (handler (message p) h).0 in
          let s' = if resolved then r.xack group id s else s in
          let (running, tables, left) = deliver-handle_all es ps s' (handler (message p) h).1 c.1 in
          rw (parsed, deliver) (running, tables, left ∙ undelivered-xack_if resolved id s)

      consume-handle_all :
          (rounds : List Round) (ps : List (Posting P)) (s : S) (h : H)
          → Carries (r.undelivered group s) ps
          → length ps ≤ 10 * reads rounds
          → let run = consume json r group handler rounds s h in
            (run.is_running ≡ true)
            × (run.tables ≡ handle_all handler ps h)
            × (r.undelivered group run.stream ≡ [])
      unfolding consume
      consume-handle_all [] [] s h c enough = (refl, refl, Carries-nil (r.undelivered group s) c)
      consume-handle_all [] (p ∷ ps) s h c enough = absurd (omega arith)
      consume-handle_all (read_error ∷ rounds) ps s h c enough =
          consume-handle_all rounds ps s h c enough
      consume-handle_all (read ∷ rounds) ps s h c enough =
          let es = (r.xreadgroup group 10 s).0 in
          let s' = (r.xreadgroup group 10 s).1 in
          let delivered = deliver json r group handler es s' h in
          let (here, later) = Carries-take-drop 10 (r.undelivered group s) ps c in
          let (running, tables, left) = deliver-handle_all es (take 10 ps) s' h (
            subst (λ (x : List (ℕ × List String)). Carries x (take 10 ps))
              (sym (is_stream.xreadgroup-entries group 10 s)) here) in
          let (goes_on, all, emptied) =
            consume-handle_all rounds (drop 10 ps) delivered.stream delivered.tables
              (subst (λ (x : List (ℕ × List String)). Carries x (drop 10 ps))
                (sym (left ∙ is_stream.undelivered-xreadgroup group 10 s)) later)
              (length-drop_le 10 (10 * reads rounds) ps (omega arith)) in
          rw running (
            goes_on,
            all
                ∙ ap (handle_all handler (drop 10 ps)) tables
                ∙ handle_all-take-drop handler 10 ps h,
            emptied,
          )

      publish_all-Carries :
          (ps before : List (Posting P)) (rows : List EventRow) (s : S)
          → Carries (r.undelivered group s) before
          → Carries (r.undelivered group (publish_all r ps rows s).1) (before ++ ps)
      unfolding publish
      publish_all-Carries [] before rows s c =
          subst (Carries (r.undelivered group s)) (sym (append-nil before)) c
      publish_all-Carries (p ∷ ps) before rows s c =
          let fields = fields_of json p.id p.created_at p.event in
          let s' = (r.xadd fields s).1 in
          subst
            (Carries (
              r.undelivered group
                (publish_all r ps (publish json r p.id p.created_at p.event rows s).1.0 s').1))
            (append_assoc before (p ∷ []) ps)
            (publish_all-Carries ps (before ++ p ∷ [])
              (publish json r p.id p.created_at p.event rows s).1.0 s'
              (subst (λ (x : List (ℕ × List String)). Carries x (before ++ p ∷ []))
                (sym (is_stream.undelivered-xadd group fields s))
                (Carries-append (r.undelivered group s) before ((r.xadd fields s).0, fields) p c
                  refl)))

      -- Where a group has been given all earlier entries, and JSON reads back what it has written, the
      -- loop that reads without an error at least once for each ten events that are published hands all
      -- of them, as they were published, each once and in order, to the handler, whatever reads fail and
      -- whatever messages the handler fails on; then nothing is left to read, and the loop still runs.
      pub consume-publish_all :
          (rounds : List Round) (ps : List (Posting P)) (rows : List EventRow) (s : S) (h : H)
          → r.undelivered group s ≡ []
          → length ps ≤ 10 * reads rounds
          → let run = consume json r group handler rounds (publish_all r ps rows s).1 h in
            (run.is_running ≡ true)
            × (run.tables ≡ handle_all handler ps h)
            × (r.undelivered group run.stream ≡ [])
      consume-publish_all rounds ps rows s h fresh enough =
          consume-handle_all rounds ps (publish_all r ps rows s).1 h
            (publish_all-Carries ps [] rows s
              (subst (λ (x : List (ℕ × List String)). Carries x []) (sym fresh) tt))
            enough

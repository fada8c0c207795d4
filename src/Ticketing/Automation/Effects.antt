-- ===== src/Ticketing/Automation/Effects.antt =====
-- The effect of `applyAction`, read off its code: what a committed action has done to the ticket in
-- memory and to the tables.
use claude_cloud_ops_tool.Base.{
  Bool-cases, Option-cases, String, [], arith, contains, false, find, inl, inr, nat_eq, ne-of-==,
  none, ok, option_eq, refl, some, string_eq, true, update_where, ℕ, ◌++◌, ◌==◌, ◌∷◌, ◌≡◌, ◌≢◌,
}
use claude_cloud_ops_tool.Ticketing.Db.{
  Db, Ticket, Column, column_accepts, Activity, AutomationAction, ActionType, add_note, add_tag,
  is_ticket, Message, system_note,
}
use claude_cloud_ops_tool.Ticketing.Automation.Engine.{
  TextOps, action_field, column_value, written, set_property, append_tag, post_note, apply_other,
  apply_action,
}

module _ (text : TextOps) (now : ℕ) (tenant : String) where
  abbrev pub activity_of : Ticket → AutomationAction → Column → Activity
  activity_of t action column = record {
    tenant_id = tenant;
    ticket_id = t.id;
    field = column;
    old_value = column_value t column;
    new_value = some action.value;
    actor_agent_id = none;
  }

  pub data Effect (t : Ticket) (action : AutomationAction) (db : Db) (t' : Ticket) (db' : Db)
      : Type 0 where
    same : t' ≡ t → db' ≡ db → Effect t action db t' db'
    noted :
        (m : Message)
        → t' ≡ t
        → db' ≡ record db { messages = db.messages ++ m ∷ [] }
        → Effect t action db t' db'
    changed :
        (column : Column)
        → action_field action.type ≡ some column
        → column_value t column ≢ some action.value
        → column_accepts db column action.value ≡ true
        → find
            (is_ticket tenant t.id)
            (update_where (is_ticket tenant t.id) (written now action column) db.tickets)
          ≡ some t'
        → db' ≡ record db {
          tickets = update_where (is_ticket tenant t.id) (written now action column) db.tickets;
          activities = db.activities ++ activity_of t action column ∷ [];
        }
        → Effect t action db t' db'
    tagged :
        (tag : String)
        → tag ≡ text.trim action.value
        → tag ≢ ""
        → contains t.tags tag ≡ false
        → find (is_ticket tenant t.id) (
            update_where
              (is_ticket tenant t.id)
              (λ x. record x { tags = x.tags ++ tag ∷ []; updated_at = now })
              db.tickets)
          ≡ some t'
        → db' ≡ record db {
          tickets =
              update_where
                (is_ticket tenant t.id)
                (λ x. record x { tags = x.tags ++ tag ∷ []; updated_at = now })
                db.tickets;
        }
        → Effect t action db t' db'

  set_property-Effect :
      (t : Ticket) (action : AutomationAction) (column : Column) (db : Db) {t' : Ticket} {db' : Db}
      → action_field action.type ≡ some column
      → set_property text now tenant t action column db ≡ ok (t', db')
      → Effect t action db t' db'
  unfolding set_property
  set_property-Effect t action column db {t'} {db'} field e =
      let rows = update_where (is_ticket tenant t.id) (written now action column) db.tickets in
      elim (Bool-cases (column_value t column == some action.value)) [
        | inl there ↦ same (ground arith) (ground arith)
        | inr other ↦ elim (Bool-cases (column_accepts db column action.value)) [
          | inl accepted ↦ elim (Option-cases (find (is_ticket tenant t.id) rows)) [
            | inl missing ↦ absurd (ground arith)
            | inr (row, found) ↦
                changed column field (ne-of-== _ _ other) accepted (ground arith) (ground arith)
          ]
          | inr refused ↦ absurd (ground arith)
        ]
      ]

  append_tag-Effect :
      (t : Ticket) (action : AutomationAction) (tag : String) (db : Db) {t' : Ticket} {db' : Db}
      → tag ≡ text.trim action.value
      → append_tag text now tenant t tag db ≡ ok (t', db')
      → Effect t action db t' db'
  unfolding append_tag
  append_tag-Effect t action tag db {t'} {db'} trimmed e =
      let rows =
        update_where (is_ticket tenant t.id)
          (λ x. record x { tags = x.tags ++ tag ∷ []; updated_at = now }) db.tickets in
      elim (Bool-cases (tag == "")) [
        | inl empty ↦ same (ground arith) (ground arith)
        | inr some_text ↦ elim (Bool-cases (contains t.tags tag)) [
          | inl there ↦ same (ground arith) (ground arith)
          | inr fresh ↦ elim (Option-cases (find (is_ticket tenant t.id) rows)) [
            | inl missing ↦ absurd (ground arith)
            | inr (row, found) ↦
                tagged tag trimmed (ne-of-== _ _ some_text) fresh (ground arith) (ground arith)
          ]
        ]
      ]

  apply_other-Effect :
      (k : ActionType) (t : Ticket) (action : AutomationAction) (db : Db) {t' : Ticket} {db' : Db}
      → apply_other text now tenant k t action.value db ≡ ok (t', db')
      → Effect t action db t' db'
  unfolding apply_other post_note
  apply_other-Effect add_note t action db e =
      noted (system_note tenant t.id action.value) (ground arith) (ground arith)
  apply_other-Effect add_tag t action db e =
      append_tag-Effect t action (text.trim action.value) db refl e
  apply_other-Effect _ t action db e = same (ground arith) (ground arith)

  -- Every committed action has one of the four effects.
  pub apply_action-Effect :
      (t : Ticket) (action : AutomationAction) (db : Db) {t' : Ticket} {db' : Db}
      → apply_action text now tenant t action db ≡ ok (t', db')
      → Effect t action db t' db'
  unfolding apply_action
  apply_action-Effect t action db e = elim (Option-cases (action_field action.type)) [
    | inl other ↦ apply_other-Effect action.type t action db (rw (other, apply_action) at e)
    | inr (column, field) ↦
        set_property-Effect t action column db field (rw (field, apply_action) at e)
  ]

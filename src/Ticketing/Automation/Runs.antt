-- ===== src/Ticketing/Automation/Runs.antt =====
-- Every committed action, and so every run of the rules of a trigger, is a `Run`
-- (automation/apply-action.ts, automation/automation-rules.service.ts).
use mathlib.Core.List.{append-nil}
use claude_cloud_ops_tool.Base.{
  >>=-eq-ok, Bool, List, String, Tx, [], ap, arith, false, find, if◌then◌else◌, ok, pure, refl,
  some, sym, true, update_where, ℕ, ◌++◌, ◌>>=◌, ◌∙◌, ◌∷◌, ◌≡◌, ◌≢◌,
}
use claude_cloud_ops_tool.Ticketing.Db.{
  Db, Ticket, Column, AutomationAction, AutomationRule, Trigger, is_ticket, column_eq,
}
use claude_cloud_ops_tool.Ticketing.Automation.Engine.{
  TextOps, column_value, written, apply_action, apply_actions, run_each, run_rules, active_rules,
  conditions_met,
}
use claude_cloud_ops_tool.Ticketing.Automation.Effects.{
  Effect, same, noted, changed, tagged, activity_of, apply_action-Effect,
}
use claude_cloud_ops_tool.Ticketing.Automation.Audit.{
  IsCurrent, Run, Run-refl, Run-trans, updated_row, others_row, written-id, written-tenant_id,
  column_value-written,
}

module _ (text : TextOps) (now : ℕ) (tenant : String) where
  change-Run :
      (column : Column) (action : AutomationAction) {t t' : Ticket} {db db' : Db}
      → IsCurrent tenant t db
      → column_value t column ≢ some action.value
      → find
          (is_ticket tenant t.id)
          (update_where (is_ticket tenant t.id) (written now action column) db.tickets)
        ≡ some t'
      → db' ≡ record db {
        tickets = update_where (is_ticket tenant t.id) (written now action column) db.tickets;
        activities = db.activities ++ activity_of text now tenant t action column ∷ [];
      }
      → Run tenant t db t' db'
  change-Run column action {t} {t'} {db} {db'} now_row differs found d =
      let row : t' ≡ written now action column t =
        updated_row tenant (written now action column) t db.tickets (written-id now action column)
          (written-tenant_id now action column) now_row found in
      let ids : t'.id ≡ t.id = ap (λ x. x.id) row ∙ written-id now action column t in
      record {
        added = activity_of text now tenant t action column ∷ [];
        appended = ap (λ x. x.activities) d;
        explained = (
          refl,
          differs,
          λ c. column_value-written now action column c t ∙ ap (λ x. column_value x c) (sym row),
        );
        about = (refl, tt);
        current =
            ap (λ k. find (is_ticket tenant k) db'.tickets) ids
            ∙ ap (λ x. find (is_ticket tenant t.id) x.tickets) d
            ∙ found;
        same_id = ids;
        others = λ u j h.
            ap (λ x. find (is_ticket u j) x.tickets) d
            ∙ others_row tenant (written now action column) t.id db.tickets u j
                (written-id now action column) (written-tenant_id now action column) h;
      }

  tag-Run :
      (tag : String) {t t' : Ticket} {db db' : Db}
      → IsCurrent tenant t db
      → find (is_ticket tenant t.id) (
          update_where
            (is_ticket tenant t.id)
            (λ x. record x { tags = x.tags ++ tag ∷ []; updated_at = now })
            db.tickets)
        ≡ some t'
      → db' ≡ record db {
        tickets =
            update_where
              (is_ticket tenant t.id)
              (λ x. record x { tags = x.tags ++ tag ∷ []; updated_at = now })
              db.tickets;
      }
      → Run tenant t db t' db'
  tag-Run tag {t} {t'} {db} {db'} now_row found d =
      let f : Ticket → Ticket = λ x. record x { tags = x.tags ++ tag ∷ []; updated_at = now } in
      let row : t' ≡ f t =
        updated_row tenant f t db.tickets (λ x. refl) (λ x. refl) now_row found in
      let ids : t'.id ≡ t.id = ap (λ x. x.id) row in
      record {
        added = [];
        appended = ap (λ x. x.activities) d ∙ sym (append-nil db.activities);
        explained = λ c. sym (ap (λ x. column_value x c) row ∙ same_values c);
        about = tt;
        current =
            ap (λ k. find (is_ticket tenant k) db'.tickets) ids
            ∙ ap (λ x. find (is_ticket tenant t.id) x.tickets) d
            ∙ found;
        same_id = ids;
        others = λ u j h.
            ap (λ x. find (is_ticket u j) x.tickets) d
            ∙ others_row tenant f t.id db.tickets u j (λ x. refl) (λ x. refl) h;
      }
    where
      same_values :
          (c : Column)
          → column_value (record t { tags = t.tags ++ tag ∷ []; updated_at = now }) c
            ≡ column_value t c
      same_values c = ground arith

  -- A transaction that works on the stored ticket `t` is a run on it whenever it commits.
  abbrev Runs : Ticket → Tx Db Ticket → Type 0
  Runs t m =
      (db : Db)
      → IsCurrent tenant t db
      → (t' : Ticket) (db' : Db) → m db ≡ ok (t', db')
      → Run tenant t db t' db'

  apply_action-Runs :
      (a : AutomationAction) (t : Ticket) → Runs t (apply_action text now tenant t a)
  apply_action-Runs a t db h t' db' e = go (apply_action-Effect text now tenant t a db e)
    where
      go : Effect text now tenant t a db t' db' → Run tenant t db t' db'
      go (same p d) = Run-refl tenant t' db' h p (ap (λ x. x.activities) d) (ap (λ x. x.tickets) d)
      go (noted m p d) =
          Run-refl tenant t' db' h p (ap (λ x. x.activities) d) (ap (λ x. x.tickets) d)
      go (changed column field differs accepted found d) = change-Run column a h differs found d
      go (tagged tag trimmed filled fresh found d) = tag-Run tag h found d

  pure-Runs : (t : Ticket) → Runs t (pure t)
  pure-Runs t db h t' db' e = Run-refl tenant t' db' h (cc) (cc) (cc)

  >>=-Runs :
      (t : Ticket) (m : Tx Db Ticket) (f : Ticket → Tx Db Ticket)
      → Runs t m
      → ((u : Ticket) → Runs u (f u))
      → Runs t (m >>= f)
  >>=-Runs t m f first rest db h t' db' e =
      let (q, e1, e2) = >>=-eq-ok m f db e in
      let r = first db h q.0 q.1 e1 in Run-trans tenant r (rest q.0 q.1 r.current t' db' e2)

  pub apply_actions-Runs :
      (actions : List AutomationAction) (t : Ticket)
      → Runs t (apply_actions text now tenant actions t)
  unfolding apply_actions
  apply_actions-Runs [] t = pure-Runs t
  apply_actions-Runs (a ∷ rest) t =
      >>=-Runs t (apply_action text now tenant t a) (apply_actions text now tenant rest)
        (apply_action-Runs a t) (apply_actions-Runs rest)

  if-Runs :
      (b : Bool) (t : Ticket) (m n : Tx Db Ticket)
      → Runs t m
      → Runs t n
      → Runs t (if b then m else n)
  if-Runs true t m n h k = h
  if-Runs false t m n h k = k

  run_each-Runs :
      (rules : List AutomationRule) (t : Ticket) → Runs t (run_each text now tenant rules t)
  unfolding run_each
  run_each-Runs [] t = pure-Runs t
  run_each-Runs (r ∷ rest) t =
      let met = conditions_met text now tenant r.conditions t in
      let act = apply_actions text now tenant r.actions t in
      >>=-Runs t (if met then act else pure t) (run_each text now tenant rest)
        (if-Runs met t act (pure t) (apply_actions-Runs r.actions t) (pure-Runs t))
        (run_each-Runs rest)

  -- If `t` is the stored row, a committed run of a trigger's rules appends timeline rows about `t`
  -- that explain, one real change after the other, every difference in a tracked column; the ticket
  -- returned is the row then stored; and every other ticket, of this or another tenant, is as it was.
  pub run_rules-Run :
      (trigger : Trigger) (t : Ticket) (db : Db)
      → IsCurrent tenant t db
      → (t' : Ticket) (db' : Db) → run_rules text now tenant trigger t db ≡ ok (t', db')
      → Run tenant t db t' db'
  unfolding run_rules
  run_rules-Run trigger t db = run_each-Runs (active_rules text now tenant trigger db) t db

-- ===== src/Ticketing/Automation/Audit.antt =====
-- What a run of rules leaves behind: the ticket in memory is the stored row, the timeline explains
-- every change of a tracked column, and no other ticket is touched (automation/apply-action.ts,
-- automation/automation-rules.service.ts).
use mathlib.Core.Path.{fun_ext}
use mathlib.Core.List.{append_assoc, append-nil}
use claude_cloud_ops_tool.Base.{
  All, All-append, List, Option, String, [], ap, arith, false, find, find-update_where,
  find-update_where_ne, if◌then◌else◌, nat_eq, option_eq, some, str_iff, string_eq, subst, sym,
  update_where, ℕ, ◌++◌, ◌==◌, ◌∙◌, ◌∷◌, ◌≡◌, ◌≢◌, ◌⊎◌,
}
use claude_cloud_ops_tool.Ticketing.Db.{
  Db, Ticket, Column, Activity, AutomationAction, is_ticket, column_eq,
}
use claude_cloud_ops_tool.Ticketing.Automation.Engine.{column_value, written}

-- The tracked columns of a ticket.
abbrev pub Values : Type 0
Values = Column → Option String

abbrev pub overwrite : Column → Option String → Values → Values
overwrite c x v d = if c == d then x else v d

-- Replaying the timeline rows from `v` gives `w`: each row states the value before, which it really
-- changes, and the value after.
abbrev pub Explains : Values → List Activity → Values → Type 0
Explains v [] w = (c : Column) → v c ≡ w c
Explains v (a ∷ rest) w =
    (v a.field ≡ a.old_value)
    × (a.old_value ≢ a.new_value)
    × Explains (overwrite a.field a.new_value v) rest w

Explains-append :
    (u v w : Values) (xs ys : List Activity)
    → Explains u xs v
    → Explains v ys w
    → Explains u (xs ++ ys) w
Explains-append u v w [] ys h k = subst (λ f. Explains f ys w) (sym (fun_ext h)) k
Explains-append u v w (a ∷ xs) ys h k =
    (h.0, h.1, Explains-append (overwrite a.field a.new_value u) v w xs ys h.2 k)

-- The ticket in memory is the stored row.
abbrev pub IsCurrent : String → Ticket → Db → Type 0
IsCurrent tenant t db = find (is_ticket tenant t.id) db.tickets ≡ some t

-- What a committed run of actions on the ticket `t` has done.
pub record Run (tenant : String) (t : Ticket) (db : Db) (t' : Ticket) (db' : Db) : Type 0 where
  pub added : List Activity
  pub appended : db'.activities ≡ db.activities ++ added
  pub explained : Explains (column_value t) added (column_value t')
  pub about : All (λ a. a.ticket_id ≡ t.id) added
  pub current : IsCurrent tenant t' db'
  pub same_id : t'.id ≡ t.id
  pub others :
      (u j : String)
      → (u ≢ tenant) ⊎ (j ≢ t.id)
      → find (is_ticket u j) db'.tickets ≡ find (is_ticket u j) db.tickets

module _ (tenant : String) where
  pub Run-refl :
      {t : Ticket} {db : Db} (t' : Ticket) (db' : Db)
      → IsCurrent tenant t db
      → t' ≡ t
      → db'.activities ≡ db.activities
      → db'.tickets ≡ db.tickets
      → Run tenant t db t' db'
  Run-refl t' db' now same_ticket acts ts = record {
    added = [];
    appended = acts ∙ sym (append-nil _);
    explained = λ c. ap (λ x. column_value x c) (sym same_ticket);
    about = tt;
    current = rw (same_ticket, ts) now;
    same_id = ap (λ x. x.id) same_ticket;
    others = λ u j h. ap (find (is_ticket u j)) ts;
  }

  pub Run-trans :
      {t u v : Ticket} {db1 db2 db3 : Db}
      → Run tenant t db1 u db2
      → Run tenant u db2 v db3
      → Run tenant t db1 v db3
  Run-trans {t} {u} {v} {db1} r s = record {
    added = r.added ++ s.added;
    appended = rw (s.appended, r.appended) (append_assoc db1.activities r.added s.added);
    explained =
        Explains-append (column_value t) (column_value u) (column_value v) r.added s.added
          r.explained s.explained;
    about =
        All-append (λ a. a.ticket_id ≡ t.id) r.added s.added r.about
          (subst (λ k. All (λ a. a.ticket_id ≡ k) s.added) r.same_id s.about);
    current = s.current;
    same_id = s.same_id ∙ r.same_id;
    others = λ a j h.
        s.others a j (subst (λ k. (a ≢ tenant) ⊎ (j ≢ k)) (sym r.same_id) h) ∙ r.others a j h;
  }

  -- The UPDATE of one row: the row returned, and every other query unaffected.
  pub updated_row :
      (f : Ticket → Ticket) (t : Ticket) (ts : List Ticket) {t' : Ticket}
      → ((x : Ticket) → (f x).id ≡ x.id)
      → ((x : Ticket) → (f x).tenant_id ≡ x.tenant_id)
      → find (is_ticket tenant t.id) ts ≡ some t
      → find (is_ticket tenant t.id) (update_where (is_ticket tenant t.id) f ts) ≡ some t'
      → t' ≡ f t
  updated_row f t ts ids tenants now found =
      let kept =
        find-update_where (is_ticket tenant t.id) f (λ x e. rw (ids x, tenants x) e) ts now in
      cc

  pub others_row :
      (f : Ticket → Ticket) (id : String) (ts : List Ticket) (u j : String)
      → ((x : Ticket) → (f x).id ≡ x.id)
      → ((x : Ticket) → (f x).tenant_id ≡ x.tenant_id)
      → (u ≢ tenant) ⊎ (j ≢ id)
      → find (is_ticket u j) (update_where (is_ticket tenant id) f ts) ≡ find (is_ticket u j) ts
  others_row f id ts u j ids tenants apart =
      find-update_where_ne (is_ticket u j) (is_ticket tenant id) f
        (λ x e.
          let missed : is_ticket u j x ≡ false = ground (
            arith,
            str_iff x.tenant_id tenant,
            str_iff x.tenant_id u,
            str_iff x.id id,
            str_iff x.id j,
          ) in
          (missed, rw (ids x, tenants x) missed))
        ts

pub written-id :
    (now : ℕ) (a : AutomationAction) (c : Column) (t : Ticket) → (written now a c t).id ≡ t.id
unfolding written
written-id now a c t = ground arith

pub written-tenant_id :
    (now : ℕ) (a : AutomationAction) (c : Column) (t : Ticket)
    → (written now a c t).tenant_id ≡ t.tenant_id
unfolding written
written-tenant_id now a c t = ground arith

-- The written column has the new value, and the others keep theirs.
pub column_value-written :
    (now : ℕ) (a : AutomationAction) (c d : Column) (t : Ticket)
    → overwrite c (some a.value) (column_value t) d ≡ column_value (written now a c t) d
unfolding written
column_value-written now a c d t = ground arith

-- ===== src/Monitoring/Lifecycle/Order.antt =====
-- The order of an alert's stages under acknowledging it (apps/api/src/modules/monitoring/
-- alerts.service.ts).
use claude_cloud_ops_tool.Base.{
  All, All-imp, Bool, Bool-cases, IsDistinct, List, Option, Option-cases, String, [], arith,
  contains, find, find-update_where, find_unique, inl, inr, map, nat_eq, ok, option_eq, refl, some,
  string_eq, subst, sym, true, update_where, ℕ, ◌==◌, ◌∷◌, ◌≡◌, ◌≤◌,
}
use claude_cloud_ops_tool.Monitoring.Metrics.{Double}
use claude_cloud_ops_tool.Monitoring.Alerting.{
  AlertStatus, opened, acknowledged, resolved, Alert, Db, alert_status_eq,
}
use claude_cloud_ops_tool.Monitoring.Lifecycle.{has_id, transition, acknowledge, resolve}

abbrev pub stage : AlertStatus → ℕ
stage opened = 0
stage acknowledged = 1
stage resolved = 2

-- The same alerts in the same order, each at the same stage or a later one; further alerts are open.
abbrev pub Advances : List Alert → List Alert → Type 0
Advances [] [] = Unit
Advances [] (b ∷ bs) = (b.status ≡ opened) × Advances [] bs
Advances (a ∷ rest) [] = ⊥
Advances (a ∷ rest) (b ∷ bs) = (a.id ≡ b.id) × (stage a.status ≤ stage b.status) × Advances rest bs

pub Advances-refl : (alerts : List Alert) → Advances alerts alerts
Advances-refl [] = tt
Advances-refl (a ∷ rest) = (refl, omega arith, Advances-refl rest)

pub Advances-update_where :
    (p : Alert → Bool) (f : Alert → Alert) (alerts : List Alert)
    → ((a : Alert) → (f a).id ≡ a.id)
    → All (λ a. p a ≡ true → stage a.status ≤ stage (f a).status) alerts
    → Advances alerts (update_where p f alerts)
Advances-update_where p f [] ids h = tt
Advances-update_where p f (a ∷ rest) ids h = elim (Bool-cases (p a)) [
  | inl t ↦ rw t (sym (ids a), h.0 t, Advances-update_where p f rest ids h.1)
  | inr t ↦ rw t (refl, omega arith, Advances-update_where p f rest ids h.1)
]

module _ (d : Double) where
  transition-Advances :
      (id : String) (mark : Alert → Alert) (allowed : List AlertStatus) (db db' : Db d)
      (a : Option Alert)
      → ((x : Alert) → (mark x).id ≡ x.id)
      → ((x : Alert) → contains allowed x.status ≡ true → stage x.status ≤ stage (mark x).status)
      → IsDistinct (map (λ x. x.id) db.alerts)
      → transition d db id mark allowed db ≡ ok (a, db')
      → Advances db.alerts db'.alerts
  unfolding transition
  transition-Advances id mark allowed db db' a ids later distinct e =
      elim (Option-cases (find (has_id d id) db.alerts)) [
        | inl missing ↦ absurd (ground arith)
        | inr (old, found) ↦
            let permitted : contains allowed old.status ≡ true = ground arith in
            let rows : db'.alerts ≡ update_where (has_id d id) mark db.alerts = ground arith in
            rw rows (
              Advances-update_where (has_id d id) mark db.alerts ids (
                All-imp (λ x. (x.id == id) ≡ true → x ≡ old)
                  (λ x. has_id d id x ≡ true → stage x.status ≤ stage (mark x).status)
                  (λ x only t.
                    later x
                      (subst (λ y. contains allowed y.status ≡ true) (sym (only t)) permitted))
                  db.alerts (find_unique (λ x. x.id) id db.alerts distinct found)))
      ]

  -- Acknowledging an alert in the tables that were read moves no alert back to an earlier stage.
  pub acknowledge-Advances :
      (now : ℕ) (id : String) (db db' : Db d) (a : Option Alert)
      → IsDistinct (map (λ x. x.id) db.alerts)
      → acknowledge d now db id db ≡ ok (a, db')
      → Advances db.alerts db'.alerts
  unfolding acknowledge
  acknowledge-Advances now id db db' a distinct e =
      transition-Advances id _ (opened ∷ []) db db' a (λ x. refl) (λ x h. ground arith) distinct e

  -- If another transaction resolves the alert between the two statements of `acknowledge`, the alert
  -- ends as acknowledged: it is active again.
  pub acknowledge-revives_resolved :
      (now later : ℕ) (id : String) (db db1 : Db d) (a b : Alert)
      → find (has_id d id) db.alerts ≡ some a
      → a.status ≡ opened
      → resolve d now db id db ≡ ok (some b, db1)
      → (c : Alert) × (db2 : Db d) × (acknowledge d later db id db1 ≡ ok (some c, db2))
        × (b.status ≡ resolved)
        × (c.status ≡ acknowledged)
        × (find (has_id d id) db2.alerts ≡ some c)
  unfolding acknowledge resolve
  acknowledge-revives_resolved now later id db db1 a b found was_open e =
      let mark_resolved = λ (x : Alert). record x { status = resolved; resolved_at = some now } in
      let mark = λ (x : Alert). record x { status = acknowledged; acknowledged_at = some later } in
      let first : find (has_id d id) (update_where (has_id d id) mark_resolved db.alerts)
          ≡ some (mark_resolved a) =
        find-update_where (has_id d id) mark_resolved (λ x h. h) db.alerts found in
      let rows : db1.alerts ≡ update_where (has_id d id) mark_resolved db.alerts = ground arith in
      let there : find (has_id d id) db1.alerts ≡ some (mark_resolved a) = rw rows first in
      let last : find (has_id d id) (update_where (has_id d id) mark db1.alerts)
          ≡ some (mark (mark_resolved a)) =
        find-update_where (has_id d id) mark (λ x h. h) db1.alerts there in
      (
        mark (mark_resolved a),
        record db1 { alerts = update_where (has_id d id) mark db1.alerts },
        ground arith,
        ground arith,
        refl,
        last,
      )

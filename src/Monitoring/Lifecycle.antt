-- ===== src/Monitoring/Lifecycle.antt =====
-- `AlertsService` (apps/api/src/modules/monitoring/alerts.service.ts): acknowledging, resolving and
-- linking an alert by hand. Each reads the alert first, from a snapshot, and then updates it by its id.
pub mod Order
use claude_cloud_ops_tool.Base.{
  Bool, List, Option, String, Tx, [], bad_request, contains, find, gets, guard, is_some, modify,
  nat_eq, not, not_found, option_eq, require, some, string_eq, update_where, ℕ, ◌==◌, ◌>>=◌, ◌>>◌,
  ◌∷◌,
}
use claude_cloud_ops_tool.Monitoring.Metrics.{Double}
use claude_cloud_ops_tool.Monitoring.Alerting.{
  AlertStatus, opened, acknowledged, resolved, Alert, Db, alert_status_eq,
}

module _ (d : Double) where
  abbrev pub has_id : String → Alert → Bool
  has_id id a = a.id == id

  unfoldable pub get : String → Tx (Db d) Alert
  get id = do alert ← gets (λ db. find (has_id id) db.alerts); require alert not_found

  -- UPDATE alerts SET … WHERE id = … RETURNING *, whose first row is undefined if there is none.
  abbrev pub update_alert : String → (Alert → Alert) → Tx (Db d) (Option Alert)
  update_alert id f = do
    modify (λ db. record db { alerts = update_where (has_id id) f db.alerts })
    gets (λ db. find (has_id id) db.alerts)

  -- `transition`; `mark` sets the status and the column of its time.
  unfoldable pub transition :
      Db d → String → (Alert → Alert) → List AlertStatus → Tx (Db d) (Option Alert)
  transition snapshot id mark allowed_from = do
    alert ← require (find (has_id id) snapshot.alerts) not_found
    guard (contains allowed_from alert.status) bad_request
    update_alert id mark

  unfoldable pub acknowledge : ℕ → Db d → String → Tx (Db d) (Option Alert)
  unfolding transition
  acknowledge now snapshot id =
      transition snapshot id (λ a. record a { status = acknowledged; acknowledged_at = some now })
        (opened ∷ [])

  unfoldable pub resolve : ℕ → Db d → String → Tx (Db d) (Option Alert)
  unfolding transition
  resolve now snapshot id =
      transition snapshot id (λ a. record a { status = resolved; resolved_at = some now })
        (opened ∷ acknowledged ∷ [])

  -- `linkTicket`, given the ids of the tenant's tickets.
  unfoldable pub link_ticket : List String → Db d → String → String → Tx (Db d) (Option Alert)
  link_ticket tickets snapshot id ticket_id = do
    alert ← require (find (has_id id) snapshot.alerts) not_found
    guard (not (is_some alert.ticket_id)) bad_request
    guard (contains tickets ticket_id) not_found
    update_alert id (λ a. record a { ticket_id = some ticket_id })

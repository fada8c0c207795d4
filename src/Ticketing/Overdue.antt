-- ===== src/Ticketing/Overdue.antt =====
-- The SLA breach sweep (apps/api/src/modules/ticketing/sla/overdue-sweep.service.ts). One reading of
-- the clock serves a pass.
pub mod Marks
pub mod Once
use claude_cloud_ops_tool.Base.{
  Bool, List, Option, String, Tx, [], default_to, false, filter, find, gets, is_some, ltb, modify,
  nat_eq, none, not, option_eq, pure, some, string_eq, true, update_where, ℕ, ◌&&◌, ◌++◌, ◌==◌,
  ◌>>=◌, ◌>>◌, ◌||◌, ◌∷◌,
}
use claude_cloud_ops_tool.Ticketing.Db.{Db, Ticket, Agent, is_ticket}
use claude_cloud_ops_tool.Ticketing.Automation.Engine.{is_closing}

pub data OverdueType : Type 0 where
  first_response resolution : OverdueType

pub record OverdueBreach : Type 0 where
  pub ticket : Ticket
  pub overdue_type : OverdueType
  pub due_at : ℕ

-- due_at IS NOT NULL AND done_at IS NULL AND due_at < now() AND notified_at IS NULL
unfoldable pub is_unnotified : ℕ → Option ℕ → Option ℕ → Option ℕ → Bool
is_unnotified now none _ _ = false
is_unnotified now (some due) done_at notified_at =
    ltb due now && not (is_some done_at) && not (is_some notified_at)

abbrev pub first_response_due : ℕ → Ticket → Bool
first_response_due now t =
    is_unnotified now t.first_response_due_at t.first_response_at
      t.first_response_overdue_notified_at

abbrev pub resolution_due : ℕ → Ticket → Bool
resolution_due now t =
    is_unnotified now t.resolution_due_at t.resolved_at t.resolution_overdue_notified_at

-- The query of `sweepTenant`.
unfoldable pub is_overdue : ℕ → String → Ticket → Bool
is_overdue now tenant t =
    t.tenant_id == tenant
    && not (is_closing t.status)
    && (first_response_due now t || resolution_due now t)

module _ (now : ℕ) (tenant : String) where
  abbrev pub mark_first_response : Ticket → Ticket
  mark_first_response t = record t { first_response_overdue_notified_at = some now }

  abbrev pub mark_resolution : Ticket → Ticket
  mark_resolution t = record t { resolution_overdue_notified_at = some now }

  -- One breach: its UPDATE and its entry in `found`.
  unfoldable pub notice :
      Bool → (Ticket → Ticket) → OverdueType → Option ℕ → Ticket → Tx Db (List OverdueBreach)
  notice false mark kind due t = pure []
  notice true mark kind due t = do
    modify (λ db. record db { tickets = update_where (is_ticket tenant t.id) mark db.tickets })
    pure (record { ticket = t; overdue_type = kind; due_at = default_to 0 due } ∷ [])

  -- The two tests of the loop's body, given their results.
  unfoldable pub notice_both : Bool → Bool → Ticket → Tx Db (List OverdueBreach)
  unfolding notice
  notice_both first_due second_due t = do
    first ← notice first_due mark_first_response first_response t.first_response_due_at t
    second ← notice second_due mark_resolution resolution t.resolution_due_at t
    pure (first ++ second)

  unfoldable pub sweep_ticket : Ticket → Tx Db (List OverdueBreach)
  sweep_ticket t = notice_both (first_response_due now t) (resolution_due now t) t

  unfoldable pub sweep_tickets : List Ticket → List OverdueBreach → Tx Db (List OverdueBreach)
  sweep_tickets [] found = pure found
  sweep_tickets (t ∷ rest) found = do
    breaches ← sweep_ticket t
    sweep_tickets rest (found ++ breaches)

  -- The transaction of `sweepTenant`.
  unfoldable pub sweep_tenant : Tx Db (List OverdueBreach)
  sweep_tenant = do
    tickets ← gets (λ db. filter (is_overdue now tenant) db.tickets)
    sweep_tickets tickets []

-- `dispatchBreach`: the event, and the email of the assigned agent if there is one.
pub data Dispatch : Type 0 where
  publish_overdue : (ticket_id : String) → OverdueType → ℕ → Dispatch
  enqueue_email : (recipient ticket_id : String) → OverdueType → Dispatch

unfoldable pub resolve_agent_email : String → String → Db → Option String
resolve_agent_email tenant agent db =
    elim (find (λ a. a.tenant_id == tenant && a.id == agent) db.agents) [
      | none ↦ none
      | some a ↦ a.email
    ]

unfoldable pub dispatch_breach : String → Db → OverdueBreach → List Dispatch
dispatch_breach tenant db b =
    publish_overdue b.ticket.id b.overdue_type b.due_at ∷ (elim b.ticket.agent_id [
      | none ↦ []
      | some agent ↦ elim (resolve_agent_email tenant agent db) [
        | none ↦ []
        | some recipient ↦ enqueue_email recipient b.ticket.id b.overdue_type ∷ []
      ]
    ])

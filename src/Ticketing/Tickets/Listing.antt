-- ===== src/Ticketing/Tickets/Listing.antt =====
-- Reading tickets: `list`, `get` and `findByTicketNumber` of apps/api/src/modules/ticketing/
-- tickets.service.ts. The dates of a query are given as instants,
-- and an empty tag as none.
use claude_cloud_ops_tool.Base.{
  Bool, List, Option, String, Tx, contains, drop, false, filter, find, gets, is_some, leb, length,
  ltb, nat_eq, none, not, not_found, option_eq, pure, require, some, sort_by, string_eq, take, true,
  ℕ, ◌&&◌, ◌==◌, ◌>>=◌, ◌||◌,
}
use claude_cloud_ops_tool.Ticketing.Db.{Db, Ticket, is_ticket}

-- `ListTicketsQueryDto`
pub record ListQuery : Type 0 where
  pub status : Option String
  pub priority : Option String
  pub platform : Option String
  pub group_id : Option String
  pub agent_id : Option String
  pub unassigned : Bool
  pub tag : Option String
  pub overdue : Bool
  pub created_from : Option ℕ
  pub created_to : Option ℕ
  pub resolved_from : Option ℕ
  pub resolved_to : Option ℕ
  pub limit : ℕ
  pub offset : ℕ

-- A condition that a query may leave out, and one on a column that may be NULL.
abbrev pub if_given {ℓ} : {A : Type ℓ} → Option A → (A → Bool) → Bool
if_given none p = true
if_given (some a) p = p a

abbrev pub if_known {ℓ} : {A : Type ℓ} → Option A → (A → Bool) → Bool
if_known none p = false
if_known (some a) p = p a

-- A due date that has passed with nothing done.
abbrev pub is_missed : ℕ → Option ℕ → Option ℕ → Bool
is_missed now due at = if_known due (λ d. not (is_some at) && ltb d now)

abbrev pub is_overdue : ℕ → Ticket → Bool
is_overdue now t =
    not (t.status == "resolved" || t.status == "closed")
    && (is_missed now t.first_response_due_at t.first_response_at
        || is_missed now t.resolution_due_at t.resolved_at)

-- The WHERE clause.
unfoldable pub is_listed : String → ℕ → ListQuery → Ticket → Bool
is_listed tenant now q t =
    t.tenant_id == tenant
    && if_given q.status (λ v. t.status == v)
    && if_given q.priority (λ v. t.priority == v)
    && if_given q.platform (λ v. t.platform == some v)
    && if_given q.group_id (λ v. t.group_id == some v)
    && if_given q.agent_id (λ v. t.agent_id == some v)
    && (not q.unassigned || not (is_some t.agent_id))
    && if_given q.tag (λ v. contains t.tags v)
    && (not q.overdue || is_overdue now t)
    && if_given q.created_from (λ v. leb v t.created_at)
    && if_given q.created_to (λ v. leb t.created_at v)
    && if_given q.resolved_from (λ v. if_known t.resolved_at (λ at. leb v at))
    && if_given q.resolved_to (λ v. if_known t.resolved_at (λ at. leb at v))

-- ORDER BY ticket_number DESC
abbrev pub later_number : Ticket → Ticket → Bool
later_number a b = leb b.ticket_number a.ticket_number

abbrev pub page : ListQuery → List Ticket → List Ticket
page q rows = take q.limit (drop q.offset (sort_by later_number rows))

-- `list`: the items of the page and the total.
unfoldable pub list : String → ℕ → ListQuery → Tx Db (List Ticket × ℕ)
list tenant now q = do
  rows ← gets (λ db. filter (is_listed tenant now q) db.tickets)
  pure (page q rows, length rows)

unfoldable pub get : String → String → Tx Db Ticket
get tenant id = do
  found ← gets (λ db. find (is_ticket tenant id) db.tickets)
  require found not_found

unfoldable pub find_by_ticket_number : String → ℕ → Tx Db (Option Ticket)
find_by_ticket_number tenant number =
    gets (λ db. find (λ t. t.tenant_id == tenant && t.ticket_number == number) db.tickets)

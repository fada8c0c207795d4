-- ===== src/Ticketing/Assignment.antt =====
-- Auto-assignment of new tickets (apps/api/src/modules/ticketing/assignment/assignment.service.ts).
-- The order of identifiers in SQL and that of `localeCompare` are parameters.
pub mod Fairness
pub mod Load
pub mod Eligible
use claude_cloud_ops_tool.Base.{
  Bool, List, Option, String, Tx, [], any, contains, default_to, filter, find, get_elem?, gets,
  head?, if◌then◌else◌, index_of, length, ltb, map, modify, nat_eq, none, option_eq, pure, some,
  sort_by, string_eq, true, update_where, ℕ, ◌%◌, ◌&&◌, ◌++◌, ◌+◌, ◌==◌, ◌>>=◌, ◌>>◌, ◌||◌, ◌∷◌,
}
use claude_cloud_ops_tool.Ticketing.Db.{Db, Group, Agent, AgentSkill, Cursor, Strategy, Ticket}

abbrev pub open_statuses : List String
open_statuses = "new" ∷ "open" ∷ "pending" ∷ []

-- The rows of the tenant with a given id.
unfoldable pub load_group_config : String → String → Db → Option Group
load_group_config tenant group db = find (λ g. g.tenant_id == tenant && g.id == group) db.groups

abbrev pub is_group_agent : String → String → Agent → Bool
is_group_agent tenant group a = a.tenant_id == tenant && contains a.group_ids group && a.is_active

-- SELECT count(*) … WHERE agent_id = … AND status = ANY (OPEN_STATUSES)
unfoldable pub open_tickets : String → String → Db → ℕ
open_tickets tenant agent db = length (
    filter
      (λ t. t.tenant_id == tenant && t.agent_id == some agent && contains open_statuses t.status)
      db.tickets)

-- The map of counts: 0 for an id that was not asked for.
unfoldable pub open_ticket_counts : String → List String → Db → String → ℕ
open_ticket_counts tenant agent_ids db id =
    if contains agent_ids id then open_tickets tenant id db else 0

abbrev pub under_cap : Option ℕ → ℕ → Bool
under_cap none n = true
under_cap (some cap) n = ltb n cap

abbrev pub is_cursor : String → String → Cursor → Bool
is_cursor tenant group c = c.tenant_id == tenant && c.group_id == group

-- INSERT … ON CONFLICT (tenant_id, group_id) DO UPDATE
unfoldable pub upsert_cursor : String → String → String → Db → Db
upsert_cursor tenant group chosen db = record db {
  cursors =
      if any (is_cursor tenant group) db.cursors
      then update_where (is_cursor tenant group) (λ c. record c { last_agent_id = chosen })
          db.cursors
      else db.cursors
        ++ record { tenant_id = tenant; group_id = group; last_agent_id = chosen } ∷ [];
}

-- `(lastIndex + 1) % agentIds.length`, where `lastIndex` is -1 with no cursor and for an agent that
-- has left.
unfoldable pub next_index : Option Cursor → List String → ℕ
next_index cursor agent_ids =
    let last_index : Option ℕ = elim cursor [
      | none ↦ none
      | some c ↦ index_of c.last_agent_id agent_ids
    ] in
    elim last_index [ none ↦ 0 | some i ↦ (i + 1) % length agent_ids ]

unfoldable pub round_robin : String → String → List String → Tx Db (Option String)
round_robin tenant group [] = pure none
round_robin tenant group (a ∷ rest) = do
  cursor ← gets (λ db. find (is_cursor tenant group) db.cursors)
  let chosen = get_elem? (a ∷ rest) (next_index cursor (a ∷ rest))
  modify (upsert_cursor tenant group (default_to "" chosen))
  pure chosen

module _ (uuid_le locale_le : String → String → Bool) where
  -- ORDER BY id
  unfoldable pub active_group_agents : String → String → Db → List String
  active_group_agents tenant group db =
      sort_by uuid_le (map (λ a. a.id) (filter (is_group_agent tenant group) db.agents))

  unfoldable pub least_loaded : List String → (String → ℕ) → Option ℕ → Option String
  least_loaded agent_ids counts cap = head? (
      sort_by (λ a b. ltb (counts a) (counts b) || (counts a == counts b && locale_le a b))
        (filter (λ id. under_cap cap (counts id)) agent_ids))

  abbrev pub has_skill : String → String → Db → String → Bool
  has_skill tenant skill db id =
      any (λ s. s.tenant_id == tenant && s.skill == skill && s.agent_id == id) db.skills

  -- The branches of `pickAssignee` after its first two early returns.
  unfoldable pub assign_by :
      String → String → Option String → Group → List String → Tx Db (Option String)
  assign_by tenant group skill config agent_ids = elim config.assignment_strategy [
    | Strategy.manual ↦ pure none
    | Strategy.round_robin ↦ round_robin tenant group agent_ids
    | Strategy.load_based ↦ gets (λ db.
        least_loaded agent_ids (open_ticket_counts tenant agent_ids db)
          config.max_open_tickets_per_agent)
    | Strategy.skill_based ↦ elim skill [
      | none ↦ pure none
      | some s ↦ gets (λ db.
          let skilled = filter (has_skill tenant s db) agent_ids in
          least_loaded skilled (open_ticket_counts tenant skilled db)
            config.max_open_tickets_per_agent)
    ]
  ]

  -- `pickAssignee`. An empty text is no skill.
  unfoldable pub pick_assignee : String → String → Option String → Tx Db (Option String)
  pick_assignee tenant group required_skill = do
    config ← gets (load_group_config tenant group)
    agent_ids ← gets (active_group_agents tenant group)
    let skill = if required_skill == some "" then none else required_skill
    elim config [ none ↦ pure none | some c ↦ assign_by tenant group skill c agent_ids ]

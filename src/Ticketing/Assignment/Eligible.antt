-- ===== src/Ticketing/Assignment/Eligible.antt =====
-- Every assignee that `pickAssignee` returns may be assigned the ticket
-- (apps/api/src/modules/ticketing/assignment/assignment.service.ts).
use mathlib.Core.Logic.{inl, inr}
use claude_cloud_ops_tool.Base.{
  ==_refl, All, All-any_self, All-contains, All-filter, All-map, All-imp, Bool, Bool-cases, List,
  Option, Option-cases, String, [], any, ap, arith, filter, find, get_elem?, get_elem?-All, nat_eq,
  ne-of-==, none, ok, option_eq, refl, some, sort_by-All, string_eq, true, ℕ, ◌&&◌, ◌==◌, ◌∷◌, ◌≡◌,
  ◌≢◌,
}
use claude_cloud_ops_tool.Ticketing.Db.{Db, Group, Strategy}
use claude_cloud_ops_tool.Ticketing.Assignment.{
  load_group_config, is_group_agent, open_tickets, open_ticket_counts, under_cap, round_robin,
  next_index, active_group_agents, has_skill, assign_by, pick_assignee, is_cursor,
}
use claude_cloud_ops_tool.Ticketing.Assignment.Load.{IsLeast, least_loaded-IsLeast}

module _ (tenant group : String) where
  -- The tenant has an active agent with this id in the group.
  abbrev pub IsActiveMember : Db → String → Type 0
  IsActiveMember db id = any (λ a. is_group_agent tenant group a && a.id == id) db.agents ≡ true

  abbrev pub IsBelowCap : Db → Group → String → Type 0
  IsBelowCap db config id =
      under_cap config.max_open_tickets_per_agent (open_tickets tenant id db) ≡ true

  -- What an assignee must satisfy, by the strategy of the group.
  abbrev pub MeetsStrategy : Db → Group → Option String → String → Strategy → Type 0
  MeetsStrategy db config skill id Strategy.manual = ⊥
  MeetsStrategy db config skill id Strategy.round_robin = Unit
  MeetsStrategy db config skill id Strategy.load_based = IsBelowCap db config id
  MeetsStrategy db config skill id Strategy.skill_based =
      (s : String) × (skill ≡ some s)
      × (s ≢ "")
      × (any (λ r. r.tenant_id == tenant && r.skill == s && r.agent_id == id) db.skills ≡ true)
      × IsBelowCap db config id

  pub record IsEligible (db : Db) (skill : Option String) (id : String) : Type 0 where
    pub config : Group
    pub configured : load_group_config tenant group db ≡ some config
    pub member : IsActiveMember db id
    pub strategy : MeetsStrategy db config skill id config.assignment_strategy

  module _ (uuid_le locale_le : String → String → Bool) where
    active_group_agents-All :
        (db : Db) → All (IsActiveMember db) (active_group_agents uuid_le locale_le tenant group db)
    unfolding active_group_agents
    active_group_agents-All db =
        let test = is_group_agent tenant group in
        sort_by-All uuid_le (IsActiveMember db) _ (
          All-map (IsActiveMember db) (λ a. a.id) (filter test db.agents)
            (All-imp _ _ (λ a h. h.0 h.1) (filter test db.agents)
              (All-filter (λ a. test a ≡ true → IsActiveMember db a.id) test db.agents
                (All-any_self test (λ x y. test y && y.id == x.id) (λ x h. rw (h, ==_refl x.id))
                  db.agents))))

    counted-IsBelowCap :
        (db : Db) (config : Group) (ids : List String) (id : String)
        → IsLeast ids (open_ticket_counts tenant ids db) config.max_open_tickets_per_agent id
        → IsBelowCap db config id
    unfolding open_ticket_counts
    counted-IsBelowCap db config ids id l = rw l.listed at l.below_cap

    round_robin-All :
        (P : String → Type 0) (ids : List String) (db db' : Db) (id : String)
        → All P ids
        → round_robin tenant group ids db ≡ ok (some id, db')
        → P id
    unfolding round_robin
    round_robin-All P [] db db' id h e = cc
    round_robin-All P (a ∷ rest) db db' id h e =
        let i : ℕ = next_index (find (is_cursor tenant group) db.cursors) (a ∷ rest) in
        let found : get_elem? (a ∷ rest) i ≡ some id = ground arith in
        get_elem?-All P (a ∷ rest) i h found

    assign_by-MeetsStrategy :
        (strategy : Strategy) (skill : Option String) (config : Group) (ids : List String)
        (db db' : Db) (id : String)
        → skill ≢ some ""
        → config.assignment_strategy ≡ strategy
        → All (IsActiveMember db) ids
        → assign_by uuid_le locale_le tenant group skill config ids db ≡ ok (some id, db')
        → IsActiveMember db id × MeetsStrategy db config skill id strategy
    unfolding assign_by
    assign_by-MeetsStrategy Strategy.manual skill config ids db db' id filled same members e =
        absurd (ground arith)
    assign_by-MeetsStrategy Strategy.round_robin skill config ids db db' id filled same members e =
        (round_robin-All (IsActiveMember db) ids db db' id members (rw (same, assign_by) at e), tt)
    assign_by-MeetsStrategy Strategy.load_based skill config ids db db' id filled same members e =
        let picked = rw (same, assign_by) at e in
        let l = least_loaded-IsLeast uuid_le locale_le ids _ _ id (ground arith) in
        (
          All-contains (IsActiveMember db) ids id members l.listed,
          counted-IsBelowCap db config ids id l,
        )
    assign_by-MeetsStrategy Strategy.skill_based none config ids db db' id filled same members e =
        absurd (ground arith)
    assign_by-MeetsStrategy Strategy.skill_based (some s) config ids db db' id filled same members
          e =
        let test = has_skill uuid_le locale_le tenant s db in
        let skilled = filter test ids in
        let l = least_loaded-IsLeast uuid_le locale_le skilled _ _ id (ground arith) in
        let both =
          All-contains (λ b. IsActiveMember db b × (test b ≡ true)) skilled id
            (All-filter (IsActiveMember db) test ids members) l.listed in
        (
          both.0,
          (
            s,
            refl,
            λ empty. filled (ap some empty),
            both.1,
            counted-IsBelowCap db config skilled id l,
          ),
        )

    MeetsStrategy-weaken :
        (strategy : Strategy) (db : Db) (config : Group) (skill : Option String) (id : String)
        → MeetsStrategy db config none id strategy
        → MeetsStrategy db config skill id strategy
    MeetsStrategy-weaken Strategy.manual db config skill id h = h
    MeetsStrategy-weaken Strategy.round_robin db config skill id h = h
    MeetsStrategy-weaken Strategy.load_based db config skill id h = h
    MeetsStrategy-weaken Strategy.skill_based db config skill id h = let n = h.1 in cc

    -- An assignee that `pickAssignee` returns is an active agent of the tenant in the group, the
    -- group's strategy is not manual, and the agent meets it: below the cap on open tickets if the
    -- strategy is by load or by skill, and with the required skill, which is not empty, if it is by
    -- skill.
    pub pick_assignee-IsEligible :
        (skill : Option String) (db db' : Db) (id : String)
        → pick_assignee uuid_le locale_le tenant group skill db ≡ ok (some id, db')
        → IsEligible db skill id
    unfolding pick_assignee
    pick_assignee-IsEligible skill db db' id e =
        let ids = active_group_agents uuid_le locale_le tenant group db in
        let members = active_group_agents-All db in
        elim (Option-cases (load_group_config tenant group db)) [
          | inl missing ↦ absurd (ground arith)
          | inr (config, found) ↦ elim (Bool-cases (skill == some "")) [
            | inl empty ↦
                let m =
                  assign_by-MeetsStrategy config.assignment_strategy none config ids db db' id
                    (λ h. cc) refl members (rw (found, empty) at e) in
                record {
                  config = config;
                  configured = found;
                  member = m.0;
                  strategy = MeetsStrategy-weaken config.assignment_strategy db config skill id m.1;
                }
            | inr filled ↦
                let m =
                  assign_by-MeetsStrategy config.assignment_strategy skill config ids db db' id
                    (ne-of-== skill (some "") filled) refl members (rw (found, filled) at e) in
                record { config = config; configured = found; member = m.0; strategy = m.1 }
          ]
        ]

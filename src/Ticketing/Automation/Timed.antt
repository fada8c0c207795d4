-- ===== src/Ticketing/Automation/Timed.antt =====
-- Which rules are stored, and whether they can ever run (apps/api/src/modules/ticketing/automation/
-- automation-rules.service.ts, time-automation-sweep.service.ts).
use claude_cloud_ops_tool.Base.{
  >>=-eq-ok, All, Bool, Bool-cases, List, Result, String, [], ap, arith, err, false, find,
  find-update_where, inl, inr, none, not, ok, pure, refl, some, subst, sym, true, update_where, ℕ,
  ◌++◌, ◌||◌, ◌∙◌, ◌∷◌, ◌≡◌, ◌≢◌, ◌⊎◌,
}
use claude_cloud_ops_tool.Ticketing.Db.{Db, AutomationAction, AutomationRule, Trigger, trigger_beq}
use claude_cloud_ops_tool.Ticketing.Automation.Engine.{TextOps, is_timed, is_triggered}
use claude_cloud_ops_tool.Ticketing.Automation.Rules.{
  NewRule, RulePatch, has_minutes, target_exists, assert_action_targets, is_rule, row_of, create,
  patched, write_rule, update,
}

-- A patch that gives the trigger only.
abbrev pub retimed : RulePatch
retimed = record {
  name = none;
  trigger = some Trigger.time_based;
  position = none;
  is_active = none;
  time_trigger_minutes = none;
  conditions = none;
  actions = none;
}

assert_action_targets-All :
    (tenant : String) (actions : List AutomationAction) (db : Db) (q : Unit {0} × Db)
    → assert_action_targets tenant actions db ≡ ok q
    → (q.1 ≡ db) × All (λ a. target_exists tenant db a ≡ true) actions
unfolding assert_action_targets
assert_action_targets-All tenant [] db q e = (cc, tt)
assert_action_targets-All tenant (a ∷ rest) db q e = elim (Bool-cases (target_exists tenant db a)) [
  | inl t ↦
      let (same, all_exist) =
        assert_action_targets-All tenant rest db q (rw (t, assert_action_targets) at e) in
      (same, (t, all_exist))
  | inr t ↦ let failed = (rw (t, assert_action_targets) at e) in absurd (ground arith)
]

abbrev has_valid_delay : NewRule → Bool
has_valid_delay dto =
    not (trigger_beq dto.trigger Trigger.time_based) || has_minutes dto.time_trigger_minutes

delay_lem :
    (dto : NewRule)
    → has_valid_delay dto ≡ true
    → (dto.trigger ≢ Trigger.time_based) ⊎ (has_minutes dto.time_trigger_minutes ≡ true)
delay_lem dto h = ground arith

appended_lem :
    (row r : AutomationRule) (q : Unit {0} × Db) (db db' : Db)
    → pure row (record q.1 { rules = q.1.rules ++ row ∷ [] }) ≡ ok (r, db')
    → q.1 ≡ db
    → db'.rules ≡ db.rules ++ r ∷ []
appended_lem row r q db db' e same =
    let rows : db'.rules ≡ q.1.rules ++ row ∷ [] =
      ap (λ (out : Result (AutomationRule × Db)). elim out [ ok p ↦ p.1.rules | err c ↦ [] ])
        (sym e) in
    let stored : row ≡ r = cc in
    rows ∙ ap (λ x. x.rules ++ row ∷ []) same ∙ ap (λ x. db.rules ++ x ∷ []) stored

-- A rule that `create` stores for the timer has a delay of at least a minute, and every group or agent
-- that its actions name is a row of the tenant; it is added after the other rules.
pub create-stored :
    (now : ℕ) (tenant : String) (id : String) (dto : NewRule) (db db' : Db) (r : AutomationRule)
    → create tenant now id dto db ≡ ok (r, db')
    → ((r.trigger ≢ Trigger.time_based) ⊎ (has_minutes r.time_trigger_minutes ≡ true))
      × All (λ a. target_exists tenant db a ≡ true) r.actions
      × (db'.rules ≡ db.rules ++ r ∷ [])
unfolding create
create-stored now tenant id dto db db' r e = elim (Bool-cases (has_valid_delay dto)) [
  | inl t ↦
      let (q, e1, e2) =
        >>=-eq-ok (assert_action_targets tenant dto.actions) _ db (rw (t, create) at e) in
      let (same, all_exist) = assert_action_targets-All tenant dto.actions db q e1 in
      let stored : row_of tenant now id dto ≡ r = cc in
      let rows = appended_lem (row_of tenant now id dto) r q db db' e2 same in
      subst
        (λ x.
          ((x.trigger ≢ Trigger.time_based) ⊎ (has_minutes x.time_trigger_minutes ≡ true))
          × All (λ a. target_exists tenant db a ≡ true) x.actions
          × (db'.rules ≡ db.rules ++ r ∷ []))
        stored (delay_lem dto t, all_exist, rows)
  | inr t ↦ let failed = (rw (t, create) at e) in absurd (ground arith)
]

-- `update` does not repeat that check: giving a stored rule that has no delay the trigger `time_based`
-- commits, and neither the timer nor an event ever runs the rule that is then stored.
pub update-idles :
    (text : TextOps) (now : ℕ) (tenant id : String) (db : Db) (r : AutomationRule)
    → find (is_rule tenant id) db.rules ≡ some r
    → r.time_trigger_minutes ≡ none
    → (r' : AutomationRule) × (db' : Db) × (update tenant now id retimed db ≡ ok (r', db'))
      × (find (is_rule tenant id) db'.rules ≡ some r')
      × (r'.trigger ≡ Trigger.time_based)
      × (is_timed text now tenant r' ≡ false)
      × (is_triggered text now tenant Trigger.ticket_created r' ≡ false)
      × (is_triggered text now tenant Trigger.ticket_updated r' ≡ false)
unfolding update write_rule assert_action_targets is_timed is_triggered
update-idles text now tenant id db r found idle =
    let stored : find (is_rule tenant id)
          (update_where (is_rule tenant id) (patched tenant now retimed) db.rules)
        ≡ some (patched tenant now retimed r) =
      find-update_where (is_rule tenant id) (patched tenant now retimed) (λ x h. h) db.rules
        found in
    (
      patched tenant now retimed r,
      record db { rules = update_where (is_rule tenant id) (patched tenant now retimed) db.rules },
      rw found (rw stored refl),
      stored,
      refl,
      ground (arith, idle),
      ground arith,
      ground arith,
    )

-- ===== src/Ticketing/Tests/Edits.antt =====
-- Merging and linking tickets, changing rules, and one tick of a timer, on the same tables.
use claude_cloud_ops_tool.Base.{
  String, [], db_error, err, false, find, nat_eq, ne-of-==, none, ok, option_eq, refl, some,
  string_eq, ℕ, ◌++◌, ◌∷◌, ◌≡◌,
}
use claude_cloud_ops_tool.Ticketing.Db.{
  Db, AutomationRule, set_status, set_group, is_ticket, column_accepts, Trigger,
}
use claude_cloud_ops_tool.Ticketing.Automation.Engine.{
  is_triggered, is_timed, apply_actions, apply_action, action_field, set_property, change_property,
}
use claude_cloud_ops_tool.Ticketing.Merge.{merge, closed_into}
use claude_cloud_ops_tool.Ticketing.Merge.Cycle.{merge-cycle}
use claude_cloud_ops_tool.Ticketing.Automation.Rules.{
  NewRule, target_exists, assert_action_targets, is_rule, row_of, create, update,
}
use claude_cloud_ops_tool.Ticketing.Automation.Timed.{retimed, update-idles}
use claude_cloud_ops_tool.Ticketing.Links.{Link, LinkType, as_child_of, edge, insert_link, list}
use claude_cloud_ops_tool.Ticketing.Links.{create as create_link}
use claude_cloud_ops_tool.Ticketing.Links.Duality.{here, there, shown, create-Duality}
use claude_cloud_ops_tool.Ticketing.Automation.Engine as Engine
use claude_cloud_ops_tool.Ticketing.Timers.{
  sweep_each, run_sweep_once, time_pass, run_sweep_once-isolates,
}
use claude_cloud_ops_tool.Ticketing.Tests.{plain, disk, again, resolve_full, start}

abbrev digits : ℕ → String
digits n = "7"

merge-cycle_example :
    (db1 : Db) × (db2 : Db) × (merge digits 100 "t" "x1" ("x2" ∷ []) start ≡ ok (disk, db1))
    × (merge digits 100 "t" "x2" ("x1" ∷ []) db1 ≡ ok (closed_into digits 100 "t" "x1" again, db2))
    × (find (is_ticket "t" "x1") db2.tickets ≡ some (closed_into digits 100 "t" "x2" disk))
    × (find (is_ticket "t" "x2") db2.tickets ≡ some (closed_into digits 100 "t" "x1" again))
merge-cycle_example =
    merge-cycle digits 100 "t" disk again start (ne-of-== "x1" "x2" refl) refl refl refl refl

abbrev route_late : NewRule
route_late = record {
  name = "late";
  trigger = Trigger.time_based;
  position = none;
  is_active = none;
  time_trigger_minutes = some 60;
  conditions = [];
  actions = record { type = set_group; value = "g" } ∷ [];
}

creates :
    create "t" 100 "r2" route_late start
    ≡ ok (
      row_of "t" 100 "r2" route_late,
      record start { rules = start.rules ++ row_of "t" 100 "r2" route_late ∷ [] },
    )
unfolding create assert_action_targets target_exists
creates = refl

update-idles_example :
    (r' : AutomationRule) × (db' : Db) × (update "t" 100 "r1" retimed start ≡ ok (r', db'))
    × (find (is_rule "t" "r1") db'.rules ≡ some r')
    × (r'.trigger ≡ Trigger.time_based)
    × (is_timed plain 100 "t" r' ≡ false)
    × (is_triggered plain 100 "t" Trigger.ticket_created r' ≡ false)
    × (is_triggered plain 100 "t" Trigger.ticket_updated r' ≡ false)
update-idles_example = update-idles plain 100 "t" "r1" start resolve_full refl refl

abbrev under : Link
under = record {
  id = "l1";
  tenant_id = "t";
  from_ticket_id = "x2";
  to_ticket_id = "x1";
  link_type = LinkType.parent_of;
}

links_child : create_link "t" start.tickets "l1" "x1" 2 as_child_of [] ≡ ok (under, under ∷ [])
unfolding create_link insert_link edge
links_child = refl

create-Duality_example :
    (list "t" start.tickets "x1" (under ∷ []) ≡ shown "l1" (here as_child_of) again ∷ [])
    × (list "t" start.tickets "x2" (under ∷ []) ≡ shown "l1" (there as_child_of) disk ∷ [])
unfolding list
create-Duality_example =
    create-Duality "t" start.tickets "l1" disk again as_child_of [] (under ∷ []) under refl refl
      refl links_child

-- A rule of the timer whose action the type of the column refuses.
abbrev broken : Db
broken = record start {
  rules =
      record resolve_full {
        trigger = Trigger.time_based;
        time_trigger_minutes = some 0;
        conditions = [];
        actions = record { type = set_status; value = "gone" } ∷ [];
      }
      ∷ [];
}

fails : Engine.sweep_tenant plain 100 "t" broken ≡ err db_error
unfolding Engine.sweep_tenant Engine.sweep_rules Engine.sweep_rule Engine.sweep_candidates
    Engine.is_candidate Engine.is_timed Engine.fire apply_actions apply_action action_field
    set_property change_property column_accepts
fails = refl

run_sweep_once-isolates_example :
    run_sweep_once (time_pass plain 100) false ("t" ∷ "u" ∷ []) broken
    ≡ run_sweep_once (time_pass plain 100) false ("u" ∷ []) broken
unfolding sweep_each
run_sweep_once-isolates_example =
    run_sweep_once-isolates plain 100 [] ("u" ∷ []) "t" broken db_error fails

-- ===== src/Ticketing/Tests/Forms.antt =====
-- The definitions of custom fields on a small table.
use claude_cloud_ops_tool.Base.{[], false, none, ok, refl, some, true, ◌∷◌, ◌≡◌}
use claude_cloud_ops_tool.Ticketing.Values.{FieldDef, FieldType}
use claude_cloud_ops_tool.Ticketing.Fields.Service.{NewField, create}

abbrev severity : FieldDef
severity = record {
  id = "f1";
  tenant_id = "acme";
  key = "severity";
  label = "Severity";
  field_type = FieldType.dropdown;
  options = "low" ∷ "high" ∷ [];
  is_required = true;
  is_active = true;
  position = 0;
  created_at = 0;
}

abbrev asked : NewField
asked = record {
  key = "floor";
  label = "Floor";
  field_type = FieldType.number;
  options = none;
  is_required = none;
  position = some 1;
}

abbrev floor : FieldDef
floor = record {
  id = "f2";
  tenant_id = "acme";
  key = "floor";
  label = "Floor";
  field_type = FieldType.number;
  options = [];
  is_required = false;
  is_active = true;
  position = 1;
  created_at = 5;
}

create_test : create "acme" 5 "f2" asked (severity ∷ []) ≡ ok (floor, severity ∷ floor ∷ [])
unfolding create
create_test = refl

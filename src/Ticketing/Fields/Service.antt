-- ===== src/Ticketing/Fields/Service.antt =====
-- The definitions of custom fields (apps/api/src/modules/ticketing/custom-fields/
-- custom-fields.service.ts), as the table of all tenants.
use claude_cloud_ops_tool.Base.{
  Bool, List, Option, String, Tx, [], any, bad_request, default_to, false, filter, find, gets,
  guard, if◌then◌else◌, is_some, length, modify, nat_eq, not, not_found, option_eq, pure, require,
  string_eq, true, update_where, ℕ, ◌&&◌, ◌++◌, ◌==◌, ◌>>=◌, ◌>>◌, ◌||◌, ◌∷◌,
}
use claude_cloud_ops_tool.Ticketing.Values.{FieldDef, FieldType}

abbrev pub FieldTable : Type 0
FieldTable = List FieldDef

-- `CreateCustomFieldDto`
pub record NewField : Type 0 where
  pub key : String
  pub label : String
  pub field_type : FieldType
  pub options : Option (List String)
  pub is_required : Option Bool
  pub position : Option ℕ

-- `UpdateCustomFieldDto`
pub record FieldPatch : Type 0 where
  pub label : Option String
  pub options : Option (List String)
  pub is_required : Option Bool
  pub is_active : Option Bool
  pub position : Option ℕ

abbrev pub lacks_options : NewField → Bool
lacks_options dto = elim dto.field_type [
  | FieldType.dropdown ↦ length (default_to [] dto.options) == 0
  | _ ↦ false
]

abbrev pub has_patch : FieldPatch → Bool
has_patch dto =
    is_some dto.label
    || is_some dto.options
    || is_some dto.is_required
    || is_some dto.is_active
    || is_some dto.position

-- The SET clause.
abbrev pub patch_field : FieldPatch → FieldDef → FieldDef
patch_field dto d = record d {
  label = default_to d.label dto.label;
  options = default_to d.options dto.options;
  is_required = default_to d.is_required dto.is_required;
  is_active = default_to d.is_active dto.is_active;
  position = default_to d.position dto.position;
}

module _ (tenant : String) where
  abbrev pub has_key : String → FieldDef → Bool
  has_key key d = d.tenant_id == tenant && d.key == key

  abbrev pub is_field : String → FieldDef → Bool
  is_field id d = d.tenant_id == tenant && d.id == id

  -- The row of the INSERT.
  abbrev pub new_field : ℕ → String → NewField → FieldDef
  new_field now id dto = record {
    id = id;
    tenant_id = tenant;
    key = dto.key;
    label = dto.label;
    field_type = dto.field_type;
    options = default_to [] dto.options;
    is_required = default_to false dto.is_required;
    is_active = true;
    position = default_to 0 dto.position;
    created_at = now;
  }

  unfoldable pub create : ℕ → String → NewField → Tx FieldTable FieldDef
  create now id dto = do
    guard (not (lacks_options dto)) bad_request
    taken ← gets (any (has_key dto.key))
    guard (not taken) bad_request
    modify (λ defs. defs ++ new_field now id dto ∷ [])
    pure (new_field now id dto)

  -- UPDATE … RETURNING *, or the row itself where there is nothing to set.
  unfoldable pub update : String → FieldPatch → Tx FieldTable FieldDef
  update id dto = do
    modify
        (λ defs. if has_patch dto then update_where (is_field id) (patch_field dto) defs else defs)
    row ← gets (find (is_field id))
    require row not_found

  unfoldable pub remove : String → Tx FieldTable (Unit {0})
  remove id = do
    found ← gets (any (is_field id))
    guard found not_found
    modify (filter (λ d. not (is_field id d)))

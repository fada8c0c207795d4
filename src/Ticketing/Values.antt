-- ===== src/Ticketing/Values.antt =====
-- Custom fields: their definitions and the JSON values that a ticket keeps for them (apps/api/src/
-- modules/ticketing/custom-fields/custom-field-validate.ts, apps/api/src/database/migrations).
use claude_cloud_ops_tool.Base.{
  ==-of-ne, ==_refl, Bool, Bool-cases, List, Option, String, [], eq-of-==, false, if◌then◌else◌,
  inl, inr, nat_eq, none, option_eq, some, string_eq, sym, ℕ, ◌==◌, ◌∙◌, ◌∷◌, ◌≡◌, ◌≢◌,
}

pub data FieldType : Type 0 where
  text number dropdown checkbox date : FieldType

-- A row of `ticket_custom_field_defs`.
pub record FieldDef : Type 0 where
  pub id : String
  pub tenant_id : String
  pub key : String
  pub label : String
  pub field_type : FieldType
  pub options : List String
  pub is_required : Bool
  pub is_active : Bool
  pub position : ℕ
  pub created_at : ℕ

-- A value of JavaScript that is not `undefined`. A number is the text that `String` makes of it; an
-- array, an object or a function is the text of its source.
pub data Value : Type 0 where
  null : Value
  boolean : Bool → Value
  number : String → Value
  text : String → Value
  structure : String → Value

-- An object as the list of its own properties.
abbrev pub Fields : Type 0
Fields = List (String × Value)

-- A property of an object's own; `none` is `undefined`.
abbrev pub own : String → Fields → Option Value
own key [] = none
own key (f ∷ fs) = if f.0 == key then some f.1 else own key fs

-- `out[key] = value`
abbrev pub set_key : String → Value → Fields → Fields
set_key key value [] = (key, value) ∷ []
set_key key value (f ∷ fs) =
    let rest = set_key key value fs in if f.0 == key then (key, value) ∷ fs else f ∷ rest

pub own-set_key :
    (key : String) (value : Value) (fs : Fields) → own key (set_key key value fs) ≡ some value
own-set_key key value [] = rw (==_refl key)
own-set_key key value (f ∷ fs) = elim (Bool-cases (f.0 == key)) [
  | inl here ↦ rw (here, ==_refl key)
  | inr there ↦ rw (there, there, own-set_key key value fs)
]

pub own-set_key_ne :
    (key other : String) (value : Value) (fs : Fields)
    → key ≢ other
    → own other (set_key key value fs) ≡ own other fs
own-set_key_ne key other value [] differ = rw (==-of-ne key other differ)
own-set_key_ne key other value (f ∷ fs) differ = elim (Bool-cases (f.0 == key)) [
  | inl here ↦
      let apart : (f.0 == other) ≡ false =
        ==-of-ne f.0 other (λ e. differ (sym (eq-of-== f.0 key here) ∙ e)) in
      rw (here, apart, ==-of-ne key other differ)
  | inr there ↦ rw (there, own-set_key_ne key other value fs differ)
]

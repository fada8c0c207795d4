-- ===== src/Ticketing/Fields.antt =====
-- The validation of custom fields (apps/api/src/modules/ticketing/custom-fields/
-- custom-field-validate.ts). Conversions of JavaScript on values are a parameter, as are the
-- properties that an object inherits from `Object.prototype`.
pub mod Stored
pub mod Fault
pub mod Faults
pub mod Typed
pub mod Service
pub mod Keys
use claude_cloud_ops_tool.Base.{
  Bool, List, Option, String, [], contains, default_to, false, filter, if◌then◌else◌, leb, nat_eq,
  none, not, option_eq, some, string_eq, true, ◌&&◌, ◌==◌, ◌||◌, ◌∷◌,
}
use claude_cloud_ops_tool.Ticketing.Values.{
  FieldDef, FieldType, Fields, Value, boolean, null, number, own, set_key, structure,
}
use Prim.Native.Char.{Char, code}
use text.Mathlib.TextBridge.{to_list}

pub record Conversions : Type 0 where
  -- `Number(raw)`, as the text of the number, if it does not throw
  pub to_number : Value → Option String
  -- `String(raw)`, if it does not throw
  pub to_text : Value → Option String
  -- `Object.prototype[key]`
  pub inherited : String → Option Value

-- What is thrown, with the label of the field, or the TypeError of a conversion.
pub data FieldError : Type 0 where
  not_convertible : FieldError
  is_required not_number not_option not_date : String → FieldError

pub data Validation : Type 0 where
  valid : Fields → Validation
  invalid : FieldError → Validation

-- What one definition does to the result: it leaves it, stores a value or throws.
pub data Outcome : Type 0 where
  skip : Outcome
  store : Value → Outcome
  reject : FieldError → Outcome

-- `Number.isFinite`
abbrev pub is_finite : String → Bool
is_finite n = not (contains ("NaN" ∷ "Infinity" ∷ "-Infinity" ∷ []) n)

abbrev pub is_digit : Char → Bool
is_digit c = leb 48 (code c) && leb (code c) 57

-- Whether characters are digits (`true`) and dashes (`false`) of a shape.
abbrev pub has_shape : List Bool → List Char → Bool
has_shape [] [] = true
has_shape [] (c ∷ cs) = false
has_shape (s ∷ shape) [] = false
has_shape (true ∷ shape) (c ∷ cs) = is_digit c && has_shape shape cs
has_shape (false ∷ shape) (c ∷ cs) = code c == 45 && has_shape shape cs

-- `/^\d{4}-\d{2}-\d{2}$/`
abbrev pub is_date : String → Bool
is_date s =
    has_shape (true ∷ true ∷ true ∷ true ∷ false ∷ true ∷ true ∷ false ∷ true ∷ true ∷ [])
      (to_list s)

-- `raw === true || raw === 'true' || raw === 1 || raw === '1'`
abbrev pub is_checked : Value → Bool
is_checked null = false
is_checked (boolean b) = b
is_checked (number n) = n == "1"
is_checked (Value.text s) = s == "true" || s == "1"
is_checked (structure s) = false

-- `raw !== undefined && raw !== null && raw !== ''`
abbrev pub is_provided : Option Value → Bool
is_provided none = false
is_provided (some null) = false
is_provided (some (boolean b)) = true
is_provided (some (number n)) = true
is_provided (some (Value.text s)) = not (s == "")
is_provided (some (structure s)) = true

module _ (js : Conversions) where
  abbrev pub property : Fields → String → Option Value
  property values key = elim (own key values) [ some v ↦ some v | none ↦ js.inherited key ]

  -- `typeof raw === 'number' ? raw : Number(raw)`
  abbrev pub number_of : Value → Option String
  number_of null = js.to_number null
  number_of (boolean b) = js.to_number (boolean b)
  number_of (number n) = some n
  number_of (Value.text s) = js.to_number (Value.text s)
  number_of (structure s) = js.to_number (structure s)

  -- The value of a conversion, if it passes a test.
  abbrev pub store_if : (String → Bool) → (String → Value) → FieldError → Option String → Outcome
  store_if p v e none = reject not_convertible
  store_if p v e (some s) = if p s then store (v s) else reject e

  -- The switch on the type of the field.
  abbrev pub coerce : FieldType → FieldDef → Value → Outcome
  coerce FieldType.number d raw = store_if is_finite number (not_number d.label) (number_of raw)
  coerce FieldType.checkbox d raw = store (boolean (is_checked raw))
  coerce FieldType.dropdown d raw =
      store_if (contains d.options) Value.text (not_option d.label) (js.to_text raw)
  coerce FieldType.date d raw = store_if is_date Value.text (not_date d.label) (js.to_text raw)
  coerce FieldType.text d raw = elim (js.to_text raw) [
    | none ↦ reject not_convertible
    | some s ↦ store (Value.text s)
  ]

  -- One round of the loop.
  unfoldable pub check_field : FieldDef → Option Value → Outcome
  check_field d raw =
      if is_provided raw
      then coerce d.field_type d (default_to null raw)
      else (if d.is_required then reject (is_required d.label) else skip)

  unfoldable pub check_fields : List FieldDef → Fields → Fields → Validation
  check_fields [] values out = valid out
  check_fields (d ∷ defs) values out = elim (check_field d (property values d.key)) [
    | skip ↦ check_fields defs values out
    | store v ↦ check_fields defs values (set_key d.key v out)
    | reject e ↦ invalid e
  ]

  unfoldable pub validate_custom_fields : List FieldDef → Option Fields → Validation
  validate_custom_fields defs submitted =
      check_fields (filter (λ d. d.is_active) defs) (default_to [] submitted) []

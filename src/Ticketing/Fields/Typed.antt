-- ===== src/Ticketing/Fields/Typed.antt =====
-- Every value that a validation stores has the type of a field (apps/api/src/modules/ticketing/
-- custom-fields/custom-field-validate.ts).
use claude_cloud_ops_tool.Base.{
  ==_refl, All, All-filter, All-imp, Bool, Bool-cases, List, Option, Option-cases, String, [], any,
  arith, contains, default_to, false, if◌then◌else◌, inl, inr, nat_eq, none, option_eq, refl, some,
  string_eq, subst, true, ◌&&◌, ◌==◌, ◌∷◌, ◌≡◌,
}
use claude_cloud_ops_tool.Ticketing.Values.{
  FieldDef, FieldType, Fields, Value, boolean, null, number, set_key,
}
use claude_cloud_ops_tool.Ticketing.Fields.{
  Conversions, FieldError, store_if, is_checked, not_date, not_number, not_option, number_of,
  check_field, check_fields, coerce, is_date, is_finite, is_provided, reject, skip, store, valid,
  validate_custom_fields,
}
use claude_cloud_ops_tool.Ticketing.Fields.Stored.{active, check_fields-inv}

abbrev pub has_type : FieldType → List String → Value → Bool
has_type FieldType.number options (number n) = is_finite n
has_type FieldType.checkbox options (boolean b) = true
has_type FieldType.dropdown options (Value.text s) = contains options s
has_type FieldType.date options (Value.text s) = is_date s
has_type FieldType.text options (Value.text s) = true
has_type _ options _ = false

-- Whether an active definition of a list has the key of a property and the type of its value.
abbrev pub is_typed : List FieldDef → String → Value → Bool
is_typed defs key v =
    any (λ d. d.is_active && (d.key == key && has_type d.field_type d.options v)) defs

All-set_key :
    (P : String × Value → Type 0) (key : String) (v : Value) (fs : Fields)
    → P (key, v)
    → All P fs
    → All P (set_key key v fs)
All-set_key P key v [] p h = (p, tt)
All-set_key P key v (f ∷ fs) p h = elim (Bool-cases (f.0 == key)) [
  | inl here ↦ rw here (p, h.1)
  | inr there ↦ rw there (h.0, All-set_key P key v fs p h.1)
]

Accepted : List FieldDef → FieldDef → Type 0
Accepted defs d =
    d.is_active ≡ true
    → (v : Value) → has_type d.field_type d.options v ≡ true
    → is_typed defs d.key v ≡ true

Accepted-self : (defs : List FieldDef) → All (Accepted defs) defs
unfolding Accepted
Accepted-self [] = tt
Accepted-self (d ∷ defs) = (
  λ on v typed. rw (on, ==_refl d.key, typed),
  All-imp (Accepted defs) (Accepted (d ∷ defs)) (λ c h on v typed. rw (h on v typed) (ground arith))
      defs (Accepted-self defs),
)

-- A conversion that is stored has passed its test.
store_if-has_type :
    (js : Conversions) (t : FieldType) (options : List String) (p : String → Bool)
    (value : String → Value) (e : FieldError) (o : Option String) (v : Value)
    → ((s : String) → p s ≡ true → has_type t options (value s) ≡ true)
    → store_if js p value e o ≡ store v
    → has_type t options v ≡ true
store_if-has_type js t options p value e none v typed h = cc
store_if-has_type js t options p value e (some s) v typed h = elim (Bool-cases (p s)) [
  | inl passed ↦
      let stored : store (value s) ≡ store v = rw passed at h in
      let same : value s ≡ v = cc in subst (λ x. has_type t options x ≡ true) same (typed s passed)
  | inr failed ↦ let refused : reject e ≡ store v = rw failed at h in cc
]

module _ (js : Conversions) where
  coerce-has_type :
      (t : FieldType) (d : FieldDef) (raw v : Value)
      → coerce js t d raw ≡ store v
      → has_type t d.options v ≡ true
  coerce-has_type FieldType.number d raw v e =
      store_if-has_type js FieldType.number d.options is_finite number (not_number d.label)
        (number_of js raw) v (λ s h. h) e
  coerce-has_type FieldType.checkbox d raw v e =
      let same : boolean (is_checked raw) ≡ v = cc in
      subst (λ x. has_type FieldType.checkbox d.options x ≡ true) same refl
  coerce-has_type FieldType.dropdown d raw v e =
      store_if-has_type js FieldType.dropdown d.options (contains d.options) Value.text
        (not_option d.label) (js.to_text raw) v (λ s h. h) e
  coerce-has_type FieldType.date d raw v e =
      store_if-has_type js FieldType.date d.options is_date Value.text (not_date d.label)
        (js.to_text raw) v (λ s h. h) e
  coerce-has_type FieldType.text d raw v e = elim (Option-cases (js.to_text raw)) [
    | inl thrown ↦ let refused = rw (thrown, coerce) at e in cc
    | inr (s, given) ↦
        let stored : store (Value.text s) ≡ store v = rw (given, coerce) at e in
        let same : Value.text s ≡ v = cc in
        subst (λ x. has_type FieldType.text d.options x ≡ true) same refl
  ]

  check_field-has_type :
      (d : FieldDef) (raw : Option Value) (v : Value)
      → check_field js d raw ≡ store v
      → has_type d.field_type d.options v ≡ true
  unfolding check_field
  check_field-has_type d raw v e = elim (Bool-cases (is_provided raw)) [
    | inl given ↦
        coerce-has_type d.field_type d (default_to null raw) v (rw (given, check_field) at e)
    | inr omitted ↦
        let none_stored : (if d.is_required then reject (FieldError.is_required d.label) else skip)
            ≡ store v =
          rw (omitted, check_field) at e in
        ground arith
  ]

  check_fields-typed :
      (all_defs defs : List FieldDef) (values out out' : Fields)
      → All (λ d. Accepted all_defs d × (d.is_active ≡ true)) defs
      → All (λ f. is_typed all_defs f.0 f.1 ≡ true) out
      → check_fields js defs values out ≡ valid out'
      → All (λ f. is_typed all_defs f.0 f.1 ≡ true) out'
  unfolding check_fields Accepted
  check_fields-typed all_defs [] values out out' accepted typed e =
      let same : out ≡ out' = ground arith in
      subst (λ fs. All (λ f. is_typed all_defs f.0 f.1 ≡ true) fs) same typed
  check_fields-typed all_defs (d ∷ defs) values out out' accepted typed e =
      elim (check_fields-inv js d defs values out out' e) [
        | inl (o, rest) ↦ check_fields-typed all_defs defs values out out' accepted.1 typed rest
        | inr (v, o, rest) ↦
            check_fields-typed all_defs defs values (set_key d.key v out) out' accepted.1
              (All-set_key (λ f. is_typed all_defs f.0 f.1 ≡ true) d.key v out
                (accepted.0.0 accepted.0.1 v (check_field-has_type d _ v o)) typed)
              rest
      ]

  -- Every property of the result of a validation has the key of an active definition and a value of
  -- its type: a finite number, a Boolean, one of its options, a date or a text.
  pub validate_custom_fields-typed :
      (defs : List FieldDef) (submitted : Option Fields) (out : Fields)
      → validate_custom_fields js defs submitted ≡ valid out
      → All (λ f. is_typed defs f.0 f.1 ≡ true) out
  unfolding validate_custom_fields
  validate_custom_fields-typed defs submitted out e =
      check_fields-typed defs (active defs) (default_to [] submitted) [] out
        (All-filter (Accepted defs) (λ d. d.is_active) defs (Accepted-self defs)) tt e

-- ===== src/Ticketing/Fields/Fault.antt =====
-- What is wrong with a value that is submitted for a field (apps/api/src/modules/ticketing/custom-fields/
-- custom-field-validate.ts).
use claude_cloud_ops_tool.Base.{
  Bool, Bool-cases, Option, Option-cases, String, contains, false, inl, inr, nat_eq, none,
  option_eq, refl, some, string_eq, subst, sym, true, ◌≡◌, ◌⊎◌,
}
use claude_cloud_ops_tool.Ticketing.Values.{FieldDef, FieldType, Value, number}
use claude_cloud_ops_tool.Ticketing.Fields.{
  Conversions, FieldError, not_convertible, not_date, not_number, not_option, number_of,
  check_field, coerce, is_date, is_finite, is_provided, reject, store_if,
}

-- The types whose values are stored as texts.
abbrev pub is_textual : FieldType → Bool
is_textual FieldType.number = false
is_textual FieldType.checkbox = false
is_textual _ = true

-- What is wrong with the value submitted for a field.
pub data Fault (js : Conversions) (d : FieldDef) : Option Value → FieldError → Type 0 where
  missing :
      (raw : Option Value)
      → is_provided raw ≡ false
      → d.is_required ≡ true
      → Fault js d raw (FieldError.is_required d.label)
  no_conversion :
      (v : Value)
      → is_provided (some v) ≡ true
      → ((d.field_type ≡ FieldType.number) × (number_of js v ≡ none))
        ⊎ ((is_textual d.field_type ≡ true) × (js.to_text v ≡ none))
      → Fault js d (some v) not_convertible
  no_number :
      (v : Value) (n : String)
      → is_provided (some v) ≡ true
      → d.field_type ≡ FieldType.number
      → number_of js v ≡ some n
      → is_finite n ≡ false
      → Fault js d (some v) (not_number d.label)
  no_option :
      (v : Value) (s : String)
      → is_provided (some v) ≡ true
      → d.field_type ≡ FieldType.dropdown
      → js.to_text v ≡ some s
      → contains d.options s ≡ false
      → Fault js d (some v) (not_option d.label)
  no_date :
      (v : Value) (s : String)
      → is_provided (some v) ≡ true
      → d.field_type ≡ FieldType.date
      → js.to_text v ≡ some s
      → is_date s ≡ false
      → Fault js d (some v) (not_date d.label)

module _ (js : Conversions) where
  store_if-reject :
      (p : String → Bool) (value : String → Value) (e c : FieldError) (o : Option String)
      → store_if js p value e o ≡ reject c
      → ((o ≡ none) × (c ≡ not_convertible))
        ⊎ ((s : String) × (o ≡ some s) × (p s ≡ false) × (c ≡ e))
  store_if-reject p value e c none h = inl (refl, cc)
  store_if-reject p value e c (some s) h = elim (Bool-cases (p s)) [
    | inl passed ↦ let stored = rw (passed, store_if) at h in cc
    | inr failed ↦
        let refused : reject e ≡ reject c = rw (failed, store_if) at h in inr (s, refl, failed, cc)
  ]

  coerce-Fault :
      (t : FieldType) (d : FieldDef) (v : Value) (e : FieldError)
      → d.field_type ≡ t
      → is_provided (some v) ≡ true
      → coerce js t d v ≡ reject e
      → Fault js d (some v) e
  coerce-Fault FieldType.number d v e type given h =
      elim (store_if-reject is_finite number (not_number d.label) e (number_of js v) h) [
        | inl (thrown, c) ↦
            subst (Fault js d (some v)) (sym c) (no_conversion v given (inl (type, thrown)))
        | inr (n, converted, failed, c) ↦
            subst (Fault js d (some v)) (sym c) (no_number v n given type converted failed)
      ]
  coerce-Fault FieldType.checkbox d v e type given h = cc
  coerce-Fault FieldType.dropdown d v e type given h =
      elim (store_if-reject (contains d.options) Value.text (not_option d.label) e (js.to_text v)
        h) [
          | inl (thrown, c) ↦
              subst (Fault js d (some v)) (sym c)
                (no_conversion v given (inr (rw type refl, thrown)))
          | inr (s, converted, failed, c) ↦
              subst (Fault js d (some v)) (sym c) (no_option v s given type converted failed)
        ]
  coerce-Fault FieldType.date d v e type given h =
      elim (store_if-reject is_date Value.text (not_date d.label) e (js.to_text v) h) [
        | inl (thrown, c) ↦
            subst (Fault js d (some v)) (sym c) (no_conversion v given (inr (rw type refl, thrown)))
        | inr (s, converted, failed, c) ↦
            subst (Fault js d (some v)) (sym c) (no_date v s given type converted failed)
      ]
  coerce-Fault FieldType.text d v e type given h = elim (Option-cases (js.to_text v)) [
    | inl thrown ↦
        let refused : reject not_convertible ≡ reject e = rw (thrown, coerce) at h in
        let same : not_convertible ≡ e = cc in
        subst (Fault js d (some v)) same (no_conversion v given (inr (rw type refl, thrown)))
    | inr (s, converted) ↦ let stored = rw (converted, coerce) at h in cc
  ]

  pub check_field-Fault :
      (d : FieldDef) (raw : Option Value) (e : FieldError)
      → check_field js d raw ≡ reject e
      → Fault js d raw e
  unfolding check_field
  check_field-Fault d none e h = elim (Bool-cases d.is_required) [
    | inl required ↦
        let refused : reject (FieldError.is_required d.label) ≡ reject e =
          rw (required, check_field) at h in
        let same : FieldError.is_required d.label ≡ e = cc in
        subst (Fault js d none) same (missing none refl required)
    | inr optional ↦ let skipped = rw (optional, check_field) at h in cc
  ]
  check_field-Fault d (some v) e h = elim (Bool-cases (is_provided (some v))) [
    | inl given ↦ coerce-Fault d.field_type d v e refl given (rw (given, check_field) at h)
    | inr omitted ↦ elim (Bool-cases d.is_required) [
      | inl required ↦
          let refused : reject (FieldError.is_required d.label) ≡ reject e =
            rw (omitted, required, check_field) at h in
          let same : FieldError.is_required d.label ≡ e = cc in
          subst (Fault js d (some v)) same (missing (some v) omitted required)
      | inr optional ↦ let skipped = rw (omitted, optional, check_field) at h in cc
    ]
  ]

  coerce-not_convertible :
      (t : FieldType) (d : FieldDef) (v : Value)
      → is_textual t ≡ true
      → js.to_text v ≡ none
      → coerce js t d v ≡ reject not_convertible
  coerce-not_convertible FieldType.number d v t e = cc
  coerce-not_convertible FieldType.checkbox d v t e = cc
  coerce-not_convertible FieldType.dropdown d v t e = rw e refl
  coerce-not_convertible FieldType.date d v t e = rw e refl
  coerce-not_convertible FieldType.text d v t e = rw (e, coerce) refl

  pub Fault-check_field :
      (d : FieldDef) (raw : Option Value) (e : FieldError)
      → Fault js d raw e
      → check_field js d raw ≡ reject e
  unfolding check_field
  Fault-check_field d raw _ (missing _ omitted required) = rw (omitted, required, check_field) refl
  Fault-check_field d raw _ (no_conversion v given (inl (type, thrown))) =
      rw (given, type, thrown, check_field, coerce) refl
  Fault-check_field d raw _ (no_conversion v given (inr (textual, thrown))) =
      rw (given, check_field) (coerce-not_convertible d.field_type d v textual thrown)
  Fault-check_field d raw _ (no_number v n given type converted failed) =
      rw (given, type, check_field, converted, failed) refl
  Fault-check_field d raw _ (no_option v s given type converted failed) =
      rw (given, type, check_field, converted, failed) refl
  Fault-check_field d raw _ (no_date v s given type converted failed) =
      rw (given, type, check_field, converted, failed) refl

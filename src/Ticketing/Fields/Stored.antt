-- ===== src/Ticketing/Fields/Stored.antt =====
-- What a validation that ends well stores (apps/api/src/modules/ticketing/custom-fields/
-- custom-field-validate.ts).
use claude_cloud_ops_tool.Base.{
  All, All-both, All-imp, All-of_every, All-of_map, Bool, Bool-cases, IsDistinct, List, Option,
  Option-cases, String, [], arith, contains, default_to, false, filter, if◌then◌else◌, inl, inr,
  is_some, map, nat_eq, none, not, option_eq, refl, some, string_eq, sym, true, ◌||◌, ◌∙◌, ◌∷◌, ◌≡◌,
  ◌≢◌, ◌⊎◌,
}
use claude_cloud_ops_tool.Ticketing.Values.{
  number, FieldDef, FieldType, Fields, Value, own, own-set_key, own-set_key_ne, set_key,
}
use claude_cloud_ops_tool.Ticketing.Fields.{
  Conversions, FieldError, store_if, number_of, is_finite, is_date, Outcome, check_field,
  check_fields, coerce, invalid, property, reject, skip, store, valid, validate_custom_fields,
  is_provided, null,
}

abbrev pub active : List FieldDef → List FieldDef
active defs = filter (λ d. d.is_active) defs

module _ (js : Conversions) where
  -- What a field adds to the result.
  abbrev pub stored : FieldDef → Option Value → Option Value
  stored d raw = elim (check_field js d raw) [ skip ↦ none | store v ↦ some v | reject e ↦ none ]

  pub Outcome-cases :
      (o : Outcome)
      → (o ≡ skip) ⊎ ((v : Value) × (o ≡ store v)) ⊎ ((e : FieldError) × (o ≡ reject e))
  Outcome-cases skip = inl refl
  Outcome-cases (store v) = inr (inl (v, refl))
  Outcome-cases (reject e) = inr (inr (e, refl))

  -- One round of a validation that ends well.
  pub check_fields-inv :
      (d : FieldDef) (defs : List FieldDef) (values out out' : Fields)
      → check_fields js (d ∷ defs) values out ≡ valid out'
      → ((check_field js d (property js values d.key) ≡ skip)
          × (check_fields js defs values out ≡ valid out'))
        ⊎ ((v : Value) × (check_field js d (property js values d.key) ≡ store v)
            × (check_fields js defs values (set_key d.key v out) ≡ valid out'))
  unfolding check_fields
  check_fields-inv d defs values out out' e =
      elim (Outcome-cases (check_field js d (property js values d.key))) [
        | inl o ↦ inl (o, rw (o, check_fields) at e)
        | inr (inl (v, o)) ↦ inr (v, o, rw (o, check_fields) at e)
        | inr (inr (c, o)) ↦ let thrown : invalid c ≡ valid out' = rw (o, check_fields) at e in cc
      ]

  check_fields-other :
      (defs : List FieldDef) (values out out' : Fields) (key : String)
      → All (λ d. d.key ≢ key) defs
      → check_fields js defs values out ≡ valid out'
      → own key out' ≡ own key out
  unfolding check_fields
  check_fields-other [] values out out' key apart e =
      let same : out ≡ out' = ground arith in rw same
  check_fields-other (d ∷ defs) values out out' key apart e =
      elim (check_fields-inv d defs values out out' e) [
        | inl (o, rest) ↦ check_fields-other defs values out out' key apart.1 rest
        | inr (v, o, rest) ↦
            check_fields-other defs values (set_key d.key v out) out' key apart.1 rest
            ∙ own-set_key_ne d.key key v out apart.0
      ]

  store_if-ne :
      (p : String → Bool) (value : String → Value) (e : FieldError) (o : Option String)
      → store_if js p value e o ≢ skip
  store_if-ne p value e none h = cc
  store_if-ne p value e (some s) h = ground arith

  coerce-ne : (t : FieldType) (d : FieldDef) (raw : Value) → coerce js t d raw ≢ skip
  coerce-ne FieldType.number d raw e =
      store_if-ne is_finite number (FieldError.not_number d.label) (number_of js raw) e
  coerce-ne FieldType.checkbox d raw e = cc
  coerce-ne FieldType.dropdown d raw e =
      store_if-ne (contains d.options) Value.text (FieldError.not_option d.label) (js.to_text raw) e
  coerce-ne FieldType.date d raw e =
      store_if-ne is_date Value.text (FieldError.not_date d.label) (js.to_text raw) e
  coerce-ne FieldType.text d raw e = elim (Option-cases (js.to_text raw)) [
    | inl thrown ↦ let refused = rw (thrown, coerce) at e in cc
    | inr (s, given) ↦ let stored = rw (given, coerce) at e in cc
  ]

  -- A field that does not throw stores a value if it is required.
  check_field-required :
      (d : FieldDef) (raw : Option Value) → check_field js d raw ≡ skip → d.is_required ≡ false
  unfolding check_field
  check_field-required d raw e = elim (Bool-cases (is_provided raw)) [
    | inl given ↦
        let coerced : coerce js d.field_type d (default_to null raw) ≡ skip =
          rw (given, coerce) at e in
        absurd (coerce-ne d.field_type d (default_to null raw) coerced)
    | inr omitted ↦
        let dropped : (if d.is_required then reject (FieldError.is_required d.label) else skip)
            ≡ skip =
          rw omitted at e in
        ground arith
  ]

  abbrev pub IsStored : Fields → Fields → FieldDef → Type 0
  IsStored values out d =
      (own d.key out ≡ stored d (property js values d.key))
      × ((not d.is_required || is_some (own d.key out)) ≡ true)

  check_fields-stores :
      (defs : List FieldDef) (values out out' : Fields)
      → IsDistinct (map (λ d. d.key) defs)
      → All (λ d. own d.key out ≡ none) defs
      → check_fields js defs values out ≡ valid out'
      → All (IsStored values out') defs
  unfolding check_fields
  check_fields-stores [] values out out' distinct fresh e = tt
  check_fields-stores (d ∷ defs) values out out' distinct fresh e =
      let apart : All (λ c. d.key ≢ c.key) defs =
        All-of_map (λ k. d.key ≢ k) (λ c. c.key) defs distinct.0 in
      let after : All (λ c. c.key ≢ d.key) defs =
        All-imp (λ c. d.key ≢ c.key) (λ c. c.key ≢ d.key) (λ c h k. h (sym k)) defs apart in
      elim (check_fields-inv d defs values out out' e) [
        | inl (o, rest) ↦
            let here : own d.key out' ≡ none =
              check_fields-other defs values out out' d.key after rest ∙ fresh.0 in
            (
              (rw (o, stored) here, rw (check_field-required d _ o)),
              check_fields-stores defs values out out' distinct.1 fresh.1 rest,
            )
        | inr (v, o, rest) ↦
            let here : own d.key out' ≡ some v =
              check_fields-other defs values (set_key d.key v out) out' d.key after rest
              ∙ own-set_key d.key v out in
            let still : All (λ c. own c.key (set_key d.key v out) ≡ none) defs =
              All-imp (λ c. (d.key ≢ c.key) × (own c.key out ≡ none))
                (λ c. own c.key (set_key d.key v out) ≡ none)
                (λ c h. own-set_key_ne d.key c.key v out h.0 ∙ h.1) defs
                (All-both (λ c. d.key ≢ c.key) (λ c. own c.key out ≡ none) defs apart fresh.1) in
            (
              (rw (o, stored) here, rw here (ground arith)),
              check_fields-stores defs values (set_key d.key v out) out' distinct.1 still rest,
            )
      ]

  -- If no two active definitions have a key in common, then in the result of a validation each of
  -- them has what its field stores of the submitted value, which is something if it is required.
  pub validate_custom_fields-stores :
      (defs : List FieldDef) (submitted : Option Fields) (out : Fields)
      → IsDistinct (map (λ d. d.key) (active defs))
      → validate_custom_fields js defs submitted ≡ valid out
      → All (IsStored (default_to [] submitted) out) (active defs)
  unfolding validate_custom_fields
  validate_custom_fields-stores defs submitted out distinct e =
      check_fields-stores (active defs) (default_to [] submitted) [] out distinct
        (All-of_every (λ d. own d.key [] ≡ none) (λ d. refl) (active defs)) e

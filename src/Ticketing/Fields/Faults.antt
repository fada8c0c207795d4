-- ===== src/Ticketing/Fields/Faults.antt =====
-- Which error a validation throws (apps/api/src/modules/ticketing/custom-fields/
-- custom-field-validate.ts).
use claude_cloud_ops_tool.Base.{
  All, List, Option, [], ap, default_to, inl, inr, refl, subst, ◌++◌, ◌↔◌, ◌∙◌, ◌∷◌, ◌≡◌,
}
use claude_cloud_ops_tool.Ticketing.Values.{FieldDef, Fields, set_key}
use claude_cloud_ops_tool.Ticketing.Fields.{
  Conversions, FieldError, check_field, check_fields, invalid, property, validate_custom_fields,
}
use claude_cloud_ops_tool.Ticketing.Fields.Stored.{active, Outcome-cases}
use claude_cloud_ops_tool.Ticketing.Fields.Fault.{Fault, check_field-Fault, Fault-check_field}

module _ (js : Conversions) where
  -- The first definition of a list whose field has a fault, and the fault.
  abbrev pub FirstFault : List FieldDef → Fields → FieldError → Type 0
  FirstFault defs values e =
      (before : List FieldDef) × (d : FieldDef) × (after : List FieldDef) × (defs
        ≡ before ++ d ∷ after)
      × All (λ c. (k : FieldError) → ¬ Fault js c (property js values c.key) k) before
      × Fault js d (property js values d.key) e

  check_fields-passes :
      (d : FieldDef) (defs : List FieldDef) (values out : Fields) (e : FieldError)
      → ((k : FieldError) → ¬ Fault js d (property js values d.key) k)
      → ((out' : Fields) → check_fields js defs values out' ≡ invalid e)
      → check_fields js (d ∷ defs) values out ≡ invalid e
  unfolding check_fields
  check_fields-passes d defs values out e sound rest =
      elim (Outcome-cases js (check_field js d (property js values d.key))) [
        | inl o ↦ rw (o, check_fields) (rest out)
        | inr (inl (v, o)) ↦ rw (o, check_fields) (rest (set_key d.key v out))
        | inr (inr (c, o)) ↦
            absurd (sound c (check_field-Fault js d (property js values d.key) c o))
      ]

  FirstFault-check_fields :
      (before : List FieldDef) (d : FieldDef) (after : List FieldDef) (values : Fields)
      (e : FieldError)
      → All (λ c. (k : FieldError) → ¬ Fault js c (property js values c.key) k) before
      → Fault js d (property js values d.key) e
      → (out : Fields) → check_fields js (before ++ d ∷ after) values out ≡ invalid e
  unfolding check_fields
  FirstFault-check_fields [] d after values e sound fault out =
      rw (Fault-check_field js d (property js values d.key) e fault, check_fields) refl
  FirstFault-check_fields (c ∷ before) d after values e sound fault out =
      check_fields-passes c (before ++ d ∷ after) values out e sound.0
        (FirstFault-check_fields before d after values e sound.1 fault)

  check_fields-FirstFault :
      (defs : List FieldDef) (values out : Fields) (e : FieldError)
      → check_fields js defs values out ≡ invalid e
      → FirstFault defs values e
  unfolding check_fields
  check_fields-FirstFault [] values out e h = cc
  check_fields-FirstFault (d ∷ defs) values out e h =
      let further : (out' : Fields)
          → check_fields js defs values out' ≡ invalid e
          → ((k : FieldError) → ¬ Fault js d (property js values d.key) k)
          → FirstFault (d ∷ defs) values e =
        λ out' rest sound.
          let (before, c, after, split, sounds, fault) =
            check_fields-FirstFault defs values out' e rest in
          (d ∷ before, c, after, ap (λ l. d ∷ l) split, (sound, sounds), fault) in
      elim (Outcome-cases js (check_field js d (property js values d.key))) [
        | inl o ↦ further out (rw (o, check_fields) at h) (λ k fault.
            let rejected = Fault-check_field js d (property js values d.key) k fault in cc)
        | inr (inl (v, o)) ↦ further (set_key d.key v out) (rw (o, check_fields) at h) (λ k fault.
            let rejected = Fault-check_field js d (property js values d.key) k fault in cc)
        | inr (inr (c, o)) ↦
            let thrown : invalid c ≡ invalid e = rw (o, check_fields) at h in
            let same : c ≡ e = cc in
            (
              [],
              d,
              defs,
              refl,
              tt,
              subst (Fault js d (property js values d.key)) same
                  (check_field-Fault js d (property js values d.key) c o),
            )
      ]

  -- A validation throws an error exactly if that is what is wrong with the value of an active
  -- definition, and nothing is wrong with the values of the active definitions before it: a required
  -- value is missing, a conversion of a value throws, a number is not finite, a choice is not an option,
  -- or a date does not have the form of one.
  pub validate_custom_fields-invalid_iff :
      (defs : List FieldDef) (submitted : Option Fields) (e : FieldError)
      → (validate_custom_fields js defs submitted ≡ invalid e)
        ↔ FirstFault (active defs) (default_to [] submitted) e
  unfolding validate_custom_fields
  validate_custom_fields-invalid_iff defs submitted e = (
    λ h. check_fields-FirstFault (active defs) (default_to [] submitted) [] e h,
    λ h.
        let (before, d, after, split, sound, fault) = h in
        ap (λ l. check_fields js l (default_to [] submitted) []) split
        ∙ FirstFault-check_fields before d after (default_to [] submitted) e sound fault [],
  )

-- ===== src/Ticketing/Fields/Keys.antt =====
-- No two custom fields of a tenant have the same key (apps/api/src/modules/ticketing/custom-fields/
-- custom-fields.service.ts).
use mathlib.Core.List.{map-append}
use claude_cloud_ops_tool.Base.{
  ==_refl, All, All-map, Bool, Bool-cases, IsDistinct, IsDistinct-append, String, [], any, ap,
  arith, false, filter, find, if◌then◌else◌, inl, inr, map, map-update_where, nat_eq, not,
  not_found, ok, option_eq, refl, require-inv, string_eq, subst, sym, true, update_where, ℕ, ◌++◌,
  ◌==◌, ◌∷◌, ◌≡◌, ◌≢◌,
}
use claude_cloud_ops_tool.Ticketing.Values.{FieldDef}
use claude_cloud_ops_tool.Ticketing.Fields.Service.{
  FieldPatch, FieldTable, NewField, create, has_key, has_patch, is_field, lacks_options, new_field,
  patch_field, remove, update,
}

abbrev pub field_key : FieldDef → String × String
field_key d = (d.tenant_id, d.key)

abbrev pub DistinctKeys : FieldTable → Type 0
DistinctKeys defs = IsDistinct (map field_key defs)

any-of_none :
    (tenant key : String) (defs : FieldTable)
    → any (has_key tenant key) defs ≡ false
    → All (λ d. field_key d ≢ (tenant, key)) defs
any-of_none tenant key [] h = tt
any-of_none tenant key (d ∷ defs) h = (
  λ e.
      let mine : (d.tenant_id == tenant) ≡ true =
        subst (λ k. (d.tenant_id == k) ≡ true) (ap (λ k. k.0) e) (==_refl d.tenant_id) in
      let same : (d.key == key) ≡ true =
        subst (λ k. (d.key == k) ≡ true) (ap (λ k. k.1) e) (==_refl d.key) in
      ground arith,
  any-of_none tenant key defs (ground arith),
)

All-map-filter :
    (P : String × String → Type 0) (p : FieldDef → Bool) (defs : FieldTable)
    → All P (map field_key defs)
    → All P (map field_key (filter p defs))
All-map-filter P p [] h = tt
All-map-filter P p (d ∷ defs) h = elim (Bool-cases (p d)) [
  | inl t ↦ rw t (h.0, All-map-filter P p defs h.1)
  | inr t ↦ rw t (All-map-filter P p defs h.1)
]

filter-IsDistinct :
    (p : FieldDef → Bool) (defs : FieldTable) → DistinctKeys defs → DistinctKeys (filter p defs)
filter-IsDistinct p [] h = tt
filter-IsDistinct p (d ∷ defs) h = elim (Bool-cases (p d)) [
  | inl t ↦ rw t (All-map-filter (λ k. field_key d ≢ k) p defs h.0, filter-IsDistinct p defs h.1)
  | inr t ↦ rw t (filter-IsDistinct p defs h.1)
]

create-appends :
    (tenant : String) (now : ℕ) (id : String) (dto : NewField) (before after : FieldTable)
    (d : FieldDef)
    → create tenant now id dto before ≡ ok (d, after)
    → (any (has_key tenant dto.key) before ≡ false)
      × (after ≡ before ++ new_field tenant now id dto ∷ [])
unfolding create
create-appends tenant now id dto before after d e = elim (Bool-cases (lacks_options dto)) [
  | inl l ↦ ground arith
  | inr l ↦ ground arith
]

update-patches :
    (tenant id : String) (dto : FieldPatch) (before after : FieldTable) (d : FieldDef)
    → update tenant id dto before ≡ ok (d, after)
    → after ≡ (
        if has_patch dto
        then update_where (is_field tenant id) (patch_field dto) before
        else before)
unfolding update
update-patches tenant id dto before after d e =
    let defs : FieldTable =
      if has_patch dto
      then update_where (is_field tenant id) (patch_field dto) before
      else before in
    (require-inv (find (is_field tenant id) defs) not_found defs (d, after) e).1

remove-filters :
    (tenant id : String) (before after : FieldTable) (u : Unit {0})
    → remove tenant id before ≡ ok (u, after)
    → after ≡ filter (λ d. not (is_field tenant id d)) before
unfolding remove
remove-filters tenant id before after u e = ground arith

-- The operations on the definitions of fields.
pub data FieldStep (tenant : String) (before after : FieldTable) : Type 0 where
  created :
      (now : ℕ) (id : String) (dto : NewField) (d : FieldDef)
      → create tenant now id dto before ≡ ok (d, after)
      → FieldStep tenant before after
  updated :
      (id : String) (dto : FieldPatch) (d : FieldDef)
      → update tenant id dto before ≡ ok (d, after)
      → FieldStep tenant before after
  removed :
      (id : String) (u : Unit {0})
      → remove tenant id before ≡ ok (u, after)
      → FieldStep tenant before after

-- If no two custom fields of a tenant have the same key, a committed creation, change or removal of a
-- field keeps it so.
pub FieldStep-DistinctKeys :
    (tenant : String) (before after : FieldTable)
    → DistinctKeys before
    → FieldStep tenant before after
    → DistinctKeys after
unfolding create update remove
FieldStep-DistinctKeys tenant before after h (created now id dto d e) =
    let (free, appended) = create-appends tenant now id dto before after d e in
    rw appended (
      subst IsDistinct (sym (map-append field_key before (new_field tenant now id dto ∷ []))) (
        IsDistinct-append (map field_key before) (tenant, dto.key) h
          (All-map (λ k. k ≢ (tenant, dto.key)) field_key before
            (any-of_none tenant dto.key before free))))
FieldStep-DistinctKeys tenant before after h (updated id dto d e) =
    elim (Bool-cases (has_patch dto)) [
      | inl t ↦
          rw (update-patches tenant id dto before after d e, t)
            (subst IsDistinct
              (sym (
                map-update_where field_key (is_field tenant id) (patch_field dto) (λ x. refl)
                  before))
              h)
      | inr t ↦ rw (update-patches tenant id dto before after d e, t) h
    ]
FieldStep-DistinctKeys tenant before after h (removed id u e) =
    rw (remove-filters tenant id before after u e)
      (filter-IsDistinct (λ d. not (is_field tenant id d)) before h)

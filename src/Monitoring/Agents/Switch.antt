-- ===== src/Monitoring/Agents/Switch.antt =====
-- The switch of an agent's token through calls of the service
-- (apps/api/src/modules/monitoring/{agent-tokens.service,agent-token.guard}.ts).
use claude_cloud_ops_tool.Base.{
  ==_refl, Bool, Bool-cases, List, Option, Option-cases, Result, String, [], ap, arith, default_to,
  eq-of-==, err, false, find, find-update_where_ne, if◌then◌else◌, inl, inr, is_some, nat_eq, none,
  not, ok, option_eq, refl, some, string_eq, subst, sym, true, update_where, ℕ, ◌&&◌, ◌==◌, ◌∙◌,
  ◌∷◌, ◌≡◌,
}
use claude_cloud_ops_tool.Platform.Jwt.{Claims, JsonWebToken}
use claude_cloud_ops_tool.Monitoring.Agents.{
  AgentToken, AgentTokenPatch, Fleet, NewAgentToken, create, has_claims, is_agent_token,
  is_switched_on, patch_token, remove, update,
}
use claude_cloud_ops_tool.Monitoring.Agents.Queries.{
  find-none_stronger, find-filter_stronger, find-filter_apart, find-update_stronger,
}

-- A call of the service.
pub data TokenChange : Type 0 where
  created : ℕ → String → NewAgentToken → String → TokenChange
  updated : String → String → AgentTokenPatch → TokenChange
  removed : String → String → TokenChange

-- A call that fails is rolled back.
abbrev pub committed : {A : Type 0} → Fleet → Result (A × Fleet) → Fleet
committed db (err e) = db
committed db (ok q) = q.1

module _ {T : Type 0} (jwt : JsonWebToken T) (lifetime : ℕ) where
  abbrev pub apply_change : TokenChange → Fleet → Fleet
  apply_change (created now tenant dto id) db =
      committed db (create jwt lifetime now tenant dto id db)
  apply_change (updated tenant id dto) db = committed db (update tenant id dto db)
  apply_change (removed tenant id) db = committed db (remove tenant id db)

  abbrev pub apply_changes : List TokenChange → Fleet → Fleet
  apply_changes [] db = db
  apply_changes (c ∷ cs) db = apply_changes cs (apply_change c db)

-- The token's switch as the calls say, or `none` once it is removed.
module _ (tenant id : String) where
  abbrev pub switch_after : TokenChange → Option Bool → Option Bool
  switch_after (created now t dto i) s = s
  switch_after (updated t i dto) none = none
  switch_after (updated t i dto) (some b) =
      if t == tenant && i == id then some (default_to b dto.is_enabled) else some b
  switch_after (removed t i) s = if t == tenant && i == id then none else s

  abbrev pub last_switch : List TokenChange → Option Bool → Option Bool
  last_switch [] s = s
  last_switch (c ∷ cs) s = last_switch cs (switch_after c s)

-- The generated identifiers are new.
abbrev pub creates_id : String → TokenChange → Bool
creates_id id (created now t dto i) = i == id
creates_id id (updated t i dto) = false
creates_id id (removed t i) = false

abbrev pub is_on : Option Bool → Bool
is_on none = false
is_on (some b) = b

-- What the query of the guard finds, as a switch.
abbrev pub switch_of : Option AgentToken → Option Bool
switch_of none = none
switch_of (some t) = some t.is_enabled

pub is_switched_on-switch : (o : Option AgentToken) → is_switched_on o ≡ is_on (switch_of o)
is_switched_on-switch none = refl
is_switched_on-switch (some t) = refl

module _ (tenant id : String) (c : Claims) (of_tenant : c.tenant_id ≡ tenant)
    (of_id : c.sub ≡ id) where
  pub has_claims-is_agent_token :
      (t : AgentToken) → has_claims c t ≡ true → is_agent_token tenant id t ≡ true
  has_claims-is_agent_token t h =
      let own : is_agent_token c.tenant_id c.sub t ≡ true = ground arith in
      subst (λ (x : String). is_agent_token x id t ≡ true) of_tenant
        (subst (λ (x : String). is_agent_token c.tenant_id x t ≡ true) of_id own)

  -- The rows of another token are not those of the claims.
  has_claims-apart :
      (other i : String)
      → (other == tenant && i == id) ≡ false
      → (t : AgentToken) → is_agent_token other i t ≡ true
      → has_claims c t ≡ false
  has_claims-apart other i apart t h = elim (Bool-cases (has_claims c t)) [
    | inl own ↦
        let mine = has_claims-is_agent_token t own in
        let t1 : (t.tenant_id == other) ≡ true = ground arith in
        let i1 : (t.id == i) ≡ true = ground arith in
        let t2 : (t.tenant_id == tenant) ≡ true = ground arith in
        let i2 : (t.id == id) ≡ true = ground arith in
        let same_tenant = sym (eq-of-== t.tenant_id other t1) ∙ eq-of-== t.tenant_id tenant t2 in
        let same_id = sym (eq-of-== t.id i i1) ∙ eq-of-== t.id id i2 in
        let all_same : (other == tenant && i == id) ≡ true =
          rw (same_tenant, same_id, ==_refl tenant, ==_refl id) refl in
        absurd (cc)
    | inr none_of ↦ none_of
  ]

  has_claims-here :
      (t i : String)
      → (t == tenant && i == id) ≡ true
      → (x : AgentToken) → has_claims c x ≡ true
      → is_agent_token t i x ≡ true
  has_claims-here t i same x h =
      let mine = has_claims-is_agent_token x h in
      let t1 : (t == tenant) ≡ true = ground arith in
      let i1 : (i == id) ≡ true = ground arith in rw (eq-of-== t tenant t1, eq-of-== i id i1) mine

  switch_after-apart :
      (t i : String) (dto : AgentTokenPatch) (s : Option Bool)
      → (t == tenant && i == id) ≡ false
      → switch_after tenant id (updated t i dto) s ≡ s
  switch_after-apart t i dto none e = refl
  switch_after-apart t i dto (some b) e = rw e refl

  switch_after-idle :
      (t i : String) (dto : AgentTokenPatch) (s : Option Bool)
      → is_some dto.is_enabled ≡ false
      → switch_after tenant id (updated t i dto) s ≡ s
  switch_after-idle t i dto none e = refl
  switch_after-idle t i dto (some b) e = elim (Option-cases dto.is_enabled) [
    | inl missing ↦ elim (Bool-cases (t == tenant && i == id)) [
      | inl same ↦ rw (same, missing) refl
      | inr apart ↦ rw apart refl
    ]
    | inr (v, given) ↦ let impossible = rw given at e in absurd (cc)
  ]

  pub remove-switch :
      (t i : String) (db : Fleet)
      → switch_of (find (has_claims c) (committed db (remove t i db)).agent_tokens)
        ≡ switch_after tenant id (removed t i) (switch_of (find (has_claims c) db.agent_tokens))
  unfolding remove
  remove-switch t i db = elim (Bool-cases (t == tenant && i == id)) [
    | inl same ↦ elim (Option-cases (find (is_agent_token t i) db.agent_tokens)) [
      | inl missing ↦
          rw (missing, same, remove)
            (ap switch_of (
              find-none_stronger (is_agent_token t i) (has_claims c) (has_claims-here t i same)
                db.agent_tokens missing))
      | inr (row, found) ↦
          rw (found, same, remove)
            (ap switch_of (
              find-filter_stronger (is_agent_token t i) (has_claims c) (has_claims-here t i same)
                db.agent_tokens))
    ]
    | inr apart ↦ elim (Option-cases (find (is_agent_token t i) db.agent_tokens)) [
      | inl missing ↦ rw (missing, apart, remove) refl
      | inr (row, found) ↦
          rw (found, apart, remove)
            (ap switch_of (
              find-filter_apart (is_agent_token t i) (has_claims c) (has_claims-apart t i apart)
                db.agent_tokens))
    ]
  ]

  update_tokens-switch :
      (t i : String) (dto : AgentTokenPatch) (tokens : List AgentToken)
      → switch_of (find (has_claims c) (update_where (is_agent_token t i) (patch_token dto) tokens))
        ≡ switch_after tenant id (updated t i dto) (switch_of (find (has_claims c) tokens))
  update_tokens-switch t i dto tokens = elim (Bool-cases (t == tenant && i == id)) [
    | inl same ↦
        find-update_stronger (is_agent_token t i) (has_claims c) (patch_token dto) switch_of
          (switch_after tenant id (updated t i dto)) (has_claims-here t i same) (λ x. refl) refl
          (λ x. rw same refl) tokens
    | inr apart ↦
        ap switch_of (
          find-update_where_ne (has_claims c) (is_agent_token t i) (patch_token dto)
            (λ x own. (has_claims-apart t i apart x own, has_claims-apart t i apart x own)) tokens)
        ∙ sym (switch_after-apart t i dto (switch_of (find (has_claims c) tokens)) apart)
  ]

  pub update-switch :
      (t i : String) (dto : AgentTokenPatch) (db : Fleet)
      → switch_of (find (has_claims c) (committed db (update t i dto db)).agent_tokens)
        ≡ switch_after tenant id (updated t i dto) (switch_of (find (has_claims c) db.agent_tokens))
  unfolding update
  update-switch t i dto db = elim (Option-cases (find (is_agent_token t i) db.agent_tokens)) [
    | inl missing ↦ elim (Bool-cases (t == tenant && i == id)) [
      | inl same ↦
          let nothing =
            find-none_stronger (is_agent_token t i) (has_claims c) (has_claims-here t i same)
              db.agent_tokens missing in
          rw (missing, nothing, update) refl
      | inr apart ↦
          rw (missing, update)
            (sym
              (switch_after-apart t i dto (switch_of (find (has_claims c) db.agent_tokens)) apart))
    ]
    | inr (row, found) ↦
        elim (Bool-cases (not (is_some dto.label) && not (is_some dto.is_enabled))) [
          | inl idle ↦
              rw (found, idle, update)
                (sym (
                  switch_after-idle t i dto (switch_of (find (has_claims c) db.agent_tokens))
                    (ground arith)))
          | inr some_column ↦
              rw (found, some_column, update) (update_tokens-switch t i dto db.agent_tokens)
        ]
  ]

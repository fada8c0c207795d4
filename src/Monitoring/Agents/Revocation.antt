-- ===== src/Monitoring/Agents/Revocation.antt =====
-- How long a token of an agent is honoured, whatever is done to the tokens meanwhile
-- (apps/api/src/modules/monitoring/{agent-tokens.service,agent-token.guard}.ts).
use claude_cloud_ops_tool.Base.{
  ==_refl, All, Bool-cases, List, Option, Option-cases, Result, Result-cases, String, [],
  any-of_find-none, ap, arith, err, false, find, find-append_new, if◌then◌else◌, inl, inr, ltb,
  nat_eq, none, ok, option_eq, refl, some, string_eq, sym, true, unauthorized, ℕ, ◌&&◌, ◌++◌, ◌+◌,
  ◌/◌, ◌==◌, ◌∙◌, ◌∷◌, ◌≡◌,
}
use claude_cloud_ops_tool.Platform.Jwt.{
  Claims, Kind, is_kind, of_kind, JsonWebToken, IsJsonWebToken, verify_device_jwt,
}
use claude_cloud_ops_tool.Platform.Guards.{bearer}
use claude_cloud_ops_tool.Monitoring.Agents.{
  AgentToken, Fleet, NewAgentToken, agent_token_guard, create, device_claims, has_claims,
  is_agent_token, is_resource, is_switched_on, new_agent_token,
}
use claude_cloud_ops_tool.Monitoring.Agents.Queries.{find-none_stronger, find-append_apart}
use claude_cloud_ops_tool.Monitoring.Agents.Switch.{
  TokenChange, created, updated, removed, committed, apply_change, apply_changes, last_switch,
  creates_id, is_on, switch_of, is_switched_on-switch, has_claims-is_agent_token, remove-switch,
  update-switch,
}

module _ {T : Type 0} (jwt : JsonWebToken T) (lifetime : ℕ) where
  create-inv :
      (now : ℕ) (t i : String) (dto : NewAgentToken) (db db' : Fleet) (row : AgentToken) (token : T)
      → create jwt lifetime now t dto i db ≡ ok ((row, token), db')
      → (token ≡ jwt.sign now lifetime (device_claims t dto.resource_id i))
        × (db'.agent_tokens ≡ db.agent_tokens ++ new_agent_token now t dto i ∷ [])
  unfolding create
  create-inv now t i dto db db' row token e =
      elim (Option-cases (find (is_resource t dto.resource_id) db.resources)) [
        | inl missing ↦ let refused = rw (missing, create) at e in cc
        | inr (r, found) ↦
            let done = rw (found, create) at e in
            let same : (record db {
              agent_tokens = db.agent_tokens ++ new_agent_token now t dto i ∷ [];
            })
                ≡ db' =
              cc in
            (cc, ap (λ (d : Fleet). d.agent_tokens) (sym same))
      ]

  create-switch :
      (now : ℕ) (t i : String) (dto : NewAgentToken) (c : Claims) (db : Fleet)
      → (i == c.sub) ≡ false
      → find (has_claims c) (committed db (create jwt lifetime now t dto i db)).agent_tokens
        ≡ find (has_claims c) db.agent_tokens
  create-switch now t i dto c db other = elim (Result-cases (create jwt lifetime now t dto i db)) [
    | inl (((row, token), db'), done) ↦
        let (signed, rows) = create-inv now t i dto db db' row token done in
        let mine : has_claims c (new_agent_token now t dto i) ≡ false = rw other (ground arith) in
        ap (λ (x : Result _). find (has_claims c) (committed db x).agent_tokens) done
        ∙ ap (λ (l : List AgentToken). find (has_claims c) l) rows
        ∙ find-append_apart (has_claims c) db.agent_tokens (new_agent_token now t dto i) mine
    | inr (code, refused) ↦
        ap (λ (x : Result _). find (has_claims c) (committed db x).agent_tokens) refused
  ]

  apply_changes-switch :
      (c : Claims) (changes : List TokenChange) (db : Fleet)
      → All (λ x. creates_id c.sub x ≡ false) changes
      → switch_of (find (has_claims c) (apply_changes jwt lifetime changes db).agent_tokens)
        ≡ last_switch c.tenant_id c.sub changes (switch_of (find (has_claims c) db.agent_tokens))
  apply_changes-switch c [] db h = refl
  apply_changes-switch c (created now t dto i ∷ cs) db h =
      apply_changes-switch c cs (apply_change jwt lifetime (created now t dto i) db) h.1
      ∙ ap (λ (o : Option AgentToken). last_switch c.tenant_id c.sub cs (switch_of o))
          (create-switch now t i dto c db h.0)
  apply_changes-switch c (updated t i dto ∷ cs) db h =
      apply_changes-switch c cs (apply_change jwt lifetime (updated t i dto) db) h.1
      ∙ ap (last_switch c.tenant_id c.sub cs)
          (update-switch c.tenant_id c.sub c refl refl t i dto db)
  apply_changes-switch c (removed t i ∷ cs) db h =
      apply_changes-switch c cs (apply_change jwt lifetime (removed t i) db) h.1
      ∙ ap (last_switch c.tenant_id c.sub cs) (remove-switch c.tenant_id c.sub c refl refl t i db)

  agent_token_guard-verified :
      (now : ℕ) (token : T) (c : Claims) (db : Fleet)
      → jwt.verify now token ≡ some c
      → is_kind Kind.device c.kind ≡ true
      → agent_token_guard jwt now (some (bearer token)) db ≡ (
          if is_switched_on (find (has_claims c) db.agent_tokens)
          then ok (record {
            tenant_id = c.tenant_id;
            resource_id = c.resource_id;
            agent_token_id = c.sub;
          })
          else err unauthorized)
  unfolding agent_token_guard verify_device_jwt
  agent_token_guard-verified now token c db e k =
      let kept : of_kind Kind.device (jwt.verify now token) ≡ some c =
        ap (of_kind Kind.device) e ∙ rw k refl in
      rw (agent_token_guard, verify_device_jwt, kept) refl

  agent_token_guard-unverified :
      (now : ℕ) (token : T) (db : Fleet)
      → jwt.verify now token ≡ none
      → agent_token_guard jwt now (some (bearer token)) db ≡ err unauthorized
  unfolding agent_token_guard verify_device_jwt
  agent_token_guard-unverified now token db e =
      let kept : of_kind Kind.device (jwt.verify now token) ≡ none = ap (of_kind Kind.device) e in
      rw (agent_token_guard, verify_device_jwt, kept) refl

  -- If the service creates a token whose identifier no row has, and no later call creates it again,
  -- then after any calls of the service the guard lets the token in exactly if it has not expired and
  -- its row is neither switched off nor removed by the calls for it, with the scope of the tenant and
  -- the resource that it was created for, and answers that it is unauthorized if not.
  pub agent_token_guard-create :
      IsJsonWebToken jwt
      → (issued now : ℕ) (tenant id : String) (dto : NewAgentToken) (changes : List TokenChange)
        (db db' : Fleet) (row : AgentToken) (token : T)
      → create jwt lifetime issued tenant dto id db ≡ ok ((row, token), db')
      → find (is_agent_token tenant id) db.agent_tokens ≡ none
      → All (λ x. creates_id id x ≡ false) changes
      → agent_token_guard jwt now (some (bearer token)) (apply_changes jwt lifetime changes db') ≡ (
          if ltb (now / 1000) (issued / 1000 + lifetime)
            && is_on (last_switch tenant id changes (some true))
          then ok (record {
            tenant_id = tenant;
            resource_id = some dto.resource_id;
            agent_token_id = id;
          })
          else err unauthorized)
  agent_token_guard-create is_jwt issued now tenant id dto changes db db' row token made fresh
        others =
      let (signed, rows) = create-inv issued tenant id dto db db' row token made in
      let c : Claims = record (device_claims tenant dto.resource_id id) {
        iat = some (issued / 1000);
      } in
      let verified =
        ap (jwt.verify now) signed
        ∙ is_jwt.verify-sign issued lifetime now (device_claims tenant dto.resource_id id) in
      let mine : has_claims c (new_agent_token issued tenant dto id) ≡ true =
        rw (==_refl tenant, ==_refl id, ==_refl dto.resource_id) refl in
      let first : find (has_claims c) db'.agent_tokens
          ≡ some (new_agent_token issued tenant dto id) =
        ap (λ (l : List AgentToken). find (has_claims c) l) rows
        ∙ find-append_new (has_claims c) db.agent_tokens (new_agent_token issued tenant dto id)
            (any-of_find-none (has_claims c) db.agent_tokens (
              find-none_stronger (is_agent_token tenant id) (has_claims c)
                (has_claims-is_agent_token tenant id c refl refl) db.agent_tokens fresh))
            mine in
      let switch =
        apply_changes-switch c changes db' others
        ∙ ap (λ (o : Option AgentToken). last_switch tenant id changes (switch_of o)) first in
      let on =
        is_switched_on-switch
          (find (has_claims c) (apply_changes jwt lifetime changes db').agent_tokens)
        ∙ ap is_on switch in
      elim (Bool-cases (ltb (now / 1000) (issued / 1000 + lifetime))) [
        | inl valid ↦
            agent_token_guard-verified now token c (apply_changes jwt lifetime changes db')
              (verified ∙ rw valid refl) refl
            ∙ rw (on, valid) refl
        | inr expired ↦
            agent_token_guard-unverified now token (apply_changes jwt lifetime changes db')
              (verified ∙ rw expired refl)
            ∙ rw expired refl
      ]

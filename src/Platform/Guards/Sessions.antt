-- ===== src/Platform/Guards/Sessions.antt =====
-- A session that was revoked is over (apps/api/src/modules/platform/http/tenant-header.guard.ts,
-- platform/auth/auth-security.ts).
use claude_cloud_ops_tool.Base.{
  All, Bool-cases, List, Option, String, arith, inl, inr, ltb, none, refl, some, sym, true, ℕ, ◌*◌,
  ◌+◌, ◌/◌, ◌<◌, ◌∙◌, ◌≡◌, ◌≤◌,
}
use claude_cloud_ops_tool.Platform.Jwt.{
  Claims, JsonWebToken, IsJsonWebToken, verify_jwt, Kind, is_kind,
}
use claude_cloud_ops_tool.Platform.Redis.{Redis, IsRedis}
use claude_cloud_ops_tool.Platform.Security.{
  is_session_revoked, revoke_user_sessions, revoke_ttl_seconds,
}
use claude_cloud_ops_tool.Platform.Security.Revoked.{
  Change, Since, Marked, apply_changes, revoke-Marked, apply_changes-Marked,
  is_session_revoked-Marked,
}
use claude_cloud_ops_tool.Platform.Guards.{
  Request, bearer, honoured, tenant_header_guard, header_scope, Authorization,
}

module _ {T S : Type 0} (jwt : JsonWebToken T) (is_jwt : IsJsonWebToken jwt) (r : Redis S)
    (redis : IsRedis r) where
  honoured-none_of_verify :
      (now : ℕ) (token : T) (s : S)
      → jwt.verify now token ≡ none
      → honoured jwt r now (some (bearer token)) s ≡ none
  unfolding honoured verify_jwt
  honoured-none_of_verify now token s e = rw (e, honoured, verify_jwt) refl

  honoured-none_of_revoked :
      (now : ℕ) (token : T) (s : S) (c : Claims)
      → jwt.verify now token ≡ some c
      → is_session_revoked r now c.sub c.iat s ≡ true
      → honoured jwt r now (some (bearer token)) s ≡ none
  unfolding honoured verify_jwt
  honoured-none_of_revoked now token s c e h = elim (Bool-cases (is_kind Kind.agent c.kind)) [
    | inl t ↦ rw (e, honoured, verify_jwt, t, h) refl
    | inr t ↦ rw (e, honoured, verify_jwt, t) refl
  ]

  honoured-none :
      (issued lifetime t now : ℕ) (c : Claims) (s : S)
      → 1000 ≤ issued
      → issued < t
      → lifetime ≤ revoke_ttl_seconds
      → Marked r t c.sub s
      → honoured jwt r now (some (bearer (jwt.sign issued lifetime c))) s ≡ none
  honoured-none issued lifetime t now c s after before short marked =
      let token = jwt.sign issued lifetime c in
      elim (Bool-cases (ltb (now / 1000) (issued / 1000 + lifetime))) [
        | inl valid ↦
            let signed : Claims = record c { iat = some (issued / 1000) } in
            let verified : jwt.verify now token ≡ some signed =
              is_jwt.verify-sign issued lifetime now c ∙ rw valid refl in
            let lasts : now < t + 1000 * revoke_ttl_seconds = ground arith in
            honoured-none_of_revoked now token s signed verified (
              is_session_revoked-Marked r redis t c.sub (issued / 1000) now s (omega arith)
                (omega arith) lasts marked)
        | inr expired ↦
            honoured-none_of_verify now token s
              (is_jwt.verify-sign issued lifetime now c ∙ rw expired refl)
      ]

  tenant_header_guard-header :
      (now : ℕ) (request : Request T) (s : S)
      → honoured jwt r now request.authorization s ≡ none
      → tenant_header_guard jwt r now request s ≡ header_scope request.x_tenant_id
  unfolding tenant_header_guard
  tenant_header_guard-header now request s e = rw (e, tenant_header_guard) refl

  -- If all sessions of a user are revoked after a token of the user was signed, and the token lasts no
  -- longer than two days, then at every later instant, whatever logins, attempts and revocations of any
  -- users came between, TenantHeaderGuard answers a request with the token as it would without it.
  pub tenant_header_guard-revoked :
      (issued lifetime t now : ℕ) (c : Claims) (changes : List Change) (s : S)
      (x_tenant_id : Option String)
      → 1000 ≤ issued
      → issued < t
      → lifetime ≤ revoke_ttl_seconds
      → All (Since t) changes
      → let later = apply_changes r changes (revoke_user_sessions r t c.sub s) in
        let with_token : Request T = record {
          authorization = some (bearer (jwt.sign issued lifetime c));
          x_tenant_id = x_tenant_id;
        } in
        let without : Request T = record { authorization = none; x_tenant_id = x_tenant_id } in
        tenant_header_guard jwt r now with_token later ≡ tenant_header_guard jwt r now without later
  tenant_header_guard-revoked issued lifetime t now c changes s x_tenant_id after before short
        times =
      let later = apply_changes r changes (revoke_user_sessions r t c.sub s) in
      let marked : Marked r t c.sub later =
        apply_changes-Marked r redis t c.sub changes (revoke_user_sessions r t c.sub s) times
          (revoke-Marked r redis t c.sub t s (omega arith)) in
      let token : Authorization T = bearer (jwt.sign issued lifetime c) in
      tenant_header_guard-header now
        (record { authorization = some token; x_tenant_id = x_tenant_id }) later
        (honoured-none issued lifetime t now c later after before short marked)
      ∙ sym (
          tenant_header_guard-header now
            (record { authorization = none; x_tenant_id = x_tenant_id }) later
            (unfold honoured in refl))

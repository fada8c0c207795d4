-- ===== src/Platform/Accounts/SignedIn.antt =====
-- What it takes to be signed in (apps/api/src/modules/platform/auth/auth.service.ts).
use claude_cloud_ops_tool.Base.{
  Bool, Bool-cases, List, Option, Option-cases, Result, String, [], ap, arith, default_to, err,
  false, find, inl, inr, none, ok, refl, some, subst, true, ℕ, ◌∙◌, ◌≡◌, ◌≤◌,
}
use claude_cloud_ops_tool.Platform.Jwt.{JsonWebToken}
use claude_cloud_ops_tool.Platform.Redis.{Redis}
use claude_cloud_ops_tool.Platform.Security.{register_login_attempt, clear_login_attempts}
use claude_cloud_ops_tool.Platform.Totp.{totp_code_at}
use claude_cloud_ops_tool.Platform.Totp.Window.{Near, verify_totp_iff}
use claude_cloud_ops_tool.Platform.Accounts.{
  User, Crypto, signed_in, has_email, authenticate, second_factor, verify_secret, require_code,
  is_missing, agent_claims, complete, check_credentials, login, throttle_key, is_code,
}

-- The code that was given is, trimmed, the code of the user's secret at some instant that is at most
-- 30 seconds away.
abbrev pub HasCode : Crypto → ℕ → Option String → Option (List ℕ) → Type 0
HasCode crypto now stored code =
    (secret : String) × (given : List ℕ) × (at : ℕ) × (stored ≡ some secret)
    × (code ≡ some given)
    × Near at now
    × (crypto.characters.trim given
        ≡ totp_code_at crypto.characters crypto.hmac_sha1 (crypto.decrypt secret) at)

require_code-inv :
    (verdict : Option Bool)
    → (elim (require_code verdict) [ ok _ ↦ ok true | err e ↦ err e ]) ≡ ok true
    → verdict ≡ some true
require_code-inv none e = cc
require_code-inv (some false) e = cc
require_code-inv (some true) e = refl

module _ (crypto : Crypto) where
  authenticate-inv :
      (tenant email password : String) (users : List User) (user : User)
      → authenticate crypto tenant email password users ≡ some user
      → (find (has_email tenant email) users ≡ some user)
        × (crypto.compare password user.password_hash ≡ true)
  authenticate-inv tenant email password users user e =
      elim (Option-cases (find (has_email tenant email) users)) [
        | inl missing ↦ ground arith
        | inr (u, found) ↦ elim (Bool-cases (crypto.compare password u.password_hash)) [
          | inl t ↦
              let same : u ≡ user = ground arith in
              (
                found ∙ ap some same,
                subst (λ (x : User). crypto.compare password x.password_hash ≡ true) same t,
              )
          | inr t ↦ ground arith
        ]
      ]

  verify_secret-inv :
      (now : ℕ) (stored : Option String) (code : Option (List ℕ))
      → 30000 ≤ now
      → is_missing code ≡ false
      → verify_secret crypto stored code now ≡ some true
      → HasCode crypto now stored code
  verify_secret-inv now none code late given e =
      elim (Bool-cases (is_code (crypto.characters.trim (default_to [] code)))) [
        | inl t ↦ ground arith
        | inr t ↦ ground arith
      ]
  verify_secret-inv now (some secret) none late given e = cc
  verify_secret-inv now (some secret) (some code) late given e =
      let (at, near, same) =
        (verify_totp_iff crypto.characters crypto.hmac_sha1 (crypto.decrypt secret) code now late).0
          e in
      (secret, code, at, refl, refl, near, same)

  second_factor-inv :
      (now : ℕ) (user : User) (code : Option (List ℕ))
      → 30000 ≤ now
      → second_factor crypto now user code ≡ ok true
      → user.totp_enabled ≡ true
      → HasCode crypto now user.totp_secret_encrypted code
  unfolding second_factor
  second_factor-inv now user code late e enabled = elim (Bool-cases (is_missing code)) [
    | inl t ↦ ground arith
    | inr t ↦ verify_secret-inv now user.totp_secret_encrypted code late t (
        require_code-inv (verify_secret crypto user.totp_secret_encrypted code now)
          (rw (enabled, t) at e))
  ]

  module _ {T S : Type 0} (jwt : JsonWebToken T) (r : Redis S) (lifetime : ℕ) where
    complete-inv :
        (now : ℕ) (tenant email : String) (u : User) (second : Result Bool) (s s' : S) (token : T)
        (user : User)
        → complete crypto jwt r lifetime now tenant email u second s
          ≡ (ok (signed_in token user), s')
        → (second ≡ ok true)
          × (u ≡ user)
          × (token ≡ jwt.sign now lifetime (agent_claims tenant u))
          × (s' ≡ clear_login_attempts r (throttle_key crypto tenant email) s)
    complete-inv now tenant email u (err c) s s' token user e = cc
    complete-inv now tenant email u (ok false) s s' token user e = cc
    complete-inv now tenant email u (ok true) s s' token user e = (refl, cc, cc, cc)

    check_credentials-inv :
        (now : ℕ) (tenant email password : String) (code : Option (List ℕ)) (users : List User)
        (s s' : S) (token : T) (user : User)
        → check_credentials crypto jwt r lifetime now tenant email password code users s
          ≡ (ok (signed_in token user), s')
        → (authenticate crypto tenant email password users ≡ some user)
          × (second_factor crypto now user code ≡ ok true)
          × (token ≡ jwt.sign now lifetime (agent_claims tenant user))
          × (s' ≡ clear_login_attempts r (throttle_key crypto tenant email) s)
    unfolding check_credentials
    check_credentials-inv now tenant email password code users s s' token user e =
        elim (Option-cases (authenticate crypto tenant email password users)) [
          | inl missing ↦ let refused = rw (missing, check_credentials) at e in cc
          | inr (u, found) ↦
              let (proceeds, same, signed, cleared) =
                complete-inv now tenant email u (second_factor crypto now u code) s s' token user
                  (rw (found, check_credentials) at e) in
              (
                found ∙ ap some same,
                subst (λ (x : User). second_factor crypto now x code ≡ ok true) same proceeds,
                signed ∙ ap (λ (x : User). jwt.sign now lifetime (agent_claims tenant x)) same,
                cleared,
              )
        ]

    -- A login that returns a token was let through by the throttle, whose counter is then cleared. The
    -- token is an agent's, of the user of the tenant with this address, whose password was given, and
    -- with two-factor authentication a code of the user's secret that is at most 30 seconds off.
    pub login-signed_in :
        (now : ℕ) (tenant email password : String) (code : Option (List ℕ)) (users : List User)
        (s s' : S) (token : T) (user : User)
        → 30000 ≤ now
        → login crypto jwt r lifetime now tenant email password code users s
          ≡ (ok (signed_in token user), s')
        → let attempt = register_login_attempt r now (throttle_key crypto tenant email) s in
          (attempt.0.is_allowed ≡ true)
          × (find (has_email tenant email) users ≡ some user)
          × (crypto.compare password user.password_hash ≡ true)
          × (user.totp_enabled ≡ true → HasCode crypto now user.totp_secret_encrypted code)
          × (token ≡ jwt.sign now lifetime (agent_claims tenant user))
          × (s' ≡ clear_login_attempts r (throttle_key crypto tenant email) attempt.1)
    unfolding login
    login-signed_in now tenant email password code users s s' token user late e =
        let key = throttle_key crypto tenant email in
        let attempt = register_login_attempt r now key s in
        elim (Bool-cases attempt.0.is_allowed) [
          | inl t ↦
              let (found, second, signed, cleared) =
                check_credentials-inv now tenant email password code users attempt.1 s' token user
                  (rw t at e) in
              let (row, right) = authenticate-inv tenant email password users user found in
              (t, row, right, second_factor-inv now user code late second, signed, cleared)
          | inr t ↦ let refused = rw t at e in cc
        ]

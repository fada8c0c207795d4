-- ===== src/Platform/Accounts.antt =====
-- The users of a tenant and how they sign in (apps/api/src/modules/platform/auth/auth.service.ts).
pub mod SignedIn
pub mod Reset
use claude_cloud_ops_tool.Base.{
  Bool, List, Option, Result, String, Tx, [], default_to, err, false, find, gets, if◌then◌else◌,
  internal_error, is_some, length, ltb, modify, nat_eq, none, not, ok, option_eq, pure, require,
  some, string_eq, too_many_requests, true, unauthorized, update_where, ℕ, ◌&&◌, ◌++◌, ◌+◌, ◌==◌,
  ◌>>=◌, ◌>>◌, ◌∷◌,
}
use Prim.Native.String.{◌++◌ as str_append}
use claude_cloud_ops_tool.Platform.Jwt.{Claims, JsonWebToken, Kind}
use claude_cloud_ops_tool.Platform.Redis.{Redis}
use claude_cloud_ops_tool.Platform.Security.{
  register_login_attempt, clear_login_attempts, revoke_user_sessions,
}
use claude_cloud_ops_tool.Platform.Totp.{Characters, is_code, verify_totp}

pub record User : Type 0 where
  pub id : String
  pub tenant_id : String
  pub email : String
  pub name : String
  pub password_hash : String
  pub role : String
  pub totp_secret_encrypted : Option String
  pub totp_enabled : Bool

-- `password_reset_tokens`
pub record ResetToken : Type 0 where
  pub id : String
  pub tenant_id : String
  pub user_id : String
  pub token_hash : String
  pub expires_at : ℕ
  pub used_at : Option ℕ

pub record Accounts : Type 0 where
  pub users : List User
  pub reset_tokens : List ResetToken

-- bcrypt, SHA-256, HMAC-SHA1, pgcrypto with the key of the application, and the operations on text.
pub record Crypto : Type 0 where
  pub characters : Characters
  pub to_lower : String → String
  pub compare : String → String → Bool
  pub hash : String → String
  pub sha256 : String → String
  pub hmac_sha1 : List ℕ → List ℕ → List ℕ
  pub encrypt : List ℕ → String
  pub decrypt : String → List ℕ

abbrev pub has_email : String → String → User → Bool
has_email tenant email u = u.tenant_id == tenant && u.email == email

abbrev pub is_user : String → String → User → Bool
is_user tenant id u = u.tenant_id == tenant && u.id == id

-- What `login` returns.
pub data LoginResult (T : Type 0) : Type 0 where
  mfa_required : LoginResult T
  signed_in : T → User → LoginResult T

-- `!totpCode`
abbrev pub is_missing : Option (List ℕ) → Bool
is_missing none = true
is_missing (some code) = length code == 0

abbrev pub require_code : Option Bool → Result (Unit {0})
require_code none = err internal_error
require_code (some false) = err unauthorized
require_code (some true) = ok tt

unfoldable pub me : String → String → Tx Accounts User
me tenant user_id = do
  user ← gets (λ db. find (is_user tenant user_id) db.users)
  require user unauthorized

abbrev pub is_reset_token : String → String → ResetToken → Bool
is_reset_token tenant id t = t.tenant_id == tenant && t.id == id

abbrev pub mark_used : ℕ → ResetToken → ResetToken
mark_used now t = record t { used_at = some now }

abbrev pub agent_claims : String → User → Claims
agent_claims tenant user = record {
  sub = user.id;
  tenant_id = tenant;
  email = user.email;
  kind = Kind.agent;
  role = some user.role;
  resource_id = none;
  iat = none;
}

module _ (crypto : Crypto) where
  -- `verifyTotp` on the decrypted secret. On NULL it throws, if the code has its form.
  abbrev pub verify_secret : Option String → Option (List ℕ) → ℕ → Option Bool
  verify_secret none code now =
      if is_code (crypto.characters.trim (default_to [] code)) then none else some false
  verify_secret (some secret) code now =
      verify_totp crypto.characters crypto.hmac_sha1 (crypto.decrypt secret) code now

  -- Whether the login may go on; `ok false` asks for a code.
  unfoldable pub second_factor : ℕ → User → Option (List ℕ) → Result Bool
  second_factor now user code =
      if user.totp_enabled
      then (if is_missing code
          then ok false
          else elim (require_code (verify_secret user.totp_secret_encrypted code now)) [
            | ok _ ↦ ok true
            | err e ↦ err e
          ])
      else ok true

  -- The user whose password is right.
  abbrev pub authenticate : String → String → String → List User → Option User
  authenticate tenant email password users = elim (find (has_email tenant email) users) [
    | none ↦ none
    | some user ↦ if crypto.compare password user.password_hash then some user else none
  ]

  abbrev pub throttle_key : String → String → String
  throttle_key tenant email = str_append tenant (str_append ":" (crypto.to_lower email))

  module _ {T S : Type 0} (jwt : JsonWebToken T) (r : Redis S) (lifetime : ℕ) where
    -- The token, unless the second factor is missing or wrong.
    abbrev pub complete : ℕ → String → String → User → Result Bool → S → Result (LoginResult T) × S
    complete now tenant email user (err e) s = (err e, s)
    complete now tenant email user (ok false) s = (ok mfa_required, s)
    complete now tenant email user (ok true) s = (
      ok (signed_in (jwt.sign now lifetime (agent_claims tenant user)) user),
      clear_login_attempts r (throttle_key tenant email) s,
    )

    -- The part of `login` after the throttle.
    unfoldable pub check_credentials :
        ℕ → String → String → String → Option (List ℕ) → List User → S → Result (LoginResult T) × S
    check_credentials now tenant email password code users s =
        elim (authenticate tenant email password users) [
          | none ↦ (err unauthorized, s)
          | some user ↦ complete now tenant email user (second_factor now user code) s
        ]

    unfoldable pub login :
        ℕ → String → String → String → Option (List ℕ) → List User → S → Result (LoginResult T) × S
    login now tenant email password code users s =
        let (throttle, s') = register_login_attempt r now (throttle_key tenant email) s in
        if throttle.is_allowed
        then check_credentials now tenant email password code users s'
        else (err too_many_requests, s')

  abbrev pub new_reset_token : ℕ → String → String → String → String → ResetToken
  new_reset_token now tenant id token user_id = record {
    id = id;
    tenant_id = tenant;
    user_id = user_id;
    token_hash = crypto.sha256 token;
    expires_at = now + 3600000;
    used_at = none;
  }

  -- The random token, or `none` for an unknown address; the mail follows the INSERT.
  unfoldable pub request_password_reset :
      ℕ → String → String → String → String → Tx Accounts (Option String)
  request_password_reset now tenant id token email = do
    user ← gets (λ db. find (has_email tenant email) db.users)
    modify (λ db. elim user [
      | none ↦ db
      | some u ↦ record db {
        reset_tokens = db.reset_tokens ++ new_reset_token now tenant id token u.id ∷ [];
      }
    ])
    pure (if is_some user then some token else none)

  -- WHERE token_hash = $1 AND used_at IS NULL AND expires_at > now()
  abbrev pub is_usable : ℕ → String → String → ResetToken → Bool
  is_usable now tenant token t =
      t.tenant_id == tenant
      && t.token_hash == crypto.sha256 token
      && not (is_some t.used_at)
      && ltb now t.expires_at

  abbrev pub set_password : String → User → User
  set_password password u = record u { password_hash = crypto.hash password }

  -- The two UPDATEs.
  abbrev pub reset_with : ℕ → String → String → ResetToken → Accounts → Accounts
  reset_with now tenant password row db = record db {
    users = update_where (is_user tenant row.user_id) (set_password password) db.users;
    reset_tokens = update_where (is_reset_token tenant row.id) (mark_used now) db.reset_tokens;
  }

  -- The transaction of `resetPassword`.
  unfoldable pub consume_reset_token : ℕ → String → String → String → Tx Accounts String
  consume_reset_token now tenant token password = do
    found ← gets (λ db. find (is_usable now tenant token) db.reset_tokens)
    row ← require found unauthorized
    modify (reset_with now tenant password row)
    pure row.user_id

  -- The sessions are revoked after the commit.
  unfoldable pub reset_password :
      {S : Type 0}
      → Redis S
      → ℕ
      → String
      → String
      → String
      → Accounts
      → S
      → Result (Unit {0} × Accounts) × S
  reset_password r now tenant token password db s =
      elim (consume_reset_token now tenant token password db) [
        | ok q ↦ (ok (tt, q.1), revoke_user_sessions r now q.0 s)
        | err e ↦ (err e, s)
      ]

-- ===== src/Platform/Security.antt =====
-- The throttle of logins, the revocation of sessions (apps/api/src/modules/platform/auth/
-- auth-security.ts) and the limit of ingestion (apps/api/src/modules/monitoring/
-- ingest-rate-limit.ts), over Redis. The commands of one call see one instant.
pub mod Hits
pub mod Windows
pub mod Revoked
use claude_cloud_ops_tool.Base.{
  Bool, Option, String, default_to, false, if◌then◌else◌, ltb, nat_eq, none, not, option_eq, some,
  string_eq, true, ℕ, ◌&&◌, ◌*◌, ◌==◌,
}
use claude_cloud_ops_tool.Platform.Redis.{Key, Redis, live, Entry}

-- MAX_LOGIN_ATTEMPTS
abbrev pub max_login_attempts : ℕ
max_login_attempts = 5

-- LOGIN_WINDOW_SECONDS
abbrev pub login_window_seconds : ℕ
login_window_seconds = 15 * 60

-- REVOKE_TTL_SECONDS
abbrev pub revoke_ttl_seconds : ℕ
revoke_ttl_seconds = 60 * 60 * 24 * 2

pub record ThrottleResult : Type 0 where
  pub is_allowed : Bool
  pub retry_after_seconds : ℕ

-- Which commands fail in a call of `enforceIngestRate`.
pub record Outage : Type 0 where
  pub incr_fails : Bool
  pub expire_fails : Bool
  pub ttl_fails : Bool

abbrev pub value_of : Option Entry → Option ℕ
value_of none = none
value_of (some e) = some e.value

module _ {S : Type 0} (r : Redis S) where
  -- INCR, and EXPIRE on the first count.
  unfoldable pub hit : ℕ → ℕ → Key → S → ℕ × S
  hit seconds now k s =
      let (count, counted) = r.incr now k s in
      (count, if count == 1 then r.expire now k seconds counted else counted)

  unfoldable pub register_login_attempt : ℕ → String → S → ThrottleResult × S
  register_login_attempt now key s =
      let (count, s') = hit login_window_seconds now (Key.throttle key) s in
      let ttl = r.ttl now (Key.throttle key) s' in
      if ltb max_login_attempts count
      then (
        record {
          is_allowed = false;
          retry_after_seconds = if ltb 0 ttl then ttl else login_window_seconds;
        },
        s',
      )
      else (record { is_allowed = true; retry_after_seconds = 0 }, s')

  unfoldable pub clear_login_attempts : String → S → S
  clear_login_attempts key s = r.del (Key.throttle key) s

  unfoldable pub revoke_user_sessions : ℕ → String → S → S
  revoke_user_sessions now user_id s = r.set_ex now (Key.revoke user_id) now revoke_ttl_seconds s

  -- `iat` is in seconds, the marker in milliseconds.
  unfoldable pub is_session_revoked : ℕ → String → Option ℕ → S → Bool
  is_session_revoked now user_id iat s =
      if default_to 0 iat == 0
      then false
      else elim (value_of (live now (r.stored s (Key.revoke user_id)))) [
        | none ↦ false
        | some revoked_at ↦ ltb (default_to 0 iat * 1000) revoked_at
      ]

  -- A request that is let in, or the seconds after which to try again.
  unfoldable pub enforce_ingest_rate : ℕ → ℕ → Outage → ℕ → String → S → Option ℕ × S
  enforce_ingest_rate limit window outage now key s =
      let (count, counted) = r.incr now (Key.rate key) s in
      let (_, s') = hit window now (Key.rate key) s in
      let ttl = r.ttl now (Key.rate key) s' in
      if outage.incr_fails
      then (none, s)
      else (if count == 1 && outage.expire_fails
          then (none, counted)
          else (if ltb limit count
              then (some (if not outage.ttl_fails && ltb 0 ttl then ttl else window), s')
              else (none, s')))

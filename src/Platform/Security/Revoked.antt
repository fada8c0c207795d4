-- ===== src/Platform/Security/Revoked.antt =====
-- What a revocation leaves in Redis (apps/api/src/modules/platform/auth/auth-security.ts).
use claude_cloud_ops_tool.Base.{
  ==_refl, All, Bool-cases, List, Option, String, [], ap, arith, false, inl, inr, ltb, nat_eq,
  option_eq, refl, some, string_eq, true, ℕ, ◌*◌, ◌+◌, ◌<◌, ◌==◌, ◌∙◌, ◌∷◌, ◌≡◌, ◌≤◌,
}
use claude_cloud_ops_tool.Platform.Redis.{Key, Redis, IsRedis, live, Entry}
use claude_cloud_ops_tool.Platform.Security.{
  revoke_user_sessions, is_session_revoked, revoke_ttl_seconds, value_of, register_login_attempt,
  clear_login_attempts,
}
use claude_cloud_ops_tool.Platform.Security.Windows.{stored-attempt_other}

-- What may happen in Redis after a revocation: attempts to log in, logins, and revocations for any user.
pub data Change : Type 0 where
  attempted : ℕ → String → Change
  cleared : String → Change
  revoked : ℕ → String → Change

abbrev pub Since : ℕ → Change → Type 0
Since t (attempted now key) = Unit
Since t (cleared key) = Unit
Since t (revoked now user_id) = t ≤ now

-- The marker of a revocation at an instant or a later one.
abbrev pub Marked : {S : Type 0} → Redis S → ℕ → String → S → Type 0
Marked {S} r t user_id s =
    (v : ℕ) × (t ≤ v)
    × (r.stored s (Key.revoke user_id)
        ≡ some (record { value = v; expires_at = some (v + 1000 * revoke_ttl_seconds) }))

module _ {S : Type 0} (r : Redis S) where
  abbrev pub apply_change : Change → S → S
  apply_change (attempted now key) s = (register_login_attempt r now key s).1
  apply_change (cleared key) s = clear_login_attempts r key s
  apply_change (revoked now user_id) s = revoke_user_sessions r now user_id s

  abbrev pub apply_changes : List Change → S → S
  apply_changes [] s = s
  apply_changes (c ∷ changes) s = apply_changes changes (apply_change c s)

module _ {S : Type 0} (r : Redis S) (redis : IsRedis r) (t : ℕ) (user_id : String) where
  pub revoke-Marked :
      (now : ℕ) (s : S) → t ≤ now → Marked r t user_id (revoke_user_sessions r now user_id s)
  unfolding revoke_user_sessions
  revoke-Marked now s h = (
    now,
    h,
    redis.stored-set_ex now (Key.revoke user_id) (Key.revoke user_id) now revoke_ttl_seconds s
        ∙ rw (==_refl user_id) refl,
  )

  apply_change-Marked :
      (c : Change) (s : S)
      → Since t c
      → Marked r t user_id s
      → Marked r t user_id (apply_change r c s)
  unfolding revoke_user_sessions clear_login_attempts
  apply_change-Marked (attempted now key) s h (v, le, e) =
      (v, le, stored-attempt_other r redis now key (Key.revoke user_id) s refl ∙ e)
  apply_change-Marked (cleared key) s h (v, le, e) =
      (v, le, redis.stored-del (Key.throttle key) (Key.revoke user_id) s ∙ e)
  apply_change-Marked (revoked now other) s h (v, le, e) = elim (Bool-cases (user_id == other)) [
    | inl same ↦ (
      now,
      h,
      redis.stored-set_ex now (Key.revoke other) (Key.revoke user_id) now revoke_ttl_seconds s
          ∙ rw same refl,
    )
    | inr differs ↦ (
      v,
      le,
      redis.stored-set_ex now (Key.revoke other) (Key.revoke user_id) now revoke_ttl_seconds s
          ∙ rw differs e,
    )
  ]

  pub apply_changes-Marked :
      (changes : List Change) (s : S)
      → All (Since t) changes
      → Marked r t user_id s
      → Marked r t user_id (apply_changes r changes s)
  apply_changes-Marked [] s h m = m
  apply_changes-Marked (c ∷ changes) s h m =
      apply_changes-Marked changes (apply_change r c s) h.1 (apply_change-Marked c s h.0 m)

  -- While the marker lasts, a token issued before it is refused.
  pub is_session_revoked-Marked :
      (iat now : ℕ) (s : S)
      → 0 < iat
      → iat * 1000 < t
      → now < t + 1000 * revoke_ttl_seconds
      → Marked r t user_id s
      → is_session_revoked r now user_id (some iat) s ≡ true
  unfolding is_session_revoked
  is_session_revoked-Marked iat now s positive before lasts (v, le, e) =
      let user = Key.revoke user_id in
      let nonzero : (iat == 0) ≡ false = ground arith in
      let alive : ltb now (v + 1000 * revoke_ttl_seconds) ≡ true = ground arith in
      let newer : ltb (iat * 1000) v ≡ true = ground arith in
      let seen : value_of (live now (r.stored s user)) ≡ some v =
        ap (λ (o : Option Entry). value_of (live now o)) e ∙ rw alive refl in
      rw (nonzero, seen, newer) refl

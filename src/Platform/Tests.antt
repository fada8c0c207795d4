-- ===== src/Platform/Tests.antt =====
-- Signing in on small tables.
use claude_cloud_ops_tool.Platform.Accounts.Reset.{reset_password-once}
use claude_cloud_ops_tool.Platform.Accounts.SignedIn.{HasCode, login-signed_in}
use claude_cloud_ops_tool.Base.{
  List, Option, String, [], arith, err, false, find, if◌then◌else◌, ltb, nat_eq, none, ok,
  option_eq, refl, some, string_eq, subst, sym, true, unauthorized, update_where, ℕ, ◌*◌, ◌+◌, ◌/◌,
  ◌<◌, ◌==◌, ◌∷◌, ◌≡◌,
}
use claude_cloud_ops_tool.Platform.Totp.{
  Characters, letter, generate_totp_secret, base32_decode, hotp, verify_totp, matches_any,
}
use claude_cloud_ops_tool.Platform.Totp.Secret.{
  KeepsLetters, IsLetter, base32_decode-generate_totp_secret,
}
use claude_cloud_ops_tool.Platform.Redis.{
  Key, Redis, IsRedis, Entry, counted, live, expiring, same_key,
}
use claude_cloud_ops_tool.Platform.Security.{
  register_login_attempt, clear_login_attempts, revoke_user_sessions, hit,
}
use claude_cloud_ops_tool.Platform.Security.Windows.{
  Event, attempt, success, run, ideal, answers_to, run-ideal,
}
use claude_cloud_ops_tool.Platform.Security.Revoked.{Marked, attempted, cleared, apply_changes}
use claude_cloud_ops_tool.Platform.Jwt.{Claims, JsonWebToken, IsJsonWebToken}
use claude_cloud_ops_tool.Platform.Guards.{bearer, tenant_header_guard}
use claude_cloud_ops_tool.Platform.Guards.Sessions.{tenant_header_guard-revoked}
use claude_cloud_ops_tool.Platform.Accounts.{
  Accounts, ResetToken, reset_with, reset_password, consume_reset_token, is_usable, is_user,
  set_password, User, Crypto, signed_in, login, check_credentials, second_factor, throttle_key,
  agent_claims, has_email,
}

-- ASCII
abbrev ascii : Characters
ascii = record { to_upper_case = λ cs. cs; is_space = λ c. c == 32; trim = λ cs. cs }

letter-visible : (v : ℕ) → v < 32 → (letter v == 32) ≡ false
letter-visible v h = ground arith

letter_visible : (c : ℕ) → IsLetter c → (c == 32) ≡ false
letter_visible c (v, h, e) = subst (λ k. (k == 32) ≡ false) (sym e) (letter-visible v h)

ascii-KeepsLetters : KeepsLetters ascii
ascii-KeepsLetters = record { upper = λ cs h. refl; visible = letter_visible }

abbrev five_bytes : List ℕ
five_bytes = 222 ∷ 173 ∷ 190 ∷ 239 ∷ 7 ∷ []

generate_totp_secret_test :
    generate_totp_secret five_bytes ≡ 51 ∷ 50 ∷ 87 ∷ 51 ∷ 53 ∷ 51 ∷ 89 ∷ 72 ∷ []
unfolding generate_totp_secret
generate_totp_secret_test = refl

base32_decode-generate_totp_secret_example :
    base32_decode ascii (generate_totp_secret five_bytes) ≡ five_bytes
base32_decode-generate_totp_secret_example =
    base32_decode-generate_totp_secret ascii ascii-KeepsLetters 1 five_bytes refl (omega arith)

-- Redis as a function.
abbrev Memory : Type 0
Memory = Key → Option Entry

abbrev memory : Redis Memory
memory = record {
  stored = λ s k. s k;
  incr = λ now k s. (
    (counted (live now (s k))).value,
    λ j. if same_key j k then some (counted (live now (s k))) else s j,
  );
  expire = λ now k seconds s.
      λ j. if same_key j k then expiring (now + 1000 * seconds) (live now (s k)) else s j;
  ttl = λ now k s. 0;
  del = λ k s. λ j. if same_key j k then none else s j;
  set_ex = λ now k n seconds s. λ j.
      if same_key j k
      then some (record { value = n; expires_at = some (now + 1000 * seconds) })
      else s j;
}

memory-IsRedis : IsRedis memory
memory-IsRedis = record {
  incr-count = λ now k s. refl;
  stored-incr = λ now k j s. refl;
  stored-expire = λ now k j seconds s. refl;
  stored-del = λ k j s. refl;
  stored-set_ex = λ now k j n seconds s. refl;
}

abbrev nothing : Memory
nothing k = none

abbrev attempts : List Event
attempts =
    attempt 1 "ann"
    ∷ attempt 2 "ann"
    ∷ attempt 3 "bob"
    ∷ attempt 4 "ann"
    ∷ attempt 5 "ann"
    ∷ success "bob"
    ∷ attempt 6 "ann"
    ∷ attempt 7 "ann"
    ∷ attempt 900001 "ann"
    ∷ []

ideal_test : ideal "ann" attempts [] ≡ true ∷ true ∷ true ∷ true ∷ true ∷ false ∷ true ∷ []
unfolding ideal
ideal_test = refl

run-ideal_example : answers_to "ann" (run memory attempts nothing) ≡ ideal "ann" attempts []
run-ideal_example = run-ideal memory memory-IsRedis "ann" attempts [] nothing refl

-- A token that is not encoded.
abbrev pub Token : Type 0
Token = ℕ × (ℕ × Claims)

abbrev pub plain : JsonWebToken Token
plain = record {
  sign = λ now lifetime c. (now, (lifetime, c));
  verify = λ now t.
      if ltb (now / 1000) (t.0 / 1000 + t.1.0)
      then some (record (t.1.1) { iat = some (t.0 / 1000) })
      else none;
}

pub plain-IsJsonWebToken : IsJsonWebToken plain
plain-IsJsonWebToken = record { verify-sign = λ issued lifetime now c. refl }

abbrev pub tenant_a : String
tenant_a = "00000000-0000-0000-0000-00000000000a"

abbrev ann : User
ann = record {
  id = "u1";
  tenant_id = tenant_a;
  email = "ann@example.org";
  name = "Ann";
  password_hash = "pw";
  role = "agent";
  totp_secret_encrypted = some "s";
  totp_enabled = true;
}

tenant_header_guard-revoked_example :
    tenant_header_guard plain memory 70000
      (record {
        authorization = some (bearer (plain.sign 1000 43200 (agent_claims tenant_a ann)));
        x_tenant_id = none;
      })
      (apply_changes memory
        (attempted 60000 "ann" ∷ cleared "ann" ∷ [])
        (revoke_user_sessions memory 50000 "u1" nothing))
    ≡ tenant_header_guard plain memory 70000
        (record { authorization = none; x_tenant_id = none })
        (apply_changes memory
          (attempted 60000 "ann" ∷ cleared "ann" ∷ [])
          (revoke_user_sessions memory 50000 "u1" nothing))
tenant_header_guard-revoked_example =
    tenant_header_guard-revoked plain plain-IsJsonWebToken memory memory-IsRedis 1000 43200 50000
      70000 (agent_claims tenant_a ann) (attempted 60000 "ann" ∷ cleared "ann" ∷ []) nothing none
      (omega arith) (omega arith) (omega arith) (tt, (tt, tt))

-- Passwords in clear, and a digest of zeros.
abbrev clear : Crypto
clear = record {
  characters = ascii;
  to_lower = λ s. s;
  compare = λ password hash. password == hash;
  hash = λ password. password;
  sha256 = λ token. token;
  hmac_sha1 = λ key bytes. 0 ∷ 0 ∷ 0 ∷ 0 ∷ 0 ∷ [];
  encrypt = λ secret. "s";
  decrypt = λ s. [];
}

abbrev zeros : List ℕ
zeros = 48 ∷ 48 ∷ 48 ∷ 48 ∷ 48 ∷ 48 ∷ []

abbrev key : String
key = throttle_key clear tenant_a "ann@example.org"

abbrev tried : Memory
tried = (register_login_attempt memory 60000 key nothing).1

login_test :
    login clear plain memory 43200 60000 tenant_a "ann@example.org" "pw"
      (some zeros)
      (ann ∷ [])
      nothing
    ≡ (
      ok (signed_in (plain.sign 60000 43200 (agent_claims tenant_a ann)) ann),
      clear_login_attempts memory key tried,
    )
unfolding login check_credentials second_factor register_login_attempt hit verify_totp matches_any
    hotp base32_decode
login_test = refl

login-signed_in_example :
    ((register_login_attempt memory 60000 key nothing).0.is_allowed ≡ true)
    × (find (has_email tenant_a "ann@example.org") (ann ∷ []) ≡ some ann)
    × (clear.compare "pw" ann.password_hash ≡ true)
    × (ann.totp_enabled ≡ true → HasCode clear 60000 ann.totp_secret_encrypted (some zeros))
    × (plain.sign 60000 43200 (agent_claims tenant_a ann)
        ≡ plain.sign 60000 43200 (agent_claims tenant_a ann))
    × (clear_login_attempts memory key tried ≡ clear_login_attempts memory key tried)
login-signed_in_example =
    login-signed_in clear plain memory 43200 60000 tenant_a "ann@example.org" "pw" (some zeros)
      (ann ∷ []) nothing (clear_login_attempts memory key tried)
      (plain.sign 60000 43200 (agent_claims tenant_a ann)) ann (omega arith) login_test

abbrev reset_token : ResetToken
reset_token = record {
  id = "t1";
  tenant_id = tenant_a;
  user_id = "u1";
  token_hash = "tok";
  expires_at = 9000;
  used_at = none;
}

abbrev accounts : Accounts
accounts = record { users = ann ∷ []; reset_tokens = reset_token ∷ [] }

abbrev accounts_after : Accounts
accounts_after = reset_with clear 2000 tenant_a "new" reset_token accounts

reset_password_test :
    reset_password clear memory 2000 tenant_a "tok" "new" accounts nothing
    ≡ (ok (tt, accounts_after), revoke_user_sessions memory 2000 "u1" nothing)
unfolding reset_password consume_reset_token
reset_password_test = refl

reset_password-once_example :
    (row : ResetToken) × (find (is_usable clear 2000 tenant_a "tok") accounts.reset_tokens
      ≡ some row)
    × Marked memory 2000 row.user_id (revoke_user_sessions memory 2000 "u1" nothing)
    × (accounts_after.users
        ≡ update_where (is_user tenant_a row.user_id) (set_password clear "new") accounts.users)
    × ((later : ℕ) (again : String) (s2 : Memory)
        → reset_password clear memory later tenant_a "tok" again accounts_after s2
          ≡ (err unauthorized, s2))
reset_password-once_example =
    reset_password-once clear tenant_a "tok" memory memory-IsRedis 2000 "new" accounts
      accounts_after nothing (revoke_user_sessions memory 2000 "u1" nothing) (tt, tt)
      reset_password_test

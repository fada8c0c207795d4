-- ===== src/Platform/Redis.antt =====
-- What the program asks of Redis: counters and markers that expire. The three prefixes of the program's
-- keys (`auth:throttle:`, `auth:revoke:`, `ingest:rate:`) are the constructors of a key.
use claude_cloud_ops_tool.Base.{
  Bool, Option, String, false, if◌then◌else◌, ltb, nat_eq, none, option_eq, some, string_eq, true,
  ℕ, ◌*◌, ◌+◌, ◌==◌, ◌≡◌,
}

pub data Key : Type 0 where
  throttle revoke rate : String → Key

abbrev pub same_key : Key → Key → Bool
same_key (throttle a) (throttle b) = a == b
same_key (throttle a) (revoke b) = false
same_key (throttle a) (rate b) = false
same_key (revoke a) (throttle b) = false
same_key (revoke a) (revoke b) = a == b
same_key (revoke a) (rate b) = false
same_key (rate a) (throttle b) = false
same_key (rate a) (revoke b) = false
same_key (rate a) (rate b) = a == b

-- A number, and the instant from which on the key is gone.
pub record Entry : Type 0 where
  pub value : ℕ
  pub expires_at : Option ℕ

abbrev is_alive : ℕ → Option ℕ → Bool
is_alive now none = true
is_alive now (some t) = ltb now t

-- What a reader sees of an entry.
abbrev pub live : ℕ → Option Entry → Option Entry
live now none = none
live now (some e) = if is_alive now e.expires_at then some e else none

-- INCR starts from nothing at 1 and keeps the time of expiry.
abbrev pub counted : Option Entry → Entry
counted none = record { value = 1; expires_at = none }
counted (some e) = record { value = e.value + 1; expires_at = e.expires_at }

abbrev pub expiring : ℕ → Option Entry → Option Entry
expiring at none = none
expiring at (some e) = some (record e { expires_at = some at })

-- The commands, at an instant in milliseconds. EXPIRE and SET … EX take seconds, and TTL is 0 where
-- Redis answers with a negative number.
pub record Redis (S : Type 0) : Type 0 where
  pub stored : S → Key → Option Entry
  pub incr : ℕ → Key → S → ℕ × S
  pub expire : ℕ → Key → ℕ → S → S
  pub ttl : ℕ → Key → S → ℕ
  pub del : Key → S → S
  pub set_ex : ℕ → Key → ℕ → ℕ → S → S

-- What Redis documents of them. `stored` is what was last written, until DEL.
pub record IsRedis {S : Type 0} (r : Redis S) : Type 0 where
  pub incr-count :
      (now : ℕ) (k : Key) (s : S) → (r.incr now k s).0 ≡ (counted (live now (r.stored s k))).value
  pub stored-incr :
      (now : ℕ) (k j : Key) (s : S)
      → r.stored (r.incr now k s).1 j
        ≡ (if same_key j k then some (counted (live now (r.stored s k))) else r.stored s j)
  pub stored-expire :
      (now : ℕ) (k j : Key) (seconds : ℕ) (s : S)
      → r.stored (r.expire now k seconds s) j ≡ (
          if same_key j k
          then expiring (now + 1000 * seconds) (live now (r.stored s k))
          else r.stored s j)
  pub stored-del :
      (k j : Key) (s : S) → r.stored (r.del k s) j ≡ (if same_key j k then none else r.stored s j)
  pub stored-set_ex :
      (now : ℕ) (k j : Key) (n seconds : ℕ) (s : S)
      → r.stored (r.set_ex now k n seconds s) j ≡ (
          if same_key j k
          then some (record { value = n; expires_at = some (now + 1000 * seconds) })
          else r.stored s j)

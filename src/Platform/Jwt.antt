-- ===== src/Platform/Jwt.antt =====
-- Signed tokens (apps/api/src/modules/platform/auth/jwt.ts) over the library `jsonwebtoken`, which is a
-- parameter. The secret is one and the same in every call and left out.
use claude_cloud_ops_tool.Base.{
  Bool, Option, String, false, if◌then◌else◌, ltb, none, some, true, ℕ, ◌+◌, ◌/◌, ◌≡◌,
}

pub data Kind : Type 0 where
  agent contact device log_source apm_ingest rum_app : Kind

pub record Claims : Type 0 where
  pub sub : String
  pub tenant_id : String
  pub email : String
  pub kind : Kind
  pub role : Option String
  pub resource_id : Option String
  -- In seconds, set when the token is signed.
  pub iat : Option ℕ

-- `jwt.sign` with a lifetime in seconds and `jwt.verify`, at an instant in milliseconds.
pub record JsonWebToken (T : Type 0) : Type 0 where
  pub sign : ℕ → ℕ → Claims → T
  pub verify : ℕ → T → Option Claims

-- What the library documents: a signed token has its instant in seconds, and is refused from its
-- expiry on.
pub record IsJsonWebToken {T : Type 0} (jwt : JsonWebToken T) : Type 0 where
  pub verify-sign :
      (issued lifetime now : ℕ) (c : Claims)
      → jwt.verify now (jwt.sign issued lifetime c) ≡ (
          if ltb (now / 1000) (issued / 1000 + lifetime)
          then some (record c { iat = some (issued / 1000) })
          else none)

abbrev pub is_kind : Kind → Kind → Bool
is_kind agent k = elim k [ agent ↦ true | _ ↦ false ]
is_kind contact k = elim k [ contact ↦ true | _ ↦ false ]
is_kind device k = elim k [ device ↦ true | _ ↦ false ]
is_kind log_source k = elim k [ log_source ↦ true | _ ↦ false ]
is_kind apm_ingest k = elim k [ apm_ingest ↦ true | _ ↦ false ]
is_kind rum_app k = elim k [ rum_app ↦ true | _ ↦ false ]

abbrev pub of_kind : Kind → Option Claims → Option Claims
of_kind k none = none
of_kind k (some c) = if is_kind k c.kind then some c else none

module _ {T : Type 0} (jwt : JsonWebToken T) where
  unfoldable pub verify_jwt : ℕ → T → Option Claims
  verify_jwt now token = jwt.verify now token

  unfoldable pub verify_device_jwt : ℕ → T → Option Claims
  verify_device_jwt now token = of_kind device (jwt.verify now token)

  unfoldable pub verify_log_source_jwt : ℕ → T → Option Claims
  verify_log_source_jwt now token = of_kind log_source (jwt.verify now token)

  unfoldable pub verify_apm_ingest_jwt : ℕ → T → Option Claims
  verify_apm_ingest_jwt now token = of_kind apm_ingest (jwt.verify now token)

  unfoldable pub verify_rum_app_jwt : ℕ → T → Option Claims
  verify_rum_app_jwt now token = of_kind rum_app (jwt.verify now token)

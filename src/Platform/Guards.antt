-- ===== src/Platform/Guards.antt =====
-- The guards of the endpoints (apps/api/src/modules/platform/http/{tenant-header.guard,
-- roles.guard}.ts and ticketing/portal/portal-auth.guard.ts).
pub mod Sessions
use claude_cloud_ops_tool.Base.{
  Bool, List, Option, Result, String, [], contains, err, false, forbidden, if◌then◌else◌, leb,
  length, nat_eq, none, ok, option_eq, some, string_eq, suc, true, unauthorized, zero, ℕ, ◌&&◌,
  ◌==◌, ◌||◌, ◌∷◌,
}
use Prim.Native.Char.{Char, code}
use text.Mathlib.TextBridge.{to_list}
use claude_cloud_ops_tool.Platform.Jwt.{Claims, JsonWebToken, verify_jwt, Kind, of_kind}
use claude_cloud_ops_tool.Platform.Redis.{Redis}
use claude_cloud_ops_tool.Platform.Security.{is_session_revoked}

-- An Authorization header that starts with `Bearer `, with its token, or one that does not.
pub data Authorization (T : Type 0) : Type 0 where
  bearer : T → Authorization T
  another : Authorization T

pub record Request (T : Type 0) : Type 0 where
  pub authorization : Option (Authorization T)
  pub x_tenant_id : Option String

-- What TenantHeaderGuard writes into the request.
pub record Scope : Type 0 where
  pub tenant_id : String
  pub user_id : Option String
  pub user_role : Option String

-- `[0-9a-f]` without regard to case
abbrev pub is_hex : Char → Bool
is_hex c =
    leb 48 (code c) && leb (code c) 57
    || leb 65 (code c) && leb (code c) 70
    || leb 97 (code c) && leb (code c) 102

-- Groups of hexadecimal digits with a dash between two of them.
abbrev pub has_groups : ℕ → List ℕ → List Char → Bool
has_groups zero [] [] = true
has_groups zero [] (c ∷ cs) = false
has_groups zero (n ∷ groups) [] = false
has_groups zero (n ∷ groups) (c ∷ cs) = code c == 45 && has_groups n groups cs
has_groups (suc k) groups [] = false
has_groups (suc k) groups (c ∷ cs) = is_hex c && has_groups k groups cs

-- UUID_RE
abbrev pub is_uuid : String → Bool
is_uuid s = has_groups 8 (4 ∷ 4 ∷ 4 ∷ 12 ∷ []) (to_list s)

abbrev pub token_of : {T : Type 0} → Option (Authorization T) → Option T
token_of none = none
token_of (some another) = none
token_of (some (bearer t)) = some t

abbrev pub header_scope : Option String → Result Scope
header_scope none = err unauthorized
header_scope (some id) =
    if is_uuid id
    then ok (record { tenant_id = id; user_id = none; user_role = none })
    else err unauthorized

module _ {T S : Type 0} (jwt : JsonWebToken T) (r : Redis S) where
  -- The claims that the guard honours.
  unfoldable pub honoured : ℕ → Option (Authorization T) → S → Option Claims
  honoured now authorization s = elim (token_of authorization) [
    | none ↦ none
    | some token ↦ elim (of_kind Kind.agent (verify_jwt jwt now token)) [
      | none ↦ none
      | some c ↦ if is_session_revoked r now c.sub c.iat s then none else some c
    ]
  ]

  unfoldable pub tenant_header_guard : ℕ → Request T → S → Result Scope
  tenant_header_guard now request s = elim (honoured now request.authorization s) [
    | some c ↦ ok (record { tenant_id = c.tenant_id; user_id = some c.sub; user_role = c.role })
    | none ↦ header_scope request.x_tenant_id
  ]

-- `!role`
abbrev pub given_role : Option String → Option String
given_role none = none
given_role (some role) = if role == "" then none else some role

-- `@Roles(...)` of the route and RBAC_REQUIRE_AUTH.
unfoldable pub roles_guard : List String → Bool → Scope → Result (Unit {0})
roles_guard required_roles require_auth scope =
    if length required_roles == 0 then ok tt else elim (given_role scope.user_role) [
      | none ↦ if require_auth then err unauthorized else ok tt
      | some role ↦ if contains required_roles role then ok tt else err forbidden
    ]

-- PortalAuthGuard: the tenant and the contact.
module _ {T : Type 0} (jwt : JsonWebToken T) where
  unfoldable pub portal_auth_guard : ℕ → Option (Authorization T) → Result (String × String)
  portal_auth_guard now authorization = elim (token_of authorization) [
    | none ↦ err unauthorized
    | some token ↦ elim (of_kind Kind.contact (verify_jwt jwt now token)) [
      | none ↦ err unauthorized
      | some c ↦ ok (c.tenant_id, c.sub)
    ]
  ]

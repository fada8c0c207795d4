-- ===== src/Monitoring/Agents.antt =====
-- The tokens of the agents on servers (apps/api/src/modules/monitoring/{agent-tokens.service,
-- agent-token.guard}.ts). A row belongs to the tenant of its policy.
pub mod Queries
pub mod Switch
pub mod Revocation
pub mod Tests
use claude_cloud_ops_tool.Base.{
  Bool, List, Option, Result, String, Tx, [], default_to, err, false, filter, find, gets,
  if◌then◌else◌, is_some, modify, nat_eq, none, not, not_found, ok, option_eq, pure, require, some,
  string_eq, true, unauthorized, update_where, ℕ, ◌&&◌, ◌++◌, ◌==◌, ◌>>=◌, ◌>>◌, ◌∷◌,
}
use claude_cloud_ops_tool.Platform.Jwt.{Claims, JsonWebToken, Kind, verify_device_jwt}
use claude_cloud_ops_tool.Platform.Guards.{Authorization, token_of}

-- `resources`, as far as they are read here.
pub record MonitoredResource : Type 0 where
  pub id : String
  pub tenant_id : String

-- `agent_tokens`
pub record AgentToken : Type 0 where
  pub id : String
  pub tenant_id : String
  pub resource_id : String
  pub label : String
  pub is_enabled : Bool
  pub last_seen_at : Option ℕ
  pub created_at : ℕ

pub record Fleet : Type 0 where
  pub resources : List MonitoredResource
  pub agent_tokens : List AgentToken

-- `CreateAgentTokenDto`
pub record NewAgentToken : Type 0 where
  pub resource_id : String
  pub label : String

-- `UpdateAgentTokenDto`
pub record AgentTokenPatch : Type 0 where
  pub label : Option String
  pub is_enabled : Option Bool

-- What AgentTokenGuard writes into the request.
pub record AgentScope : Type 0 where
  pub tenant_id : String
  pub resource_id : Option String
  pub agent_token_id : String

abbrev pub is_resource : String → String → MonitoredResource → Bool
is_resource tenant id r = r.tenant_id == tenant && r.id == id

abbrev pub is_agent_token : String → String → AgentToken → Bool
is_agent_token tenant id t = t.tenant_id == tenant && t.id == id

-- `signDeviceJwt` takes no address and no role.
abbrev pub device_claims : String → String → String → Claims
device_claims tenant resource id = record {
  sub = id;
  tenant_id = tenant;
  email = "";
  kind = Kind.device;
  role = none;
  resource_id = some resource;
  iat = none;
}

abbrev pub new_agent_token : ℕ → String → NewAgentToken → String → AgentToken
new_agent_token now tenant dto id = record {
  id = id;
  tenant_id = tenant;
  resource_id = dto.resource_id;
  label = dto.label;
  is_enabled = true;
  last_seen_at = none;
  created_at = now;
}

-- The columns that the patch names.
abbrev pub patch_token : AgentTokenPatch → AgentToken → AgentToken
patch_token dto t = record t {
  label = default_to t.label dto.label;
  is_enabled = default_to t.is_enabled dto.is_enabled;
}

-- The row of the token's claims, under the tenant that the token names.
abbrev pub has_claims : Claims → AgentToken → Bool
has_claims c t = is_agent_token c.tenant_id c.sub t && (c.resource_id == some t.resource_id)

-- A missing row, and one that is switched off.
abbrev pub is_switched_on : Option AgentToken → Bool
is_switched_on none = false
is_switched_on (some t) = t.is_enabled

module _ {T : Type 0} (jwt : JsonWebToken T) where
  -- The row with its signed token, which is not stored.
  unfoldable pub create :
      ℕ → ℕ → String → NewAgentToken → String → Fleet → Result ((AgentToken × T) × Fleet)
  create lifetime now tenant dto id = do
    found ← gets (λ db. find (is_resource tenant dto.resource_id) db.resources)
    resource ← require found not_found
    let row = new_agent_token now tenant dto id
    modify (λ db. record db { agent_tokens = db.agent_tokens ++ row ∷ [] })
    pure (row, jwt.sign now lifetime (device_claims tenant dto.resource_id id))

  unfoldable pub agent_token_guard : ℕ → Option (Authorization T) → Fleet → Result AgentScope
  agent_token_guard now authorization db = elim (token_of authorization) [
    | none ↦ err unauthorized
    | some token ↦ elim (verify_device_jwt jwt now token) [
      | none ↦ err unauthorized
      | some c ↦
          if is_switched_on (find (has_claims c) db.agent_tokens)
          then ok (record {
            tenant_id = c.tenant_id;
            resource_id = c.resource_id;
            agent_token_id = c.sub;
          })
          else err unauthorized
    ]
  ]

-- Without a column to set, the row is only read.
unfoldable pub update : String → String → AgentTokenPatch → Tx Fleet (Option AgentToken)
update tenant id dto = do
  found ← gets (λ db. find (is_agent_token tenant id) db.agent_tokens)
  existing ← require found not_found
  if not (is_some dto.label) && not (is_some dto.is_enabled)
      then pure (some existing)
      else (modify (λ db. record db {
        agent_tokens = update_where (is_agent_token tenant id) (patch_token dto) db.agent_tokens;
      })
          >> gets (λ db. find (is_agent_token tenant id) db.agent_tokens))

unfoldable pub remove : String → String → Tx Fleet (Unit {0})
remove tenant id = do
  found ← gets (λ db. find (is_agent_token tenant id) db.agent_tokens)
  row ← require found not_found
  modify (λ db. record db {
    agent_tokens = filter (λ t. not (is_agent_token tenant id t)) db.agent_tokens;
  })

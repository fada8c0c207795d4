-- ===== src/Monitoring/Agents/Tests.antt =====
-- The token of one agent: switched off and on again, and at last removed.
use claude_cloud_ops_tool.Base.{
  Bool, List, [], err, false, none, ok, refl, some, true, unauthorized, ◌++◌, ◌∷◌, ◌≡◌,
}
use claude_cloud_ops_tool.Platform.Jwt.{verify_device_jwt}
use claude_cloud_ops_tool.Platform.Guards.{bearer}
use claude_cloud_ops_tool.Platform.Tests.{Token, plain, plain-IsJsonWebToken, tenant_a}
use claude_cloud_ops_tool.Monitoring.Agents.{
  AgentToken, Fleet, NewAgentToken, agent_token_guard, create, device_claims, new_agent_token,
  update, remove,
}
use claude_cloud_ops_tool.Monitoring.Agents.Switch.{
  TokenChange, created, updated, removed, apply_changes,
}
use claude_cloud_ops_tool.Monitoring.Agents.Revocation.{agent_token_guard-create}

abbrev one_server : Fleet
one_server = record {
  resources = record { id = "r1"; tenant_id = tenant_a } ∷ [];
  agent_tokens = [];
}

abbrev wanted : NewAgentToken
wanted = record { resource_id = "r1"; label = "web" }

abbrev row : AgentToken
row = new_agent_token 5000 tenant_a wanted "t1"

abbrev with_row : Fleet
with_row = record one_server { agent_tokens = row ∷ [] }

abbrev token : Token
token = plain.sign 5000 3600 (device_claims tenant_a "r1" "t1")

abbrev switched : Bool → TokenChange
switched b = updated tenant_a "t1" (record { label = none; is_enabled = some b })

abbrev off_and_on : List TokenChange
off_and_on =
    switched false ∷ created 6000 tenant_a wanted "t2" ∷ switched true ∷ removed tenant_a "t2" ∷ []

create_test : create plain 3600 5000 tenant_a wanted "t1" one_server ≡ ok ((row, token), with_row)
unfolding create
create_test = refl

removed_test :
    agent_token_guard plain 9000
      (some (bearer token))
      (apply_changes plain 3600 (off_and_on ++ removed tenant_a "t1" ∷ []) with_row)
    ≡ err unauthorized
unfolding agent_token_guard verify_device_jwt create update remove
removed_test = refl

agent_token_guard-create_example :
    agent_token_guard plain 9000
      (some (bearer token))
      (apply_changes plain 3600 off_and_on with_row)
    ≡ ok (record { tenant_id = tenant_a; resource_id = some "r1"; agent_token_id = "t1" })
agent_token_guard-create_example =
    agent_token_guard-create plain 3600 plain-IsJsonWebToken 5000 9000 tenant_a "t1" wanted
      off_and_on one_server with_row row token create_test refl (refl, (refl, (refl, (refl, tt))))

-- ===== src/Ticketing/Directory.antt =====
-- The tables that a new ticket is checked against and numbered by (apps/api/src/database/migrations):
-- contacts, ticket types, resources, SLA policies, the working hours of tenants, the counters of
-- ticket numbers, and the agents who watch a ticket.
use claude_cloud_ops_tool.Base.{List, Option, String, [], ℕ}
use claude_cloud_ops_tool.Ticketing.Sla.{BusinessHours, SlaTargets}
use claude_cloud_ops_tool.Ticketing.Values.{FieldDef}

pub record Contact : Type 0 where
  pub id : String
  pub tenant_id : String
  pub name : String
  pub email : Option String

-- A row of `ticket_types`.
pub record TicketType : Type 0 where
  pub id : String
  pub tenant_id : String
  pub default_group_id : Option String
  pub default_sla_policy_id : Option String

-- A row of `resources`.
pub record Resource : Type 0 where
  pub id : String
  pub tenant_id : String

-- A row of `sla_policies`.
pub record SlaPolicy : Type 0 where
  pub id : String
  pub tenant_id : String
  pub targets : SlaTargets

-- A row of `tenants`: its columns for the working hours.
pub record Tenant : Type 0 where
  pub id : String
  pub hours : BusinessHours

-- A row of `ticket_number_counters`.
pub record Counter : Type 0 where
  pub tenant_id : String
  pub next_value : ℕ

-- A row of `ticket_watchers`.
pub record Watcher : Type 0 where
  pub tenant_id : String
  pub ticket_id : String
  pub agent_id : String

pub record Directory : Type 0 where
  pub contacts : List Contact
  pub ticket_types : List TicketType
  pub resources : List Resource
  pub sla_policies : List SlaPolicy
  pub tenants : List Tenant
  pub counters : List Counter
  pub field_defs : List FieldDef
  pub watchers : List Watcher

abbrev pub empty_directory : Directory
empty_directory = record {
  contacts = [];
  ticket_types = [];
  resources = [];
  sla_policies = [];
  tenants = [];
  counters = [];
  field_defs = [];
  watchers = [];
}

-- ===== src/Ticketing/Db.antt =====
-- The tables of the ticketing module (apps/api/src/database/migrations), as the program's queries
-- see them. A query inside `withTenantContext` sees the rows of the current tenant only (row-level
-- security); foreign keys are checked against the rows of all tenants, as PostgreSQL does.
use claude_cloud_ops_tool.Ticketing.Directory.{Directory}
use claude_cloud_ops_tool.Ticketing.Values.{Fields}
use claude_cloud_ops_tool.Base.{
  Bool, Eq, List, Option, String, Tx, [], any, arith, contains, db_error, false, find, gets, modify,
  nat_eq, none, option_eq, require, string_eq, true, update_where, ℕ, ◌&&◌, ◌++◌, ◌==◌, ◌>>=◌, ◌>>◌,
  ◌↔◌, ◌∷◌, ◌≡◌,
}

-- The columns of `tickets` that the activity timeline tracks.
pub data Column : Type 0 where
  status priority platform group_id agent_id ticket_type_id : Column

abbrev pub column_beq : Column → Column → Bool
column_beq status status = true
column_beq priority priority = true
column_beq platform platform = true
column_beq group_id group_id = true
column_beq agent_id agent_id = true
column_beq ticket_type_id ticket_type_id = true
column_beq _ _ = false

pub column_beq_iff : (a b : Column) → (column_beq a b ≡ true) ↔ (a ≡ b)
column_beq_iff a b = ground arith

instance abbrev pub column_eq : Eq Column
column_eq = record { test = column_beq; decides = column_beq_iff }

-- A row of `tickets`. An instant is a number of milliseconds.
pub record Ticket : Type 0 where
  pub id : String
  pub tenant_id : String
  pub ticket_number : ℕ
  pub subject : String
  pub contact_id : String
  pub ticket_type_id : Option String
  pub status : String
  pub priority : String
  pub platform : Option String
  pub group_id : Option String
  pub agent_id : Option String
  pub resource_id : Option String
  pub sla_policy_id : Option String
  pub first_response_due_at : Option ℕ
  pub first_response_at : Option ℕ
  pub resolution_due_at : Option ℕ
  pub resolved_at : Option ℕ
  pub first_response_overdue_notified_at : Option ℕ
  pub resolution_overdue_notified_at : Option ℕ
  pub source : String
  pub source_detail : Option String
  pub tags : List String
  pub custom_fields : Fields
  pub required_skill : Option String
  pub merged_into_id : Option String
  pub created_at : ℕ
  pub updated_at : ℕ

-- A row of `ticket_messages`.
pub record Message : Type 0 where
  pub tenant_id : String
  pub ticket_id : String
  pub type : String
  pub author_type : String
  pub author_id : Option String
  pub body : String
  pub cc : List String

-- A row of `ticket_attachments`.
pub record Attachment : Type 0 where
  pub id : String
  pub tenant_id : String
  pub ticket_id : String

-- A row of `ticket_activities`.
pub record Activity : Type 0 where
  pub tenant_id : String
  pub ticket_id : String
  pub field : Column
  pub old_value : Option String
  pub new_value : Option String
  pub actor_agent_id : Option String

-- What `automation_rules.conditions` and `automation_rules.actions` hold.
pub data ConditionField : Type 0 where
  status priority source subject ticket_type_id group_id platform tags : ConditionField

pub data Operator : Type 0 where
  -- `equals` and `contains`
  equals includes : Operator

pub record AutomationCondition : Type 0 where
  pub field : ConditionField
  pub operator : Operator
  pub value : String

pub data ActionType : Type 0 where
  set_status set_priority set_group set_agent set_platform add_note add_tag : ActionType

pub record AutomationAction : Type 0 where
  pub type : ActionType
  pub value : String

pub data Trigger : Type 0 where
  ticket_created ticket_updated time_based : Trigger

abbrev pub trigger_beq : Trigger → Trigger → Bool
trigger_beq ticket_created ticket_created = true
trigger_beq ticket_updated ticket_updated = true
trigger_beq time_based time_based = true
trigger_beq _ _ = false

pub record AutomationRule : Type 0 where
  pub id : String
  pub tenant_id : String
  pub name : String
  pub trigger : Trigger
  pub position : ℕ
  pub is_active : Bool
  pub conditions : List AutomationCondition
  pub actions : List AutomationAction
  pub time_trigger_minutes : Option ℕ
  pub created_at : ℕ
  pub updated_at : ℕ

-- A row of `automation_rule_applications`.
pub record RuleApplication : Type 0 where
  pub rule_id : String
  pub ticket_id : String

pub data Strategy : Type 0 where
  manual round_robin load_based skill_based : Strategy

pub record Group : Type 0 where
  pub id : String
  pub tenant_id : String
  pub assignment_strategy : Strategy
  pub max_open_tickets_per_agent : Option ℕ

-- A row of `agents`, with the name and the email of its user.
pub record Agent : Type 0 where
  pub id : String
  pub tenant_id : String
  pub group_ids : List String
  pub is_active : Bool
  pub name : String
  pub email : Option String

-- A row of `agent_skills`.
pub record AgentSkill : Type 0 where
  pub tenant_id : String
  pub agent_id : String
  pub skill : String

-- A row of `group_assignment_cursor`.
pub record Cursor : Type 0 where
  pub tenant_id : String
  pub group_id : String
  pub last_agent_id : String

pub record Db : Type 0 where
  pub tickets : List Ticket
  pub messages : List Message
  pub attachments : List Attachment
  pub activities : List Activity
  pub rules : List AutomationRule
  pub applications : List RuleApplication
  pub groups : List Group
  pub agents : List Agent
  pub skills : List AgentSkill
  pub cursors : List Cursor
  pub directory : Directory

-- `WHERE id = …`, under row-level security.
abbrev pub is_ticket : String → String → Ticket → Bool
is_ticket tenant id t = t.tenant_id == tenant && t.id == id

-- UPDATE tickets SET … WHERE id = … RETURNING *
abbrev pub update_ticket : String → String → (Ticket → Ticket) → Tx Db Ticket
update_ticket tenant id f = do
  modify (λ db. record db { tickets = update_where (is_ticket tenant id) f db.tickets })
  row ← gets (λ db. find (is_ticket tenant id) db.tickets)
  require row db_error

abbrev pub insert_activity : Activity → Tx Db (Unit {0})
insert_activity a = modify (λ db. record db { activities = db.activities ++ a ∷ [] })

abbrev pub insert_message : Message → Tx Db (Unit {0})
insert_message m = modify (λ db. record db { messages = db.messages ++ m ∷ [] })

-- The row that `INSERT INTO ticket_messages … 'note', 'system'` adds.
abbrev pub system_note : String → String → String → Message
system_note tenant ticket body = record {
  tenant_id = tenant;
  ticket_id = ticket;
  type = "note";
  author_type = "system";
  author_id = none;
  body = body;
  cc = [];
}

-- The labels of the enumerations that type the columns (CreateTicketingSchema, AddPlatformToTickets).
abbrev pub ticket_status_enum : List String
ticket_status_enum = "new" ∷ "open" ∷ "pending" ∷ "resolved" ∷ "closed" ∷ []

abbrev pub ticket_priority_enum : List String
ticket_priority_enum = "low" ∷ "medium" ∷ "high" ∷ "urgent" ∷ []

abbrev pub ticket_platform_enum : List String
ticket_platform_enum =
    "aws" ∷ "azure" ∷ "alibaba_cloud" ∷ "microsoft_365" ∷ "tittu_marketing_platform" ∷ "other" ∷ []

-- Whether the type or the foreign key of a column accepts a value; identifiers are in the canonical
-- spelling of the type uuid, in small letters. (`ticket_type_id` is not written
-- by the operations that use this test.)
unfoldable pub column_accepts : Db → Column → String → Bool
column_accepts db status v = contains ticket_status_enum v
column_accepts db priority v = contains ticket_priority_enum v
column_accepts db platform v = contains ticket_platform_enum v
column_accepts db group_id v = any (λ g. g.id == v) db.groups
column_accepts db agent_id v = any (λ a. a.id == v) db.agents
column_accepts db ticket_type_id v = false

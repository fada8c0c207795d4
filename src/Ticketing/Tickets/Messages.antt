-- ===== src/Ticketing/Tickets/Messages.antt =====
-- Messages of a ticket and the mail that they start (`addMessage` of apps/api/src/modules/ticketing/
-- tickets.service.ts, sanitize-html.ts and ticket-watchers/ticket-watchers.service.ts). The library
-- that cleans HTML and the regular expressions of JavaScript are a parameter.
use claude_cloud_ops_tool.Base.{
  Bool, List, Option, String, Tx, [], default_to, filter, find, gets, if◌then◌else◌, is_some, map,
  modify, nat_eq, none, not, not_found, option_eq, pure, require, some, string_eq, update_where, ℕ,
  ◌&&◌, ◌++◌, ◌==◌, ◌>>=◌, ◌>>◌, ◌∷◌,
}
use claude_cloud_ops_tool.Ticketing.Directory.{Contact, Watcher}
use claude_cloud_ops_tool.Ticketing.Db.{Agent, Db, Message, Ticket, insert_message, is_ticket}
use claude_cloud_ops_tool.Ticketing.Tickets.Checks.{agents, assert_given, contacts}
use claude_cloud_ops_tool.Ticketing.Tickets.Patch.{agent_email}

pub record Html : Type 0 where
  -- `sanitizeHtml` with the allowed tags, and with none
  pub keep_formatting : String → String
  pub strip_tags : String → String
  -- the three calls of `replace` of `htmlToPlainText`
  pub break_blocks : String → String
  pub break_lines : String → String
  pub collapse_lines : String → String
  pub trim : String → String

module _ (html : Html) where
  abbrev pub sanitize_ticket_body : String → String
  sanitize_ticket_body body = html.keep_formatting body

  abbrev pub html_to_plain_text : String → String
  html_to_plain_text body =
      html.trim (html.collapse_lines (html.strip_tags (html.break_lines (html.break_blocks body))))

-- `AddTicketMessageDto`
pub record NewMessage : Type 0 where
  pub type : String
  pub author_type : String
  pub author_id : Option String
  pub body : String
  pub cc : Option (List String)

-- What `addMessage` starts after the commit.
pub data MessageEffect : Type 0 where
  reply_email :
      (recipient : String) (ticket_number : ℕ) (subject body body_html agent_name : String)
      (cc : List String)
      → MessageEffect
  contact_reply_email :
      (recipient : String) (ticket_number : ℕ) (subject contact_name body : String) → MessageEffect
  watcher_email : (recipient : String) (ticket_number : ℕ) (subject body : String) → MessageEffect
  detect_sentiment : (ticket : String) → MessageEffect

abbrev pub is_by : NewMessage → String → String → Bool
is_by dto type author = dto.type == type && dto.author_type == author

module _ (tenant : String) where
  unfoldable pub contact_of : String → Db → Option Contact
  contact_of id db = find (λ c. c.tenant_id == tenant && c.id == id) db.directory.contacts

  unfoldable pub agent_of : String → Db → Option Agent
  agent_of id db = find (λ a. a.tenant_id == tenant && a.id == id) db.agents

  -- The name of the agent who writes, from a join with the users.
  abbrev pub agent_name : Option String → Db → String
  agent_name none db = "Support"
  agent_name (some id) db = elim (agent_of id db) [
    | none ↦ "Support"
    | some a ↦ if a.name == "" then "Support" else a.name
  ]

  -- `watcherEmails`
  abbrev pub is_watcher : String → Option String → Watcher → Bool
  is_watcher ticket excluded w =
      w.tenant_id == tenant && w.ticket_id == ticket && not (some w.agent_id == excluded)

  abbrev pub emails_of : List Watcher → Db → List String
  emails_of [] db = []
  emails_of (w ∷ ws) db =
      let rest = emails_of ws db in
      elim (agent_email tenant w.agent_id db) [ none ↦ rest | some email ↦ email ∷ rest ]

  unfoldable pub watcher_emails : String → Option String → Db → List String
  watcher_emails ticket excluded db =
      emails_of (filter (is_watcher ticket excluded) db.directory.watchers) db

  -- UPDATE tickets SET first_response_at = now() WHERE id = …
  unfoldable pub mark_responded : ℕ → String → Tx Db (Unit {0})
  mark_responded now id = modify (λ db. record db {
    tickets =
        update_where (is_ticket tenant id) (λ t. record t { first_response_at = some now })
          db.tickets;
  })

  module _ (html : Html) (dto : NewMessage) (t : Ticket) (db : Db) where
    -- The mail of a public reply of an agent.
    unfoldable pub outbound : List MessageEffect
    outbound =
        let safe = sanitize_ticket_body html dto.body in
        elim (contact_of t.contact_id db) [
          | none ↦ []
          | some c ↦ elim c.email [
            | none ↦ []
            | some email ↦
                if email == ""
                then []
                else reply_email email t.ticket_number t.subject (html_to_plain_text html safe) safe
                    (agent_name dto.author_id db) (default_to [] dto.cc)
                  ∷ []
          ]
        ]

    abbrev pub contact_name : String
    contact_name = elim (contact_of t.contact_id db) [ none ↦ "The customer" | some c ↦ c.name ]

    -- The mail to the assigned agent for a reply of a contact.
    unfoldable pub agent_notify : List MessageEffect
    agent_notify = elim t.agent_id [
      | none ↦ []
      | some agent ↦ elim (agent_email tenant agent db) [
        | none ↦ []
        | some email ↦
            if email == ""
            then []
            else contact_reply_email email t.ticket_number t.subject contact_name
                (html_to_plain_text html (sanitize_ticket_body html dto.body))
              ∷ []
      ]
    ]

    -- The mails to the watchers, but the author.
    unfoldable pub watcher_notify : List MessageEffect
    watcher_notify =
        let excluded = if dto.author_type == "agent" then dto.author_id else none in
        map
          (λ email.
            watcher_email email t.ticket_number t.subject
              (html_to_plain_text html (sanitize_ticket_body html dto.body)))
          (watcher_emails t.id excluded db)

    unfoldable pub message_effects : List MessageEffect
    message_effects =
        (if is_by dto "reply" "agent" then outbound else [])
        ++ (if is_by dto "reply" "contact" then agent_notify else [])
        ++ (if dto.type == "reply" then watcher_notify else [])
        ++ (if is_by dto "reply" "contact" then detect_sentiment t.id ∷ [] else [])

module _ (html : Html) (now : ℕ) (tenant : String) where
  -- The row of the INSERT.
  abbrev pub message_row : String → NewMessage → Message
  message_row ticket dto = record {
    tenant_id = tenant;
    ticket_id = ticket;
    type = dto.type;
    author_type = dto.author_type;
    author_id = dto.author_id;
    body = sanitize_ticket_body html dto.body;
    cc = default_to [] dto.cc;
  }

  -- An author that is named is one of the tenant.
  unfoldable pub check_author : NewMessage → Tx Db (Unit {0})
  check_author dto = do
    if dto.author_type == "agent" then assert_given tenant agents dto.author_id else pure tt
    if dto.author_type == "contact" then assert_given tenant contacts dto.author_id else pure tt

  -- `addMessage`
  unfoldable pub add_message : String → NewMessage → Tx Db (Message × List MessageEffect)
  add_message id dto = do
    found ← gets (λ db. find (is_ticket tenant id) db.tickets)
    ticket ← require found not_found
    check_author dto
    insert_message (message_row id dto)
    if is_by dto "reply" "agent" && not (is_some ticket.first_response_at)
        then mark_responded tenant now id
        else pure tt
    effects ← gets (message_effects tenant html dto ticket)
    pure (message_row id dto, effects)

-- ===== src/Ticketing/Intake.antt =====
-- Mail that comes in (apps/api/src/modules/ticketing/email-intake/{process-inbound-email,
-- email-intake.service}.ts). The parser of mails, the mailbox and the regular expressions of stripHtml
-- are parameters; a subject is searched as the list of its character codes.
pub mod Reference
pub mod Threads
use claude_cloud_ops_tool.Base.{
  Bool, List, Option, Result, String, Tx, [], ap, db_error, default_to, err, false, if◌then◌else◌,
  internal_error, leb, ltb, nat_eq, none, ok, option_eq, pure, some, string_eq, throw, true, ℕ,
  ◌&&◌, ◌*◌, ◌+◌, ◌-◌, ◌==◌, ◌^◌, ◌∷◌, ◌≡◌,
}
use Prim.Native.Char.{code}
use claude_cloud_ops_tool.Ticketing.Db.{Db, Ticket, Message}
use claude_cloud_ops_tool.Ticketing.Fields.{Conversions}
use claude_cloud_ops_tool.Ticketing.Sla.{Calendar}
use claude_cloud_ops_tool.Ticketing.Automation.Engine.{TextOps}
use claude_cloud_ops_tool.Ticketing.Tickets.Checks.{InlineContact, NewTicket}
use claude_cloud_ops_tool.Ticketing.Tickets.Create.{create}
use claude_cloud_ops_tool.Ticketing.Tickets.Listing.{find_by_ticket_number}
use claude_cloud_ops_tool.Ticketing.Tickets.Messages.{Html, NewMessage, add_message}

-- What `simpleParser` finds: the first sender, and the parts of the mail.
pub record MailAddress : Type 0 where
  pub name : String
  pub address : String

pub record ParsedMail : Type 0 where
  pub from : Option MailAddress
  pub subject : Option String
  pub plain : Option String
  pub html : Option String

-- `trim`, and the replacements of `stripHtml`.
pub record MailText : Type 0 where
  pub trim : String → String
  pub drop_styles : String → String
  pub drop_tags : String → String
  pub join_spaces : String → String

-- `ProcessInboundEmailResult`
pub record InboundResult : Type 0 where
  pub ticket_id : String
  pub ticket_number : ℕ
  pub is_created : Bool

abbrev pub codes : String → List ℕ
codes String.[] = []
codes (String.◌∷◌ c s) = code c ∷ codes s

-- A letter of ASCII without its case.
abbrev pub fold_case : ℕ → ℕ
fold_case c = if leb 65 c && leb c 90 then c + 32 else c

-- `\[Ticket #`
abbrev pub tag_start : List ℕ
tag_start = 91 ∷ 116 ∷ 105 ∷ 99 ∷ 107 ∷ 101 ∷ 116 ∷ 32 ∷ 35 ∷ []

-- What follows a text that starts with the codes, but for case.
abbrev pub after_prefix : List ℕ → List ℕ → Option (List ℕ)
after_prefix [] cs = some cs
after_prefix (p ∷ ps) [] = none
after_prefix (p ∷ ps) (c ∷ cs) = if fold_case c == p then after_prefix ps cs else none

abbrev pub is_digit_code : ℕ → Bool
is_digit_code c = leb 48 c && leb c 57

-- `(\d+)\]`, with the number so far.
abbrev pub number_in_tag : Option ℕ → List ℕ → Option ℕ
number_in_tag found [] = none
number_in_tag found (c ∷ cs) =
    let more = number_in_tag (some (10 * default_to 0 found + (c - 48))) cs in
    if is_digit_code c then more else (if c == 93 then found else none)

-- A match of TICKET_REFERENCE_RE at the start.
abbrev pub reference_here : List ℕ → Option ℕ
reference_here cs = elim (after_prefix tag_start cs) [
  | none ↦ none
  | some rest ↦ number_in_tag none rest
]

-- The leftmost match.
unfoldable pub reference_in : List ℕ → Option ℕ
reference_in [] = none
reference_in (c ∷ cs) = elim (reference_here (c ∷ cs)) [ some n ↦ some n | none ↦ reference_in cs ]

-- `extractReferencedTicketNumber`
abbrev pub extract_referenced_ticket_number : String → Option ℕ
extract_referenced_ticket_number subject = reference_in (codes subject)

-- `!fromAddress?.address`
abbrev pub sender_of : ParsedMail → Option MailAddress
sender_of mail = elim mail.from [ none ↦ none | some a ↦ if a.address == "" then none else some a ]

module _ (ops : MailText) where
  abbrev pub strip_html : String → String
  strip_html html = ops.trim (ops.join_spaces (ops.drop_tags (ops.drop_styles html)))

  abbrev pub html_body : Option String → String
  html_body none = "(empty message body)"
  html_body (some html) = strip_html html

  abbrev pub extract_body : ParsedMail → String
  extract_body mail = elim mail.plain [
    | none ↦ html_body mail.html
    | some s ↦ if s == "" then html_body mail.html else ops.trim s
  ]

abbrev pub contact_reply : Option String → String → NewMessage
contact_reply author body = record {
  type = "reply";
  author_type = "contact";
  author_id = author;
  body = body;
  cc = none;
}

abbrev pub mailed_ticket : String → MailAddress → NewTicket
mailed_ticket subject sender = record {
  subject = subject;
  contact_id = none;
  contact = some (record {
    name = if sender.name == "" then sender.address else sender.name;
    email = sender.address;
  });
  source = "email";
  source_detail = none;
  ticket_type_id = none;
  group_id = none;
  agent_id = none;
  required_skill = none;
  resource_id = none;
  priority = none;
  platform = none;
  tags = none;
  custom_fields = none;
}

-- A transaction of its own: what it changes stays, whatever comes later.
abbrev pub commit : {A B : Type 0} → Tx Db A → (A → Db → Result B × Db) → Db → Result B × Db
commit m f db = elim (m db) [ ok q ↦ f q.0 q.1 | err e ↦ (err e, db) ]

pub commit-ok :
    {A B : Type 0} (m : Tx Db A) (f : A → Db → Result B × Db) (db : Db) {q : A × Db}
    → m db ≡ ok q
    → commit m f db ≡ f q.0 q.1
commit-ok m f db e = ap (λ (x : Result _). elim x [ ok q ↦ f q.0 q.1 | err c ↦ (err c, db) ]) e

-- `ticket_number` is an `int`: a comparison with a larger number is refused by the database.
abbrev pub find_referenced : String → Option ℕ → Tx Db (Option Ticket)
find_referenced tenant none = pure none
find_referenced tenant (some n) =
    if ltb n (2 ^ 31) then find_by_ticket_number tenant n else throw db_error

module _ (text : TextOps) (js : Conversions) (calendar : Calendar)
    (uuid_le locale_le : String → String → Bool) (html : Html) (ops : MailText) (now : ℕ)
    (tenant : String) where
  -- A reply of the contact on a ticket that is stored.
  abbrev pub thread_onto : Ticket → String → Db → Result InboundResult × Db
  thread_onto t body = commit (add_message html now tenant t.id (contact_reply none body)) (λ _ db.
      (ok (record { ticket_id = t.id; ticket_number = t.ticket_number; is_created = false }), db))

  -- A new ticket with its first message.
  abbrev pub open_ticket :
      String → String → String → MailAddress → String → Db → Result InboundResult × Db
  open_ticket new_contact id subject sender body =
      commit
        (create text js calendar uuid_le locale_le now tenant new_contact id
          (mailed_ticket subject sender))
        (λ t.
          commit (add_message html now tenant t.id (contact_reply (some t.contact_id) body))
            (λ _ db. (
              ok (record { ticket_id = t.id; ticket_number = t.ticket_number; is_created = true }),
              db,
            )))

  abbrev pub thread_or_open :
      String
      → String
      → String
      → MailAddress
      → String
      → Option Ticket
      → Db
      → Result InboundResult × Db
  thread_or_open new_contact id subject sender body none db =
      open_ticket new_contact id subject sender body db
  thread_or_open new_contact id subject sender body (some t) db = thread_onto t body db

  unfoldable pub process_inbound_email :
      String → String → ParsedMail → Db → Result InboundResult × Db
  process_inbound_email new_contact id mail db = elim (sender_of mail) [
    | none ↦ (err internal_error, db)
    | some sender ↦
        let subject = default_to "(no subject)" mail.subject in
        commit (find_referenced tenant (extract_referenced_ticket_number subject))
          (thread_or_open new_contact id subject sender (extract_body ops mail)) db
  ]

-- ===== src/Ticketing/Intake/Threads.antt =====
-- An answer to the mail of a reply comes back to its ticket (apps/api/src/modules/ticketing/
-- email-intake/process-inbound-email.ts).
use claude_cloud_ops_tool.Base.{
  All, Bool, List, Option, String, [], ap, arith, default_to, false, find, ltb, none, ok, refl,
  some, true, ℕ, ◌++◌, ◌<◌, ◌^◌, ◌∙◌, ◌∷◌, ◌≡◌, ◌≢◌,
}
use claude_cloud_ops_tool.Ticketing.Db.{Db, Ticket, is_ticket}
use claude_cloud_ops_tool.Ticketing.Fields.{Conversions}
use claude_cloud_ops_tool.Ticketing.Sla.{Calendar}
use claude_cloud_ops_tool.Ticketing.Automation.Engine.{TextOps}
use claude_cloud_ops_tool.Ticketing.Tickets.Listing.{find_by_ticket_number}
use claude_cloud_ops_tool.Ticketing.Tickets.Messages.{
  Html, add_message, message_row, check_author, message_effects,
}
use claude_cloud_ops_tool.Ticketing.Intake.{
  commit-ok, thread_or_open, ParsedMail, MailAddress, MailText, codes, extract_body, contact_reply,
  find_referenced, thread_onto, process_inbound_email, sender_of, extract_referenced_ticket_number,
  reference_in,
}
use claude_cloud_ops_tool.Ticketing.Intake.Reference.{reply_subject, reference_in-reply_subject}

module _ (text : TextOps) (js : Conversions) (calendar : Calendar)
    (uuid_le locale_le : String → String → Bool) (html : Html) (ops : MailText) (now : ℕ)
    (tenant : String) where
  add_message-contact_reply :
      (t : Ticket) (body : String) (db : Db)
      → find (is_ticket tenant t.id) db.tickets ≡ some t
      → (effects : _) × (add_message html now tenant t.id (contact_reply none body) db
          ≡ ok (
            (message_row html now tenant t.id (contact_reply none body), effects),
            record db {
              messages =
                  db.messages ++ message_row html now tenant t.id (contact_reply none body) ∷ [];
            },
          ))
  unfolding add_message check_author
  add_message-contact_reply t body db found =
      let row = message_row html now tenant t.id (contact_reply none body) in
      (
        message_effects tenant html (contact_reply none body) t
            (record db { messages = db.messages ++ row ∷ [] }),
        rw found refl,
      )

  thread_onto_lem :
      (t : Ticket) (body : String) (db : Db)
      → find (is_ticket tenant t.id) db.tickets ≡ some t
      → thread_onto text js calendar uuid_le locale_le html ops now tenant t body db ≡ (
        ok (record { ticket_id = t.id; ticket_number = t.ticket_number; is_created = false }),
        record db {
          messages = db.messages ++ message_row html now tenant t.id (contact_reply none body) ∷ [];
        },
      )
  thread_onto_lem t body db found =
      commit-ok (add_message html now tenant t.id (contact_reply none body))
        (λ _ db'. (
          ok (record { ticket_id = t.id; ticket_number = t.ticket_number; is_created = false }),
          db',
        ))
        db (add_message-contact_reply t body db found).1

  process_inbound_email-thread_onto :
      (new_contact id : String) (mail : ParsedMail) (sender : MailAddress) (t : Ticket) (db : Db)
      → sender_of mail ≡ some sender
      → find_referenced tenant
          (extract_referenced_ticket_number (default_to "(no subject)" mail.subject))
          db
        ≡ ok (some t, db)
      → process_inbound_email text js calendar uuid_le locale_le html ops now tenant new_contact id
          mail db
        ≡ thread_onto text js calendar uuid_le locale_le html ops now tenant t
            (extract_body ops mail)
            db
  unfolding process_inbound_email
  process_inbound_email-thread_onto new_contact id mail sender t db from found =
      let subject = default_to "(no subject)" mail.subject in
      rw (from, process_inbound_email)
        (commit-ok (find_referenced tenant (extract_referenced_ticket_number subject))
          (thread_or_open text js calendar uuid_le locale_le html ops now tenant new_contact id
            subject sender (extract_body ops mail))
          db found)

  -- If the subject of a mail is that of a reply of an agent on a stored ticket, with no opening bracket
  -- in what stands before it, then whoever sends the mail, it adds its text as a message of the contact
  -- to this ticket, and nothing else changes: no ticket is created.
  pub process_inbound_email-threads :
      (new_contact id subject : String) (before title : List ℕ) (mail : ParsedMail)
      (sender : MailAddress) (t : Ticket) (db : Db)
      → sender_of mail ≡ some sender
      → mail.subject ≡ some subject
      → codes subject ≡ before ++ reply_subject t.ticket_number title
      → All (λ c. c ≢ 91) before
      → t.ticket_number < 2 ^ 31
      → find_by_ticket_number tenant t.ticket_number db ≡ ok (some t, db)
      → find (is_ticket tenant t.id) db.tickets ≡ some t
      → process_inbound_email text js calendar uuid_le locale_le html ops now tenant new_contact id
          mail db
        ≡ (
          ok (record { ticket_id = t.id; ticket_number = t.ticket_number; is_created = false }),
          record db {
            messages =
                db.messages
                ++ message_row html now tenant t.id (contact_reply none (extract_body ops mail))
                  ∷ [];
          },
        )
  process_inbound_email-threads new_contact id subject before title mail sender t db from is_subject
        tagged plain small numbered stored =
      let number : extract_referenced_ticket_number (default_to "(no subject)" mail.subject)
          ≡ some t.ticket_number =
        ap (λ (o : Option String). extract_referenced_ticket_number (default_to "(no subject)" o))
          is_subject
        ∙ ap reference_in tagged
        ∙ reference_in-reply_subject before t.ticket_number title plain in
      let fits : ltb t.ticket_number (2 ^ 31) ≡ true = ground arith in
      let found : find_referenced tenant (some t.ticket_number) db ≡ ok (some t, db) =
        rw fits numbered in
      process_inbound_email-thread_onto new_contact id mail sender t db from
        (ap (λ (o : Option ℕ). find_referenced tenant o db) number ∙ found)
      ∙ thread_onto_lem t (extract_body ops mail) db stored

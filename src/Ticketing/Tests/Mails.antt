-- ===== src/Ticketing/Tests/Mails.antt =====
-- Mail that comes in, on a small table.
use claude_cloud_ops_tool.Base.{[], arith, false, none, ok, refl, some, true, ◌∷◌, ◌≡◌}
use claude_cloud_ops_tool.Ticketing.Tickets.Messages.{message_row}
use claude_cloud_ops_tool.Ticketing.Tickets.Listing.{find_by_ticket_number}
use claude_cloud_ops_tool.Ticketing.Intake.{
  ParsedMail, MailAddress, MailText, codes, reference_in, process_inbound_email, contact_reply,
}
use claude_cloud_ops_tool.Ticketing.Intake.Threads.{process_inbound_email-threads}
use claude_cloud_ops_tool.Ticketing.Sla.Tests.{day_count}
use claude_cloud_ops_tool.Ticketing.Tests.{plain, disk, start}
use claude_cloud_ops_tool.Ticketing.Tests.Desk.{conversions}
use claude_cloud_ops_tool.Ticketing.Tests.Replies.{unmarked}

abbrev untouched : MailText
untouched = record { trim = λ s. s; drop_styles = λ s. s; drop_tags = λ s. s; join_spaces = λ s. s }

abbrev sender : MailAddress
sender = record { name = "Cleo"; address = "cleo@example.org" }

abbrev answer : ParsedMail
answer = record {
  from = some sender;
  subject = some "Re: [Ticket #1] disk full";
  plain = some "still full";
  html = none;
}

reference_in_test : reference_in (codes "AW: [ticket #007] x") ≡ some 7
unfolding reference_in
reference_in_test = refl

untagged_subject_test : reference_in (codes "[Ticket #] [Ticket 7]") ≡ none
unfolding reference_in
untagged_subject_test = refl

numbered : find_by_ticket_number "t" 1 start ≡ ok (some disk, start)
unfolding find_by_ticket_number
numbered = refl

process_inbound_email-threads_example :
    process_inbound_email plain conversions day_count
      (λ a b. true)
      (λ a b. true)
      unmarked
      untouched
      80
      "t"
      "c9"
      "x9"
      answer
      start
    ≡ (
      ok (record { ticket_id = "x1"; ticket_number = 1; is_created = false }),
      record start {
        messages = message_row unmarked 80 "t" "x1" (contact_reply none "still full") ∷ [];
      },
    )
process_inbound_email-threads_example =
    process_inbound_email-threads plain conversions day_count (λ a b. true) (λ a b. true) unmarked
      untouched 80 "t" "c9" "x9" "Re: [Ticket #1] disk full" (codes "Re: ") (codes "disk full")
      answer sender disk start refl refl refl
      (omega arith, (omega arith, (omega arith, (omega arith, tt)))) (omega arith) numbered refl

-- ===== src/Ticketing/Tests/Replies.antt =====
-- Messages and pages of tickets on a small table.
use claude_cloud_ops_tool.Base.{
  All, Bool, List, String, [], arith, filter, find, inr, length, nat_eq, ne-of-==, none, ok,
  option_eq, refl, some, sort_by, string_eq, true, ℕ, ◌++◌, ◌∷◌, ◌≡◌,
}
use claude_cloud_ops_tool.Ticketing.Db.{Db, Message, is_ticket, Ticket}
use claude_cloud_ops_tool.Ticketing.Tickets.Checks.{assert_belongs_to_tenant, belongs}
use claude_cloud_ops_tool.Ticketing.Tickets.Messages.{
  Html, MessageEffect, NewMessage, add_message, agent_notify, agent_of, check_author, contact_of,
  mark_responded, message_effects, outbound, watcher_emails, watcher_notify,
}
use claude_cloud_ops_tool.Ticketing.Tickets.Responses.{
  add_message-private, add_message-response_after, response_after,
}
use claude_cloud_ops_tool.Ticketing.Tickets.Listing.{ListQuery, is_listed, list}
use claude_cloud_ops_tool.Ticketing.Tickets.Pages.{
  IsAsked, IsDescending, listed, read_pages, read_pages_complete,
}
use claude_cloud_ops_tool.Ticketing.Tests.{disk, start}
use claude_cloud_ops_tool.Ticketing.Tests.Desk.{outcome}

-- Text without markup.
abbrev pub unmarked : Html
unmarked = record {
  keep_formatting = λ s. s;
  strip_tags = λ s. s;
  break_blocks = λ s. s;
  break_lines = λ s. s;
  collapse_lines = λ s. s;
  trim = λ s. s;
}

abbrev message : String → NewMessage
message type = record {
  type = type;
  author_type = "agent";
  author_id = some "ann";
  body = "on it";
  cc = none;
}

abbrev nobody : Message
nobody = record {
  tenant_id = "";
  ticket_id = "";
  type = "";
  author_type = "";
  author_id = none;
  body = "";
  cc = [];
}

unfoldable replied : (Message × List MessageEffect) × Db
replied = outcome ((nobody, []), start) (add_message unmarked 70 "t" "x1" (message "reply") start)

replied_ok : add_message unmarked 70 "t" "x1" (message "reply") start ≡ ok (replied.0, replied.1)
unfolding replied add_message check_author assert_belongs_to_tenant belongs mark_responded
    message_effects outbound agent_notify watcher_notify watcher_emails contact_of agent_of
replied_ok = refl

add_message-response_after_example :
    (replied.1.messages ≡ start.messages ++ replied.0.0 ∷ [])
    × (find (is_ticket "t" "x1") replied.1.tickets
        ≡ some (record disk { first_response_at = response_after 70 (message "reply") none }))
    × (find (is_ticket "t" "x2") replied.1.tickets ≡ find (is_ticket "t" "x2") start.tickets)
add_message-response_after_example =
    add_message-response_after unmarked 70 "t" "x1" (message "reply") start disk refl replied.0
      replied.1 replied_ok "t" "x2" (inr (ne-of-== ⦃e = string_eq⦄ "x2" "x1" refl))

unfoldable noted_down : (Message × List MessageEffect) × Db
noted_down = outcome ((nobody, []), start) (add_message unmarked 70 "t" "x1" (message "note") start)

noted_down_ok :
    add_message unmarked 70 "t" "x1" (message "note") start ≡ ok (noted_down.0, noted_down.1)
unfolding noted_down add_message check_author assert_belongs_to_tenant belongs mark_responded
    message_effects outbound agent_notify watcher_notify watcher_emails contact_of agent_of
noted_down_ok = refl

add_message-private_example : noted_down.0.1 ≡ []
add_message-private_example =
    add_message-private unmarked 70 "t" "x1" (message "note") start refl noted_down.0 noted_down.1
      noted_down_ok

abbrev unanswered : ListQuery
unanswered = record {
  status = some "open";
  priority = none;
  platform = none;
  group_id = some "g";
  agent_id = none;
  unassigned = true;
  tag = none;
  overdue = true;
  created_from = some 1;
  created_to = none;
  resolved_from = none;
  resolved_to = none;
  limit = 25;
  offset = 0;
}

list_test : list "t" 70 unanswered start ≡ ok ((disk ∷ [], 1), start)
unfolding list is_listed sort_by
list_test = refl

abbrev small_pages : ListQuery
small_pages = record unanswered { limit = 1 }

read_pages_test : read_pages "t" 70 small_pages 2 0 start ≡ disk ∷ []
unfolding read_pages list is_listed sort_by
read_pages_test = refl

read_pages_complete_example :
    ((p : Ticket → Bool)
      → length (filter p (read_pages "t" 70 small_pages 2 0 start))
        ≡ length (filter p (listed "t" 70 small_pages start)))
    × All (IsAsked "t" small_pages) (read_pages "t" 70 small_pages 2 0 start)
    × IsDescending (read_pages "t" 70 small_pages 2 0 start)
    × ((offset : ℕ)
        → (page : List Ticket) × (list "t" 70 (record small_pages { offset = offset }) start
            ≡ ok ((page, length (listed "t" 70 small_pages start)), start)))
unfolding is_listed
read_pages_complete_example = read_pages_complete "t" 70 small_pages start 2 (omega arith)

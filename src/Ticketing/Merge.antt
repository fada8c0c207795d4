-- ===== src/Ticketing/Merge.antt =====
-- Merging duplicate tickets (`TicketsService.merge`, apps/api/src/modules/ticketing/tickets.service.ts).
-- `of_ℕ` is JavaScript's conversion of a number to text.
pub mod Cycle
use Prim.Native.String
use claude_cloud_ops_tool.Base.{
  Bool, List, String, Tx, [], db_error, default_to, false, find, gets, if◌then◌else◌, is_some,
  modify, nat_eq, not_found, option_eq, pure, require, some, string_eq, true, update_where, ℕ, ◌&&◌,
  ◌++◌, ◌==◌, ◌>>=◌, ◌>>◌, ◌∷◌,
}
use claude_cloud_ops_tool.Ticketing.Db.{
  Db, Ticket, Message, Attachment, is_ticket, insert_message, system_note,
}

module _ (of_ℕ : ℕ → String) where
  infixr 66 ◌&◌
  abbrev ◌&◌ : String → String → String
  s & t = String.◌++◌ s t

  abbrev pub merged_into_text : ℕ → String
  merged_into_text n = "This ticket was merged into #" & of_ℕ n & "."

  -- mergedNumbers.map((n) => `#${n}`).join(', ')
  pub joined : List ℕ → String
  joined [] = ""
  joined (n ∷ []) = "#" & of_ℕ n
  joined (n ∷ rest) = ("#" & of_ℕ n) & ", " & joined rest

  abbrev pub merged_in_text : List ℕ → String
  merged_in_text ns = "Merged in ticket(s): " & joined ns & "."

module _ (of_ℕ : ℕ → String) (now : ℕ) (tenant : String) where
  -- UPDATE … SET ticket_id = $1 WHERE ticket_id = $2
  abbrev pub is_message_of : String → Message → Bool
  is_message_of ticket m = m.tenant_id == tenant && m.ticket_id == ticket

  unfoldable pub carry_over : String → String → Db → Db
  carry_over primary source db = record db {
    messages =
        update_where (is_message_of source) (λ m. record m { ticket_id = primary }) db.messages;
    attachments =
        update_where (λ a. a.tenant_id == tenant && a.ticket_id == source)
          (λ a. record a { ticket_id = primary }) db.attachments;
  }

  -- The UPDATE that closes the source.
  abbrev pub closed_into : String → Ticket → Ticket
  closed_into primary t = record t {
    status = "closed";
    resolved_at = some (default_to now t.resolved_at);
    merged_into_id = some primary;
    updated_at = now;
  }

  unfoldable pub close_source : String → String → Db → Db
  close_source primary source db = record db {
    tickets = update_where (is_ticket tenant source) (closed_into primary) db.tickets;
  }

  -- The body of the loop, for a source that was found and is not merged yet.
  unfoldable pub absorb : Ticket → String → Ticket → Tx Db (List ℕ)
  unfolding carry_over close_source
  absorb primary source_id source = do
    modify (carry_over primary.id source_id)
    modify (close_source primary.id source_id)
    insert_message (system_note tenant source_id (merged_into_text of_ℕ primary.ticket_number))
    pure (source.ticket_number ∷ [])

  -- One round of the loop: the numbers that it adds to `mergedNumbers`.
  unfoldable pub merge_one : Ticket → String → Tx Db (List ℕ)
  merge_one primary source_id = if source_id == primary.id then pure [] else (do
    found ← gets (λ db. find (is_ticket tenant source_id) db.tickets)
    source ← require found not_found
    if is_some source.merged_into_id then pure [] else absorb primary source_id source)

  unfoldable pub merge_each : Ticket → List String → List ℕ → Tx Db (List ℕ)
  merge_each primary [] numbers = pure numbers
  merge_each primary (s ∷ rest) numbers = do
    new ← merge_one primary s
    merge_each primary rest (numbers ++ new)

  abbrev is_empty : List ℕ → Bool
  is_empty [] = true
  is_empty (n ∷ ns) = false

  -- After the loop: the note on the primary, and the row as it is now.
  unfoldable pub finish_merge : String → List ℕ → Tx Db Ticket
  finish_merge primary_id numbers = do
    (if is_empty numbers
        then pure tt
        else insert_message (system_note tenant primary_id (merged_in_text of_ℕ numbers)))
    updated ← gets (λ db. find (is_ticket tenant primary_id) db.tickets)
    require updated db_error

  unfoldable pub merge : String → List String → Tx Db Ticket
  merge primary_id source_ids = do
    found ← gets (λ db. find (is_ticket tenant primary_id) db.tickets)
    primary ← require found not_found
    numbers ← merge_each primary source_ids []
    finish_merge primary_id numbers

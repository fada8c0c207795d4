-- ===== src/Ticketing/Links.antt =====
-- Links between tickets (`TicketLinksService`, apps/api/src/modules/ticketing/ticket-links/
-- ticket-links.service.ts). A link is a directed edge; the links stand in the order of `created_at`.
pub mod Duality
use claude_cloud_ops_tool.Base.{
  Bool, List, Option, String, Tx, [], any, bad_request, db_error, err, false, filter, find, guard,
  if◌then◌else◌, nat_eq, none, not, not_found, ok, option_eq, require, some, string_eq, true, ℕ,
  ◌&&◌, ◌++◌, ◌==◌, ◌>>=◌, ◌>>◌, ◌||◌, ◌∷◌,
}
use claude_cloud_ops_tool.Ticketing.Db.{Ticket, is_ticket}

-- ticket_link_type_enum
pub data LinkType : Type 0 where
  related parent_of : LinkType

abbrev pub link_type_beq : LinkType → LinkType → Bool
link_type_beq related related = true
link_type_beq parent_of parent_of = true
link_type_beq _ _ = false

-- CreateTicketLinkDto.linkType
pub data Requested : Type 0 where
  as_related as_parent_of as_child_of : Requested

-- A row of `ticket_links`.
pub record Link : Type 0 where
  pub id : String
  pub tenant_id : String
  pub from_ticket_id : String
  pub to_ticket_id : String
  pub link_type : LinkType

pub data Relation : Type 0 where
  related parent child : Relation

pub record LinkedTicket : Type 0 where
  pub link_id : String
  pub relation : Relation
  pub ticket_id : String
  pub ticket_number : ℕ
  pub subject : String
  pub status : String

-- The unique index on (from_ticket_id, to_ticket_id, link_type).
abbrev pub same_edge : Link → Link → Bool
same_edge l k =
    l.from_ticket_id == k.from_ticket_id
    && l.to_ticket_id == k.to_ticket_id
    && link_type_beq l.link_type k.link_type

-- The rows of `tickets`, of all tenants, are read only: the state is the table of links.
module _ (tenant : String) (tickets : List Ticket) where
  -- `child_of` is stored as a parent_of edge the other way.
  unfoldable pub edge : String → String → String → Requested → Link
  edge id ticket other asked = elim asked [
    | as_child_of ↦ record {
      id = id;
      tenant_id = tenant;
      from_ticket_id = other;
      to_ticket_id = ticket;
      link_type = LinkType.parent_of;
    }
    | as_parent_of ↦ record {
      id = id;
      tenant_id = tenant;
      from_ticket_id = ticket;
      to_ticket_id = other;
      link_type = LinkType.parent_of;
    }
    | as_related ↦ record {
      id = id;
      tenant_id = tenant;
      from_ticket_id = ticket;
      to_ticket_id = other;
      link_type = LinkType.related;
    }
  ]

  -- The foreign keys of both ends, which do not see the policy of the tenant.
  abbrev pub is_stored : String → Bool
  is_stored id = any (λ t. t.id == id) tickets

  -- INSERT … ON CONFLICT DO NOTHING RETURNING *
  unfoldable pub insert_link : Link → Tx (List Link) Link
  insert_link l links =
      if any (same_edge l) links
      then err bad_request
      else if is_stored l.from_ticket_id && is_stored l.to_ticket_id
      then ok (l, links ++ l ∷ [])
      else err db_error

  unfoldable pub create : String → String → ℕ → Requested → Tx (List Link) Link
  create id ticket number asked = do
    other ←
        require (find (λ t. t.tenant_id == tenant && t.ticket_number == number) tickets) not_found
    guard (not (other.id == ticket)) bad_request
    insert_link (edge id ticket other.id asked)

  -- The ticket at the other end.
  abbrev pub other_end : String → Link → String
  other_end ticket l = if l.from_ticket_id == ticket then l.to_ticket_id else l.from_ticket_id

  unfoldable pub relation_of : String → Link → Relation
  relation_of ticket l = elim l.link_type [
    | LinkType.related ↦ Relation.related
    | LinkType.parent_of ↦ if l.from_ticket_id == ticket then Relation.child else Relation.parent
  ]

  abbrev pub touches : String → Link → Bool
  touches ticket l =
      l.tenant_id == tenant && (l.from_ticket_id == ticket || l.to_ticket_id == ticket)

  -- One link as `list` shows it from a ticket's side, if it is one of the ticket's.
  unfoldable pub linked : String → Link → Option LinkedTicket
  linked ticket l =
      if touches ticket l
      then (elim (find (is_ticket tenant (other_end ticket l)) tickets) [
        | none ↦ none
        | some other ↦ some (record {
          link_id = l.id;
          relation = relation_of ticket l;
          ticket_id = other.id;
          ticket_number = other.ticket_number;
          subject = other.subject;
          status = other.status;
        })
      ])
      else none

  abbrev pub add_some : Option LinkedTicket → List LinkedTicket → List LinkedTicket
  add_some none rows = rows
  add_some (some row) rows = row ∷ rows

  unfoldable pub list : String → List Link → List LinkedTicket
  list ticket [] = []
  list ticket (l ∷ rest) = add_some (linked ticket l) (list ticket rest)

  unfoldable pub remove : String → Tx (List Link) (Unit {0})
  remove id links =
      if any (λ l. l.tenant_id == tenant && l.id == id) links
      then ok (tt, filter (λ l. not (l.tenant_id == tenant && l.id == id)) links)
      else err not_found

-- ===== src/Ticketing/Links/Duality.antt =====
-- A link as both of its tickets show it (apps/api/src/modules/ticketing/ticket-links/
-- ticket-links.service.ts).
use claude_cloud_ops_tool.Base.{
  ==-of-ne, ==_refl, List, Option-cases, String, [], ap, arith, false, find, inl, inr, nat_eq,
  ne-of-==, ok, option_eq, refl, some, string_eq, sym, true, ◌&&◌, ◌++◌, ◌==◌, ◌∙◌, ◌∷◌, ◌≡◌,
}
use claude_cloud_ops_tool.Ticketing.Db.{Ticket, is_ticket}
use claude_cloud_ops_tool.Ticketing.Links.{
  Requested, as_related, as_parent_of, as_child_of, Link, Relation, LinkedTicket, edge, insert_link,
  create, linked, relation_of, list, touches, other_end,
}

-- What the ticket that asked for the link has at the other end, and what the other one has.
abbrev pub here : Requested → Relation
here as_related = Relation.related
here as_parent_of = Relation.child
here as_child_of = Relation.parent

abbrev pub there : Requested → Relation
there as_related = Relation.related
there as_parent_of = Relation.parent
there as_child_of = Relation.child

abbrev pub shown : String → Relation → Ticket → LinkedTicket
shown id relation t = record {
  link_id = id;
  relation = relation;
  ticket_id = t.id;
  ticket_number = t.ticket_number;
  subject = t.subject;
  status = t.status;
}

module _ (tenant : String) (tickets : List Ticket) where
  list-append :
      (ticket : String) (links : List Link) (l : Link)
      → list tenant tickets ticket (links ++ l ∷ [])
        ≡ list tenant tickets ticket links ++ list tenant tickets ticket (l ∷ [])
  unfolding list
  list-append ticket [] l = refl
  list-append ticket (k ∷ rest) l = elim (Option-cases (linked tenant tickets ticket k)) [
    | inl t ↦ rw t (list-append ticket rest l)
    | inr (row, t) ↦ rw t (ap (λ rows. row ∷ rows) (list-append ticket rest l))
  ]

  list_one :
      (ticket : String) (l : Link) (other : Ticket)
      → touches tenant tickets ticket l ≡ true
      → find (is_ticket tenant (other_end tenant tickets ticket l)) tickets ≡ some other
      → list tenant tickets ticket (l ∷ [])
        ≡ shown l.id (relation_of tenant tickets ticket l) other ∷ []
  unfolding list linked
  list_one ticket l other mine found = rw mine (rw found refl)

  module _ (id : String) (a b : Ticket) (apart : (b.id == a.id) ≡ false) where
    abbrev edge_of : Requested → Link
    edge_of = edge tenant tickets id a.id b.id

    apart_sym : (a.id == b.id) ≡ false
    apart_sym = ==-of-ne a.id b.id (λ e. ne-of-== b.id a.id apart (sym e))

    edge_here :
        (asked : Requested)
        → find (is_ticket tenant b.id) tickets ≡ some b
        → list tenant tickets a.id (edge_of asked ∷ []) ≡ shown id (here asked) b ∷ []
    unfolding edge relation_of
    edge_here as_related hb =
        list_one a.id (edge_of as_related) b (ground (arith, ==_refl tenant, ==_refl a.id))
          (rw (==_refl a.id) hb)
    edge_here as_parent_of hb =
        list_one a.id (edge_of as_parent_of) b (ground (arith, ==_refl tenant, ==_refl a.id))
          (rw (==_refl a.id) hb)
        ∙ rw (==_refl a.id) refl
    edge_here as_child_of hb =
        list_one a.id (edge_of as_child_of) b (ground (arith, ==_refl tenant, ==_refl a.id))
          (rw apart hb)
        ∙ rw apart refl

    edge_there :
        (asked : Requested)
        → find (is_ticket tenant a.id) tickets ≡ some a
        → list tenant tickets b.id (edge_of asked ∷ []) ≡ shown id (there asked) a ∷ []
    unfolding edge relation_of
    edge_there as_related ha =
        list_one b.id (edge_of as_related) a (ground (arith, ==_refl tenant, ==_refl b.id))
          (rw apart_sym ha)
    edge_there as_parent_of ha =
        list_one b.id (edge_of as_parent_of) a (ground (arith, ==_refl tenant, ==_refl b.id))
          (rw apart_sym ha)
        ∙ rw apart_sym refl
    edge_there as_child_of ha =
        list_one b.id (edge_of as_child_of) a (ground (arith, ==_refl tenant, ==_refl b.id))
          (rw (==_refl b.id) ha)
        ∙ rw (==_refl b.id) refl

  -- What a committed `create` has done.
  create-new :
      (id : String) (a b : Ticket) (asked : Requested) (links links' : List Link) (l : Link)
      → find (λ t. t.tenant_id == tenant && t.ticket_number == b.ticket_number) tickets ≡ some b
      → create tenant tickets id a.id b.ticket_number asked links ≡ ok (l, links')
      → ((b.id == a.id) ≡ false) × (links' ≡ links ++ edge tenant tickets id a.id b.id asked ∷ [])
  unfolding create insert_link
  create-new id a b asked links links' l number e = ground (arith, number, e)

  -- If a stored ticket is linked with another stored one, found by its number, and the link is new, then
  -- the list of the first ends with the second in the relation that was asked for, the list of the
  -- second ends with the first in the inverse relation, and the lists before are as they were.
  pub create-Duality :
      (id : String) (a b : Ticket) (asked : Requested) (links links' : List Link) (l : Link)
      → find (is_ticket tenant a.id) tickets ≡ some a
      → find (is_ticket tenant b.id) tickets ≡ some b
      → find (λ t. t.tenant_id == tenant && t.ticket_number == b.ticket_number) tickets ≡ some b
      → create tenant tickets id a.id b.ticket_number asked links ≡ ok (l, links')
      → (list tenant tickets a.id links'
          ≡ list tenant tickets a.id links ++ shown id (here asked) b ∷ [])
        × (list tenant tickets b.id links'
            ≡ list tenant tickets b.id links ++ shown id (there asked) a ∷ [])
  create-Duality id a b asked links links' l ha hb number e =
      let (apart, rows) = create-new id a b asked links links' l number e in
      let new = edge tenant tickets id a.id b.id asked in
      (
        ap (list tenant tickets a.id) rows
            ∙ list-append a.id links new
            ∙ ap (λ x. list tenant tickets a.id links ++ x) (edge_here id a b apart asked hb),
        ap (list tenant tickets b.id) rows
            ∙ list-append b.id links new
            ∙ ap (λ x. list tenant tickets b.id links ++ x) (edge_there id a b apart asked ha),
      )

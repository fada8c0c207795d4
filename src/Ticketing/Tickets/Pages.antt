-- ===== src/Ticketing/Tickets/Pages.antt =====
-- The pages of a list (`list` of apps/api/src/modules/ticketing/tickets.service.ts).
use claude_cloud_ops_tool.Base.{
  All, All-filter, All-imp, All-of_every, Bool, IsOrdered, List, Option-cases, Result, String, [],
  ap, arith, drop, eq-of-==, err, false, filter, inl, inr, length, length-filter-sort_by,
  length-sort_by, nat_eq, none, ok, option_eq, refl, some, sort_by, sort_by-All, sort_by-IsOrdered,
  string_eq, subst, suc, sym, take, true, zero, ℕ, ◌*◌, ◌++◌, ◌+◌, ◌==◌, ◌∙◌, ◌∷◌, ◌≡◌, ◌≤◌,
}
use claude_cloud_ops_tool.Ticketing.Db.{Db, Ticket}
use claude_cloud_ops_tool.Ticketing.Tickets.Listing.{ListQuery, is_listed, later_number, list}

module _ {A : Type 0} where
  take-drop_all : (n k : ℕ) (xs : List A) → length xs ≤ n → take n (drop k xs) ≡ drop k xs
  take-drop_all zero zero [] h = refl
  take-drop_all zero (suc k) [] h = refl
  take-drop_all zero k (x ∷ xs) h = absurd (omega arith)
  take-drop_all (suc n) zero [] h = refl
  take-drop_all (suc n) zero (x ∷ xs) h = ap (λ l. x ∷ l) (take-drop_all n zero xs (omega arith))
  take-drop_all (suc n) (suc k) [] h = refl
  take-drop_all (suc n) (suc k) (x ∷ xs) h = take-drop_all (suc n) k xs (omega arith)

  take_nil : (n : ℕ) → take {A = A} n [] ≡ []
  take_nil zero = refl
  take_nil (suc n) = refl

  -- Two pieces of a list, one after the other.
  take-drop-append :
      (n m k : ℕ) (xs : List A)
      → take n (drop k xs) ++ take m (drop (k + n) xs) ≡ take (n + m) (drop k xs)
  take-drop-append n m (suc k) [] =
      let later : suc k + n ≡ suc (k + n) = omega arith in
      rw (later, take_nil n, take_nil m, take_nil (n + m)) refl
  take-drop-append n m (suc k) (x ∷ xs) =
      let later : suc k + n ≡ suc (k + n) = omega arith in rw later (take-drop-append n m k xs)
  take-drop-append zero m zero xs = let none_taken : 0 + m ≡ m = omega arith in rw none_taken refl
  take-drop-append (suc n) m zero [] =
      let here : 0 + suc n ≡ suc (0 + n) = omega arith in
      rw (here, take_nil m, take_nil (suc n + m)) refl
  take-drop-append (suc n) m zero (x ∷ xs) =
      let more : suc n + m ≡ suc (n + m) = omega arith in
      let here : 0 + suc n ≡ suc (0 + n) = omega arith in
      rw (more, here) (ap (λ l. x ∷ l) (take-drop-append n m zero xs))

-- The tickets of a page that is read.
abbrev pub items_of : Result ((List Ticket × ℕ) × Db) → List Ticket
items_of (err e) = []
items_of (ok r) = r.0.0

-- A number of pages, from an offset on, one after another.
unfoldable pub read_pages : String → ℕ → ListQuery → ℕ → ℕ → Db → List Ticket
read_pages tenant now q zero offset db = []
read_pages tenant now q (suc n) offset db =
    items_of (list tenant now (record q { offset = offset }) db)
    ++ read_pages tenant now q n (offset + q.limit) db

-- What a query asks of a ticket, but for the tag, the platform, the group and the due dates.
pub record IsAsked (tenant : String) (q : ListQuery) (t : Ticket) : Type 0 where
  pub of_tenant : t.tenant_id ≡ tenant
  pub has_status : (v : String) → q.status ≡ some v → t.status ≡ v
  pub has_priority : (v : String) → q.priority ≡ some v → t.priority ≡ v
  pub has_agent : (v : String) → q.agent_id ≡ some v → t.agent_id ≡ some v
  pub is_unassigned : q.unassigned ≡ true → t.agent_id ≡ none
  pub not_before : (v : ℕ) → q.created_from ≡ some v → v ≤ t.created_at
  pub not_after : (v : ℕ) → q.created_to ≡ some v → t.created_at ≤ v
  pub resolved_since :
      (v : ℕ) → q.resolved_from ≡ some v → (at : ℕ) × (t.resolved_at ≡ some at) × (v ≤ at)
  pub not_closed : q.overdue ≡ true → (t.status == "closed") ≡ false

is_listed-IsAsked :
    (tenant : String) (now : ℕ) (q : ListQuery) (t : Ticket)
    → is_listed tenant now q t ≡ true
    → IsAsked tenant q t
unfolding is_listed
is_listed-IsAsked tenant now q t h = record {
  of_tenant = eq-of-== t.tenant_id tenant (ground arith);
  has_status = λ v e. eq-of-== t.status v (ground arith);
  has_priority = λ v e. eq-of-== t.priority v (ground arith);
  has_agent = λ v e. elim (Option-cases t.agent_id) [
    | inl missing ↦ absurd (ground arith)
    | inr (a, found) ↦ let same = eq-of-== a v (ground arith) in found ∙ ap some same
  ];
  is_unassigned = λ e. elim (Option-cases t.agent_id) [
    | inl missing ↦ missing
    | inr (a, found) ↦ absurd (ground arith)
  ];
  not_before = λ v e. ground arith;
  not_after = λ v e. ground arith;
  resolved_since = λ v e. elim (Option-cases t.resolved_at) [
    | inl missing ↦ absurd (ground arith)
    | inr (at, found) ↦ (at, found, ground arith)
  ];
  not_closed = λ e. ground arith;
}

-- No ticket after one of a lower number.
abbrev pub IsDescending : List Ticket → Type 0
IsDescending [] = Unit
IsDescending (t ∷ ts) = All (λ u. u.ticket_number ≤ t.ticket_number) ts × IsDescending ts

IsOrdered-IsDescending : (ts : List Ticket) → IsOrdered later_number ts → IsDescending ts
IsOrdered-IsDescending [] h = tt
IsOrdered-IsDescending (t ∷ ts) h = (
  All-imp (λ u. later_number t u ≡ true) (λ u. u.ticket_number ≤ t.ticket_number)
      (λ u e. ground arith) ts h.0,
  IsOrdered-IsDescending ts h.1,
)

module _ (tenant : String) (now : ℕ) (q : ListQuery) (db : Db) where
  abbrev pub listed : List Ticket
  listed = filter (is_listed tenant now q) db.tickets

  items_of-list :
      (offset : ℕ)
      → items_of (list tenant now (record q { offset = offset }) db)
        ≡ take q.limit (drop offset (sort_by later_number listed))
  unfolding list is_listed
  items_of-list offset = refl

  read_pages-take :
      (n offset : ℕ)
      → read_pages tenant now q n offset db
        ≡ take (n * q.limit) (drop offset (sort_by later_number listed))
  unfolding read_pages
  read_pages-take zero offset = let nothing : 0 * q.limit ≡ 0 = omega arith in rw nothing refl
  read_pages-take (suc n) offset =
      let more : suc n * q.limit ≡ q.limit + n * q.limit = ground arith in
      rw (items_of-list offset, read_pages-take n (offset + q.limit), more)
        (take-drop-append q.limit (n * q.limit) offset (sort_by later_number listed))

  listed-IsAsked : All (IsAsked tenant q) listed
  listed-IsAsked =
      All-imp (λ t. Unit × (is_listed tenant now q t ≡ true)) (IsAsked tenant q)
        (λ t h. is_listed-IsAsked tenant now q t h.1) listed
        (All-filter (λ t. Unit {0}) (is_listed tenant now q) db.tickets
          (All-of_every (λ t. Unit {0}) (λ t. tt) db.tickets))

  -- With as many pages as the total needs at the limit of a query, reading one page after the other
  -- gives every ticket that the query asks for as often as the table has it, whatever test it is
  -- counted by, and no other ticket. Each is of the tenant, has the status, priority and agent that the
  -- query names, was created in its span and resolved no earlier than it says, has no agent if it asks
  -- for unassigned tickets, and is not closed if it asks for overdue ones. No ticket stands after one
  -- of a lower number. Each page comes with the total, and leaves the tables as they were.
  pub read_pages_complete :
      (n : ℕ)
      → length listed ≤ n * q.limit
      → ((p : Ticket → Bool)
          → length (filter p (read_pages tenant now q n 0 db)) ≡ length (filter p listed))
        × All (IsAsked tenant q) (read_pages tenant now q n 0 db)
        × IsDescending (read_pages tenant now q n 0 db)
        × ((offset : ℕ)
            → (page : List Ticket) × (list tenant now (record q { offset = offset }) db
                ≡ ok ((page, length listed), db)))
  unfolding list is_listed
  read_pages_complete n enough =
      let whole : read_pages tenant now q n 0 db ≡ sort_by later_number listed =
        read_pages-take n 0
        ∙ take-drop_all (n * q.limit) 0 (sort_by later_number listed)
            (subst (λ k. k ≤ n * q.limit) (sym (length-sort_by later_number listed)) enough) in
      (
        λ p. ap (λ l. length (filter p l)) whole ∙ length-filter-sort_by later_number p listed,
        subst (All (IsAsked tenant q)) (sym whole)
            (sort_by-All later_number (IsAsked tenant q) listed listed-IsAsked),
        subst IsDescending (sym whole) (
            IsOrdered-IsDescending (sort_by later_number listed) (
              sort_by-IsOrdered later_number (λ x y e. ground arith) (λ x y z e f. ground arith)
                listed)),
        λ offset. (take q.limit (drop offset (sort_by later_number listed)), refl),
      )

-- ===== src/Ticketing/Assignment/Load.antt =====
-- Whom auto-assignment may pick (apps/api/src/modules/ticketing/assignment/assignment.service.ts).
use claude_cloud_ops_tool.Base.{
  All, All-contains_self, All-filter, All-head?, Bool, Bool-cases, List, Option, String, [], arith,
  contains, filter, head?-sort_by-least, inl, inr, ltb, nat_eq, option_eq, some, sort_by,
  sort_by-All, string_eq, true, ℕ, ◌&&◌, ◌==◌, ◌||◌, ◌∷◌, ◌≡◌, ◌≤◌,
}
use claude_cloud_ops_tool.Ticketing.Assignment.{under_cap, least_loaded}

-- Among the agents below the cap, the one picked by load has the fewest open tickets.
pub record IsLeast (ids : List String) (counts : String → ℕ) (cap : Option ℕ) (a : String)
    : Type 0 where
  pub listed : contains ids a ≡ true
  pub below_cap : under_cap cap (counts a) ≡ true
  pub least : All (λ b. under_cap cap (counts b) ≡ true → counts a ≤ counts b) ids

least_over_filter :
    (ids : List String) (counts : String → ℕ) (cap : Option ℕ) (a : String)
    → All (λ b. counts a ≤ counts b) (filter (λ id. under_cap cap (counts id)) ids)
    → All (λ b. under_cap cap (counts b) ≡ true → counts a ≤ counts b) ids
least_over_filter [] counts cap a h = tt
least_over_filter (b ∷ ids) counts cap a h = elim (Bool-cases (under_cap cap (counts b))) [
  | inl t ↦
      let k : (counts a ≤ counts b)
          × All (λ b. counts a ≤ counts b) (filter (λ id. under_cap cap (counts id)) ids) =
        rw t at h in
      (λ _. k.0, least_over_filter ids counts cap a k.1)
  | inr t ↦ (λ u. absurd (cc), least_over_filter ids counts cap a (rw t at h))
]

module _ (uuid_le locale_le : String → String → Bool) where
  -- The agent picked by load is one of those given, below the cap, and has the fewest open tickets
  -- of all that are below the cap.
  pub least_loaded-IsLeast :
      (ids : List String) (counts : String → ℕ) (cap : Option ℕ) (a : String)
      → least_loaded uuid_le locale_le ids counts cap ≡ some a
      → IsLeast ids counts cap a
  unfolding least_loaded
  least_loaded-IsLeast ids counts cap a e =
      let order = λ (x : String) (y : String).
        ltb (counts x) (counts y) || (counts x == counts y && locale_le x y) in
      let test = λ (id : String). under_cap cap (counts id) in
      let kept = All-filter (λ b. contains ids b ≡ true) test ids (All-contains_self ids) in
      let chosen =
        All-head? (λ b. (contains ids b ≡ true) × (test b ≡ true)) (sort_by order (filter test ids))
          (sort_by-All order (λ b. (contains ids b ≡ true) × (test b ≡ true)) (filter test ids)
            kept)
          e in
      record {
        listed = chosen.0;
        below_cap = chosen.1;
        least = least_over_filter ids counts cap a (
            head?-sort_by-least order counts (λ x y h. ground arith) (λ x y h. ground arith)
              (filter test ids) a e);
      }

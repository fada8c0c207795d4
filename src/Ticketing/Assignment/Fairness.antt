-- ===== src/Ticketing/Assignment/Fairness.antt =====
-- Round-robin assignment visits the agents of a group in turn
-- (apps/api/src/modules/ticketing/assignment/assignment.service.ts).
use native.Mathlib.Nat.{mod-lt, mod-eq_of_lt, mod-add-mod, add-zero, zero-add}
use claude_cloud_ops_tool.Base.{
  ==_refl, >>=-of-ok, Bool-cases, IsDistinct, List, Option, String, Tx, any, ap, arith, default_to,
  find, find-append_new, find-of_any, find-update_where, get_elem?, get_elem?-of_lt,
  index_of-get_elem?, inl, inr, length, nat_eq, none, ok, option_eq, refl, some, string_eq, suc,
  sym, zero, ℕ, ◌%◌, ◌+◌, ◌<◌, ◌>>=◌, ◌∙◌, ◌∷◌, ◌≡◌,
}
use claude_cloud_ops_tool.Ticketing.Db.{Db, Cursor}
use claude_cloud_ops_tool.Ticketing.Assignment.{is_cursor, upsert_cursor, next_index, round_robin}

module _ (tenant group : String) where
  abbrev pub cursor_of : Db → Option Cursor
  cursor_of db = find (is_cursor tenant group) db.cursors

  -- The cursor points at the agent with index `i`.
  abbrev pub PointsAt : List String → ℕ → Db → Type 0
  PointsAt ids i db =
      (c : Cursor) × (cursor_of db ≡ some c) × (get_elem? ids i ≡ some c.last_agent_id)

  upsert_cursor-cursor_of :
      (chosen : String) (db : Db)
      → (c : Cursor) × (cursor_of (upsert_cursor tenant group chosen db) ≡ some c)
        × (c.last_agent_id ≡ chosen)
  unfolding upsert_cursor
  upsert_cursor-cursor_of chosen db = elim (Bool-cases (any (is_cursor tenant group) db.cursors)) [
    | inl there ↦
        let (c, found) = find-of_any (is_cursor tenant group) db.cursors there in
        (
          record c { last_agent_id = chosen },
          rw there (
              find-update_where (is_cursor tenant group) (λ c. record c { last_agent_id = chosen })
                (λ c h. h) db.cursors found),
          refl,
        )
    | inr absent ↦
        let c : Cursor = record { tenant_id = tenant; group_id = group; last_agent_id = chosen } in
        (
          c,
          rw absent (
              find-append_new (is_cursor tenant group) db.cursors c absent
                (rw (==_refl tenant, ==_refl group))),
          refl,
        )
  ]

  module _ (a : String) (rest : List String) where
    abbrev ids : List String
    ids = a ∷ rest

    -- One turn assigns the agent at the next index, and moves the cursor to it.
    round_robin-PointsAt :
        (db : Db) (i : ℕ)
        → next_index (cursor_of db) ids ≡ i
        → i < length ids
        → (db' : Db) × (round_robin tenant group ids db ≡ ok (get_elem? ids i, db'))
          × PointsAt ids i db'
    unfolding round_robin
    round_robin-PointsAt db i next bound =
        let (chosen, at) = get_elem?-of_lt ids i bound in
        let (c, found, last) = upsert_cursor-cursor_of chosen db in
        let e : get_elem? ids (next_index (cursor_of db) ids) ≡ some chosen =
          ap (get_elem? ids) next ∙ at in
        (
          upsert_cursor tenant group chosen db,
          ap (λ o. ok (o, upsert_cursor tenant group (default_to "" o) db)) e
              ∙ ap (λ o. ok (o, upsert_cursor tenant group chosen db)) (sym at),
          (c, found, at ∙ ap some (sym last)),
        )

    -- The result of the last of k + 1 turns.
    abbrev pub nth_turn : ℕ → Tx Db (Option String)
    nth_turn zero = round_robin tenant group ids
    nth_turn (suc k) = round_robin tenant group ids >>= λ _. nth_turn k

    next_index-PointsAt :
        (db : Db) (i : ℕ)
        → IsDistinct ids
        → PointsAt ids i db
        → next_index (cursor_of db) ids ≡ (i + 1) % length ids
    unfolding next_index
    next_index-PointsAt db i distinct (c, found, at) =
        rw (found, next_index) (rw (index_of-get_elem? ids i distinct at))

    -- k turns later the index has moved on by k, modulo the number of agents.
    nth_turn-next :
        (k : ℕ) (db : Db) (i : ℕ)
        → IsDistinct ids
        → next_index (cursor_of db) ids ≡ i
        → i < length ids
        → (db' : Db) × (nth_turn k db ≡ ok (get_elem? ids ((i + k) % length ids), db'))
    nth_turn-next zero db i distinct next bound =
        let (db', turn, points) = round_robin-PointsAt db i next bound in
        let same : i ≡ (i + 0) % length ids = sym (rw add-zero (mod-eq_of_lt bound)) in
        (db', turn ∙ ap (λ j. ok (get_elem? ids j, db')) same)
    nth_turn-next (suc k) db i distinct next bound =
        let n : ℕ = length ids in
        let (db1, turn, points) = round_robin-PointsAt db i next bound in
        let (db2, later) =
          nth_turn-next k db1 ((i + 1) % n) distinct (next_index-PointsAt db1 i distinct points)
            (mod-lt (i + 1) (omega arith)) in
        let same : ((i + 1) % n + k) % n ≡ (i + suc k) % n =
          mod-add-mod (i + 1) n k ∙ ap (λ j. j % n) (omega arith) in
        (
          db2,
          >>=-of-ok (round_robin tenant group ids) (λ _. nth_turn k) db turn
              ∙ later
              ∙ ap (λ j. ok (get_elem? ids j, db2)) same,
        )

    -- In a group with no cursor yet, and no repetition among its agents, the turn number k (from 0)
    -- assigns the agent at index k modulo the number of agents.
    pub round_robin-cycles :
        (k : ℕ) (db : Db)
        → IsDistinct ids
        → cursor_of db ≡ none
        → (db' : Db) × (nth_turn k db ≡ ok (get_elem? ids (k % length ids), db'))
    unfolding next_index
    round_robin-cycles k db distinct absent =
        let (db', turns) = nth_turn-next k db 0 distinct (rw (absent, next_index)) (omega arith) in
        (db', rw zero-add at turns)

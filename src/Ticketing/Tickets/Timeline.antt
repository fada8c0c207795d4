-- ===== src/Ticketing/Tickets/Timeline.antt =====
-- The timeline explains what `update` changes (apps/api/src/modules/ticketing/tickets.service.ts).
use mathlib.Core.Path.{fun_ext}
use claude_cloud_ops_tool.Base.{
  All, All-both, All-imp, Bool-cases, List, Option, Option-cases, String, [], ap, arith, eq-of-==,
  false, inl, inr, nat_eq, ne-of-==, none, option_eq, refl, some, string_eq, subst, sym, ℕ, ◌==◌,
  ◌∙◌, ◌∷◌, ◌≡◌,
}
use claude_cloud_ops_tool.Ticketing.Values.{Fields}
use claude_cloud_ops_tool.Ticketing.Sla.{SlaDueDates}
use claude_cloud_ops_tool.Ticketing.Db.{Column, Ticket, column_eq}
use claude_cloud_ops_tool.Ticketing.Automation.Engine.{TextOps, column_value}
use claude_cloud_ops_tool.Ticketing.Automation.Audit.{Explains, Values, overwrite}
use claude_cloud_ops_tool.Ticketing.Tickets.Patch.{
  TicketPatch, assign_all, given, track, tracked_columns,
}
use claude_cloud_ops_tool.Ticketing.Tickets.Patch.{assign_given as assign_column}
use claude_cloud_ops_tool.Ticketing.Tickets.Update.{patched}

-- The columns of a list are distinct.
abbrev pub Apart : List Column → Type 0
Apart [] = Unit
Apart (c ∷ cs) = All (λ d. (c == d) ≡ false) cs × Apart cs

-- The values after the assignments of a request.
abbrev pub given_value : TicketPatch → Column → Values → Values
given_value dto c v = elim (given dto c) [ none ↦ v | some x ↦ overwrite c x v ]

abbrev pub given_values : TicketPatch → List Column → Values → Values
given_values dto [] v = v
given_values dto (c ∷ cs) v = given_values dto cs (given_value dto c v)

column_value-assign :
    (dto : TicketPatch) (c d : Column) (t : Ticket)
    → column_value (assign_column dto c t) d ≡ given_value dto c (column_value t) d
unfolding given
column_value-assign dto Column.status d t = elim (Option-cases dto.status) [
  | inl e ↦ rw e refl
  | inr (s, e) ↦ rw e (ground arith)
]
column_value-assign dto Column.priority d t = elim (Option-cases dto.priority) [
  | inl e ↦ rw e refl
  | inr (s, e) ↦ rw e (ground arith)
]
column_value-assign dto Column.platform d t = elim (Option-cases dto.platform) [
  | inl e ↦ rw e refl
  | inr (s, e) ↦ rw e (ground arith)
]
column_value-assign dto Column.group_id d t = elim (Option-cases dto.group_id) [
  | inl e ↦ rw e refl
  | inr (s, e) ↦ rw e (ground arith)
]
column_value-assign dto Column.agent_id d t = elim (Option-cases dto.agent_id) [
  | inl e ↦ rw e refl
  | inr (s, e) ↦ rw e (ground arith)
]
column_value-assign dto Column.ticket_type_id d t = elim (Option-cases dto.ticket_type_id) [
  | inl e ↦ rw e refl
  | inr (s, e) ↦ rw e (ground arith)
]

pub column_value-assign_all :
    (dto : TicketPatch) (cs : List Column) (t : Ticket)
    → column_value (assign_all dto cs t) ≡ given_values dto cs (column_value t)
column_value-assign_all dto [] t = refl
column_value-assign_all dto (c ∷ cs) t =
    column_value-assign_all dto cs (assign_column dto c t)
    ∙ ap (given_values dto cs) (fun_ext (λ d. column_value-assign dto c d t))

pub column_value-patched :
    (text : TextOps) (now : ℕ) (dto : TicketPatch) (fields : Option Fields)
    (sla : Option (Option String × SlaDueDates)) (t : Ticket) (c : Column)
    → column_value (patched text now dto fields sla t) c
      ≡ column_value (assign_all dto tracked_columns t) c
column_value-patched text now dto fields sla t Column.status = refl
column_value-patched text now dto fields sla t Column.priority = refl
column_value-patched text now dto fields sla t Column.platform = refl
column_value-patched text now dto fields sla t Column.group_id = refl
column_value-patched text now dto fields sla t Column.agent_id = refl
column_value-patched text now dto fields sla t Column.ticket_type_id = refl

overwrite_same :
    (c : Column) (x : Option String) (v : Values) → v c ≡ x → (d : Column) → overwrite c x v d ≡ v d
overwrite_same c x v e d = elim (Bool-cases (c == d)) [
  | inl t ↦ rw t (sym (subst (λ k. v k ≡ x) (eq-of-== c d t) e))
  | inr t ↦ rw t
]

module _ (tenant : String) (actor : Option String) (existing : Ticket) (dto : TicketPatch) where
  abbrev pub AgreesOn : Values → Column → Type 0
  AgreesOn v c = v c ≡ column_value existing c

  -- The rows that `trackChange` notes explain the assignments, wherever they start from the values of
  -- the stored ticket.
  pub track-Explains :
      (cs : List Column) (v : Values)
      → Apart cs
      → All (AgreesOn v) cs
      → Explains v (track tenant actor existing dto cs) (given_values dto cs v)
  unfolding track
  track-Explains [] v apart agrees = λ c. refl
  track-Explains (c ∷ cs) v apart agrees = elim (Option-cases (given dto c)) [
    | inl e ↦ rw (e, track, given_values, given_value) (track-Explains cs v apart.1 agrees.1)
    | inr (x, e) ↦ elim (Bool-cases (column_value existing c == x)) [
      | inl t ↦
          let kept : overwrite c x v ≡ v =
            fun_ext (overwrite_same c x v (agrees.0 ∙ eq-of-== (column_value existing c) x t)) in
          rw (e, track, given_values, given_value, t, kept) (track-Explains cs v apart.1 agrees.1)
      | inr t ↦
          rw (e, track, given_values, given_value, t)
            (
              agrees.0,
              ne-of-== (column_value existing c) x t,
              track-Explains cs (overwrite c x v) apart.1 (
                  All-imp (λ d. ((c == d) ≡ false) × AgreesOn v d) (AgreesOn (overwrite c x v))
                    (λ d h. rw h.0 h.1) cs
                    (All-both (λ d. (c == d) ≡ false) (AgreesOn v) cs apart.0 agrees.1)),
            )
    ]
  ]

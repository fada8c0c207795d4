-- ===== src/Monitoring/Escalation/Steps.antt =====
-- Which steps a pass fires (apps/api/src/modules/monitoring/escalation-sweep.service.ts).
use mathlib.Core.List.{append-nil, append_assoc}
use claude_cloud_ops_tool.Base.{
  ==_refl, >>=-of-ok, All, Bool, Bool-cases, IsDistinct, List, Option-cases, Result, String, [], ap,
  arith, filter, get_elem?, if◌then◌else◌, inl, inr, ltb, map, nat_eq, none, ok, option_eq, refl,
  some, str_iff, string_eq, subst, sym, update_rows, update_rows-map, update_where, update_where_id,
  ℕ, ◌*◌, ◌++◌, ◌+◌, ◌<◌, ◌==◌, ◌∙◌, ◌∷◌, ◌≡◌, ◌⊎◌,
}
use claude_cloud_ops_tool.Monitoring.Metrics.{Double}
use claude_cloud_ops_tool.Monitoring.Alerting.{Alert}
use claude_cloud_ops_tool.Monitoring.Escalation.{
  Policies, EscalationStep, PendingEscalation, join, mark, fire, escalate, escalate_each,
  sweep_tenant, is_selected,
}

abbrev matches : Alert → Alert → Bool
matches a x = x.id == a.id

module _ (now : ℕ) where
  abbrev pub is_early : Alert → EscalationStep → Bool
  is_early a step = ltb now (a.opened_at + step.delay_minutes * 60000)

  -- What the step `step` of an alert's policy reports now.
  abbrev pub report : Alert → String → EscalationStep → List PendingEscalation
  report a name step =
      if is_early a step
      then []
      else record {
        alert_id = a.id;
        monitor_name = name;
        step = step;
        step_number = a.escalated_steps;
      }
        ∷ []

  module _ (d : Double) (tables : Policies d) where
    -- The step that an alert is to fire now: the first that has not been fired, if its delay is over.
    abbrev pub fired : Alert → List PendingEscalation
    fired a = elim (join d tables a) [
      | none ↦ []
      | some columns ↦ elim (get_elem? columns.1 a.escalated_steps) [
        | none ↦ []
        | some step ↦ report a columns.0 step
      ]
    ]

    abbrev advance_if : List PendingEscalation → Alert → Alert → Alert
    advance_if [] a x = x
    advance_if (p ∷ ps) a x = mark d now a x

    -- The alert afterwards: one step further if it has fired one.
    abbrev pub advanced : Alert → Alert → Alert
    advanced a x = advance_if (fired a) a x

    abbrev pub all_fired : List Alert → List PendingEscalation
    all_fired [] = []
    all_fired (a ∷ rest) = fired a ++ all_fired rest

    abbrev outcome :
        Alert → List Alert → List PendingEscalation → Result (List PendingEscalation × List Alert)
    outcome a alerts ps = ok (ps, update_where (matches a) (advance_if ps a) alerts)

    nothing :
        (a : Alert) (alerts : List Alert) (ps : List PendingEscalation)
        → ps ≡ []
        → ok ([], alerts) ≡ outcome a alerts ps
    nothing a alerts ps e =
        ap (λ rows. ok ([], rows)) (sym (update_where_id (matches a) alerts))
        ∙ ap (outcome a alerts) (sym e)

    fire_lem :
        (a : Alert) (name : String) (step : EscalationStep) (alerts : List Alert)
        → fire d now a name step alerts ≡ outcome a alerts (report a name step)
    unfolding fire
    fire_lem a name step alerts = elim (Bool-cases (is_early a step)) [
      | inl t ↦ rw (t, fire) (nothing a alerts [] refl)
      | inr t ↦ rw (t, fire) refl
    ]

    escalate_lem :
        (a : Alert) (alerts : List Alert)
        → escalate d now tables a alerts ≡ outcome a alerts (fired a)
    unfolding escalate
    escalate_lem a alerts = elim (Option-cases (join d tables a)) [
      | inl t ↦ rw (t, escalate) (nothing a alerts (fired a) (rw (t, fired) refl))
      | inr (c, t) ↦ elim (Option-cases (get_elem? c.1 a.escalated_steps)) [
        | inl u ↦ rw (t, escalate) (rw u (nothing a alerts (fired a) (rw (t, fired) (rw u refl))))
        | inr (step, u) ↦
            let e : report a c.0 step ≡ fired a = rw (t, fired) (rw u refl) in
            rw (t, escalate) (rw u (fire_lem a c.0 step alerts ∙ ap (outcome a alerts) e))
      ]
    ]

    escalate_each_lem :
        (todo : List Alert) (found : List PendingEscalation) (alerts : List Alert)
        → escalate_each d now tables todo found alerts
          ≡ ok (found ++ all_fired todo, update_rows matches advanced todo alerts)
    unfolding escalate_each update_rows
    escalate_each_lem [] found alerts = rw (append-nil found)
    escalate_each_lem (a ∷ rest) found alerts =
        >>=-of-ok (escalate d now tables a) (λ new. escalate_each d now tables rest (found ++ new))
          alerts (escalate_lem a alerts)
        ∙ escalate_each_lem rest (found ++ fired a) (update_where (matches a) (advanced a) alerts)
        ∙ ap (λ l. ok (l, update_rows matches advanced (a ∷ rest) alerts))
            (append_assoc found (fired a) (all_fired rest))

    advance_if-id : (ps : List PendingEscalation) (a x : Alert) → (advance_if ps a x).id ≡ x.id
    advance_if-id [] a x = refl
    advance_if-id (p ∷ ps) a x = refl

    -- With distinct alert ids, a pass reports, in the order of the table, what each active alert with a
    -- policy is to fire: its next step, if the step's delay is over. It moves exactly those alerts one
    -- step further, and leaves every other alert as it is.
    pub sweep_tenant-fires :
        (alerts : List Alert)
        → IsDistinct (map (λ a. a.id) alerts)
        → sweep_tenant d now tables alerts
          ≡ ok (
            all_fired (filter (is_selected d tables) alerts),
            update_where (is_selected d tables) (λ a. advanced a a) alerts,
          )
    unfolding sweep_tenant
    sweep_tenant-fires alerts distinct =
        escalate_each_lem (filter (is_selected d tables) alerts) [] alerts
        ∙ ap (λ rows. ok (all_fired (filter (is_selected d tables) alerts), rows))
            (update_rows-map (λ a. a.id) matches advanced (is_selected d tables) alerts
              (λ x y h. ground (arith, str_iff y.id x.id)) (λ x h. ==_refl x.id)
              (λ x. advance_if-id (fired x) x x) distinct)

-- An alert fires nothing, or its next step.
fired-cases :
    (now : ℕ) (d : Double) (tables : Policies d) (a : Alert)
    → (fired now d tables a ≡ [])
      ⊎ ((p : PendingEscalation) × (p.step_number ≡ a.escalated_steps)
          × (fired now d tables a ≡ p ∷ []))
fired-cases now d tables a = elim (Option-cases (join d tables a)) [
  | inl t ↦ inl (rw (t, fired) refl)
  | inr (c, t) ↦ elim (Option-cases (get_elem? c.1 a.escalated_steps)) [
    | inl u ↦ inl (rw (t, fired) (rw u refl))
    | inr (step, u) ↦ elim (Bool-cases (is_early now a step)) [
      | inl early ↦ inl (rw (t, fired) (rw u (rw early refl)))
      | inr due ↦
          let p : PendingEscalation = record {
            alert_id = a.id;
            monitor_name = c.0;
            step = step;
            step_number = a.escalated_steps;
          } in
          inr (p, refl, rw (t, fired) (rw u (rw due refl)))
    ]
  ]
]

module _ (P : PendingEscalation → Type 0) where
  fired-All :
      (now : ℕ) (d : Double) (tables : Policies d) (a : Alert)
      → ((p : PendingEscalation)
          → p.step_number ≡ a.escalated_steps
          → fired now d tables a ≡ p ∷ []
          → P p)
      → All P (fired now d tables a)
  fired-All now d tables a h = elim (fired-cases now d tables a) [
    | inl e ↦ subst (All P) (sym e) tt
    | inr (p, n, e) ↦ subst (All P) (sym e) (h p n e, tt)
  ]

-- No step fires twice: what an alert fires after a pass, at any time and under any policies, is a
-- later step than the one that the pass has fired.
pub fired-increases :
    (d : Double) (now later : ℕ) (tables tables' : Policies d) (a : Alert)
    → All
        (λ p.
          All
            (λ q. p.step_number < q.step_number)
            (fired later d tables' (advanced now d tables a a)))
        (fired now d tables a)
fired-increases d now later tables tables' a =
    fired-All
      (λ p.
        All (λ q. p.step_number < q.step_number)
          (fired later d tables' (advanced now d tables a a)))
      now d tables a
      (λ p n e.
        let moved : (advanced now d tables a a).escalated_steps ≡ a.escalated_steps + 1 =
          ap (λ ps. (advance_if now d tables ps a a).escalated_steps) e in
        fired-All (λ q. p.step_number < q.step_number) later d tables' (advanced now d tables a a)
          (λ q m f. omega arith))

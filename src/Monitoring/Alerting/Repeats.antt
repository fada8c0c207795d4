-- ===== src/Monitoring/Alerting/Repeats.antt =====
-- An alert that stays active through a row of bad checks (apps/api/src/modules/monitoring/
-- alert-evaluation.service.ts).
use claude_cloud_ops_tool.Base.{
  ==_refl, >>=-of-ok, All, All-append, Bool, Bool-cases, List, Option, Option-cases, Result, String,
  [], ap, arith, contains, false, find, if◌then◌else◌, inl, inr, length, modify, nat_eq, none, ok,
  option_eq, pure, refl, some, string_eq, suc, true, update_where, ℕ, ◌%◌, ◌&&◌, ◌++◌, ◌+◌, ◌/◌,
  ◌==◌, ◌>>=◌, ◌>>◌, ◌∙◌, ◌∷◌, ◌≡◌, ◌≢◌,
}
use claude_cloud_ops_tool.Monitoring.Metrics.{Double}
use claude_cloud_ops_tool.Monitoring.Alerting.{
  CheckStatus, is_open_alert, RuleKind, AlertRule, Check, Db, status_eq, Alert,
}
use claude_cloud_ops_tool.Monitoring.Alerting.Evaluate.{EvaluatedMonitor, judge, update_alert}
use claude_cloud_ops_tool.Monitoring.Alerting.Service.{
  Effect, post_repeat_note, after_commit, evaluate, on_bad, by_rule, apply_to_database,
  enabled_rule,
}

-- An UPDATE that keeps a query's condition, on a row that the query finds.
find-update_where_at :
    (q p : Alert → Bool) (f : Alert → Alert)
    → ((x : Alert) → q (f x) ≡ q x)
    → (xs : List Alert) {a : Alert} → p a ≡ true
    → find q xs ≡ some a
    → find q (update_where p f xs) ≡ some (f a)
find-update_where_at q p f keep [] here e = cc
find-update_where_at q p f keep (x ∷ xs) {a} here e = elim (Bool-cases (q x)) [
  | inl t ↦
      let same : x ≡ a = ground arith in
      let met : p x ≡ true = ap p same ∙ here in
      let kept : q (f x) ≡ true = keep x ∙ t in rw (met, kept) (ap (λ z. some (f z)) same)
  | inr t ↦
      let kept : q (f x) ≡ false = keep x ∙ t in
      let rest = find-update_where_at q p f keep xs here (ground arith) in
      elim (Bool-cases (p x)) [ inl u ↦ rw (u, kept) rest | inr u ↦ rw (u, t) rest ]
]

length-update_where :
    (p : Alert → Bool) (f : Alert → Alert) (xs : List Alert)
    → length (update_where p f xs) ≡ length xs
length-update_where p f [] = refl
length-update_where p f (x ∷ xs) = ap suc (length-update_where p f xs)

module _ (d : Double) where
  -- One evaluation: its instant, the generated id, the status of the check, and the checks that are
  -- stored by then.
  pub record Round : Type 0 where
    pub now : ℕ
    pub new_id : String
    pub status : CheckStatus
    pub checks : List (Check d)

module _ (d : Double) (monitor : EvaluatedMonitor) where
  -- Evaluations one after another, each on the tables that the one before leaves.
  unfoldable pub evaluate_all : List (Round d) → Db d → Result (List Effect × Db d)
  evaluate_all [] = pure []
  evaluate_all (r ∷ rounds) = do
    modify (λ db. record db { checks = r.checks })
    sent ← (λ db. evaluate d r.now r.new_id monitor db r.status db)
    more ← evaluate_all rounds
    pure (sent ++ more)

module _ (d : Double) (monitor : EvaluatedMonitor) (rule : AlertRule d) where
  abbrev note_if : Option String → Bool → List Effect
  note_if none due = []
  note_if (some ticket) due = if due then post_repeat_note ticket ∷ [] else []

  evaluate-repeated :
      (now : ℕ) (new_id : String) (status : CheckStatus) (db : Db d) (a : Alert)
      → enabled_rule d now new_id monitor db ≡ some rule
      → rule.rule_kind ≡ RuleKind.status
      → find (is_open_alert monitor.id) db.alerts ≡ some a
      → contains rule.status_in status ≡ true
      → evaluate d now new_id monitor db status db
        ≡ ok (
          note_if a.ticket_id ((a.repeat_count + 1) % 5 == 0),
          update_alert d a.id
              (λ x. record x { repeat_count = a.repeat_count + 1; last_seen_at = now })
              db,
        )
  unfolding evaluate after_commit apply_to_database by_rule judge on_bad
  evaluate-repeated now new_id status db a found kind active bad = elim (Option-cases a.ticket_id) [
    | inl unlinked ↦ ground arith
    | inr (ticket, linked) ↦ ground arith
  ]

  -- The alert after one more repeat.
  abbrev repeat : ℕ → Alert → Alert → Alert
  repeat now a x = record x { repeat_count = a.repeat_count + 1; last_seen_at = now }

  evaluate_all-step :
      (r : Round d) (rounds : List (Round d)) (db db' : Db d) (sent more : List Effect) (db1 : Db d)
      → evaluate d r.now r.new_id monitor
          (record db { checks = r.checks })
          r.status
          (record db { checks = r.checks })
        ≡ ok (sent, db1)
      → evaluate_all d monitor rounds db1 ≡ ok (more, db')
      → evaluate_all d monitor (r ∷ rounds) db ≡ ok (sent ++ more, db')
  unfolding evaluate_all
  evaluate_all-step r rounds db db' sent more db1 e f =
      >>=-of-ok (λ (x : Db d). evaluate d r.now r.new_id monitor x r.status x)
        (λ sent. evaluate_all d monitor rounds >>= λ more. pure (sent ++ more))
        (record db { checks = r.checks }) e
      ∙ >>=-of-ok (evaluate_all d monitor rounds) (λ more. pure (sent ++ more)) db1 f

  count_notes :
      (ticket : String) (k n : ℕ) (more : List Effect)
      → length more + (k + 1) / 5 ≡ (k + 1 + n) / 5
      → length (note_if (some ticket) ((k + 1) % 5 == 0) ++ more) + k / 5 ≡ (k + suc n) / 5
  count_notes ticket k n more h = elim (Bool-cases ((k + 1) % 5 == 0)) [
    | inl fifth ↦ let divides : (k + 1) % 5 ≡ 0 = ground arith in rw fifth (omega arith)
    | inr other ↦ let rest : (k + 1) % 5 ≢ 0 = λ z. ground arith in rw other (omega arith)
  ]

  note_if-All :
      (ticket : String) (due : Bool)
      → All (λ s. s ≡ post_repeat_note ticket) (note_if (some ticket) due)
  note_if-All ticket true = (refl, tt)
  note_if-All ticket false = tt

  rule_found :
      (r : Round d) (db : Db d)
      → find (λ x. x.monitor_id == monitor.id && x.is_enabled) db.rules ≡ some rule
      → enabled_rule d r.now r.new_id monitor (record db { checks = r.checks }) ≡ some rule
  unfolding enabled_rule
  rule_found r db found = found

  -- While an alert that is linked to a ticket is active, bad checks under a status rule, however many
  -- and whatever checks are stored meanwhile, all find this alert: none is added, each counts one
  -- repeat on it, and the notes that are posted on the ticket are one for every multiple of five that
  -- the count has passed.
  pub evaluate_all-notes :
      (rounds : List (Round d)) (db : Db d) (a : Alert) (ticket : String)
      → find (λ r. r.monitor_id == monitor.id && r.is_enabled) db.rules ≡ some rule
      → rule.rule_kind ≡ RuleKind.status
      → find (is_open_alert monitor.id) db.alerts ≡ some a
      → a.ticket_id ≡ some ticket
      → All (λ r. contains rule.status_in r.status ≡ true) rounds
      → (sent : List Effect) × (db' : Db d) × (b : Alert) × (evaluate_all d monitor rounds db
          ≡ ok (sent, db'))
        × All (λ s. s ≡ post_repeat_note ticket) sent
        × (length sent + a.repeat_count / 5 ≡ (a.repeat_count + length rounds) / 5)
        × (find (is_open_alert monitor.id) db'.alerts ≡ some b)
        × (b.id ≡ a.id)
        × (b.repeat_count ≡ a.repeat_count + length rounds)
        × (length db'.alerts ≡ length db.alerts)
  unfolding evaluate_all
  evaluate_all-notes [] db a ticket found kind active linked bad =
      ([], db, a, refl, tt, omega arith, active, refl, omega arith, refl)
  evaluate_all-notes (r ∷ rounds) db a ticket found kind active linked bad =
      let before : Db d = record db { checks = r.checks } in
      let once =
        evaluate-repeated r.now r.new_id r.status before a (rule_found r db found) kind active
          bad.0 in
      let db1 = update_alert d a.id (repeat r.now a) before in
      let still =
        find-update_where_at (is_open_alert monitor.id) (λ x. x.id == a.id) (repeat r.now a)
          (λ x. refl) db.alerts (==_refl a.id) active in
      let (more, db', b, run, notes, count, last, same, repeats, rows) =
        evaluate_all-notes rounds db1 (repeat r.now a a) ticket found kind still linked bad.1 in
      let first = ap (λ (o : Option String). note_if o ((a.repeat_count + 1) % 5 == 0)) linked in
      (
        note_if (some ticket) ((a.repeat_count + 1) % 5 == 0) ++ more,
        db',
        b,
        evaluate_all-step r rounds db db' _ more db1
            (once ∙ ap (λ (l : List Effect). ok (l, db1)) first) run,
        All-append (λ s. s ≡ post_repeat_note ticket)
            (note_if (some ticket) ((a.repeat_count + 1) % 5 == 0)) more
            (note_if-All ticket ((a.repeat_count + 1) % 5 == 0)) notes,
        count_notes ticket a.repeat_count (length rounds) more count,
        last,
        same,
        repeats ∙ omega arith,
        rows ∙ length-update_where (λ x. x.id == a.id) (repeat r.now a) db.alerts,
      )

-- ===== src/Platform/Security/Windows.antt =====
-- The throttle of logins keeps a promise about each key by itself: the fifth attempt of a window is the
-- last one (apps/api/src/modules/platform/auth/auth-security.ts).
use claude_cloud_ops_tool.Base.{
  ==-of-ne, ==_refl, Bool, Bool-cases, List, Option, String, [], ap, arith, eq-of-==, false,
  if◌then◌else◌, inl, inr, leb, length, ltb, nat_eq, ne-of-==, none, option_eq, refl, some,
  string_eq, subst, suc, sym, true, ℕ, ◌+◌, ◌==◌, ◌∙◌, ◌∷◌, ◌≡◌,
}
use claude_cloud_ops_tool.Platform.Redis.{Key, Redis, IsRedis, live, Entry, same_key}
use claude_cloud_ops_tool.Platform.Security.Hits.{hit_first, hit_again, hit_other}
use claude_cloud_ops_tool.Platform.Security.{
  login_window_seconds, hit, register_login_attempt, clear_login_attempts,
}

-- An attempt to log in, or a login that succeeded, at an instant.
pub data Event : Type 0 where
  attempt : ℕ → String → Event
  success : String → Event

-- The answers to the attempts, with their keys.
module _ {S : Type 0} (r : Redis S) where
  unfoldable pub run : List Event → S → List (String × Bool)
  run [] s = []
  run (attempt now key ∷ events) s =
      let (result, s') = register_login_attempt r now key s in
      (key, result.is_allowed) ∷ run events s'
  run (success key ∷ events) s = run events (clear_login_attempts r key s)

-- The promise about one key, as the instants of the attempts in its latest window, the first one last. A
-- window ends 15 minutes after its first attempt.
abbrev pub first_of : ℕ → List ℕ → ℕ
first_of t [] = t
first_of t (u ∷ us) = first_of u us

abbrev pub note_attempt : ℕ → List ℕ → List ℕ
note_attempt now [] = now ∷ []
note_attempt now (t ∷ ts) = if ltb now (first_of t ts + 900000) then now ∷ t ∷ ts else now ∷ []

-- An attempt is allowed while its window has no more than five.
unfoldable pub ideal : String → List Event → List ℕ → List Bool
ideal key [] window = []
ideal key (attempt now j ∷ events) window =
    let here =
      leb (length (note_attempt now window)) 5 ∷ ideal key events (note_attempt now window) in
    let other = ideal key events window in if j == key then here else other
ideal key (success j ∷ events) window = ideal key events (if j == key then [] else window)

-- The answers that a key has got.
abbrev pub answers_to : String → List (String × Bool) → List Bool
answers_to key [] = []
answers_to key ((j, b) ∷ rest) = if j == key then b ∷ answers_to key rest else answers_to key rest

-- What Redis has of a window.
abbrev pub entry_of : List ℕ → Option Entry
entry_of [] = none
entry_of (t ∷ ts) =
    some (record { value = length (t ∷ ts); expires_at = some (first_of t ts + 900000) })

module _ {S : Type 0} (r : Redis S) (now : ℕ) (key : String) (s : S) where
  pub register_login_attempt-hit :
      ((register_login_attempt r now key s).1
        ≡ (hit r login_window_seconds now (Key.throttle key) s).1)
      × ((register_login_attempt r now key s).0.is_allowed
          ≡ leb (hit r login_window_seconds now (Key.throttle key) s).0 5)
  unfolding register_login_attempt
  register_login_attempt-hit =
      let count = (hit r login_window_seconds now (Key.throttle key) s).0 in
      elim (Bool-cases (ltb 5 count)) [
        | inl t ↦ let few : leb count 5 ≡ false = ground arith in rw (t, few) (refl, refl)
        | inr t ↦ let few : leb count 5 ≡ true = ground arith in rw (t, few) (refl, refl)
      ]

module _ {S : Type 0} (r : Redis S) (redis : IsRedis r) where
  pub stored-attempt_other :
      (now : ℕ) (key : String) (k : Key) (s : S)
      → same_key k (Key.throttle key) ≡ false
      → r.stored (register_login_attempt r now key s).1 k ≡ r.stored s k
  stored-attempt_other now key k s other =
      ap (λ (x : S). r.stored x k) (register_login_attempt-hit r now key s).0
      ∙ hit_other r redis login_window_seconds now (Key.throttle key) s k other

  hit-note_attempt :
      (now : ℕ) (key : String) (s : S) (window : List ℕ)
      → r.stored s (Key.throttle key) ≡ entry_of window
      → (r.stored (hit r login_window_seconds now (Key.throttle key) s).1 (Key.throttle key)
          ≡ entry_of (note_attempt now window))
        × ((hit r login_window_seconds now (Key.throttle key) s).0
            ≡ length (note_attempt now window))
  hit-note_attempt now key s [] h =
      let (count, stored) =
        hit_first r redis login_window_seconds now (Key.throttle key) s (ap (live now) h) in
      (stored, count)
  hit-note_attempt now key s (t ∷ ts) h = elim (Bool-cases (ltb now (first_of t ts + 900000))) [
    | inl running ↦
        let (count, stored) =
          hit_again r redis login_window_seconds now (Key.throttle key) s
            (record { value = length (t ∷ ts); expires_at = some (first_of t ts + 900000) })
            (ap (live now) h ∙ rw running refl) (omega arith) in
        let one_more : length (t ∷ ts) + 1 ≡ suc (length (t ∷ ts)) = omega arith in
        let ends = first_of t ts + 900000 in
        rw running (
          stored
              ∙ ap
                  (λ (n : ℕ).
                    some (let e : Entry = record { value = n; expires_at = some ends } in e))
                  one_more,
          count ∙ one_more,
        )
    | inr over ↦
        let (count, stored) =
          hit_first r redis login_window_seconds now (Key.throttle key) s
            (ap (live now) h ∙ rw over refl) in
        rw over (stored, count)
  ]

  stored-attempt :
      (now : ℕ) (key : String) (s : S) (window : List ℕ)
      → r.stored s (Key.throttle key) ≡ entry_of window
      → (r.stored (register_login_attempt r now key s).1 (Key.throttle key)
          ≡ entry_of (note_attempt now window))
        × ((register_login_attempt r now key s).0.is_allowed
            ≡ leb (length (note_attempt now window)) 5)
  stored-attempt now key s window h =
      let (state, verdict) = register_login_attempt-hit r now key s in
      let (stored, count) = hit-note_attempt now key s window h in
      (
        ap (λ (x : S). r.stored x (Key.throttle key)) state ∙ stored,
        verdict ∙ ap (λ (n : ℕ). leb n 5) count,
      )

  -- If what Redis holds of a key stands for a window (nothing, for the empty one), then, whatever attempts
  -- and successes of all keys are mixed, the answers that the key gets are those of its own attempts and
  -- successes: an attempt is allowed exactly if its window, which begins with the first attempt after a
  -- success or after the end of the window before and lasts 15 minutes, has at most five with it.
  pub run-ideal :
      (key : String) (events : List Event) (window : List ℕ) (s : S)
      → r.stored s (Key.throttle key) ≡ entry_of window
      → answers_to key (run r events s) ≡ ideal key events window
  unfolding run ideal clear_login_attempts
  run-ideal key [] window s h = refl
  run-ideal key (attempt now j ∷ events) window s h = elim (Bool-cases (j == key)) [
    | inl t ↦
        let same : j ≡ key = eq-of-== j key t in
        let (stored, verdict) =
          stored-attempt now j s window
            (subst (λ k. r.stored s (Key.throttle k) ≡ entry_of window) (sym same) h) in
        let s' = (register_login_attempt r now j s).1 in
        rw t (
          ap (λ (b : Bool). b ∷ answers_to key (run r events s')) verdict
          ∙ ap (λ (rest : List Bool). leb (length (note_attempt now window)) 5 ∷ rest)
              (run-ideal key events (note_attempt now window) s' (
                subst (λ k. r.stored s' (Key.throttle k) ≡ entry_of (note_attempt now window)) same
                  stored)))
    | inr t ↦
        let other : same_key (Key.throttle key) (Key.throttle j) ≡ false =
          ==-of-ne key j (λ e. ne-of-== j key t (sym e)) in
        rw t (
          run-ideal key events window (register_login_attempt r now j s).1
            (stored-attempt_other now j (Key.throttle key) s other ∙ h))
  ]
  run-ideal key (success j ∷ events) window s h = elim (Bool-cases (j == key)) [
    | inl t ↦ rw t (
        run-ideal key events [] (r.del (Key.throttle j) s) (
          redis.stored-del (Key.throttle j) (Key.throttle key) s
          ∙ rw (subst (λ k. (key == k) ≡ true) (sym (eq-of-== j key t)) (==_refl key)) refl))
    | inr t ↦ rw t (
        run-ideal key events window (r.del (Key.throttle j) s) (
          redis.stored-del (Key.throttle j) (Key.throttle key) s
          ∙ rw (==-of-ne key j (λ e. ne-of-== j key t (sym e))) h))
  ]

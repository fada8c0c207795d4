-- ===== src/Ticketing/Intake/Reference.antt =====
-- The number in the subject of a reply is read back (the template `ticket.reply` of apps/api/src/
-- notifications/templates/template-registry.ts, and TICKET_REFERENCE_RE of apps/api/src/modules/
-- ticketing/email-intake/process-inbound-email.ts).
use claude_cloud_ops_tool.Base.{
  All, All-append, Bool, Bool-cases, List, Option, [], ap, arith, false, if◌then◌else◌, inl, inr,
  length, ltb, nat_eq, none, option_eq, refl, some, string_eq, suc, true, zero, ℕ, ◌%◌, ◌*◌, ◌++◌,
  ◌+◌, ◌-◌, ◌/◌, ◌<◌, ◌==◌, ◌∙◌, ◌∷◌, ◌≡◌, ◌≢◌, ◌≤◌,
}
use claude_cloud_ops_tool.Ticketing.Intake.{
  after_prefix, number_in_tag, is_digit_code, reference_here, reference_in, fold_case,
}

-- The decimal digits of a number, with enough fuel if it is above the number.
abbrev pub digits : ℕ → ℕ → List ℕ
digits zero n = []
digits (suc fuel) n =
    let more = digits fuel (n / 10) ++ (48 + n % 10) ∷ [] in
    if ltb n 10 then (48 + n) ∷ [] else more

abbrev pub to_decimal : ℕ → List ℕ
to_decimal n = digits (suc n) n

-- `[Ticket #${ticketNumber}] ${subject}`
abbrev pub reply_subject : ℕ → List ℕ → List ℕ
reply_subject number subject =
    91 ∷ 84 ∷ 105 ∷ 99 ∷ 107 ∷ 101 ∷ 116 ∷ 32 ∷ 35 ∷ (to_decimal number ++ 93 ∷ 32 ∷ subject)

abbrev IsDigit : ℕ → Type 0
IsDigit c = (48 ≤ c) × (c ≤ 57)

digits-IsDigit : (fuel n : ℕ) → All IsDigit (digits fuel n)
digits-IsDigit zero n = tt
digits-IsDigit (suc fuel) n = elim (Bool-cases (ltb n 10)) [
  | inl t ↦ let small : n < 10 = ground arith in rw t ((omega arith, omega arith), tt)
  | inr t ↦ rw t (
      All-append IsDigit (digits fuel (n / 10)) ((48 + n % 10) ∷ []) (digits-IsDigit fuel (n / 10))
        ((omega arith, omega arith), tt))
]

-- The value of digits after a number.
abbrev number_of : ℕ → List ℕ → ℕ
number_of acc [] = acc
number_of acc (c ∷ cs) = number_of (10 * acc + (c - 48)) cs

number_of-append :
    (acc : ℕ) (cs : List ℕ) (d : ℕ)
    → number_of acc (cs ++ d ∷ []) ≡ 10 * number_of acc cs + (d - 48)
number_of-append acc [] d = refl
number_of-append acc (c ∷ cs) d = number_of-append (10 * acc + (c - 48)) cs d

number_of-digits : (fuel n : ℕ) → n < fuel → number_of 0 (digits fuel n) ≡ n
number_of-digits zero n h = absurd (omega arith)
number_of-digits (suc fuel) n h = elim (Bool-cases (ltb n 10)) [
  | inl t ↦ rw t (omega arith)
  | inr t ↦
      let large : 10 ≤ n = ground arith in
      rw t (
        number_of-append 0 (digits fuel (n / 10)) (48 + n % 10)
        ∙ omega (arith, number_of-digits fuel (n / 10) (omega arith)))
]

-- Digits with a bracket behind them are read to the bracket.
number_in_tag-digits :
    (acc : ℕ) (cs rest : List ℕ)
    → All IsDigit cs
    → number_in_tag (some acc) (cs ++ 93 ∷ rest) ≡ some (number_of acc cs)
number_in_tag-digits acc [] rest h = refl
number_in_tag-digits acc (c ∷ cs) rest h =
    let digit : is_digit_code c ≡ true = ground arith in
    rw digit (number_in_tag-digits (10 * acc + (c - 48)) cs rest h.1)

number_in_tag-first :
    (cs rest : List ℕ)
    → 0 < length cs
    → All IsDigit cs
    → number_in_tag none (cs ++ 93 ∷ rest) ≡ some (number_of 0 cs)
number_in_tag-first [] rest some_digit h = absurd (omega arith)
number_in_tag-first (c ∷ cs) rest some_digit h =
    let digit : is_digit_code c ≡ true = ground arith in
    rw digit (number_in_tag-digits (10 * 0 + (c - 48)) cs rest h.1)

length-append_pos : (cs : List ℕ) (c : ℕ) → 0 < length (cs ++ c ∷ [])
length-append_pos [] c = omega arith
length-append_pos (d ∷ cs) c = omega arith

length-digits_pos : (fuel n : ℕ) → 0 < length (digits (suc fuel) n)
length-digits_pos fuel n = elim (Bool-cases (ltb n 10)) [
  | inl t ↦ rw t (omega arith)
  | inr t ↦ rw t (length-append_pos (digits fuel (n / 10)) (48 + n % 10))
]

reference_here-reply_subject :
    (number : ℕ) (subject : List ℕ) → reference_here (reply_subject number subject) ≡ some number
reference_here-reply_subject number subject =
    number_in_tag-first (to_decimal number) (32 ∷ subject) (length-digits_pos number number)
      (digits-IsDigit (suc number) number)
    ∙ ap some (number_of-digits (suc number) number (omega arith))

reference_in-here :
    (c : ℕ) (cs : List ℕ) (n : ℕ)
    → reference_here (c ∷ cs) ≡ some n
    → reference_in (c ∷ cs) ≡ some n
unfolding reference_in
reference_in-here c cs n e =
    ap (λ (o : Option ℕ). elim o [ some m ↦ some m | none ↦ reference_in cs ]) e

fold_case_ne : (c : ℕ) → c ≢ 91 → (fold_case c == 91) ≡ false
fold_case_ne c h = ground arith

reference_here_ne : (c : ℕ) (cs : List ℕ) → c ≢ 91 → reference_here (c ∷ cs) ≡ none
reference_here_ne c cs h =
    ap
      (λ (b : Bool).
        elim (if b
          then after_prefix (116 ∷ 105 ∷ 99 ∷ 107 ∷ 101 ∷ 116 ∷ 32 ∷ 35 ∷ []) cs
          else none) [ none ↦ none | some rest ↦ number_in_tag none rest ])
      (fold_case_ne c h)

reference_in_skip : (c : ℕ) (cs : List ℕ) → c ≢ 91 → reference_in (c ∷ cs) ≡ reference_in cs
unfolding reference_in
reference_in_skip c cs h =
    ap (λ (o : Option ℕ). elim o [ some m ↦ some m | none ↦ reference_in cs ])
      (reference_here_ne c cs h)

-- Before it, a text without an opening bracket, such as `Re: `, does no harm.
pub reference_in-reply_subject :
    (before : List ℕ) (number : ℕ) (subject : List ℕ)
    → All (λ c. c ≢ 91) before
    → reference_in (before ++ reply_subject number subject) ≡ some number
reference_in-reply_subject [] number subject h =
    reference_in-here 91 _ number (reference_here-reply_subject number subject)
reference_in-reply_subject (c ∷ before) number subject h =
    reference_in_skip c (before ++ reply_subject number subject) h.0
    ∙ reference_in-reply_subject before number subject h.1

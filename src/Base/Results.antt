-- ===== src/Base/Results.antt =====
-- What a handler answers: a value, or one of the exceptions that the program throws. A database
-- error (a failed constraint or cast) is `db_error`, any other exception `internal_error`.
use mathlib.Core.Path.{◌≡◌, refl, sym, ap, subst, subst₂}
use mathlib.Core.Logic.{◌⊎◌, inl, inr}
use mathlib.Core.Bool.{Bool, true, false}
use mathlib.Core.Option.{Option, none, some}
use claude_cloud_ops_tool.Base.Tests.{if◌then◌else◌}

pub data Error : Type 0 where
  bad_request not_found unauthorized forbidden too_many_requests db_error internal_error : Error

pub data Result {ℓ} (A : Type ℓ) : Type ℓ where
  ok : A → Result A
  err : Error → Result A

-- A transaction: the tables change only if it ends with `ok`, so an `err` is a rollback.
abbrev pub Tx : Type 0 → Type 0 → Type 0
Tx S A = S → Result (A × S)

module _ {S : Type 0} where
  infixl 5 ◌>>=◌ ◌>>◌
  abbrev pub ◌>>=◌ : {A B : Type 0} → Tx S A → (A → Tx S B) → Tx S B
  ◌>>=◌ m f s = elim (m s) [ ok r ↦ f r.0 r.1 | err e ↦ err e ]

  abbrev pub ◌>>◌ : {B : Type 0} → Tx S (Unit {0}) → Tx S B → Tx S B
  m >> k = m >>= λ _. k

  abbrev pub pure : {A : Type 0} → A → Tx S A
  pure a s = ok (a, s)

  abbrev pub throw : {A : Type 0} → Error → Tx S A
  throw e s = err e

  abbrev pub gets : {A : Type 0} → (S → A) → Tx S A
  gets f s = ok (f s, s)

  abbrev pub modify : (S → S) → Tx S (Unit {0})
  modify f s = ok (tt, f s)

  abbrev pub guard : Bool → Error → Tx S (Unit {0})
  guard true e s = ok (tt, s)
  guard false e s = err e

  abbrev pub require : {A : Type 0} → Option A → Error → Tx S A
  require none e s = err e
  require (some a) e s = ok (a, s)

module _ {S : Type 0} {A B : Type 0} where
  -- Inversion of a transaction that commits: its first part has committed, and so has the rest.
  pub >>=-eq-ok :
      (m : Tx S A) (f : A → Tx S B) (s : S) {r : B × S}
      → (m >>= f) s ≡ ok r
      → (q : A × S) × (m s ≡ ok q) × (f q.0 q.1 ≡ ok r)
  >>=-eq-ok m f s {r} e = split (m s) e
    where
      split :
          (x : Result (A × S))
          → (elim x [ ok q ↦ f q.0 q.1 | err c ↦ err c ]) ≡ ok r
          → (q : A × S) × (x ≡ ok q) × (f q.0 q.1 ≡ ok r)
      split (ok q) e = (q, refl, e)
      split (err c) e = cc

module _ {S : Type 0} {A B : Type 0} where
  pub >>=-of-ok :
      (m : Tx S A) (f : A → Tx S B) (s : S) {q : A × S} → m s ≡ ok q → (m >>= f) s ≡ f q.0 q.1
  >>=-of-ok m f s e = ap (λ x. elim x [ ok q ↦ f q.0 q.1 | err c ↦ err c ]) e

-- If `m` starts in a state with `P` and commits, then `Q` holds of its result and the new state.
abbrev pub Ensures : {S A : Type 0} → (S → Type 0) → Tx S A → (A → S → Type 0) → Type 0
Ensures {S} {A} P m Q = (s : S) → P s → (a : A) (s' : S) → m s ≡ ok (a, s') → Q a s'

-- An invariant that a transaction keeps whenever it commits.
abbrev pub Keeps : {S A : Type 0} → (S → Type 0) → Tx S A → Type 0
Keeps I m = Ensures I m (λ _ s. I s)

module _ {S : Type 0} {A B : Type 0} where
  pub Ensures->>= :
      (P : S → Type 0) (m : Tx S A) (Q : A → S → Type 0) (f : A → Tx S B) (R : B → S → Type 0)
      → Ensures P m Q
      → ((a : A) → Ensures (Q a) (f a) R)
      → Ensures P (m >>= f) R
  Ensures->>= P m Q f R first rest s p b s' e =
      let (q, e1, e2) = >>=-eq-ok m f s e in rest q.0 q.1 (first s p q.0 q.1 e1) b s' e2

module _ {S : Type 0} {A : Type 0} where
  pub Ensures-pure :
      (P : S → Type 0) (Q : A → S → Type 0) (a : A) → ((s : S) → P s → Q a s) → Ensures P (pure a) Q
  Ensures-pure P Q a f s p a' s' e =
      let pair : (a ≡ a') × (s ≡ s') = (cc, cc) in subst₂ Q pair.0 pair.1 (f s p)

  pub Keeps-pure : (I : S → Type 0) (a : A) → Keeps I (pure a)
  Keeps-pure I a = Ensures-pure I (λ _ s. I s) a (λ s p. p)

  pub Ensures-if :
      (P : S → Type 0) (Q : A → S → Type 0) (b : Bool) (m n : Tx S A)
      → Ensures P m Q
      → Ensures P n Q
      → Ensures P (if b then m else n) Q
  Ensures-if P Q true m n h k = h
  Ensures-if P Q false m n h k = k

module _ {S : Type 0} {A : Type 0} where
  pub require-inv :
      (o : Option A) (c : Error) (s : S) (q : A × S)
      → require o c s ≡ ok q
      → (o ≡ some q.0) × (q.1 ≡ s)
  require-inv none c s q e = cc
  require-inv (some a) c s q e =
      let same : (a, s) ≡ q = cc in (ap (λ x. some x.0) same, ap (λ x. x.1) (sym same))

module _ {S : Type 0} {A B : Type 0} where
  -- A transaction that is run only under a test.
  pub if-pure_inv :
      (b : Bool) (m : Tx S A) (f : A → B) (other : B) (s : S) (r : B) (s' : S)
      → (if b then (m >>= λ a. pure (f a)) else pure other) s ≡ ok (r, s')
      → ((r ≡ other) × (s' ≡ s)) ⊎ ((a : A) × (m s ≡ ok (a, s')) × (r ≡ f a))
  if-pure_inv true m f other s r s' e =
      let k : A → Tx S B = λ a. pure (f a) in
      let (q, ran, rest) = >>=-eq-ok m k s e in
      let same : (f q.0 ≡ r) × (q.1 ≡ s') = (cc, cc) in
      inr (q.0, subst (λ x. m s ≡ ok (q.0, x)) same.1 ran, sym same.0)
  if-pure_inv false m f other s r s' e = inl (cc, cc)

pub ok_inj {ℓ} : {A : Type ℓ} {a b : A} → ok a ≡ ok b → a ≡ b
ok_inj e = cc

pub Result-cases {ℓ} :
    {A : Type ℓ} (x : Result A) → ((a : A) × (x ≡ ok a)) ⊎ ((c : Error) × (x ≡ err c))
Result-cases (ok a) = inl (a, refl)
Result-cases (err c) = inr (c, refl)

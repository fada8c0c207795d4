-- ===== src/Base/Lists.antt =====
-- Lists measured by native numbers and filtered by Boolean tests, under the library's names.
use Prim.Native.Nat.{ℕ, zero, suc, ◌+◌, ◌≤◌, ◌<◌}
use mathlib.Core.Path.{◌≡◌, refl, subst}
use mathlib.Core.Logic.{inl, inr, ◌≢◌}
use mathlib.Core.Bool.{Bool, true, false, ◌&&◌, ◌||◌}
use mathlib.Core.List.{List, [], ◌∷◌, ◌++◌, map}
use mathlib.Core.Option
use mathlib.Core.Option.{Option, none, some}
use native.Mathlib.Omega.{arith}
use claude_cloud_ops_tool.Base.Tests.{
  if◌then◌else◌, Eq, ◌==◌, Bool-cases, ==_refl, ==-of-ne, eq-of-==,
}

module _ {ℓ} {A : Type ℓ} where
  abbrev pub length : List A → ℕ
  length [] = 0
  length (x ∷ xs) = suc (length xs)

  abbrev pub get_elem? : List A → ℕ → Option A
  get_elem? [] i = none
  get_elem? (x ∷ xs) zero = some x
  get_elem? (x ∷ xs) (suc i) = get_elem? xs i

  abbrev pub take : ℕ → List A → List A
  take zero xs = []
  take (suc n) [] = []
  take (suc n) (x ∷ xs) = x ∷ take n xs

  abbrev pub drop : ℕ → List A → List A
  drop zero xs = xs
  drop (suc n) [] = []
  drop (suc n) (x ∷ xs) = drop n xs

  abbrev pub head? : List A → Option A
  head? [] = none
  head? (x ∷ xs) = some x

  abbrev pub filter : (A → Bool) → List A → List A
  filter p [] = []
  filter p (x ∷ xs) = if p x then x ∷ filter p xs else filter p xs

  abbrev pub all : (A → Bool) → List A → Bool
  all p [] = true
  all p (x ∷ xs) = p x && all p xs

  abbrev pub any : (A → Bool) → List A → Bool
  any p [] = false
  any p (x ∷ xs) = p x || any p xs

  abbrev pub contains : ⦃e : Eq A⦄ → List A → A → Bool
  contains [] a = false
  contains (x ∷ xs) a = x == a || contains xs a

  pub length-append : (xs ys : List A) → length (xs ++ ys) ≡ length xs + length ys
  length-append [] ys = omega arith
  length-append (x ∷ xs) ys = omega (arith, length-append xs ys)

module _ {ℓ κ} {A : Type ℓ} where
  abbrev pub All : (A → Type κ) → List A → Type κ
  All P [] = Unit
  All P (x ∷ xs) = P x × All P xs

  pub All-append : (P : A → Type κ) (xs ys : List A) → All P xs → All P ys → All P (xs ++ ys)
  All-append P [] ys hx hy = hy
  All-append P (x ∷ xs) ys hx hy = (hx.0, All-append P xs ys hx.1 hy)

module _ {ℓ κ μ} {A : Type ℓ} (P : A → Type κ) (Q : A → Type μ) where
  pub All-imp : ((x : A) → P x → Q x) → (xs : List A) → All P xs → All Q xs
  All-imp f [] h = tt
  All-imp f (x ∷ xs) h = (f x h.0, All-imp f xs h.1)

module _ {ℓ} {A : Type ℓ} where
  -- What holds of the test holds of every element kept, and what held before still does.
  pub All-filter {κ} :
      (P : A → Type κ) (p : A → Bool) (xs : List A)
      → All P xs
      → All (λ x. P x × (p x ≡ true)) (filter p xs)
  All-filter P p [] h = tt
  All-filter P p (x ∷ xs) h = elim (Bool-cases (p x)) [
    | inl e ↦ rw e ((h.0, e), All-filter P p xs h.1)
    | inr e ↦ rw e (All-filter P p xs h.1)
  ]

  pub length-filter-le : (p : A → Bool) (xs : List A) → length (filter p xs) ≤ length xs
  length-filter-le p [] = omega arith
  length-filter-le p (x ∷ xs) = ground (arith, length-filter-le p xs)

module _ {ℓ} {A : Type ℓ} where
  -- `indexOf`, with `none` for -1.
  abbrev pub index_of : ⦃e : Eq A⦄ → A → List A → Option ℕ
  index_of a [] = none
  index_of a (x ∷ xs) = if x == a then some 0 else Option.map suc (index_of a xs)

  abbrev pub IsDistinct : List A → Type ℓ
  IsDistinct [] = Unit
  IsDistinct (x ∷ xs) = All (λ y. x ≢ y) xs × IsDistinct xs

  pub get_elem?-All {κ} :
      (P : A → Type κ) (xs : List A) (i : ℕ) {a : A} → All P xs → get_elem? xs i ≡ some a → P a
  get_elem?-All P [] i h e = cc
  get_elem?-All P (x ∷ xs) zero h e = let s : x ≡ _ = ground arith in subst P s h.0
  get_elem?-All P (x ∷ xs) (suc i) h e = get_elem?-All P xs i h.1 e

  -- In a list with no repetition the index of an element is where it stands.
  pub index_of-get_elem? :
      ⦃e : Eq A⦄ (xs : List A) (i : ℕ) {a : A}
      → IsDistinct xs
      → get_elem? xs i ≡ some a
      → index_of a xs ≡ some i
  index_of-get_elem? [] i d h = cc
  index_of-get_elem? (x ∷ xs) zero {a} d h = let s : x ≡ a = ground arith in rw (s, ==_refl a)
  index_of-get_elem? ⦃e⦄ (x ∷ xs) (suc i) {a} d h =
      let other : (x == a) ≡ false = ==-of-ne x a (get_elem?-All (λ y. x ≢ y) xs i d.0 h) in
      rw (other, index_of-get_elem? xs i d.1 h)

  pub get_elem?-of_lt : (xs : List A) (i : ℕ) → i < length xs → (a : A) × (get_elem? xs i ≡ some a)
  get_elem?-of_lt [] i h = elim h [ ]
  get_elem?-of_lt (x ∷ xs) zero h = (x, refl)
  get_elem?-of_lt (x ∷ xs) (suc i) h = get_elem?-of_lt xs i (omega arith)

  pub contains-head? : ⦃e : Eq A⦄ (xs : List A) {a : A} → head? xs ≡ some a → contains xs a ≡ true
  contains-head? [] h = cc
  contains-head? (x ∷ xs) {a} h = let s : x ≡ a = ground arith in rw (s, ==_refl a)

module _ {ℓ} {A : Type ℓ} where
  pub All-head? {κ} : (P : A → Type κ) (xs : List A) {a : A} → All P xs → head? xs ≡ some a → P a
  All-head? P [] h e = cc
  All-head? P (x ∷ xs) h e = let s : x ≡ _ = ground arith in subst P s h.0

  pub All-contains_self : ⦃e : Eq A⦄ (xs : List A) → All (λ a. contains xs a ≡ true) xs
  All-contains_self [] = tt
  All-contains_self (x ∷ xs) = (
    rw (==_refl x),
    All-imp (λ a. contains xs a ≡ true) (λ a. contains (x ∷ xs) a ≡ true) (λ a h. ground arith) xs
        (All-contains_self xs),
  )

  -- Each element that passes a test is a witness that some element passes it.
  pub All-any_self :
      (p : A → Bool) (q : A → A → Bool)
      → ((x : A) → p x ≡ true → q x x ≡ true)
      → (xs : List A) → All (λ x. p x ≡ true → any (q x) xs ≡ true) xs
  All-any_self p q self [] = tt
  All-any_self p q self (x ∷ xs) = (
    λ h. rw (self x h),
    All-imp (λ y. p y ≡ true → any (q y) xs ≡ true) (λ y. p y ≡ true → any (q y) (x ∷ xs) ≡ true)
        (λ y k h. let t = k h in ground arith) xs (All-any_self p q self xs),
  )

  pub All-map {κ μ} :
      {B : Type μ} (P : B → Type κ) (f : A → B) (xs : List A)
      → All (λ a. P (f a)) xs
      → All P (map f xs)
  All-map P f [] h = tt
  All-map P f (x ∷ xs) h = (h.0, All-map P f xs h.1)

  pub All-of_map {κ μ} :
      {B : Type μ} (P : B → Type κ) (f : A → B) (xs : List A)
      → All P (map f xs)
      → All (λ a. P (f a)) xs
  All-of_map P f [] h = tt
  All-of_map P f (x ∷ xs) h = (h.0, All-of_map P f xs h.1)

module _ {ℓ κ} {A : Type ℓ} (P : A → Type κ) where
  pub All-contains : ⦃e : Eq A⦄ (xs : List A) (a : A) → All P xs → contains xs a ≡ true → P a
  All-contains [] a h c = cc
  All-contains (x ∷ xs) a h c = elim (Bool-cases (x == a)) [
    | inl t ↦ subst P (eq-of-== x a t) h.0
    | inr t ↦ All-contains xs a h.1 (ground arith)
  ]

module _ {ℓ κ} {A : Type ℓ} where
  pub All-of_every : (P : A → Type κ) → ((x : A) → P x) → (xs : List A) → All P xs
  All-of_every P f [] = tt
  All-of_every P f (x ∷ xs) = (f x, All-of_every P f xs)

  pub All-both : (P Q : A → Type κ) (xs : List A) → All P xs → All Q xs → All (λ x. P x × Q x) xs
  All-both P Q [] h k = tt
  All-both P Q (x ∷ xs) h k = ((h.0, k.0), All-both P Q xs h.1 k.1)

-- ===== src/Base/Sorting.antt =====
-- ORDER BY and Array.prototype.sort: a stable insertion sort by a comparison.
use mathlib.Core.Path.{◌≡◌, refl, ap, subst, ◌∙◌}
use mathlib.Core.Logic.{inl, inr, ◌≢◌}
use mathlib.Core.Bool.{Bool, true, false}
use mathlib.Core.List.{List, [], ◌∷◌}
use mathlib.Core.Option.{some}
use Prim.Native.Nat.{ℕ, suc, ◌≤◌}
use native.Mathlib.Nat.{le_refl, le_trans}
use native.Mathlib.Omega.{arith}
use claude_cloud_ops_tool.Base.Tests.{if◌then◌else◌, Bool-cases}
use claude_cloud_ops_tool.Base.Lists.{All, All-imp, filter, head?, length}

module _ {ℓ} {A : Type ℓ} (le : A → A → Bool) where
  -- ORDER BY: a stable insertion sort by the columns' comparison.
  pub insert : A → List A → List A
  insert x [] = x ∷ []
  insert x (y ∷ ys) = if le x y then x ∷ y ∷ ys else y ∷ insert x ys

  unfoldable pub sort_by : List A → List A
  unfolding insert
  sort_by [] = []
  sort_by (x ∷ xs) = insert x (sort_by xs)

  length-insert : (x : A) (xs : List A) → length (insert x xs) ≡ suc (length xs)
  unfolding insert
  length-insert x [] = refl
  length-insert x (y ∷ ys) = elim (Bool-cases (le x y)) [
    | inl e ↦ rw e refl
    | inr e ↦ rw e (ap suc (length-insert x ys))
  ]

  pub length-sort_by : (xs : List A) → length (sort_by xs) ≡ length xs
  unfolding sort_by
  length-sort_by [] = refl
  length-sort_by (x ∷ xs) = length-insert x (sort_by xs) ∙ ap suc (length-sort_by xs)

  insert-All {κ} : (P : A → Type κ) (x : A) (xs : List A) → P x → All P xs → All P (insert x xs)
  unfolding insert
  insert-All P x [] p h = (p, tt)
  insert-All P x (y ∷ ys) p h = elim (Bool-cases (le x y)) [
    | inl e ↦ rw e (p, h)
    | inr e ↦ rw e (h.0, insert-All P x ys p h.1)
  ]

  pub sort_by-All {κ} : (P : A → Type κ) (xs : List A) → All P xs → All P (sort_by xs)
  unfolding sort_by
  sort_by-All P [] h = tt
  sort_by-All P (x ∷ xs) h = insert-All P x (sort_by xs) h.0 (sort_by-All P xs h.1)

module _ {ℓ} {A : Type ℓ} (le : A → A → Bool) where
  -- A list in which no element stands after one that it should precede.
  abbrev pub IsOrdered : List A → Type ℓ
  IsOrdered [] = Unit
  IsOrdered (x ∷ xs) = All (λ y. le x y ≡ true) xs × IsOrdered xs

  length-filter-insert :
      (p : A → Bool) (x : A) (xs : List A)
      → length (filter p (insert le x xs)) ≡ length (filter p (x ∷ xs))
  unfolding insert
  length-filter-insert p x [] = refl
  length-filter-insert p x (y ∷ ys) = elim (Bool-cases (le x y)) [
    | inl e ↦ rw e refl
    | inr e ↦ let rest = length-filter-insert p x ys in rw e (ground arith)
  ]

  -- A sort keeps how many elements pass a test, whatever the test.
  pub length-filter-sort_by :
      (p : A → Bool) (xs : List A) → length (filter p (sort_by le xs)) ≡ length (filter p xs)
  unfolding sort_by
  length-filter-sort_by p [] = refl
  length-filter-sort_by p (x ∷ xs) =
      let rest = length-filter-sort_by p xs in
      length-filter-insert p x (sort_by le xs) ∙ ground arith

  module _ (total : (x y : A) → le x y ≡ false → le y x ≡ true)
      (trans : (x y z : A) → le x y ≡ true → le y z ≡ true → le x z ≡ true) where
    insert-IsOrdered : (x : A) (xs : List A) → IsOrdered xs → IsOrdered (insert le x xs)
    unfolding insert
    insert-IsOrdered x [] h = (tt, tt)
    insert-IsOrdered x (y ∷ ys) h = elim (Bool-cases (le x y)) [
      | inl e ↦ rw e (
        (
          e,
          All-imp (λ z. le y z ≡ true) (λ z. le x z ≡ true) (λ z below. trans x y z e below) ys h.0,
        ),
        h,
      )
      | inr e ↦
          rw e
            (insert-All le (λ z. le y z ≡ true) x ys (total x y e) h.0, insert-IsOrdered x ys h.1)
    ]

    pub sort_by-IsOrdered : (xs : List A) → IsOrdered (sort_by le xs)
    unfolding sort_by
    sort_by-IsOrdered [] = tt
    sort_by-IsOrdered (x ∷ xs) = insert-IsOrdered x (sort_by le xs) (sort_by-IsOrdered xs)

module _ {ℓ} {A : Type ℓ} (le : A → A → Bool) (key : A → ℕ) where
  insert-nonempty : (x : A) (xs : List A) → insert le x xs ≢ []
  unfolding insert
  insert-nonempty x [] e = cc
  insert-nonempty x (y ∷ ys) e = ground arith

  sort_by-eq-nil : (xs : List A) → sort_by le xs ≡ [] → xs ≡ []
  unfolding sort_by
  sort_by-eq-nil [] e = refl
  sort_by-eq-nil (x ∷ xs) e = absurd (insert-nonempty x (sort_by le xs) e)

  module _ (yes_le : (x y : A) → le x y ≡ true → key x ≤ key y)
      (no_le : (x y : A) → le x y ≡ false → key y ≤ key x) where
    head?-insert :
        (x : A) (s xs : List A) (a : A)
        → head? (insert le x s) ≡ some a
        → (s ≡ [] → xs ≡ [])
        → ((h : A) → head? s ≡ some h → All (λ b. key h ≤ key b) xs)
        → (key a ≤ key x) × All (λ b. key a ≤ key b) xs
    unfolding insert
    head?-insert x [] xs a e empty least =
        let s : x ≡ a = ground arith in (rw s (le_refl _), rw (empty refl) tt)
    head?-insert x (h ∷ s) xs a e empty least = elim (Bool-cases (le x h)) [
      | inl t ↦
          let s : x ≡ a = ground arith in
          let below : key a ≤ key h = subst (λ z. key z ≤ key h) s (yes_le x h t) in
          (
            rw s (le_refl _),
            All-imp (λ b. key h ≤ key b) (λ b. key a ≤ key b) (λ b k. le_trans below k) xs
                (least h refl),
          )
      | inr t ↦
          let s : h ≡ a = ground arith in
          (
            subst (λ z. key z ≤ key x) s (no_le x h t),
            subst (λ z. All (λ b. key z ≤ key b) xs) s (least h refl),
          )
    ]

    -- A sort by an order that refines a number puts an element with the least number first.
    pub head?-sort_by-least :
        (xs : List A) (a : A) → head? (sort_by le xs) ≡ some a → All (λ b. key a ≤ key b) xs
    unfolding sort_by
    head?-sort_by-least [] a e = tt
    head?-sort_by-least (x ∷ xs) a e =
        head?-insert x (sort_by le xs) xs a e (sort_by-eq-nil xs) (head?-sort_by-least xs)

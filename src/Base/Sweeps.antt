-- ===== src/Base/Sweeps.antt =====
-- A sweep selects rows and then updates them one by one. With distinct keys it updates each selected
-- row in place and nothing else.
use mathlib.Core.Path.{◌≡◌, refl, sym, ap, ◌∙◌}
use mathlib.Core.Logic.{◌≢◌, inl, inr}
use mathlib.Core.Bool.{Bool, true, false}
use mathlib.Core.List.{List, [], ◌∷◌, map}
use claude_cloud_ops_tool.Base.Tests.{Bool-cases}
use claude_cloud_ops_tool.Base.Lists.{All, All-imp, All-of_map, All-filter, IsDistinct, filter}
use claude_cloud_ops_tool.Base.Tables.{update_where}

module _ {ℓ} {A : Type ℓ} where
  pub update_where_none :
      (p : A → Bool) (f : A → A) (xs : List A)
      → All (λ y. p y ≡ false) xs
      → update_where p f xs ≡ xs
  update_where_none p f [] h = refl
  update_where_none p f (x ∷ xs) h = rw (h.0, update_where_none p f xs h.1)

  pub update_where_twice :
      (p : A → Bool) (f g : A → A) (xs : List A)
      → ((x : A) → p x ≡ true → p (f x) ≡ true)
      → update_where p g (update_where p f xs) ≡ update_where p (λ x. g (f x)) xs
  update_where_twice p f g [] keep = refl
  update_where_twice p f g (x ∷ xs) keep = elim (Bool-cases (p x)) [
    | inl t ↦ rw (t, keep x t, update_where_twice p f g xs keep)
    | inr t ↦ rw (t, t, update_where_twice p f g xs keep)
  ]

  pub update_where_id : (p : A → Bool) (xs : List A) → update_where p (λ x. x) xs ≡ xs
  update_where_id p [] = refl
  update_where_id p (x ∷ xs) = elim (Bool-cases (p x)) [
    | inl t ↦ rw (t, update_where_id p xs)
    | inr t ↦ rw (t, update_where_id p xs)
  ]

  -- One UPDATE for each selected row `x`, of the rows that `matches x` selects.
  unfoldable pub update_rows : (A → A → Bool) → (A → A → A) → List A → List A → List A
  update_rows matches f [] table = table
  update_rows matches f (x ∷ todo) table =
      update_rows matches f todo (update_where (matches x) (f x) table)

  module _ {κ} {K : Type κ} (key : A → K) (matches : A → A → Bool) (f : A → A → A) where
    update_rows-cons :
        (todo : List A) (y : A) (table : List A)
        → All (λ x. matches x y ≡ false) todo
        → update_rows matches f todo (y ∷ table) ≡ y ∷ update_rows matches f todo table
    unfolding update_rows
    update_rows-cons [] y table h = refl
    update_rows-cons (x ∷ todo) y table h =
        rw h.0 (update_rows-cons todo y (update_where (matches x) (f x) table) h.1)

    apart :
        ((x y : A) → matches x y ≡ true → key x ≡ key y)
        → (x y : A) → key x ≢ key y
        → matches x y ≡ false
    apart same x y h = elim (Bool-cases (matches x y)) [
      | inl t ↦ absurd (h (same x y t))
      | inr t ↦ t
    ]

    pub update_rows-map :
        (selected : A → Bool) (xs : List A)
        → ((x y : A) → matches x y ≡ true → key x ≡ key y)
        → ((x : A) → selected x ≡ true → matches x x ≡ true)
        → ((x : A) → key (f x x) ≡ key x)
        → IsDistinct (map key xs)
        → update_rows matches f (filter selected xs) xs ≡ update_where selected (λ x. f x x) xs
    unfolding update_rows
    update_rows-map selected [] same self keeps d = refl
    update_rows-map selected (x ∷ xs) same self keeps d =
        let ih = update_rows-map selected xs same self keeps d.1 in
        let others = All-of_map (λ k. key x ≢ k) key xs d.0 in
        let untouched = update_where_none (matches x) (f x) xs (
          All-imp (λ y. key x ≢ key y) (λ y. matches x y ≡ false) (λ y h. apart same x y h) xs
            others) in
        let far = λ (z : A) (e : key z ≡ key x).
          All-imp (λ y. (key x ≢ key y) × (selected y ≡ true)) (λ y. matches y z ≡ false)
            (λ y h. apart same y z (λ k. h.0 (sym e ∙ sym k))) (filter selected xs)
            (All-filter (λ y. key x ≢ key y) selected xs others) in
        let head : (e : matches x x ≡ true) → update_where (matches x) (f x) (x ∷ xs) ≡ f x x ∷ xs =
          λ e. rw (e, untouched) in
        elim (Bool-cases (selected x)) [
          | inl t ↦ rw t (
              ap (update_rows matches f (filter selected xs)) (head (self x t))
              ∙ update_rows-cons (filter selected xs) (f x x) xs (far (f x x) (keeps x))
              ∙ ap (λ r. f x x ∷ r) ih)
          | inr t ↦
              rw t (update_rows-cons (filter selected xs) x xs (far x refl) ∙ ap (λ r. x ∷ r) ih)
        ]

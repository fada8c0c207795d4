-- ===== src/Base/Tables.antt =====
-- A table as a list of rows: reading and updating the rows that a WHERE clause selects.
use mathlib.Core.Path.{◌≡◌, refl, sym, subst, ◌∙◌}
use mathlib.Core.Logic.{inl, inr, ◌≢◌}
use mathlib.Core.Bool.{Bool, true, false}
use mathlib.Core.Option.{Option, none, some}
use mathlib.Core.List.{List, [], ◌∷◌, ◌++◌, map}
use Prim.Native.String.{String}
use native.Mathlib.Omega.{arith}
use claude_cloud_ops_tool.Base.Tests.{if◌then◌else◌, Bool-cases, ◌==◌, string_eq, eq-of-==}
use claude_cloud_ops_tool.Base.Lists.{All, All-append, All-imp, All-of_map, IsDistinct, any}

module _ {ℓ} {A : Type ℓ} where
  -- The first row that a query returns.
  abbrev pub find : (A → Bool) → List A → Option A
  find p [] = none
  find p (x ∷ xs) = if p x then some x else find p xs

  -- UPDATE … SET f WHERE p
  abbrev pub update_where : (A → Bool) → (A → A) → List A → List A
  update_where p f [] = []
  update_where p f (x ∷ xs) = (if p x then f x else x) ∷ update_where p f xs

module _ {ℓ κ} {A : Type ℓ} (P : A → Type κ) where
  pub All-update_where :
      (p : A → Bool) (f : A → A)
      → ((x : A) → P x → p x ≡ true → P (f x))
      → (xs : List A) → All P xs
      → All P (update_where p f xs)
  All-update_where p f keep [] h = tt
  All-update_where p f keep (x ∷ xs) h = elim (Bool-cases (p x)) [
    | inl e ↦ rw e (keep x h.0 e, All-update_where p f keep xs h.1)
    | inr e ↦ rw e (h.0, All-update_where p f keep xs h.1)
  ]

  pub All-find :
      (p : A → Bool) (xs : List A) {x : A} → find p xs ≡ some x → All P xs → P x × (p x ≡ true)
  All-find p [] e h = cc
  All-find p (y ∷ ys) {x} e h = elim (Bool-cases (p y)) [
    | inl t ↦ let same : y ≡ x = ground arith in subst (λ z. P z × (p z ≡ true)) same (h.0, t)
    | inr t ↦ All-find p ys (ground arith) h.1
  ]

module _ {ℓ} {A : Type ℓ} where
  pub find-update_where :
      (p : A → Bool) (f : A → A)
      → ((x : A) → p x ≡ true → p (f x) ≡ true)
      → (xs : List A) {x : A} → find p xs ≡ some x
      → find p (update_where p f xs) ≡ some (f x)
  find-update_where p f keep [] e = cc
  find-update_where p f keep (y ∷ ys) {x} e = elim (Bool-cases (p y)) [
    | inl t ↦ ground (arith, keep y t)
    | inr t ↦ ground (arith, find-update_where p f keep ys {x = x})
  ]

  -- A query whose condition no updated row meets, before or after, is not affected.
  pub find-update_where_ne :
      (q p : A → Bool) (f : A → A)
      → ((x : A) → p x ≡ true → (q x ≡ false) × (q (f x) ≡ false))
      → (xs : List A) → find q (update_where p f xs) ≡ find q xs
  find-update_where_ne q p f apart [] = refl
  find-update_where_ne q p f apart (y ∷ ys) = elim (Bool-cases (p y)) [
    | inl t ↦ ground (arith, apart y t, find-update_where_ne q p f apart ys)
    | inr t ↦ ground (arith, find-update_where_ne q p f apart ys)
  ]

  pub map-update_where {κ} :
      {B : Type κ} (g : A → B) (p : A → Bool) (f : A → A)
      → ((x : A) → g (f x) ≡ g x)
      → (xs : List A) → map g (update_where p f xs) ≡ map g xs
  map-update_where g p f same [] = refl
  map-update_where g p f same (y ∷ ys) = elim (Bool-cases (p y)) [
    | inl t ↦ rw (t, same y, map-update_where g p f same ys)
    | inr t ↦ rw (t, map-update_where g p f same ys)
  ]

  pub find-of_any : (p : A → Bool) (xs : List A) → any p xs ≡ true → (x : A) × (find p xs ≡ some x)
  find-of_any p [] h = cc
  find-of_any p (x ∷ xs) h = elim (Bool-cases (p x)) [
    | inl t ↦ (x, rw t)
    | inr t ↦ rw t (find-of_any p xs (ground arith))
  ]

  pub find-append_new :
      (p : A → Bool) (xs : List A) (x : A)
      → any p xs ≡ false
      → p x ≡ true
      → find p (xs ++ x ∷ []) ≡ some x
  find-append_new p [] x h e = rw e
  find-append_new p (y ∷ ys) x h e = ground (arith, find-append_new p ys x)

  pub any-of_find-none : (p : A → Bool) (xs : List A) → find p xs ≡ none → any p xs ≡ false
  any-of_find-none p [] h = refl
  any-of_find-none p (x ∷ xs) h = ground (arith, any-of_find-none p xs)

  pub any-append_new :
      (p : A → Bool) (xs : List A) (x : A) → p x ≡ true → any p (xs ++ x ∷ []) ≡ true
  any-append_new p [] x h = rw h
  any-append_new p (y ∷ ys) x h = ground (arith, any-append_new p ys x)

  -- With distinct keys, the row found by a key is the only row that has it.
  pub find_unique :
      (key : A → String) (k : String) (xs : List A) {a : A}
      → IsDistinct (map key xs)
      → find (λ x. key x == k) xs ≡ some a
      → All (λ x. (key x == k) ≡ true → x ≡ a) xs
  find_unique key k [] d e = tt
  find_unique key k (x ∷ xs) {a} d e = elim (Bool-cases (key x == k)) [
    | inl t ↦
        let s : x ≡ a = ground arith in
        (
          λ _. s,
          All-imp (λ y. key x ≢ key y) (λ y. (key y == k) ≡ true → y ≡ a)
              (λ y apart u. absurd (apart (eq-of-== (key x) k t ∙ sym (eq-of-== (key y) k u)))) xs
              (All-of_map (λ z. key x ≢ z) key xs d.0),
        )
    | inr t ↦ (λ u. absurd (cc), find_unique key k xs d.1 (ground arith))
  ]

module _ {ℓ} {A : Type ℓ} where
  pub find-true : (p : A → Bool) (xs : List A) {x : A} → find p xs ≡ some x → p x ≡ true
  find-true p [] e = cc
  find-true p (y ∷ ys) {x} e = elim (Bool-cases (p y)) [
    | inl t ↦ let same : y ≡ x = ground arith in subst (λ z. p z ≡ true) same t
    | inr t ↦ find-true p ys (ground arith)
  ]

  -- A row that a query finds is one that any weaker test meets, on what is read of it.
  pub find-any-map {κ} :
      {B : Type κ} (f : A → B) (p : A → Bool) (q : B → Bool) (xs : List A) {x : A}
      → find p xs ≡ some x
      → q (f x) ≡ true
      → any q (map f xs) ≡ true
  find-any-map f p q [] e h = cc
  find-any-map f p q (y ∷ ys) {x} e h = elim (Bool-cases (p y)) [
    | inl t ↦
        let same : y ≡ x = ground arith in
        let there : q (f y) ≡ true = subst (λ z. q (f z) ≡ true) (sym same) h in rw there refl
    | inr t ↦ let rest = find-any-map f p q ys (ground arith) h in ground arith
  ]

  pub any-map_append {κ} :
      {B : Type κ} (f : A → B) (q : B → Bool) (xs : List A) (x : A)
      → q (f x) ≡ true
      → any q (map f (xs ++ x ∷ [])) ≡ true
  any-map_append f q [] x h = rw h refl
  any-map_append f q (y ∷ ys) x h = let rest = any-map_append f q ys x h in ground arith

  pub any-map_imp {κ} :
      {B : Type κ} (f : A → B) (p : A → Bool) (q : B → Bool)
      → ((x : A) → p x ≡ true → q (f x) ≡ true)
      → (xs : List A) → any p xs ≡ true
      → any q (map f xs) ≡ true
  any-map_imp f p q imp [] h = cc
  any-map_imp f p q imp (y ∷ ys) h = elim (Bool-cases (p y)) [
    | inl t ↦ rw (imp y t) refl
    | inr t ↦ let rest = any-map_imp f p q imp ys (ground arith) in ground arith
  ]

pub IsDistinct-append :
    {A : Type 0} (xs : List A) (x : A)
    → IsDistinct xs
    → All (λ y. y ≢ x) xs
    → IsDistinct (xs ++ x ∷ [])
IsDistinct-append [] x d h = (tt, tt)
IsDistinct-append (y ∷ ys) x d h =
    (All-append (λ z. y ≢ z) ys (x ∷ []) d.0 (h.0, tt), IsDistinct-append ys x d.1 h.1)

module _ {ℓ} {A : Type ℓ} where
  -- The same where the query asks for more than the key.
  pub find_keyed :
      (p : A → Bool) (key : A → String) (k : String)
      → ((x : A) → p x ≡ true → (key x == k) ≡ true)
      → (xs : List A) {a : A} → IsDistinct (map key xs)
      → find p xs ≡ some a
      → All (λ x. (key x == k) ≡ true → x ≡ a) xs
  find_keyed p key k keyed [] d e = tt
  find_keyed p key k keyed (x ∷ xs) {a} d e =
      let apart = All-of_map (λ z. key x ≢ z) key xs d.0 in
      elim (Bool-cases (p x)) [
        | inl t ↦
            let s : x ≡ a = ground arith in
            let mine = eq-of-== (key x) k (keyed x t) in
            (
              λ _. s,
              All-imp (λ y. key x ≢ key y) (λ y. (key y == k) ≡ true → y ≡ a)
                  (λ y other u. absurd (other (mine ∙ sym (eq-of-== (key y) k u)))) xs apart,
            )
        | inr t ↦
            let rest : find p xs ≡ some a = ground arith in
            let theirs = eq-of-== (key a) k (keyed a (find-true p xs rest)) in
            (
              λ u. absurd (
                  (All-find (λ y. key x ≢ key y) p xs rest apart).0
                    (eq-of-== (key x) k u ∙ sym theirs)),
              find_keyed p key k keyed xs d.1 rest,
            )
      ]

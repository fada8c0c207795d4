-- ===== src/Monitoring/Agents/Queries.antt =====
-- Queries of the table of agents' tokens, before and after a statement
-- (apps/api/src/modules/monitoring/agent-tokens.service.ts).
use claude_cloud_ops_tool.Base.{
  Bool, Bool-cases, List, Option, [], arith, false, filter, find, inl, inr, none, not, refl, some,
  true, update_where, ◌++◌, ◌∙◌, ◌∷◌, ◌≡◌,
}

-- Queries by a condition `q` that is stronger than the condition `p` of a statement.
module _ {ℓ} {A : Type ℓ} (p q : A → Bool) where
  pub find-none_stronger :
      ((x : A) → q x ≡ true → p x ≡ true) → (xs : List A) → find p xs ≡ none → find q xs ≡ none
  find-none_stronger weaker [] e = refl
  find-none_stronger weaker (x ∷ xs) e = elim (Bool-cases (q x)) [
    | inl t ↦ let there = weaker x t in ground arith
    | inr t ↦ rw t (find-none_stronger weaker xs (ground arith))
  ]

  pub find-filter_stronger :
      ((x : A) → q x ≡ true → p x ≡ true)
      → (xs : List A) → find q (filter (λ x. not (p x)) xs) ≡ none
  find-filter_stronger weaker [] = refl
  find-filter_stronger weaker (x ∷ xs) = elim (Bool-cases (p x)) [
    | inl t ↦ rw t (find-filter_stronger weaker xs)
    | inr t ↦ elim (Bool-cases (q x)) [
      | inl u ↦ let there = weaker x u in ground arith
      | inr u ↦ rw (t, u) (find-filter_stronger weaker xs)
    ]
  ]

  pub find-filter_apart :
      ((x : A) → p x ≡ true → q x ≡ false)
      → (xs : List A) → find q (filter (λ x. not (p x)) xs) ≡ find q xs
  find-filter_apart apart [] = refl
  find-filter_apart apart (x ∷ xs) = elim (Bool-cases (p x)) [
    | inl t ↦ let elsewhere = apart x t in rw (t, elsewhere) (find-filter_apart apart xs)
    | inr t ↦ elim (Bool-cases (q x)) [
      | inl u ↦ rw (t, u) refl
      | inr u ↦ rw (t, u) (find-filter_apart apart xs)
    ]
  ]

  pub find-update_stronger {κ} :
      {B : Type κ} (f : A → A) (g : Option A → B) (h : B → B)
      → ((x : A) → q x ≡ true → p x ≡ true)
      → ((x : A) → q (f x) ≡ q x)
      → (g none ≡ h (g none))
      → ((x : A) → g (some (f x)) ≡ h (g (some x)))
      → (xs : List A) → g (find q (update_where p f xs)) ≡ h (g (find q xs))
  find-update_stronger f g h weaker keep nothing here [] = nothing
  find-update_stronger f g h weaker keep nothing here (x ∷ xs) = elim (Bool-cases (q x)) [
    | inl t ↦
        let there = weaker x t in
        let kept : q (f x) ≡ true = keep x ∙ t in rw (there, t, kept) (here x)
    | inr t ↦
        let kept : q (f x) ≡ false = keep x ∙ t in
        let rest = find-update_stronger f g h weaker keep nothing here xs in
        elim (Bool-cases (p x)) [ inl u ↦ rw (u, t, kept) rest | inr u ↦ rw (u, t) rest ]
  ]

module _ {ℓ} {A : Type ℓ} (q : A → Bool) where
  pub find-append_apart : (xs : List A) (x : A) → q x ≡ false → find q (xs ++ x ∷ []) ≡ find q xs
  find-append_apart [] x e = rw e refl
  find-append_apart (y ∷ ys) x e = elim (Bool-cases (q y)) [
    | inl t ↦ rw t refl
    | inr t ↦ rw t (find-append_apart ys x e)
  ]

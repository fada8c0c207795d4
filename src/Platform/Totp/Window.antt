-- ===== src/Platform/Totp/Window.antt =====
-- Which codes are accepted, and when (apps/api/src/modules/platform/auth/totp.ts).
use claude_cloud_ops_tool.Base.{
  ==_refl, Bool-cases, List, [], ap, arith, inl, inr, nat_eq, option_eq, refl, some, string_eq,
  subst, suc, sym, true, ℕ, ◌%◌, ◌*◌, ◌++◌, ◌+◌, ◌-◌, ◌/◌, ◌^◌, ◌↔◌, ◌∙◌, ◌∷◌, ◌≡◌, ◌≤◌, ◌⊎◌,
}
use claude_cloud_ops_tool.Platform.Totp.{
  Characters, same_bytes, decimal, is_code, hotp, totp_code_at, matches_any, verify_totp, windows,
  big_endian, truncated, base32_decode,
}

same_bytes_refl : (xs : List ℕ) → same_bytes xs xs ≡ true
same_bytes_refl [] = refl
same_bytes_refl (x ∷ xs) = rw (==_refl x) (same_bytes_refl xs)

eq-of-same_bytes : (xs ys : List ℕ) → same_bytes xs ys ≡ true → xs ≡ ys
eq-of-same_bytes [] [] h = refl
eq-of-same_bytes [] (y ∷ ys) h = cc
eq-of-same_bytes (x ∷ xs) [] h = cc
eq-of-same_bytes (x ∷ xs) (y ∷ ys) h = ground (arith, eq-of-same_bytes xs ys)

is_code-decimal : (n : ℕ) → is_code (decimal 6 n) ≡ true
is_code-decimal n = ground arith

-- Two instants that are at most one step, 30 seconds, apart.
abbrev pub Near : ℕ → ℕ → Type 0
Near at now = (at ≤ now + 30000) × (now ≤ at + 30000)

-- The code of a counter is the code of an instant a step before, at or a step after any instant in the
-- step of the counter between.
step_between :
    (k n now : ℕ)
    → now / 1000 / 30 ≡ suc n
    → n ≤ k
    → k ≤ n + 2
    → (at : ℕ) × Near at now × (at / 1000 / 30 ≡ k)
step_between k n now e low high =
    (now + 30000 * k - 30000 * suc n, (omega arith, omega arith), omega arith)

counter_bounds :
    (at n now : ℕ)
    → now / 1000 / 30 ≡ suc n
    → Near at now
    → (n ≤ at / 1000 / 30) × (at / 1000 / 30 ≤ n + 2)
counter_bounds at n now e h = (omega arith, omega arith)

module _ (js : Characters) (hmac_sha1 : List ℕ → List ℕ → List ℕ) where
  hotp-is_code : (secret : List ℕ) (counter : ℕ) → is_code (hotp js hmac_sha1 secret counter) ≡ true
  unfolding hotp
  hotp-is_code secret counter =
      let buf = big_endian 4 (counter / 2 ^ 32) ++ big_endian 4 (counter % 2 ^ 32) in
      is_code-decimal (truncated (hmac_sha1 (base32_decode js secret) buf) % 10 ^ 6)

  matches_any-inv :
      (secret code : List ℕ) (n : ℕ)
      → matches_any js hmac_sha1 secret code (windows (suc n)) ≡ some true
      → (k : ℕ) × (n ≤ k) × (k ≤ n + 2) × (hotp js hmac_sha1 secret k ≡ code)
  unfolding matches_any
  matches_any-inv secret code n e =
      let same = λ (k : ℕ). same_bytes (hotp js hmac_sha1 secret k) code in
      let eq = λ (k : ℕ). eq-of-same_bytes (hotp js hmac_sha1 secret k) code in
      elim (Bool-cases (same n)) [
        | inl t ↦ (n, omega arith, omega arith, eq n t)
        | inr t ↦ elim (Bool-cases (same (suc n))) [
          | inl u ↦ (suc n, omega arith, omega arith, eq (suc n) u)
          | inr u ↦ elim (Bool-cases (same (suc (suc n)))) [
            | inl v ↦ (suc (suc n), omega arith, omega arith, eq (suc (suc n)) v)
            | inr v ↦ ground arith
          ]
        ]
      ]

  matches_any-window :
      (secret : List ℕ) (n k : ℕ)
      → n ≤ k
      → k ≤ n + 2
      → matches_any js hmac_sha1 secret (hotp js hmac_sha1 secret k) (windows (suc n)) ≡ some true
  unfolding matches_any
  matches_any-window secret n k low high =
      let code = hotp js hmac_sha1 secret k in
      let at = λ (j : ℕ) (e : k ≡ j).
        subst (λ i. same_bytes (hotp js hmac_sha1 secret i) code ≡ true) e (same_bytes_refl code) in
      let place : (k ≡ n) ⊎ ((k ≡ suc n) ⊎ (k ≡ suc (suc n))) = ground arith in
      elim place [
        | inl e ↦ ground (arith, at n e)
        | inr (inl e) ↦ ground (arith, at (suc n) e)
        | inr (inr e) ↦ ground (arith, at (suc (suc n)) e)
      ]

  verify_totp-inv :
      (secret code : List ℕ) (now : ℕ)
      → verify_totp js hmac_sha1 secret (some code) now ≡ some true
      → matches_any js hmac_sha1 secret (js.trim code) (windows (now / 1000 / 30)) ≡ some true
  unfolding verify_totp
  verify_totp-inv secret code now e = elim (Bool-cases (is_code (js.trim code))) [
    | inl t ↦ rw t at e
    | inr t ↦ ground arith
  ]

  verify_totp-of_code :
      (secret code : List ℕ) (now k : ℕ)
      → js.trim code ≡ hotp js hmac_sha1 secret k
      → matches_any js hmac_sha1 secret (hotp js hmac_sha1 secret k) (windows (now / 1000 / 30))
        ≡ some true
      → verify_totp js hmac_sha1 secret (some code) now ≡ some true
  unfolding verify_totp
  verify_totp-of_code secret code now k same found = rw (same, hotp-is_code secret k) found

  -- From half a minute after 1970 on, a code is accepted exactly if it is, trimmed, the code of some
  -- instant that is at most 30 seconds away.
  pub verify_totp_iff :
      (secret code : List ℕ) (now : ℕ)
      → 30000 ≤ now
      → (verify_totp js hmac_sha1 secret (some code) now ≡ some true)
        ↔ ((at : ℕ) × Near at now × (js.trim code ≡ totp_code_at js hmac_sha1 secret at))
  unfolding totp_code_at
  verify_totp_iff secret code now late =
      let n = now / 1000 / 30 - 1 in
      let step : now / 1000 / 30 ≡ suc n = omega arith in
      (
        λ e.
            let found = verify_totp-inv secret code now e in
            let (k, low, high, same) = matches_any-inv secret (js.trim code) n (
              subst (λ c. matches_any js hmac_sha1 secret (js.trim code) (windows c) ≡ some true)
                step found) in
            let (at, near, counter) = step_between k n now step low high in
            (at, near, sym same ∙ ap (hotp js hmac_sha1 secret) (sym counter)),
        λ (at, near, same).
            let k = at / 1000 / 30 in
            let (low, high) = counter_bounds at n now step near in
            verify_totp-of_code secret code now k same (
              subst
                (λ c.
                  matches_any js hmac_sha1 secret (hotp js hmac_sha1 secret k) (windows c)
                  ≡ some true)
                (sym step) (matches_any-window secret n k low high)),
      )

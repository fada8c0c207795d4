-- ===== src/Platform/Totp/Secret.antt =====
-- A new secret is read back as the bytes that it was made of (apps/api/src/modules/platform/auth/
-- totp.ts).
use claude_cloud_ops_tool.Base.{
  All, All-append, List, [], ap, arith, false, filter, length, nat_eq, not, option_eq, refl, some,
  string_eq, subst, suc, sym, zero, ℕ, ◌*◌, ◌++◌, ◌<◌, ◌==◌, ◌∙◌, ◌∷◌, ◌≡◌,
}
use claude_cloud_ops_tool.Platform.Totp.{
  letter, alphabet_index, binary, by_five, by_eight, bits_of, generate_totp_secret, base32_decode,
  Characters, concat_map, parse_binary, strip_padding,
}

abbrev pub IsByte : ℕ → Type 0
IsByte b = b < 256

abbrev IsBit : ℕ → Type 0
IsBit d = d < 2

-- A letter of BASE32_ALPHABET.
abbrev pub IsLetter : ℕ → Type 0
IsLetter c = (v : ℕ) × (v < 32) × (c ≡ letter v)

-- What the runtime does with the letters of the alphabet: they are upper case and no spaces.
pub record KeepsLetters (js : Characters) : Type 0 where
  pub upper : (cs : List ℕ) → All IsLetter cs → js.to_upper_case cs ≡ cs
  pub visible : (c : ℕ) → IsLetter c → js.is_space c ≡ false

alphabet_index-letter : (v : ℕ) → v < 32 → alphabet_index (letter v) ≡ some v
alphabet_index-letter v h = ground arith

parse_five-lt :
    (a b c d e : ℕ)
    → IsBit a
    → IsBit b
    → IsBit c
    → IsBit d
    → IsBit e
    → parse_binary 0 (a ∷ b ∷ c ∷ d ∷ e ∷ []) < 32
parse_five-lt a b c d e ha hb hc hd he = omega arith

binary-parse_five :
    (a b c d e : ℕ)
    → IsBit a
    → IsBit b
    → IsBit c
    → IsBit d
    → IsBit e
    → binary 5 (parse_binary 0 (a ∷ b ∷ c ∷ d ∷ e ∷ [])) ≡ a ∷ b ∷ c ∷ d ∷ e ∷ []
unfolding binary
binary-parse_five a b c d e ha hb hc hd he = ground arith

bits_of-letter : (v : ℕ) → v < 32 → bits_of (letter v) ≡ binary 5 v
unfolding binary
bits_of-letter v h = rw (alphabet_index-letter v h, bits_of) refl

-- Whole groups of five bits come back.
concat_map-bits_of-by_five :
    (k : ℕ) (ds : List ℕ) → length ds ≡ 5 * k → All IsBit ds → concat_map bits_of (by_five ds) ≡ ds
concat_map-bits_of-by_five zero [] e h = refl
concat_map-bits_of-by_five zero (a ∷ ds) e h = absurd (omega arith)
concat_map-bits_of-by_five (suc k) [] e h = refl
concat_map-bits_of-by_five (suc k) (a ∷ []) e h = absurd (omega arith)
concat_map-bits_of-by_five (suc k) (a ∷ b ∷ []) e h = absurd (omega arith)
concat_map-bits_of-by_five (suc k) (a ∷ b ∷ c ∷ []) e h = absurd (omega arith)
concat_map-bits_of-by_five (suc k) (a ∷ b ∷ c ∷ d ∷ []) e h = absurd (omega arith)
concat_map-bits_of-by_five (suc k) (a ∷ b ∷ c ∷ d ∷ f ∷ ds) e (ha, (hb, (hc, (hd, (hf, h))))) =
    let v = parse_binary 0 (a ∷ b ∷ c ∷ d ∷ f ∷ []) in
    let first : bits_of (letter v) ≡ a ∷ b ∷ c ∷ d ∷ f ∷ [] =
      bits_of-letter v (parse_five-lt a b c d f ha hb hc hd hf)
      ∙ binary-parse_five a b c d f ha hb hc hd hf in
    ap (λ (p : List ℕ). p ++ concat_map bits_of (by_five ds)) first
    ∙ ap (λ (rest : List ℕ). a ∷ b ∷ c ∷ d ∷ f ∷ rest)
        (concat_map-bits_of-by_five k ds (omega arith) h)

parse_eight-binary : (b : ℕ) → IsByte b → parse_binary 0 (binary 8 b) ≡ b
unfolding binary
parse_eight-binary b h = omega arith

by_eight-binary :
    (bytes : List ℕ) → All IsByte bytes → by_eight (concat_map (binary 8) bytes) ≡ bytes
unfolding binary
by_eight-binary [] h = refl
by_eight-binary (b ∷ bytes) h =
    ap (λ (x : ℕ). x ∷ by_eight (concat_map (binary 8) bytes)) (parse_eight-binary b h.0)
    ∙ ap (λ (rest : List ℕ). b ∷ rest) (by_eight-binary bytes h.1)

binary-IsBit : (bytes : List ℕ) → All IsBit (concat_map (binary 8) bytes)
unfolding binary
binary-IsBit [] = tt
binary-IsBit (b ∷ bytes) =
    All-append IsBit (binary 8 b) (concat_map (binary 8) bytes) (omega arith) (binary-IsBit bytes)

length-binary : (bytes : List ℕ) → length (concat_map (binary 8) bytes) ≡ 8 * length bytes
unfolding binary
length-binary [] = refl
length-binary (b ∷ bytes) = omega (arith, length-binary bytes)

by_five-IsLetter :
    (k : ℕ) (ds : List ℕ) → length ds ≡ 5 * k → All IsBit ds → All IsLetter (by_five ds)
by_five-IsLetter zero [] e h = tt
by_five-IsLetter zero (a ∷ ds) e h = absurd (omega arith)
by_five-IsLetter (suc k) [] e h = tt
by_five-IsLetter (suc k) (a ∷ []) e h = absurd (omega arith)
by_five-IsLetter (suc k) (a ∷ b ∷ []) e h = absurd (omega arith)
by_five-IsLetter (suc k) (a ∷ b ∷ c ∷ []) e h = absurd (omega arith)
by_five-IsLetter (suc k) (a ∷ b ∷ c ∷ d ∷ []) e h = absurd (omega arith)
by_five-IsLetter (suc k) (a ∷ b ∷ c ∷ d ∷ f ∷ ds) e (ha, (hb, (hc, (hd, (hf, h))))) = (
  (parse_binary 0 (a ∷ b ∷ c ∷ d ∷ f ∷ []), parse_five-lt a b c d f ha hb hc hd hf, refl),
  by_five-IsLetter k ds (omega arith) h,
)

letter-ne-padding : (v : ℕ) → v < 32 → (letter v == 61) ≡ false
letter-ne-padding v h = ground arith

strip_padding-letters : (cs : List ℕ) → All IsLetter cs → strip_padding cs ≡ cs
strip_padding-letters [] h = refl
strip_padding-letters (c ∷ cs) h =
    let e : (c == 61) ≡ false =
      subst (λ k. (k == 61) ≡ false) (sym h.0.2) (letter-ne-padding h.0.0 h.0.1) in
    rw e (ap (λ (rest : List ℕ). c ∷ rest) (strip_padding-letters cs h.1))

filter-visible :
    (js : Characters)
    → KeepsLetters js
    → (cs : List ℕ) → All IsLetter cs
    → filter (λ c. not (js.is_space c)) cs ≡ cs
filter-visible js keeps [] h = refl
filter-visible js keeps (c ∷ cs) h =
    rw (keeps.visible c h.0) (ap (λ (rest : List ℕ). c ∷ rest) (filter-visible js keeps cs h.1))

-- Where the runtime keeps the letters A to Z and the digits 2 to 7 as they are, a secret made of
-- random bytes whose number is a multiple of five (the program takes 20) is read back as these bytes.
pub base32_decode-generate_totp_secret :
    (js : Characters)
    → KeepsLetters js
    → (k : ℕ) (bytes : List ℕ) → length bytes ≡ 5 * k
    → All IsByte bytes
    → base32_decode js (generate_totp_secret bytes) ≡ bytes
unfolding base32_decode generate_totp_secret
base32_decode-generate_totp_secret js keeps k bytes e h =
    let bits = concat_map (binary 8) bytes in
    let whole : length bits ≡ 5 * (8 * k) = omega (arith, length-binary bytes) in
    let letters : All IsLetter (by_five bits) =
      by_five-IsLetter (8 * k) bits whole (binary-IsBit bytes) in
    let clean : filter (λ c. not (js.is_space c)) (js.to_upper_case (strip_padding (by_five bits)))
        ≡ by_five bits =
      ap (λ (cs : List ℕ). filter (λ c. not (js.is_space c)) (js.to_upper_case cs))
        (strip_padding-letters (by_five bits) letters)
      ∙ ap (filter (λ c. not (js.is_space c))) (keeps.upper (by_five bits) letters)
      ∙ filter-visible js keeps (by_five bits) letters in
    ap (λ (cs : List ℕ). by_eight (concat_map bits_of cs)) clean
    ∙ ap by_eight (concat_map-bits_of-by_five (8 * k) bits whole (binary-IsBit bytes))
    ∙ by_eight-binary bytes h

-- ===== src/Platform/Totp.antt =====
-- Time-based one-time passwords (apps/api/src/modules/platform/auth/totp.ts). A text is the list of
-- its character codes. The bytes of `randomBytes`, HMAC-SHA1 and `toUpperCase` are parameters.
pub mod Secret
pub mod Window
use claude_cloud_ops_tool.Base.{
  Bool, List, Option, [], all, default_to, false, filter, get_elem?, if◌then◌else◌, leb, length,
  ltb, nat_eq, none, not, option_eq, some, string_eq, suc, true, zero, ℕ, ◌%◌, ◌&&◌, ◌*◌, ◌++◌, ◌+◌,
  ◌-◌, ◌/◌, ◌==◌, ◌^◌, ◌∷◌,
}

-- BASE32_ALPHABET: A to Z, 2 to 7
abbrev pub letter : ℕ → ℕ
letter v = if ltb v 26 then 65 + v else 24 + v

-- BASE32_ALPHABET.indexOf
abbrev pub alphabet_index : ℕ → Option ℕ
alphabet_index c =
    if leb 65 c && leb c 90
    then some (c - 65)
    else (if leb 50 c && leb c 55 then some (c - 24) else none)

-- `n.toString(2).padStart(width, '0')` of a number below 2 ^ width, as digits.
unfoldable pub binary : ℕ → ℕ → List ℕ
binary zero n = []
binary (suc width) n = binary width (n / 2) ++ n % 2 ∷ []

-- `parseInt(digits, 2)`
abbrev pub parse_binary : ℕ → List ℕ → ℕ
parse_binary acc [] = acc
parse_binary acc (d ∷ ds) = parse_binary (2 * acc + d) ds

abbrev pub concat_map : {A B : Type 0} → (A → List B) → List A → List B
concat_map f [] = []
concat_map f (x ∷ xs) = f x ++ concat_map f xs

-- The loop of generateTotpSecret: whole groups of five bits.
abbrev pub by_five : List ℕ → List ℕ
by_five (a ∷ b ∷ c ∷ d ∷ e ∷ rest) = letter (parse_binary 0 (a ∷ b ∷ c ∷ d ∷ e ∷ [])) ∷ by_five rest
by_five _ = []

-- The loop of base32Decode: whole groups of eight bits.
abbrev pub by_eight : List ℕ → List ℕ
by_eight (a ∷ b ∷ c ∷ d ∷ e ∷ f ∷ g ∷ h ∷ rest) =
    parse_binary 0 (a ∷ b ∷ c ∷ d ∷ e ∷ f ∷ g ∷ h ∷ []) ∷ by_eight rest
by_eight _ = []

-- `generateTotpSecret`, given its random bytes.
unfoldable pub generate_totp_secret : List ℕ → List ℕ
unfolding binary
generate_totp_secret bytes = by_five (concat_map (binary 8) bytes)

-- A character that is not in the alphabet is skipped.
abbrev pub bits_of : ℕ → List ℕ
unfolding binary
bits_of c = elim (alphabet_index c) [ none ↦ [] | some i ↦ binary 5 i ]

-- `input.replace(/=+$/, '')`
abbrev pub strip_padding : List ℕ → List ℕ
strip_padding [] = []
strip_padding (c ∷ cs) =
    let rest = strip_padding cs in if c == 61 && length rest == 0 then [] else c ∷ rest

-- What the runtime does with characters.
pub record Characters : Type 0 where
  pub to_upper_case : List ℕ → List ℕ
  -- `\s`
  pub is_space : ℕ → Bool
  pub trim : List ℕ → List ℕ

module _ (js : Characters) where
  -- `base32Decode`
  unfoldable pub base32_decode : List ℕ → List ℕ
  unfolding binary
  base32_decode input =
      let clean = filter (λ c. not (js.is_space c)) (js.to_upper_case (strip_padding input)) in
      by_eight (concat_map bits_of clean)

-- `writeUInt32BE`, and the low bytes of a larger number.
abbrev pub big_endian : ℕ → ℕ → List ℕ
big_endian zero n = []
big_endian (suc bytes) n = big_endian bytes (n / 256) ++ n % 256 ∷ []

-- `n.toString().padStart(width, '0')` of a number below 10 ^ width.
abbrev pub decimal : ℕ → ℕ → List ℕ
decimal zero n = []
decimal (suc width) n = decimal width (n / 10) ++ (48 + n % 10) ∷ []

-- `digest[i]`, which counts as 0 out of range.
abbrev pub byte_at : List ℕ → ℕ → ℕ
byte_at bytes i = default_to 0 (get_elem? bytes i)

-- The four bytes of the digest from the offset on, without the sign bit. The shifted bytes share no
-- bits, so that `|` is a sum.
abbrev pub truncated : List ℕ → ℕ
truncated digest =
    let offset = byte_at digest (length digest - 1) % 16 in
    byte_at digest offset % 128 * 2 ^ 24
    + byte_at digest (offset + 1) % 256 * 2 ^ 16
    + byte_at digest (offset + 2) % 256 * 2 ^ 8
    + byte_at digest (offset + 3) % 256

-- `/^\d{6}$/`
abbrev pub is_code : List ℕ → Bool
is_code cs = length cs == 6 && all (λ c. leb 48 c && leb c 57) cs

-- The counters of the windows -1, 0 and 1; `none` is -1.
abbrev pub windows : ℕ → List (Option ℕ)
windows zero = none ∷ some 0 ∷ some 1 ∷ []
windows (suc n) = some n ∷ some (suc n) ∷ some (suc (suc n)) ∷ []

-- Equal lengths and `timingSafeEqual`.
abbrev pub same_bytes : List ℕ → List ℕ → Bool
same_bytes [] [] = true
same_bytes [] (y ∷ ys) = false
same_bytes (x ∷ xs) [] = false
same_bytes (x ∷ xs) (y ∷ ys) = x == y && same_bytes xs ys

module _ (js : Characters) (hmac_sha1 : List ℕ → List ℕ → List ℕ) where
  unfoldable pub hotp : List ℕ → ℕ → List ℕ
  hotp secret counter =
      let buf = big_endian 4 (counter / 2 ^ 32) ++ big_endian 4 (counter % 2 ^ 32) in
      decimal 6 (truncated (hmac_sha1 (base32_decode js secret) buf) % 10 ^ 6)

  -- The instant is in milliseconds, and a step is 30 seconds long.
  unfoldable pub totp_code_at : List ℕ → ℕ → List ℕ
  totp_code_at secret at = hotp secret (at / 1000 / 30)

  -- The loop over the windows. `writeUInt32BE` throws on the counter -1, which is `none`.
  unfoldable pub matches_any : List ℕ → List ℕ → List (Option ℕ) → Option Bool
  matches_any secret code [] = some false
  matches_any secret code (none ∷ counters) = none
  matches_any secret code (some counter ∷ counters) =
      let rest = matches_any secret code counters in
      if same_bytes (hotp secret counter) code then some true else rest

  unfoldable pub verify_totp : List ℕ → Option (List ℕ) → ℕ → Option Bool
  verify_totp secret code at =
      let trimmed = js.trim (default_to [] code) in
      if is_code trimmed then matches_any secret trimmed (windows (at / 1000 / 30)) else some false

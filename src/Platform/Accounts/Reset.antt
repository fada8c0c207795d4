-- ===== src/Platform/Accounts/Reset.antt =====
-- A password is reset at most once with a token (apps/api/src/modules/platform/auth/auth.service.ts).
use claude_cloud_ops_tool.Base.{
  ==_refl, All, Bool-cases, IsDistinct, List, Option-cases, Result-cases, String, [], ap, arith,
  err, find, find-true, find_keyed, inl, inr, map, nat_eq, none, ok, option_eq, refl, some,
  string_eq, subst, sym, true, unauthorized, update_where, ℕ, ◌==◌, ◌∙◌, ◌∷◌, ◌≡◌,
}
use claude_cloud_ops_tool.Platform.Redis.{Redis, IsRedis}
use claude_cloud_ops_tool.Platform.Security.{revoke_user_sessions}
use claude_cloud_ops_tool.Platform.Security.Revoked.{Marked, revoke-Marked}
use claude_cloud_ops_tool.Platform.Accounts.{
  Accounts, Crypto, ResetToken, is_usable, is_reset_token, is_user, mark_used, set_password,
  reset_with, consume_reset_token, reset_password,
}

-- No two tokens have the same hash.
abbrev pub DistinctHashes : Accounts → Type 0
DistinctHashes db = IsDistinct (map (λ t. t.token_hash) db.reset_tokens)

module _ (crypto : Crypto) (tenant token : String) where
  is_usable-hash :
      (now : ℕ) (t : ResetToken)
      → is_usable crypto now tenant token t ≡ true
      → (t.token_hash == crypto.sha256 token) ≡ true
  is_usable-hash now t h = ground arith

  is_usable-tenant :
      (now : ℕ) (t : ResetToken)
      → is_usable crypto now tenant token t ≡ true
      → (t.tenant_id == tenant) ≡ true
  is_usable-tenant now t h = ground arith

  -- Once its only token is marked, a hash finds nothing.
  find-marked :
      (now later : ℕ) (row : ResetToken) (tokens : List ResetToken)
      → (row.tenant_id == tenant) ≡ true
      → All (λ t. (t.token_hash == crypto.sha256 token) ≡ true → t ≡ row) tokens
      → find
          (is_usable crypto later tenant token)
          (update_where (is_reset_token tenant row.id) (mark_used now) tokens)
        ≡ none
  find-marked now later row [] mine h = refl
  find-marked now later row (t ∷ tokens) mine h =
      elim (Bool-cases (t.token_hash == crypto.sha256 token)) [
        | inl m ↦
            let own : is_reset_token tenant row.id row ≡ true = rw (mine, ==_refl row.id) refl in
            let here : is_reset_token tenant row.id t ≡ true =
              subst (λ (x : ResetToken). is_reset_token tenant row.id x ≡ true) (sym (h.0 m)) own in
            rw here (ground (arith, find-marked now later row tokens mine h.1))
        | inr m ↦ elim (Bool-cases (is_reset_token tenant row.id t)) [
          | inl u ↦ rw (u, m) (ground (arith, find-marked now later row tokens mine h.1))
          | inr u ↦ rw (u, m) (ground (arith, find-marked now later row tokens mine h.1))
        ]
      ]

  consume_reset_token-inv :
      (now : ℕ) (password user_id : String) (db db' : Accounts)
      → consume_reset_token crypto now tenant token password db ≡ ok (user_id, db')
      → (row : ResetToken) × (find (is_usable crypto now tenant token) db.reset_tokens ≡ some row)
        × (row.user_id ≡ user_id)
        × (db' ≡ reset_with crypto now tenant password row db)
  unfolding consume_reset_token
  consume_reset_token-inv now password user_id db db' e =
      elim (Option-cases (find (is_usable crypto now tenant token) db.reset_tokens)) [
        | inl missing ↦ let refused = rw (missing, consume_reset_token) at e in cc
        | inr (row, found) ↦ let done = rw (found, consume_reset_token) at e in (row, found, cc, cc)
      ]

  consume_reset_token-none :
      (now : ℕ) (password : String) (db : Accounts)
      → find (is_usable crypto now tenant token) db.reset_tokens ≡ none
      → consume_reset_token crypto now tenant token password db ≡ err unauthorized
  unfolding consume_reset_token
  consume_reset_token-none now password db missing = rw (missing, consume_reset_token) refl

  module _ {S : Type 0} (r : Redis S) (redis : IsRedis r) where
    reset_password-inv :
        (now : ℕ) (password : String) (db db' : Accounts) (s s' : S)
        → reset_password crypto r now tenant token password db s ≡ (ok (tt, db'), s')
        → (user_id : String) × (consume_reset_token crypto now tenant token password db
            ≡ ok (user_id, db'))
          × (s' ≡ revoke_user_sessions r now user_id s)
    unfolding reset_password
    reset_password-inv now password db db' s s' e =
        elim (Result-cases (consume_reset_token crypto now tenant token password db)) [
          | inl (q, done) ↦
              let ended = rw (done, reset_password) at e in
              let same : q.1 ≡ db' = cc in (q.0, done ∙ ap (λ (d : Accounts). ok (q.0, d)) same, cc)
          | inr (c, refused) ↦ let ended = rw (refused, reset_password) at e in cc
        ]

    -- With distinct hashes, a reset that succeeds has found an unused row of the token that has not
    -- expired. It leaves a mark that revokes the sessions of the row's user, whose password alone it
    -- changes, and no later reset with the token succeeds.
    pub reset_password-once :
        (now : ℕ) (password : String) (db db' : Accounts) (s s' : S)
        → DistinctHashes db
        → reset_password crypto r now tenant token password db s ≡ (ok (tt, db'), s')
        → (row : ResetToken) × (find (is_usable crypto now tenant token) db.reset_tokens ≡ some row)
          × Marked r now row.user_id s'
          × (db'.users
              ≡ update_where (is_user tenant row.user_id) (set_password crypto password) db.users)
          × ((later : ℕ) (again : String) (s2 : S)
              → reset_password crypto r later tenant token again db' s2 ≡ (err unauthorized, s2))
    unfolding reset_password
    reset_password-once now password db db' s s' distinct e =
        let (user_id, consumed, revoked) = reset_password-inv now password db db' s s' e in
        let (row, found, owner, reset) =
          consume_reset_token-inv now password user_id db db' consumed in
        let only =
          find_keyed (is_usable crypto now tenant token) (λ t. t.token_hash) (crypto.sha256 token)
            (is_usable-hash now) db.reset_tokens distinct found in
        let mine =
          is_usable-tenant now row
            (find-true (is_usable crypto now tenant token) db.reset_tokens found) in
        (
          row,
          found,
          subst (Marked r now row.user_id)
              (sym (revoked ∙ ap (λ (u : String). revoke_user_sessions r now u s) (sym owner)))
              (revoke-Marked r redis now row.user_id now s (omega arith)),
          ap (λ (d : Accounts). d.users) reset,
          λ later again s2.
              rw
                (
                  consume_reset_token-none later again db' (
                      ap
                        (λ (d : Accounts).
                          find (is_usable crypto later tenant token) d.reset_tokens)
                        reset
                      ∙ find-marked now later row db.reset_tokens mine only),
                  reset_password,
                )
                refl,
        )

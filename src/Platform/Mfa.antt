-- ===== src/Platform/Mfa.antt =====
-- Enrollment in two-factor authentication (apps/api/src/modules/platform/auth/mfa.service.ts).
use claude_cloud_ops_tool.Base.{
  Bool, List, String, Tx, bad_request, err, false, find, gets, is_some, modify, none, ok, pure,
  require, some, true, unauthorized, update_where, ℕ, ◌&&◌, ◌>>=◌, ◌>>◌,
}
use claude_cloud_ops_tool.Platform.Accounts.{
  Accounts, Crypto, User, is_user, verify_secret, require_code,
}

module _ (tenant : String) where
  -- `status`
  unfoldable pub status : String → Tx Accounts Bool
  status user_id = do
    user ← gets (λ db. find (is_user tenant user_id) db.users)
    found ← require user unauthorized
    pure found.totp_enabled

  module _ (crypto : Crypto) where
    abbrev pub store_secret : List ℕ → User → User
    store_secret secret u = record u {
      totp_secret_encrypted = some (crypto.encrypt secret);
      totp_enabled = false;
    }

    -- `beginSetup`, given the new secret. It returns the secret and the address for the URI.
    unfoldable pub begin_setup : List ℕ → String → Tx Accounts (List ℕ × String)
    begin_setup secret user_id = do
      user ← gets (λ db. find (is_user tenant user_id) db.users)
      found ← require user unauthorized
      modify (λ db. record db {
        users = update_where (is_user tenant user_id) (store_secret secret) db.users;
      })
      pure (secret, found.email)

    abbrev pub is_pending : String → User → Bool
    is_pending user_id u = is_user tenant user_id u && is_some u.totp_secret_encrypted

    abbrev pub switch_on : User → User
    switch_on u = record u { totp_enabled = true }

    abbrev pub check_code : ℕ → User → List ℕ → Tx Accounts (Unit {0})
    check_code now u code db =
        elim (require_code (verify_secret crypto u.totp_secret_encrypted (some code) now)) [
          | ok _ ↦ ok (tt, db)
          | err e ↦ err e
        ]

    unfoldable pub enable : ℕ → String → List ℕ → Tx Accounts (Unit {0})
    enable now user_id code = do
      user ← gets (λ db. find (is_pending user_id) db.users)
      found ← require user bad_request
      check_code now found code
      modify (λ db. record db { users = update_where (is_user tenant user_id) switch_on db.users })

    abbrev pub is_enrolled : String → User → Bool
    is_enrolled user_id u = is_user tenant user_id u && u.totp_enabled

    abbrev pub switch_off : User → User
    switch_off u = record u { totp_secret_encrypted = none; totp_enabled = false }

    unfoldable pub disable : ℕ → String → List ℕ → Tx Accounts (Unit {0})
    disable now user_id code = do
      user ← gets (λ db. find (is_enrolled user_id) db.users)
      found ← require user bad_request
      check_code now found code
      modify (λ db. record db { users = update_where (is_user tenant user_id) switch_off db.users })

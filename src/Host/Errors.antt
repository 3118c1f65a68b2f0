-- ===== src/Host/Errors.antt =====
-- The services' errors and their translation to the interfaces' `error-code` (`src/host.rs`).
use lantern_runtime.Base.{ℕ, List, length, ◌==◌, if◌then◌else◌}
use lantern_runtime.Base.Exec.{Exec, ok, err}

-- `lantern_abi::frame::ChannelError`: `malformed` is the variant that this program names.
pub data ChannelError : Type 0 where
  malformed : ChannelError
  transport : ℕ → ChannelError

-- `lantern_crypto::KeystoreError`: the variants that this program names; `other` is any further one.
pub data KeystoreError : Type 0 where
  unknown_badge badge_revoked op_not_granted wrong_key no_such_key key_destroyed : KeystoreError
  remote_denied : ℕ → KeystoreError
  channel : ChannelError → KeystoreError
  other : ℕ → KeystoreError

-- `lantern_filesystem::StoreError`, in the same way.
pub data StoreError : Type 0 where
  unknown_badge badge_revoked op_not_granted wrong_file no_such_file file_destroyed : StoreError
  file_empty : StoreError
  remote_crypto_denied : ℕ → StoreError
  channel : ChannelError → StoreError
  other : ℕ → StoreError

-- The `error-code` of both interfaces of `wit/host.wit`.
pub data ErrorCode : Type 0 where
  access invalid : ErrorCode

-- The constants of the crates this one calls.
pub record Wire : Type 0 where
  pub nonce_len : ℕ
  pub tag_len : ℕ
  pub signature_len : ℕ
  pub max_block_len : ℕ
  pub op_encrypt : ℕ
  pub op_decrypt : ℕ
  pub op_sign : ℕ
  pub op_read : ℕ
  pub op_write : ℕ
  -- `lantern_crypto::wire::status`
  pub crypto_ok : ℕ
  pub crypto_access : ℕ
  -- `lantern_filesystem::wire::status`
  pub store_ok : ℕ
  pub store_access : ℕ

module _ (W : Wire) where
  unfoldable pub to_error_code : KeystoreError → ErrorCode
  to_error_code KeystoreError.unknown_badge = access
  to_error_code KeystoreError.badge_revoked = access
  to_error_code KeystoreError.op_not_granted = access
  to_error_code KeystoreError.wrong_key = access
  to_error_code KeystoreError.no_such_key = access
  to_error_code KeystoreError.key_destroyed = access
  to_error_code (KeystoreError.remote_denied status) =
      if status == W.crypto_access then access else invalid
  to_error_code _ = invalid

  unfoldable pub to_fs_error_code : StoreError → ErrorCode
  to_fs_error_code StoreError.unknown_badge = access
  to_fs_error_code StoreError.badge_revoked = access
  to_fs_error_code StoreError.op_not_granted = access
  to_fs_error_code StoreError.wrong_file = access
  to_fs_error_code StoreError.no_such_file = access
  to_fs_error_code StoreError.file_destroyed = access
  to_fs_error_code (StoreError.remote_crypto_denied status) =
      if status == W.store_access then access else invalid
  to_fs_error_code _ = invalid

-- A `[u8; N]` from bytes.
unfoldable pub fixed_len : ℕ → List ℕ → Exec ErrorCode (List ℕ)
fixed_len n bytes = if length bytes == n then ok bytes else err invalid

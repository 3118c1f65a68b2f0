-- ===== src/Host/Denial.antt =====
-- Which errors of the services reach a component as `access` (`src/host.rs`, `to_error_code` and
-- `to_fs_error_code`).
use lantern_runtime.Base.{ℕ, ◌≡◌, refl, ◌↔◌, arith}
use lantern_runtime.Host.Errors.{
  KeystoreError, StoreError, access, Wire, to_error_code, to_fs_error_code,
}

-- The keystore said no: itself, or at the far end of a channel.
pub data KeyDenial (W : Wire) : KeystoreError → Type 0 where
  unknown_badge : KeyDenial W KeystoreError.unknown_badge
  badge_revoked : KeyDenial W KeystoreError.badge_revoked
  op_not_granted : KeyDenial W KeystoreError.op_not_granted
  wrong_key : KeyDenial W KeystoreError.wrong_key
  no_such_key : KeyDenial W KeystoreError.no_such_key
  key_destroyed : KeyDenial W KeystoreError.key_destroyed
  remotely :
      (status : ℕ) → status ≡ W.crypto_access → KeyDenial W (KeystoreError.remote_denied status)

-- The store said no.
pub data FileDenial (W : Wire) : StoreError → Type 0 where
  unknown_badge : FileDenial W StoreError.unknown_badge
  badge_revoked : FileDenial W StoreError.badge_revoked
  op_not_granted : FileDenial W StoreError.op_not_granted
  wrong_file : FileDenial W StoreError.wrong_file
  no_such_file : FileDenial W StoreError.no_such_file
  file_destroyed : FileDenial W StoreError.file_destroyed
  remotely :
      (status : ℕ) → status ≡ W.store_access → FileDenial W (StoreError.remote_crypto_denied status)

module _ (W : Wire) where
  key_denied : (e : KeystoreError) → to_error_code W e ≡ access → KeyDenial W e
  unfolding to_error_code
  key_denied KeystoreError.unknown_badge h = KeyDenial.unknown_badge
  key_denied KeystoreError.badge_revoked h = KeyDenial.badge_revoked
  key_denied KeystoreError.op_not_granted h = KeyDenial.op_not_granted
  key_denied KeystoreError.wrong_key h = KeyDenial.wrong_key
  key_denied KeystoreError.no_such_key h = KeyDenial.no_such_key
  key_denied KeystoreError.key_destroyed h = KeyDenial.key_destroyed
  key_denied (KeystoreError.remote_denied status) h = KeyDenial.remotely status (ground arith)
  key_denied (KeystoreError.channel _) h = cc
  key_denied (KeystoreError.other _) h = cc

  denied_key : (e : KeystoreError) → KeyDenial W e → to_error_code W e ≡ access
  unfolding to_error_code
  denied_key _ KeyDenial.unknown_badge = refl
  denied_key _ KeyDenial.badge_revoked = refl
  denied_key _ KeyDenial.op_not_granted = refl
  denied_key _ KeyDenial.wrong_key = refl
  denied_key _ KeyDenial.no_such_key = refl
  denied_key _ KeyDenial.key_destroyed = refl
  denied_key _ (KeyDenial.remotely status e) = ground arith

  file_denied : (e : StoreError) → to_fs_error_code W e ≡ access → FileDenial W e
  unfolding to_fs_error_code
  file_denied StoreError.unknown_badge h = FileDenial.unknown_badge
  file_denied StoreError.badge_revoked h = FileDenial.badge_revoked
  file_denied StoreError.op_not_granted h = FileDenial.op_not_granted
  file_denied StoreError.wrong_file h = FileDenial.wrong_file
  file_denied StoreError.no_such_file h = FileDenial.no_such_file
  file_denied StoreError.file_destroyed h = FileDenial.file_destroyed
  file_denied StoreError.file_empty h = cc
  file_denied (StoreError.remote_crypto_denied status) h = FileDenial.remotely status (ground arith)
  file_denied (StoreError.channel _) h = cc
  file_denied (StoreError.other _) h = cc

  denied_file : (e : StoreError) → FileDenial W e → to_fs_error_code W e ≡ access
  unfolding to_fs_error_code
  denied_file _ FileDenial.unknown_badge = refl
  denied_file _ FileDenial.badge_revoked = refl
  denied_file _ FileDenial.op_not_granted = refl
  denied_file _ FileDenial.wrong_file = refl
  denied_file _ FileDenial.no_such_file = refl
  denied_file _ FileDenial.file_destroyed = refl
  denied_file _ (FileDenial.remotely status e) = ground arith

  -- A keystore error reaches the component as `access` exactly when it is a denial (an unknown or
  -- revoked badge, an operation not granted, a wrong, missing or destroyed key, or a remote status
  -- that says so), and a store error exactly when it is the like for files.
  pub access_iff_denial :
      (e : KeystoreError) (e' : StoreError)
      → ((to_error_code W e ≡ access) ↔ KeyDenial W e)
        × ((to_fs_error_code W e' ≡ access) ↔ FileDenial W e')
  access_iff_denial e e' = ((key_denied e, denied_key e), (file_denied e', denied_file e'))

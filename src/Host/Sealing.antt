-- ===== src/Host/Sealing.antt =====
-- What a component sealed it can open again (`src/host.rs`, `impl keystore::HostKey`).
use lantern_runtime.Base.{ℕ, ◌≡◌, some, List, length, arith}
use lantern_runtime.Base.Exec.{ok}
use lantern_runtime.Host.Records.{HostCapability, ServiceEndpoint}
use lantern_runtime.Host.Errors.{Wire}
use lantern_runtime.Host.Services.{KeystoreService, Embedding}
use lantern_runtime.Host.State.{RuntimeState}
use lantern_runtime.Host.Keys.{encrypt, decrypt}
use lantern_runtime.Host.Effects.{HoldsKey}

-- A keystore opens what it sealed, under the same badge, key, nonce and associated data, for a badge that
-- may open, and its tags have the fixed length.
pub record OpensSealed {K : Type 0} (W : Wire) (S : KeystoreService K) (MayOpen : ℕ → ℕ → Type 0)
    : Type 0 where
  pub length-tag :
      (badge key : ℕ) (nonce aad body sealed tag : List ℕ) (k : K)
      → (S.encrypt badge key nonce aad body k).1 ≡ ok (sealed, tag)
      → length tag ≡ W.tag_len
  pub decrypt-encrypt :
      (badge key : ℕ) (nonce aad body sealed tag : List ℕ) (k : K)
      → MayOpen badge key
      → (S.encrypt badge key nonce aad body k).1 ≡ ok (sealed, tag)
      → (S.decrypt badge key nonce aad sealed tag (S.encrypt badge key nonce aad body k).0).1
        ≡ ok body

module _ {Tab K F : Type 0} (H : Embedding Tab K F) (s : RuntimeState Tab K F) (h : ℕ) where
  -- A seal that a component got stands for one call of an attached keystore, under the handle's record.
  encrypt-sealed :
      (nonce aad body sealed tag : List ℕ)
      → (encrypt H h nonce aad body s).1 ≡ ok (sealed, tag)
      → (held : HostCapability) × (k : K) × HoldsKey H s h held
        × (held.service ≡ ServiceEndpoint.keystore)
        × (length nonce ≡ H.wire.nonce_len)
        × (s.keystore ≡ some k)
        × ((H.keystore.encrypt held.badge held.key nonce aad body k).1 ≡ ok (sealed, tag))
        × ((encrypt H h nonce aad body s).0 ≡ record s {
          keystore = some (H.keystore.encrypt held.badge held.key nonce aad body k).0;
        })
  unfolding encrypt
  encrypt-sealed nonce aad body sealed tag e = ground arith

  decrypts :
      (held : HostCapability) (k : K) (nonce aad sealed tag body : List ℕ)
      → HoldsKey H s h held
      → held.service ≡ ServiceEndpoint.keystore
      → length nonce ≡ H.wire.nonce_len
      → length tag ≡ H.wire.tag_len
      → (H.keystore.decrypt held.badge held.key nonce aad sealed tag k).1 ≡ ok body
      → (decrypt H h nonce aad sealed tag (record s { keystore = some k })).1 ≡ ok body
  unfolding decrypt
  decrypts held k nonce aad sealed tag body holds serves fits tagged opens = ground arith

  -- Over a keystore that opens what it sealed for badges that may open: what a component got from `encrypt`
  -- through a handle of a record whose badge may open under its key, `decrypt` through that handle, under
  -- the same nonce and associated data, gives back as it was.
  pub decrypt-encrypt_same :
      (MayOpen : ℕ → ℕ → Type 0)
      → OpensSealed H.wire H.keystore MayOpen
      → ((held : HostCapability) → HoldsKey H s h held → MayOpen held.badge held.key)
      → (nonce aad body sealed tag : List ℕ) → (encrypt H h nonce aad body s).1 ≡ ok (sealed, tag)
      → (decrypt H h nonce aad sealed tag (encrypt H h nonce aad body s).0).1 ≡ ok body
  decrypt-encrypt_same MayOpen opens may nonce aad body sealed tag e =
      let (held, k, holds, serves, fits, attached, given, after) =
        encrypt-sealed nonce aad body sealed tag e in
      let tagged = opens.length-tag held.badge held.key nonce aad body sealed tag k given in
      let back =
        opens.decrypt-encrypt held.badge held.key nonce aad body sealed tag k (may held holds)
          given in
      rw after (decrypts held _ nonce aad sealed tag body holds serves fits tagged back)

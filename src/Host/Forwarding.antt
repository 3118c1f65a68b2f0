-- ===== src/Host/Forwarding.antt =====
-- What the methods of a key return, on every branch (`src/host.rs`, `impl keystore::HostKey`).
use lantern_runtime.Base.{ℕ, ◌≡◌, ◌≢◌, some, List, length, arith}
use lantern_runtime.Base.Exec.{err, map_err}
use lantern_runtime.Host.Records.{ServiceEndpoint, HostCapability}
use lantern_runtime.Host.Errors.{access, invalid, to_error_code}
use lantern_runtime.Host.Services.{Embedding}
use lantern_runtime.Host.State.{RuntimeState, keystore_cap}
use lantern_runtime.Host.Keys.{encrypt, decrypt, sign}
use lantern_runtime.Host.Effects.{HoldsKey}

module _ {Tab K F : Type 0} (H : Embedding Tab K F) where
  -- A handle that names no key (never opened, or dropped) is answered `access` by every method,
  -- whatever the arguments, and neither the state nor the service is touched.
  stale_denied :
      (s : RuntimeState Tab K F) (h : ℕ) (nonce aad body tag : List ℕ)
      → keystore_cap H s h ≡ err access
      → (encrypt H h nonce aad body s ≡ (s, err access))
        × (decrypt H h nonce aad body tag s ≡ (s, err access))
        × (sign H h body s ≡ (s, err access))
  unfolding encrypt decrypt sign
  stale_denied s h nonce aad body tag stale = (ground arith, ground arith, ground arith)

  module _ (s : RuntimeState Tab K F) (h : ℕ) (held : HostCapability) where
    -- With a handle that names a key, a nonce of a wrong length is refused as `invalid` by
    -- `encrypt` and `decrypt`, before the service is asked.
    nonce_refused :
        HoldsKey H s h held
        → held.service ≡ ServiceEndpoint.keystore
        → (nonce aad body tag : List ℕ) → length nonce ≢ H.wire.nonce_len
        → (encrypt H h nonce aad body s ≡ (s, err invalid))
          × (decrypt H h nonce aad body tag s ≡ (s, err invalid))
    unfolding encrypt decrypt
    nonce_refused holds serves nonce aad body tag bad = (ground arith, ground arith)

    -- With the handle of a key, a service attached and arguments of the right lengths, a method is
    -- one call of the service under the handle's badge and key, and its answer is the service's with
    -- the error translated.
    methods_forward :
        (k : K)
        → HoldsKey H s h held
        → held.service ≡ ServiceEndpoint.keystore
        → s.keystore ≡ some k
        → (nonce aad body tag : List ℕ) → length nonce ≡ H.wire.nonce_len
        → length tag ≡ H.wire.tag_len
        → let e = H.keystore.encrypt held.badge held.key nonce aad body k in
          let d = H.keystore.decrypt held.badge held.key nonce aad body tag k in
          let g = H.keystore.sign held.badge held.key body k in
          (encrypt H h nonce aad body s
            ≡ (record s { keystore = some e.0 }, map_err (to_error_code H.wire) e.1))
          × (decrypt H h nonce aad body tag s
              ≡ (record s { keystore = some d.0 }, map_err (to_error_code H.wire) d.1))
          × (sign H h body s
              ≡ (record s { keystore = some g.0 }, map_err (to_error_code H.wire) g.1))
    unfolding encrypt decrypt sign
    methods_forward k holds serves attached nonce aad body tag fits tagged =
        (ground arith, ground arith, ground arith)

-- ===== src/Host/Keys.antt =====
-- `impl keystore::HostKey` and `impl keystore::Host` for `RuntimeState` (`src/host.rs`).
use lantern_runtime.Base.{ℕ, Option, none, some, List}
use lantern_runtime.Base.Exec.{Exec, ok, err, Call, lift, ◌>>=◌, ◌>>◌}
use lantern_runtime.Host.Records.{ServiceEndpoint}
use lantern_runtime.Host.Errors.{ErrorCode, access, fixed_len}
use lantern_runtime.Host.Services.{key_entry, Kind, Embedding}
use lantern_runtime.Host.State.{
  RuntimeState, WasmtimeError, wasmtime_error, granted, keystore_cap, ask_keystore,
}

-- `let ServiceEndpoint::Keystore = cap.service else { … }`
abbrev pub serves_keystore : ServiceEndpoint → Exec ErrorCode (Unit {0})
serves_keystore ServiceEndpoint.keystore = ok tt
serves_keystore ServiceEndpoint.filesystem = err access

module _ {Tab K F : Type 0} (H : Embedding Tab K F) where
  unfoldable pub encrypt :
      ℕ → List ℕ → List ℕ → List ℕ → Call (RuntimeState Tab K F) ErrorCode (List ℕ × List ℕ)
  unfolding keystore_cap fixed_len ask_keystore
  encrypt handle nonce aad plaintext s =
      (do
        cap ← lift (keystore_cap H s handle)
        lift (serves_keystore cap.service)
        nonce' ← lift (fixed_len H.wire.nonce_len nonce)
        ask_keystore H (H.keystore.encrypt cap.badge cap.key nonce' aad plaintext))
        s

  unfoldable pub decrypt :
      ℕ → List ℕ → List ℕ → List ℕ → List ℕ → Call (RuntimeState Tab K F) ErrorCode (List ℕ)
  unfolding keystore_cap fixed_len ask_keystore
  decrypt handle nonce aad ciphertext tag s =
      (do
        cap ← lift (keystore_cap H s handle)
        lift (serves_keystore cap.service)
        nonce' ← lift (fixed_len H.wire.nonce_len nonce)
        tag' ← lift (fixed_len H.wire.tag_len tag)
        ask_keystore H (H.keystore.decrypt cap.badge cap.key nonce' aad ciphertext tag'))
        s

  unfoldable pub sign : ℕ → List ℕ → Call (RuntimeState Tab K F) ErrorCode (List ℕ)
  unfolding keystore_cap ask_keystore
  sign handle message s =
      (do
        cap ← lift (keystore_cap H s handle)
        lift (serves_keystore cap.service)
        ask_keystore H (H.keystore.sign cap.badge cap.key message))
        s

  -- `HostKey::drop`
  unfoldable pub drop_key : ℕ → Call (RuntimeState Tab K F) WasmtimeError (Unit {0})
  drop_key handle s = elim (H.table.delete s.table Kind.key_kind handle) [
    | none ↦ (s, err wasmtime_error)
    | some t ↦ (record s { table = t }, ok tt)
  ]

  -- `keystore::Host::open`
  unfoldable pub open_key : ℕ → RuntimeState Tab K F → RuntimeState Tab K F × Option ℕ
  open_key slot s = elim (granted s.keys slot) [
    | none ↦ (s, none)
    | some cap ↦ elim (H.table.push s.table (key_entry cap)) [
      | none ↦ (s, none)
      | some (handle, t) ↦ (record s { table = t }, some handle)
    ]
  ]

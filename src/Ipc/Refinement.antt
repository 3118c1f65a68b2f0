-- ===== src/Ipc/Refinement.antt =====
-- A component cannot tell a keystore at the far end of a channel from one in its own process
-- (`src/host.rs`: `IpcKeystore` against `KeystoreService`).
use lantern_runtime.Base.{ℕ, ◌≡◌, ◌↔◌, ◌+◌, ◌≤◌, some, List, length, take, length-replicate, arith}
use lantern_runtime.Base.Exec.{ok}
use lantern_runtime.Host.Errors.{KeystoreError, access, Wire, to_error_code}
use lantern_runtime.Host.Services.{KeystoreService}
use lantern_runtime.Ipc.Channel.{Channel, Codec}
use lantern_runtime.Ipc.Messages.{encrypt_answer, decrypt_answer, sign_answer}
use lantern_runtime.Ipc.Keystore.{encrypt, decrypt, sign}
use lantern_runtime.Ipc.Carrying.{Carries, Carries-agree, ×-path, seen, seen_through}
use lantern_runtime.Ipc.Laws.{FitsExactly}
use lantern_runtime.Ipc.Safety.{encrypt_request-sends, decrypt_request-sends}
use lantern_runtime.Ipc.Rounds.{encrypt_round, decrypt_round, sign_round}

-- What the bytes of a reply say.
abbrev pub SaysSealed : Codec → ℕ → List ℕ → List ℕ × List ℕ → Type 0
SaysSealed X n bytes sealed =
    (X.decode_encrypt_reply bytes ≡ some (sealed.1, sealed.0)) × (length sealed.0 ≡ n)

abbrev pub SaysOpened : Codec → ℕ → List ℕ → List ℕ → Type 0
SaysOpened X n bytes plaintext = (X.decode_decrypt_reply bytes ≡ plaintext) × (length plaintext ≡ n)

abbrev pub SaysSigned : Codec → List ℕ → List ℕ → Type 0
SaysSigned X bytes signature = X.decode_sign_reply bytes ≡ signature

-- A keystore behind the channel, as the state `view c` of a service `S` that serves one badge and
-- key: a request that the codec encoded, in whatever buffer, is served as the operation on what was
-- encoded, and the result is carried in any reply buffer that it fits. A buffer that is sealed or opened
-- in place keeps its length.
pub record ServesKeys {C R : Type 0} (W : Wire) (X : Codec) (ch : Channel C) (S : KeystoreService R)
    (view : C → R) (badge key : ℕ) : Type 0 where
  pub encrypts :
      (nonce aad buffer blank out reply : List ℕ) (len : ℕ) (c : C)
      → X.encode_encrypt_request nonce aad buffer blank ≡ some (out, len)
      → 4 + W.tag_len + length buffer ≤ length reply
      → let r = ch.call W.op_encrypt (take len out) reply c in
        let s = S.encrypt badge key nonce aad buffer (view c) in
        (view r.0 ≡ s.0)
        × Carries W.crypto_ok W.crypto_access
            (to_error_code W)
            (SaysSealed X (length buffer))
            s.1
            r.1
  pub decrypts :
      (nonce aad buffer tag blank out reply : List ℕ) (len : ℕ) (c : C)
      → X.encode_decrypt_request nonce aad tag buffer blank ≡ some (out, len)
      → length buffer ≤ length reply
      → let r = ch.call W.op_decrypt (take len out) reply c in
        let s = S.decrypt badge key nonce aad buffer tag (view c) in
        (view r.0 ≡ s.0)
        × Carries W.crypto_ok W.crypto_access
            (to_error_code W)
            (SaysOpened X (length buffer))
            s.1
            r.1
  pub signs :
      (message reply : List ℕ) (c : C)
      → W.signature_len ≤ length reply
      → let r = ch.call W.op_sign (X.encode_sign_request message) reply c in
        let s = S.sign badge key message (view c) in
        (view r.0 ≡ s.0)
        × Carries W.crypto_ok W.crypto_access (to_error_code W) (SaysSigned X) s.1 r.1

remote_denied_code :
    (W : Wire) (status : ℕ)
    → (to_error_code W (KeystoreError.remote_denied status) ≡ access) ↔ (status ≡ W.crypto_access)
unfolding to_error_code
remote_denied_code W status = (λ h. ground arith, λ h. ground arith)

module _ (W : Wire) (X : Codec) (n : ℕ) (reply : List ℕ) (len : ℕ) (room : len ≤ length reply) where
  encrypt_answer-reads :
      (sealed : List ℕ × List ℕ)
      → SaysSealed X n (take len reply) sealed
      → encrypt_answer W X n (reply, len) ≡ ok sealed
  unfolding encrypt_answer
  encrypt_answer-reads sealed (decoded, same) = ground arith

  decrypt_answer-reads :
      (plaintext : List ℕ)
      → SaysOpened X n (take len reply) plaintext
      → decrypt_answer W X n (reply, len) ≡ ok plaintext
  unfolding decrypt_answer
  decrypt_answer-reads plaintext (decoded, same) = ground arith

  sign_answer-reads :
      (signature : List ℕ)
      → SaysSigned X (take len reply) signature
      → sign_answer W X (reply, len) ≡ ok signature
  unfolding sign_answer
  sign_answer-reads signature decoded = ground arith

-- Over a channel behind which a keystore serves one badge and key, on whatever the codec encoded, with
-- requests that fit the buffers sized for them: every method of `IpcKeystore` on a nonce and a tag of the
-- right lengths leaves that keystore in the state, and gives a component the result, that a direct
-- call of the keystore under that badge and key would.
pub ipc_keystore-refines :
    {C R : Type 0} (W : Wire) (X : Codec) (ch : Channel C) (S : KeystoreService R) (view : C → R)
    (badge key : ℕ)
    → ServesKeys W X ch S view badge key
    → FitsExactly W X
    → (nonce aad body tag : List ℕ) (c : C) → length nonce ≡ W.nonce_len
    → length tag ≡ W.tag_len
    → let code = to_error_code W in
      (seen_through code view (encrypt W X ch nonce aad body c)
        ≡ seen code (S.encrypt badge key nonce aad body (view c)))
      × (seen_through code view (decrypt W X ch nonce aad body tag c)
          ≡ seen code (S.decrypt badge key nonce aad body tag (view c)))
      × (seen_through code view (sign W X ch body c) ≡ seen code (S.sign badge key body (view c)))
ipc_keystore-refines W X ch S view badge key serves fits nonce aad body tag c n t =
    let (e_out, e_len, e_put, e) = encrypt_request-sends W X fits nonce aad body n in
    let (d_out, d_len, d_put, d) = decrypt_request-sends W X fits nonce aad body tag n t in
    let (e_state, e_carried) =
      serves.encrypts nonce aad body _ e_out _ e_len c e_put
        (omega (arith, length-replicate {A = ℕ} (4 + W.tag_len + length body) 0)) in
    let (d_state, d_carried) =
      serves.decrypts nonce aad body tag _ d_out _ d_len c d_put
        (omega (arith, length-replicate {A = ℕ} (length body) 0)) in
    let (s_state, s_carried) =
      serves.signs body _ c (omega (arith, length-replicate {A = ℕ} W.signature_len 0)) in
    (
      rw (encrypt_round W X ch c nonce aad body e) (
          ×-path e_state (
            Carries-agree _ _ _ _ _ (SaysSealed X (length body)) (encrypt_answer W X (length body))
              (λ reply len a room. encrypt_answer-reads W X (length body) reply len room a)
              (remote_denied_code W) _ _ e_carried)),
      rw (decrypt_round W X ch c nonce aad body tag d) (
          ×-path d_state (
            Carries-agree _ _ _ _ _ (SaysOpened X (length body)) (decrypt_answer W X (length body))
              (λ reply len a room. decrypt_answer-reads W X (length body) reply len room a)
              (remote_denied_code W) _ _ d_carried)),
      rw (sign_round W X ch c body) (
          ×-path s_state (
            Carries-agree _ _ _ _ _ (SaysSigned X) (sign_answer W X)
              (λ reply len a room. sign_answer-reads W X 0 reply len room a) (remote_denied_code W)
              _ _ s_carried)),
    )

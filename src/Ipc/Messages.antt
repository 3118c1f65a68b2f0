-- ===== src/Ipc/Messages.antt =====
-- The requests that `IpcKeystore` sends and what it makes of the replies (`src/host.rs`).
use lantern_runtime.Base.{ℕ, ◌+◌, List, length, replicate, ◌==◌, if◌then◌else◌}
use lantern_runtime.Base.Exec.{Exec, ok, err, ok_or, expect}
use lantern_runtime.Base.Chain.{◌>>=◌}
use lantern_runtime.Host.Errors.{KeystoreError, ChannelError, Wire}
use lantern_runtime.Ipc.Channel.{Codec, prefix}

abbrev pub malformed_reply : KeystoreError
malformed_reply = KeystoreError.channel ChannelError.malformed

module _ (W : Wire) (X : Codec) where
  unfoldable pub encrypt_request : List ℕ → List ℕ → List ℕ → Exec KeystoreError (List ℕ)
  encrypt_request nonce aad buffer = do
    let blank = replicate (4 + W.nonce_len + 4 + length aad + length buffer) 0
    encoded ← expect (X.encode_encrypt_request nonce aad buffer blank)
    prefix encoded.1 encoded.0

  -- The new bytes of the buffer, with the tag.
  unfoldable pub encrypt_answer : ℕ → List ℕ × ℕ → Exec KeystoreError (List ℕ × List ℕ)
  encrypt_answer buffer_len answer = do
    bytes ← prefix answer.1 answer.0
    sealed ← ok_or (X.decode_encrypt_reply bytes) malformed_reply
    if length sealed.1 == buffer_len then ok (sealed.1, sealed.0) else err malformed_reply

  unfoldable pub decrypt_request : List ℕ → List ℕ → List ℕ → List ℕ → Exec KeystoreError (List ℕ)
  decrypt_request nonce aad buffer tag = do
    let blank = replicate (4 + W.nonce_len + 4 + length aad + 4 + W.tag_len + length buffer) 0
    encoded ← expect (X.encode_decrypt_request nonce aad tag buffer blank)
    prefix encoded.1 encoded.0

  unfoldable pub decrypt_answer : ℕ → List ℕ × ℕ → Exec KeystoreError (List ℕ)
  decrypt_answer buffer_len answer = do
    bytes ← prefix answer.1 answer.0
    let plaintext = X.decode_decrypt_reply bytes
    if length plaintext == buffer_len then ok plaintext else err malformed_reply

  unfoldable pub sign_answer : List ℕ × ℕ → Exec KeystoreError (List ℕ)
  sign_answer answer = do bytes ← prefix answer.1 answer.0; ok (X.decode_sign_reply bytes)

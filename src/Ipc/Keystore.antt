-- ===== src/Ipc/Keystore.antt =====
-- `IpcKeystore` of `src/host.rs`: the keystore trait over one channel, which the calls thread;
-- `InCell` has the same methods over the cell that holds it. Badge and key are accepted and not used.
use lantern_runtime.Base.{ℕ, ◌+◌, List, length, replicate}
use lantern_runtime.Base.Exec.{Call, lift, ◌>>=◌}
use lantern_runtime.Host.Errors.{KeystoreError, Wire}
use lantern_runtime.Host.Services.{KeystoreService}
use lantern_runtime.Ipc.Channel.{Channel, Codec, exchange}
use lantern_runtime.Ipc.Messages.{
  encrypt_request, encrypt_answer, decrypt_request, decrypt_answer, sign_answer,
}

module _ {C : Type 0} (W : Wire) (X : Codec) (ch : Channel C) where
  abbrev pub ask : ℕ → List ℕ → List ℕ → Call C KeystoreError (List ℕ × ℕ)
  ask = exchange KeystoreError.channel KeystoreError.remote_denied W.crypto_ok ch

  unfoldable pub encrypt : List ℕ → List ℕ → List ℕ → Call C KeystoreError (List ℕ × List ℕ)
  encrypt nonce aad buffer = do
    request ← lift (encrypt_request W X nonce aad buffer)
    answer ← ask W.op_encrypt request (replicate (4 + W.tag_len + length buffer) 0)
    lift (encrypt_answer W X (length buffer) answer)

  unfoldable pub decrypt : List ℕ → List ℕ → List ℕ → List ℕ → Call C KeystoreError (List ℕ)
  decrypt nonce aad buffer tag = do
    request ← lift (decrypt_request W X nonce aad buffer tag)
    answer ← ask W.op_decrypt request (replicate (length buffer) 0)
    lift (decrypt_answer W X (length buffer) answer)

  unfoldable pub sign : List ℕ → Call C KeystoreError (List ℕ)
  sign message = do
    answer ← ask W.op_sign (X.encode_sign_request message) (replicate W.signature_len 0)
    lift (sign_answer W X answer)

  unfoldable pub ipc_keystore : KeystoreService C
  ipc_keystore = record {
    encrypt = λ badge key nonce aad buffer. encrypt nonce aad buffer;
    decrypt = λ badge key nonce aad buffer tag. decrypt nonce aad buffer tag;
    sign = λ badge key message. sign message;
  }

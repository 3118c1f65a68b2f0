-- ===== src/Ipc/Rounds.antt =====
-- Each method of `IpcKeystore` and `IpcFilesystem` (`src/host.rs`) as one exchange on the channel
-- followed by a reading of the answer.
use lantern_runtime.Base.{ℕ, ◌≡◌, ◌≢◌, ◌+◌, refl, List, [], length, replicate, arith}
use lantern_runtime.Base.Exec.{Exec, ok, err, panic}
use lantern_runtime.Base.Chain.{◌>>=◌}
use lantern_runtime.Host.Errors.{ChannelError, KeystoreError, StoreError, Wire}
use lantern_runtime.Ipc.Channel.{Channel, Codec, accept}
use lantern_runtime.Ipc.Messages.{
  encrypt_request, encrypt_answer, decrypt_request, decrypt_answer, sign_answer,
}
use lantern_runtime.Ipc.Keystore.{encrypt, decrypt, sign}
use lantern_runtime.Ipc.Filesystem.{write}

abbrev pub accept_key : Wire → Exec ChannelError (List ℕ × ℕ × ℕ) → Exec KeystoreError (List ℕ × ℕ)
accept_key W = accept KeystoreError.channel KeystoreError.remote_denied W.crypto_ok

abbrev pub accept_file : Wire → Exec ChannelError (List ℕ × ℕ × ℕ) → Exec StoreError (List ℕ × ℕ)
accept_file W = accept StoreError.channel StoreError.remote_crypto_denied W.store_ok

module _ {C : Type 0} (W : Wire) (X : Codec) (ch : Channel C) (c : C) where
  pub encrypt_round :
      (nonce aad buffer : List ℕ) {sent : List ℕ}
      → encrypt_request W X nonce aad buffer ≡ ok sent
      → let r = ch.call W.op_encrypt sent (replicate (4 + W.tag_len + length buffer) 0) c in
        encrypt W X ch nonce aad buffer c
        ≡ (r.0, accept_key W r.1 >>= encrypt_answer W X (length buffer))
  unfolding encrypt
  encrypt_round nonce aad buffer e = ground arith

  pub decrypt_round :
      (nonce aad buffer tag : List ℕ) {sent : List ℕ}
      → decrypt_request W X nonce aad buffer tag ≡ ok sent
      → let r = ch.call W.op_decrypt sent (replicate (length buffer) 0) c in
        decrypt W X ch nonce aad buffer tag c
        ≡ (r.0, accept_key W r.1 >>= decrypt_answer W X (length buffer))
  unfolding decrypt
  decrypt_round nonce aad buffer tag e = ground arith

  pub sign_round :
      (message : List ℕ)
      → let r = ch.call W.op_sign (X.encode_sign_request message) (replicate W.signature_len 0) c in
        sign W X ch message c ≡ (r.0, accept_key W r.1 >>= sign_answer W X)
  unfolding sign
  sign_round message = ground arith

module _ {C : Type 0} (W : Wire) (ch : Channel C) (c : C) where
  pub write_round :
      (bytes : List ℕ)
      → let r = ch.call W.op_write bytes [] c in
        write W ch bytes c ≡ (r.0, accept_file W r.1 >>= λ _. ok tt)
  unfolding write
  write_round bytes = ground arith

-- A reading that does not panic on what was accepted leaves none.
pub accept-ends :
    {E A : Type 0} (wrap : ChannelError → E) (denied : ℕ → E) (status_ok : ℕ)
    (r : Exec ChannelError (List ℕ × ℕ × ℕ)) (f : List ℕ × ℕ → Exec E A)
    → r ≢ panic
    → ((reply : List ℕ) (status len : ℕ) → r ≡ ok (reply, status, len) → f (reply, len) ≢ panic)
    → (accept wrap denied status_ok r >>= f) ≢ panic
accept-ends wrap denied status_ok (ok (reply, status, len)) f ends h =
    ground (arith, h reply status len refl)
accept-ends wrap denied status_ok (err e) f ends h = ground arith
accept-ends wrap denied status_ok panic f ends h = absurd (ends refl)

-- ===== src/Ipc/Safety.antt =====
-- The channel clients of `src/host.rs` never panic, and give a buffer back at its length.
use lantern_runtime.Base.{
  ℕ, ◌≡◌, ◌≢◌, ◌≤◌, ◌+◌, refl, some, List, [], length, take, replicate, arith,
}
use lantern_runtime.Base.Exec.{Exec, ok, err, panic}
use lantern_runtime.Host.Errors.{ChannelError, Wire}
use lantern_runtime.Ipc.Channel.{Channel, Codec}
use lantern_runtime.Ipc.Laws.{FitsExactly, StaysInBuffer}
use lantern_runtime.Ipc.Messages.{
  encrypt_request, encrypt_answer, decrypt_request, decrypt_answer, sign_answer,
}
use lantern_runtime.Ipc.Keystore.{encrypt, decrypt, sign}
use lantern_runtime.Ipc.Filesystem.{read, write}
use lantern_runtime.Ipc.Rounds.{
  encrypt_round, decrypt_round, sign_round, write_round, accept-ends, accept_file,
}

module _ (W : Wire) (X : Codec) (fits : FitsExactly W X) where
  pub encrypt_request-sends :
      (nonce aad buffer : List ℕ)
      → length nonce ≡ W.nonce_len
      → (out : List ℕ) × (len : ℕ) × (X.encode_encrypt_request nonce aad buffer
            (replicate (4 + W.nonce_len + 4 + length aad + length buffer) 0)
          ≡ some (out, len))
        × (encrypt_request W X nonce aad buffer ≡ ok (take len out))
  unfolding encrypt_request
  encrypt_request-sends nonce aad buffer n =
      let (out, len, e, room) = fits.encrypt_fits nonce aad buffer n in
      (out, len, e, ground (arith, e))

  pub decrypt_request-sends :
      (nonce aad buffer tag : List ℕ)
      → length nonce ≡ W.nonce_len
      → length tag ≡ W.tag_len
      → (out : List ℕ) × (len : ℕ) × (X.encode_decrypt_request nonce aad tag buffer
            (replicate (4 + W.nonce_len + 4 + length aad + 4 + W.tag_len + length buffer) 0)
          ≡ some (out, len))
        × (decrypt_request W X nonce aad buffer tag ≡ ok (take len out))
  unfolding decrypt_request
  decrypt_request-sends nonce aad buffer tag n t =
      let (out, len, e, room) = fits.decrypt_fits nonce aad buffer tag n t in
      (out, len, e, ground (arith, e))

encrypt_answer-ends :
    (W : Wire) (X : Codec) (n : ℕ) (reply : List ℕ) (len : ℕ)
    → len ≤ length reply
    → encrypt_answer W X n (reply, len) ≢ panic
unfolding encrypt_answer
encrypt_answer-ends W X n reply len room = ground arith

decrypt_answer-ends :
    (W : Wire) (X : Codec) (n : ℕ) (reply : List ℕ) (len : ℕ)
    → len ≤ length reply
    → decrypt_answer W X n (reply, len) ≢ panic
unfolding decrypt_answer
decrypt_answer-ends W X n reply len room = ground arith

sign_answer-ends :
    (W : Wire) (X : Codec) (reply : List ℕ) (len : ℕ)
    → len ≤ length reply
    → sign_answer W X (reply, len) ≢ panic
unfolding sign_answer
sign_answer-ends W X reply len room = ground arith

accept_file-ends :
    (W : Wire) (r : Exec ChannelError (List ℕ × ℕ × ℕ)) → r ≢ panic → accept_file W r ≢ panic
accept_file-ends W (ok (reply, status, len)) ends = ground arith
accept_file-ends W (err e) ends = ground arith
accept_file-ends W panic ends = absurd (ends refl)

-- Over a channel whose calls end and whose replies stay in the buffer, and with codecs whose requests
-- fit the buffers sized for them, no method of `IpcKeystore` panics on a nonce and a tag of the right
-- lengths, and no method of `IpcFilesystem` panics at all.
pub ipc-ends :
    {C : Type 0} (W : Wire) (X : Codec) (ch : Channel C)
    → FitsExactly W X
    → StaysInBuffer ch
    → (nonce aad body tag : List ℕ) (c : C) → length nonce ≡ W.nonce_len
    → length tag ≡ W.tag_len
    → ((encrypt W X ch nonce aad body c).1 ≢ panic)
      × ((decrypt W X ch nonce aad body tag c).1 ≢ panic)
      × ((sign W X ch body c).1 ≢ panic)
      × ((read W ch body c).1 ≢ panic)
      × ((write W ch body c).1 ≢ panic)
unfolding read
ipc-ends W X ch fits stays nonce aad body tag c n t =
    let (_, _, _, e) = encrypt_request-sends W X fits nonce aad body n in
    let (_, _, _, d) = decrypt_request-sends W X fits nonce aad body tag n t in
    (
      rw (encrypt_round W X ch c nonce aad body e) (
          accept-ends _ _ _ _ (encrypt_answer W X (length body)) (stays.ends _ _ _ c)
            λ reply status len r.
              encrypt_answer-ends W X _ reply len
                (omega (arith, stays.replied _ _ _ reply status len c r))),
      rw (decrypt_round W X ch c nonce aad body tag d) (
          accept-ends _ _ _ _ (decrypt_answer W X (length body)) (stays.ends _ _ _ c)
            λ reply status len r.
              decrypt_answer-ends W X _ reply len
                (omega (arith, stays.replied _ _ _ reply status len c r))),
      rw (sign_round W X ch c body) (
          accept-ends _ _ _ _ (sign_answer W X) (stays.ends _ _ _ c) λ reply status len r.
            sign_answer-ends W X reply len
              (omega (arith, stays.replied _ _ _ reply status len c r))),
      accept_file-ends W (ch.call W.op_read [] body c).1 (stays.ends _ _ _ c),
      rw (write_round W ch c body)
          (accept-ends _ _ _ _ (λ _. ok tt) (stays.ends _ _ _ c) λ reply status len r. λ e. cc),
    )

-- ===== src/Ipc/Channel.antt =====
-- What `IpcKeystore` and `IpcFilesystem` of `src/host.rs` stand on: a channel of `lantern_abi`, and
-- the codecs of `lantern_crypto::wire`. Both are records of operations.
use lantern_runtime.Base.{ℕ, Option, List, length, take, leb, ◌==◌, if◌then◌else◌}
use lantern_runtime.Base.Exec.{Exec, ok, err, panic, Call}
use lantern_runtime.Host.Errors.{ChannelError}

-- `Channel::call` with an operation, a request and a reply buffer: the buffer after the call, the
-- status and the number of bytes that were replied.
pub record Channel (C : Type 0) : Type 0 where
  pub call : ℕ → List ℕ → List ℕ → Call C ChannelError (List ℕ × ℕ × ℕ)

-- An encoder writes into the buffer that it is given last, and returns it with the bytes used.
pub record Codec : Type 0 where
  pub encode_encrypt_request : List ℕ → List ℕ → List ℕ → List ℕ → Option (List ℕ × ℕ)
  pub encode_decrypt_request : List ℕ → List ℕ → List ℕ → List ℕ → List ℕ → Option (List ℕ × ℕ)
  pub encode_sign_request : List ℕ → List ℕ
  -- the tag, and the ciphertext
  pub decode_encrypt_reply : List ℕ → Option (List ℕ × List ℕ)
  pub decode_decrypt_reply : List ℕ → List ℕ
  pub decode_sign_reply : List ℕ → List ℕ

-- `&bytes[..n]`
abbrev pub prefix : {E : Type 0} → ℕ → List ℕ → Exec E (List ℕ)
prefix n bytes = if leb n (length bytes) then ok (take n bytes) else panic

module _ {E : Type 0} (wrap : ChannelError → E) (denied : ℕ → E) (status_ok : ℕ) where
  -- The early return on a status other than `OK`.
  abbrev pub accept : Exec ChannelError (List ℕ × ℕ × ℕ) → Exec E (List ℕ × ℕ)
  accept (ok (reply, status, len)) =
      if status == status_ok then ok (reply, len) else err (denied status)
  accept (err e) = err (wrap e)
  accept panic = panic

  -- `channel.call(…).map_err(…)?` and the test of its status.
  abbrev pub exchange : {C : Type 0} → Channel C → ℕ → List ℕ → List ℕ → Call C E (List ℕ × ℕ)
  exchange ch op request reply c =
      ((ch.call op request reply c).0, accept (ch.call op request reply c).1)

-- ===== src/Ipc/Laws.antt =====
-- What the two clients of `src/host.rs` rely on in the codecs and in the channel.
use lantern_runtime.Base.{ℕ, ◌≡◌, ◌≢◌, ◌+◌, ◌≤◌, some, List, length, replicate}
use lantern_runtime.Base.Exec.{ok, panic}
use lantern_runtime.Host.Errors.{Wire}
use lantern_runtime.Ipc.Channel.{Channel, Codec}

-- A request fits the buffer that is sized for it: nonce, data and tag behind their length words.
pub record FitsExactly (W : Wire) (X : Codec) : Type 0 where
  pub encrypt_fits :
      (nonce aad buffer : List ℕ)
      → length nonce ≡ W.nonce_len
      → (out : List ℕ) × (len : ℕ) × (X.encode_encrypt_request nonce aad buffer
            (replicate (4 + W.nonce_len + 4 + length aad + length buffer) 0)
          ≡ some (out, len))
        × (len ≤ length out)
  pub decrypt_fits :
      (nonce aad buffer tag : List ℕ)
      → length nonce ≡ W.nonce_len
      → length tag ≡ W.tag_len
      → (out : List ℕ) × (len : ℕ) × (X.encode_decrypt_request nonce aad tag buffer
            (replicate (4 + W.nonce_len + 4 + length aad + 4 + W.tag_len + length buffer) 0)
          ≡ some (out, len))
        × (len ≤ length out)

-- A call ends, the reply buffer keeps its length, and no more is replied than it holds.
pub record StaysInBuffer {C : Type 0} (ch : Channel C) : Type 0 where
  pub ends : (op : ℕ) (request reply : List ℕ) (c : C) → (ch.call op request reply c).1 ≢ panic
  pub replied :
      (op : ℕ) (request reply after : List ℕ) (status len : ℕ) (c : C)
      → (ch.call op request reply c).1 ≡ ok (after, status, len)
      → (length after ≡ length reply) × (len ≤ length reply)

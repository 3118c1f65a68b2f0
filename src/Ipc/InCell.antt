-- ===== src/Ipc/InCell.antt =====
-- The methods of `IpcKeystore` and `IpcFilesystem` (`src/host.rs`) over the cell that holds their channel:
-- each borrows it from its call to its end, the reading of the reply included.
use lantern_runtime.Base.{ℕ, ◌+◌, List, [], length, replicate}
use lantern_runtime.Base.Exec.{Call, lift, pure, ◌>>=◌}
use lantern_runtime.Host.Errors.{KeystoreError, StoreError, Wire}
use lantern_runtime.Host.Services.{KeystoreService, FilesystemService}
use lantern_runtime.Ipc.Channel.{Channel, Codec}
use lantern_runtime.Ipc.Messages.{
  encrypt_request, encrypt_answer, decrypt_request, decrypt_answer, sign_answer,
}
use lantern_runtime.Ipc.Keystore
use lantern_runtime.Ipc.Filesystem
use lantern_runtime.Ipc.Cell.{SingleThreadCell, with_borrow, borrowed_channel}

module _ {C : Type 0} (W : Wire) (X : Codec) (ch : Channel C) where
  unfoldable pub encrypt_in_cell :
      List ℕ → List ℕ → List ℕ → Call (SingleThreadCell C) KeystoreError (List ℕ × List ℕ)
  encrypt_in_cell nonce aad buffer = do
    request ← lift (encrypt_request W X nonce aad buffer)
    with_borrow (
        Keystore.ask W X (borrowed_channel ch) W.op_encrypt request
          (replicate (4 + W.tag_len + length buffer) 0)
        >>= λ answer. lift (encrypt_answer W X (length buffer) answer))

  unfoldable pub decrypt_in_cell :
      List ℕ → List ℕ → List ℕ → List ℕ → Call (SingleThreadCell C) KeystoreError (List ℕ)
  decrypt_in_cell nonce aad buffer tag = do
    request ← lift (decrypt_request W X nonce aad buffer tag)
    with_borrow (
        Keystore.ask W X (borrowed_channel ch) W.op_decrypt request (replicate (length buffer) 0)
        >>= λ answer. lift (decrypt_answer W X (length buffer) answer))

  unfoldable pub sign_in_cell : List ℕ → Call (SingleThreadCell C) KeystoreError (List ℕ)
  sign_in_cell message = with_borrow (
      Keystore.ask W X (borrowed_channel ch) W.op_sign (X.encode_sign_request message)
        (replicate W.signature_len 0)
      >>= λ answer. lift (sign_answer W X answer))

  unfoldable pub keystore_in_cell : KeystoreService (SingleThreadCell C)
  keystore_in_cell = record {
    encrypt = λ badge key nonce aad buffer. encrypt_in_cell nonce aad buffer;
    decrypt = λ badge key nonce aad buffer tag. decrypt_in_cell nonce aad buffer tag;
    sign = λ badge key message. sign_in_cell message;
  }

module _ {C : Type 0} (W : Wire) (ch : Channel C) where
  unfoldable pub read_in_cell : List ℕ → Call (SingleThreadCell C) StoreError (List ℕ × ℕ)
  read_in_cell buffer = with_borrow (Filesystem.ask W (borrowed_channel ch) W.op_read [] buffer)

  unfoldable pub write_in_cell : List ℕ → Call (SingleThreadCell C) StoreError (Unit {0})
  write_in_cell bytes =
      with_borrow (Filesystem.ask W (borrowed_channel ch) W.op_write bytes [] >>= λ _. pure tt)

  unfoldable pub filesystem_in_cell : FilesystemService (SingleThreadCell C)
  filesystem_in_cell = record {
    read = λ badge file buffer. read_in_cell buffer;
    write = λ badge file bytes. write_in_cell bytes;
  }

-- ===== src/Ipc/Filesystem.antt =====
-- `IpcFilesystem` of `src/host.rs`: the store trait over one channel, with the caller's own buffers.
use lantern_runtime.Base.{ℕ, List, []}
use lantern_runtime.Base.Exec.{Call, pure, ◌>>=◌}
use lantern_runtime.Host.Errors.{StoreError, Wire}
use lantern_runtime.Host.Services.{FilesystemService}
use lantern_runtime.Ipc.Channel.{Channel, exchange}

module _ {C : Type 0} (W : Wire) (ch : Channel C) where
  abbrev pub ask : ℕ → List ℕ → List ℕ → Call C StoreError (List ℕ × ℕ)
  ask = exchange StoreError.channel StoreError.remote_crypto_denied W.store_ok ch

  unfoldable pub read : List ℕ → Call C StoreError (List ℕ × ℕ)
  read buffer = ask W.op_read [] buffer

  unfoldable pub write : List ℕ → Call C StoreError (Unit {0})
  write bytes = do _ ← ask W.op_write bytes []; pure tt

  unfoldable pub ipc_filesystem : FilesystemService C
  ipc_filesystem = record {
    read = λ badge file buffer. read buffer;
    write = λ badge file bytes. write bytes;
  }

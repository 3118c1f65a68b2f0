-- ===== src/Tests/Ipc.antt =====
-- The channel clients of `src/host.rs` on the concrete channels.
use lantern_runtime.Base.{◌≡◌, ◌≢◌, refl, none, [], ◌∷◌, replicate}
use lantern_runtime.Base.Exec.{ok, err, panic}
use lantern_runtime.Host.Errors.{KeystoreError, to_error_code, to_fs_error_code}
use lantern_runtime.Host.Files.{read_answer}
use lantern_runtime.Ipc.Keystore
use lantern_runtime.Ipc.Filesystem
use lantern_runtime.Ipc.Messages.{encrypt_request, encrypt_answer}
use lantern_runtime.Ipc.Safety.{ipc-ends}
use lantern_runtime.Ipc.Carrying.{seen, seen_through}
use lantern_runtime.Ipc.Refinement.{ipc_keystore-refines}
use lantern_runtime.Ipc.FileRefinement.{ipc_filesystem-refines}
use lantern_runtime.Tests.Services.{wire, keystore, filesystem, fill}
use lantern_runtime.Tests.Remote.{
  codec, codec-FitsExactly, remote_keystore, remote_keystore-StaysInBuffer,
  remote_keystore-ServesKeys, remote_store, remote_store-ServesFiles,
}

-- Badge 171 may seal, badge 3 is refused with the status of a denial.
sealed :
    Keystore.encrypt wire codec (remote_keystore 171) (1 ∷ 2 ∷ []) [] (5 ∷ 6 ∷ []) 0
    ≡ (1, ok (6 ∷ 7 ∷ [], 7 ∷ []))
unfolding Keystore.encrypt encrypt_request encrypt_answer fill
sealed = refl

refused :
    Keystore.encrypt wire codec (remote_keystore 3) (1 ∷ 2 ∷ []) [] (5 ∷ 6 ∷ []) 0
    ≡ (1, err (KeystoreError.remote_denied 1))
unfolding Keystore.encrypt encrypt_request encrypt_answer fill
refused = refl

ipc-ends_example :
    let ch = remote_keystore 3 in
    ((Keystore.encrypt wire codec ch (1 ∷ 2 ∷ []) [] (5 ∷ []) 0).1 ≢ panic)
    × ((Keystore.decrypt wire codec ch (1 ∷ 2 ∷ []) [] (5 ∷ []) (7 ∷ []) 0).1 ≢ panic)
    × ((Keystore.sign wire codec ch (5 ∷ []) 0).1 ≢ panic)
    × ((Filesystem.read wire ch (5 ∷ []) 0).1 ≢ panic)
    × ((Filesystem.write wire ch (5 ∷ []) 0).1 ≢ panic)
ipc-ends_example =
    ipc-ends wire codec (remote_keystore 3) codec-FitsExactly (remote_keystore-StaysInBuffer 3)
      (1 ∷ 2 ∷ []) [] (5 ∷ []) (7 ∷ []) 0 refl refl

ipc_keystore-refines_example :
    let ch = remote_keystore 171 in
    let code = to_error_code wire in
    (seen_through code (λ calls. calls) (Keystore.encrypt wire codec ch (1 ∷ 2 ∷ []) [] (5 ∷ []) 0)
      ≡ seen code (keystore.encrypt 171 4 (1 ∷ 2 ∷ []) [] (5 ∷ []) 0))
    × (seen_through code
          (λ calls. calls)
          (Keystore.decrypt wire codec ch (1 ∷ 2 ∷ []) [] (5 ∷ []) (7 ∷ []) 0)
        ≡ seen code (keystore.decrypt 171 4 (1 ∷ 2 ∷ []) [] (5 ∷ []) (7 ∷ []) 0))
    × (seen_through code (λ calls. calls) (Keystore.sign wire codec ch (5 ∷ []) 0)
        ≡ seen code (keystore.sign 171 4 (5 ∷ []) 0))
ipc_keystore-refines_example =
    ipc_keystore-refines wire codec (remote_keystore 171) keystore (λ calls. calls) 171 4
      remote_keystore-ServesKeys codec-FitsExactly (1 ∷ 2 ∷ []) [] (5 ∷ []) (7 ∷ []) 0 refl refl

ipc_filesystem-refines_example :
    let near = filesystem.read 9 6 (replicate 8 0) none in
    let far = Filesystem.read wire remote_store (replicate 8 0) none in
    (far.0 ≡ near.0)
    × (read_answer wire far.1 ≡ read_answer wire near.1)
    × (seen_through
          (to_fs_error_code wire)
          (λ block. block)
          (Filesystem.write wire remote_store (3 ∷ []) none)
        ≡ seen (to_fs_error_code wire) (filesystem.write 9 6 (3 ∷ []) none))
ipc_filesystem-refines_example =
    ipc_filesystem-refines wire remote_store filesystem (λ block. block) 9 6
      remote_store-ServesFiles (replicate 8 0) (3 ∷ []) none

-- ===== src/Ipc/FileRefinement.antt =====
-- A component cannot tell a store at the far end of a channel from one in its own process
-- (`src/host.rs`: `IpcFilesystem` against `FilesystemService`).
use lantern_runtime.Base.{ℕ, ◌≡◌, ◌↔◌, refl, List, [], arith}
use lantern_runtime.Base.Exec.{Exec, ok, err, panic}
use lantern_runtime.Host.Errors.{
  ChannelError, StoreError, ErrorCode, access, Wire, to_fs_error_code,
}
use lantern_runtime.Host.Services.{FilesystemService}
use lantern_runtime.Host.Files.{read_answer}
use lantern_runtime.Ipc.Channel.{Channel}
use lantern_runtime.Ipc.Filesystem.{read, write}
use lantern_runtime.Ipc.Carrying.{
  Carries, Carries-agree, ErrorCode-agree, ×-path, seen, seen_through,
}
use lantern_runtime.Ipc.Rounds.{write_round, accept_file}

-- A store behind the channel, as the state `view c` of a service `S` that serves one badge and file.
-- It replies to a read with what a component is to see: the bytes of the block, none if the file was
-- never written, or a refusal.
pub record ServesFiles {C R : Type 0} (W : Wire) (ch : Channel C) (S : FilesystemService R)
    (view : C → R) (badge file : ℕ) : Type 0 where
  pub reads :
      (buffer : List ℕ) (c : C)
      → let r = ch.call W.op_read [] buffer c in
        let s = S.read badge file buffer (view c) in
        (view r.0 ≡ s.0)
        × Carries W.store_ok W.store_access
            (λ code. code)
            (λ bytes block. bytes ≡ block)
            (read_answer W s.1)
            r.1
  pub writes :
      (bytes : List ℕ) (c : C)
      → let r = ch.call W.op_write bytes [] c in
        let s = S.write badge file bytes (view c) in
        (view r.0 ≡ s.0)
        × Carries W.store_ok W.store_access (to_fs_error_code W) (λ _ _. Unit {0}) s.1 r.1

remote_denied_code :
    (W : Wire) (status : ℕ)
    → (to_fs_error_code W (StoreError.remote_crypto_denied status) ≡ access)
      ↔ (status ≡ W.store_access)
unfolding to_fs_error_code
remote_denied_code W status = (λ h. ground arith, λ h. ground arith)

read_agrees :
    (W : Wire) (s : Exec ErrorCode (List ℕ)) (r : Exec ChannelError (List ℕ × ℕ × ℕ))
    → Carries W.store_ok W.store_access (λ code. code) (λ bytes block. bytes ≡ block) s r
    → read_answer W (accept_file W r) ≡ s
unfolding read_answer
read_agrees W (ok a) (ok (reply, status, len)) (e, room, reads) = ground arith
read_agrees W (err e) (ok (reply, status, len)) (ne, same) =
    let agree : to_fs_error_code W (StoreError.remote_crypto_denied status) ≡ e =
      ErrorCode-agree (to_fs_error_code W (StoreError.remote_crypto_denied status)) e (
        λ p. same.0 ((remote_denied_code W status).0 p),
        λ p. (remote_denied_code W status).1 (same.1 p),
      ) in
    ground (arith, agree)
read_agrees W (ok _) (err _) h = absurd h
read_agrees W (ok _) panic h = absurd h
read_agrees W (err _) (err _) h = absurd h
read_agrees W (err _) panic h = absurd h
read_agrees W panic (ok _) h = absurd h
read_agrees W panic (err _) h = absurd h
read_agrees W panic panic h = absurd h

-- Over a channel behind which a store serves one badge and file, reading a block and writing bytes
-- through `IpcFilesystem` leave that store in the state, and give a component the result, that direct
-- calls of the store under that badge and file would; a file never written reads as empty either way.
pub ipc_filesystem-refines :
    {C R : Type 0} (W : Wire) (ch : Channel C) (S : FilesystemService R) (view : C → R)
    (badge file : ℕ)
    → ServesFiles W ch S view badge file
    → (buffer bytes : List ℕ) (c : C)
    → let near = S.read badge file buffer (view c) in
      let far = read W ch buffer c in
      (view far.0 ≡ near.0)
      × (read_answer W far.1 ≡ read_answer W near.1)
      × (seen_through (to_fs_error_code W) view (write W ch bytes c)
          ≡ seen (to_fs_error_code W) (S.write badge file bytes (view c)))
unfolding read
ipc_filesystem-refines W ch S view badge file serves buffer bytes c =
    let (r_state, r_carried) = serves.reads buffer c in
    let (w_state, w_carried) = serves.writes bytes c in
    (
      r_state,
      read_agrees W _ _ r_carried,
      rw (write_round W ch c bytes) (
          ×-path w_state (
            Carries-agree _ _ _ _ _ (λ _ _. Unit {0}) (λ _. ok tt) (λ reply len a room reads. refl)
              (remote_denied_code W) _ _ w_carried)),
    )

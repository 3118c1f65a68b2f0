-- ===== src/Host/Files.antt =====
-- `impl filesystem::HostFile` and `impl filesystem::Host` for `RuntimeState` (`src/host.rs`).
use lantern_runtime.Base.{
  ℕ, Option, none, some, Bool, true, false, List, [], length, take, replicate, ltb,
}
use lantern_runtime.Base.Exec.{Exec, ok, err, panic, map_err, Call, lift, ◌>>=◌, ◌>>◌}
use lantern_runtime.Host.Records.{ServiceEndpoint}
use lantern_runtime.Host.Errors.{StoreError, ErrorCode, access, invalid, Wire, to_fs_error_code}
use lantern_runtime.Host.Services.{file_entry, Kind, Embedding}
use lantern_runtime.Host.State.{RuntimeState, WasmtimeError, wasmtime_error, granted, file_cap}

abbrev pub serves_filesystem : ServiceEndpoint → Exec ErrorCode (Unit {0})
serves_filesystem ServiceEndpoint.keystore = err access
serves_filesystem ServiceEndpoint.filesystem = ok tt

-- The early return of `write` on a block that is too long.
abbrev pub guard_block : Bool → Exec ErrorCode (Unit {0})
guard_block true = err invalid
guard_block false = ok tt

-- What `read` makes of the service's answer; `truncate` never lengthens the buffer.
unfoldable pub read_answer : Wire → Exec StoreError (List ℕ × ℕ) → Exec ErrorCode (List ℕ)
unfolding to_fs_error_code
read_answer W (ok (buffer, n)) = ok (take n buffer)
read_answer W (err StoreError.file_empty) = ok []
read_answer W (err e) = err (to_fs_error_code W e)
read_answer W panic = panic

module _ {Tab K F : Type 0} (H : Embedding Tab K F) where
  -- A call of the attached service, `answer` being what is made of its result.
  unfoldable pub ask_filesystem :
      {A B : Type 0}
      → (F → F × Exec StoreError A)
      → (Exec StoreError A → Exec ErrorCode B)
      → Call (RuntimeState Tab K F) ErrorCode B
  ask_filesystem call answer s = elim s.filesystem [
    | none ↦ (s, err access)
    | some f ↦ (record s { filesystem = some (call f).0 }, answer (call f).1)
  ]

  unfoldable pub read : ℕ → Call (RuntimeState Tab K F) ErrorCode (List ℕ)
  unfolding file_cap ask_filesystem
  read handle s =
      (do
        cap ← lift (file_cap H s handle)
        lift (serves_filesystem cap.service)
        ask_filesystem (H.filesystem.read cap.badge cap.file (replicate H.wire.max_block_len 0))
            (read_answer H.wire))
        s

  unfoldable pub write : ℕ → List ℕ → Call (RuntimeState Tab K F) ErrorCode (Unit {0})
  unfolding file_cap ask_filesystem
  write handle bytes s =
      (do
        cap ← lift (file_cap H s handle)
        lift (serves_filesystem cap.service)
        lift (guard_block (ltb H.wire.max_block_len (length bytes)))
        ask_filesystem (H.filesystem.write cap.badge cap.file bytes)
            (map_err (to_fs_error_code H.wire)))
        s

  -- `HostFile::drop`
  unfoldable pub drop_file : ℕ → Call (RuntimeState Tab K F) WasmtimeError (Unit {0})
  drop_file handle s = elim (H.table.delete s.table Kind.file_kind handle) [
    | none ↦ (s, err wasmtime_error)
    | some t ↦ (record s { table = t }, ok tt)
  ]

  -- `filesystem::Host::open`
  unfoldable pub open_file : ℕ → RuntimeState Tab K F → RuntimeState Tab K F × Option ℕ
  open_file slot s = elim (granted s.files slot) [
    | none ↦ (s, none)
    | some cap ↦ elim (H.table.push s.table (file_entry cap)) [
      | none ↦ (s, none)
      | some (handle, t) ↦ (record s { table = t }, some handle)
    ]
  ]

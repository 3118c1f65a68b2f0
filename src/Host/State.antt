-- ===== src/Host/State.antt =====
-- `RuntimeState` of `src/host.rs`, its builders, and how a handle finds its record.
use lantern_runtime.Base.{ℕ, ◌^◌, Option, none, some, List, get_elem?, ltb, if◌then◌else◌}
use lantern_runtime.Base.Exec.{Exec, ok, err, map_err, Call}
use lantern_runtime.Host.Records.{HostCapability, HostFile, MonotonicClock, GrantManifest}
use lantern_runtime.Host.Errors.{KeystoreError, ErrorCode, access, to_error_code}
use lantern_runtime.Host.Services.{Entry, key_entry, file_entry, Embedding}

pub record RuntimeState (Tab K F : Type 0) : Type 0 where
  pub table : Tab
  pub keys : List (Option HostCapability)
  pub files : List (Option HostFile)
  pub keystore : Option K
  pub filesystem : Option F
  pub clock : Option MonotonicClock

-- The error of a `wasmtime::Result`, which the program never looks into.
pub data WasmtimeError : Type 0 where
  wasmtime_error : WasmtimeError

abbrev as_key : Option Entry → Option HostCapability
as_key (some (key_entry cap)) = some cap
as_key _ = none

abbrev as_file : Option Entry → Option HostFile
as_file (some (file_entry cap)) = some cap
as_file _ = none

-- `usize::try_from(slot).ok()`, on a target of 64 bits.
abbrev usize_try_from : ℕ → Option ℕ
usize_try_from slot = if ltb slot (2 ^ 64) then some slot else none

-- `.get(slot).copied().flatten()`
unfoldable pub granted : {A : Type 0} → List (Option A) → ℕ → Option A
granted slots slot = elim (usize_try_from slot) [
  | none ↦ none
  | some i ↦ elim (get_elem? slots i) [ none ↦ none | some grant ↦ grant ]
]

module _ {Tab K F : Type 0} (H : Embedding Tab K F) where
  unfoldable pub new : GrantManifest → RuntimeState Tab K F
  new manifest = record {
    table = H.table.new;
    keys = manifest.keystore_keys;
    files = manifest.filesystem_files;
    keystore = none;
    filesystem = none;
    clock = manifest.monotonic_clock;
  }

  unfoldable pub with_keystore : RuntimeState Tab K F → K → RuntimeState Tab K F
  with_keystore s keystore = record s { keystore = some keystore }

  unfoldable pub with_filesystem : RuntimeState Tab K F → F → RuntimeState Tab K F
  with_filesystem s filesystem = record s { filesystem = some filesystem }

  unfoldable pub keystore_cap : RuntimeState Tab K F → ℕ → Exec ErrorCode HostCapability
  keystore_cap s handle = elim (as_key (H.table.get s.table handle)) [
    | some cap ↦ ok cap
    | none ↦ err access
  ]

  unfoldable pub file_cap : RuntimeState Tab K F → ℕ → Exec ErrorCode HostFile
  file_cap s handle = elim (as_file (H.table.get s.table handle)) [
    | some cap ↦ ok cap
    | none ↦ err access
  ]

  -- `self.keystore()?.op(…).map_err(to_error_code)`
  unfoldable pub ask_keystore :
      {A : Type 0} → (K → K × Exec KeystoreError A) → Call (RuntimeState Tab K F) ErrorCode A
  ask_keystore call s = elim s.keystore [
    | none ↦ (s, err access)
    | some k ↦ (record s { keystore = some (call k).0 }, map_err (to_error_code H.wire) (call k).1)
  ]

  -- A state with the services attached that there are.
  unfoldable pub start : GrantManifest → Option K → Option F → RuntimeState Tab K F
  unfolding new with_keystore with_filesystem
  start manifest keystore filesystem =
      let s = new manifest in
      let s' : RuntimeState Tab K F = elim keystore [ none ↦ s | some k ↦ with_keystore s k ] in
      elim filesystem [ none ↦ s' | some f ↦ with_filesystem s' f ]

-- ===== src/Confined/Program.antt =====
-- `confined-runtime/src/main.rs`, and the outer frame of `lib.rs`: the wiring that a manifest decides.
use lantern_runtime.Base.{
  ℕ, zero, suc, ◌+◌, ◌-◌, ◌%◌, ◌^◌, Option, none, some, Bool, true, false, ◌&&◌, List, [], ◌∷◌,
  length, replicate, ◌==◌, if◌then◌else◌,
}
use lantern_runtime.Base.Exec.{Exec, ok, err, panic, Call, lift, ◌>>=◌, ◌>>◌}
use lantern_runtime.Host.Records.{GrantManifest, keystore_key, filesystem_file}
use lantern_runtime.Host.Errors.{KeystoreError, Wire}
use lantern_runtime.Host.Services.{Embedding}
use lantern_runtime.Host.State.{RuntimeState, new, with_keystore, with_filesystem}
use lantern_runtime.Host.Linker.{Linking, is_some}
use lantern_runtime.Ipc.Channel.{Channel, Codec}
use lantern_runtime.Ipc.Keystore
use lantern_runtime.Confined.Stage.{
  Stage, Fault, code, fail_if, dest_cptr, success_cptr, failure_cptr, frame_vaddr, heap_base,
  heap_len,
}
use lantern_runtime.Confined.System.{System, Sdk, Wasmtime}
use lantern_runtime.Confined.Text.{codes, Text}
use lantern_runtime.Confined.Package.{VerifiedPackage, plan, verify_package}
use lantern_runtime.Confined.Grant.{request_grant}
use lantern_runtime.Confined.Probe.{ProbeChecks, run_probe}

-- The endpoint and the frame that an `IpcKeystore` or an `IpcFilesystem` is made from.
pub record Client : Type 0 where
  pub endpoint : ℕ
  pub frame : ℕ

abbrev pub client : Client
client = record { endpoint = dest_cptr; frame = frame_vaddr }

-- The slots from `slot` on, `declared` of them.
abbrev pub slots_from : {T : Type 0} → ℕ → ℕ → Bool → T → List (Option T)
slots_from slot zero granted grant = []
slots_from slot (suc declared) granted grant =
    (if granted && slot == 0 then some grant else none)
    ∷ slots_from (suc slot) declared granted grant

unfoldable pub slots : {T : Type 0} → ℕ → Bool → T → List (Option T)
slots declared granted grant = slots_from 0 declared granted grant

-- What an encryption under a grant for signing only must come to.
abbrev pub attenuated : Wire → Exec KeystoreError (List ℕ × List ℕ) → Exec Fault (Unit {0})
attenuated Y (ok _) = err (Stage.attenuation, 0x200)
attenuated Y (err (KeystoreError.remote_denied status)) =
    if status == Y.crypto_access then ok tt else err (Stage.attenuation, status)
attenuated Y (err _) = err (Stage.attenuation, 0x100)
attenuated Y panic = panic

abbrev pub not_granted : List ℕ
not_granted = codes "not granted"

abbrev pub open_1_none : Text
open_1_none = codes "keystore.open(1)=none"

abbrev pub keystore_denied : Text
keystore_denied = codes "keystore denied"

abbrev pub oversized_write : Text
oversized_write = codes "oversized write=invalid"

abbrev pub content_intact : Text
content_intact = codes "content intact"

abbrev pub file_1_none : Text
file_1_none = codes "filesystem.open(1)=none"

abbrev pub quoted_access : Text
quoted_access = codes "\"access\""

unfoldable pub keystore_grants : List Text → Bool → GrantManifest
keystore_grants requests granted = record {
  keystore_keys = slots (length requests) granted (keystore_key 0 0);
  filesystem_files = [];
  monotonic_clock = none;
}

unfoldable pub filesystem_grants : List Text → Bool → GrantManifest
filesystem_grants requests granted = record {
  keystore_keys = [];
  filesystem_files = slots (length requests) granted (filesystem_file 0 0);
  monotonic_clock = none;
}

abbrev pub keystore_checks : Wire → ProbeChecks
keystore_checks Y = record {
  required = open_1_none ∷ [];
  open_op = Y.op_sign;
  refused = keystore_denied;
}

abbrev pub filesystem_checks : Wire → ProbeChecks
filesystem_checks Y = record {
  required = oversized_write ∷ content_intact ∷ file_1_none ∷ [];
  open_op = Y.op_read;
  refused = quoted_access;
}

-- A `Signal` whose own result is dropped.
abbrev pub signal_with : {W : Type 0} → System W → ℕ → Stage → ℕ → W → W
signal_with S notification stage detail = S.signal_with notification (code stage) detail

-- The signal that an outcome ends in; none on a panic, which `report_panics_via` reports.
abbrev pub report : {W : Type 0} → System W → Exec Fault (Unit {0}) → W → W
report S (ok u) w =
    signal_with S success_cptr Stage.done ((S.heap_top w + 2 ^ 64 - heap_base) % 2 ^ 64) w
report S (err (stage, detail)) w = signal_with S failure_cptr stage detail w
report S panic w = w

-- The argument is `host`; the loop at the end of the program changes nothing.
unfoldable pub run_and_report : {W : Type 0} → System W → ℕ → (ℕ → Call W Fault (Unit {0})) → W → W
run_and_report S arg0 host w =
    let r = host arg0 (S.report_panics_via failure_cptr (S.init_heap heap_base heap_len w)) in
    report S r.1 r.0

module _ {W Tab Comp Link Ins : Type 0} (S : System W) (D : Sdk) (R : Linking Link)
    (H : Embedding Tab Client Client)
    (E : Wasmtime W (RuntimeState Tab Client Client) Comp Link Ins) (X : Codec)
    (ch : Channel W) where
  -- The encryption that a grant for signing only must refuse, tried where a grant was given.
  unfoldable pub check_attenuation : Bool → Call W Fault (Unit {0})
  check_attenuation false w = (w, ok tt)
  check_attenuation true w =
      let r = Keystore.encrypt H.wire X ch (replicate H.wire.nonce_len 0) [] not_granted w in
      (r.0, attenuated H.wire r.1)

  unfoldable pub host_keystore : VerifiedPackage → List Text → Call W Fault (Unit {0})
  host_keystore lpkg requests = do
    granted ← request_grant S S.interface_keystore
    check_attenuation granted
    run_probe S E R lpkg (keystore_grants requests granted)
        (with_keystore H (new H (keystore_grants requests granted)) client) (keystore_checks H.wire)

  unfoldable pub host_filesystem : VerifiedPackage → List Text → Call W Fault (Unit {0})
  host_filesystem lpkg requests = do
    granted ← request_grant S S.interface_filesystem
    run_probe S E R lpkg (filesystem_grants requests granted)
        (with_filesystem H (new H (filesystem_grants requests granted)) client)
        (filesystem_checks H.wire)

  -- The wiring for the requests of a plan.
  unfoldable pub host_plan : VerifiedPackage → List Text → List Text → Call W Fault (Unit {0})
  host_plan lpkg [] [] = λ w. (w, err (Stage.manifest, 2))
  host_plan lpkg (key ∷ keys) [] = host_keystore lpkg (key ∷ keys)
  host_plan lpkg [] (file ∷ files) = host_filesystem lpkg (file ∷ files)
  host_plan lpkg (key ∷ keys) (file ∷ files) = λ w. (w, err (Stage.manifest, 3))

  -- `host_the_guest` once its package is verified.
  unfoldable pub host_verified : VerifiedPackage → Call W Fault (Unit {0})
  host_verified lpkg = do
    requested ← lift (plan D lpkg)
    fail_if (is_some requested.monotonic_clock) (Stage.manifest, 4)
    host_plan lpkg requested.keystore requested.filesystem

  unfoldable pub host_the_guest : ℕ → Call W Fault (Unit {0})
  host_the_guest package_len = do lpkg ← verify_package D S package_len; host_verified lpkg

  -- The program, from the length of the package it is started with.
  unfoldable pub run : ℕ → W → W
  run arg0 = run_and_report S arg0 host_the_guest

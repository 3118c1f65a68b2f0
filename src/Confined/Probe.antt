-- ===== src/Confined/Probe.antt =====
-- `run_probe` of `confined-runtime/src/lib.rs`, with the revocation that it has done.
use lantern_runtime.Base.{
  ℕ, ◌+◌, ◌%◌, ◌^◌, Option, none, some, Bool, not, ◌&&◌, List, ◌==◌, if◌then◌else◌,
}
use lantern_runtime.Base.Exec.{Exec, ok, err, Call, lift, pure, ◌>>=◌, ◌>>◌}
use lantern_runtime.Host.Records.{GrantManifest}
use lantern_runtime.Host.Linker.{Linking, build_linker}
use lantern_runtime.Confined.Stage.{
  Stage, Fault, at_stage, fail_if, attach, dest_cptr, revoke_request_cptr, revoke_done_cptr,
  frame_vaddr,
}
use lantern_runtime.Confined.System.{System, Wasmtime}
use lantern_runtime.Confined.Text.{codes, Text, starts_with, contains, position}
use lantern_runtime.Confined.Package.{VerifiedPackage}

pub record ProbeChecks : Type 0 where
  pub required : List Text
  pub open_op : ℕ
  pub refused : Text

-- `DEFAULT_FUEL` of `src/verified.rs`.
abbrev pub default_fuel : ℕ
default_fuel = 10000000

abbrev pub ok_prefix : Text
ok_prefix = codes "ok: "

abbrev pub error_prefix : Text
error_prefix = codes "error: "

abbrev first_missing : Option ℕ → Exec Fault (Unit {0})
first_missing none = ok tt
first_missing (some i) = err (Stage.verdict, i + 1)

unfoldable pub check_report : Text → List Text → Exec Fault (Unit {0})
check_report report required =
    if starts_with report ok_prefix
    then first_missing (position (λ marker. not (contains report marker)) required)
    else err (Stage.verdict, 0)

-- What the second report must show.
abbrev pub reports_refusal : Text → Text → Bool
reports_refusal report refused = starts_with report error_prefix && contains report refused

-- Bitwise or of 256 with a status of sixteen bits.
abbrev pub with_bit_8 : ℕ → ℕ
with_bit_8 status = if status % 512 == status % 256 then status + 0x100 else status

module _ {W : Type 0} (S : System W) where
  unfoldable pub send_empty_chunk : ℕ → ℕ → Call W Fault ℕ
  send_empty_chunk op flags w =
      (do
        label ← at_stage Stage.revocation 1 (S.call_with_label dest_cptr op)
        pure (label % 2 ^ 16))
        (S.store frame_vaddr (S.request_header op flags 0 0) w)

  unfoldable pub revoke_during_open_request : ℕ → Call W Fault (Unit {0})
  revoke_during_open_request op = do
    opened ← send_empty_chunk op S.flag_more
    fail_if (not (opened == S.status_ok)) (Stage.revocation, 1)
    at_stage Stage.revocation 2 (S.signal revoke_request_cptr)
    at_stage Stage.revocation 2 (S.wait revoke_done_cptr)
    status ← send_empty_chunk op 0
    fail_if (not (status == S.status_access)) (Stage.revocation, with_bit_8 status)

  module _ {State Comp Link Ins : Type 0} (E : Wasmtime W State Comp Link Ins)
      (R : Linking Link) where
    -- `run_probe` up to the guest's export.
    unfoldable pub prepare : VerifiedPackage → GrantManifest → State → Call W Fault Ins
    prepare lpkg manifest state = do
      component ← at_stage Stage.deserialize 0 (E.deserialize lpkg.cwasm_bytes)
      linker ← at_stage Stage.link 0 (lift (build_linker R manifest))
      linker' ← at_stage Stage.link 1 (E.define_unknown_imports_as_traps linker component)
      attach (E.new_store state)
      at_stage Stage.instantiate 0 (E.set_fuel default_fuel)
      instance ← at_stage Stage.instantiate 1 (E.instantiate linker' component)
      at_stage Stage.lookup 0 (E.get_probe instance)

    -- `run_probe` from there: the two calls of the export, with the revocation between them.
    unfoldable pub judge : ProbeChecks → Ins → Call W Fault (Unit {0})
    judge checks probe = do
      report ← at_stage Stage.call 0 (E.call_probe probe)
      lift (check_report report checks.required)
      revoke_during_open_request checks.open_op
      report' ← at_stage Stage.call 1 (E.call_probe probe)
      fail_if (not (reports_refusal report' checks.refused)) (Stage.revocation, 3)

    unfoldable pub run_probe :
        VerifiedPackage → GrantManifest → State → ProbeChecks → Call W Fault (Unit {0})
    run_probe lpkg manifest state checks = do
      probe ← prepare lpkg manifest state
      judge checks probe

-- ===== src/Confined/Stage.antt =====
-- The constants and the stages of `confined-runtime/src/lib.rs`, and how an error gets its stage.
use lantern_runtime.Base.{ℕ, Option, none, some, Bool, true, false}
use lantern_runtime.Base.Exec.{Exec, ok, err, panic, map_err, Call}

abbrev pub endpoint_cptr : ℕ
endpoint_cptr = 1

abbrev pub dest_cptr : ℕ
dest_cptr = 2

abbrev pub success_cptr : ℕ
success_cptr = 3

abbrev pub failure_cptr : ℕ
failure_cptr = 4

abbrev pub probe_cptr : ℕ
probe_cptr = 5

abbrev pub revoke_request_cptr : ℕ
revoke_request_cptr = 10

abbrev pub revoke_done_cptr : ℕ
revoke_done_cptr = 11

abbrev pub frame_vaddr : ℕ
frame_vaddr = 0x90000000

abbrev pub heap_base : ℕ
heap_base = 0x86200000

abbrev pub heap_len : ℕ
heap_len = 0x200000

abbrev pub package_vaddr : ℕ
package_vaddr = 0x8c000000

abbrev pub package_max_len : ℕ
package_max_len = 0x200000

pub data Stage : Type 0 where
  done grant attenuation deserialize link instantiate lookup call verdict : Stage
  package_check manifest revocation control : Stage

-- `stage as usize`
abbrev pub code : Stage → ℕ
code Stage.done = 0
code Stage.grant = 1
code Stage.attenuation = 2
code Stage.deserialize = 3
code Stage.link = 4
code Stage.instantiate = 5
code Stage.lookup = 6
code Stage.call = 7
code Stage.verdict = 8
code Stage.package_check = 9
code Stage.manifest = 10
code Stage.revocation = 11
code Stage.control = 12

-- What a failing step reports: its stage and a detail.
abbrev pub Fault : Type 0
Fault = Stage × ℕ

-- A result that the code matches on instead of returning its error.
abbrev pub settle_result : {E A : Type 0} → Exec E A → Exec Fault (Option A)
settle_result (ok a) = ok (some a)
settle_result (err e) = ok none
settle_result panic = panic

module _ {W E A : Type 0} where
  -- `map_err(|_| (stage, detail))`
  abbrev pub at_stage : Stage → ℕ → Call W E A → Call W Fault A
  at_stage stage detail m w = ((m w).0, map_err (λ _. (stage, detail)) (m w).1)

  abbrev pub settle : Call W E A → Call W Fault (Option A)
  settle m w = ((m w).0, settle_result (m w).1)

-- The early return of an error under a condition.
abbrev pub fail_if : {W : Type 0} → Bool → Fault → Call W Fault (Unit {0})
fail_if true fault w = (w, err fault)
fail_if false fault w = (w, ok tt)

-- A change of the outside that cannot fail.
abbrev pub attach : {W : Type 0} → (W → W) → Call W Fault (Unit {0})
attach change w = (change w, ok tt)

-- ===== src/Confined/Grant.antt =====
-- `request_grant` of `confined-runtime/src/lib.rs`.
use lantern_runtime.Base.{ℕ, Option, none, some, Bool, true, false, not, ◌==◌, if◌then◌else◌}
use lantern_runtime.Base.Exec.{Call, pure, ◌>>=◌, ◌>>◌}
use lantern_runtime.Confined.Stage.{
  Stage, Fault, at_stage, settle, fail_if, endpoint_cptr, dest_cptr, probe_cptr,
}
use lantern_runtime.Confined.System.{System}

-- `matches!(…, Ok(status))` for one status.
abbrev pub answers : ℕ → Option ℕ → Bool
answers status none = false
answers status (some s) = s == status

-- `matches!(…, Ok(None))`
abbrev pub lists_nothing : Option (Option ℕ) → Bool
lists_nothing (some none) = true
lists_nothing _ = false

module _ {W : Type 0} (S : System W) where
  -- The three self-checks of a granted slot.
  unfoldable pub self_checks : ℕ → Call W Fault Bool
  self_checks interface = do
    again ← at_stage Stage.grant 1 (S.bind endpoint_cptr probe_cptr interface 0)
    fail_if again (Stage.grant, 2)
    asked ← settle (S.request_grant dest_cptr probe_cptr 0 0xf)
    fail_if (not (answers S.status_access asked)) (Stage.grant, 3)
    listed ← settle (S.list endpoint_cptr 0)
    fail_if (not (lists_nothing listed)) (Stage.grant, 4)
    revoked ← settle (S.revoke endpoint_cptr 0)
    fail_if (answers S.status_ok revoked) (Stage.grant, 5)
    pure true

  unfoldable pub request_grant : ℕ → Call W Fault Bool
  request_grant interface = do
    bound ← at_stage Stage.grant 1 (S.bind endpoint_cptr dest_cptr interface 0)
    if bound then self_checks interface else pure false

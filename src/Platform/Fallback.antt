-- ===== src/Platform/Fallback.antt =====
-- The second `mod backing` of `riscv64-probe/src/platform.rs`: a bump arena of fixed size.
use lantern_runtime.Base.{
  ℕ, zero, suc, ◌+◌, ◌*◌, ◌/◌, ◌%◌, ◌^◌, Option, none, some, Bool, ltb, leb, ◌&&◌, if◌then◌else◌,
}
use lantern_runtime.Base.Exec.{Exec, ok, err, panic}

abbrev pub arena_bytes : ℕ
arena_bytes = 256 * 1024

-- `(size + 4095) & !4095` on a `usize`: clearing the low twelve bits.
abbrev pub round_to_page : ℕ → ℕ
round_to_page n = n / 4096 * 4096

-- `size + 4095`, which panics on overflow where the build checks for it, and else wraps around.
abbrev pub padded : Bool → ℕ → Exec ⊥ ℕ
padded checks size =
    if ltb (size + 4095) (2 ^ 64)
    then ok (size + 4095)
    else if checks
    then panic
    else ok ((size + 4095) % 2 ^ 64)

-- `checked_add` and the filter on what it gives.
abbrev pub admits : ℕ → ℕ → Bool
admits off size = ltb (off + size) (2 ^ 64) && leb (off + size) arena_bytes

-- The loop on `ARENA_NEXT`. The last argument is how often the weak exchange fails before it succeeds:
-- with one hart the value it then finds is `off` again.
unfoldable pub claim : ℕ → ℕ → ℕ → ℕ → ℕ × Exec ⊥ (Option ℕ)
claim base size off zero =
    if admits off size then (off + size, ok (some (base + off))) else (off, ok none)
claim base size off (suc fails) =
    let again = claim base size off fails in if admits off size then again else (off, ok none)

abbrev claim_padded : ℕ → ℕ → ℕ → Exec ⊥ ℕ → ℕ × Exec ⊥ (Option ℕ)
claim_padded base off fails (ok n) = claim base (round_to_page n) off fails
claim_padded base off fails (err e) = absurd e
claim_padded base off fails panic = (off, panic)

-- The arguments: whether the build checks for overflow, `arena_base()`, how often the exchange fails,
-- the size, and `ARENA_NEXT`.
unfoldable pub bump : Bool → ℕ → ℕ → ℕ → ℕ → ℕ × Exec ⊥ (Option ℕ)
bump checks base fails size off = claim_padded base off fails (padded checks size)

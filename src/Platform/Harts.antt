-- ===== src/Platform/Harts.antt =====
-- The loop on `ARENA_NEXT` of `riscv64-probe/src/platform.rs`, run by several harts, a shared access at a
-- time. Each hart makes one request; one that makes several is several.
use lantern_runtime.Base.{ℕ, ◌+◌, ◌≡◌, Option, none, some, Bool, true, false, ◌==◌, if◌then◌else◌}
use lantern_runtime.Base.Exec.{Exec, ok, panic}
use lantern_runtime.Platform.Fallback.{round_to_page, padded, admits}

-- Where a hart stands in `alloc`: before the load, before an exchange of `off` with a request of so many
-- whole pages, or back with its result.
pub data Pc : Type 0 where
  asking : (size : ℕ) → Pc
  trying : (size off : ℕ) → Pc
  finished : Exec ⊥ (Option ℕ) → Pc

-- One access. A weak exchange may fail whatever it finds, and reloads either way.
pub data Move (checks : Bool) (base next : ℕ) : Pc → ℕ → Pc → Type 0 where
  overflow :
      {size : ℕ}
      → padded checks size ≡ panic
      → Move checks base next (Pc.asking size) next (Pc.finished panic)
  load :
      {size n : ℕ}
      → padded checks size ≡ ok n
      → Move checks base next (Pc.asking size) next (Pc.trying (round_to_page n) next)
  refuse :
      {size off : ℕ}
      → admits off size ≡ false
      → Move checks base next (Pc.trying size off) next (Pc.finished (ok none))
  win :
      {size off : ℕ}
      → admits off size ≡ true
      → next ≡ off
      → Move checks base next
          (Pc.trying size off)
          (off + size)
          (Pc.finished (ok (some (base + off))))
  lose :
      {size off : ℕ}
      → admits off size ≡ true
      → Move checks base next (Pc.trying size off) next (Pc.trying size next)

-- `ARENA_NEXT`, and where each hart stands.
pub record Harts : Type 0 where
  pub next : ℕ
  pub pc : ℕ → Pc

abbrev pub update : (ℕ → Pc) → ℕ → Pc → ℕ → Pc
update pc i p j = if j == i then p else pc j

pub data Step (checks : Bool) (base : ℕ) (s : Harts) : Harts → Type 0 where
  pick :
      (i : ℕ) {next : ℕ} {p : Pc}
      → Move checks base s.next (s.pc i) next p
      → Step checks base s (record { next = next; pc = update s.pc i p })

-- The harts in any order, from an index of the arena and a size that each asks for.
pub data Reach (checks : Bool) (base start : ℕ) (sizes : ℕ → ℕ) : Harts → Type 0 where
  begin : Reach checks base start sizes (record { next = start; pc = λ i. Pc.asking (sizes i) })
  later :
      {s t : Harts}
      → Reach checks base start sizes s
      → Step checks base s t
      → Reach checks base start sizes t

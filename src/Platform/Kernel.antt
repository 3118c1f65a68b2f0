-- ===== src/Platform/Kernel.antt =====
-- The frame calls of `lantern_abi::sys::frame` that `src/platform.rs` makes.
use lantern_runtime.Base.{ℕ, ◌≡◌, Option, none, some, Bool, true, ◌==◌, if◌then◌else◌}

-- `map` takes the frame's slot, the address space's slot, an address and the permissions, and says
-- whether it succeeded; the program ignores what `unmap` says. `mapped` is where a frame is mapped.
pub record Kernel (Krn : Type 0) : Type 0 where
  pub read_perm : ℕ
  pub write_perm : ℕ
  pub user_perm : ℕ
  pub union : ℕ → ℕ → ℕ
  pub map : ℕ → ℕ → ℕ → ℕ → Krn → Krn × Bool
  pub unmap : ℕ → ℕ → Krn → Krn
  pub mapped : Krn → ℕ → Option ℕ

-- A frame that was granted and is not mapped can be mapped; an unmapped frame is mapped nowhere.
pub record MapsFrames {Krn : Type 0} (R : Kernel Krn) (Granted : ℕ → Type 0) : Type 0 where
  pub map_free :
      (frame vspace vaddr perms : ℕ) (k : Krn)
      → Granted frame
      → R.mapped k frame ≡ none
      → (R.map frame vspace vaddr perms k).1 ≡ true
  pub mapped-map :
      (frame vspace vaddr perms j : ℕ) (k : Krn)
      → (R.map frame vspace vaddr perms k).1 ≡ true
      → R.mapped (R.map frame vspace vaddr perms k).0 j
        ≡ (if j == frame then some vaddr else R.mapped k j)
  pub mapped-unmap :
      (frame vspace j : ℕ) (k : Krn)
      → R.mapped (R.unmap frame vspace k) j ≡ (if j == frame then none else R.mapped k j)

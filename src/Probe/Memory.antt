-- ===== src/Probe/Memory.antt =====
-- The two `mod backing` of `riscv64-probe/src/platform.rs`, and its C functions over each. The module for
-- the bare machine is that of `src/platform.rs` with another number of regions.
use lantern_runtime.Base.{ℕ}
use lantern_runtime.Base.Exec.{Exec}
use lantern_runtime.Platform.Kernel.{Kernel}
use lantern_runtime.Platform.Backing.{Pool}
use lantern_runtime.Platform.Store.{BackingStore, pool_store}
use lantern_runtime.Platform.Capi.{Statics, Entry, Answer}
use lantern_runtime.Platform.Capi

abbrev pub regions : ℕ
regions = 2

-- `#[cfg(all(target_arch = "riscv64", feature = "bin"))] mod backing`
abbrev pub frames : {Krn : Type 0} → Kernel Krn → BackingStore (Krn × Pool)
frames R = pool_store R regions

-- The C functions of the build for the bare machine.
abbrev pub enter_bin :
    {Krn : Type 0}
    → Kernel Krn
    → Entry
    → Statics (Krn × Pool)
    → Statics (Krn × Pool) × Exec ⊥ Answer
enter_bin R = Capi.enter (frames R)

-- ===== src/Probe/Layout.antt =====
-- The memory of the program of `riscv64-probe/src`: the heap that `main.rs` sets up, and the regions that
-- `platform.rs` hands out to Wasmtime in the build for the bare machine.
use lantern_runtime.Base.{ℕ, ◌+◌, List, arith}
use lantern_runtime.Platform.Kernel.{Kernel}
use lantern_runtime.Platform.Backing.{empty_pool, arena_vaddr, vaddr_of}
use lantern_runtime.Platform.Arena.{Stacked, Stacked-lower}
use lantern_runtime.Platform.Capi.{Entry}
use lantern_runtime.Platform.Handed.{handed_out}
use lantern_runtime.Platform.Handing.{pool_handed_out-Stacked}
use lantern_runtime.Probe.Memory.{frames, regions}
use lantern_runtime.Probe.Program.{heap_base, heap_len}

-- Over any kernel, and statics as the program starts: whatever Wasmtime calls of the C functions, the
-- blocks that it is given lie in the two granted regions, and above the end of the program's heap, on
-- whole pages, in order and without overlap, each as long as was asked.
pub memory-Stacked :
    {Krn : Type 0} (R : Kernel Krn) (es : List Entry) (k : Krn) (memory : ℕ → ℕ) (tls : ℕ)
    → let blocks =
        handed_out
          (frames R)
          es
          (record { backing = (k, empty_pool regions); memory = memory; tls = tls }) in
      Stacked arena_vaddr (vaddr_of regions) blocks
      × Stacked (heap_base + heap_len) (vaddr_of regions) blocks
memory-Stacked R es k memory tls =
    let in_arena =
      pool_handed_out-Stacked R regions es
        (record { backing = (k, empty_pool regions); memory = memory; tls = tls }) (omega arith) in
    (
      in_arena,
      Stacked-lower (heap_base + heap_len) arena_vaddr (vaddr_of regions) _ (omega arith) in_arena,
    )

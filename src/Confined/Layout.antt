-- ===== src/Confined/Layout.antt =====
-- The memory of `confined-runtime`: the heap and the package of `src/lib.rs`, and what `src/platform.rs` maps
-- for Wasmtime between them.
use lantern_runtime.Base.{ℕ, ◌+◌, ◌≤◌, ◌<◌, ◌≡◌, sym, subst, none, some, List, arith}
use lantern_runtime.Platform.Kernel.{Kernel}
use lantern_runtime.Platform.Backing.{
  Pool, empty_pool, regions, megapage_bytes, arena_vaddr, vaddr_of,
}
use lantern_runtime.Platform.Arena.{Stacked, Stacked-lower, Stacked-upper}
use lantern_runtime.Platform.Store.{pool_store}
use lantern_runtime.Platform.Capi.{Statics, Entry, enter_all}
use lantern_runtime.Platform.Handed.{handed_out}
use lantern_runtime.Platform.Handing.{pool_handed_out-Stacked}
use lantern_runtime.Platform.Entries.{pool_calls, store_only}
use lantern_runtime.Platform.Pool.AtOwn.{MapsAsAsked, AtOwn, serve_calls-AtOwn}
use lantern_runtime.Confined.Stage.{heap_base, heap_len, package_vaddr}

-- Over a kernel that maps a frame only as asked, with nothing mapped in the slots of the pool as the
-- program starts, whichever of them hold a granted frame. Whatever Wasmtime calls of the C functions: the
-- blocks that it is given lie between the end of the heap and the package, on whole pages, in order and
-- without overlap, each as long as was asked; and so does every frame of the pool wherever it is mapped
-- then, so that nothing is mapped over the package that was verified.
pub package-untouched :
    {Krn : Type 0} (R : Kernel Krn)
    → MapsAsAsked R
    → (k : Krn) → ((r : ℕ) → r < regions → R.mapped k (7 + r) ≡ none)
    → (es : List Entry) (memory : ℕ → ℕ) (tls : ℕ)
    → let s : Statics (Krn × Pool) = record {
      backing = (k, empty_pool regions);
      memory = memory;
      tls = tls;
    } in
      Stacked (heap_base + heap_len) package_vaddr (handed_out (pool_store R regions) es s)
      × ((r a : ℕ)
          → r < regions
          → R.mapped (enter_all (pool_store R regions) es s).backing.0 (7 + r) ≡ some a
          → (heap_base + heap_len ≤ a) × (a + megapage_bytes ≤ package_vaddr))
package-untouched {Krn} R L k unmapped es memory tls =
    let s : Statics (Krn × Pool) = record {
      backing = (k, empty_pool regions);
      memory = memory;
      tls = tls;
    } in
    let in_arena = pool_handed_out-Stacked R regions es s (omega arith) in
    let own : AtOwn R L regions (enter_all (pool_store R regions) es s).backing.0 =
      subst (λ (q : Krn × Pool). AtOwn R L regions q.0)
        (sym (store_only (pool_store R regions) es s))
        (serve_calls-AtOwn R L regions regions (pool_calls es) s.backing
          λ r a lt at. cc (unmapped r lt)) in
    (
      Stacked-lower (heap_base + heap_len) arena_vaddr package_vaddr _ (omega arith)
          (Stacked-upper arena_vaddr (vaddr_of regions) package_vaddr _ (omega arith) in_arena),
      λ r a lt at. (omega (arith, own r a lt at), omega (arith, own r a lt at)),
    )

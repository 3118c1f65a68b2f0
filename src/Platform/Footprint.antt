-- ===== src/Platform/Footprint.antt =====
-- What the C functions of `src/platform.rs` do with the pool of frames as Wasmtime calls them.
use lantern_runtime.Base.{
  ℕ, ◌+◌, ◌^◌, ◌<◌, ◌≡◌, sym, subst, ap, ◌∙◌, none, some, List, if◌then◌else◌,
}
use lantern_runtime.Base.Exec.{ok}
use lantern_runtime.Platform.Kernel.{Kernel, MapsFrames}
use lantern_runtime.Platform.Backing.{Pool, empty_pool, vaddr_of, alloc}
use lantern_runtime.Platform.Pool.Live.{is_live}
use lantern_runtime.Platform.Pool.Mapped.{serve_all-maps_live}
use lantern_runtime.Platform.Pool.Spec.{spec_alloc, spec_empty}
use lantern_runtime.Platform.Pool.Refinement.{Agrees, spec_all, serve_all-refines}
use lantern_runtime.Platform.Store.{pool_store}
use lantern_runtime.Platform.Capi.{Statics, Entry, mmap_answer, enter, enter_all}
use lantern_runtime.Platform.Entries.{pool_calls, store_only, serve_calls-pool}

-- Let the frames of the pool be granted and unmapped at the start, over a kernel that maps such frames.
-- After any calls of the C functions, exactly the regions that a slot of the pool holds are mapped, each
-- at its own address.
pub enter_all-maps_live :
    {Krn : Type 0} (R : Kernel Krn) (limit : ℕ) (Granted : ℕ → Type 0)
    → MapsFrames R Granted
    → limit < 2 ^ 64
    → (k : Krn) → ((r : ℕ) → r < limit → Granted (7 + r) × (R.mapped k (7 + r) ≡ none))
    → (memory : ℕ → ℕ) (tls : ℕ) (es : List Entry) (r : ℕ) → r < limit
    → let s =
        enter_all
          (pool_store R limit)
          es
          (record { backing = (k, empty_pool limit); memory = memory; tls = tls }) in
      R.mapped s.backing.0 (7 + r)
      ≡ (if is_live r s.backing.1.vaddrs s.backing.1.counts then some (vaddr_of r) else none)
enter_all-maps_live {Krn} R limit Granted L small k granted memory tls es r lt =
    let s : Statics (Krn × Pool) = record {
      backing = (k, empty_pool limit);
      memory = memory;
      tls = tls;
    } in
    let same =
      store_only (pool_store R limit) es s ∙ serve_calls-pool R Granted limit (pool_calls es) _ in
    subst
      (λ (q : Krn × Pool).
        R.mapped q.0 (7 + r)
        ≡ (if is_live r q.1.vaddrs q.1.counts then some (vaddr_of r) else none))
      (sym same) (serve_all-maps_live R Granted limit L small k granted (pool_calls es) r lt)

-- Let the frames of the pool be granted and unmapped at the start, over a kernel that maps such frames.
-- After any calls of the C functions the pool is where its specification is after the `mmap_new` and
-- `munmap` calls among them, at every address, and `wasmtime_mmap_new` returns and stores what that
-- answers next, with no panic.
pub enter_all-refines :
    {Krn : Type 0} (R : Kernel Krn) (limit : ℕ) (Granted : ℕ → Type 0)
    → MapsFrames R Granted
    → limit < 2 ^ 64
    → (k : Krn) → ((r : ℕ) → r < limit → Granted (7 + r) × (R.mapped k (7 + r) ≡ none))
    → (memory : ℕ → ℕ) (tls : ℕ) (es : List Entry)
    → let s =
        enter_all
          (pool_store R limit)
          es
          (record { backing = (k, empty_pool limit); memory = memory; tls = tls }) in
      let a = spec_all limit (pool_calls es) spec_empty in
      Agrees s.backing.1 a
      × ((size prot_flags ret : ℕ)
          → (enter (pool_store R limit) (Entry.mmap_new size prot_flags ret) s).1
            ≡ mmap_answer (ok (spec_alloc limit size a).1))
enter_all-refines {Krn} R limit Granted L small k granted memory tls es =
    let s : Statics (Krn × Pool) = record {
      backing = (k, empty_pool limit);
      memory = memory;
      tls = tls;
    } in
    let same =
      store_only (pool_store R limit) es s ∙ serve_calls-pool R Granted limit (pool_calls es) _ in
    let (there, answers) = serve_all-refines R Granted limit L small k granted (pool_calls es) in
    (
      subst (λ (q : Krn × Pool). Agrees q.1 (spec_all limit (pool_calls es) spec_empty)) (sym same)
          there,
      λ size prot_flags ret.
          subst
            (λ (q : Krn × Pool).
              mmap_answer (alloc R limit size q).1
              ≡ mmap_answer
                  (ok (spec_alloc limit size (spec_all limit (pool_calls es) spec_empty)).1))
            (sym same) (ap mmap_answer (answers size)),
    )

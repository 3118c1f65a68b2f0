-- ===== src/Platform/Entries.antt =====
-- What the C functions of `src/platform.rs` and of `riscv64-probe/src/platform.rs` promise Wasmtime,
-- whatever it calls before.
use lantern_runtime.Base.{
  ℕ, ◌+◌, ◌^◌, ◌<◌, ◌≡◌, refl, sym, ap, subst, ◌∙◌, none, some, Bool, true, false, List, [], ◌∷◌,
  ltb, if◌then◌else◌,
}
use lantern_runtime.Base.Exec.{ok}
use lantern_runtime.Platform.Kernel.{Kernel, MapsFrames}
use lantern_runtime.Platform.Backing.{Pool, empty_pool, vaddr_of, frames_for, alloc}
use lantern_runtime.Platform.Store.{BackingStore, pool_store}
use lantern_runtime.Platform.Capi.{Statics, Entry, returns, mmap_answer, enter, enter_all}
use lantern_runtime.Platform.Pool.Serving.{MmapCall, mmap, munmap, serve, serve_all}
use lantern_runtime.Platform.Pool.Promises.{serve_all-answers}

-- The calls of the pool among the entries.
abbrev pub pool_calls : List Entry → List MmapCall
pool_calls [] = []
pool_calls (Entry.mmap_new size prot_flags ret ∷ es) = mmap size ∷ pool_calls es
pool_calls (Entry.munmap ptr size ∷ es) = munmap ptr ∷ pool_calls es
pool_calls (_ ∷ es) = pool_calls es

mmap_answer-if :
    (full : Bool) (p : ℕ)
    → mmap_answer (if full then ok none else ok (some p))
      ≡ (if full then ok (returns 1) else ok (record { returned = some 0; stored = some p }))
mmap_answer-if true p = refl
mmap_answer-if false p = refl

-- What a sequence of the pool's calls does to a `mod backing`.
unfoldable pub serve_calls : {M : Type 0} → BackingStore M → List MmapCall → M → M
serve_calls B [] m = m
serve_calls B (mmap size ∷ cs) m = serve_calls B cs (B.alloc size m).0
serve_calls B (munmap ptr ∷ cs) m = serve_calls B cs (B.dealloc ptr m).0

pub serve_calls-pool :
    {Krn : Type 0} (R : Kernel Krn) (Granted : ℕ → Type 0) (limit : ℕ) (cs : List MmapCall)
    (s : Krn × Pool)
    → serve_calls (pool_store R limit) cs s ≡ serve_all R Granted limit cs s
unfolding serve_calls serve_all serve
serve_calls-pool R Granted limit [] s = refl
serve_calls-pool R Granted limit (mmap size ∷ cs) s = serve_calls-pool R Granted limit cs _
serve_calls-pool R Granted limit (munmap ptr ∷ cs) s = serve_calls-pool R Granted limit cs _

module _ {M : Type 0} (B : BackingStore M) where
  -- After any entries, `mod backing` is where the `mmap_new` and `munmap` calls among them take it.
  pub store_only :
      (es : List Entry) (s : Statics M)
      → (enter_all B es s).backing ≡ serve_calls B (pool_calls es) s.backing
  unfolding enter_all serve_calls
  store_only [] s = refl
  store_only (Entry.page_size ∷ es) s = store_only es (enter B Entry.page_size s).0
  store_only (Entry.mmap_new size prot_flags ret ∷ es) s =
      store_only es (enter B (Entry.mmap_new size prot_flags ret) s).0
  store_only (Entry.mmap_remap addr size prot_flags ∷ es) s =
      store_only es (enter B (Entry.mmap_remap addr size prot_flags) s).0
  store_only (Entry.munmap ptr size ∷ es) s = store_only es (enter B (Entry.munmap ptr size) s).0
  store_only (Entry.mprotect ptr size prot_flags ∷ es) s =
      store_only es (enter B (Entry.mprotect ptr size prot_flags) s).0
  store_only (Entry.memory_image_new ptr len ret ∷ es) s =
      store_only es (enter B (Entry.memory_image_new ptr len ret) s).0
  store_only (Entry.memory_image_map_at image addr len ∷ es) s =
      store_only es (enter B (Entry.memory_image_map_at image addr len) s).0
  store_only (Entry.memory_image_free image ∷ es) s =
      store_only es (enter B (Entry.memory_image_free image) s).0
  store_only (Entry.tls_get slot ∷ es) s = store_only es (enter B (Entry.tls_get slot) s).0
  store_only (Entry.tls_set slot ptr ∷ es) s = store_only es (enter B (Entry.tls_set slot ptr) s).0
  store_only (Entry.sync call lock ∷ es) s = store_only es (enter B (Entry.sync call lock) s).0

module _ {Krn : Type 0} (R : Kernel Krn) (limit : ℕ) where
  -- Let the frames of the pool be granted and unmapped at the start, over a kernel that maps such
  -- frames. After any entries, `wasmtime_mmap_new` returns 1 and leaves `*ret` where the regions
  -- left are too few, and else returns 0 and stores the next region's address; it does not panic.
  mmap_new-answers :
      (Granted : ℕ → Type 0)
      → MapsFrames R Granted
      → limit < 2 ^ 64
      → (k : Krn) → ((r : ℕ) → r < limit → Granted (7 + r) × (R.mapped k (7 + r) ≡ none))
      → (memory : ℕ → ℕ) (tls : ℕ) (es : List Entry) (size prot_flags ret : ℕ)
      → let s =
          enter_all
            (pool_store R limit)
            es
            (record { backing = (k, empty_pool limit); memory = memory; tls = tls }) in
        (enter (pool_store R limit) (Entry.mmap_new size prot_flags ret) s).1 ≡ (
          if ltb limit (s.backing.1.next_region + frames_for size)
          then ok (returns 1)
          else ok (record { returned = some 0; stored = some (vaddr_of s.backing.1.next_region) }))
  mmap_new-answers Granted L small k granted memory tls es size prot_flags ret =
      let s : Statics (Krn × Pool) = record {
        backing = (k, empty_pool limit);
        memory = memory;
        tls = tls;
      } in
      let same =
        store_only (pool_store R limit) es s ∙ serve_calls-pool R Granted limit (pool_calls es) _ in
      let says = serve_all-answers R Granted limit L small k granted (pool_calls es) size in
      subst
        (λ (q : Krn × Pool). mmap_answer (alloc R limit size q).1 ≡ (
          if ltb limit (q.1.next_region + frames_for size)
          then ok (returns 1)
          else ok (record { returned = some 0; stored = some (vaddr_of q.1.next_region) })))
        (sym same) (ap mmap_answer says ∙ mmap_answer-if _ _)

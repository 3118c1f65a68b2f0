-- ===== src/Platform/Pool/Promises.antt =====
-- What `wasmtime_mmap_new` and `wasmtime_munmap` promise over the pool (`src/platform.rs`, `mod
-- backing`), from the statics as the program starts.
use lantern_runtime.Base.{
  ℕ, ◌+◌, ◌-◌, ◌*◌, ◌/◌, ◌^◌, ◌≤◌, ◌<◌, ◌≡◌, inl, inr, refl, none, some, List, get_or, set, arith,
  ltb, if◌then◌else◌, Bool-cases,
}
use lantern_runtime.Base.Exec.{ok}
use lantern_runtime.Platform.Kernel.{Kernel, MapsFrames}
use lantern_runtime.Platform.Backing.{
  Pool, empty_pool, vaddr_of, frames_for, slot_of, map_regions, unmap_regions, alloc, dealloc,
  arena_vaddr, megapage_bytes,
}
use lantern_runtime.Platform.Pool.Tables.{slot_of-set, get_or-set}
use lantern_runtime.Platform.Pool.Invariant.{
  IsPool, empty_pool-IsPool, alloc_granted, frames_for-pos, frames_for-enough,
}
use lantern_runtime.Platform.Pool.Frames.{within, unmap_regions-unmaps}
use lantern_runtime.Platform.Pool.Serving.{
  MmapCall, Backed, serve_all, mapped-run, alloc-answers, serve_all-Backed,
}

module _ {Krn : Type 0} (R : Kernel Krn) (Granted : ℕ → Type 0) (limit : ℕ)
    (L : MapsFrames R Granted) (small : limit < 2 ^ 64) where
  -- An address is handed out only where the run fits, and is the run's first.
  answered :
      (size base : ℕ) (k : Krn) (p : Pool)
      → Backed R Granted limit (k, p)
      → (alloc R limit size (k, p)).1 ≡ ok (some base)
      → (p.next_region + frames_for size ≤ limit) × (base ≡ vaddr_of p.next_region)
  answered size base k p b e =
      let says = alloc-answers R Granted limit L small size k p b in
      elim (Bool-cases (ltb limit (p.next_region + frames_for size))) [
        | inl full ↦ ground arith
        | inr room ↦ ground arith
      ]

  dealloc-found :
      (ptr slot : ℕ) (k : Krn) (p : Pool)
      → slot_of ptr p.vaddrs p.counts ≡ some slot
      → arena_vaddr ≤ ptr
      → dealloc R ptr (k, p) ≡ (
        (
          unmap_regions R (get_or p.counts slot 0) ((ptr - arena_vaddr) / megapage_bytes) k,
          record p { vaddrs = set p.vaddrs slot 0; counts = set p.counts slot 0 },
        ),
        ok tt,
      )
  unfolding dealloc
  dealloc-found ptr slot k p hit lo = ground arith

  maps :
      (size base : ℕ) (k : Krn) (p : Pool)
      → Backed R Granted limit (k, p)
      → (alloc R limit size (k, p)).1 ≡ ok (some base)
      → (i : ℕ) → i < frames_for size
      → R.mapped (alloc R limit size (k, p)).0.0 (7 + (p.next_region + i))
        ≡ some (base + i * megapage_bytes)
  maps size base k p b e i lt =
      let (fits, at) = answered size base k p b e in
      let (done, placed) = mapped-run R Granted limit L small size k p b fits in
      let (slot, inside, granted) = alloc_granted R limit size k p b.pool small fits done in
      rw granted (ground (arith, placed (p.next_region + i), at))

  unmaps :
      (size base : ℕ) (k : Krn) (p : Pool)
      → Backed R Granted limit (k, p)
      → (alloc R limit size (k, p)).1 ≡ ok (some base)
      → let s' = dealloc R base (alloc R limit size (k, p)).0 in
        (s'.1 ≡ ok tt) × ((r : ℕ) → R.mapped s'.0.0 (7 + r) ≡ R.mapped k (7 + r))
  unmaps size base k p b e =
      let (fits, at) = answered size base k p b e in
      let (done, placed) = mapped-run R Granted limit L small size k p b fits in
      let (slot, inside, granted) = alloc_granted R limit size k p b.pool small fits done in
      let found =
        slot_of-set p.next_region slot (frames_for size) p.vaddrs p.counts b.pool.held inside
          (frames_for-pos size) in
      let gone =
        dealloc-found (vaddr_of p.next_region) slot
          (map_regions R (frames_for size) p.next_region k).0
          (record {
            vaddrs = set p.vaddrs slot (vaddr_of p.next_region);
            counts = set p.counts slot (frames_for size);
            next_region = p.next_region + frames_for size;
          })
          found (omega arith) in
      rw (granted, at, gone)
        (
          refl,
          λ r. elim (Bool-cases (within p.next_region (frames_for size) r)) [
            | inl run ↦ ground (
              arith,
              run,
              get_or-set slot (frames_for size) p.counts inside,
              b.fresh r (ground arith) (ground arith),
              unmap_regions-unmaps R Granted L (frames_for size) p.next_region r
                  (map_regions R (frames_for size) p.next_region k).0,
            )
            | inr off ↦ ground (
              arith,
              off,
              get_or-set slot (frames_for size) p.counts inside,
              placed r,
              unmap_regions-unmaps R Granted L (frames_for size) p.next_region r
                  (map_regions R (frames_for size) p.next_region k).0,
            )
          ],
        )

module _ {Krn : Type 0} (R : Kernel Krn) (Granted : ℕ → Type 0) (limit : ℕ)
    (L : MapsFrames R Granted) (small : limit < 2 ^ 64) (k : Krn)
    (granted : (r : ℕ) → r < limit → Granted (7 + r) × (R.mapped k (7 + r) ≡ none)) where
  reached :
      (calls : List MmapCall)
      → Backed R Granted limit (serve_all R Granted limit calls (k, empty_pool limit))
  reached calls =
      serve_all-Backed R Granted limit L small calls k (empty_pool limit)
        (record { pool = empty_pool-IsPool limit; fresh = λ r lo hi. granted r hi })

  -- Let the frames of the pool be granted and unmapped at the start, over a kernel that maps such
  -- frames. Whatever sequence of `mmap_new` and `munmap` calls ran, the live allocations are runs
  -- of regions below the bump index that do not meet, and the index is within the pool.
  pub serve_all-IsPool :
      (calls : List MmapCall)
      → IsPool limit (serve_all R Granted limit calls (k, empty_pool limit)).1
  serve_all-IsPool calls = (reached calls).pool

  -- Let the frames of the pool be granted and unmapped at the start, over a kernel that maps such
  -- frames. After any sequence of calls, `alloc` does not panic: it answers `None` where the
  -- regions left are too few, and else the address of the next region.
  pub serve_all-answers :
      (calls : List MmapCall) (size : ℕ)
      → let s = serve_all R Granted limit calls (k, empty_pool limit) in
        (alloc R limit size s).1 ≡ (
          if ltb limit (s.1.next_region + frames_for size)
          then ok none
          else ok (some (vaddr_of s.1.next_region)))
  serve_all-answers calls size = alloc-answers R Granted limit L small size _ _ (reached calls)

  -- Let the frames of the pool be granted and unmapped at the start, over a kernel that maps such
  -- frames. After any sequence of calls, an allocation that is granted is backed: its frames hold
  -- the bytes asked for, and each is mapped at its own address, from the one handed out.
  alloc-maps :
      (calls : List MmapCall) (size base : ℕ)
      → let s = serve_all R Granted limit calls (k, empty_pool limit) in
        (alloc R limit size s).1 ≡ ok (some base)
        → (size ≤ frames_for size * megapage_bytes)
          × ((i : ℕ)
              → i < frames_for size
              → R.mapped (alloc R limit size s).0.0 (7 + (s.1.next_region + i))
                ≡ some (base + i * megapage_bytes))
  alloc-maps calls size base e =
      (frames_for-enough size, maps R Granted limit L small size base _ _ (reached calls) e)

  -- Let the frames of the pool be granted and unmapped at the start, over a kernel that maps such
  -- frames. After any sequence of calls, an allocation that is granted followed by the release of
  -- its address leaves every frame of the pool mapped as before the two, and does not panic.
  alloc-dealloc :
      (calls : List MmapCall) (size base : ℕ)
      → let s = serve_all R Granted limit calls (k, empty_pool limit) in
        (alloc R limit size s).1 ≡ ok (some base)
        → let s' = dealloc R base (alloc R limit size s).0 in
          (s'.1 ≡ ok tt) × ((r : ℕ) → R.mapped s'.0.0 (7 + r) ≡ R.mapped s.0 (7 + r))
  alloc-dealloc calls size base e = unmaps R Granted limit L small size base _ _ (reached calls) e

-- ===== src/Platform/Handing.antt =====
-- What `wasmtime_mmap_new` hands out over each `mod backing`, the bump arena and the pool of frames of
-- `riscv64-probe/src/platform.rs`, whatever Wasmtime calls in between.
use lantern_runtime.Base.{
  ℕ, ◌+◌, ◌%◌, ◌^◌, ◌≤◌, ◌≡◌, sym, subst, Option, true, List, inl, inr, arith, Bool-cases,
  Option-cases, ltb, if◌then◌else◌,
}
use lantern_runtime.Base.Exec.{Exec}
use lantern_runtime.Platform.Fallback.{arena_bytes, bump}
use lantern_runtime.Platform.Arena.{Stacked, bump-cases}
use lantern_runtime.Platform.Kernel.{Kernel}
use lantern_runtime.Platform.Backing.{
  Pool, vaddr_of, frames_for, map_regions, map_and_record, record_alloc, free_slot, alloc, dealloc,
}
use lantern_runtime.Platform.Pool.Invariant.{frames_for-enough}
use lantern_runtime.Platform.Store.{arena_store, pool_store, fails_now, fails_later}
use lantern_runtime.Platform.Capi.{Statics, Entry}
use lantern_runtime.Platform.Handed.{handed_out}
use lantern_runtime.Platform.Upward.{Rises, HandsUpward, upward-Stacked}

-- The index of the arena is on a whole page, and within the arena.
abbrev InArena : ℕ × List ℕ → Type 0
InArena s = (s.0 % 4096 ≡ 0) × (s.0 ≤ arena_bytes)

arena_store-Rises :
    (base size : ℕ) (s : ℕ × List ℕ)
    → base % 4096 ≡ 0
    → InArena s
    → let r = bump true base (fails_now s.1) size s.0 in
      InArena (r.0, fails_later s.1) × Rises size (base + s.0) (base + r.0) r.1
arena_store-Rises base size (off, fails) aligned (page, room) =
    let Good = λ (r : ℕ × Exec ⊥ (Option ℕ)).
      InArena (r.0, fails_later fails) × Rises size (base + off) (base + r.0) r.1 in
    elim (bump-cases base (fails_now fails) size off page) [
      | inl panics ↦ subst Good (sym panics) ((page, room), tt)
      | inr (inl full) ↦ subst Good (sym full) ((page, room), omega arith)
      | inr (inr (off', fits, long, page', room')) ↦
          subst Good (sym fits)
            ((page', room'), (omega arith, omega (arith, aligned, page), omega (arith, long)))
    ]

arena_store-HandsUpward :
    (base : ℕ)
    → base % 4096 ≡ 0
    → HandsUpward (arena_store true base) InArena (λ s. base + s.0) (base + arena_bytes)
arena_store-HandsUpward base aligned = record {
  bounded = λ s v. omega arith;
  alloc_rises = λ size s v. arena_store-Rises base size s aligned v;
  dealloc_keeps = λ ptr s v. (v, omega arith);
}

-- Over the bump arena in a build that checks for overflow, from an arena and an index on whole pages,
-- the blocks that `wasmtime_mmap_new` stores among any calls of the C functions lie on whole pages of the
-- arena, in order and without overlap, each as long as was asked, however often the exchange fails.
handed_out-Stacked :
    (base : ℕ) (es : List Entry) (s : Statics (ℕ × List ℕ))
    → base % 4096 ≡ 0
    → s.backing.0 % 4096 ≡ 0
    → s.backing.0 ≤ arena_bytes
    → Stacked (base + s.backing.0) (base + arena_bytes) (handed_out (arena_store true base) es s)
handed_out-Stacked base es s aligned page room =
    upward-Stacked (arena_store true base) InArena (λ s. base + s.0) (base + arena_bytes)
      (arena_store-HandsUpward base aligned) es s (page, room)

module _ {Krn : Type 0} (R : Kernel Krn) (limit : ℕ) where
  -- The bump index is within the pool.
  abbrev InPool : Krn × Pool → Type 0
  InPool s = s.1.next_region ≤ limit

  abbrev pool_mark : Krn × Pool → ℕ
  pool_mark s = vaddr_of s.1.next_region

  recorded-Rises :
      (size : ℕ) (k : Krn) (p : Pool)
      → p.next_region + frames_for size ≤ limit
      → let r =
          map_and_record R p.next_region
            (frames_for size)
            k
            (record p { next_region = p.next_region + frames_for size }) in
        InPool r.0 × Rises size (vaddr_of p.next_region) (pool_mark r.0) r.1
  recorded-Rises size k p fits =
      elim (Bool-cases (map_regions R (frames_for size) p.next_region k).1) [
        | inr refused ↦ rw refused (fits, tt)
        | inl done ↦ elim (Option-cases (free_slot p.counts)) [
          | inl taken ↦ rw (done, if◌then◌else◌, record_alloc, taken) (fits, omega arith)
          | inr (slot, found) ↦
              rw (done, if◌then◌else◌, record_alloc, found)
                (fits, (omega arith, omega arith, omega (arith, frames_for-enough size)))
        ]
      ]

  alloc-Rises :
      (size : ℕ) (k : Krn) (p : Pool)
      → p.next_region ≤ limit
      → let r = alloc R limit size (k, p) in
        InPool r.0 × Rises size (vaddr_of p.next_region) (pool_mark r.0) r.1
  unfolding alloc
  alloc-Rises size k p room = elim (Bool-cases (ltb (p.next_region + frames_for size) (2 ^ 64))) [
    | inr large ↦ rw large (room, omega arith)
    | inl small ↦ elim (Bool-cases (ltb limit (p.next_region + frames_for size))) [
      | inl full ↦ rw (small, full) (room, omega arith)
      | inr fits ↦ rw (small, fits) (recorded-Rises size k p (ground arith))
    ]
  ]

  dealloc-keeps :
      (ptr : ℕ) (k : Krn) (p : Pool) → (dealloc R ptr (k, p)).0.1.next_region ≡ p.next_region
  unfolding dealloc
  dealloc-keeps ptr k p = ground arith

  pool_store-HandsUpward : HandsUpward (pool_store R limit) InPool pool_mark (vaddr_of limit)
  pool_store-HandsUpward = record {
    bounded = λ (k, p) v. omega arith;
    alloc_rises = λ size (k, p) v. alloc-Rises size k p v;
    dealloc_keeps = λ ptr (k, p) v. omega (arith, dealloc-keeps ptr k p);
  }

  -- Over the pool of frames and any kernel, from an index within the pool, the blocks that
  -- `wasmtime_mmap_new` stores among any calls of the C functions lie on whole pages, in order and
  -- without overlap, each as long as was asked, within the regions above the index.
  pub pool_handed_out-Stacked :
      (es : List Entry) (s : Statics (Krn × Pool))
      → s.backing.1.next_region ≤ limit
      → Stacked
          (vaddr_of s.backing.1.next_region)
          (vaddr_of limit)
          (handed_out (pool_store R limit) es s)
  pool_handed_out-Stacked es s v =
      upward-Stacked (pool_store R limit) InPool pool_mark (vaddr_of limit) pool_store-HandsUpward
        es s v

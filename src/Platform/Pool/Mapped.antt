-- ===== src/Platform/Pool/Mapped.antt =====
-- What is mapped while the pool of `src/platform.rs` serves: the regions that are handed out, and no other.
use lantern_runtime.Base.{
  ℕ, ◌+◌, ◌^◌, ◌≤◌, ◌<◌, ◌≡◌, inl, inr, sym, subst, ap, Option, none, some, Bool, false, replicate,
  ◌||◌, List, [], ◌∷◌, get_or, arith, ltb, if◌then◌else◌, Bool-cases,
}
use lantern_runtime.Base.Exec.{Exec}
use lantern_runtime.Platform.Kernel.{Kernel, MapsFrames}
use lantern_runtime.Platform.Backing.{Pool, empty_pool, vaddr_of, frames_for, alloc, dealloc}
use lantern_runtime.Platform.Pool.Invariant.{empty_pool-IsPool, alloc_full, alloc_entered}
use lantern_runtime.Platform.Pool.Frames.{within, unmap_regions-unmaps}
use lantern_runtime.Platform.Pool.Serving.{
  MmapCall, mmap, munmap, Backed, serve_all, mapped-run, alloc-Backed, dealloc-parts,
  dealloc-Backed,
}
use lantern_runtime.Platform.Pool.Live.{
  is_live, region_at, is_live-empty, free_slot-count, is_live-entered, is_live-emptied,
}

-- What is mapped once a run is mapped, or unmapped.
joined :
    (w l live : Bool) (at old new : Option ℕ)
    → new ≡ (if w then at else old)
    → old ≡ (if l then at else none)
    → live ≡ (w || l)
    → new ≡ (if live then at else none)
joined w l live at old new e f g = ground arith

parted :
    (w l live : Bool) (at old new : Option ℕ)
    → new ≡ (if w then none else old)
    → old ≡ (if l then at else none)
    → live ≡ (if w then false else l)
    → new ≡ (if live then at else none)
parted w l live at old new e f g = ground arith

module _ {Krn : Type 0} (R : Kernel Krn) (Granted : ℕ → Type 0) (limit : ℕ) where
  -- Each region is mapped at its own address where a slot holds it, and else nowhere.
  abbrev pub MapsLive : Krn × Pool → Type 0
  MapsLive s =
      (r : ℕ)
      → r < limit
      → R.mapped s.0 (7 + r) ≡ (if is_live r s.1.vaddrs s.1.counts then some (vaddr_of r) else none)

  module _ (L : MapsFrames R Granted) (small : limit < 2 ^ 64) where
    alloc-MapsLive :
        (size : ℕ) (k : Krn) (p : Pool)
        → Backed R Granted limit (k, p)
        → MapsLive (k, p)
        → MapsLive (alloc R limit size (k, p)).0
    alloc-MapsLive size k p b live =
        elim (Bool-cases (ltb limit (p.next_region + frames_for size))) [
          | inl full ↦
              subst MapsLive
                (sym (
                  ap (λ (r : (Krn × Pool) × Exec ⊥ (Option ℕ)). r.0)
                    (alloc_full R limit size k p b.pool small (ground arith))))
                live
          | inr room ↦
              let fits : p.next_region + frames_for size ≤ limit = ground arith in
              let (done, placed) = mapped-run R Granted limit L small size k p b fits in
              let (slot, inside, free, e) = alloc_entered R limit size k p b.pool small fits done in
              subst MapsLive (sym (ap (λ (r : (Krn × Pool) × Exec ⊥ (Option ℕ)). r.0) e)) λ r lt.
                let here : region_at (vaddr_of p.next_region) ≡ p.next_region = omega arith in
                let entered =
                  is_live-entered r p.next_region slot (vaddr_of p.next_region) (frames_for size)
                    p.vaddrs p.counts b.pool.held inside (free_slot-count slot p.counts free) in
                joined (within p.next_region (frames_for size) r) (is_live r p.vaddrs p.counts) _ _
                  _ _ (placed r) (live r lt) (rw here at entered)
        ]

    dealloc-MapsLive :
        (ptr : ℕ) (k : Krn) (p : Pool)
        → Backed R Granted limit (k, p)
        → MapsLive (k, p)
        → MapsLive (dealloc R ptr (k, p)).0
    dealloc-MapsLive ptr k p b live = elim (dealloc-parts R Granted limit L small ptr k p b.pool) [
      | inl (miss, e) ↦
          subst MapsLive (sym (ap (λ (r : (Krn × Pool) × Exec ⊥ (Unit {0})). r.0) e)) live
      | inr (slot, hit, e) ↦
          subst MapsLive (sym (ap (λ (r : (Krn × Pool) × Exec ⊥ (Unit {0})). r.0) e)) λ r lt.
            let emptied =
              is_live-emptied r p.next_region ptr slot p.vaddrs p.counts b.pool.held b.pool.distinct
                hit in
            let unmaps =
              unmap_regions-unmaps R Granted L (get_or p.counts slot 0) (region_at ptr) r k in
            parted (within (region_at ptr) (get_or p.counts slot 0) r) (is_live r p.vaddrs p.counts)
              _ _ _ _ unmaps (live r lt) emptied
    ]

    serve_all-MapsLive :
        (calls : List MmapCall) (k : Krn) (p : Pool)
        → Backed R Granted limit (k, p)
        → MapsLive (k, p)
        → MapsLive (serve_all R Granted limit calls (k, p))
    unfolding serve_all
    serve_all-MapsLive [] k p b live = live
    serve_all-MapsLive (mmap size ∷ calls) k p b live =
        serve_all-MapsLive calls _ _ (alloc-Backed R Granted limit L small size k p b)
          (alloc-MapsLive size k p b live)
    serve_all-MapsLive (munmap ptr ∷ calls) k p b live =
        serve_all-MapsLive calls _ _ (dealloc-Backed R Granted limit L small ptr k p b)
          (dealloc-MapsLive ptr k p b live)

    -- Let the frames of the pool be granted and unmapped at the start, over a kernel that maps such
    -- frames. After any sequence of `mmap_new` and `munmap` calls, exactly the regions of the live
    -- allocations are mapped, each at its own address.
    pub serve_all-maps_live :
        (k : Krn)
        → ((r : ℕ) → r < limit → Granted (7 + r) × (R.mapped k (7 + r) ≡ none))
        → (calls : List MmapCall) (r : ℕ) → r < limit
        → let s = serve_all R Granted limit calls (k, empty_pool limit) in
          R.mapped s.0 (7 + r)
          ≡ (if is_live r s.1.vaddrs s.1.counts then some (vaddr_of r) else none)
    serve_all-maps_live k granted calls =
        let v = empty_pool-IsPool limit in
        serve_all-MapsLive calls k (empty_pool limit)
          (record { pool = v; fresh = λ r lo hi. granted r hi })
          (λ r lt.
            rw (is_live-empty r (replicate limit 0) (replicate limit 0) v.held) (granted r lt).1)

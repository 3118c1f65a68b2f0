-- ===== src/Platform/Pool/Serving.antt =====
-- Any sequence of `wasmtime_mmap_new` and `wasmtime_munmap` on the pool (`src/platform.rs`).
use lantern_runtime.Base.{
  ℕ, ◌+◌, ◌-◌, ◌/◌, ◌^◌, ◌≤◌, ◌<◌, ◌≡◌, ◌⊎◌, inl, inr, sym, subst, ap, Option, none, some, true,
  List, [], ◌∷◌, get_or, set, arith, ltb, if◌then◌else◌, Bool-cases, Option-cases,
}
use lantern_runtime.Base.Exec.{Exec, ok}
use lantern_runtime.Platform.Kernel.{Kernel, MapsFrames}
use lantern_runtime.Platform.Backing.{
  Pool, vaddr_of, frames_for, slot_of, map_regions, unmap_regions, alloc, dealloc, arena_vaddr,
  megapage_bytes,
}
use lantern_runtime.Platform.Pool.Tables.{Held}
use lantern_runtime.Platform.Pool.Invariant.{
  IsPool, entered-IsPool, emptied-IsPool, alloc_full, alloc_granted,
}
use lantern_runtime.Platform.Pool.Frames.{within, map_regions-maps, unmap_regions-unmaps}

pub data MmapCall : Type 0 where
  mmap munmap : ℕ → MmapCall

-- A pointer that some slot holds lies in the arena.
slot_of-arena :
    (n ptr slot : ℕ) (vs cs : List ℕ)
    → Held n vs cs
    → slot_of ptr vs cs ≡ some slot
    → arena_vaddr ≤ ptr
unfolding slot_of
slot_of-arena n ptr slot [] cs h e = cc
slot_of-arena n ptr slot (v ∷ vs) [] h e = cc
slot_of-arena n ptr slot (v ∷ vs) (c ∷ cs) (inl free, h) e =
    elim (Option-cases (slot_of ptr vs cs)) [
      | inl miss ↦ ground arith
      | inr (i, hit) ↦ slot_of-arena n ptr i vs cs h hit
    ]
slot_of-arena n ptr slot (v ∷ vs) (c ∷ cs) (inr (start, at, b), h) e =
    elim (Option-cases (slot_of ptr vs cs)) [
      | inl miss ↦ ground arith
      | inr (i, hit) ↦ slot_of-arena n ptr i vs cs h hit
    ]

module _ {Krn : Type 0} (R : Kernel Krn) (Granted : ℕ → Type 0) (limit : ℕ) where
  -- The pool's invariant, and every region that was never handed out is granted and unmapped.
  pub record Backed (s : Krn × Pool) : Type 0 where
    pub pool : IsPool limit s.1
    pub fresh :
        (r : ℕ) → s.1.next_region ≤ r → r < limit → Granted (7 + r) × (R.mapped s.0 (7 + r) ≡ none)

  unfoldable pub serve : MmapCall → Krn × Pool → Krn × Pool
  serve (mmap size) s = (alloc R limit size s).0
  serve (munmap ptr) s = (dealloc R ptr s).0

  unfoldable pub serve_all : List MmapCall → Krn × Pool → Krn × Pool
  unfolding serve
  serve_all [] s = s
  serve_all (c ∷ cs) s = serve_all cs (serve c s)

  module _ (L : MapsFrames R Granted) (small : limit < 2 ^ 64) where
    pub mapped-run :
        (size : ℕ) (k : Krn) (p : Pool)
        → Backed (k, p)
        → p.next_region + frames_for size ≤ limit
        → ((map_regions R (frames_for size) p.next_region k).1 ≡ true)
          × ((r : ℕ)
              → R.mapped (map_regions R (frames_for size) p.next_region k).0 (7 + r) ≡ (
                  if within p.next_region (frames_for size) r
                  then some (vaddr_of r)
                  else R.mapped k (7 + r)))
    mapped-run size k p b room =
        map_regions-maps R Granted L (frames_for size) p.next_region k
          (λ r lo hi. b.fresh r lo (omega arith))

    -- `alloc` is refused exactly when too few regions are left, and otherwise hands out the next ones.
    pub alloc-answers :
        (size : ℕ) (k : Krn) (p : Pool)
        → Backed (k, p)
        → (alloc R limit size (k, p)).1 ≡ (
            if ltb limit (p.next_region + frames_for size)
            then ok none
            else ok (some (vaddr_of p.next_region)))
    alloc-answers size k p b = elim (Bool-cases (ltb limit (p.next_region + frames_for size))) [
      | inl full ↦ rw full (
          ap (λ (r : (Krn × Pool) × Exec ⊥ (Option ℕ)). r.1)
            (alloc_full R limit size k p b.pool small (ground arith)))
      | inr room ↦
          let fits : p.next_region + frames_for size ≤ limit = ground arith in
          let (slot, inside, e) =
            alloc_granted R limit size k p b.pool small fits (mapped-run size k p b fits).0 in
          rw room (ap (λ (r : (Krn × Pool) × Exec ⊥ (Option ℕ)). r.1) e)
    ]

    pub alloc-Backed :
        (size : ℕ) (k : Krn) (p : Pool) → Backed (k, p) → Backed (alloc R limit size (k, p)).0
    alloc-Backed size k p b = elim (Bool-cases (ltb limit (p.next_region + frames_for size))) [
      | inl full ↦
          subst Backed
            (sym (
              ap (λ (r : (Krn × Pool) × Exec ⊥ (Option ℕ)). r.0)
                (alloc_full R limit size k p b.pool small (ground arith))))
            b
      | inr room ↦
          let fits : p.next_region + frames_for size ≤ limit = ground arith in
          let (done, placed) = mapped-run size k p b fits in
          let (slot, inside, e) = alloc_granted R limit size k p b.pool small fits done in
          subst Backed (sym (ap (λ (r : (Krn × Pool) × Exec ⊥ (Option ℕ)). r.0) e)) (record {
            pool = entered-IsPool limit (frames_for size) slot p b.pool fits;
            fresh = λ r lo hi. (
              (b.fresh r (omega arith) hi).0,
              ground (arith, placed r, (b.fresh r (omega arith) hi).1),
            );
          })
    ]

    pub dealloc-parts :
        (ptr : ℕ) (k : Krn) (p : Pool)
        → IsPool limit p
        → ((slot_of ptr p.vaddrs p.counts ≡ none) × (dealloc R ptr (k, p) ≡ ((k, p), ok tt)))
          ⊎ ((slot : ℕ) × (slot_of ptr p.vaddrs p.counts ≡ some slot)
              × (dealloc R ptr (k, p) ≡ (
                (
                  unmap_regions R (get_or p.counts slot 0) ((ptr - arena_vaddr) / megapage_bytes) k,
                  record p { vaddrs = set p.vaddrs slot 0; counts = set p.counts slot 0 },
                ),
                ok tt,
              )))
    unfolding dealloc
    dealloc-parts ptr k p v = elim (Option-cases (slot_of ptr p.vaddrs p.counts)) [
      | inl miss ↦ inl (miss, ground arith)
      | inr (slot, hit) ↦ inr (
        slot,
        hit,
        ground (arith, slot_of-arena p.next_region ptr slot p.vaddrs p.counts v.held hit),
      )
    ]

    pub dealloc-Backed :
        (ptr : ℕ) (k : Krn) (p : Pool) → Backed (k, p) → Backed (dealloc R ptr (k, p)).0
    dealloc-Backed ptr k p b = elim (dealloc-parts ptr k p b.pool) [
      | inl (miss, e) ↦ subst Backed (sym (ap (λ (r : (Krn × Pool) × Exec ⊥ (Unit {0})). r.0) e)) b
      | inr (slot, hit, e) ↦
          subst Backed (sym (ap (λ (r : (Krn × Pool) × Exec ⊥ (Unit {0})). r.0) e)) (record {
            pool = emptied-IsPool limit slot p b.pool;
            fresh = λ r lo hi.
                let (own, unmapped) = b.fresh r lo hi in
                (
                  own,
                  ground (
                    arith,
                    unmapped,
                    unmap_regions-unmaps R Granted L (get_or p.counts slot 0)
                        ((ptr - arena_vaddr) / megapage_bytes) r k,
                  ),
                );
          })
    ]

    pub serve_all-Backed :
        (calls : List MmapCall) (k : Krn) (p : Pool)
        → Backed (k, p)
        → Backed (serve_all calls (k, p))
    unfolding serve_all
    serve_all-Backed [] k p b = b
    serve_all-Backed (mmap size ∷ calls) k p b =
        serve_all-Backed calls _ _ (alloc-Backed size k p b)
    serve_all-Backed (munmap ptr ∷ calls) k p b =
        serve_all-Backed calls _ _ (dealloc-Backed ptr k p b)

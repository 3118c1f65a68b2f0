-- ===== src/Platform/Pool/Refinement.antt =====
-- The pool of `src/platform.rs` keeps to its specification, whatever sequence of calls it serves.
use lantern_runtime.Base.{
  ℕ, ◌+◌, ◌^◌, ◌≤◌, ◌<◌, ◌≡◌, inl, inr, refl, subst, ap, ◌∙◌, Option, none, some, true, false, List,
  [], ◌∷◌, replicate, arith, ltb, ◌==◌, if◌then◌else◌, Bool-cases,
}
use lantern_runtime.Base.Exec.{ok}
use lantern_runtime.Platform.Kernel.{Kernel, MapsFrames}
use lantern_runtime.Platform.Backing.{
  Pool, empty_pool, vaddr_of, frames_for, slot_of, alloc, dealloc,
}
use lantern_runtime.Platform.Pool.Invariant.{
  empty_pool-IsPool, alloc_full, alloc_entered, frames_for-pos,
}
use lantern_runtime.Platform.Pool.Live.{free_slot-count}
use lantern_runtime.Platform.Pool.Serving.{
  MmapCall, mmap, munmap, Backed, serve_all, mapped-run, alloc-answers, alloc-Backed, dealloc-parts,
  dealloc-Backed, serve_all-Backed,
}
use lantern_runtime.Platform.Pool.Spec.{
  Spec, spec_alloc, spec_dealloc, spec_empty, held_at, held_at-missing, held_at-empty,
  held_at-entered, held_at-emptied,
}

-- The pool as the specification sees it.
pub record Agrees (p : Pool) (a : Spec) : Type 0 where
  pub same_next : p.next_region ≡ a.next
  pub same_live : (q : ℕ) → held_at q p.vaddrs p.counts ≡ a.live q

unfoldable pub spec_all : ℕ → List MmapCall → Spec → Spec
spec_all limit [] a = a
spec_all limit (mmap size ∷ cs) a = spec_all limit cs (spec_alloc limit size a).0
spec_all limit (munmap ptr ∷ cs) a = spec_all limit cs (spec_dealloc ptr a)

held_at-nothing :
    (q ptr : ℕ) (p : Pool) (a : Spec)
    → slot_of ptr p.vaddrs p.counts ≡ none
    → held_at q p.vaddrs p.counts ≡ a.live q
    → held_at q p.vaddrs p.counts ≡ (if q == ptr then none else a.live q)
held_at-nothing q ptr p a miss same = elim (Bool-cases (q == ptr)) [
  | inr other ↦ rw other same
  | inl at ↦
      let e : ptr ≡ q = ground arith in
      rw at (
        held_at-missing q p.vaddrs p.counts
          (subst (λ x. slot_of x p.vaddrs p.counts ≡ none) e miss))
]

module _ {Krn : Type 0} (R : Kernel Krn) (Granted : ℕ → Type 0) (limit : ℕ)
    (L : MapsFrames R Granted) (small : limit < 2 ^ 64) where
  alloc-Agrees :
      (size : ℕ) (k : Krn) (p : Pool) (a : Spec)
      → Backed R Granted limit (k, p)
      → Agrees p a
      → Agrees (alloc R limit size (k, p)).0.1 (spec_alloc limit size a).0
  alloc-Agrees size k p a b v = elim (Bool-cases (ltb limit (p.next_region + frames_for size))) [
    | inl full ↦
        let refused : ltb limit (a.next + frames_for size) ≡ true = rw (← v.same_next) full in
        rw (alloc_full R limit size k p b.pool small (ground arith), refused) v
    | inr room ↦
        let fits : p.next_region + frames_for size ≤ limit = ground arith in
        let (done, placed) = mapped-run R Granted limit L small size k p b fits in
        let (slot, inside, free, e) = alloc_entered R limit size k p b.pool small fits done in
        let given : ltb limit (a.next + frames_for size) ≡ false = rw (← v.same_next) room in
        rw (e, given)
          (record {
            same_next = ap (λ n. n + frames_for size) v.same_next;
            same_live = λ q.
                held_at-entered q p.next_region slot (frames_for size) p.vaddrs p.counts b.pool.held
                  inside (free_slot-count slot p.counts free) (frames_for-pos size)
                ∙ (λ i.
                    if q == vaddr_of (v.same_next i)
                    then some (frames_for size)
                    else v.same_live q i);
          })
  ]

  dealloc-Agrees :
      (ptr : ℕ) (k : Krn) (p : Pool) (a : Spec)
      → Backed R Granted limit (k, p)
      → Agrees p a
      → Agrees (dealloc R ptr (k, p)).0.1 (spec_dealloc ptr a)
  dealloc-Agrees ptr k p a b v = elim (dealloc-parts R Granted limit L small ptr k p b.pool) [
    | inl (miss, e) ↦ rw e (record {
      same_next = v.same_next;
      same_live = λ q. held_at-nothing q ptr p a miss (v.same_live q);
    })
    | inr (slot, hit, e) ↦ rw e (record {
      same_next = v.same_next;
      same_live = λ q.
          held_at-emptied q ptr slot p.vaddrs p.counts b.pool.distinct hit
          ∙ ap (λ (o : Option ℕ). if q == ptr then none else o) (v.same_live q);
    })
  ]

  serve_all-Agrees :
      (calls : List MmapCall) (k : Krn) (p : Pool) (a : Spec)
      → Backed R Granted limit (k, p)
      → Agrees p a
      → Agrees (serve_all R Granted limit calls (k, p)).1 (spec_all limit calls a)
  unfolding serve_all spec_all
  serve_all-Agrees [] k p a b v = v
  serve_all-Agrees (mmap size ∷ calls) k p a b v =
      serve_all-Agrees calls _ _ (spec_alloc limit size a).0
        (alloc-Backed R Granted limit L small size k p b) (alloc-Agrees size k p a b v)
  serve_all-Agrees (munmap ptr ∷ calls) k p a b v =
      serve_all-Agrees calls _ _ (spec_dealloc ptr a)
        (dealloc-Backed R Granted limit L small ptr k p b) (dealloc-Agrees ptr k p a b v)

  alloc-answers_spec :
      (size : ℕ) (k : Krn) (p : Pool) (a : Spec)
      → Backed R Granted limit (k, p)
      → Agrees p a
      → (alloc R limit size (k, p)).1 ≡ ok (spec_alloc limit size a).1
  alloc-answers_spec size k p a b v =
      alloc-answers R Granted limit L small size k p b
      ∙ ap (λ n. if ltb limit (n + frames_for size) then ok none else ok (some (vaddr_of n)))
          v.same_next
      ∙ elim (Bool-cases (ltb limit (a.next + frames_for size))) [
        | inl full ↦ rw full refl
        | inr room ↦ rw room refl
      ]

  -- Let the frames of the pool be granted and unmapped at the start, over a kernel that maps such
  -- frames. After any sequence of calls the pool is where its specification is, and answers the next
  -- request as that does.
  pub serve_all-refines :
      (k : Krn)
      → ((r : ℕ) → r < limit → Granted (7 + r) × (R.mapped k (7 + r) ≡ none))
      → (calls : List MmapCall)
      → let s = serve_all R Granted limit calls (k, empty_pool limit) in
        let a = spec_all limit calls spec_empty in
        Agrees s.1 a × ((size : ℕ) → (alloc R limit size s).1 ≡ ok (spec_alloc limit size a).1)
  serve_all-refines k granted calls =
      let start : Backed R Granted limit (k, empty_pool limit) = record {
        pool = empty_pool-IsPool limit;
        fresh = λ r lo hi. granted r hi;
      } in
      let first : Agrees (empty_pool limit) spec_empty = record {
        same_next = refl;
        same_live = λ q. held_at-empty q (replicate limit 0) (replicate limit 0) start.pool.held;
      } in
      let kept = serve_all-Agrees calls k (empty_pool limit) spec_empty start first in
      (
        kept,
        λ size.
            alloc-answers_spec size _ _ (spec_all limit calls spec_empty)
              (serve_all-Backed R Granted limit L small calls k (empty_pool limit) start) kept,
      )

-- ===== src/Platform/Pool/AtOwn.antt =====
-- What is mapped while the pool of `src/platform.rs` serves, whichever of its frames a loader granted.
use lantern_runtime.Base.{
  ℕ, zero, suc, ◌+◌, ◌-◌, ◌/◌, ◌<◌, ◌≡◌, none, some, true, false, List, [], ◌∷◌, get_or, arith, ltb,
  ◌==◌, if◌then◌else◌, Bool-cases, Option-cases, ◌⊎◌, inl, inr, sym, subst,
}
use lantern_runtime.Platform.Kernel.{Kernel}
use lantern_runtime.Platform.Backing.{
  Pool, arena_vaddr, megapage_bytes, vaddr_of, frames_for, slot_of, map_regions, unmap_regions,
  perms, alloc, dealloc,
}
use lantern_runtime.Platform.Store.{pool_store}
use lantern_runtime.Platform.Pool.Serving.{MmapCall, mmap, munmap}
use lantern_runtime.Platform.Entries.{serve_calls}

-- A call that maps a frame maps that one, at the address asked; one that is refused maps none, and an unmapped
-- frame is mapped nowhere. A slot that holds no frame, or is empty, is refused.
pub record MapsAsAsked {Krn : Type 0} (R : Kernel Krn) : Type 0 where
  pub mapped-map :
      (frame vspace vaddr perms j : ℕ) (k : Krn)
      → (R.map frame vspace vaddr perms k).1 ≡ true
      → R.mapped (R.map frame vspace vaddr perms k).0 j
        ≡ (if j == frame then some vaddr else R.mapped k j)
  pub mapped-refused :
      (frame vspace vaddr perms j : ℕ) (k : Krn)
      → (R.map frame vspace vaddr perms k).1 ≡ false
      → R.mapped (R.map frame vspace vaddr perms k).0 j ≡ R.mapped k j
  pub mapped-unmap :
      (frame vspace j : ℕ) (k : Krn)
      → R.mapped (R.unmap frame vspace k) j ≡ (if j == frame then none else R.mapped k j)

module _ {Krn : Type 0} (R : Kernel Krn) (L : MapsAsAsked R) (bound : ℕ) where
  -- A region below the bound that is mapped at all is mapped at its own address.
  abbrev pub AtOwn : Krn → Type 0
  AtOwn k = (r a : ℕ) → r < bound → R.mapped k (7 + r) ≡ some a → a ≡ vaddr_of r

  map-AtOwn :
      (region vspace perms : ℕ) (k : Krn)
      → AtOwn k
      → AtOwn (R.map (7 + region) vspace (vaddr_of region) perms k).0
  map-AtOwn region vspace rights k own r a lt at =
      elim (Bool-cases ((R.map (7 + region) vspace (vaddr_of region) rights k).1)) [
        | inl done ↦
            let e = L.mapped-map (7 + region) vspace (vaddr_of region) rights (7 + r) k done in
            elim (Bool-cases ((7 + r) == (7 + region))) [
              | inl same ↦ ground arith
              | inr apart ↦ own r a lt (ground arith)
            ]
        | inr refused ↦ own r a lt (
            ground (
              arith,
              L.mapped-refused (7 + region) vspace (vaddr_of region) rights (7 + r) k refused,
            ))
      ]

  map_regions-AtOwn : (n region : ℕ) (k : Krn) → AtOwn k → AtOwn (map_regions R n region k).0
  unfolding map_regions
  map_regions-AtOwn zero region k own = own
  map_regions-AtOwn (suc n) region k own =
      let next = map-AtOwn region 6 (perms R) k own in
      let r = R.map (7 + region) 6 (vaddr_of region) (perms R) k in
      elim (Bool-cases r.1) [
        | inl done ↦ rw done (map_regions-AtOwn n (suc region) r.0 next)
        | inr refused ↦ rw refused next
      ]

  unmap_regions-AtOwn : (n region : ℕ) (k : Krn) → AtOwn k → AtOwn (unmap_regions R n region k)
  unfolding unmap_regions
  unmap_regions-AtOwn zero region k own = own
  unmap_regions-AtOwn (suc n) region k own =
      unmap_regions-AtOwn n (suc region) (R.unmap (7 + region) 6 k)
        λ r a lt at. own r a lt (ground (arith, L.mapped-unmap (7 + region) 6 (7 + r) k))

  alloc-kernel :
      (limit size : ℕ) (k : Krn) (p : Pool)
      → ((alloc R limit size (k, p)).0.0 ≡ k)
        ⊎ ((alloc R limit size (k, p)).0.0 ≡ (map_regions R (frames_for size) p.next_region k).0)
  unfolding alloc
  alloc-kernel limit size k p = ground arith

  dealloc-kernel :
      (ptr : ℕ) (k : Krn) (p : Pool)
      → ((dealloc R ptr (k, p)).0.0 ≡ k)
        ⊎ ((n : ℕ) × (region : ℕ) × ((dealloc R ptr (k, p)).0.0 ≡ unmap_regions R n region k))
  unfolding dealloc
  dealloc-kernel ptr k p = elim (Option-cases (slot_of ptr p.vaddrs p.counts)) [
    | inl missing ↦ inl (ground arith)
    | inr (slot, found) ↦ elim (Bool-cases (ltb ptr arena_vaddr)) [
      | inl below ↦ inl (ground arith)
      | inr within ↦
          inr (get_or p.counts slot 0, (ptr - arena_vaddr) / megapage_bytes, ground arith)
    ]
  ]

  alloc-AtOwn : (limit size : ℕ) (s : Krn × Pool) → AtOwn s.0 → AtOwn (alloc R limit size s).0.0
  alloc-AtOwn limit size (k, p) own = elim (alloc-kernel limit size k p) [
    | inl same ↦ subst AtOwn (sym same) own
    | inr ran ↦ subst AtOwn (sym ran) (map_regions-AtOwn (frames_for size) p.next_region k own)
  ]

  dealloc-AtOwn : (ptr : ℕ) (s : Krn × Pool) → AtOwn s.0 → AtOwn (dealloc R ptr s).0.0
  dealloc-AtOwn ptr (k, p) own = elim (dealloc-kernel ptr k p) [
    | inl same ↦ subst AtOwn (sym same) own
    | inr (n, region, ran) ↦ subst AtOwn (sym ran) (unmap_regions-AtOwn n region k own)
  ]

  -- Whatever the pool is asked for, and whichever of its frames were granted.
  pub serve_calls-AtOwn :
      (limit : ℕ) (cs : List MmapCall) (s : Krn × Pool)
      → AtOwn s.0
      → AtOwn (serve_calls (pool_store R limit) cs s).0
  unfolding serve_calls
  serve_calls-AtOwn limit [] s own = own
  serve_calls-AtOwn limit (mmap size ∷ cs) s own =
      serve_calls-AtOwn limit cs (alloc R limit size s).0 (alloc-AtOwn limit size s own)
  serve_calls-AtOwn limit (munmap ptr ∷ cs) s own =
      serve_calls-AtOwn limit cs (dealloc R ptr s).0 (dealloc-AtOwn ptr s own)

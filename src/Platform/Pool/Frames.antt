-- ===== src/Platform/Pool/Frames.antt =====
-- Mapping and unmapping the frames of a run (`src/platform.rs`, the loops of `mod backing`), over a
-- kernel that maps what was granted.
use lantern_runtime.Base.{
  ℕ, zero, suc, ◌+◌, ◌≤◌, ◌<◌, ◌≡◌, refl, ◌∙◌, Option, none, some, Bool, true, arith, ltb, leb,
  ◌==◌, if◌then◌else◌, ◌&&◌,
}
use lantern_runtime.Platform.Kernel.{Kernel, MapsFrames}
use lantern_runtime.Platform.Backing.{vaddr_of, map_regions, unmap_regions, perms}

-- A region of the run that starts at `start`.
abbrev pub within : ℕ → ℕ → ℕ → Bool
within start n r = leb start r && ltb r (start + n)

within-suc :
    (n region r : ℕ) (a b : Option ℕ)
    → a ≡ (if 7 + r == 7 + region then some (vaddr_of region) else b)
    → (if within (suc region) n r then some (vaddr_of r) else a)
      ≡ (if within region (suc n) r then some (vaddr_of r) else b)
within-suc n region r a b e = ground arith

module _ {Krn : Type 0} (R : Kernel Krn) (Granted : ℕ → Type 0) (L : MapsFrames R Granted) where
  -- Granted and unmapped frames are all mapped, each at its own address, and no other is touched.
  pub map_regions-maps :
      (n region : ℕ) (k : Krn)
      → ((r : ℕ) → region ≤ r → r < region + n → Granted (7 + r) × (R.mapped k (7 + r) ≡ none))
      → ((map_regions R n region k).1 ≡ true)
        × ((r : ℕ)
            → R.mapped (map_regions R n region k).0 (7 + r)
              ≡ (if within region n r then some (vaddr_of r) else R.mapped k (7 + r)))
  unfolding map_regions
  map_regions-maps zero region k free = (refl, λ r. ground arith)
  map_regions-maps (suc n) region k free =
      let (own, unmapped) = free region (omega arith) (omega arith) in
      let done = L.map_free (7 + region) 6 (vaddr_of region) (perms R) k own unmapped in
      let k' : Krn = (R.map (7 + region) 6 (vaddr_of region) (perms R) k).0 in
      let next =
        λ (r : ℕ). L.mapped-map (7 + region) 6 (vaddr_of region) (perms R) (7 + r) k done in
      let (all, elsewhere) = map_regions-maps n (suc region) k' λ r lo hi. (
        (free r (omega arith) (omega arith)).0,
        ground (arith, next r, (free r (omega arith) (omega arith)).1),
      ) in
      (rw done all, λ r. rw done (elsewhere r ∙ within-suc n region r _ _ (next r)))

  pub unmap_regions-unmaps :
      (n region r : ℕ) (k : Krn)
      → R.mapped (unmap_regions R n region k) (7 + r)
        ≡ (if within region n r then none else R.mapped k (7 + r))
  unfolding unmap_regions
  unmap_regions-unmaps zero region r k = ground arith
  unmap_regions-unmaps (suc n) region r k = ground (
    arith,
    unmap_regions-unmaps n (suc region) r (R.unmap (7 + region) 6 k),
    L.mapped-unmap (7 + region) 6 (7 + r) k,
  )

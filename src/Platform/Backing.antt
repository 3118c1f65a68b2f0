-- ===== src/Platform/Backing.antt =====
-- `mod backing` of `src/platform.rs`: a bounded pool of frames, mapped and unmapped on demand. The
-- number of regions is a parameter, since `riscv64-probe` has the same module with another one.
use lantern_runtime.Base.{
  ℕ, zero, suc, ◌+◌, ◌-◌, ◌*◌, ◌/◌, ◌%◌, ◌^◌, max, Option, none, some, Bool, true, false, not, ◌&&◌,
  List, [], ◌∷◌, get_or, set, replicate, ltb, ◌==◌, if◌then◌else◌,
}
use lantern_runtime.Base.Exec.{Exec, ok, panic}
use lantern_runtime.Platform.Kernel.{Kernel}

abbrev pub arena_vaddr : ℕ
arena_vaddr = 0x88200000

abbrev pub megapage_bytes : ℕ
megapage_bytes = 2 * 1024 * 1024

abbrev pub regions : ℕ
regions = 4

abbrev pub arena_frame_cptr_base : ℕ
arena_frame_cptr_base = 7

abbrev pub self_vspace_cptr : ℕ
self_vspace_cptr = 6

-- `ALLOC_VADDR`, `ALLOC_COUNT` and `NEXT_REGION`.
pub record Pool : Type 0 where
  pub vaddrs : List ℕ
  pub counts : List ℕ
  pub next_region : ℕ

-- The statics as the program starts.
abbrev pub empty_pool : ℕ → Pool
empty_pool n = record { vaddrs = replicate n 0; counts = replicate n 0; next_region = 0 }

abbrev pub vaddr_of : ℕ → ℕ
vaddr_of region = arena_vaddr + region * megapage_bytes

abbrev pub div_ceil : ℕ → ℕ → ℕ
div_ceil a b = if a % b == 0 then a / b else a / b + 1

-- The frames that `size` bytes take.
unfoldable pub frames_for : ℕ → ℕ
frames_for size = max (div_ceil size megapage_bytes) 1

-- `iter().position(|&c| c == 0)`
unfoldable pub free_slot : List ℕ → Option ℕ
free_slot [] = none
free_slot (c ∷ cs) =
    if c == 0 then some 0 else elim (free_slot cs) [ none ↦ none | some i ↦ some (suc i) ]

-- `(0..REGIONS).find(|&i| counts[i] != 0 && vaddrs[i] == ptr)`
unfoldable pub slot_of : ℕ → List ℕ → List ℕ → Option ℕ
slot_of ptr (v ∷ vs) (c ∷ cs) =
    if not (c == 0) && v == ptr
    then some 0
    else elim (slot_of ptr vs cs) [ none ↦ none | some i ↦ some (suc i) ]
slot_of ptr _ _ = none

module _ {Krn : Type 0} (R : Kernel Krn) where
  abbrev pub perms : ℕ
  perms = R.union (R.union R.read_perm R.write_perm) R.user_perm

  -- The loop over `start..start + n` that maps; it stops at the first frame that is refused.
  unfoldable pub map_regions : ℕ → ℕ → Krn → Krn × Bool
  map_regions zero region k = (k, true)
  map_regions (suc n) region k =
      let (k', done) =
        R.map (arena_frame_cptr_base + region) self_vspace_cptr (vaddr_of region) perms k in
      let rest = map_regions n (suc region) k' in if done then rest else (k', false)

  unfoldable pub unmap_regions : ℕ → ℕ → Krn → Krn
  unmap_regions zero region k = k
  unmap_regions (suc n) region k =
      unmap_regions n (suc region) (R.unmap (arena_frame_cptr_base + region) self_vspace_cptr k)

  -- Enters a new allocation in the tables, once its frames are mapped.
  abbrev pub record_alloc : ℕ → ℕ → Krn → Pool → (Krn × Pool) × Exec ⊥ (Option ℕ)
  record_alloc start count k p = elim (free_slot p.counts) [
    | none ↦ ((k, p), ok none)
    | some slot ↦ (
      (
        k,
        record p { vaddrs = set p.vaddrs slot (vaddr_of start); counts = set p.counts slot count },
      ),
      ok (some (vaddr_of start)),
    )
  ]

  abbrev pub map_and_record : ℕ → ℕ → Krn → Pool → (Krn × Pool) × Exec ⊥ (Option ℕ)
  map_and_record start count k p =
      let (k', done) = map_regions count start k in
      if done then record_alloc start count k' p else ((k', p), panic)

  -- The first argument is `REGIONS`, the second the size.
  unfoldable pub alloc : ℕ → ℕ → Krn × Pool → (Krn × Pool) × Exec ⊥ (Option ℕ)
  alloc limit size (k, p) =
      let start = p.next_region in
      let count = frames_for size in
      let next = start + count in
      if ltb next (2 ^ 64)
      then (if ltb limit next
          then ((k, p), ok none)
          else map_and_record start count k (record p { next_region = next }))
      else ((k, p), ok none)

  -- `ptr - ARENA_VADDR` panics where it would be negative.
  abbrev pub release : ℕ → ℕ → Krn → Pool → (Krn × Pool) × Exec ⊥ (Unit {0})
  release ptr slot k p =
      let count = get_or p.counts slot 0 in
      if ltb ptr arena_vaddr then ((k, p), panic) else (
        (
          unmap_regions count ((ptr - arena_vaddr) / megapage_bytes) k,
          record p { vaddrs = set p.vaddrs slot 0; counts = set p.counts slot 0 },
        ),
        ok tt,
      )

  unfoldable pub dealloc : ℕ → Krn × Pool → (Krn × Pool) × Exec ⊥ (Unit {0})
  dealloc ptr (k, p) = elim (slot_of ptr p.vaddrs p.counts) [
    | none ↦ ((k, p), ok tt)
    | some slot ↦ release ptr slot k p
  ]

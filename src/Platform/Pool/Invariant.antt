-- ===== src/Platform/Pool/Invariant.antt =====
-- The invariant of the pool (`src/platform.rs`, `mod backing`), kept by `alloc` and `dealloc`.
use lantern_runtime.Base.{
  ℕ, zero, suc, ◌+◌, ◌*◌, ◌^◌, ◌≤◌, ◌<◌, ◌≡◌, inl, inr, refl, none, some, true, length, length-set,
  length-replicate, set, replicate, arith,
}
use lantern_runtime.Base.Exec.{ok}
use lantern_runtime.Platform.Kernel.{Kernel}
use lantern_runtime.Platform.Backing.{
  Pool, empty_pool, vaddr_of, frames_for, free_slot, map_regions, alloc, megapage_bytes,
}
use lantern_runtime.Platform.Pool.Tables.{
  sum, Held, Distinct, Held-mono, Held-set, Apart-fresh, Distinct-set, sum-set, free_slot-found,
}

-- The tables have a slot for each region; what they hold lies below the bump index, no two runs meet,
-- together they are no longer than the index, and the index is within the pool.
pub record IsPool (limit : ℕ) (p : Pool) : Type 0 where
  pub sized : length p.counts ≡ limit
  pub held : Held p.next_region p.vaddrs p.counts
  pub distinct : Distinct p.vaddrs p.counts
  pub counted : sum p.counts ≤ p.next_region
  pub bounded : p.next_region ≤ limit

sum-replicate : (n : ℕ) → sum (replicate n 0) ≡ 0
sum-replicate zero = refl
sum-replicate (suc n) = omega (arith, sum-replicate n)

Held-replicate : (n : ℕ) → Held 0 (replicate n 0) (replicate n 0)
Held-replicate zero = tt
Held-replicate (suc n) = (inl refl, Held-replicate n)

Distinct-replicate : (n : ℕ) → Distinct (replicate n 0) (replicate n 0)
Distinct-replicate zero = tt
Distinct-replicate (suc n) = (inl refl, Distinct-replicate n)

pub empty_pool-IsPool : (limit : ℕ) → IsPool limit (empty_pool limit)
empty_pool-IsPool limit = record {
  sized = length-replicate limit 0;
  held = Held-replicate limit;
  distinct = Distinct-replicate limit;
  counted = omega (arith, sum-replicate limit);
  bounded = omega arith;
}

-- A run of `count` fresh regions, entered in a free slot.
pub entered-IsPool :
    (limit count slot : ℕ) (p : Pool)
    → IsPool limit p
    → p.next_region + count ≤ limit
    → IsPool limit (record {
      vaddrs = set p.vaddrs slot (vaddr_of p.next_region);
      counts = set p.counts slot count;
      next_region = p.next_region + count;
    })
entered-IsPool limit count slot p v room = record {
  sized = omega (arith, length-set p.counts slot count, v.sized);
  held =
      Held-set (p.next_region + count) slot (vaddr_of p.next_region) count p.vaddrs p.counts
        (inr (p.next_region, refl, omega arith))
        (Held-mono p.next_region (p.next_region + count) p.vaddrs p.counts (omega arith) v.held);
  distinct =
      Distinct-set slot (vaddr_of p.next_region) count p.vaddrs p.counts
        (inr (Apart-fresh p.next_region count p.vaddrs p.counts v.held)) v.distinct;
  counted = omega (arith, sum-set slot count p.counts, v.counted);
  bounded = room;
}

-- A slot that is emptied.
pub emptied-IsPool :
    (limit slot : ℕ) (p : Pool)
    → IsPool limit p
    → IsPool limit (record p { vaddrs = set p.vaddrs slot 0; counts = set p.counts slot 0 })
emptied-IsPool limit slot p v = record {
  sized = omega (arith, length-set p.counts slot 0, v.sized);
  held = Held-set p.next_region slot 0 0 p.vaddrs p.counts (inl refl) v.held;
  distinct = Distinct-set slot 0 0 p.vaddrs p.counts (inl refl) v.distinct;
  counted = omega (arith, sum-set slot 0 p.counts, v.counted);
  bounded = v.bounded;
}

pub frames_for-pos : (size : ℕ) → 0 < frames_for size
unfolding frames_for
frames_for-pos size = ground arith

pub frames_for-enough : (size : ℕ) → size ≤ frames_for size * megapage_bytes
unfolding frames_for
frames_for-enough size = ground arith

module _ {Krn : Type 0} (R : Kernel Krn) (limit size : ℕ) (k : Krn) (p : Pool) (v : IsPool limit p)
    (small : limit < 2 ^ 64) where
  -- Too few regions are left.
  pub alloc_full :
      limit < p.next_region + frames_for size → alloc R limit size (k, p) ≡ ((k, p), ok none)
  unfolding alloc
  alloc_full full = ground arith

  -- The next regions are mapped and entered in a free slot.
  pub alloc_entered :
      p.next_region + frames_for size ≤ limit
      → let mapped = map_regions R (frames_for size) p.next_region k in
        mapped.1 ≡ true
        → (slot : ℕ) × (slot < length p.counts)
          × (free_slot p.counts ≡ some slot)
          × (alloc R limit size (k, p) ≡ (
            (
              mapped.0,
              record {
                vaddrs = set p.vaddrs slot (vaddr_of p.next_region);
                counts = set p.counts slot (frames_for size);
                next_region = p.next_region + frames_for size;
              },
            ),
            ok (some (vaddr_of p.next_region)),
          ))
  unfolding alloc
  alloc_entered room done =
      let (slot, found, inside) =
        free_slot-found p.counts (omega (arith, frames_for-pos size, v.sized, v.counted)) in
      (slot, inside, found, ground (arith, found))

  pub alloc_granted :
      p.next_region + frames_for size ≤ limit
      → let mapped = map_regions R (frames_for size) p.next_region k in
        mapped.1 ≡ true
        → (slot : ℕ) × (slot < length p.counts)
          × (alloc R limit size (k, p) ≡ (
            (
              mapped.0,
              record {
                vaddrs = set p.vaddrs slot (vaddr_of p.next_region);
                counts = set p.counts slot (frames_for size);
                next_region = p.next_region + frames_for size;
              },
            ),
            ok (some (vaddr_of p.next_region)),
          ))
  alloc_granted room done =
      let (slot, inside, found, e) = alloc_entered room done in (slot, inside, e)

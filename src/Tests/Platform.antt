-- ===== src/Tests/Platform.antt =====
-- The pool of frames and the bump arena on a kernel that keeps a table of what is mapped where.
use lantern_runtime.Base.{
  ℕ, ◌+◌, ◌-◌, ◌^◌, ◌<◌, ◌≡◌, refl, Option, none, some, true, false, List, [], ◌∷◌, arith, ◌==◌,
  if◌then◌else◌,
}
use lantern_runtime.Base.Exec.{ok}
use lantern_runtime.Platform.Kernel.{Kernel, MapsFrames}
use lantern_runtime.Platform.Backing.{
  empty_pool, frames_for, alloc, dealloc, regions, map_regions, unmap_regions, free_slot, slot_of,
}
use lantern_runtime.Platform.Store.{arena_store}
use lantern_runtime.Platform.Capi.{Entry, SyncCall, Statics}
use lantern_runtime.Platform.Pool.Invariant.{IsPool}
use lantern_runtime.Platform.Pool.Serving.{MmapCall, mmap, munmap, serve, serve_all}
use lantern_runtime.Platform.Pool.Promises.{serve_all-IsPool}
use lantern_runtime.Platform.Fallback.{bump, claim}
use lantern_runtime.Platform.Arena.{bump_wraps}
use lantern_runtime.Platform.Handed.{handed_out}

abbrev pub Frames : Type 0
Frames = ℕ → Option ℕ

abbrev pub kernel : Kernel Frames
kernel = record {
  read_perm = 1;
  write_perm = 2;
  user_perm = 8;
  union = λ a b. a + b;
  map = λ frame vspace vaddr perms k. ((λ j. if j == frame then some vaddr else k j), true);
  unmap = λ frame vspace k j. if j == frame then none else k j;
  mapped = λ k j. k j;
}

abbrev pub Granted : ℕ → Type 0
Granted frame = Unit {0}

pub kernel-MapsFrames : MapsFrames kernel Granted
kernel-MapsFrames = record {
  map_free = λ frame vspace vaddr perms k own free. refl;
  mapped-map = λ frame vspace vaddr perms j k done. refl;
  mapped-unmap = λ frame vspace j k. refl;
}

abbrev pub unmapped : Frames
unmapped j = none

pub granted : (r : ℕ) → r < regions → Granted (7 + r) × (kernel.mapped unmapped (7 + r) ≡ none)
granted r lt = (tt, refl)

-- Two live runs, one of which is given back.
abbrev calls : List MmapCall
calls = mmap 220000 ∷ mmap 4194304 ∷ munmap 0x88200000 ∷ []

serve_all-IsPool_example :
    IsPool regions (serve_all kernel Granted regions calls (unmapped, empty_pool regions)).1
serve_all-IsPool_example =
    serve_all-IsPool kernel Granted regions kernel-MapsFrames (omega arith) unmapped granted calls

last_region :
    (alloc kernel regions 5000
      (serve_all kernel Granted regions calls (unmapped, empty_pool regions))).1
    ≡ ok (some 0x88800000)
unfolding serve_all serve alloc dealloc map_regions unmap_regions free_slot slot_of frames_for
last_region = refl

exhausted :
    (alloc kernel regions 2097153
      (serve_all kernel Granted regions calls (unmapped, empty_pool regions))).1
    ≡ ok none
unfolding serve_all serve alloc dealloc map_regions unmap_regions free_slot slot_of frames_for
exhausted = refl

abbrev pub entries : List Entry
entries =
    Entry.tls_set 0 0x86200000
    ∷ Entry.mmap_new 220000 3 0
    ∷ Entry.mmap_remap 0x88200000 4096 3
    ∷ Entry.sync SyncCall.lock_acquire 0
    ∷ Entry.munmap 0x88200000 220000
    ∷ []

-- Two requests of which the first meets a failing exchange, and one that is too large.
abbrev arena_entries : List Entry
arena_entries =
    Entry.mmap_new 5000 3 0
    ∷ Entry.tls_set 0 0x86200000
    ∷ Entry.mmap_new 300000 3 0
    ∷ Entry.munmap 0x80001000 5000
    ∷ Entry.mmap_new 1 3 0
    ∷ []

abbrev arena_statics : Statics (ℕ × List ℕ)
arena_statics = record { backing = (4096, 2 ∷ []); memory = λ a. 0; tls = 0 }

handed_twice :
    handed_out (arena_store true 0x80000000) arena_entries arena_statics
    ≡ (0x80001000, 5000) ∷ (0x80003000, 1) ∷ []
unfolding handed_out bump claim
handed_twice = refl

bump_wraps_example :
    bump false 0x80000000 1 (2 ^ 64 - 1) 8192 ≡ (8192, ok (some (0x80000000 + 8192)))
bump_wraps_example =
    bump_wraps 0x80000000 1 (2 ^ 64 - 1) 8192 (omega arith) (omega arith) (omega arith)

-- ===== src/Tests/Layout.antt =====
-- What Wasmtime is given over the pool of frames, and in the program of `riscv64-probe`.
use lantern_runtime.Base.{
  ℕ, ◌≤◌, ◌<◌, ◌+◌, ◌≡◌, refl, none, some, if◌then◌else◌, List, [], ◌∷◌, arith, true, false, ltb,
  ◌==◌,
}
use lantern_runtime.Platform.Backing.{
  Pool, empty_pool, arena_vaddr, vaddr_of, alloc, dealloc, map_regions, unmap_regions, free_slot,
  slot_of, frames_for, megapage_bytes,
}
use lantern_runtime.Platform.Arena.{Stacked}
use lantern_runtime.Platform.Capi.{Statics, Entry, mmap_answer, enter, enter_all}
use lantern_runtime.Platform.Store.{pool_store}
use lantern_runtime.Platform.Handed.{handed_out}
use lantern_runtime.Platform.Kernel.{Kernel}
use lantern_runtime.Platform.Pool.AtOwn.{MapsAsAsked}
use lantern_runtime.Platform.Pool.Live.{is_live}
use lantern_runtime.Platform.Footprint.{enter_all-maps_live, enter_all-refines}
use lantern_runtime.Platform.Entries.{pool_calls}
use lantern_runtime.Platform.Pool.Spec.{spec_alloc, spec_empty}
use lantern_runtime.Platform.Pool.Refinement.{Agrees, spec_all}
use lantern_runtime.Base.Exec.{ok}
use lantern_runtime.Probe.Memory.{frames, regions}
use lantern_runtime.Probe.Program.{heap_base, heap_len}
use lantern_runtime.Probe.Layout.{memory-Stacked}
use lantern_runtime.Confined.Stage
use lantern_runtime.Confined.Layout.{package-untouched}
use lantern_runtime.Tests.Platform.{Frames, kernel, unmapped, Granted, kernel-MapsFrames, granted}

-- The second is too large for two regions; the first is given back, and its region is not handed out again.
abbrev entries : List Entry
entries =
    Entry.mmap_new 5000 3 0
    ∷ Entry.mmap_new 5000000 3 0
    ∷ Entry.munmap 0x88200000 5000
    ∷ Entry.mmap_new 1 3 0
    ∷ Entry.mmap_new 1 3 0
    ∷ []

abbrev statics : ℕ → Statics (Frames × Pool)
statics n = record { backing = (unmapped, empty_pool n); memory = λ a. 0; tls = 0 }

memory-Stacked_example :
    let blocks = handed_out (frames kernel) entries (statics regions) in
    Stacked arena_vaddr (vaddr_of regions) blocks
    × Stacked (heap_base + heap_len) (vaddr_of regions) blocks
memory-Stacked_example = memory-Stacked kernel entries unmapped (λ a. 0) 0

enter_all-maps_live_example :
    let s = enter_all (pool_store kernel 4) entries (statics 4) in
    kernel.mapped s.backing.0 (7 + 1)
    ≡ (if is_live 1 s.backing.1.vaddrs s.backing.1.counts then some (vaddr_of 1) else none)
enter_all-maps_live_example =
    enter_all-maps_live kernel 4 Granted kernel-MapsFrames (omega arith) unmapped granted (λ a. 0) 0
      entries 1 (omega arith)

enter_all-refines_example :
    let s = enter_all (pool_store kernel 4) entries (statics 4) in
    let a = spec_all 4 (pool_calls entries) spec_empty in
    Agrees s.backing.1 a
    × ((size prot_flags ret : ℕ)
        → (enter (pool_store kernel 4) (Entry.mmap_new size prot_flags ret) s).1
          ≡ mmap_answer (ok (spec_alloc 4 size a).1))
enter_all-refines_example =
    enter_all-refines kernel 4 Granted kernel-MapsFrames (omega arith) unmapped granted (λ a. 0) 0
      entries

-- Of four regions the first was given back, and the second request took the other three.
spec_run :
    let a = spec_all 4 (pool_calls entries) spec_empty in
    (a.next ≡ 4)
    × (a.live (vaddr_of 0) ≡ none)
    × (a.live (vaddr_of 1) ≡ some 3)
    × (a.live (vaddr_of 2) ≡ none)
unfolding spec_all frames_for
spec_run = (refl, refl, refl, refl)

-- As the program starts: three frames, in the slots 7 to 9, and no frame in slot 10.
abbrev three_frames : Kernel Frames
three_frames = record kernel {
  map = λ frame vspace vaddr perms k.
      if ltb frame 10 then ((λ j. if j == frame then some vaddr else k j), true) else (k, false);
}

three_frames-MapsAsAsked : MapsAsAsked three_frames
three_frames-MapsAsAsked = record {
  mapped-map = λ frame vspace vaddr perms j k done. ground arith;
  mapped-refused = λ frame vspace vaddr perms j k refused. ground arith;
  mapped-unmap = λ frame vspace j k. refl;
}

package-untouched_example :
    let s = enter_all (pool_store three_frames 4) entries (statics 4) in
    Stacked
      (Stage.heap_base + Stage.heap_len)
      Stage.package_vaddr
      (handed_out (pool_store three_frames 4) entries (statics 4))
    × ((r a : ℕ)
        → r < 4
        → three_frames.mapped s.backing.0 (7 + r) ≡ some a
        → (Stage.heap_base + Stage.heap_len ≤ a) × (a + megapage_bytes ≤ Stage.package_vaddr))
package-untouched_example =
    package-untouched three_frames three_frames-MapsAsAsked unmapped (λ r lt. refl) entries (λ a. 0)
      0

two_blocks :
    handed_out (frames kernel) entries (statics regions) ≡ (0x88200000, 5000) ∷ (0x88400000, 1) ∷ []
unfolding handed_out alloc dealloc map_regions unmap_regions free_slot slot_of frames_for
two_blocks = refl

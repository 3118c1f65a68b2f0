-- ===== src/Platform/SelfTests.antt =====
-- `mod tests` of `riscv64-probe/src/platform.rs`: what each test comes to, and that it passes.
use lantern_runtime.Base.{
  ℕ, ◌+◌, ◌*◌, ◌%◌, ◌≡◌, refl, Option, none, some, Bool, true, false, ◌&&◌, List, arith, ◌==◌,
}
use lantern_runtime.Base.Exec.{Exec, ok, err, panic}
use lantern_runtime.Platform.Fallback.{arena_bytes, claim, bump}
use lantern_runtime.Platform.Arena.{claim-fails}
use lantern_runtime.Platform.Store.{BackingStore, arena_store, fails_now, fails_later}
use lantern_runtime.Platform.Capi.{Statics, Entry, Answer, enter}

-- What a call stored, if it returned 0.
abbrev granted_at : Exec ⊥ Answer → Option ℕ
granted_at (ok a) = elim a.returned [
  | none ↦ none
  | some code ↦ elim (code == 0) [ true ↦ a.stored | false ↦ none ]
]
granted_at (err e) = none
granted_at panic = none

abbrev page_and_next : Option ℕ → Option ℕ → Bool
page_and_next (some a) (some b) = a % 4096 == 0 && b == a + 4096
page_and_next _ _ = false

-- A call that returned, and not 0.
abbrev refused : Exec ⊥ Answer → Bool
refused (ok a) = elim a.returned [
  | none ↦ false
  | some code ↦ elim (code == 0) [ true ↦ false | false ↦ true ]
]
refused (err e) = false
refused panic = false

abbrev returned_ptr : Exec ⊥ Answer → ℕ → Bool
returned_ptr (ok a) p = elim a.returned [ none ↦ false | some q ↦ q == p ]
returned_ptr (err e) p = false
returned_ptr panic p = false

module _ {M : Type 0} (B : BackingStore M) where
  arena_hands_out_page_aligned_distinct_regions_then_exhausts : Statics M → Bool
  arena_hands_out_page_aligned_distinct_regions_then_exhausts s =
      let a = enter B (Entry.mmap_new 4096 0 0) s in
      let b = enter B (Entry.mmap_new 1 0 0) a.0 in
      let c = enter B (Entry.mmap_new (arena_bytes * 2) 0 0) b.0 in
      page_and_next (granted_at a.1) (granted_at b.1) && refused c.1

  tls_slot_roundtrips : Statics M → Bool
  tls_slot_roundtrips s =
      let set = enter B (Entry.tls_set 0 0xdeadbeef) s in
      returned_ptr (enter B (Entry.tls_get 0) set.0).1 0xdeadbeef

  tls_slot_passes : (s : Statics M) → tls_slot_roundtrips s ≡ true
  unfolding tls_slot_roundtrips
  tls_slot_passes s = refl

first_page : (base n : ℕ) → claim base 4096 0 n ≡ (4096, ok (some (base + 0)))
unfolding claim
first_page base n = claim-fails base 4096 0 n

second_page : (base n : ℕ) → claim base 4096 4096 n ≡ (8192, ok (some (base + 4096)))
unfolding claim
second_page base n = claim-fails base 4096 4096 n

past_the_arena : (base n : ℕ) → claim base 524288 8192 n ≡ (8192, ok none)
unfolding claim
past_the_arena base n = claim-fails base 524288 8192 n

-- The first test passes from a fresh arena on a whole page, with and without overflow checks, however
-- often the exchange fails.
arena_passes :
    (checks : Bool) (base : ℕ) (fails : List ℕ) (memory : ℕ → ℕ) (tls : ℕ)
    → base % 4096 ≡ 0
    → arena_hands_out_page_aligned_distinct_regions_then_exhausts
        (arena_store checks base)
        (record { backing = (0, fails); memory = memory; tls = tls })
      ≡ true
unfolding arena_hands_out_page_aligned_distinct_regions_then_exhausts bump
arena_passes checks base fails memory tls aligned =
    rw
      (
        first_page base (fails_now fails),
        second_page base (fails_now (fails_later fails)),
        past_the_arena base (fails_now (fails_later (fails_later fails))),
      )
      (ground arith)

-- ===== src/Host/Linking.antt =====
-- Link or refuse (`src/host.rs`, `build_linker`), and the clock behind a linked interface.
use lantern_runtime.Base.{
  ℕ, ◌≡◌, refl, ◌∙◌, Option, some, Bool, true, false, not, ◌&&◌, ◌||◌, List, arith,
}
use lantern_runtime.Base.Exec.{ok}
use lantern_runtime.Host.Records.{GrantManifest, MonotonicClock}
use lantern_runtime.Host.Services.{IsLawful, Embedding}
use lantern_runtime.Host.State.{start}
use lantern_runtime.Host.Clock.{now, resolution}
use lantern_runtime.Host.Calls.{GuestCall, run}
use lantern_runtime.Host.Confinement.{run-Confined}
use lantern_runtime.Host.Linker.{
  Interface, same, Linking, LinksOnce, is_some, is_empty, add_if, build_linker,
}

-- What a manifest asks for: the clock if it grants one, a resource interface if it has any slot,
-- declined ones included.
abbrev pub declares : GrantManifest → Interface → Bool
declares m Interface.monotonic_clock = is_some m.monotonic_clock
declares m Interface.keystore = not (is_empty m.keystore_keys)
declares m Interface.filesystem = not (is_empty m.filesystem_files)

combined :
    (m : GrantManifest) (i : Interface) {a b c : Bool}
    → b ≡ ((not (is_empty m.keystore_keys) && same Interface.keystore i) || a)
    → a ≡ ((is_some m.monotonic_clock && same Interface.monotonic_clock i) || c)
    → c ≡ false
    → ((not (is_empty m.filesystem_files) && same Interface.filesystem i) || b) ≡ declares m i
combined m Interface.monotonic_clock p q r = ground arith
combined m Interface.keystore p q r = ground arith
combined m Interface.filesystem p q r = ground arith

module _ {L : Type 0} (R : Linking L) (once : LinksOnce R) where
  add_if_lem :
      (b : Bool) (i : Interface) (l : L)
      → R.linked l i ≡ false
      → (l' : L) × (add_if R b i l ≡ ok l')
        × ((j : Interface) → R.linked l' j ≡ ((b && same i j) || R.linked l j))
  add_if_lem true i l fresh =
      let (l', added) = once.add_fresh i l fresh in (l', added, λ j. once.linked-add i j l l' added)
  add_if_lem false i l fresh = (l, refl, λ j. refl)

  -- With a linker that starts empty and takes each interface once, building the linker of a
  -- manifest succeeds, and links exactly the interfaces that the manifest declares.
  pub build_linker-declares :
      (m : GrantManifest)
      → (l : L) × (build_linker R m ≡ ok l) × ((i : Interface) → R.linked l i ≡ declares m i)
  unfolding build_linker
  build_linker-declares m =
      let (l₁, e₁, h₁) =
        add_if_lem (is_some m.monotonic_clock) Interface.monotonic_clock R.new
          (once.linked-new Interface.monotonic_clock) in
      let (l₂, e₂, h₂) =
        add_if_lem (not (is_empty m.keystore_keys)) Interface.keystore l₁
          (ground (arith, h₁ Interface.keystore, once.linked-new Interface.keystore)) in
      let (l₃, e₃, h₃) = add_if_lem (not (is_empty m.filesystem_files)) Interface.filesystem l₂ (
        ground (
          arith,
          h₁ Interface.filesystem,
          h₂ Interface.filesystem,
          once.linked-new Interface.filesystem,
        )) in
      (l₃, rw (e₁, e₂) e₃, λ i. h₃ i ∙ combined m i (h₂ i) (h₁ i) (once.linked-new i))

-- With a linker that starts empty and takes each interface once, and a lawful table: where the
-- linker of a manifest links the clock, `now` and `resolution` answer from the manifest's clock
-- and never panic, on the state started for that manifest and after any calls of the component.
linked_clock_answers :
    {L Tab K F : Type 0} (R : Linking L) (H : Embedding Tab K F) (m : GrantManifest) (k : Option K)
    (f : Option F)
    → LinksOnce R
    → IsLawful H.table
    → (calls : List GuestCall) (moment : ℕ) {l : L} → build_linker R m ≡ ok l
    → R.linked l Interface.monotonic_clock ≡ true
    → let s = run H calls (start H m k f) in
      (clock : MonotonicClock) × (m.monotonic_clock ≡ some clock)
      × (now moment s ≡ ok (clock.now_ns moment))
      × (resolution s ≡ ok clock.resolution_ns)
unfolding now resolution
linked_clock_answers R H m k f once L calls moment {l} built linked =
    let (l', built', declared) = build_linker-declares R once m in
    let kept = (run-Confined H m k f L calls).same_clock in
    ground (arith, built', declared Interface.monotonic_clock, kept)

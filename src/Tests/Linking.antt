-- ===== src/Tests/Linking.antt =====
-- A linker as a list of interfaces, and the theorems of `src/host.rs`'s link-or-refuse on it.
use lantern_runtime.Base.{◌≡◌, refl, Bool, false, ◌||◌, List, [], ◌∷◌, arith, if◌then◌else◌}
use lantern_runtime.Base.Exec.{ok, err}
use lantern_runtime.Host.State.{wasmtime_error}
use lantern_runtime.Host.Linker.{Interface, same, Linking, LinksOnce, build_linker}
use lantern_runtime.Host.Linking.{declares, build_linker-declares}
use lantern_runtime.Tests.Services.{manifest}

abbrev holds : List Interface → Interface → Bool
holds [] i = false
holds (j ∷ l) i = same j i || holds l i

abbrev pub linking : Linking (List Interface)
linking = record {
  new = [];
  add_to_linker = λ i l. if holds l i then err wasmtime_error else ok (i ∷ l);
  linked = holds;
}

pub linking-LinksOnce : LinksOnce linking
linking-LinksOnce = record {
  linked-new = λ i. refl;
  add_fresh = λ i l fresh. (i ∷ l, rw fresh);
  linked-add = λ i j l l' added. ground arith;
}

abbrev built : List Interface
built = Interface.filesystem ∷ Interface.keystore ∷ Interface.monotonic_clock ∷ []

build_linker-declares_example :
    (l : List Interface) × (build_linker linking manifest ≡ ok l)
    × ((i : Interface) → holds l i ≡ declares manifest i)
build_linker-declares_example = build_linker-declares linking linking-LinksOnce manifest

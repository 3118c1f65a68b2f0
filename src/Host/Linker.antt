-- ===== src/Host/Linker.antt =====
-- `build_linker` of `src/host.rs`: an interface is linked, or left out.
use lantern_runtime.Base.{◌≡◌, Option, none, some, Bool, true, false, not, ◌||◌, List, [], ◌∷◌}
use lantern_runtime.Base.Exec.{Exec, ok}
use lantern_runtime.Base.Chain.{◌>>=◌}
use lantern_runtime.Host.Records.{GrantManifest}
use lantern_runtime.Host.State.{WasmtimeError}

-- The interfaces of `wit/host.wit`.
pub data Interface : Type 0 where
  monotonic_clock keystore filesystem : Interface

abbrev pub same : Interface → Interface → Bool
same Interface.monotonic_clock Interface.monotonic_clock = true
same Interface.keystore Interface.keystore = true
same Interface.filesystem Interface.filesystem = true
same _ _ = false

-- Wasmtime's `Linker`, with the generated `add_to_linker` functions.
pub record Linking (L : Type 0) : Type 0 where
  pub new : L
  pub add_to_linker : Interface → L → Exec WasmtimeError L
  pub linked : L → Interface → Bool

-- A linker starts empty, and takes an interface that it does not hold yet.
pub record LinksOnce {L : Type 0} (R : Linking L) : Type 0 where
  pub linked-new : (i : Interface) → R.linked R.new i ≡ false
  pub add_fresh :
      (i : Interface) (l : L) → R.linked l i ≡ false → (l' : L) × (R.add_to_linker i l ≡ ok l')
  pub linked-add :
      (i j : Interface) (l l' : L)
      → R.add_to_linker i l ≡ ok l'
      → R.linked l' j ≡ (same i j || R.linked l j)

abbrev pub is_some {ℓ} : {A : Type ℓ} → Option A → Bool
is_some none = false
is_some (some _) = true

abbrev pub is_empty {ℓ} : {A : Type ℓ} → List A → Bool
is_empty [] = true
is_empty (_ ∷ _) = false

module _ {L : Type 0} (R : Linking L) where
  abbrev pub add_if : Bool → Interface → L → Exec WasmtimeError L
  add_if true i l = R.add_to_linker i l
  add_if false i l = ok l

  unfoldable pub build_linker : GrantManifest → Exec WasmtimeError L
  build_linker manifest = do
    clocked ← add_if (is_some manifest.monotonic_clock) Interface.monotonic_clock R.new
    keyed ← add_if (not (is_empty manifest.keystore_keys)) Interface.keystore clocked
    add_if (not (is_empty manifest.filesystem_files)) Interface.filesystem keyed

-- ===== src/Artifact/RoleTests.antt =====
-- `mod tests` of `src/compiler.rs`: what each test comes to, and when it passes.
use lantern_runtime.Base.{
  ℕ, ◌≡◌, refl, Option, none, some, Bool, true, false, List, [], ◌∷◌, ◌++◌, ◌==◌, ◌&&◌,
}
use lantern_runtime.Base.Exec.{Exec, ok, err}
use lantern_runtime.Confined.Text.{codes}
use lantern_runtime.Artifact.Roles.{
  Signing, Engines, pulley_config, runtime_engine, compiler_engine, component_import_names,
  deserialize_trusted_component, load_verified_component, precompile_and_sign,
}
use lantern_runtime.Artifact.Trust.{SignsTruly, LoadsOwn, engines-agree}
use lantern_runtime.Artifact.SelfTests.{unwrapped}
use lantern_runtime.Guests.FileProbe.{same_bytes}
use lantern_runtime.Confined.Probe.{default_fuel}

-- `WAT`
abbrev wat : List ℕ
wat =
    codes "\n"
    ++ codes "        (component\n"
    ++ codes "          (core module $m\n"
    ++ codes "            (func (export \"run\") (result i32) i32.const 42))\n"
    ++ codes "          (core instance $i (instantiate $m))\n"
    ++ codes "          (func (export \"run\") (result s32) (canon lift (core func $i \"run\"))))\n"
    ++ codes "    "

-- `IMPORTER`, which imports one interface.
abbrev importer : List ℕ
importer =
    codes "\n"
    ++ codes "            (component\n"
    ++ codes "              (import \"lantern:host/monotonic-clock@0.1.0\" (instance $c\n"
    ++ codes "                (export \"now\" (func (result u64)))))\n"
    ++ codes "              (core func $now (canon lower (func $c \"now\")))\n"
    ++ codes "              (core module $m (import \"\" \"now\" (func (result i64)))\n"
    ++ codes "                (func (export \"run\") (result i64) call 0))\n"
    ++ codes
        "              (core instance $i (instantiate $m (with \"\" (instance (export \"now\" (func $now))))))\n"
    ++ codes
        "              (func (export \"run\") (result u64) (canon lift (core func $i \"run\"))))\n"
    ++ codes "        "

-- `b"not wasm"`
abbrev not_wasm : List ℕ
not_wasm = codes "not wasm"

abbrev monotonic_clock : List ℕ
monotonic_clock = codes "lantern:host/monotonic-clock@0.1.0"

abbrev is_err : {Error A : Type 0} → Exec Error A → Bool
is_err (err e) = true
is_err _ = false

-- `assert_eq!(names, […])` with one name expected.
abbrev are_only : List ℕ → List (List ℕ) → Bool
are_only expected (name ∷ []) = same_bytes name expected
are_only expected _ = false

-- `assert_eq!(result, 42)`
abbrev is_42 : Option ℕ → Bool
is_42 (some result) = result == 42
is_42 none = false

module _ {W Eng Comp Error : Type 0} (G : Engines W Eng Comp Error) where
  component_import_names_lists_a_components_imports : Bool
  component_import_names_lists_a_components_imports = unwrapped (compiler_engine G) λ compiler.
      unwrapped (component_import_names G compiler importer) (are_only monotonic_clock)
      && is_err (component_import_names G compiler not_wasm)

  -- The first passes where an engine can be made that reads one interface's name out of the text, and
  -- refuses bytes that are no component.
  component_import_names_passes :
      (compiler : Eng) (component : Comp) (kind : ℕ) (e : Error)
      → compiler_engine G ≡ ok compiler
      → G.new_component compiler importer ≡ ok component
      → G.imports compiler component ≡ ((monotonic_clock, kind) ∷ [])
      → G.new_component compiler not_wasm ≡ err e
      → component_import_names_lists_a_components_imports ≡ true
  unfolding component_import_names_lists_a_components_imports component_import_names same_bytes
  component_import_names_passes compiler component kind e made reads named refused =
      rw (made, reads, named, refused) refl

  module _ {Key : Type 0} (C : Signing Key) (call_run : Eng → Comp → ℕ → Option ℕ) where
    -- `call_run` makes a store with the fuel, instantiates the component with an empty linker and calls
    -- its export `run`. The key and the world are what the test is run with.
    round_trips_through_compile_sign_verify_deserialize_run : Key → W → Bool
    round_trips_through_compile_sign_verify_deserialize_run key w =
        unwrapped (compiler_engine G) λ compiler.
          unwrapped (precompile_and_sign G C compiler wat key) λ artifact.
            unwrapped (runtime_engine G) λ runtime.
              unwrapped
                (load_verified_component G C runtime artifact.0 (C.verifying_key key) artifact.1
                  w).1
                (λ component. is_42 (call_run runtime component default_fuel))

    loads_compiled :
        LoadsOwn G
        → (w : W) (compiler runtime : Eng) (wasm cwasm : List ℕ) → compiler_engine G ≡ ok compiler
        → runtime_engine G ≡ ok runtime
        → G.precompile_component compiler wasm ≡ ok cwasm
        → (component : Comp) × ((G.deserialize runtime cwasm w).1 ≡ ok component)
    unfolding runtime_engine compiler_engine
    loads_compiled loads w compiler runtime wasm cwasm c r compiled =
        let (config, one, other) = engines-agree G C (pulley_config G) compiler runtime c r in
        loads.deserialize-precompile config compiler runtime wasm cwasm w one other compiled

    -- The second passes for signatures that verify and engines that load what one of the same
    -- configuration compiled, where the engines can be made, the text compiles, and what it compiles to
    -- loads as components whose `run` gives 42.
    round_trips_passes :
        SignsTruly C
        → LoadsOwn G
        → (key : Key) (w : W) (compiler runtime : Eng) (cwasm : List ℕ)
        → compiler_engine G ≡ ok compiler
        → runtime_engine G ≡ ok runtime
        → G.precompile_component compiler wat ≡ ok cwasm
        → ((component : Comp)
            → (G.deserialize runtime cwasm w).1 ≡ ok component
            → call_run runtime component default_fuel ≡ some 42)
        → round_trips_through_compile_sign_verify_deserialize_run key w ≡ true
    unfolding round_trips_through_compile_sign_verify_deserialize_run precompile_and_sign
        load_verified_component deserialize_trusted_component
    round_trips_passes signs loads key w compiler runtime cwasm c r compiled runs =
        let (component, loaded) = loads_compiled loads w compiler runtime wat cwasm c r compiled in
        rw (c, compiled, r, signs.verify-sign key cwasm, loaded, runs component loaded) refl

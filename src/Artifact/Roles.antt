-- ===== src/Artifact/Roles.antt =====
-- The runtime role (`src/verified.rs`) and the compiler role (`src/compiler.rs`), over the signatures
-- of `lantern_crypto` and over Wasmtime.
use lantern_runtime.Base.{ℕ, ◌*◌, Option, Bool, true, false, List, [], ◌∷◌, map, if◌then◌else◌}
use lantern_runtime.Base.Exec.{Exec, ok, err, panic, map_err, expect, Call, lift, ◌>>◌}

-- `lantern_crypto::signing`: `verify` takes the key, the bytes and the signature.
pub record Signing (Key : Type 0) : Type 0 where
  pub verify : List ℕ → List ℕ → List ℕ → Bool
  pub sign : Key → List ℕ → List ℕ
  pub verifying_key : Key → List ℕ

-- A `Config` of Wasmtime, by the calls that set it up, the first one first.
pub data Setting : Type 0 where
  wasm_component_model consume_fuel : Bool → Setting
  target : List ℕ → Setting
  memory_reservation memory_guard_size memory_reservation_for_growth : ℕ → Setting

abbrev pub Config : Type 0
Config = List Setting

-- Wasmtime's engines, components and errors. `target` is refused where it names no target.
pub record Engines (W Eng Comp Error : Type 0) : Type 0 where
  pub is_target : List ℕ → Bool
  pub new_engine : Config → Option Eng
  pub deserialize : Eng → List ℕ → Call W Error Comp
  pub precompile_component : Eng → List ℕ → Exec Error (List ℕ)
  pub new_component : Eng → List ℕ → Exec Error Comp
  pub imports : Eng → Comp → List (List ℕ × ℕ)

pub data LoadError (Error : Type 0) : Type 0 where
  bad_signature : LoadError Error
  deserialize : Error → LoadError Error

pub data CompileError (Error : Type 0) : Type 0 where
  wasmtime : Error → CompileError Error

abbrev pub reservation : ℕ
reservation = 4 * 1024 * 1024

-- "pulley64"
abbrev pub pulley64 : List ℕ
pulley64 = 112 ∷ 117 ∷ 108 ∷ 108 ∷ 101 ∷ 121 ∷ 54 ∷ 52 ∷ []

module _ {W Eng Comp Error : Type 0} (G : Engines W Eng Comp Error) where
  -- `config.target(…).expect(…)`
  abbrev pub set_target : List ℕ → Exec ⊥ Setting
  set_target name = if G.is_target name then ok (Setting.target name) else panic

  abbrev pub config_for : Exec ⊥ Setting → Exec ⊥ Config
  config_for (ok setting) = ok (
      Setting.wasm_component_model true
      ∷ setting
      ∷ Setting.consume_fuel true
      ∷ Setting.memory_reservation reservation
      ∷ Setting.memory_guard_size 0
      ∷ Setting.memory_reservation_for_growth reservation
      ∷ [])
  config_for (err e) = err e
  config_for panic = panic

  unfoldable pub pulley_config : Exec ⊥ Config
  pulley_config = config_for (set_target pulley64)

  -- `Engine::new(&pulley_config()).expect(…)`
  abbrev pub engine_for : Exec ⊥ Config → Exec ⊥ Eng
  engine_for (ok config) = expect (G.new_engine config)
  engine_for (err e) = err e
  engine_for panic = panic

  unfoldable pub runtime_engine : Exec ⊥ Eng
  runtime_engine = engine_for pulley_config

  unfoldable pub compiler_engine : Exec ⊥ Eng
  compiler_engine = engine_for pulley_config

  unfoldable pub deserialize_trusted_component : Eng → List ℕ → Call W (LoadError Error) Comp
  deserialize_trusted_component engine cwasm w = (
    (G.deserialize engine cwasm w).0,
    map_err LoadError.deserialize (G.deserialize engine cwasm w).1,
  )

  unfoldable pub component_import_names : Eng → List ℕ → Exec (CompileError Error) (List (List ℕ))
  component_import_names engine wasm =
      names (map_err CompileError.wasmtime (G.new_component engine wasm))
    where
      names : Exec (CompileError Error) Comp → Exec (CompileError Error) (List (List ℕ))
      names (ok component) = ok (map (λ (i : List ℕ × ℕ). i.0) (G.imports engine component))
      names (err e) = err e
      names panic = panic

  module _ {Key : Type 0} (C : Signing Key) where
    abbrev pub check_signature : Bool → Exec (LoadError Error) (Unit {0})
    check_signature true = ok tt
    check_signature false = err LoadError.bad_signature

    unfoldable pub load_verified_component :
        Eng → List ℕ → List ℕ → List ℕ → Call W (LoadError Error) Comp
    load_verified_component engine cwasm public_key signature = do
      lift (check_signature (C.verify public_key cwasm signature))
      deserialize_trusted_component engine cwasm

    abbrev pub with_signature :
        Key → Exec (CompileError Error) (List ℕ) → Exec (CompileError Error) (List ℕ × List ℕ)
    with_signature key (ok cwasm) = ok (cwasm, C.sign key cwasm)
    with_signature key (err e) = err e
    with_signature key panic = panic

    unfoldable pub precompile_and_sign :
        Eng → List ℕ → Key → Exec (CompileError Error) (List ℕ × List ℕ)
    precompile_and_sign engine wasm key =
        with_signature key (map_err CompileError.wasmtime (G.precompile_component engine wasm))

-- ===== src/Probe/Program.antt =====
-- `riscv64-probe/src/lib.rs` and `main.rs`: an embedded component is run, and its answer signalled. The
-- bytes of `ANSWER_CWASM` are a parameter, as is Wasmtime; an `i32` is its bit pattern.
use lantern_runtime.Base.{
  ℕ, Option, none, some, Bool, true, false, List, [], ◌∷◌, ◌==◌, if◌then◌else◌,
}
use lantern_runtime.Base.Exec.{Exec, ok, err, panic, map_err, ok_or, Call, lift, ◌>>=◌, ◌>>◌}
use lantern_runtime.Host.State.{WasmtimeError, wasmtime_error}
use lantern_runtime.Artifact.Roles.{Setting, Config, Engines, set_target, pulley64}
use lantern_runtime.Confined.System.{System}

-- What Wasmtime does with a component once it is there: `Store::new`, `Linker::new`, `instantiate`, and the
-- export `run`, looked up and called.
pub record Runner (W Eng Comp Link Ins Run Error : Type 0) : Type 0 where
  pub new_store : Eng → W → W
  pub new_linker : Eng → Link
  pub instantiate : Link → Comp → Call W Error Ins
  pub get_run : Ins → Call W Error Run
  pub call_run : Run → Call W Error ℕ

abbrev pub success_cptr : ℕ
success_cptr = 4

abbrev pub failure_cptr : ℕ
failure_cptr = 5

abbrev pub heap_base : ℕ
heap_base = 0x86200000

abbrev pub heap_len : ℕ
heap_len = 0x200000

-- The `?` on a `wasmtime::Result`, of which the error is never looked into.
abbrev pub attempt : {W Error A : Type 0} → Call W Error A → Call W WasmtimeError A
attempt m w = ((m w).0, map_err (λ _. wasmtime_error) (m w).1)

-- A call that cannot return an error.
abbrev pub never_fails : {A : Type 0} → Exec ⊥ A → Exec WasmtimeError A
never_fails = map_err absurd

abbrev pub answers_42 : Exec WasmtimeError ℕ → Bool
answers_42 (ok n) = n == 42
answers_42 _ = false

-- The signal that ends the program, its own outcome ignored.
abbrev pub finish : {W : Type 0} → System W → Option ℕ → W → W
finish S none w = w
finish S (some cptr) w = (S.signal cptr w).0

module _ {W Eng Comp Link Ins Run Error : Type 0} (G : Engines W Eng Comp Error)
    (X : Runner W Eng Comp Link Ins Run Error) where
  abbrev pub config_with : Exec ⊥ Setting → Exec ⊥ Config
  config_with (ok setting) = ok (Setting.wasm_component_model true ∷ setting ∷ [])
  config_with (err e) = err e
  config_with panic = panic

  unfoldable pub pulley_config : Exec ⊥ Config
  pulley_config = config_with (set_target G pulley64)

  abbrev pub open_store : Eng → Call W WasmtimeError (Unit {0})
  open_store engine w = (X.new_store engine w, ok tt)

  unfoldable pub run_instance : Ins → Call W WasmtimeError ℕ
  run_instance instance' = do run ← attempt (X.get_run instance'); attempt (X.call_run run)

  unfoldable pub run_component : Eng → Comp → Call W WasmtimeError ℕ
  run_component engine component = do
    open_store engine
    instance' ← attempt (X.instantiate (X.new_linker engine) component)
    run_instance instance'

  unfoldable pub run_on : List ℕ → Eng → Call W WasmtimeError ℕ
  run_on answer_cwasm engine = do
    component ← attempt (G.deserialize engine answer_cwasm)
    run_component engine component

  unfoldable pub make_engine : Exec WasmtimeError Config → Exec WasmtimeError Eng
  make_engine (ok config) = ok_or (G.new_engine config) wasmtime_error
  make_engine (err e) = err e
  make_engine panic = panic

  unfoldable pub run_embedded_answer : List ℕ → Call W WasmtimeError ℕ
  run_embedded_answer answer_cwasm = do
    engine ← lift (make_engine (never_fails pulley_config))
    run_on answer_cwasm engine

  -- The slot that an outcome is signalled on; none on a panic, which `report_panics_via` reports.
  unfoldable pub signalled : Exec WasmtimeError ℕ → Option ℕ
  signalled panic = none
  signalled r = some (if answers_42 r then success_cptr else failure_cptr)

  -- The argument is not used; the loop at the end of the program changes nothing.
  unfoldable pub run : System W → List ℕ → ℕ → W → W
  run S answer_cwasm arg0 w =
      let r =
        run_embedded_answer answer_cwasm
          (S.report_panics_via failure_cptr (S.init_heap heap_base heap_len w)) in
      finish S (signalled r.1) r.0

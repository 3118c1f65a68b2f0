-- ===== src/Probe/Outcome.antt =====
-- When `riscv64-probe` signals success.
use lantern_runtime.Base.{
  ℕ, ◌≡◌, ◌≢◌, ◌⊎◌, inl, inr, refl, ap, none, some, true, List, [], ◌∷◌, ◌==◌, arith, Bool-cases,
}
use lantern_runtime.Base.Exec.{Exec, ok, err, panic, lift}
use lantern_runtime.Host.State.{WasmtimeError}
use lantern_runtime.Artifact.Roles.{Setting, Engines, pulley64}
use lantern_runtime.Confined.System.{System}
use lantern_runtime.Confined.Chains.{bind-ok, map_err-ok, ok_or-ok}
use lantern_runtime.Probe.Program.{
  Runner, success_cptr, failure_cptr, heap_base, heap_len, never_fails, pulley_config, attempt,
  make_engine, run_instance, run_component, run_on, run_embedded_answer, signalled, finish, run,
}

never_fails-ok : {A : Type 0} (r : Exec ⊥ A) (a : A) → never_fails r ≡ ok a → r ≡ ok a
never_fails-ok (ok _) a h = ground arith
never_fails-ok (err e) a h = absurd e
never_fails-ok panic a h = cc

module _ {W Eng Comp Link Ins Run Error : Type 0} (G : Engines W Eng Comp Error)
    (X : Runner W Eng Comp Link Ins Run Error) where
  -- Every step of the embedded component's run succeeds, and it answers `n`.
  abbrev pub Answers : List ℕ → W → ℕ → Type 0
  Answers answer_cwasm w n =
      (engine : Eng) × (component : Comp) × (instance' : Ins) × (export : Run) × (let loaded =
          G.deserialize engine answer_cwasm w in
        let made = X.instantiate (X.new_linker engine) component (X.new_store engine loaded.0) in
        let found = X.get_run instance' made.0 in
        (G.is_target pulley64 ≡ true)
        × (G.new_engine (Setting.wasm_component_model true ∷ Setting.target pulley64 ∷ [])
            ≡ some engine)
        × (loaded.1 ≡ ok component)
        × (made.1 ≡ ok instance')
        × (found.1 ≡ ok export)
        × ((X.call_run export found.0).1 ≡ ok n))

  make_engine-ok :
      (engine : Eng)
      → make_engine G X (never_fails (pulley_config G X)) ≡ ok engine
      → (G.is_target pulley64 ≡ true)
        × (G.new_engine (Setting.wasm_component_model true ∷ Setting.target pulley64 ∷ [])
            ≡ some engine)
  unfolding pulley_config make_engine
  make_engine-ok engine h = elim (Bool-cases (G.is_target pulley64)) [
    | inl named ↦ (named, ok_or-ok _ _ engine (rw named at h))
    | inr unnamed ↦ ground (arith, unnamed)
  ]

  run_instance-ok :
      (instance' : Ins) (w : W) (n : ℕ)
      → (run_instance G X instance' w).1 ≡ ok n
      → (export : Run) × ((X.get_run instance' w).1 ≡ ok export)
        × ((X.call_run export (X.get_run instance' w).0).1 ≡ ok n)
  unfolding run_instance
  run_instance-ok instance' w n h =
      let (export, found, h') =
        bind-ok (attempt (X.get_run instance')) (λ run. attempt (X.call_run run)) w n h in
      (export, map_err-ok _ _ export found, map_err-ok _ _ n h')

  run_embedded_answer-Answers :
      (answer_cwasm : List ℕ) (w : W) (n : ℕ)
      → (run_embedded_answer G X answer_cwasm w).1 ≡ ok n
      → Answers answer_cwasm w n
  unfolding run_embedded_answer run_on run_component
  run_embedded_answer-Answers answer_cwasm w n h =
      let (engine, made, h₁) =
        bind-ok (lift (make_engine G X (never_fails (pulley_config G X)))) (run_on G X answer_cwasm)
          w n h in
      let (component, loaded, h₂) =
        bind-ok (attempt (G.deserialize engine answer_cwasm)) (run_component G X engine) w n h₁ in
      let (instance', linked, h₃) =
        bind-ok (attempt (X.instantiate (X.new_linker engine) component)) (run_instance G X)
          (X.new_store engine (G.deserialize engine answer_cwasm w).0) n h₂ in
      let (export, found, answered) = run_instance-ok instance' _ n h₃ in
      let (named, created) = make_engine-ok engine made in
      (
        engine,
        component,
        instance',
        export,
        (
          named,
          created,
          map_err-ok _ _ component loaded,
          map_err-ok _ _ instance' linked,
          found,
          answered,
        ),
      )

  outcome :
      (r : Exec WasmtimeError ℕ)
      → ((r ≡ ok 42) × (signalled G X r ≡ some success_cptr))
        ⊎ ((r ≢ ok 42) × (r ≢ panic) × (signalled G X r ≡ some failure_cptr))
        ⊎ ((r ≡ panic) × (signalled G X r ≡ none))
  unfolding signalled
  outcome (ok n) = elim (Bool-cases (n == 42)) [
    | inl same ↦ inl (ground arith, rw same refl)
    | inr differ ↦ inr (inl (ground arith, (λ e. cc), rw differ refl))
  ]
  outcome (err e) = inr (inl ((λ e. cc), (λ e. cc), refl))
  outcome panic = inr (inr (refl, refl))

  -- The program ends in one of three ways. It signals its success slot, and then every step of the
  -- embedded component's run succeeded and it answered 42; it signals its failure slot, on any other
  -- answer and on any error; or the run panicked, and it signals nothing of its own.
  pub run-cases :
      (S : System W) (answer_cwasm : List ℕ) (arg0 : ℕ) (w : W)
      → let started = S.report_panics_via failure_cptr (S.init_heap heap_base heap_len w) in
        let r = run_embedded_answer G X answer_cwasm started in
        (Answers answer_cwasm started 42
          × (run G X S answer_cwasm arg0 w ≡ (S.signal success_cptr r.0).0))
        ⊎ ((r.1 ≢ ok 42)
            × (r.1 ≢ panic)
            × (run G X S answer_cwasm arg0 w ≡ (S.signal failure_cptr r.0).0))
        ⊎ ((r.1 ≡ panic) × (run G X S answer_cwasm arg0 w ≡ r.0))
  unfolding run
  run-cases S answer_cwasm arg0 w =
      let started = S.report_panics_via failure_cptr (S.init_heap heap_base heap_len w) in
      let r = run_embedded_answer G X answer_cwasm started in
      elim (outcome r.1) [
        | inl (answered, e) ↦ inl (
          run_embedded_answer-Answers answer_cwasm started 42 answered,
          ap (λ o. finish S o r.0) e,
        )
        | inr (inl (other, ends, e)) ↦ inr (inl (other, ends, ap (λ o. finish S o r.0) e))
        | inr (inr (panics, e)) ↦ inr (inr (panics, ap (λ o. finish S o r.0) e))
      ]

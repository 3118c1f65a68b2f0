-- ===== src/Tests/Probe.antt =====
-- `riscv64-probe` on an engine that loads what stands after a mark.
use lantern_runtime.Base.{ℕ, ◌≡◌, ◌≢◌, ◌⊎◌, refl, List, [], ◌∷◌}
use lantern_runtime.Base.Exec.{Exec, ok, err, panic}
use lantern_runtime.Artifact.Roles.{Config}
use lantern_runtime.Probe.Program.{Runner, success_cptr, failure_cptr, run_embedded_answer, run}
use lantern_runtime.Probe.Program
use lantern_runtime.Probe.Outcome.{Answers, run-cases}
use lantern_runtime.Tests.Artifact.{engines}
use lantern_runtime.Tests.Confined.{system}

-- The component answers its first byte.
abbrev first_byte : List ℕ → Exec ℕ ℕ
first_byte [] = err 2
first_byte (b ∷ bs) = ok b

abbrev runner : Runner ℕ Config (List ℕ) ℕ (List ℕ) (List ℕ) ℕ
runner = record {
  new_store = λ engine w. w;
  new_linker = λ engine. 0;
  instantiate = λ l component w. (w, ok component);
  get_run = λ instance' w. (w, ok instance');
  call_run = λ export w. (w, first_byte export);
}

run-cases_example :
    let r = run_embedded_answer engines runner (64 ∷ 42 ∷ []) 0 in
    (Answers engines runner (64 ∷ 42 ∷ []) 0 42
      × (run engines runner system (64 ∷ 42 ∷ []) 0 0 ≡ (system.signal success_cptr r.0).0))
    ⊎ ((r.1 ≢ ok 42)
        × (r.1 ≢ panic)
        × (run engines runner system (64 ∷ 42 ∷ []) 0 0 ≡ (system.signal failure_cptr r.0).0))
    ⊎ ((r.1 ≡ panic) × (run engines runner system (64 ∷ 42 ∷ []) 0 0 ≡ r.0))
run-cases_example = run-cases engines runner system (64 ∷ 42 ∷ []) 0 0

answered : (run_embedded_answer engines runner (64 ∷ 42 ∷ []) 0).1 ≡ ok 42
unfolding run_embedded_answer Program.make_engine Program.pulley_config Program.run_on
    Program.run_component Program.run_instance
answered = refl

-- ===== src/Artifact/Fixture.antt =====
-- `examples/precompile.rs`: the generator of a fixture, and that the runtime role loads what it wrote.
use lantern_runtime.Base.{ℕ, ◌≡◌, List, [], ◌∷◌, arith}
use lantern_runtime.Base.Exec.{Exec, ok, err, panic, map_err, Call, lift, raise, ◌>>=◌}
use lantern_runtime.Confined.Text.{Text}
use lantern_runtime.Confined.Chains.{bind-ok}
use lantern_runtime.Artifact.Roles.{
  Signing, Engines, compiler_engine, runtime_engine, pulley_config,
}
use lantern_runtime.Artifact.Trust.{LoadsOwn, engines-agree}

-- `std::fs`: what is read and written by its path.
pub record FileSystem (W : Type 0) : Type 0 where
  pub read : Text → Call W (Unit {0}) (List ℕ)
  pub write : Text → List ℕ → Call W (Unit {0}) (Unit {0})

-- `std::process::exit(2)`
pub data Usage : Type 0 where
  usage : Usage

-- `expect` on a `Result`.
abbrev pub expect_ok : {E A : Type 0} → Exec E A → Exec Usage A
expect_ok (ok a) = ok a
expect_ok _ = panic

-- A call that cannot return an error.
abbrev pub never_fails : {A : Type 0} → Exec ⊥ A → Exec Usage A
never_fails = map_err absurd

abbrev pub expecting : {W E A : Type 0} → Call W E A → Call W Usage A
expecting m w = ((m w).0, expect_ok (m w).1)

module _ {W Eng Comp Error : Type 0} (G : Engines W Eng Comp Error) (D : FileSystem W) where
  unfoldable pub precompile : Text → List ℕ → Call W Usage (Unit {0})
  precompile output wasm = do
    engine ← lift (never_fails (compiler_engine G))
    cwasm ← lift (expect_ok (G.precompile_component engine wasm))
    expecting (D.write output cwasm)

  -- The arguments, the program's name first. What is printed is left out.
  unfoldable pub main : List Text → Call W Usage (Unit {0})
  main (_ ∷ input ∷ output ∷ []) = do wasm ← expecting (D.read input); precompile output wasm
  main _ = raise Usage.usage

expect_ok-ok : {E A : Type 0} (r : Exec E A) (a : A) → expect_ok r ≡ ok a → r ≡ ok a
expect_ok-ok (ok _) a h = ground arith
expect_ok-ok (err e) a h = cc
expect_ok-ok panic a h = cc

never_fails-ok : {A : Type 0} (r : Exec ⊥ A) (a : A) → never_fails r ≡ ok a → r ≡ ok a
never_fails-ok (ok _) a h = ground arith
never_fails-ok (err e) a h = absurd e
never_fails-ok panic a h = cc

module _ {W Eng Comp Error Key : Type 0} (G : Engines W Eng Comp Error) (C : Signing Key)
    (D : FileSystem W) where
  precompile-writes :
      (loads : LoadsOwn G) (runtime : Eng) (output : Text) (wasm : List ℕ) (w : W)
      → runtime_engine G ≡ ok runtime
      → (precompile G D output wasm w).1 ≡ ok tt
      → (cwasm : List ℕ) × ((precompile G D output wasm w).0 ≡ (D.write output cwasm w).0)
        × ((w' : W) → (component : Comp) × ((G.deserialize runtime cwasm w').1 ≡ ok component))
  unfolding precompile compiler_engine runtime_engine
  precompile-writes loads runtime output wasm w runs h =
      let (engine, made, h₁) =
        bind-ok (lift (never_fails (compiler_engine G)))
          (λ engine. lift (expect_ok (G.precompile_component engine wasm)) >>= λ cwasm.
            expecting (D.write output cwasm))
          w tt h in
      let (cwasm, compiled, h₂) =
        bind-ok (lift (expect_ok (G.precompile_component engine wasm)))
          (λ cwasm. expecting (D.write output cwasm)) w tt h₁ in
      let (config, c, r) =
        engines-agree G C (pulley_config G) engine runtime (never_fails-ok _ engine made) runs in
      let exact = expect_ok-ok (G.precompile_component engine wasm) cwasm compiled in
      (
        cwasm,
        ground (arith, made, compiled),
        λ w'. loads.deserialize-precompile config engine runtime wasm cwasm w' c r exact,
      )

  -- A run of the generator on two paths that ends well wrote, to the second, an artifact of the component
  -- at the first, and the runtime role's engine loads what was written, if an engine loads what one of the
  -- same configuration compiled.
  fixture-loads :
      LoadsOwn G
      → (runtime : Eng) (name input output : Text) (w : W) → runtime_engine G ≡ ok runtime
      → (main G D (name ∷ input ∷ output ∷ []) w).1 ≡ ok tt
      → (wasm : List ℕ) × (cwasm : List ℕ) × (let found = D.read input w in
          (found.1 ≡ ok wasm)
          × ((main G D (name ∷ input ∷ output ∷ []) w).0 ≡ (D.write output cwasm found.0).0)
          × ((w' : W) → (component : Comp) × ((G.deserialize runtime cwasm w').1 ≡ ok component)))
  unfolding main
  fixture-loads loads runtime name input output w runs h =
      let (wasm, found, h') = bind-ok (expecting (D.read input)) (precompile G D output) w tt h in
      let (cwasm, written, loaded) =
        precompile-writes loads runtime output wasm (D.read input w).0 runs h' in
      (wasm, cwasm, (expect_ok-ok _ wasm found, ground (arith, found, written), loaded))

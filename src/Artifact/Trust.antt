-- ===== src/Artifact/Trust.antt =====
-- What the two roles of an artifact owe each other (`src/verified.rs`, `src/compiler.rs`).
use lantern_runtime.Base.{
  ℕ, ◌≡◌, ◌⊎◌, inl, inr, some, true, false, List, arith, Bool-cases, Option-cases,
}
use lantern_runtime.Base.Exec.{Exec, ok, err, panic, map_err}
use lantern_runtime.Artifact.Roles.{
  Signing, Config, Engines, LoadError, CompileError, pulley_config, engine_for, runtime_engine,
  compiler_engine, deserialize_trusted_component, load_verified_component, precompile_and_sign,
  with_signature,
}

-- A signature made with a key verifies under that key's public half.
pub record SignsTruly {Key : Type 0} (C : Signing Key) : Type 0 where
  pub verify-sign :
      (key : Key) (bytes : List ℕ) → C.verify (C.verifying_key key) bytes (C.sign key bytes) ≡ true

-- What an engine compiled, an engine of the same configuration loads.
pub record LoadsOwn {W Eng Comp Error : Type 0} (G : Engines W Eng Comp Error) : Type 0 where
  pub deserialize-precompile :
      (config : Config) (compiler runtime : Eng) (wasm cwasm : List ℕ) (w : W)
      → G.new_engine config ≡ some compiler
      → G.new_engine config ≡ some runtime
      → G.precompile_component compiler wasm ≡ ok cwasm
      → (component : Comp) × ((G.deserialize runtime cwasm w).1 ≡ ok component)

module _ {W Eng Comp Error Key : Type 0} (G : Engines W Eng Comp Error) (C : Signing Key) where
  -- With a signature that does not verify, loading fails and nothing is deserialized; with one that
  -- does, exactly the bytes it is over are deserialized, and a failure of that is told apart.
  load-cases :
      (engine : Eng) (cwasm public_key signature : List ℕ) (w : W)
      → ((C.verify public_key cwasm signature ≡ false)
          × (load_verified_component G C engine cwasm public_key signature w
              ≡ (w, err LoadError.bad_signature)))
        ⊎ ((C.verify public_key cwasm signature ≡ true)
            × (load_verified_component G C engine cwasm public_key signature w ≡ (
              (G.deserialize engine cwasm w).0,
              map_err LoadError.deserialize (G.deserialize engine cwasm w).1,
            )))
  unfolding load_verified_component deserialize_trusted_component
  load-cases engine cwasm public_key signature w =
      elim (Bool-cases (C.verify public_key cwasm signature)) [
        | inl signed ↦ inr (signed, ground arith)
        | inr unsigned ↦ inl (unsigned, ground arith)
      ]

  pub engines-agree :
      (made : Exec ⊥ Config) (compiler runtime : Eng)
      → engine_for G made ≡ ok compiler
      → engine_for G made ≡ ok runtime
      → (config : Config) × (G.new_engine config ≡ some compiler)
        × (G.new_engine config ≡ some runtime)
  engines-agree (ok config) compiler runtime c r = elim (Option-cases (G.new_engine config)) [
    | inl bad ↦ ground arith
    | inr (e, made) ↦ (config, ground (arith, made), ground (arith, made))
  ]
  engines-agree (err e) compiler runtime c r = absurd e
  engines-agree panic compiler runtime c r = ground arith

  with_signature-parts :
      (key : Key) (r : Exec Error (List ℕ)) (cwasm signature : List ℕ)
      → with_signature G C key (map_err CompileError.wasmtime r) ≡ ok (cwasm, signature)
      → (r ≡ ok cwasm) × (signature ≡ C.sign key cwasm)
  with_signature-parts key (ok bytes) cwasm signature e = (ground arith, ground arith)
  with_signature-parts key (err x) cwasm signature e = ground arith
  with_signature-parts key panic cwasm signature e = ground arith

  -- What the compiler role's engine compiles and a key signs, the runtime role's engine loads under that
  -- key's public half, for signatures that verify and engines that load what one of the same
  -- configuration compiled.
  pub load-precompile :
      SignsTruly C
      → LoadsOwn G
      → (compiler runtime : Eng) (wasm cwasm signature : List ℕ) (key : Key) (w : W)
      → compiler_engine G ≡ ok compiler
      → runtime_engine G ≡ ok runtime
      → precompile_and_sign G C compiler wasm key ≡ ok (cwasm, signature)
      → (component : Comp) × ((load_verified_component G C runtime cwasm
            (C.verifying_key key)
            signature
            w).1
          ≡ ok component)
  unfolding runtime_engine compiler_engine load_verified_component deserialize_trusted_component
      precompile_and_sign
  load-precompile signs loads compiler runtime wasm cwasm signature key w compiles runs signed =
      let (config, c, r) = engines-agree (pulley_config G) compiler runtime compiles runs in
      let (compiled, s) =
        with_signature-parts key (G.precompile_component compiler wasm) cwasm signature signed in
      let (component, loaded) =
        loads.deserialize-precompile config compiler runtime wasm cwasm w c r compiled in
      (component, ground (arith, loaded, s, signs.verify-sign key cwasm))

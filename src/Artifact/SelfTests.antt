-- ===== src/Artifact/SelfTests.antt =====
-- `mod tests` of `src/verified.rs`: what each test comes to, and when it passes.
use lantern_runtime.Base.{ℕ, ◌≡◌, refl, Bool, true, false, List, [], ◌∷◌, ◌++◌}
use lantern_runtime.Base.Exec.{Exec, ok, err, panic}
use lantern_runtime.Confined.Text.{codes}
use lantern_runtime.Artifact.Roles.{
  Signing, Engines, LoadError, runtime_engine, deserialize_trusted_component,
  load_verified_component,
}
use lantern_runtime.Artifact.Trust.{SignsTruly}

-- `b"not really a cwasm"`
abbrev not_a_cwasm : List ℕ
not_a_cwasm = codes "not really a cwasm"

abbrev is_bad_signature : {Error A : Type 0} → Exec (LoadError Error) A → Bool
is_bad_signature (err LoadError.bad_signature) = true
is_bad_signature _ = false

abbrev is_deserialize : {Error A : Type 0} → Exec (LoadError Error) A → Bool
is_deserialize (err (LoadError.deserialize e)) = true
is_deserialize _ = false

-- What follows an `unwrap` or an `expect`, which a test fails at where there is nothing to take out.
abbrev pub unwrapped : {Error A : Type 0} → Exec Error A → (A → Bool) → Bool
unwrapped (ok a) test = test a
unwrapped (err e) test = false
unwrapped panic test = false

module _ {W Eng Comp Error Key : Type 0} (G : Engines W Eng Comp Error) (C : Signing Key) where
  -- The key and the world are what the test is run with.
  rejects_a_tampered_artifact : Key → W → Bool
  rejects_a_tampered_artifact key w =
      let sig = C.sign key not_a_cwasm in
      let tampered = not_a_cwasm ++ (0 ∷ []) in
      unwrapped (runtime_engine G) λ engine.
        is_bad_signature (load_verified_component G C engine tampered (C.verifying_key key) sig w).1

  a_valid_signature_does_not_bypass_wasmtime_s_own_validation : Key → W → Bool
  a_valid_signature_does_not_bypass_wasmtime_s_own_validation key w =
      let sig = C.sign key not_a_cwasm in
      unwrapped (runtime_engine G) λ engine.
        is_deserialize
          (load_verified_component G C engine not_a_cwasm (C.verifying_key key) sig w).1

  -- The first passes where an engine can be made and the signature of the artifact does not verify for
  -- what was appended to it.
  rejects_a_tampered_passes :
      (key : Key) (w : W) (engine : Eng)
      → runtime_engine G ≡ ok engine
      → C.verify (C.verifying_key key) (not_a_cwasm ++ (0 ∷ [])) (C.sign key not_a_cwasm) ≡ false
      → rejects_a_tampered_artifact key w ≡ true
  unfolding rejects_a_tampered_artifact load_verified_component
  rejects_a_tampered_passes key w engine made unsigned = rw (made, unsigned) refl

  -- The second passes where an engine can be made that cannot load these bytes, for signatures that verify.
  a_valid_signature_passes :
      (key : Key) (w : W) (engine : Eng) (e : Error)
      → SignsTruly C
      → runtime_engine G ≡ ok engine
      → (G.deserialize engine not_a_cwasm w).1 ≡ err e
      → a_valid_signature_does_not_bypass_wasmtime_s_own_validation key w ≡ true
  unfolding a_valid_signature_does_not_bypass_wasmtime_s_own_validation load_verified_component
      deserialize_trusted_component
  a_valid_signature_passes key w engine e signs made broken =
      rw (made, signs.verify-sign key not_a_cwasm, broken) refl

-- ===== src/Tests/Artifact.antt =====
-- The two roles on an engine whose artifacts are the source after a mark, and a signature by sums.
use lantern_runtime.Base.{
  ℕ, ◌+◌, ◌≡◌, refl, some, Bool, true, false, List, [], ◌∷◌, ◌==◌, ==_refl, length, arith,
}
use lantern_runtime.Base.Exec.{Exec, ok, err, panic}
use lantern_runtime.Artifact.Roles.{
  Signing, Config, Engines, pulley_config, runtime_engine, compiler_engine, load_verified_component,
  precompile_and_sign,
}
use lantern_runtime.Artifact.Fixture.{FileSystem}
use lantern_runtime.Artifact.Trust.{SignsTruly, LoadsOwn, load-precompile}

abbrev checksum : ℕ → List ℕ → ℕ
checksum key [] = key
checksum key (b ∷ bs) = b + checksum key bs

abbrev verify_sum : List ℕ → List ℕ → List ℕ → Bool
verify_sum (key ∷ []) bytes (sum ∷ []) = sum == checksum key bytes
verify_sum _ _ _ = false

abbrev signing : Signing ℕ
signing = record {
  verify = verify_sum;
  sign = λ key bytes. checksum key bytes ∷ [];
  verifying_key = λ key. key ∷ [];
}

signing-SignsTruly : SignsTruly signing
signing-SignsTruly = record { verify-sign = λ key bytes. ==_refl (checksum key bytes) }

-- Loads what stands after the mark; the state counts the artifacts loaded.
abbrev load : List ℕ → Exec ℕ (List ℕ)
load [] = err 1
load (mark ∷ wasm) = ok wasm

abbrev pub engines : Engines ℕ Config (List ℕ) ℕ
engines = record {
  is_target = λ name. true;
  new_engine = λ config. some config;
  deserialize = λ engine cwasm w. (w + 1, load cwasm);
  precompile_component = λ engine wasm. ok (64 ∷ wasm);
  new_component = λ engine wasm. ok wasm;
  imports = λ engine component. [];
}

loads_marked :
    (wasm cwasm : List ℕ)
    → ◌≡◌ {A = Exec ℕ (List ℕ)} (ok (64 ∷ wasm)) (ok cwasm)
    → (component : List ℕ) × (load cwasm ≡ ok component)
loads_marked wasm [] e = ground arith
loads_marked wasm (mark ∷ rest) e = (rest, refl)

engines-LoadsOwn : LoadsOwn engines
engines-LoadsOwn = record {
  deserialize-precompile = λ config compiler runtime wasm cwasm w c r e. loads_marked wasm cwasm e;
}

abbrev made : Config
made = elim (pulley_config engines) [ ok config ↦ config | err e ↦ absurd e | panic ↦ [] ]

load-precompile_example :
    (component : List ℕ) × ((load_verified_component engines signing made
        (64 ∷ 5 ∷ 6 ∷ [])
        (7 ∷ [])
        (82 ∷ [])
        3).1
      ≡ ok component)
unfolding pulley_config runtime_engine compiler_engine precompile_and_sign
load-precompile_example =
    load-precompile engines signing signing-SignsTruly engines-LoadsOwn made made (5 ∷ 6 ∷ [])
      (64 ∷ 5 ∷ 6 ∷ []) (82 ∷ []) 7 3 refl refl refl

-- A path names the component 5, 6; what is written is counted.
abbrev disk : FileSystem ℕ
disk = record {
  read = λ path w. (w, ok (5 ∷ 6 ∷ []));
  write = λ path bytes w. (w + length bytes, ok tt);
}

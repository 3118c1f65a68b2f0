-- ===== src/Host/Answers.antt =====
-- What a component gets back from a sequence of its calls on the interfaces of `src/host.rs`, and that it
-- does not see how the services keep their state.
use lantern_runtime.Base.{ℕ, ◌≡◌, refl, ap, ◌∙◌, Option, List, [], ◌∷◌}
use lantern_runtime.Base.Exec.{Exec}
use lantern_runtime.Host.Records.{HostCapability, HostFile}
use lantern_runtime.Host.Errors.{ErrorCode, Wire}
use lantern_runtime.Host.Services.{KeystoreService, FilesystemService, ResourceTable, Embedding}
use lantern_runtime.Host.State.{RuntimeState, WasmtimeError}
use lantern_runtime.Host.Keys
use lantern_runtime.Host.Files
use lantern_runtime.Host.Calls.{GuestCall, step, run}
use lantern_runtime.Host.Carries.{KeystoreCarries, FilesystemCarries, with_services, carry}
use lantern_runtime.Host.Simulation.{
  AllAllowed, encrypt-carry, decrypt-carry, sign-carry, read-carry, write-carry, open_key-carry,
  open_file-carry, drop_key-carry, drop_file-carry,
}

pub data GuestAnswer : Type 0 where
  opened : Option ℕ → GuestAnswer
  sealed : Exec ErrorCode (List ℕ × List ℕ) → GuestAnswer
  bytes : Exec ErrorCode (List ℕ) → GuestAnswer
  written : Exec ErrorCode (Unit {0}) → GuestAnswer
  dropped : Exec WasmtimeError (Unit {0}) → GuestAnswer
  ticked : GuestAnswer

module _ {Tab K F : Type 0} (H : Embedding Tab K F) where
  unfoldable pub answer : GuestCall → RuntimeState Tab K F → GuestAnswer
  answer (GuestCall.open_key slot) s = GuestAnswer.opened (Keys.open_key H slot s).1
  answer (GuestCall.open_file slot) s = GuestAnswer.opened (Files.open_file H slot s).1
  answer (GuestCall.encrypt h nonce aad plaintext) s =
      GuestAnswer.sealed (Keys.encrypt H h nonce aad plaintext s).1
  answer (GuestCall.decrypt h nonce aad ciphertext tag) s =
      GuestAnswer.bytes (Keys.decrypt H h nonce aad ciphertext tag s).1
  answer (GuestCall.sign h message) s = GuestAnswer.bytes (Keys.sign H h message s).1
  answer (GuestCall.read h) s = GuestAnswer.bytes (Files.read H h s).1
  answer (GuestCall.write h payload) s = GuestAnswer.written (Files.write H h payload s).1
  answer (GuestCall.drop_key h) s = GuestAnswer.dropped (Keys.drop_key H h s).1
  answer (GuestCall.drop_file h) s = GuestAnswer.dropped (Files.drop_file H h s).1
  answer GuestCall.clock s = GuestAnswer.ticked

  unfoldable pub answers : List GuestCall → RuntimeState Tab K F → List GuestAnswer
  answers [] s = []
  answers (c ∷ cs) s = answer c s ∷ answers cs (step H c s)

module _ {Tab K F K' F' : Type 0} (W : Wire) (T : ResourceTable Tab) (S : KeystoreService K)
    (P : FilesystemService F) (S' : KeystoreService K') (P' : FilesystemService F') (φ : K → K')
    (ψ : F → F') (AllowsKey : HostCapability → Type 0) (AllowsFile : HostFile → Type 0)
    (keys : KeystoreCarries W AllowsKey φ S S')
    (files : FilesystemCarries W AllowsFile ψ P P') where
  abbrev Allowed : RuntimeState Tab K F → Type 0
  Allowed s = AllAllowed W T S P S' P' φ ψ AllowsKey AllowsFile keys files s

  -- One call leaves states that correspond, and gives the same answer.
  step-carry :
      (c : GuestCall) (s : RuntimeState Tab K F)
      → Allowed s
      → (step (with_services W T S' P') c (carry φ ψ s)
          ≡ carry φ ψ (step (with_services W T S P) c s))
        × (answer (with_services W T S' P') c (carry φ ψ s) ≡ answer (with_services W T S P) c s)
  unfolding step answer
  step-carry (GuestCall.open_key slot) s allowed =
      let e = open_key-carry W T S P S' P' φ ψ AllowsKey AllowsFile keys files s slot in
      (ap (λ r. r.0) e, ap (λ r. GuestAnswer.opened r.1) e)
  step-carry (GuestCall.open_file slot) s allowed =
      let e = open_file-carry W T S P S' P' φ ψ AllowsKey AllowsFile keys files s slot in
      (ap (λ r. r.0) e, ap (λ r. GuestAnswer.opened r.1) e)
  step-carry (GuestCall.encrypt h nonce aad body) s allowed =
      let e =
        encrypt-carry W T S P S' P' φ ψ AllowsKey AllowsFile keys files s h allowed nonce aad
          body in
      (ap (λ r. r.0) e, ap (λ r. GuestAnswer.sealed r.1) e)
  step-carry (GuestCall.decrypt h nonce aad body tag) s allowed =
      let e =
        decrypt-carry W T S P S' P' φ ψ AllowsKey AllowsFile keys files s h allowed nonce aad body
          tag in
      (ap (λ r. r.0) e, ap (λ r. GuestAnswer.bytes r.1) e)
  step-carry (GuestCall.sign h message) s allowed =
      let e = sign-carry W T S P S' P' φ ψ AllowsKey AllowsFile keys files s h allowed message in
      (ap (λ r. r.0) e, ap (λ r. GuestAnswer.bytes r.1) e)
  step-carry (GuestCall.read h) s allowed =
      let e = read-carry W T S P S' P' φ ψ AllowsKey AllowsFile keys files s h allowed in
      (ap (λ r. r.0) e, ap (λ r. GuestAnswer.bytes r.1) e)
  step-carry (GuestCall.write h payload) s allowed =
      let e = write-carry W T S P S' P' φ ψ AllowsKey AllowsFile keys files s h allowed payload in
      (ap (λ r. r.0) e, ap (λ r. GuestAnswer.written r.1) e)
  step-carry (GuestCall.drop_key h) s allowed =
      let e = drop_key-carry W T S P S' P' φ ψ AllowsKey AllowsFile keys files s h in
      (ap (λ r. r.0) e, ap (λ r. GuestAnswer.dropped r.1) e)
  step-carry (GuestCall.drop_file h) s allowed =
      let e = drop_file-carry W T S P S' P' φ ψ AllowsKey AllowsFile keys files s h in
      (ap (λ r. r.0) e, ap (λ r. GuestAnswer.dropped r.1) e)
  step-carry GuestCall.clock s allowed = (refl, refl)

  -- Any calls leave states that correspond, and give the same answers, while an invariant of the calls
  -- keeps every handle to a record that is allowed.
  pub run-carry :
      (Inv : RuntimeState Tab K F → Type 0)
      → ((c : GuestCall) (s : RuntimeState Tab K F)
          → Inv s
          → Inv (step (with_services W T S P) c s))
      → ((s : RuntimeState Tab K F) → Inv s → Allowed s)
      → (calls : List GuestCall) (s : RuntimeState Tab K F) → Inv s
      → (run (with_services W T S' P') calls (carry φ ψ s)
          ≡ carry φ ψ (run (with_services W T S P) calls s))
        × (answers (with_services W T S' P') calls (carry φ ψ s)
            ≡ answers (with_services W T S P) calls s)
  unfolding run answers
  run-carry Inv kept allows [] s inv = (refl, refl)
  run-carry Inv kept allows (c ∷ cs) s inv =
      let (same, e) = step-carry c s (allows s inv) in
      let (rest, es) =
        run-carry Inv kept allows cs (step (with_services W T S P) c s) (kept c s inv) in
      (
        ap (run (with_services W T S' P') cs) same ∙ rest,
        rw (same, e) (ap (λ l. answer (with_services W T S P) c s ∷ l) es),
      )

-- ===== src/Guests/Programs.antt =====
-- `confined-runtime` with each of the two guests, from its start to the signal of success.
use lantern_runtime.Base.{
  ℕ, ◌≡◌, refl, ap, ◌∙◌, none, some, true, List, [], ◌∷◌, length, replicate, ◌+◌, ◌-◌, ◌%◌, ◌^◌,
  ◌≤◌, ◌<◌,
}
use lantern_runtime.Base.Exec.{Exec, ok, err}
use lantern_runtime.Host.Records.{keystore_key, filesystem_file}
use lantern_runtime.Host.Errors.{KeystoreError, StoreError, ErrorCode, access, to_error_code}
use lantern_runtime.Host.Services.{KeystoreService, FilesystemService, IsLawful, Embedding}
use lantern_runtime.Host.State.{RuntimeState, granted, new}
use lantern_runtime.Host.Linker.{Interface, Linking}
use lantern_runtime.Host.Files.{read_answer}
use lantern_runtime.Ipc.Channel.{Channel, Codec}
use lantern_runtime.Ipc.Keystore
use lantern_runtime.Confined.Stage.{Fault, success_cptr, failure_cptr, heap_base, heap_len}
use lantern_runtime.Confined.System.{System, Sdk, Wasmtime}
use lantern_runtime.Confined.Text.{Text, contains}
use lantern_runtime.Confined.Package.{VerifiedPackage, verify_package, plan}
use lantern_runtime.Confined.Grant.{request_grant}
use lantern_runtime.Confined.Probe.{prepare, judge, revoke_during_open_request}
use lantern_runtime.Confined.Program.{
  Client, not_granted, quoted_access, keystore_grants, filesystem_grants, keystore_checks,
  filesystem_checks, host_plan, run,
}
use lantern_runtime.Confined.Wiring.{grants-first_slot}
use lantern_runtime.Guests.Interface.{keystore_host, filesystem_host}
use lantern_runtime.Guests.Scopes.{HasRoom}
use lantern_runtime.Guests.KeyProbe.{message}
use lantern_runtime.Guests.KeyProbe
use lantern_runtime.Guests.FileProbe.{content, oversized_len}
use lantern_runtime.Guests.FileProbe
use lantern_runtime.Guests.FileHosting.{KeepsBlock}
use lantern_runtime.Guests.Judged.{RunsGuest, judge-keystore, judge-filesystem}
use lantern_runtime.Guests.Reported.{
  key_state, file_state, host_keystore-at, host_filesystem-at, report_done,
}

module _ {W Tab K F Comp Link Ins : Type 0} (S : System W) (D : Sdk) (R : Linking Link)
    (H : Embedding Tab K F) (near_keys : KeystoreService Client)
    (near_files : FilesystemService Client)
    (E : Wasmtime W (RuntimeState Tab Client Client) Comp Link Ins) (X : Codec) (ch : Channel W)
    (data_of : W → RuntimeState Tab K F) where
  -- The program's own embedding: its services are clients of those of `H`, which are outside.
  abbrev pub near : Embedding Tab Client Client
  near = record { wire = H.wire; table = H.table; keystore = near_keys; filesystem = near_files }

  -- `confined-runtime` signals success with `confined-probe-guest`, over a lawful table with room: where a
  -- package is verified that asks for keys alone, the binder grants one with its self-checks, encryption is
  -- refused as not granted, and the guest is ready with the grants that were wired and runs on the state
  -- of its store; where then the keystore signs, the revocation goes through and changes nothing but the
  -- keystore, and that then denies the signature. The signal carries how much of the heap was used.
  pub keystore_program-succeeds :
      RunsGuest E data_of (KeyProbe.probe (keystore_host H))
      → IsLawful H.table
      → HasRoom H.table
      → (len : ℕ) (w w₁ w₂ w₃ w₄ w₅ : W) (lpkg : VerifiedPackage) (request : Text)
        (requests : List Text) (p : Ins) (k k₁ k₂ k₃ : K) (signature : List ℕ) (e : KeystoreError)
      → verify_package D S len (S.report_panics_via failure_cptr (S.init_heap heap_base heap_len w))
        ≡ (w₁, ok lpkg)
      → plan D lpkg
        ≡ ok (record { keystore = request ∷ requests; filesystem = []; monotonic_clock = none })
      → request_grant S S.interface_keystore w₁ ≡ (w₂, ok true)
      → Keystore.encrypt H.wire X ch (replicate H.wire.nonce_len 0) [] not_granted w₂
        ≡ (w₃, err (KeystoreError.remote_denied H.wire.crypto_access))
      → prepare S E R lpkg
          (keystore_grants (request ∷ requests) true)
          (key_state S D R near E X ch (request ∷ requests) true)
          w₃
        ≡ (w₄, ok p)
      → data_of w₄
        ≡ record (new H (keystore_grants (request ∷ requests) true)) { keystore = some k }
      → H.keystore.sign 0 0 message k ≡ (k₁, ok signature)
      → revoke_during_open_request S H.wire.op_sign (E.call_probe p w₄).0 ≡ (w₅, ok tt)
      → data_of w₅ ≡ record (data_of (E.call_probe p w₄).0) { keystore = some k₂ }
      → H.keystore.sign 0 0 message k₂ ≡ (k₃, err e)
      → to_error_code H.wire e ≡ access
      → let w₆ = (judge S E R (keystore_checks H.wire) p w₄).0 in
        run S D R near E X ch len w
        ≡ S.signal_with success_cptr 0 ((S.heap_top w₆ + 2 ^ 64 - heap_base) % 2 ^ 64) w₆
  unfolding new host_plan
  keystore_program-succeeds runs L room len w w₁ w₂ w₃ w₄ w₅ lpkg request requests p k k₁ k₂ k₃
        signature e verified planned grants denied ready at signed revoked after refused code =
      let (_, first, _, _, _, _) = grants-first_slot request requests true 0 Interface.keystore in
      let (_, second, _, _, _, _) = grants-first_slot request requests true 1 Interface.keystore in
      let judged =
        judge-keystore S H E R data_of runs L room p w₄ w₅ (keystore_key 0 0) k k₁ k₂ k₃ signature e
          (ap (λ (s : RuntimeState Tab K F). granted s.keys 0) at ∙ first)
          (ap (λ (s : RuntimeState Tab K F). granted s.keys 1) at ∙ second) refl
          (ap (λ (s : RuntimeState Tab K F). s.keystore) at) signed revoked after refused code in
      let w₆ = (judge S E R (keystore_checks H.wire) p w₄).0 in
      report_done S D R near E X ch len w w₁ w₆ lpkg _ verified planned refl (
        host_keystore-at S D R near E X ch lpkg (request ∷ requests) p w₁ w₂ w₃ w₄ w₆ grants denied
          ready (ap (λ (r : Exec Fault (Unit {0})). (w₆, r)) judged))

  -- `confined-runtime` signals success with `confined-fs-guest`, over a lawful table with room and a store
  -- that keeps a block: where a package is verified that asks for files alone, the binder grants one with
  -- its self-checks, and the guest is ready with the grants that were wired and runs on the state of its
  -- store; where then the file is empty, the store takes the guest's content, a block holds that content
  -- and no 257 bytes, the revocation goes through and changes nothing but the store, and that then denies
  -- the read, with a code that prints as the host expects. The signal carries how much of the heap was used.
  pub filesystem_program-succeeds :
      (debug : ErrorCode → Text)
      → RunsGuest E data_of (FileProbe.probe (filesystem_host H) debug)
      → IsLawful H.table
      → HasRoom H.table
      → (Holds : ℕ → ℕ → List ℕ → F → Type 0) → KeepsBlock H.wire H.filesystem Holds
      → length content ≤ H.wire.max_block_len
      → H.wire.max_block_len < oversized_len
      → (len : ℕ) (w w₁ w₂ w₃ w₄ : W) (lpkg : VerifiedPackage) (request : Text)
        (requests : List Text) (p : Ins) (f f₁ f₂ f₃ : F) (e : StoreError)
      → verify_package D S len (S.report_panics_via failure_cptr (S.init_heap heap_base heap_len w))
        ≡ (w₁, ok lpkg)
      → plan D lpkg
        ≡ ok (record { keystore = []; filesystem = request ∷ requests; monotonic_clock = none })
      → request_grant S S.interface_filesystem w₁ ≡ (w₂, ok true)
      → prepare S E R lpkg
          (filesystem_grants (request ∷ requests) true)
          (file_state S D R near E X ch (request ∷ requests) true)
          w₂
        ≡ (w₃, ok p)
      → data_of w₃
        ≡ record (new H (filesystem_grants (request ∷ requests) true)) { filesystem = some f }
      → H.filesystem.read 0 0 (replicate H.wire.max_block_len 0) f ≡ (f₁, err StoreError.file_empty)
      → (H.filesystem.write 0 0 content f₁).1 ≡ ok tt
      → revoke_during_open_request S H.wire.op_read (E.call_probe p w₃).0 ≡ (w₄, ok tt)
      → data_of w₄ ≡ record (data_of (E.call_probe p w₃).0) { filesystem = some f₂ }
      → H.filesystem.read 0 0 (replicate H.wire.max_block_len 0) f₂ ≡ (f₃, err e)
      → read_answer H.wire (err e) ≡ err access
      → contains (debug access) quoted_access ≡ true
      → let w₅ = (judge S E R (filesystem_checks H.wire) p w₃).0 in
        run S D R near E X ch len w
        ≡ S.signal_with success_cptr 0 ((S.heap_top w₅ + 2 ^ 64 - heap_base) % 2 ^ 64) w₅
  unfolding new host_plan
  filesystem_program-succeeds debug runs L room Holds keeps fits small len w w₁ w₂ w₃ w₄ lpkg
        request requests p f f₁ f₂ f₃ e verified planned grants ready at fresh accepted revoked
        after denied code quoted =
      let (_, _, _, _, first, _) = grants-first_slot request requests true 0 Interface.filesystem in
      let (_, _, _, _, second, _) =
        grants-first_slot request requests true 1 Interface.filesystem in
      let judged =
        judge-filesystem S H E R data_of debug runs L room Holds keeps fits small p w₃ w₄
          (filesystem_file 0 0) f f₁ f₂ f₃ e
          (ap (λ (s : RuntimeState Tab K F). granted s.files 0) at ∙ first)
          (ap (λ (s : RuntimeState Tab K F). granted s.files 1) at ∙ second) refl
          (ap (λ (s : RuntimeState Tab K F). s.filesystem) at) fresh accepted revoked after denied
          code quoted in
      let w₅ = (judge S E R (filesystem_checks H.wire) p w₃).0 in
      report_done S D R near E X ch len w w₁ w₅ lpkg _ verified planned refl (
        host_filesystem-at S D R near E X ch lpkg (request ∷ requests) p w₁ w₂ w₃ w₅ grants ready
          (ap (λ (r : Exec Fault (Unit {0})). (w₅, r)) judged))

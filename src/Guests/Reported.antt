-- ===== src/Guests/Reported.antt =====
-- The whole of `confined-runtime` with the two guests: what it takes for it to report success.
use lantern_runtime.Base.{
  ℕ, ◌≡◌, refl, ◌∙◌, none, Bool, true, false, List, [], replicate, ◌+◌, ◌-◌, ◌%◌, ◌^◌, arith,
}
use lantern_runtime.Base.Exec.{ok, err, Call, ◌>>◌}
use lantern_runtime.Host.Records.{GrantManifest}
use lantern_runtime.Host.Errors.{KeystoreError}
use lantern_runtime.Host.Services.{Embedding}
use lantern_runtime.Host.State.{RuntimeState, new, with_keystore, with_filesystem}
use lantern_runtime.Host.Linker.{Linking}
use lantern_runtime.Ipc.Channel.{Channel, Codec}
use lantern_runtime.Ipc.Keystore
use lantern_runtime.Confined.Stage.{
  Stage, Fault, code, success_cptr, failure_cptr, heap_base, heap_len,
}
use lantern_runtime.Confined.System.{System, GrantPlan, Sdk, Wasmtime}
use lantern_runtime.Confined.Text.{Text}
use lantern_runtime.Confined.Chains.{bind-at_ok}
use lantern_runtime.Confined.Package.{VerifiedPackage, verify_package, plan}
use lantern_runtime.Confined.Grant.{request_grant}
use lantern_runtime.Confined.Probe.{ProbeChecks, prepare, judge, run_probe}
use lantern_runtime.Confined.Program.{
  Client, client, not_granted, keystore_grants, filesystem_grants, keystore_checks,
  filesystem_checks, check_attenuation, host_keystore, host_filesystem, host_plan, host_verified,
  host_the_guest, run_and_report, run,
}

module _ {W Tab Comp Link Ins : Type 0} (S : System W) (D : Sdk) (R : Linking Link)
    (H : Embedding Tab Client Client)
    (E : Wasmtime W (RuntimeState Tab Client Client) Comp Link Ins) (X : Codec)
    (ch : Channel W) where
  pub run_probe-at :
      (lpkg : VerifiedPackage) (m : GrantManifest) (state : RuntimeState Tab Client Client)
      (checks : ProbeChecks) (p : Ins) (w w' : W)
      → prepare S E R lpkg m state w ≡ (w', ok p)
      → run_probe S E R lpkg m state checks w ≡ judge S E R checks p w'
  unfolding run_probe
  run_probe-at lpkg m state checks p w w' ready =
      bind-at_ok (prepare S E R lpkg m state) (judge S E R checks) w w' p ready

  -- The program's state at the start, and the guest's run over it.
  abbrev pub key_state : List Text → Bool → RuntimeState Tab Client Client
  key_state requests given = with_keystore H (new H (keystore_grants requests given)) client

  abbrev pub file_state : List Text → Bool → RuntimeState Tab Client Client
  file_state requests given = with_filesystem H (new H (filesystem_grants requests given)) client

  abbrev pub run_keys : VerifiedPackage → List Text → Bool → Call W Fault (Unit {0})
  run_keys lpkg requests given =
      run_probe S E R lpkg (keystore_grants requests given) (key_state requests given)
        (keystore_checks H.wire)

  abbrev pub run_files : VerifiedPackage → List Text → Bool → Call W Fault (Unit {0})
  run_files lpkg requests given =
      run_probe S E R lpkg (filesystem_grants requests given) (file_state requests given)
        (filesystem_checks H.wire)

  check_attenuation-denied :
      (w w' : W)
      → Keystore.encrypt H.wire X ch (replicate H.wire.nonce_len 0) [] not_granted w
        ≡ (w', err (KeystoreError.remote_denied H.wire.crypto_access))
      → check_attenuation S D R H E X ch true w ≡ (w', ok tt)
  unfolding check_attenuation
  check_attenuation-denied w w' denied = ground (arith, denied)

  pub host_keystore-at :
      (lpkg : VerifiedPackage) (requests : List Text) (p : Ins) (w₁ w₂ w₃ w₄ w₅ : W)
      → request_grant S S.interface_keystore w₁ ≡ (w₂, ok true)
      → Keystore.encrypt H.wire X ch (replicate H.wire.nonce_len 0) [] not_granted w₂
        ≡ (w₃, err (KeystoreError.remote_denied H.wire.crypto_access))
      → prepare S E R lpkg (keystore_grants requests true) (key_state requests true) w₃ ≡ (w₄, ok p)
      → judge S E R (keystore_checks H.wire) p w₄ ≡ (w₅, ok tt)
      → host_keystore S D R H E X ch lpkg requests w₁ ≡ (w₅, ok tt)
  unfolding host_keystore
  host_keystore-at lpkg requests p w₁ w₂ w₃ w₄ w₅ grants denied ready judged =
      bind-at_ok (request_grant S S.interface_keystore)
        (λ given. check_attenuation S D R H E X ch given >> run_keys lpkg requests given) w₁ w₂ true
        grants
      ∙ bind-at_ok (check_attenuation S D R H E X ch true) (λ _. run_keys lpkg requests true) w₂ w₃
          tt (check_attenuation-denied w₂ w₃ denied)
      ∙ run_probe-at lpkg (keystore_grants requests true) (key_state requests true)
          (keystore_checks H.wire) p w₃ w₄ ready
      ∙ judged

  pub host_filesystem-at :
      (lpkg : VerifiedPackage) (requests : List Text) (p : Ins) (w₁ w₂ w₃ w₄ : W)
      → request_grant S S.interface_filesystem w₁ ≡ (w₂, ok true)
      → prepare S E R lpkg (filesystem_grants requests true) (file_state requests true) w₂
        ≡ (w₃, ok p)
      → judge S E R (filesystem_checks H.wire) p w₃ ≡ (w₄, ok tt)
      → host_filesystem S D R H E X ch lpkg requests w₁ ≡ (w₄, ok tt)
  unfolding host_filesystem
  host_filesystem-at lpkg requests p w₁ w₂ w₃ w₄ grants ready judged =
      bind-at_ok (request_grant S S.interface_filesystem) (run_files lpkg requests) w₁ w₂ true
        grants
      ∙ run_probe-at lpkg (filesystem_grants requests true) (file_state requests true)
          (filesystem_checks H.wire) p w₂ w₃ ready
      ∙ judged

  -- The program's last signal, once the wiring ends well.
  pub report_done :
      (len : ℕ) (w w₁ w₂ : W) (lpkg : VerifiedPackage) (requested : GrantPlan)
      → verify_package D S len (S.report_panics_via failure_cptr (S.init_heap heap_base heap_len w))
        ≡ (w₁, ok lpkg)
      → plan D lpkg ≡ ok requested
      → requested.monotonic_clock ≡ none
      → host_plan S D R H E X ch lpkg requested.keystore requested.filesystem w₁ ≡ (w₂, ok tt)
      → run S D R H E X ch len w
        ≡ S.signal_with success_cptr 0 ((S.heap_top w₂ + 2 ^ 64 - heap_base) % 2 ^ 64) w₂
  unfolding run run_and_report host_the_guest host_verified
  report_done len w w₁ w₂ lpkg requested verified planned unclocked wired =
      let started = S.report_panics_via failure_cptr (S.init_heap heap_base heap_len w) in
      let hosted : host_the_guest S D R H E X ch len started ≡ (w₂, ok tt) =
        bind-at_ok (verify_package D S len) (host_verified S D R H E X ch) started w₁ lpkg verified
        ∙ rw (planned, unclocked) wired in
      rw hosted refl

  pub host_keystore-fails :
      (lpkg : VerifiedPackage) (requests : List Text) (p : Ins) (w₁ w₂ w₃ w₄ : W) (fault : Fault)
      → request_grant S S.interface_keystore w₁ ≡ (w₂, ok false)
      → prepare S E R lpkg (keystore_grants requests false) (key_state requests false) w₂
        ≡ (w₃, ok p)
      → judge S E R (keystore_checks H.wire) p w₃ ≡ (w₄, err fault)
      → host_keystore S D R H E X ch lpkg requests w₁ ≡ (w₄, err fault)
  unfolding host_keystore check_attenuation
  host_keystore-fails lpkg requests p w₁ w₂ w₃ w₄ fault declines ready judged =
      bind-at_ok (request_grant S S.interface_keystore)
        (λ given. check_attenuation S D R H E X ch given >> run_keys lpkg requests given) w₁ w₂
        false declines
      ∙ run_probe-at lpkg (keystore_grants requests false) (key_state requests false)
          (keystore_checks H.wire) p w₂ w₃ ready
      ∙ judged

  pub host_filesystem-fails :
      (lpkg : VerifiedPackage) (requests : List Text) (p : Ins) (w₁ w₂ w₃ w₄ : W) (fault : Fault)
      → request_grant S S.interface_filesystem w₁ ≡ (w₂, ok false)
      → prepare S E R lpkg (filesystem_grants requests false) (file_state requests false) w₂
        ≡ (w₃, ok p)
      → judge S E R (filesystem_checks H.wire) p w₃ ≡ (w₄, err fault)
      → host_filesystem S D R H E X ch lpkg requests w₁ ≡ (w₄, err fault)
  unfolding host_filesystem
  host_filesystem-fails lpkg requests p w₁ w₂ w₃ w₄ fault declines ready judged =
      bind-at_ok (request_grant S S.interface_filesystem) (run_files lpkg requests) w₁ w₂ false
        declines
      ∙ run_probe-at lpkg (filesystem_grants requests false) (file_state requests false)
          (filesystem_checks H.wire) p w₂ w₃ ready
      ∙ judged

  -- The program's last signal, once the wiring fails.
  pub report_fault :
      (len : ℕ) (w w₁ w₂ : W) (lpkg : VerifiedPackage) (requested : GrantPlan) (stage : Stage)
      (detail : ℕ)
      → verify_package D S len (S.report_panics_via failure_cptr (S.init_heap heap_base heap_len w))
        ≡ (w₁, ok lpkg)
      → plan D lpkg ≡ ok requested
      → requested.monotonic_clock ≡ none
      → host_plan S D R H E X ch lpkg requested.keystore requested.filesystem w₁
        ≡ (w₂, err (stage, detail))
      → run S D R H E X ch len w ≡ S.signal_with failure_cptr (code stage) detail w₂
  unfolding run run_and_report host_the_guest host_verified
  report_fault len w w₁ w₂ lpkg requested stage detail verified planned unclocked wired =
      let started = S.report_panics_via failure_cptr (S.init_heap heap_base heap_len w) in
      let hosted : host_the_guest S D R H E X ch len started ≡ (w₂, err (stage, detail)) =
        bind-at_ok (verify_package D S len) (host_verified S D R H E X ch) started w₁ lpkg verified
        ∙ rw (planned, unclocked) wired in
      rw hosted refl

-- ===== src/Guests/Ungranted.antt =====
-- `confined-runtime` with each of the two guests where the binder grants nothing: it fails closed.
use lantern_runtime.Base.{ℕ, ◌≡◌, refl, ap, ◌∙◌, none, some, false, List, [], ◌∷◌, arith}
use lantern_runtime.Base.Exec.{Exec, ok, err}
use lantern_runtime.Host.Errors.{ErrorCode}
use lantern_runtime.Host.Services.{KeystoreService, FilesystemService, Embedding}
use lantern_runtime.Host.State.{RuntimeState, granted, new}
use lantern_runtime.Host.Keys.{open_key}
use lantern_runtime.Host.Files.{open_file}
use lantern_runtime.Host.Linker.{Interface, Linking}
use lantern_runtime.Ipc.Channel.{Channel, Codec}
use lantern_runtime.Confined.Stage.{Stage, code, failure_cptr, heap_base, heap_len}
use lantern_runtime.Confined.System.{System, Sdk, Wasmtime}
use lantern_runtime.Confined.Text.{Text, starts_with}
use lantern_runtime.Confined.Package.{VerifiedPackage, verify_package, plan}
use lantern_runtime.Confined.Grant.{request_grant}
use lantern_runtime.Confined.Probe.{check_report, prepare}
use lantern_runtime.Confined.Program.{
  Client, keystore_grants, filesystem_grants, keystore_checks, filesystem_checks, host_plan, run,
}
use lantern_runtime.Confined.Wiring.{grants-first_slot}
use lantern_runtime.Guests.Interface.{Trap, keystore_host, filesystem_host}
use lantern_runtime.Guests.KeyProbe.{no_key}
use lantern_runtime.Guests.KeyProbe
use lantern_runtime.Guests.FileProbe.{no_file}
use lantern_runtime.Guests.FileProbe
use lantern_runtime.Guests.Judged.{RunsGuest, judge-rejects}
use lantern_runtime.Guests.Reported.{
  key_state, file_state, host_keystore-fails, host_filesystem-fails, report_fault,
}
use lantern_runtime.Guests.Programs.{near}

module _ {Tab K F : Type 0} (H : Embedding Tab K F) (s : RuntimeState Tab K F) where
  open_key-shut : granted s.keys 0 ≡ none → open_key H 0 s ≡ (s, none)
  unfolding open_key
  open_key-shut shut = ground arith

  key_probe-ungranted :
      granted s.keys 0 ≡ none → KeyProbe.probe (keystore_host H) s ≡ (s, ok no_key)
  unfolding KeyProbe.probe KeyProbe.with_key
  key_probe-ungranted shut = rw (open_key-shut shut) refl

  open_file-shut : granted s.files 0 ≡ none → open_file H 0 s ≡ (s, none)
  unfolding open_file
  open_file-shut shut = ground arith

  file_probe-ungranted :
      (debug : ErrorCode → Text)
      → granted s.files 0 ≡ none
      → FileProbe.probe (filesystem_host H) debug s ≡ (s, ok no_file)
  unfolding FileProbe.probe FileProbe.with_file
  file_probe-ungranted debug shut = rw (open_file-shut shut) refl

no_key-rejected : (required : List Text) → check_report no_key required ≡ err (Stage.verdict, 0)
unfolding check_report starts_with
no_key-rejected required = refl

no_file-rejected : (required : List Text) → check_report no_file required ≡ err (Stage.verdict, 0)
unfolding check_report starts_with
no_file-rejected required = refl

module _ {W Tab K F Comp Link Ins : Type 0} (S : System W) (D : Sdk) (R : Linking Link)
    (H : Embedding Tab K F) (near_keys : KeystoreService Client)
    (near_files : FilesystemService Client)
    (E : Wasmtime W (RuntimeState Tab Client Client) Comp Link Ins) (X : Codec) (ch : Channel W)
    (data_of : W → RuntimeState Tab K F) where
  abbrev nearby : Embedding Tab Client Client
  nearby = near S D R H near_keys near_files E X ch data_of

  -- `confined-runtime` fails closed with `confined-probe-guest`: where a package is verified that asks for
  -- keys alone, the binder grants none, and the guest is ready with the grants that were wired and runs
  -- on the state of its store, the program signals a failure at the verdict, and the guest has changed
  -- nothing of that state or of the keystore's.
  pub keystore_program-ungranted :
      RunsGuest E data_of (KeyProbe.probe (keystore_host H))
      → (len : ℕ) (w w₁ w₂ w₃ : W) (lpkg : VerifiedPackage) (request : Text) (requests : List Text)
        (p : Ins) (k : K)
      → verify_package D S len (S.report_panics_via failure_cptr (S.init_heap heap_base heap_len w))
        ≡ (w₁, ok lpkg)
      → plan D lpkg
        ≡ ok (record { keystore = request ∷ requests; filesystem = []; monotonic_clock = none })
      → request_grant S S.interface_keystore w₁ ≡ (w₂, ok false)
      → prepare S E R lpkg
          (keystore_grants (request ∷ requests) false)
          (key_state S D R nearby E X ch (request ∷ requests) false)
          w₂
        ≡ (w₃, ok p)
      → data_of w₃
        ≡ record (new H (keystore_grants (request ∷ requests) false)) { keystore = some k }
      → let w₄ = (E.call_probe p w₃).0 in
        (run S D R nearby E X ch len w ≡ S.signal_with failure_cptr (code Stage.verdict) 0 w₄)
        × (data_of w₄ ≡ data_of w₃)
  unfolding new host_plan
  keystore_program-ungranted runs len w w₁ w₂ w₃ lpkg request requests p k verified planned declines
        ready at =
      let (_, shut, _, _, _, _) = grants-first_slot request requests false 0 Interface.keystore in
      let probed =
        key_probe-ungranted H (data_of w₃)
          (ap (λ (s : RuntimeState Tab K F). granted s.keys 0) at ∙ shut) in
      let w₄ = (E.call_probe p w₃).0 in
      (
        report_fault S D R nearby E X ch len w w₁ w₄ lpkg _ Stage.verdict 0 verified planned refl (
            host_keystore-fails S D R nearby E X ch lpkg (request ∷ requests) p w₁ w₂ w₃ w₄
              (Stage.verdict, 0) declines ready
              (judge-rejects S E R data_of (KeyProbe.probe (keystore_host H)) runs
                (keystore_checks H.wire) p w₃ _ no_key (Stage.verdict, 0) probed
                (no_key-rejected _))),
        runs.data_of-call p w₃ ∙ ap (λ (r : RuntimeState Tab K F × Exec Trap Text). r.0) probed,
      )

  -- `confined-runtime` fails closed with `confined-fs-guest`: where a package is verified that asks for files
  -- alone, the binder grants none, and the guest is ready with the grants that were wired and runs on the
  -- state of its store, the program signals a failure at the verdict, and the guest has changed nothing of
  -- that state or of the filesystem's.
  pub filesystem_program-ungranted :
      (debug : ErrorCode → Text)
      → RunsGuest E data_of (FileProbe.probe (filesystem_host H) debug)
      → (len : ℕ) (w w₁ w₂ w₃ : W) (lpkg : VerifiedPackage) (request : Text) (requests : List Text)
        (p : Ins) (f : F)
      → verify_package D S len (S.report_panics_via failure_cptr (S.init_heap heap_base heap_len w))
        ≡ (w₁, ok lpkg)
      → plan D lpkg
        ≡ ok (record { keystore = []; filesystem = request ∷ requests; monotonic_clock = none })
      → request_grant S S.interface_filesystem w₁ ≡ (w₂, ok false)
      → prepare S E R lpkg
          (filesystem_grants (request ∷ requests) false)
          (file_state S D R nearby E X ch (request ∷ requests) false)
          w₂
        ≡ (w₃, ok p)
      → data_of w₃
        ≡ record (new H (filesystem_grants (request ∷ requests) false)) { filesystem = some f }
      → let w₄ = (E.call_probe p w₃).0 in
        (run S D R nearby E X ch len w ≡ S.signal_with failure_cptr (code Stage.verdict) 0 w₄)
        × (data_of w₄ ≡ data_of w₃)
  unfolding new host_plan
  filesystem_program-ungranted debug runs len w w₁ w₂ w₃ lpkg request requests p f verified planned
        declines ready at =
      let (_, _, _, _, shut, _) = grants-first_slot request requests false 0 Interface.filesystem in
      let probed =
        file_probe-ungranted H (data_of w₃) debug
          (ap (λ (s : RuntimeState Tab K F). granted s.files 0) at ∙ shut) in
      let w₄ = (E.call_probe p w₃).0 in
      (
        report_fault S D R nearby E X ch len w w₁ w₄ lpkg _ Stage.verdict 0 verified planned refl (
            host_filesystem-fails S D R nearby E X ch lpkg (request ∷ requests) p w₁ w₂ w₃ w₄
              (Stage.verdict, 0) declines ready
              (judge-rejects S E R data_of (FileProbe.probe (filesystem_host H) debug) runs
                (filesystem_checks H.wire) p w₃ _ no_file (Stage.verdict, 0) probed
                (no_file-rejected _))),
        runs.data_of-call p w₃ ∙ ap (λ (r : RuntimeState Tab K F × Exec Trap Text). r.0) probed,
      )

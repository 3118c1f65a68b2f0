-- ===== src/Guests/Judged.antt =====
-- The guests under `run_probe` of `confined-runtime/src/lib.rs`: what it takes for the program to succeed.
use lantern_runtime.Base.{ℕ, ◌≡◌, refl, none, some, true, List, length, replicate, ◌≤◌, ◌<◌, arith}
use lantern_runtime.Base.Exec.{ok, err, map_err, Call}
use lantern_runtime.Host.Records.{HostCapability, HostFile, ServiceEndpoint}
use lantern_runtime.Host.Errors.{KeystoreError, StoreError, ErrorCode, access, to_error_code}
use lantern_runtime.Host.Services.{key_entry, file_entry, IsLawful, Embedding}
use lantern_runtime.Host.State.{RuntimeState, granted}
use lantern_runtime.Host.Linker.{Linking}
use lantern_runtime.Confined.Stage.{Fault}
use lantern_runtime.Confined.System.{System, Wasmtime}
use lantern_runtime.Confined.Text.{Text, contains}
use lantern_runtime.Host.Files.{read_answer}
use lantern_runtime.Confined.Probe.{
  ProbeChecks, check_report, reports_refusal, revoke_during_open_request, judge,
}
use lantern_runtime.Confined.Program.{keystore_checks, filesystem_checks, quoted_access}
use lantern_runtime.Guests.Interface.{Trap, keystore_host, filesystem_host}
use lantern_runtime.Guests.Scopes.{HasRoom}
use lantern_runtime.Guests.KeyProbe.{message, probe}
use lantern_runtime.Guests.FileProbe.{content, oversized_len}
use lantern_runtime.Guests.FileProbe
use lantern_runtime.Guests.FileHosting.{KeepsBlock, file_probe-passes, file_probe-refused}
use lantern_runtime.Guests.KeyHosting.{key_probe-passes, key_probe-refused}

-- Wasmtime runs a guest on the state of its store and of what the services keep, which `data_of` finds in
-- the outside.
pub record RunsGuest {W State Data Comp Link Ins : Type 0} (E : Wasmtime W State Comp Link Ins)
    (data_of : W → Data) (guest : Call Data Trap Text) : Type 0 where
  pub data_of-call :
      (probe : Ins) (w : W) → data_of (E.call_probe probe w).0 ≡ (guest (data_of w)).0
  pub report-call :
      (probe : Ins) (w : W) → (E.call_probe probe w).1 ≡ map_err (λ _. tt) (guest (data_of w)).1

module _ {W State Data Comp Link Ins : Type 0} (S : System W) (E : Wasmtime W State Comp Link Ins)
    (R : Linking Link) (data_of : W → Data) (guest : Call Data Trap Text)
    (runs : RunsGuest E data_of guest) where
  -- The two calls of a guest that passes, and then shows the refusal.
  judge-succeeds :
      (checks : ProbeChecks) (probe : Ins) (w w₂ : W) (s₁ s₃ : Data) (report report' : Text)
      → guest (data_of w) ≡ (s₁, ok report)
      → check_report report checks.required ≡ ok tt
      → revoke_during_open_request S checks.open_op (E.call_probe probe w).0 ≡ (w₂, ok tt)
      → guest (data_of w₂) ≡ (s₃, ok report')
      → reports_refusal report' checks.refused ≡ true
      → (judge S E R checks probe w).1 ≡ ok tt
  unfolding judge
  judge-succeeds checks probe w w₂ s₁ s₃ report report' first passes revoked second refuses =
      ground (
        arith,
        runs.report-call probe w,
        runs.report-call probe w₂,
        first,
        passes,
        revoked,
        second,
        refuses,
      )

  -- A first report that does not pass ends the run.
  pub judge-rejects :
      (checks : ProbeChecks) (p : Ins) (w : W) (s : Data) (report : Text) (fault : Fault)
      → guest (data_of w) ≡ (s, ok report)
      → check_report report checks.required ≡ err fault
      → judge S E R checks p w ≡ ((E.call_probe p w).0, err fault)
  unfolding judge
  judge-rejects checks p w s report fault first rejected =
      ground (arith, runs.report-call p w, first, rejected)

module _ {W State Tab K F Comp Link Ins : Type 0} (S : System W) (H : Embedding Tab K F)
    (E : Wasmtime W State Comp Link Ins) (R : Linking Link)
    (data_of : W → RuntimeState Tab K F) where
  -- The confined program succeeds with `confined-probe-guest`: over a lawful table with room, where slot 0
  -- is granted a key and slot 1 nothing, the keystore signs, the revocation goes through and changes
  -- nothing of the store but its keystore, and that then denies the signature.
  pub judge-keystore :
      RunsGuest E data_of (probe (keystore_host H))
      → IsLawful H.table
      → HasRoom H.table
      → (p : Ins) (w w₂ : W) (held : HostCapability) (k k₁ k₂ k₃ : K) (signature : List ℕ)
        (e : KeystoreError)
      → granted (data_of w).keys 0 ≡ some held
      → granted (data_of w).keys 1 ≡ none
      → held.service ≡ ServiceEndpoint.keystore
      → (data_of w).keystore ≡ some k
      → H.keystore.sign held.badge held.key message k ≡ (k₁, ok signature)
      → revoke_during_open_request S H.wire.op_sign (E.call_probe p w).0 ≡ (w₂, ok tt)
      → data_of w₂ ≡ record (data_of (E.call_probe p w).0) { keystore = some k₂ }
      → H.keystore.sign held.badge held.key message k₂ ≡ (k₃, err e)
      → to_error_code H.wire e ≡ access
      → (judge S E R (keystore_checks H.wire) p w).1 ≡ ok tt
  judge-keystore runs L room p w w₂ held k k₁ k₂ k₃ signature e bound shut serves attached signed
        revoked after refused denied =
      let s = data_of w in
      let (h, t, pushed) = room s.table (key_entry held) in
      let (report, passes, (s₁, first, kept, same)) =
        key_probe-passes H L s held h t k k₁ bound serves pushed attached signature signed shut in
      let s₂ : RuntimeState Tab K F = record s { table = s₁.table; keystore = some k₂ } in
      let second : data_of w₂ ≡ s₂ = ground (arith, after, runs.data_of-call p w, first, kept) in
      let (h', t', pushed') = room s₁.table (key_entry held) in
      let (report', refuses, (s₃, last, kept', same')) =
        key_probe-refused H L s₂ held h' t' k₂ k₃ bound serves pushed' refl e refused denied in
      judge-succeeds S E R data_of (probe (keystore_host H)) runs (keystore_checks H.wire) p w w₂ s₁
        s₃ report report' first passes revoked (rw second last) refuses

  -- The confined program succeeds with `confined-fs-guest`: over a lawful table with room, where slot 0 is
  -- granted a file and slot 1 nothing, the file is empty, the store takes the guest's content and keeps a
  -- block, a block holds that content and no 257 bytes, the revocation goes through and changes nothing of
  -- the store but its filesystem, and that then denies the read, with a code that prints as the host expects.
  pub judge-filesystem :
      (debug : ErrorCode → Text)
      → RunsGuest E data_of (FileProbe.probe (filesystem_host H) debug)
      → IsLawful H.table
      → HasRoom H.table
      → (Holds : ℕ → ℕ → List ℕ → F → Type 0) → KeepsBlock H.wire H.filesystem Holds
      → length content ≤ H.wire.max_block_len
      → H.wire.max_block_len < oversized_len
      → (p : Ins) (w w₂ : W) (held : HostFile) (f f₁ f₂ f₃ : F) (e : StoreError)
      → granted (data_of w).files 0 ≡ some held
      → granted (data_of w).files 1 ≡ none
      → held.service ≡ ServiceEndpoint.filesystem
      → (data_of w).filesystem ≡ some f
      → H.filesystem.read held.badge held.file (replicate H.wire.max_block_len 0) f
        ≡ (f₁, err StoreError.file_empty)
      → (H.filesystem.write held.badge held.file content f₁).1 ≡ ok tt
      → revoke_during_open_request S H.wire.op_read (E.call_probe p w).0 ≡ (w₂, ok tt)
      → data_of w₂ ≡ record (data_of (E.call_probe p w).0) { filesystem = some f₂ }
      → H.filesystem.read held.badge held.file (replicate H.wire.max_block_len 0) f₂ ≡ (f₃, err e)
      → read_answer H.wire (err e) ≡ err access
      → contains (debug access) quoted_access ≡ true
      → (judge S E R (filesystem_checks H.wire) p w).1 ≡ ok tt
  judge-filesystem debug runs L room Holds keeps fits small p w w₂ held f f₁ f₂ f₃ e bound shut
        serves attached fresh accepted revoked after denied code quoted =
      let s = data_of w in
      let (h, t, pushed) = room s.table (file_entry held) in
      let (report, f', passes, holds, (s₁, first, kept, same)) =
        file_probe-passes H L debug s held h t bound serves pushed Holds f f₁ keeps fits small
          attached shut fresh accepted in
      let s₂ : RuntimeState Tab K F = record s { table = s₁.table; filesystem = some f₂ } in
      let second : data_of w₂ ≡ s₂ = ground (arith, after, runs.data_of-call p w, first, kept) in
      let (h', t', pushed') = room s₁.table (file_entry held) in
      let (report', refuses, (s₃, last, kept', same')) =
        file_probe-refused H L debug s₂ held h' t' bound serves pushed' f₂ f₃ e refl denied code
          quoted in
      judge-succeeds S E R data_of (FileProbe.probe (filesystem_host H) debug) runs
        (filesystem_checks H.wire) p w w₂ s₁ s₃ report report' first passes revoked (rw second last)
        refuses

-- ===== src/Confined/Verdict.antt =====
-- What it takes for the confined program to report success (`confined-runtime/src/lib.rs`).
use lantern_runtime.Base.{
  ℕ, zero, suc, ◌+◌, ◌≡◌, ◌≢◌, ◌⊎◌, inl, inr, refl, none, some, true, false, not, List, [], ◌∷◌,
  arith, Bool-cases,
}
use lantern_runtime.Base.Exec.{Exec, ok, err, panic}
use lantern_runtime.Host.Records.{GrantManifest}
use lantern_runtime.Host.Linker.{Linking}
use lantern_runtime.Confined.Stage.{Stage, endpoint_cptr, dest_cptr, probe_cptr}
use lantern_runtime.Confined.System.{System, Wasmtime}
use lantern_runtime.Confined.Text.{Text, starts_with, contains, position}
use lantern_runtime.Confined.Package.{VerifiedPackage}
use lantern_runtime.Confined.Chains.{bind-ok}
use lantern_runtime.Confined.Grant.{self_checks, request_grant}
use lantern_runtime.Confined.Probe.{
  ProbeChecks, ok_prefix, check_report, reports_refusal, revoke_during_open_request, prepare, judge,
  run_probe,
}

-- Every marker is in the report.
abbrev pub HasAll : Text → List Text → Type 0
HasAll report [] = Unit {0}
HasAll report (m ∷ ms) = (contains report m ≡ true) × HasAll report ms

-- The marker at an index is missing, and those before it are not.
abbrev pub FirstMissing : Text → List Text → ℕ → Type 0
FirstMissing report [] i = ⊥
FirstMissing report (m ∷ ms) zero = contains report m ≡ false
FirstMissing report (m ∷ ms) (suc i) = (contains report m ≡ true) × FirstMissing report ms i

markers :
    (report : Text) (required : List Text)
    → ((position (λ marker. not (contains report marker)) required ≡ none) × HasAll report required)
      ⊎ ((i : ℕ) × (position (λ marker. not (contains report marker)) required ≡ some i)
          × FirstMissing report required i)
unfolding position
markers report [] = inl (refl, tt)
markers report (m ∷ ms) = elim (Bool-cases (contains report m)) [
  | inr gone ↦ inr (0, ground (arith, gone), gone)
  | inl there ↦ elim (markers report ms) [
    | inl (none_missing, all) ↦ inl (ground (arith, there, none_missing), (there, all))
    | inr (i, found, first) ↦ inr (suc i, ground (arith, there, found), (there, first))
  ]
]

-- A report passes if it starts with the prefix and has every marker; one without the prefix fails with
-- detail 0, and one without some marker with one more than the index of the first that is missing.
check_report-cases :
    (report : Text) (required : List Text)
    → ((check_report report required ≡ ok tt)
        × (starts_with report ok_prefix ≡ true)
        × HasAll report required)
      ⊎ ((check_report report required ≡ err (Stage.verdict, 0))
          × (starts_with report ok_prefix ≡ false))
      ⊎ ((i : ℕ) × (check_report report required ≡ err (Stage.verdict, i + 1))
          × (starts_with report ok_prefix ≡ true)
          × FirstMissing report required i)
unfolding check_report
check_report-cases report required = elim (Bool-cases (starts_with report ok_prefix)) [
  | inr bad ↦ inr (inl (ground (arith, bad), bad))
  | inl good ↦ elim (markers report required) [
    | inl (none_missing, all) ↦ inl (ground (arith, good, none_missing), good, all)
    | inr (i, found, first) ↦ inr (inr (i, ground (arith, good, found), good, first))
  ]
]

passing :
    (report : Text) (required : List Text)
    → check_report report required ≡ ok tt
    → (starts_with report ok_prefix ≡ true) × HasAll report required
passing report required h = elim (check_report-cases report required) [
  | inl (_, prefixed, all) ↦ (prefixed, all)
  | inr (inl (bad, _)) ↦ cc
  | inr (inr (i, bad, _, _)) ↦ cc
]

Exec-cases :
    {E A : Type 0} (r : Exec E A) → ((a : A) × (r ≡ ok a)) ⊎ (((e : E) × (r ≡ err e)) ⊎ (r ≡ panic))
Exec-cases (ok a) = inl (a, refl)
Exec-cases (err e) = inr (inl (e, refl))
Exec-cases panic = inr (inr refl)

module _ {W : Type 0} (S : System W) where
  -- The program takes its slot as granted only if the binder granted it, then declined to bind it
  -- again, the service refused to grant under the badge received, and the binder listed nothing and
  -- revoked nothing for it.
  pub request_grant-checked :
      (interface : ℕ) (w : W)
      → (request_grant S interface w).1 ≡ ok true
      → let bound = S.bind endpoint_cptr dest_cptr interface 0 w in
        let again = S.bind endpoint_cptr probe_cptr interface 0 bound.0 in
        let asked = S.request_grant dest_cptr probe_cptr 0 0xf again.0 in
        let listed = S.list endpoint_cptr 0 asked.0 in
        let revoked = S.revoke endpoint_cptr 0 listed.0 in
        (bound.1 ≡ ok true)
        × (again.1 ≡ ok false)
        × (asked.1 ≡ ok S.status_access)
        × (listed.1 ≡ ok none)
        × (revoked.1 ≢ ok S.status_ok)
  unfolding request_grant self_checks
  request_grant-checked interface w h = ground arith

  module _ {State Comp Link Ins : Type 0} (E : Wasmtime W State Comp Link Ins)
      (R : Linking Link) where
    judge-ok :
        (checks : ProbeChecks) (probe : Ins) (w : W)
        → (judge S E R checks probe w).1 ≡ ok tt
        → let first = E.call_probe probe w in
          let revoked = revoke_during_open_request S checks.open_op first.0 in
          let second = E.call_probe probe revoked.0 in
          (report report' : Text) × (first.1 ≡ ok report)
          × (check_report report checks.required ≡ ok tt)
          × (revoked.1 ≡ ok tt)
          × (second.1 ≡ ok report')
          × (reports_refusal report' checks.refused ≡ true)
    unfolding judge
    judge-ok checks probe w h =
        let first = E.call_probe probe w in
        let revoked = revoke_during_open_request S checks.open_op first.0 in
        let second = E.call_probe probe revoked.0 in
        elim (Exec-cases first.1) [
          | inr bad ↦ ground arith
          | inl (report, e) ↦ elim (Exec-cases second.1) [
            | inr bad' ↦ ground arith
            | inl (report', e') ↦ (report, report', e, ground arith, ground arith, e', ground arith)
          ]
        ]

    -- The guest's run succeeds only if its first report starts with the prefix and has every marker
    -- asked for, then the grant was revoked as it must be, and then the guest's second report shows
    -- the refusal.
    pub run_probe-passes :
        (lpkg : VerifiedPackage) (m : GrantManifest) (state : State) (checks : ProbeChecks) (w : W)
        → (run_probe S E R lpkg m state checks w).1 ≡ ok tt
        → let readied = prepare S E R lpkg m state w in
          (probe : Ins) × (report : Text) × (report' : Text) × (let first =
              E.call_probe probe readied.0 in
            let revoked = revoke_during_open_request S checks.open_op first.0 in
            (readied.1 ≡ ok probe)
            × (first.1 ≡ ok report)
            × (starts_with report ok_prefix ≡ true)
            × HasAll report checks.required
            × (revoked.1 ≡ ok tt)
            × ((E.call_probe probe revoked.0).1 ≡ ok report')
            × (reports_refusal report' checks.refused ≡ true))
    unfolding run_probe
    run_probe-passes lpkg m state checks w h =
        let (probe, ready, h') = bind-ok (prepare S E R lpkg m state) (judge S E R checks) w tt h in
        let (report, report', called, checked, revoked, called', refusal) =
          judge-ok checks probe (prepare S E R lpkg m state w).0 h' in
        let (prefixed, all) = passing report checks.required checked in
        (probe, report, report', (ready, called, prefixed, all, revoked, called', refusal))

-- ===== src/Tests/Confined.antt =====
-- The confined program on a kernel that does nothing, and its theorems there. The outside is a number
-- that counts the signals.
use lantern_runtime.Base.{
  ℕ, ◌+◌, ◌≡◌, ◌≢◌, ◌↔◌, refl, Option, none, some, Bool, true, false, List, [], ◌∷◌, ◌==◌,
  if◌then◌else◌,
}
use lantern_runtime.Base.Exec.{ok}
use lantern_runtime.Host.Linker.{Linking, build_linker}
use lantern_runtime.Confined.Stage.{endpoint_cptr, dest_cptr, probe_cptr}
use lantern_runtime.Confined.System.{System, PackageRef, Sdk, Wasmtime}
use lantern_runtime.Confined.Text.{starts_with, contains, position}
use lantern_runtime.Confined.Package.{VerifiedPackage, tamper, trusted, any, verify_package}
use lantern_runtime.Confined.Grant.{request_grant, self_checks}
use lantern_runtime.Confined.Probe.{
  ProbeChecks, ok_prefix, check_report, send_empty_chunk, revoke_during_open_request,
  reports_refusal, prepare, judge, run_probe,
}
use lantern_runtime.Confined.Program.{keystore_grants, slots}
use lantern_runtime.Confined.Genuine.{Genuine, verify_package-Genuine}
use lantern_runtime.Confined.Verdict.{HasAll, request_grant-checked, run_probe-passes}

-- A request that leaves more to come is taken, and one that ends is denied: the grant was revoked. The
-- binder grants into the slot for the service, and no other.
abbrev pub system : System ℕ
system = record {
  bind = λ endpoint dest interface slot w. (w, ok (dest == 2));
  request_grant = λ endpoint dest slot ops w. (w, ok 3);
  list = λ endpoint slot w. (w, ok none);
  revoke = λ endpoint slot w. (w, ok 3);
  interface_keystore = 0;
  interface_filesystem = 1;
  status_ok = 0;
  status_access = 3;
  flag_more = 1;
  request_header = λ op flags arg_len offset. op ∷ flags ∷ [];
  signal = λ cptr w. (w + 1, ok tt);
  wait = λ cptr w. (w, ok tt);
  call_with_label = λ cptr op w. (w, ok (if w == 0 then 0 else 3));
  signal_with = λ cptr stage detail w. w + 1;
  init_heap = λ base len w. w;
  report_panics_via = λ cptr w. w;
  heap_top = λ w. 0x86200000;
  load = λ addr len w. 1 ∷ 2 ∷ 3 ∷ [];
  store = λ addr bytes w. w;
}

-- A package is its manifest, its artifact and a signature of one byte each, which must agree.
abbrev decode : List ℕ → Option PackageRef
decode (m ∷ c ∷ s ∷ []) =
    some (record { manifest_bytes = m ∷ []; cwasm_bytes = c ∷ []; signature = s ∷ [] })
decode _ = none

abbrev agree : List ℕ → List ℕ → List ℕ → Bool
agree (m ∷ []) (c ∷ []) (s ∷ []) = m + c == s
agree _ _ _ = false

abbrev pub sdk : Sdk
sdk = record {
  decode_package_ref = decode;
  verify = λ key lpkg. agree lpkg.manifest_bytes lpkg.cwasm_bytes lpkg.signature;
  parse_plan =
      λ bytes. some (record { keystore = bytes ∷ []; filesystem = []; monotonic_clock = none });
}

abbrev lpkg : PackageRef
lpkg = record { manifest_bytes = 1 ∷ []; cwasm_bytes = 2 ∷ []; signature = 3 ∷ [] }

abbrev pub verified : VerifiedPackage
verified = record { manifest_bytes = 1 ∷ []; cwasm_bytes = 2 ∷ [] }

verify_package-Genuine_example : (verify_package sdk system 3 0 ≡ (0, ok verified)) ↔ (
    (lpkg : PackageRef) × Genuine system sdk 3 0 lpkg
    × (verified ≡ record { manifest_bytes = lpkg.manifest_bytes; cwasm_bytes = lpkg.cwasm_bytes }))
verify_package-Genuine_example = verify_package-Genuine system sdk 3 0 verified

pub accepted : verify_package sdk system 3 0 ≡ (0, ok verified)
unfolding verify_package trusted any tamper
accepted = refl

abbrev good_report : List ℕ
good_report = 111 ∷ 107 ∷ 58 ∷ 32 ∷ 9 ∷ []

request_grant-checked_example :
    let bound = system.bind endpoint_cptr dest_cptr 0 0 5 in
    let again = system.bind endpoint_cptr probe_cptr 0 0 bound.0 in
    let asked = system.request_grant dest_cptr probe_cptr 0 0xf again.0 in
    let listed = system.list endpoint_cptr 0 asked.0 in
    let revoked = system.revoke endpoint_cptr 0 listed.0 in
    (bound.1 ≡ ok true)
    × (again.1 ≡ ok false)
    × (asked.1 ≡ ok 3)
    × (listed.1 ≡ ok none)
    × (revoked.1 ≢ ok 0)
unfolding request_grant self_checks
request_grant-checked_example = request_grant-checked system 0 5 refl

-- The guest reports the refusal once the grant was revoked.
abbrev wasmtime : Wasmtime ℕ ℕ (List ℕ) ℕ ℕ
wasmtime = record {
  deserialize = λ cwasm w. (w, ok cwasm);
  define_unknown_imports_as_traps = λ l c w. (w, ok l);
  new_store = λ state w. w;
  set_fuel = λ fuel w. (w, ok tt);
  instantiate = λ l c w. (w, ok 4);
  get_probe = λ i w. (w, ok i);
  call_probe = λ i w.
      (w, ok (if w == 0 then good_report else 101 ∷ 114 ∷ 114 ∷ 111 ∷ 114 ∷ 58 ∷ 32 ∷ 8 ∷ []));
}

abbrev pub linking : Linking ℕ
linking = record { new = 0; add_to_linker = λ i l. ok l; linked = λ l i. false }

abbrev checks : ProbeChecks
checks = record { required = (9 ∷ []) ∷ []; open_op = 6; refused = 8 ∷ [] }

run_probe-passes_example :
    let m = keystore_grants ([] ∷ []) true in
    let readied = prepare system wasmtime linking verified m 0 0 in
    (probe : ℕ) × (report : List ℕ) × (report' : List ℕ) × (let first =
        wasmtime.call_probe probe readied.0 in
      let revoked = revoke_during_open_request system 6 first.0 in
      (readied.1 ≡ ok probe)
      × (first.1 ≡ ok report)
      × (starts_with report ok_prefix ≡ true)
      × HasAll report ((9 ∷ []) ∷ [])
      × (revoked.1 ≡ ok tt)
      × ((wasmtime.call_probe probe revoked.0).1 ≡ ok report')
      × (reports_refusal report' (8 ∷ []) ≡ true))
unfolding run_probe prepare judge check_report revoke_during_open_request send_empty_chunk
    starts_with contains position build_linker keystore_grants slots
run_probe-passes_example =
    run_probe-passes system wasmtime linking verified (keystore_grants ([] ∷ []) true) 0 checks 0
      refl

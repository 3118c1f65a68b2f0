-- ===== src/Tests/Guests.antt =====
-- The two guests on a runtime whose services can be revoked, under a program whose kernel revokes them.
use lantern_runtime.Base.{
  ℕ, ◌≡◌, ◌≤◌, refl, Option, none, some, Bool, true, false, List, [], ◌∷◌, length, replicate,
  if◌then◌else◌, ◌==◌, arith,
}
use lantern_runtime.Base.Exec.{Exec, ok, err, map_err, Call}
use lantern_runtime.Host.Errors.{to_error_code, to_fs_error_code}
use lantern_runtime.Host.Files.{read_answer, ask_filesystem}
use lantern_runtime.Confined.Text.{starts_with, contains}
use lantern_runtime.Guests.Interface.{Trap}
use lantern_runtime.Tests.Confined.{linking}
use lantern_runtime.Host.Records.{keystore_key, filesystem_file}
use lantern_runtime.Host.Errors.{KeystoreError, StoreError, ErrorCode, access, invalid, Wire}
use lantern_runtime.Host.Services.{Entry, KeystoreService, FilesystemService, Embedding}
use lantern_runtime.Host.State.{RuntimeState, granted, keystore_cap, ask_keystore, file_cap}
use lantern_runtime.Host.Keys
use lantern_runtime.Host.Files
use lantern_runtime.Confined.Text.{Text, codes}
use lantern_runtime.Confined.Probe.{
  reports_refusal, judge, revoke_during_open_request, send_empty_chunk,
}
use lantern_runtime.Confined.Program.{keystore_checks, filesystem_checks}
use lantern_runtime.Confined.System.{System, Wasmtime}
use lantern_runtime.Guests.Interface.{keystore_host, filesystem_host}
use lantern_runtime.Guests.Scopes.{HasRoom}
use lantern_runtime.Guests.KeyHosting.{key_probe-refused}
use lantern_runtime.Guests.KeyHosting
use lantern_runtime.Guests.FileHosting.{KeepsBlock, file_probe-refused}
use lantern_runtime.Guests.FileHosting
use lantern_runtime.Guests.Judged.{RunsGuest, judge-keystore, judge-filesystem}
use lantern_runtime.Guests.KeyProbe
use lantern_runtime.Guests.FileProbe
use lantern_runtime.Tests.Table.{Places, places, places-IsLawful}
use lantern_runtime.Tests.Services.{wire, fill, take-fill}

abbrev pub roomy : Wire
roomy = record wire { max_block_len = 256 }

-- The state says whether the badge was revoked.
abbrev pub keystore : KeystoreService Bool
keystore = record {
  encrypt = λ badge key nonce aad body revoked. (revoked, err KeystoreError.op_not_granted);
  decrypt = λ badge key nonce aad body tag revoked. (revoked, err KeystoreError.op_not_granted);
  sign = λ badge key message revoked. (
    revoked,
    if revoked then err KeystoreError.badge_revoked else ok (length message ∷ 5 ∷ 255 ∷ []),
  );
}

-- One block, while the badge is not revoked.
abbrev pub Store : Type 0
Store = Option (Option (List ℕ))

abbrev read_block : List ℕ → Store → Exec StoreError (List ℕ × ℕ)
read_block buffer none = err StoreError.badge_revoked
read_block buffer (some none) = err StoreError.file_empty
read_block buffer (some (some bytes)) = ok (fill bytes buffer, length bytes)

abbrev pub filesystem : FilesystemService Store
filesystem = record {
  read = λ badge file buffer f. (f, read_block buffer f);
  write = λ badge file bytes f. (some (some bytes), ok tt);
}

abbrev pub host : Embedding Places Bool Store
host = record { wire = roomy; table = places; keystore = keystore; filesystem = filesystem }

abbrev pub started : RuntimeState Places Bool Store
started = record {
  table = [];
  keys = some (keystore_key 171 4) ∷ none ∷ [];
  files = some (filesystem_file 9 6) ∷ [];
  keystore = some false;
  filesystem = some (some none);
  clock = none;
}

abbrev pub Keeps : ℕ → ℕ → List ℕ → Store → Type 0
Keeps badge file bytes f = (f ≡ some (some bytes)) × (length bytes ≤ 256)

pub filesystem-KeepsBlock : KeepsBlock roomy filesystem Keeps
filesystem-KeepsBlock = record {
  write-Holds = λ badge file bytes f f' fresh fits done. (refl, fits);
  read-Holds = λ badge file bytes f (same, fits). (
    f,
    fill bytes (replicate 256 0),
    rw same refl,
    take-fill bytes (replicate 256 0) fits,
    (same, fits),
  );
}

pub places-HasRoom : HasRoom places
places-HasRoom t e = (length t, _, refl)

-- `{:?}` of the bindings.
abbrev pub debug : ErrorCode → Text
debug access = codes "ErrorCode { code: 0, name: \"access\" }"
debug invalid = codes "ErrorCode { code: 1, name: \"invalid\" }"

revoked_key_refused :
    (report : Text) × (reports_refusal report (keystore_checks roomy).refused ≡ true)
    × KeyHosting.Leaves host (record started { keystore = some true }) true report
unfolding granted to_error_code
revoked_key_refused =
    key_probe-refused host places-IsLawful (record started { keystore = some true })
      (keystore_key 171 4) 0 (some (Entry.key_entry (keystore_key 171 4)) ∷ []) true true refl refl
      refl refl KeystoreError.badge_revoked refl refl

revoked_file_refused :
    (report : Text) × (reports_refusal report (filesystem_checks roomy).refused ≡ true)
    × FileHosting.Leaves host debug (record started { filesystem = some none }) none report
unfolding granted read_answer to_fs_error_code contains starts_with
revoked_file_refused =
    file_probe-refused host places-IsLawful debug (record started { filesystem = some none })
      (filesystem_file 9 6) 0 (some (Entry.file_entry (filesystem_file 9 6)) ∷ []) refl refl refl
      none none StoreError.badge_revoked refl refl refl refl

-- A kernel whose signal revokes a service, which then denies. What is outside of the program is the guest's
-- store.
abbrev pub revoking :
    (RuntimeState Places Bool Store → RuntimeState Places Bool Store)
    → (RuntimeState Places Bool Store → Bool)
    → System (RuntimeState Places Bool Store)
revoking change revoked = record {
  bind = λ endpoint dest interface slot w. (w, ok (dest == 2));
  request_grant = λ endpoint dest slot ops w. (w, ok 3);
  list = λ endpoint slot w. (w, ok none);
  revoke = λ endpoint slot w. (w, ok 3);
  interface_keystore = 0;
  interface_filesystem = 1;
  status_ok = 0;
  status_access = 3;
  flag_more = 1;
  request_header = λ op flags arg_len offset. [];
  signal = λ cptr w. (change w, ok tt);
  wait = λ cptr w. (w, ok tt);
  call_with_label = λ cptr op w. (w, ok (if revoked w then 3 else 0));
  signal_with = λ cptr stage detail w. w;
  init_heap = λ base len w. w;
  report_panics_via = λ cptr w. w;
  heap_top = λ w. 0x86201000;
  load = λ addr len w. 1 ∷ 2 ∷ 3 ∷ [];
  store = λ addr bytes w. w;
}

abbrev running :
    Call (RuntimeState Places Bool Store) Trap Text
    → Wasmtime (RuntimeState Places Bool Store) (RuntimeState Places Bool Store) (List ℕ) ℕ ℕ
running guest = record {
  deserialize = λ cwasm w. (w, ok cwasm);
  define_unknown_imports_as_traps = λ l c w. (w, ok l);
  new_store = λ state w. state;
  set_fuel = λ fuel w. (w, ok tt);
  instantiate = λ l c w. (w, ok 4);
  get_probe = λ i w. (w, ok i);
  call_probe = λ i w. ((guest w).0, map_err (λ _. tt) (guest w).1);
}

running-RunsGuest :
    (guest : Call (RuntimeState Places Bool Store) Trap Text)
    → RunsGuest (running guest) (λ w. w) guest
running-RunsGuest guest = record { data_of-call = λ probe w. refl; report-call = λ probe w. refl }

abbrev pub no_key : RuntimeState Places Bool Store → RuntimeState Places Bool Store
no_key w = record w { keystore = some true }

abbrev pub key_revoked : RuntimeState Places Bool Store → Bool
key_revoked w = elim w.keystore [ some false ↦ false | _ ↦ true ]

key_guest_judged :
    (judge
      (revoking no_key key_revoked)
      (running (KeyProbe.probe (keystore_host host)))
      linking
      (keystore_checks roomy)
      4
      started).1
    ≡ ok tt
unfolding granted to_error_code revoke_during_open_request send_empty_chunk KeyProbe.probe
    KeyProbe.with_key KeyProbe.after_sign Keys.open_key Keys.sign Keys.drop_key keystore_cap
    ask_keystore
key_guest_judged =
    let guest = KeyProbe.probe (keystore_host host) in
    judge-keystore (revoking no_key key_revoked) host (running guest) linking (λ w. w)
      (running-RunsGuest guest) places-IsLawful places-HasRoom 4 started (no_key (guest started).0)
      (keystore_key 171 4) false false true true (_ ∷ 5 ∷ 255 ∷ []) KeystoreError.badge_revoked refl
      refl refl refl refl refl refl refl refl

abbrev pub no_file : RuntimeState Places Bool Store → RuntimeState Places Bool Store
no_file w = record w { filesystem = some none }

abbrev pub file_revoked : RuntimeState Places Bool Store → Bool
file_revoked w = elim w.filesystem [ some (some block) ↦ false | _ ↦ true ]

file_guest_judged :
    (judge
      (revoking no_file file_revoked)
      (running (FileProbe.probe (filesystem_host host) debug))
      linking
      (filesystem_checks roomy)
      4
      started).1
    ≡ ok tt
unfolding granted read_answer to_fs_error_code contains starts_with revoke_during_open_request
    send_empty_chunk FileProbe.probe FileProbe.with_file FileProbe.after_fresh FileProbe.after_write
    FileProbe.after_read_back FileProbe.after_oversized FileProbe.after_intact
    FileProbe.final_report FileProbe.same_bytes Files.open_file Files.read Files.write
    Files.drop_file file_cap ask_filesystem fill
file_guest_judged =
    let guest = FileProbe.probe (filesystem_host host) debug in
    judge-filesystem (revoking no_file file_revoked) host (running guest) linking (λ w. w) debug
      (running-RunsGuest guest) places-IsLawful places-HasRoom Keeps filesystem-KeepsBlock
      (omega arith) (omega arith) 4 started (no_file (guest started).0) (filesystem_file 9 6)
      (some none) (some none) none none StoreError.badge_revoked refl refl refl refl refl refl refl
      refl refl refl refl

-- ===== src/Tests/Programs.antt =====
-- The whole confined program with each guest, under a kernel whose signal revokes the service.
use lantern_runtime.Base.{ℕ, ◌≡◌, refl, none, some, Bool, true, false, List, [], ◌∷◌, Option, arith}
use lantern_runtime.Base.Exec.{ok, map_err, Call}
use lantern_runtime.Host.Errors.{KeystoreError, StoreError, to_error_code, to_fs_error_code}
use lantern_runtime.Host.State.{
  RuntimeState, granted, new, with_keystore, with_filesystem, keystore_cap, file_cap, ask_keystore,
}
use lantern_runtime.Host.Keys
use lantern_runtime.Host.Files
use lantern_runtime.Host.Files.{read_answer, ask_filesystem}
use lantern_runtime.Host.Linker.{build_linker}
use lantern_runtime.Ipc.Channel.{Channel}
use lantern_runtime.Ipc.Keystore
use lantern_runtime.Ipc.Messages.{encrypt_request}
use lantern_runtime.Confined.System.{System, Sdk, Wasmtime}
use lantern_runtime.Confined.Text.{Text, starts_with, contains}
use lantern_runtime.Confined.Package.{verify_package, trusted, any, tamper, plan}
use lantern_runtime.Confined.Grant.{request_grant, self_checks}
use lantern_runtime.Confined.Probe.{prepare, judge, revoke_during_open_request, send_empty_chunk}
use lantern_runtime.Confined.Program.{
  Client, slots, keystore_grants, filesystem_grants, keystore_checks, filesystem_checks, run,
}
use lantern_runtime.Guests.Interface.{Trap, keystore_host, filesystem_host}
use lantern_runtime.Guests.KeyProbe
use lantern_runtime.Guests.FileProbe
use lantern_runtime.Guests.Judged.{RunsGuest}
use lantern_runtime.Guests.Ungranted.{keystore_program-ungranted, filesystem_program-ungranted}
use lantern_runtime.Confined.Stage.{Stage, code, failure_cptr}
use lantern_runtime.Guests.Programs.{near, keystore_program-succeeds, filesystem_program-succeeds}
use lantern_runtime.Tests.Table.{Places, places-IsLawful}
use lantern_runtime.Tests.Services.{fill}
use lantern_runtime.Tests.Remote.{codec}
use lantern_runtime.Tests.Confined.{sdk, linking, verified}
use lantern_runtime.Tests.Hosting.{hosted}
use lantern_runtime.Tests.Guests.{
  Store, Keeps, host, roomy, debug, revoking, no_key, key_revoked, no_file, file_revoked,
  places-HasRoom, filesystem-KeepsBlock,
}

abbrev Outside : Type 0
Outside = RuntimeState Places Bool Store

abbrev empty : Outside
empty = record {
  table = [];
  keys = [];
  files = [];
  keystore = none;
  filesystem = none;
  clock = none;
}

-- What the store of a program's state becomes, with both services at their start.
abbrev attached : {A B : Type 0} → A → Option B → Option A
attached a none = none
attached a (some b) = some a

abbrev stored : RuntimeState Places Client Client → Outside
stored s = record {
  table = s.table;
  keys = s.keys;
  files = s.files;
  keystore = attached false s.keystore;
  filesystem = attached (some none) s.filesystem;
  clock = s.clock;
}

abbrev running :
    Call Outside Trap Text → Wasmtime Outside (RuntimeState Places Client Client) (List ℕ) ℕ ℕ
running guest = record {
  deserialize = λ cwasm w. (w, ok cwasm);
  define_unknown_imports_as_traps = λ l c w. (w, ok l);
  new_store = λ state w. stored state;
  set_fuel = λ fuel w. (w, ok tt);
  instantiate = λ l c w. (w, ok 4);
  get_probe = λ i w. (w, ok i);
  call_probe = λ i w. ((guest w).0, map_err (λ _. tt) (guest w).1);
}

running-RunsGuest : (guest : Call Outside Trap Text) → RunsGuest (running guest) (λ w. w) guest
running-RunsGuest guest = record { data_of-call = λ probe w. refl; report-call = λ probe w. refl }

-- The far keystore denies every call of the program itself.
abbrev denying : Channel Outside
denying = record { call = λ op request reply w. (w, ok ([], 1, 0)) }

abbrev files_sdk : Sdk
files_sdk = record sdk {
  parse_plan =
      λ bytes. some (record { keystore = []; filesystem = bytes ∷ []; monotonic_clock = none });
}

abbrev key_guest : Call Outside Trap Text
key_guest = KeyProbe.probe (keystore_host host)

-- The store as the program hands it to the guest.
abbrev keyed : Outside
keyed = stored (
    with_keystore
      (near (revoking no_key key_revoked) sdk linking host hosted.keystore hosted.filesystem
        (running key_guest) codec denying (λ w. w))
      (new hosted (keystore_grants ((1 ∷ []) ∷ []) true))
      (record { endpoint = 2; frame = 0x90000000 }))

keystore_program-succeeds_example :
    let S = revoking no_key key_revoked in
    let E = running key_guest in
    run S sdk linking
      (near S sdk linking host hosted.keystore hosted.filesystem E codec denying (λ w. w))
      E
      codec
      denying
      3
      empty
    ≡ (judge S E linking (keystore_checks roomy) 4 keyed).0
unfolding granted to_error_code revoke_during_open_request send_empty_chunk KeyProbe.probe
    KeyProbe.with_key KeyProbe.after_sign Keys.open_key Keys.sign Keys.drop_key keystore_cap
    ask_keystore verify_package trusted any tamper plan request_grant self_checks prepare
    build_linker Keystore.encrypt encrypt_request new with_keystore keystore_grants slots
keystore_program-succeeds_example =
    let S = revoking no_key key_revoked in
    let E = running key_guest in
    keystore_program-succeeds S sdk linking host hosted.keystore hosted.filesystem E codec denying
      (λ w. w) (running-RunsGuest key_guest) places-IsLawful places-HasRoom 3 empty empty empty
      empty keyed (no_key (key_guest keyed).0) verified (1 ∷ []) [] 4 false false true true
      (_ ∷ 5 ∷ 255 ∷ []) KeystoreError.badge_revoked refl refl refl refl refl refl refl refl refl
      refl refl

abbrev file_guest : Call Outside Trap Text
file_guest = FileProbe.probe (filesystem_host host) debug

abbrev filed : Outside
filed = stored (
    with_filesystem
      (near (revoking no_file file_revoked) files_sdk linking host hosted.keystore hosted.filesystem
        (running file_guest) codec denying (λ w. w))
      (new hosted (filesystem_grants ((1 ∷ []) ∷ []) true))
      (record { endpoint = 2; frame = 0x90000000 }))

filesystem_program-succeeds_example :
    let S = revoking no_file file_revoked in
    let E = running file_guest in
    run S files_sdk linking
      (near S files_sdk linking host hosted.keystore hosted.filesystem E codec denying (λ w. w))
      E
      codec
      denying
      3
      empty
    ≡ (judge S E linking (filesystem_checks roomy) 4 filed).0
unfolding granted read_answer to_fs_error_code contains starts_with revoke_during_open_request
    send_empty_chunk FileProbe.probe FileProbe.with_file FileProbe.after_fresh FileProbe.after_write
    FileProbe.after_read_back FileProbe.after_oversized FileProbe.after_intact
    FileProbe.final_report FileProbe.same_bytes Files.open_file Files.read Files.write
    Files.drop_file file_cap ask_filesystem fill verify_package trusted any tamper plan
    request_grant self_checks prepare build_linker new with_filesystem filesystem_grants slots
filesystem_program-succeeds_example =
    let S = revoking no_file file_revoked in
    let E = running file_guest in
    filesystem_program-succeeds S files_sdk linking host hosted.keystore hosted.filesystem E codec
      denying (λ w. w) debug (running-RunsGuest file_guest) places-IsLawful places-HasRoom Keeps
      filesystem-KeepsBlock (omega arith) (omega arith) 3 empty empty empty filed
      (no_file (file_guest filed).0) verified (1 ∷ []) [] 4 (some none) (some none) none none
      StoreError.badge_revoked refl refl refl refl refl refl refl refl refl refl refl refl

-- A binder that grants nothing.
abbrev stingy : System Outside
stingy = record (revoking no_key key_revoked) {
  bind = λ endpoint dest interface slot w. (w, ok false);
}

abbrev unkeyed : Outside
unkeyed = record keyed { keys = none ∷ [] }

keystore_program-ungranted_example :
    let E = running key_guest in
    (run stingy sdk linking
        (near stingy sdk linking host hosted.keystore hosted.filesystem E codec denying (λ w. w))
        E
        codec
        denying
        3
        empty
      ≡ stingy.signal_with failure_cptr (code Stage.verdict) 0 (E.call_probe 4 unkeyed).0)
    × ((E.call_probe 4 unkeyed).0 ≡ unkeyed)
unfolding verify_package trusted any tamper plan request_grant self_checks prepare build_linker new
    with_keystore keystore_grants slots
keystore_program-ungranted_example =
    let E = running key_guest in
    keystore_program-ungranted stingy sdk linking host hosted.keystore hosted.filesystem E codec
      denying (λ w. w) (running-RunsGuest key_guest) 3 empty empty empty unkeyed verified (1 ∷ [])
      [] 4 false refl refl refl refl refl

abbrev unfiled : Outside
unfiled = record filed { files = none ∷ [] }

filesystem_program-ungranted_example :
    let E = running file_guest in
    (run stingy files_sdk linking
        (near stingy files_sdk linking host hosted.keystore hosted.filesystem E codec denying
          (λ w. w))
        E
        codec
        denying
        3
        empty
      ≡ stingy.signal_with failure_cptr (code Stage.verdict) 0 (E.call_probe 4 unfiled).0)
    × ((E.call_probe 4 unfiled).0 ≡ unfiled)
unfolding verify_package trusted any tamper plan request_grant self_checks prepare build_linker new
    with_filesystem filesystem_grants slots
filesystem_program-ungranted_example =
    let E = running file_guest in
    filesystem_program-ungranted stingy files_sdk linking host hosted.keystore hosted.filesystem E
      codec denying (λ w. w) debug (running-RunsGuest file_guest) 3 empty empty empty unfiled
      verified (1 ∷ []) [] 4 (some none) refl refl refl refl refl

-- ===== src/Tests/Host.antt =====
-- The mapping of `src/host.rs` run on the concrete embedding, and its theorems there.
use lantern_runtime.Base.{ℕ, ◌≡◌, ◌≤◌, refl, ◌↔◌, Option, none, some, List, [], ◌∷◌, length}
use lantern_runtime.Base.Exec.{ok, err}
use lantern_runtime.Host.Records.{HostCapability, filesystem_file}
use lantern_runtime.Host.Errors.{KeystoreError, StoreError, access, to_error_code, to_fs_error_code}
use lantern_runtime.Host.State.{RuntimeState, start, granted, keystore_cap}
use lantern_runtime.Host.Keys
use lantern_runtime.Host.Files
use lantern_runtime.Host.Files.{read_answer}
use lantern_runtime.Host.Calls.{GuestCall, run}
use lantern_runtime.Host.Confinement.{Confined, run-Confined}
use lantern_runtime.Host.Opening.{TouchesOnly, open_key_grants}
use lantern_runtime.Host.Denial.{KeyDenial, FileDenial, access_iff_denial}
use lantern_runtime.Host.Blocks.{read-le_block, read-write_same}
use lantern_runtime.Tests.Table.{Places, places-IsLawful}
use lantern_runtime.Tests.Services.{
  embedding, manifest, wire, filesystem-KeepsLength, filesystem-GivesBack, MayRead, fill,
}

abbrev State : Type 0
State = RuntimeState Places ℕ (Option (List ℕ))

fresh : State
unfolding start
fresh = start embedding manifest (some 0) (some none)

-- After the key and the file of the manifest were opened: handles 0 and 1.
opened : State
unfolding fresh run Keys.open_key Files.open_file granted
opened = run embedding (GuestCall.open_key 0 ∷ GuestCall.open_file 0 ∷ []) fresh

abbrev calls : List GuestCall
calls =
    GuestCall.open_key 0
    ∷ GuestCall.open_key 1
    ∷ GuestCall.sign 0 (1 ∷ 2 ∷ [])
    ∷ GuestCall.open_file 0
    ∷ GuestCall.write 1 (3 ∷ 4 ∷ [])
    ∷ GuestCall.drop_key 0
    ∷ GuestCall.sign 0 (1 ∷ [])
    ∷ []

-- One signature was asked for: the second one was under a dropped handle.
run-calls : (run embedding calls fresh).keystore ≡ some 1
unfolding opened Keys.sign Keys.drop_key Files.write
run-calls = refl

sign_twice : (Keys.sign embedding 0 (1 ∷ 2 ∷ []) opened).1 ≡ ok (2 ∷ 5 ∷ 5 ∷ [])
unfolding opened Keys.sign
sign_twice = refl

run-Confined_example : Confined embedding manifest (some 0) (some none) (run embedding calls fresh)
unfolding fresh
run-Confined_example = run-Confined embedding manifest (some 0) (some none) places-IsLawful calls

open_key_grants_example :
    (held : HostCapability) × (granted fresh.keys 0 ≡ some held)
    × (keystore_cap embedding fresh 0 ≡ err access)
    × (keystore_cap embedding (Keys.open_key embedding 0 fresh).0 0 ≡ ok held)
    × TouchesOnly embedding 0 fresh (Keys.open_key embedding 0 fresh).0
unfolding fresh Keys.open_key granted
open_key_grants_example = open_key_grants embedding places-IsLawful 0 fresh _ 0 refl

access_iff_denial_example :
    ((to_error_code wire (KeystoreError.remote_denied 1) ≡ access)
      ↔ KeyDenial wire (KeystoreError.remote_denied 1))
    × ((to_fs_error_code wire StoreError.file_empty ≡ access)
        ↔ FileDenial wire StoreError.file_empty)
access_iff_denial_example =
    access_iff_denial wire (KeystoreError.remote_denied 1) StoreError.file_empty

written : State
unfolding opened Files.write
written = (Files.write embedding 1 (3 ∷ 4 ∷ []) opened).0

read-le_block_example : length {A = ℕ} (3 ∷ 4 ∷ []) ≤ 8
unfolding written Files.read read_answer fill
read-le_block_example = read-le_block embedding written 1 filesystem-KeepsLength (3 ∷ 4 ∷ []) refl

read-write_same_example :
    (Files.read embedding 1 (Files.write embedding 1 (3 ∷ 4 ∷ []) opened).0).1 ≡ ok (3 ∷ 4 ∷ [])
unfolding opened Files.write
read-write_same_example =
    read-write_same embedding opened 1 (filesystem_file 9 6) none MayRead filesystem-GivesBack refl
      refl refl refl (3 ∷ 4 ∷ []) refl

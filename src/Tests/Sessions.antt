-- ===== src/Tests/Sessions.antt =====
-- Sessions of a component on the concrete embedding, and over channels in cells.
use lantern_runtime.Base.{
  ℕ, zero, suc, ◌-◌, ◌≡◌, refl, Option, none, some, List, [], ◌∷◌, ap, map, arith,
}
use lantern_runtime.Base.Exec.{ok}
use lantern_runtime.Host.Records.{
  HostCapability, HostFile, keystore_key, filesystem_file, GrantManifest,
}
use lantern_runtime.Host.Services.{Entry}
use lantern_runtime.Host.State.{RuntimeState, start, granted}
use lantern_runtime.Host.Keys
use lantern_runtime.Host.Calls.{GuestCall, run}
use lantern_runtime.Host.Effects.{HoldsKey, HoldsFile}
use lantern_runtime.Host.Typing.{IsMade, IsKey, IsFile, run-Typed}
use lantern_runtime.Host.Sealing.{OpensSealed, decrypt-encrypt_same}
use lantern_runtime.Host.Carries.{with_services, carry}
use lantern_runtime.Host.Answers.{answers}
use lantern_runtime.Ipc.Keystore.{ipc_keystore}
use lantern_runtime.Ipc.Filesystem.{ipc_filesystem}
use lantern_runtime.Ipc.Cell.{new}
use lantern_runtime.Ipc.InCell.{keystore_in_cell, filesystem_in_cell}
use lantern_runtime.Ipc.Cells.{cells-unseen}
use lantern_runtime.Ipc.Sessions.{ipc_session-refines}
use lantern_runtime.Tests.Table.{Places, places, places-IsLawful}
use lantern_runtime.Tests.Services.{embedding, filesystem, keystore, wire}
use lantern_runtime.Tests.Remote.{
  codec, codec-FitsExactly, remote_keystore, remote_keystore-ServesKeys, remote_store,
  remote_store-ServesFiles,
}

abbrev pub one_of_each : GrantManifest
one_of_each = record {
  keystore_keys = some (keystore_key 171 4) ∷ [];
  filesystem_files = some (filesystem_file 9 6) ∷ [];
  monotonic_clock = none;
}

-- The slots of a list of one, as `granted` finds them.
pub only_slot : {A : Type 0} (a b : A) (slot : ℕ) → granted (some a ∷ []) slot ≡ some b → b ≡ a
unfolding granted
only_slot a b zero e = ground arith
only_slot a b (suc slot) e = ground arith

one_of_each-IsMade : IsMade one_of_each
one_of_each-IsMade = record {
  keys_made = λ slot held e. (171, 4, only_slot (keystore_key 171 4) held slot e);
  files_made = λ slot held e. (9, 6, only_slot (filesystem_file 9 6) held slot e);
}

abbrev pub calls : List GuestCall
calls =
    GuestCall.open_key 0
    ∷ GuestCall.open_file 0
    ∷ GuestCall.sign 0 (1 ∷ [])
    ∷ GuestCall.write 1 (3 ∷ [])
    ∷ GuestCall.sign 1 []
    ∷ []

run-Typed_example :
    let s = run embedding calls (start embedding one_of_each (some 0) (some none)) in
    ((h : ℕ) (held : HostCapability) → HoldsKey embedding s h held → IsKey embedding s h held)
    × ((h : ℕ) (held : HostFile) → HoldsFile embedding s h held → IsFile embedding s h held)
run-Typed_example =
    run-Typed embedding one_of_each (some 0) (some none) places-IsLawful one_of_each-IsMade calls

map-pred_suc : (bytes : List ℕ) → map (λ (x : ℕ). x - 1) (map suc bytes) ≡ bytes
map-pred_suc [] = refl
map-pred_suc (b ∷ bytes) = ground (arith, map-pred_suc bytes)

-- The badges that may open what they sealed.
abbrev MayOpen : ℕ → ℕ → Type 0
MayOpen badge key = badge ≡ 171

keystore-OpensSealed : OpensSealed wire keystore MayOpen
keystore-OpensSealed = record {
  length-tag = λ badge key nonce aad body sealed tag k e. ground arith;
  decrypt-encrypt =
      λ badge key nonce aad body sealed tag k may e. ground (arith, map-pred_suc body);
}

-- A key is held at handle 0.
abbrev holding : RuntimeState Places ℕ (Option (List ℕ))
holding = record {
  table = some (Entry.key_entry (keystore_key 171 4)) ∷ [];
  keys = one_of_each.keystore_keys;
  files = one_of_each.filesystem_files;
  keystore = some 0;
  filesystem = some none;
  clock = none;
}

decrypt-encrypt_same_example :
    (Keys.decrypt embedding 0
      (1 ∷ 2 ∷ [])
      (9 ∷ [])
      (6 ∷ 7 ∷ [])
      (7 ∷ [])
      (Keys.encrypt embedding 0 (1 ∷ 2 ∷ []) (9 ∷ []) (5 ∷ 6 ∷ []) holding).0).1
    ≡ ok (5 ∷ 6 ∷ [])
unfolding Keys.encrypt
decrypt-encrypt_same_example =
    decrypt-encrypt_same embedding holding 0 MayOpen keystore-OpensSealed
      (λ held holds. ground arith) (1 ∷ 2 ∷ []) (9 ∷ []) (5 ∷ 6 ∷ []) (6 ∷ 7 ∷ []) (7 ∷ []) refl

cells-unseen_example :
    let plain =
      with_services wire places
        (ipc_keystore wire codec (remote_keystore 171))
        (ipc_filesystem wire remote_store) in
    let borrowing =
      with_services wire places
        (keystore_in_cell wire codec (remote_keystore 171))
        (filesystem_in_cell wire remote_store) in
    (run borrowing calls (carry new new holding) ≡ carry new new (run plain calls holding))
    × (answers borrowing calls (carry new new holding) ≡ answers plain calls holding)
cells-unseen_example =
    cells-unseen wire codec places (remote_keystore 171) remote_store calls holding

ipc_session-refines_example :
    let near = with_services wire places keystore filesystem in
    let far =
      with_services wire places
        (ipc_keystore wire codec (remote_keystore 171))
        (ipc_filesystem wire remote_store) in
    let near_start = start near one_of_each (some 0) (some none) in
    let far_start = start far one_of_each (some 0) (some none) in
    (run near calls near_start ≡ carry (λ calls. calls) (λ block. block) (run far calls far_start))
    × (answers near calls near_start ≡ answers far calls far_start)
ipc_session-refines_example =
    ipc_session-refines wire places codec (remote_keystore 171) remote_store keystore filesystem
      (λ calls. calls) (λ block. block) 171 4 9 6 one_of_each places-IsLawful
      remote_keystore-ServesKeys codec-FitsExactly remote_store-ServesFiles
      (λ held (slot, e).
        let same = only_slot (keystore_key 171 4) held slot e in
        (ap (λ (h : HostCapability). h.badge) same, ap (λ (h : HostCapability). h.key) same))
      (λ held (slot, e).
        let same = only_slot (filesystem_file 9 6) held slot e in
        (ap (λ (h : HostFile). h.badge) same, ap (λ (h : HostFile). h.file) same))
      calls 0 none

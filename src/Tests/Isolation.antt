-- ===== src/Tests/Isolation.antt =====
-- A component with one key and one file, beside whose file the store has others; and components with none.
use lantern_runtime.Base.{
  ℕ, zero, suc, ◌≡◌, refl, ap, fun_ext, Option, none, some, List, [], ◌∷◌, arith, ◌==◌,
  if◌then◌else◌,
}
use lantern_runtime.Base.Exec.{ok}
use lantern_runtime.Host.Records.{HostFile, filesystem_file, GrantManifest}
use lantern_runtime.Host.Services.{FilesystemService}
use lantern_runtime.Host.State.{start, granted}
use lantern_runtime.Host.Calls.{run}
use lantern_runtime.Host.Confinement.{Granted}
use lantern_runtime.Host.Carries.{KeystoreCarries, FilesystemCarries, with_services, carry}
use lantern_runtime.Host.Answers.{answers}
use lantern_runtime.Host.Noninterference.{
  changed-unobserved, GrantsNone, ungranted_files-unobserved, ungranted_keys-unobserved,
}
use lantern_runtime.Host.InProcess.{Stores, InProcessFilesystem, in_process_filesystem}
use lantern_runtime.Host.Separation.{KeepsApart, put_into, withheld_file-unobserved}
use lantern_runtime.Tests.Table.{places, places-IsLawful}
use lantern_runtime.Tests.Services.{keystore, filesystem, read_block, wire}
use lantern_runtime.Tests.Sessions.{only_slot, one_of_each, calls}

-- A block for each file.
abbrev Blocks : Type 0
Blocks = ℕ → Option (List ℕ)

abbrev blocks : FilesystemService Blocks
blocks = record {
  read = λ badge file buffer b. (b, read_block buffer (b file));
  write = λ badge file bytes b. ((λ j. if j == file then some bytes else b j), ok tt);
}

-- The other files hold something else.
abbrev tampered : Blocks → Blocks
tampered b j = if j == 6 then b j else some (9 ∷ 9 ∷ [])

is_six : (held : HostFile) → Granted one_of_each.filesystem_files held → held.file ≡ 6
is_six held (slot, e) = ap (λ (h : HostFile). h.file) (only_slot (filesystem_file 9 6) held slot e)

blocks-Carries :
    FilesystemCarries wire (Granted one_of_each.filesystem_files) tampered blocks blocks
blocks-Carries = record {
  read_carries = λ held b g. rw (is_six held g) (refl, refl);
  write_carries = λ held bytes b g. rw (is_six held g) (fun_ext (λ (j : ℕ). ground arith), refl);
}

keystore-Carries : KeystoreCarries wire (Granted one_of_each.keystore_keys) suc keystore keystore
keystore-Carries = record {
  encrypt_carries = λ held nonce aad body k g n. (refl, refl);
  decrypt_carries = λ held nonce aad body tag k g n t. (refl, refl);
  sign_carries = λ held message k g. (refl, refl);
}

abbrev some_blocks : Blocks
some_blocks j = if j == 6 then some (1 ∷ []) else if j == 7 then some (2 ∷ []) else none

changed-unobserved_example :
    let first = with_services wire places keystore blocks in
    let s = start first one_of_each (some 0) (some some_blocks) in
    let s' = start first one_of_each (some 1) (some (tampered some_blocks)) in
    (run first calls s' ≡ carry suc tampered (run first calls s))
    × (answers first calls s' ≡ answers first calls s)
changed-unobserved_example =
    changed-unobserved wire places keystore blocks keystore blocks suc tampered one_of_each
      places-IsLawful keystore-Carries blocks-Carries calls (some 0) (some some_blocks)

-- The second slot of each kind is declared, and not granted.
abbrev key_only : GrantManifest
key_only = record one_of_each { filesystem_files = none ∷ [] }

abbrev file_only : GrantManifest
file_only = record one_of_each { keystore_keys = none ∷ [] }

no_slot : {A : Type 0} → GrantsNone {A = A} (none ∷ [])
unfolding granted
no_slot zero = refl
no_slot (suc slot) = ground arith

ungranted_files-unobserved_example :
    let first = with_services wire places keystore filesystem in
    let other = with_services wire places keystore blocks in
    ((run first calls (start first key_only (some 0) (some (some (4 ∷ []))))).filesystem
      ≡ some (some (4 ∷ [])))
    × (answers other calls (start other key_only (some 0) (some some_blocks))
        ≡ answers first calls (start first key_only (some 0) (some (some (4 ∷ [])))))
ungranted_files-unobserved_example =
    ungranted_files-unobserved wire places keystore filesystem blocks key_only places-IsLawful
      no_slot calls (some 0) (some (4 ∷ [])) some_blocks

ungranted_keys-unobserved_example :
    let first = with_services wire places keystore filesystem in
    ((run first calls (start first file_only (some 0) (some none))).keystore ≡ some 0)
    × (answers first calls (start first file_only (some 5) (some none))
        ≡ answers first calls (start first file_only (some 0) (some none)))
ungranted_keys-unobserved_example =
    ungranted_keys-unobserved wire places keystore keystore filesystem file_only places-IsLawful
      no_slot calls 0 5 (some none)

-- The blocks in the same process, in the clear.
abbrev clear_store : Stores Blocks ℕ
clear_store = record {
  read = λ c badge file buffer b. (blocks.read badge file buffer b).1;
  write = λ c badge file bytes b. blocks.write badge file bytes b;
}

abbrev put : ℕ → List ℕ → Blocks → Blocks
put file content b j = if j == file then some content else b j

put_elsewhere :
    (file other : ℕ) (content : List ℕ) (b : Blocks)
    → (file ≡ other → ⊥)
    → put other content b file ≡ b file
put_elsewhere file other content b apart = ground arith

clear_store-KeepsApart : KeepsApart clear_store put
clear_store-KeepsApart = record {
  read-put = λ c badge file other content buffer b apart.
      ap (read_block buffer) (put_elsewhere file other content b apart);
  write-put = λ c badge file other content bytes b apart.
      ap (λ (b' : Blocks). (b', ok tt)) (fun_ext (λ (j : ℕ). ground arith));
}

abbrev near_files : InProcessFilesystem Blocks ℕ
near_files = record { store = some_blocks; keystore = 0; aead_badge = 1; aead_key = 2 }

withheld_file-unobserved_example :
    let E = with_services wire places keystore (in_process_filesystem clear_store) in
    let s = start E one_of_each (some 0) (some near_files) in
    let s' = start E one_of_each (some 0) (some (put_into clear_store put 7 (9 ∷ []) near_files)) in
    (run E calls s' ≡ carry (λ k. k) (put_into clear_store put 7 (9 ∷ [])) (run E calls s))
    × (answers E calls s' ≡ answers E calls s)
withheld_file-unobserved_example =
    withheld_file-unobserved clear_store put wire places keystore one_of_each 7 (9 ∷ [])
      places-IsLawful clear_store-KeepsApart (λ held g at. omega (arith, is_six held g, at)) calls
      (some 0) near_files

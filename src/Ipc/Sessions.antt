-- ===== src/Ipc/Sessions.antt =====
-- A component over the channel clients of `src/host.rs`, against one over the services themselves.
use lantern_runtime.Base.{ℕ, ◌≡◌, sym, ap, some, List, [], replicate, length-replicate}
use lantern_runtime.Host.Records.{HostCapability, HostFile, GrantManifest}
use lantern_runtime.Host.Errors.{Wire}
use lantern_runtime.Host.Services.{KeystoreService, FilesystemService, ResourceTable, IsLawful}
use lantern_runtime.Host.State.{start}
use lantern_runtime.Host.Calls.{GuestCall, run}
use lantern_runtime.Host.Confinement.{Granted}
use lantern_runtime.Host.Noninterference.{changed-unobserved}
use lantern_runtime.Host.Carries.{
  KeystoreCarries, FilesystemCarries, KeystoreCarries-fewer, FilesystemCarries-fewer, with_services,
  carry,
}
use lantern_runtime.Host.Answers.{answers}
use lantern_runtime.Ipc.Channel.{Channel, Codec}
use lantern_runtime.Ipc.Laws.{FitsExactly}
use lantern_runtime.Ipc.Keystore.{ipc_keystore}
use lantern_runtime.Ipc.Filesystem.{ipc_filesystem}
use lantern_runtime.Ipc.Refinement.{ServesKeys, ipc_keystore-refines}
use lantern_runtime.Ipc.FileRefinement.{ServesFiles, ipc_filesystem-refines}

-- The records that the one served badge and key, or file, stand for.
abbrev pub ServedKey : ℕ → ℕ → HostCapability → Type 0
ServedKey badge key held = (held.badge ≡ badge) × (held.key ≡ key)

abbrev pub ServedFile : ℕ → ℕ → HostFile → Type 0
ServedFile badge file held = (held.badge ≡ badge) × (held.file ≡ file)

module _ {C D K F : Type 0} (W : Wire) (X : Codec) (ch : Channel C) (dh : Channel D)
    (S : KeystoreService K) (P : FilesystemService F) (view : C → K) (store_view : D → F)
    (badge key store_badge file : ℕ) (serves : ServesKeys W X ch S view badge key)
    (fits : FitsExactly W X) (stores : ServesFiles W dh P store_view store_badge file) where
  ipc_keystore-Carries_served : KeystoreCarries W (ServedKey badge key) view (ipc_keystore W X ch) S
  unfolding ipc_keystore
  ipc_keystore-Carries_served = record {
    encrypt_carries = λ held nonce aad body c (b, k) n.
        let (e, _, _) =
          ipc_keystore-refines W X ch S view badge key serves fits nonce aad body
            (replicate W.tag_len 0) c n (length-replicate W.tag_len 0) in
        rw (b, k) (ap (λ r. r.0) (sym e), ap (λ r. r.1) (sym e));
    decrypt_carries = λ held nonce aad body tag c (b, k) n t.
        let (_, e, _) =
          ipc_keystore-refines W X ch S view badge key serves fits nonce aad body tag c n t in
        rw (b, k) (ap (λ r. r.0) (sym e), ap (λ r. r.1) (sym e));
    sign_carries = λ held message c (b, k).
        let (_, _, e) =
          ipc_keystore-refines W X ch S view badge key serves fits (replicate W.nonce_len 0) []
            message (replicate W.tag_len 0) c (length-replicate W.nonce_len 0)
            (length-replicate W.tag_len 0) in
        rw (b, k) (ap (λ r. r.0) (sym e), ap (λ r. r.1) (sym e));
  }

  ipc_filesystem-Carries_served :
      FilesystemCarries W (ServedFile store_badge file) store_view (ipc_filesystem W dh) P
  unfolding ipc_filesystem
  ipc_filesystem-Carries_served = record {
    read_carries = λ held c (b, k).
        let (e, r, _) =
          ipc_filesystem-refines W dh P store_view store_badge file stores
            (replicate W.max_block_len 0) [] c in
        rw (b, k) (sym e, sym r);
    write_carries = λ held bytes c (b, k).
        let (_, _, e) =
          ipc_filesystem-refines W dh P store_view store_badge file stores [] bytes c in
        rw (b, k) (ap (λ r. r.0) (sym e), ap (λ r. r.1) (sym e));
  }

-- Over a lawful table, channels behind which a keystore serves one badge and key and a store one badge
-- and file, and codecs whose requests fit the buffers sized for them: a component started for a manifest
-- that grants those two alone gets, from any calls through `IpcKeystore` and `IpcFilesystem`, the answers
-- that it would get from the keystore and the store attached directly, and leaves the state it would leave
-- there, with the far services in the same states.
pub ipc_session-refines :
    {Tab C D K F : Type 0} (W : Wire) (T : ResourceTable Tab) (X : Codec) (ch : Channel C)
    (dh : Channel D) (S : KeystoreService K) (P : FilesystemService F) (view : C → K)
    (store_view : D → F) (badge key store_badge file : ℕ) (m : GrantManifest)
    → IsLawful T
    → ServesKeys W X ch S view badge key
    → FitsExactly W X
    → ServesFiles W dh P store_view store_badge file
    → ((held : HostCapability) → Granted m.keystore_keys held → ServedKey badge key held)
    → ((held : HostFile) → Granted m.filesystem_files held → ServedFile store_badge file held)
    → (calls : List GuestCall) (c : C) (d : D)
    → let near = with_services W T S P in
      let far = with_services W T (ipc_keystore W X ch) (ipc_filesystem W dh) in
      let near_start = start near m (some (view c)) (some (store_view d)) in
      let far_start = start far m (some c) (some d) in
      (run near calls near_start ≡ carry view store_view (run far calls far_start))
      × (answers near calls near_start ≡ answers far calls far_start)
ipc_session-refines W T X ch dh S P view store_view badge key store_badge file m L serves fits
      stores same_key same_file calls c d =
    changed-unobserved W T (ipc_keystore W X ch) (ipc_filesystem W dh) S P view store_view m L
      (KeystoreCarries-fewer W (ServedKey badge key) (Granted m.keystore_keys) view
        (ipc_keystore W X ch) S same_key
        (ipc_keystore-Carries_served W X ch dh S P view store_view badge key store_badge file serves
          fits stores))
      (FilesystemCarries-fewer W (ServedFile store_badge file) (Granted m.filesystem_files)
        store_view (ipc_filesystem W dh) P same_file
        (ipc_filesystem-Carries_served W X ch dh S P view store_view badge key store_badge file
          serves fits stores))
      calls (some c) (some d)

-- ===== src/Host/Typing.antt =====
-- The two kinds of handles never mix (`src/host.rs`): the early return of each method on the other service's
-- endpoint is dead code for records that the constructors made.
use lantern_runtime.Base.{ℕ, ◌≡◌, ap, Option, some, List, replicate, arith}
use lantern_runtime.Base.Exec.{err}
use lantern_runtime.Host.Records.{
  ServiceEndpoint, HostCapability, HostFile, GrantManifest, keystore_key, filesystem_file,
}
use lantern_runtime.Host.Errors.{access}
use lantern_runtime.Host.Services.{IsLawful, Embedding}
use lantern_runtime.Host.State.{RuntimeState, granted, start, keystore_cap, file_cap, ask_keystore}
use lantern_runtime.Host.Keys.{sign}
use lantern_runtime.Host.Files.{read, read_answer, ask_filesystem}
use lantern_runtime.Host.Effects.{HoldsKey, HoldsFile}
use lantern_runtime.Host.Calls.{GuestCall, run}
use lantern_runtime.Host.Confinement.{run-Confined}

-- Every record of the manifest was made by its constructor.
pub record IsMade (m : GrantManifest) : Type 0 where
  pub keys_made :
      (slot : ℕ) (held : HostCapability)
      → granted m.keystore_keys slot ≡ some held
      → (badge : ℕ) × (key : ℕ) × (held ≡ keystore_key badge key)
  pub files_made :
      (slot : ℕ) (held : HostFile)
      → granted m.filesystem_files slot ≡ some held
      → (badge : ℕ) × (file : ℕ) × (held ≡ filesystem_file badge file)

module _ {Tab K F : Type 0} (H : Embedding Tab K F) (s : RuntimeState Tab K F) (h : ℕ) where
  -- The handle is a key's: it names the keystore, it is no file's, and a signature under it asks the keystore.
  abbrev pub IsKey : HostCapability → Type 0
  IsKey held =
      (held.service ≡ ServiceEndpoint.keystore)
      × (file_cap H s h ≡ err access)
      × ((message : List ℕ)
          → sign H h message s ≡ ask_keystore H (H.keystore.sign held.badge held.key message) s)

  -- The handle is a file's: it names the filesystem, it is no key's, and a read of it asks the filesystem.
  abbrev pub IsFile : HostFile → Type 0
  IsFile held =
      (held.service ≡ ServiceEndpoint.filesystem)
      × (keystore_cap H s h ≡ err access)
      × (read H h s
          ≡ ask_filesystem H
              (H.filesystem.read held.badge held.file (replicate H.wire.max_block_len 0))
              (read_answer H.wire) s)

  HoldsKey-IsKey :
      (held : HostCapability)
      → HoldsKey H s h held
      → held.service ≡ ServiceEndpoint.keystore
      → IsKey held
  unfolding sign keystore_cap file_cap
  HoldsKey-IsKey held holds serves = (serves, ground arith, λ message. ground arith)

  HoldsFile-IsFile :
      (held : HostFile)
      → HoldsFile H s h held
      → held.service ≡ ServiceEndpoint.filesystem
      → IsFile held
  unfolding read keystore_cap file_cap
  HoldsFile-IsFile held holds serves = (serves, ground arith, ground arith)

-- Over a lawful table, and for a manifest of which every record was made by its constructor: after any
-- calls of a component, a handle of a key names the keystore, is no handle of a file, and signs by asking
-- the keystore; a handle of a file names the filesystem, is no handle of a key, and reads by asking the
-- filesystem.
pub run-Typed :
    {Tab K F : Type 0} (H : Embedding Tab K F) (m : GrantManifest) (k : Option K) (f : Option F)
    → IsLawful H.table
    → IsMade m
    → (calls : List GuestCall)
    → let s = run H calls (start H m k f) in
      ((h : ℕ) (held : HostCapability) → HoldsKey H s h held → IsKey H s h held)
      × ((h : ℕ) (held : HostFile) → HoldsFile H s h held → IsFile H s h held)
run-Typed H m k f L made calls =
    let s = run H calls (start H m k f) in
    let c = run-Confined H m k f L calls in
    (
      (λ h held holds.
          let (slot, grant) = c.key_handles h held holds in
          let (badge, key, e) = made.keys_made slot held grant in
          HoldsKey-IsKey H s h held holds (ap (λ (r : HostCapability). r.service) e)),
      λ h held holds.
          let (slot, grant) = c.file_handles h held holds in
          let (badge, file, e) = made.files_made slot held grant in
          HoldsFile-IsFile H s h held holds (ap (λ (r : HostFile). r.service) e),
    )

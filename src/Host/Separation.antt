-- ===== src/Host/Separation.antt =====
-- The files of an in-process store, of which `src/host.rs` lets a component reach those that it is granted.
use lantern_runtime.Base.{ℕ, ◌≡◌, refl, Option, some, List}
use lantern_runtime.Host.Records.{HostFile, FileId, GrantManifest}
use lantern_runtime.Host.Errors.{Wire}
use lantern_runtime.Host.Services.{KeystoreService, ResourceTable, IsLawful}
use lantern_runtime.Host.State.{start}
use lantern_runtime.Host.Calls.{GuestCall, run}
use lantern_runtime.Host.Confinement.{Granted}
use lantern_runtime.Host.Carries.{FilesystemCarries, with_services, carry}
use lantern_runtime.Host.Answers.{answers}
use lantern_runtime.Host.Noninterference.{changed-unobserved, same_keystore-Carries, carried_id}
use lantern_runtime.Host.InProcess.{Cipher, Stores, InProcessFilesystem, in_process_filesystem}

-- `put file content` makes a store's file hold something else. No other file's reads can tell, and
-- another file's writes do the same before it and after it.
pub record KeepsApart {St Ks : Type 0} (O : Stores St Ks) (put : FileId → List ℕ → St → St)
    : Type 0 where
  pub read-put :
      (c : Cipher Ks) (badge : ℕ) (file other : FileId) (content buffer : List ℕ) (st : St)
      → (file ≡ other → ⊥)
      → O.read c badge file buffer (put other content st) ≡ O.read c badge file buffer st
  pub write-put :
      (c : Cipher Ks) (badge : ℕ) (file other : FileId) (content bytes : List ℕ) (st : St)
      → (file ≡ other → ⊥)
      → O.write c badge file bytes (put other content st)
        ≡ (put other content (O.write c badge file bytes st).0, (O.write c badge file bytes st).1)

-- No slot holds a record of the file.
abbrev pub Withholds : GrantManifest → FileId → Type 0
Withholds m other = (held : HostFile) → Granted m.filesystem_files held → held.file ≡ other → ⊥

module _ {St Ks : Type 0} (O : Stores St Ks) (put : FileId → List ℕ → St → St) where
  abbrev pub put_into : FileId → List ℕ → InProcessFilesystem St Ks → InProcessFilesystem St Ks
  put_into other content f = record f { store = put other content f.store }

  in_process-Carries :
      (W : Wire) (m : GrantManifest) (other : FileId) (content : List ℕ)
      → KeepsApart O put
      → Withholds m other
      → FilesystemCarries W
          (Granted m.filesystem_files)
          (put_into other content)
          (in_process_filesystem O)
          (in_process_filesystem O)
  unfolding in_process_filesystem
  in_process-Carries W m other content apart withheld = record {
    read_carries =
        λ held f g. rw (apart.read-put _ _ _ _ content _ f.store (withheld held g)) (refl, refl);
    write_carries = λ held bytes f g.
        rw (apart.write-put _ _ _ _ content bytes f.store (withheld held g)) (refl, refl);
  }

  -- Over a lawful table, and an in-process store that keeps its files apart: a component that is granted
  -- no record of some file, under whatever badges, gets from any calls the answers that it would get with
  -- other content put into that file, and leaves the state that it would leave then, but for that content.
  pub withheld_file-unobserved :
      {Tab K : Type 0} (W : Wire) (T : ResourceTable Tab) (S : KeystoreService K)
      (m : GrantManifest) (other : FileId) (content : List ℕ)
      → IsLawful T
      → KeepsApart O put
      → Withholds m other
      → (calls : List GuestCall) (k : Option K) (f : InProcessFilesystem St Ks)
      → let E = with_services W T S (in_process_filesystem O) in
        let s = start E m k (some f) in
        let s' = start E m k (some (put_into other content f)) in
        (run E calls s' ≡ carry (λ k. k) (put_into other content) (run E calls s))
        × (answers E calls s' ≡ answers E calls s)
  withheld_file-unobserved W T S m other content L apart withheld calls k f = rw (carried_id k) at (
      changed-unobserved W T S (in_process_filesystem O) S (in_process_filesystem O) (λ k. k)
        (put_into other content) m L (same_keystore-Carries W S (Granted m.keystore_keys))
        (in_process-Carries W m other content apart withheld) calls k (some f))

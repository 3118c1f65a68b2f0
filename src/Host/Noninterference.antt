-- ===== src/Host/Noninterference.antt =====
-- What a component of `src/host.rs` cannot observe: the parts of the services' states that the records
-- granted to it do not reach.
use lantern_runtime.Base.{ℕ, ◌≡◌, refl, sym, ap, ◌∙◌, Option, none, some, List, []}
use lantern_runtime.Host.Records.{HostCapability, HostFile, GrantManifest}
use lantern_runtime.Host.Errors.{Wire}
use lantern_runtime.Host.Services.{
  KeystoreService, FilesystemService, ResourceTable, IsLawful, Embedding,
}
use lantern_runtime.Host.State.{granted, new, start}
use lantern_runtime.Host.Calls.{GuestCall, run}
use lantern_runtime.Host.Traffic.{KeyCall, FileCall, Traffic, here, next}
use lantern_runtime.Host.Confinement.{Granted, Confined, step-Confined, run-Confined, start_lem}
use lantern_runtime.Host.Carries.{KeystoreCarries, FilesystemCarries, with_services, carry, carried}
use lantern_runtime.Host.Answers.{answers, run-carry}

start-carry :
    {Tab K F K' F' : Type 0} (W : Wire) (T : ResourceTable Tab) (S : KeystoreService K)
    (P : FilesystemService F) (S' : KeystoreService K') (P' : FilesystemService F') (φ : K → K')
    (ψ : F → F') (m : GrantManifest) (k : Option K) (f : Option F)
    → start (with_services W T S' P') m (carried φ k) (carried ψ f)
      ≡ carry φ ψ (start (with_services W T S P) m k f)
unfolding new
start-carry W T S P S' P' φ ψ m k f =
    start_lem (with_services W T S' P') m (carried φ k) (carried ψ f)
    ∙ ap (carry φ ψ) (sym (start_lem (with_services W T S P) m k f))

-- Over a lawful table: a change of the services, and of the states that they start in, which no call
-- under a record that the manifest grants can tell, is not told by a component either. From any calls
-- it gets the same answers, and leaves states that correspond.
pub changed-unobserved :
    {Tab K F K' F' : Type 0} (W : Wire) (T : ResourceTable Tab) (S : KeystoreService K)
    (P : FilesystemService F) (S' : KeystoreService K') (P' : FilesystemService F') (φ : K → K')
    (ψ : F → F') (m : GrantManifest)
    → IsLawful T
    → KeystoreCarries W (Granted m.keystore_keys) φ S S'
    → FilesystemCarries W (Granted m.filesystem_files) ψ P P'
    → (calls : List GuestCall) (k : Option K) (f : Option F)
    → let first = with_services W T S P in
      let other = with_services W T S' P' in
      let s = start first m k f in
      let s' = start other m (carried φ k) (carried ψ f) in
      (run other calls s' ≡ carry φ ψ (run first calls s))
      × (answers other calls s' ≡ answers first calls s)
unfolding run
changed-unobserved {Tab} {K} {F} W T S P S' P' φ ψ m L keys files calls k f =
    let first : Embedding Tab K F = with_services W T S P in
    rw (start-carry W T S P S' P' φ ψ m k f) (
      run-carry W T S P S' P' φ ψ (Granted m.keystore_keys) (Granted m.filesystem_files) keys files
        (Confined first m k f) (λ call s inv. step-Confined first m k f L call s inv)
        (λ s inv. record { key_allowed = inv.key_handles; file_allowed = inv.file_handles }) calls
        (start first m k f) (run-Confined first m k f L []))

-- A service that no call reaches is left as it was attached.
Traffic-still :
    {S : Type 0} {Once : S → S → Type 0} {before after : Option S}
    → ((s t : S) → Once s t → ⊥)
    → Traffic Once before after
    → after ≡ before
Traffic-still never here = refl
Traffic-still never (next r once) = absurd (never _ _ once)

no_FileCall :
    {F : Type 0} (W : Wire) (P : FilesystemService F) (Held : HostFile → Type 0)
    → ((held : HostFile) → Held held → ⊥)
    → (f f' : F) → FileCall W P Held f f'
    → ⊥
no_FileCall W P Held never f f' (FileCall.reads held h _) = never held h
no_FileCall W P Held never f f' (FileCall.writes held bytes h _ _) = never held h

no_KeyCall :
    {K : Type 0} (W : Wire) (S : KeystoreService K) (Held : HostCapability → Type 0)
    → ((held : HostCapability) → Held held → ⊥)
    → (k k' : K) → KeyCall W S Held k k'
    → ⊥
no_KeyCall W S Held never k k' (KeyCall.encrypts held _ _ _ h _ _) = never held h
no_KeyCall W S Held never k k' (KeyCall.decrypts held _ _ _ _ h _ _ _) = never held h
no_KeyCall W S Held never k k' (KeyCall.signs held _ h _) = never held h

-- No slot holds a grant.
abbrev pub GrantsNone : {A : Type 0} → List (Option A) → Type 0
GrantsNone slots = (slot : ℕ) → granted slots slot ≡ none

not-Granted :
    {A : Type 0} (slots : List (Option A)) (held : A) → GrantsNone slots → Granted slots held → ⊥
not-Granted slots held nothing (slot, e) = cc (nothing slot)

ungranted_keystore-Carries :
    {K K' : Type 0} (W : Wire) (S : KeystoreService K) (S' : KeystoreService K') (φ : K → K')
    (slots : List (Option HostCapability))
    → GrantsNone slots
    → KeystoreCarries W (Granted slots) φ S S'
ungranted_keystore-Carries W S S' φ slots nothing = record {
  encrypt_carries = λ held _ _ _ _ g _. absurd (not-Granted slots held nothing g);
  decrypt_carries = λ held _ _ _ _ _ g _ _. absurd (not-Granted slots held nothing g);
  sign_carries = λ held _ _ g. absurd (not-Granted slots held nothing g);
}

ungranted_filesystem-Carries :
    {F F' : Type 0} (W : Wire) (P : FilesystemService F) (P' : FilesystemService F') (ψ : F → F')
    (slots : List (Option HostFile))
    → GrantsNone slots
    → FilesystemCarries W (Granted slots) ψ P P'
ungranted_filesystem-Carries W P P' ψ slots nothing = record {
  read_carries = λ held _ g. absurd (not-Granted slots held nothing g);
  write_carries = λ held _ _ g. absurd (not-Granted slots held nothing g);
}

pub carried_id : {A : Type 0} (o : Option A) → carried (λ (a : A). a) o ≡ o
carried_id none = refl
carried_id (some a) = refl

pub same_keystore-Carries :
    {K : Type 0} (W : Wire) (S : KeystoreService K) (P : HostCapability → Type 0)
    → KeystoreCarries W P (λ k. k) S S
same_keystore-Carries W S P = record {
  encrypt_carries = λ held _ _ _ _ _ _. (refl, refl);
  decrypt_carries = λ held _ _ _ _ _ _ _ _. (refl, refl);
  sign_carries = λ held _ _ _. (refl, refl);
}

same_filesystem-Carries :
    {F : Type 0} (W : Wire) (P : FilesystemService F) (Q : HostFile → Type 0)
    → FilesystemCarries W Q (λ f. f) P P
same_filesystem-Carries W P Q = record {
  read_carries = λ held _ _. (refl, refl);
  write_carries = λ held _ _ _. (refl, refl);
}

-- Over a lawful table: a component whose manifest grants no file leaves the store as it was attached,
-- and gets from any calls the answers that it would get with any other store, in any state, in its place.
pub ungranted_files-unobserved :
    {Tab K F F' : Type 0} (W : Wire) (T : ResourceTable Tab) (S : KeystoreService K)
    (P : FilesystemService F) (P' : FilesystemService F') (m : GrantManifest)
    → IsLawful T
    → GrantsNone m.filesystem_files
    → (calls : List GuestCall) (k : Option K) (f : F) (f' : F')
    → let first = with_services W T S P in
      let other = with_services W T S P' in
      ((run first calls (start first m k (some f))).filesystem ≡ some f)
      × (answers other calls (start other m k (some f'))
          ≡ answers first calls (start first m k (some f)))
ungranted_files-unobserved {Tab} {K} {F} W T S P P' m L nothing calls k f f' =
    let c = run-Confined (with_services W T S P) m k (some f) L calls in
    let never =
      no_FileCall W P (Granted m.filesystem_files)
        (λ held. not-Granted m.filesystem_files held nothing) in
    let (_, same) =
      changed-unobserved W T S P S P' (λ k. k) (λ _. f') m L
        (same_keystore-Carries W S (Granted m.keystore_keys))
        (ungranted_filesystem-Carries W P P' (λ _. f') m.filesystem_files nothing) calls k
        (some f) in
    (Traffic-still never c.file_traffic, rw (carried_id k) at same)

-- Over a lawful table: a component whose manifest grants no key leaves the keystore as it was attached,
-- and gets from any calls the answers that it would get with any other keystore, in any state, in its
-- place.
pub ungranted_keys-unobserved :
    {Tab K F K' : Type 0} (W : Wire) (T : ResourceTable Tab) (S : KeystoreService K)
    (S' : KeystoreService K') (P : FilesystemService F) (m : GrantManifest)
    → IsLawful T
    → GrantsNone m.keystore_keys
    → (calls : List GuestCall) (k : K) (k' : K') (f : Option F)
    → let first = with_services W T S P in
      let other = with_services W T S' P in
      ((run first calls (start first m (some k) f)).keystore ≡ some k)
      × (answers other calls (start other m (some k') f)
          ≡ answers first calls (start first m (some k) f))
ungranted_keys-unobserved {Tab} {K} {F} W T S S' P m L nothing calls k k' f =
    let c = run-Confined (with_services W T S P) m (some k) f L calls in
    let never =
      no_KeyCall W S (Granted m.keystore_keys) (λ held. not-Granted m.keystore_keys held nothing) in
    let (_, same) =
      changed-unobserved W T S P S' P (λ _. k') (λ f. f) m L
        (ungranted_keystore-Carries W S S' (λ _. k') m.keystore_keys nothing)
        (same_filesystem-Carries W P (Granted m.filesystem_files)) calls (some k) f in
    (Traffic-still never c.key_traffic, rw (carried_id f) at same)

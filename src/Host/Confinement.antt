-- ===== src/Host/Confinement.antt =====
-- Confinement of a component by its manifest: an invariant of the runtime's state, kept by every
-- call of the component.
use lantern_runtime.Base.{
  ℕ, ◌≡◌, refl, subst, sym, ap, inl, inr, Option, none, some, List, [], ◌∷◌, arith,
}
use lantern_runtime.Host.Records.{HostCapability, HostFile, GrantManifest}
use lantern_runtime.Host.Services.{Kind, IsLawful, Embedding}
use lantern_runtime.Host.State.{RuntimeState, granted, new, start}
use lantern_runtime.Host.Traffic.{KeyCall, FileCall, Traffic, here, next}
use lantern_runtime.Host.Keys.{open_key, drop_key}
use lantern_runtime.Host.Files.{open_file, drop_file}
use lantern_runtime.Host.Handles.{get-push_cases, get-delete_held}
use lantern_runtime.Host.Effects.{
  HoldsKey, HoldsFile, KeyEffect, FileEffect, encrypt-KeyEffect, decrypt-KeyEffect, sign-KeyEffect,
  read-FileEffect, write-FileEffect, open_key-parts, open_file-parts, drop_key-parts,
  drop_file-parts,
}
use lantern_runtime.Host.Calls.{GuestCall, step, run}

-- The record that some slot of the manifest holds.
abbrev pub Granted : {A : Type 0} → List (Option A) → A → Type 0
Granted slots held = (slot : ℕ) × (granted slots slot ≡ some held)

module _ {Tab K F : Type 0} (H : Embedding Tab K F) (m : GrantManifest) (keystore : Option K)
    (filesystem : Option F) where
  -- The slots and the clock are the manifest's, each handle stands for a granted record, and the
  -- services have seen calls under granted records alone since they were attached.
  pub record Confined (s : RuntimeState Tab K F) : Type 0 where
    pub same_keys : s.keys ≡ m.keystore_keys
    pub same_files : s.files ≡ m.filesystem_files
    pub same_clock : s.clock ≡ m.monotonic_clock
    pub key_handles :
        (h : ℕ) (held : HostCapability) → HoldsKey H s h held → Granted m.keystore_keys held
    pub file_handles :
        (h : ℕ) (held : HostFile) → HoldsFile H s h held → Granted m.filesystem_files held
    pub key_traffic :
        Traffic (KeyCall H.wire H.keystore (Granted m.keystore_keys)) keystore s.keystore
    pub file_traffic :
        Traffic (FileCall H.wire H.filesystem (Granted m.filesystem_files)) filesystem s.filesystem

  KeyCall-mono :
      {P Q : HostCapability → Type 0} {k k' : K}
      → ((held : HostCapability) → P held → Q held)
      → KeyCall H.wire H.keystore P k k'
      → KeyCall H.wire H.keystore Q k k'
  KeyCall-mono up (KeyCall.encrypts held n a b p served fits) =
      KeyCall.encrypts held n a b (up held p) served fits
  KeyCall-mono up (KeyCall.decrypts held n a b t p served fits tagged) =
      KeyCall.decrypts held n a b t (up held p) served fits tagged
  KeyCall-mono up (KeyCall.signs held b p served) = KeyCall.signs held b (up held p) served

  FileCall-mono :
      {P Q : HostFile → Type 0} {f f' : F}
      → ((held : HostFile) → P held → Q held)
      → FileCall H.wire H.filesystem P f f'
      → FileCall H.wire H.filesystem Q f f'
  FileCall-mono up (FileCall.reads held p served) = FileCall.reads held (up held p) served
  FileCall-mono up (FileCall.writes held bytes p served fits) =
      FileCall.writes held bytes (up held p) served fits

  KeyEffect-Confined :
      {s s' : RuntimeState Tab K F} (h : ℕ) → Confined s → KeyEffect H s h s' → Confined s'
  KeyEffect-Confined h c (inl e) = subst Confined (sym e) c
  KeyEffect-Confined {s} h c (inr (k, k', attached, call, e)) = subst Confined (sym e) (record {
    same_keys = c.same_keys;
    same_files = c.same_files;
    same_clock = c.same_clock;
    key_handles = c.key_handles;
    file_handles = c.file_handles;
    file_traffic = c.file_traffic;
    key_traffic = next (rw attached at c.key_traffic) (KeyCall-mono (c.key_handles h) call);
  })

  FileEffect-Confined :
      {s s' : RuntimeState Tab K F} (h : ℕ) → Confined s → FileEffect H s h s' → Confined s'
  FileEffect-Confined h c (inl e) = subst Confined (sym e) c
  FileEffect-Confined {s} h c (inr (f, f', attached, call, e)) = subst Confined (sym e) (record {
    same_keys = c.same_keys;
    same_files = c.same_files;
    same_clock = c.same_clock;
    key_handles = c.key_handles;
    file_handles = c.file_handles;
    key_traffic = c.key_traffic;
    file_traffic = next (rw attached at c.file_traffic) (FileCall-mono (c.file_handles h) call);
  })

  module _ (L : IsLawful H.table) where
    -- Opening a slot adds a granted record, if anything.
    open_key-Confined :
        (slot : ℕ) (s : RuntimeState Tab K F) → Confined s → Confined (open_key H slot s).0
    open_key-Confined slot s c = elim (open_key-parts H slot s) [
      | inl e ↦ subst Confined (ap (λ (r : RuntimeState Tab K F × Option ℕ). r.0) (sym e)) c
      | inr (held, h, t, bound, pushed, e) ↦
          subst Confined (ap (λ (r : RuntimeState Tab K F × Option ℕ). r.0) (sym e)) (record {
            same_keys = c.same_keys;
            same_files = c.same_files;
            same_clock = c.same_clock;
            key_traffic = c.key_traffic;
            file_traffic = c.file_traffic;
            key_handles = λ j held' holds. elim (get-push_cases H.table L h _ j _ pushed holds) [
              | inl same ↦ (slot, ground (arith, c.same_keys))
              | inr old ↦ c.key_handles j held' old
            ];
            file_handles = λ j held' holds. elim (get-push_cases H.table L h _ j _ pushed holds) [
              | inl same ↦ cc same
              | inr old ↦ c.file_handles j held' old
            ];
          })
    ]

    open_file-Confined :
        (slot : ℕ) (s : RuntimeState Tab K F) → Confined s → Confined (open_file H slot s).0
    open_file-Confined slot s c = elim (open_file-parts H slot s) [
      | inl e ↦ subst Confined (ap (λ (r : RuntimeState Tab K F × Option ℕ). r.0) (sym e)) c
      | inr (held, h, t, bound, pushed, e) ↦
          subst Confined (ap (λ (r : RuntimeState Tab K F × Option ℕ). r.0) (sym e)) (record {
            same_keys = c.same_keys;
            same_files = c.same_files;
            same_clock = c.same_clock;
            key_traffic = c.key_traffic;
            file_traffic = c.file_traffic;
            file_handles = λ j held' holds. elim (get-push_cases H.table L h _ j _ pushed holds) [
              | inl same ↦ (slot, ground (arith, c.same_files))
              | inr old ↦ c.file_handles j held' old
            ];
            key_handles = λ j held' holds. elim (get-push_cases H.table L h _ j _ pushed holds) [
              | inl same ↦ cc same
              | inr old ↦ c.key_handles j held' old
            ];
          })
    ]

    -- Dropping a handle adds no record.
    delete-Confined :
        (k : Kind) (h : ℕ) (t : Tab) (s : RuntimeState Tab K F)
        → H.table.delete s.table k h ≡ some t
        → Confined s
        → Confined (record s { table = t })
    delete-Confined k h t s gone c = record {
      same_keys = c.same_keys;
      same_files = c.same_files;
      same_clock = c.same_clock;
      key_traffic = c.key_traffic;
      file_traffic = c.file_traffic;
      key_handles =
          λ j held holds. c.key_handles j held (get-delete_held H.table L h k j _ gone holds);
      file_handles =
          λ j held holds. c.file_handles j held (get-delete_held H.table L h k j _ gone holds);
    }

    drop_key-Confined :
        (h : ℕ) (s : RuntimeState Tab K F) → Confined s → Confined (drop_key H h s).0
    drop_key-Confined h s c = elim (drop_key-parts H h s) [
      | inl e ↦ subst Confined (sym e) c
      | inr (t, gone, e) ↦ subst Confined (sym e) (delete-Confined Kind.key_kind h t s gone c)
    ]

    drop_file-Confined :
        (h : ℕ) (s : RuntimeState Tab K F) → Confined s → Confined (drop_file H h s).0
    drop_file-Confined h s c = elim (drop_file-parts H h s) [
      | inl e ↦ subst Confined (sym e) c
      | inr (t, gone, e) ↦ subst Confined (sym e) (delete-Confined Kind.file_kind h t s gone c)
    ]

    pub step-Confined :
        (call : GuestCall) (s : RuntimeState Tab K F) → Confined s → Confined (step H call s)
    unfolding step
    step-Confined (GuestCall.open_key slot) s c = open_key-Confined slot s c
    step-Confined (GuestCall.open_file slot) s c = open_file-Confined slot s c
    step-Confined (GuestCall.encrypt h n a p) s c =
        KeyEffect-Confined h c (encrypt-KeyEffect H h n a p s)
    step-Confined (GuestCall.decrypt h n a p t) s c =
        KeyEffect-Confined h c (decrypt-KeyEffect H h n a p t s)
    step-Confined (GuestCall.sign h p) s c = KeyEffect-Confined h c (sign-KeyEffect H h p s)
    step-Confined (GuestCall.read h) s c = FileEffect-Confined h c (read-FileEffect H h s)
    step-Confined (GuestCall.write h p) s c = FileEffect-Confined h c (write-FileEffect H h p s)
    step-Confined (GuestCall.drop_key h) s c = drop_key-Confined h s c
    step-Confined (GuestCall.drop_file h) s c = drop_file-Confined h s c
    step-Confined GuestCall.clock s c = c

    run_onto-Confined :
        (calls : List GuestCall) (s : RuntimeState Tab K F) → Confined s → Confined (run H calls s)
    unfolding run
    run_onto-Confined [] s c = c
    run_onto-Confined (call ∷ calls) s c = run_onto-Confined calls _ (step-Confined call s c)

    new-Confined : Confined (record (new H m) { keystore = keystore; filesystem = filesystem })
    unfolding new
    new-Confined = record {
      same_keys = refl;
      same_files = refl;
      same_clock = refl;
      key_traffic = here;
      file_traffic = here;
      key_handles = λ h held holds. cc (L.get-new h);
      file_handles = λ h held holds. cc (L.get-new h);
    }

pub start_lem :
    {Tab K F : Type 0} (H : Embedding Tab K F) (m : GrantManifest) (k : Option K) (f : Option F)
    → start H m k f ≡ record (new H m) { keystore = k; filesystem = f }
unfolding start
start_lem H m none none = refl
start_lem H m none (some f) = refl
start_lem H m (some k) none = refl
start_lem H m (some k) (some f) = refl

-- Over a lawful table: after any sequence of calls that a component makes on a runtime started for
-- a manifest, the slots and the clock are still the manifest's, every handle in the table stands
-- for a record that some slot of the manifest holds, and each service was reached only by calls
-- under such records (with nonces and tags of the fixed lengths, and blocks within the bound).
pub run-Confined :
    {Tab K F : Type 0} (H : Embedding Tab K F) (m : GrantManifest) (k : Option K) (f : Option F)
    → IsLawful H.table
    → (calls : List GuestCall) → Confined H m k f (run H calls (start H m k f))
run-Confined H m k f L calls =
    rw start_lem (run_onto-Confined H m k f L calls _ (new-Confined H m k f L))

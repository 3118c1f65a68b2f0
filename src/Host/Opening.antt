-- ===== src/Host/Opening.antt =====
-- How handles come and go: `open` and `drop` of both interfaces (`src/host.rs`).
use lantern_runtime.Base.{ℕ, ◌≡◌, ◌≢◌, none, some, arith, inl, inr}
use lantern_runtime.Base.Exec.{ok, err}
use lantern_runtime.Host.Records.{HostCapability, HostFile}
use lantern_runtime.Host.Errors.{access}
use lantern_runtime.Host.Services.{key_entry, file_entry, Kind, IsLawful, Embedding}
use lantern_runtime.Host.State.{RuntimeState, granted, keystore_cap, file_cap}
use lantern_runtime.Host.Keys.{drop_key, open_key}
use lantern_runtime.Host.Files.{drop_file, open_file}
use lantern_runtime.Host.Handles.{get-push_new, get-push_ne, get-delete_self, get-delete_ne}
use lantern_runtime.Host.Effects.{HoldsKey, HoldsFile, open_key-parts, open_file-parts}

module _ {Tab K F : Type 0} (H : Embedding Tab K F) where
  -- Only the table has changed, and it only at `h`.
  abbrev pub TouchesOnly : ℕ → RuntimeState Tab K F → RuntimeState Tab K F → Type 0
  TouchesOnly h s s' =
      (s' ≡ record s { table = s'.table })
      × ((j : ℕ) → j ≢ h → H.table.get s'.table j ≡ H.table.get s.table j)

  -- Opening a slot that is granted in neither interface (left empty, declined or never named)
  -- returns no handle and changes nothing, in either interface.
  open_denies :
      (slot : ℕ) (s : RuntimeState Tab K F)
      → granted s.keys slot ≡ none
      → granted s.files slot ≡ none
      → (open_key H slot s ≡ (s, none)) × (open_file H slot s ≡ (s, none))
  unfolding open_key open_file
  open_denies slot s key file = (ground arith, ground arith)

module _ {Tab K F : Type 0} (H : Embedding Tab K F) (L : IsLawful H.table) where
  -- Over a lawful table, when opening a keystore slot returns a handle, the slot was granted a
  -- record, the handle named no key before, it names that record now, and nothing else of the
  -- state has changed.
  pub open_key_grants :
      (slot : ℕ) (s s' : RuntimeState Tab K F) (h : ℕ)
      → open_key H slot s ≡ (s', some h)
      → (held : HostCapability) × (granted s.keys slot ≡ some held)
        × (keystore_cap H s h ≡ err access)
        × (keystore_cap H s' h ≡ ok held)
        × TouchesOnly H h s s'
  unfolding keystore_cap
  open_key_grants slot s s' h opened = elim (open_key-parts H slot s) [
    | inl e ↦ cc
    | inr (held, h', t, bound, pushed, e) ↦
        let same : h' ≡ h = ground arith in
        let next : s' ≡ record s { table = t } = ground arith in
        let pushed' : H.table.push s.table (key_entry held) ≡ some (h, t) = rw same at pushed in
        (
          held,
          bound,
          ground (arith, L.get-push_self s.table (key_entry held) h t pushed'),
          ground (arith, next, get-push_new H.table L h (key_entry held) pushed'),
          (rw next, λ j other. rw next (get-push_ne H.table L h _ j other pushed')),
        )
  ]

  -- Over a lawful table, when opening a filesystem slot returns a handle, the slot was granted a
  -- record, the handle named no file before, it names that record now, and nothing else of the
  -- state has changed.
  open_file_grants :
      (slot : ℕ) (s s' : RuntimeState Tab K F) (h : ℕ)
      → open_file H slot s ≡ (s', some h)
      → (held : HostFile) × (granted s.files slot ≡ some held)
        × (file_cap H s h ≡ err access)
        × (file_cap H s' h ≡ ok held)
        × TouchesOnly H h s s'
  unfolding file_cap
  open_file_grants slot s s' h opened = elim (open_file-parts H slot s) [
    | inl e ↦ cc
    | inr (held, h', t, bound, pushed, e) ↦
        let same : h' ≡ h = ground arith in
        let next : s' ≡ record s { table = t } = ground arith in
        let pushed' : H.table.push s.table (file_entry held) ≡ some (h, t) = rw same at pushed in
        (
          held,
          bound,
          ground (arith, L.get-push_self s.table (file_entry held) h t pushed'),
          ground (arith, next, get-push_new H.table L h (file_entry held) pushed'),
          (rw next, λ j other. rw next (get-push_ne H.table L h _ j other pushed')),
        )
  ]

  -- Over a lawful table, dropping a handle that names a key succeeds; afterwards the handle names
  -- nothing, and nothing else of the state has changed.
  drop_key_revokes :
      (s : RuntimeState Tab K F) (h : ℕ) (held : HostCapability)
      → HoldsKey H s h held
      → let (s', r) = drop_key H h s in
        (r ≡ ok tt) × (keystore_cap H s' h ≡ err access) × TouchesOnly H h s s'
  unfolding drop_key keystore_cap
  drop_key_revokes s h held holds =
      let (t, gone) = L.delete_live s.table (key_entry held) h holds in
      (
        ground (arith, gone),
        ground (arith, gone, get-delete_self H.table L h Kind.key_kind gone),
        (
          ground (arith, gone),
          λ j other. ground (arith, gone, get-delete_ne H.table L h Kind.key_kind j other gone),
        ),
      )

  -- Over a lawful table, dropping a handle that names a file succeeds; afterwards the handle names
  -- nothing, and nothing else of the state has changed.
  drop_file_revokes :
      (s : RuntimeState Tab K F) (h : ℕ) (held : HostFile)
      → HoldsFile H s h held
      → let (s', r) = drop_file H h s in
        (r ≡ ok tt) × (file_cap H s' h ≡ err access) × TouchesOnly H h s s'
  unfolding drop_file file_cap
  drop_file_revokes s h held holds =
      let (t, gone) = L.delete_live s.table (file_entry held) h holds in
      (
        ground (arith, gone),
        ground (arith, gone, get-delete_self H.table L h Kind.file_kind gone),
        (
          ground (arith, gone),
          λ j other. ground (arith, gone, get-delete_ne H.table L h Kind.file_kind j other gone),
        ),
      )

-- ===== src/Guests/KeyHosting.antt =====
-- `confined-probe-guest` on the host of `src/host.rs`.
use lantern_runtime.Base.{ℕ, ◌≡◌, refl, Option, none, some, true, List, arith}
use lantern_runtime.Base.Exec.{Exec, ok, err, map_err, pure}
use lantern_runtime.Host.Records.{HostCapability, ServiceEndpoint}
use lantern_runtime.Host.Errors.{KeystoreError, access, to_error_code}
use lantern_runtime.Host.Services.{key_entry, IsLawful, Embedding}
use lantern_runtime.Host.State.{RuntimeState, granted, keystore_cap, ask_keystore}
use lantern_runtime.Host.Handles.{get-push_new}
use lantern_runtime.Host.Keys.{sign, open_key, drop_key}
use lantern_runtime.Confined.Text.{Text}
use lantern_runtime.Confined.Probe.{check_report, reports_refusal}
use lantern_runtime.Confined.Program.{keystore_checks}
use lantern_runtime.Guests.KeyReport.{
  check_report-one, signed_report-starts, signed_report-contains, sign_denied-refuses,
}
use lantern_runtime.Guests.Scopes.{scoped-at, is_none-at, SameEntries, push-delete}
use lantern_runtime.Guests.Interface.{KeystoreHost, keystore_host, attempt, is_none}
use lantern_runtime.Confined.Chains.{bind-at_ok}
use lantern_runtime.Guests.KeyProbe.{
  message, sign_denied, signed_report, after_sign, with_key, probe,
}

-- The steps of a guest that holds its key and finds the other slot closed.
module _ {S : Type 0} (K : KeystoreHost S) (s s₁ s₂ s₃ : S) (key : ℕ)
    (opened : K.open_slot 0 s ≡ (s₁, some key)) (dropped : K.drop key s₂ ≡ (s₃, ok tt)) where
  probe-signed :
      (signature : List ℕ)
      → K.sign key message s₁ ≡ (s₂, ok signature)
      → K.open_slot 1 s₂ ≡ (s₂, none)
      → probe K s ≡ (s₃, ok (signed_report signature true))
  unfolding probe with_key after_sign
  probe-signed signature signed shut = rw opened (
      scoped-at K.drop key (attempt (K.sign key message) (after_sign K)) s₁ s₂ s₃ _
        (rw signed (
          bind-at_ok (is_none K.open_slot K.drop 1)
            (λ closed. pure (signed_report signature closed)) s₂ s₂ true
            (is_none-at K.open_slot K.drop 1 s₂ shut)))
        dropped)

  probe-denied : K.sign key message s₁ ≡ (s₂, err access) → probe K s ≡ (s₃, ok sign_denied)
  unfolding probe with_key after_sign
  probe-denied signed = rw opened (
      scoped-at K.drop key (attempt (K.sign key message) (after_sign K)) s₁ s₂ s₃ _ (rw signed refl)
        dropped)

-- What a run of the guest leaves and reports: the keystore's next state, and no handle.
abbrev pub Leaves :
    {Tab K F : Type 0} → Embedding Tab K F → RuntimeState Tab K F → K → Text → Type 0
Leaves {Tab} {K} {F} H s k' report =
    (s' : RuntimeState Tab K F) × (probe (keystore_host H) s ≡ (s', ok report))
    × (s' ≡ record s { table = s'.table; keystore = some k' })
    × SameEntries H.table s.table s'.table

module _ {Tab K F : Type 0} (H : Embedding Tab K F) (L : IsLawful H.table) where
  module _ (s : RuntimeState Tab K F) (held : HostCapability) (h : ℕ) (t : Tab) (k k' : K)
      (bound : granted s.keys 0 ≡ some held) (serves : held.service ≡ ServiceEndpoint.keystore)
      (pushed : H.table.push s.table (key_entry held) ≡ some (h, t))
      (attached : s.keystore ≡ some k) where
    open_first : open_key H 0 s ≡ (record s { table = t }, some h)
    unfolding open_key
    open_first = ground arith

    sign_answers :
        (r : Exec KeystoreError (List ℕ))
        → H.keystore.sign held.badge held.key message k ≡ (k', r)
        → sign H h message (record s { table = t })
          ≡ (record s { table = t; keystore = some k' }, map_err (to_error_code H.wire) r)
    unfolding sign keystore_cap ask_keystore
    sign_answers r signed = ground (arith, get-push_new H.table L h (key_entry held) pushed)

    -- The guest's key is dropped, and nothing of it stays.
    drop_first :
        (s' : RuntimeState Tab K F) × (drop_key H h (record s { table = t; keystore = some k' })
          ≡ (s', ok tt))
        × (s' ≡ record s { table = s'.table; keystore = some k' })
        × SameEntries H.table s.table s'.table
    unfolding drop_key
    drop_first =
        let (t', gone, same) = push-delete H.table L (key_entry held) s.table h t pushed in
        (record s { table = t'; keystore = some k' }, ground (arith, gone), refl, same)

    shut_second :
        granted s.keys 1 ≡ none
        → (t' : Tab) (k'' : Option K)
        → open_key H 1 (record s { table = t'; keystore = k'' })
          ≡ (record s { table = t'; keystore = k'' }, none)
    unfolding open_key
    shut_second shut t' k'' = ground arith

    -- On a host over a lawful table that granted a key at slot 0 and nothing at slot 1, with room for a
    -- handle and a keystore that signs, the guest's report passes the check of its host; the keystore
    -- has served that one call, and no handle stays behind.
    pub key_probe-passes :
        (signature : List ℕ)
        → H.keystore.sign held.badge held.key message k ≡ (k', ok signature)
        → granted s.keys 1 ≡ none
        → (report : Text) × (check_report report (keystore_checks H.wire).required ≡ ok tt)
          × Leaves H s k' report
    key_probe-passes signature signed shut =
        let (s', dropped, e, same) = drop_first in
        (
          signed_report signature true,
          check_report-one _ _ (signed_report-starts signature true)
              (signed_report-contains signature),
          (
            s',
            probe-signed (keystore_host H) s _ _ s' h open_first dropped signature
                (sign_answers (ok signature) signed) (shut_second shut t (some k')),
            e,
            same,
          ),
        )

    -- On such a host of which the keystore denies the signature, the guest's report shows the refusal
    -- that its host looks for, and no handle stays behind.
    pub key_probe-refused :
        (e : KeystoreError)
        → H.keystore.sign held.badge held.key message k ≡ (k', err e)
        → to_error_code H.wire e ≡ access
        → (report : Text) × (reports_refusal report (keystore_checks H.wire).refused ≡ true)
          × Leaves H s k' report
    key_probe-refused e signed denied =
        let (s', dropped, e', same) = drop_first in
        (
          sign_denied,
          sign_denied-refuses,
          (
            s',
            probe-denied (keystore_host H) s _ _ s' h open_first dropped
                (rw denied at (sign_answers (err e) signed)),
            e',
            same,
          ),
        )

-- ===== src/Host/Handles.antt =====
-- What a lawful resource table holds after a push and after a delete.
use lantern_runtime.Base.{ℕ, ◌≡◌, ◌≢◌, ◌⊎◌, none, some, arith}
use lantern_runtime.Host.Services.{Entry, Kind, ResourceTable, IsLawful}

module _ {Tab : Type 0} (R : ResourceTable Tab) (L : IsLawful R) {t t' : Tab} (h : ℕ) where
  pub get-push_cases :
      (e : Entry) (j : ℕ) (e' : Entry)
      → R.push t e ≡ some (h, t')
      → R.get t' j ≡ some e'
      → (e' ≡ e) ⊎ (R.get t j ≡ some e')
  get-push_cases e j e' pushed held = ground (arith, L.get-push t e h t' j pushed)

  pub get-push_new : (e : Entry) → R.push t e ≡ some (h, t') → R.get t' h ≡ some e
  get-push_new e pushed = ground (arith, L.get-push t e h t' h pushed)

  pub get-push_ne : (e : Entry) (j : ℕ) → j ≢ h → R.push t e ≡ some (h, t') → R.get t' j ≡ R.get t j
  get-push_ne e j other pushed = ground (arith, L.get-push t e h t' j pushed)

  pub get-delete_held :
      (k : Kind) (j : ℕ) (e : Entry)
      → R.delete t k h ≡ some t'
      → R.get t' j ≡ some e
      → R.get t j ≡ some e
  get-delete_held k j e gone held = ground (arith, L.get-delete t k h t' j gone)

  pub get-delete_self : (k : Kind) → R.delete t k h ≡ some t' → R.get t' h ≡ none
  get-delete_self k gone = ground (arith, L.get-delete t k h t' h gone)

  pub get-delete_ne : (k : Kind) (j : ℕ) → j ≢ h → R.delete t k h ≡ some t' → R.get t' j ≡ R.get t j
  get-delete_ne k j other gone = ground (arith, L.get-delete t k h t' j gone)

-- ===== src/Guests/Scopes.antt =====
-- A guest's handles: their scopes, and what the resource table holds before and after.
use lantern_runtime.Base.{ℕ, ◌≡◌, refl, Option, none, some, true, arith}
use lantern_runtime.Base.Exec.{ok, Call}
use lantern_runtime.Host.Services.{Entry, kind, ResourceTable, IsLawful}
use lantern_runtime.Host.State.{WasmtimeError}
use lantern_runtime.Host.Handles.{get-push_new}
use lantern_runtime.Guests.Interface.{Trap, scoped, is_none}

pub scoped-at :
    {S A : Type 0} (drop : ℕ → Call S WasmtimeError (Unit {0})) (h : ℕ) (m : Call S Trap A)
    (s s' s'' : S) (a : A)
    → m s ≡ (s', ok a)
    → drop h s' ≡ (s'', ok tt)
    → scoped drop h m s ≡ (s'', ok a)
scoped-at drop h m s s' s'' a ran dropped = ground arith

pub is_none-at :
    {S : Type 0} (open_slot : ℕ → S → S × Option ℕ) (drop : ℕ → Call S WasmtimeError (Unit {0}))
    (slot : ℕ) (s : S)
    → open_slot slot s ≡ (s, none)
    → is_none open_slot drop slot s ≡ (s, ok true)
is_none-at open_slot drop slot s shut = rw shut refl

module _ {Tab : Type 0} (T : ResourceTable Tab) where
  -- Two tables with the same entries.
  abbrev pub SameEntries : Tab → Tab → Type 0
  SameEntries t t' = (j : ℕ) → T.get t' j ≡ T.get t j

  -- There is always room for another handle.
  abbrev pub HasRoom : Type 0
  HasRoom = (t : Tab) (e : Entry) → (h : ℕ) × (t' : Tab) × (T.push t e ≡ some (h, t'))

module _ {Tab : Type 0} (T : ResourceTable Tab) (L : IsLawful T) where
  -- A handle that is pushed and deleted leaves no trace.
  pub push-delete :
      (e : Entry) (t : Tab) (h : ℕ) (t' : Tab)
      → T.push t e ≡ some (h, t')
      → (t'' : Tab) × (T.delete t' (kind e) h ≡ some t'') × SameEntries T t t''
  push-delete e t h t' pushed =
      let (t'', gone) = L.delete_live t' e h (get-push_new T L h e pushed) in
      (
        t'',
        gone,
        λ j. ground (
          arith,
          L.get-delete t' (kind e) h t'' j gone,
          L.get-push t e h t' j pushed,
          L.get-push_self t e h t' pushed,
        ),
      )

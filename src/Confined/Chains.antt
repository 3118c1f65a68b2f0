-- ===== src/Confined/Chains.antt =====
-- What a chain of calls that ends in a value says of its steps.
use lantern_runtime.Base.{◌≡◌, refl, ap, Bool, true, false, Option, none, some, arith}
use lantern_runtime.Base.Exec.{Exec, ok, err, panic, map_err, Call, ok_or, ◌>>=◌}
use lantern_runtime.Confined.Stage.{Fault, settle_result, fail_if}

ok-result :
    {W E A B : Type 0} (f : A → Call W E B) (w : W) (r : Exec E A) (b : B)
    → (elim r as (λ _. W × Exec E B) [ ok a ↦ f a w | err e ↦ (w, err e) | panic ↦ (w, panic) ]).1
      ≡ ok b
    → (a : A) × (r ≡ ok a) × ((f a w).1 ≡ ok b)
ok-result f w (ok a) b h = (a, refl, h)
ok-result f w (err e) b h = cc
ok-result f w panic b h = cc

-- A chain ends in a value only if its first call does, and the rest from where that one leaves off.
pub bind-ok :
    {W E A B : Type 0} (m : Call W E A) (f : A → Call W E B) (w : W) (b : B)
    → ((m >>= f) w).1 ≡ ok b
    → (a : A) × ((m w).1 ≡ ok a) × ((f a (m w).0).1 ≡ ok b)
bind-ok m f w b h = ok-result f (m w).0 (m w).1 b h

pub map_err-ok : {E F A : Type 0} (f : E → F) (r : Exec E A) (a : A) → map_err f r ≡ ok a → r ≡ ok a
map_err-ok f (ok _) a h = ground arith
map_err-ok f (err _) a h = cc
map_err-ok f panic a h = cc

pub ok_or-ok : {E A : Type 0} (o : Option A) (e : E) (a : A) → ok_or o e ≡ ok a → o ≡ some a
ok_or-ok none e a h = cc
ok_or-ok (some _) e a h = ground arith

-- A guard that is passed leaves everything as it is.
pub fail_if-ok :
    {W : Type 0} (b : Bool) (fault : Fault) (w : W) (u : Unit {0})
    → (fail_if b fault w).1 ≡ ok u
    → (b ≡ false) × ((fail_if b fault w).0 ≡ w)
fail_if-ok true fault w u h = cc
fail_if-ok false fault w u h = (refl, refl)

pub settle_result-ok :
    {E A : Type 0} (r : Exec E A) (a : A) → settle_result r ≡ ok (some a) → r ≡ ok a
settle_result-ok (ok _) a h = ground arith
settle_result-ok (err _) a h = cc
settle_result-ok panic a h = cc

module _ {W E A B : Type 0} (m : Call W E A) (f : A → Call W E B) (w w' : W) where
  go_on : W × Exec E A → W × Exec E B
  go_on r = elim r.1 [ ok a ↦ f a r.0 | err e ↦ (r.0, err e) | panic ↦ (r.0, panic) ]

  -- How a chain goes on from a value, and that an error ends it.
  pub bind-at_ok : (a : A) → m w ≡ (w', ok a) → (m >>= f) w ≡ f a w'
  unfolding go_on
  bind-at_ok a e = ap go_on e

  pub bind-at_err : (x : E) → m w ≡ (w', err x) → (m >>= f) w ≡ (w', err x)
  unfolding go_on
  bind-at_err x e = ap go_on e

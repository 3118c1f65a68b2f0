-- ===== src/Base/Exec.antt =====
-- What a Rust call ends in: a value, an `Err`, or a panic; and calls that thread a state.
use mathlib.Core.Option.{Option, none, some}

-- `Result<A, E>`, or a panic of the call.
pub data Exec {ℓ κ} (E : Type ℓ) (A : Type κ) : Type (ℓ ⊔ κ) where
  ok : A → Exec E A
  err : E → Exec E A
  panic : Exec E A

-- `map_err`
abbrev pub map_err {ℓ κ μ} : {E : Type ℓ} {F : Type κ} {A : Type μ} → (E → F) → Exec E A → Exec F A
map_err f (ok a) = ok a
map_err f (err e) = err (f e)
map_err f panic = panic

-- A call that may change a state of type `S`.
abbrev pub Call : Type 0 → Type 0 → Type 0 → Type 0
Call S E A = S → S × Exec E A

module _ {S E A : Type 0} where
  abbrev pub pure : A → Call S E A
  pure a s = (s, ok a)

  abbrev pub raise : E → Call S E A
  raise e s = (s, err e)

  -- Goes on with what was computed without touching the state.
  abbrev pub lift : Exec E A → Call S E A
  lift r s = (s, r)

-- `ok_or`
abbrev pub ok_or : {E A : Type 0} → Option A → E → Exec E A
ok_or none e = err e
ok_or (some a) e = ok a

infixl 5 ◌>>=◌ ◌>>◌
abbrev pub ◌>>=◌ : {S E A B : Type 0} → Call S E A → (A → Call S E B) → Call S E B
◌>>=◌ m f s = elim ((m s).1) [
  | ok a ↦ f a ((m s).0)
  | err e ↦ ((m s).0, err e)
  | panic ↦ ((m s).0, panic)
]

abbrev pub ◌>>◌ : {S E A B : Type 0} → Call S E A → Call S E B → Call S E B
m >> k = m >>= λ _. k

-- `expect`
abbrev pub expect : {E A : Type 0} → Option A → Exec E A
expect none = panic
expect (some a) = ok a

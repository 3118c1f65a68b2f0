-- ===== src/Guests/Format.antt =====
-- What `format!` prints for a number: `{}` in decimal, and `{:02x}` for a byte.
use lantern_runtime.Base.{
  ℕ, zero, suc, ◌+◌, ◌-◌, ◌*◌, ◌/◌, ◌%◌, ◌<◌, ◌≡◌, ◌∙◌, ap, List, [], ◌∷◌, ◌++◌, arith, ltb,
  if◌then◌else◌, Bool-cases, inl, inr,
}
use lantern_runtime.Confined.Text.{Text}

-- The digits of a number before a text, with fuel.
unfoldable pub digits : ℕ → ℕ → Text → Text
digits zero n after = after
digits (suc f) n after =
    let more = digits f (n / 10) ((48 + n % 10) ∷ after) in
    if ltb n 10 then (48 + n) ∷ after else more

unfoldable pub decimal : ℕ → Text
decimal n = digits (suc n) n []

-- The number that digits stand for, after those read already.
abbrev pub value : ℕ → Text → ℕ
value n [] = n
value n (c ∷ cs) = value (n * 10 + (c - 48)) cs

digits-value : (f n : ℕ) (after : Text) → n < f → value 0 (digits f n after) ≡ value n after
unfolding digits
digits-value zero n after h = absurd (omega arith)
digits-value (suc f) n after h = elim (Bool-cases (ltb n 10)) [
  | inl small ↦ rw small (ap (λ (v : ℕ). value v after) (omega arith))
  | inr large ↦ rw large (
      digits-value f (n / 10) ((48 + n % 10) ∷ after) (ground arith)
      ∙ ap (λ (v : ℕ). value v after) (omega arith))
]

-- The fuel is enough: the digits of a number stand for it.
pub decimal-value : (n : ℕ) → value 0 (decimal n) ≡ n
unfolding decimal
decimal-value n = digits-value (suc n) n [] (omega arith)

abbrev hex_digit : ℕ → ℕ
hex_digit d = if ltb d 10 then 48 + d else 87 + d

-- `{byte:02x}`
abbrev hex_byte : ℕ → Text
hex_byte b = hex_digit (b / 16) ∷ hex_digit (b % 16) ∷ []

unfoldable pub hex_bytes : List ℕ → Text
hex_bytes [] = []
hex_bytes (b ∷ bs) = hex_byte b ++ hex_bytes bs

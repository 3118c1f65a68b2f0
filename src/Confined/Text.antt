-- ===== src/Confined/Text.antt =====
-- Strings as lists of code points, with the searches of `str` that `confined-runtime` uses.
use Prim.Native.Char.{code}
use Prim.Native.String.{String}
use lantern_runtime.Base.{
  ℕ, suc, Option, none, some, Bool, true, false, List, [], ◌∷◌, ◌==◌, ◌&&◌, ◌||◌, if◌then◌else◌,
}

abbrev pub Text : Type 0
Text = List ℕ

-- The code points of a literal. `String` has its own `[]` and `∷`.
abbrev pub codes : String → Text
codes String.[] = []
codes (String.◌∷◌ c s) = code c ∷ codes s

-- `starts_with`, the text first.
unfoldable pub starts_with : Text → Text → Bool
starts_with text [] = true
starts_with [] (_ ∷ _) = false
starts_with (c ∷ cs) (d ∷ ds) = c == d && starts_with cs ds

-- `contains`
unfoldable pub contains : Text → Text → Bool
contains [] marker = starts_with [] marker
contains (c ∷ cs) marker = starts_with (c ∷ cs) marker || contains cs marker

-- `iter().position(…)`
unfoldable pub position : {A : Type 0} → (A → Bool) → List A → Option ℕ
position test [] = none
position test (x ∷ xs) =
    if test x then some 0 else elim (position test xs) [ none ↦ none | some i ↦ some (suc i) ]

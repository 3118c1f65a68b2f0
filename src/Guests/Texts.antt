-- ===== src/Guests/Texts.antt =====
-- Where a text is found in a longer one.
use lantern_runtime.Base.{◌≡◌, refl, true, [], ◌∷◌, ◌++◌, ==_refl, arith}
use lantern_runtime.Confined.Text.{Text, starts_with, contains}

pub starts_with-append : (m rest : Text) → starts_with (m ++ rest) m ≡ true
unfolding starts_with
starts_with-append [] rest = refl
starts_with-append (c ∷ cs) rest = rw (==_refl c) (starts_with-append cs rest)

pub contains-append : (m rest : Text) → contains (m ++ rest) m ≡ true
unfolding contains starts_with
contains-append [] [] = refl
contains-append [] (c ∷ rest) = refl
contains-append (c ∷ cs) rest = rw (==_refl c, starts_with-append cs rest)

pub contains-append_right : (p t m : Text) → contains t m ≡ true → contains (p ++ t) m ≡ true
unfolding contains
contains-append_right [] t m h = h
contains-append_right (c ∷ p) t m h = ground (arith, contains-append_right p t m h)

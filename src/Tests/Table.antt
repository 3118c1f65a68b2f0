-- ===== src/Tests/Table.antt =====
-- A resource table to run the mapping on: a list of places, a freed place staying free.
use lantern_runtime.Base.{
  ℕ, zero, suc, ◌≡◌, refl, Option, none, some, Bool, true, false, List, [], ◌∷◌, ◌++◌, length, set,
  arith, ◌==◌, if◌then◌else◌,
}
use lantern_runtime.Host.Services.{Entry, Kind, kind, ResourceTable, IsLawful}

abbrev pub Places : Type 0
Places = List (Option Entry)

abbrev pub get : Places → ℕ → Option Entry
get [] h = none
get (p ∷ ps) zero = p
get (p ∷ ps) (suc h) = get ps h

abbrev same_kind : Kind → Kind → Bool
same_kind Kind.key_kind Kind.key_kind = true
same_kind Kind.file_kind Kind.file_kind = true
same_kind _ _ = false

abbrev free : Places → Kind → ℕ → Option Entry → Option Places
free t k h none = none
free t k h (some e) = if same_kind k (kind e) then some (set t h none) else none

abbrev pub places : ResourceTable Places
places = record {
  new = [];
  push = λ t e. some (length t, t ++ (some e ∷ []));
  get = get;
  delete = λ t k h. free t k h (get t h);
}

get-length : (t : Places) → get t (length t) ≡ none
get-length [] = refl
get-length (p ∷ t) = get-length t

get-append :
    (t : Places) (e : Entry) (j : ℕ)
    → get (t ++ (some e ∷ [])) j ≡ (if j == length t then some e else get t j)
get-append [] e zero = ground arith
get-append [] e (suc j) = ground arith
get-append (p ∷ t) e zero = ground arith
get-append (p ∷ t) e (suc j) = ground (arith, get-append t e j)

get-set : (t : Places) (h j : ℕ) → get (set t h none) j ≡ (if j == h then none else get t j)
get-set [] h j = ground arith
get-set (p ∷ t) zero zero = ground arith
get-set (p ∷ t) zero (suc j) = ground arith
get-set (p ∷ t) (suc h) zero = ground arith
get-set (p ∷ t) (suc h) (suc j) = ground (arith, get-set t h j)

same_kind_self : (k : Kind) → same_kind k k ≡ true
same_kind_self Kind.key_kind = refl
same_kind_self Kind.file_kind = refl

pub places-IsLawful : IsLawful places
places-IsLawful = record {
  get-new = λ h. refl;
  get-push_self = λ t e h t' pushed. ground (arith, get-length t);
  get-push = λ t e h t' j pushed. ground (arith, get-append t e j);
  get-delete = λ t k h t' j gone. ground (arith, get-set t h j);
  delete_live = λ t e h held. (set t h none, ground (arith, same_kind_self (kind e)));
}

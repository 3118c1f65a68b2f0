-- ===== src/Platform/Pool/Tables.antt =====
-- The two parallel tables of `mod backing` (`src/platform.rs`): what they hold, and how that survives
-- a write to one slot.
use lantern_runtime.Base.{
  ℕ, zero, suc, ◌+◌, ◌*◌, ◌≤◌, ◌<◌, ◌≡◌, ◌⊎◌, inl, inr, refl, some, List, [], ◌∷◌, length, set,
  get_or, arith,
}
use lantern_runtime.Platform.Backing.{vaddr_of, megapage_bytes, free_slot, slot_of}

abbrev pub sum : List ℕ → ℕ
sum [] = 0
sum (c ∷ cs) = c + sum cs

-- A run of regions below `next`.
abbrev pub Placed : ℕ → ℕ → ℕ → Type 0
Placed next v c = (start : ℕ) × (v ≡ vaddr_of start) × (start + c ≤ next)

-- Every slot is free or holds a run below `next`; the tables are equally long.
abbrev pub Held : ℕ → List ℕ → List ℕ → Type 0
Held next [] [] = Unit {0}
Held next (v ∷ vs) (c ∷ cs) = ((c ≡ 0) ⊎ Placed next v c) × Held next vs cs
Held next _ _ = ⊥

-- The addresses of two runs do not meet.
abbrev pub Clear : ℕ → ℕ → ℕ → ℕ → Type 0
Clear v c v' c' = (v + c * megapage_bytes ≤ v') ⊎ (v' + c' * megapage_bytes ≤ v)

-- A run meets none of the occupied slots.
abbrev pub Apart : ℕ → ℕ → List ℕ → List ℕ → Type 0
Apart v c [] [] = Unit {0}
Apart v c (v' ∷ vs) (c' ∷ cs) = ((c' ≡ 0) ⊎ Clear v c v' c') × Apart v c vs cs
Apart v c _ _ = ⊥

-- No two occupied slots meet.
abbrev pub Distinct : List ℕ → List ℕ → Type 0
Distinct [] [] = Unit {0}
Distinct (v ∷ vs) (c ∷ cs) = ((c ≡ 0) ⊎ Apart v c vs cs) × Distinct vs cs
Distinct _ _ = ⊥

pub Held-mono : (n n' : ℕ) (vs cs : List ℕ) → n ≤ n' → Held n vs cs → Held n' vs cs
Held-mono n n' [] [] le h = tt
Held-mono n n' [] (c ∷ cs) le h = absurd h
Held-mono n n' (v ∷ vs) [] le h = absurd h
Held-mono n n' (v ∷ vs) (c ∷ cs) le (inl e, h) = (inl e, Held-mono n n' vs cs le h)
Held-mono n n' (v ∷ vs) (c ∷ cs) le (inr (start, e, b), h) =
    (inr (start, e, omega arith), Held-mono n n' vs cs le h)

pub Held-set :
    (n i v c : ℕ) (vs cs : List ℕ)
    → (c ≡ 0) ⊎ Placed n v c
    → Held n vs cs
    → Held n (set vs i v) (set cs i c)
Held-set n i v c [] [] p h = tt
Held-set n i v c [] (_ ∷ _) p h = absurd h
Held-set n i v c (_ ∷ _) [] p h = absurd h
Held-set n zero v c (_ ∷ vs) (_ ∷ cs) p h = (p, h.1)
Held-set n (suc i) v c (_ ∷ vs) (_ ∷ cs) p h = (h.0, Held-set n i v c vs cs p h.1)

-- A run at `next` or above meets nothing that is held below.
pub Apart-fresh : (n c : ℕ) (vs cs : List ℕ) → Held n vs cs → Apart (vaddr_of n) c vs cs
Apart-fresh n c [] [] h = tt
Apart-fresh n c [] (_ ∷ _) h = absurd h
Apart-fresh n c (_ ∷ _) [] h = absurd h
Apart-fresh n c (v ∷ vs) (c' ∷ cs) (inl e, h) = (inl e, Apart-fresh n c vs cs h)
Apart-fresh n c (v ∷ vs) (c' ∷ cs) (inr (start, e, b), h) =
    (inr (inr (omega arith)), Apart-fresh n c vs cs h)

Apart-set :
    (i v c v' c' : ℕ) (vs cs : List ℕ)
    → (c' ≡ 0) ⊎ Clear v c v' c'
    → Apart v c vs cs
    → Apart v c (set vs i v') (set cs i c')
Apart-set i v c v' c' [] [] p h = tt
Apart-set i v c v' c' [] (_ ∷ _) p h = absurd h
Apart-set i v c v' c' (_ ∷ _) [] p h = absurd h
Apart-set zero v c v' c' (_ ∷ vs) (_ ∷ cs) p h = (p, h.1)
Apart-set (suc i) v c v' c' (_ ∷ vs) (_ ∷ cs) p h = (h.0, Apart-set i v c v' c' vs cs p h.1)

Clear-sym : (v c v' c' : ℕ) → Clear v c v' c' → Clear v' c' v c
Clear-sym v c v' c' (inl h) = inr h
Clear-sym v c v' c' (inr h) = inl h

pub Distinct-set :
    (i v c : ℕ) (vs cs : List ℕ)
    → (c ≡ 0) ⊎ Apart v c vs cs
    → Distinct vs cs
    → Distinct (set vs i v) (set cs i c)
Distinct-set i v c [] [] p h = tt
Distinct-set i v c [] (_ ∷ _) p h = absurd h
Distinct-set i v c (_ ∷ _) [] p h = absurd h
Distinct-set zero v c (v' ∷ vs) (c' ∷ cs) (inl e) h = (inl e, h.1)
Distinct-set zero v c (v' ∷ vs) (c' ∷ cs) (inr a) h = (inr a.1, h.1)
Distinct-set (suc i) v c (v' ∷ vs) (c' ∷ cs) (inl e) (inl e', h) =
    (inl e', Distinct-set i v c vs cs (inl e) h)
Distinct-set (suc i) v c (v' ∷ vs) (c' ∷ cs) (inl e) (inr a', h) =
    (inr (Apart-set i v' c' v c vs cs (inl e) a'), Distinct-set i v c vs cs (inl e) h)
Distinct-set (suc i) v c (v' ∷ vs) (c' ∷ cs) (inr a) (inl e', h) =
    (inl e', Distinct-set i v c vs cs (inr a.1) h)
Distinct-set (suc i) v c (v' ∷ vs) (c' ∷ cs) (inr (inl e, a)) (inr a', h) =
    (inl e, Distinct-set i v c vs cs (inr a) h)
Distinct-set (suc i) v c (v' ∷ vs) (c' ∷ cs) (inr (inr far, a)) (inr a', h) = (
  inr (Apart-set i v' c' v c vs cs (inr (Clear-sym v c v' c' far)) a'),
  Distinct-set i v c vs cs (inr a) h,
)

pub sum-set : (i c : ℕ) (cs : List ℕ) → sum (set cs i c) ≤ sum cs + c
sum-set i c [] = omega arith
sum-set zero c (_ ∷ cs) = omega arith
sum-set (suc i) c (_ ∷ cs) = omega (arith, sum-set i c cs)

-- Fewer regions in use than slots leave a slot free.
pub free_slot-found :
    (cs : List ℕ) → sum cs < length cs → (i : ℕ) × (free_slot cs ≡ some i) × (i < length cs)
unfolding free_slot
free_slot-found [] h = absurd (omega arith)
free_slot-found (zero ∷ cs) h = (0, refl, omega arith)
free_slot-found (suc c ∷ cs) h =
    let (i, e, b) = free_slot-found cs (omega arith) in (suc i, ground (arith, e), omega (arith, b))

pub get_or-set : (i c : ℕ) (cs : List ℕ) → i < length cs → get_or (set cs i c) i 0 ≡ c
get_or-set i c [] h = absurd (omega arith)
get_or-set zero c (_ ∷ cs) h = refl
get_or-set (suc i) c (_ ∷ cs) h = get_or-set i c cs (omega arith)

-- A run at `next` that is entered in a slot is found there: what was held lies below it.
pub slot_of-set :
    (n i c : ℕ) (vs cs : List ℕ)
    → Held n vs cs
    → i < length cs
    → 0 < c
    → slot_of (vaddr_of n) (set vs i (vaddr_of n)) (set cs i c) ≡ some i
unfolding slot_of
slot_of-set n i c [] [] h lt pos = absurd (omega arith)
slot_of-set n i c [] (_ ∷ _) h lt pos = absurd h
slot_of-set n i c (_ ∷ _) [] h lt pos = absurd h
slot_of-set n zero c (v ∷ vs) (c' ∷ cs) h lt pos = ground arith
slot_of-set n (suc i) c (v ∷ vs) (c' ∷ cs) (inl e, h) lt pos =
    ground (arith, e, slot_of-set n i c vs cs h (omega arith) pos)
slot_of-set n (suc i) c (v ∷ vs) (zero ∷ cs) (inr (start, e, b), h) lt pos =
    ground (arith, slot_of-set n i c vs cs h (omega arith) pos)
slot_of-set n (suc i) c (v ∷ vs) (suc c' ∷ cs) (inr (start, e, b), h) lt pos =
    ground (arith, e, b, slot_of-set n i c vs cs h (omega arith) pos)

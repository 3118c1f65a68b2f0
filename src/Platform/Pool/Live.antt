-- ===== src/Platform/Pool/Live.antt =====
-- The regions that the tables of `mod backing` (`src/platform.rs`) say are handed out, as a slot is
-- entered and emptied.
use lantern_runtime.Base.{
  ℕ, zero, suc, ◌-◌, ◌/◌, ◌<◌, ◌≡◌, ◌⊎◌, inl, inr, refl, sym, subst, ◌∙◌, ◌≢◌, some, Bool, true,
  false, ◌||◌, List, [], ◌∷◌, length, set, get_or, arith, ◌==◌, if◌then◌else◌, Bool-cases,
  Option-cases,
}
use lantern_runtime.Platform.Backing.{vaddr_of, megapage_bytes, arena_vaddr, free_slot, slot_of}
use lantern_runtime.Platform.Pool.Tables.{Held, Placed, Clear, Apart, Distinct}
use lantern_runtime.Platform.Pool.Frames.{within}

-- The region at an address of the arena.
abbrev pub region_at : ℕ → ℕ
region_at v = (v - arena_vaddr) / megapage_bytes

-- Some slot holds a run with this region.
abbrev pub is_live : ℕ → List ℕ → List ℕ → Bool
is_live r (v ∷ vs) (c ∷ cs) = within (region_at v) c r || is_live r vs cs
is_live r _ _ = false

no_run : (s r : ℕ) → within s 0 r ≡ false
no_run s r = ground arith

pub is_live-empty : (r : ℕ) (vs cs : List ℕ) → Held 0 vs cs → is_live r vs cs ≡ false
is_live-empty r [] cs h = refl
is_live-empty r (v ∷ vs) [] h = absurd h
is_live-empty r (v ∷ vs) (c ∷ cs) (inl e, h) =
    rw (e, no_run (region_at v) r) (is_live-empty r vs cs h)
is_live-empty r (v ∷ vs) (c ∷ cs) (inr (start, at, b), h) =
    let e : c ≡ 0 = omega arith in rw (e, no_run (region_at v) r) (is_live-empty r vs cs h)

pub free_slot-count : (i : ℕ) (cs : List ℕ) → free_slot cs ≡ some i → get_or cs i 0 ≡ 0
unfolding free_slot
free_slot-count i [] e = cc
free_slot-count zero (zero ∷ cs) e = refl
free_slot-count (suc i) (zero ∷ cs) e = ground arith
free_slot-count zero (suc c ∷ cs) e = elim (Option-cases (free_slot cs)) [
  | inl full ↦ ground arith
  | inr (j, found) ↦ ground arith
]
free_slot-count (suc i) (suc c ∷ cs) e = elim (Option-cases (free_slot cs)) [
  | inl full ↦ ground arith
  | inr (j, found) ↦ ground (arith, free_slot-count i cs)
]

-- Entering a run in a free slot.
pub is_live-entered :
    (r n i v c : ℕ) (vs cs : List ℕ)
    → Held n vs cs
    → i < length cs
    → get_or cs i 0 ≡ 0
    → is_live r (set vs i v) (set cs i c) ≡ (within (region_at v) c r || is_live r vs cs)
is_live-entered r n i v c [] [] h lt free = absurd (omega arith)
is_live-entered r n i v c [] (_ ∷ _) h lt free = absurd h
is_live-entered r n i v c (_ ∷ _) [] h lt free = absurd h
is_live-entered r n zero v c (v' ∷ vs) (c' ∷ cs) h lt free = rw (free, no_run (region_at v') r) refl
is_live-entered r n (suc i) v c (v' ∷ vs) (c' ∷ cs) (_, h) lt free =
    ground (arith, is_live-entered r n i v c vs cs h (omega arith) free)

pub slot_of-first :
    (ptr v c : ℕ) (vs cs : List ℕ) → slot_of ptr (v ∷ vs) (c ∷ cs) ≡ some 0 → (v ≡ ptr) × (c ≢ 0)
unfolding slot_of
slot_of-first ptr v c vs cs e = elim (Option-cases (slot_of ptr vs cs)) [
  | inl miss ↦ (ground arith, ground arith)
  | inr (j, found) ↦ (ground arith, ground arith)
]

pub slot_of-later :
    (ptr v c i : ℕ) (vs cs : List ℕ)
    → slot_of ptr (v ∷ vs) (c ∷ cs) ≡ some (suc i)
    → slot_of ptr vs cs ≡ some i
unfolding slot_of
slot_of-later ptr v c i vs cs e = elim (Option-cases (slot_of ptr vs cs)) [
  | inl miss ↦ absurd (ground arith)
  | inr (j, found) ↦ ground arith
]

pub slot_of-passed :
    (ptr v c i : ℕ) (vs cs : List ℕ)
    → slot_of ptr (v ∷ vs) (c ∷ cs) ≡ some (suc i)
    → (c ≡ 0) ⊎ (v ≢ ptr)
unfolding slot_of
slot_of-passed ptr v c i vs cs e = elim (Bool-cases (c == 0)) [
  | inl free ↦ inl (ground arith)
  | inr used ↦ inr (ground arith)
]

-- What a slot that is found holds lies below the index.
pub slot_of-Placed :
    (n ptr i : ℕ) (vs cs : List ℕ)
    → Held n vs cs
    → slot_of ptr vs cs ≡ some i
    → Placed n ptr (get_or cs i 0)
unfolding slot_of
slot_of-Placed n ptr i [] cs h e = cc
slot_of-Placed n ptr i (v ∷ vs) [] h e = cc
slot_of-Placed n ptr zero (v ∷ vs) (c ∷ cs) (p, h) e =
    let (hit, used) = slot_of-first ptr v c vs cs e in
    elim p [ inl free ↦ absurd (used free) | inr (start, at, b) ↦ (start, sym hit ∙ at, b) ]
slot_of-Placed n ptr (suc i) (v ∷ vs) (c ∷ cs) (p, h) e =
    slot_of-Placed n ptr i vs cs h (slot_of-later ptr v c i vs cs e)

-- A region of a run is in no run that is clear of it.
Apart-dead :
    (r n start c : ℕ) (vs cs : List ℕ)
    → Held n vs cs
    → Apart (vaddr_of start) c vs cs
    → within start c r ≡ true
    → is_live r vs cs ≡ false
Apart-dead r n start c [] cs h a w = refl
Apart-dead r n start c (v ∷ vs) [] h a w = refl
Apart-dead r n start c (v ∷ vs) (c' ∷ cs) (inl e, h) (clear, a) w =
    rw (e, no_run (region_at v) r) (Apart-dead r n start c vs cs h a w)
Apart-dead r n start c (v ∷ vs) (c' ∷ cs) (inr (s, at, b), h) (inl e, a) w =
    rw (e, no_run (region_at v) r) (Apart-dead r n start c vs cs h a w)
Apart-dead r n start c (v ∷ vs) (c' ∷ cs) (inr (s, at, b), h) (inr clear, a) w =
    let here : region_at v ≡ s = omega arith in
    let other : within s c' r ≡ false = ground arith in
    rw (here, other) (Apart-dead r n start c vs cs h a w)

-- A run is clear of what a slot that is found holds.
Apart-found :
    (v c ptr i : ℕ) (vs cs : List ℕ)
    → Apart v c vs cs
    → slot_of ptr vs cs ≡ some i
    → Clear v c ptr (get_or cs i 0)
unfolding slot_of
Apart-found v c ptr i [] cs a e = cc
Apart-found v c ptr i (v' ∷ vs) [] a e = cc
Apart-found v c ptr zero (v' ∷ vs) (c' ∷ cs) (p, a) e =
    let (hit, used) = slot_of-first ptr v' c' vs cs e in
    elim p [ inl free ↦ absurd (used free) | inr clear ↦ subst (λ x. Clear v c x c') hit clear ]
Apart-found v c ptr (suc i) (v' ∷ vs) (c' ∷ cs) (p, a) e =
    Apart-found v c ptr i vs cs a (slot_of-later ptr v' c' i vs cs e)

-- A region of a run that is found is not in another slot's.
Clear-within :
    (r n v c ptr count : ℕ)
    → (c ≡ 0) ⊎ Placed n v c
    → Placed n ptr count
    → Clear v c ptr count
    → within (region_at ptr) count r ≡ true
    → within (region_at v) c r ≡ false
Clear-within r n v c ptr count (inl e) (s, at, b) clear w = rw e (no_run (region_at v) r)
Clear-within r n v c ptr count (inr (s', at', b')) (s, at, b) clear w =
    let here : region_at v ≡ s' = omega arith in
    let there : region_at ptr ≡ s = omega arith in
    let inside : within s count r ≡ true = rw there at w in rw here (ground arith)

-- A region of a slot is in none of the slots after it.
only_run :
    (r n v c : ℕ) (vs cs : List ℕ)
    → c ≢ 0
    → (c ≡ 0) ⊎ Placed n v c
    → (c ≡ 0) ⊎ Apart v c vs cs
    → Held n vs cs
    → within (region_at v) c r ≡ true
    → is_live r vs cs ≡ false
only_run r n v c vs cs used (inl free) d h on = absurd (used free)
only_run r n v c vs cs used (inr placed) (inl free) h on = absurd (used free)
only_run r n v c vs cs used (inr (start, at, b)) (inr a) h on =
    let here : region_at v ≡ start = omega arith in
    Apart-dead r n start c vs cs h (rw at at a) (rw here at on)

-- Emptying a slot that is found takes its run out, and no other region.
pub is_live-emptied :
    (r n ptr i : ℕ) (vs cs : List ℕ)
    → Held n vs cs
    → Distinct vs cs
    → slot_of ptr vs cs ≡ some i
    → is_live r (set vs i 0) (set cs i 0)
      ≡ (if within (region_at ptr) (get_or cs i 0) r then false else is_live r vs cs)
unfolding slot_of
is_live-emptied r n ptr i [] cs h d e = cc
is_live-emptied r n ptr i (v ∷ vs) [] h d e = cc
is_live-emptied r n ptr zero (v ∷ vs) (c ∷ cs) (p, h) (d, ds) e =
    let (hit, used) = slot_of-first ptr v c vs cs e in
    rw (no_run (region_at 0) r, sym hit)
      (elim (Bool-cases (within (region_at v) c r)) [
        | inr off ↦ rw off refl
        | inl on ↦ rw on (only_run r n v c vs cs used p d h on)
      ])
is_live-emptied r n ptr (suc i) (v ∷ vs) (c ∷ cs) (p, h) (d, ds) e =
    let found = slot_of-later ptr v c i vs cs e in
    let rest = is_live-emptied r n ptr i vs cs h ds found in
    elim (Bool-cases (within (region_at ptr) (get_or cs i 0) r)) [
      | inr off ↦ rw off (ground (arith, rest))
      | inl on ↦ elim d [
        | inl free ↦ rw (on, free, no_run (region_at v) r) (ground (arith, rest))
        | inr a ↦
            let away =
              Clear-within r n v c ptr (get_or cs i 0) p (slot_of-Placed n ptr i vs cs h found)
                (Apart-found v c ptr i vs cs a found) on in
            rw (on, away) (ground (arith, rest))
      ]
    ]

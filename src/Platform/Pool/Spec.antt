-- ===== src/Platform/Pool/Spec.antt =====
-- What the pool of `src/platform.rs` promises, with no tables: an index of the next region, and for each
-- address how many regions were handed out there and not given back.
use lantern_runtime.Base.{
  ℕ, zero, suc, ◌+◌, ◌<◌, ◌≡◌, inl, inr, refl, Option, none, some, List, [], ◌∷◌, length, set,
  get_or, arith, ltb, not, ◌&&◌, ◌==◌, if◌then◌else◌, Option-cases,
}
use lantern_runtime.Platform.Backing.{vaddr_of, frames_for, slot_of}
use lantern_runtime.Platform.Pool.Tables.{Held, Apart, Distinct}
use lantern_runtime.Platform.Pool.Live.{slot_of-first, slot_of-later, slot_of-passed}

pub record Spec : Type 0 where
  pub next : ℕ
  pub live : ℕ → Option ℕ

-- A request is refused where the regions left are too few, and else gets the next ones.
abbrev pub spec_alloc : ℕ → ℕ → Spec → Spec × Option ℕ
spec_alloc limit size a = if ltb limit (a.next + frames_for size) then (a, none) else (
  record {
    next = a.next + frames_for size;
    live = λ q. if q == vaddr_of a.next then some (frames_for size) else a.live q;
  },
  some (vaddr_of a.next),
)

-- An address that is given back is live no more, and one that is not live changes nothing.
abbrev pub spec_dealloc : ℕ → Spec → Spec
spec_dealloc ptr a = record a { live = λ q. if q == ptr then none else a.live q }

abbrev pub spec_empty : Spec
spec_empty = record { next = 0; live = λ q. none }

-- How many regions the tables hold at an address.
abbrev pub held_at : ℕ → List ℕ → List ℕ → Option ℕ
held_at q (v ∷ vs) (c ∷ cs) =
    let rest = held_at q vs cs in if not (c == 0) && v == q then some c else rest
held_at q _ _ = none

pub held_at-missing : (q : ℕ) (vs cs : List ℕ) → slot_of q vs cs ≡ none → held_at q vs cs ≡ none
unfolding slot_of
held_at-missing q [] cs e = refl
held_at-missing q (v ∷ vs) [] e = refl
held_at-missing q (v ∷ vs) (c ∷ cs) e = elim (Option-cases (slot_of q vs cs)) [
  | inl miss ↦ ground (arith, held_at-missing q vs cs miss)
  | inr (i, found) ↦ ground arith
]

-- The tables before anything is held.
pub held_at-empty : (q : ℕ) (vs cs : List ℕ) → Held 0 vs cs → held_at q vs cs ≡ none
held_at-empty q [] cs h = refl
held_at-empty q (v ∷ vs) [] h = refl
held_at-empty q (v ∷ vs) (c ∷ cs) (inl free, h) = ground (arith, held_at-empty q vs cs h)
held_at-empty q (v ∷ vs) (c ∷ cs) (inr (start, at, b), h) = ground (arith, held_at-empty q vs cs h)

-- Entering a run of fresh regions in a free slot.
pub held_at-entered :
    (q n i c : ℕ) (vs cs : List ℕ)
    → Held n vs cs
    → i < length cs
    → get_or cs i 0 ≡ 0
    → 0 < c
    → held_at q (set vs i (vaddr_of n)) (set cs i c)
      ≡ (if q == vaddr_of n then some c else held_at q vs cs)
held_at-entered q n i c [] [] h lt free pos = absurd (omega arith)
held_at-entered q n i c [] (_ ∷ _) h lt free pos = absurd h
held_at-entered q n i c (_ ∷ _) [] h lt free pos = absurd h
held_at-entered q n zero c (v ∷ vs) (c' ∷ cs) h lt free pos = ground arith
held_at-entered q n (suc i) c (v ∷ vs) (c' ∷ cs) (inl e, h) lt free pos =
    ground (arith, held_at-entered q n i c vs cs h (omega arith) free pos)
held_at-entered q n (suc i) c (v ∷ vs) (c' ∷ cs) (inr (start, at, b), h) lt free pos =
    ground (arith, held_at-entered q n i c vs cs h (omega arith) free pos)

-- A run meets no other at its own address.
Apart-held_at : (q c : ℕ) (vs cs : List ℕ) → 0 < c → Apart q c vs cs → held_at q vs cs ≡ none
Apart-held_at q c [] cs pos a = refl
Apart-held_at q c (v ∷ vs) [] pos a = refl
Apart-held_at q c (v ∷ vs) (c' ∷ cs) pos (inl free, a) =
    ground (arith, Apart-held_at q c vs cs pos a)
Apart-held_at q c (v ∷ vs) (c' ∷ cs) pos (inr (inl clear), a) =
    ground (arith, Apart-held_at q c vs cs pos a)
Apart-held_at q c (v ∷ vs) (c' ∷ cs) pos (inr (inr clear), a) =
    ground (arith, Apart-held_at q c vs cs pos a)

-- Emptying a slot that is found.
pub held_at-emptied :
    (q ptr i : ℕ) (vs cs : List ℕ)
    → Distinct vs cs
    → slot_of ptr vs cs ≡ some i
    → held_at q (set vs i 0) (set cs i 0) ≡ (if q == ptr then none else held_at q vs cs)
held_at-emptied q ptr i [] cs d e = ground arith
held_at-emptied q ptr i (v ∷ vs) [] d e = absurd d
held_at-emptied q ptr zero (v ∷ vs) (c ∷ cs) (inl free, ds) e =
    absurd ((slot_of-first ptr v c vs cs e).1 free)
held_at-emptied q ptr zero (v ∷ vs) (c ∷ cs) (inr a, ds) e =
    let (hit, used) = slot_of-first ptr v c vs cs e in
    ground (arith, hit, used, Apart-held_at v c vs cs (ground arith) a)
held_at-emptied q ptr (suc i) (v ∷ vs) (c ∷ cs) (d, ds) e =
    let found = slot_of-later ptr v c i vs cs e in
    ground (arith, slot_of-passed ptr v c i vs cs e, held_at-emptied q ptr i vs cs ds found)

-- ===== src/Platform/Moves.antt =====
-- The harts of `riscv64-probe/src/platform.rs` as one of them moves.
use lantern_runtime.Base.{
  ℕ, ◌≡◌, ◌⊎◌, inl, inr, sym, subst, Option, false, List, [], ◌∷◌, arith, ◌==◌, Bool-cases,
}
use lantern_runtime.Base.Exec.{Exec}
use lantern_runtime.Platform.Harts.{Pc, Harts, update}

abbrev pub Listed : ℕ → List ℕ → Type 0
Listed i [] = ⊥
Listed i (j ∷ order) = (i ≡ j) ⊎ Listed i order

-- A hart that is back is listed.
abbrev pub ListedIf : ℕ → List ℕ → Pc → Type 0
ListedIf i order (Pc.finished r) = Listed i order
ListedIf i order _ = Unit {0}

abbrev pub Pending : Pc → Type 0
Pending (Pc.finished r) = ⊥
Pending _ = Unit {0}

pub not-Pending : (p : Pc) (r : Exec ⊥ (Option ℕ)) → p ≡ Pc.finished r → Pending p → ⊥
not-Pending p r e h = subst Pending e h

pub update_self : (pc : ℕ → Pc) (i : ℕ) (p : Pc) → update pc i p i ≡ p
update_self pc i p = ground arith

pub update_other : (pc : ℕ → Pc) (i j : ℕ) (p : Pc) → (j == i) ≡ false → update pc i p j ≡ pc j
update_other pc i j p e = rw e

-- A family over the harts after one of them moved.
pub update-all :
    (Q : ℕ → Pc → Type 0) (pc : ℕ → Pc) (i : ℕ) (p : Pc)
    → Q i p
    → ((j : ℕ) → Q j (pc j))
    → (j : ℕ) → Q j (update pc i p j)
update-all Q pc i p here there j = elim (Bool-cases (j == i)) [
  | inl same ↦ let e : j ≡ i = ground arith in rw (e, update_self pc i p) here
  | inr other ↦ rw (update_other pc i j p other) (there j)
]

pub Pending-at : (s : Harts) (i : ℕ) (q : Pc) → s.pc i ≡ q → Pending q → Pending (s.pc i)
Pending-at s i q e h = subst Pending (sym e) h

pub ListedIf-more :
    (i j : ℕ) (order : List ℕ) (p : Pc) → ListedIf j order p → ListedIf j (i ∷ order) p
ListedIf-more i j order (Pc.asking size) l = tt
ListedIf-more i j order (Pc.trying size off) l = tt
ListedIf-more i j order (Pc.finished r) l = inr l

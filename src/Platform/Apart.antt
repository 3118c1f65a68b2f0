-- ===== src/Platform/Apart.antt =====
-- The blocks that racing harts get from the bump arena of `riscv64-probe/src/platform.rs` do not overlap.
use lantern_runtime.Base.{
  ℕ, ◌+◌, ◌%◌, ◌≤◌, ◌≡◌, ◌≢◌, ◌⊎◌, inl, inr, sym, ap, subst, ◌∙◌, Option, some, true, List, [], ◌∷◌,
  arith,
}
use lantern_runtime.Base.Exec.{Exec, ok}
use lantern_runtime.Platform.Fallback.{arena_bytes, bump}
use lantern_runtime.Platform.Arena.{bump-cases}
use lantern_runtime.Platform.Harts.{Pc, Harts, Reach}
use lantern_runtime.Platform.Moves.{Listed}
use lantern_runtime.Platform.Serial.{index_after, InTurn, harts-serial}

-- A hart that is back with a block.
abbrev pub Got : Harts → ℕ → ℕ → Type 0
Got s i p = s.pc i ≡ Pc.finished (ok (some p))

module _ (base start : ℕ) (sizes : ℕ → ℕ) (aligned : base % 4096 ≡ 0) (page : start % 4096 ≡ 0)
    (room : start ≤ arena_bytes) where
  abbrev index : List ℕ → ℕ
  index = index_after true base start sizes

  abbrev turn : ℕ → ℕ → ℕ × Exec ⊥ (Option ℕ)
  turn i off = bump true base 0 (sizes i) off

  -- What a turn from an index on a whole page leaves, and gives.
  abbrev Fair : ℕ → ℕ → ℕ × Exec ⊥ (Option ℕ) → Type 0
  Fair off size r =
      (off ≤ r.0)
      × (r.0 % 4096 ≡ 0)
      × (r.0 ≤ arena_bytes)
      × ((p : ℕ) → r.1 ≡ ok (some p) → (p ≡ base + off) × (off + size ≤ r.0))

  turn-Fair : (i off : ℕ) → off % 4096 ≡ 0 → off ≤ arena_bytes → Fair off (sizes i) (turn i off)
  turn-Fair i off whole within = elim (bump-cases base 0 (sizes i) off whole) [
    | inl panics ↦ subst (Fair off (sizes i)) (sym panics) (omega arith, whole, within, λ p e. cc)
    | inr (inl full) ↦ subst (Fair off (sizes i)) (sym full) (omega arith, whole, within, λ p e. cc)
    | inr (inr (off', fits, long, whole', within')) ↦
        subst (Fair off (sizes i)) (sym fits)
          (omega (arith, long), whole', within', λ p e. (ground arith, long))
  ]

  index-within :
      (order : List ℕ)
      → (start ≤ index order) × (index order % 4096 ≡ 0) × (index order ≤ arena_bytes)
  index-within [] = (omega arith, page, room)
  index-within (i ∷ earlier) =
      let (low, whole, within) = index-within earlier in
      let (up, whole', within', _) = turn-Fair i (index earlier) whole within in
      (omega (arith, low, up), whole', within')

  -- The block of the hart that took its turn last.
  last-Got :
      (i p : ℕ) (earlier : List ℕ)
      → (turn i (index earlier)).1 ≡ ok (some p)
      → (p ≡ base + index earlier) × (index earlier + sizes i ≤ index (i ∷ earlier))
  last-Got i p earlier e =
      let (_, whole, within) = index-within earlier in
      let (_, _, _, got) = turn-Fair i (index earlier) whole within in got p e

  result : {r r' : Exec ⊥ (Option ℕ)} → Pc.finished r ≡ Pc.finished r' → r ≡ r'
  result e = cc

  Got-below :
      (order : List ℕ) (s : Harts) (i p : ℕ)
      → InTurn true base start sizes order s.pc
      → Listed i order
      → Got s i p
      → (base + start ≤ p) × (p % 4096 ≡ 0) × (p + sizes i ≤ base + index order)
  Got-below [] s i p turns listed got = absurd listed
  Got-below (j ∷ earlier) s i p (e, turns) (inl same) got =
      let (low, whole, within) = index-within earlier in
      let said : (turn j (index earlier)).1 ≡ ok (some p) =
        result (sym e ∙ ap s.pc (sym same) ∙ got) in
      let (at, long) = last-Got j p earlier said in
      (
        omega (arith, at, low),
        omega (arith, at, whole, aligned),
        omega (arith, at, long, ap sizes same),
      )
  Got-below (j ∷ earlier) s i p (e, turns) (inr listed) got =
      let (low, whole, within) = index-within earlier in
      let (up, _, _, _) = turn-Fair j (index earlier) whole within in
      let (above, paged, below) = Got-below earlier s i p turns listed got in
      (above, paged, omega (arith, below, up))

  Got-apart :
      (order : List ℕ) (s : Harts) (i j p q : ℕ)
      → InTurn true base start sizes order s.pc
      → Listed i order
      → Listed j order
      → Got s i p
      → Got s j q
      → i ≢ j
      → (p + sizes i ≤ q) ⊎ (q + sizes j ≤ p)
  Got-apart [] s i j p q turns li lj gi gj ne = absurd li
  Got-apart (l ∷ earlier) s i j p q turns (inl ei) (inl ej) gi gj ne = absurd (ne (ei ∙ sym ej))
  Got-apart (l ∷ earlier) s i j p q (e, turns) (inl ei) (inr lj) gi gj ne =
      let (at, long) = last-Got l p earlier (result (sym e ∙ ap s.pc (sym ei) ∙ gi)) in
      let (_, _, below) = Got-below earlier s j q turns lj gj in inr (omega (arith, at, below))
  Got-apart (l ∷ earlier) s i j p q (e, turns) (inr li) (inl ej) gi gj ne =
      let (at, long) = last-Got l q earlier (result (sym e ∙ ap s.pc (sym ej) ∙ gj)) in
      let (_, _, below) = Got-below earlier s i p turns li gi in inl (omega (arith, at, below))
  Got-apart (l ∷ earlier) s i j p q (e, turns) (inr li) (inr lj) gi gj ne =
      Got-apart earlier s i j p q turns li lj gi gj ne

  -- In a build that checks for overflow, from an arena and an index on whole pages: whenever two harts
  -- are back with blocks, however their accesses interleaved, the blocks lie on whole pages of the arena
  -- and do not overlap, each as long as was asked.
  pub harts-apart :
      {s : Harts} (i j p q : ℕ)
      → Reach true base start sizes s
      → Got s i p
      → Got s j q
      → i ≢ j
      → (base + start ≤ p)
        × (p % 4096 ≡ 0)
        × (p + sizes i ≤ base + arena_bytes)
        × ((p + sizes i ≤ q) ⊎ (q + sizes j ≤ p))
  harts-apart {s} i j p q reach gi gj ne =
      let (order, _, turns, listed) = harts-serial true base start sizes reach in
      let (above, paged, below) = Got-below order s i p turns (listed i _ gi) gi in
      let (_, _, within) = index-within order in
      (
        above,
        paged,
        omega (arith, below, within),
        Got-apart order s i j p q turns (listed i _ gi) (listed j _ gj) gi gj ne,
      )

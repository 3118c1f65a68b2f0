-- ===== src/Platform/Serial.antt =====
-- Harts that race for the bump arena of `riscv64-probe/src/platform.rs` get what they would get one after
-- the other.
use lantern_runtime.Base.{
  ℕ, ◌+◌, ◌≤◌, ◌≡◌, inl, inr, refl, sym, ap, subst, ◌∙◌, Option, none, some, Bool, true, false,
  List, [], ◌∷◌, arith, ◌==◌, Bool-cases,
}
use lantern_runtime.Base.Exec.{Exec, ok, panic}
use lantern_runtime.Platform.Fallback.{round_to_page, padded, admits, claim, bump}
use lantern_runtime.Platform.Harts.{Pc, Move, Harts, update, Reach, begin, later, pick}
use lantern_runtime.Platform.Moves.{
  Listed, ListedIf, Pending, not-Pending, update_self, update_other, update-all, Pending-at,
  ListedIf-more,
}

module _ (checks : Bool) (base start : ℕ) (sizes : ℕ → ℕ) where
  -- The index once the harts of a list, newest first, made their requests one after the other.
  abbrev pub index_after : List ℕ → ℕ
  index_after [] = start
  index_after (i ∷ earlier) = (bump checks base 0 (sizes i) (index_after earlier)).0

  -- Each hart of the list is back with the result of its turn.
  abbrev pub InTurn : List ℕ → (ℕ → Pc) → Type 0
  InTurn [] pc = Unit {0}
  InTurn (i ∷ earlier) pc =
      (pc i ≡ Pc.finished (bump checks base 0 (sizes i) (index_after earlier)).1)
      × InTurn earlier pc

  -- What a hart that is on its way knows: an index no higher than the arena's.
  abbrev Underway : ℕ → ℕ → Pc → Type 0
  Underway next i (Pc.asking size) = size ≡ sizes i
  Underway next i (Pc.trying size off) =
      (n : ℕ) × (padded checks (sizes i) ≡ ok n) × (size ≡ round_to_page n) × (off ≤ next)
  Underway next i (Pc.finished r) = Unit {0}

  record Serial (order : List ℕ) (s : Harts) : Type 0 where
    index : s.next ≡ index_after order
    in_turn : InTurn order s.pc
    underway : (i : ℕ) → Underway s.next i (s.pc i)
    all_listed : (i : ℕ) → ListedIf i order (s.pc i)

  -- One turn, by what the hart found on its way.
  bump_refused :
      (i n off next : ℕ)
      → padded checks (sizes i) ≡ ok n
      → off ≤ next
      → admits off (round_to_page n) ≡ false
      → bump checks base 0 (sizes i) next ≡ (next, ok none)
  unfolding bump claim
  bump_refused i n off next fits le full =
      let still : admits next (round_to_page n) ≡ false = ground arith in rw (fits, still)

  bump_won :
      (i n next : ℕ)
      → padded checks (sizes i) ≡ ok n
      → admits next (round_to_page n) ≡ true
      → bump checks base 0 (sizes i) next ≡ (next + round_to_page n, ok (some (base + next)))
  unfolding bump claim
  bump_won i n next fits room = rw (fits, room)

  bump_panics :
      (i next : ℕ)
      → padded checks (sizes i) ≡ panic
      → bump checks base 0 (sizes i) next ≡ (next, panic)
  unfolding bump
  bump_panics i next over = rw over

  InTurn-update :
      (order : List ℕ) (pc : ℕ → Pc) (i : ℕ) (p : Pc)
      → Pending (pc i)
      → InTurn order pc
      → InTurn order (update pc i p)
  InTurn-update [] pc i p pending turns = tt
  InTurn-update (j ∷ order) pc i p pending (e, turns) = (
    elim (Bool-cases (j == i)) [
      | inl same ↦
          let ji : j ≡ i = ground arith in
          absurd (not-Pending (pc i) _ (ap pc (sym ji) ∙ e) pending)
      | inr other ↦ update_other pc i j p other ∙ e
    ],
    InTurn-update order pc i p pending turns,
  )

  Underway-later :
      (next next' j : ℕ) (p : Pc) → next ≤ next' → Underway next j p → Underway next' j p
  Underway-later next next' j (Pc.asking size) le u = u
  Underway-later next next' j (Pc.trying size off) le (n, fits, rounded, low) =
      (n, fits, rounded, omega arith)
  Underway-later next next' j (Pc.finished r) le u = tt

  -- A hart goes on.
  goes_on-Serial :
      (order : List ℕ) (s : Harts) (i : ℕ) (p : Pc)
      → Pending (s.pc i)
      → Underway s.next i p
      → ListedIf i order p
      → Serial order s
      → Serial order (record { next = s.next; pc = update s.pc i p })
  goes_on-Serial order s i p pending u l v = record {
    index = v.index;
    in_turn = InTurn-update order s.pc i p pending v.in_turn;
    underway = update-all (Underway s.next) s.pc i p u v.underway;
    all_listed = update-all (λ j. ListedIf j order) s.pc i p l v.all_listed;
  }

  -- A hart comes back with the result of its turn.
  comes_back-Serial :
      (order : List ℕ) (s : Harts) (i next : ℕ) (r : Exec ⊥ (Option ℕ))
      → Pending (s.pc i)
      → s.next ≤ next
      → bump checks base 0 (sizes i) s.next ≡ (next, r)
      → Serial order s
      → Serial (i ∷ order) (record { next = next; pc = update s.pc i (Pc.finished r) })
  comes_back-Serial order s i next r pending le turn v =
      let now : bump checks base 0 (sizes i) (index_after order) ≡ (next, r) =
        rw (← v.index) turn in
      record {
        index = sym (ap (λ q. q.0) now);
        in_turn = (
          update_self s.pc i (Pc.finished r) ∙ ap (λ q. Pc.finished q.1) (sym now),
          InTurn-update order s.pc i (Pc.finished r) pending v.in_turn,
        );
        underway =
            update-all (Underway next) s.pc i (Pc.finished r) tt
              (λ j. Underway-later s.next next j (s.pc j) le (v.underway j));
        all_listed =
            update-all (λ j. ListedIf j (i ∷ order)) s.pc i (Pc.finished r) (inl refl)
              (λ j. ListedIf-more i j order (s.pc j) (v.all_listed j));
      }

  Move-Serial :
      (order : List ℕ) (s : Harts) (i : ℕ) {q : Pc} {next : ℕ} {p : Pc}
      → Move checks base s.next q next p
      → s.pc i ≡ q
      → Serial order s
      → (order' : List ℕ) × Serial order' (record { next = next; pc = update s.pc i p })
  Move-Serial order s i (Move.overflow {size} over) e v =
      let asked : size ≡ sizes i = subst (Underway s.next i) e (v.underway i) in
      (
        i ∷ order,
        comes_back-Serial order s i s.next panic (Pending-at s i _ e tt) (omega arith)
            (bump_panics i s.next (rw asked at over)) v,
      )
  Move-Serial order s i (Move.load {size} {n} fits) e v =
      let asked : size ≡ sizes i = subst (Underway s.next i) e (v.underway i) in
      (
        order,
        goes_on-Serial order s i (Pc.trying (round_to_page n) s.next) (Pending-at s i _ e tt)
            (n, rw asked at fits, refl, omega arith) tt v,
      )
  Move-Serial order s i (Move.refuse {size} {off} full) e v =
      let (n, fits, rounded, low) = subst (Underway s.next i) e (v.underway i) in
      (
        i ∷ order,
        comes_back-Serial order s i s.next (ok none) (Pending-at s i _ e tt) (omega arith)
            (bump_refused i n off s.next fits low (rw rounded at full)) v,
      )
  Move-Serial order s i (Move.win {size} {off} room found) e v =
      let (n, fits, rounded, low) = subst (Underway s.next i) e (v.underway i) in
      (
        i ∷ order,
        comes_back-Serial order s i (off + size) (ok (some (base + off))) (Pending-at s i _ e tt)
            (omega arith) (rw (found, rounded) (bump_won i n off fits (rw rounded at room))) v,
      )
  Move-Serial order s i (Move.lose {size} {off} room) e v =
      let (n, fits, rounded, low) = subst (Underway s.next i) e (v.underway i) in
      (
        order,
        goes_on-Serial order s i (Pc.trying size s.next) (Pending-at s i _ e tt)
            (n, fits, rounded, omega arith) tt v,
      )

  Reach-Serial : {s : Harts} → Reach checks base start sizes s → (order : List ℕ) × Serial order s
  Reach-Serial begin =
      ([], record { index = refl; in_turn = tt; underway = λ i. refl; all_listed = λ i. tt })
  Reach-Serial (later {s} r (pick i mv)) =
      let (order, v) = Reach-Serial r in Move-Serial order s i mv refl v

  -- However the harts' accesses interleave and however often an exchange fails: there is an order in
  -- which every hart that is back has exactly the result that it would get if those harts made their
  -- requests in that order, one after the other, and the index is where that leaves it.
  pub harts-serial :
      {s : Harts}
      → Reach checks base start sizes s
      → (order : List ℕ) × (s.next ≡ index_after order)
        × InTurn order s.pc
        × ((i : ℕ) (r : Exec ⊥ (Option ℕ)) → s.pc i ≡ Pc.finished r → Listed i order)
  harts-serial {s} reach =
      let (order, v) = Reach-Serial reach in
      (order, v.index, v.in_turn, λ i r e. subst (ListedIf i order) e (v.all_listed i))

-- ===== src/Platform/Arena.antt =====
-- What the bump arena of `riscv64-probe/src/platform.rs` hands out.
use lantern_runtime.Base.{
  ℕ, zero, suc, ◌+◌, ◌%◌, ◌^◌, ◌≤◌, ◌<◌, ◌≡◌, ◌⊎◌, inl, inr, refl, sym, subst, ◌∙◌, Option, none,
  some, Bool, true, false, List, [], ◌∷◌, arith, ltb, Bool-cases,
}
use lantern_runtime.Base.Exec.{Exec, ok, err, panic}
use lantern_runtime.Platform.Fallback.{arena_bytes, round_to_page, admits, claim, bump}

-- The loop ends the same way however often the exchange fails.
pub claim-fails : (base size off fails : ℕ) → claim base size off fails ≡ claim base size off 0
unfolding claim
claim-fails base size off zero = refl
claim-fails base size off (suc fails) = ground (arith, claim-fails base size off fails)

-- The block that a request gets, before those of the requests after it, which a panic forgoes.
abbrev pub collect : ℕ → Exec ⊥ (Option ℕ) → List (ℕ × ℕ) → List (ℕ × ℕ)
collect size (ok none) more = more
collect size (ok (some p)) more = (p, size) ∷ more
collect size (err e) more = absurd e
collect size panic more = []

-- The requests, each with the number of failing exchanges, and the blocks they get.
unfoldable pub blocks : Bool → ℕ → List (ℕ × ℕ) → ℕ → List (ℕ × ℕ)
blocks checks base [] off = []
blocks checks base ((size, fails) ∷ rest) off =
    let r = bump checks base fails size off in collect size r.1 (blocks checks base rest r.0)

-- Blocks on whole pages, in order, that do not overlap, between `lo` and `hi`.
abbrev pub Stacked : ℕ → ℕ → List (ℕ × ℕ) → Type 0
Stacked lo hi [] = lo ≤ hi
Stacked lo hi ((p, size) ∷ bs) = (lo ≤ p) × (p % 4096 ≡ 0) × Stacked (p + size) hi bs

pub Stacked-lower :
    (lo lo' hi : ℕ) (bs : List (ℕ × ℕ)) → lo ≤ lo' → Stacked lo' hi bs → Stacked lo hi bs
Stacked-lower lo lo' hi [] le h = omega (arith, le, h)
Stacked-lower lo lo' hi ((p, size) ∷ bs) le (below, page, rest) = (omega arith, page, rest)

pub Stacked-upper :
    (lo hi hi' : ℕ) (bs : List (ℕ × ℕ)) → hi ≤ hi' → Stacked lo hi bs → Stacked lo hi' bs
Stacked-upper lo hi hi' [] le h = omega (arith, le, h)
Stacked-upper lo hi hi' ((p, size) ∷ bs) le (below, page, rest) =
    (below, page, Stacked-upper (p + size) hi hi' bs le rest)

claim-cases :
    (base size off fails : ℕ)
    → (claim base size off fails ≡ (off, ok none))
      ⊎ ((claim base size off fails ≡ (off + size, ok (some (base + off))))
          × (off + size ≤ arena_bytes))
unfolding claim
claim-cases base size off fails = elim (Bool-cases (admits off size)) [
  | inl fits ↦ inr (claim-fails base size off fails ∙ ground (arith, fits), ground (arith, fits))
  | inr full ↦ inl (claim-fails base size off fails ∙ ground (arith, full))
]

-- What one request with overflow checks comes to.
pub bump-cases :
    (base fails size off : ℕ)
    → off % 4096 ≡ 0
    → (bump true base fails size off ≡ (off, panic))
      ⊎ (bump true base fails size off ≡ (off, ok none))
      ⊎ ((off' : ℕ) × (bump true base fails size off ≡ (off', ok (some (base + off))))
          × (off + size ≤ off')
          × (off' % 4096 ≡ 0)
          × (off' ≤ arena_bytes))
unfolding bump
bump-cases base fails size off page = elim (Bool-cases (ltb (size + 4095) (2 ^ 64))) [
  | inl small ↦ elim (claim-cases base (round_to_page (size + 4095)) off fails) [
    | inl full ↦ inr (inl (rw small full))
    | inr (fits, room) ↦ inr (
        inr (
          off + round_to_page (size + 4095),
          rw small fits,
          omega arith,
          omega (arith, page),
          room,
        ))
  ]
  | inr large ↦ inl (rw large refl)
]

-- A build that checks for overflow, from an arena and an index on whole pages, hands out blocks on
-- whole pages of the arena, in order and without overlap, each as long as was asked, whatever is
-- asked and however often the exchange fails.
pub blocks-Stacked :
    (base off : ℕ) (requests : List (ℕ × ℕ))
    → base % 4096 ≡ 0
    → off % 4096 ≡ 0
    → off ≤ arena_bytes
    → Stacked (base + off) (base + arena_bytes) (blocks true base requests off)
unfolding blocks
blocks-Stacked base off [] aligned page room = omega (arith, room)
blocks-Stacked base off ((size, fails) ∷ rest) aligned page room =
    let Good = λ (r : ℕ × Exec ⊥ (Option ℕ)).
      Stacked (base + off) (base + arena_bytes) (collect size r.1 (blocks true base rest r.0)) in
    elim (bump-cases base fails size off page) [
      | inl panics ↦ subst Good (sym panics) (omega (arith, room))
      | inr (inl full) ↦ subst Good (sym full) (blocks-Stacked base off rest aligned page room)
      | inr (inr (off', fits, long, page', room')) ↦ subst Good (sym fits) (
        omega arith,
        omega (arith, aligned, page),
        Stacked-lower (base + off + size) (base + off') (base + arena_bytes) _ (omega (arith, long))
            (blocks-Stacked base off' rest aligned page' room'),
      )
    ]

-- Without overflow checks, and with the arena's index within it, a size of which the padding wraps
-- around is granted at the index, and nothing is reserved.
pub bump_wraps :
    (base fails size off : ℕ)
    → 2 ^ 64 ≤ size + 4095
    → size < 2 ^ 64
    → off ≤ arena_bytes
    → bump false base fails size off ≡ (off, ok (some (base + off)))
unfolding bump claim
bump_wraps base fails size off large fits room =
    let check : ltb (size + 4095) (2 ^ 64) ≡ false = ground arith in
    let none_reserved : round_to_page ((size + 4095) % 2 ^ 64) ≡ 0 = omega arith in
    let granted : claim base 0 off 0 ≡ (off, ok (some (base + off))) = ground arith in
    rw (check, none_reserved) (claim-fails base 0 off fails ∙ granted)

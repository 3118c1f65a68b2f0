-- ===== src/Platform/Progress.antt =====
-- A hart that is let run comes back from the loop of `riscv64-probe/src/platform.rs`, wherever it stands.
use lantern_runtime.Base.{
  ℕ, ◌+◌, ◌≡◌, inl, inr, refl, none, some, Bool, true, arith, ◌==◌, if◌then◌else◌, Bool-cases,
}
use lantern_runtime.Base.Exec.{Exec, ok, err, panic}
use lantern_runtime.Platform.Fallback.{round_to_page, padded, admits}
use lantern_runtime.Platform.Harts.{Pc, Move}

-- A call that did not return yet.
abbrev pub IsUnderway : Pc → Type 0
IsUnderway (Pc.finished r) = ⊥
IsUnderway _ = Unit {0}

abbrev pub IsBack : Pc → Type 0
IsBack (Pc.finished r) = Unit {0}
IsBack _ = ⊥

module _ (checks : Bool) (base : ℕ) where
  abbrev asked : ℕ → Exec ⊥ ℕ → Pc
  asked next (ok n) = Pc.trying (round_to_page n) next
  asked next (err e) = absurd e
  asked next panic = Pc.finished panic

  -- The next access of a hart whose exchange fails only where it finds another index.
  abbrev pub access : ℕ × Pc → ℕ × Pc
  access (next, Pc.asking size) = (next, asked next (padded checks size))
  access (next, Pc.trying size off) =
      if admits off size
      then (if next == off
          then (off + size, Pc.finished (ok (some (base + off))))
          else (next, Pc.trying size next))
      else (next, Pc.finished (ok none))
  access (next, Pc.finished r) = (next, Pc.finished r)

  -- It is one of the moves that a hart can make.
  asked-Move :
      (next size : ℕ) (r : Exec ⊥ ℕ)
      → padded checks size ≡ r
      → Move checks base next (Pc.asking size) next (asked next r)
  asked-Move next size (ok n) e = Move.load e
  asked-Move next size (err x) e = absurd x
  asked-Move next size panic e = Move.overflow e

  trying-Move :
      (next size off : ℕ)
      → let r = access (next, Pc.trying size off) in
        Move checks base next (Pc.trying size off) r.0 r.1
  trying-Move next size off = elim (Bool-cases (admits off size)) [
    | inr full ↦ rw full (Move.refuse full)
    | inl room ↦ elim (Bool-cases (next == off)) [
      | inl found ↦ rw (room, found) (Move.win room (ground arith))
      | inr other ↦ rw (room, other) (Move.lose room)
    ]
  ]

  access-Move :
      (next : ℕ) (p : Pc)
      → IsUnderway p
      → let r = access (next, p) in Move checks base next p r.0 r.1
  access-Move next (Pc.asking size) u = asked-Move next size (padded checks size) refl
  access-Move next (Pc.trying size off) u = trying-Move next size off
  access-Move next (Pc.finished r) u = absurd u

  -- The exchange of an index that was just loaded is the last access.
  fresh-IsBack : (next size : ℕ) → IsBack (access (next, Pc.trying size next)).1
  fresh-IsBack next size = elim (Bool-cases (admits next size)) [
    | inr full ↦ rw full tt
    | inl room ↦ let same : (next == next) ≡ true = ground arith in rw (room, same) tt
  ]

  asked-IsBack : (next : ℕ) (r : Exec ⊥ ℕ) → IsBack (access (next, asked next r)).1
  asked-IsBack next (ok n) = fresh-IsBack next (round_to_page n)
  asked-IsBack next (err e) = absurd e
  asked-IsBack next panic = tt

  trying-IsBack : (next size off : ℕ) → IsBack (access (access (next, Pc.trying size off))).1
  trying-IsBack next size off = elim (Bool-cases (admits off size)) [
    | inr full ↦ rw full tt
    | inl room ↦ elim (Bool-cases (next == off)) [
      | inl found ↦ rw (room, found) tt
      | inr other ↦ rw (room, other) (fresh-IsBack next size)
    ]
  ]

  twice-IsBack : (next : ℕ) (p : Pc) → IsBack (access (access (next, p))).1
  twice-IsBack next (Pc.asking size) = asked-IsBack next (padded checks size)
  twice-IsBack next (Pc.trying size off) = trying-IsBack next size off
  twice-IsBack next (Pc.finished r) = tt

  -- Wherever a hart stands and whatever the index is, each access that it makes is one that it can
  -- make, and after two of its own, in which no exchange fails without cause and no other hart moves,
  -- its call has returned.
  pub harts-return :
      (next : ℕ) (p : Pc)
      → (IsUnderway p → let r = access (next, p) in Move checks base next p r.0 r.1)
        × IsBack (access (access (next, p))).1
  harts-return next p = (access-Move next p, twice-IsBack next p)

-- ===== src/Tests/Harts.antt =====
-- Two harts that race for the bump arena: the second wins the first exchange.
use lantern_runtime.Base.{
  ℕ, ◌+◌, ◌%◌, ◌≤◌, ◌≡◌, ◌⊎◌, refl, Option, some, true, List, arith, ◌==◌, if◌then◌else◌,
}
use lantern_runtime.Base.Exec.{Exec, ok}
use lantern_runtime.Platform.Fallback.{arena_bytes}
use lantern_runtime.Platform.Harts.{Pc, Move, Harts, update, Reach, begin, later, pick}
use lantern_runtime.Platform.Moves.{Listed}
use lantern_runtime.Platform.Serial.{index_after, InTurn, harts-serial}
use lantern_runtime.Platform.Apart.{harts-apart}
use lantern_runtime.Platform.Progress.{access, IsUnderway, IsBack, harts-return}

abbrev base : ℕ
base = 0x80000000

abbrev sizes : ℕ → ℕ
sizes i = if i == 0 then 5000 else 100

abbrev fresh : Harts
fresh = record { next = 0; pc = λ i. Pc.asking (sizes i) }

abbrev moved : Harts → ℕ → ℕ → Pc → Harts
moved s i next p = record { next = next; pc = update s.pc i p }

abbrev both_loaded : Harts
both_loaded = moved (moved fresh 0 0 (Pc.trying 8192 0)) 1 0 (Pc.trying 4096 0)

abbrev second_won : Harts
second_won = moved both_loaded 1 4096 (Pc.finished (ok (some base)))

abbrev first_won : Harts
first_won =
    moved (moved second_won 0 4096 (Pc.trying 8192 4096)) 0 12288
      (Pc.finished (ok (some (base + 4096))))

both_loaded-Reach : Reach true base 0 sizes both_loaded
both_loaded-Reach =
    later (later begin (pick 0 (Move.load {n = 9095} refl))) (pick 1 (Move.load {n = 4195} refl))

raced : Reach true base 0 sizes first_won
raced =
    later (later (later both_loaded-Reach (pick 1 (Move.win refl refl))) (pick 0 (Move.lose refl)))
      (pick 0 (Move.win refl refl))

harts-serial_example :
    (order : List ℕ) × (first_won.next ≡ index_after true base 0 sizes order)
    × InTurn true base 0 sizes order first_won.pc
    × ((i : ℕ) (r : Exec ⊥ (Option ℕ)) → first_won.pc i ≡ Pc.finished r → Listed i order)
harts-serial_example = harts-serial true base 0 sizes raced

harts-apart_example :
    (base + 0 ≤ base + 4096)
    × ((base + 4096) % 4096 ≡ 0)
    × (base + 4096 + 5000 ≤ base + arena_bytes)
    × ((base + 4096 + 5000 ≤ base) ⊎ (base + 100 ≤ base + 4096))
harts-apart_example =
    harts-apart base 0 sizes refl refl (omega arith) 0 1 (base + 4096) base raced refl refl
      (omega arith)

harts-return_example :
    (IsUnderway (Pc.trying 8192 0)
      → let r = access true base (4096, Pc.trying 8192 0) in
        Move true base 4096 (Pc.trying 8192 0) r.0 r.1)
    × IsBack (access true base (access true base (4096, Pc.trying 8192 0))).1
harts-return_example = harts-return true base 4096 (Pc.trying 8192 0)

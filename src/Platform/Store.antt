-- ===== src/Platform/Store.antt =====
-- The two `mod backing` that the C functions stand on: the pool of frames of `src/platform.rs` and of
-- `riscv64-probe/src/platform.rs`, and the bump arena of the latter.
use lantern_runtime.Base.{ℕ, Option, Bool, List, [], ◌∷◌}
use lantern_runtime.Base.Exec.{Exec}
use lantern_runtime.Platform.Kernel.{Kernel}
use lantern_runtime.Platform.Backing.{Pool, alloc, dealloc}
use lantern_runtime.Platform.Fallback.{bump}

pub record BackingStore (M : Type 0) : Type 0 where
  pub alloc : ℕ → M → M × Exec ⊥ (Option ℕ)
  pub dealloc : ℕ → M → M × Exec ⊥ (Unit {0})

abbrev pub pool_store : {Krn : Type 0} → Kernel Krn → ℕ → BackingStore (Krn × Pool)
pool_store R limit = record { alloc = alloc R limit; dealloc = dealloc R }

-- How often the weak exchange fails in this call, and in those after it; at the end of the list never.
abbrev pub fails_now : List ℕ → ℕ
fails_now [] = 0
fails_now (n ∷ ns) = n

abbrev pub fails_later : List ℕ → List ℕ
fails_later [] = []
fails_later (n ∷ ns) = ns

-- The state is `ARENA_NEXT`, with the failures of the exchange that are to come.
abbrev pub arena_store : Bool → ℕ → BackingStore (ℕ × List ℕ)
arena_store checks base = record {
  alloc =
      λ size s. let r = bump checks base (fails_now s.1) size s.0 in ((r.0, fails_later s.1), r.1);
  dealloc = λ ptr s. (s, Exec.ok tt);
}

-- ===== src/Host/Clock.antt =====
-- `impl monotonic_clock::Host` for `RuntimeState` (`src/host.rs`): both functions panic without a
-- source.
use lantern_runtime.Base.{ℕ, none, some}
use lantern_runtime.Base.Exec.{Exec, ok, panic}
use lantern_runtime.Host.State.{RuntimeState}

module _ {Tab K F : Type 0} where
  -- The first argument is the moment of the call.
  unfoldable pub now : ℕ → RuntimeState Tab K F → Exec ⊥ ℕ
  now moment s = elim s.clock [ none ↦ panic | some clock ↦ ok (clock.now_ns moment) ]

  unfoldable pub resolution : RuntimeState Tab K F → Exec ⊥ ℕ
  resolution s = elim s.clock [ none ↦ panic | some clock ↦ ok clock.resolution_ns ]

-- ===== src/Platform/Handed.antt =====
-- The memory that Wasmtime was given by the C functions of `src/platform.rs` or of
-- `riscv64-probe/src/platform.rs`, over either `mod backing`.
use lantern_runtime.Base.{ℕ, none, some, List, [], ◌∷◌}
use lantern_runtime.Base.Exec.{Exec, ok, err, panic}
use lantern_runtime.Platform.Store.{BackingStore}
use lantern_runtime.Platform.Capi.{Statics, Entry, Answer, enter}

-- What a call for `size` bytes stored, before what the calls after it store, which a panic forgoes.
abbrev pub stored_first : ℕ → Exec ⊥ Answer → List (ℕ × ℕ) → List (ℕ × ℕ)
stored_first size (ok a) more = elim a.stored [ none ↦ more | some p ↦ (p, size) ∷ more ]
stored_first size (err e) more = absurd e
stored_first size panic more = []

-- The addresses that `mmap_new` stored, with the sizes that were asked for.
unfoldable pub handed_out : {M : Type 0} → BackingStore M → List Entry → Statics M → List (ℕ × ℕ)
handed_out B [] s = []
handed_out B (Entry.mmap_new size prot_flags ret ∷ es) s =
    let r = enter B (Entry.mmap_new size prot_flags ret) s in
    stored_first size r.1 (handed_out B es r.0)
handed_out B (e ∷ es) s = handed_out B es (enter B e s).0

-- ===== src/Platform/Capi.antt =====
-- The C functions that Wasmtime's `sys/custom` layer calls, over a `mod backing` and the statics. They are
-- the same in `src/platform.rs` and in `riscv64-probe/src/platform.rs`.
use lantern_runtime.Base.{
  ℕ, ◌+◌, ◌-◌, ◌/◌, ◌%◌, ◌^◌, Option, none, some, Bool, List, [], ◌∷◌, leb, ltb, ◌&&◌,
  if◌then◌else◌,
}
use lantern_runtime.Base.Exec.{Exec, ok, err, panic}
use lantern_runtime.Platform.Store.{BackingStore}

-- What `mod backing` keeps, the bytes of memory, and `TLS`.
pub record Statics (M : Type 0) : Type 0 where
  pub backing : M
  pub memory : ℕ → ℕ
  pub tls : ℕ

-- `wasmtime_page_size`
abbrev pub wasmtime_page_size : ℕ
wasmtime_page_size = 4096

-- The entry points that take a lock.
pub data SyncCall : Type 0 where
  lock_free lock_acquire lock_release rwlock_read rwlock_read_release : SyncCall
  rwlock_write rwlock_write_release rwlock_free : SyncCall

pub data Entry : Type 0 where
  page_size : Entry
  mmap_new : (size prot_flags ret : ℕ) → Entry
  mmap_remap : (addr size prot_flags : ℕ) → Entry
  munmap : (ptr size : ℕ) → Entry
  mprotect : (ptr size prot_flags : ℕ) → Entry
  memory_image_new : (ptr len ret : ℕ) → Entry
  memory_image_map_at : (image addr len : ℕ) → Entry
  memory_image_free : (image : ℕ) → Entry
  tls_get : (slot : ℕ) → Entry
  tls_set : (slot ptr : ℕ) → Entry
  sync : SyncCall → (lock : ℕ) → Entry

-- What a call gives back: what it returns, where it returns something, and what it stores at `*ret`.
pub record Answer : Type 0 where
  pub returned : Option ℕ
  pub stored : Option ℕ

abbrev pub returns : ℕ → Answer
returns n = record { returned = some n; stored = none }

abbrev pub nothing : Answer
nothing = record { returned = none; stored = none }

abbrev pub in_range : ℕ → ℕ → ℕ → Bool
in_range addr size a = leb addr a && ltb a (addr + size)

-- `core::ptr::write_bytes(addr, 0, size)`
abbrev pub zero_bytes : ℕ → ℕ → (ℕ → ℕ) → ℕ → ℕ
zero_bytes addr size memory a = if in_range addr size a then 0 else memory a

-- `*ret = p`, which is a pointer of 8 bytes, the low one first.
abbrev pub write_ptr : ℕ → ℕ → (ℕ → ℕ) → ℕ → ℕ
write_ptr ret p memory a = if in_range ret 8 a then p / 256 ^ (a - ret) % 256 else memory a

-- What `wasmtime_mmap_new` writes at `*ret`: nothing where there is no region.
abbrev pub write_region : ℕ → Exec ⊥ (Option ℕ) → (ℕ → ℕ) → ℕ → ℕ
write_region ret (ok (some p)) memory = write_ptr ret p memory
write_region ret (ok none) memory = memory
write_region ret (err e) memory = memory
write_region ret panic memory = memory

-- What `wasmtime_mmap_new` makes of `backing::alloc`.
abbrev pub mmap_answer : Exec ⊥ (Option ℕ) → Exec ⊥ Answer
mmap_answer (ok none) = ok (returns 1)
mmap_answer (ok (some p)) = ok (record { returned = some 0; stored = some p })
mmap_answer (err e) = absurd e
mmap_answer panic = panic

abbrev pub munmap_answer : Exec ⊥ (Unit {0}) → Exec ⊥ Answer
munmap_answer (ok u) = ok (returns 0)
munmap_answer (err e) = absurd e
munmap_answer panic = panic

module _ {M : Type 0} (B : BackingStore M) where
  abbrev pub enter : Entry → Statics M → Statics M × Exec ⊥ Answer
  enter page_size s = (s, ok (returns wasmtime_page_size))
  enter (mmap_new size prot_flags ret) s =
      let r = B.alloc size s.backing in
      (record s { backing = r.0; memory = write_region ret r.1 s.memory }, mmap_answer r.1)
  enter (mmap_remap addr size prot_flags) s =
      (record s { memory = zero_bytes addr size s.memory }, ok (returns 0))
  enter (munmap ptr size) s =
      let r = B.dealloc ptr s.backing in (record s { backing = r.0 }, munmap_answer r.1)
  enter (mprotect ptr size prot_flags) s = (s, ok (returns 0))
  enter (memory_image_new ptr len ret) s = (
    record s { memory = write_ptr ret 0 s.memory },
    ok (record { returned = some 0; stored = some 0 }),
  )
  enter (memory_image_map_at image addr len) s = (s, ok (returns 1))
  enter (memory_image_free image) s = (s, ok nothing)
  enter (tls_get slot) s = (s, ok (returns s.tls))
  enter (tls_set slot ptr) s = (record s { tls = ptr }, ok nothing)
  enter (sync call lock) s = (s, ok nothing)

  -- The entry points that Wasmtime calls, in order.
  unfoldable pub enter_all : List Entry → Statics M → Statics M
  enter_all [] s = s
  enter_all (e ∷ es) s = enter_all es (enter e s).0

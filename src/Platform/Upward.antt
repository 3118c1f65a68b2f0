-- ===== src/Platform/Upward.antt =====
-- What the C functions of `src/platform.rs` and `riscv64-probe/src/platform.rs` rely on of either `mod backing`:
-- it hands out memory upwards, from a mark that never comes down.
use lantern_runtime.Base.{ℕ, ◌+◌, ◌%◌, ◌≤◌, ◌≡◌, Option, none, some, List, [], ◌∷◌}
use lantern_runtime.Base.Exec.{Exec, ok, err, panic}
use lantern_runtime.Platform.Arena.{Stacked, Stacked-lower}
use lantern_runtime.Platform.Store.{BackingStore}
use lantern_runtime.Platform.Capi.{Statics, Entry, mmap_answer, enter}
use lantern_runtime.Platform.Handed.{stored_first, handed_out}

-- What one request does to the mark: a block lies on whole pages, between the mark before and after.
abbrev pub Rises : ℕ → ℕ → ℕ → Exec ⊥ (Option ℕ) → Type 0
Rises size before after (ok none) = before ≤ after
Rises size before after (ok (some p)) = (before ≤ p) × (p % 4096 ≡ 0) × (p + size ≤ after)
Rises size before after (err e) = ⊥
Rises size before after panic = Unit {0}

pub record HandsUpward {M : Type 0} (B : BackingStore M) (Inv : M → Type 0) (mark : M → ℕ) (top : ℕ)
    : Type 0 where
  pub bounded : (m : M) → Inv m → mark m ≤ top
  pub alloc_rises :
      (size : ℕ) (m : M)
      → Inv m
      → let r = B.alloc size m in Inv r.0 × Rises size (mark m) (mark r.0) r.1
  pub dealloc_keeps :
      (ptr : ℕ) (m : M) → Inv m → let r = B.dealloc ptr m in Inv r.0 × (mark m ≤ mark r.0)

stored_first-Stacked :
    (size before after top : ℕ) (r : Exec ⊥ (Option ℕ)) (more : List (ℕ × ℕ))
    → before ≤ top
    → Rises size before after r
    → Stacked after top more
    → Stacked before top (stored_first size (mmap_answer r) more)
stored_first-Stacked size before after top (ok none) more room up rest =
    Stacked-lower before after top more up rest
stored_first-Stacked size before after top (ok (some p)) more room (low, page, up) rest =
    (low, page, Stacked-lower (p + size) after top more up rest)
stored_first-Stacked size before after top (err e) more room up rest = absurd e
stored_first-Stacked size before after top panic more room up rest = room

module _ {M : Type 0} (B : BackingStore M) (Inv : M → Type 0) (mark : M → ℕ) (top : ℕ)
    (up : HandsUpward B Inv mark top) where
  -- Over a store that hands out upwards, the blocks that `wasmtime_mmap_new` stores among any calls of
  -- the C functions lie on whole pages, in order and without overlap, each as long as was asked,
  -- between the mark at the start and the top.
  pub upward-Stacked :
      (es : List Entry) (s : Statics M)
      → Inv s.backing
      → Stacked (mark s.backing) top (handed_out B es s)
  unfolding handed_out
  upward-Stacked [] s v = up.bounded s.backing v
  upward-Stacked (Entry.page_size ∷ es) s v = upward-Stacked es s v
  upward-Stacked (Entry.mmap_new size prot_flags ret ∷ es) s v =
      let (v', rises) = up.alloc_rises size s.backing v in
      stored_first-Stacked size (mark s.backing) _ top _ _ (up.bounded s.backing v) rises
        (upward-Stacked es (enter B (Entry.mmap_new size prot_flags ret) s).0 v')
  upward-Stacked (Entry.mmap_remap addr size prot_flags ∷ es) s v =
      upward-Stacked es (enter B (Entry.mmap_remap addr size prot_flags) s).0 v
  upward-Stacked (Entry.munmap ptr size ∷ es) s v =
      let (v', rises) = up.dealloc_keeps ptr s.backing v in
      Stacked-lower (mark s.backing) _ top _ rises
        (upward-Stacked es (enter B (Entry.munmap ptr size) s).0 v')
  upward-Stacked (Entry.mprotect ptr size prot_flags ∷ es) s v = upward-Stacked es s v
  upward-Stacked (Entry.memory_image_new ptr len ret ∷ es) s v =
      upward-Stacked es (enter B (Entry.memory_image_new ptr len ret) s).0 v
  upward-Stacked (Entry.memory_image_map_at image addr len ∷ es) s v = upward-Stacked es s v
  upward-Stacked (Entry.memory_image_free image ∷ es) s v = upward-Stacked es s v
  upward-Stacked (Entry.tls_get slot ∷ es) s v = upward-Stacked es s v
  upward-Stacked (Entry.tls_set slot ptr ∷ es) s v =
      upward-Stacked es (enter B (Entry.tls_set slot ptr) s).0 v
  upward-Stacked (Entry.sync call lock ∷ es) s v = upward-Stacked es s v

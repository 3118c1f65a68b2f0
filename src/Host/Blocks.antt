-- ===== src/Host/Blocks.antt =====
-- What reading and writing a file return (`src/host.rs`, `impl filesystem::HostFile`).
use lantern_runtime.Base.{
  ℕ, ◌≡◌, ◌⊎◌, inl, inr, ◌≤◌, refl, sym, ◌∙◌, some, List, length, take, replicate, length-take,
  length-replicate, arith, ltb, if◌then◌else◌,
}
use lantern_runtime.Base.Exec.{Exec, ok, err, panic, map_err}
use lantern_runtime.Host.Records.{ServiceEndpoint, HostFile}
use lantern_runtime.Host.Errors.{StoreError, access, invalid, to_fs_error_code, Wire}
use lantern_runtime.Host.Services.{FilesystemService, Embedding}
use lantern_runtime.Host.State.{RuntimeState}
use lantern_runtime.Host.Files.{read, write, read_answer}
use lantern_runtime.Host.Effects.{HoldsFile}

-- A slice keeps its length: `read` fills the buffer that it is given.
abbrev pub KeepsLength : {F : Type 0} → FilesystemService F → Type 0
KeepsLength {F} S =
    (badge file : ℕ) (buffer after : List ℕ) (n : ℕ) (f : F)
    → (S.read badge file buffer f).1 ≡ ok (after, n)
    → length after ≡ length buffer

read_answer-length :
    (W : Wire) (r : Exec StoreError (List ℕ × ℕ)) (bytes : List ℕ) (bound : ℕ)
    → ((after : List ℕ) (n : ℕ) → r ≡ ok (after, n) → length after ≡ bound)
    → read_answer W r ≡ ok bytes
    → length bytes ≤ bound
unfolding read_answer
read_answer-length W (ok (buffer, n)) bytes bound keeps e =
    ground (arith, length-take n buffer, keeps buffer n refl)
read_answer-length W (err StoreError.file_empty) bytes bound keeps e = ground arith
read_answer-length W (err _) bytes bound keeps e = cc
read_answer-length W panic bytes bound keeps e = cc

module _ {Tab K F : Type 0} (H : Embedding Tab K F) (s : RuntimeState Tab K F) (h : ℕ) where
  pub read-Answers :
      (held : HostFile) (f : F)
      → HoldsFile H s h held
      → held.service ≡ ServiceEndpoint.filesystem
      → s.filesystem ≡ some f
      → let r = H.filesystem.read held.badge held.file (replicate H.wire.max_block_len 0) f in
        read H h s ≡ (record s { filesystem = some r.0 }, read_answer H.wire r.1)
  unfolding read
  read-Answers held f holds serves attached = ground arith

  read-cases :
      ((read H h s).1 ≡ err access)
      ⊎ ((held : HostFile) × (f : F) × HoldsFile H s h held
          × (s.filesystem ≡ some f)
          × ((read H h s).1
              ≡ read_answer H.wire
                  (H.filesystem.read held.badge held.file (replicate H.wire.max_block_len 0) f).1))
  unfolding read
  read-cases = ground arith

  -- What a read returns fits one block, if the service keeps the length of the buffer it fills.
  pub read-le_block :
      KeepsLength H.filesystem
      → (bytes : List ℕ) → (read H h s).1 ≡ ok bytes
      → length bytes ≤ H.wire.max_block_len
  read-le_block keeps bytes e = elim read-cases [
    | inl denied ↦ cc
    | inr (held, f, _, _, answer) ↦
        read_answer-length H.wire _ bytes H.wire.max_block_len
          (λ after n r. keeps held.badge held.file _ after n f r ∙ length-replicate _ 0)
          (sym answer ∙ e)
  ]

  write-fits :
      (bytes : List ℕ) → (write H h bytes s).1 ≡ ok tt → length bytes ≤ H.wire.max_block_len
  unfolding write
  write-fits bytes e = ground arith

  module _ (held : HostFile) (f : F) (holds : HoldsFile H s h held)
      (serves : held.service ≡ ServiceEndpoint.filesystem) (attached : s.filesystem ≡ some f) where
    pub write-Answers :
        (bytes : List ℕ)
        → length bytes ≤ H.wire.max_block_len
        → let w = H.filesystem.write held.badge held.file bytes f in
          write H h bytes s
          ≡ (record s { filesystem = some w.0 }, map_err (to_fs_error_code H.wire) w.1)
    unfolding write
    write-Answers bytes fits = ground arith

    -- Through a handle that names a file, with a service attached, a write past the block bound is
    -- refused as `invalid` before the store is asked, so nothing of it is written; any other is
    -- one call of the store under the handle's badge and file, with the error translated.
    pub write_answers :
        (bytes : List ℕ)
        → let w = H.filesystem.write held.badge held.file bytes f in
          write H h bytes s ≡ (
            if ltb H.wire.max_block_len (length bytes)
            then (s, err invalid)
            else (record s { filesystem = some w.0 }, map_err (to_fs_error_code H.wire) w.1))
    unfolding write
    write_answers bytes = ground arith

map_err-eq_ok :
    {E E' A : Type 0} (f : E → E') (r : Exec E A) {a : A} → map_err f r ≡ ok a → r ≡ ok a
map_err-eq_ok f (ok _) e = ground arith
map_err-eq_ok f (err _) e = cc
map_err-eq_ok f panic e = cc

-- A store gives back what it accepted from a badge that may read the file: a later read under the same badge
-- into a block that holds it returns its length, with its bytes in front.
pub record GivesBack {F : Type 0} (W : Wire) (S : FilesystemService F) (MayRead : ℕ → ℕ → Type 0)
    : Type 0 where
  pub read-write :
      (badge file : ℕ) (bytes : List ℕ) (f : F)
      → MayRead badge file
      → length bytes ≤ W.max_block_len
      → (S.write badge file bytes f).1 ≡ ok tt
      → (after : List ℕ) × ((S.read badge file
            (replicate W.max_block_len 0)
            (S.write badge file bytes f).0).1
          ≡ ok (after, length bytes))
        × (take (length bytes) after ≡ bytes)

-- Over a store that gives back what it accepted to badges that may read, a component that wrote a block
-- through a handle of a record whose badge may read its file, and got `ok`, reads that block through the
-- same handle.
pub read-write_same :
    {Tab K F : Type 0} (H : Embedding Tab K F) (s : RuntimeState Tab K F) (h : ℕ) (held : HostFile)
    (f : F) (MayRead : ℕ → ℕ → Type 0)
    → GivesBack H.wire H.filesystem MayRead
    → MayRead held.badge held.file
    → HoldsFile H s h held
    → held.service ≡ ServiceEndpoint.filesystem
    → s.filesystem ≡ some f
    → (bytes : List ℕ) → (write H h bytes s).1 ≡ ok tt
    → (read H h (write H h bytes s).0).1 ≡ ok bytes
unfolding read_answer
read-write_same H s h held f MayRead back may holds serves attached bytes done =
    let w = H.filesystem.write held.badge held.file bytes f in
    let fits : length bytes ≤ H.wire.max_block_len = write-fits H s h bytes done in
    let written = write-Answers H s h held f holds serves attached bytes fits in
    let (after, given, same) =
      back.read-write held.badge held.file bytes f may fits
        (map_err-eq_ok (to_fs_error_code H.wire) w.1 (ground (arith, written))) in
    let answered =
      read-Answers H (record s { filesystem = some w.0 }) h held w.0 holds serves refl in
    ground (arith, written, answered, given, same)

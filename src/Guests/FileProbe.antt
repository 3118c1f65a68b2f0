-- ===== src/Guests/FileProbe.antt =====
-- `probe` of `confined-fs-guest/src/lib.rs`. How an error code prints under `{:?}` is up to the generated
-- bindings.
use lantern_runtime.Base.{
  ℕ, Option, none, some, Bool, true, false, List, [], ◌∷◌, ◌++◌, length, replicate, ◌==◌, ◌&&◌,
  if◌then◌else◌,
}
use lantern_runtime.Base.Exec.{Exec, ok, err, panic, Call, pure, ◌>>=◌}
use lantern_runtime.Host.Errors.{ErrorCode, access, invalid}
use lantern_runtime.Confined.Text.{Text, codes}
use lantern_runtime.Guests.Format.{decimal}
use lantern_runtime.Guests.Interface.{FilesystemHost, Trap, attempt, scoped, is_none}
use lantern_runtime.Guests.KeyProbe.{slot_text}

abbrev pub content : List ℕ
content = codes "lantern-runtime confined-fs-guest v0: written by a confined Wasm guest"

abbrev pub oversized_len : ℕ
oversized_len = 257

-- Equality of byte strings.
unfoldable pub same_bytes : List ℕ → List ℕ → Bool
same_bytes [] [] = true
same_bytes (a ∷ as_) (b ∷ bs) = a == b && same_bytes as_ bs
same_bytes _ _ = false

abbrev pub no_file : Text
no_file = codes "error: the manifest granted no file at filesystem slot 0"

abbrev pub written_report : Bool → Text
written_report ungranted =
    codes "ok: wrote and read back "
    ++ (decimal (length content)
        ++ (codes " bytes; oversized write="
            ++ (codes "invalid"
                ++ (codes ", content intact; filesystem.open(1)=" ++ slot_text ungranted))))

-- The report of a failed call.
abbrev pub failed : Text → Text → Text
failed what why = codes "error: " ++ (what ++ (codes " failed: " ++ why))

module _ {S : Type 0} (F : FilesystemHost S) (debug : ErrorCode → Text) where
  -- The slot that was not granted.
  unfoldable pub final_report : Call S Trap Text
  final_report = do ungranted ← is_none F.open_slot F.drop 1; pure (written_report ungranted)

  -- The read after the refused write.
  unfoldable pub after_intact : Exec ErrorCode (List ℕ) → Call S Trap Text
  after_intact (ok bytes) =
      if same_bytes bytes content
      then final_report
      else pure (codes "error: a refused oversized write still changed the file")
  after_intact (err e) = pure (failed (codes "read after the refused write") (debug e))
  after_intact panic = λ s. (s, panic)

  -- The oversized write.
  unfoldable pub after_oversized : ℕ → Exec ErrorCode (Unit {0}) → Call S Trap Text
  after_oversized file (ok u) = pure (codes "error: an oversized write was accepted")
  after_oversized file (err access) =
      pure (codes "error: oversized write denied as access, not invalid")
  after_oversized file (err invalid) = attempt (F.read file) after_intact
  after_oversized file panic = λ s. (s, panic)

  -- The read of what was written.
  unfoldable pub after_read_back : ℕ → Exec ErrorCode (List ℕ) → Call S Trap Text
  after_read_back file (ok bytes) =
      if same_bytes bytes content
      then attempt (F.write file (replicate oversized_len 0xaa)) (after_oversized file)
      else pure (
          codes "error: read back "
          ++ (decimal (length bytes) ++ codes " bytes that don't match what was written"))
  after_read_back file (err e) = pure (failed (codes "read-back") (debug e))
  after_read_back file panic = λ s. (s, panic)

  unfoldable pub after_write : ℕ → Exec ErrorCode (Unit {0}) → Call S Trap Text
  after_write file (ok u) = attempt (F.read file) (after_read_back file)
  after_write file (err e) = pure (failed (codes "write") (debug e))
  after_write file panic = λ s. (s, panic)

  -- The read of the fresh file.
  unfoldable pub after_fresh : ℕ → Exec ErrorCode (List ℕ) → Call S Trap Text
  after_fresh file (ok []) = attempt (F.write file content) (after_write file)
  after_fresh file (ok (b ∷ bytes)) = pure (
      codes "error: a fresh file read back "
      ++ (decimal (length (b ∷ bytes)) ++ codes " bytes, not 0"))
  after_fresh file (err e) = pure (failed (codes "reading the fresh file") (debug e))
  after_fresh file panic = λ s. (s, panic)

  unfoldable pub with_file : Option ℕ → Call S Trap Text
  with_file none = pure no_file
  with_file (some file) = scoped F.drop file (attempt (F.read file) (after_fresh file))

  unfoldable pub probe : Call S Trap Text
  probe s = with_file (F.open_slot 0 s).1 (F.open_slot 0 s).0

-- ===== src/Guests/FileHosting.antt =====
-- `confined-fs-guest` on the host of `src/host.rs`.
use lantern_runtime.Base.{
  ℕ, ◌≡◌, ◌≤◌, ◌<◌, refl, none, some, true, List, length, take, replicate, length-replicate, arith,
  ltb, if◌then◌else◌,
}
use lantern_runtime.Base.Exec.{Exec, ok, err, map_err}
use lantern_runtime.Host.Records.{HostFile, ServiceEndpoint}
use lantern_runtime.Host.Errors.{StoreError, ErrorCode, access, invalid, Wire, to_fs_error_code}
use lantern_runtime.Host.Services.{FilesystemService, file_entry, IsLawful, Embedding}
use lantern_runtime.Host.State.{RuntimeState, granted}
use lantern_runtime.Host.Handles.{get-push_new}
use lantern_runtime.Host.Blocks.{read-Answers, write_answers}
use lantern_runtime.Host.Files.{read, write, read_answer, open_file, drop_file}
use lantern_runtime.Confined.Text.{Text, codes, contains}
use lantern_runtime.Confined.Probe.{check_report, reports_refusal}
use lantern_runtime.Confined.Program.{filesystem_checks, quoted_access}
use lantern_runtime.Guests.FileSteps.{probe-written, probe-denied}
use lantern_runtime.Guests.Interface.{filesystem_host}
use lantern_runtime.Guests.Scopes.{SameEntries, push-delete}
use lantern_runtime.Guests.FileReport.{written_report-passes, failed-refuses}
use lantern_runtime.Guests.FileProbe.{content, oversized_len, written_report, failed, probe}

-- A store keeps a block: once a badge that was shown a file as empty wrote `bytes` to it, every read under
-- the two into a block that holds them returns their length, with them in front, and keeps them. Of a
-- badge that may not read nothing is said.
pub record KeepsBlock {F : Type 0} (W : Wire) (S : FilesystemService F)
    (Holds : ℕ → ℕ → List ℕ → F → Type 0) : Type 0 where
  pub write-Holds :
      (badge file : ℕ) (bytes : List ℕ) (f f' : F)
      → S.read badge file (replicate W.max_block_len 0) f ≡ (f', err StoreError.file_empty)
      → length bytes ≤ W.max_block_len
      → (S.write badge file bytes f').1 ≡ ok tt
      → Holds badge file bytes (S.write badge file bytes f').0
  pub read-Holds :
      (badge file : ℕ) (bytes : List ℕ) (f : F)
      → Holds badge file bytes f
      → (f' : F) × (after : List ℕ) × (S.read badge file (replicate W.max_block_len 0) f
          ≡ (f', ok (after, length bytes)))
        × (take (length bytes) after ≡ bytes)
        × Holds badge file bytes f'

-- What a run of the guest leaves and reports: the store's next state, and no handle.
abbrev pub Leaves :
    {Tab K F : Type 0}
    → Embedding Tab K F
    → (ErrorCode → Text)
    → RuntimeState Tab K F
    → F
    → Text
    → Type 0
Leaves {Tab} {K} {F} H debug s f' report =
    (s' : RuntimeState Tab K F) × (probe (filesystem_host H) debug s ≡ (s', ok report))
    × (s' ≡ record s { table = s'.table; filesystem = some f' })
    × SameEntries H.table s.table s'.table

module _ {Tab K F : Type 0} (H : Embedding Tab K F) (L : IsLawful H.table)
    (debug : ErrorCode → Text) where
  module _ (s : RuntimeState Tab K F) (held : HostFile) (h : ℕ) (t : Tab)
      (bound : granted s.files 0 ≡ some held) (serves : held.service ≡ ServiceEndpoint.filesystem)
      (pushed : H.table.push s.table (file_entry held) ≡ some (h, t)) where
    abbrev at_store : F → RuntimeState Tab K F
    at_store f = record s { table = t; filesystem = some f }

    open_first : (f : F) → s.filesystem ≡ some f → open_file H 0 s ≡ (at_store f, some h)
    unfolding open_file
    open_first f attached = ground arith

    -- The state after the guest's file is dropped: nothing of it stays.
    drop_first :
        (f : F)
        → (s' : RuntimeState Tab K F) × (drop_file H h (at_store f) ≡ (s', ok tt))
          × (s' ≡ record s { table = s'.table; filesystem = some f })
          × SameEntries H.table s.table s'.table
    unfolding drop_file
    drop_first f =
        let (t', gone, same) = push-delete H.table L (file_entry held) s.table h t pushed in
        (record s { table = t'; filesystem = some f }, ground (arith, gone), refl, same)

    read_asks :
        (f f' : F) (r : Exec StoreError (List ℕ × ℕ))
        → H.filesystem.read held.badge held.file (replicate H.wire.max_block_len 0) f ≡ (f', r)
        → read H h (at_store f) ≡ (at_store f', read_answer H.wire r)
    read_asks f f' r answered = rw answered at (
        read-Answers H (at_store f) h held f (get-push_new H.table L h (file_entry held) pushed)
          serves refl)

    read_back :
        (Holds : ℕ → ℕ → List ℕ → F → Type 0)
        → KeepsBlock H.wire H.filesystem Holds
        → (bytes : List ℕ) (f : F) → Holds held.badge held.file bytes f
        → (f' : F) × (read H h (at_store f) ≡ (at_store f', ok bytes))
          × Holds held.badge held.file bytes f'
    unfolding read_answer
    read_back Holds keeps bytes f holds =
        let (f', after, answered, same, still) =
          keeps.read-Holds held.badge held.file bytes f holds in
        (f', rw same at (read_asks f f' (ok (after, length bytes)) answered), still)

    write_asks :
        (f : F) (bytes : List ℕ)
        → let w = H.filesystem.write held.badge held.file bytes f in
          write H h bytes (at_store f) ≡ (
            if ltb H.wire.max_block_len (length bytes)
            then (at_store f, err invalid)
            else (at_store w.0, map_err (to_fs_error_code H.wire) w.1))
    write_asks f bytes =
        write_answers H (at_store f) h held f (get-push_new H.table L h (file_entry held) pushed)
          serves refl bytes

    shut_second :
        granted s.files 1 ≡ none → (f : F) → open_file H 1 (at_store f) ≡ (at_store f, none)
    unfolding open_file
    shut_second shut f = ground arith

    -- On a host over a lawful table that granted a file at slot 0 and nothing at slot 1, with room for a
    -- handle, whose blocks hold the guest's content and no 257 bytes, and with an empty file in a store
    -- that takes the content and keeps a block, the guest's report passes every check of its host, the
    -- content is in the store at the end, and no handle stays behind.
    pub file_probe-passes :
        (Holds : ℕ → ℕ → List ℕ → F → Type 0) (f f₁ : F)
        → KeepsBlock H.wire H.filesystem Holds
        → length content ≤ H.wire.max_block_len
        → H.wire.max_block_len < oversized_len
        → s.filesystem ≡ some f
        → granted s.files 1 ≡ none
        → H.filesystem.read held.badge held.file (replicate H.wire.max_block_len 0) f
          ≡ (f₁, err StoreError.file_empty)
        → (H.filesystem.write held.badge held.file content f₁).1 ≡ ok tt
        → (report : Text) × (f' : F) × (check_report report (filesystem_checks H.wire).required
            ≡ ok tt)
          × Holds held.badge held.file content f'
          × Leaves H debug s f' report
    unfolding read_answer
    file_probe-passes Holds f f₁ keeps fits small attached shut fresh accepted =
        let f₂ = (H.filesystem.write held.badge held.file content f₁).0 in
        let holds = keeps.write-Holds held.badge held.file content f f₁ fresh fits accepted in
        let (f₃, back, holds₃) = read_back Holds keeps content f₂ holds in
        let (f₄, intact, holds₄) = read_back Holds keeps content f₃ holds₃ in
        let (s', dropped, e, same) = drop_first f₄ in
        let written : write H h content (at_store f₁) ≡ (at_store f₂, ok tt) =
          ground (arith, write_asks f₁ content) in
        let refused : write H h (replicate oversized_len 0xaa) (at_store f₃)
            ≡ (at_store f₃, err invalid) =
          ground (
            arith,
            write_asks f₃ (replicate oversized_len 0xaa),
            length-replicate {A = ℕ} oversized_len 0xaa,
          ) in
        (
          written_report true,
          f₄,
          written_report-passes,
          holds₄,
          (
            s',
            probe-written (filesystem_host H) debug s (at_store f) (at_store f₁) (at_store f₂) h
                (open_first f attached) (at_store f₃) (at_store f₃) (at_store f₄) s'
                (read_asks f f₁ (err StoreError.file_empty) fresh) written back refused intact
                (shut_second shut f₄) dropped,
            e,
            same,
          ),
        )

    -- On such a host of which the store denies the first read, with an error code that prints as one the
    -- host looks for, the guest's report shows the refusal, and no handle stays behind.
    pub file_probe-refused :
        (f f' : F) (e : StoreError)
        → s.filesystem ≡ some f
        → H.filesystem.read held.badge held.file (replicate H.wire.max_block_len 0) f ≡ (f', err e)
        → read_answer H.wire (err e) ≡ err access
        → contains (debug access) quoted_access ≡ true
        → (report : Text) × (reports_refusal report (filesystem_checks H.wire).refused ≡ true)
          × Leaves H debug s f' report
    file_probe-refused f f' e attached denied code quoted =
        let (s', dropped, e', same) = drop_first f' in
        (
          failed (codes "reading the fresh file") (debug access),
          failed-refuses (codes "reading the fresh file") (debug access) quoted,
          (
            s',
            probe-denied (filesystem_host H) debug s (at_store f) (at_store f') s' h
                (open_first f attached) (rw code at (read_asks f f' (err e) denied)) dropped,
            e',
            same,
          ),
        )

-- ===== src/Guests/FileSteps.antt =====
-- The steps of `confined-fs-guest` over any host: from what its calls answer to its report.
use lantern_runtime.Base.{ℕ, ◌≡◌, refl, none, some, true, [], replicate}
use lantern_runtime.Base.Exec.{ok, err, pure}
use lantern_runtime.Host.Errors.{ErrorCode, access, invalid}
use lantern_runtime.Confined.Text.{Text, codes}
use lantern_runtime.Confined.Chains.{bind-at_ok}
use lantern_runtime.Guests.Interface.{FilesystemHost, attempt, is_none}
use lantern_runtime.Guests.Scopes.{scoped-at, is_none-at}
use lantern_runtime.Guests.FileProbe.{
  content, oversized_len, same_bytes, written_report, failed, final_report, after_intact,
  after_oversized, after_read_back, after_write, after_fresh, with_file, probe,
}

module _ {S : Type 0} (F : FilesystemHost S) (debug : ErrorCode → Text) (s s₁ s₂ s₃ : S) (file : ℕ)
    (opened : F.open_slot 0 s ≡ (s₁, some file)) where
  pub probe-written :
      (s₄ s₅ s₆ s₇ : S)
      → F.read file s₁ ≡ (s₂, ok [])
      → F.write file content s₂ ≡ (s₃, ok tt)
      → F.read file s₃ ≡ (s₄, ok content)
      → F.write file (replicate oversized_len 0xaa) s₄ ≡ (s₅, err invalid)
      → F.read file s₅ ≡ (s₆, ok content)
      → F.open_slot 1 s₆ ≡ (s₆, none)
      → F.drop file s₆ ≡ (s₇, ok tt)
      → probe F debug s ≡ (s₇, ok (written_report true))
  unfolding probe with_file after_fresh after_write after_read_back after_oversized after_intact
      final_report same_bytes
  probe-written s₄ s₅ s₆ s₇ fresh written back refused intact shut dropped = rw opened (
      scoped-at F.drop file (attempt (F.read file) (after_fresh F debug file)) s₁ s₆ s₇ _
        (rw fresh (
          rw written (
            rw back (
              rw refused (
                rw intact (
                  bind-at_ok (is_none F.open_slot F.drop 1) (λ closed. pure (written_report closed))
                    s₆ s₆ true (is_none-at F.open_slot F.drop 1 s₆ shut)))))))
        dropped)

  pub probe-denied :
      F.read file s₁ ≡ (s₂, err access)
      → F.drop file s₂ ≡ (s₃, ok tt)
      → probe F debug s ≡ (s₃, ok (failed (codes "reading the fresh file") (debug access)))
  unfolding probe with_file after_fresh
  probe-denied denied dropped = rw opened (
      scoped-at F.drop file (attempt (F.read file) (after_fresh F debug file)) s₁ s₂ s₃ _
        (rw denied refl) dropped)

-- ===== src/Guests/FileReport.antt =====
-- What the reports of `confined-fs-guest` say, whatever host it runs on.
use lantern_runtime.Base.{◌≡◌, refl, true, [], ◌∷◌, ◌++◌, length}
use lantern_runtime.Base.Exec.{ok}
use lantern_runtime.Confined.Text.{Text, codes, starts_with, contains, position}
use lantern_runtime.Confined.Probe.{ok_prefix, check_report, reports_refusal}
use lantern_runtime.Confined.Program.{oversized_write, content_intact, file_1_none, quoted_access}
use lantern_runtime.Guests.Format.{decimal}
use lantern_runtime.Guests.FileProbe.{content, written_report, failed}
use lantern_runtime.Guests.Texts.{contains-append_right}

-- Every text that the host looks for stands behind the length of what was written.
written_report-contains :
    (marker : Text)
    → contains
        (codes " bytes; oversized write="
          ++ (codes "invalid" ++ (codes ", content intact; filesystem.open(1)=" ++ codes "none")))
        marker
      ≡ true
    → contains (written_report true) marker ≡ true
written_report-contains marker has =
    contains-append_right (codes "ok: wrote and read back ") _ marker
      (contains-append_right (decimal (length content)) _ marker has)

has_oversized : contains (written_report true) oversized_write ≡ true
unfolding contains starts_with
has_oversized = written_report-contains oversized_write refl

has_intact : contains (written_report true) content_intact ≡ true
unfolding contains starts_with
has_intact = written_report-contains content_intact refl

has_none : contains (written_report true) file_1_none ≡ true
unfolding contains starts_with
has_none = written_report-contains file_1_none refl

written_report-starts : starts_with (written_report true) ok_prefix ≡ true
unfolding starts_with
written_report-starts = refl

pub written_report-passes :
    check_report (written_report true) (oversized_write ∷ content_intact ∷ file_1_none ∷ []) ≡ ok tt
unfolding check_report position
written_report-passes = rw (written_report-starts, has_oversized, has_intact, has_none) refl

pub failed-refuses :
    (what why : Text)
    → contains why quoted_access ≡ true
    → reports_refusal (failed what why) quoted_access ≡ true
unfolding starts_with
failed-refuses what why quoted = contains-append_right (codes "error: ") _ quoted_access (
    contains-append_right what _ quoted_access
      (contains-append_right (codes " failed: ") why quoted_access quoted))

-- ===== src/Guests/KeyReport.antt =====
-- What the report of `confined-probe-guest` says, whatever host it runs on.
use lantern_runtime.Base.{ℕ, ◌≡◌, refl, Bool, true, List, [], ◌∷◌, ◌++◌, length, take, arith}
use lantern_runtime.Base.Exec.{ok}
use lantern_runtime.Confined.Text.{Text, codes, starts_with, contains, position}
use lantern_runtime.Confined.Probe.{ok_prefix, check_report, reports_refusal}
use lantern_runtime.Confined.Program.{open_1_none, keystore_denied}
use lantern_runtime.Guests.Format.{decimal, hex_bytes}
use lantern_runtime.Guests.KeyProbe.{message, sign_denied, signed_report}
use lantern_runtime.Guests.Texts.{contains-append, contains-append_right}

pub signed_report-starts :
    (signature : List ℕ) (closed : Bool)
    → starts_with (signed_report signature closed) ok_prefix ≡ true
unfolding signed_report starts_with
signed_report-starts signature closed = refl

pub signed_report-contains :
    (signature : List ℕ) → contains (signed_report signature true) open_1_none ≡ true
unfolding signed_report
signed_report-contains signature = contains-append_right (codes "ok: signed ") _ open_1_none (
    contains-append_right (decimal (length message)) _ open_1_none (
      contains-append_right (codes " bytes with the granted key — ed25519 sig = ") _ open_1_none (
        contains-append_right (hex_bytes (take 6 signature)) _ open_1_none (
          contains-append_right (codes "… (") _ open_1_none (
            contains-append_right (decimal (length signature)) _ open_1_none (
              contains-append_right (codes " bytes); ") (open_1_none ++ []) open_1_none
                (contains-append open_1_none [])))))))

pub sign_denied-refuses : reports_refusal sign_denied keystore_denied ≡ true
unfolding starts_with contains
sign_denied-refuses = refl

pub check_report-one :
    (report marker : Text)
    → starts_with report ok_prefix ≡ true
    → contains report marker ≡ true
    → check_report report (marker ∷ []) ≡ ok tt
unfolding check_report position
check_report-one report marker starts has = ground (arith, starts, has)

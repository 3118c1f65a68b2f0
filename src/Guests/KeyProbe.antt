-- ===== src/Guests/KeyProbe.antt =====
-- `probe` of `confined-probe-guest/src/lib.rs`.
use lantern_runtime.Base.{ℕ, Option, none, some, Bool, List, ◌++◌, length, take, if◌then◌else◌}
use lantern_runtime.Base.Exec.{Exec, ok, err, panic, Call, pure, ◌>>=◌}
use lantern_runtime.Host.Errors.{ErrorCode, access, invalid}
use lantern_runtime.Confined.Text.{Text, codes}
use lantern_runtime.Guests.Format.{decimal, hex_bytes}
use lantern_runtime.Guests.Interface.{KeystoreHost, Trap, attempt, scoped, is_none}

abbrev pub message : List ℕ
message = codes "lantern-runtime confined-probe-guest v0"

abbrev pub no_key : Text
no_key = codes "error: the manifest granted no key at keystore slot 0"

abbrev pub sign_denied : Text
sign_denied = codes "error: keystore denied `sign` (badge not scoped to that op)"

abbrev pub sign_invalid : Text
sign_invalid = codes "error: keystore rejected the sign request as invalid"

abbrev pub slot_text : Bool → Text
slot_text ungranted = if ungranted then codes "none" else codes "LEAKED"

-- The report of a signature.
unfoldable pub signed_report : List ℕ → Bool → Text
signed_report signature ungranted =
    codes "ok: signed "
    ++ (decimal (length message)
        ++ (codes " bytes with the granted key — ed25519 sig = "
            ++ (hex_bytes (take 6 signature)
                ++ (codes "… ("
                    ++ (decimal (length signature)
                        ++ (codes " bytes); "
                            ++ (codes "keystore.open(1)=" ++ slot_text ungranted)))))))

module _ {S : Type 0} (K : KeystoreHost S) where
  unfoldable pub after_sign : Exec ErrorCode (List ℕ) → Call S Trap Text
  after_sign (ok signature) = do
    ungranted ← is_none K.open_slot K.drop 1
    pure (signed_report signature ungranted)
  after_sign (err access) = pure sign_denied
  after_sign (err invalid) = pure sign_invalid
  after_sign panic = λ s. (s, panic)

  unfoldable pub with_key : Option ℕ → Call S Trap Text
  with_key none = pure no_key
  with_key (some key) = scoped K.drop key (attempt (K.sign key message) after_sign)

  unfoldable pub probe : Call S Trap Text
  probe s = with_key (K.open_slot 0 s).1 (K.open_slot 0 s).0

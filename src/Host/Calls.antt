-- ===== src/Host/Calls.antt =====
-- The calls that a component can make on the interfaces of `src/host.rs`, in any order, and the
-- state that a sequence of them leaves.
use lantern_runtime.Base.{ℕ, List, [], ◌∷◌}
use lantern_runtime.Host.Services.{Embedding}
use lantern_runtime.Host.State.{RuntimeState}
use lantern_runtime.Host.Keys
use lantern_runtime.Host.Files

pub data GuestCall : Type 0 where
  open_key open_file : ℕ → GuestCall
  encrypt : ℕ → List ℕ → List ℕ → List ℕ → GuestCall
  decrypt : ℕ → List ℕ → List ℕ → List ℕ → List ℕ → GuestCall
  sign : ℕ → List ℕ → GuestCall
  read : ℕ → GuestCall
  write : ℕ → List ℕ → GuestCall
  drop_key drop_file : ℕ → GuestCall
  clock : GuestCall

module _ {Tab K F : Type 0} (H : Embedding Tab K F) where
  unfoldable pub step : GuestCall → RuntimeState Tab K F → RuntimeState Tab K F
  step (GuestCall.open_key slot) s = (Keys.open_key H slot s).0
  step (GuestCall.open_file slot) s = (Files.open_file H slot s).0
  step (GuestCall.encrypt h nonce aad plaintext) s = (Keys.encrypt H h nonce aad plaintext s).0
  step (GuestCall.decrypt h nonce aad ciphertext tag) s =
      (Keys.decrypt H h nonce aad ciphertext tag s).0
  step (GuestCall.sign h message) s = (Keys.sign H h message s).0
  step (GuestCall.read h) s = (Files.read H h s).0
  step (GuestCall.write h bytes) s = (Files.write H h bytes s).0
  step (GuestCall.drop_key h) s = (Keys.drop_key H h s).0
  step (GuestCall.drop_file h) s = (Files.drop_file H h s).0
  step GuestCall.clock s = s

  unfoldable pub run : List GuestCall → RuntimeState Tab K F → RuntimeState Tab K F
  unfolding step
  run [] s = s
  run (c ∷ cs) s = run cs (step c s)

-- ===== src/Guests/Interface.antt =====
-- The interfaces of `wit/host.wit` as a guest calls them, and their implementation by the host.
use lantern_runtime.Base.{ℕ, Option, none, some, Bool, true, false, List}
use lantern_runtime.Base.Exec.{Exec, map_err, Call, pure, ◌>>=◌, ◌>>◌}
use lantern_runtime.Host.Errors.{ErrorCode}
use lantern_runtime.Host.Services.{Embedding}
use lantern_runtime.Host.State.{RuntimeState, WasmtimeError}
use lantern_runtime.Host.Keys
use lantern_runtime.Host.Files

pub record KeystoreHost (S : Type 0) : Type 0 where
  pub open_slot : ℕ → S → S × Option ℕ
  pub sign : ℕ → List ℕ → Call S ErrorCode (List ℕ)
  pub drop : ℕ → Call S WasmtimeError (Unit {0})

pub record FilesystemHost (S : Type 0) : Type 0 where
  pub open_slot : ℕ → S → S × Option ℕ
  pub read : ℕ → Call S ErrorCode (List ℕ)
  pub write : ℕ → List ℕ → Call S ErrorCode (Unit {0})
  pub drop : ℕ → Call S WasmtimeError (Unit {0})

module _ {Tab K F : Type 0} (H : Embedding Tab K F) where
  abbrev pub keystore_host : KeystoreHost (RuntimeState Tab K F)
  keystore_host = record { open_slot = Keys.open_key H; sign = Keys.sign H; drop = Keys.drop_key H }

  abbrev pub filesystem_host : FilesystemHost (RuntimeState Tab K F)
  filesystem_host = record {
    open_slot = Files.open_file H;
    read = Files.read H;
    write = Files.write H;
    drop = Files.drop_file H;
  }

-- A guest ends in a value or in a trap.
pub data Trap : Type 0 where
  trapped : Trap

module _ {S : Type 0} where
  -- A `match` on what a method returns; a panic of the host ends everything.
  abbrev pub attempt :
      {A B : Type 0} → Call S ErrorCode A → (Exec ErrorCode A → Call S Trap B) → Call S Trap B
  attempt m k s = k (m s).1 (m s).0

  abbrev pub drop_handle : (ℕ → Call S WasmtimeError (Unit {0})) → ℕ → Call S Trap (Unit {0})
  drop_handle drop h s = ((drop h s).0, map_err (λ _. trapped) (drop h s).1)

  -- A handle that is dropped at the end of its scope, after the scope's value is there.
  abbrev pub scoped :
      {A : Type 0} → (ℕ → Call S WasmtimeError (Unit {0})) → ℕ → Call S Trap A → Call S Trap A
  scoped drop h m = do a ← m; drop_handle drop h; pure a

  abbrev pub closed : (ℕ → Call S WasmtimeError (Unit {0})) → Option ℕ → Call S Trap Bool
  closed drop none = pure true
  closed drop (some h) = do drop_handle drop h; pure false

  -- `open(slot).is_none()`; the handle that is there after all is dropped.
  abbrev pub is_none :
      (ℕ → S → S × Option ℕ) → (ℕ → Call S WasmtimeError (Unit {0})) → ℕ → Call S Trap Bool
  is_none open_slot drop slot s = closed drop (open_slot slot s).1 (open_slot slot s).0

-- ===== src/Ipc/Cell.antt =====
-- `SingleThreadCell` of `src/host.rs`, a `RefCell`, and the borrows that the methods of `IpcKeystore` and
-- `IpcFilesystem` take of the channel in theirs.
use lantern_runtime.Base.{Bool, true, false, if◌then◌else◌}
use lantern_runtime.Base.Exec.{Exec, ok, panic, Call, ◌>>◌}
use lantern_runtime.Ipc.Channel.{Channel}

-- The value, and whether it is borrowed.
pub record SingleThreadCell (T : Type 0) : Type 0 where
  pub value : T
  pub borrowed : Bool

module _ {T E : Type 0} where
  -- `borrow_mut` panics on a value that is borrowed.
  unfoldable pub borrow_mut : Call (SingleThreadCell T) E (Unit {0})
  borrow_mut cell =
      if cell.borrowed then (cell, panic) else (record cell { borrowed = true }, ok tt)

  -- The `RefMut` is dropped as its scope is left, however that is.
  unfoldable pub release :
      {A : Type 0} → SingleThreadCell T × Exec E A → SingleThreadCell T × Exec E A
  release r = (record r.0 { borrowed = false }, r.1)

  -- `let mut value = cell.borrow_mut();` and the rest of the method, at whose end the `RefMut` is dropped.
  unfoldable pub with_borrow :
      {A : Type 0} → Call (SingleThreadCell T) E A → Call (SingleThreadCell T) E A
  with_borrow rest = borrow_mut >> λ cell. release (rest cell)

module _ {T : Type 0} where
  unfoldable pub new : T → SingleThreadCell T
  new value = record { value = value; borrowed = false }

-- The channel that a `RefMut` stands for.
abbrev pub borrowed_channel : {C : Type 0} → Channel C → Channel (SingleThreadCell C)
borrowed_channel ch = record {
  call = λ op request reply cell.
      let r = ch.call op request reply cell.value in (record cell { value = r.0 }, r.1);
}

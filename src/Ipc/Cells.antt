-- ===== src/Ipc/Cells.antt =====
-- The channel clients of `src/host.rs` with their channel in a `SingleThreadCell`, against the clients that
-- hold it themselves.
use lantern_runtime.Base.{ap, true, ℕ, ◌≡◌, refl, List, [], length, replicate, ◌+◌}
use lantern_runtime.Base.Exec.{map_err, Call, Exec, ok, err, panic}
use lantern_runtime.Host.Errors.{
  ErrorCode, to_error_code, to_fs_error_code, KeystoreError, StoreError, Wire,
}
use lantern_runtime.Host.Services.{ResourceTable}
use lantern_runtime.Host.Files.{read_answer}
use lantern_runtime.Host.State.{RuntimeState}
use lantern_runtime.Host.Calls.{GuestCall, run}
use lantern_runtime.Host.Carries.{KeystoreCarries, FilesystemCarries, with_services, carry}
use lantern_runtime.Host.Answers.{answers, run-carry}
use lantern_runtime.Ipc.Channel.{Channel, Codec, accept}
use lantern_runtime.Ipc.Messages.{
  encrypt_request, encrypt_answer, decrypt_request, decrypt_answer, sign_answer,
}
use lantern_runtime.Ipc.Keystore.{ipc_keystore}
use lantern_runtime.Ipc.Keystore
use lantern_runtime.Ipc.Filesystem.{ipc_filesystem}
use lantern_runtime.Ipc.Filesystem
use lantern_runtime.Ipc.Cell.{SingleThreadCell, new, borrow_mut, release, with_borrow}
use lantern_runtime.Ipc.InCell.{
  encrypt_in_cell, decrypt_in_cell, sign_in_cell, keystore_in_cell, read_in_cell, write_in_cell,
  filesystem_in_cell,
}

abbrev in_cell : {C R : Type 0} → C × R → SingleThreadCell C × R
in_cell r = (new r.0, r.1)

seen_alike :
    {C E A : Type 0} (code : E → ErrorCode) (r' : SingleThreadCell C × Exec E A) (r : C × Exec E A)
    → r' ≡ in_cell r
    → (r'.0 ≡ new r.0) × (map_err code r'.1 ≡ map_err code r.1)
seen_alike code r' r e = (ap (λ r. r.0) e, ap (λ r. map_err code r.1) e)

-- The state of a cell whose channel is borrowed.
abbrev held : {C : Type 0} → C → SingleThreadCell C
held c = record { value = c; borrowed = true }

abbrev in_held : {C R : Type 0} → C × R → SingleThreadCell C × R
in_held r = (held r.0, r.1)

-- Where a borrow's scope does to a borrowed channel what it does to a channel of its own, the method does
-- so to a free cell, and leaves it free.
with_borrow-cell :
    {C E A : Type 0} (rest : Call (SingleThreadCell C) E A) (r : C × Exec E A) (c : C)
    → rest (held c) ≡ in_held r
    → with_borrow rest (new c) ≡ in_cell r
unfolding with_borrow borrow_mut release new
with_borrow-cell rest r c same = rw same refl

module _ {C E A B : Type 0} where
  go_on-cell :
      (r : Exec E A) (c : C) (g : A → C × Exec E B) (g' : A → SingleThreadCell C × Exec E B)
      → ((a : A) → g' a ≡ in_cell (g a))
      → (elim r as (λ _. SingleThreadCell C × Exec E B) [
        | ok a ↦ g' a
        | err e ↦ (new c, err e)
        | panic ↦ (new c, panic)
      ])
        ≡ in_cell
            (elim r as (λ _. C × Exec E B) [ ok a ↦ g a | err e ↦ (c, err e) | panic ↦ (c, panic) ])
  go_on-cell (ok a) c g g' same = same a
  go_on-cell (err e) c g g' same = refl
  go_on-cell panic c g g' same = refl

  go_on-held :
      (r : Exec E A) (c : C) (f : A → Exec E B)
      → (elim r as (λ _. SingleThreadCell C × Exec E B) [
        | ok a ↦ (held c, f a)
        | err e ↦ (held c, err e)
        | panic ↦ (held c, panic)
      ])
        ≡ in_held (elim r as (λ _. C × Exec E B) [
          | ok a ↦ (c, f a)
          | err e ↦ (c, err e)
          | panic ↦ (c, panic)
        ])
  go_on-held (ok a) c f = refl
  go_on-held (err e) c f = refl
  go_on-held panic c f = refl

module _ {C : Type 0} (W : Wire) (X : Codec) (ch : Channel C) where
  encrypt-cell :
      (nonce aad body : List ℕ) (c : C)
      → encrypt_in_cell W X ch nonce aad body (new c)
        ≡ in_cell (Keystore.encrypt W X ch nonce aad body c)
  unfolding Keystore.encrypt encrypt_in_cell
  encrypt-cell nonce aad body c = go_on-cell (encrypt_request W X nonce aad body) c _ _ λ request.
      let r = ch.call W.op_encrypt request (replicate (4 + W.tag_len + length body) 0) c in
      with_borrow-cell _ _ c (
        go_on-held (accept KeystoreError.channel KeystoreError.remote_denied W.crypto_ok r.1) r.0
          (encrypt_answer W X (length body)))

  decrypt-cell :
      (nonce aad body tag : List ℕ) (c : C)
      → decrypt_in_cell W X ch nonce aad body tag (new c)
        ≡ in_cell (Keystore.decrypt W X ch nonce aad body tag c)
  unfolding Keystore.decrypt decrypt_in_cell
  decrypt-cell nonce aad body tag c =
      go_on-cell (decrypt_request W X nonce aad body tag) c _ _ λ request.
        let r = ch.call W.op_decrypt request (replicate (length body) 0) c in
        with_borrow-cell _ _ c (
          go_on-held (accept KeystoreError.channel KeystoreError.remote_denied W.crypto_ok r.1) r.0
            (decrypt_answer W X (length body)))

  sign-cell :
      (message : List ℕ) (c : C)
      → sign_in_cell W X ch message (new c) ≡ in_cell (Keystore.sign W X ch message c)
  unfolding Keystore.sign sign_in_cell
  sign-cell message c =
      let r = ch.call W.op_sign (X.encode_sign_request message) (replicate W.signature_len 0) c in
      with_borrow-cell _ _ c (
        go_on-held (accept KeystoreError.channel KeystoreError.remote_denied W.crypto_ok r.1) r.0
          (sign_answer W X))

  keystore_in_cell-Carries :
      KeystoreCarries W (λ _. Unit {0}) new (ipc_keystore W X ch) (keystore_in_cell W X ch)
  unfolding ipc_keystore keystore_in_cell
  keystore_in_cell-Carries = record {
    encrypt_carries = λ given nonce aad body c _ _.
        seen_alike (to_error_code W) _ _ (encrypt-cell nonce aad body c);
    decrypt_carries = λ given nonce aad body tag c _ _ _.
        seen_alike (to_error_code W) _ _ (decrypt-cell nonce aad body tag c);
    sign_carries = λ given message c _. seen_alike (to_error_code W) _ _ (sign-cell message c);
  }

module _ {C : Type 0} (W : Wire) (ch : Channel C) where
  read-cell :
      (buffer : List ℕ) (c : C)
      → read_in_cell W ch buffer (new c) ≡ in_cell (Filesystem.read W ch buffer c)
  unfolding Filesystem.read read_in_cell
  read-cell buffer c = with_borrow-cell _ _ c refl

  write-cell :
      (bytes : List ℕ) (c : C)
      → write_in_cell W ch bytes (new c) ≡ in_cell (Filesystem.write W ch bytes c)
  unfolding Filesystem.write write_in_cell
  write-cell bytes c =
      let r = ch.call W.op_write bytes [] c in
      with_borrow-cell _ _ c (
        go_on-held (accept StoreError.channel StoreError.remote_crypto_denied W.store_ok r.1) r.0
          (λ _. ok tt))

  filesystem_in_cell-Carries :
      FilesystemCarries W (λ _. Unit {0}) new (ipc_filesystem W ch) (filesystem_in_cell W ch)
  unfolding ipc_filesystem filesystem_in_cell
  filesystem_in_cell-Carries = record {
    read_carries = λ given c _.
        let e = read-cell (replicate W.max_block_len 0) c in
        (ap (λ r. r.0) e, ap (λ r. read_answer W r.1) e);
    write_carries = λ given bytes c _. seen_alike (to_fs_error_code W) _ _ (write-cell bytes c);
  }

-- Whatever a component calls, the methods that borrow their channel from a `SingleThreadCell`, up to their
-- end, give the answers of clients that hold it themselves and leave the same state: no borrow is refused,
-- and each is given back, so that every cell is free again.
pub cells-unseen :
    {Tab C D : Type 0} (W : Wire) (X : Codec) (T : ResourceTable Tab) (ch : Channel C)
    (dh : Channel D) (calls : List GuestCall) (s : RuntimeState Tab C D)
    → let plain = with_services W T (ipc_keystore W X ch) (ipc_filesystem W dh) in
      let borrowing = with_services W T (keystore_in_cell W X ch) (filesystem_in_cell W dh) in
      (run borrowing calls (carry new new s) ≡ carry new new (run plain calls s))
      × (answers borrowing calls (carry new new s) ≡ answers plain calls s)
cells-unseen W X T ch dh calls s =
    run-carry W T (ipc_keystore W X ch) (ipc_filesystem W dh) (keystore_in_cell W X ch)
      (filesystem_in_cell W dh) new new (λ _. Unit {0}) (λ _. Unit {0})
      (keystore_in_cell-Carries W X ch) (filesystem_in_cell-Carries W dh) (λ _. Unit {0})
      (λ c s _. tt)
      (λ s _. record { key_allowed = λ h given _. tt; file_allowed = λ h given _. tt }) calls s tt

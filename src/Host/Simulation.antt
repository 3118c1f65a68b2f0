-- ===== src/Host/Simulation.antt =====
-- Two runtimes of `src/host.rs` whose services differ in how they keep their state.
use lantern_runtime.Base.{ℕ, ◌≡◌, refl, List, Option-cases, inl, inr, length, replicate, ltb, arith}
use lantern_runtime.Base.Exec.{Exec, ok, err, panic, map_err}
use lantern_runtime.Host.Records.{HostCapability, HostFile}
use lantern_runtime.Host.Errors.{
  fixed_len, KeystoreError, StoreError, ErrorCode, to_error_code, to_fs_error_code, Wire,
}
use lantern_runtime.Host.Services.{KeystoreService, FilesystemService, ResourceTable, Embedding}
use lantern_runtime.Host.State.{RuntimeState, keystore_cap, file_cap, ask_keystore}
use lantern_runtime.Host.Effects.{HoldsKey, HoldsFile}
use lantern_runtime.Host.Keys.{encrypt, decrypt, sign, serves_keystore, open_key, drop_key}
use lantern_runtime.Host.Files.{
  read, write, read_answer, serves_filesystem, guard_block, open_file, drop_file, ask_filesystem,
}
use lantern_runtime.Host.Carries.{KeystoreCarries, FilesystemCarries, with_services, carry}

keystore_cap-ok :
    {Tab K F : Type 0} (H : Embedding Tab K F) (s : RuntimeState Tab K F) (h : ℕ)
    (held : HostCapability)
    → keystore_cap H s h ≡ ok held
    → HoldsKey H s h held
unfolding keystore_cap
keystore_cap-ok H s h held e = ground arith

file_cap-ok :
    {Tab K F : Type 0} (H : Embedding Tab K F) (s : RuntimeState Tab K F) (h : ℕ) (held : HostFile)
    → file_cap H s h ≡ ok held
    → HoldsFile H s h held
unfolding file_cap
file_cap-ok H s h held e = ground arith

fixed_len-ok : (n : ℕ) (bytes fixed : List ℕ) → fixed_len n bytes ≡ ok fixed → length fixed ≡ n
unfolding fixed_len
fixed_len-ok n bytes fixed e = ground arith

module _ {Tab K F K' F' : Type 0} (W : Wire) (T : ResourceTable Tab) (S : KeystoreService K)
    (P : FilesystemService F) (S' : KeystoreService K') (P' : FilesystemService F') (φ : K → K')
    (ψ : F → F') (AllowsKey : HostCapability → Type 0) (AllowsFile : HostFile → Type 0)
    (keys : KeystoreCarries W AllowsKey φ S S')
    (files : FilesystemCarries W AllowsFile ψ P P') where
  abbrev pub carry_first : {A : Type 0} → RuntimeState Tab K F × A → RuntimeState Tab K' F' × A
  carry_first r = (carry φ ψ r.0, r.1)

  -- A step that leaves the state alone is the same on both sides.
  go_on-carry :
      {E A B : Type 0} (r : Exec E A) (s : RuntimeState Tab K F)
      (g : A → RuntimeState Tab K F × Exec E B) (g' : A → RuntimeState Tab K' F' × Exec E B)
      → ((a : A) → r ≡ ok a → g' a ≡ carry_first (g a))
      → (elim r as (λ _. RuntimeState Tab K' F' × Exec E B) [
        | ok a ↦ g' a
        | err e ↦ (carry φ ψ s, err e)
        | panic ↦ (carry φ ψ s, panic)
      ])
        ≡ carry_first (elim r as (λ _. RuntimeState Tab K F × Exec E B) [
          | ok a ↦ g a
          | err e ↦ (s, err e)
          | panic ↦ (s, panic)
        ])
  go_on-carry (ok a) s g g' same = same a refl
  go_on-carry (err e) s g g' same = refl
  go_on-carry panic s g g' same = refl

  ask_keystore-carry :
      {A : Type 0} (call : K → K × Exec KeystoreError A) (call' : K' → K' × Exec KeystoreError A)
      → ((k : K)
          → ((call' (φ k)).0 ≡ φ (call k).0)
            × (map_err (to_error_code W) (call' (φ k)).1 ≡ map_err (to_error_code W) (call k).1))
      → (s : RuntimeState Tab K F)
      → ask_keystore (with_services W T S' P') call' (carry φ ψ s)
        ≡ carry_first (ask_keystore (with_services W T S P) call s)
  unfolding ask_keystore
  ask_keystore-carry call call' same s = elim (Option-cases s.keystore) [
    | inl bare ↦ ground arith
    | inr (k, attached) ↦ ground (arith, same k)
  ]

  ask_filesystem-carry :
      {A B : Type 0} (call : F → F × Exec StoreError A) (call' : F' → F' × Exec StoreError A)
      (answer : Exec StoreError A → Exec ErrorCode B)
      → ((f : F) → ((call' (ψ f)).0 ≡ ψ (call f).0) × (answer (call' (ψ f)).1 ≡ answer (call f).1))
      → (s : RuntimeState Tab K F)
      → ask_filesystem (with_services W T S' P') call' answer (carry φ ψ s)
        ≡ carry_first (ask_filesystem (with_services W T S P) call answer s)
  unfolding ask_filesystem
  ask_filesystem-carry call call' answer same s = elim (Option-cases s.filesystem) [
    | inl bare ↦ ground arith
    | inr (f, attached) ↦ ground (arith, same f)
  ]

  -- Every handle stands for a record that is allowed.
  pub record AllAllowed (s : RuntimeState Tab K F) : Type 0 where
    pub key_allowed :
        (h : ℕ) (held : HostCapability) → HoldsKey (with_services W T S P) s h held → AllowsKey held
    pub file_allowed :
        (h : ℕ) (held : HostFile) → HoldsFile (with_services W T S P) s h held → AllowsFile held

  module _ (s : RuntimeState Tab K F) (h : ℕ) (allowed : AllAllowed s) where
    key_cap-allowed :
        (held : HostCapability)
        → keystore_cap (with_services W T S P) s h ≡ ok held
        → AllowsKey held
    key_cap-allowed held e =
        allowed.key_allowed h held (keystore_cap-ok (with_services W T S P) s h held e)

    file_cap-allowed :
        (held : HostFile) → file_cap (with_services W T S P) s h ≡ ok held → AllowsFile held
    file_cap-allowed held e =
        allowed.file_allowed h held (file_cap-ok (with_services W T S P) s h held e)

    pub sign-carry :
        (message : List ℕ)
        → sign (with_services W T S' P') h message (carry φ ψ s)
          ≡ carry_first (sign (with_services W T S P) h message s)
    unfolding sign keystore_cap
    sign-carry message = go_on-carry (keystore_cap (with_services W T S P) s h) s _ _ λ cap holds.
        go_on-carry (serves_keystore cap.service) s _ _ λ _ _.
          ask_keystore-carry (S.sign cap.badge cap.key message) (S'.sign cap.badge cap.key message)
            (λ k. keys.sign_carries cap message k (key_cap-allowed cap holds)) s

    pub encrypt-carry :
        (nonce aad body : List ℕ)
        → encrypt (with_services W T S' P') h nonce aad body (carry φ ψ s)
          ≡ carry_first (encrypt (with_services W T S P) h nonce aad body s)
    unfolding encrypt keystore_cap fixed_len
    encrypt-carry nonce aad body =
        go_on-carry (keystore_cap (with_services W T S P) s h) s _ _ λ cap holds.
          go_on-carry (serves_keystore cap.service) s _ _ λ _ _.
            go_on-carry (fixed_len W.nonce_len nonce) s _ _ λ nonce' fits.
              ask_keystore-carry (S.encrypt cap.badge cap.key nonce' aad body)
                (S'.encrypt cap.badge cap.key nonce' aad body)
                (λ k.
                  keys.encrypt_carries cap nonce' aad body k (key_cap-allowed cap holds)
                    (fixed_len-ok _ nonce nonce' fits))
                s

    pub decrypt-carry :
        (nonce aad body tag : List ℕ)
        → decrypt (with_services W T S' P') h nonce aad body tag (carry φ ψ s)
          ≡ carry_first (decrypt (with_services W T S P) h nonce aad body tag s)
    unfolding decrypt keystore_cap fixed_len
    decrypt-carry nonce aad body tag =
        go_on-carry (keystore_cap (with_services W T S P) s h) s _ _ λ cap holds.
          go_on-carry (serves_keystore cap.service) s _ _ λ _ _.
            go_on-carry (fixed_len W.nonce_len nonce) s _ _ λ nonce' fits.
              go_on-carry (fixed_len W.tag_len tag) s _ _ λ tag' tagged.
                ask_keystore-carry (S.decrypt cap.badge cap.key nonce' aad body tag')
                  (S'.decrypt cap.badge cap.key nonce' aad body tag')
                  (λ k.
                    keys.decrypt_carries cap nonce' aad body tag' k (key_cap-allowed cap holds)
                      (fixed_len-ok _ nonce nonce' fits) (fixed_len-ok _ tag tag' tagged))
                  s

    pub read-carry :
        read (with_services W T S' P') h (carry φ ψ s)
        ≡ carry_first (read (with_services W T S P) h s)
    unfolding read file_cap
    read-carry = go_on-carry (file_cap (with_services W T S P) s h) s _ _ λ cap holds.
        go_on-carry (serves_filesystem cap.service) s _ _ λ _ _.
          ask_filesystem-carry (P.read cap.badge cap.file (replicate W.max_block_len 0))
            (P'.read cap.badge cap.file (replicate W.max_block_len 0)) (read_answer W)
            (λ f. files.read_carries cap f (file_cap-allowed cap holds)) s

    pub write-carry :
        (bytes : List ℕ)
        → write (with_services W T S' P') h bytes (carry φ ψ s)
          ≡ carry_first (write (with_services W T S P) h bytes s)
    unfolding write file_cap
    write-carry bytes = go_on-carry (file_cap (with_services W T S P) s h) s _ _ λ cap holds.
        go_on-carry (serves_filesystem cap.service) s _ _ λ _ _.
          go_on-carry (guard_block (ltb W.max_block_len (length bytes))) s _ _ λ _ _.
            ask_filesystem-carry (P.write cap.badge cap.file bytes)
              (P'.write cap.badge cap.file bytes) (map_err (to_fs_error_code W))
              (λ f. files.write_carries cap bytes f (file_cap-allowed cap holds)) s

  module _ (s : RuntimeState Tab K F) (h : ℕ) where
    pub open_key-carry :
        open_key (with_services W T S' P') h (carry φ ψ s)
        ≡ carry_first (open_key (with_services W T S P) h s)
    unfolding open_key
    open_key-carry = ground arith

    pub open_file-carry :
        open_file (with_services W T S' P') h (carry φ ψ s)
        ≡ carry_first (open_file (with_services W T S P) h s)
    unfolding open_file
    open_file-carry = ground arith

    pub drop_key-carry :
        drop_key (with_services W T S' P') h (carry φ ψ s)
        ≡ carry_first (drop_key (with_services W T S P) h s)
    unfolding drop_key
    drop_key-carry = ground arith

    pub drop_file-carry :
        drop_file (with_services W T S' P') h (carry φ ψ s)
        ≡ carry_first (drop_file (with_services W T S P) h s)
    unfolding drop_file
    drop_file-carry = ground arith

-- ===== src/Host/Carries.antt =====
-- When two services of `src/host.rs` are alike but for how they keep their state, and runtimes over them.
use lantern_runtime.Base.{ℕ, ◌≡◌, Option, none, some, List, length, replicate}
use lantern_runtime.Base.Exec.{map_err}
use lantern_runtime.Host.Records.{HostCapability, HostFile}
use lantern_runtime.Host.Errors.{to_error_code, to_fs_error_code, Wire}
use lantern_runtime.Host.Services.{KeystoreService, FilesystemService, ResourceTable, Embedding}
use lantern_runtime.Host.State.{RuntimeState}
use lantern_runtime.Host.Files.{read_answer}

-- Each method of one service, under a record that `P` allows and with arguments of the right lengths, is
-- that of the other as a component sees it, on a state that `φ` carries over.
pub record KeystoreCarries {K K' : Type 0} (W : Wire) (P : HostCapability → Type 0) (φ : K → K')
    (S : KeystoreService K) (S' : KeystoreService K') : Type 0 where
  pub encrypt_carries :
      (held : HostCapability) (nonce aad body : List ℕ) (k : K)
      → P held
      → length nonce ≡ W.nonce_len
      → let r = S.encrypt held.badge held.key nonce aad body k in
        let r' = S'.encrypt held.badge held.key nonce aad body (φ k) in
        (r'.0 ≡ φ r.0) × (map_err (to_error_code W) r'.1 ≡ map_err (to_error_code W) r.1)
  pub decrypt_carries :
      (held : HostCapability) (nonce aad body tag : List ℕ) (k : K)
      → P held
      → length nonce ≡ W.nonce_len
      → length tag ≡ W.tag_len
      → let r = S.decrypt held.badge held.key nonce aad body tag k in
        let r' = S'.decrypt held.badge held.key nonce aad body tag (φ k) in
        (r'.0 ≡ φ r.0) × (map_err (to_error_code W) r'.1 ≡ map_err (to_error_code W) r.1)
  pub sign_carries :
      (held : HostCapability) (message : List ℕ) (k : K)
      → P held
      → let r = S.sign held.badge held.key message k in
        let r' = S'.sign held.badge held.key message (φ k) in
        (r'.0 ≡ φ r.0) × (map_err (to_error_code W) r'.1 ≡ map_err (to_error_code W) r.1)

pub record FilesystemCarries {F F' : Type 0} (W : Wire) (Q : HostFile → Type 0) (ψ : F → F')
    (S : FilesystemService F) (S' : FilesystemService F') : Type 0 where
  pub read_carries :
      (held : HostFile) (f : F)
      → Q held
      → let r = S.read held.badge held.file (replicate W.max_block_len 0) f in
        let r' = S'.read held.badge held.file (replicate W.max_block_len 0) (ψ f) in
        (r'.0 ≡ ψ r.0) × (read_answer W r'.1 ≡ read_answer W r.1)
  pub write_carries :
      (held : HostFile) (bytes : List ℕ) (f : F)
      → Q held
      → let r = S.write held.badge held.file bytes f in
        let r' = S'.write held.badge held.file bytes (ψ f) in
        (r'.0 ≡ ψ r.0) × (map_err (to_fs_error_code W) r'.1 ≡ map_err (to_fs_error_code W) r.1)

-- What is carried under some records is carried under fewer.
pub KeystoreCarries-fewer :
    {K K' : Type 0} (W : Wire) (P Q : HostCapability → Type 0) (φ : K → K') (S : KeystoreService K)
    (S' : KeystoreService K')
    → ((held : HostCapability) → Q held → P held)
    → KeystoreCarries W P φ S S'
    → KeystoreCarries W Q φ S S'
KeystoreCarries-fewer W P Q φ S S' fewer c = record {
  encrypt_carries =
      λ held nonce aad body k q n. c.encrypt_carries held nonce aad body k (fewer held q) n;
  decrypt_carries = λ held nonce aad body tag k q n t.
      c.decrypt_carries held nonce aad body tag k (fewer held q) n t;
  sign_carries = λ held message k q. c.sign_carries held message k (fewer held q);
}

pub FilesystemCarries-fewer :
    {F F' : Type 0} (W : Wire) (P Q : HostFile → Type 0) (ψ : F → F') (S : FilesystemService F)
    (S' : FilesystemService F')
    → ((held : HostFile) → Q held → P held)
    → FilesystemCarries W P ψ S S'
    → FilesystemCarries W Q ψ S S'
FilesystemCarries-fewer W P Q ψ S S' fewer c = record {
  read_carries = λ held f q. c.read_carries held f (fewer held q);
  write_carries = λ held bytes f q. c.write_carries held bytes f (fewer held q);
}

abbrev pub carried : {A B : Type 0} → (A → B) → Option A → Option B
carried f none = none
carried f (some a) = some (f a)

abbrev pub with_services :
    {Tab A B : Type 0}
    → Wire
    → ResourceTable Tab
    → KeystoreService A
    → FilesystemService B
    → Embedding Tab A B
with_services wire table keystore filesystem = record {
  wire = wire;
  table = table;
  keystore = keystore;
  filesystem = filesystem;
}

-- A state with the services' states carried over.
abbrev pub carry :
    {Tab K F K' F' : Type 0} → (K → K') → (F → F') → RuntimeState Tab K F → RuntimeState Tab K' F'
carry φ ψ s = record {
  table = s.table;
  keys = s.keys;
  files = s.files;
  keystore = carried φ s.keystore;
  filesystem = carried ψ s.filesystem;
  clock = s.clock;
}

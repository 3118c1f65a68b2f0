-- ===== src/Host/Services.antt =====
-- What the mapping of `src/host.rs` calls: the two service traits, and Wasmtime's resource table.
-- Each is a record of operations over a state of its own; the table's laws are what its
-- documentation says, and are assumed by the theorems that name them.
use lantern_runtime.Base.{ℕ, ◌≡◌, Option, none, some, List, ◌==◌, if◌then◌else◌}
use lantern_runtime.Base.Exec.{Call}
use lantern_runtime.Host.Records.{KeyId, FileId, HostCapability, HostFile}
use lantern_runtime.Host.Errors.{KeystoreError, StoreError, Wire}

-- `trait KeystoreService`. A call may change the service's state, behind `&self` too. The bytes
-- of `buffer` after a successful call are the first part of its value.
pub record KeystoreService (K : Type 0) : Type 0 where
  pub encrypt : ℕ → KeyId → List ℕ → List ℕ → List ℕ → Call K KeystoreError (List ℕ × List ℕ)
  pub decrypt : ℕ → KeyId → List ℕ → List ℕ → List ℕ → List ℕ → Call K KeystoreError (List ℕ)
  pub sign : ℕ → KeyId → List ℕ → Call K KeystoreError (List ℕ)

-- `trait FilesystemService`. `read` returns the buffer after the call and the count.
pub record FilesystemService (F : Type 0) : Type 0 where
  pub read : ℕ → FileId → List ℕ → Call F StoreError (List ℕ × ℕ)
  pub write : ℕ → FileId → List ℕ → Call F StoreError (Unit {0})

-- An entry of the table is one of the two host records.
pub data Entry : Type 0 where
  key_entry : HostCapability → Entry
  file_entry : HostFile → Entry

pub data Kind : Type 0 where
  key_kind file_kind : Kind

abbrev pub kind : Entry → Kind
kind (key_entry _) = Kind.key_kind
kind (file_entry _) = Kind.file_kind

-- `wasmtime::component::ResourceTable`: `none` stands for its errors. `delete` is given the type
-- of the handle.
pub record ResourceTable (Tab : Type 0) : Type 0 where
  pub new : Tab
  pub push : Tab → Entry → Option (ℕ × Tab)
  pub get : Tab → ℕ → Option Entry
  pub delete : Tab → Kind → ℕ → Option Tab

pub record IsLawful {Tab : Type 0} (R : ResourceTable Tab) : Type 0 where
  pub get-new : (h : ℕ) → R.get R.new h ≡ none
  pub get-push_self :
      (t : Tab) (e : Entry) (h : ℕ) (t' : Tab) → R.push t e ≡ some (h, t') → R.get t h ≡ none
  pub get-push :
      (t : Tab) (e : Entry) (h : ℕ) (t' : Tab) (j : ℕ)
      → R.push t e ≡ some (h, t')
      → R.get t' j ≡ (if j == h then some e else R.get t j)
  pub get-delete :
      (t : Tab) (k : Kind) (h : ℕ) (t' : Tab) (j : ℕ)
      → R.delete t k h ≡ some t'
      → R.get t' j ≡ (if j == h then none else R.get t j)
  pub delete_live :
      (t : Tab) (e : Entry) (h : ℕ)
      → R.get t h ≡ some e
      → (t' : Tab) × (R.delete t (kind e) h ≡ some t')

-- What a runtime is embedded in: constants, a table and the two services.
pub record Embedding (Tab K F : Type 0) : Type 0 where
  pub wire : Wire
  pub table : ResourceTable Tab
  pub keystore : KeystoreService K
  pub filesystem : FilesystemService F

-- ===== src/Host/Traffic.antt =====
-- What reaches the services: the calls that a runtime makes on them, one by one and in sequence.
use lantern_runtime.Base.{ℕ, ◌≡◌, ◌≤◌, Option, some, List, length, replicate}
use lantern_runtime.Host.Records.{ServiceEndpoint, HostCapability, HostFile}
use lantern_runtime.Host.Errors.{Wire}
use lantern_runtime.Host.Services.{KeystoreService, FilesystemService}

-- One call of the keystore under a capability that `Held` allows, with a nonce and a tag of the
-- right lengths.
pub data KeyCall {K : Type 0} (W : Wire) (S : KeystoreService K) (Held : HostCapability → Type 0)
    (k : K) : K → Type 0 where
  encrypts :
      (held : HostCapability) (nonce aad buffer : List ℕ)
      → Held held
      → held.service ≡ ServiceEndpoint.keystore
      → length nonce ≡ W.nonce_len
      → KeyCall W S Held k (S.encrypt held.badge held.key nonce aad buffer k).0
  decrypts :
      (held : HostCapability) (nonce aad buffer tag : List ℕ)
      → Held held
      → held.service ≡ ServiceEndpoint.keystore
      → length nonce ≡ W.nonce_len
      → length tag ≡ W.tag_len
      → KeyCall W S Held k (S.decrypt held.badge held.key nonce aad buffer tag k).0
  signs :
      (held : HostCapability) (message : List ℕ)
      → Held held
      → held.service ≡ ServiceEndpoint.keystore
      → KeyCall W S Held k (S.sign held.badge held.key message k).0

-- One call of the store: a read into one blank block, or a write of at most one block.
pub data FileCall {F : Type 0} (W : Wire) (S : FilesystemService F) (Held : HostFile → Type 0)
    (f : F) : F → Type 0 where
  reads :
      (held : HostFile)
      → Held held
      → held.service ≡ ServiceEndpoint.filesystem
      → FileCall W S Held f (S.read held.badge held.file (replicate W.max_block_len 0) f).0
  writes :
      (held : HostFile) (bytes : List ℕ)
      → Held held
      → held.service ≡ ServiceEndpoint.filesystem
      → length bytes ≤ W.max_block_len
      → FileCall W S Held f (S.write held.badge held.file bytes f).0

-- Any number of such calls, from what was attached to what is there now.
pub data Traffic {S : Type 0} (Once : S → S → Type 0) (start : Option S) : Option S → Type 0 where
  here : Traffic Once start start
  next : {s t : S} → Traffic Once start (some s) → Once s t → Traffic Once start (some t)

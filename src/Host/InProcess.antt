-- ===== src/Host/InProcess.antt =====
-- `InProcessFilesystem` of `src/host.rs`: a store in the same process, with the keystore that its blocks
-- are encrypted by. The store and the cipher are those of `lantern_filesystem`.
use lantern_runtime.Base.{ℕ, ◌≡◌, ◌≤◌, sym, subst, some, List, length, take, replicate}
use lantern_runtime.Base.Exec.{Exec, ok, Call}
use lantern_runtime.Host.Records.{HostFile, KeyId, FileId, ServiceEndpoint}
use lantern_runtime.Host.Errors.{KeystoreError, StoreError, Wire}
use lantern_runtime.Host.Services.{KeystoreService, FilesystemService, Embedding}
use lantern_runtime.Host.State.{RuntimeState}
use lantern_runtime.Host.Files.{read, write}
use lantern_runtime.Host.Effects.{HoldsFile}
use lantern_runtime.Host.Blocks.{GivesBack, read-write_same}

-- `lantern_filesystem::InProcessCipher`: a keystore, with the badge and the key to use there.
pub record Cipher (Ks : Type 0) : Type 0 where
  pub keystore : Ks
  pub badge : ℕ
  pub key : ℕ

-- `lantern_filesystem::Store`
pub record Stores (St Ks : Type 0) : Type 0 where
  pub read : Cipher Ks → ℕ → FileId → List ℕ → St → Exec StoreError (List ℕ × ℕ)
  pub write : Cipher Ks → ℕ → FileId → List ℕ → St → St × Exec StoreError (Unit {0})

-- A store reads back under a cipher what it accepted under it, for a badge that may read the file.
pub record Decrypts {St Ks : Type 0} (W : Wire) (O : Stores St Ks) (MayRead : ℕ → ℕ → Type 0)
    : Type 0 where
  pub read-write :
      (c : Cipher Ks) (badge file : ℕ) (bytes : List ℕ) (st : St)
      → MayRead badge file
      → length bytes ≤ W.max_block_len
      → (O.write c badge file bytes st).1 ≡ ok tt
      → (after : List ℕ) × (O.read c badge file
            (replicate W.max_block_len 0)
            (O.write c badge file bytes st).0
          ≡ ok (after, length bytes))
        × (take (length bytes) after ≡ bytes)

pub record InProcessFilesystem (St Ks : Type 0) : Type 0 where
  pub store : St
  pub keystore : Ks
  pub aead_badge : ℕ
  pub aead_key : ℕ

module _ {St Ks : Type 0} (O : Stores St Ks) where
  abbrev pub cipher : InProcessFilesystem St Ks → Cipher Ks
  cipher f = record { keystore = f.keystore; badge = f.aead_badge; key = f.aead_key }

  unfoldable pub in_process_filesystem : FilesystemService (InProcessFilesystem St Ks)
  in_process_filesystem = record {
    read = λ badge file buffer f. (f, O.read (cipher f) badge file buffer f.store);
    write = λ badge file bytes f.
        let r = O.write (cipher f) badge file bytes f.store in (record f { store = r.0 }, r.1);
  }

  in_process_filesystem-GivesBack :
      (W : Wire) (MayRead : ℕ → ℕ → Type 0)
      → Decrypts W O MayRead
      → GivesBack W in_process_filesystem MayRead
  unfolding in_process_filesystem
  in_process_filesystem-GivesBack W MayRead back = record {
    read-write = λ badge file bytes f may fits done.
        back.read-write (cipher f) badge file bytes f.store may fits done;
  }

  -- Over the in-process store, of which the blocks read back under the cipher they were written under to
  -- badges that may read, a component that wrote a block through a handle whose badge may read, and got
  -- `ok`, reads that block through the same handle.
  pub in_process_reads_back :
      {Tab K : Type 0} (H : Embedding Tab K (InProcessFilesystem St Ks))
      (s : RuntimeState Tab K (InProcessFilesystem St Ks)) (h : ℕ) (held : HostFile)
      (f : InProcessFilesystem St Ks) (MayRead : ℕ → ℕ → Type 0)
      → H.filesystem ≡ in_process_filesystem
      → Decrypts H.wire O MayRead
      → MayRead held.badge held.file
      → HoldsFile H s h held
      → held.service ≡ ServiceEndpoint.filesystem
      → s.filesystem ≡ some f
      → (bytes : List ℕ) → (write H h bytes s).1 ≡ ok tt
      → (read H h (write H h bytes s).0).1 ≡ ok bytes
  in_process_reads_back H s h held f MayRead same back may holds serves attached bytes done =
      read-write_same H s h held f MayRead
        (subst (λ (S : FilesystemService (InProcessFilesystem St Ks)). GivesBack H.wire S MayRead)
          (sym same) (in_process_filesystem-GivesBack H.wire MayRead back))
        may holds serves attached bytes done

-- `lantern_crypto::Keystore`; a signature is an array.
pub record CryptoKeystore (Ks : Type 0) : Type 0 where
  pub encrypt : ℕ → KeyId → List ℕ → List ℕ → List ℕ → Call Ks KeystoreError (List ℕ × List ℕ)
  pub decrypt : ℕ → KeyId → List ℕ → List ℕ → List ℕ → List ℕ → Call Ks KeystoreError (List ℕ)
  pub sign : ℕ → KeyId → List ℕ → Call Ks KeystoreError (List ℕ)

-- `s.to_vec()`
abbrev to_vec : Exec KeystoreError (List ℕ) → Exec KeystoreError (List ℕ)
to_vec r = r

unfoldable pub in_process_keystore : {Ks : Type 0} → CryptoKeystore Ks → KeystoreService Ks
in_process_keystore C = record {
  encrypt = λ badge key nonce aad buffer. C.encrypt badge key nonce aad buffer;
  decrypt = λ badge key nonce aad buffer tag. C.decrypt badge key nonce aad buffer tag;
  sign = λ badge key message k. let r = C.sign badge key message k in (r.0, to_vec r.1);
}

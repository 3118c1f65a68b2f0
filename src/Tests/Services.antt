-- ===== src/Tests/Services.antt =====
-- A keystore that allows one badge, a store of one block, and an embedding of both.
use lantern_runtime.Base.{
  ℕ, suc, ◌+◌, ◌-◌, ◌≡◌, ◌≤◌, refl, ap, Option, none, some, List, [], ◌∷◌, map, length, take,
  replicate, arith, ◌==◌, if◌then◌else◌,
}
use lantern_runtime.Base.Exec.{Exec, ok, err}
use lantern_runtime.Host.Records.{GrantManifest, keystore_key, filesystem_file}
use lantern_runtime.Host.Errors.{KeystoreError, StoreError, Wire}
use lantern_runtime.Host.Services.{KeystoreService, FilesystemService, Embedding}
use lantern_runtime.Host.Blocks.{KeepsLength, GivesBack}
use lantern_runtime.Tests.Table.{Places, places}

abbrev pub wire : Wire
wire = record {
  nonce_len = 2;
  tag_len = 1;
  signature_len = 3;
  max_block_len = 8;
  op_encrypt = 1;
  op_decrypt = 2;
  op_sign = 3;
  op_read = 4;
  op_write = 5;
  crypto_ok = 0;
  crypto_access = 1;
  store_ok = 0;
  store_access = 1;
}

abbrev allowed : {A : Type 0} → ℕ → A → Exec KeystoreError A
allowed badge a = if badge == 171 then ok a else err KeystoreError.unknown_badge

-- Badge 172 may encrypt and nothing else.
abbrev sealable : {A : Type 0} → ℕ → A → Exec KeystoreError A
sealable badge a = if badge == 172 then ok a else allowed badge a

-- The state counts the calls.
abbrev pub keystore : KeystoreService ℕ
keystore = record {
  encrypt = λ badge key nonce aad body calls. (suc calls, sealable badge (map suc body, 7 ∷ []));
  decrypt =
      λ badge key nonce aad body tag calls. (suc calls, allowed badge (map (λ x. x - 1) body));
  sign = λ badge key message calls. (suc calls, allowed badge (length message ∷ 5 ∷ 5 ∷ []));
}

-- The bytes laid over the front of a buffer.
unfoldable pub fill : List ℕ → List ℕ → List ℕ
fill [] buffer = buffer
fill (x ∷ bytes) [] = []
fill (x ∷ bytes) (_ ∷ buffer) = x ∷ fill bytes buffer

abbrev pub read_block : List ℕ → Option (List ℕ) → Exec StoreError (List ℕ × ℕ)
read_block buffer none = err StoreError.file_empty
read_block buffer (some bytes) = ok (fill bytes buffer, length bytes)

-- Every badge may write, and badge 9 may read.
abbrev pub filesystem : FilesystemService (Option (List ℕ))
filesystem = record {
  read = λ badge file buffer block.
      (block, if badge == 9 then read_block buffer block else err StoreError.op_not_granted);
  write = λ badge file bytes block. (some bytes, ok tt);
}

pub length-fill : (bytes buffer : List ℕ) → length (fill bytes buffer) ≡ length buffer
unfolding fill
length-fill [] buffer = refl
length-fill (x ∷ bytes) [] = refl
length-fill (x ∷ bytes) (_ ∷ buffer) = ap suc (length-fill bytes buffer)

pub take-fill :
    (bytes buffer : List ℕ)
    → length bytes ≤ length buffer
    → take (length bytes) (fill bytes buffer) ≡ bytes
unfolding fill
take-fill [] buffer h = refl
take-fill (x ∷ bytes) [] h = absurd (omega arith)
take-fill (x ∷ bytes) (_ ∷ buffer) h =
    ap (λ (t : List ℕ). x ∷ t) (take-fill bytes buffer (omega arith))

read_block-length :
    (buffer after : List ℕ) (n : ℕ) (block : Option (List ℕ))
    → read_block buffer block ≡ ok (after, n)
    → length after ≡ length buffer
read_block-length buffer after n none e = cc
read_block-length buffer after n (some bytes) e = ground (arith, length-fill bytes buffer)

pub filesystem-KeepsLength : KeepsLength filesystem
filesystem-KeepsLength badge file buffer after n block e =
    read_block-length buffer after n block (ground arith)

-- The badges that may read.
abbrev pub MayRead : ℕ → ℕ → Type 0
MayRead badge file = badge ≡ 9

pub filesystem-GivesBack : GivesBack wire filesystem MayRead
filesystem-GivesBack = record {
  read-write = λ badge file bytes f may fits done.
      rw may (fill bytes (replicate 8 0), refl, take-fill bytes (replicate 8 0) fits);
}

abbrev pub embedding : Embedding Places ℕ (Option (List ℕ))
embedding = record { wire = wire; table = places; keystore = keystore; filesystem = filesystem }

-- One key, one declined slot, one file, a clock of 10 ns.
abbrev pub manifest : GrantManifest
manifest = record {
  keystore_keys = some (keystore_key 171 4) ∷ none ∷ [];
  filesystem_files = some (filesystem_file 9 6) ∷ [];
  monotonic_clock = some (record { now_ns = λ moment. moment + 100; resolution_ns = 10 });
}

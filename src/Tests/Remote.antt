-- ===== src/Tests/Remote.antt =====
-- A channel with the concrete keystore or store at its far end.
use lantern_runtime.Base.{
  ℕ, suc, ap, true, ◌-◌, ◌≡◌, ◌≤◌, ◌+◌, refl, Option, none, some, List, [], ◌∷◌, ◌++◌, length, take,
  drop, take_all, length-take, drop-length-append, arith, leb, ◌==◌, if◌then◌else◌, Bool-cases, inl,
  inr, sym, ◌∙◌, map,
}
use lantern_runtime.Base.Exec.{Exec, ok, err, panic}
use lantern_runtime.Host.Errors.{
  ChannelError, KeystoreError, ErrorCode, to_error_code, to_fs_error_code,
}
use lantern_runtime.Host.Files.{read_answer}
use lantern_runtime.Ipc.Channel.{Channel, Codec}
use lantern_runtime.Ipc.Laws.{FitsExactly, StaysInBuffer}
use lantern_runtime.Ipc.Carrying.{Carries}
use lantern_runtime.Ipc.Refinement.{ServesKeys, SaysSealed, SaysOpened, SaysSigned}
use lantern_runtime.Ipc.FileRefinement.{ServesFiles}
use lantern_runtime.Tests.Services.{wire, keystore, filesystem, fill, length-fill, take-fill}

-- A length in front of its bytes.
abbrev section : List ℕ → List ℕ → List ℕ
section bytes rest = length bytes ∷ (bytes ++ rest)

abbrev skip : List ℕ → List ℕ
skip [] = []
skip (n ∷ rest) = drop n rest

abbrev sealed_of : List ℕ → Option (List ℕ × List ℕ)
sealed_of [] = none
sealed_of (tag ∷ bytes) = some (tag ∷ [], bytes)

abbrev pub codec : Codec
codec = record {
  encode_encrypt_request =
      λ nonce aad body blank. let m = section nonce (section aad body) in some (m, length m);
  encode_decrypt_request = λ nonce aad tag body blank.
      let m = section nonce (section aad (section tag body)) in some (m, length m);
  encode_sign_request = λ message. message;
  decode_encrypt_reply = sealed_of;
  decode_decrypt_reply = λ bytes. bytes;
  decode_sign_reply = λ bytes. bytes;
}

-- What is laid into the reply buffer, as far as it goes.
abbrev reply_with : ℕ → List ℕ → List ℕ → Exec ChannelError (List ℕ × ℕ × ℕ)
reply_with status bytes reply = ok (
  fill bytes reply,
  status,
  if leb (length bytes) (length reply) then length bytes else length reply,
)

abbrev denied : List ℕ → Exec ChannelError (List ℕ × ℕ × ℕ)
denied reply = reply_with 1 [] reply

abbrev answer_sealed :
    Exec KeystoreError (List ℕ × List ℕ) → List ℕ → Exec ChannelError (List ℕ × ℕ × ℕ)
answer_sealed (ok (body, tag)) reply = reply_with 0 (tag ++ body) reply
answer_sealed _ reply = denied reply

abbrev answer_bytes : Exec KeystoreError (List ℕ) → List ℕ → Exec ChannelError (List ℕ × ℕ × ℕ)
answer_bytes (ok body) reply = reply_with 0 body reply
answer_bytes _ reply = denied reply

-- The keystore's reply under the badge of the endpoint.
abbrev dispatch : ℕ → ℕ → List ℕ → List ℕ → ℕ → Exec ChannelError (List ℕ × ℕ × ℕ)
dispatch badge op request reply calls =
    if op == 1
    then answer_sealed (keystore.encrypt badge 4 [] [] (skip (skip request)) calls).1 reply
    else if op == 2
    then answer_bytes (keystore.decrypt badge 4 [] [] (skip (skip (skip request))) [] calls).1 reply
    else answer_bytes (keystore.sign badge 4 request calls).1 reply

abbrev pub remote_keystore : ℕ → Channel ℕ
remote_keystore badge = record {
  call = λ op request reply calls. (1 + calls, dispatch badge op request reply calls);
}

pub codec-FitsExactly : FitsExactly wire codec
codec-FitsExactly = record {
  encrypt_fits = λ nonce aad body n. (section nonce (section aad body), _, refl, omega arith);
  decrypt_fits = λ nonce aad body tag n t.
      (section nonce (section aad (section tag body)), _, refl, omega arith);
}

IsReply : List ℕ → Exec ChannelError (List ℕ × ℕ × ℕ) → Type 0
IsReply reply r = (status : ℕ) × (bytes : List ℕ) × (r ≡ reply_with status bytes reply)

answer_sealed-IsReply :
    (r : Exec KeystoreError (List ℕ × List ℕ)) (reply : List ℕ)
    → IsReply reply (answer_sealed r reply)
unfolding IsReply
answer_sealed-IsReply (ok (body, tag)) reply = (0, tag ++ body, refl)
answer_sealed-IsReply (err _) reply = (1, [], refl)
answer_sealed-IsReply panic reply = (1, [], refl)

answer_bytes-IsReply :
    (r : Exec KeystoreError (List ℕ)) (reply : List ℕ) → IsReply reply (answer_bytes r reply)
unfolding IsReply
answer_bytes-IsReply (ok body) reply = (0, body, refl)
answer_bytes-IsReply (err _) reply = (1, [], refl)
answer_bytes-IsReply panic reply = (1, [], refl)

dispatch-IsReply :
    (badge op : ℕ) (request reply : List ℕ) (calls : ℕ)
    → IsReply reply (dispatch badge op request reply calls)
dispatch-IsReply badge op request reply calls = elim (Bool-cases (op == 1)) [
  | inl one ↦ rw one (answer_sealed-IsReply _ reply)
  | inr other ↦ rw other (elim (Bool-cases (op == 2)) [
    | inl two ↦ rw two (answer_bytes-IsReply _ reply)
    | inr three ↦ rw three (answer_bytes-IsReply _ reply)
  ])
]

reply_with-bounds :
    (status status' len : ℕ) (bytes reply after : List ℕ)
    → reply_with status bytes reply ≡ ok (after, status', len)
    → (length after ≡ length reply) × (len ≤ length reply)
reply_with-bounds status status' len bytes reply after e = ground (arith, length-fill bytes reply)

pub remote_keystore-StaysInBuffer : (badge : ℕ) → StaysInBuffer (remote_keystore badge)
unfolding IsReply
remote_keystore-StaysInBuffer badge = record {
  ends = λ op request reply c e.
      let (status, bytes, form) = dispatch-IsReply badge op request reply c in cc;
  replied = λ op request reply after status len c e.
      let (status', bytes, form) = dispatch-IsReply badge op request reply c in
      reply_with-bounds status' status len bytes reply after (sym form ∙ e);
}

-- A reply that fits its buffer carries what its bytes say.
reply_with-Carries :
    {E A : Type 0} (code : E → ErrorCode) (Reads : List ℕ → A → Type 0) (a : A)
    (bytes reply : List ℕ)
    → length bytes ≤ length reply
    → Reads bytes a
    → Carries 0 1 code Reads (ok a) (reply_with 0 bytes reply)
reply_with-Carries code Reads a bytes reply h reads =
    let fitting : leb (length bytes) (length reply) ≡ true = ground arith in
    rw fitting (refl, omega (arith, length-fill bytes reply), rw (take-fill bytes reply h) reads)

take-length : (xs : List ℕ) → take (length xs) xs ≡ xs
take-length xs = take_all (length xs) xs (omega arith)

length-map_suc : (xs : List ℕ) → length (map suc xs) ≡ length xs
length-map_suc [] = refl
length-map_suc (x ∷ xs) = ap suc (length-map_suc xs)

length-map_pred : (xs : List ℕ) → length (map (λ x. x - 1) xs) ≡ length xs
length-map_pred [] = refl
length-map_pred (x ∷ xs) = ap suc (length-map_pred xs)

pub remote_keystore-ServesKeys :
    ServesKeys wire codec (remote_keystore 171) keystore (λ calls. calls) 171 4
remote_keystore-ServesKeys = record {
  encrypts = λ nonce aad buffer blank out reply len c e room.
      let sent : take len out ≡ section nonce (section aad buffer) =
        ground (arith, take-length (section nonce (section aad buffer))) in
      rw (sent, drop-length-append nonce, drop-length-append aad)
        (
          omega arith,
          reply_with-Carries (to_error_code wire) (SaysSealed codec (length buffer))
              (map suc buffer, 7 ∷ []) (7 ∷ map suc buffer) reply
              (omega (arith, length-map_suc buffer)) (refl, length-map_suc buffer),
        );
  decrypts = λ nonce aad buffer tag blank out reply len c e room.
      let sent : take len out ≡ section nonce (section aad (section tag buffer)) =
        ground (arith, take-length (section nonce (section aad (section tag buffer)))) in
      rw (sent, drop-length-append nonce, drop-length-append aad, drop-length-append tag)
        (
          omega arith,
          reply_with-Carries (to_error_code wire) (SaysOpened codec (length buffer))
              (map (λ x. x - 1) buffer) (map (λ x. x - 1) buffer) reply
              (omega (arith, length-map_pred buffer)) (refl, length-map_pred buffer),
        );
  signs = λ message reply c room. (
    omega arith,
    reply_with-Carries (to_error_code wire) (SaysSigned codec) (length message ∷ 5 ∷ 5 ∷ [])
        (length message ∷ 5 ∷ 5 ∷ []) reply (omega arith) refl,
  );
}

-- The store of one block behind a channel.
abbrev answer_block : Exec ErrorCode (List ℕ) → List ℕ → Exec ChannelError (List ℕ × ℕ × ℕ)
answer_block (ok bytes) reply = reply_with 0 bytes reply
answer_block _ reply = denied reply

abbrev pub remote_store : Channel (Option (List ℕ))
remote_store = record {
  call = λ op request reply block.
      if op == 4
      then (block, answer_block (read_answer wire (filesystem.read 9 6 reply block).1) reply)
      else (some request, reply_with 0 [] reply);
}

read_block-fits :
    (block : Option (List ℕ)) (reply bytes : List ℕ)
    → read_answer wire (filesystem.read 9 6 reply block).1 ≡ ok bytes
    → length bytes ≤ length reply
unfolding read_answer
read_block-fits none reply bytes e = ground arith
read_block-fits (some b) reply bytes e =
    ground (arith, length-take (length b) (fill b reply), length-fill b reply)

answer_block-Carries :
    (block : Option (List ℕ)) (reply : List ℕ) (r : Exec ErrorCode (List ℕ))
    → r ≡ read_answer wire (filesystem.read 9 6 reply block).1
    → Carries 0 1 (λ code. code) (λ bytes b. bytes ≡ b) r (answer_block r reply)
unfolding read_answer
answer_block-Carries block reply (ok bytes) e =
    reply_with-Carries (λ code. code) (λ bytes b. bytes ≡ b) bytes bytes reply
      (read_block-fits block reply bytes (sym e)) refl
answer_block-Carries none reply (err c) e = cc
answer_block-Carries (some b) reply (err c) e = cc
answer_block-Carries none reply panic e = cc
answer_block-Carries (some b) reply panic e = cc

pub remote_store-ServesFiles : ServesFiles wire remote_store filesystem (λ block. block) 9 6
remote_store-ServesFiles = record {
  reads = λ buffer block. (refl, answer_block-Carries block buffer _ refl);
  writes = λ bytes block. (
    refl,
    reply_with-Carries (to_fs_error_code wire) (λ _ _. Unit {0}) tt [] [] (omega arith) tt,
  );
}

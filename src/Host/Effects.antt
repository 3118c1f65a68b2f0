-- ===== src/Host/Effects.antt =====
-- What each call on the interfaces does to the runtime's state, on every branch.
use lantern_runtime.Base.{
  ℕ, ◌≡◌, ◌≤◌, ◌⊎◌, inl, inr, none, some, List, length, replicate, arith, Option-cases,
}
use lantern_runtime.Host.Records.{ServiceEndpoint, HostCapability, HostFile}
use lantern_runtime.Host.Services.{key_entry, file_entry, Kind, Embedding}
use lantern_runtime.Host.State.{RuntimeState, granted}
use lantern_runtime.Host.Keys.{encrypt, decrypt, sign, drop_key, open_key}
use lantern_runtime.Host.Files.{read, write, drop_file, open_file}
use lantern_runtime.Host.Traffic.{KeyCall, FileCall}

module _ {Tab K F : Type 0} (H : Embedding Tab K F) where
  abbrev pub HoldsKey : RuntimeState Tab K F → ℕ → HostCapability → Type 0
  HoldsKey s h held = H.table.get s.table h ≡ some (key_entry held)

  abbrev pub HoldsFile : RuntimeState Tab K F → ℕ → HostFile → Type 0
  HoldsFile s h held = H.table.get s.table h ≡ some (file_entry held)

  -- The state stays as it is, or the keystore serves one call for the record behind `h`.
  abbrev pub KeyEffect : RuntimeState Tab K F → ℕ → RuntimeState Tab K F → Type 0
  KeyEffect s h s' =
      (s' ≡ s)
      ⊎ ((k k' : K) × (s.keystore ≡ some k)
          × KeyCall H.wire H.keystore (HoldsKey s h) k k'
          × (s' ≡ record s { keystore = some k' }))

  abbrev pub FileEffect : RuntimeState Tab K F → ℕ → RuntimeState Tab K F → Type 0
  FileEffect s h s' =
      (s' ≡ s)
      ⊎ ((f f' : F) × (s.filesystem ≡ some f)
          × FileCall H.wire H.filesystem (HoldsFile s h) f f'
          × (s' ≡ record s { filesystem = some f' }))

  encrypt-parts :
      (h : ℕ) (nonce aad plaintext : List ℕ) (s : RuntimeState Tab K F)
      → ((encrypt H h nonce aad plaintext s).0 ≡ s)
        ⊎ ((held : HostCapability) × (k : K) × HoldsKey s h held
            × (held.service ≡ ServiceEndpoint.keystore)
            × (s.keystore ≡ some k)
            × (length nonce ≡ H.wire.nonce_len)
            × ((encrypt H h nonce aad plaintext s).0 ≡ record s {
              keystore = some (H.keystore.encrypt held.badge held.key nonce aad plaintext k).0;
            }))
  unfolding encrypt
  encrypt-parts h nonce aad plaintext s = ground arith

  pub encrypt-KeyEffect :
      (h : ℕ) (nonce aad plaintext : List ℕ) (s : RuntimeState Tab K F)
      → KeyEffect s h (encrypt H h nonce aad plaintext s).0
  encrypt-KeyEffect h nonce aad plaintext s = elim (encrypt-parts h nonce aad plaintext s) [
    | inl e ↦ inl e
    | inr (held, k, holds, served, attached, fits, e) ↦
        inr (k, _, attached, KeyCall.encrypts held nonce aad plaintext holds served fits, e)
  ]

  decrypt-parts :
      (h : ℕ) (nonce aad ciphertext tag : List ℕ) (s : RuntimeState Tab K F)
      → ((decrypt H h nonce aad ciphertext tag s).0 ≡ s)
        ⊎ ((held : HostCapability) × (k : K) × HoldsKey s h held
            × (held.service ≡ ServiceEndpoint.keystore)
            × (s.keystore ≡ some k)
            × (length nonce ≡ H.wire.nonce_len)
            × (length tag ≡ H.wire.tag_len)
            × ((decrypt H h nonce aad ciphertext tag s).0 ≡ record s {
              keystore = some (H.keystore.decrypt held.badge held.key nonce aad ciphertext tag k).0;
            }))
  unfolding decrypt
  decrypt-parts h nonce aad ciphertext tag s = ground arith

  pub decrypt-KeyEffect :
      (h : ℕ) (nonce aad ciphertext tag : List ℕ) (s : RuntimeState Tab K F)
      → KeyEffect s h (decrypt H h nonce aad ciphertext tag s).0
  decrypt-KeyEffect h nonce aad ciphertext tag s =
      elim (decrypt-parts h nonce aad ciphertext tag s) [
        | inl e ↦ inl e
        | inr (held, k, holds, served, attached, fits, tagged, e) ↦ inr (
          k,
          _,
          attached,
          KeyCall.decrypts held nonce aad ciphertext tag holds served fits tagged,
          e,
        )
      ]

  sign-parts :
      (h : ℕ) (message : List ℕ) (s : RuntimeState Tab K F)
      → ((sign H h message s).0 ≡ s)
        ⊎ ((held : HostCapability) × (k : K) × HoldsKey s h held
            × (held.service ≡ ServiceEndpoint.keystore)
            × (s.keystore ≡ some k)
            × ((sign H h message s).0
                ≡ record s { keystore = some (H.keystore.sign held.badge held.key message k).0 }))
  unfolding sign
  sign-parts h message s = ground arith

  pub sign-KeyEffect :
      (h : ℕ) (message : List ℕ) (s : RuntimeState Tab K F) → KeyEffect s h (sign H h message s).0
  sign-KeyEffect h message s = elim (sign-parts h message s) [
    | inl e ↦ inl e
    | inr (held, k, holds, served, attached, e) ↦
        inr (k, _, attached, KeyCall.signs held message holds served, e)
  ]

  read-parts :
      (h : ℕ) (s : RuntimeState Tab K F)
      → ((read H h s).0 ≡ s)
        ⊎ ((held : HostFile) × (f : F) × HoldsFile s h held
            × (held.service ≡ ServiceEndpoint.filesystem)
            × (s.filesystem ≡ some f)
            × ((read H h s).0 ≡ record s {
              filesystem =
                  some
                    (H.filesystem.read held.badge held.file (replicate H.wire.max_block_len 0) f).0;
            }))
  unfolding read
  read-parts h s = ground arith

  pub read-FileEffect : (h : ℕ) (s : RuntimeState Tab K F) → FileEffect s h (read H h s).0
  read-FileEffect h s = elim (read-parts h s) [
    | inl e ↦ inl e
    | inr (held, f, holds, served, attached, e) ↦
        inr (f, _, attached, FileCall.reads held holds served, e)
  ]

  write-parts :
      (h : ℕ) (bytes : List ℕ) (s : RuntimeState Tab K F)
      → ((write H h bytes s).0 ≡ s)
        ⊎ ((held : HostFile) × (f : F) × HoldsFile s h held
            × (held.service ≡ ServiceEndpoint.filesystem)
            × (s.filesystem ≡ some f)
            × (length bytes ≤ H.wire.max_block_len)
            × ((write H h bytes s).0 ≡ record s {
              filesystem = some (H.filesystem.write held.badge held.file bytes f).0;
            }))
  unfolding write
  write-parts h bytes s = ground arith

  pub write-FileEffect :
      (h : ℕ) (bytes : List ℕ) (s : RuntimeState Tab K F) → FileEffect s h (write H h bytes s).0
  write-FileEffect h bytes s = elim (write-parts h bytes s) [
    | inl e ↦ inl e
    | inr (held, f, holds, served, attached, fits, e) ↦
        inr (f, _, attached, FileCall.writes held bytes holds served fits, e)
  ]

  -- An `open` adds the granted record under one handle, or changes nothing.
  pub open_key-parts :
      (slot : ℕ) (s : RuntimeState Tab K F)
      → (open_key H slot s ≡ (s, none))
        ⊎ ((held : HostCapability) × (h : ℕ) × (t : Tab) × (granted s.keys slot ≡ some held)
            × (H.table.push s.table (key_entry held) ≡ some (h, t))
            × (open_key H slot s ≡ (record s { table = t }, some h)))
  unfolding open_key
  open_key-parts slot s = elim (Option-cases (granted s.keys slot)) [
    | inl unbound ↦ inl (ground arith)
    | inr (held, bound) ↦ elim (Option-cases (H.table.push s.table (key_entry held))) [
      | inl full ↦ inl (ground arith)
      | inr ((h, t), room) ↦ inr (held, h, t, bound, room, ground arith)
    ]
  ]

  pub open_file-parts :
      (slot : ℕ) (s : RuntimeState Tab K F)
      → (open_file H slot s ≡ (s, none))
        ⊎ ((held : HostFile) × (h : ℕ) × (t : Tab) × (granted s.files slot ≡ some held)
            × (H.table.push s.table (file_entry held) ≡ some (h, t))
            × (open_file H slot s ≡ (record s { table = t }, some h)))
  unfolding open_file
  open_file-parts slot s = elim (Option-cases (granted s.files slot)) [
    | inl unbound ↦ inl (ground arith)
    | inr (held, bound) ↦ elim (Option-cases (H.table.push s.table (file_entry held))) [
      | inl full ↦ inl (ground arith)
      | inr ((h, t), room) ↦ inr (held, h, t, bound, room, ground arith)
    ]
  ]

  pub drop_key-parts :
      (h : ℕ) (s : RuntimeState Tab K F)
      → ((drop_key H h s).0 ≡ s)
        ⊎ ((t : Tab) × (H.table.delete s.table Kind.key_kind h ≡ some t)
            × ((drop_key H h s).0 ≡ record s { table = t }))
  unfolding drop_key
  drop_key-parts h s = ground arith

  pub drop_file-parts :
      (h : ℕ) (s : RuntimeState Tab K F)
      → ((drop_file H h s).0 ≡ s)
        ⊎ ((t : Tab) × (H.table.delete s.table Kind.file_kind h ≡ some t)
            × ((drop_file H h s).0 ≡ record s { table = t }))
  unfolding drop_file
  drop_file-parts h s = ground arith

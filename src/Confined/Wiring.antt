-- ===== src/Confined/Wiring.antt =====
-- What the guest of a confined program can reach (`confined-runtime/src/main.rs`, `slots` and the two
-- wirings).
use lantern_runtime.Base.{
  ℕ, zero, suc, ◌^◌, ◌≡◌, refl, inl, inr, Option, none, some, Bool, true, false, ◌&&◌, List, [],
  ◌∷◌, length, get_elem?, arith, ltb, ◌==◌, if◌then◌else◌, Bool-cases,
}
use lantern_runtime.Host.Records.{keystore_key, filesystem_file}
use lantern_runtime.Host.State.{granted}
use lantern_runtime.Host.Linker.{Interface, same}
use lantern_runtime.Host.Linking.{declares}
use lantern_runtime.Confined.Text.{Text}
use lantern_runtime.Confined.Program.{slots, slots_from, keystore_grants, filesystem_grants}

later_closed :
    {T : Type 0} (start n : ℕ) (given : Bool) (x : T) (i : ℕ)
    → elim (get_elem? (slots_from (suc start) n given x) i) as (λ _. Option T) [
      | none ↦ none
      | some grant ↦ grant
    ]
      ≡ none
later_closed start zero given x i = refl
later_closed start (suc n) true x zero = ground arith
later_closed start (suc n) false x zero = refl
later_closed start (suc n) given x (suc i) = later_closed (suc start) n given x i

slots-granted :
    {T : Type 0} (n : ℕ) (given : Bool) (x : T) (slot : ℕ)
    → granted (slots (suc n) given x) slot ≡ (if given && slot == 0 then some x else none)
unfolding granted slots
slots-granted n true x zero = refl
slots-granted n false x zero = refl
slots-granted n given x (suc slot) = elim (Bool-cases (ltb (suc slot) (2 ^ 64))) [
  | inl small ↦ ground (arith, later_closed 0 n given x slot, small)
  | inr large ↦ ground (arith, large)
]

granted-none : {T : Type 0} (slot : ℕ) → granted {A = T} [] slot ≡ none
unfolding granted
granted-none slot = ground arith

keystore_declared :
    (request : Text) (requests : List Text) (given : Bool) (i : Interface)
    → (declares (keystore_grants (request ∷ requests) given) i ≡ same Interface.keystore i)
      × (declares (filesystem_grants (request ∷ requests) given) i ≡ same Interface.filesystem i)
unfolding keystore_grants filesystem_grants slots
keystore_declared request requests given Interface.monotonic_clock = (refl, refl)
keystore_declared request requests given Interface.keystore = (refl, refl)
keystore_declared request requests given Interface.filesystem = (refl, refl)

-- A manifest for requests of keys declares the keystore and nothing else, and its one slot that can
-- hold a grant is the first, which holds one exactly if the binder granted it; and so for files.
pub grants-first_slot :
    (request : Text) (requests : List Text) (given : Bool) (slot : ℕ) (i : Interface)
    → let keys = keystore_grants (request ∷ requests) given in
      let files = filesystem_grants (request ∷ requests) given in
      (declares keys i ≡ same Interface.keystore i)
      × (granted keys.keystore_keys slot
          ≡ (if given && slot == 0 then some (keystore_key 0 0) else none))
      × (granted keys.filesystem_files slot ≡ none)
      × (declares files i ≡ same Interface.filesystem i)
      × (granted files.filesystem_files slot
          ≡ (if given && slot == 0 then some (filesystem_file 0 0) else none))
      × (granted files.keystore_keys slot ≡ none)
unfolding keystore_grants filesystem_grants
grants-first_slot request requests given slot i =
    let (keys, files) = keystore_declared request requests given i in
    (
      keys,
      slots-granted (length requests) given (keystore_key 0 0) slot,
      granted-none slot,
      files,
      slots-granted (length requests) given (filesystem_file 0 0) slot,
      granted-none slot,
    )

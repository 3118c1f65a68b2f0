-- ===== src/Confined/Genuine.antt =====
-- Which packages `verify_package` of `confined-runtime/src/lib.rs` lets through, by the keys and the bytes.
use lantern_runtime.Base.{
  ℕ, ◌≤◌, ◌<◌, ◌/◌, ◌≡◌, ◌≢◌, ◌↔◌, ◌⊎◌, ◌∙◌, inl, inr, refl, sym, ap, subst, some, Bool, true,
  false, List, [], ◌∷◌, ◌++◌, arith, Bool-cases,
}
use mathlib.Core.List.{Memᴰ}
use mathlib.Core.List.Memᴰ
use lantern_runtime.Base.Exec.{ok}
use lantern_runtime.Confined.Stage.{package_vaddr, package_max_len}
use lantern_runtime.Confined.System.{System, PackageRef, Sdk}
use lantern_runtime.Confined.Package.{
  trusted_publishers, VerifiedPackage, flip_bit, tamper, any, trusted, verify_package,
}
use lantern_runtime.Confined.Verification.{Accepted, true_ne_false, verify_package-Accepted}

any-holds :
    {A : Type 0} (test : A → Bool) (xs : List A)
    → any test xs ≡ true
    → (x : A) × Memᴰ x xs × (test x ≡ true)
unfolding any
any-holds test [] e = cc
any-holds test (x ∷ xs) e = elim (Bool-cases (test x)) [
  | inl holds ↦ (x, Memᴰ.head refl, holds)
  | inr fails ↦ let (y, m, holds) = any-holds test xs (ground arith) in (y, Memᴰ.tail m, holds)
]

holds-any :
    {A : Type 0} (test : A → Bool) (x : A) (xs : List A)
    → Memᴰ x xs
    → test x ≡ true
    → any test xs ≡ true
unfolding any
holds-any test x [] m holds = absurd (Memᴰ.not-nil m)
holds-any test x (y ∷ xs) (Memᴰ.head e) holds = ground (arith, ap test e)
holds-any test x (y ∷ xs) (Memᴰ.tail m) holds = ground (arith, holds-any test x xs m holds)

any-fails :
    {A : Type 0} (test : A → Bool) (x : A) (xs : List A)
    → any test xs ≡ false
    → Memᴰ x xs
    → test x ≡ false
any-fails test x xs e m = elim (Bool-cases (test x)) [
  | inl holds ↦ cc (holds-any test x xs m holds)
  | inr fails ↦ fails
]

fails-any :
    {A : Type 0} (test : A → Bool) (xs : List A)
    → ((x : A) → Memᴰ x xs → test x ≡ false)
    → any test xs ≡ false
fails-any test xs none_does = elim (Bool-cases (any test xs)) [
  | inl holds ↦ let (x, m, e) = any-holds test xs holds in cc (none_does x m)
  | inr fails ↦ fails
]

-- A byte, and the one that differs from it in the lowest bit alone.
abbrev pub FlipsLowest : ℕ → ℕ → Type 0
FlipsLowest byte flipped = (flipped / 2 ≡ byte / 2) × (flipped ≢ byte)

flip_bit-FlipsLowest : (byte : ℕ) → FlipsLowest byte (flip_bit byte)
flip_bit-FlipsLowest byte = (ground arith, ground arith)

FlipsLowest-unique : (byte flipped : ℕ) → FlipsLowest byte flipped → flipped ≡ flip_bit byte
FlipsLowest-unique byte flipped (half, differs) = ground (arith, differs)

tamper-last :
    (front : List ℕ) (last : ℕ) → tamper (front ++ (last ∷ [])) ≡ front ++ (flip_bit last ∷ [])
unfolding tamper
tamper-last [] last = refl
tamper-last (b ∷ []) last = refl
tamper-last (b ∷ c ∷ front) last = ap (λ t. b ∷ t) (tamper-last (c ∷ front) last)

ends_in : (b : ℕ) (bs : List ℕ) → (front : List ℕ) × (last : ℕ) × (b ∷ bs ≡ front ++ (last ∷ []))
ends_in b [] = ([], b, refl)
ends_in b (c ∷ bs) = let (front, last, e) = ends_in c bs in (b ∷ front, last, ap (λ t. b ∷ t) e)

List-ends :
    (bs : List ℕ) → (bs ≡ []) ⊎ ((front : List ℕ) × (last : ℕ) × (bs ≡ front ++ (last ∷ [])))
List-ends [] = inl refl
List-ends (b ∷ bs) = inr (ends_in b bs)

module _ {W : Type 0} (S : System W) (D : Sdk) (len : ℕ) (w : W) where
  -- A package as long as it may be that a listed key verifies, of which the copy with the lowest bit of
  -- its artifact's last byte flipped is verified by no listed key.
  pub record Genuine (lpkg : PackageRef) : Type 0 where
    pub some_length : 0 < len
    pub small : len ≤ package_max_len
    pub decoded : D.decode_package_ref (S.load package_vaddr len w) ≡ some lpkg
    pub key : List ℕ
    pub listed : Memᴰ key trusted_publishers
    pub signed : D.verify key lpkg ≡ true
    pub front : List ℕ
    pub last : ℕ
    pub flipped : ℕ
    pub ends : lpkg.cwasm_bytes ≡ front ++ (last ∷ [])
    pub flips : FlipsLowest last flipped
    pub forgery_refused :
        (other : List ℕ)
        → Memᴰ other trusted_publishers
        → D.verify other (record lpkg { cwasm_bytes = front ++ (flipped ∷ []) }) ≡ false

  Accepted-Genuine : (lpkg : PackageRef) → Accepted S D len w lpkg → Genuine lpkg
  unfolding trusted tamper
  Accepted-Genuine lpkg good =
      let (key, listed, signed) =
        any-holds (λ key. D.verify key lpkg) trusted_publishers good.signed in
      elim (List-ends lpkg.cwasm_bytes) [
        | inl empty ↦
            let same : tamper lpkg.cwasm_bytes ≡ lpkg.cwasm_bytes = ap tamper empty ∙ sym empty in
            let alike : trusted D (record lpkg { cwasm_bytes = tamper lpkg.cwasm_bytes })
                ≡ trusted D lpkg =
              ap (λ (bytes : List ℕ). trusted D (record lpkg { cwasm_bytes = bytes })) same in
            absurd (true_ne_false (sym good.signed ∙ sym alike ∙ good.forgery_refused))
        | inr (front, last, ends) ↦ record {
          some_length = good.some_length;
          small = good.small;
          decoded = good.decoded;
          key = key;
          listed = listed;
          signed = signed;
          front = front;
          last = last;
          flipped = flip_bit last;
          ends = ends;
          flips = flip_bit-FlipsLowest last;
          forgery_refused = λ other m.
              subst
                (λ (bytes : List ℕ). D.verify other (record lpkg { cwasm_bytes = bytes }) ≡ false)
                (ap tamper ends ∙ tamper-last front last)
                (any-fails
                  (λ (key : List ℕ).
                    D.verify key (record lpkg { cwasm_bytes = tamper lpkg.cwasm_bytes }))
                  other trusted_publishers good.forgery_refused m);
        }
      ]

  Genuine-Accepted : (lpkg : PackageRef) → Genuine lpkg → Accepted S D len w lpkg
  unfolding trusted
  Genuine-Accepted lpkg good = record {
    some_length = good.some_length;
    small = good.small;
    decoded = good.decoded;
    forgery_refused = rw (ap tamper good.ends ∙ tamper-last good.front good.last) (
        fails-any
          (λ key.
            D.verify key (record lpkg { cwasm_bytes = good.front ++ (flip_bit good.last ∷ []) }))
          trusted_publishers
          λ other m.
            rw (FlipsLowest-unique good.last good.flipped good.flips) at
              (good.forgery_refused other m));
    signed =
        holds-any (λ key. D.verify key lpkg) good.key trusted_publishers good.listed good.signed;
  }

  -- `verify_package` returns a package exactly if the mapped bytes have a length within the bounds and
  -- decode to one that a trusted publisher's key verifies, of which the artifact is not empty, and whose copy
  -- with the lowest bit of the artifact's last byte flipped no trusted publisher's key verifies; then it is
  -- the decoded manifest and artifact, and nothing has changed.
  pub verify_package-Genuine :
      (v : VerifiedPackage)
      → (verify_package D S len w ≡ (w, ok v)) ↔ (
          (lpkg : PackageRef) × Genuine lpkg
          × (v ≡ record { manifest_bytes = lpkg.manifest_bytes; cwasm_bytes = lpkg.cwasm_bytes }))
  verify_package-Genuine v =
      let (there, back) = verify_package-Accepted S D len w v in
      (
        λ e. let (lpkg, good, same) = there e in (lpkg, Accepted-Genuine lpkg good, same),
        λ (lpkg, good, same). back (lpkg, Genuine-Accepted lpkg good, same),
      )

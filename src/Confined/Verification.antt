-- ===== src/Confined/Verification.antt =====
-- What reaches Wasmtime and the binder: only a package that a trusted publisher signed
-- (`confined-runtime/src/lib.rs`, `verify_package`; `src/main.rs`, `host_the_guest`).
use lantern_runtime.Base.{
  ℕ, suc, ◌≤◌, ◌<◌, ◌≡◌, ◌≢◌, ◌⊎◌, ◌↔◌, inl, inr, refl, sym, ap, ◌∙◌, some, true, false, ◌||◌, List,
  [], ◌∷◌, length, arith, ltb, ◌==◌, Bool-cases, Option-cases,
}
use lantern_runtime.Base.Exec.{ok, err}
use lantern_runtime.Host.Services.{Embedding}
use lantern_runtime.Host.State.{RuntimeState}
use lantern_runtime.Host.Linker.{Linking}
use lantern_runtime.Ipc.Channel.{Channel, Codec}
use lantern_runtime.Confined.Stage.{
  Stage, failure_cptr, heap_base, heap_len, package_vaddr, package_max_len,
}
use lantern_runtime.Confined.System.{System, PackageRef, Sdk, Wasmtime}
use lantern_runtime.Confined.Chains.{bind-at_err}
use lantern_runtime.Confined.Package.{VerifiedPackage, flip_bit, tamper, trusted, verify_package}
use lantern_runtime.Confined.Program.{Client, host_verified, host_the_guest, run_and_report, run}

pub true_ne_false : true ≢ false
true_ne_false e = cc

flip_bit-twice : (b : ℕ) → flip_bit (flip_bit b) ≡ b
flip_bit-twice b = ground arith

flip_bit-changes : (b : ℕ) → flip_bit b ≢ b
flip_bit-changes b = ground arith

length-tamper : (bs : List ℕ) → length (tamper bs) ≡ length bs
unfolding tamper
length-tamper [] = refl
length-tamper (b ∷ []) = refl
length-tamper (b ∷ c ∷ bs) = ap suc (length-tamper (c ∷ bs))

tamper-cons : (b : ℕ) (bs : List ℕ) → 0 < length bs → tamper (b ∷ bs) ≡ b ∷ tamper bs
unfolding tamper
tamper-cons b [] pos = absurd (omega arith)
tamper-cons b (c ∷ bs) pos = refl

tamper-twice : (bs : List ℕ) → tamper (tamper bs) ≡ bs
unfolding tamper
tamper-twice [] = refl
tamper-twice (b ∷ []) = ap (λ x. x ∷ []) (flip_bit-twice b)
tamper-twice (b ∷ c ∷ bs) =
    tamper-cons b (tamper (c ∷ bs)) (omega (arith, length-tamper (c ∷ bs)))
    ∙ ap (λ t. b ∷ t) (tamper-twice (c ∷ bs))

tamper-changes : (bs : List ℕ) → 0 < length bs → tamper bs ≢ bs
unfolding tamper
tamper-changes [] pos e = absurd (omega arith)
tamper-changes (b ∷ []) pos e = flip_bit-changes b (cc)
tamper-changes (b ∷ c ∷ bs) pos e = tamper-changes (c ∷ bs) (omega arith) (cc)

-- The forged copy of an artifact that is not empty is as long as it and differs from it, and forging
-- it again gives the artifact back.
tamper-forges :
    (bs : List ℕ)
    → 0 < length bs
    → (length (tamper bs) ≡ length bs) × (tamper bs ≢ bs) × (tamper (tamper bs) ≡ bs)
tamper-forges bs pos = (length-tamper bs, tamper-changes bs pos, tamper-twice bs)

module _ {W : Type 0} (S : System W) (D : Sdk) (len : ℕ) (w : W) where
  -- What a package must be to be accepted.
  pub record Accepted (lpkg : PackageRef) : Type 0 where
    pub some_length : 0 < len
    pub small : len ≤ package_max_len
    pub decoded : D.decode_package_ref (S.load package_vaddr len w) ≡ some lpkg
    pub forgery_refused : trusted D (record lpkg { cwasm_bytes = tamper lpkg.cwasm_bytes }) ≡ false
    pub signed : trusted D lpkg ≡ true

  verify_package-cases :
      ((lpkg : PackageRef) × Accepted lpkg
        × (verify_package D S len w ≡ (
          w,
          ok (record { manifest_bytes = lpkg.manifest_bytes; cwasm_bytes = lpkg.cwasm_bytes }),
        )))
      ⊎ ((d : ℕ) × (verify_package D S len w ≡ (w, err (Stage.package_check, d))))
  unfolding verify_package
  verify_package-cases = elim (Bool-cases (len == 0 || ltb package_max_len len)) [
    | inl bad ↦ inr (1, ground arith)
    | inr fine ↦ elim (Option-cases (D.decode_package_ref (S.load package_vaddr len w))) [
      | inl broken ↦ inr (2, ground arith)
      | inr (lpkg, decoded) ↦
          elim (Bool-cases (trusted D (record lpkg { cwasm_bytes = tamper lpkg.cwasm_bytes }))) [
            | inl forged ↦ inr (3, ground arith)
            | inr refused ↦ elim (Bool-cases (trusted D lpkg)) [
              | inl signed ↦ inl (
                lpkg,
                record {
                  some_length = ground arith;
                  small = ground arith;
                  decoded = decoded;
                  forgery_refused = refused;
                  signed = signed;
                },
                ground arith,
              )
              | inr unsigned ↦ inr (4, ground arith)
            ]
          ]
    ]
  ]

  -- `verify_package` returns a package exactly if the mapped bytes have a length within the bounds and
  -- decode to one that a trusted publisher's key verifies while none verifies its tampered copy; then
  -- it is the decoded manifest and artifact, and nothing has changed.
  pub verify_package-Accepted :
      (v : VerifiedPackage)
      → (verify_package D S len w ≡ (w, ok v)) ↔ (
          (lpkg : PackageRef) × Accepted lpkg
          × (v ≡ record { manifest_bytes = lpkg.manifest_bytes; cwasm_bytes = lpkg.cwasm_bytes }))
  unfolding verify_package
  verify_package-Accepted v = (
    λ e. elim verify_package-cases [
      | inl (lpkg, good, e') ↦ (lpkg, good, ground arith)
      | inr (d, e') ↦ cc
    ],
    λ (lpkg, good, e).
        ground
          (arith, good.some_length, good.small, good.decoded, good.forgery_refused, good.signed),
  )

module _ {W Tab Comp Link Ins : Type 0} (S : System W) (D : Sdk) (R : Linking Link)
    (H : Embedding Tab Client Client)
    (E : Wasmtime W (RuntimeState Tab Client Client) Comp Link Ins) (X : Codec)
    (ch : Channel W) where
  -- Where the mapped bytes are no package that a trusted publisher signed, hosting the guest fails at
  -- the package stage with everything as it was: the binder is not asked, and nothing is deserialized.
  pub host_unverified :
      (len : ℕ) (w : W)
      → ((lpkg : PackageRef)
          → D.decode_package_ref (S.load package_vaddr len w) ≡ some lpkg
          → trusted D lpkg ≡ false)
      → (d : ℕ) × (host_the_guest S D R H E X ch len w ≡ (w, err (Stage.package_check, d)))
  unfolding host_the_guest
  host_unverified len w unsigned = elim (verify_package-cases S D len w) [
    | inl (lpkg, good, e) ↦ absurd (true_ne_false (sym good.signed ∙ unsigned lpkg good.decoded))
    | inr (d, e) ↦ (
      d,
      bind-at_err (verify_package D S len) (host_verified S D R H E X ch) w w
          (Stage.package_check, d) e,
    )
  ]

  -- Where the bytes mapped once the heap is set up are no package that a trusted publisher signed, all
  -- that the program does is to set up and to signal a failure at the package stage.
  pub untrusted_reported :
      (len : ℕ) (w : W)
      → let w' = S.report_panics_via failure_cptr (S.init_heap heap_base heap_len w) in
        ((lpkg : PackageRef)
          → D.decode_package_ref (S.load package_vaddr len w') ≡ some lpkg
          → trusted D lpkg ≡ false)
        → (d : ℕ) × (run S D R H E X ch len w ≡ S.signal_with failure_cptr 9 d w')
  unfolding run run_and_report
  untrusted_reported len w unsigned =
      let w' = S.report_panics_via failure_cptr (S.init_heap heap_base heap_len w) in
      let (d, e) = host_unverified len w' unsigned in (d, rw e refl)

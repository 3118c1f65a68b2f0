-- ===== src/Confined/Package.antt =====
-- `verify_package` and `VerifiedPackage` of `confined-runtime/src/lib.rs`.
use lantern_runtime.Base.{
  ℕ, ◌+◌, ◌-◌, ◌%◌, Bool, false, not, ◌||◌, List, [], ◌∷◌, ltb, ◌==◌, if◌then◌else◌,
}
use lantern_runtime.Base.Exec.{Exec, Call, ok_or, lift, pure, ◌>>=◌, ◌>>◌}
use lantern_runtime.Confined.Stage.{Stage, Fault, fail_if, package_vaddr, package_max_len}
use lantern_runtime.Confined.System.{System, PackageRef, GrantPlan, Sdk}

abbrev pub trusted_publishers : List (List ℕ)
trusted_publishers =
    (0x92 ∷ 0x73 ∷ 0x08 ∷ 0xf5 ∷ 0x3d ∷ 0x67 ∷ 0x65 ∷ 0x50 ∷ 0x3d ∷ 0x2b ∷ 0x64 ∷ 0xc1 ∷ 0x03 ∷ 0xab
      ∷ 0x5a ∷ 0xa4 ∷ 0x72 ∷ 0x06 ∷ 0xab ∷ 0x39 ∷ 0x50 ∷ 0x2c ∷ 0xfe ∷ 0x8f ∷ 0x98 ∷ 0x44 ∷ 0x2f
      ∷ 0xdb ∷ 0x54 ∷ 0x31 ∷ 0x00 ∷ 0xb7 ∷ [])
    ∷ (0x62 ∷ 0xa6 ∷ 0x11 ∷ 0xb4 ∷ 0x72 ∷ 0xd8 ∷ 0x9b ∷ 0x0e ∷ 0x5f ∷ 0xc9 ∷ 0x3c ∷ 0x06 ∷ 0x9b
        ∷ 0x9f ∷ 0x70 ∷ 0x0b ∷ 0x4c ∷ 0x55 ∷ 0x2d ∷ 0x55 ∷ 0xbc ∷ 0x0e ∷ 0x87 ∷ 0xb5 ∷ 0x60 ∷ 0x08
        ∷ 0xef ∷ 0x17 ∷ 0xb6 ∷ 0xb2 ∷ 0xbe ∷ 0xbe ∷ [])
    ∷ []

pub record VerifiedPackage : Type 0 where
  pub manifest_bytes : List ℕ
  pub cwasm_bytes : List ℕ

-- `*byte ^= 1`
abbrev pub flip_bit : ℕ → ℕ
flip_bit b = if b % 2 == 0 then b + 1 else b - 1

-- A copy with its last byte flipped, if it has one.
unfoldable pub tamper : List ℕ → List ℕ
tamper [] = []
tamper (b ∷ []) = flip_bit b ∷ []
tamper (b ∷ c ∷ bs) = b ∷ tamper (c ∷ bs)

-- `iter().any(…)`
unfoldable pub any : {A : Type 0} → (A → Bool) → List A → Bool
any test [] = false
any test (x ∷ xs) = test x || any test xs

module _ (D : Sdk) where
  -- Some publisher's key verifies it.
  unfoldable pub trusted : PackageRef → Bool
  trusted lpkg = any (λ key. D.verify key lpkg) trusted_publishers

  -- `VerifiedPackage::plan`
  unfoldable pub plan : VerifiedPackage → Exec Fault GrantPlan
  plan lpkg = ok_or (D.parse_plan lpkg.manifest_bytes) (Stage.manifest, 1)

  unfoldable pub verify_package : {W : Type 0} → System W → ℕ → Call W Fault VerifiedPackage
  verify_package S package_len w =
      (do
        fail_if (package_len == 0 || ltb package_max_len package_len) (Stage.package_check, 1)
        lpkg ← lift (
            ok_or (D.decode_package_ref (S.load package_vaddr package_len w))
              (Stage.package_check, 2))
        fail_if (trusted (record lpkg { cwasm_bytes = tamper lpkg.cwasm_bytes }))
            (Stage.package_check, 3)
        fail_if (not (trusted lpkg)) (Stage.package_check, 4)
        pure (record { manifest_bytes = lpkg.manifest_bytes; cwasm_bytes = lpkg.cwasm_bytes }))
        w

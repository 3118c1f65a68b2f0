-- ===== src/Base/Chain.antt =====
-- `?` on results that thread no state: `do` blocks over `Exec`.
use lantern_runtime.Base.Exec.{Exec, ok, err, panic}

infixl 5 ◌>>=◌ ◌>>◌
abbrev pub ◌>>=◌ {ℓ κ μ} :
    {E : Type ℓ} {A : Type κ} {B : Type μ} → Exec E A → (A → Exec E B) → Exec E B
ok a >>= f = f a
err e >>= f = err e
panic >>= f = panic

abbrev pub ◌>>◌ {ℓ κ μ} : {E : Type ℓ} {A : Type κ} {B : Type μ} → Exec E A → Exec E B → Exec E B
m >> k = m >>= λ _. k

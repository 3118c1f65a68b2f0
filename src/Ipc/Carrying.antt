-- ===== src/Ipc/Carrying.antt =====
-- How the result of a service travels over a channel, and that nothing a component sees is lost.
use lantern_runtime.Base.{ℕ, ◌≡◌, ◌≢◌, ◌↔◌, ◌≤◌, refl, sym, List, length, take, arith}
use lantern_runtime.Base.Exec.{Exec, ok, err, panic, map_err}
use lantern_runtime.Base.Chain.{◌>>=◌}
use lantern_runtime.Host.Errors.{ChannelError, ErrorCode, access, invalid}
use lantern_runtime.Ipc.Channel.{accept}

-- How a service's result travels: a value under the status `OK`, read back from the bytes that were
-- replied; an error under a status that says no more than whether it was a denial.
abbrev pub Carries :
    {E A : Type 0}
    → ℕ
    → ℕ
    → (E → ErrorCode)
    → (List ℕ → A → Type 0)
    → Exec E A
    → Exec ChannelError (List ℕ × ℕ × ℕ)
    → Type 0
Carries status_ok status_access code Reads (ok a) (ok (reply, status, len)) =
    (status ≡ status_ok) × (len ≤ length reply) × Reads (take len reply) a
Carries status_ok status_access code Reads (err e) (ok (reply, status, len)) =
    (status ≢ status_ok) × ((status ≡ status_access) ↔ (code e ≡ access))
Carries status_ok status_access code Reads _ _ = ⊥

pub ×-path :
    {A B : Type 0} {a a' : A} {b b' : B} → a ≡ a' → b ≡ b' → ◌≡◌ {A = A × B} (a, b) (a', b')
×-path p q i = (p i, q i)

pub ErrorCode-agree : (a b : ErrorCode) → ((a ≡ access) ↔ (b ≡ access)) → a ≡ b
ErrorCode-agree access b h = sym (h.0 refl)
ErrorCode-agree invalid access h = h.1 refl
ErrorCode-agree invalid invalid h = refl

-- Whatever is carried is read back, up to the translation of errors.
pub Carries-agree :
    {E A : Type 0} (wrap : ChannelError → E) (denied : ℕ → E) (code : E → ErrorCode)
    (status_ok status_access : ℕ) (Reads : List ℕ → A → Type 0) (f : List ℕ × ℕ → Exec E A)
    → ((reply : List ℕ) (len : ℕ) (a : A)
        → len ≤ length reply
        → Reads (take len reply) a
        → f (reply, len) ≡ ok a)
    → ((status : ℕ) → (code (denied status) ≡ access) ↔ (status ≡ status_access))
    → (s : Exec E A) (r : Exec ChannelError (List ℕ × ℕ × ℕ))
    → Carries status_ok status_access code Reads s r
    → map_err code (accept wrap denied status_ok r >>= f) ≡ map_err code s
Carries-agree wrap denied code k d Reads f back says (ok a) (ok (reply, status, len))
      (e, room, reads) =
    let there = back reply len a room reads in ground (arith, there)
Carries-agree wrap denied code k d Reads f back says (err e) (ok (reply, status, len)) (ne, same) =
    let agree : code (denied status) ≡ code e =
      ErrorCode-agree (code (denied status)) (code e)
        (λ p. same.0 ((says status).0 p), λ p. (says status).1 (same.1 p)) in
    ground (arith, agree)
Carries-agree wrap denied code k d Reads f back says (ok _) (err _) h = absurd h
Carries-agree wrap denied code k d Reads f back says (ok _) panic h = absurd h
Carries-agree wrap denied code k d Reads f back says (err _) (err _) h = absurd h
Carries-agree wrap denied code k d Reads f back says (err _) panic h = absurd h
Carries-agree wrap denied code k d Reads f back says panic (ok _) h = absurd h
Carries-agree wrap denied code k d Reads f back says panic (err _) h = absurd h
Carries-agree wrap denied code k d Reads f back says panic panic h = absurd h

-- The state that the service is left in, and the result as a component sees it.
abbrev pub Seen : Type 0 → Type 0 → Type 0
Seen R A = R × Exec ErrorCode A

abbrev pub seen : {E R A : Type 0} → (E → ErrorCode) → R × Exec E A → Seen R A
seen code r = (r.0, map_err code r.1)

abbrev pub seen_through : {E C R A : Type 0} → (E → ErrorCode) → (C → R) → C × Exec E A → Seen R A
seen_through code view r = (view r.0, map_err code r.1)

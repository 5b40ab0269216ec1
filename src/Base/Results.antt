-- ===== src/Base/Results.antt =====
-- The outcome of a Go call that returns `(T, error)`, over the component's own error type.
use mathlib.Core.Path.{◌≡◌, refl}
use mathlib.Core.Logic.{◌⊎◌, inl, inr}

pub data Result {ℓ} (E A : Type ℓ) : Type ℓ where
  ok : A → Result E A
  err : E → Result E A

infixl 5 ◌>>=◌
abbrev pub ◌>>=◌ {ℓ} : {E X Y : Type ℓ} → Result E X → (X → Result E Y) → Result E Y
err failure >>= next = err failure
ok x >>= next = next x

module _ {ℓ} {E A : Type ℓ} where
  pub Result-cases : (r : Result E A) → ((a : A) × (r ≡ ok a)) ⊎ ((e : E) × (r ≡ err e))
  Result-cases (ok a) = inl (a, refl)
  Result-cases (err e) = inr (e, refl)

-- A chain that succeeded: its first step did, and hands its value to what is proved from it.
pub after_bind {ℓ κ} :
    {E X Y : Type ℓ} {P : Type κ} (first : Result E X) (rest : X → Result E Y) {y : Y}
    → (first >>= rest) ≡ ok y
    → ((x : X) → first ≡ ok x → rest x ≡ ok y → P)
    → P
after_bind (err e) rest done next = absurd (cc)
after_bind (ok x) rest done next = next x refl done

-- Where a chain that failed did fail.
pub after_err {ℓ κ} :
    {E A B : Type ℓ} {P : Type κ} (m : Result E A) (f : A → Result E B) {e : E}
    → (m >>= f) ≡ err e
    → (m ≡ err e → P)
    → ((a : A) → m ≡ ok a → f a ≡ err e → P)
    → P
after_err (ok a) f h k l = l a refl h
after_err (err e) f h k l = k (cc)

-- ===== src/Base/Methods.antt =====
-- Methods that change an object and may throw: what was written before a throw stays written.
use mathlib.Core.Path.{◌≡◌, refl}
use mathlib.Core.Logic.{◌⊎◌, inl, inr}
use mathlib.Core.Bool.{Bool, true, false}

pub data Result {ℓ} (E A : Type ℓ) : Type ℓ where
  ok : A → Result E A
  err : E → Result E A

abbrev pub Exec {ℓ} : (E S A : Type ℓ) → Type ℓ
Exec E S A = S → Result E A × S

module _ {ℓ} {E S A B : Type ℓ} where
  abbrev pub proceed : Result E A → (A → Exec E S B) → Exec E S B
  proceed (ok a) f s = f a s
  proceed (err e) f s = (err e, s)

  infixl 5 ◌>>=◌ ◌>>◌
  abbrev pub ◌>>=◌ : Exec E S A → (A → Exec E S B) → Exec E S B
  ◌>>=◌ m f s = proceed (m s).0 f (m s).1

  abbrev pub ◌>>◌ : Exec E S A → Exec E S B → Exec E S B
  ◌>>◌ m k s = proceed (m s).0 (λ _. k) (m s).1

pub Result-cases {ℓ} :
    {E A : Type ℓ} (r : Result E A) → ((a : A) × (r ≡ ok a)) ⊎ ((e : E) × (r ≡ err e))
Result-cases (ok a) = inl (a, refl)
Result-cases (err e) = inr (e, refl)

abbrev pub modify : {E S : Type 0} → (S → S) → Exec E S Unit
modify f s = (ok tt, f s)

abbrev pub raise : {E S A : Type 0} → E → Exec E S A
raise e s = (err e, s)

-- `if (!test) throw e`
abbrev pub guard : {E S : Type 0} → Bool → E → Exec E S Unit
guard true e s = (ok tt, s)
guard false e s = (err e, s)

abbrev pub when : {E S : Type 0} → Bool → Exec E S Unit → Exec E S Unit
when true m s = m s
when false m s = (ok tt, s)

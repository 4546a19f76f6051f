-- ===== src/Prelude/Results.antt =====
-- A Go result `(value, error)` of which one half is set, with the chain `if err != nil { return }`.
use mathlib.Core.Path.{◌≡◌, refl}
use mathlib.Core.Logic.{◌⊎◌, inl, inr}
use mathlib.Core.Bool.{Bool, true, false}

pub data Except {ℓ κ} (E : Type ℓ) (A : Type κ) : Type (ℓ ⊔ κ) where
  ok : A → Except E A
  err : E → Except E A

module _ {ℓ} {E : Type ℓ} where
  infixl 5 ◌>>=◌ ◌>>◌
  abbrev pub ◌>>=◌ {κ μ} : {X : Type κ} {Y : Type μ} → Except E X → (X → Except E Y) → Except E Y
  err e >>= next = err e
  ok x >>= next = next x

  abbrev pub ◌>>◌ {κ} : {Y : Type κ} → Except E (Unit {0}) → Except E Y → Except E Y
  first >> next = first >>= λ _. next

  -- An early return with an error unless the test passes.
  abbrev pub require : Bool → E → Except E (Unit {0})
  require true e = ok tt
  require false e = err e

  pub >>=-eq-ok {κ μ} :
      {X : Type κ} {Y : Type μ} (first : Except E X) (next : X → Except E Y) {y : Y}
      → (first >>= next) ≡ ok y
      → (x : X) × (first ≡ ok x) × (next x ≡ ok y)
  >>=-eq-ok (err e) next h = cc
  >>=-eq-ok (ok x) next h = (x, refl, h)

  pub require-eq-ok : (b : Bool) (e : E) {u : Unit {0}} → require b e ≡ ok u → b ≡ true
  require-eq-ok true e h = refl
  require-eq-ok false e h = cc

pub Except-cases {ℓ κ} :
    {E : Type ℓ} {A : Type κ} (x : Except E A) → ((e : E) × (x ≡ err e)) ⊎ ((a : A) × (x ≡ ok a))
Except-cases (err e) = inl (e, refl)
Except-cases (ok a) = inr (a, refl)

-- ===== src/Base/Results.antt =====
-- Results of code that throws: a value, or what was thrown.
use mathlib.Core.Path.{◌≡◌, refl, ap}
use mathlib.Core.Bool.{Bool, true, false}
use native.Mathlib.Omega.{arith}
use monero_lws.Base.Tests.{if◌then◌else◌}

pub data Result {ℓ} (E : Type 0) (A : Type ℓ) : Type ℓ where
  ok : A → Result E A
  err : E → Result E A

infixl 5 ◌>>=◌
abbrev pub ◌>>=◌ {ℓ κ} :
    {E : Type 0} {A : Type ℓ} {B : Type κ} → Result E A → (A → Result E B) → Result E B
ok a >>= f = f a
err e >>= f = err e

-- What a run that does not throw has come through.
pub bind_ok {ℓ κ} :
    {E : Type 0} {A : Type ℓ} {B : Type κ} (r : Result E A) (f : A → Result E B) (y : B)
    → (r >>= f) ≡ ok y
    → (x : A) × ((r ≡ ok x) × (f x ≡ ok y))
bind_ok (ok x) f y h = (x, (refl, h))
bind_ok (err e) f y h = absurd (ground (arith, h))

pub bind_assoc :
    {E A B C : Type 0} (r : Result E A) (f : A → Result E B) (g : B → Result E C)
    → ((r >>= f) >>= g) ≡ (r >>= λ x. f x >>= g)
bind_assoc (ok a) f g = refl
bind_assoc (err e) f g = refl

pub bind_congr :
    {E A B : Type 0} (r : Result E A) (f g : A → Result E B)
    → ((x : A) → f x ≡ g x)
    → (r >>= f) ≡ (r >>= g)
bind_congr (ok a) f g h = h a
bind_congr (err e) f g h = refl

pub guard_ok {ℓ} :
    {E : Type 0} {A : Type ℓ} (b : Bool) (e : E) (r : Result E A) (x : A)
    → (if b then err e else r) ≡ ok x
    → r ≡ ok x
guard_ok true e r x h = absurd (ground (arith, h))
guard_ok false e r x h = h

pub ok_inj {ℓ} : {E : Type 0} {A : Type ℓ} {x y : A} → ◌≡◌ {A = Result E A} (ok x) (ok y) → x ≡ y
ok_inj {x = x} h = ap (λ r. elim r [ ok a ↦ a | err e ↦ x ]) h

-- ===== src/Prelude/Exec.antt =====
-- Outcomes of code that may run into undefined behaviour, and whose loops take fuel.
use mathlib.Core.Path.{◌≡◌, refl}

pub data Exec {ℓ} (A : Type ℓ) : Type ℓ where
  ret : A → Exec A
  undefined : Exec A
  no_fuel : Exec A

infixl 5 ◌>>=◌
abbrev pub ◌>>=◌ {ℓ κ} : {A : Type ℓ} {B : Type κ} → Exec A → (A → Exec B) → Exec B
ret a >>= f = f a
undefined >>= f = undefined
no_fuel >>= f = no_fuel

pub ret-injective {ℓ} : {A : Type ℓ} {x y : A} → ret x ≡ ret y → x ≡ y
ret-injective e = cc

-- Inversion of a bind that returned.
pub >>=-eq-ret {ℓ κ} :
    {A : Type ℓ} {B : Type κ} (m : Exec A) (f : A → Exec B) {b : B}
    → (m >>= f) ≡ ret b
    → (a : A) × (m ≡ ret a) × (f a ≡ ret b)
>>=-eq-ret (ret a) f h = (a, refl, h)
>>=-eq-ret undefined f h = cc
>>=-eq-ret no_fuel f h = cc

pub >>=_ret {ℓ} : {A : Type ℓ} (m : Exec A) → (m >>= ret) ≡ m
>>=_ret (ret a) = refl
>>=_ret undefined = refl
>>=_ret no_fuel = refl

pub >>=_assoc {ℓ κ μ} :
    {A : Type ℓ} {B : Type κ} {C : Type μ} (m : Exec A) (f : A → Exec B) (g : B → Exec C)
    → (m >>= f >>= g) ≡ (m >>= λ a. f a >>= g)
>>=_assoc (ret a) f g = refl
>>=_assoc undefined f g = refl
>>=_assoc no_fuel f g = refl

-- A bind by equal functions.
pub >>=_cong {ℓ κ} :
    {A : Type ℓ} {B : Type κ} (m : Exec A) (f g : A → Exec B)
    → ((a : A) → f a ≡ g a)
    → (m >>= f) ≡ (m >>= g)
>>=_cong (ret a) f g h = h a
>>=_cong undefined f g h = refl
>>=_cong no_fuel f g h = refl

-- ===== src/Prelude/Results.antt =====
-- Exceptions as values. `E` lists the exceptions that a component raises.
use mathlib.Core.Path.{◌≡◌, refl}
use mathlib.Core.Logic.{◌⊎◌, inl, inr}
use mathlib.Core.Bool.{Bool, true, false}
use native.Mathlib.Omega.{arith}

pub data Result (E A : Type 0) : Type 0 where
  ok : A → Result E A
  err : E → Result E A

-- `if test: raise e`
abbrev pub reject : {E : Type 0} → Bool → E → Result E (Unit {0})
reject false raised = ok tt
reject true raised = err raised

-- An exception ends what it is raised in.
infixl 5 ◌>>=◌ ◌>>◌
abbrev pub ◌>>=◌ : {E A B : Type 0} → Result E A → (A → Result E B) → Result E B
err raised >>= next = err raised
ok value >>= next = next value

-- `if not test: raise e`
abbrev pub guard : {E : Type 0} → Bool → E → Result E (Unit {0})
guard false raised = err raised
guard true raised = ok tt

abbrev pub ◌>>◌ : {E B : Type 0} → Result E (Unit {0}) → Result E B → Result E B
first >> then_do = first >>= λ _. then_do

pub ok-eq : {E A : Type 0} (a b : A) → ◌≡◌ {A = Result E A} (ok a) (ok b) → a ≡ b
ok-eq a b h = ground arith

-- Where a chain returns, its first step has returned, and so has what follows it.
pub >>=-eq-ok :
    {E A B : Type 0} (first : Result E A) (next : A → Result E B) {value : B}
    → (first >>= next) ≡ ok value
    → (a : A) × (first ≡ ok a) × (next a ≡ ok value)
>>=-eq-ok (err raised) next h = cc
>>=-eq-ok (ok a) next h = (a, refl, h)

pub reject-eq-ok :
    {E B : Type 0} (t : Bool) (e : E) (k : Result E B) {b : B}
    → (reject t e >> k) ≡ ok b
    → (t ≡ false) × (k ≡ ok b)
reject-eq-ok true e k h = cc
reject-eq-ok false e k h = (refl, h)

pub reject-ok : {E : Type 0} (t : Bool) (e : E) → reject t e ≡ ok tt → t ≡ false
reject-ok true e h = cc
reject-ok false e h = refl

pub guard-ok : {E : Type 0} (t : Bool) (e : E) → guard t e ≡ ok tt → t ≡ true
guard-ok true e h = refl
guard-ok false e h = cc

pub guard-eq-ok :
    {E B : Type 0} (t : Bool) (e : E) (k : Result E B) {b : B}
    → (guard t e >> k) ≡ ok b
    → (t ≡ true) × (k ≡ ok b)
guard-eq-ok true e k h = (refl, h)
guard-eq-ok false e k h = cc

pub Result-cases :
    {E A : Type 0} (r : Result E A) → ((a : A) × (r ≡ ok a)) ⊎ ((e : E) × (r ≡ err e))
Result-cases (ok a) = inl (a, refl)
Result-cases (err e) = inr (e, refl)

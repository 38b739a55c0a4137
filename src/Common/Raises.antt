-- ===== src/Common/Raises.antt =====
-- Python functions that may raise: the value, or the class of the exception. `out_of_fuel` is no
-- exception: a loop of the model has used up its rounds.
use mathlib.Core.Path.{◌≡◌, refl}
use mathlib.Core.Logic.{◌⊎◌, inl, inr}
use mathlib.Core.Bool.{Bool, true, false}

pub data Error : Type 0 where
  value_error struct_error type_error index_error : Error
  out_of_fuel : Error

pub data Result {ℓ} (R : Type ℓ) : Type ℓ where
  err : Error → Result R
  ok : R → Result R

-- A call that may raise, and what is done with the value that it returns.
abbrev pub ◌>>=◌ {ℓ κ} : {R : Type ℓ} {S : Type κ} → Result R → (R → Result S) → Result S
err raised >>= next = err raised
ok value >>= next = next value

-- The same where the call returns nothing.
abbrev pub ◌>>◌ {ℓ} : {S : Type ℓ} → Result (Unit {0}) → Result S → Result S
call >> next = call >>= λ _. next

infixl 5 ◌>>=◌ ◌>>◌
-- `if not b: raise ValueError`
abbrev pub require : Bool → Result (Unit {0})
require true = ok tt
require false = err value_error

pub >>=-eq-ok {ℓ κ} :
    {R : Type ℓ} {S : Type κ} (call : Result R) (next : R → Result S) {s : S}
    → (call >>= next) ≡ ok s
    → (r : R) × (call ≡ ok r) × (next r ≡ ok s)
>>=-eq-ok (err raised) next h = cc
>>=-eq-ok (ok r) next h = (r, refl, h)

pub require-eq-ok : (b : Bool) → require b ≡ ok tt → b ≡ true
require-eq-ok true h = refl
require-eq-ok false h = cc

-- All that it raises is ValueError.
abbrev pub RaisesOnly {ℓ} : {A : Type ℓ} → Result A → Type ℓ
RaisesOnly r = (e : Error) → r ≡ err e → e ≡ value_error

pub >>=-RaisesOnly {ℓ κ} :
    {A : Type ℓ} {B : Type κ} (m : Result A) (f : A → Result B)
    → RaisesOnly m
    → ((a : A) → m ≡ ok a → RaisesOnly (f a))
    → RaisesOnly (m >>= f)
>>=-RaisesOnly (ok a) f first later = later a refl
>>=-RaisesOnly (err x) f first later = λ e h. first e (cc h)

pub require-RaisesOnly : (b : Bool) → RaisesOnly (require b)
require-RaisesOnly true e h = cc
require-RaisesOnly false e h = cc

pub ok-RaisesOnly {ℓ} : {A : Type ℓ} (a : A) → RaisesOnly (ok a)
ok-RaisesOnly a e h = cc

pub from_ok {ℓ} : {A : Type ℓ} (a b : A) → ok a ≡ ok b → a ≡ b
from_ok a b h = cc

pub Result-cases {ℓ} :
    {A : Type ℓ} (r : Result A) → ((a : A) × (r ≡ ok a)) ⊎ ((e : Error) × (r ≡ err e))
Result-cases (ok a) = inl (a, refl)
Result-cases (err e) = inr (e, refl)

-- ===== src/Base/Outcome.antt =====
-- The outcome of code that may raise: a value, an exception that leaves the function, or, for a
-- loop that is given fuel, that the fuel was spent.
use mathlib.Core.Path.{◌≡◌, refl}
use mathlib.Core.Bool.{Bool, true, false}
use mathlib.Core.Logic.{◌≢◌}
use mathlib.Core.Option.{Option, none, some}
use mathlib.Core.List.{List, [], ◌∷◌}
use ibet_wallet_api.Base.Tests.{if◌then◌else◌}

pub data Run {ℓ} (A : Type ℓ) : Type ℓ where
  returned : A → Run A
  raised : Run A
  out_of_fuel : Run A

infixl 5 ◌>>=◌
abbrev pub ◌>>=◌ {ℓ κ} : {A : Type ℓ} {B : Type κ} → Run A → (A → Run B) → Run B
returned a >>= f = f a
raised >>= f = raised
out_of_fuel >>= f = out_of_fuel

-- `for x in xs: s = f(x, s)` where the body may raise.
abbrev pub for_each {ℓ κ} : {A : Type ℓ} {S : Type κ} → (A → S → Run S) → List A → S → Run S
for_each f [] s = returned s
for_each f (x ∷ xs) s = f x s >>= λ s'. for_each f xs s'

pub >>=-eq-returned {ℓ κ} :
    {A : Type ℓ} {B : Type κ} (m : Run A) (f : A → Run B) {b : B}
    → (m >>= f) ≡ returned b
    → (a : A) × (m ≡ returned a) × (f a ≡ returned b)
>>=-eq-returned (returned a) f h = (a, refl, h)
>>=-eq-returned raised f h = cc
>>=-eq-returned out_of_fuel f h = cc

-- A call that answers, or raises (`none`).
abbrev pub ask {ℓ} : {A : Type ℓ} → Option A → Run A
ask none = raised
ask (some a) = returned a

-- The code ends, by a value or by an exception.
pub record Ends {ℓ} {A : Type ℓ} (m : Run A) : Type ℓ where
  pub ends : m ≢ out_of_fuel

pub Ends-returned {ℓ} : {A : Type ℓ} {a : A} → Ends (returned a)
Ends-returned = record { ends = λ e. cc }

pub Ends-raised {ℓ} : {A : Type ℓ} → Ends {A = A} raised
Ends-raised = record { ends = λ e. cc }

pub Ends-ask {ℓ} : {A : Type ℓ} (o : Option A) → Ends (ask o)
Ends-ask none = Ends-raised
Ends-ask (some a) = Ends-returned

pub Ends-bind {ℓ κ} :
    {A : Type ℓ} {B : Type κ} (m : Run A) (f : A → Run B)
    → Ends m
    → ((a : A) → Ends (f a))
    → Ends (m >>= f)
Ends-bind (returned a) f h k = k a
Ends-bind raised f h k = Ends-raised
Ends-bind out_of_fuel f h k = absurd (h.ends refl)

pub Ends-for_each {ℓ κ} :
    {A : Type ℓ} {S : Type κ} (f : A → S → Run S)
    → ((a : A) (s : S) → Ends (f a s))
    → (xs : List A) (s : S) → Ends (for_each f xs s)
Ends-for_each f h [] s = Ends-returned
Ends-for_each f h (x ∷ xs) s =
    Ends-bind (f x s) (λ s'. for_each f xs s') (h x s) (λ s'. Ends-for_each f h xs s')

pub Ends-if {ℓ} :
    {A : Type ℓ} (c : Bool) (m k : Run A) → Ends m → Ends k → Ends (if c then m else k)
Ends-if true m k h h' = h
Ends-if false m k h h' = h'

pub returned_inj {ℓ} : {A : Type ℓ} {a b : A} → returned a ≡ returned b → a ≡ b
returned_inj h = cc

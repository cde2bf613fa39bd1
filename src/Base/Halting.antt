-- ===== src/Base/Halting.antt =====
-- Calls that come to an end: they return, throw, or have undefined behaviour.
use mathlib.Core.Path.{◌≡◌, refl}
use mathlib.Core.Bool.{Bool, true, false}
use mathlib.Core.Option.{Option, none, some}
use p2purr.Base.Tests.{if◌then◌else◌}
use p2purr.Base.Outcomes.{
  Exception, Outcome, ok, throw, fault, no_fuel, exits, M, ◌>>=◌, checked, within,
}
use p2purr.Base.Rules.{Leaves}

-- The call ends, and `P` holds where it returns.
abbrev pub Halts : {S A : Type 0} → (A → S → Type 0) → Outcome S A → Type 0
Halts P (ok a s) = P a s
Halts P (throw e s) = Unit {0}
Halts P fault = Unit {0}
Halts P no_fuel = ⊥
Halts P exits = ⊥

pub Halts-mono :
    {S A : Type 0} (P P' : A → S → Type 0) (o : Outcome S A)
    → ((a : A) (t : S) → P a t → P' a t)
    → Halts P o
    → Halts P' o
Halts-mono P P' (ok a s) f h = f a s h
Halts-mono P P' (throw e s) f h = tt
Halts-mono P P' fault f h = tt
Halts-mono P P' no_fuel f h = h
Halts-mono P P' exits f h = h

pub >>=-Halts :
    {S A B : Type 0} (P : A → S → Type 0) (R : B → S → Type 0) (m : M S A) (f : A → M S B) (s : S)
    → Halts P (m s)
    → ((a : A) (t : S) → P a t → Halts R (f a t))
    → Halts R ((m >>= f) s)
>>=-Halts {S} {A} {B} P R m f s h k = go (m s) h
  where
    go :
        (o : Outcome S A)
        → Halts P o
        → Halts R (elim o as (λ _. Outcome S B) [
          | ok a t ↦ f a t
          | throw e t ↦ throw e t
          | fault ↦ fault
          | no_fuel ↦ no_fuel
          | exits ↦ exits
        ])
    go (ok a t) p = k a t p
    go (throw e t) p = tt
    go fault p = tt
    go no_fuel p = p
    go exits p = p

-- A read that is out of range ends the call.
pub checked-Halts :
    {S A B : Type 0} (R : B → S → Type 0) (o : Option A) (f : A → M S B) (s : S)
    → ((a : A) → o ≡ some a → Halts R (f a s))
    → Halts R ((checked o >>= f) s)
checked-Halts R none f s k = tt
checked-Halts R (some a) f s k = k a refl

pub if-Halts :
    {S A : Type 0} (P : A → S → Type 0) (b : Bool) (x y : Outcome S A)
    → (b ≡ true → Halts P x)
    → (b ≡ false → Halts P y)
    → Halts P (if b then x else y)
if-Halts P true x y h k = h refl
if-Halts P false x y h k = k refl

pub within-Halts :
    {S T A B : Type 0} (P : A → S → Type 0) (R : B → T → Type 0) (f : A → S → Outcome T B)
    (g : Exception → S → Outcome T B) (o : Outcome S A)
    → Halts P o
    → ((a : A) (t : S) → P a t → Halts R (f a t))
    → ((e : Exception) (t : S) → Halts R (g e t))
    → Halts R (within f g o)
within-Halts P R f g (ok a t) h k l = k a t h
within-Halts P R f g (throw e t) h k l = l e t
within-Halts P R f g fault h k l = tt
within-Halts P R f g no_fuel h k l = h
within-Halts P R f g exits h k l = h

-- What is known of the values that a call returns, and of what it throws.
pub Halts-Leaves :
    {S A : Type 0} (P : A → S → Type 0) (Q : Exception → S → Type 0) (o : Outcome S A)
    → Halts P o
    → Leaves (λ _ _. Unit {0}) Q o
    → Leaves P Q o
Halts-Leaves P Q (ok a s) h k = h
Halts-Leaves P Q (throw e s) h k = k
Halts-Leaves P Q fault h k = tt
Halts-Leaves P Q no_fuel h k = tt
Halts-Leaves P Q exits h k = tt

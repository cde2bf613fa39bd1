-- ===== src/Base/Rules.antt =====
-- What holds of a call: when it returns, when it throws, and where its behaviour is undefined.
use mathlib.Core.Path.{◌≡◌, refl}
use mathlib.Core.Bool.{Bool, true, false}
use p2purr.Base.Tests.{if◌then◌else◌}
use mathlib.Core.Option.{Option, none, some}
use p2purr.Base.Outcomes.{
  Exception, Outcome, ok, throw, fault, no_fuel, exits, M, ◌>>=◌, ◌>>◌, checked, within,
}

-- What holds when a call returns, when it throws, and where its behaviour is undefined.
abbrev pub Behaves :
    {S A : Type 0} → Type 0 → (A → S → Type 0) → (Exception → S → Type 0) → Outcome S A → Type 0
Behaves F P Q (ok a s) = P a s
Behaves F P Q (throw e s) = Q e s
Behaves F P Q fault = F
Behaves F P Q no_fuel = Unit {0}
Behaves F P Q exits = Unit {0}

-- Of a call with no undefined behaviour.
abbrev pub Ends :
    {S A : Type 0} → (A → S → Type 0) → (Exception → S → Type 0) → Outcome S A → Type 0
Ends P Q = Behaves ⊥ P Q

-- Of the state that a call leaves, where it leaves one.
abbrev pub Leaves :
    {S A : Type 0} → (A → S → Type 0) → (Exception → S → Type 0) → Outcome S A → Type 0
Leaves P Q = Behaves (Unit {0}) P Q

pub Behaves-mono :
    {S A : Type 0} (F : Type 0) (P P' : A → S → Type 0) (Q Q' : Exception → S → Type 0)
    (o : Outcome S A)
    → ((a : A) (t : S) → P a t → P' a t)
    → ((e : Exception) (t : S) → Q e t → Q' e t)
    → Behaves F P Q o
    → Behaves F P' Q' o
Behaves-mono F P P' Q Q' (ok a s) f g h = f a s h
Behaves-mono F P P' Q Q' (throw e s) f g h = g e s h
Behaves-mono F P P' Q Q' fault f g h = h
Behaves-mono F P P' Q Q' no_fuel f g h = h
Behaves-mono F P P' Q Q' exits f g h = h

-- The rule for a sequence.
pub >>=-Behaves :
    {S A B : Type 0} (F : Type 0) (P : A → S → Type 0) (R : B → S → Type 0)
    (Q Q' : Exception → S → Type 0) (m : M S A) (f : A → M S B) (s : S)
    → Behaves F P Q (m s)
    → ((e : Exception) (t : S) → Q e t → Q' e t)
    → ((a : A) (t : S) → P a t → Behaves F R Q' (f a t))
    → Behaves F R Q' ((m >>= f) s)
>>=-Behaves {S} {A} {B} F P R Q Q' m f s h g k = go (m s) h
  where
    go :
        (o : Outcome S A)
        → Behaves F P Q o
        → Behaves F R Q' (elim o as (λ _. Outcome S B) [
          | ok a t ↦ f a t
          | throw e t ↦ throw e t
          | fault ↦ fault
          | no_fuel ↦ no_fuel
          | exits ↦ exits
        ])
    go (ok a t) p = k a t p
    go (throw e t) p = g e t p
    go fault p = p
    go no_fuel p = p
    go exits p = p

-- The rule for a branch.
pub if-Behaves :
    {S A : Type 0} (F : Type 0) (P : A → S → Type 0) (Q : Exception → S → Type 0) (b : Bool)
    (x y : Outcome S A)
    → (b ≡ true → Behaves F P Q x)
    → (b ≡ false → Behaves F P Q y)
    → Behaves F P Q (if b then x else y)
if-Behaves F P Q true x y h k = h (λ i. true)
if-Behaves F P Q false x y h k = k (λ i. false)

pub within-Behaves :
    {S T A B : Type 0} (F : Type 0) (P : A → S → Type 0) (Q : Exception → S → Type 0)
    (R : B → T → Type 0) (Q' : Exception → T → Type 0) (f : A → S → Outcome T B)
    (g : Exception → S → Outcome T B) (o : Outcome S A)
    → Behaves F P Q o
    → ((a : A) (t : S) → P a t → Behaves F R Q' (f a t))
    → ((e : Exception) (t : S) → Q e t → Behaves F R Q' (g e t))
    → Behaves F R Q' (within f g o)
within-Behaves F P Q R Q' f g (ok a t) h k l = k a t h
within-Behaves F P Q R Q' f g (throw e t) h k l = l e t h
within-Behaves F P Q R Q' f g fault h k l = h
within-Behaves F P Q R Q' f g no_fuel h k l = h
within-Behaves F P Q R Q' f g exits h k l = h

-- Whatever the call does.
-- A call is what it returns.
pub Leaves-returned :
    {S A : Type 0} (P : A → S → Type 0) (Q : Exception → S → Type 0) (o : Outcome S A)
    → Leaves P Q o
    → Leaves (λ a t. (o ≡ ok a t) × P a t) Q o
Leaves-returned P Q (ok a t) h = (refl, h)
Leaves-returned P Q (throw e t) h = h
Leaves-returned P Q fault h = tt
Leaves-returned P Q no_fuel h = tt
Leaves-returned P Q exits h = tt

pub Behaves-any : {S A : Type 0} (o : Outcome S A) → Leaves (λ _ _. Unit {0}) (λ _ _. Unit {0}) o
Behaves-any (ok a t) = tt
Behaves-any (throw e t) = tt
Behaves-any fault = tt
Behaves-any no_fuel = tt
Behaves-any exits = tt

-- What the second call leaves, whatever the first one does.
pub >>=-Leaves :
    {S A B : Type 0} (R : B → S → Type 0) (m : M S A) (f : A → M S B) (s : S)
    → ((a : A) (t : S) → Leaves R (λ _ _. Unit {0}) (f a t))
    → Leaves R (λ _ _. Unit {0}) ((m >>= f) s)
>>=-Leaves R m f s k =
    >>=-Behaves _ (λ _ _. Unit {0}) R (λ _ _. Unit {0}) (λ _ _. Unit {0}) m f s (Behaves-any (m s))
      (λ _ _ _. tt) (λ a t _. k a t)

-- Where two calls in a row return, the first one does.
pub >>-returned :
    {S A B : Type 0} (m : M S A) (k : M S B) (s u : S) (b : B)
    → (m >> k) s ≡ ok b u
    → (a : A) × (t : S) × (m s ≡ ok a t) × (k t ≡ ok b u)
>>-returned {S} {A} {B} m k s u b e = cases (m s) e
  where
    cases :
        (o : Outcome S A)
        → (elim o as (λ _. Outcome S B) [
          | ok a t ↦ k t
          | throw x t ↦ throw x t
          | fault ↦ fault
          | no_fuel ↦ no_fuel
          | exits ↦ exits
        ])
          ≡ ok b u
        → (a : A) × (t : S) × (o ≡ ok a t) × (k t ≡ ok b u)
    cases (ok a t) e' = (a, t, refl, e')
    cases (throw x t) e' = cc e'
    cases fault e' = cc e'
    cases no_fuel e' = cc e'
    cases exits e' = cc e'

-- A read that is out of range leaves no state.
pub checked-Leaves :
    {S A B : Type 0} (P : B → S → Type 0) (Q : Exception → S → Type 0) (o : Option A)
    (f : A → M S B) (s : S)
    → ((a : A) → Leaves P Q (f a s))
    → Leaves P Q ((checked o >>= f) s)
checked-Leaves P Q none f s k = tt
checked-Leaves P Q (some a) f s k = k a

pub Ends-Leaves :
    {S A : Type 0} (P : A → S → Type 0) (Q : Exception → S → Type 0) (o : Outcome S A)
    → Ends P Q o
    → Leaves P Q o
Ends-Leaves P Q (ok a s) h = h
Ends-Leaves P Q (throw e s) h = h
Ends-Leaves P Q fault h = absurd h
Ends-Leaves P Q no_fuel h = tt
Ends-Leaves P Q exits h = tt

-- Two calls after the same one do the same, where they do at what it leaves.
pub >>-agree :
    {S A B : Type 0} (P : A → S → Type 0) (m : M S A) (k k' : M S B) (s : S)
    → Leaves P (λ _ _. Unit {0}) (m s)
    → ((a : A) (t : S) → P a t → k t ≡ k' t)
    → (m >> k) s ≡ (m >> k') s
>>-agree {S} {A} {B} P m k k' s h same = go (m s) h
  where
    go :
        (o : Outcome S A)
        → Leaves P (λ _ _. Unit {0}) o
        → (elim o as (λ _. Outcome S B) [
          | ok a t ↦ k t
          | throw e t ↦ throw e t
          | fault ↦ fault
          | no_fuel ↦ no_fuel
          | exits ↦ exits
        ])
          ≡ (elim o [
            | ok a t ↦ k' t
            | throw e t ↦ throw e t
            | fault ↦ fault
            | no_fuel ↦ no_fuel
            | exits ↦ exits
          ])
    go (ok a t) p = same a t p
    go (throw e t) p = refl
    go fault p = refl
    go no_fuel p = refl
    go exits p = refl

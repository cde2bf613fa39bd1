-- ===== src/Base/Outcomes.antt =====
-- What a call of a C++ method does: it returns a value, throws, or has undefined behaviour. The state
-- is that of the objects after the call; what was changed before a throw stays changed.
use mathlib.Core.Path.{◌≡◌}
use mathlib.Core.Option.{Option, none, some}

-- The classes of include/exceptionhandler.h.
pub data Exception : Type 0 where
  generic_exception socket_exception socket_options_exception : Exception
  bind_exception listen_exception accept_exception connect_exception : Exception
  send_exception receive_exception get_addr_info_exception : Exception
  socket_close_exception socket_shutdown_exception fctrl_exception : Exception
  poll_exception packet_exception : Exception

-- `fault` is undefined behaviour: an access out of range or through a null pointer. `no_fuel` says
-- that the call has not returned when a loop of the model has used up its rounds, or the operating
-- system's answers. `exits` is a call of `exit`.
pub data Outcome (S : Type 0) (A : Type 0) : Type 0 where
  ok : A → S → Outcome S A
  throw : Exception → S → Outcome S A
  fault no_fuel exits : Outcome S A

abbrev pub M : Type 0 → Type 0 → Type 0
M S A = S → Outcome S A

infixl 5 ◌>>=◌ ◌>>◌
abbrev pub ◌>>=◌ : {S A B : Type 0} → M S A → (A → M S B) → M S B
◌>>=◌ m f s = elim (m s) [
  | ok a s' ↦ f a s'
  | throw e s' ↦ throw e s'
  | fault ↦ fault
  | no_fuel ↦ no_fuel
  | exits ↦ exits
]

abbrev pub ◌>>◌ : {S A B : Type 0} → M S A → M S B → M S B
m >> k = m >>= λ _. k

abbrev pub return : {S A : Type 0} → A → M S A
return a s = ok a s

-- A read or a copy that may be out of range.
abbrev pub checked : {S A : Type 0} → Option A → M S A
checked none s = fault
checked (some a) s = ok a s

-- A step that succeeds hands on its value and the state that it leaves.
pub >>=-ok :
    {S A B : Type 0} (m : M S A) (f : A → M S B) {s t : S} {a : A}
    → m s ≡ ok a t
    → (m >>= f) s ≡ f a t
>>=-ok m f e = rw (e, ◌>>=◌)

pub >>-ok :
    {S A B : Type 0} (m : M S A) (k : M S B) {s t : S} {a : A} → m s ≡ ok a t → (m >> k) s ≡ k t
>>-ok m k e = rw (e, ◌>>=◌)

-- A step that throws ends the call.
pub >>-throw :
    {S A B : Type 0} (m : M S A) (k : M S B) {s t : S} {e : Exception}
    → m s ≡ throw e t
    → (m >> k) s ≡ throw e t
>>-throw m k e = rw (e, ◌>>=◌)

pub checked->>= :
    {S A B : Type 0} (o : Option A) (f : A → M S B) {s : S} {a : A}
    → o ≡ some a
    → (checked o >>= f) s ≡ f a s
checked->>= o f e = rw e

-- A call on a part of the state.
abbrev pub within :
    {S T A B : Type 0}
    → (A → S → Outcome T B)
    → (Exception → S → Outcome T B)
    → Outcome S A
    → Outcome T B
within f g (ok a s) = f a s
within f g (throw e s) = g e s
within f g fault = fault
within f g no_fuel = no_fuel
within f g exits = exits

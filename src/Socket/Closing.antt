-- ===== src/Socket/Closing.antt =====
-- `close_sock`: what it leaves, whatever the operating system answers.
use p2purr.Base.{
  ◌≡◌, refl, sym, subst, Bool, true, false, not, List, [], ◌∷◌, Outcome, ok, throw, fault, no_fuel,
  exits, ◌>>◌, if◌then◌else◌, Bool-cases, inl, inr, Leaves, Ends, Ends-Leaves,
}
use p2purr.Socket.{Socket, shut_down, close_descriptor, try_close, close_sock}

-- What an outcome of a part of the `try` block leaves: closed when it returns, and else as it was.
abbrev Closed : Outcome Socket (Unit {0}) → Type 0
Closed = Ends (λ _ t. t.is_sock_open ≡ false) (λ _ t. t.is_sock_open ≡ true)

close_descriptor-Closed :
    (answers : List Bool) (s : Socket) → s.is_sock_open ≡ true → Closed (close_descriptor answers s)
unfolding close_descriptor
close_descriptor-Closed [] s e = tt
close_descriptor-Closed (true ∷ rest) s e = refl
close_descriptor-Closed (false ∷ rest) s e = e

shut_then_close :
    (answers : List Bool) (s : Socket)
    → s.is_sock_open ≡ true
    → Closed ((shut_down answers >> λ t. close_descriptor t.os.closes t) s)
unfolding shut_down
shut_then_close [] s e = tt
shut_then_close (true ∷ rest) s e =
    close_descriptor-Closed s.os.closes
      (record s { is_sock_init = false; os = record (s.os) { shutdowns = rest } }) e
shut_then_close (false ∷ rest) s e = e

-- The `try` block at a value of `is_sock_init`.
tried :
    (b : Bool) (s : Socket)
    → s.is_sock_open ≡ true
    → Closed (
        ((λ t. if b then shut_down t.os.shutdowns t else ok tt t) >> λ t.
        close_descriptor t.os.closes t)
          s)
tried true s e = shut_then_close s.os.shutdowns s e
tried false s e = close_descriptor-Closed s.os.closes s e

try_close-Closed : (s : Socket) → s.is_sock_open ≡ true → Closed (try_close s)
unfolding try_close
try_close-Closed s e = tried s.is_sock_init s e

-- The same of `close_sock`, which reports it and does not throw.
abbrev Reported : Outcome Socket Bool → Type 0
Reported = Ends (λ b t. t.is_sock_open ≡ not b) (λ _ _. ⊥)

report :
    (o : Outcome Socket (Unit {0}))
    → Closed o
    → Reported (elim o [
      | ok _ t ↦ ok true t
      | throw e t ↦ ok false t
      | fault ↦ fault
      | no_fuel ↦ no_fuel
      | exits ↦ exits
    ])
report (ok u t) h = h
report (throw e t) h = h
report fault h = h
report no_fuel h = tt
report exits h = tt

pub close_sock-Ends : (s : Socket) → Ends (λ b t. t.is_sock_open ≡ not b) (λ _ _. ⊥) (close_sock s)
unfolding close_sock
close_sock-Ends s = elim (Bool-cases s.is_sock_open) [
  | inl open' ↦
      subst
        (λ b. Reported (
          if not b then ok true s else elim (try_close s) [
            | ok _ t ↦ ok true t
            | throw e t ↦ ok false t
            | fault ↦ fault
            | no_fuel ↦ no_fuel
            | exits ↦ exits
          ]))
        (sym open') (report (try_close s) (try_close-Closed s open'))
  | inr shut ↦
      subst
        (λ b. Reported (
          if not b then ok true s else elim (try_close s) [
            | ok _ t ↦ ok true t
            | throw e t ↦ ok false t
            | fault ↦ fault
            | no_fuel ↦ no_fuel
            | exits ↦ exits
          ]))
        (sym shut) shut
]

pub close_sock-Leaves :
    (s : Socket) → Leaves (λ b t. t.is_sock_open ≡ not b) (λ _ _. ⊥) (close_sock s)
close_sock-Leaves s = Ends-Leaves _ _ (close_sock s) (close_sock-Ends s)

-- Whatever the operating system answers, if `close_sock` returns true, the socket is closed, and if it
-- returns false, the socket is still open.
pub close_sock-is_sock_open :
    (s t : Socket) (b : Bool) → close_sock s ≡ ok b t → t.is_sock_open ≡ not b
close_sock-is_sock_open s t b e = subst Reported e (close_sock-Ends s)

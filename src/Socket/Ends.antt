-- ===== src/Socket/Ends.antt =====
-- `receive` ends when `recv` gives bytes.
use native.Mathlib.Nat.{add-zero}
use p2purr.Base.{
  ℕ, ◌≤◌, ◌<◌, ◌≡◌, refl, sym, subst, true, Option, none, some, List, ◌∷◌, arith, length, memcpy,
  fault, Halts,
}
use p2purr.Socket.{Receiving, RecvAnswer, got, receive}
use p2purr.Socket.Transfer.{receive_once}

-- It returns the number of bytes, or writes behind the buffer's end.
pub receive-Halts :
    (off max' : ℕ) (r : Receiving) (rest : List RecvAnswer) (bytes : List ℕ)
    → r.socket.is_sock_open ≡ true
    → r.socket.os.recvs ≡ got bytes ∷ rest
    → 0 < length bytes
    → length bytes ≤ max'
    → Halts (λ n _. n ≡ length bytes) (receive off max' r)
unfolding receive
receive-Halts off max' r rest bytes open' e pos_n le = copied (memcpy r.buffer off bytes) refl
  where
    copied :
        (o : Option (List ℕ))
        → memcpy r.buffer off bytes ≡ o
        → Halts (λ n _. n ≡ length bytes) (receive off max' r)
    copied none f =
        let faults : receive off max' r ≡ fault = ground (arith, add-zero off, f) in
        subst (Halts (λ n _. n ≡ length bytes)) (sym faults) tt
    copied (some b) f =
        subst (Halts (λ n _. n ≡ length bytes))
          (sym (receive_once off max' r rest bytes b open' e pos_n le f)) refl

-- ===== src/Socket/Pieces.antt =====
-- `send_data` on answers of `send` that take exactly the data: what it leaves of the socket.
use p2purr.Base.{
  ℕ, ◌+◌, ◌-◌, ◌≤◌, ◌<◌, ◌≡◌, refl, sym, ap, ap₂, subst, ◌∙◌, true, List, [], ◌∷◌, ◌++◌,
  append_assoc, append-nil, arith, length, take, drop, drop_all, lt→ltb, ok, >>=-ok, ◌==◌,
}
use p2purr.Socket.Transfer.{send_loop_end, piece-rest}
use p2purr.Socket.{SendAnswer, took, refused, Socket, transmit, send_loop, send_data}

-- The answers take the data in pieces, none of them empty, and are used up with it.
abbrev pub TakesExactly : ℕ → List SendAnswer → Type 0
TakesExactly left [] = left ≡ 0
TakesExactly left (took n ∷ rest) = (0 < n) × (n ≤ left) × TakesExactly (left - n) rest
TakesExactly left (refused ∷ rest) = ⊥

-- The socket when nothing is left to send.
all_sent :
    (data' : List ℕ) (rest : List SendAnswer) (sent : ℕ) (s : Socket)
    → s.os.sends ≡ rest
    → length data' ≤ sent
    → s ≡ transmit s rest (drop sent data')
all_sent data' rest sent s e le =
    ap₂ (λ xs ys. record s { os = record (s.os) { sends = xs; transmitted = ys } }) e
      (sym (append-nil s.os.transmitted)
        ∙ ap (◌++◌ s.os.transmitted) (sym (drop_all sent data' le)))

send_loop_exactly :
    (data' : List ℕ) (answers rest : List SendAnswer) (sent : ℕ) (s : Socket)
    → s.os.sends ≡ answers ++ rest
    → sent ≤ length data'
    → TakesExactly (length data' - sent) answers
    → send_loop data' (answers ++ rest) sent s
      ≡ ok (length data') (transmit s rest (drop sent data'))
unfolding send_loop
send_loop_exactly data' [] rest sent s e le h =
    send_loop_end data' rest sent s (omega arith)
    ∙ ap₂ ok (omega arith) (all_sent data' rest sent s e (omega arith))
send_loop_exactly data' (took n ∷ answers) rest sent s e le (pos_n, fits, h) =
    rw (lt→ltb sent (length data') (omega arith)) (
      send_loop_exactly data' answers rest (sent + n) piece_sent refl (omega arith)
        (subst (λ k. TakesExactly k answers) (omega arith) h)
      ∙ ap
          (λ bytes.
            ok (length data')
              (record s { os = record (s.os) { sends = rest; transmitted = bytes } }))
          (append_assoc s.os.transmitted (take n (drop sent data')) (drop (sent + n) data')
            ∙ ap (◌++◌ s.os.transmitted) (piece-rest n sent data')))
  where
    piece_sent : Socket
    piece_sent = transmit s (answers ++ rest) (take n (drop sent data'))
send_loop_exactly data' (refused ∷ answers) rest sent s e le h = absurd h

-- `send_data` uses up the answers that take exactly the data, and hands over the data in order.
pub send_data_exactly :
    (data' : List ℕ) (answers rest : List SendAnswer) (s : Socket)
    → s.os.sends ≡ answers ++ rest
    → TakesExactly (length data') answers
    → send_data data' s ≡ ok true (transmit s rest data')
unfolding send_data
send_data_exactly data' answers rest s e h =
    >>=-ok (λ u. send_loop data' u.os.sends 0 u) (λ sent u. ok (sent == length data') u) {s = s}
      (ap (λ xs. send_loop data' xs 0 s) e
        ∙ send_loop_exactly data' answers rest 0 s e (omega arith)
            (subst (λ k. TakesExactly k answers) (omega arith) h))
    ∙ ap (λ b. ok b (transmit s rest data')) (ground arith)

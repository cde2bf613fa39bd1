-- ===== src/Socket/Transfer.antt =====
-- `send_data` and `receive`: what reaches the other side, and what is read.
use p2purr.Base.{
  ℕ, ◌+◌, ◌-◌, ◌≤◌, ◌<◌, ◌≡◌, sym, ap, ◌∙◌, ◌⊎◌, subst, true, some, List, [], ◌∷◌, ◌++◌,
  append_assoc, append-nil, arith, length, take, drop, take-append-drop, lt→ltb, le→ltb_false, inl,
  inr, memcpy, ok, drop_all, drop-drop, >>=-ok, ◌==◌,
}
use native.Mathlib.Nat.{add-zero}
use p2purr.Socket.{
  RecvAnswer, got, closed, failed, SendAnswer, took, refused, Socket, transmit, send_loop,
  send_data, Receiving, recv_loop, receive,
}

pub recv_loop_end :
    (answers : List RecvAnswer) (off max' total : ℕ) (r : Receiving)
    → max' ≤ total
    → recv_loop answers off max' total r ≡ ok total r
unfolding recv_loop
recv_loop_end [] off max' total r h = ground arith
recv_loop_end (got bytes ∷ rest) off max' total r h = rw (le→ltb_false total max' h)
recv_loop_end (closed ∷ rest) off max' total r h = rw (le→ltb_false total max' h)
recv_loop_end (failed ∷ rest) off max' total r h = rw (le→ltb_false total max' h)

-- If the socket is open and the next `recv` gives some bytes, at most as many as asked for, which fit
-- in the buffer at the offset, `receive` returns their number, however few they are, has put them at
-- the offset, and leaves the later answers alone.
pub receive_once :
    (off max' : ℕ) (r : Receiving) (rest : List RecvAnswer) (bytes b : List ℕ)
    → r.socket.is_sock_open ≡ true
    → r.socket.os.recvs ≡ got bytes ∷ rest
    → 0 < length bytes
    → length bytes ≤ max'
    → memcpy r.buffer off bytes ≡ some b
    → receive off max' r
      ≡ ok (length bytes) (record {
        socket = record (r.socket) { os = record (r.socket.os) { recvs = rest } };
        buffer = b;
      })
unfolding receive
receive_once off max' r rest bytes b open' e pos_n le copy = ground (
  arith,
  add-zero off,
  copy,
  recv_loop_end rest off (length bytes) (0 + length bytes) after_bytes (omega arith),
)
  where
    after_bytes : Receiving
    after_bytes = record {
      socket = record (r.socket) { os = record (r.socket.os) { recvs = rest } };
      buffer = b;
    }

-- The rest of the data is sent in order, whatever pieces `send` takes, given an answer for each piece
-- and no piece empty or larger than what is left.
abbrev pub TakesAll : ℕ → List SendAnswer → Type 0
TakesAll left [] = left ≡ 0
TakesAll left (took n ∷ rest) = (left ≡ 0) ⊎ ((0 < n) × (n ≤ left) × TakesAll (left - n) rest)
TakesAll left (refused ∷ rest) = left ≡ 0

-- The bytes of one piece, and those behind it.
pub piece-rest :
    (n sent : ℕ) (data' : List ℕ)
    → take n (drop sent data') ++ drop (sent + n) data' ≡ drop sent data'
piece-rest n sent data' =
    ap (λ xs. take n (drop sent data') ++ xs) (sym (drop-drop n sent data'))
    ∙ take-append-drop n (drop sent data')

pub send_loop_end :
    (data' : List ℕ) (answers : List SendAnswer) (sent : ℕ) (s : Socket)
    → length data' ≤ sent
    → send_loop data' answers sent s ≡ ok sent s
unfolding send_loop
send_loop_end data' [] sent s h = rw (le→ltb_false sent (length data') h)
send_loop_end data' (took n ∷ rest) sent s h = rw (le→ltb_false sent (length data') h)
send_loop_end data' (refused ∷ rest) sent s h = rw (le→ltb_false sent (length data') h)

ends :
    (data' : List ℕ) (answers : List SendAnswer) (sent : ℕ) (s : Socket)
    → sent ≡ length data'
    → send_loop data' answers sent s ≡ ok (length data') s
ends data' answers sent s e = send_loop_end data' answers sent s (omega arith) ∙ ap (λ k. ok k s) e

nothing_left :
    (data' : List ℕ) (sent : ℕ) (s : Socket)
    → sent ≡ length data'
    → s.os.transmitted ≡ s.os.transmitted ++ drop sent data'
nothing_left data' sent s e =
    sym (append-nil s.os.transmitted)
    ∙ ap (◌++◌ s.os.transmitted) (sym (drop_all sent data' (omega arith)))

send_loop_all :
    (data' : List ℕ) (answers : List SendAnswer) (sent : ℕ) (s : Socket)
    → sent ≤ length data'
    → TakesAll (length data' - sent) answers
    → (t : Socket) × (send_loop data' answers sent s ≡ ok (length data') t)
      × (t.os.transmitted ≡ s.os.transmitted ++ drop sent data')
unfolding send_loop
send_loop_all data' [] sent s le h =
    (s, ends data' [] sent s (omega arith), nothing_left data' sent s (omega arith))
send_loop_all data' (refused ∷ rest) sent s le h =
    (s, ends data' (refused ∷ rest) sent s (omega arith), nothing_left data' sent s (omega arith))
send_loop_all data' (took n ∷ rest) sent s le (inl z) =
    (s, ends data' (took n ∷ rest) sent s (omega arith), nothing_left data' sent s (omega arith))
send_loop_all data' (took n ∷ rest) sent s le (inr (some_taken, fits, h)) =
    let (t, run, all) =
      send_loop_all data' rest (sent + n) (transmit s rest (take n (drop sent data'))) (omega arith)
        (subst (λ k. TakesAll k rest) (omega arith) h) in
    (
      t,
      rw (lt→ltb sent (length data') (omega arith)) run,
      all
          ∙ append_assoc s.os.transmitted (take n (drop sent data')) (drop (sent + n) data')
          ∙ ap (◌++◌ s.os.transmitted) (piece-rest n sent data'),
    )

-- If `send` takes the data in pieces, each of at least one byte and at most what is left, and enough
-- answers come, `send_data` returns true and has handed over exactly the data, in order.
pub send_data-all :
    (data' : List ℕ) (s : Socket)
    → TakesAll (length data') s.os.sends
    → (t : Socket) × (send_data data' s ≡ ok true t)
      × (t.os.transmitted ≡ s.os.transmitted ++ data')
unfolding send_data
send_data-all data' s h =
    let (t, run, all) =
      send_loop_all data' s.os.sends 0 s (omega arith)
        (subst (λ k. TakesAll k s.os.sends) (omega arith) h) in
    (
      t,
      >>=-ok (λ u. send_loop data' u.os.sends 0 u) (λ sent u. ok (sent == length data') u) {s = s}
            run
          ∙ ap (λ b. ok b t) (ground arith),
      all,
    )

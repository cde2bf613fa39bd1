-- ===== src/Socket/Silence.antt =====
-- `receive` when `recv` gives no bytes: it fails, or the peer has closed the connection.
use p2purr.Base.{
  ℕ, ◌<◌, ◌≡◌, ap, ◌∙◌, Bool, true, not, List, ◌∷◌, lt→ltb, if◌then◌else◌, Outcome, ok, throw,
  within, receive_exception,
}
use p2purr.Socket.{
  Socket, Receiving, RecvAnswer, closed, failed, hang_up, receive, recv_loop, with_recvs,
  close_sock,
}

module _ (off max' : ℕ) (r : Receiving) (rest : List RecvAnswer) where
  pub at_answer :
      (answers : List RecvAnswer)
      → r.socket.is_sock_open ≡ true
      → r.socket.os.recvs ≡ answers
      → receive off max' r ≡ recv_loop answers off max' 0 r
  unfolding receive
  at_answer answers open' e =
      ap (λ b. if not b then ok 0 r else recv_loop r.socket.os.recvs off max' 0 r) open'
      ∙ ap (λ xs. recv_loop xs off max' 0 r) e

  pub receive-failed :
      r.socket.is_sock_open ≡ true
      → r.socket.os.recvs ≡ failed ∷ rest
      → 0 < max'
      → receive off max' r ≡ throw receive_exception (with_recvs r rest)
  unfolding recv_loop
  receive-failed open' e lt =
      at_answer (failed ∷ rest) open' e
      ∙ ap (λ b. if b then throw receive_exception (with_recvs r rest) else ok 0 r)
          (lt→ltb 0 max' lt)

  pub receive-closed :
      {b : Bool} {h : Socket}
      → r.socket.is_sock_open ≡ true
      → r.socket.os.recvs ≡ closed ∷ rest
      → 0 < max'
      → close_sock (with_recvs r rest).socket ≡ ok b h
      → receive off max' r ≡ ok 0 (record r { socket = h })
  unfolding recv_loop hang_up
  receive-closed open' e lt shut =
      at_answer (closed ∷ rest) open' e
      ∙ ap (λ b. if b then hung_up (close_sock (with_recvs r rest).socket) else ok 0 r)
          (lt→ltb 0 max' lt)
      ∙ ap hung_up shut
    where
      hung_up : Outcome Socket Bool → Outcome Receiving ℕ
      hung_up =
          within (λ closed' t. ok 0 (record (with_recvs r rest) { socket = t }))
            (λ x t. throw x (record (with_recvs r rest) { socket = t }))

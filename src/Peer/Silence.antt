-- ===== src/Peer/Silence.antt =====
-- `recv_pkt` when `recv` gives no bytes: it fails, or the peer has closed the connection.
use p2purr.Base.{
  ℕ, ◌-◌, ◌<◌, ◌≡◌, ap, ◌∙◌, Bool, false, not, Option, none, List, ◌∷◌, arith, ltb, if◌then◌else◌,
  Outcome, ok, ◌>>=◌, ◌>>◌,
}
use p2purr.Packet.{Packet, Platform}
use p2purr.Socket.{Socket, RecvAnswer, closed, failed, close_sock}
use p2purr.Socket.Silence.{receive-failed, receive-closed}
use p2purr.Socket.Closing.{close_sock-is_sock_open}
use p2purr.Peer.{
  PeerConnHandler, conn_active, recv_pkt, try_recv, receive_at, received, process, pkt_loop,
  clear_read, return_last, last_pkt, caught,
}
use p2purr.Peer.Receive.{IsListening}

-- The socket after the answer.
abbrev pub answered : PeerConnHandler → List RecvAnswer → Socket
answered s rest = record (s.sock_helper) { os = record (s.sock_helper.os) { recvs = rest } }

module _ (env : Platform) (s : PeerConnHandler) (rest : List RecvAnswer) where
  room : IsListening s → 0 < s.buff_size → 0 < s.buff_size - s.curr_buff_idx
  room v pos_n = omega (arith, v.at_start)

  -- When `recv` fails on an open connection with an empty buffer, `recv_pkt` returns null and changes
  -- nothing else: the packets, the current packet, the buffer and the socket are as they were.
  pub recv_pkt-failed :
      IsListening s
      → 0 < s.buff_size
      → s.sock_helper.os.recvs ≡ failed ∷ rest
      → recv_pkt env s ≡ ok none (record s { sock_helper = answered s rest })
  unfolding recv_pkt try_recv receive_at
  recv_pkt-failed v lt e =
      ap (λ o. caught (then' (received s o)))
        (receive-failed s.curr_buff_idx (s.buff_size - s.curr_buff_idx)
          (record { socket = s.sock_helper; buffer = s.recv_buffer }) rest v.open' e (room v lt))
    where
      then' : Outcome PeerConnHandler ℕ → Outcome PeerConnHandler (Option Packet)
      then' o = ((λ _. o) >>= λ n. process env n >>= λ _. return_last) s

  -- When the peer has closed the connection, `recv_pkt` closes the socket and returns the last packet
  -- that is complete, as the call before did. The packets, the current packet and the buffer are as they
  -- were, and the connection is active only if `close` or `shutdown` has failed.
  pub recv_pkt-closed :
      (b : Bool) (h : Socket)
      → IsListening s
      → 0 < s.buff_size
      → s.sock_helper.os.recvs ≡ closed ∷ rest
      → close_sock (answered s rest) ≡ ok b h
      → (recv_pkt env s ≡ ok (last_pkt s.completed_pkts) (record s { sock_helper = h }))
        × (conn_active (record s { sock_helper = h }) ≡ not b)
  unfolding recv_pkt try_recv receive_at process
  recv_pkt-closed b h v lt e shut = (
    ap (λ o. caught (then' (received s o)))
          (receive-closed s.curr_buff_idx (s.buff_size - s.curr_buff_idx)
            (record { socket = s.sock_helper; buffer = s.recv_buffer }) rest v.open' e (room v lt)
            shut)
        ∙ ap (λ c. caught (over c)) empty,
    close_sock-is_sock_open (answered s rest) h b shut,
  )
    where
      then' : Outcome PeerConnHandler ℕ → Outcome PeerConnHandler (Option Packet)
      then' o = ((λ _. o) >>= λ n. process env n >>= λ _. return_last) s

      over : Bool → Outcome PeerConnHandler (Option Packet)
      over c =
          ((λ t. if c then (pkt_loop env 1 0 >> clear_read 0) t else ok tt t) >>= λ _. return_last)
            (record s { sock_helper = h })

      empty : ltb s.curr_buff_idx 0 ≡ false
      empty = ground (arith, v.at_start)

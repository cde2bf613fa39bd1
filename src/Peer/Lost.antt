-- ===== src/Peer/Lost.antt =====
-- `recv_pkt` on a connection whose index has been left behind the start of the buffer, as it is by a
-- refused packet: the length of what is received is compared with the index alone.
use p2purr.Base.{
  ℕ, ◌+◌, ◌-◌, ◌≤◌, ◌<◌, ◌≡◌, ap, ◌∙◌, Bool, true, Option, none, some, List, ◌∷◌, ◌++◌, arith,
  length, take, drop, le→leb, le→ltb_false, if◌then◌else◌, memcpy, Outcome, ok, ◌>>=◌, ◌>>◌,
}
use p2purr.Packet.{Packet, Platform}
use p2purr.Socket.{RecvAnswer, got}
use p2purr.Socket.Transfer.{receive_once}
use p2purr.Peer.{
  PeerConnHandler, recv_pkt, try_recv, receive_at, received, process, pkt_loop, clear_read,
  return_last, last_pkt, caught,
}
use p2purr.Peer.Silence.{answered}

module _ (env : Platform) (s : PeerConnHandler) (rest : List RecvAnswer) (bytes : List ℕ) where
  abbrev pub stored : PeerConnHandler
  stored = record s {
    sock_helper = answered s rest;
    recv_buffer =
        take s.curr_buff_idx s.recv_buffer
        ++ (bytes ++ drop (s.curr_buff_idx + length bytes) s.recv_buffer);
  }

  copied :
      length s.recv_buffer ≡ s.buff_size
      → s.curr_buff_idx + length bytes ≤ s.buff_size
      → memcpy s.recv_buffer s.curr_buff_idx bytes ≡ some stored.recv_buffer
  unfolding memcpy
  copied room fits =
      ap (λ b. if b then some stored.recv_buffer else none)
        (le→leb (s.curr_buff_idx + length bytes) (length s.recv_buffer) (omega (arith, room)))

  -- On an open connection, the next `recv` gives at least one byte, and no more bytes than the index is
  -- behind the buffer's start nor than the buffer has room for behind the index. Then the bytes are
  -- stored behind the index and never read: `recv_pkt` returns the last packet that was complete before,
  -- and the packets, the current packet and the index stay as they were.
  pub recv_pkt_lost :
      s.sock_helper.is_sock_open ≡ true
      → s.sock_helper.os.recvs ≡ got bytes ∷ rest
      → 0 < length bytes
      → length bytes ≤ s.curr_buff_idx
      → s.curr_buff_idx + length bytes ≤ s.buff_size
      → length s.recv_buffer ≡ s.buff_size
      → recv_pkt env s ≡ ok (last_pkt s.completed_pkts) stored
  unfolding recv_pkt try_recv receive_at process
  recv_pkt_lost open' e pos_n few fits room =
      ap (λ o. caught (then' (received s o)))
        (receive_once s.curr_buff_idx (s.buff_size - s.curr_buff_idx)
          (record { socket = s.sock_helper; buffer = s.recv_buffer }) rest bytes stored.recv_buffer
          open' e pos_n (omega (arith, few, fits)) (copied room fits))
      ∙ ap (λ c. caught (over c)) (le→ltb_false s.curr_buff_idx (length bytes) few)
    where
      then' : Outcome PeerConnHandler ℕ → Outcome PeerConnHandler (Option Packet)
      then' o = ((λ _. o) >>= λ n. process env n >>= λ _. return_last) s

      over : Bool → Outcome PeerConnHandler (Option Packet)
      over c =
          ((λ t.
                if c
                then (pkt_loop env (length bytes + 1) (length bytes) >> clear_read (length bytes)) t
                else ok tt t)
              >>= λ _. return_last)
            stored

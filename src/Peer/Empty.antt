-- ===== src/Peer/Empty.antt =====
-- `recv_pkt` on a packet with an empty payload.
use p2purr.Base.{
  ℕ, zero, suc, true, ◌+◌, ◌<◌, ◌≤◌, ◌≡◌, refl, ap, ◌∙◌, none, some, List, ◌∷◌, arith, length, drop,
  Agree, get_elem?-append_left, ok, throw, Exception, packet_exception, ◌>>◌, >>=-ok, >>-throw,
  lt→ltb, if◌then◌else◌,
}
use p2purr.Packet.{Packet, Platform, set_buff_size}
use p2purr.Packet.Wire.{Message, IsMessage, wire}
use p2purr.Packet.Rebuild.{for_rebuild}
use p2purr.Packet.Rebuild.Ready.{IsFresh}
use p2purr.Packet.Rebuild.Empty.{rebuild_empty}
use p2purr.Socket.{RecvAnswer, got}
use p2purr.Peer.{
  PeerConnHandler, receive_at, pkt_loop, pkt_round, process, current, context, settle, return_last,
  try_recv, caught, recv_pkt, clear_read,
}
use p2purr.Peer.Stream.{current-buff_total_len}
use p2purr.Peer.Receive.{IsListening, filled, receive_at-got}

module _ (env : Platform) (total : ℕ) (s : PeerConnHandler) where
  pub current-IsFresh : s.current_pkt ≡ none → IsFresh (current env total s)
  unfolding current set_buff_size for_rebuild
  current-IsFresh e =
      rw e (record { read_none = refl; length_unknown = refl; no_length = refl; no_header = refl })

  current-has_buff_idx : s.current_pkt ≡ none → (current env total s).has_buff_idx ≡ true
  unfolding current set_buff_size for_rebuild
  current-has_buff_idx e = rw e refl

  -- A round that throws ends the call.
  process-throw :
      (e : Exception) (t : PeerConnHandler)
      → s.curr_buff_idx < total
      → pkt_round env total s ≡ throw e t
      → process env total s ≡ throw e t
  unfolding process pkt_loop
  process-throw e t lt run =
      rw (lt→ltb s.curr_buff_idx total lt) (
        >>-throw (pkt_loop env (total + 1) total) (clear_read total) (at (total + 1) (omega arith)))
    where
      at : (fuel : ℕ) → 0 < fuel → pkt_loop env fuel total s ≡ throw e t
      at zero pos_n = absurd (omega arith)
      at (suc fuel) pos_n =
          ap (λ b. if b then (pkt_round env total >> pkt_loop env fuel total) s else ok tt s)
            (lt→ltb s.curr_buff_idx total lt)
          ∙ >>-throw (pkt_round env total) (pkt_loop env fuel total) run

-- On an open connection with an empty buffer and no packet begun, the next `recv` gives the header of a
-- message that fits and whose payload is empty, at least one byte more, and not more than the buffer
-- takes. Then `recv_pkt` completes no packet and returns null, and leaves the refused packet as the
-- current one and the index behind its header, where the next call goes on.
pub recv_pkt_empty :
    (env : Platform) (m : Message) (s : PeerConnHandler) (rest : List RecvAnswer) (bytes : List ℕ)
    → IsMessage m
    → length m.body ≡ 0
    → IsListening s
    → s.current_pkt ≡ none
    → s.sock_helper.os.recvs ≡ got bytes ∷ rest
    → 12 < length bytes
    → length bytes ≤ s.buff_size
    → Agree bytes 0 (wire m) 0 12
    → (t : PeerConnHandler) × (p : Packet) × (recv_pkt env s ≡ ok none t)
      × (t.completed_pkts ≡ s.completed_pkts)
      × (t.current_pkt ≡ some p)
      × (t.curr_buff_idx ≡ 12)
      × (t.sock_helper.os.recvs ≡ rest)
unfolding recv_pkt try_recv pkt_round
recv_pkt_empty env m s rest bytes v empty l none_yet e many le agree =
    let f = filled s rest bytes in
    let total = length bytes in
    let (h, run) =
      rebuild_empty env m v empty (context env total f) 0 total
        (current-IsFresh env total f none_yet) (current-has_buff_idx env total f none_yet)
        l.at_start (current-buff_total_len env total f (omega (arith, l.small))) (omega arith)
        (λ j lt.
          get_elem?-append_left bytes (drop total s.recv_buffer) (0 + j) (omega arith)
          ∙ agree j lt) in
    (
      _,
      _,
      ap caught (
          >>=-ok receive_at _ (receive_at-got s rest bytes l e (omega arith) le)
          ∙ >>-throw (process env total) return_last (
              process-throw env total f packet_exception _ (omega (arith, l.at_start))
                (ap (settle env f) run))),
      refl,
      refl,
      refl,
      refl,
    )

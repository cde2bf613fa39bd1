-- ===== src/Tests/Uses.antt =====
-- A new connection that is given a packet with an empty payload, and is to be given more.
use p2purr.Base.{
  ℕ, ◌+◌, ◌-◌, ◌≤◌, ◌≡◌, refl, sym, subst, none, [], ◌∷◌, ◌++◌, List, arith, ok, pos, length,
  length-replicate, get_elem?-append_left, Ends,
}
use p2purr.Packet.Wire.{wire}
use p2purr.Socket.{Socket, RecvAnswer, got}
use p2purr.Socket.Addresses.{resolve, build_addrinfo_struct, get_all_ip_from_addrinfo, collect_ips}
use p2purr.Socket.Bounds.{NextFits}
use p2purr.Socket.Setup.{
  Fresh, socket_helper, set_sock_options, set_options, set_blocking, set_flags,
}
use p2purr.Peer.{PeerConnHandler, accept_peer, new_peer, receive_at, recv_pkt}
use p2purr.Peer.Receive.{IsListening}
use p2purr.Peer.Empty.{recv_pkt_empty}
use p2purr.Peer.InBounds.{NextGiven}
use p2purr.Peer.Reach.{InUse, made, then', received, InUse-InBounds, InUse-receive_at}
use p2purr.Tests.{platform}
use p2purr.Tests.Streams.{nothing, nothing-IsMessage}
use p2purr.Tests.Servers.{fresh_5}
use p2purr.Tests.Admission.{helper_9}

abbrev to_come : List RecvAnswer
to_come = got (wire nothing ++ 255 ∷ []) ∷ got (255 ∷ 0 ∷ 9 ∷ []) ∷ []

abbrev fresh_with_bytes : Fresh
fresh_with_bytes = record fresh_5 { os = record (fresh_5.os) { recvs = to_come } }

abbrev helper_with_bytes : Socket
helper_with_bytes = record helper_9 { os = record (helper_9.os) { recvs = to_come } }

abbrev at_first : PeerConnHandler
at_first = accept_peer (49 ∷ []) 4000 (pos 9) helper_with_bytes

at_first-InUse : InUse platform at_first
unfolding new_peer resolve build_addrinfo_struct get_all_ip_from_addrinfo collect_ips socket_helper
    set_sock_options set_options set_blocking set_flags
at_first-InUse = made {helper = helper_with_bytes} fresh_with_bytes (49 ∷ []) 4000 (pos 9) refl

at_first-IsListening : IsListening at_first
unfolding accept_peer
at_first-IsListening = record {
  open' = refl;
  at_start = refl;
  room = length-replicate {A = ℕ} 1500 0;
  small = omega arith;
}

-- The packet is refused, and the index stays at 12.
refused_packet :
    (t : PeerConnHandler) × (recv_pkt platform at_first ≡ ok none t)
    × (t.curr_buff_idx ≡ 12)
    × (t.sock_helper.os.recvs ≡ got (255 ∷ 0 ∷ 9 ∷ []) ∷ [])
unfolding accept_peer
refused_packet =
    let (t, _, run, _, _, index, later) =
      recv_pkt_empty platform nothing at_first (got (255 ∷ 0 ∷ 9 ∷ []) ∷ [])
        (wire nothing ++ 255 ∷ []) nothing-IsMessage refl at_first-IsListening refl refl
        (omega arith) (omega arith)
        (λ t lt. get_elem?-append_left (wire nothing) (255 ∷ []) (0 + t) (omega arith)) in
    (t, run, index, later)

abbrev refusing : PeerConnHandler
refusing = refused_packet.0

refusing-InUse : InUse platform refusing
unfolding accept_peer
refusing-InUse =
    then' at_first-InUse (received (λ _. (omega arith, omega arith)) (refused_packet.1))

refusing-NextGiven : NextGiven refusing
refusing-NextGiven room =
    let h = InUse-InBounds platform refusing refusing-InUse in
    subst (NextFits (refusing.buff_size - refusing.curr_buff_idx)) (sym refused_packet.3)
      (omega arith, omega (arith, h.size_is, refused_packet.2))

InUse-receive_at_example :
    (length refusing.recv_buffer ≡ 1500)
    × (refusing.curr_buff_idx ≤ 1500)
    × Ends
        (λ n t. (n + refusing.curr_buff_idx ≤ 1500) × (length t.recv_buffer ≡ 1500))
        (λ _ t. length t.recv_buffer ≡ 1500)
        (receive_at refusing)
InUse-receive_at_example = InUse-receive_at platform refusing refusing-InUse refusing-NextGiven

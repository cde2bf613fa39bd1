-- ===== src/Tests/Busy.antt =====
-- A server that is made, connects to a peer, and starts; and a round in which a packet of the peer comes.
use p2purr.Base.{
  ℕ, ◌≡◌, refl, ap, ◌∙◌, Bool, true, false, some, List, [], ◌∷◌, arith, ◌==◌, pos, ok, inl, ◌>>◌,
  >>-ok, length-replicate,
}
use p2purr.Packet.{Packet}
use p2purr.Packet.Wire.{Message, wire}
use p2purr.Socket.{got}
use p2purr.Socket.Addresses.{
  resolve, build_addrinfo_struct, get_all_ip_from_addrinfo, collect_ips, read_ai,
}
use p2purr.Socket.Setup.{
  Fresh, socket_helper, set_flags, set_blocking, set_options, set_sock_options, connect_descriptor,
  connect_to_host, init_server, bind_and_listen,
}
use p2purr.Peer.{PeerConnHandler, accept_peer, new_peer, connect}
use p2purr.Peer.Stream.{AllDeliverable, AllRebuilt}
use p2purr.Peer.Receive.{IsListening}
use p2purr.Peer.Cut.{offset, IsCut}
use p2purr.Peer.Delivery.{recv_pkts-wires}
use p2purr.Server.{PollFd, P2PurrServer, has_peer, connect_to_peer, join, start}
use p2purr.Server.Disconnected.{remove_disconnected_peers}
use p2purr.Server.Removal.{remove_disconnected_peers_of_AllActive}
use p2purr.Server.Traffic.{with_peer, handle_each, handle_each-recv_pkts}
use p2purr.Server.Registry.{registry}
use p2purr.Server.Moves.{Moves}
use p2purr.Server.History.{Reachable-Moves}
use p2purr.Server.Reach.{connected, polled, started, Reachable, made, then'}
use p2purr.Server.Polling.{poll_round}
use p2purr.Server.Polling.Serve.{serve}
use p2purr.Server.Polling.Turn.{welcome, poll_round-turn}
use p2purr.Server.Polling.Busy.{IsRound, Rounds, no_round, a_round, Rounds-wires}
use p2purr.Tests.{platform, hello, hello-IsMessage}
use p2purr.Tests.Servers.{answers, fresh_3, fresh_5, helper_3, new, new-new_server, joined, linked}

abbrev one_piece : List (List ℕ)
one_piece = wire hello ∷ []

abbrev one : List Message
one = hello ∷ []

one-AllDeliverable : AllDeliverable one
one-AllDeliverable = (record { message = hello-IsMessage; not_empty = omega arith }, tt)

one_piece-IsCut : IsCut 1500 one 0 one_piece
unfolding offset
one_piece-IsCut = (omega arith, omega arith, inl refl, tt)

abbrev fresh_talking : Fresh
fresh_talking = record fresh_5 { os = record answers { recvs = got (wire hello) ∷ [] } }

abbrev talking : PeerConnHandler
talking = record joined {
  sock_helper = record (joined.sock_helper) {
    os = record (joined.sock_helper.os) { recvs = got (wire hello) ∷ [] };
  };
}

abbrev linked_talking : P2PurrServer
linked_talking = record linked { sock_to_peer_map = (pos 5, talking) ∷ [] }

linked_talking-connect_to_peer :
    connect_to_peer 1 fresh_talking (98 ∷ []) 9001 new ≡ ok tt linked_talking
unfolding connect_to_peer join new_peer accept_peer connect connect_to_host read_ai
    connect_descriptor resolve build_addrinfo_struct get_all_ip_from_addrinfo collect_ips
    socket_helper set_blocking set_flags set_sock_options set_options has_peer
linked_talking-connect_to_peer = refl

abbrev busy : P2PurrServer
busy = record linked_talking {
  is_local_server_running = true;
  server_sock_helper = record helper_3 {
    is_sock_init = true;
    os = record (helper_3.os) { binds = []; listens = [] };
  };
}

busy-start : start linked_talking ≡ ok tt busy
unfolding start init_server bind_and_listen
busy-start = refl

busy-Reachable : Reachable platform busy
busy-Reachable =
    then'
      (then' (made {s = new} 1 fresh_3 (97 ∷ []) 9000 new-new_server)
        (connected 1 fresh_talking (98 ∷ []) 9001 linked_talking-connect_to_peer))
      (started busy-start)

abbrev second_ready : ℕ → Bool
second_ready i = i == 1

abbrev watched : List PollFd
watched = record { fd = pos 5; events = 1 } ∷ []

busy-IsRound : IsRound second_ready 3 watched busy
busy-IsRound = record {
  own = record { fd = pos 3; events = 1 };
  runs = refl;
  entries = refl;
  mine = refl;
  others = (refl, tt);
  unset = refl;
  enough = omega arith;
}

talking-IsListening : IsListening talking
unfolding accept_peer
talking-IsListening = record {
  open' = refl;
  at_start = refl;
  room = length-replicate {A = ℕ} 1500 0;
  small = omega arith;
}

busy_round :
    (t : PeerConnHandler) × (poll_round platform 1 (λ n. fresh_5) (some second_ready) 4 busy
      ≡ ok tt (with_peer busy [] (pos 5) t []))
unfolding serve handle_each accept_peer has_peer
busy_round =
    let (t, _, run, _, _, _, _, _, lt) =
      recv_pkts-wires platform one one_piece talking [] one-AllDeliverable talking-IsListening refl
        refl refl one_piece-IsCut in
    (
      t,
      poll_round-turn platform 1 (λ n. fresh_5) second_ready 3 (record { fd = pos 3; events = 1 })
            watched busy refl refl refl (refl, tt) refl (omega arith)
          ∙ >>-ok (welcome 1 fresh_5 false >> serve platform (pos 5 ∷ []))
              (λ w. ok tt (remove_disconnected_peers w))
              (handle_each-recv_pkts platform (pos 5) 1 busy [] [] talking t refl run)
          ∙ ap (ok tt) (
              remove_disconnected_peers_of_AllActive (with_peer busy [] (pos 5) t [])
                (lt.open', tt)),
    )

busy-Rounds : Rounds platform 1 (pos 5) 1 busy (with_peer busy [] (pos 5) busy_round.0 [])
busy-Rounds = a_round (λ n. fresh_5) second_ready 3 watched busy-IsRound busy_round.1 no_round

Rounds-wires_example :
    (u : PeerConnHandler) × (ps : List Packet) × (registry ((pos 5, busy_round.0) ∷ []) (pos 5)
      ≡ some u)
    × AllRebuilt one ps
    × (u.completed_pkts ≡ ps)
unfolding accept_peer registry
Rounds-wires_example =
    Rounds-wires platform 1 (pos 5) one one_piece busy (with_peer busy [] (pos 5) busy_round.0 [])
      talking [] busy-Reachable busy-Rounds refl one-AllDeliverable talking-IsListening refl refl
      refl one_piece-IsCut

Reachable-Moves_example :
    Moves platform (registry ((pos 5, talking) ∷ [])) (registry ((pos 5, busy_round.0) ∷ []))
Reachable-Moves_example =
    Reachable-Moves platform busy (with_peer busy [] (pos 5) busy_round.0 []) busy-Reachable
      (polled 1 (λ n. fresh_5) (some second_ready) 4 busy_round.1)

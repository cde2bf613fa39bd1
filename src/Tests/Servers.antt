-- ===== src/Tests/Servers.antt =====
-- A server that is made, connects to a peer, and stops; and one whose peer hangs up.
use p2purr.Base.{
  ◌<◌, ◌⊎◌, Leaves, subst, ◌≡◌, ◌≤◌, refl, true, false, not, none, [], ◌∷◌, arith, length, ok, pos,
  negsuc,
}
use p2purr.Socket.Addresses.{
  resolved, resolve, build_addrinfo_struct, get_all_ip_from_addrinfo, collect_ips, read_ai,
}
use p2purr.Socket.{
  Socket, ipv4_info, Os, closed, close_sock, try_close, shut_down, close_descriptor,
}
use p2purr.Socket.Setup.{
  Fresh, socket_helper, set_flags, set_blocking, set_options, set_sock_options, connect_descriptor,
  connect_to_host,
}
use p2purr.Peer.{PeerConnHandler, last_pkt, accept_peer, new_peer, connect, close}
use p2purr.Peer.Receive.{IsListening}
use p2purr.Server.{
  P2PurrServer, has_peer, new_server, connect_to_peer, join, stop, close_all_connections,
  close_each, handle_client_communications,
}
use p2purr.Server.Disconnected.{remove_disconnected_peers}
use p2purr.Server.Outbound.{Joined, connect_to_peer-Joined}
use p2purr.Server.Table.{keys, Distinct, AllWatched}
use p2purr.Server.Reach.{connected, Reachable, made, then', Reachable-watched, Reachable-bound}
use p2purr.Server.Stopping.{stop-returns}
use p2purr.Server.HangUp.{remove_disconnected_peers-handle_client_communications}
use p2purr.Tests.{platform, connection, peer, peer-IsListening, server}
use p2purr.Tests.Streams.{hearing, hung_up, hung_up-close_sock}

-- A descriptor on which the calls to come succeed.
abbrev pub answers : Os
answers = record (connection.os) {
  recvs = [];
  sends = [];
  setsockopts = true ∷ true ∷ true ∷ true ∷ true ∷ true ∷ [];
  fcntls = true ∷ true ∷ true ∷ true ∷ true ∷ true ∷ [];
  binds = true ∷ [];
  listens = true ∷ [];
}

abbrev pub fresh_3 : Fresh
fresh_3 = record {
  created = pos 3;
  getaddrinfo = λ host port. resolved (ipv4_info (49 ∷ [])) [];
  os = answers;
}

abbrev pub fresh_5 : Fresh
fresh_5 = record {
  created = pos 5;
  getaddrinfo = λ host port. resolved (ipv4_info (49 ∷ [])) [];
  os = answers;
}

abbrev pub helper_3 : Socket
helper_3 = record {
  sock = pos 3;
  host = 97 ∷ [];
  port = 9000;
  is_sock_open = true;
  is_sock_init = false;
  ai = ipv4_info (49 ∷ []) ∷ [];
  ipv4_addrs = (49 ∷ []) ∷ [];
  ipv6_addrs = [];
  os = record answers {
    setsockopts = [];
    fcntls = true ∷ true ∷ true ∷ true ∷ [];
    nonblocking = true;
  };
}

abbrev pub new : P2PurrServer
new = record {
  host = 97 ∷ [];
  port = 9000;
  server_sock_helper = helper_3;
  is_local_server_running = false;
  max_inbound_connections = 1000;
  max_outbound_connections = 1000;
  sock_to_peer_map = [];
  pollfd_list = record { fd = pos 3; events = 1 } ∷ [];
  refused = [];
}

pub new-new_server : new_server 1 fresh_3 (97 ∷ []) 9000 ≡ ok new helper_3
unfolding new_server resolve build_addrinfo_struct get_all_ip_from_addrinfo collect_ips
    socket_helper set_blocking set_flags set_sock_options set_options
new-new_server = refl

-- The peer that it connects to.
abbrev pub joined : PeerConnHandler
joined = record (accept_peer (98 ∷ []) 9001 (negsuc 0) helper_3) {
  sock_helper = record {
    sock = pos 5;
    host = 98 ∷ [];
    port = 9001;
    is_sock_open = true;
    is_sock_init = true;
    ai = ipv4_info (49 ∷ []) ∷ [];
    ipv4_addrs = (49 ∷ []) ∷ [];
    ipv6_addrs = [];
    os = record answers { setsockopts = []; fcntls = []; connects = []; nonblocking = true };
  };
  client_conn = true;
}

abbrev pub linked : P2PurrServer
linked = record new {
  sock_to_peer_map = (pos 5, joined) ∷ [];
  pollfd_list = record { fd = pos 3; events = 1 } ∷ record { fd = pos 5; events = 1 } ∷ [];
}

linked-connect_to_peer : connect_to_peer 1 fresh_5 (98 ∷ []) 9001 new ≡ ok tt linked
unfolding connect_to_peer join new_peer accept_peer connect connect_to_host read_ai
    connect_descriptor resolve build_addrinfo_struct get_all_ip_from_addrinfo collect_ips
    socket_helper set_blocking set_flags set_sock_options set_options has_peer
linked-connect_to_peer = refl

linked-Reachable : Reachable platform linked
linked-Reachable =
    then' (made {s = new} 1 fresh_3 (97 ∷ []) 9000 new-new_server)
      (connected 1 fresh_5 (98 ∷ []) 9001 linked-connect_to_peer)

connect_to_peer-Joined_example :
    (linked ≡ new) ⊎ ((0 < 1000) × Joined fresh_5 (98 ∷ []) 9001 1 new linked)
connect_to_peer-Joined_example =
    subst
      (Leaves (λ _ t. (t ≡ new) ⊎ ((0 < 1000) × Joined fresh_5 (98 ∷ []) 9001 1 new t)) (λ _ _. ⊥))
      linked-connect_to_peer (connect_to_peer-Joined fresh_5 (98 ∷ []) 9001 1 new)

Reachable-watched_example :
    Distinct (keys linked.sock_to_peer_map)
    × AllWatched (keys linked.sock_to_peer_map) linked.pollfd_list
Reachable-watched_example = Reachable-watched platform linked linked-Reachable

Reachable-bound_example : length linked.sock_to_peer_map ≤ 1001
Reachable-bound_example = Reachable-bound platform linked linked-Reachable

abbrev stopped_server : P2PurrServer
stopped_server = record new {
  server_sock_helper = record helper_3 {
    sock = negsuc 0;
    is_sock_open = false;
    os = record (helper_3.os) { closes = [] };
  };
  pollfd_list = [];
}

linked-stop : stop linked ≡ ok true stopped_server
unfolding stop close_all_connections close_each close close_sock try_close shut_down
    close_descriptor
linked-stop = refl

stop-returns_example :
    (stopped_server.sock_to_peer_map ≡ [])
    × (stopped_server.is_local_server_running ≡ not true)
    × (stopped_server.server_sock_helper.is_sock_open ≡ not true)
stop-returns_example = stop-returns linked stopped_server true linked-stop

abbrev left_alone : P2PurrServer
left_alone = record server {
  sock_to_peer_map = (pos 6, peer) ∷ (pos 7, hearing (closed ∷ [])) ∷ [];
}

closed-IsListening : IsListening (hearing (closed ∷ []))
closed-IsListening = record {
  open' = refl;
  at_start = refl;
  room = peer-IsListening.room;
  small = omega arith;
}

remove_disconnected_peers-handle_client_communications_example :
    (t : P2PurrServer) × (handle_client_communications platform (pos 7) left_alone ≡ ok none t)
    × (has_peer (pos 7) (remove_disconnected_peers t).sock_to_peer_map ≡ false)
unfolding last_pkt has_peer
remove_disconnected_peers-handle_client_communications_example =
    remove_disconnected_peers-handle_client_communications platform (pos 7) [] left_alone
      ((pos 6, peer) ∷ []) (hearing (closed ∷ [])) [] hung_up refl refl refl refl closed-IsListening
      (omega arith) refl hung_up-close_sock

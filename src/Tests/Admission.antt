-- ===== src/Tests/Admission.antt =====
-- A client that comes while the table is above its limit, and is refused.
use p2purr.Base.{◌≡◌, refl, true, false, [], ◌∷◌, ok, pos, negsuc}
use p2purr.Socket.Addresses.{resolve, build_addrinfo_struct, get_all_ip_from_addrinfo, collect_ips}
use p2purr.Socket.{
  Socket, ipv4_info, ipv4, accepted, close_sock, try_close, shut_down, close_descriptor,
}
use p2purr.Socket.Setup.{
  socket_helper, set_sock_options, set_options, set_blocking, set_flags, server_accept_conns,
  accept_client, handle_addr_fam_and_get_ip_port,
}
use p2purr.Peer.{PeerConnHandler, accept_peer, new_peer, close}
use p2purr.Server.{P2PurrServer}
use p2purr.Tests.{connection, server}
use p2purr.Tests.Servers.{fresh_5, answers}

-- A server to which a client connects, with three peers in its table.
abbrev pub welcoming : P2PurrServer
welcoming = record server {
  server_sock_helper = record connection {
    os = record (connection.os) { accepts = accepted 9 (ipv4 (49 ∷ []) 4000) ∷ [] };
  };
}

welcoming-server_accept_conns :
    server_accept_conns welcoming.server_sock_helper ≡ ok (49 ∷ [], 4000, pos 9) connection
unfolding server_accept_conns handle_addr_fam_and_get_ip_port accept_client
welcoming-server_accept_conns = refl

abbrev pub helper_9 : Socket
helper_9 = record {
  sock = pos 9;
  host = 49 ∷ [];
  port = 4000;
  is_sock_open = true;
  is_sock_init = false;
  ai = ipv4_info (49 ∷ []) ∷ [];
  ipv4_addrs = (49 ∷ []) ∷ [];
  ipv6_addrs = [];
  os = record answers {
    setsockopts = [];
    fcntls = true ∷ true ∷ true ∷ true ∷ [];
    nonblocking = true;
  };
}

abbrev newcomer : PeerConnHandler
newcomer = accept_peer (49 ∷ []) 4000 (pos 9) helper_9

newcomer-new_peer : new_peer fresh_5 (49 ∷ []) 4000 (pos 9) ≡ ok newcomer helper_9
unfolding new_peer resolve build_addrinfo_struct get_all_ip_from_addrinfo collect_ips socket_helper
    set_sock_options set_options set_blocking set_flags
newcomer-new_peer = refl

-- The same with room for one peer.
abbrev full : P2PurrServer
full = record welcoming { max_inbound_connections = 1 }

abbrev turned_away : PeerConnHandler
turned_away = record newcomer {
  sock_helper = record helper_9 {
    sock = negsuc 0;
    is_sock_open = false;
    os = record (helper_9.os) { closes = [] };
  };
}

turned_away-close : close newcomer ≡ ok true turned_away
unfolding close accept_peer close_sock try_close shut_down close_descriptor
turned_away-close = refl

-- The server behind it, with the client that it has refused.
abbrev guarded : P2PurrServer
guarded = record full { server_sock_helper = connection; refused = turned_away ∷ [] }

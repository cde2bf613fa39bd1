-- ===== src/Tests/Connections.antt =====
-- Bytes that a connection takes and gives, and connections that end.
use p2purr.Base.{
  none, not, negsuc, ℕ, ◌+◌, ◌≡◌, refl, true, false, some, List, [], ◌∷◌, arith, pos, ok, inr,
  memcpy, get_elem?-append_left, sym,
}
use p2purr.Packet.{Packet}
use p2purr.Socket.{shut_down, close_descriptor, try_close, close_sock, ipv4_info, Socket}
use p2purr.Socket.Closing.{close_sock-is_sock_open}
use p2purr.Server.Disconnected.{remove_disconnected_peers}
use p2purr.Server.Removal.{
  AllActive, without, remove_disconnected_peers-AllActive, remove_disconnected_peers-first,
}
use p2purr.Peer.{PeerConnHandler, recv_pkt, last_pkt}
use p2purr.Peer.Stream.{AllRebuilt, Holds}
use p2purr.Peer.Receive.{IsListening, recv_pkt-got}
use p2purr.Tests.{
  received_bytes, platform, hello, hello-IsMessage, connection, peer, peer-IsListening, server,
  gone,
}

copied : memcpy {A = ℕ} (0 ∷ 0 ∷ 0 ∷ 0 ∷ []) 1 (1 ∷ 2 ∷ []) ≡ some (0 ∷ 1 ∷ 2 ∷ 0 ∷ [])
unfolding memcpy
copied = refl

recv_pkt-got_example :
    (t : PeerConnHandler) × (ps : List Packet) × (recv_pkt platform peer ≡ ok (last_pkt ps) t)
    × AllRebuilt (hello ∷ []) ps
    × (t.completed_pkts ≡ ps)
    × Holds hello 4 t.current_pkt
    × (t.sock_helper.os.recvs ≡ [])
    × (t.buff_size ≡ 1500)
    × (t.out_file ≡ none)
    × IsListening t
recv_pkt-got_example =
    recv_pkt-got platform (hello ∷ []) hello 0 4 peer [] received_bytes
      (record { message = hello-IsMessage; not_empty = omega arith }, tt)
      (record { message = hello-IsMessage; not_empty = omega arith }) peer-IsListening refl
      (omega arith) (omega arith) refl (inr (omega arith), omega arith) refl
      (λ t lt. sym (
        get_elem?-append_left received_bytes (2 ∷ 2 ∷ 0 ∷ 3 ∷ 0 ∷ 0 ∷ 0 ∷ 3 ∷ 7 ∷ 255 ∷ 9 ∷ [])
          (0 + t) (omega arith)))

remove_disconnected_peers-AllActive_example :
    AllActive (remove_disconnected_peers server).sock_to_peer_map
    × (remove_disconnected_peers (remove_disconnected_peers server)
        ≡ remove_disconnected_peers server)
remove_disconnected_peers-AllActive_example = remove_disconnected_peers-AllActive server refl

-- The descriptor 7 stays.
remove_disconnected_peers-first_example :
    AllActive (remove_disconnected_peers server).sock_to_peer_map
    × ((remove_disconnected_peers server).pollfd_list
        ≡ record { fd = pos 3; events = 1 }
          ∷ record { fd = pos 6; events = 1 }
          ∷ record { fd = pos 7; events = 1 }
          ∷ [])
unfolding without
remove_disconnected_peers-first_example =
    remove_disconnected_peers-first server [] ((pos 6, peer) ∷ (pos 7, gone) ∷ []) (pos 5) gone refl
      refl tt refl

abbrev closed_connection : Socket
closed_connection = record connection {
  sock = negsuc 0;
  is_sock_open = false;
  is_sock_init = false;
  ai = ipv4_info (49 ∷ []) ∷ [];
  ipv4_addrs = (49 ∷ []) ∷ [];
  ipv6_addrs = [];
  os = record (connection.os) { shutdowns = []; closes = [] };
}

connection-close_sock : close_sock connection ≡ ok true closed_connection
unfolding close_sock try_close shut_down close_descriptor
connection-close_sock = refl

close_sock-is_sock_open_example : closed_connection.is_sock_open ≡ not true
close_sock-is_sock_open_example =
    close_sock-is_sock_open connection closed_connection true connection-close_sock

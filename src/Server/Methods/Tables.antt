-- ===== src/Server/Methods/Tables.antt =====
-- The methods that change the peers of the table, or empty it, keep it sound.
use p2purr.Base.{
  ℕ, ◌≡◌, sym, subst, false, List, [], arith, ℤ, Outcome, Leaves, Behaves-any, >>=-Behaves,
  if-Behaves, within-Behaves,
}
use p2purr.Packet.{Packet, Platform}
use p2purr.Socket.{close_sock}
use p2purr.Socket.Setup.{init_server}
use p2purr.Peer.{PeerConnHandler}
use p2purr.Server.{
  P2PurrServer, recv_from, handle_client_communications, send_to, send_pkt_to_peer, close_each,
  close_all_connections, stop, start, with_table,
}
use p2purr.Server.Table.{keys}
use p2purr.Server.Sound.{IsSound, Sound, StaysSound, recv_from-keys, send_to-keys, close_each-keys}
use p2purr.Server.Methods.{reported-Sound}

-- The server with a table of the same descriptors.
with_table-Sound :
    {A : Type 0} (s : P2PurrServer) (o : Outcome (List (ℤ × PeerConnHandler)) A)
    → Sound s
    → Leaves
        (λ _ ts. keys ts ≡ keys s.sock_to_peer_map)
        (λ _ ts. keys ts ≡ keys s.sock_to_peer_map)
        o
    → StaysSound (with_table s o)
with_table-Sound s o h same =
    within-Behaves _ _ _ _ _ _ _ o same (λ _ ts e. moved ts e) (λ _ ts e. moved ts e)
  where
    moved :
        (ts : List (ℤ × PeerConnHandler))
        → keys ts ≡ keys s.sock_to_peer_map
        → Sound (record s { sock_to_peer_map = ts })
    moved ts e =
        subst (λ ks. IsSound s.max_inbound_connections s.max_outbound_connections ks s.pollfd_list)
          (sym e) h

pub send_pkt_to_peer-Sound :
    (pkt : Packet) (host : List ℕ) (port : ℕ) (s : P2PurrServer)
    → Sound s
    → StaysSound (send_pkt_to_peer pkt host port s)
unfolding send_pkt_to_peer
send_pkt_to_peer-Sound pkt host port s h = reported-Sound _ (
    >>=-Behaves _ (λ _ t. Sound t) _ (λ _ t. Sound t) _
      (λ t. with_table t (send_to pkt host port t.sock_to_peer_map)) _ s
      (with_table-Sound s (send_to pkt host port s.sock_to_peer_map) h
        (send_to-keys pkt host port s.sock_to_peer_map))
      (λ _ t g. g) (λ found t g. if-Behaves _ _ _ found _ _ (λ _. g) (λ _. g)))

emptied-Sound :
    (s : P2PurrServer) → Sound s → Sound (record s { sock_to_peer_map = []; pollfd_list = [] })
emptied-Sound s h = record {
  inbound_limit = h.inbound_limit;
  outbound_limit = h.outbound_limit;
  bounded = omega arith;
  distinct = tt;
  watched = tt;
}

pub close_all_connections-Sound :
    (s : P2PurrServer) → Sound s → StaysSound (close_all_connections s)
unfolding close_all_connections
close_all_connections-Sound s h = reported-Sound _ (
    >>=-Behaves _ (λ _ t. Sound t) _ (λ _ t. Sound t) _
      (λ t. with_table t (close_each t.sock_to_peer_map)) _ s
      (with_table-Sound s (close_each s.sock_to_peer_map) h (close_each-keys s.sock_to_peer_map))
      (λ _ t g. g) (λ _ t g. emptied-Sound t g))

pub stop-Sound : (s : P2PurrServer) → Sound s → StaysSound (stop s)
unfolding stop
stop-Sound s h =
    >>=-Behaves _ (λ _ t. Sound t) _ (λ _ t. Sound t) _ close_all_connections _
      (record s { is_local_server_running = false })
      (close_all_connections-Sound (record s { is_local_server_running = false }) h) (λ _ t g. g)
      (λ _ t g.
        within-Behaves _ _ _ _ _ _ _ (close_sock t.server_sock_helper)
          (Behaves-any (close_sock t.server_sock_helper)) (λ _ _ _. g) (λ _ _ _. g))

pub handle_client_communications-Sound :
    (env : Platform) (fd : ℤ) (s : P2PurrServer)
    → Sound s
    → StaysSound (handle_client_communications env fd s)
unfolding handle_client_communications
handle_client_communications-Sound env fd s h =
    with_table-Sound s (recv_from env fd s.sock_to_peer_map) h
      (recv_from-keys env fd s.sock_to_peer_map)

pub start-Sound : (s : P2PurrServer) → Sound s → StaysSound (start s)
unfolding start
start-Sound s h =
    within-Behaves _ _ _ _ _ _ _ (init_server s.server_sock_helper)
      (Behaves-any (init_server s.server_sock_helper)) (λ _ _ _. h) (λ _ _ _. h)

-- ===== src/Server/Methods.antt =====
-- Each method of the server keeps a sound table and poll list, also when it throws.
pub mod Tables
use p2purr.Base.{
  ℕ, ◌≡◌, ◌≤◌, refl, sym, ap, subst, false, not, Option, none, some, List, [], ◌∷◌, arith, length,
  ltb, leb, ◌%◌, ◌^◌, if◌then◌else◌, ℤ, pos, negsuc, ltb_ℤ, Outcome, ok, exits, ◌>>◌, Leaves,
  Behaves-any, >>=-Behaves, if-Behaves, within-Behaves, ltb_false→le, Bool-cases, inl, inr,
}
use p2purr.Packet.{Packet, Platform}
use p2purr.Socket.{Socket, close_sock}
use p2purr.Socket.Setup.{
  Fresh, socket_helper, set_blocking, set_sock_options, server_accept_conns, connect_to_host,
  init_server,
}
use p2purr.Socket.Setup.Connecting.{connect_to_host-sock, server_accept_conns-sock}
use p2purr.Peer.{PeerConnHandler, conn_active, close, connect, new_peer}
use p2purr.Server.{
  P2PurrServer, ==_ℤ, accepted_on, make_peer, join, reported, admit, handle_new_client,
  connect_to_peer, recv_from, handle_client_communications, send_to, send_pkt_to_peer, close_each,
  close_all_connections, stop, start, new_server, with_table, add_fd_to_watch_list,
}
use p2purr.Server.Disconnected.{
  remove_disconnected_peers, active_peers, fds_to_rm, erase_fds, list_begin,
}
use p2purr.Server.Table.{keys}
use p2purr.Server.Sweep.{Distinct-active_peers, AllWatched-erase_fds}
use p2purr.Server.Sound.{
  IsSound, Sound, StaysSound, insert_peer-Sound, recv_from-keys, send_to-keys, close_each-keys,
}

nonnegative : (k : ℤ) → ltb_ℤ k (pos 0) ≡ false → ==_ℤ k (negsuc 0) ≡ false
nonnegative (pos n) e = refl
nonnegative (negsuc n) e = cc

admit-Sound :
    (events : ℕ) (k : ℤ) (peer : PeerConnHandler) (s : P2PurrServer)
    → ==_ℤ k (negsuc 0) ≡ false
    → Sound s
    → StaysSound (admit events k peer s)
unfolding admit
admit-Sound events k peer s v h =
    if-Behaves _ _ _ (ltb s.max_inbound_connections (length s.sock_to_peer_map)) _ _
      (λ _.
        within-Behaves _ _ _ _ _ _ _ (close peer) (Behaves-any (close peer)) (λ _ t _. h)
          (λ _ t _. h))
      (λ room. insert_peer-Sound events k peer s h v (
        omega (
          arith,
          ltb_false→le s.max_inbound_connections (length s.sock_to_peer_map) room,
          h.inbound_limit,
        )))

pub handle_new_client-Sound :
    (events : ℕ) (fresh : Fresh) (s : P2PurrServer)
    → Sound s
    → StaysSound (handle_new_client events fresh s)
unfolding handle_new_client
handle_new_client-Sound events fresh s h =
    >>=-Behaves _ (λ c t. (==_ℤ c.2 (negsuc 0) ≡ false) × Sound t) _ (λ _ t. Sound t) _
      (λ t. accepted_on t (server_accept_conns t.server_sock_helper)) _ s
      (within-Behaves _ _ _ _ _ _ _ (server_accept_conns s.server_sock_helper)
        (server_accept_conns-sock s.server_sock_helper) (λ c t v. (nonnegative c.2 v, h))
        (λ _ t _. h))
      (λ _ t g. g)
      (λ c t (v, g).
        >>=-Behaves _ (λ _ u. Sound u) _ (λ _ u. Sound u) _ (make_peer fresh c.0 (c.1 % 2 ^ 16) c.2)
          (λ peer. admit events c.2 peer) t
          (within-Behaves _ _ _ _ _ _ _ (new_peer fresh c.0 (c.1 % 2 ^ 16) c.2)
            (Behaves-any (new_peer fresh c.0 (c.1 % 2 ^ 16) c.2)) (λ _ _ _. g) (λ _ _ _. g))
          (λ _ u g'. g') (λ peer u g'. admit-Sound events c.2 peer u v g'))

connect-sock :
    (peer : PeerConnHandler)
    → Leaves (λ _ p. ltb_ℤ p.sock_helper.sock (pos 0) ≡ false) (λ _ _. Unit {0}) (connect peer)
unfolding connect
connect-sock peer =
    within-Behaves _ _ _ _ _ _ _ (connect_to_host peer.sock_helper)
      (connect_to_host-sock peer.sock_helper) (λ _ t e. e) (λ _ t _. tt)

-- A call that reports its exceptions leaves a sound server if it does so when it throws.
pub reported-Sound : (o : Outcome P2PurrServer (Unit {0})) → StaysSound o → StaysSound (reported o)
reported-Sound o h =
    within-Behaves _ (λ _ t. Sound t) (λ _ t. Sound t) _ _ _ _ o h (λ _ t g. g) (λ _ t g. g)

pub connect_to_peer-Sound :
    (events : ℕ) (fresh : Fresh) (host : List ℕ) (port : ℕ) (s : P2PurrServer)
    → Sound s
    → StaysSound (connect_to_peer events fresh host port s)
unfolding connect_to_peer join
connect_to_peer-Sound events fresh host port s h =
    if-Behaves _ _ _ (leb s.max_outbound_connections (length s.sock_to_peer_map)) _ _ (λ _. h)
      (λ room. reported-Sound _ (
        >>=-Behaves _ (λ _ t. Sound t × (length t.sock_to_peer_map ≤ 1000)) _ (λ _ t. Sound t) _
          (make_peer fresh host port (negsuc 0)) (join events) s
          (within-Behaves _ _ _ _ _ _ _ (new_peer fresh host port (negsuc 0))
            (Behaves-any (new_peer fresh host port (negsuc 0))) (λ _ _ _. (h, few room))
            (λ _ _ _. h))
          (λ _ t g. g)
          (λ peer t (g, small).
            within-Behaves _ _ _ _ _ _ _ (connect peer) (connect-sock peer)
              (λ _ p v.
                insert_peer-Sound events p.sock_helper.sock p t g (nonnegative p.sock_helper.sock v)
                  small)
              (λ _ p _. g))))
  where
    few :
        leb s.max_outbound_connections (length s.sock_to_peer_map) ≡ false
        → length s.sock_to_peer_map ≤ 1000
    few room = ground (arith, h.outbound_limit)

-- What the constructor returns.
pub new_server-Sound :
    (events : ℕ) (fresh : Fresh) (host : List ℕ) (port : ℕ)
    → Leaves (λ s _. Sound s) (λ _ _. Unit {0}) (new_server events fresh host port)
unfolding new_server
new_server-Sound events fresh host port = made (socket_helper fresh host port (negsuc 0))
  where
    made :
        (o : Option Socket)
        → Leaves
            (λ s _. Sound s)
            (λ _ _. Unit {0})
            (elim o as (λ _. Outcome Socket P2PurrServer) [
              | none ↦ exits
              | some helper ↦
                  (do
                    set_blocking false
                    set_sock_options
                    λ h.
                        ok
                          (add_fd_to_watch_list h.sock events (record {
                            host = host;
                            port = port;
                            server_sock_helper = h;
                            is_local_server_running = false;
                            max_inbound_connections = 1000;
                            max_outbound_connections = 1000;
                            sock_to_peer_map = [];
                            pollfd_list = [];
                            refused = [];
                          }))
                          h)
                    helper
            ])
    made none = tt
    made (some helper) =
        >>=-Behaves _ (λ _ _. Unit {0}) _ (λ _ _. Unit {0}) _ (set_blocking false) _ helper
          (Behaves-any (set_blocking false helper)) (λ _ _ _. tt)
          (λ _ t _.
            >>=-Behaves _ (λ _ _. Unit {0}) _ (λ _ _. Unit {0}) _ set_sock_options _ t
              (Behaves-any (set_sock_options t)) (λ _ _ _. tt)
              (λ _ u _. record {
                inbound_limit = refl;
                outbound_limit = refl;
                bounded = omega arith;
                distinct = tt;
                watched = tt;
              }))

fewer :
    (peers : List (ℤ × PeerConnHandler)) → length (keys (active_peers peers)) ≤ length (keys peers)
unfolding active_peers
fewer [] = omega arith
fewer ((k, peer) ∷ peers) = elim (Bool-cases (conn_active peer)) [
  | inl open' ↦ rw open' (omega (arith, fewer peers))
  | inr shut ↦ rw shut (omega (arith, fewer peers))
]

pub remove_disconnected_peers-Sound :
    (s : P2PurrServer) → Sound s → Sound (remove_disconnected_peers s)
unfolding remove_disconnected_peers
remove_disconnected_peers-Sound s h = elim (Bool-cases s.is_local_server_running) [
  | inl runs ↦ subst Sound (sym (ap (λ b. if not b then s else swept) runs)) (record {
    inbound_limit = h.inbound_limit;
    outbound_limit = h.outbound_limit;
    bounded = omega (arith, h.bounded, fewer s.sock_to_peer_map);
    distinct = Distinct-active_peers s.sock_to_peer_map h.distinct;
    watched =
        AllWatched-erase_fds s.sock_to_peer_map s.pollfd_list (fds_to_rm s.sock_to_peer_map) refl
          h.distinct h.watched;
  })
  | inr idle ↦ subst Sound (sym (ap (λ b. if not b then s else swept) idle)) h
]
  where
    swept : P2PurrServer
    swept = record s {
      sock_to_peer_map = active_peers s.sock_to_peer_map;
      pollfd_list = erase_fds (fds_to_rm s.sock_to_peer_map) (list_begin s.pollfd_list);
    }

-- ===== src/Server/Moves/Methods.antt =====
-- Each method of the server does only what may happen to its peers.
use mathlib.Core.List.Permᴰ
use p2purr.Base.{
  ℕ, ◌%◌, ◌^◌, ◌≡◌, refl, sym, ap, subst, true, List, [], length, ltb, leb, inl, inr, ℤ, negsuc,
  Outcome, ok, throw, fault, no_fuel, exits, Leaves, Behaves-any, Behaves-mono, ◌>>=◌, >>=-Behaves,
  if-Behaves, within-Behaves,
}
use p2purr.Packet.{Packet, Platform}
use p2purr.Socket.{get_sockfd}
use p2purr.Socket.Setup.{Fresh, server_accept_conns, init_server}
use p2purr.Peer.{new_peer, connect, close}
use p2purr.Server.{
  P2PurrServer, accepted_on, make_peer, admit, handle_new_client, join, reported, connect_to_peer,
  add_fd_to_watch_list, recv_from, handle_client_communications, send_pkt_to_peer,
  close_all_connections, stop, start,
}
use p2purr.Server.Table.{keys, Distinct}
use p2purr.Server.Stopping.{close_all_connections-Emptied, stop-Leaves}
use p2purr.Server.Registry.{Registry, registry, viewed_server, with_registry}
use p2purr.Server.Registry.Receiving.{recv_from-registry}
use p2purr.Server.Registry.Sending.{quiet, send_in, send_pkt_to_peer-registry}
use p2purr.Server.Moves.{
  IsNew, accepted_peer, connected_peer, Moves, clears, MovesIn, MovesTo, recv_in-MovesIn,
  sent-MovesIn, with_table-MovesTo, insert_peer-Moves,
}

-- A call is what it returns.
returned : {S A : Type 0} (o : Outcome S A) → Leaves (λ a t. o ≡ ok a t) (λ _ _. Unit {0}) o
returned (ok a t) = refl
returned (throw e t) = tt
returned fault = tt
returned no_fuel = tt
returned exits = tt

module _ (env : Platform) (r : Registry) where
  make_peer-MovesTo :
      (fresh : Fresh) (host : List ℕ) (port : ℕ) (sock : ℤ) (s : P2PurrServer)
      → Moves env r (registry s.sock_to_peer_map)
      → Leaves
          (λ peer t. IsNew peer × Moves env r (registry t.sock_to_peer_map))
          (λ _ t. Moves env r (registry t.sock_to_peer_map))
          (make_peer fresh host port sock s)
  make_peer-MovesTo fresh host port sock s m =
      within-Behaves _ _ _ _ _ _ _ (new_peer fresh host port sock)
        (returned (new_peer fresh host port sock))
        (λ peer h e. (accepted_peer fresh host port sock e, m)) (λ _ _ _. m)

  pub handle_new_client-MovesTo :
      (events : ℕ) (fresh : Fresh) (s : P2PurrServer)
      → Moves env r (registry s.sock_to_peer_map)
      → MovesTo env r (handle_new_client events fresh s)
  unfolding handle_new_client admit
  handle_new_client-MovesTo events fresh s m =
      >>=-Behaves _ (λ _ t. Moves env r (registry t.sock_to_peer_map)) _
        (λ _ t. Moves env r (registry t.sock_to_peer_map)) _
        (λ t. accepted_on t (server_accept_conns t.server_sock_helper)) _ s
        (within-Behaves _ (λ _ _. Unit {0}) (λ _ _. Unit {0}) _ _ _ _
          (server_accept_conns s.server_sock_helper) (Behaves-any _) (λ _ _ _. m) (λ _ _ _. m))
        (λ _ _ q. q)
        (λ c t m'.
          >>=-Behaves _ (λ peer u. IsNew peer × Moves env r (registry u.sock_to_peer_map)) _
            (λ _ u. Moves env r (registry u.sock_to_peer_map)) _
            (make_peer fresh c.0 (c.1 % 2 ^ 16) c.2) (λ peer. admit events c.2 peer) t
            (make_peer-MovesTo fresh c.0 (c.1 % 2 ^ 16) c.2 t m') (λ _ _ q. q)
            (λ peer u (new', m2).
              if-Behaves _ _ _ (ltb u.max_inbound_connections (length u.sock_to_peer_map)) _ _
                (λ _.
                  within-Behaves _ (λ _ _. Unit {0}) (λ _ _. Unit {0}) _ _ _ _ (close peer)
                    (Behaves-any _) (λ _ _ _. m2) (λ _ _ _. m2))
                (λ _.
                  insert_peer-Moves env r c.2 peer (add_fd_to_watch_list c.2 events u) m2 new')))

  reported-MovesTo :
      (o : Outcome P2PurrServer (Unit {0})) → MovesTo env r o → MovesTo env r (reported o)
  reported-MovesTo o m =
      within-Behaves _ (λ _ t. Moves env r (registry t.sock_to_peer_map))
        (λ _ t. Moves env r (registry t.sock_to_peer_map)) _ _ _ _ o m (λ _ _ q. q) (λ _ _ q. q)

  pub connect_to_peer-MovesTo :
      (events : ℕ) (fresh : Fresh) (host : List ℕ) (port : ℕ) (s : P2PurrServer)
      → Moves env r (registry s.sock_to_peer_map)
      → MovesTo env r (connect_to_peer events fresh host port s)
  unfolding connect_to_peer join
  connect_to_peer-MovesTo events fresh host port s m =
      if-Behaves _ _ _ (leb s.max_outbound_connections (length s.sock_to_peer_map)) _ _ (λ _. m)
        (λ _. reported-MovesTo ((make_peer fresh host port (negsuc 0) >>= join events) s) (
          >>=-Behaves _ (λ peer u. IsNew peer × Moves env r (registry u.sock_to_peer_map)) _
            (λ _ u. Moves env r (registry u.sock_to_peer_map)) _
            (make_peer fresh host port (negsuc 0)) (join events) s
            (make_peer-MovesTo fresh host port (negsuc 0) s m) (λ _ _ q. q)
            (λ peer u (new', m2).
              within-Behaves _ _ _ _ _ _ _ (connect peer) (returned (connect peer))
                (λ _ p e.
                  insert_peer-Moves env r (get_sockfd p.sock_helper) p
                    (add_fd_to_watch_list (get_sockfd p.sock_helper) events u) m2
                    (connected_peer new' e))
                (λ _ _ _. m2))))

  pub handle_client_communications-MovesTo :
      (fd : ℤ) (s : P2PurrServer)
      → Moves env r (registry s.sock_to_peer_map)
      → MovesTo env r (handle_client_communications env fd s)
  unfolding handle_client_communications
  handle_client_communications-MovesTo fd s m =
      with_table-MovesTo env r s (recv_from env fd s.sock_to_peer_map) (
        subst (MovesIn env r) (sym (recv_from-registry env fd s.sock_to_peer_map))
          (recv_in-MovesIn env r fd (registry s.sock_to_peer_map) m))

  -- What is known of the map of a server is known of the server.
  abbrev MovesFrom : {A : Type 0} → Outcome (Registry × P2PurrServer) A → Type 0
  MovesFrom = Leaves (λ _ w. Moves env r (w.0)) (λ _ w. Moves env r (w.0))

  from_registry :
      {A : Type 0} (s : P2PurrServer) (q : Outcome Registry A)
      → MovesIn env r q
      → MovesFrom (with_registry s q)
  from_registry s (ok a r') m = m
  from_registry s (throw e r') m = m
  from_registry s fault m = tt
  from_registry s no_fuel m = tt
  from_registry s exits m = tt

  from_viewed :
      {A : Type 0} (o : Outcome P2PurrServer A) → MovesFrom (viewed_server o) → MovesTo env r o
  from_viewed (ok a t) m = m
  from_viewed (throw e t) m = m
  from_viewed fault m = tt
  from_viewed no_fuel m = tt
  from_viewed exits m = tt

  viewed-MovesTo :
      {A : Type 0} (s : P2PurrServer) (q : Outcome Registry A) (o : Outcome P2PurrServer A)
      → viewed_server o ≡ with_registry s q
      → MovesIn env r q
      → MovesTo env r o
  viewed-MovesTo s q o e m = from_viewed o (subst MovesFrom (sym e) (from_registry s q m))

  pub send_pkt_to_peer-MovesTo :
      (pkt : Packet) (host : List ℕ) (port : ℕ) (s : P2PurrServer)
      → Distinct (keys s.sock_to_peer_map)
      → Moves env r (registry s.sock_to_peer_map)
      → MovesTo env r (send_pkt_to_peer pkt host port s)
  send_pkt_to_peer-MovesTo pkt host port s d m =
      elim (send_pkt_to_peer-registry pkt host port s s.sock_to_peer_map d (Permᴰ.refl _)) [
        | inl (fd, peer, there, _, run) ↦
            viewed-MovesTo s (quiet (send_in pkt fd (registry s.sock_to_peer_map) peer))
              (send_pkt_to_peer pkt host port s) run
              (within-Behaves _ _ _ _ _ _ _ (send_in pkt fd (registry s.sock_to_peer_map) peer)
                (sent-MovesIn env r (λ _. true) fd peer pkt (registry s.sock_to_peer_map) m there)
                (λ _ _ q. q) (λ _ _ q. q))
        | inr (_, run) ↦
            viewed-MovesTo s (ok tt (registry s.sock_to_peer_map))
              (send_pkt_to_peer pkt host port s) run m
      ]

  pub close_all_connections-MovesTo :
      (s : P2PurrServer)
      → Moves env r (registry s.sock_to_peer_map)
      → MovesTo env r (close_all_connections s)
  unfolding registry
  close_all_connections-MovesTo s m =
      Behaves-mono _ _ _ _ _ (close_all_connections s)
        (λ _ t (e, _). subst (Moves env r) (ap registry (sym e)) (cleared m))
        (λ _ _ never. absurd never) (close_all_connections-Emptied s)
    where
      cleared : Moves env r (registry s.sock_to_peer_map) → Moves env r (registry [])
      cleared m' = clears m'

  pub stop-MovesTo :
      (s : P2PurrServer) → Moves env r (registry s.sock_to_peer_map) → MovesTo env r (stop s)
  unfolding registry
  stop-MovesTo s m =
      Behaves-mono _ _ _ _ _ (stop s)
        (λ _ t ((e, _), _, _). subst (Moves env r) (ap registry (sym e)) (cleared m))
        (λ _ _ never. absurd never) (stop-Leaves s)
    where
      cleared : Moves env r (registry s.sock_to_peer_map) → Moves env r (registry [])
      cleared m' = clears m'

  pub start-MovesTo :
      (s : P2PurrServer) → Moves env r (registry s.sock_to_peer_map) → MovesTo env r (start s)
  unfolding start
  start-MovesTo s m =
      within-Behaves _ (λ _ _. Unit {0}) (λ _ _. Unit {0}) _ _ _ _
        (init_server s.server_sock_helper) (Behaves-any _) (λ _ _ _. m) (λ _ _ _. m)

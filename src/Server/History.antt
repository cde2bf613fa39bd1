-- ===== src/Server/History.antt =====
-- What may happen to the peers of a server is all that happens to them.
use p2purr.Base.{◌≡◌, subst, ok, Outcome}
use p2purr.Packet.{Platform}
use p2purr.Server.{P2PurrServer}
use p2purr.Server.Sound.{Sound}
use p2purr.Server.Registry.{Registry, registry, registry-Perm}
use p2purr.Server.Moves.{Moves, MovesTo, stays}
use p2purr.Server.Moves.Methods.{
  connect_to_peer-MovesTo, send_pkt_to_peer-MovesTo, close_all_connections-MovesTo, stop-MovesTo,
  start-MovesTo,
}
use p2purr.Server.Polling.Trace.{poll_round-MovesTo}
use p2purr.Server.Reach.{
  Step, started, stopped, all_closed, connected, packet_sent, polled, rehashed, Reachable,
  Reachable-Sound,
}

module _ (env : Platform) where
  returned :
      {A : Type 0} {o : Outcome P2PurrServer A} {a : A} {u : P2PurrServer} (r : Registry)
      → o ≡ ok a u
      → MovesTo env r o
      → Moves env r (registry u.sock_to_peer_map)
  returned r e m = subst (MovesTo env r) e m

  Step-Moves :
      (s t : P2PurrServer)
      → Step env s t
      → Sound s
      → Moves env (registry s.sock_to_peer_map) (registry t.sock_to_peer_map)
  Step-Moves s t (started e) h = returned _ e (start-MovesTo env _ s stays)
  Step-Moves s t (stopped e) h = returned _ e (stop-MovesTo env _ s stays)
  Step-Moves s t (all_closed e) h = returned _ e (close_all_connections-MovesTo env _ s stays)
  Step-Moves s t (connected events fresh host port e) h =
      returned _ e (connect_to_peer-MovesTo env _ events fresh host port s stays)
  Step-Moves s t (packet_sent pkt host port e) h =
      returned _ e (send_pkt_to_peer-MovesTo env _ pkt host port s h.distinct stays)
  Step-Moves s t (polled events fresh answer fuel e) h =
      returned _ e (poll_round-MovesTo env events fresh _ answer fuel s h stays)
  Step-Moves s t (rehashed p) h =
      subst (Moves env (registry s.sock_to_peer_map)) (registry-Perm p h.distinct) stays

  -- Each call of a method of a reachable server that returns, each round of its poll thread that returns,
  -- whatever descriptors are ready, and each change of the order of its table, does to its peers only
  -- what `Moves` allows: a connection that its constructor has made, and has connected or not, enters under a descriptor that
  -- has none; the connection under a descriptor is replaced by what its `recv_pkt` or its `send_pkt`
  -- leaves of it; those that are not open are dropped, or all are.
  pub Reachable-Moves :
      (s t : P2PurrServer)
      → Reachable env s
      → Step env s t
      → Moves env (registry s.sock_to_peer_map) (registry t.sock_to_peer_map)
  Reachable-Moves s t reach step = Step-Moves s t step (Reachable-Sound env s reach)

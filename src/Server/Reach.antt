-- ===== src/Server/Reach.antt =====
-- The states of a server: the constructor's, and those that a method leads to. A step is one method or
-- one round of the poll thread as a whole; that two threads interleave inside of one is not modelled.
use mathlib.Core.List.{Permᴰ}
use p2purr.Base.{ℕ, ℤ, ◌≡◌, ◌≤◌, subst, Bool, Option, List, ok, Outcome, arith, length, Leaves}
use p2purr.Packet.{Packet, Platform}
use p2purr.Socket.{Socket}
use p2purr.Socket.Setup.{Fresh}
use p2purr.Server.{
  P2PurrServer, new_server, start, stop, connect_to_peer, send_pkt_to_peer, close_all_connections,
}
use p2purr.Server.Table.{keys, Distinct, AllWatched}
use p2purr.Server.Sound.{Sound, StaysSound, length-keys}
use p2purr.Peer.{PeerConnHandler}
use p2purr.Server.Order.{reordered, reordered-Sound}
use p2purr.Server.Methods.{new_server-Sound, connect_to_peer-Sound}
use p2purr.Server.Methods.Tables.{
  start-Sound, stop-Sound, send_pkt_to_peer-Sound, close_all_connections-Sound,
}
use p2purr.Server.Polling.{poll_round, poll_round-Sound}

-- One call that returns, or a change of the order in which the map's iterators give its entries.
pub data Step (env : Platform) : P2PurrServer → P2PurrServer → Type 0 where
  started : {s t : P2PurrServer} → start s ≡ ok tt t → Step env s t
  stopped : {s t : P2PurrServer} {b : Bool} → stop s ≡ ok b t → Step env s t
  all_closed : {s t : P2PurrServer} → close_all_connections s ≡ ok tt t → Step env s t
  connected :
      {s t : P2PurrServer} (events : ℕ) (fresh : Fresh) (host : List ℕ) (port : ℕ)
      → connect_to_peer events fresh host port s ≡ ok tt t
      → Step env s t
  packet_sent :
      {s t : P2PurrServer} (pkt : Packet) (host : List ℕ) (port : ℕ)
      → send_pkt_to_peer pkt host port s ≡ ok tt t
      → Step env s t
  polled :
      {s t : P2PurrServer} (events : ℕ) (fresh : ℕ → Fresh) (answer : Option (ℕ → Bool)) (fuel : ℕ)
      → poll_round env events fresh answer fuel s ≡ ok tt t
      → Step env s t
  rehashed :
      {s : P2PurrServer} {peers : List (ℤ × PeerConnHandler)}
      → Permᴰ s.sock_to_peer_map peers
      → Step env s (reordered s peers)

-- What the constructor and any number of steps lead to.
pub data Reachable (env : Platform) : P2PurrServer → Type 0 where
  made :
      {s : P2PurrServer} {helper : Socket} (events : ℕ) (fresh : Fresh) (host : List ℕ) (port : ℕ)
      → new_server events fresh host port ≡ ok s helper
      → Reachable env s
  then' : {s t : P2PurrServer} → Reachable env s → Step env s t → Reachable env t

module _ (env : Platform) where
  returned-Sound :
      {A : Type 0} {o : Outcome P2PurrServer A} {a : A} {t : P2PurrServer}
      → o ≡ ok a t
      → StaysSound o
      → Sound t
  returned-Sound e h = subst StaysSound e h

  Step-Sound : (s t : P2PurrServer) → Step env s t → Sound s → Sound t
  Step-Sound s t (started e) h = returned-Sound e (start-Sound s h)
  Step-Sound s t (stopped e) h = returned-Sound e (stop-Sound s h)
  Step-Sound s t (all_closed e) h = returned-Sound e (close_all_connections-Sound s h)
  Step-Sound s t (connected events fresh host port e) h =
      returned-Sound e (connect_to_peer-Sound events fresh host port s h)
  Step-Sound s t (packet_sent pkt host port e) h =
      returned-Sound e (send_pkt_to_peer-Sound pkt host port s h)
  Step-Sound s t (polled events fresh answer fuel e) h =
      returned-Sound e (poll_round-Sound env events fresh answer fuel s h)
  Step-Sound s t (rehashed {peers} p) h = reordered-Sound s peers p h

  pub Reachable-Sound : (s : P2PurrServer) → Reachable env s → Sound s
  Reachable-Sound s (made events fresh host port e) =
      subst (Leaves (λ t _. Sound t) (λ _ _. Unit {0})) e (new_server-Sound events fresh host port)
  Reachable-Sound t (then' {s} r step) = Step-Sound s t step (Reachable-Sound s r)

  -- Of a server that is reached from the constructor by any sequence of calls of its methods, of rounds
  -- of the poll thread and of changes of the order of the table: no descriptor stands twice in the table of peers, and every descriptor
  -- of the table is a descriptor and has an entry in the poll list.
  pub Reachable-watched :
      (s : P2PurrServer)
      → Reachable env s
      → Distinct (keys s.sock_to_peer_map) × AllWatched (keys s.sock_to_peer_map) s.pollfd_list
  Reachable-watched s r = (distinct', watched')
    where
      distinct' : Distinct (keys s.sock_to_peer_map)
      distinct' = (Reachable-Sound s r).distinct

      watched' : AllWatched (keys s.sock_to_peer_map) s.pollfd_list
      watched' = (Reachable-Sound s r).watched

  -- Of such a server: the table never has more than 1001 peers, one more than each of the limits.
  pub Reachable-bound : (s : P2PurrServer) → Reachable env s → length s.sock_to_peer_map ≤ 1001
  Reachable-bound s r = omega (arith, (Reachable-Sound s r).bounded, length-keys s.sock_to_peer_map)

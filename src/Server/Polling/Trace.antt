-- ===== src/Server/Polling/Trace.antt =====
-- A round of the poll thread does only what may happen to the peers of a server.
use p2purr.Base.{
  ℕ, zero, suc, ◌+◌, Bool, not, Option, none, some, get_elem?, if◌then◌else◌, Outcome, ok, throw,
  fault, no_fuel, exits, ◌>>◌, >>=-Behaves, if-Behaves, Leaves,
}
use p2purr.Packet.{Platform}
use p2purr.Socket.Setup.{Fresh}
use p2purr.Server.{PollFd, P2PurrServer, ==_ℤ, handle_new_client, handle_client_communications}
use p2purr.Server.Sound.{Sound, StaysSound}
use p2purr.Server.Registry.{Registry, registry}
use p2purr.Server.Moves.{Moves, MovesTo, remove_disconnected_peers-Moves}
use p2purr.Server.Moves.Methods.{handle_new_client-MovesTo, handle_client_communications-MovesTo}
use p2purr.Server.Polling.{poll_pass, poll_body, poll_round, poll_pass-Sound}

module _ (env : Platform) (events : ℕ) (fresh : ℕ → Fresh) (r : Registry) where
  poll_pass-MovesTo :
      (revents : ℕ → Bool) (fuel pos' : ℕ) (s : P2PurrServer)
      → Moves env r (registry s.sock_to_peer_map)
      → MovesTo env r (poll_pass env events fresh revents fuel pos' s)
  unfolding poll_pass
  poll_pass-MovesTo revents zero pos' s m = tt
  poll_pass-MovesTo revents (suc fuel) pos' s m =
      at (λ p t g. poll_pass-MovesTo revents fuel p t g) (get_elem? s.pollfd_list pos')
    where
      at :
          ((p : ℕ) (t : P2PurrServer)
            → Moves env r (registry t.sock_to_peer_map)
            → MovesTo env r (poll_pass env events fresh revents fuel p t))
          → (entry : Option PollFd)
          → MovesTo env r (elim entry as (λ _. Outcome P2PurrServer (Unit {0})) [
            | none ↦ ok tt s
            | some pfd ↦
                if not s.is_local_server_running
                then ok tt s
                else if revents pos'
                then if ==_ℤ pfd.fd s.server_sock_helper.sock
                  then (handle_new_client events (fresh fuel)
                        >> poll_pass env events fresh revents fuel 1)
                      s
                  else (handle_client_communications env pfd.fd
                        >> poll_pass env events fresh revents fuel (pos' + 1))
                      s
                else poll_pass env events fresh revents fuel (pos' + 1) s
          ])
      at again none = m
      at again (some pfd) =
          if-Behaves _ _ _ (not s.is_local_server_running) _ _ (λ _. m)
            (λ _.
              if-Behaves _ _ _ (revents pos') _ _
                (λ _.
                  if-Behaves _ _ _ (==_ℤ pfd.fd s.server_sock_helper.sock) _ _
                    (λ _.
                      >>=-Behaves _ (λ _ t. Moves env r (registry t.sock_to_peer_map)) _
                        (λ _ t. Moves env r (registry t.sock_to_peer_map)) _
                        (handle_new_client events (fresh fuel)) _ s
                        (handle_new_client-MovesTo env r events (fresh fuel) s m) (λ _ _ q. q)
                        (λ _ t g. again 1 t g))
                    (λ _.
                      >>=-Behaves _ (λ _ t. Moves env r (registry t.sock_to_peer_map)) _
                        (λ _ t. Moves env r (registry t.sock_to_peer_map)) _
                        (handle_client_communications env pfd.fd) _ s
                        (handle_client_communications-MovesTo env r pfd.fd s m) (λ _ _ q. q)
                        (λ _ t g. again (pos' + 1) t g)))
                (λ _. again (pos' + 1) s m))

  both :
      (o : Outcome P2PurrServer (Unit {0}))
      → StaysSound o
      → MovesTo env r o
      → Leaves
          (λ _ t. Sound t × Moves env r (registry t.sock_to_peer_map))
          (λ _ t. Moves env r (registry t.sock_to_peer_map))
          o
  both (ok a t) h m = (h, m)
  both (throw e t) h m = m
  both fault h m = tt
  both no_fuel h m = tt
  both exits h m = tt

  poll_body-MovesTo :
      (answer : Option (ℕ → Bool)) (fuel : ℕ) (s : P2PurrServer)
      → Sound s
      → Moves env r (registry s.sock_to_peer_map)
      → MovesTo env r (poll_body env events fresh answer fuel s)
  unfolding poll_body
  poll_body-MovesTo none fuel s h m = m
  poll_body-MovesTo (some revents) fuel s h m =
      >>=-Behaves _ (λ _ t. Sound t × Moves env r (registry t.sock_to_peer_map)) _
        (λ _ t. Moves env r (registry t.sock_to_peer_map)) _
        (poll_pass env events fresh revents fuel 0) _ s
        (both _ (poll_pass-Sound env events fresh revents fuel 0 s h)
          (poll_pass-MovesTo revents fuel 0 s m))
        (λ _ _ q. q) (λ _ t (h', m'). remove_disconnected_peers-Moves env r t h'.distinct m')

  pub poll_round-MovesTo :
      (answer : Option (ℕ → Bool)) (fuel : ℕ) (s : P2PurrServer)
      → Sound s
      → Moves env r (registry s.sock_to_peer_map)
      → MovesTo env r (poll_round env events fresh answer fuel s)
  unfolding poll_round
  poll_round-MovesTo answer fuel s h m =
      if-Behaves _ _ _ s.is_local_server_running _ _ (λ _. poll_body-MovesTo answer fuel s h m)
        (λ _. m)

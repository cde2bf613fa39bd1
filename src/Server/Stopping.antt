-- ===== src/Server/Stopping.antt =====
-- `stop`: what it leaves.
use p2purr.Base.{
  ◌≡◌, ap, refl, subst, if◌then◌else◌, Bool, true, false, not, List, [], ◌∷◌, ℤ, Outcome, ok, ◌>>=◌,
  Leaves, >>=-Behaves, within-Behaves,
}
use p2purr.Socket.{close_sock}
use p2purr.Socket.Closing.{close_sock-Leaves}
use p2purr.Peer.{PeerConnHandler, close}
use p2purr.Server.{
  P2PurrServer, ServerM, with_table, close_each, close_all_connections, stop, destroy_server,
}

-- Of a call that does not throw.
abbrev NoThrow : {S A : Type 0} → Outcome S A → Type 0
NoThrow = Leaves (λ _ _. Unit {0}) (λ _ _. ⊥)

close-NoThrow : (peer : PeerConnHandler) → NoThrow (close peer)
unfolding close
close-NoThrow peer =
    within-Behaves _ _ _ _ _ _ _ (close_sock peer.sock_helper) (close_sock-Leaves peer.sock_helper)
      (λ _ t _. tt) (λ e t never. never)

close_each-NoThrow : (peers : List (ℤ × PeerConnHandler)) → NoThrow (close_each peers)
unfolding close_each
close_each-NoThrow [] = tt
close_each-NoThrow ((k, peer) ∷ peers) =
    within-Behaves _ _ _ _ _ _ _ (close peer) (close-NoThrow peer)
      (λ _ t _.
        within-Behaves _ _ _ _ _ _ _ (close_each peers) (close_each-NoThrow peers) (λ _ ts _. tt)
          (λ e ts never. never))
      (λ e t never. never)

-- What `close_all_connections` leaves.
abbrev pub Emptied : P2PurrServer → Type 0
Emptied t = (t.sock_to_peer_map ≡ []) × (t.pollfd_list ≡ [])

pub close_all_connections-Emptied :
    (s : P2PurrServer) → Leaves (λ _ t. Emptied t) (λ _ _. ⊥) (close_all_connections s)
unfolding close_all_connections
close_all_connections-Emptied s =
    within-Behaves (Unit {0}) (λ _ t. Emptied t) (λ _ _. ⊥) _ (λ _ _. ⊥) ok (λ e t. ok tt t)
      (cleared s)
      (>>=-Behaves _ (λ _ _. Unit {0}) (λ _ t. Emptied t) (λ _ _. ⊥) (λ _ _. ⊥)
        (λ t. with_table t (close_each t.sock_to_peer_map)) (λ _. emptied) s
        (within-Behaves _ _ _ _ _ _ _ (close_each s.sock_to_peer_map)
          (close_each-NoThrow s.sock_to_peer_map) (λ _ ts _. tt) (λ e ts never. never))
        (λ e t never. never) (λ _ t _. (refl, refl)))
      (λ _ t g. g) (λ e t never. absurd never)
  where
    emptied : ServerM (Unit {0})
    emptied t = ok tt (record t { sock_to_peer_map = []; pollfd_list = [] })

    cleared : ServerM (Unit {0})
    cleared = (λ t. with_table t (close_each t.sock_to_peer_map)) >>= λ _. emptied

-- What `stop` leaves: no peers and nothing to poll, and a server that runs when its socket is not
-- closed.
pub stop-Leaves :
    (s : P2PurrServer)
    → Leaves
        (λ b t.
          Emptied t
          × (t.is_local_server_running ≡ not b)
          × (t.server_sock_helper.is_sock_open ≡ not b))
        (λ _ _. ⊥)
        (stop s)
unfolding stop
stop-Leaves s =
    >>=-Behaves _ (λ _ t. Emptied t) _ (λ _ _. ⊥) _ close_all_connections _
      (record s { is_local_server_running = false })
      (close_all_connections-Emptied (record s { is_local_server_running = false }))
      (λ e t never. never)
      (λ _ t g.
        within-Behaves _ _ _ _ _ _ _ (close_sock t.server_sock_helper)
          (close_sock-Leaves t.server_sock_helper) (λ b h e. (g, refl, e)) (λ e h never. never))

-- When `stop` returns, whatever the operating system answered: the table of peers is empty, the server
-- is marked as running just if `stop` returns false, and so is its socket as open.
pub stop-returns :
    (s t : P2PurrServer) (b : Bool)
    → stop s ≡ ok b t
    → (t.sock_to_peer_map ≡ [])
      × (t.is_local_server_running ≡ not b)
      × (t.server_sock_helper.is_sock_open ≡ not b)
stop-returns s t b e = (left.0.0, left.1, left.2)
  where
    left :
        Emptied t
        × (t.is_local_server_running ≡ not b)
        × (t.server_sock_helper.is_sock_open ≡ not b)
    left =
        subst
          (Leaves
            (λ b t.
              Emptied t
              × (t.is_local_server_running ≡ not b)
              × (t.server_sock_helper.is_sock_open ≡ not b))
            (λ _ _. ⊥))
          e (stop-Leaves s)

-- After a `stop` that returns true, the destructor does nothing.
pub destroy_server-stop : (s t : P2PurrServer) → stop s ≡ ok true t → destroy_server t ≡ ok tt t
unfolding destroy_server
destroy_server-stop s t e =
    ap (λ b. if b then (stop >>= λ closed' u. ok tt u) t else ok tt t) (stop-returns s t true e).1

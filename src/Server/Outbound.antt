-- ===== src/Server/Outbound.antt =====
-- `connect_to_peer`: what it leaves, whatever the system answers.
use p2purr.Base.{
  ℕ, ◌<◌, ◌≡◌, refl, sym, subst, ◌⊎◌, inl, inr, true, false, List, arith, length, leb, pos, negsuc,
  ◌>>=◌, Leaves, >>=-Leaves, >>=-Behaves, if-Behaves, within-Behaves, ltb_ℤ,
}
use p2purr.Socket.{Socket}
use p2purr.Socket.Addresses.{read_ai}
use p2purr.Socket.Setup.{Fresh, set_blocking, connect_descriptor, connect_to_host}
use p2purr.Peer.{PeerConnHandler, connect}
use p2purr.Server.{P2PurrServer, make_peer, join, connect_to_peer}
use p2purr.Server.Entry.{Enters, At, insert_peer-Enters, make_peer-At}

connect_to_host-init :
    (s : Socket) → Leaves (λ _ t. t.is_sock_init ≡ true) (λ _ _. Unit {0}) (connect_to_host s)
unfolding connect_to_host
connect_to_host-init s =
    if-Behaves _ _ _ (ltb_ℤ s.sock (pos 0)) _ _ (λ _. tt)
      (λ _. >>=-Leaves _ (set_blocking true) _ s (λ _ t. >>=-Leaves _ read_ai _ t (λ _ u.
        >>=-Leaves _ (λ v. connect_descriptor v.os.connects v) _ u
          (λ _ v. >>=-Leaves _ (set_blocking false) _ v (λ _ w. refl)))))

module _ (fresh : Fresh) (host : List ℕ) (port : ℕ) (events : ℕ) (s : P2PurrServer) where
  -- A peer at the address that is connected has entered the table, unless its descriptor was there, and
  -- its descriptor the poll list.
  abbrev pub Joined : P2PurrServer → Type 0
  Joined t =
      (p : PeerConnHandler) × (p.host ≡ host)
      × (p.port ≡ port)
      × (p.client_conn ≡ true)
      × (p.sock_helper.is_sock_init ≡ true)
      × Enters events p.sock_helper.sock p s t

  join-Joined :
      (peer : PeerConnHandler)
      → At fresh host port (negsuc 0) peer
      → Leaves (λ _ t. Joined t) (λ _ t. t ≡ s) (join events peer s)
  unfolding join connect
  join-Joined peer (eh, ep) =
      within-Behaves _
        (λ _ p.
          (p.host ≡ host)
          × (p.port ≡ port)
          × (p.client_conn ≡ true)
          × (p.sock_helper.is_sock_init ≡ true))
        (λ _ _. Unit {0}) _ _ _ _ (connect peer)
        (within-Behaves _ _ _ _ _ _ _ (connect_to_host peer.sock_helper)
          (connect_to_host-init peer.sock_helper) (λ _ t init. (eh, ep, refl, init)) (λ _ _ _. tt))
        (λ _ p (h, q, client, init).
          (p, h, q, client, init, insert_peer-Enters events p.sock_helper.sock p s))
        (λ _ _ _. refl)

  -- Whatever the system answers, `connect_to_peer` does not throw. When it returns, the server is as it
  -- was, or the table had fewer peers than `max_outbound_connections`, and a new peer at the given
  -- address, which is connected, is the last entry of the table, unless the table had a peer under its
  -- descriptor, which then is as it was; the descriptor is the last entry of the poll list, and nothing
  -- else of the server is changed.
  pub connect_to_peer-Joined :
      Leaves
        (λ _ t. (t ≡ s) ⊎ ((length s.sock_to_peer_map < s.max_outbound_connections) × Joined t))
        (λ _ _. ⊥)
        (connect_to_peer events fresh host port s)
  unfolding connect_to_peer
  connect_to_peer-Joined =
      if-Behaves _ _ _ (leb s.max_outbound_connections (length s.sock_to_peer_map)) _ _
        (λ _. inl refl)
        (λ room.
          within-Behaves _ (λ _ t. Joined t) (λ _ t. t ≡ s) _ _ _ _
            ((make_peer fresh host port (negsuc 0) >>= join events) s)
            (>>=-Behaves _ (λ p t. At fresh host port (negsuc 0) p × (t ≡ s)) (λ _ t. Joined t)
              (λ _ t. t ≡ s) (λ _ t. t ≡ s) (make_peer fresh host port (negsuc 0)) (join events) s
              (make_peer-At fresh host port (negsuc 0) s) (λ _ _ same. same)
              (λ p t (at, same).
                subst (λ u. Leaves (λ _ t. Joined t) (λ _ t. t ≡ s) (join events p u)) (sym same)
                  (join-Joined p at)))
            (λ _ t joined. inr (ground (arith, room), joined)) (λ _ t same. inl same))

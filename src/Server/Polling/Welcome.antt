-- ===== src/Server/Polling/Welcome.antt =====
-- What `handle_new_client` leaves of the poll list and of the server's socket.
use p2purr.Base.{
  ℕ, ◌≡◌, refl, sym, ap, subst, ◌∙◌, ◌⊎◌, inl, inr, Bool, true, false, List, [], ◌∷◌, ◌++◌, length,
  ltb, if◌then◌else◌, ℤ, ◌%◌, ◌^◌, Leaves, Behaves-any, >>=-Behaves, if-Behaves, within-Behaves,
}
use p2purr.Socket.{Socket, AcceptAnswer, accepted, not_accepted, ipv4, ipv6, other_family}
use p2purr.Socket.Setup.{Fresh, server_accept_conns, accept_client, handle_addr_fam_and_get_ip_port}
use p2purr.Peer.{PeerConnHandler, new_peer, close}
use p2purr.Server.{
  PollFd, P2PurrServer, has_peer, add_fd_to_watch_list, accepted_on, make_peer, admit,
  handle_new_client,
}

-- `accept` leaves the descriptor of the socket.
accept_client-sock :
    (answers : List AcceptAnswer) (s : Socket)
    → Leaves (λ _ t. t.sock ≡ s.sock) (λ _ _. Unit {0}) (accept_client answers s)
unfolding accept_client handle_addr_fam_and_get_ip_port
accept_client-sock [] s = tt
accept_client-sock (not_accepted ∷ rest) s = tt
accept_client-sock (accepted fd (ipv4 [] port) ∷ rest) s = tt
accept_client-sock (accepted fd (ipv4 (c ∷ ip) port) ∷ rest) s = refl
accept_client-sock (accepted fd (ipv6 [] port) ∷ rest) s = tt
accept_client-sock (accepted fd (ipv6 (c ∷ ip) port) ∷ rest) s = refl
accept_client-sock (accepted fd other_family ∷ rest) s = tt

-- The poll list has one entry more, or none.
pub record Welcomes (s t : P2PurrServer) : Type 0 where
  pub running_same : t.is_local_server_running ≡ s.is_local_server_running
  pub own_same : t.server_sock_helper.sock ≡ s.server_sock_helper.sock
  pub table_grown :
      (t.sock_to_peer_map ≡ s.sock_to_peer_map)
      ⊎ ((k : ℤ) × (peer : PeerConnHandler) × (t.sock_to_peer_map
            ≡ s.sock_to_peer_map ++ (k, peer) ∷ []))
  pub list_grown :
      (t.pollfd_list ≡ s.pollfd_list)
      ⊎ ((pfd : PollFd) × (t.pollfd_list ≡ s.pollfd_list ++ pfd ∷ []))

admit-Welcomes :
    (events : ℕ) (fd : ℤ) (peer : PeerConnHandler) (s t : P2PurrServer)
    → Welcomes s t
    → t.pollfd_list ≡ s.pollfd_list
    → t.sock_to_peer_map ≡ s.sock_to_peer_map
    → Leaves (λ _ u. Welcomes s u) (λ _ _. Unit {0}) (admit events fd peer t)
unfolding admit
admit-Welcomes events fd peer s t w same table =
    if-Behaves _ _ _ (ltb t.max_inbound_connections (length t.sock_to_peer_map)) _ _
      (λ _.
        within-Behaves _ (λ _ _. Unit {0}) (λ _ _. Unit {0}) _ _ _ _ (close peer) (Behaves-any _)
          (λ _ gone _. record {
            running_same = w.running_same;
            own_same = w.own_same;
            table_grown = w.table_grown;
            list_grown = w.list_grown;
          })
          (λ _ _ _. tt))
      (λ _. inserted (has_peer fd t.sock_to_peer_map))
  where
    watched : P2PurrServer
    watched = add_fd_to_watch_list fd events t

    grown :
        (peers : List (ℤ × PeerConnHandler))
        → (peers ≡ s.sock_to_peer_map)
          ⊎ ((k : ℤ) × (p : PeerConnHandler) × (peers ≡ s.sock_to_peer_map ++ (k, p) ∷ []))
        → Welcomes s (record watched { sock_to_peer_map = peers })
    grown peers more = record {
      table_grown = more;
      running_same = w.running_same;
      own_same = w.own_same;
      list_grown = inr (
        record { fd = fd; events = events },
        ap (λ ps. ps ++ record { fd = fd; events = events } ∷ []) same,
      );
    }

    inserted :
        (b : Bool)
        → Welcomes s (
            if b
            then watched
            else record watched { sock_to_peer_map = t.sock_to_peer_map ++ (fd, peer) ∷ [] })
    inserted true = grown t.sock_to_peer_map (inl table)
    inserted false =
        grown (t.sock_to_peer_map ++ (fd, peer) ∷ [])
          (inr (fd, peer, ap (λ ps. ps ++ (fd, peer) ∷ []) table))

pub handle_new_client-Welcomes :
    (events : ℕ) (fresh : Fresh) (s : P2PurrServer)
    → Leaves (λ _ t. Welcomes s t) (λ _ _. Unit {0}) (handle_new_client events fresh s)
unfolding handle_new_client server_accept_conns
handle_new_client-Welcomes events fresh s =
    >>=-Behaves _
      (λ _ t.
        Welcomes s t × (t.pollfd_list ≡ s.pollfd_list) × (t.sock_to_peer_map ≡ s.sock_to_peer_map))
      _ (λ _ _. Unit {0}) _ (λ t. accepted_on t (server_accept_conns t.server_sock_helper)) _ s
      (within-Behaves _ _ _ _ _ _ _
        (accept_client s.server_sock_helper.os.accepts s.server_sock_helper)
        (accept_client-sock s.server_sock_helper.os.accepts s.server_sock_helper)
        (λ _ h same. (
          record {
            running_same = refl;
            own_same = same;
            table_grown = inl refl;
            list_grown = inl refl;
          },
          refl,
          refl,
        ))
        (λ _ _ _. tt))
      (λ _ _ _. tt)
      (λ c t (w, same, table).
        >>=-Behaves _ (λ _ u. u ≡ t) _ (λ _ _. Unit {0}) _ (make_peer fresh c.0 (c.1 % 2 ^ 16) c.2)
          (λ peer. admit events c.2 peer) t
          (within-Behaves _ (λ _ _. Unit {0}) (λ _ _. Unit {0}) _ _ _ _
            (new_peer fresh c.0 (c.1 % 2 ^ 16) c.2) (Behaves-any _) (λ _ _ _. refl) (λ _ _ _. tt))
          (λ _ _ _. tt)
          (λ peer u e.
            admit-Welcomes events c.2 peer s u (subst (Welcomes s) (sym e) w)
              (ap (λ v. v.pollfd_list) e ∙ same) (ap (λ v. v.sock_to_peer_map) e ∙ table)))

-- ===== src/Server/Admission.antt =====
-- `handle_new_client`: which clients enter the table, and which are refused.
use p2purr.Base.{ℕ, ◌%◌, ◌^◌, ◌≡◌, ◌≤◌, ◌<◌, ◌⊎◌, Bool, not, List, [], ◌∷◌, ◌++◌, length, ℤ, ok}
use p2purr.Socket.{Socket}
use p2purr.Socket.Setup.{Fresh, server_accept_conns}
use p2purr.Peer.{PeerConnHandler, conn_active, close}
use p2purr.Server.{P2PurrServer}
use p2purr.Server.Entry.{Enters}

module _ (events : ℕ) (fresh : Fresh) (s : P2PurrServer) where
  -- A new peer at the client's address has entered, and the table was not above its limit.
  abbrev pub Admitted : List ℕ × ℕ × ℤ → Socket → P2PurrServer → Type 0
  Admitted c h t =
      (length s.sock_to_peer_map ≤ s.max_inbound_connections)
      × (p : PeerConnHandler) × (p.host ≡ c.0)
      × (p.port ≡ c.1 % 2 ^ 16)
      × Enters events c.2 p (record s { server_sock_helper = h }) t

  -- The table was above its limit, and a new peer at the client's address has been closed: it is the last
  -- of those that are refused, and active just if its `close` has returned false. The table and the poll
  -- list are as they were.
  abbrev pub Refused : List ℕ × ℕ × ℤ → Socket → P2PurrServer → Type 0
  Refused c h t =
      (s.max_inbound_connections < length s.sock_to_peer_map)
      × (p : PeerConnHandler) × (b : Bool) × (gone : PeerConnHandler) × (p.host ≡ c.0)
      × (p.port ≡ c.1 % 2 ^ 16)
      × (close p ≡ ok b gone)
      × (conn_active gone ≡ not b)
      × (t ≡ record s { server_sock_helper = h; refused = s.refused ++ gone ∷ [] })

  -- The client is the one that `accept` has answered with.
  abbrev pub Welcomed : P2PurrServer → Type 0
  Welcomed t =
      (c : List ℕ × ℕ × ℤ) × (h : Socket) × (server_accept_conns s.server_sock_helper ≡ ok c h)
      × (Admitted c h t ⊎ Refused c h t)

  -- But for its socket, the server is as it was.
  abbrev pub Unmoved : P2PurrServer → Type 0
  Unmoved t = t ≡ record s { server_sock_helper = t.server_sock_helper }

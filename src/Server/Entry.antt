-- ===== src/Server/Entry.antt =====
-- A peer enters the table, and its descriptor the poll list: what `add_fd_to_watch_list` and the guard
-- with `find` leave together, and what the constructor of the peer makes.
use p2purr.Base.{
  ℕ, ◌≡◌, refl, sym, ap, subst, ◌∙◌, ◌⊎◌, inl, inr, Bool, true, false, Option, none, some, List, [],
  ◌∷◌, ◌++◌, ◌||◌, if◌then◌else◌, Bool-cases, ℤ, pos, Outcome, ok, exits, ◌>>◌, Leaves, >>=-Leaves,
  within-Behaves,
}
use p2purr.Socket.{Socket}
use p2purr.Socket.Setup.{Fresh, is_unset, socket_helper, set_sock_options, set_blocking}
use p2purr.Peer.{PeerConnHandler, accept_peer, new_peer, set_client, set_server}
use p2purr.Server.{P2PurrServer, ==_ℤ, has_peer, insert_peer, add_fd_to_watch_list, make_peer}
use p2purr.Server.Registry.{registry}

-- The descriptor is the last entry of the poll list. The peer is the last entry of the table, if the table
-- had none under the descriptor, and else the table is as it was. But for these two, the server is
-- as it was.
abbrev pub Enters : ℕ → ℤ → PeerConnHandler → P2PurrServer → P2PurrServer → Type 0
Enters events fd p s t =
    (t ≡ record s { sock_to_peer_map = t.sock_to_peer_map; pollfd_list = t.pollfd_list })
    × (t.pollfd_list ≡ s.pollfd_list ++ record { fd = fd; events = events } ∷ [])
    × (((registry s.sock_to_peer_map fd ≡ none)
          × (t.sock_to_peer_map ≡ s.sock_to_peer_map ++ (fd, p) ∷ []))
        ⊎ ((q : PeerConnHandler) × (registry s.sock_to_peer_map fd ≡ some q)
            × (t.sock_to_peer_map ≡ s.sock_to_peer_map)))

-- `find` finds what the map has.
has_peer-registry :
    (fd : ℤ) (peers : List (ℤ × PeerConnHandler))
    → ((has_peer fd peers ≡ false) × (registry peers fd ≡ none))
      ⊎ ((has_peer fd peers ≡ true) × (q : PeerConnHandler) × (registry peers fd ≡ some q))
unfolding has_peer registry
has_peer-registry fd [] = inl (refl, refl)
has_peer-registry fd ((k, p) ∷ peers) = elim (Bool-cases (==_ℤ k fd)) [
  | inl here ↦ inr (
    ap (λ b. b || has_peer fd peers) here,
    p,
    ap (λ b. if b then some p else registry peers fd) here,
  )
  | inr other ↦
      let found = ap (λ b. b || has_peer fd peers) other in
      let there = ap (λ b. if b then some p else registry peers fd) other in
      elim (has_peer-registry fd peers) [
        | inl (absent, e) ↦ inl (found ∙ absent, there ∙ e)
        | inr (present, q, e) ↦ inr (found ∙ present, q, there ∙ e)
      ]
]

pub insert_peer-Enters :
    (events : ℕ) (fd : ℤ) (p : PeerConnHandler) (s : P2PurrServer)
    → Enters events fd p s (insert_peer fd p (add_fd_to_watch_list fd events s))
insert_peer-Enters events fd p s = elim (has_peer-registry fd s.sock_to_peer_map) [
  | inl (absent, e) ↦
      subst (λ b. Enters events fd p s (entered b)) (sym absent) (refl, refl, inl (e, refl))
  | inr (present, q, e) ↦
      subst (λ b. Enters events fd p s (entered b)) (sym present) (refl, refl, inr (q, e, refl))
]
  where
    watched : P2PurrServer
    watched = add_fd_to_watch_list fd events s

    entered : Bool → P2PurrServer
    entered b =
        if b
        then watched
        else record watched { sock_to_peer_map = s.sock_to_peer_map ++ (fd, p) ∷ [] }

module _ (fresh : Fresh) (host : List ℕ) (port : ℕ) (sock : ℤ) where
  -- The peer at an address.
  abbrev pub At : PeerConnHandler → Type 0
  At p = (p.host ≡ host) × (p.port ≡ port)

  accept_peer-At : (helper : Socket) → At (accept_peer host port sock helper)
  unfolding accept_peer
  accept_peer-At helper = at (is_unset sock)
    where
      either : Bool → PeerConnHandler
      either b =
          let s : PeerConnHandler = accept_peer host port (pos 0) helper in
          if b then set_server s else set_client s

      at : (b : Bool) → At (either b)
      at true = (refl, refl)
      at false = (refl, refl)

  new_peer-address : Leaves (λ p _. At p) (λ _ _. Unit {0}) (new_peer fresh host port sock)
  unfolding new_peer
  new_peer-address = made (socket_helper fresh host port sock)
    where
      made :
          (o : Option Socket)
          → Leaves
              (λ p _. At p)
              (λ _ _. Unit {0})
              (elim o as (λ _. Outcome Socket PeerConnHandler) [
                | none ↦ exits
                | some helper ↦
                    (do
                      set_sock_options
                      set_blocking false
                      λ t. ok (accept_peer host port sock t) t)
                      helper
              ])
      made none = tt
      made (some helper) =
          >>=-Leaves _ set_sock_options _ helper
            (λ _ t. >>=-Leaves _ (set_blocking false) _ t (λ _ u. accept_peer-At u))

  pub make_peer-At :
      (s : P2PurrServer)
      → Leaves (λ p t. At p × (t ≡ s)) (λ _ t. t ≡ s) (make_peer fresh host port sock s)
  make_peer-At s =
      within-Behaves _ _ _ _ _ _ _ (new_peer fresh host port sock) new_peer-address
        (λ _ _ at. (at, refl)) (λ _ _ _. refl)

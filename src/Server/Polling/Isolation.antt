-- ===== src/Server/Polling/Isolation.antt =====
-- The parts of a round of the poll thread, as one peer of the table sees them: a client comes in, the
-- descriptors that are ready are served, and peers go.
use p2purr.Base.{
  ℕ, suc, ◌+◌, ◌≡◌, sym, ap, subst, ◌∙◌, inl, inr, Bool, true, false, not, Option, none, some, List,
  [], ◌∷◌, arith, Bool-cases, if◌then◌else◌, ℤ, Outcome, ok, throw, fault, no_fuel, exits,
  >>-returned, Leaves,
}
use p2purr.Packet.{Packet, Platform}
use p2purr.Socket.Setup.{Fresh}
use p2purr.Peer.{PeerConnHandler, conn_active, recv_pkt}
use p2purr.Peer.Shut.{StaysOpen}
use p2purr.Server.{P2PurrServer, ==_ℤ, handle_client_communications, recv_from}
use p2purr.Server.Disconnected.{
  active_peers, fds_to_rm, erase_fds, list_begin, remove_disconnected_peers,
}
use p2purr.Server.Table.{==_ℤ_refl, ==_ℤ→eq}
use p2purr.Server.Sound.{Sound, StaysSound}
use p2purr.Server.Methods.{handle_new_client-Sound}
use p2purr.Server.Methods.Tables.{handle_client_communications-Sound}
use p2purr.Server.Registry.{
  Registry, registry, at_fd, viewed_server, with_registry, viewed-with_table, registry-append,
}
use p2purr.Server.Registry.Receiving.{recv_in, recv_from-registry}
use p2purr.Server.Registry.Removing.{only_active, active_peers-registry}
use p2purr.Server.Polling.Welcome.{Welcomes, handle_new_client-Welcomes}
use p2purr.Server.Polling.Serve.{serve}
use p2purr.Server.Polling.Turn.{welcome}

-- How often a descriptor is among others.
abbrev pub count : ℤ → List ℤ → ℕ
count fd [] = 0
count fd (k ∷ ks) = let more = count fd ks in if ==_ℤ k fd then suc more else more

-- What a call that returns leaves under a descriptor.
abbrev left_under : {A : Type 0} → ℤ → Outcome (Registry × P2PurrServer) A → Option PeerConnHandler
left_under fd (ok a (r, s)) = r fd
left_under fd (throw e rs) = none
left_under fd fault = none
left_under fd no_fuel = none
left_under fd exits = none

module _ (env : Platform) (fd : ℤ) where
  handled :
      (k : ℤ) (s t : P2PurrServer) (p : Option Packet)
      → handle_client_communications env k s ≡ ok p t
      → with_registry s (recv_in env k (registry s.sock_to_peer_map))
        ≡ ok p (registry t.sock_to_peer_map, record t { sock_to_peer_map = [] })
  unfolding handle_client_communications
  handled k s t p e =
      sym (
        viewed-with_table s (recv_from env k s.sock_to_peer_map)
        ∙ ap (with_registry s) (recv_from-registry env k s.sock_to_peer_map))
      ∙ ap viewed_server e

  -- A call for the descriptor is a call of `recv_pkt` of its peer.
  handled-here :
      (s t : P2PurrServer) (p q : Option Packet) (peer u : PeerConnHandler)
      → handle_client_communications env fd s ≡ ok p t
      → registry s.sock_to_peer_map fd ≡ some peer
      → recv_pkt env peer ≡ ok q u
      → registry t.sock_to_peer_map fd ≡ some u
  handled-here s t p q peer u e there run =
      sym (ap (left_under fd) (handled fd s t p e))
      ∙ ap
          (λ o. left_under fd (
            with_registry s (elim o [
              | none ↦ ok none (registry s.sock_to_peer_map)
              | some peer ↦ at_fd (λ p. p) fd (registry s.sock_to_peer_map) (recv_pkt env peer)
            ])))
          there
      ∙ ap
          (λ o. left_under fd (with_registry s (at_fd (λ p. p) fd (registry s.sock_to_peer_map) o)))
          run
      ∙ ap (λ b. if b then some u else registry s.sock_to_peer_map fd) (==_ℤ_refl fd)

  -- A call for another one leaves it alone.
  handled-other :
      (k : ℤ) (s t : P2PurrServer) (p : Option Packet) (peer : PeerConnHandler)
      → handle_client_communications env k s ≡ ok p t
      → ==_ℤ k fd ≡ false
      → registry s.sock_to_peer_map fd ≡ some peer
      → registry t.sock_to_peer_map fd ≡ some peer
  handled-other k s t p peer e apart there =
      at (registry s.sock_to_peer_map k) (handled k s t p e) ∙ there
    where
      r : Registry
      r = registry s.sock_to_peer_map

      called :
          (q : Outcome PeerConnHandler (Option Packet))
          → with_registry s (at_fd (λ p. p) k r q)
            ≡ ok p (registry t.sock_to_peer_map, record t { sock_to_peer_map = [] })
          → registry t.sock_to_peer_map fd ≡ r fd
      called (ok a u) h = sym (ap (left_under fd) h) ∙ ap (λ b. if b then some u else r fd) apart
      called (throw x u) h = cc h
      called fault h = cc h
      called no_fuel h = cc h
      called exits h = cc h

      at :
          (o : Option PeerConnHandler)
          → with_registry s
              (elim o [ none ↦ ok none r | some q ↦ at_fd (λ p. p) k r (recv_pkt env q) ])
            ≡ ok p (registry t.sock_to_peer_map, record t { sock_to_peer_map = [] })
          → registry t.sock_to_peer_map fd ≡ r fd
      at none h = sym (ap (left_under fd) h)
      at (some q) h = called (recv_pkt env q) h

  -- The peer after some of the calls that it is to have, and those that remain.
  abbrev pub Goes : ℕ → P2PurrServer → PeerConnHandler → Type 0
  Goes n t u =
      (v : PeerConnHandler) × (registry t.sock_to_peer_map fd ≡ some v)
      × (conn_active v ≡ true)
      × StaysOpen env n v u

  pub serve-Goes :
      (fds : List ℤ) (n : ℕ) (s t : P2PurrServer) (peer u : PeerConnHandler)
      → serve env fds s ≡ ok tt t
      → registry s.sock_to_peer_map fd ≡ some peer
      → conn_active peer ≡ true
      → StaysOpen env (count fd fds + n) peer u
      → Goes n t u
  unfolding serve
  serve-Goes [] n s t peer u e there active open' =
      let same : s ≡ t = cc e in
      (
        peer,
        ap (λ w. registry w.sock_to_peer_map fd) (sym same) ∙ there,
        active,
        subst (λ m. StaysOpen env m peer u) (omega arith) open',
      )
  serve-Goes (k ∷ fds) n s t peer u e there active open' =
      let (p, s', first', later) =
        >>-returned (handle_client_communications env k) (serve env fds) s t tt e in
      elim (Bool-cases (==_ℤ k fd)) [
        | inl here ↦
            let counted : count fd (k ∷ fds) + n ≡ suc (count fd fds + n) =
              ap (λ b. (if b then suc (count fd fds) else count fd fds) + n) here ∙ omega arith in
            let (q, v, run, active', rest) = subst (λ m. StaysOpen env m peer u) counted open' in
            serve-Goes fds n s' t v u later
              (handled-here s s' p q peer v
                (ap (λ j. handle_client_communications env j s) (sym (==_ℤ→eq k fd here)) ∙ first')
                there run)
              active' rest
        | inr away ↦
            serve-Goes fds n s' t peer u later (handled-other k s s' p peer first' away there)
              active
              (subst (λ m. StaysOpen env m peer u)
                (ap (λ b. (if b then suc (count fd fds) else count fd fds) + n) away) open')
      ]

  pub serve-Sound :
      (fds : List ℤ) (s t : P2PurrServer) → serve env fds s ≡ ok tt t → Sound s → Sound t
  unfolding serve
  serve-Sound [] s t e h = let same : s ≡ t = cc e in subst Sound same h
  serve-Sound (k ∷ fds) s t e h =
      let (p, s', first', later) =
        >>-returned (handle_client_communications env k) (serve env fds) s t tt e in
      serve-Sound fds s' t later
        (subst StaysSound first' (handle_client_communications-Sound env k s h))

module _ (fd : ℤ) where
  -- A client that comes in changes no peer of the map.
  pub welcome-there :
      (events : ℕ) (fresh : Fresh) (ready : Bool) (s t : P2PurrServer) (peer : PeerConnHandler)
      → welcome events fresh ready s ≡ ok tt t
      → Sound s
      → registry s.sock_to_peer_map fd ≡ some peer
      → Sound t × (registry t.sock_to_peer_map fd ≡ some peer)
  welcome-there events fresh false s t peer e h there =
      let same : s ≡ t = cc e in
      (subst Sound same h, ap (λ w. registry w.sock_to_peer_map fd) (sym same) ∙ there)
  welcome-there events fresh true s t peer e h there =
      let w : Welcomes s t =
        subst (Leaves (λ _ v. Welcomes s v) (λ _ _. Unit {0})) e
          (handle_new_client-Welcomes events fresh s) in
      (
        subst StaysSound e (handle_new_client-Sound events fresh s h),
        elim w.table_grown [
          | inl same ↦ ap (λ ps. registry ps fd) same ∙ there
          | inr (k, p, more) ↦
              ap (λ ps. registry ps fd) more
              ∙ registry-append fd s.sock_to_peer_map ((k, p) ∷ []) peer there
        ],
      )

  -- A peer whose connection is open stays when the others are removed.
  pub remove-there :
      (s : P2PurrServer) (peer : PeerConnHandler)
      → Sound s
      → registry s.sock_to_peer_map fd ≡ some peer
      → conn_active peer ≡ true
      → registry (remove_disconnected_peers s).sock_to_peer_map fd ≡ some peer
  unfolding remove_disconnected_peers
  remove-there s peer h there active = elim (Bool-cases s.is_local_server_running) [
    | inl runs ↦
        ap (λ b. registry (table b) fd) runs
        ∙ active_peers-registry fd s.sock_to_peer_map h.distinct
        ∙ ap only_active there
        ∙ ap (λ b. if b then some peer else none) active
    | inr stopped ↦ ap (λ b. registry (table b) fd) stopped ∙ there
  ]
    where
      table : Bool → List (ℤ × PeerConnHandler)
      table b =
          (if not b then s else record s {
            sock_to_peer_map = active_peers s.sock_to_peer_map;
            pollfd_list = erase_fds (fds_to_rm s.sock_to_peer_map) (list_begin s.pollfd_list);
          }).sock_to_peer_map

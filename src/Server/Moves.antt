-- ===== src/Server/Moves.antt =====
-- What may happen to the peers of a server, said of the map from descriptors alone; and what the parts of
-- the methods do of it.
pub mod Methods
use p2purr.Base.{
  ℕ, ◌+◌, ◌%◌, ◌^◌, ◌≡◌, refl, sym, ap, subst, ◌∙◌, Bool, true, false, not, ◌||◌, Option, none,
  some, List, [], ◌∷◌, ◌++◌, arith, if◌then◌else◌, Bool-cases, inl, inr, ℤ, pos, negsuc, Outcome,
  ok, throw, fault, no_fuel, exits, Exception, within, checked, Leaves, Behaves-any, within-Behaves,
  checked-Leaves,
}
use p2purr.Packet.{Packet, Platform}
use p2purr.Socket.{Socket, send_data}
use p2purr.Socket.Setup.{Fresh}
use p2purr.Peer.{
  PeerConnHandler, new_peer, connect, recv_pkt, try_recv, send_pkt, packet_bytes, sent_over,
}
use p2purr.Server.{P2PurrServer, ==_ℤ, has_peer, insert_peer, with_table}
use p2purr.Server.Disconnected.{
  active_peers, fds_to_rm, erase_fds, list_begin, remove_disconnected_peers,
}
use p2purr.Server.Table.{keys, Distinct, has_peer-keys}
use p2purr.Server.Registry.{Registry, put, registry, viewed, at_fd, registry-none, put-apart}
use p2purr.Server.Registry.Receiving.{recv_in}
use p2purr.Server.Registry.Removing.{only_active, active_peers-registry}

-- A connection as its constructor leaves it, or as a `connect` after that.
pub data IsNew : PeerConnHandler → Type 0 where
  accepted_peer :
      {peer : PeerConnHandler} {h : Socket} (fresh : Fresh) (host : List ℕ) (port : ℕ) (sock : ℤ)
      → new_peer fresh host port sock ≡ ok peer h
      → IsNew peer
  connected_peer : {peer t : PeerConnHandler} → IsNew peer → connect peer ≡ ok tt t → IsNew t

-- A new connection enters under a descriptor that has none; the connection under a descriptor receives, or
-- sends a packet, and goes back there; those that are not open are dropped, or all are; in any order.
pub data Moves (env : Platform) : Registry → Registry → Type 0 where
  stays : {r : Registry} → Moves env r r
  enters :
      {r r' : Registry} (fd : ℤ) (peer : PeerConnHandler)
      → Moves env r r'
      → IsNew peer
      → r' fd ≡ none
      → Moves env r (put fd peer r')
  receives :
      {r r' : Registry} (fd : ℤ) (peer t : PeerConnHandler) (p : Option Packet)
      → Moves env r r'
      → r' fd ≡ some peer
      → recv_pkt env peer ≡ ok p t
      → Moves env r (put fd t r')
  sends :
      {r r' : Registry} (fd : ℤ) (peer t : PeerConnHandler) (pkt : Packet)
      → Moves env r r'
      → r' fd ≡ some peer
      → send_pkt pkt peer ≡ ok tt t
      → Moves env r (put fd t r')
  drops : {r r' : Registry} → Moves env r r' → Moves env r (λ j. only_active (r' j))
  clears : {r r' : Registry} → Moves env r r' → Moves env r (λ j. none)

-- `recv_pkt` and `send_pkt` do not throw.
abbrev NoThrow : {S A : Type 0} → Outcome S A → Type 0
NoThrow = Leaves (λ _ _. Unit {0}) (λ _ _. ⊥)

recv_pkt-NoThrow : (env : Platform) (peer : PeerConnHandler) → NoThrow (recv_pkt env peer)
unfolding recv_pkt
recv_pkt-NoThrow env peer =
    within-Behaves _ (λ _ _. Unit {0}) (λ _ _. Unit {0}) _ _ _ _ (try_recv env peer) (Behaves-any _)
      (λ _ _ _. tt) (λ _ _ _. tt)

send_pkt-NoThrow : (pkt : Packet) (peer : PeerConnHandler) → NoThrow (send_pkt pkt peer)
unfolding send_pkt
send_pkt-NoThrow pkt peer = checked-Leaves _ _ (packet_bytes pkt) _ peer (λ bytes.
    within-Behaves _ (λ _ _. Unit {0}) (λ _ _. Unit {0}) _ _ _ _ (send_data bytes peer.sock_helper)
      (Behaves-any _) (λ _ _ _. tt) (λ _ _ _. tt))

module _ (env : Platform) (r : Registry) where
  -- The maps that a call leaves.
  abbrev pub MovesIn : {A : Type 0} → Outcome Registry A → Type 0
  MovesIn = Leaves (λ _ r'. Moves env r r') (λ _ r'. Moves env r r')

  abbrev pub MovesTo : {A : Type 0} → Outcome P2PurrServer A → Type 0
  MovesTo =
      Leaves (λ _ t. Moves env r (registry t.sock_to_peer_map))
        (λ _ t. Moves env r (registry t.sock_to_peer_map))

  -- A call of a peer under its descriptor.
  at_fd-MovesIn :
      {A B : Type 0} (g : A → B) (fd : ℤ) (r' : Registry) (q : Outcome PeerConnHandler A)
      → NoThrow q
      → ((a : A) (t : PeerConnHandler) → q ≡ ok a t → Moves env r (put fd t r'))
      → MovesIn (at_fd g fd r' q)
  at_fd-MovesIn g fd r' (ok a t) never m = m a t refl
  at_fd-MovesIn g fd r' (throw e t) never m = absurd never
  at_fd-MovesIn g fd r' fault never m = tt
  at_fd-MovesIn g fd r' no_fuel never m = tt
  at_fd-MovesIn g fd r' exits never m = tt

  pub recv_in-MovesIn : (fd : ℤ) (r' : Registry) → Moves env r r' → MovesIn (recv_in env fd r')
  recv_in-MovesIn fd r' m = at (r' fd) refl
    where
      at :
          (o : Option PeerConnHandler)
          → r' fd ≡ o
          → MovesIn (elim o as (λ _. Outcome Registry (Option Packet)) [
            | none ↦ ok none r'
            | some peer ↦ at_fd (λ p. p) fd r' (recv_pkt env peer)
          ])
      at none e = m
      at (some peer) e =
          at_fd-MovesIn (λ p. p) fd r' (recv_pkt env peer) (recv_pkt-NoThrow env peer)
            (λ p t run. receives fd peer t p m e run)

  pub sent-MovesIn :
      {B : Type 0} (g : Unit {0} → B) (fd : ℤ) (peer : PeerConnHandler) (pkt : Packet)
      (r' : Registry)
      → Moves env r r'
      → r' fd ≡ some peer
      → MovesIn (at_fd g fd r' (send_pkt pkt peer))
  sent-MovesIn g fd peer pkt r' m there =
      at_fd-MovesIn g fd r' (send_pkt pkt peer) (send_pkt-NoThrow pkt peer)
        (λ _ t run. sends fd peer t pkt m there run)

  -- What is known of the map is known of the table.
  pub with_table-MovesTo :
      {A : Type 0} (s : P2PurrServer) (o : Outcome (List (ℤ × PeerConnHandler)) A)
      → MovesIn (viewed o)
      → MovesTo (with_table s o)
  with_table-MovesTo s (ok a ts) m = m
  with_table-MovesTo s (throw e ts) m = m
  with_table-MovesTo s fault m = tt
  with_table-MovesTo s no_fuel m = tt
  with_table-MovesTo s exits m = tt

  registry-snoc :
      (fd : ℤ) (peer : PeerConnHandler) (peers : List (ℤ × PeerConnHandler))
      → has_peer fd peers ≡ false
      → registry (peers ++ (fd, peer) ∷ []) ≡ put fd peer (registry peers)
  unfolding registry has_peer
  registry-snoc fd peer [] new' = refl
  registry-snoc fd peer ((k, p) ∷ peers) new' =
      ap (put k p) (registry-snoc fd peer peers later)
      ∙ put-apart k fd p peer (registry peers) apart
    where
      apart : ==_ℤ k fd ≡ false
      apart = ground arith

      later : has_peer fd peers ≡ false
      later = ground arith

  pub insert_peer-Moves :
      (fd : ℤ) (peer : PeerConnHandler) (s : P2PurrServer)
      → Moves env r (registry s.sock_to_peer_map)
      → IsNew peer
      → Moves env r (registry (insert_peer fd peer s).sock_to_peer_map)
  insert_peer-Moves fd peer s m new' = elim (Bool-cases (has_peer fd s.sock_to_peer_map)) [
    | inl there ↦ subst (λ b. Moves env r (registry (table b))) (sym there) m
    | inr absent ↦
        subst (λ b. Moves env r (registry (table b))) (sym absent)
          (subst (Moves env r) (sym (registry-snoc fd peer s.sock_to_peer_map absent)) (
            enters fd peer m new' (
              registry-none fd s.sock_to_peer_map
                (sym (has_peer-keys fd s.sock_to_peer_map) ∙ absent))))
  ]
    where
      table : Bool → List (ℤ × PeerConnHandler)
      table b =
          (if b then s else record s {
            sock_to_peer_map = s.sock_to_peer_map ++ (fd, peer) ∷ [];
          }).sock_to_peer_map

  pub remove_disconnected_peers-Moves :
      (s : P2PurrServer)
      → Distinct (keys s.sock_to_peer_map)
      → Moves env r (registry s.sock_to_peer_map)
      → Moves env r (registry (remove_disconnected_peers s).sock_to_peer_map)
  unfolding remove_disconnected_peers
  remove_disconnected_peers-Moves s d m = by_running s.is_local_server_running
    where
      by_running :
          (b : Bool)
          → Moves env r (
              registry
                (if not b then s else record s {
                  sock_to_peer_map = active_peers s.sock_to_peer_map;
                  pollfd_list = erase_fds (fds_to_rm s.sock_to_peer_map) (list_begin s.pollfd_list);
                }).sock_to_peer_map)
      by_running false = m
      by_running true =
          subst (Moves env r) (λ i j. sym (active_peers-registry j s.sock_to_peer_map d) i)
            (drops m)

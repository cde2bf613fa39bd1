-- ===== src/Server/Sound.antt =====
-- The table and the poll list: what holds of them, and the parts of the methods that keep it.
use p2purr.Base.{
  ℕ, suc, ◌&&◌, ◌==◌, ◌≡◌, ◌≤◌, refl, sym, ap, subst, ◌∙◌, false, List, [], ◌∷◌, ◌++◌, arith,
  length, length-append, if◌then◌else◌, ℤ, negsuc, Outcome, Leaves, Behaves-any, if-Behaves,
  within-Behaves, Bool-cases, inl, inr,
}
use p2purr.Packet.{Packet, Platform}
use p2purr.Peer.{PeerConnHandler, close, recv_pkt, send_pkt}
use p2purr.Server.{
  PollFd, P2PurrServer, ==_ℤ, has_peer, same_text, insert_peer, add_fd_to_watch_list, recv_from,
  send_to, close_each,
}
use p2purr.Server.Table.{
  keys, Distinct, AllWatched, has_peer-keys, keys-append, Distinct-snoc, AllWatched-append,
  AllWatched-snoc,
}

-- The limits as the constructor sets them, at most 1001 peers, no descriptor twice in the table, and
-- every descriptor of the table in the poll list.
pub record IsSound (inbound outbound : ℕ) (ks : List ℤ) (pfds : List PollFd) : Type 0 where
  pub inbound_limit : inbound ≡ 1000
  pub outbound_limit : outbound ≡ 1000
  pub bounded : length ks ≤ 1001
  pub distinct : Distinct ks
  pub watched : AllWatched ks pfds

abbrev pub Sound : P2PurrServer → Type 0
Sound s =
    IsSound s.max_inbound_connections s.max_outbound_connections (keys s.sock_to_peer_map)
      s.pollfd_list

-- A call that leaves a sound server, where it leaves one.
abbrev pub StaysSound : {A : Type 0} → Outcome P2PurrServer A → Type 0
StaysSound = Leaves (λ _ t. Sound t) (λ _ t. Sound t)

pub length-keys : (peers : List (ℤ × PeerConnHandler)) → length (keys peers) ≡ length peers
length-keys [] = refl
length-keys ((k, peer) ∷ peers) = ap suc (length-keys peers)

-- A peer with a descriptor enters a table that has room.
pub insert_peer-Sound :
    (events : ℕ) (k : ℤ) (peer : PeerConnHandler) (s : P2PurrServer)
    → Sound s
    → ==_ℤ k (negsuc 0) ≡ false
    → length s.sock_to_peer_map ≤ 1000
    → Sound (insert_peer k peer (add_fd_to_watch_list k events s))
insert_peer-Sound events k peer s h v room = elim (Bool-cases (has_peer k s.sock_to_peer_map)) [
  | inl there ↦ subst Sound (sym (ap (λ b. if b then more else grown) there)) (record {
    inbound_limit = h.inbound_limit;
    outbound_limit = h.outbound_limit;
    bounded = h.bounded;
    distinct = h.distinct;
    watched = AllWatched-append (keys s.sock_to_peer_map) s.pollfd_list _ h.watched;
  })
  | inr new' ↦ subst Sound (sym (ap (λ b. if b then more else grown) new')) (
      subst (λ ks. IsSound s.max_inbound_connections s.max_outbound_connections ks more.pollfd_list)
        (sym (keys-append s.sock_to_peer_map ((k, peer) ∷ [])))
        (record {
          inbound_limit = h.inbound_limit;
          outbound_limit = h.outbound_limit;
          bounded = omega (
            arith,
            room,
            length-keys s.sock_to_peer_map,
            length-append (keys s.sock_to_peer_map) (k ∷ []),
          );
          distinct =
              Distinct-snoc k (keys s.sock_to_peer_map) h.distinct
                (sym (has_peer-keys k s.sock_to_peer_map) ∙ new');
          watched = AllWatched-snoc k events (keys s.sock_to_peer_map) s.pollfd_list v h.watched;
        }))
]
  where
    more : P2PurrServer
    more = add_fd_to_watch_list k events s

    grown : P2PurrServer
    grown = record more { sock_to_peer_map = s.sock_to_peer_map ++ (k, peer) ∷ [] }

-- A call on the table that leaves its descriptors.
abbrev pub KeepsKeys :
    {A : Type 0} → List (ℤ × PeerConnHandler) → Outcome (List (ℤ × PeerConnHandler)) A → Type 0
KeepsKeys peers = Leaves (λ _ ts. keys ts ≡ keys peers) (λ _ ts. keys ts ≡ keys peers)

pub recv_from-keys :
    (env : Platform) (fd : ℤ) (peers : List (ℤ × PeerConnHandler))
    → KeepsKeys peers (recv_from env fd peers)
unfolding recv_from
recv_from-keys env fd [] = refl
recv_from-keys env fd ((k, peer) ∷ peers) =
    if-Behaves _ _ _ (==_ℤ k fd) _ _
      (λ _.
        within-Behaves _ _ _ _ _ _ _ (recv_pkt env peer) (Behaves-any (recv_pkt env peer))
          (λ _ t _. refl) (λ _ t _. refl))
      (λ _.
        within-Behaves _ _ _ _ _ _ _ (recv_from env fd peers) (recv_from-keys env fd peers)
          (λ _ ts same. ap (◌∷◌ k) same) (λ _ ts same. ap (◌∷◌ k) same))

pub send_to-keys :
    (pkt : Packet) (host : List ℕ) (port : ℕ) (peers : List (ℤ × PeerConnHandler))
    → KeepsKeys peers (send_to pkt host port peers)
unfolding send_to
send_to-keys pkt host port [] = refl
send_to-keys pkt host port ((k, peer) ∷ peers) =
    if-Behaves _ _ _ (same_text peer.host host && peer.port == port) _ _
      (λ _.
        within-Behaves _ _ _ _ _ _ _ (send_pkt pkt peer) (Behaves-any (send_pkt pkt peer))
          (λ _ t _. refl) (λ _ t _. refl))
      (λ _.
        within-Behaves _ _ _ _ _ _ _ (send_to pkt host port peers)
          (send_to-keys pkt host port peers) (λ _ ts same. ap (◌∷◌ k) same)
          (λ _ ts same. ap (◌∷◌ k) same))

pub close_each-keys : (peers : List (ℤ × PeerConnHandler)) → KeepsKeys peers (close_each peers)
unfolding close_each
close_each-keys [] = refl
close_each-keys ((k, peer) ∷ peers) =
    within-Behaves _ _ _ _ _ _ _ (close peer) (Behaves-any (close peer))
      (λ _ t _.
        within-Behaves _ _ _ _ _ _ _ (close_each peers) (close_each-keys peers)
          (λ _ ts same. ap (◌∷◌ k) same) (λ _ ts same. ap (◌∷◌ k) same))
      (λ _ t _. refl)

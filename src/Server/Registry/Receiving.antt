-- ===== src/Server/Registry/Receiving.antt =====
-- `handle_client_communications` on the map of peers.
use mathlib.Core.List.{Permᴰ}
use p2purr.Base.{
  ◌≡◌, refl, sym, ap, subst, ◌∙◌, false, Option, none, some, List, [], ◌∷◌, if◌then◌else◌,
  Bool-cases, inl, inr, ℤ, Outcome, ok, throw, within,
}
use p2purr.Packet.{Packet, Platform}
use p2purr.Peer.{PeerConnHandler, recv_pkt}
use p2purr.Server.{P2PurrServer, ==_ℤ, recv_from, handle_client_communications}
use p2purr.Server.Table.{keys, Distinct, ==_ℤ_refl, ==_ℤ→eq}
use p2purr.Server.Order.{reordered}
use p2purr.Server.Registry.{
  Registry, put, registry, viewed, at_fd, viewed_server, with_registry, over, viewed-behind,
  viewed-first, over-at_fd, viewed-with_table, registry-Perm,
}

-- `recv_pkt` of the peer under a descriptor, if there is one.
abbrev pub recv_in : Platform → ℤ → Registry → Outcome Registry (Option Packet)
recv_in env fd r = elim (r fd) [
  | none ↦ ok none r
  | some peer ↦ at_fd (λ p. p) fd r (recv_pkt env peer)
]

module _ (env : Platform) where
  -- What `recv_in` does at what is under the descriptor.
  abbrev recv_found : ℤ → Registry → Option PeerConnHandler → Outcome Registry (Option Packet)
  recv_found fd r o = elim o [
    | none ↦ ok none r
    | some peer ↦ at_fd (λ p. p) fd r (recv_pkt env peer)
  ]

  recv_first :
      (k : ℤ) (peer : PeerConnHandler) (peers : List (ℤ × PeerConnHandler))
      → viewed (recv_from env k ((k, peer) ∷ peers)) ≡ recv_in env k (registry ((k, peer) ∷ peers))
  unfolding recv_from registry
  recv_first k peer peers =
      ap
        (λ b. viewed (
          if b
          then within (λ p t. ok p ((k, t) ∷ peers)) (λ e t. throw e ((k, t) ∷ peers))
              (recv_pkt env peer)
          else within (λ p ts. ok p ((k, peer) ∷ ts)) (λ e ts. throw e ((k, peer) ∷ ts))
              (recv_from env k peers)))
        (==_ℤ_refl k)
      ∙ viewed-first (λ p. p) k peer peers (recv_pkt env peer)
      ∙ sym (
          ap
            (λ b.
              recv_found k (registry ((k, peer) ∷ peers))
                (if b then some peer else registry peers k))
            (==_ℤ_refl k))

  recv_behind :
      (k fd : ℤ) (peer : PeerConnHandler) (r : Registry)
      → ==_ℤ k fd ≡ false
      → over k peer (recv_in env fd r) ≡ recv_in env fd (put k peer r)
  recv_behind k fd peer r apart =
      at (r fd) ∙ sym (ap (λ b. recv_found fd (put k peer r) (if b then some peer else r fd)) apart)
    where
      at :
          (o : Option PeerConnHandler)
          → over k peer (recv_found fd r o) ≡ recv_found fd (put k peer r) o
      at none = refl
      at (some q) = over-at_fd (λ p. p) k fd peer r (recv_pkt env q) apart

  -- Whatever the call of `recv_pkt` does: `recv_from` on a table is the call on its map.
  pub recv_from-registry :
      (fd : ℤ) (peers : List (ℤ × PeerConnHandler))
      → viewed (recv_from env fd peers) ≡ recv_in env fd (registry peers)
  unfolding recv_from registry
  recv_from-registry fd [] = refl
  recv_from-registry fd ((k, peer) ∷ peers) = elim (Bool-cases (==_ℤ k fd)) [
    | inl here ↦
        subst
          (λ f.
            viewed (recv_from env f ((k, peer) ∷ peers))
            ≡ recv_in env f (registry ((k, peer) ∷ peers)))
          (==_ℤ→eq k fd here) (recv_first k peer peers)
    | inr away ↦
        ap
          (λ b. viewed (
            if b
            then within (λ p t. ok p ((k, t) ∷ peers)) (λ e t. throw e ((k, t) ∷ peers))
                (recv_pkt env peer)
            else within (λ p ts. ok p ((k, peer) ∷ ts)) (λ e ts. throw e ((k, peer) ∷ ts))
                (recv_from env fd peers)))
          away
        ∙ viewed-behind k peer (recv_from env fd peers)
        ∙ ap (over k peer) (recv_from-registry fd peers)
        ∙ recv_behind k fd peer (registry peers) away
  ]

  -- In whatever order the table of a server has its entries, where no descriptor stands twice: whatever
  -- `recv_pkt` does, `handle_client_communications` calls it on the peer that the map has under the
  -- descriptor, hands on what it returns or throws, puts the peer back under the descriptor, and changes
  -- nothing else; where the map has no such peer, it does nothing.
  pub handle_client_communications-registry :
      (fd : ℤ) (s : P2PurrServer) (peers : List (ℤ × PeerConnHandler))
      → Distinct (keys s.sock_to_peer_map)
      → Permᴰ s.sock_to_peer_map peers
      → viewed_server (handle_client_communications env fd (reordered s peers))
        ≡ with_registry s (recv_in env fd (registry s.sock_to_peer_map))
  unfolding handle_client_communications
  handle_client_communications-registry fd s peers d p =
      viewed-with_table (reordered s peers) (recv_from env fd peers)
      ∙ ap (with_registry s)
          (recv_from-registry fd peers ∙ ap (recv_in env fd) (sym (registry-Perm p d)))

-- ===== src/Server/Registry/Sending.antt =====
-- `send_pkt_to_peer` on the map of peers.
use mathlib.Core.List.{Permᴰ}
use p2purr.Base.{
  ℕ, ◌≡◌, refl, sym, ap, subst, ◌∙◌, Bool, true, false, ◌&&◌, ◌==◌, Option, none, some, List, [],
  ◌∷◌, if◌then◌else◌, Bool-cases, ◌⊎◌, inl, inr, ℤ, Outcome, ok, throw, fault, no_fuel, exits,
  within, ◌>>=◌, send_exception,
}
use p2purr.Packet.{Packet}
use p2purr.Peer.{PeerConnHandler, send_pkt, get_host, get_port}
use p2purr.Server.{P2PurrServer, ==_ℤ, same_text, send_to, with_table, send_pkt_to_peer, reported}
use p2purr.Server.Table.{keys, member, Distinct, ==_ℤ_refl, ==_ℤ→eq}
use p2purr.Server.Order.{reordered, keys-Perm, Distinct-Perm}
use p2purr.Server.Registry.{
  Registry, registry, viewed, at_fd, viewed_server, with_registry, over, viewed-behind,
  viewed-first, over-at_fd, registry-none, registry-Perm,
}

abbrev pub at_address : List ℕ → ℕ → Option PeerConnHandler → Bool
at_address host port none = false
at_address host port (some peer) = same_text (get_host peer) host && get_port peer == port

-- `send_pkt` of a peer that the map has under the descriptor.
abbrev pub send_in : Packet → ℤ → Registry → PeerConnHandler → Outcome Registry Bool
send_in pkt fd r peer = at_fd (λ _. true) fd r (send_pkt pkt peer)

-- An exception is caught and reported, and whether a peer was found is not handed on.
abbrev pub quiet : Outcome Registry Bool → Outcome Registry (Unit {0})
quiet = within (λ _ r. ok tt r) (λ _ r. ok tt r)

module _ (pkt : Packet) (host : List ℕ) (port : ℕ) where
  -- The call is one of `send_pkt` on a peer at the address, whichever it is, or there is none.
  abbrev pub SendsIn : Registry → Outcome Registry Bool → Type 0
  SendsIn r o =
      ((fd : ℤ) × (peer : PeerConnHandler) × (r fd ≡ some peer)
        × (at_address host port (some peer) ≡ true)
        × (o ≡ send_in pkt fd r peer))
      ⊎ (((fd : ℤ) → at_address host port (r fd) ≡ false) × (o ≡ ok false r))

  send_to-registry :
      (peers : List (ℤ × PeerConnHandler))
      → Distinct (keys peers)
      → SendsIn (registry peers) (viewed (send_to pkt host port peers))
  unfolding send_to registry
  send_to-registry [] d = inr (λ fd. refl, refl)
  send_to-registry ((k, peer) ∷ peers) (new', d) =
      elim (Bool-cases (at_address host port (some peer))) [
        | inl found ↦ inl (
          k,
          peer,
          ap (λ b. if b then some peer else registry peers k) (==_ℤ_refl k),
          found,
          ap (λ b. viewed (here b)) found
              ∙ viewed-first (λ _. true) k peer peers (send_pkt pkt peer),
        )
        | inr other ↦
            let behind =
              ap (λ b. viewed (here b)) other
              ∙ viewed-behind k peer (send_to pkt host port peers) in
            elim (send_to-registry peers d) [
              | inl (fd, q, there, found, run) ↦
                  let apart : ==_ℤ k fd ≡ false = other_key fd q there in
                  inl (
                    fd,
                    q,
                    ap (λ b. if b then some peer else registry peers fd) apart ∙ there,
                    found,
                    behind
                        ∙ ap (over k peer) run
                        ∙ over-at_fd (λ _. true) k fd peer (registry peers) (send_pkt pkt q) apart,
                  )
              | inr (nowhere, run) ↦ inr (
                λ j. not_there other j (Bool-cases (==_ℤ k j)) (nowhere j),
                behind ∙ ap (over k peer) run,
              )
            ]
      ]
    where
      here : Bool → Outcome (List (ℤ × PeerConnHandler)) Bool
      here b =
          if b
          then within (λ _ t. ok true ((k, t) ∷ peers)) (λ e t. throw e ((k, t) ∷ peers))
              (send_pkt pkt peer)
          else within (λ found ts. ok found ((k, peer) ∷ ts)) (λ e ts. throw e ((k, peer) ∷ ts))
              (send_to pkt host port peers)

      other_key : (fd : ℤ) (q : PeerConnHandler) → registry peers fd ≡ some q → ==_ℤ k fd ≡ false
      other_key fd q there = elim (Bool-cases (==_ℤ k fd)) [
        | inl same ↦
            let none_here : registry peers fd ≡ none =
              registry-none fd peers
                (subst (λ i. member i (keys peers) ≡ false) (==_ℤ→eq k fd same) new') in
            absurd (cc (none_here, there))
        | inr apart ↦ apart
      ]

      not_there :
          at_address host port (some peer) ≡ false
          → (j : ℤ) → (==_ℤ k j ≡ true) ⊎ (==_ℤ k j ≡ false)
          → at_address host port (registry peers j) ≡ false
          → at_address host port (if ==_ℤ k j then some peer else registry peers j) ≡ false
      not_there other j (inl here') h =
          ap (λ b. at_address host port (if b then some peer else registry peers j)) here' ∙ other
      not_there other j (inr away) h =
          ap (λ b. at_address host port (if b then some peer else registry peers j)) away ∙ h

  viewed-sent :
      (s : P2PurrServer) (o : Outcome (List (ℤ × PeerConnHandler)) Bool)
      → viewed_server (
          reported (
            ((λ t. with_table t o) >>= λ found t. if found then ok tt t else throw send_exception t)
              s))
        ≡ with_registry s (quiet (viewed o))
  viewed-sent s (ok true ts) = refl
  viewed-sent s (ok false ts) = refl
  viewed-sent s (throw e ts) = refl
  viewed-sent s fault = refl
  viewed-sent s no_fuel = refl
  viewed-sent s exits = refl

  -- In whatever order the table of a server has its entries, where no descriptor stands twice:
  -- `send_pkt_to_peer` calls `send_pkt` on one of the peers that the map has at the address, puts it
  -- back under its descriptor, and changes nothing else; or the map has no peer at the address, and the
  -- call changes nothing.
  pub send_pkt_to_peer-registry :
      (s : P2PurrServer) (peers : List (ℤ × PeerConnHandler))
      → Distinct (keys s.sock_to_peer_map)
      → Permᴰ s.sock_to_peer_map peers
      → ((fd : ℤ) × (peer : PeerConnHandler) × (registry s.sock_to_peer_map fd ≡ some peer)
          × (at_address host port (some peer) ≡ true)
          × (viewed_server (send_pkt_to_peer pkt host port (reordered s peers))
              ≡ with_registry s (quiet (send_in pkt fd (registry s.sock_to_peer_map) peer))))
        ⊎ (((fd : ℤ) → at_address host port (registry s.sock_to_peer_map fd) ≡ false)
            × (viewed_server (send_pkt_to_peer pkt host port (reordered s peers))
                ≡ ok tt (registry s.sock_to_peer_map, record s { sock_to_peer_map = [] })))
  unfolding send_pkt_to_peer
  send_pkt_to_peer-registry s peers d p =
      let done = viewed-sent (reordered s peers) (send_to pkt host port peers) in
      let sends : SendsIn (registry s.sock_to_peer_map) (viewed (send_to pkt host port peers)) =
        subst (λ r. SendsIn r (viewed (send_to pkt host port peers))) (sym (registry-Perm p d))
          (send_to-registry peers (Distinct-Perm (keys-Perm p) d)) in
      elim sends [
        | inl (fd, peer, there, found, run) ↦
            inl (fd, peer, there, found, done ∙ ap (λ o. with_registry s (quiet o)) run)
        | inr (nowhere, run) ↦ inr (nowhere, done ∙ ap (λ o. with_registry s (quiet o)) run)
      ]

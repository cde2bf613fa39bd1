-- ===== src/Server/Registry/Removing.antt =====
-- `remove_disconnected_peers` on the map of peers.
use mathlib.Core.List.{Permᴰ}
use p2purr.Base.{
  ◌≡◌, refl, sym, ap, subst, ◌∙◌, Bool, true, false, not, Option, none, some, List, [], ◌∷◌, arith,
  if◌then◌else◌, Bool-cases, inl, inr, ℤ,
}
use p2purr.Peer.{PeerConnHandler, conn_active}
use p2purr.Server.{P2PurrServer, ==_ℤ}
use p2purr.Server.Disconnected.{
  active_peers, fds_to_rm, erase_fds, list_begin, remove_disconnected_peers,
}
use p2purr.Server.Table.{keys, member, Distinct, ==_ℤ→eq}
use p2purr.Server.Order.{reordered, keys-Perm, Distinct-Perm}
use p2purr.Server.Registry.{registry, registry-none, registry-Perm}

-- The peers whose connection is open.
abbrev pub only_active : Option PeerConnHandler → Option PeerConnHandler
only_active none = none
only_active (some peer) = if conn_active peer then some peer else none

pub active_peers-registry :
    (j : ℤ) (peers : List (ℤ × PeerConnHandler))
    → Distinct (keys peers)
    → registry (active_peers peers) j ≡ only_active (registry peers j)
unfolding active_peers registry
active_peers-registry j [] d = refl
active_peers-registry j ((k, peer) ∷ peers) (new', d) =
    let again : registry (active_peers peers) j ≡ only_active (registry peers j) =
      active_peers-registry j peers d in
    elim (Bool-cases (conn_active peer)) [
      | inl open' ↦ ap (λ b. registry (stays b) j) open' ∙ elim (Bool-cases (==_ℤ k j)) [
        | inl here ↦ ground arith
        | inr away ↦ ground (arith, again)
      ]
      | inr shut ↦ ap (λ b. registry (stays b) j) shut ∙ elim (Bool-cases (==_ℤ k j)) [
        | inl here ↦
            again
            ∙ ap only_active (
                registry-none j peers
                  (subst (λ i. member i (keys peers) ≡ false) (==_ℤ→eq k j here) new'))
            ∙ sym (
                ap (λ b. only_active (if b then some peer else registry peers j)) here
                ∙ ap (λ b. if b then some peer else none) shut)
        | inr away ↦ ground (arith, again)
      ]
    ]
  where
    stays : Bool → List (ℤ × PeerConnHandler)
    stays b = if not b then active_peers peers else (k, peer) ∷ active_peers peers

-- On a running server, in whatever order its table has its entries, where no descriptor stands twice:
-- after `remove_disconnected_peers` the map has under each descriptor the peer that it had before, if its
-- connection is open, and no peer otherwise.
pub remove_disconnected_peers-registry :
    (s : P2PurrServer) (peers : List (ℤ × PeerConnHandler))
    → s.is_local_server_running ≡ true
    → Distinct (keys s.sock_to_peer_map)
    → Permᴰ s.sock_to_peer_map peers
    → registry (remove_disconnected_peers (reordered s peers)).sock_to_peer_map
      ≡ (λ j. only_active (registry s.sock_to_peer_map j))
unfolding remove_disconnected_peers
remove_disconnected_peers-registry s peers runs d p i j =
    (ap (λ b. registry (table b) j) runs
        ∙ active_peers-registry j peers (Distinct-Perm (keys-Perm p) d)
        ∙ ap (λ r. only_active (r j)) (sym (registry-Perm p d)))
      i
  where
    table : Bool → List (ℤ × PeerConnHandler)
    table b =
        (if not b then reordered s peers else record (reordered s peers) {
          sock_to_peer_map = active_peers peers;
          pollfd_list = erase_fds (fds_to_rm peers) (list_begin s.pollfd_list);
        }).sock_to_peer_map

-- ===== src/Server/Removal.antt =====
-- `remove_disconnected_peers`: which peers and descriptors stay.
use p2purr.Base.{
  ◌≡◌, refl, sym, ap, ap₂, subst, ◌∙◌, Bool, true, false, not, List, [], ◌∷◌, ◌++◌, append-nil,
  append_assoc, ◌||◌, negsuc, if◌then◌else◌, ℤ, Bool-cases, inl, inr,
}
use p2purr.Peer.{PeerConnHandler, conn_active}
use p2purr.Server.{PollFd, P2PurrServer, ==_ℤ}
use p2purr.Server.Disconnected.{
  active_peers, fds_to_rm, PollIt, list_begin, erase_fd, erase_fds, remove_disconnected_peers,
}

-- Every peer of the table has an open connection.
abbrev pub AllActive : List (ℤ × PeerConnHandler) → Type 0
AllActive [] = Unit {0}
AllActive ((k, peer) ∷ peers) = (conn_active peer ≡ true) × AllActive peers

active_peers-AllActive : (peers : List (ℤ × PeerConnHandler)) → AllActive (active_peers peers)
unfolding active_peers
active_peers-AllActive [] = tt
active_peers-AllActive ((k, peer) ∷ peers) = elim (Bool-cases (conn_active peer)) [
  | inl open' ↦
      subst AllActive
        (sym (ap (λ b. if not b then active_peers peers else (k, peer) ∷ active_peers peers) open'))
        (open', active_peers-AllActive peers)
  | inr shut ↦ rw shut (active_peers-AllActive peers)
]

fds_to_rm-AllActive : (peers : List (ℤ × PeerConnHandler)) → AllActive peers → fds_to_rm peers ≡ []
unfolding fds_to_rm
fds_to_rm-AllActive [] h = refl
fds_to_rm-AllActive ((k, peer) ∷ peers) (open', h) = rw open' (fds_to_rm-AllActive peers h)

active_peers_of_AllActive :
    (peers : List (ℤ × PeerConnHandler)) → AllActive peers → active_peers peers ≡ peers
unfolding active_peers
active_peers_of_AllActive [] h = refl
active_peers_of_AllActive ((k, peer) ∷ peers) (open', h) =
    ap (λ b. if not b then active_peers peers else (k, peer) ∷ active_peers peers) open'
    ∙ ap (◌∷◌ (k, peer)) (active_peers_of_AllActive peers h)

-- The entries of a poll list of which the descriptor is neither the given one nor -1.
unfoldable pub without : ℤ → List PollFd → List PollFd
without fd [] = []
without fd (p ∷ ps) =
    if ==_ℤ p.fd fd || ==_ℤ p.fd (negsuc 0) then without fd ps else p ∷ without fd ps

-- The iterator at the list's end.
abbrev at_end : List PollFd → PollIt
at_end pfds = record { seen = pfds; ahead = [] }

erase_fds_end : (fds : List ℤ) (seen : List PollFd) → erase_fds fds (at_end seen) ≡ seen
unfolding erase_fds erase_fd
erase_fds_end [] seen = append-nil seen
erase_fds_end (fd ∷ fds) seen = erase_fds_end fds seen

-- The loop for one descriptor takes its entries out of what it has not reached, and ends at the list's
-- end.
erase_fd-without :
    (fd : ℤ) (seen ps : List PollFd) → erase_fd fd seen ps ≡ at_end (seen ++ without fd ps)
unfolding erase_fd without
erase_fd-without fd seen [] = ap at_end (sym (append-nil seen))
erase_fd-without fd seen (p ∷ ps) = elim (Bool-cases (==_ℤ p.fd fd || ==_ℤ p.fd (negsuc 0))) [
  | inl goes ↦
      ap (λ b. if b then erase_fd fd seen ps else erase_fd fd (seen ++ p ∷ []) ps) goes
      ∙ erase_fd-without fd seen ps
      ∙ sym (ap (λ b. at_end (seen ++ (if b then without fd ps else p ∷ without fd ps))) goes)
  | inr stays ↦
      ap (λ b. if b then erase_fd fd seen ps else erase_fd fd (seen ++ p ∷ []) ps) stays
      ∙ erase_fd-without fd (seen ++ p ∷ []) ps
      ∙ ap at_end (append_assoc seen (p ∷ []) (without fd ps))
      ∙ sym (ap (λ b. at_end (seen ++ (if b then without fd ps else p ∷ without fd ps))) stays)
]

-- So of several descriptors, the first alone is taken out.
pub erase_fds-without :
    (fd : ℤ) (fds : List ℤ) (ps : List PollFd)
    → erase_fds (fd ∷ fds) (list_begin ps) ≡ without fd ps
unfolding erase_fds
erase_fds-without fd fds ps =
    ap (erase_fds fds) (erase_fd-without fd [] ps) ∙ erase_fds_end fds (without fd ps)

-- On a running server, `remove_disconnected_peers` leaves only peers whose connection is open, and a
-- second call changes nothing more.
pub remove_disconnected_peers-AllActive :
    (s : P2PurrServer)
    → s.is_local_server_running ≡ true
    → AllActive (remove_disconnected_peers s).sock_to_peer_map
      × (remove_disconnected_peers (remove_disconnected_peers s) ≡ remove_disconnected_peers s)
unfolding remove_disconnected_peers erase_fds
remove_disconnected_peers-AllActive s e =
    subst (λ r. AllActive r.sock_to_peer_map × (remove_disconnected_peers r ≡ r)) (sym once)
      (active_peers-AllActive s.sock_to_peer_map, again)
  where
    with_peers : List (ℤ × PeerConnHandler) → List PollFd → P2PurrServer
    with_peers peers pfds = record s { sock_to_peer_map = peers; pollfd_list = pfds }

    left : List (ℤ × PeerConnHandler)
    left = active_peers s.sock_to_peer_map

    pfds : List PollFd
    pfds = erase_fds (fds_to_rm s.sock_to_peer_map) (list_begin s.pollfd_list)

    once : remove_disconnected_peers s ≡ with_peers left pfds
    once = ap (λ b. if not b then s else with_peers left pfds) e

    again : remove_disconnected_peers (with_peers left pfds) ≡ with_peers left pfds
    again =
        ap
          (λ b.
            if not b
            then with_peers left pfds
            else with_peers (active_peers left) (erase_fds (fds_to_rm left) (list_begin pfds)))
          e
        ∙ ap₂ (λ peers fds. with_peers peers (erase_fds fds (list_begin pfds)))
            (active_peers_of_AllActive left (active_peers-AllActive s.sock_to_peer_map))
            (fds_to_rm-AllActive left (active_peers-AllActive s.sock_to_peer_map))

fds_to_rm-first :
    (before after : List (ℤ × PeerConnHandler)) (fd : ℤ) (peer : PeerConnHandler)
    → AllActive before
    → conn_active peer ≡ false
    → fds_to_rm (before ++ (fd, peer) ∷ after) ≡ fd ∷ fds_to_rm after
unfolding fds_to_rm
fds_to_rm-first [] after fd peer h shut =
    ap (λ b. if not b then fd ∷ fds_to_rm after else fds_to_rm after) shut
fds_to_rm-first ((k, p) ∷ before) after fd peer (open', h) shut =
    let rest = fds_to_rm (before ++ (fd, peer) ∷ after) in
    ap (λ b. if not b then k ∷ rest else rest) open' ∙ fds_to_rm-first before after fd peer h shut

-- On a running server with disconnected peers, all of these leave the table, and of the poll list just the
-- entries stay, in their order, that have neither the descriptor of the first of these peers nor -1.
pub remove_disconnected_peers-first :
    (s : P2PurrServer) (before after : List (ℤ × PeerConnHandler)) (fd : ℤ) (peer : PeerConnHandler)
    → s.is_local_server_running ≡ true
    → s.sock_to_peer_map ≡ before ++ (fd, peer) ∷ after
    → AllActive before
    → conn_active peer ≡ false
    → AllActive (remove_disconnected_peers s).sock_to_peer_map
      × ((remove_disconnected_peers s).pollfd_list ≡ without fd s.pollfd_list)
unfolding remove_disconnected_peers
remove_disconnected_peers-first s before after fd peer e h active shut = (
  (remove_disconnected_peers-AllActive s e).0,
  ap (λ b. (swept b).pollfd_list) e
      ∙ ap (λ fds. erase_fds fds (list_begin s.pollfd_list))
          (ap fds_to_rm h ∙ fds_to_rm-first before after fd peer active shut)
      ∙ erase_fds-without fd (fds_to_rm after) s.pollfd_list,
)
  where
    swept : Bool → P2PurrServer
    swept b = if not b then s else record s {
      sock_to_peer_map = active_peers s.sock_to_peer_map;
      pollfd_list = erase_fds (fds_to_rm s.sock_to_peer_map) (list_begin s.pollfd_list);
    }

pub AllActive-append :
    (xs ys : List (ℤ × PeerConnHandler)) → AllActive xs → AllActive ys → AllActive (xs ++ ys)
AllActive-append [] ys h k = k
AllActive-append ((j, peer) ∷ xs) ys (open', h) k = (open', AllActive-append xs ys h k)

-- Where every connection is open, `remove_disconnected_peers` changes nothing.
pub remove_disconnected_peers_of_AllActive :
    (s : P2PurrServer) → AllActive s.sock_to_peer_map → remove_disconnected_peers s ≡ s
unfolding remove_disconnected_peers erase_fds
remove_disconnected_peers_of_AllActive s h =
    ap₂
      (λ peers fds. if not s.is_local_server_running then s else record s {
        sock_to_peer_map = peers;
        pollfd_list = erase_fds fds (list_begin s.pollfd_list);
      })
      (active_peers_of_AllActive s.sock_to_peer_map h) (fds_to_rm-AllActive s.sock_to_peer_map h)
    ∙ same s.is_local_server_running
  where
    same : (b : Bool) → (if not b then s else s) ≡ s
    same true = refl
    same false = refl

-- ===== src/Server/Disconnected.antt =====
-- src/p2purr_server.cpp, remove_disconnected_peers.
use p2purr.Base.{not, List, [], ◌∷◌, ◌++◌, ◌||◌, if◌then◌else◌, ℤ, negsuc}
use p2purr.Peer.{PeerConnHandler, conn_active}
use p2purr.Server.{PollFd, P2PurrServer, ==_ℤ}

-- `void remove_disconnected_peers()`: the peers that stay, and the descriptors of those that go.
unfoldable pub active_peers : List (ℤ × PeerConnHandler) → List (ℤ × PeerConnHandler)
active_peers [] = []
active_peers ((k, peer) ∷ peers) =
    if not (conn_active peer) then active_peers peers else (k, peer) ∷ active_peers peers

unfoldable pub fds_to_rm : List (ℤ × PeerConnHandler) → List ℤ
fds_to_rm [] = []
fds_to_rm ((k, peer) ∷ peers) =
    if not (conn_active peer) then k ∷ fds_to_rm peers else fds_to_rm peers

-- The iterator `poll_it`: what stands before it in the poll list, and what it has not reached.
pub record PollIt : Type 0 where
  pub seen : List PollFd
  pub ahead : List PollFd

-- The `while` loop over the poll list for one descriptor, from where the iterator stands.
unfoldable pub erase_fd : ℤ → List PollFd → List PollFd → PollIt
erase_fd fd seen [] = record { seen = seen; ahead = [] }
erase_fd fd seen (p ∷ ps) =
    let erased = erase_fd fd seen ps in
    let kept = erase_fd fd (seen ++ p ∷ []) ps in
    if ==_ℤ p.fd fd || ==_ℤ p.fd (negsuc 0) then erased else kept

-- The `for` loop, which does not set the iterator back between two descriptors.
unfoldable pub erase_fds : List ℤ → PollIt → List PollFd
unfolding erase_fd
erase_fds [] it = it.seen ++ it.ahead
erase_fds (fd ∷ fds) it = erase_fds fds (erase_fd fd it.seen it.ahead)

-- `pollfd_list.begin()`
abbrev pub list_begin : List PollFd → PollIt
list_begin pfds = record { seen = []; ahead = pfds }

unfoldable pub remove_disconnected_peers : P2PurrServer → P2PurrServer
unfolding active_peers fds_to_rm erase_fds
remove_disconnected_peers s = if not s.is_local_server_running then s else record s {
  sock_to_peer_map = active_peers s.sock_to_peer_map;
  pollfd_list = erase_fds (fds_to_rm s.sock_to_peer_map) (list_begin s.pollfd_list);
}

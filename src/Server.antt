-- ===== src/Server.antt =====
-- src/p2purr_server.cpp: the table of peers and the list of descriptors that the poll thread watches.
-- The table is the list of its entries in the order in which the map's iterators give them.
pub mod Disconnected
pub mod Removal
pub mod Table
pub mod Sweep
pub mod Sound
pub mod Order
pub mod Registry
pub mod Moves
pub mod Methods
pub mod Polling
pub mod Stopping
pub mod HangUp
pub mod Traffic
pub mod Sending
pub mod Channel
pub mod Entry
pub mod Admission
pub mod Outbound
pub mod Reach
pub mod History
use p2purr.Base.{
  ℕ, ◌+◌, Bool, true, false, not, none, some, List, [], ◌∷◌, ◌++◌, length, ltb, leb, ◌||◌,
  if◌then◌else◌, ℤ, pos, negsuc, Outcome, ok, throw, fault, no_fuel, exits, within, M, ◌>>=◌, ◌>>◌,
  ◌==◌, Option, exits, ◌%◌, ◌^◌, ◌&&◌, send_exception,
}
use p2purr.Packet.{Packet, Platform}
use p2purr.Socket.{Socket, get_sockfd, close_sock}
use p2purr.Socket.Setup.{
  Fresh, socket_helper, set_sock_options, set_blocking, init_server, server_accept_conns,
}
use p2purr.Peer.{
  PeerConnHandler, get_host, get_port, new_peer, connect, conn_active, close, send_pkt, recv_pkt,
}

-- `struct pollfd`, with the events asked for.
pub record PollFd : Type 0 where
  pub fd : ℤ
  pub events : ℕ

-- `class P2PurrServer`, without the thread. `refused` is no member of the class: it holds the connections
-- of clients that were refused, as `close` left them, of which the source keeps only what the system
-- sees.
pub record P2PurrServer : Type 0 where
  pub host : List ℕ
  pub port : ℕ
  pub server_sock_helper : Socket
  pub is_local_server_running : Bool
  pub max_inbound_connections : ℕ
  pub max_outbound_connections : ℕ
  pub sock_to_peer_map : List (ℤ × PeerConnHandler)
  pub pollfd_list : List PollFd
  pub refused : List PeerConnHandler

abbrev pub ServerM : Type 0 → Type 0
ServerM = M P2PurrServer

abbrev pub ==_ℤ : ℤ → ℤ → Bool
==_ℤ (pos m) (pos n) = m == n
==_ℤ (pos m) (negsuc n) = false
==_ℤ (negsuc m) (pos n) = false
==_ℤ (negsuc m) (negsuc n) = m == n

-- `void add_fd_to_watch_list(sock_t sockfd, short events)`
abbrev pub add_fd_to_watch_list : ℤ → ℕ → P2PurrServer → P2PurrServer
add_fd_to_watch_list sockfd events s = record s {
  pollfd_list = s.pollfd_list ++ record { fd = sockfd; events = events } ∷ [];
}

-- `sock_to_peer_map.find(fd) != sock_to_peer_map.end()`
unfoldable pub has_peer : ℤ → List (ℤ × PeerConnHandler) → Bool
has_peer fd [] = false
has_peer fd ((k, peer) ∷ peers) = ==_ℤ k fd || has_peer fd peers

-- A peer enters the table unless its descriptor is there already.
abbrev pub insert_peer : ℤ → PeerConnHandler → P2PurrServer → P2PurrServer
insert_peer fd peer s =
    if has_peer fd s.sock_to_peer_map
    then s
    else record s { sock_to_peer_map = s.sock_to_peer_map ++ (fd, peer) ∷ [] }

-- `server_accept_conns` on the server's socket.
abbrev pub accepted_on :
    P2PurrServer → Outcome Socket (List ℕ × ℕ × ℤ) → Outcome P2PurrServer (List ℕ × ℕ × ℤ)
accepted_on s =
    within (λ c h. ok c (record s { server_sock_helper = h }))
      (λ e h. throw e (record s { server_sock_helper = h }))

-- The constructor of a peer, which does not touch the server.
abbrev pub make_peer : Fresh → List ℕ → ℕ → ℤ → ServerM PeerConnHandler
make_peer fresh host port sock s =
    within (λ peer h. ok peer s) (λ e h. throw e s) (new_peer fresh host port sock)

-- `peer->close()` of a client that is refused, and what it leaves of the connection.
abbrev pub refuse : PeerConnHandler → ServerM (Unit {0})
refuse peer s =
    within (λ closed' t. ok tt (record s { refused = s.refused ++ t ∷ [] })) (λ e t. throw e s)
      (close peer)

-- What `handle_new_client` does with the peer, at the value of the events to poll for.
unfoldable pub admit : ℕ → ℤ → PeerConnHandler → ServerM (Unit {0})
admit events client_sock peer s =
    if ltb s.max_inbound_connections (length s.sock_to_peer_map)
    then refuse peer s
    else ok tt (insert_peer client_sock peer (add_fd_to_watch_list client_sock events s))

-- `void handle_new_client()`
unfoldable pub handle_new_client : ℕ → Fresh → ServerM (Unit {0})
unfolding admit
handle_new_client events fresh = do
  c ← λ s. accepted_on s (server_accept_conns s.server_sock_helper)
  peer ← make_peer fresh c.0 (c.1 % 2 ^ 16) c.2
  admit events c.2 peer

-- `peer->connect()`, and the peer enters the table.
unfoldable pub join : ℕ → PeerConnHandler → ServerM (Unit {0})
join events peer s =
    within
      (λ _ p. ok tt (
        insert_peer (get_sockfd p.sock_helper) p
          (add_fd_to_watch_list (get_sockfd p.sock_helper) events s)))
      (λ e p. throw e s) (connect peer)

-- `catch (GenericException &e)` of a method that returns nothing.
abbrev pub reported : Outcome P2PurrServer (Unit {0}) → Outcome P2PurrServer (Unit {0})
reported = within ok (λ e t. ok tt t)

-- `void connect_to_peer(string host, uint16_t port)`
unfoldable pub connect_to_peer : ℕ → Fresh → List ℕ → ℕ → ServerM (Unit {0})
unfolding join
connect_to_peer events fresh host port s =
    if leb s.max_outbound_connections (length s.sock_to_peer_map)
    then ok tt s
    else reported ((make_peer fresh host port (negsuc 0) >>= join events) s)

-- `recv_pkt` of the peer under a descriptor, which the table holds at most once.
unfoldable pub recv_from : Platform → ℤ → M (List (ℤ × PeerConnHandler)) (Option Packet)
recv_from env fd [] = ok none []
recv_from env fd ((k, peer) ∷ peers) =
    let rest = recv_from env fd peers in
    if ==_ℤ k fd
    then within (λ p t. ok p ((k, t) ∷ peers)) (λ e t. throw e ((k, t) ∷ peers)) (recv_pkt env peer)
    else within (λ p ts. ok p ((k, peer) ∷ ts)) (λ e ts. throw e ((k, peer) ∷ ts)) rest

-- The server with the table that a call on it leaves.
abbrev pub with_table :
    {A : Type 0} → P2PurrServer → Outcome (List (ℤ × PeerConnHandler)) A → Outcome P2PurrServer A
with_table s =
    within (λ a peers. ok a (record s { sock_to_peer_map = peers }))
      (λ e peers. throw e (record s { sock_to_peer_map = peers }))

-- `void handle_client_communications(sock_t fd)`: the packet that is handed to `on_packet_received`.
unfoldable pub handle_client_communications : Platform → ℤ → ServerM (Option Packet)
unfolding recv_from
handle_client_communications env fd s = with_table s (recv_from env fd s.sock_to_peer_map)

-- `==` of strings.
abbrev pub same_text : List ℕ → List ℕ → Bool
same_text [] [] = true
same_text [] (d ∷ ds) = false
same_text (c ∷ cs) [] = false
same_text (c ∷ cs) (d ∷ ds) = c == d && same_text cs ds

-- `send_pkt` to the first peer at the address; whether there is one.
unfoldable pub send_to : Packet → List ℕ → ℕ → M (List (ℤ × PeerConnHandler)) Bool
send_to pkt host port [] = ok false []
send_to pkt host port ((k, peer) ∷ peers) =
    let rest = send_to pkt host port peers in
    if same_text (get_host peer) host && get_port peer == port
    then within (λ _ t. ok true ((k, t) ∷ peers)) (λ e t. throw e ((k, t) ∷ peers))
        (send_pkt pkt peer)
    else within (λ found ts. ok found ((k, peer) ∷ ts)) (λ e ts. throw e ((k, peer) ∷ ts)) rest

-- `void send_pkt_to_peer(Packet pkt, string host, uint16_t port)`
unfoldable pub send_pkt_to_peer : Packet → List ℕ → ℕ → ServerM (Unit {0})
unfolding send_to
send_pkt_to_peer pkt host port s = reported (
    (do
      peer_found ← λ t. with_table t (send_to pkt host port t.sock_to_peer_map)
      λ t. if peer_found then ok tt t else throw send_exception t)
      s)

-- `close` of every peer, whatever it returns.
unfoldable pub close_each : M (List (ℤ × PeerConnHandler)) (Unit {0})
close_each [] = ok tt []
close_each ((k, peer) ∷ peers) =
    within
      (λ _ t.
        within (λ _ ts. ok tt ((k, t) ∷ ts)) (λ e ts. throw e ((k, t) ∷ ts)) (close_each peers))
      (λ e t. throw e ((k, t) ∷ peers)) (close peer)

-- `void close_all_connections()`
unfoldable pub close_all_connections : ServerM (Unit {0})
unfolding close_each
close_all_connections s = reported (
    (do
      λ t. with_table t (close_each t.sock_to_peer_map)
      λ t. ok tt (record t { sock_to_peer_map = []; pollfd_list = [] }))
      s)

-- `this->server_sock_helper->close_sock()`, and what `stop` returns.
abbrev pub close_server : ServerM Bool
close_server s =
    within (λ b h. ok b (record s { server_sock_helper = h; is_local_server_running = not b }))
      (λ e h. throw e (record s { server_sock_helper = h })) (close_sock s.server_sock_helper)

-- `bool stop()`, without the join of the thread, which is detached.
unfoldable pub stop : ServerM Bool
stop = do
  λ s. ok tt (record s { is_local_server_running = false })
  close_all_connections
  close_server

-- `~P2PurrServer()`
unfoldable pub destroy_server : ServerM (Unit {0})
unfolding stop
destroy_server s = if s.is_local_server_running then (stop >>= λ closed' t. ok tt t) s else ok tt s

-- `void start()`, without the thread.
unfoldable pub start : ServerM (Unit {0})
start s =
    within (λ _ h. ok tt (record s { server_sock_helper = h; is_local_server_running = true }))
      (λ e h. ok tt (record s { server_sock_helper = h })) (init_server s.server_sock_helper)

-- `P2PurrServer(string host, uint16_t port)`, at the value of the events to poll for. `SocketHelper` is
-- given no socket.
unfoldable pub new_server : ℕ → Fresh → List ℕ → ℕ → Outcome Socket P2PurrServer
new_server events fresh host port = elim (socket_helper fresh host port (negsuc 0)) [
  | none ↦ exits
  | some helper ↦
      (do
        set_blocking false
        set_sock_options
        λ h.
            ok
              (add_fd_to_watch_list (get_sockfd h) events (record {
                host = host;
                port = port;
                server_sock_helper = h;
                is_local_server_running = false;
                max_inbound_connections = 1000;
                max_outbound_connections = 1000;
                sock_to_peer_map = [];
                pollfd_list = [];
                refused = [];
              }))
              h)
        helper
]

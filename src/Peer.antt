-- ===== src/Peer.antt =====
-- src/peerconnhandler.cpp: one connection, and the packets that arrive on it.
pub mod Stream
pub mod Receive
pub mod Cut
pub mod Delivery
pub mod Exchange
pub mod Malformed
pub mod Silence
pub mod Ends
pub mod InBounds
pub mod Reach
pub mod Lost
pub mod Shut
pub mod Empty
use p2purr.Base.{
  ℕ, zero, suc, ◌+◌, ◌-◌, Bool, true, false, not, Option, none, some, List, [], ◌∷◌, ◌++◌, length,
  replicate, get_elem?, ltb, leb, ◌==◌, if◌then◌else◌, ℤ, pos, negsuc, Outcome, ok, throw, fault,
  no_fuel, exits, within, M, ◌>>=◌, ◌>>◌, checked, read_n,
}
use p2purr.Packet.{Packet, is_build_done, get_packet, get_pkt_len, Platform, Context, set_buff_size}
use p2purr.Packet.Rebuild.{for_rebuild, rebuild}
use p2purr.Socket.Setup.{
  Fresh, is_unset, socket_helper, set_sock_options, set_blocking, connect_to_host,
}
use p2purr.Socket.{Socket, get_sock_open, Receiving, receive, send_data, close_sock}

-- `class PeerConnHandler`. The packets share `recv_buffer` and `curr_buff_idx`; `out_file` is
-- what this connection has last written to "out.txt": all connections write to that one file, and none
-- reads it.
pub record PeerConnHandler : Type 0 where
  pub host : List ℕ
  pub port : ℕ
  pub sock_helper : Socket
  pub recv_buffer : List ℕ
  pub curr_buff_idx : ℕ
  pub buff_size : ℕ
  pub completed_pkts : List Packet
  pub current_pkt : Option Packet
  pub out_file : Option (List ℕ)
  pub keepalive : Bool
  pub bloking : Bool
  pub pause_send : Bool
  pub pause_recv : Bool
  pub client_conn : Bool
  pub server_conn : Bool

abbrev pub PeerM : Type 0 → Type 0
PeerM = M PeerConnHandler

-- `void set_client()` and `void set_server()`
abbrev pub set_client : PeerConnHandler → PeerConnHandler
set_client s = record s { client_conn = true; server_conn = false }

abbrev pub set_server : PeerConnHandler → PeerConnHandler
set_server s = record s { client_conn = false; server_conn = true }

-- `void clear_buff()`
abbrev pub clear_buff : PeerConnHandler → PeerConnHandler
clear_buff s = record s { recv_buffer = replicate s.buff_size 0; curr_buff_idx = 0 }

-- The object that the constructor leaves, on the socket helper that it makes.
unfoldable pub accept_peer : List ℕ → ℕ → ℤ → Socket → PeerConnHandler
accept_peer host port sock helper =
    let s : PeerConnHandler = record {
      host = host;
      port = port;
      sock_helper = helper;
      recv_buffer = replicate 1500 0;
      curr_buff_idx = 0;
      buff_size = 1500;
      completed_pkts = [];
      current_pkt = none;
      out_file = none;
      keepalive = true;
      bloking = false;
      pause_send = false;
      pause_recv = false;
      client_conn = false;
      server_conn = false;
    } in
    if is_unset sock then set_server s else set_client s

-- `PeerConnHandler(string host, uint16_t port, sock_t sock)`
unfoldable pub new_peer : Fresh → List ℕ → ℕ → ℤ → Outcome Socket PeerConnHandler
new_peer fresh host port sock = elim (socket_helper fresh host port sock) [
  | none ↦ exits
  | some helper ↦
      (do set_sock_options; set_blocking false; λ t. ok (accept_peer host port sock t) t) helper
]

-- `void connect()`
unfoldable pub connect : PeerM (Unit {0})
connect s =
    within (λ _ t. ok tt (record s { sock_helper = t; client_conn = true }))
      (λ e t. throw e (record s { sock_helper = t })) (connect_to_host s.sock_helper)

-- `void set_keepalive(bool ka)`
abbrev pub set_keepalive : Bool → PeerConnHandler → PeerConnHandler
set_keepalive ka s = record s { keepalive = ka }

-- `void set_mute_flags(bool mute_send, bool mute_recv)`
abbrev pub set_mute_flags : Bool → Bool → PeerConnHandler → PeerConnHandler
set_mute_flags mute_send mute_recv s = record s { pause_send = mute_send; pause_recv = mute_recv }

-- `bool is_client()` and `bool is_server()`
abbrev is_client : PeerConnHandler → Bool
is_client s = s.client_conn

abbrev is_server : PeerConnHandler → Bool
is_server s = s.server_conn

-- `string get_host()` and `uint16_t get_port()`
abbrev pub get_host : PeerConnHandler → List ℕ
get_host s = s.host

abbrev pub get_port : PeerConnHandler → ℕ
get_port s = s.port

-- `bool conn_active()`
abbrev pub conn_active : PeerConnHandler → Bool
conn_active s = get_sock_open s.sock_helper

-- `bool close()`
unfoldable pub close : PeerM Bool
close s =
    within (λ b t. ok b (record s { sock_helper = t }))
      (λ e t. throw e (record s { sock_helper = t })) (close_sock s.sock_helper)

-- The bytes that `send_data` is given: `get_packet` and `get_pkt_len` of the packet. A packet of no bytes
-- needs none. What `send` does with bytes of a null pointer is not modelled, and counts as a fault.
abbrev pub packet_bytes : Packet → Option (List ℕ)
packet_bytes p = elim (get_pkt_len p) [
  | pos n ↦ elim (get_packet p) [ none ↦ if n == 0 then some [] else none | some b ↦ read_n n b ]
  | negsuc n ↦ some []
]

-- What `send_data` leaves of the connection. An exception is caught and reported.
abbrev pub sent_over : PeerConnHandler → Outcome Socket Bool → Outcome PeerConnHandler (Unit {0})
sent_over s =
    within (λ b t. ok tt (record s { sock_helper = t }))
      (λ e t. ok tt (record s { sock_helper = t }))

abbrev send_bytes : List ℕ → PeerM (Unit {0})
send_bytes data' s = sent_over s (send_data data' s.sock_helper)

-- `void send_pkt(Packet pkt)`
unfoldable pub send_pkt : Packet → PeerM (Unit {0})
send_pkt p s = (checked (packet_bytes p) >>= send_bytes) s

-- What `receive` leaves of the connection.
abbrev pub received : PeerConnHandler → Outcome Receiving ℕ → Outcome PeerConnHandler ℕ
received s =
    within (λ n r. ok n (record s { sock_helper = r.socket; recv_buffer = r.buffer }))
      (λ e r. throw e (record s { sock_helper = r.socket; recv_buffer = r.buffer }))

-- `this->buff_size - *pos`. A negative length reads nothing, as does 0.
abbrev pub space_left : PeerConnHandler → ℕ
space_left s = s.buff_size - s.curr_buff_idx

-- `this->sock_helper->receive(buf + *pos, this->buff_size - *pos)`
pub receive_at : PeerM ℕ
receive_at s = received s (
    receive s.curr_buff_idx (space_left s)
      (record { socket = s.sock_helper; buffer = s.recv_buffer }))

-- `if(*pos >= recv_len ) this->clear_buff();`
abbrev pub clear_read : ℕ → PeerM (Unit {0})
clear_read recv_len t = ok tt (if leb recv_len t.curr_buff_idx then clear_buff t else t)

-- The last of `completed_pkts`.
unfoldable pub last_pkt : List Packet → Option Packet
last_pkt [] = none
last_pkt (p ∷ pkts) = elim pkts [ [] ↦ some p | q ∷ qs ↦ last_pkt pkts ]

abbrev pub return_last : PeerM (Option Packet)
return_last t = ok (last_pkt t.completed_pkts) t

-- `catch (GenericException &e)`
abbrev pub caught :
    Outcome PeerConnHandler (Option Packet) → Outcome PeerConnHandler (Option Packet)
caught = within ok (λ e t. ok none t)

module _ (env : Platform) where
  -- `current_pkt`, made if it is null, with `set_buff_size` of what was received.
  pub current : ℕ → PeerConnHandler → Packet
  current recv_len s =
      set_buff_size
        (elim s.current_pkt [ none ↦ for_rebuild env s.curr_buff_idx (pos recv_len) | some p ↦ p ])
        recv_len

  abbrev pub context : ℕ → PeerConnHandler → Context
  context recv_len s = record {
    packet = current recv_len s;
    recv_buffer = s.recv_buffer;
    buff_idx = s.curr_buff_idx;
    out_file = s.out_file;
  }

  abbrev pub after : PeerConnHandler → Context → PeerConnHandler
  after s c = record s {
    current_pkt = some c.packet;
    recv_buffer = c.recv_buffer;
    curr_buff_idx = c.buff_idx;
    out_file = c.out_file;
  }

  -- A packet that is done goes to `completed_pkts`.
  abbrev pub collected : PeerConnHandler → Context → PeerConnHandler
  collected s c =
      if is_build_done c.packet
      then record (after s c) {
        completed_pkts = s.completed_pkts ++ c.packet ∷ [];
        current_pkt = none;
      }
      else after s c

  -- What follows `rebuild` in a round.
  abbrev pub settle :
      PeerConnHandler → Outcome Context (Unit {0}) → Outcome PeerConnHandler (Unit {0})
  settle s = within (λ _ c. ok tt (collected s c)) (λ e c. throw e (after s c))

  -- One round of the loop.
  pub pkt_round : ℕ → PeerM (Unit {0})
  pkt_round recv_len s = settle s (rebuild env (context recv_len s))

  -- `while(*pos < recv_len)`, on fuel.
  pub pkt_loop : ℕ → ℕ → PeerM (Unit {0})
  unfolding pkt_round
  pkt_loop zero recv_len s = if ltb s.curr_buff_idx recv_len then no_fuel else ok tt s
  pkt_loop (suc fuel) recv_len s =
      if ltb s.curr_buff_idx recv_len
      then (pkt_round recv_len >> pkt_loop fuel recv_len) s
      else ok tt s

  -- What is done with what was received.
  pub process : ℕ → PeerM (Unit {0})
  unfolding pkt_loop
  process recv_len s =
      if ltb s.curr_buff_idx recv_len
      then (pkt_loop (recv_len + 1) recv_len >> clear_read recv_len) s
      else ok tt s

  -- The `try` block of `recv_pkt`.
  pub try_recv : PeerM (Option Packet)
  unfolding receive_at process last_pkt
  try_recv = do recv_len ← receive_at; process recv_len; return_last

  -- `shared_ptr<Packet> recv_pkt()`. An exception is caught and reported.
  unfoldable pub recv_pkt : PeerM (Option Packet)
  unfolding try_recv
  recv_pkt s = caught (try_recv s)

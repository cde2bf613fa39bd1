-- ===== src/Tests.antt =====
-- Concrete packets and sockets, and the theorems at them.
pub mod Packets
pub mod Connections
pub mod Streams
pub mod Sockets
pub mod Servers
pub mod Traffic
pub mod Rounds
pub mod Admission
pub mod Floats
pub mod Uses
pub mod Registry
pub mod Busy
use p2purr.Base.{
  not, negsuc, ℕ, ◌+◌, ◌≡◌, refl, true, false, none, some, List, [], ◌∷◌, ◌++◌, arith, replicate,
  length-replicate, pos, ok, inl, inr, ◌%◌, ◌^◌, memcpy, get_elem?-append_left, sym,
}
use p2purr.Serializer.{
  serialize_int16, serialize_int32, serialize_int64, deserialize_int16, deserialize_int32,
  deserialize_int64,
}
use p2purr.Serializer.RoundTrip.{
  deserialize_int-serialize_int, sign_extend_32, serialize_int32-deserialize_int32,
}
use p2purr.Packet.{Packet, Platform, Context}
use p2purr.Packet.Build.{from_payload, from_file}
use p2purr.Packet.Wire.{Message, IsMessage, wire}
use p2purr.Packet.Send.{sent, from_payload-wire, from_file-wire}
use p2purr.Packet.Rebuild.{for_rebuild, rebuild}
use p2purr.Packet.Rebuild.Chunk.{Progress}
use p2purr.Packet.Rebuild.Step.{IsRebuilt, rebuild_partial, rebuild_whole}
use p2purr.Socket.{
  shut_down, close_descriptor, try_close, close_sock, got, closed, took, ipv4_info, Socket,
  send_data, receive,
}
use p2purr.Socket.Closing.{close_sock-is_sock_open}
use p2purr.Socket.Transfer.{receive_once, send_data-all}
use p2purr.Server.{P2PurrServer}
use p2purr.Server.Disconnected.{fds_to_rm, remove_disconnected_peers}
use p2purr.Server.Removal.{
  AllActive, remove_disconnected_peers-AllActive, remove_disconnected_peers-first,
}
use p2purr.Peer.{PeerConnHandler, recv_pkt, last_pkt}
use p2purr.Peer.Stream.{AllRebuilt, Holds}
use p2purr.Peer.Receive.{IsListening, recv_pkt-got}

abbrev pub blank : Packet
blank = record {
  type = 0;
  charset = 0;
  encoding = 0;
  encryption = 0;
  compression = 0;
  attachment_file_path = [];
  has_file_attachment = false;
  built_pkt = none;
  header = none;
  payload = none;
  pkt_len = pos 0;
  full_hdr_len = 0;
  hdr_len = 0;
  payload_len = 0;
  has_buffer = false;
  has_buff_idx = false;
  buff_total_len = pos 0;
  buff_local_len = pos 0;
  buff_pos_start = pos 0;
  buff_next = 0;
  num_bytes_read = 0;
  pkt_built = false;
  pkt_rebuilding = false;
  keepalive = false;
}

-- Memory that is not initialised holds 0xCC, and every file holds three bytes.
abbrev pub platform : Platform
platform = record {
  uninitialised = λ n. replicate n 0xCC;
  length-uninitialised = λ n. length-replicate n 0xCC;
  raw_packet = blank;
  read_file = λ path. some (7 ∷ 255 ∷ 9 ∷ []);
  can_write = true;
}

abbrev pub idle : Context
idle = record { packet = blank; recv_buffer = []; buff_idx = 0; out_file = none }

abbrev pub hello : Message
hello = record {
  type = 1;
  charset = 2;
  encoding = 2;
  encryption = 0;
  compression = 3;
  body = 7 ∷ 255 ∷ 9 ∷ [];
}

pub hello-IsMessage : IsMessage hello
hello-IsMessage = record {
  type_byte = omega arith;
  charset_byte = omega arith;
  encoding_byte = omega arith;
  encryption_byte = omega arith;
  compression_byte = omega arith;
  fits = omega arith;
}

-- A connection that takes two bytes and then one, and gives two and then closes.
abbrev pub connection : Socket
connection = record {
  sock = pos 4;
  host = 97 ∷ [];
  port = 9000;
  is_sock_open = true;
  is_sock_init = true;
  ai = ipv4_info (49 ∷ []) ∷ [];
  ipv4_addrs = (49 ∷ []) ∷ [];
  ipv6_addrs = [];
  os = record {
    recvs = got (1 ∷ 2 ∷ []) ∷ closed ∷ [];
    sends = took 2 ∷ took 1 ∷ [];
    shutdowns = true ∷ [];
    closes = true ∷ [];
    accepts = [];
    connects = true ∷ [];
    binds = [];
    listens = [];
    fcntls = true ∷ true ∷ true ∷ true ∷ [];
    setsockopts = [];
    nonblocking = false;
    transmitted = [];
  };
}

-- A connection that is given `hello` and four bytes of the next packet.
abbrev pub received_bytes : List ℕ
received_bytes = wire hello ++ 255 ∷ 0 ∷ 9 ∷ 1 ∷ []

abbrev pub peer : PeerConnHandler
peer = record {
  host = 97 ∷ [];
  port = 9000;
  sock_helper = record connection {
    os = record (connection.os) { recvs = got received_bytes ∷ [] };
  };
  recv_buffer = replicate 1500 0;
  curr_buff_idx = 0;
  buff_size = 1500;
  completed_pkts = [];
  current_pkt = none;
  out_file = none;
  keepalive = true;
  bloking = false;
  pause_send = false;
  pause_recv = false;
  client_conn = true;
  server_conn = false;
}

pub peer-IsListening : IsListening peer
peer-IsListening = record {
  open' = refl;
  at_start = refl;
  room = length-replicate {A = ℕ} 1500 0;
  small = omega arith;
}

-- A peer that has hung up.
abbrev pub gone : PeerConnHandler
gone = record peer { sock_helper = record connection { is_sock_open = false } }

abbrev pub server : P2PurrServer
server = record {
  host = 97 ∷ [];
  port = 9000;
  server_sock_helper = connection;
  is_local_server_running = true;
  max_inbound_connections = 1000;
  max_outbound_connections = 1000;
  refused = [];
  sock_to_peer_map = (pos 5, gone) ∷ (pos 6, peer) ∷ (pos 7, gone) ∷ [];
  pollfd_list =
      record { fd = pos 3; events = 1 }
      ∷ record { fd = pos 5; events = 1 }
      ∷ record { fd = pos 6; events = 1 }
      ∷ record { fd = pos 7; events = 1 }
      ∷ [];
}

-- ===== src/Tests/Streams.antt =====
-- A stream of two packets in three pieces, and bytes that are no packet.
use p2purr.Base.{
  ℕ, ◌+◌, get_elem?-append_left, ◌≡◌, refl, true, false, none, some, List, [], ◌∷◌, ◌++◌, arith,
  pos, ok, fault, inl, inr, ◌⊎◌, Option, not, negsuc,
}
use p2purr.Packet.{Packet}
use p2purr.Packet.Wire.{IsMessage, Message, wire}
use p2purr.Socket.{
  Socket, RecvAnswer, got, closed, took, SendAnswer, close_sock, shut_down, close_descriptor,
  try_close,
}
use p2purr.Peer.{PeerConnHandler, recv_pkt, last_pkt, conn_active}
use p2purr.Peer.Stream.{wires, AllRebuilt, AllDeliverable, IsDeliverable}
use p2purr.Peer.Receive.{IsListening}
use p2purr.Peer.Cut.{offset, IsCut}
use p2purr.Peer.Delivery.{recv_pkts, recv_pkts-wires}
use p2purr.Peer.Exchange.{
  AllBuilt, AllTaken, send_pkts, transmitted_by, send_pkts-wires, recv_pkts-send_pkts,
}
use p2purr.Peer.Malformed.{recv_pkt_no_start, recv_pkts_split_header}
use p2purr.Peer.Empty.{recv_pkt_empty}
use p2purr.Peer.Ends.{recv_pkt-ends}
use p2purr.Peer.Lost.{stored, recv_pkt_lost}
use p2purr.Peer.Silence.{answered, recv_pkt-closed}
use p2purr.Tests.{blank, platform, hello, hello-IsMessage, connection, peer, peer-IsListening}

abbrev pub two : List Message
two = hello ∷ hello ∷ []

pub two-AllDeliverable : AllDeliverable two
two-AllDeliverable = (deliverable, (deliverable, tt))
  where
    deliverable : IsDeliverable hello
    deliverable = record { message = hello-IsMessage; not_empty = omega arith }

-- The end of the first piece is within a packet, that of the second behind four bytes of the next.
abbrev pub pieces : List (List ℕ)
pieces =
    (255 ∷ 0 ∷ 9 ∷ 1 ∷ 2 ∷ [])
    ∷ (2 ∷ 0 ∷ 3 ∷ 0 ∷ 0 ∷ 0 ∷ 3 ∷ 7 ∷ 255 ∷ 9 ∷ 255 ∷ 0 ∷ 9 ∷ 1 ∷ [])
    ∷ (2 ∷ 2 ∷ 0 ∷ 3 ∷ 0 ∷ 0 ∷ 0 ∷ 3 ∷ 7 ∷ 255 ∷ 9 ∷ [])
    ∷ []

pub pieces-IsCut : IsCut 1500 two 0 pieces
unfolding offset
pieces-IsCut = (
  omega arith,
  omega arith,
  inr (omega arith),
  (omega arith, omega arith, inr (omega arith), (omega arith, omega arith, inl refl, tt)),
)

-- The connection with other answers to come.
abbrev pub hearing : List RecvAnswer → PeerConnHandler
hearing answers = record peer {
  sock_helper = record connection { os = record (connection.os) { recvs = answers } };
}

pub hearing-IsListening : (answers : List RecvAnswer) → IsListening (hearing answers)
hearing-IsListening answers = record {
  open' = refl;
  at_start = refl;
  room = peer-IsListening.room;
  small = omega arith;
}

abbrev pub receiver : PeerConnHandler
receiver = hearing (
    got (255 ∷ 0 ∷ 9 ∷ 1 ∷ 2 ∷ [])
    ∷ got (2 ∷ 0 ∷ 3 ∷ 0 ∷ 0 ∷ 0 ∷ 3 ∷ 7 ∷ 255 ∷ 9 ∷ 255 ∷ 0 ∷ 9 ∷ 1 ∷ [])
    ∷ got (2 ∷ 2 ∷ 0 ∷ 3 ∷ 0 ∷ 0 ∷ 0 ∷ 3 ∷ 7 ∷ 255 ∷ 9 ∷ [])
    ∷ closed
    ∷ [])

recv_pkts-wires_example :
    (t : PeerConnHandler) × (ps : List Packet) × (recv_pkts platform 3 receiver ≡ ok tt t)
    × AllRebuilt two ps
    × (t.completed_pkts ≡ ps)
    × (t.current_pkt ≡ none)
    × (t.sock_helper.os.recvs ≡ closed ∷ [])
    × (t.out_file ≡ none)
    × IsListening t
recv_pkts-wires_example =
    recv_pkts-wires platform two pieces receiver (closed ∷ []) two-AllDeliverable
      (hearing-IsListening _) refl refl refl pieces-IsCut

-- Two packets that hold `hello`, and a socket that takes each in two pieces.
abbrev pub built : Packet
built = record blank { built_pkt = some (wire hello ++ 0 ∷ []); pkt_len = pos 15 }

pub built-AllBuilt : AllBuilt two (built ∷ built ∷ [])
built-AllBuilt = (
  record { bytes_are = refl; length_is = refl },
  (record { bytes_are = refl; length_is = refl }, tt),
)

abbrev pub takes : List (List SendAnswer)
takes = (took 4 ∷ took 11 ∷ []) ∷ (took 14 ∷ took 1 ∷ []) ∷ []

pub takes-AllTaken : AllTaken two takes
takes-AllTaken = (
  (omega arith, omega arith, (omega arith, omega arith, refl)),
  ((omega arith, omega arith, (omega arith, omega arith, refl)), tt),
)

abbrev pub sender : PeerConnHandler
sender = record peer {
  sock_helper = record connection {
    os = record (connection.os) { sends = took 4 ∷ took 11 ∷ took 14 ∷ took 1 ∷ [] };
  };
}

recv_pkts-send_pkts_example :
    (t : PeerConnHandler) × (qs : List Packet) × (recv_pkts platform 3 receiver ≡ ok tt t)
    × AllRebuilt two qs
    × (t.completed_pkts ≡ qs)
    × (t.current_pkt ≡ none)
    × (t.sock_helper.os.recvs ≡ closed ∷ [])
    × (t.out_file ≡ none)
    × IsListening t
recv_pkts-send_pkts_example =
    recv_pkts-send_pkts platform two (built ∷ built ∷ []) takes [] sender
      (transmitted_by sender [] (wires two)) receiver pieces (closed ∷ []) two-AllDeliverable
      built-AllBuilt refl takes-AllTaken refl send_pkts-wires_two (hearing-IsListening _) refl refl
      refl pieces-IsCut
  where
    send_pkts-wires_two :
        send_pkts (built ∷ built ∷ []) sender ≡ ok tt (transmitted_by sender [] (wires two))
    send_pkts-wires_two =
        send_pkts-wires two (built ∷ built ∷ []) takes [] sender built-AllBuilt refl takes-AllTaken

recv_pkt_no_start_example : recv_pkt platform (hearing (got (1 ∷ 2 ∷ 3 ∷ []) ∷ [])) ≡ fault
recv_pkt_no_start_example =
    recv_pkt_no_start platform (hearing (got (1 ∷ 2 ∷ 3 ∷ []) ∷ [])) [] 1 (2 ∷ 3 ∷ [])
      (hearing-IsListening _) tt refl (omega arith) (omega arith) (λ e. absurd (omega (arith, e)))

recv_pkts_split_header_example :
    recv_pkts platform 2 (hearing (got (255 ∷ []) ∷ got (0 ∷ 9 ∷ 1 ∷ 2 ∷ []) ∷ [])) ≡ fault
recv_pkts_split_header_example =
    recv_pkts_split_header platform (hearing (got (255 ∷ []) ∷ got (0 ∷ 9 ∷ 1 ∷ 2 ∷ []) ∷ [])) []
      255 0 (9 ∷ 1 ∷ 2 ∷ []) (hearing-IsListening _) refl refl (omega arith) (omega arith)
      (λ e. absurd (omega (arith, e)))

-- The socket after the peer has hung up.
abbrev pub hung_up : Socket
hung_up = record connection {
  sock = negsuc 0;
  is_sock_open = false;
  is_sock_init = false;
  os = record (connection.os) { recvs = []; shutdowns = []; closes = [] };
}

pub hung_up-close_sock : close_sock (answered (hearing (closed ∷ [])) []) ≡ ok true hung_up
unfolding close_sock try_close shut_down close_descriptor
hung_up-close_sock = refl

recv_pkt-closed_example :
    (recv_pkt platform (hearing (closed ∷ []))
      ≡ ok none (record (hearing []) { sock_helper = hung_up }))
    × (conn_active (record (hearing []) { sock_helper = hung_up }) ≡ not true)
unfolding last_pkt
recv_pkt-closed_example =
    recv_pkt-closed platform (hearing (closed ∷ [])) [] true hung_up (hearing-IsListening _)
      (omega arith) refl hung_up-close_sock

-- `hello` without its payload.
abbrev pub nothing : Message
nothing = record hello { body = [] }

pub nothing-IsMessage : IsMessage nothing
nothing-IsMessage = record {
  type_byte = omega arith;
  charset_byte = omega arith;
  encoding_byte = omega arith;
  encryption_byte = omega arith;
  compression_byte = omega arith;
  fits = omega arith;
}

recv_pkt_empty_example :
    (t : PeerConnHandler) × (p : Packet) × (recv_pkt platform
        (hearing (got (wire nothing ++ 255 ∷ []) ∷ []))
      ≡ ok none t)
    × (t.completed_pkts ≡ [])
    × (t.current_pkt ≡ some p)
    × (t.curr_buff_idx ≡ 12)
    × (t.sock_helper.os.recvs ≡ [])
recv_pkt_empty_example =
    recv_pkt_empty platform nothing (hearing (got (wire nothing ++ 255 ∷ []) ∷ [])) []
      (wire nothing ++ 255 ∷ []) nothing-IsMessage refl (hearing-IsListening _) refl refl
      (omega arith) (omega arith)
      (λ t lt. get_elem?-append_left (wire nothing) (255 ∷ []) (0 + t) (omega arith))

-- A connection in the middle of its buffer, with no packet begun.
abbrev pub halfway : PeerConnHandler
halfway = record (hearing (got (255 ∷ 0 ∷ 9 ∷ 1 ∷ []) ∷ [])) { curr_buff_idx = 3 }

recv_pkt-ends_example :
    ((p : Option Packet) × (t : PeerConnHandler) × (recv_pkt platform halfway ≡ ok p t))
    ⊎ (recv_pkt platform halfway ≡ fault)
recv_pkt-ends_example =
    recv_pkt-ends platform halfway [] (255 ∷ 0 ∷ 9 ∷ 1 ∷ []) refl refl (omega arith) (omega arith)
      (omega arith)

-- A refused header has left the index at 12.
abbrev pub refused_at_12 : PeerConnHandler
refused_at_12 = record (hearing (got (255 ∷ 0 ∷ 9 ∷ []) ∷ [])) { curr_buff_idx = 12 }

recv_pkt_lost_example :
    recv_pkt platform refused_at_12 ≡ ok none (stored platform refused_at_12 [] (255 ∷ 0 ∷ 9 ∷ []))
unfolding last_pkt
recv_pkt_lost_example =
    recv_pkt_lost platform refused_at_12 [] (255 ∷ 0 ∷ 9 ∷ []) refl refl (omega arith) (omega arith)
      (omega arith) peer-IsListening.room

-- ===== src/Tests/Rounds.antt =====
-- Two packets, one with a file, from one server to another, whose poll thread makes three rounds.
use p2purr.Base.{ℕ, inl, inr, arith, ◌≡◌, ◌∷◌, refl, false, some, pos, List, [], ok}
use p2purr.Packet.{Packet}
use p2purr.Packet.Send.{sent, from_payload-wire, from_file-wire}
use p2purr.Packet.Wire.{Message, IsMessage}
use p2purr.Peer.Cut.{offset, IsCut}
use p2purr.Socket.{got, closed}
use p2purr.Peer.{PeerConnHandler}
use p2purr.Peer.Stream.{AllDeliverable, wires, AllRebuilt}
use p2purr.Peer.Exchange.{transmitted_by}
use p2purr.Server.{PollFd, has_peer}
use p2purr.Server.Polling.Rounds.{Polls, poll_rounds}
use p2purr.Server.Sending.{send_each, send_pkt_to_peer-wires}
use p2purr.Server.Channel.{AllConstructed, AllConstructed-AllBuilt, poll_rounds-send_each}
use p2purr.Server.Traffic.{with_peer}
use p2purr.Tests.{platform, idle, hello, hello-IsMessage, peer, server}
use p2purr.Tests.Servers.{fresh_5}
use p2purr.Tests.Streams.{hearing, hearing-IsListening, takes, takes-AllTaken, sender}

abbrev entries_before : List PollFd
entries_before = record { fd = pos 3; events = 1 } ∷ record { fd = pos 5; events = 1 } ∷ []

abbrev entries_behind : List PollFd
entries_behind = record { fd = pos 7; events = 1 } ∷ []

server-Polls : Polls platform 1 (λ n. fresh_5) (pos 6) entries_before entries_behind server
server-Polls = record { running = refl; watch = 1; entries = refl; not_own = refl }

-- A file with the payload of `hello`.
abbrev parcel : Message
parcel = record hello { type = 17 }

parcel-IsMessage : IsMessage parcel
parcel-IsMessage = record {
  type_byte = omega arith;
  charset_byte = omega arith;
  encoding_byte = omega arith;
  encryption_byte = omega arith;
  compression_byte = omega arith;
  fits = omega arith;
}

abbrev mail : List Message
mail = hello ∷ parcel ∷ []

mail-AllDeliverable : AllDeliverable mail
mail-AllDeliverable = (
  record { message = hello-IsMessage; not_empty = omega arith },
  (record { message = parcel-IsMessage; not_empty = omega arith }, tt),
)

abbrev mail_pieces : List (List ℕ)
mail_pieces =
    (255 ∷ 0 ∷ 9 ∷ 1 ∷ 2 ∷ [])
    ∷ (2 ∷ 0 ∷ 3 ∷ 0 ∷ 0 ∷ 0 ∷ 3 ∷ 7 ∷ 255 ∷ 9 ∷ 255 ∷ 0 ∷ 9 ∷ 17 ∷ [])
    ∷ (2 ∷ 2 ∷ 0 ∷ 3 ∷ 0 ∷ 0 ∷ 0 ∷ 3 ∷ 7 ∷ 255 ∷ 9 ∷ [])
    ∷ []

mail_pieces-IsCut : IsCut 1500 mail 0 mail_pieces
unfolding offset
mail_pieces-IsCut = (
  omega arith,
  omega arith,
  inr (omega arith),
  (omega arith, omega arith, inr (omega arith), (omega arith, omega arith, inl refl, tt)),
)

-- What the constructors make of the payload of `hello`, and of a path.
abbrev letter : Packet
letter = sent platform hello [] false (some (7 ∷ 255 ∷ 9 ∷ 0 ∷ []))

abbrev posted : Packet
posted = (from_file-wire platform parcel 97 [] idle refl parcel-IsMessage).0.packet

mail-AllConstructed : AllConstructed platform mail (letter ∷ posted ∷ [])
mail-AllConstructed =
    let (t, run, _, _) = from_file-wire platform parcel 97 [] idle refl parcel-IsMessage in
    (
      inl (idle, _, _, from_payload-wire platform hello idle hello-IsMessage, refl),
      (inr (97, [], idle, t, _, refl, run, refl), tt),
    )

handed_over :
    send_each (97 ∷ []) 9000 (letter ∷ posted ∷ []) (with_peer server [] (pos 6) sender [])
    ≡ ok tt (with_peer server [] (pos 6) (transmitted_by sender [] (wires mail)) [])
handed_over =
    send_pkt_to_peer-wires (97 ∷ []) 9000 mail (letter ∷ posted ∷ []) takes [] server [] [] (pos 6)
      sender refl refl
      (AllConstructed-AllBuilt platform mail (letter ∷ posted ∷ []) mail-AllDeliverable
        mail-AllConstructed)
      refl takes-AllTaken

abbrev mail_arriving : PeerConnHandler
mail_arriving = hearing (
    got (255 ∷ 0 ∷ 9 ∷ 1 ∷ 2 ∷ [])
    ∷ got (2 ∷ 0 ∷ 3 ∷ 0 ∷ 0 ∷ 0 ∷ 3 ∷ 7 ∷ 255 ∷ 9 ∷ 255 ∷ 0 ∷ 9 ∷ 17 ∷ [])
    ∷ got (2 ∷ 2 ∷ 0 ∷ 3 ∷ 0 ∷ 0 ∷ 0 ∷ 3 ∷ 7 ∷ 255 ∷ 9 ∷ [])
    ∷ closed
    ∷ [])

-- The file has arrived.
poll_rounds-send_each_example :
    (t : PeerConnHandler) × (ps : List Packet) × (poll_rounds platform 1
        (λ n. fresh_5)
        (pos 6)
        entries_before
        entries_behind
        3
        (with_peer server ((pos 5, peer) ∷ []) (pos 6) mail_arriving ((pos 7, peer) ∷ []))
      ≡ ok tt (with_peer server ((pos 5, peer) ∷ []) (pos 6) t ((pos 7, peer) ∷ [])))
    × AllRebuilt mail ps
    × (t.completed_pkts ≡ ps)
    × (t.out_file ≡ some (7 ∷ 255 ∷ 9 ∷ []))
unfolding has_peer
poll_rounds-send_each_example =
    poll_rounds-send_each platform platform 1 (λ n. fresh_5) (pos 6) entries_before entries_behind
      (97 ∷ []) 9000 mail (letter ∷ posted ∷ []) takes [] server server [] [] ((pos 5, peer) ∷ [])
      ((pos 7, peer) ∷ []) (pos 6) sender (transmitted_by sender [] (wires mail)) mail_arriving
      mail_pieces (closed ∷ []) mail-AllDeliverable mail-AllConstructed refl refl refl
      takes-AllTaken refl handed_over server-Polls refl (refl, tt) (refl, tt)
      (hearing-IsListening _) refl refl refl mail_pieces-IsCut

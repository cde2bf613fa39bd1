-- ===== src/Tests/Traffic.antt =====
-- Two packets through the tables of two servers.
use p2purr.Base.{◌≡◌, refl, [], ◌∷◌, ok, pos}
use p2purr.Peer.{PeerConnHandler}
use p2purr.Peer.Stream.{wires}
use p2purr.Peer.Exchange.{transmitted_by}
use p2purr.Server.Traffic.{with_peer}
use p2purr.Server.Sending.{send_each, send_pkt_to_peer-wires}
use p2purr.Tests.{gone, server}
use p2purr.Tests.Streams.{two, built, built-AllBuilt, takes, takes-AllTaken, sender}

-- A peer at another address.
abbrev elsewhere : PeerConnHandler
elsewhere = record gone { port = 9001 }

send_pkt_to_peer-wires_example :
    send_each
      (97 ∷ [])
      9000
      (built ∷ built ∷ [])
      (with_peer server ((pos 5, elsewhere) ∷ []) (pos 6) sender [])
    ≡ ok tt (
        with_peer server
          ((pos 5, elsewhere) ∷ [])
          (pos 6)
          (transmitted_by sender [] (wires two))
          [])
send_pkt_to_peer-wires_example =
    send_pkt_to_peer-wires (97 ∷ []) 9000 two (built ∷ built ∷ []) takes [] server
      ((pos 5, elsewhere) ∷ []) [] (pos 6) sender refl refl built-AllBuilt refl takes-AllTaken

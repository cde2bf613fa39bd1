-- ===== src/Tests/Registry.antt =====
-- The table of three peers in two orders, and a round in which a client and two peers are served.
use mathlib.Core.List.{Permᴰ}
use p2purr.Base.{
  ℕ, ◌≡◌, ◌⊎◌, refl, Bool, true, false, some, List, [], ◌∷◌, arith, ltb, ℤ, pos, ok, ◌>>◌,
}
use p2purr.Peer.{PeerConnHandler}
use p2purr.Server.{PollFd, P2PurrServer, handle_client_communications, send_pkt_to_peer}
use p2purr.Server.Disconnected.{remove_disconnected_peers}
use p2purr.Server.Table.{keys, Distinct}
use p2purr.Server.Order.{reordered}
use p2purr.Server.Registry.{registry, viewed_server, with_registry}
use p2purr.Server.Registry.Receiving.{recv_in, handle_client_communications-registry}
use p2purr.Server.Registry.Removing.{only_active, remove_disconnected_peers-registry}
use p2purr.Server.Registry.Sending.{at_address, quiet, send_in, send_pkt_to_peer-registry}
use p2purr.Server.Polling.{poll_round}
use p2purr.Server.Polling.Serve.{serve}
use p2purr.Server.Polling.Turn.{welcome, poll_round-turn}
use p2purr.Tests.{platform, peer, gone, server}
use p2purr.Tests.Servers.{fresh_5}
use p2purr.Tests.Streams.{built}
use p2purr.Tests.Admission.{welcoming}

abbrev rehashed_peers : List (ℤ × PeerConnHandler)
rehashed_peers = (pos 6, peer) ∷ (pos 5, gone) ∷ (pos 7, gone) ∷ []

rehashed_peers-Perm : Permᴰ server.sock_to_peer_map rehashed_peers
rehashed_peers-Perm = Permᴰ.swap refl refl

server-Distinct : Distinct (keys server.sock_to_peer_map)
server-Distinct = (refl, (refl, (refl, tt)))

handle_client_communications-registry_example :
    viewed_server (handle_client_communications platform (pos 6) (reordered server rehashed_peers))
    ≡ with_registry server (recv_in platform (pos 6) (registry server.sock_to_peer_map))
handle_client_communications-registry_example =
    handle_client_communications-registry platform (pos 6) server rehashed_peers server-Distinct
      rehashed_peers-Perm

remove_disconnected_peers-registry_example :
    registry (remove_disconnected_peers (reordered server rehashed_peers)).sock_to_peer_map
    ≡ (λ j. only_active (registry server.sock_to_peer_map j))
remove_disconnected_peers-registry_example =
    remove_disconnected_peers-registry server rehashed_peers refl server-Distinct
      rehashed_peers-Perm

send_pkt_to_peer-registry_example :
    ((fd : ℤ) × (p : PeerConnHandler) × (registry server.sock_to_peer_map fd ≡ some p)
      × (at_address (97 ∷ []) 9000 (some p) ≡ true)
      × (viewed_server (send_pkt_to_peer built (97 ∷ []) 9000 (reordered server rehashed_peers))
          ≡ with_registry server (quiet (send_in built fd (registry server.sock_to_peer_map) p))))
    ⊎ (((fd : ℤ) → at_address (97 ∷ []) 9000 (registry server.sock_to_peer_map fd) ≡ false)
        × (viewed_server (send_pkt_to_peer built (97 ∷ []) 9000 (reordered server rehashed_peers))
            ≡ ok tt (registry server.sock_to_peer_map, record server { sock_to_peer_map = [] })))
send_pkt_to_peer-registry_example =
    send_pkt_to_peer-registry built (97 ∷ []) 9000 server rehashed_peers server-Distinct
      rehashed_peers-Perm

-- The server's own entry and those of 5 and 6 are ready.
abbrev own_entry : PollFd
own_entry = record { fd = pos 4; events = 1 }

abbrev other_entries : List PollFd
other_entries =
    record { fd = pos 5; events = 1 }
    ∷ record { fd = pos 6; events = 1 }
    ∷ record { fd = pos 7; events = 1 }
    ∷ []

abbrev attentive : P2PurrServer
attentive = record welcoming { pollfd_list = own_entry ∷ other_entries }

abbrev three_ready : ℕ → Bool
three_ready i = ltb i 3

poll_round-turn_example :
    poll_round platform 1 (λ n. fresh_5) (some three_ready) 6 attentive
    ≡ (welcome 1 fresh_5 true >> serve platform (pos 5 ∷ pos 6 ∷ []) >> λ t.
          ok tt (remove_disconnected_peers t))
        attentive
poll_round-turn_example =
    poll_round-turn platform 1 (λ n. fresh_5) three_ready 5 own_entry other_entries attentive refl
      refl refl (refl, (refl, tt)) refl (omega arith)

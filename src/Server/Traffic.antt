-- ===== src/Server/Traffic.antt =====
-- A stream of packets through the server's table: `handle_client_communications` for each piece.
use p2purr.Base.{
  ℕ, zero, suc, ◌≡◌, ap, ◌∙◌, false, none, List, ◌∷◌, ◌++◌, length, ℤ, ok, ◌>>◌, >>-ok, >>-returned,
}
use p2purr.Packet.{Packet, Platform}
use p2purr.Packet.Wire.{Message}
use p2purr.Socket.{RecvAnswer}
use p2purr.Peer.{PeerConnHandler, recv_pkt}
use p2purr.Peer.Stream.{wires, AllDeliverable, AllRebuilt}
use p2purr.Peer.Receive.{IsListening}
use p2purr.Peer.Cut.{IsCut}
use p2purr.Peer.Delivery.{concat, gots, recv_pkts, recv_pkts-wires}
use p2purr.Server.{P2PurrServer, ServerM, has_peer, with_table, handle_client_communications}
use p2purr.Server.HangUp.{recv_from-at}

-- The server with a peer under the descriptor, between others.
abbrev pub with_peer :
    P2PurrServer
    → List (ℤ × PeerConnHandler)
    → ℤ
    → PeerConnHandler
    → List (ℤ × PeerConnHandler)
    → P2PurrServer
with_peer s xs fd peer ys = record s { sock_to_peer_map = xs ++ (fd, peer) ∷ ys }

module _ (env : Platform) (fd : ℤ) where
  -- As many calls of `handle_client_communications` for the descriptor.
  unfoldable pub handle_each : ℕ → ServerM (Unit {0})
  handle_each zero s = ok tt s
  handle_each (suc n) s = (handle_client_communications env fd >> handle_each n) s

  pub handle_each-recv_pkts :
      (n : ℕ) (s : P2PurrServer) (xs ys : List (ℤ × PeerConnHandler)) (peer t : PeerConnHandler)
      → has_peer fd xs ≡ false
      → recv_pkts env n peer ≡ ok tt t
      → handle_each n (with_peer s xs fd peer ys) ≡ ok tt (with_peer s xs fd t ys)
  unfolding handle_each recv_pkts handle_client_communications
  handle_each-recv_pkts zero s xs ys peer t nx e = cc e
  handle_each-recv_pkts (suc n) s xs ys peer t nx e =
      let (p, u, first', later) = >>-returned (recv_pkt env) (recv_pkts env n) peer t tt e in
      >>-ok (handle_client_communications env fd) (handle_each n) {s = with_peer s xs fd peer ys}
        {t = with_peer s xs fd u ys} {a = p}
        (ap (with_table (with_peer s xs fd peer ys)) (recv_from-at env fd ys xs peer u p nx first'))
      ∙ handle_each-recv_pkts n s xs ys u t nx later

  -- A stream of messages that fit and are not empty arrives, in pieces that fit the buffer and do not
  -- end behind the first or the second byte of a packet, at the peer of a descriptor, with an open
  -- connection and no packet begun. After as many calls of `handle_client_communications` as there are
  -- pieces the peer has completed exactly the messages, in order, and nothing else of the server has
  -- changed.
  pub handle_client_communications-wires :
      (ms : List Message) (pieces : List (List ℕ)) (s : P2PurrServer)
      (xs ys : List (ℤ × PeerConnHandler)) (peer : PeerConnHandler) (rest : List RecvAnswer)
      → has_peer fd xs ≡ false
      → AllDeliverable ms
      → IsListening peer
      → peer.current_pkt ≡ none
      → peer.sock_helper.os.recvs ≡ gots pieces rest
      → concat pieces ≡ wires ms
      → IsCut peer.buff_size ms 0 pieces
      → (t : PeerConnHandler) × (ps : List Packet) × (handle_each
            (length pieces)
            (with_peer s xs fd peer ys)
          ≡ ok tt (with_peer s xs fd t ys))
        × AllRebuilt ms ps
        × (t.completed_pkts ≡ peer.completed_pkts ++ ps)
  handle_client_communications-wires ms pieces s xs ys peer rest nx ds v none_yet e ew cut =
      let (t, ps, run, all, pushed, _, _, _, _) =
        recv_pkts-wires env ms pieces peer rest ds v none_yet e ew cut in
      (t, ps, handle_each-recv_pkts (length pieces) s xs ys peer t nx run, all, pushed)

-- ===== src/Peer/Exchange.antt =====
-- Packets sent over one connection and received over another.
use p2purr.Base.{
  ℕ, ◌≡◌, refl, sym, ap, ap₂, ◌∙◌, none, some, List, [], ◌∷◌, ◌++◌, append-nil, append_assoc,
  length, pos, ok, ◌>>◌, >>-ok, checked->>=, read_n_lem,
}
use p2purr.Packet.{Packet, Platform}
use p2purr.Packet.Wire.{Message, wire}
use p2purr.Socket.{RecvAnswer, SendAnswer, transmit}
use p2purr.Socket.Pieces.{TakesExactly, send_data_exactly}
use p2purr.Peer.{PeerConnHandler, PeerM, packet_bytes, sent_over, send_pkt}
use p2purr.Peer.Stream.{files_after, AllDeliverable, AllRebuilt, wires}
use p2purr.Peer.Cut.{IsCut}
use p2purr.Peer.Receive.{IsListening}
use p2purr.Peer.Delivery.{concat, gots, recv_pkts, recv_pkts-wires}

-- A packet that is built holds the message's bytes, with a zero behind them.
pub record IsBuilt (m : Message) (p : Packet) : Type 0 where
  pub bytes_are : p.built_pkt ≡ some (wire m ++ 0 ∷ [])
  pub length_is : p.pkt_len ≡ pos (length (wire m))

abbrev pub AllBuilt : List Message → List Packet → Type 0
AllBuilt [] [] = Unit {0}
AllBuilt [] (p ∷ ps) = ⊥
AllBuilt (m ∷ ms) [] = ⊥
AllBuilt (m ∷ ms) (p ∷ ps) = IsBuilt m p × AllBuilt ms ps

-- One call of `send_pkt` for each packet.
unfoldable pub send_pkts : List Packet → PeerM (Unit {0})
send_pkts [] s = ok tt s
send_pkts (p ∷ ps) s = (send_pkt p >> send_pkts ps) s

-- The answers of `send` to each message's bytes, end to end.
abbrev pub answers_of : List (List SendAnswer) → List SendAnswer → List SendAnswer
answers_of [] rest = rest
answers_of (a ∷ as') rest = a ++ answers_of as' rest

abbrev pub AllTaken : List Message → List (List SendAnswer) → Type 0
AllTaken [] [] = Unit {0}
AllTaken [] (a ∷ as') = ⊥
AllTaken (m ∷ ms) [] = ⊥
AllTaken (m ∷ ms) (a ∷ as') = TakesExactly (length (wire m)) a × AllTaken ms as'

-- The connection after `send` has taken `bytes`.
abbrev pub transmitted_by : PeerConnHandler → List SendAnswer → List ℕ → PeerConnHandler
transmitted_by s rest bytes = record s { sock_helper = transmit s.sock_helper rest bytes }

packet_bytes-IsBuilt : (m : Message) (p : Packet) → IsBuilt m p → packet_bytes p ≡ some (wire m)
packet_bytes-IsBuilt m p b =
    rw (b.bytes_are, b.length_is) (read_n_lem (length (wire m)) (wire m) (0 ∷ []) refl)

send_pkt-wire :
    (m : Message) (p : Packet) (answers rest : List SendAnswer) (s : PeerConnHandler)
    → IsBuilt m p
    → s.sock_helper.os.sends ≡ answers ++ rest
    → TakesExactly (length (wire m)) answers
    → send_pkt p s ≡ ok tt (transmitted_by s rest (wire m))
unfolding send_pkt
send_pkt-wire m p answers rest s b e h =
    checked->>= (packet_bytes p) _ {s = s} (packet_bytes-IsBuilt m p b)
    ∙ ap (sent_over s) (send_data_exactly (wire m) answers rest s.sock_helper e h)

nothing_sent :
    (rest : List SendAnswer) (s : PeerConnHandler)
    → s.sock_helper.os.sends ≡ rest
    → s ≡ transmitted_by s rest []
nothing_sent rest s e =
    ap₂
      (λ xs ys. record s {
        sock_helper = record (s.sock_helper) {
          os = record (s.sock_helper.os) { sends = xs; transmitted = ys };
        };
      })
      e (sym (append-nil s.sock_helper.os.transmitted))

-- If `send` takes each message's bytes in pieces that are not empty, sending packets that are built
-- hands over the messages' bytes, in order and nothing else.
pub send_pkts-wires :
    (ms : List Message) (ps : List Packet) (answers : List (List SendAnswer))
    (rest : List SendAnswer) (s : PeerConnHandler)
    → AllBuilt ms ps
    → s.sock_helper.os.sends ≡ answers_of answers rest
    → AllTaken ms answers
    → send_pkts ps s ≡ ok tt (transmitted_by s rest (wires ms))
unfolding send_pkts
send_pkts-wires [] [] [] rest s b e h = ap (ok tt) (nothing_sent rest s e)
send_pkts-wires [] [] (a ∷ as') rest s b e h = absurd h
send_pkts-wires [] (p ∷ ps) answers rest s b e h = absurd b
send_pkts-wires (m ∷ ms) [] answers rest s b e h = absurd b
send_pkts-wires (m ∷ ms) (p ∷ ps) [] rest s b e h = absurd h
send_pkts-wires (m ∷ ms) (p ∷ ps) (a ∷ as') rest s (b, bs) e (h, hs) =
    >>-ok (send_pkt p) (send_pkts ps) (send_pkt-wire m p a (answers_of as' rest) s b e h)
    ∙ send_pkts-wires ms ps as' rest (transmitted_by s (answers_of as' rest) (wire m)) bs refl hs
    ∙ ap
        (λ ys. ok tt (record s {
          sock_helper = record (s.sock_helper) {
            os = record (s.sock_helper.os) { sends = rest; transmitted = ys };
          };
        }))
        (append_assoc s.sock_helper.os.transmitted (wire m) (wires ms))

-- Packets that are built, of messages that fit and are not empty, are sent over a new connection whose
-- `send` takes them in pieces that are not empty. If what was handed over arrives at an open connection
-- with no packet begun, in pieces none of which is empty, larger than the buffer, or ends behind the
-- first or the second byte of a packet, the receiver completes exactly the messages, in order, and writes
-- the payloads of those that carry a file to the output file, in order, if it can be written.
pub recv_pkts-send_pkts :
    (env : Platform) (ms : List Message) (ps : List Packet) (answers : List (List SendAnswer))
    (rest : List SendAnswer) (s s' r : PeerConnHandler) (pieces : List (List ℕ))
    (later : List RecvAnswer)
    → AllDeliverable ms
    → AllBuilt ms ps
    → s.sock_helper.os.sends ≡ answers_of answers rest
    → AllTaken ms answers
    → s.sock_helper.os.transmitted ≡ []
    → send_pkts ps s ≡ ok tt s'
    → IsListening r
    → r.current_pkt ≡ none
    → r.sock_helper.os.recvs ≡ gots pieces later
    → concat pieces ≡ s'.sock_helper.os.transmitted
    → IsCut r.buff_size ms 0 pieces
    → (t : PeerConnHandler) × (qs : List Packet) × (recv_pkts env (length pieces) r ≡ ok tt t)
      × AllRebuilt ms qs
      × (t.completed_pkts ≡ r.completed_pkts ++ qs)
      × (t.current_pkt ≡ none)
      × (t.sock_helper.os.recvs ≡ later)
      × (t.out_file ≡ files_after env ms r.out_file)
      × IsListening t
recv_pkts-send_pkts env ms ps answers rest s s' r pieces later ds bs es taken new run v none_yet er
      arrived cut =
    recv_pkts-wires env ms pieces r later ds v none_yet er
      (arrived ∙ ap (λ u. u.sock_helper.os.transmitted) same ∙ ap (λ ys. ys ++ wires ms) new) cut
  where
    same : s' ≡ transmitted_by s rest (wires ms)
    same = cc (send_pkts-wires ms ps answers rest s bs es taken)

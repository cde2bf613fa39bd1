-- ===== src/Server/Channel.antt =====
-- From the constructors of packets on one server to the completed packets of a peer on another.
use p2purr.Base.{
  ◌⊎◌, inl, inr, ℕ, ◌≡◌, refl, arith, sym, ap, ◌∙◌, false, true, Option, none, some, List, [], ◌∷◌,
  ◌++◌, length, ℤ, pos, Outcome, ok, throw, fault, no_fuel, exits,
}
use p2purr.Packet.{Packet, Platform, Context, set_build_pending}
use p2purr.Packet.Build.{from_payload, from_file}
use p2purr.Packet.Wire.{Message, wire}
use p2purr.Packet.Send.{contents_of, from_payload-wire, from_file-wire, sent}
use p2purr.Socket.{RecvAnswer, SendAnswer}
use p2purr.Socket.Setup.{Fresh}
use p2purr.Peer.{PeerConnHandler}
use p2purr.Peer.Stream.{files_after, wires, AllDeliverable, IsDeliverable, AllRebuilt}
use p2purr.Peer.Receive.{IsListening}
use p2purr.Peer.Cut.{IsCut}
use p2purr.Peer.Delivery.{concat, gots}
use p2purr.Peer.Exchange.{IsBuilt, AllBuilt, AllTaken, answers_of, transmitted_by}
use p2purr.Server.{PollFd, P2PurrServer, has_peer}
use p2purr.Server.Removal.{AllActive}
use p2purr.Server.Polling.Rounds.{Polls, poll_rounds, poll_rounds-wires}
use p2purr.Server.Sending.{any_at, at_address, send_each, send_pkt_to_peer-wires}
use p2purr.Server.Traffic.{with_peer}

-- The packet that the constructor makes of the message's fields and payload.
abbrev pub FromPayload : Platform → Message → Packet → Type 0
FromPayload env m p =
    (c : Context) × (c' : Context) × (bytes : Option (List ℕ)) × (from_payload env m.type m.charset
        m.encoding m.compression m.encryption (some m.body) (pos (length m.body)) c
      ≡ ok bytes c')
    × (c'.packet ≡ p)

-- The packet that the constructor makes of the message's fields and a path, where the file holds the
-- payload, or does not open and there is none.
abbrev pub FromFile : Platform → Message → Packet → Type 0
FromFile env m p =
    (name : ℕ) × (path : List ℕ) × (c : Context) × (c' : Context) × (bytes : Option (List ℕ))
    × (m.body ≡ contents_of env (env.read_file (name ∷ path)))
    × (from_file env m.type m.charset m.encoding m.compression m.encryption (name ∷ path) c
        ≡ ok bytes c')
    × (c'.packet ≡ p)

abbrev pub Constructed : Platform → Message → Packet → Type 0
Constructed env m p = FromPayload env m p ⊎ FromFile env m p

abbrev pub AllConstructed : Platform → List Message → List Packet → Type 0
AllConstructed env [] [] = Unit {0}
AllConstructed env [] (p ∷ ps) = ⊥
AllConstructed env (m ∷ ms) [] = ⊥
AllConstructed env (m ∷ ms) (p ∷ ps) = Constructed env m p × AllConstructed env ms ps

Constructed-IsBuilt :
    (env : Platform) (m : Message) (p : Packet)
    → IsDeliverable m
    → Constructed env m p
    → IsBuilt m p
unfolding set_build_pending
Constructed-IsBuilt env m p d (inl (c, c', bytes, run, same)) =
    let made : ok bytes c'
        ≡ ok (some (wire m ++ 0 ∷ []))
            (record c { packet = sent env m [] false (some (m.body ++ 0 ∷ [])) }) =
      sym run ∙ from_payload-wire env m c d.message in
    let left : c' ≡ record c { packet = sent env m [] false (some (m.body ++ 0 ∷ [])) } = cc made in
    let it : p ≡ sent env m [] false (some (m.body ++ 0 ∷ [])) =
      sym same ∙ ap (λ x. x.packet) left in
    record {
      bytes_are = ap (λ q. q.built_pkt) it;
      length_is = ap (λ q. q.pkt_len) it ∙ ap pos (omega arith);
    }
Constructed-IsBuilt env m p d (inr (name, path, c, c', bytes, holds, run, same)) =
    let (t, made, bytes_t, length_t) = from_file-wire env m name path c holds d.message in
    let both : ok bytes c' ≡ ok (some (wire m ++ 0 ∷ [])) t = sym run ∙ made in
    let left : c' ≡ t = cc both in
    let it : p ≡ t.packet = sym same ∙ ap (λ x. x.packet) left in
    record {
      bytes_are = ap (λ q. q.built_pkt) it ∙ bytes_t;
      length_is = ap (λ q. q.pkt_len) it ∙ length_t;
    }

pub AllConstructed-AllBuilt :
    (env : Platform) (ms : List Message) (ps : List Packet)
    → AllDeliverable ms
    → AllConstructed env ms ps
    → AllBuilt ms ps
AllConstructed-AllBuilt env [] [] ds h = tt
AllConstructed-AllBuilt env [] (p ∷ ps) ds h = absurd h
AllConstructed-AllBuilt env (m ∷ ms) [] ds h = absurd h
AllConstructed-AllBuilt env (m ∷ ms) (p ∷ ps) (d, ds) (h, hs) =
    (Constructed-IsBuilt env m p d h, AllConstructed-AllBuilt env ms ps ds hs)

-- What the peer behind `xs` has handed over.
abbrev transmitted_at : List (ℤ × PeerConnHandler) → List (ℤ × PeerConnHandler) → List ℕ
transmitted_at xs [] = []
transmitted_at [] ((k, peer) ∷ peers) = peer.sock_helper.os.transmitted
transmitted_at (x ∷ xs) (y ∷ peers) = transmitted_at xs peers

transmitted_at_lem :
    (k : ℤ) (peer : PeerConnHandler) (xs ys : List (ℤ × PeerConnHandler))
    → transmitted_at xs (xs ++ (k, peer) ∷ ys) ≡ peer.sock_helper.os.transmitted
transmitted_at_lem k peer [] ys = refl
transmitted_at_lem k peer (x ∷ xs) ys = transmitted_at_lem k peer xs ys

module _ (s : P2PurrServer) (xs : List (ℤ × PeerConnHandler)) (k : ℤ)
    (ys : List (ℤ × PeerConnHandler)) where
  transmitted_of : Outcome P2PurrServer (Unit {0}) → List ℕ
  transmitted_of (ok _ t) = transmitted_at xs t.sock_to_peer_map
  transmitted_of (throw e t) = []
  transmitted_of fault = []
  transmitted_of no_fuel = []
  transmitted_of exits = []

  same_transmitted :
      (o : Outcome P2PurrServer (Unit {0})) (peer peer' : PeerConnHandler)
      → o ≡ ok tt (with_peer s xs k peer ys)
      → o ≡ ok tt (with_peer s xs k peer' ys)
      → peer.sock_helper.os.transmitted ≡ peer'.sock_helper.os.transmitted
  unfolding transmitted_of
  same_transmitted o peer peer' e e' =
      sym (transmitted_at_lem k peer xs ys)
      ∙ ap transmitted_of (sym e ∙ e')
      ∙ transmitted_at_lem k peer' xs ys

module _ (env env' : Platform) (events : ℕ) (fresh : ℕ → Fresh) (fd : ℤ)
    (before behind : List PollFd) (host : List ℕ) (port : ℕ) where
  -- The constructors make packets of messages that fit and are not empty, of their payloads or of paths to
  -- files with that content, and `send_pkt_to_peer` is given them one by one, with the address of a peer of
  -- the sending server's table, before which no other peer is at this address, and which has sent
  -- nothing yet; its socket takes the bytes in pieces that are not empty. What is handed over arrives at
  -- a peer of the receiving server, in pieces that fit the buffer and do not end behind the first or
  -- the second byte of a packet; this peer has no packet begun, and the connections of all peers there are
  -- open. After as many rounds of the receiving server's poll thread as there are pieces, in each of
  -- which the entry of that peer's descriptor is the one that is ready, the peer has completed exactly
  -- the messages, in order and as they were given to the constructors, the payloads of those that carry a
  -- file have been written to the output file, in order, if it can be written, and nothing else of that
  -- server has changed.
  pub poll_rounds-send_each :
      (ms : List Message) (pkts : List Packet) (answers : List (List SendAnswer))
      (rest : List SendAnswer) (s r : P2PurrServer) (xs ys xs' ys' : List (ℤ × PeerConnHandler))
      (k : ℤ) (from from' peer : PeerConnHandler) (pieces : List (List ℕ)) (later : List RecvAnswer)
      → AllDeliverable ms
      → AllConstructed env ms pkts
      → any_at host port xs ≡ false
      → at_address host port from ≡ true
      → from.sock_helper.os.sends ≡ answers_of answers rest
      → AllTaken ms answers
      → from.sock_helper.os.transmitted ≡ []
      → send_each host port pkts (with_peer s xs k from ys) ≡ ok tt (with_peer s xs k from' ys)
      → Polls env' events fresh fd before behind r
      → has_peer fd xs' ≡ false
      → AllActive xs'
      → AllActive ys'
      → IsListening peer
      → peer.current_pkt ≡ none
      → peer.sock_helper.os.recvs ≡ gots pieces later
      → concat pieces ≡ from'.sock_helper.os.transmitted
      → IsCut peer.buff_size ms 0 pieces
      → (t : PeerConnHandler) × (qs : List Packet) × (poll_rounds env' events fresh fd before behind
            (length pieces)
            (with_peer r xs' fd peer ys')
          ≡ ok tt (with_peer r xs' fd t ys'))
        × AllRebuilt ms qs
        × (t.completed_pkts ≡ peer.completed_pkts ++ qs)
        × (t.out_file ≡ files_after env' ms peer.out_file)
  poll_rounds-send_each ms pkts answers rest s r xs ys xs' ys' k from from' peer pieces later ds cs
        nx at sends taken new run v nx' ax ay l none_yet recvs arrived cut =
      poll_rounds-wires env' events fresh fd before behind ms pieces r xs' ys' peer later v nx' ax
        ay ds l none_yet recvs
        (arrived
          ∙ same_transmitted s xs k ys (send_each host port pkts (with_peer s xs k from ys)) from'
              (transmitted_by from rest (wires ms)) run
              (send_pkt_to_peer-wires host port ms pkts answers rest s xs ys k from nx at
                (AllConstructed-AllBuilt env ms pkts ds cs) sends taken)
          ∙ ap (λ bytes. bytes ++ wires ms) new)
        cut

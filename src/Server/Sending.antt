-- ===== src/Server/Sending.antt =====
-- `send_pkt_to_peer`: packets to a peer of the table, and to an address that no peer has.
use p2purr.Base.{
  ℕ, ◌≡◌, refl, ap, subst, ◌∙◌, Bool, true, false, ◌&&◌, ◌||◌, ◌==◌, Option, none, some, List, [],
  ◌∷◌, ◌++◌, arith, if◌then◌else◌, ℤ, Outcome, ok, throw, within, ◌>>=◌, ◌>>◌, >>-ok, >>-returned,
  send_exception, checked, Leaves, Behaves-any, within-Behaves,
}
use p2purr.Packet.{Packet}
use p2purr.Packet.Wire.{Message}
use p2purr.Socket.{send_data, SendAnswer}
use p2purr.Peer.{PeerConnHandler, packet_bytes, sent_over, send_pkt}
use p2purr.Peer.Stream.{wires}
use p2purr.Peer.Exchange.{
  AllBuilt, AllTaken, answers_of, send_pkts, transmitted_by, send_pkts-wires,
}
use p2purr.Server.{
  P2PurrServer, ServerM, same_text, send_to, with_table, reported, send_pkt_to_peer,
}
use p2purr.Server.Traffic.{with_peer}

module _ (host : List ℕ) (port : ℕ) where
  -- Whether a peer of the table is at the address.
  abbrev pub at_address : PeerConnHandler → Bool
  at_address peer = same_text peer.host host && peer.port == port

  abbrev pub any_at : List (ℤ × PeerConnHandler) → Bool
  any_at [] = false
  any_at ((k, peer) ∷ peers) = at_address peer || any_at peers

  send_to-at :
      (pkt : Packet) (xs ys : List (ℤ × PeerConnHandler)) (fd : ℤ) (peer t : PeerConnHandler)
      → any_at xs ≡ false
      → at_address peer ≡ true
      → send_pkt pkt peer ≡ ok tt t
      → send_to pkt host port (xs ++ (fd, peer) ∷ ys) ≡ ok true (xs ++ (fd, t) ∷ ys)
  unfolding send_to
  send_to-at pkt [] ys fd peer t nx at e =
      ap (λ b. if b then here (send_pkt pkt peer) else there (send_to pkt host port ys)) at
      ∙ ap here e
    where
      here : Outcome PeerConnHandler (Unit {0}) → Outcome (List (ℤ × PeerConnHandler)) Bool
      here = within (λ _ u. ok true ((fd, u) ∷ ys)) (λ x u. throw x ((fd, u) ∷ ys))

      there : Outcome (List (ℤ × PeerConnHandler)) Bool → Outcome (List (ℤ × PeerConnHandler)) Bool
      there = within (λ found us. ok found ((fd, peer) ∷ us)) (λ x us. throw x ((fd, peer) ∷ us))
  send_to-at pkt ((k, other) ∷ xs) ys fd peer t nx at e =
      let apart : at_address other ≡ false = first_part (at_address other) (any_at xs) nx in
      ap
        (λ b.
          if b
          then here (send_pkt pkt other)
          else there (send_to pkt host port (xs ++ (fd, peer) ∷ ys)))
        apart
      ∙ ap there (send_to-at pkt xs ys fd peer t (rest_part (at_address other) (any_at xs) nx) at e)
    where
      here : Outcome PeerConnHandler (Unit {0}) → Outcome (List (ℤ × PeerConnHandler)) Bool
      here =
          within (λ _ u. ok true ((k, u) ∷ xs ++ (fd, peer) ∷ ys))
            (λ x u. throw x ((k, u) ∷ xs ++ (fd, peer) ∷ ys))

      there : Outcome (List (ℤ × PeerConnHandler)) Bool → Outcome (List (ℤ × PeerConnHandler)) Bool
      there = within (λ found us. ok found ((k, other) ∷ us)) (λ x us. throw x ((k, other) ∷ us))

      first_part : (a b : Bool) → (a || b) ≡ false → a ≡ false
      first_part a b h = ground arith

      rest_part : (a b : Bool) → (a || b) ≡ false → b ≡ false
      rest_part a b h = ground arith

  send_pkt_to_peer-at :
      (pkt : Packet) (s : P2PurrServer) (xs ys : List (ℤ × PeerConnHandler)) (fd : ℤ)
      (peer t : PeerConnHandler)
      → any_at xs ≡ false
      → at_address peer ≡ true
      → send_pkt pkt peer ≡ ok tt t
      → send_pkt_to_peer pkt host port (with_peer s xs fd peer ys) ≡ ok tt (with_peer s xs fd t ys)
  unfolding send_pkt_to_peer
  send_pkt_to_peer-at pkt s xs ys fd peer t nx at e =
      ap (λ o. reported (found (with_table (with_peer s xs fd peer ys) o)))
        (send_to-at pkt xs ys fd peer t nx at e)
    where
      found : Outcome P2PurrServer Bool → Outcome P2PurrServer (Unit {0})
      found o =
          ((λ _. o) >>= λ peer_found u. if peer_found then ok tt u else throw send_exception u)
            (with_peer s xs fd peer ys)

  -- Sending leaves the address of the peer.
  send_pkt-address :
      (pkt : Packet) (peer t : PeerConnHandler)
      → send_pkt pkt peer ≡ ok tt t
      → at_address t ≡ at_address peer
  unfolding send_pkt
  send_pkt-address pkt peer t e =
      subst (Leaves (λ _ u. at_address u ≡ at_address peer) (λ _ _. Unit {0})) e
        (given (packet_bytes pkt))
    where
      given :
          (o : Option (List ℕ))
          → Leaves
              (λ _ u. at_address u ≡ at_address peer)
              (λ _ _. Unit {0})
              ((checked o >>= λ data' u. sent_over u (send_data data' u.sock_helper)) peer)
      given none = tt
      given (some data') =
          within-Behaves _ _ _ _ _ _ _ (send_data data' peer.sock_helper)
            (Behaves-any (send_data data' peer.sock_helper)) (λ _ _ _. refl) (λ _ _ _. refl)

  -- One call of `send_pkt_to_peer` for each packet.
  unfoldable pub send_each : List Packet → ServerM (Unit {0})
  send_each [] s = ok tt s
  send_each (pkt ∷ pkts) s = (send_pkt_to_peer pkt host port >> send_each pkts) s

  send_each-send_pkts :
      (pkts : List Packet) (s : P2PurrServer) (xs ys : List (ℤ × PeerConnHandler)) (fd : ℤ)
      (peer t : PeerConnHandler)
      → any_at xs ≡ false
      → at_address peer ≡ true
      → send_pkts pkts peer ≡ ok tt t
      → send_each pkts (with_peer s xs fd peer ys) ≡ ok tt (with_peer s xs fd t ys)
  unfolding send_each send_pkts
  send_each-send_pkts [] s xs ys fd peer t nx at e = cc e
  send_each-send_pkts (pkt ∷ pkts) s xs ys fd peer t nx at e =
      let (_, u, first', later) = >>-returned (send_pkt pkt) (send_pkts pkts) peer t tt e in
      >>-ok (send_pkt_to_peer pkt host port) (send_each pkts) {s = with_peer s xs fd peer ys}
        {t = with_peer s xs fd u ys} {a = tt}
        (send_pkt_to_peer-at pkt s xs ys fd peer u nx at first')
      ∙ send_each-send_pkts pkts s xs ys fd u t nx (send_pkt-address pkt peer u first' ∙ at) later

  -- Packets that are built are given to `send_pkt_to_peer` one by one, with the address of a peer of the
  -- table, and no peer before it in the table is at this address. If its socket takes each message's
  -- bytes in pieces that are not empty, the messages' bytes are handed over on it, in order, and
  -- nothing else of the server changes.
  pub send_pkt_to_peer-wires :
      (ms : List Message) (pkts : List Packet) (answers : List (List SendAnswer))
      (rest : List SendAnswer) (s : P2PurrServer) (xs ys : List (ℤ × PeerConnHandler)) (fd : ℤ)
      (peer : PeerConnHandler)
      → any_at xs ≡ false
      → at_address peer ≡ true
      → AllBuilt ms pkts
      → peer.sock_helper.os.sends ≡ answers_of answers rest
      → AllTaken ms answers
      → send_each pkts (with_peer s xs fd peer ys)
        ≡ ok tt (with_peer s xs fd (transmitted_by peer rest (wires ms)) ys)
  send_pkt_to_peer-wires ms pkts answers rest s xs ys fd peer nx at bs e taken =
      send_each-send_pkts pkts s xs ys fd peer _ nx at
        (send_pkts-wires ms pkts answers rest peer bs e taken)

  send_to-missing :
      (pkt : Packet) (peers : List (ℤ × PeerConnHandler))
      → any_at peers ≡ false
      → send_to pkt host port peers ≡ ok false peers
  unfolding send_to
  send_to-missing pkt [] n = refl
  send_to-missing pkt ((k, other) ∷ peers) n =
      ap (λ b. if b then here (send_pkt pkt other) else there (send_to pkt host port peers))
        first_part
      ∙ ap there (send_to-missing pkt peers rest_part)
    where
      here : Outcome PeerConnHandler (Unit {0}) → Outcome (List (ℤ × PeerConnHandler)) Bool
      here = within (λ _ u. ok true ((k, u) ∷ peers)) (λ x u. throw x ((k, u) ∷ peers))

      there : Outcome (List (ℤ × PeerConnHandler)) Bool → Outcome (List (ℤ × PeerConnHandler)) Bool
      there = within (λ found us. ok found ((k, other) ∷ us)) (λ x us. throw x ((k, other) ∷ us))

      first_part : at_address other ≡ false
      first_part = ground arith

      rest_part : any_at peers ≡ false
      rest_part = ground arith

  -- Where no peer of the table is at the address, `send_pkt_to_peer` reports its exception, sends nothing
  -- and changes nothing.
  pub send_pkt_to_peer-missing :
      (pkt : Packet) (s : P2PurrServer)
      → any_at s.sock_to_peer_map ≡ false
      → send_pkt_to_peer pkt host port s ≡ ok tt s
  unfolding send_pkt_to_peer
  send_pkt_to_peer-missing pkt s n =
      ap (λ o. reported (found (with_table s o))) (send_to-missing pkt s.sock_to_peer_map n)
    where
      found : Outcome P2PurrServer Bool → Outcome P2PurrServer (Unit {0})
      found o =
          ((λ _. o) >>= λ peer_found u. if peer_found then ok tt u else throw send_exception u) s

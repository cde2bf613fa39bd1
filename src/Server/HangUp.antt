-- ===== src/Server/HangUp.antt =====
-- A peer that closes its connection, from `recv` to the table of peers.
use p2purr.Base.{
  ◌<◌, ◌≡◌, sym, ap, ◌∙◌, true, false, not, Option, List, [], ◌∷◌, ◌++◌, arith, if◌then◌else◌, ℤ,
  Outcome, ok, throw, within, Bool-cases, inl, inr,
}
use p2purr.Packet.{Packet, Platform}
use p2purr.Socket.{Socket, closed, RecvAnswer, close_sock}
use p2purr.Peer.{PeerConnHandler, conn_active, recv_pkt, last_pkt}
use p2purr.Peer.Receive.{IsListening}
use p2purr.Peer.Silence.{answered, recv_pkt-closed}
use p2purr.Server.{
  P2PurrServer, ==_ℤ, has_peer, recv_from, with_table, handle_client_communications,
}
use p2purr.Server.Disconnected.{
  active_peers, fds_to_rm, erase_fds, list_begin, remove_disconnected_peers,
}
use p2purr.Server.Table.{keys, member, has_peer-keys, ==_ℤ_refl}
use p2purr.Server.Sweep.{active_peers_open, active_peers_shut, member-active_peers}

module _ (env : Platform) (fd : ℤ) (ys : List (ℤ × PeerConnHandler)) where
  -- The table with a peer under the descriptor, after others.
  abbrev pub table : List (ℤ × PeerConnHandler) → PeerConnHandler → List (ℤ × PeerConnHandler)
  table xs peer = xs ++ (fd, peer) ∷ ys

  pub recv_from-at :
      (xs : List (ℤ × PeerConnHandler)) (peer t : PeerConnHandler) (p : Option Packet)
      → has_peer fd xs ≡ false
      → recv_pkt env peer ≡ ok p t
      → recv_from env fd (table xs peer) ≡ ok p (table xs t)
  unfolding recv_from has_peer
  recv_from-at [] peer t p n e =
      ap (λ b. if b then here (recv_pkt env peer) else there (recv_from env fd ys)) (==_ℤ_refl fd)
      ∙ ap here e
    where
      here :
          Outcome PeerConnHandler (Option Packet)
          → Outcome (List (ℤ × PeerConnHandler)) (Option Packet)
      here = within (λ q u. ok q ((fd, u) ∷ ys)) (λ x u. throw x ((fd, u) ∷ ys))

      there :
          Outcome (List (ℤ × PeerConnHandler)) (Option Packet)
          → Outcome (List (ℤ × PeerConnHandler)) (Option Packet)
      there = within (λ q us. ok q ((fd, peer) ∷ us)) (λ x us. throw x ((fd, peer) ∷ us))
  recv_from-at ((k, other) ∷ xs) peer t p n e =
      let apart : ==_ℤ k fd ≡ false = ground arith in
      ap (λ b. if b then here (recv_pkt env other) else there (recv_from env fd (table xs peer)))
        apart
      ∙ ap there (recv_from-at xs peer t p (ground arith) e)
    where
      here :
          Outcome PeerConnHandler (Option Packet)
          → Outcome (List (ℤ × PeerConnHandler)) (Option Packet)
      here = within (λ q u. ok q ((k, u) ∷ table xs peer)) (λ x u. throw x ((k, u) ∷ table xs peer))

      there :
          Outcome (List (ℤ × PeerConnHandler)) (Option Packet)
          → Outcome (List (ℤ × PeerConnHandler)) (Option Packet)
      there = within (λ q us. ok q ((k, other) ∷ us)) (λ x us. throw x ((k, other) ∷ us))

  swept :
      (xs : List (ℤ × PeerConnHandler)) (t : PeerConnHandler)
      → member fd (keys xs) ≡ false
      → member fd (keys ys) ≡ false
      → conn_active t ≡ false
      → member fd (keys (active_peers (table xs t))) ≡ false
  unfolding active_peers
  swept [] t n m shut =
      ap (λ zs. member fd (keys zs)) (active_peers_shut fd t ys shut) ∙ member-active_peers fd ys m
  swept ((k, other) ∷ xs) t n m shut = elim (Bool-cases (conn_active other)) [
    | inl open' ↦
        let rest = swept xs t (ground arith) m shut in
        ap (λ zs. member fd (keys zs)) (active_peers_open k other (table xs t) open')
        ∙ ground (arith, rest)
    | inr shut' ↦
        ap (λ zs. member fd (keys zs)) (active_peers_shut k other (table xs t) shut')
        ∙ swept xs t (ground arith) m shut
  ]

  -- On a running server, the peer under a descriptor has an open connection with an empty buffer and
  -- hangs up, and its socket closes. Then `handle_client_communications` hands on the last packet that
  -- is complete, as before, and after `remove_disconnected_peers` the table has no peer under the
  -- descriptor.
  pub remove_disconnected_peers-handle_client_communications :
      (s : P2PurrServer) (xs : List (ℤ × PeerConnHandler)) (peer : PeerConnHandler)
      (rest : List RecvAnswer) (h : Socket)
      → s.is_local_server_running ≡ true
      → s.sock_to_peer_map ≡ xs ++ (fd, peer) ∷ ys
      → has_peer fd xs ≡ false
      → has_peer fd ys ≡ false
      → IsListening peer
      → 0 < peer.buff_size
      → peer.sock_helper.os.recvs ≡ closed ∷ rest
      → close_sock (answered peer rest) ≡ ok true h
      → (t : P2PurrServer) × (handle_client_communications env fd s
          ≡ ok (last_pkt peer.completed_pkts) t)
        × (has_peer fd (remove_disconnected_peers t).sock_to_peer_map ≡ false)
  unfolding handle_client_communications remove_disconnected_peers
  remove_disconnected_peers-handle_client_communications s xs peer rest h runs e nx ny v lt hung
        shut =
      let (run, idle) = recv_pkt-closed env peer rest true h v lt hung shut in
      let after : PeerConnHandler = record peer { sock_helper = h } in
      (
        record s { sock_to_peer_map = table xs after },
        ap (λ ps. with_table s (recv_from env fd ps)) e
            ∙ ap (with_table s) (recv_from-at xs peer after _ nx run),
        ap
              (λ b.
                has_peer fd
                  (if not b
                    then record s { sock_to_peer_map = table xs after }
                    else cleaned (table xs after)).sock_to_peer_map)
              runs
            ∙ has_peer-keys fd (active_peers (table xs after))
            ∙ swept xs after (sym (has_peer-keys fd xs) ∙ nx) (sym (has_peer-keys fd ys) ∙ ny) idle,
      )
    where
      cleaned : List (ℤ × PeerConnHandler) → P2PurrServer
      cleaned ps = record s {
        sock_to_peer_map = active_peers ps;
        pollfd_list = erase_fds (fds_to_rm ps) (list_begin s.pollfd_list);
      }

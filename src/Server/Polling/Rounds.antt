-- ===== src/Server/Polling/Rounds.antt =====
-- Rounds of the poll thread in which one peer's descriptor is ready.
use p2purr.Base.{
  ℕ, zero, suc, ◌+◌, ◌≡◌, refl, sym, ap, ap₂, ◌∙◌, true, false, Option, none, some, List, ◌∷◌, ◌++◌,
  arith, length, length-append, get_elem?, get_elem?-append_right, if◌then◌else◌, ℤ, ok, ◌>>◌,
  >>-ok,
}
use native.Mathlib.Nat.{add-zero, zero-add}
use p2purr.Packet.{Packet, Platform}
use p2purr.Packet.Wire.{Message}
use p2purr.Socket.{RecvAnswer}
use p2purr.Socket.Setup.{Fresh}
use p2purr.Peer.{PeerConnHandler, conn_active, recv_pkt}
use p2purr.Peer.Shut.{StaysOpen, recv_pkts-StaysOpen}
use p2purr.Peer.Stream.{files_after, wires, AllDeliverable, AllRebuilt}
use p2purr.Peer.Receive.{IsListening}
use p2purr.Peer.Cut.{IsCut}
use p2purr.Peer.Delivery.{concat, gots, recv_pkts-wires}
use p2purr.Server.{
  PollFd, P2PurrServer, ServerM, ==_ℤ, has_peer, with_table, handle_new_client,
  handle_client_communications,
}
use p2purr.Server.Disconnected.{remove_disconnected_peers}
use p2purr.Server.Removal.{AllActive, AllActive-append, remove_disconnected_peers_of_AllActive}
use p2purr.Server.HangUp.{recv_from-at}
use p2purr.Server.Polling.{poll_pass, poll_body, poll_round}
use p2purr.Server.Traffic.{with_peer}
use p2purr.Server.Polling.Pass.{only, at_entry, pass_idle, pass_to, only_at, only_other}

module _ (env : Platform) (events : ℕ) (fresh : ℕ → Fresh) (fd : ℤ)
    (before behind : List PollFd) where
  -- The server has an entry of the descriptor in its poll list, which is not the server's own.
  pub record Polls (s : P2PurrServer) : Type 0 where
    pub running : s.is_local_server_running ≡ true
    pub watch : ℕ
    pub entries : s.pollfd_list ≡ before ++ record { fd = fd; events = watch } ∷ behind
    pub not_own : ==_ℤ fd s.server_sock_helper.sock ≡ false

  -- One round in which only the descriptor's entry is ready.
  abbrev pub round : ServerM (Unit {0})
  round =
      poll_round env events fresh (some (only (length before))) (length before + length behind + 2)

  module _ (s : P2PurrServer) (v : Polls s) where
    at_ready : get_elem? s.pollfd_list (length before) ≡ some (record { fd = fd; events = v.watch })
    at_ready =
        ap₂ get_elem? v.entries (sym (add-zero (length before)))
        ∙ get_elem?-append_right before (record { fd = fd; events = v.watch } ∷ behind) 0

    size : length s.pollfd_list ≡ length before + (length behind + 1)
    size =
        ap length v.entries
        ∙ length-append before (record { fd = fd; events = v.watch } ∷ behind)
        ∙ omega arith

    -- The pass makes one call of `handle_client_communications`.
    pass_ready :
        (t : P2PurrServer) (p : Option Packet)
        → handle_client_communications env fd s ≡ ok p t
        → t.is_local_server_running ≡ true
        → t.pollfd_list ≡ s.pollfd_list
        → poll_pass env events fresh (only (length before)) (length before + length behind + 2) 0 s
          ≡ ok tt t
    unfolding poll_pass
    pass_ready t p run runs same =
        let k = length before in
        ap (λ f. poll_pass env events fresh (only k) f 0 s) (omega arith)
        ∙ pass_to env events fresh (only k) s v.running (suc (length behind + 1)) k 0
            (λ i above below. only_other k i (λ e. absurd (omega (arith, e)))) (omega (arith, size))
        ∙ ap (λ i. poll_pass env events fresh (only k) (suc (length behind + 1)) i s) (zero-add k)
        ∙ ap
            (λ o.
              at_entry env events fresh (only k) (length behind + 1) k s o s.is_local_server_running
                (only k k))
            at_ready
        ∙ ap₂
            (λ a b.
              at_entry env events fresh (only k) (length behind + 1) k s
                (some (record { fd = fd; events = v.watch })) a b)
            v.running (only_at k)
        ∙ ap
            (λ b.
              if b
              then (handle_new_client events (fresh (length behind + 1))
                    >> poll_pass env events fresh (only k) (length behind + 1) 1)
                  s
              else (handle_client_communications env fd
                    >> poll_pass env events fresh (only k) (length behind + 1) (k + 1))
                  s)
            v.not_own
        ∙ >>-ok (handle_client_communications env fd)
            (poll_pass env events fresh (only k) (length behind + 1) (k + 1)) run
        ∙ pass_idle env events fresh (only k) t runs (length behind + 1) (k + 1)
            (λ i above. only_other k i (λ e. absurd (omega (arith, e))))
            (omega (arith, size, ap length same)) (omega (arith, size, ap length same))

  -- Such a round is one call of `recv_pkt` of the peer, where all connections stay open.
  round-recv_pkt :
      (s : P2PurrServer) (xs ys : List (ℤ × PeerConnHandler)) (peer u : PeerConnHandler)
      (p : Option Packet)
      → Polls s
      → has_peer fd xs ≡ false
      → AllActive xs
      → AllActive ys
      → recv_pkt env peer ≡ ok p u
      → conn_active u ≡ true
      → round (with_peer s xs fd peer ys) ≡ ok tt (with_peer s xs fd u ys)
  unfolding poll_round poll_body handle_client_communications
  round-recv_pkt s xs ys peer u p v nx ax ay run active =
      let fuel = length before + length behind + 2 in
      let w : Polls (with_peer s xs fd peer ys) = record {
        running = v.running;
        watch = v.watch;
        entries = v.entries;
        not_own = v.not_own;
      } in
      ap
        (λ b.
          if b
          then poll_body env events fresh (some (only (length before))) fuel
              (with_peer s xs fd peer ys)
          else ok tt (with_peer s xs fd peer ys))
        v.running
      ∙ >>-ok (poll_pass env events fresh (only (length before)) fuel 0)
          (λ t. ok tt (remove_disconnected_peers t)) {s = with_peer s xs fd peer ys}
          {t = with_peer s xs fd u ys} {a = tt}
          (pass_ready (with_peer s xs fd peer ys) w (with_peer s xs fd u ys) p
            (ap (with_table (with_peer s xs fd peer ys))
              (recv_from-at env fd ys xs peer u p nx run))
            v.running refl)
      ∙ ap (ok tt) (
          remove_disconnected_peers_of_AllActive (with_peer s xs fd u ys)
            (AllActive-append xs ((fd, u) ∷ ys) ax (active, ay)))

  unfoldable pub poll_rounds : ℕ → ServerM (Unit {0})
  poll_rounds zero s = ok tt s
  poll_rounds (suc n) s = (round >> poll_rounds n) s

  poll_rounds-StaysOpen :
      (n : ℕ) (s : P2PurrServer) (xs ys : List (ℤ × PeerConnHandler)) (peer t : PeerConnHandler)
      → Polls s
      → has_peer fd xs ≡ false
      → AllActive xs
      → AllActive ys
      → StaysOpen env n peer t
      → poll_rounds n (with_peer s xs fd peer ys) ≡ ok tt (with_peer s xs fd t ys)
  unfolding poll_rounds
  poll_rounds-StaysOpen zero s xs ys peer t v nx ax ay same =
      ap (λ u. ok tt (with_peer s xs fd u ys)) same
  poll_rounds-StaysOpen (suc n) s xs ys peer t v nx ax ay (p, u, run, active, later) =
      >>-ok round (poll_rounds n) {s = with_peer s xs fd peer ys} {t = with_peer s xs fd u ys}
        {a = tt} (round-recv_pkt s xs ys peer u p v nx ax ay run active)
      ∙ poll_rounds-StaysOpen n s xs ys u t v nx ax ay later

  -- A stream of messages that fit and are not empty arrives, in pieces that fit the buffer and do not end
  -- behind the first or the second byte of a packet, at a peer with no packet begun, and the connections
  -- of all peers are open. After as many rounds of the poll thread as there are pieces, in each of which
  -- the entry of the peer's descriptor is the one that is ready, the peer has completed exactly the
  -- messages, in order, the payloads of those that carry a file have been written to the output file, in
  -- order, if it can be written, and nothing else of the server has changed.
  pub poll_rounds-wires :
      (ms : List Message) (pieces : List (List ℕ)) (s : P2PurrServer)
      (xs ys : List (ℤ × PeerConnHandler)) (peer : PeerConnHandler) (rest : List RecvAnswer)
      → Polls s
      → has_peer fd xs ≡ false
      → AllActive xs
      → AllActive ys
      → AllDeliverable ms
      → IsListening peer
      → peer.current_pkt ≡ none
      → peer.sock_helper.os.recvs ≡ gots pieces rest
      → concat pieces ≡ wires ms
      → IsCut peer.buff_size ms 0 pieces
      → (t : PeerConnHandler) × (ps : List Packet) × (poll_rounds
            (length pieces)
            (with_peer s xs fd peer ys)
          ≡ ok tt (with_peer s xs fd t ys))
        × AllRebuilt ms ps
        × (t.completed_pkts ≡ peer.completed_pkts ++ ps)
        × (t.out_file ≡ files_after env ms peer.out_file)
  poll_rounds-wires ms pieces s xs ys peer rest v nx ax ay ds l none_yet e ew cut =
      let (t, ps, run, all, pushed, _, _, files, lt) =
        recv_pkts-wires env ms pieces peer rest ds l none_yet e ew cut in
      (
        t,
        ps,
        poll_rounds-StaysOpen (length pieces) s xs ys peer t v nx ax ay
            (recv_pkts-StaysOpen env (length pieces) peer t run lt.open'),
        all,
        pushed,
        files,
      )

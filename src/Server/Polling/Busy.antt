-- ===== src/Server/Polling/Busy.antt =====
-- Rounds of the poll thread in which any descriptors are ready, clients come in and peers go.
use p2purr.Base.{
  ℕ, suc, ◌+◌, ◌≡◌, ◌<◌, sym, ap, subst, ◌∙◌, Bool, true, false, none, some, List, ◌∷◌, ◌++◌,
  length, ℤ, ok, ◌>>◌, >>-returned,
}
use p2purr.Packet.{Packet, Platform}
use p2purr.Packet.Wire.{Message}
use p2purr.Socket.{RecvAnswer}
use p2purr.Socket.Setup.{Fresh}
use p2purr.Peer.{PeerConnHandler, conn_active}
use p2purr.Peer.Shut.{StaysOpen, recv_pkts-StaysOpen}
use p2purr.Peer.Stream.{wires, AllDeliverable, AllRebuilt}
use p2purr.Peer.Receive.{IsListening}
use p2purr.Peer.Cut.{IsCut}
use p2purr.Peer.Delivery.{concat, gots, recv_pkts-wires}
use p2purr.Server.{PollFd, P2PurrServer, ==_ℤ}
use p2purr.Server.Disconnected.{remove_disconnected_peers}
use p2purr.Server.Sound.{Sound}
use p2purr.Server.Methods.{remove_disconnected_peers-Sound}
use p2purr.Server.Registry.{registry}
use p2purr.Server.Reach.{Reachable, Reachable-Sound}
use p2purr.Server.Polling.{poll_round}
use p2purr.Server.Polling.Serve.{ready_fds, NoneOwn, serve}
use p2purr.Server.Polling.Turn.{welcome, poll_round-turn}
use p2purr.Server.Polling.Isolation.{count, serve-Goes, serve-Sound, welcome-there, remove-there}

-- What a round starts from: the server runs, its own entry stands first in the poll list and nowhere else
-- among the entries that are ready, the entry that a new client may get counts as not ready, and there
-- is fuel for every entry.
pub record IsRound (revents : ℕ → Bool) (fuel : ℕ) (rest : List PollFd) (s : P2PurrServer)
    : Type 0 where
  pub own : PollFd
  pub runs : s.is_local_server_running ≡ true
  pub entries : s.pollfd_list ≡ own ∷ rest
  pub mine : ==_ℤ own.fd s.server_sock_helper.sock ≡ true
  pub others : NoneOwn s.server_sock_helper.sock (ready_fds revents 1 rest)
  pub unset : revents (length rest + 1) ≡ false
  pub enough : length rest + 1 < fuel

-- Rounds that return, whatever entries are ready in each of them, and how often a descriptor is ready in
-- them all.
pub data Rounds (env : Platform) (events : ℕ) (fd : ℤ)
    : ℕ → P2PurrServer → P2PurrServer → Type 0 where
  no_round : {s : P2PurrServer} → Rounds env events fd 0 s s
  a_round :
      {s t u : P2PurrServer} {n : ℕ} (fresh : ℕ → Fresh) (revents : ℕ → Bool) (fuel : ℕ)
      (rest : List PollFd)
      → IsRound revents fuel rest s
      → poll_round env events fresh (some revents) (suc fuel) s ≡ ok tt t
      → Rounds env events fd n t u
      → Rounds env events fd (count fd (ready_fds revents 1 rest) + n) s u

module _ (env : Platform) (events : ℕ) (fd : ℤ) where
  Rounds-StaysOpen :
      (n : ℕ) (s t : P2PurrServer) (peer u : PeerConnHandler)
      → Rounds env events fd n s t
      → Sound s
      → registry s.sock_to_peer_map fd ≡ some peer
      → conn_active peer ≡ true
      → StaysOpen env n peer u
      → registry t.sock_to_peer_map fd ≡ some u
  Rounds-StaysOpen n s t peer u no_round h there active open' = there ∙ ap some open'
  Rounds-StaysOpen n s t peer u (a_round {t = t'} {n = m} fresh revents fuel rest r run more) h
        there active open' =
      let fds = ready_fds revents 1 rest in
      let turn =
        sym (
          poll_round-turn env events fresh revents fuel r.own rest s r.runs r.entries r.mine
            r.others r.unset r.enough)
        ∙ run in
      let (_, s2, run2, removed) =
        >>-returned (welcome events (fresh fuel) (revents 0) >> serve env fds)
          (λ w. ok tt (remove_disconnected_peers w)) s t' tt turn in
      let (_, s1, run1, served) =
        >>-returned (welcome events (fresh fuel) (revents 0)) (serve env fds) s s2 tt run2 in
      let (h1, there1) = welcome-there fd events (fresh fuel) (revents 0) s s1 peer run1 h there in
      let h2 = serve-Sound env fd fds s1 s2 served h1 in
      let (v, there2, active2, open2) =
        serve-Goes env fd fds m s1 s2 peer u served there1 active open' in
      let same : remove_disconnected_peers s2 ≡ t' = cc removed in
      Rounds-StaysOpen m t' t v u more (subst Sound same (remove_disconnected_peers-Sound s2 h2))
        (ap (λ w. registry w.sock_to_peer_map fd) (sym same)
          ∙ remove-there fd s2 v h2 there2 active2)
        active2 open2

  -- Of a reachable server that has an open connection under a descriptor, with no packet begun, at which
  -- a stream of messages that fit and are not empty arrives, in pieces that fit the buffer and do not end
  -- behind the first or the second byte of a packet. In rounds of the poll thread that return, in which
  -- the descriptor is ready once for each piece, any other descriptors are ready too, in any order,
  -- clients come in and peers go: the server still has the connection under the descriptor, which has
  -- completed exactly the messages, in order. Each round starts on a running server whose own entry
  -- stands first in the poll list and nowhere else among the entries that are ready, has fuel for every
  -- entry and one more, and finds not ready the entry that a new client gets in it, of which the source
  -- never sets `revents`.
  pub Rounds-wires :
      (ms : List Message) (pieces : List (List ℕ)) (s t : P2PurrServer) (peer : PeerConnHandler)
      (rest : List RecvAnswer)
      → Reachable env s
      → Rounds env events fd (length pieces) s t
      → registry s.sock_to_peer_map fd ≡ some peer
      → AllDeliverable ms
      → IsListening peer
      → peer.current_pkt ≡ none
      → peer.sock_helper.os.recvs ≡ gots pieces rest
      → concat pieces ≡ wires ms
      → IsCut peer.buff_size ms 0 pieces
      → (u : PeerConnHandler) × (ps : List Packet) × (registry t.sock_to_peer_map fd ≡ some u)
        × AllRebuilt ms ps
        × (u.completed_pkts ≡ peer.completed_pkts ++ ps)
  Rounds-wires ms pieces s t peer rest reach rounds there ds l none_yet e ew cut =
      let (u, ps, run, all, pushed, _, _, _, lu) =
        recv_pkts-wires env ms pieces peer rest ds l none_yet e ew cut in
      (
        u,
        ps,
        Rounds-StaysOpen (length pieces) s t peer u rounds (Reachable-Sound env s reach) there
            l.open' (recv_pkts-StaysOpen env (length pieces) peer u run lu.open'),
        all,
        pushed,
      )

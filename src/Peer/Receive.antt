-- ===== src/Peer/Receive.antt =====
-- `recv_pkt` on what one `recv` gives of a stream of packets.
use p2purr.Base.{
  ℕ, ◌+◌, ◌-◌, ◌≤◌, ◌<◌, ◌≡◌, refl, sym, ap, ◌∙◌, true, some, List, [], ◌∷◌, ◌++◌, arith, length,
  take, drop, length-take, take-append-drop, get_elem?-append_left, Agree, memcpy, memcpy_lem,
  length-replicate, if◌then◌else◌, ok, >>-ok, >>=-ok, lt→ltb, le→leb, ◌^◌,
}
use p2purr.Packet.{Packet, Platform}
use p2purr.Packet.Wire.{Message, wire}
use p2purr.Socket.{RecvAnswer, got}
use p2purr.Socket.Transfer.{receive_once}
use p2purr.Peer.{
  PeerConnHandler, clear_buff, received, receive_at, pkt_loop, clear_read, process, last_pkt,
  return_last, try_recv, caught, recv_pkt,
}
use p2purr.Peer.Stream.{
  files_after, IsDeliverable, AllDeliverable, AllRebuilt, wires, Holds, IsBreak, first,
}
use p2purr.Peer.Stream.Loop.{pkt_loop_lem}

-- Between two calls: the buffer is empty, and there is as much of it as `buff_size` says.
pub record IsListening (s : PeerConnHandler) : Type 0 where
  pub open' : s.sock_helper.is_sock_open ≡ true
  pub at_start : s.curr_buff_idx ≡ 0
  pub room : length s.recv_buffer ≡ s.buff_size
  pub small : s.buff_size < 2 ^ 31

memcpy_front :
    (b bytes : List ℕ)
    → length bytes ≤ length b
    → memcpy b 0 bytes ≡ some (bytes ++ drop (length bytes) b)
memcpy_front b bytes le =
    ap (λ old. memcpy old 0 bytes) (sym (take-append-drop (length bytes) b))
    ∙ memcpy_lem [] (take (length bytes) b) (drop (length bytes) b) bytes 0 refl
        (omega (arith, length-take (length bytes) b))

-- After `recv` has given `bytes`.
abbrev pub filled : PeerConnHandler → List RecvAnswer → List ℕ → PeerConnHandler
filled s rest bytes = record s {
  sock_helper = record (s.sock_helper) { os = record (s.sock_helper.os) { recvs = rest } };
  recv_buffer = bytes ++ drop (length bytes) s.recv_buffer;
}

pub receive_at-got :
    (s : PeerConnHandler) (rest : List RecvAnswer) (bytes : List ℕ)
    → IsListening s
    → s.sock_helper.os.recvs ≡ got bytes ∷ rest
    → 0 < length bytes
    → length bytes ≤ s.buff_size
    → receive_at s ≡ ok (length bytes) (filled s rest bytes)
unfolding receive_at
receive_at-got s rest bytes v e pos_n le = ap (received s) (
    receive_once s.curr_buff_idx (s.buff_size - s.curr_buff_idx)
      (record { socket = s.sock_helper; buffer = s.recv_buffer }) rest bytes
      (bytes ++ drop (length bytes) s.recv_buffer) v.open' e pos_n (omega (arith, v.at_start))
      (ap (λ off. memcpy s.recv_buffer off bytes) v.at_start
        ∙ memcpy_front s.recv_buffer bytes (omega (arith, v.room))))

module _ (env : Platform) where
  pub process_lem :
      (total : ℕ) (s t : PeerConnHandler)
      → s.curr_buff_idx < total
      → t.curr_buff_idx ≡ total
      → pkt_loop env (total + 1) total s ≡ ok tt t
      → process env total s ≡ ok tt (clear_buff t)
  unfolding process
  process_lem total s t lt e run = rw (lt→ltb s.curr_buff_idx total lt) (
      >>-ok (pkt_loop env (total + 1) total) (clear_read total) run
      ∙ ap (λ b. ok tt (if b then clear_buff t else t))
          (le→leb total t.curr_buff_idx (omega arith)))

  -- A stream carries messages that fit and whose payload is not empty. On an open connection with an
  -- empty buffer, the next `recv` gives at least one byte and at most `buff_size`: the rest of the
  -- current packet, any number of whole packets, and the start of another that is empty or of at least
  -- three bytes. Then `recv_pkt` completes exactly the packets that end there, in order, as they were
  -- sent, keeps the start of the last one, returns the last packet that is complete, and leaves the
  -- connection open, its buffer empty and the later answers of `recv` alone. The payloads of those
  -- packets that carry a file have been written to the output file, in order, if it can be written.
  pub recv_pkt-got :
      (ms : List Message) (m' : Message) (n n' : ℕ) (s : PeerConnHandler) (rest : List RecvAnswer)
      (bytes : List ℕ)
      → AllDeliverable ms
      → IsDeliverable m'
      → IsListening s
      → s.sock_helper.os.recvs ≡ got bytes ∷ rest
      → 0 < length bytes
      → length bytes ≤ s.buff_size
      → n + length bytes ≡ length (wires ms) + n'
      → IsBreak m' n'
      → Holds (first ms m') n s.current_pkt
      → Agree bytes 0 (wires ms ++ wire m') n (length bytes)
      → (t : PeerConnHandler) × (ps : List Packet) × (recv_pkt env s
          ≡ ok (last_pkt (s.completed_pkts ++ ps)) t)
        × AllRebuilt ms ps
        × (t.completed_pkts ≡ s.completed_pkts ++ ps)
        × Holds m' n' t.current_pkt
        × (t.sock_helper.os.recvs ≡ rest)
        × (t.buff_size ≡ s.buff_size)
        × (t.out_file ≡ files_after env ms s.out_file)
        × IsListening t
  unfolding recv_pkt try_recv
  recv_pkt-got ms m' n n' s rest bytes ds d v e pos_n le en at h agree =
      let (t, run, (ps, all, pushed), holds, it, kt, zt, ot) =
        pkt_loop_lem env ms m' n n' (length bytes + 1) 0 (length bytes) (length bytes)
          (filled s rest bytes) ds d (omega (arith, v.small)) (omega arith) (omega arith) en at
          v.at_start h
          (λ j lt.
            get_elem?-append_left bytes (drop (length bytes) s.recv_buffer) (0 + j) (omega arith)
            ∙ agree j lt) in
      (
        clear_buff t,
        ps,
        ap (caught) (
            >>=-ok receive_at _ (receive_at-got s rest bytes v e pos_n le)
            ∙ >>-ok (process env (length bytes)) (return_last) (
                process_lem (length bytes) (filled s rest bytes) t (omega (arith, v.at_start)) it
                  run)
            ∙ ap (λ xs. ok (last_pkt xs) (clear_buff t)) pushed),
        all,
        pushed,
        holds,
        ap (λ k. k.os.recvs) kt,
        zt,
        ot,
        record {
          open' = ap (λ k. k.is_sock_open) kt ∙ v.open';
          at_start = refl;
          room = length-replicate t.buff_size 0;
          small = omega (arith, zt, v.small);
        },
      )

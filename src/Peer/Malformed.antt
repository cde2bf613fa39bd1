-- ===== src/Peer/Malformed.antt =====
-- `recv_pkt` where the receiver's code goes wrong on what it is sent.
use p2purr.Base.{
  ℕ, zero, suc, length-replicate, ◌+◌, ◌≤◌, ◌<◌, ◌≡◌, ◌≢◌, refl, ap, ap₂, ◌∙◌, Option, none, some,
  List, [], ◌∷◌, ◌++◌, arith, length, drop, get_elem?, pos, ok, fault, ◌>>◌, >>-ok, >>=-ok, lt→ltb,
  ◌^◌, ◌>>=◌, M,
}
use p2purr.Packet.{Packet, Platform, set_buff_size, set_build_pending}
use p2purr.Packet.Rebuild.{for_rebuild, rebuild}
use p2purr.Packet.Rebuild.Malformed.{
  IsHeaderless, rebuild_no_start, rebuild_one_byte, at_one_byte, byte_lost,
}
use p2purr.Socket.{RecvAnswer, got}
use p2purr.Peer.{
  PeerConnHandler, clear_buff, receive_at, pkt_loop, pkt_round, process, current, context, after,
  settle, return_last, try_recv, caught, recv_pkt, last_pkt, clear_read,
}
use p2purr.Peer.Stream.{current-buff_total_len, pkt_loop_round, pkt_loop_end, pkt_round-ok}
use p2purr.Peer.Receive.{IsListening, filled, receive_at-got, process_lem}
use p2purr.Peer.Delivery.{recv_pkts}

-- No packet is begun, or not more than two bytes of its header are read, and lost.
abbrev pub NoHeader : Option Packet → Type 0
NoHeader none = Unit {0}
NoHeader (some p) = IsHeaderless p

>>-fault : {S A B : Type 0} (m : M S A) (k : M S B) {s : S} → m s ≡ fault → (m >> k) s ≡ fault
>>-fault m k e = rw (e, ◌>>=◌)

module _ (env : Platform) where
  current-IsHeaderless :
      (total : ℕ) (s : PeerConnHandler) (o : Option Packet)
      → s.current_pkt ≡ o
      → NoHeader o
      → IsHeaderless (current env total s)
  unfolding current set_buff_size for_rebuild
  current-IsHeaderless total s none e h =
      rw e (record { index_set = refl; no_header = refl; length_unknown = refl })
  current-IsHeaderless total s (some p) e h = rw e (record {
    index_set = h.index_set;
    no_header = h.no_header;
    length_unknown = h.length_unknown;
  })

  pkt_loop-fault :
      (fuel total : ℕ) (s : PeerConnHandler)
      → 0 < fuel
      → s.curr_buff_idx < total
      → pkt_round env total s ≡ fault
      → pkt_loop env fuel total s ≡ fault
  unfolding pkt_loop
  pkt_loop-fault zero total s pos_n lt e = absurd (omega arith)
  pkt_loop-fault (suc fuel) total s pos_n lt e =
      rw (lt→ltb s.curr_buff_idx total lt)
        (>>-fault (pkt_round env total) (pkt_loop env fuel total) e)

  process-fault :
      (total : ℕ) (s : PeerConnHandler)
      → s.curr_buff_idx < total
      → pkt_round env total s ≡ fault
      → process env total s ≡ fault
  unfolding process
  process-fault total s lt e = rw (lt→ltb s.curr_buff_idx total lt) (
      >>-fault (pkt_loop env (total + 1) total) (clear_read total)
        (pkt_loop-fault (total + 1) total s (omega arith) lt e))

  round_no_start :
      (total b : ℕ) (bytes : List ℕ) (s : PeerConnHandler)
      → s.curr_buff_idx ≡ 0
      → NoHeader s.current_pkt
      → s.recv_buffer ≡ b ∷ bytes
      → 3 ≤ total
      → total < 2 ^ 31
      → b ≢ 0xFF
      → pkt_round env total s ≡ fault
  unfolding pkt_round
  round_no_start total b bytes s ei h eb three lt no_start = ap (settle env s) (
      rebuild_no_start env (context env total s) 0 total b
        (current-IsHeaderless total s s.current_pkt refl h) ei
        (current-buff_total_len env total s lt) (omega arith) three (ap (λ xs. get_elem? xs 0) eb)
        no_start)

  -- On an open connection with an empty buffer and no header read, if the next `recv` gives at least
  -- three bytes and at most `buff_size`, the first of them not the start symbol, `recv_pkt` reads through
  -- a null pointer.
  pub recv_pkt_no_start :
      (s : PeerConnHandler) (rest : List RecvAnswer) (b : ℕ) (bytes : List ℕ)
      → IsListening s
      → NoHeader s.current_pkt
      → s.sock_helper.os.recvs ≡ got (b ∷ bytes) ∷ rest
      → 2 ≤ length bytes
      → length (b ∷ bytes) ≤ s.buff_size
      → b ≢ 0xFF
      → recv_pkt env s ≡ fault
  unfolding recv_pkt try_recv
  recv_pkt_no_start s rest b bytes v h e two le no_start = ap caught (
      >>=-ok receive_at _ (receive_at-got s rest (b ∷ bytes) v e (omega arith) le)
      ∙ >>-fault (process env (length (b ∷ bytes))) return_last (
          process-fault (length (b ∷ bytes)) (filled s rest (b ∷ bytes)) (omega (arith, v.at_start))
            (round_no_start (length (b ∷ bytes)) b
              (bytes ++ drop (length (b ∷ bytes)) s.recv_buffer) (filled s rest (b ∷ bytes))
              v.at_start h refl (omega arith) (omega (arith, v.small)) no_start)))

  -- After a call that was given one byte and began a packet with it.
  abbrev lost : PeerConnHandler → List RecvAnswer → ℕ → PeerConnHandler
  lost s rest b =
      clear_buff
        (after env (filled s rest (b ∷ [])) (byte_lost env b (drop 1 s.recv_buffer) s.out_file))

  context-at_one_byte :
      (s : PeerConnHandler) (rest : List RecvAnswer) (b : ℕ)
      → s.curr_buff_idx ≡ 0
      → s.current_pkt ≡ none
      → context env 1 (filled s rest (b ∷ [])) ≡ at_one_byte env b (drop 1 s.recv_buffer) s.out_file
  unfolding current set_buff_size for_rebuild
  context-at_one_byte s rest b ei ec =
      ap₂
        (λ c i. record {
          packet = set_buff_size (elim c [ none ↦ for_rebuild env i (pos 1) | some p ↦ p ]) 1;
          recv_buffer = b ∷ drop 1 s.recv_buffer;
          buff_idx = i;
          out_file = s.out_file;
        })
        ec ei

  round_one_byte :
      (s : PeerConnHandler) (rest : List RecvAnswer) (b : ℕ)
      → s.curr_buff_idx ≡ 0
      → s.current_pkt ≡ none
      → pkt_round env 1 (filled s rest (b ∷ []))
        ≡ ok tt
            (after env (filled s rest (b ∷ [])) (byte_lost env b (drop 1 s.recv_buffer) s.out_file))
  unfolding set_build_pending
  round_one_byte s rest b ei ec =
      pkt_round-ok env 1 (filled s rest (b ∷ []))
        (byte_lost env b (drop 1 s.recv_buffer) s.out_file)
        (ap (rebuild env) (context-at_one_byte s rest b ei ec)
          ∙ rebuild_one_byte env b (drop 1 s.recv_buffer) s.out_file)

  recv_pkt_one_byte :
      (s : PeerConnHandler) (rest : List RecvAnswer) (b : ℕ)
      → IsListening s
      → s.current_pkt ≡ none
      → s.sock_helper.os.recvs ≡ got (b ∷ []) ∷ rest
      → 1 ≤ s.buff_size
      → recv_pkt env s ≡ ok (last_pkt s.completed_pkts) (lost s rest b)
  unfolding recv_pkt try_recv
  recv_pkt_one_byte s rest b v ec e le = ap caught (
      >>=-ok receive_at _ (receive_at-got s rest (b ∷ []) v e (omega arith) le)
      ∙ >>-ok (process env 1) return_last {s = filled s rest (b ∷ [])} (
          process_lem env 1 (filled s rest (b ∷ []))
            (after env (filled s rest (b ∷ [])) (byte_lost env b (drop 1 s.recv_buffer) s.out_file))
            (omega (arith, v.at_start)) refl
            (pkt_loop_round env 1 1 (filled s rest (b ∷ [])) _ (omega (arith, v.at_start))
                (round_one_byte s rest b v.at_start ec)
              ∙ pkt_loop_end env 1 1 _ (omega arith))))

  -- On an open connection with an empty buffer and no packet begun, the first byte of a packet arrives
  -- alone, and at least three bytes of its rest, not more than the buffer takes, with the next `recv`. A
  -- call of `recv_pkt` for each reads through a null pointer, since the byte after the start symbol, of
  -- the header's length, is not the start symbol.
  pub recv_pkts_split_header :
      (s : PeerConnHandler) (rest : List RecvAnswer) (b b' : ℕ) (bytes : List ℕ)
      → IsListening s
      → s.current_pkt ≡ none
      → s.sock_helper.os.recvs ≡ got (b ∷ []) ∷ got (b' ∷ bytes) ∷ rest
      → 2 ≤ length bytes
      → length (b' ∷ bytes) ≤ s.buff_size
      → b' ≢ 0xFF
      → recv_pkts env 2 s ≡ fault
  unfolding recv_pkts set_build_pending for_rebuild
  recv_pkts_split_header s rest b b' bytes v ec e two le no_start =
      >>-ok (recv_pkt env) (recv_pkts env 1)
        (recv_pkt_one_byte s (got (b' ∷ bytes) ∷ rest) b v ec e (omega arith))
      ∙ >>-fault (recv_pkt env) (recv_pkts env 0) (
          recv_pkt_no_start (lost s (got (b' ∷ bytes) ∷ rest) b) rest b' bytes
            (record {
              open' = v.open';
              at_start = refl;
              room = length-replicate s.buff_size 0;
              small = v.small;
            })
            (record { index_set = refl; no_header = refl; length_unknown = refl }) refl two le
            no_start)

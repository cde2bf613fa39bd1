-- ===== src/Peer/Ends.antt =====
-- `recv_pkt` ends, whatever bytes the peer sends.
use p2purr.Base.{
  ℕ, zero, suc, ◌+◌, ◌-◌, ◌^◌, ◌≤◌, ◌<◌, ◌≡◌, refl, sym, ap, subst, ◌∙◌, ◌⊎◌, inl, inr, true,
  Option, none, List, [], ◌∷◌, ◌++◌, arith, length, ltb, ltb→lt, if◌then◌else◌, Outcome, ok, throw,
  fault, no_fuel, exits, Halts, >>=-Halts, if-Halts, within-Halts,
}
use p2purr.Packet.{Packet, Platform, Context}
use p2purr.Packet.Rebuild.{rebuild}
use p2purr.Packet.Rebuild.Ends.{rebuild-Halts}
use p2purr.Socket.{Receiving, RecvAnswer, got, receive}
use p2purr.Socket.Ends.{receive-Halts}
use p2purr.Peer.{
  PeerConnHandler, receive_at, pkt_loop, pkt_round, process, context, after, collected, clear_read,
  return_last, try_recv, caught, recv_pkt,
}
use p2purr.Peer.Stream.{current-buff_total_len, pkt_loop_end}
use p2purr.Peer.Empty.{current-IsFresh}

module _ (env : Platform) (total : ℕ) (small : total < 2 ^ 31) where
  collected-curr_buff_idx :
      (s : PeerConnHandler) (c : Context) → (collected env s c).curr_buff_idx ≡ c.buff_idx
  collected-curr_buff_idx s c = ground arith

  -- A round ends at the end of what was received, or with no packet begun; the index has not gone back,
  -- and has moved on if no packet was begun before.
  pkt_round-Halts :
      (s : PeerConnHandler)
      → s.curr_buff_idx < total
      → Halts
          (λ _ t.
            (t.curr_buff_idx ≡ total)
            ⊎ ((t.current_pkt ≡ none)
                × (s.curr_buff_idx ≤ t.curr_buff_idx)
                × (s.current_pkt ≡ none → s.curr_buff_idx < t.curr_buff_idx)))
          (pkt_round env total s)
  unfolding pkt_round
  pkt_round-Halts s lt =
      within-Halts _ _ _ _ (rebuild env (context env total s))
        (rebuild-Halts env s.curr_buff_idx total lt (context env total s) refl
          (current-buff_total_len env total s small))
        (λ _ c d. elim d [
          | inl end' ↦ inl (collected-curr_buff_idx s c ∙ end')
          | inr (built, on, new) ↦ inr (
            ap (λ b. (if b then emptied s c else after env s c).current_pkt) built,
            subst (λ k. s.curr_buff_idx ≤ k) (sym (collected-curr_buff_idx s c)) on,
            λ none_yet.
                subst (λ k. s.curr_buff_idx < k) (sym (collected-curr_buff_idx s c))
                  (new (current-IsFresh env total s none_yet)),
          )
        ])
        (λ e c. tt)
    where
      emptied : PeerConnHandler → Context → PeerConnHandler
      emptied s c = record (after env s c) {
        completed_pkts = s.completed_pkts ++ c.packet ∷ [];
        current_pkt = none;
      }

  pkt_loop-Halts :
      (fuel : ℕ) (s : PeerConnHandler)
      → ((s.current_pkt ≡ none) × (total ≤ fuel + s.curr_buff_idx))
        ⊎ (total < fuel + s.curr_buff_idx)
      → Halts (λ _ _. Unit {0}) (pkt_loop env fuel total s)
  unfolding pkt_loop
  pkt_loop-Halts zero s enough =
      if-Halts _ (ltb s.curr_buff_idx total) _ _ (λ b. absurd (ground arith)) (λ _. tt)
  pkt_loop-Halts (suc fuel) s enough =
      if-Halts _ (ltb s.curr_buff_idx total) _ _
        (λ b.
          >>=-Halts _ _ (pkt_round env total) (λ _. pkt_loop env fuel total) s
            (pkt_round-Halts s (ltb→lt s.curr_buff_idx total b))
            (λ _ t d. elim d [
              | inl end' ↦
                  subst (Halts (λ _ _. Unit {0}))
                    (sym (pkt_loop_end env fuel total t (omega (arith, end')))) tt
              | inr (none_yet, on, new) ↦ pkt_loop-Halts fuel t (
                  inl (
                    none_yet,
                    elim enough [
                      | inl (fresh, few) ↦ omega (arith, new fresh)
                      | inr few ↦ omega arith
                    ],
                  ))
            ]))
        (λ _. tt)

  process-Halts : (s : PeerConnHandler) → Halts (λ _ _. Unit {0}) (process env total s)
  unfolding process
  process-Halts s =
      if-Halts _ (ltb s.curr_buff_idx total) _ _
        (λ b.
          >>=-Halts (λ _ _. Unit {0}) _ (pkt_loop env (total + 1) total) (λ _. clear_read total) s
            (pkt_loop-Halts (total + 1) s (inr (omega arith))) (λ _ t _. tt))
        (λ _. tt)

module _ (env : Platform) (s : PeerConnHandler) (rest : List RecvAnswer) (bytes : List ℕ) where
  -- Whatever bytes the next `recv` gives, at least one and not more than the buffer has room for, and
  -- whatever the connection holds, its current packet and its index included: `recv_pkt` returns, or it
  -- has undefined behaviour. It does not throw, and none of its loops runs on.
  pub recv_pkt-ends :
      s.sock_helper.is_sock_open ≡ true
      → s.sock_helper.os.recvs ≡ got bytes ∷ rest
      → 0 < length bytes
      → s.curr_buff_idx + length bytes ≤ s.buff_size
      → s.buff_size < 2 ^ 31
      → ((p : Option Packet) × (t : PeerConnHandler) × (recv_pkt env s ≡ ok p t))
        ⊎ (recv_pkt env s ≡ fault)
  unfolding recv_pkt try_recv receive_at
  recv_pkt-ends open' e pos_n fits small = reported (try_recv env s) (
      >>=-Halts (λ n _. n ≡ length bytes) _ receive_at _ s
        (within-Halts _ _ _ _ (receive s.curr_buff_idx (s.buff_size - s.curr_buff_idx) start)
          (receive-Halts s.curr_buff_idx (s.buff_size - s.curr_buff_idx) start rest bytes open' e
            pos_n (omega arith))
          (λ n t same. same) (λ x t. tt))
        (λ n t same.
          >>=-Halts (λ _ _. Unit {0}) _ (process env n) (λ _. return_last) t
            (process-Halts env n (omega (arith, same)) t) (λ _ u _. tt)))
    where
      start : Receiving
      start = record { socket = s.sock_helper; buffer = s.recv_buffer }

      reported :
          (o : Outcome PeerConnHandler (Option Packet))
          → Halts (λ _ _. Unit {0}) o
          → ((p : Option Packet) × (t : PeerConnHandler) × (caught o ≡ ok p t)) ⊎ (caught o ≡ fault)
      reported (ok p t) h = inl (p, t, refl)
      reported (throw x t) h = inl (none, t, refl)
      reported fault h = inr refl
      reported no_fuel h = absurd h
      reported exits h = absurd h

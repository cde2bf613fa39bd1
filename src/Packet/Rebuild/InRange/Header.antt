-- ===== src/Packet/Rebuild/InRange/Header.antt =====
-- `header_ready` leaves the index in range.
use p2purr.Base.{
  ℕ, ◌+◌, ◌≤◌, ◌≡◌, sym, subst, Bool, true, false, List, arith, ltb, if◌then◌else◌, pos, ltb_ℤ, ok,
  get_elem?, Leaves, >>=-Behaves, if-Behaves, within-Behaves, checked-Leaves, Halts-Leaves, Halts,
  Behaves-any,
}
use p2purr.Packet.{Platform, Context, set_build_pending, update_buff_idx}
use p2purr.Packet.Rebuild.{
  rounds, enters_header, header_start, read_header, header_result, header_ready,
}
use p2purr.Packet.Rebuild.Loops.{header_loop}
use p2purr.Packet.Rebuild.Halting.{HeaderRan, header_loop-Halts}
use p2purr.Packet.Rebuild.InRange.{
  IsInStep, IsInRange, StaysInStep, then-StaysInStep, update_buff_idx-StaysInStep,
}

module _ (buffer : List ℕ) (total : ℕ) where
  -- After the header loop, with its local index at `j`.
  record IsAhead (j : ℕ) (s : Context) : Type 0 where
    buffer_is : s.recv_buffer ≡ buffer
    next_is : s.buff_next ≡ j
    ahead : j ≤ total
    inside : s.buff_idx ≤ total
    total_is : s.buff_total_len ≡ pos total

  header_result-StaysInStep :
      (j : ℕ) (s : Context) → IsAhead j s → StaysInStep buffer total (header_result j s)
  unfolding header_result set_build_pending
  header_result-StaysInStep j s h =
      if-Behaves _ _ _
        (if ltb_ℤ (pos j) s.buff_total_len then ltb s.num_bytes_read s.full_hdr_len else true) _ _
        (λ _.
          then-StaysInStep buffer total update_buff_idx _ _
            (update_buff_idx-StaysInStep buffer total _ h.buffer_is
              (omega (arith, h.next_is, h.ahead)) h.total_is)
            (λ _ t g. record {
              buffer_is = g.buffer_is;
              next_is = g.next_is;
              inside = g.inside;
              total_is = g.total_is;
            }))
        (λ _. record {
          buffer_is = h.buffer_is;
          next_is = h.next_is;
          inside = h.ahead;
          total_is = h.total_is;
        })

  module _ (env : Platform) where
    read_header-IsAhead :
        (s : Context)
        → IsInStep buffer total s
        → Leaves (λ j t. IsAhead j t) (λ _ t. IsInRange buffer total t) (read_header env s)
    unfolding read_header
    read_header-IsAhead s h =
        within-Behaves _ (λ _ l. HeaderRan total (header_start env s) l) (λ _ _. Unit {0}) _ _ _ _
          (header_loop env s.recv_buffer s.buff_total_len (rounds s.buff_total_len)
            (header_start env s))
          (Halts-Leaves (λ _ l. HeaderRan total (header_start env s) l) (λ _ _. Unit {0})
            (header_loop env s.recv_buffer s.buff_total_len (rounds s.buff_total_len)
              (header_start env s))
            (subst
              (λ k.
                Halts (λ _ l. HeaderRan total (header_start env s) l)
                  (header_loop env s.recv_buffer k (rounds k) (header_start env s)))
              (sym h.total_is)
              (header_loop-Halts env s.recv_buffer total (total + 1) (header_start env s) h.inside
                (omega (arith, h.inside))))
            (Behaves-any _))
          (λ _ l r. record {
            buffer_is = h.buffer_is;
            next_is = omega (arith, r.in_step, h.next_is);
            ahead = r.within_buffer;
            inside = h.inside;
            total_is = h.total_is;
          })
          (λ _ _ _. record { buffer_is = h.buffer_is; inside = h.inside })

    pub header_ready-StaysInStep :
        (s : Context) → IsInStep buffer total s → StaysInStep buffer total (header_ready env s)
    unfolding header_ready
    header_ready-StaysInStep s h =
        checked-Leaves _ _ (get_elem? s.recv_buffer s.buff_next) _ s (λ first.
          >>=-Behaves _ (λ j t. IsAhead j t) _ (λ _ t. IsInRange buffer total t) _
            (if enters_header s first then read_header env else (λ t. ok t.buff_idx t))
            header_result s (entered (enters_header s first)) (λ _ _ q. q)
            (λ j t a. header_result-StaysInStep j t a))
      where
        entered :
            (b : Bool)
            → Leaves
                (λ j t. IsAhead j t)
                (λ _ t. IsInRange buffer total t)
                ((if b then read_header env else (λ t. ok t.buff_idx t)) s)
        entered true = read_header-IsAhead s h
        entered false = record {
          buffer_is = h.buffer_is;
          next_is = h.next_is;
          ahead = h.inside;
          inside = h.inside;
          total_is = h.total_is;
        }

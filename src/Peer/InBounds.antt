-- ===== src/Peer/InBounds.antt =====
-- A connection keeps its buffer and its index in bounds, whatever arrives and whatever is done with it.
use p2purr.Base.{
  ℕ, zero, suc, ◌+◌, ◌≤◌, ◌<◌, ◌≡◌, refl, ap, ◌∙◌, Bool, true, false, none, [], ◌∷◌, ◌++◌, arith,
  length, length-replicate, ltb, leb, ltb→lt, if◌then◌else◌, Outcome, Leaves, Ends, Ends-Leaves,
  >>=-Behaves, if-Behaves, within-Behaves,
}
use p2purr.Packet.{Platform, Context}
use p2purr.Packet.Rebuild.{rebuild}
use p2purr.Packet.Rebuild.InRange.{IsInRange}
use p2purr.Packet.Rebuild.InRange.Payload.{rebuild-StaysInRange}
use p2purr.Socket.{Receiving, receive}
use p2purr.Socket.Bounds.{NextFits, receive-StaysInside}
use p2purr.Peer.{
  PeerConnHandler, clear_buff, space_left, receive_at, pkt_loop, pkt_round, process, context, after,
  collected, clear_read, return_last, try_recv, recv_pkt,
}
use p2purr.Peer.Stream.{current-buff_total_len}

-- The buffer has the size that the constructor gives it, and the index is not behind its end.
pub record InBounds (s : PeerConnHandler) : Type 0 where
  pub size_is : s.buff_size ≡ 1500
  pub room : length s.recv_buffer ≡ s.buff_size
  pub inside : s.curr_buff_idx ≤ s.buff_size

abbrev pub StaysInBounds : {A : Type 0} → Outcome PeerConnHandler A → Type 0
StaysInBounds = Leaves (λ _ t. InBounds t) (λ _ t. InBounds t)

-- The next `recv` gives no more than it is asked for, the room behind the index.
abbrev pub NextGiven : PeerConnHandler → Type 0
NextGiven s = 0 < space_left s → NextFits (space_left s) s.sock_helper.os.recvs

-- `receive` writes inside of the buffer only.
pub receive_at-InBounds :
    (s : PeerConnHandler)
    → InBounds s
    → NextGiven s
    → Ends (λ n t. (n + s.curr_buff_idx ≤ 1500) × InBounds t) (λ _ t. InBounds t) (receive_at s)
unfolding receive_at
receive_at-InBounds s h next =
    within-Behaves _ _ _ _ _ _ _ (receive s.curr_buff_idx (space_left s) start)
      (receive-StaysInside s.curr_buff_idx (space_left s) start (omega (arith, h.inside, h.room))
        next)
      (λ n t (few, same). (
        omega (arith, h.size_is, h.inside),
        record { size_is = h.size_is; room = same ∙ h.room; inside = h.inside },
      ))
      (λ _ t same. record { size_is = h.size_is; room = same ∙ h.room; inside = h.inside })
  where
    start : Receiving
    start = record { socket = s.sock_helper; buffer = s.recv_buffer }

module _ (env : Platform) (total : ℕ) (few : total ≤ 1500) where
  after-InBounds :
      (s : PeerConnHandler) (c : Context)
      → InBounds s
      → IsInRange s.recv_buffer total c
      → InBounds (after env s c)
  after-InBounds s c h r = record {
    size_is = h.size_is;
    room = ap length r.buffer_is ∙ h.room;
    inside = omega (arith, r.inside, h.size_is);
  }

  collected-InBounds :
      (s : PeerConnHandler) (c : Context)
      → InBounds s
      → IsInRange s.recv_buffer total c
      → InBounds (collected env s c)
  collected-InBounds s c h r = by_done c.pkt_built
    where
      by_done :
          (b : Bool)
          → InBounds (
              if b
              then record (after env s c) {
                completed_pkts = s.completed_pkts ++ c.packet ∷ [];
                current_pkt = none;
              }
              else after env s c)
      by_done true =
          let a = after-InBounds s c h r in
          record { size_is = a.size_is; room = a.room; inside = a.inside }
      by_done false = after-InBounds s c h r

  pkt_round-InBounds :
      (s : PeerConnHandler)
      → InBounds s
      → s.curr_buff_idx < total
      → StaysInBounds (pkt_round env total s)
  unfolding pkt_round
  pkt_round-InBounds s h lt =
      within-Behaves _ _ _ _ _ _ _ (rebuild env (context env total s))
        (rebuild-StaysInRange s.recv_buffer total env (context env total s) refl (omega arith)
          (current-buff_total_len env total s (ground arith)))
        (λ _ c r. collected-InBounds s c h r) (λ _ c r. after-InBounds s c h r)

  pkt_loop-InBounds :
      (fuel : ℕ) (s : PeerConnHandler) → InBounds s → StaysInBounds (pkt_loop env fuel total s)
  unfolding pkt_loop
  pkt_loop-InBounds zero s h = if-Behaves _ _ _ (ltb s.curr_buff_idx total) _ _ (λ _. tt) (λ _. h)
  pkt_loop-InBounds (suc fuel) s h =
      if-Behaves _ _ _ (ltb s.curr_buff_idx total) _ _
        (λ b.
          >>=-Behaves _ (λ _ t. InBounds t) _ (λ _ t. InBounds t) _ (pkt_round env total)
            (λ _. pkt_loop env fuel total) s
            (pkt_round-InBounds s h (ltb→lt s.curr_buff_idx total b)) (λ _ _ q. q)
            (λ _ t g. pkt_loop-InBounds fuel t g))
        (λ _. h)

  clear_read-InBounds : (s : PeerConnHandler) → InBounds s → StaysInBounds (clear_read total s)
  clear_read-InBounds s h = cleared (leb total s.curr_buff_idx)
    where
      cleared : (b : Bool) → InBounds (if b then clear_buff s else s)
      cleared true = record {
        size_is = h.size_is;
        room = length-replicate s.buff_size 0;
        inside = omega arith;
      }
      cleared false = h

  process-InBounds : (s : PeerConnHandler) → InBounds s → StaysInBounds (process env total s)
  unfolding process
  process-InBounds s h =
      if-Behaves _ _ _ (ltb s.curr_buff_idx total) _ _
        (λ _.
          >>=-Behaves _ (λ _ t. InBounds t) _ (λ _ t. InBounds t) _ (pkt_loop env (total + 1) total)
            (λ _. clear_read total) s (pkt_loop-InBounds (total + 1) s h) (λ _ _ q. q)
            (λ _ t g. clear_read-InBounds t g))
        (λ _. h)

-- `recv_pkt` keeps them in bounds, also where `rebuild` throws, and does not throw itself.
pub recv_pkt-InBounds :
    (env : Platform) (s : PeerConnHandler)
    → InBounds s
    → NextGiven s
    → Leaves (λ _ t. InBounds t) (λ _ _. ⊥) (recv_pkt env s)
unfolding recv_pkt try_recv
recv_pkt-InBounds env s h next =
    within-Behaves _ (λ _ t. InBounds t) (λ _ t. InBounds t) _ _ _ _ (try_recv env s)
      (>>=-Behaves _ (λ n t. (n + s.curr_buff_idx ≤ 1500) × InBounds t) _ (λ _ t. InBounds t) _
        receive_at _ s (Ends-Leaves _ _ (receive_at s) (receive_at-InBounds s h next)) (λ _ _ q. q)
        (λ n t (few, g).
          >>=-Behaves _ (λ _ u. InBounds u) _ (λ _ u. InBounds u) _ (process env n)
            (λ _. return_last) t (process-InBounds env n (omega arith) t g) (λ _ _ q. q)
            (λ _ u k. k)))
      (λ _ t g. g) (λ _ t g. g)

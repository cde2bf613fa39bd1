-- ===== src/Peer/Shut.antt =====
-- `recv_pkt` on a connection that is closed, and runs of calls on one that stays open.
use p2purr.Base.{
  ℕ, zero, suc, ◌-◌, ◌≡◌, refl, ap, ◌∙◌, Bool, true, false, not, Option, ltb, Bool-cases, inl, inr,
  arith, if◌then◌else◌, Outcome, ok, ◌>>=◌, ◌>>◌, >>-ok, >>-returned,
}
use p2purr.Packet.{Packet, Platform}
use p2purr.Socket.{Receiving, receive, recv_loop}
use p2purr.Peer.{
  PeerConnHandler, conn_active, recv_pkt, try_recv, receive_at, received, process, pkt_loop,
  clear_read, return_last, last_pkt, caught,
}
use p2purr.Peer.Delivery.{recv_pkts}

module _ (env : Platform) where
  -- On a closed connection `recv_pkt` returns the last packet that is complete and changes nothing.
  pub recv_pkt_shut :
      (s : PeerConnHandler)
      → conn_active s ≡ false
      → recv_pkt env s ≡ ok (last_pkt s.completed_pkts) s
  unfolding recv_pkt try_recv receive_at process receive
  recv_pkt_shut s shut =
      ap (λ b. caught (then' (received s (if not b then ok 0 start else reads)))) shut
      ∙ ap (λ c. caught (over c)) nothing
    where
      start : Receiving
      start = record { socket = s.sock_helper; buffer = s.recv_buffer }

      reads : Outcome Receiving ℕ
      reads =
          recv_loop s.sock_helper.os.recvs s.curr_buff_idx (s.buff_size - s.curr_buff_idx) 0 start

      then' : Outcome PeerConnHandler ℕ → Outcome PeerConnHandler (Option Packet)
      then' o = ((λ _. o) >>= λ n. process env n >>= λ _. return_last) s

      over : Bool → Outcome PeerConnHandler (Option Packet)
      over c =
          ((λ t. if c then (pkt_loop env 1 0 >> clear_read 0) t else ok tt t) >>= λ _. return_last)
            s

      nothing : ltb s.curr_buff_idx 0 ≡ false
      nothing = ground arith

  recv_pkts_shut :
      (n : ℕ) (s : PeerConnHandler) → conn_active s ≡ false → recv_pkts env n s ≡ ok tt s
  unfolding recv_pkts
  recv_pkts_shut zero s shut = refl
  recv_pkts_shut (suc n) s shut =
      >>-ok (recv_pkt env) (recv_pkts env n) (recv_pkt_shut s shut) ∙ recv_pkts_shut n s shut

  -- Calls of `recv_pkt`, each of which returns and leaves the connection open.
  abbrev pub StaysOpen : ℕ → PeerConnHandler → PeerConnHandler → Type 0
  StaysOpen zero s t = s ≡ t
  StaysOpen (suc n) s t =
      (p : Option Packet) × (u : PeerConnHandler) × (recv_pkt env s ≡ ok p u)
      × (conn_active u ≡ true)
      × StaysOpen n u t

  -- Where the last of them leaves it open, so do all.
  pub recv_pkts-StaysOpen :
      (n : ℕ) (s t : PeerConnHandler)
      → recv_pkts env n s ≡ ok tt t
      → conn_active t ≡ true
      → StaysOpen n s t
  unfolding recv_pkts
  recv_pkts-StaysOpen zero s t e open' = cc e
  recv_pkts-StaysOpen (suc n) s t e open' =
      let (p, u, first', later) = >>-returned (recv_pkt env) (recv_pkts env n) s t tt e in
      elim (Bool-cases (conn_active u)) [
        | inl active ↦ (p, u, first', active, recv_pkts-StaysOpen n u t later open')
        | inr shut ↦ absurd (never u later shut)
      ]
    where
      never : (u : PeerConnHandler) → recv_pkts env n u ≡ ok tt t → conn_active u ≡ false → ⊥
      never u later shut =
          let same : u ≡ t = cc (recv_pkts_shut n u shut, later) in
          cc (ap conn_active same, shut, open')

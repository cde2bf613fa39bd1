-- ===== src/Peer/Stream/Loop.antt =====
-- The loop of `recv_pkt` on a buffer that ends within a packet, behind any number of others.
use p2purr.Base.{
  ℕ, zero, suc, ◌+◌, ◌-◌, ◌≤◌, ◌<◌, ◌≡◌, refl, sym, ap, subst, ◌∙◌, inl, inr, none, List, [], ◌∷◌,
  ◌++◌, append-nil, append_assoc, arith, length, length-append, get_elem?-append_left,
  get_elem?-append_right, Agree, ok, get_elem?, ◌^◌,
}
use p2purr.Packet.{Packet, Platform}
use p2purr.Packet.Wire.{Message, wire, length-wire}
use p2purr.Packet.Rebuild.Step.{file_after, IsRebuilt, rebuild_partial, rebuild_whole}
use p2purr.Peer.{PeerConnHandler, context, after, collected, pkt_round, pkt_loop}
use p2purr.Peer.Stream.{
  files_after, IsDeliverable, AllDeliverable, AllRebuilt, wires, Holds, IsBreak, first,
  Holds-length, current-Progress, current-buff_total_len, pkt_round-ok, pkt_loop_end,
  pkt_loop_round,
}

module _ (env : Platform) where
  -- The buffer's bytes in front, and behind, where it goes through a packet.
  first_part :
      (m : Message) (xs buffer : List ℕ) (i n c k : ℕ)
      → n + k ≤ length (wire m)
      → k ≤ c
      → Agree buffer i (wire m ++ xs) n c
      → Agree buffer i (wire m) n k
  first_part m xs buffer i n c k le kc agree t lt =
      agree t (omega arith) ∙ get_elem?-append_left (wire m) xs (n + t) (omega arith)

  second_part :
      (m : Message) (xs buffer : List ℕ) (i n c k : ℕ)
      → n + k ≡ length (wire m)
      → k ≤ c
      → Agree buffer i (wire m ++ xs) n c
      → Agree buffer (i + k) xs 0 (c - k)
  second_part m xs buffer i n c k e kc agree t lt =
      ap (get_elem? buffer) (omega arith)
      ∙ agree (k + t) (omega arith)
      ∙ ap (get_elem? (wire m ++ xs)) (omega arith)
      ∙ get_elem?-append_right (wire m) xs t
      ∙ ap (get_elem? xs) (omega arith)

  -- What the loop has done with a buffer that ends `n'` bytes into `m'`, behind `ms`.
  abbrev pub Delivers : List Message → Message → ℕ → ℕ → ℕ → PeerConnHandler → Type 0
  Delivers ms m' n' fuel total s =
      (t : PeerConnHandler) × (pkt_loop env fuel total s ≡ ok tt t)
      × ((ps : List Packet) × AllRebuilt ms ps × (t.completed_pkts ≡ s.completed_pkts ++ ps))
      × Holds m' n' t.current_pkt
      × (t.curr_buff_idx ≡ total)
      × (t.sock_helper ≡ s.sock_helper)
      × (t.buff_size ≡ s.buff_size)
      × (t.out_file ≡ files_after env ms s.out_file)

  -- The packet that the buffer ends in.
  broken_off :
      (m' : Message) (n n' fuel i c total : ℕ) (s : PeerConnHandler)
      → IsDeliverable m'
      → total < 2 ^ 31
      → 0 < c
      → i + c ≡ total
      → n + c ≡ n'
      → IsBreak m' n'
      → s.curr_buff_idx ≡ i
      → Holds m' n s.current_pkt
      → Agree s.recv_buffer i (wire m') n c
      → Delivers [] m' n' (suc fuel) total s
  broken_off m' n n' fuel i c total s d lt pos_c ec en (at, short) ei h agree =
      let (q, run, progress, iq, bq, oq, not_built) =
        rebuild_partial env m' d.message d.not_empty (context env total s) i total n
          (current-Progress env m' n total s s.current_pkt refl h) ei
          (current-buff_total_len env total s lt) c n' ec pos_c en
          (elim at [ inl z ↦ omega arith | inr three ↦ three ]) (omega (arith, length-wire m'))
          agree in
      let same : collected env s q ≡ after env s q = rw not_built in
      (
        after env s q,
        pkt_loop_round env fuel total s (after env s q) (omega arith)
              (pkt_round-ok env total s q run ∙ ap (ok tt) same)
            ∙ pkt_loop_end env fuel total (after env s q) (omega arith),
        ([], tt, sym (append-nil s.completed_pkts)),
        (omega arith, progress),
        iq,
        refl,
        refl,
        oq,
      )

  -- A packet that ends in the buffer.
  completes :
      (m : Message) (n k i i' total : ℕ) (s : PeerConnHandler)
      → IsDeliverable m
      → total < 2 ^ 31
      → i + k ≡ i'
      → i' ≤ total
      → n + k ≡ length (wire m)
      → s.curr_buff_idx ≡ i
      → Holds m n s.current_pkt
      → Agree s.recv_buffer i (wire m) n k
      → (t : PeerConnHandler) × (pkt_round env total s ≡ ok tt t)
        × ((p : Packet) × IsRebuilt m p × (t.completed_pkts ≡ s.completed_pkts ++ p ∷ []))
        × (t.current_pkt ≡ none)
        × (t.curr_buff_idx ≡ i')
        × (t.recv_buffer ≡ s.recv_buffer)
        × (t.sock_helper ≡ s.sock_helper)
        × (t.buff_size ≡ s.buff_size)
        × (t.out_file ≡ file_after env m s.out_file)
  completes m n k i i' total s d lt ei' le en ei h agree =
      let (q, run, rebuilt, iq, bq, oq) =
        rebuild_whole env m d.message d.not_empty (context env total s) i total n
          (current-Progress env m n total s s.current_pkt refl h) ei
          (current-buff_total_len env total s lt) k i' ei' le (omega (arith, length-wire m))
          agree in
      (
        record (after env s q) {
          completed_pkts = s.completed_pkts ++ q.packet ∷ [];
          current_pkt = none;
        },
        pkt_round-ok env total s q run ∙ ap (ok tt) (rw (rebuilt.done)),
        (q.packet, rebuilt, refl),
        refl,
        iq,
        bq,
        refl,
        refl,
        oq,
      )

  -- A buffer with the rest of the current packet, any number of whole packets, and the start of one.
  pub pkt_loop_lem :
      (ms : List Message) (m' : Message) (n n' fuel i c total : ℕ) (s : PeerConnHandler)
      → AllDeliverable ms
      → IsDeliverable m'
      → total < 2 ^ 31
      → total < i + fuel
      → i + c ≡ total
      → n + c ≡ length (wires ms) + n'
      → IsBreak m' n'
      → s.curr_buff_idx ≡ i
      → Holds (first ms m') n s.current_pkt
      → Agree s.recv_buffer i (wires ms ++ wire m') n c
      → Delivers ms m' n' fuel total s
  pkt_loop_lem ms m' n n' zero i c total s ds d lt enough ec en at ei h agree = absurd (omega arith)
  pkt_loop_lem [] m' n n' (suc fuel) i zero total s ds d lt enough ec en at ei h agree = (
    s,
    pkt_loop_end env (suc fuel) total s (omega arith),
    ([], tt, sym (append-nil s.completed_pkts)),
    subst (λ k. Holds m' k s.current_pkt) (omega arith) h,
    omega arith,
    refl,
    refl,
    refl,
  )
  pkt_loop_lem [] m' n n' (suc fuel) i (suc c) total s ds d lt enough ec en at ei h agree =
      broken_off m' n n' fuel i (suc c) total s d lt (omega arith) ec (omega arith) at ei h agree
  pkt_loop_lem (m ∷ ms) m' n n' (suc fuel) i c total s (dm, ds) d lt enough ec en at ei h agree =
      let k = length (wire m) - n in
      let inside : n < length (wire m) = Holds-length m n s.current_pkt h in
      let split : length (wires (m ∷ ms)) ≡ length (wire m) + length (wires ms) =
        length-append (wire m) (wires ms) in
      let whole : Agree s.recv_buffer i (wire m ++ (wires ms ++ wire m')) n c =
        subst (λ xs. Agree s.recv_buffer i xs n c) (append_assoc (wire m) (wires ms) (wire m'))
          agree in
      let (t, run, (p, rebuilt, pushed), cleared, it, bt, kt, zt, ot) =
        completes m n k i (i + k) total s dm lt refl (omega arith) (omega arith) ei h (
          first_part m (wires ms ++ wire m') s.recv_buffer i n c k (omega arith) (omega arith)
            whole) in
      let (u, rest, (ps, all, pushed'), holds, iu, ku, zu, ou) =
        pkt_loop_lem ms m' 0 n' fuel (i + k) (c - k) total t ds d lt (omega arith) (omega arith)
          (omega arith) at it (subst (Holds (first ms m') 0) (sym cleared) refl)
          (subst (λ b. Agree b (i + k) (wires ms ++ wire m') 0 (c - k)) (sym bt)
            (second_part m (wires ms ++ wire m') s.recv_buffer i n c k (omega arith) (omega arith)
              whole)) in
      (
        u,
        pkt_loop_round env fuel total s t (omega arith) run ∙ rest,
        (
          p ∷ ps,
          (rebuilt, all),
          pushed' ∙ ap (λ xs. xs ++ ps) pushed ∙ append_assoc s.completed_pkts (p ∷ []) ps,
        ),
        holds,
        iu,
        ku ∙ kt,
        zu ∙ zt,
        ou ∙ ap (files_after env ms) ot,
      )

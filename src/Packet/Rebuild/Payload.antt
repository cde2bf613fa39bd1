-- ===== src/Packet/Rebuild/Payload.antt =====
-- `rebuild` from the complete header on: the payload goes on, or is complete.
use p2purr.Base.{
  ℕ, ◌+◌, ◌≤◌, ◌<◌, ◌≡◌, refl, ◌∙◌, inl, inr, true, false, some, List, [], ◌∷◌, ◌++◌, arith, length,
  Agree, pos, ok, >>-ok, >>=-ok, eq_of_get_elem?, subst, get_elem?,
}
use p2purr.Packet.{Platform, Context, set_build_pending, update_buff_idx}
use p2purr.Packet.Build.{modify, set_pkt_len}
use p2purr.Packet.Index.{update_buff_idx_lem}
use p2purr.Packet.Wire.{Message, IsMessage, wire_header, wire}
use p2purr.Packet.Rebuild.{read_payload, finish, rebuild_payload}
use p2purr.Packet.Rebuild.Finish.{
  with_payload, read_payload_lem, written, complete_lem, finish_pending, finish_done,
}

-- The header of `m` is complete, and `off` bytes `p` of the payload are there.
pub record HasBody (m : Message) (i total off : ℕ) (p : List ℕ) (s : Context) : Type 0 where
  pub index_set : s.has_buff_idx ≡ true
  pub index_is : s.buff_idx ≡ i
  pub next_is : s.buff_next ≡ i
  pub total_is : s.buff_total_len ≡ pos total
  pub header_is : s.header ≡ some (wire_header m)
  pub full_is : s.full_hdr_len ≡ 12
  pub payload_len_is : s.payload_len ≡ length m.body
  pub read_is : s.num_bytes_read ≡ 12 + off
  pub payload_is : s.payload ≡ some p
  pub room : length p ≡ length m.body

module _ (env : Platform) (m : Message) (v : IsMessage m) (i total off : ℕ) (p : List ℕ)
    (s : Context) (b : HasBody m i total off p s) (old : Agree p 0 m.body 0 off) where
  -- With the packet's length.
  abbrev pub sized : Context
  sized = record s { packet = set_pkt_len s.packet }

  pub sized-pkt_len : sized.pkt_len ≡ pos (12 + length m.body)
  sized-pkt_len = ground (arith, v.fits)

  -- The state in which a packet waits for more of its payload.
  abbrev pub awaiting : ℕ → List ℕ → Context
  awaiting off' p' =
      let t = with_payload sized total off' p' in
      record t { packet = set_build_pending t.packet true }

  pub rebuild_payload_pending :
      (k off' : ℕ)
      → i + k ≡ total
      → off + k ≡ off'
      → off' < length m.body
      → Agree s.recv_buffer i m.body off k
      → (p' : List ℕ) × (rebuild_payload env s ≡ ok tt (awaiting off' p'))
        × (length p' ≡ length m.body)
        × Agree p' 0 m.body 0 off'
  unfolding rebuild_payload
  rebuild_payload_pending k off' ei eo lt more =
      let (p', run, lp, agree) =
        read_payload_lem sized m.body p total k i off total off' ei eo (omega arith) (omega arith)
          (inl refl) b.payload_is b.total_is sized-pkt_len b.full_is b.read_is b.index_is b.next_is
          b.room old more in
      let t = with_payload sized total off' p' in
      (
        p',
        >>-ok read_payload _ run
            ∙ >>=-ok (finish env) _ {s = t}
                (finish_pending env t (12 + length m.body) sized-pkt_len (omega arith))
            ∙ >>-ok update_buff_idx (modify (λ q. set_build_pending q true))
                (update_buff_idx_lem t total total b.index_set refl b.total_is (omega arith)),
        lp,
        agree,
      )

  -- The state of a packet that is complete.
  abbrev pub completed : ℕ → Context
  completed i' =
      let t = with_payload sized i' (length m.body) m.body in
      record t {
        packet =
            set_build_pending (record (t.packet) { built_pkt = some (wire m ++ 0 ∷ []) }) false;
        out_file = written env t m.body;
      }

  pub rebuild_payload_done :
      (k i' : ℕ)
      → i + k ≡ i'
      → i' ≤ total
      → off + k ≡ length m.body
      → Agree s.recv_buffer i m.body off k
      → rebuild_payload env s ≡ ok tt (completed i')
  unfolding rebuild_payload
  rebuild_payload_done k i' ei li eo more =
      let (p', run, lp, agree) =
        read_payload_lem sized m.body p total k i off i' (length m.body) ei eo li (omega arith)
          (inr refl) b.payload_is b.total_is sized-pkt_len b.full_is b.read_is b.index_is b.next_is
          b.room old more in
      let whole : p' ≡ m.body = eq_of_get_elem? p' m.body lp λ t lt.
        subst (λ j. get_elem? p' j ≡ get_elem? m.body j) (omega arith) (agree t (omega arith)) in
      let t = with_payload sized i' (length m.body) m.body in
      >>-ok read_payload _ (
        subst (λ x. read_payload sized ≡ ok tt (with_payload sized i' (length m.body) x)) whole run)
      ∙ >>=-ok (finish env) _ {s = t} (
          finish_done env t (12 + length m.body) _ sized-pkt_len refl (
            complete_lem env t (wire_header m) m.body refl b.payload_len_is b.header_is b.full_is
              sized-pkt_len v.fits))
      ∙ >>-ok update_buff_idx (modify (λ q. set_build_pending q false)) (
          update_buff_idx_lem
            (record t {
              packet = record (t.packet) { built_pkt = some (wire m ++ 0 ∷ []) };
              out_file = written env t m.body;
            })
            i' total b.index_set refl b.total_is li)

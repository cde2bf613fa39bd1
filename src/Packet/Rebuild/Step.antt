-- ===== src/Packet/Rebuild/Step.antt =====
-- One call of `rebuild`: the packet is complete, or has read on to the end of the buffer.
use p2purr.Base.{
  ℕ, ◌+◌, ◌-◌, ◌≤◌, ◌<◌, min, ◌≡◌, refl, sym, ap, subst, ◌∙◌, ◌⊎◌, inl, inr, Bool, true, false,
  none, some, List, [], ◌∷◌, ◌++◌, arith, length, get_elem?-append_left, Agree, Agree-shift, pos,
  ok, Option, if◌then◌else◌, ◌>>=◌, >>-ok, >>=-ok, Bool-cases, ltb, ltb→lt, ltb_false→le,
}
use p2purr.Packet.{Packet, Platform, Context, set_build_pending, update_local_buff_info}
use p2purr.Packet.Index.{update_local_buff_info_lem}
use p2purr.Packet.Wire.{Message, IsMessage, wire_header, wire, length-wire}
use p2purr.Packet.Rebuild.{header_ready, rebuild_payload, continue_rebuild, rebuild}
use p2purr.Packet.Rebuild.Ready.{ReadsAt, waiting, result_false}
use p2purr.Packet.Rebuild.Gate.{header_loads}
use p2purr.Packet.Rebuild.Parse.{parsed}
use p2purr.Packet.Rebuild.Payload.{
  HasBody, sized-pkt_len, awaiting, rebuild_payload_pending, completed, rebuild_payload_done,
}
use p2purr.Packet.Rebuild.Chunk.{
  is_file, Progress, Progress-same, preamble, Agree-body, header_before, gathered, gathered-HasBody,
  gathered-rebuild_header, Gathered, gather,
}

-- The packet is the message `m`, whole and as it was sent.
pub record IsRebuilt (m : Message) (p : Packet) : Type 0 where
  pub type_is : p.type ≡ m.type
  pub charset_is : p.charset ≡ m.charset
  pub encoding_is : p.encoding ≡ m.encoding
  pub encryption_is : p.encryption ≡ m.encryption
  pub compression_is : p.compression ≡ m.compression
  pub payload_is : p.payload ≡ some m.body
  pub bytes_are : p.built_pkt ≡ some (wire m ++ 0 ∷ [])
  pub length_is : p.pkt_len ≡ pos (length (wire m))
  pub done : p.pkt_built ≡ true

-- A packet that has parsed its header again still knows whether it carries a file.
still_attached :
    (b f : Bool) → (if b then true else f) ≡ b → (if b then true else (if b then true else f)) ≡ b
still_attached true f h = refl
still_attached false f h = h

-- The contents of "out.txt" after a message, and before it.
abbrev pub file_after : Platform → Message → Option (List ℕ) → Option (List ℕ)
file_after env m old = if is_file m then (if env.can_write then some m.body else old) else old

header-Agree :
    (m : Message) (h : List ℕ) (k : ℕ) → k ≤ 12 → h ≡ wire_header m → Agree h 0 (wire m) 0 k
header-Agree m h k le e =
    rw e λ t lt. sym (get_elem?-append_left (wire_header m) m.body (0 + t) (omega arith))

module _ (env : Platform) (m : Message) (v : IsMessage m) (ne : 0 < length m.body) (s : Context)
    (i total n : ℕ) (g : Progress m n s.packet) (ei : s.buff_idx ≡ i)
    (et : s.buff_total_len ≡ pos total) where
  -- After `update_local_buff_info`.
  abbrev at_index : Context
  at_index = record s { packet = record (s.packet) { buff_pos_start = pos i; buff_next = i } }

  at_index-ReadsAt : ReadsAt i total at_index
  at_index-ReadsAt = record {
    index_is = ei;
    next_is = refl;
    total_is = et;
    index_set = g.index_set;
  }

  at_index-Progress : Progress m n at_index.packet
  at_index-Progress =
      Progress-same m n
        (record {
          index_same = refl;
          attached_same = refl;
          read_same = refl;
          full_same = refl;
          length_same = refl;
          header_same = refl;
          payload_same = refl;
        })
        g

  rebuild-at_index :
      (ready : Bool) (t : Context)
      → header_ready env at_index ≡ ok ready t
      → rebuild env s ≡ continue_rebuild env ready t
  unfolding rebuild
  rebuild-at_index ready t run =
      >>-ok update_local_buff_info (header_ready env >>= continue_rebuild env)
        (update_local_buff_info_lem s i g.index_set ei)
      ∙ >>=-ok (header_ready env) (continue_rebuild env) run

  -- The packet past its header, when the payload loop starts.
  abbrev begun : Gathered env m v ne at_index i total at_index-ReadsAt n → Context
  begun q =
      parsed m (gathered env m v ne at_index i total at_index-ReadsAt (12 + q.off) (i + q.k) q.h)
        (i + q.k)

  begun-HasBody :
      (q : Gathered env m v ne at_index i total at_index-ReadsAt n)
      → HasBody m (i + q.k) total q.off q.d (begun q)
  begun-HasBody q =
      gathered-HasBody env m v ne at_index i total at_index-ReadsAt (12 + q.off) q.off (i + q.k) q.h
        q.d refl q.header_whole q.space q.size

  rebuild-begun :
      (q : Gathered env m v ne at_index i total at_index-ReadsAt n)
      → rebuild env s ≡ rebuild_payload env (begun q)
  rebuild-begun q =
      rebuild-at_index true _ q.ready
      ∙ gathered-rebuild_header env m v ne at_index i total at_index-ReadsAt (12 + q.off) (i + q.k)
          q.h (omega (arith, q.inside)) q.header_whole

  -- The bytes that the payload loop is to read.
  rest-Agree :
      (q : Gathered env m v ne at_index i total at_index-ReadsAt n) (c : ℕ)
      → q.k ≤ c
      → Agree s.recv_buffer i (wire m) n c
      → Agree s.recv_buffer (i + q.k) m.body q.off (c - q.k)
  rest-Agree q c le more = Agree-body m s.recv_buffer (i + q.k) q.off (c - q.k) (
      subst (λ j. Agree s.recv_buffer (i + q.k) (wire m) j (c - q.k)) q.counts
        (Agree-shift s.recv_buffer (wire m) i n q.k (c - q.k) (λ t lt. more t (omega arith))))

  -- What a call leaves when the buffer ends before the packet does.
  abbrev pub KeepsOn : ℕ → Type 0
  KeepsOn n' =
      (t : Context) × (rebuild env s ≡ ok tt t)
      × Progress m n' t.packet
      × (t.buff_idx ≡ total)
      × (t.recv_buffer ≡ s.recv_buffer)
      × (t.out_file ≡ s.out_file)
      × (t.pkt_built ≡ false)

  partial_payload :
      (q : Gathered env m v ne at_index i total at_index-ReadsAt n) (c n' : ℕ)
      → i + c ≡ total
      → n + c ≡ n'
      → 12 < n'
      → n' < 12 + length m.body
      → Agree s.recv_buffer i (wire m) n c
      → KeepsOn n'
  unfolding set_build_pending
  partial_payload q c n' ec en past short more =
      let (d, run, size, agree) =
        rebuild_payload_pending env m v (i + q.k) total q.off q.d (begun q) (begun-HasBody q)
          q.filled (c - q.k) (n' - 12) (omega (arith, q.inside)) (omega (arith, q.inside, q.counts))
          (omega arith) (rest-Agree q c (omega (arith, q.inside)) more) in
      (
        awaiting env m v (i + q.k) total q.off q.d (begun q) (begun-HasBody q) q.filled (n' - 12) d,
        rebuild-begun q ∙ run,
        record {
          index_set = g.index_set;
          short = short;
          attached = still_attached (is_file m) s.has_file_attachment g.attached;
          header_read = inr (
            q.h,
            record {
              three = omega arith;
              read_some = omega arith;
              length_known = refl;
              nine = refl;
              header_is = refl;
              header_length = ap length q.header_whole;
            },
            header-Agree m q.h (min n' 12) (omega arith) q.header_whole,
          );
          payload_read = inr (d, past, refl, size, agree);
        },
        refl,
        refl,
        refl,
        refl,
      )

  partial_header :
      (c n' : ℕ)
      → i + c ≡ total
      → 0 < c
      → n + c ≡ n'
      → 3 ≤ n'
      → n' ≤ 12
      → Agree s.recv_buffer i (wire m) n c
      → KeepsOn n'
  unfolding continue_rebuild set_build_pending
  partial_header c n' ec pos_c en three within more =
      let (h, run, lh, agree) =
        header_loads env (wire m) (preamble m) i total at_index at_index-ReadsAt c n total n' pos_c
          ec en three (omega arith) within (inl refl)
          (header_before (wire m) n (omega arith) at_index-Progress.header_read) more in
      (
        waiting i total at_index at_index-ReadsAt n' h,
        rebuild-at_index false _ (run ∙ result_false i total at_index at_index-ReadsAt n' h),
        record {
          index_set = g.index_set;
          short = omega (arith, ne);
          attached = g.attached;
          header_read = inr (
            h,
            record {
              three = three;
              read_some = refl;
              length_known = refl;
              nine = refl;
              header_is = refl;
              header_length = lh;
            },
            λ t lt. agree t (omega arith),
          );
          payload_read = inl (early g.payload_read, within);
        },
        refl,
        refl,
        refl,
        refl,
      )
    where
      early :
          ((s.payload ≡ none) × (n ≤ 12))
            ⊎ ((d : List ℕ) × (12 < n)
                × (s.payload ≡ some d)
                × (length d ≡ length m.body)
                × Agree d 0 m.body 0 (n - 12))
          → s.payload ≡ none
      early (inl (e, few)) = e
      early (inr (d, many, ed, size, agree)) = absurd (omega arith)

  -- A packet has read the first `n` bytes of a message whose payload is not empty, and the buffer goes
  -- on at the index with the next `c` bytes, at least one, and ends there, before the message does but
  -- behind its third byte. Then `rebuild` returns, the packet has read those bytes too and is not done,
  -- the index is at the end, and the buffer and the output file are as they were.
  pub rebuild_partial :
      (c n' : ℕ)
      → i + c ≡ total
      → 0 < c
      → n + c ≡ n'
      → 3 ≤ n'
      → n' < 12 + length m.body
      → Agree s.recv_buffer i (wire m) n c
      → KeepsOn n'
  rebuild_partial c n' ec pos_c en three short more = elim (Bool-cases (ltb 12 n')) [
    | inl past ↦
        partial_payload
          (gather env m v ne at_index i total at_index-ReadsAt n c at_index-Progress (omega arith)
            (omega (arith, ltb→lt 12 n' past)) pos_c more)
          c n' ec en (ltb→lt 12 n' past) short more
    | inr within ↦ partial_header c n' ec pos_c en three (ltb_false→le 12 n' within) more
  ]

  -- A packet has read the first `n` bytes of a message whose payload is not empty, and the buffer goes
  -- on at the index with all the rest of it. Then `rebuild` returns, the packet is done and is the
  -- message as it was sent, the index is behind it, the buffer is as it was, and the payload of a file
  -- has been written if the output file can be.
  pub rebuild_whole :
      (c i' : ℕ)
      → i + c ≡ i'
      → i' ≤ total
      → n + c ≡ 12 + length m.body
      → Agree s.recv_buffer i (wire m) n c
      → (t : Context) × (rebuild env s ≡ ok tt t)
        × IsRebuilt m t.packet
        × (t.buff_idx ≡ i')
        × (t.recv_buffer ≡ s.recv_buffer)
        × (t.out_file ≡ file_after env m s.out_file)
  unfolding set_build_pending
  rebuild_whole c i' ec le en more =
      let q =
        gather env m v ne at_index i total at_index-ReadsAt n c at_index-Progress (omega arith)
          (omega arith) (omega (arith, g.short)) more in
      (
        completed env m v (i + q.k) total q.off q.d (begun q) (begun-HasBody q) q.filled i',
        rebuild-begun q
            ∙ rebuild_payload_done env m v (i + q.k) total q.off q.d (begun q) (begun-HasBody q)
                q.filled (c - q.k) i' (omega (arith, q.counts, q.least)) le
                (omega (arith, q.counts, q.least))
                (rest-Agree q c (omega (arith, q.counts, q.least)) more),
        record {
          type_is = refl;
          charset_is = refl;
          encoding_is = refl;
          encryption_is = refl;
          compression_is = refl;
          payload_is = refl;
          bytes_are = refl;
          length_is =
              sized-pkt_len env m v (i + q.k) total q.off q.d (begun q) (begun-HasBody q) q.filled
              ∙ ap pos (omega (arith, length-wire m));
          done = refl;
        },
        refl,
        refl,
        ap (λ b. if b then (if env.can_write then some m.body else s.out_file) else s.out_file)
            g.attached,
      )

-- ===== src/Packet/Rebuild/InRange.antt =====
-- `rebuild` leaves the receive buffer alone and the index inside of it, whatever the bytes and the packet
-- are, also where it throws.
pub mod Header
pub mod Finish
pub mod Payload
use p2purr.Base.{
  ℕ, ◌+◌, ◌^◌, ◌-◌, ◌≤◌, ◌<◌, ◌≡◌, refl, sym, ap, subst, ◌∙◌, Bool, true, false, not, Option, none,
  some, List, arith, ltb, leb, ◌==◌, if◌then◌else◌, ℤ, pos, negsuc, ltb_ℤ, Outcome, ok, throw,
  fault, within, ◌>>=◌, packet_exception, get_elem?, drop, store, memcpy, read_n, Exception, Leaves,
  >>=-Behaves, if-Behaves, within-Behaves, checked-Leaves, Behaves-mono, Halts-Leaves, Halts,
}
use p2purr.Serializer.{deserialize_int16, deserialize_int32}
use p2purr.Packet.{
  Packet, Platform, Context, PacketM, type_value, generic_file, set_build_pending,
  update_local_buff_info, update_buff_idx,
}
use p2purr.Packet.Build.{modify, make_pkt, assemble, source, set_pkt_len}
use p2purr.Packet.Rebuild.{
  rounds, enters_header, header_start, header_end, read_header, header_result, header_ready,
  reject_zero, payload_or_new, parse_fields, rebuild_header, payload_start, payload_end,
  read_payload, output_to_file, write_attachment, complete, finish, rebuild_payload,
  continue_rebuild, rebuild,
}
use p2purr.Packet.Rebuild.Loops.{HeaderLoop, header_loop, PayloadLoop, payload_loop}
use p2purr.Packet.Rebuild.Halting.{HeaderRan, header_loop-Halts, PayloadRan, payload_loop-Halts}

module _ (buffer : List ℕ) (total : ℕ) where
  -- Between two steps: the read position is at the index, which is not behind what was received.
  pub record IsInStep (s : Context) : Type 0 where
    pub buffer_is : s.recv_buffer ≡ buffer
    pub next_is : s.buff_next ≡ s.buff_idx
    pub inside : s.buff_idx ≤ total
    pub total_is : s.buff_total_len ≡ pos total

  -- The part of it that is left when a step throws.
  pub record IsInRange (s : Context) : Type 0 where
    pub buffer_is : s.recv_buffer ≡ buffer
    pub inside : s.buff_idx ≤ total

  -- What holds of a step that goes on, and of one that throws.
  abbrev pub StaysInStep : {A : Type 0} → Outcome Context A → Type 0
  StaysInStep = Leaves (λ _ t. IsInStep t) (λ _ t. IsInRange t)

  pub in_range : (s : Context) → IsInStep s → IsInRange s
  in_range s h = record { buffer_is = h.buffer_is; inside = h.inside }

  -- The rule for a sequence.
  pub then-StaysInStep :
      {A B : Type 0} (m : PacketM A) (f : A → PacketM B) (s : Context)
      → StaysInStep (m s)
      → ((a : A) (t : Context) → IsInStep t → StaysInStep (f a t))
      → StaysInStep ((m >>= f) s)
  then-StaysInStep m f s h k =
      >>=-Behaves _ (λ _ t. IsInStep t) _ (λ _ t. IsInRange t) _ m f s h (λ _ _ q. q) k

  pub update_buff_idx-StaysInStep :
      (s : Context)
      → s.recv_buffer ≡ buffer
      → s.buff_next ≤ total
      → s.buff_total_len ≡ pos total
      → StaysInStep (update_buff_idx s)
  unfolding update_buff_idx
  update_buff_idx-StaysInStep s same le size =
      if-Behaves _ _ _ (not s.has_buff_idx) _ _ (λ _. tt)
        (λ _.
          if-Behaves _ _ _ (ltb_ℤ s.buff_total_len (pos s.buff_next)) _ _
            (λ _. record { buffer_is = same; inside = le })
            (λ _. record { buffer_is = same; next_is = refl; inside = le; total_is = size }))

  reject_zero-StaysInStep : (len : ℕ) (s : Context) → IsInStep s → StaysInStep (reject_zero len s)
  unfolding reject_zero
  reject_zero-StaysInStep len s h = if-Behaves _ _ _ (len == 0) _ _ (λ _. in_range s h) (λ _. h)

  parse_fields-StaysInStep :
      (hdr : List ℕ) (s : Context) → IsInStep s → StaysInStep (parse_fields hdr s)
  unfolding parse_fields
  parse_fields-StaysInStep hdr s h = checked-Leaves _ _ (get_elem? hdr 3) _ s (λ ct.
      checked-Leaves _ _ (get_elem? hdr 4) _ s (λ cs.
        checked-Leaves _ _ (get_elem? hdr 5) _ s (λ enc.
          checked-Leaves _ _ (get_elem? hdr 6) _ s (λ encr.
            checked-Leaves _ _ (get_elem? hdr 7) _ s (λ compr.
              checked-Leaves _ _ (deserialize_int32 (drop 8 hdr)) _ s (λ len.
                then-StaysInStep (reject_zero len) _ _
                  (reject_zero-StaysInStep len _ (record {
                    buffer_is = h.buffer_is;
                    next_is = h.next_is;
                    inside = h.inside;
                    total_is = h.total_is;
                  }))
                  (λ _ t g.
                    update_buff_idx-StaysInStep _ g.buffer_is (omega (arith, g.next_is, g.inside))
                      g.total_is)))))))

  pub rebuild_header-StaysInStep : (s : Context) → IsInStep s → StaysInStep (rebuild_header s)
  unfolding rebuild_header
  rebuild_header-StaysInStep s h = checked-Leaves _ _ s.header _ s (λ hdr.
      checked-Leaves _ _ (deserialize_int16 (drop 1 hdr)) _ s (λ len.
        then-StaysInStep (reject_zero len) _ _
          (reject_zero-StaysInStep len _ (record {
            buffer_is = h.buffer_is;
            next_is = h.next_is;
            inside = h.inside;
            total_is = h.total_is;
          }))
          (λ _ t g. parse_fields-StaysInStep hdr t g)))

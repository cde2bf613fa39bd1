-- ===== src/Packet/Rebuild/Empty.antt =====
-- `rebuild` on a packet with an empty payload, which the constructors build and the receiver refuses.
use p2purr.Base.{
  ℕ, ◌+◌, ◌<◌, ◌≡◌, refl, ap, ◌∙◌, inl, inr, true, some, List, arith, length, drop, Agree, pos,
  throw, packet_exception, ◌>>=◌, checked->>=, >>-ok, >>=-ok, >>-throw,
}
use p2purr.Serializer.{deserialize_int16, deserialize_int32}
use p2purr.Serializer.Bytes.{be_bytes}
use p2purr.Packet.{Platform, Context, update_local_buff_info}
use p2purr.Packet.Index.{update_local_buff_info_lem}
use p2purr.Packet.Wire.{Message, IsMessage, wire_header, wire}
use p2purr.Packet.Rebuild.{
  reject_zero, parse_fields, rebuild_header, header_ready, rebuild_payload, continue_rebuild,
  rebuild,
}
use p2purr.Packet.Rebuild.Ready.{IsFresh, ReadsAt, with_header, result_true}
use p2purr.Packet.Rebuild.Gate.{header_loads}
use p2purr.Packet.Rebuild.Parse.{
  wire_header_of_Agree, described, nine, payload_length, reject_zero_lem,
}
use p2purr.Packet.Rebuild.Chunk.{preamble}

module _ (env : Platform) (m : Message) (v : IsMessage m) (empty : length m.body ≡ 0) where
  reject_zero_throws : (s : Context) → reject_zero (length m.body) s ≡ throw packet_exception s
  unfolding reject_zero
  reject_zero_throws s = ground (arith, empty)

  parse_fields_throws :
      (s : Context) → parse_fields (wire_header m) s ≡ throw packet_exception (described m s)
  unfolding parse_fields
  parse_fields_throws s =
      checked->>= (deserialize_int32 (be_bytes 4 (length m.body))) _ {s = s}
        (payload_length (length m.body) (omega (arith, v.fits)))
      ∙ >>-throw (reject_zero (length m.body)) _ (reject_zero_throws (described m s))

  rebuild_header_throws :
      (s : Context)
      → s.header ≡ some (wire_header m)
      → rebuild_header s
        ≡ throw packet_exception
            (described m (record s { packet = record (s.packet) { hdr_len = 9 } }))
  unfolding rebuild_header
  rebuild_header_throws s eh =
      checked->>= s.header _ {s = s} eh
      ∙ checked->>= (deserialize_int16 (drop 1 (wire_header m))) _ {s = s}
          (nine (drop 3 (wire_header m)))
      ∙ >>-ok (reject_zero 9) _ (reject_zero_lem 9 known (omega arith))
      ∙ parse_fields_throws known
    where
      known : Context
      known = record s { packet = record (s.packet) { hdr_len = 9 } }

  module _ (s : Context) (i total : ℕ) (f : IsFresh s.packet) (eb : s.has_buff_idx ≡ true)
      (ei : s.buff_idx ≡ i) (et : s.buff_total_len ≡ pos total) where
    abbrev at_start : Context
    at_start = record s { packet = record (s.packet) { buff_pos_start = pos i; buff_next = i } }

    at_start-ReadsAt : ReadsAt i total at_start
    at_start-ReadsAt = record { index_is = ei; next_is = refl; total_is = et; index_set = eb }

    -- What the call leaves: the header is read, with its fields, and the index is behind it.
    abbrev pub refused : List ℕ → Context
    refused h = described m (record (with_header at_start 12 (i + 12) h) { buff_idx = i + 12 })

    -- A new packet in a buffer that goes on at the index with the header of a message with an empty
    -- payload, and with at least one byte more: `rebuild` throws, behind the header.
    pub rebuild_empty :
        i + 12 < total
        → Agree s.recv_buffer i (wire m) 0 12
        → (h : List ℕ) × (rebuild env s ≡ throw packet_exception (refused h))
    unfolding rebuild continue_rebuild
    rebuild_empty lt more =
        let (h, run, lh, agree) =
          header_loads env (wire m) (preamble m) i total at_start at_start-ReadsAt 12 0 (i + 12) 12
            (omega arith) refl refl (omega arith) (omega arith) (omega arith) (inr refl)
            (inl (
              record {
                read_none = f.read_none;
                length_unknown = f.length_unknown;
                no_length = f.no_length;
                no_header = f.no_header;
              },
              refl,
            ))
            more in
        (
          h,
          >>-ok update_local_buff_info (header_ready env >>= continue_rebuild env)
                (update_local_buff_info_lem s i eb ei)
              ∙ >>=-ok (header_ready env) (continue_rebuild env) (
                  run
                  ∙ result_true i total at_start at_start-ReadsAt 12 (i + 12) h (omega arith) lt)
              ∙ >>-throw rebuild_header (rebuild_payload env) (
                  rebuild_header_throws
                    (record (with_header at_start 12 (i + 12) h) { buff_idx = i + 12 })
                    (ap some (wire_header_of_Agree m h lh agree))),
        )

-- ===== src/Packet/Rebuild/Parse.antt =====
-- `rebuild_header` on a header of the wire format.
use p2purr.Base.{
  ℕ, ◌^◌, ◌≤◌, ◌<◌, ◌≡◌, refl, ap, ◌∙◌, subst, true, some, List, [], ◌∷◌, arith, length, get_elem?,
  get_elem?-append_left, eq_of_get_elem?, Agree, drop, ◌==◌, if◌then◌else◌, pos, ok, checked->>=,
  >>-ok,
}
use p2purr.Serializer.{deserialize_int16, deserialize_int32}
use p2purr.Serializer.Bytes.{be_bytes, deserialize_int32_lem}
use p2purr.Packet.{Context, type_value, generic_file}
use p2purr.Packet.Index.{update_buff_idx_lem}
use p2purr.Packet.Wire.{Message, IsMessage, wire_header, wire}
use p2purr.Packet.Rebuild.{reject_zero, payload_or_new, parse_fields, rebuild_header}

-- Twelve bytes that agree with the wire are the header.
pub wire_header_of_Agree :
    (m : Message) (h : List ℕ) → length h ≡ 12 → Agree h 0 (wire m) 0 12 → h ≡ wire_header m
wire_header_of_Agree m h e agree = eq_of_get_elem? h (wire_header m) e λ t lt.
    subst (λ i. get_elem? h i ≡ get_elem? (wire m) i) (omega arith) (agree t (omega arith))
    ∙ get_elem?-append_left (wire_header m) m.body t (omega arith)

pub nine : (xs : List ℕ) → deserialize_int16 (0 ∷ 9 ∷ xs) ≡ some 9
unfolding deserialize_int16
nine xs = refl

pub payload_length : (n : ℕ) → n < 2 ^ 32 → deserialize_int32 (be_bytes 4 n) ≡ some n
payload_length n lt = deserialize_int32_lem _ _ _ _ [] (omega arith) ∙ ap some (omega arith)

module _ (m : Message) (s : Context) where
  -- The packet with the header's fields.
  abbrev pub described : Context
  described = record s {
    packet = record (s.packet) {
      type = m.type;
      charset = m.charset;
      encoding = m.encoding;
      encryption = m.encryption;
      compression = m.compression;
      payload_len = length m.body;
    };
  }

  abbrev prepared : Context
  prepared = record described {
    packet = record (described.packet) {
      payload = payload_or_new s.payload (length m.body);
      has_file_attachment =
          if m.type == type_value generic_file then true else s.has_file_attachment;
    };
  }

  -- The same with room for the payload, at index `i` of the buffer.
  abbrev pub parsed : ℕ → Context
  parsed i = record prepared { buff_idx = i }

pub reject_zero_lem : (len : ℕ) (s : Context) → 0 < len → reject_zero len s ≡ ok tt s
unfolding reject_zero
reject_zero_lem len s h = ground arith

module _ (m : Message) (v : IsMessage m) (ne : 0 < length m.body) (s : Context) (i total : ℕ)
    (ei : s.has_buff_idx ≡ true) (en : s.buff_next ≡ i) (et : s.buff_total_len ≡ pos total)
    (le : i ≤ total) where
  parse_fields_lem : parse_fields (wire_header m) s ≡ ok tt (parsed m s i)
  unfolding parse_fields
  parse_fields_lem =
      checked->>= (deserialize_int32 (be_bytes 4 (length m.body))) _ {s = s}
        (payload_length (length m.body) (omega (arith, v.fits)))
      ∙ >>-ok (reject_zero (length m.body)) _ (reject_zero_lem (length m.body) (described m s) ne)
      ∙ update_buff_idx_lem (prepared m s) i total ei en et le

-- A header of the wire format is accepted, and gives the packet its fields.
pub rebuild_header_lem :
    (m : Message) (s : Context) (i total : ℕ)
    → IsMessage m
    → 0 < length m.body
    → s.header ≡ some (wire_header m)
    → s.has_buff_idx ≡ true
    → s.buff_next ≡ i
    → s.buff_total_len ≡ pos total
    → i ≤ total
    → rebuild_header s
      ≡ ok tt (parsed m (record s { packet = record (s.packet) { hdr_len = 9 } }) i)
unfolding rebuild_header
rebuild_header_lem m s i total v ne eh ei en et le =
    checked->>= s.header _ {s = s} eh
    ∙ checked->>= (deserialize_int16 (drop 1 (wire_header m))) _ {s = s}
        (nine (drop 3 (wire_header m)))
    ∙ >>-ok (reject_zero 9) _ (reject_zero_lem 9 known (omega arith))
    ∙ parse_fields_lem m v ne known i total ei en et le
  where
    known : Context
    known = record s { packet = record (s.packet) { hdr_len = 9 } }

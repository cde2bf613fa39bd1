-- ===== src/Tests/Packets.antt =====
-- The message `hello` sent and received, and numbers of 16, 32 and 64 bits.
use p2purr.Base.{ℕ, ◌≡◌, refl, false, none, some, [], ◌∷◌, ◌++◌, arith, pos, ok, inl, ◌%◌, ◌^◌}
use p2purr.Serializer.{
  serialize_int16, serialize_int32, serialize_int64, deserialize_int16, deserialize_int32,
  deserialize_int64,
}
use p2purr.Serializer.RoundTrip.{
  deserialize_int-serialize_int, sign_extend_32, serialize_int32-deserialize_int32,
}
use p2purr.Packet.{Context}
use p2purr.Packet.Build.{from_payload, from_file}
use p2purr.Packet.Wire.{wire}
use p2purr.Packet.Send.{sent, from_payload-wire, from_file-wire}
use p2purr.Packet.Rebuild.{for_rebuild, rebuild}
use p2purr.Packet.Rebuild.Chunk.{Progress}
use p2purr.Packet.Rebuild.Step.{IsRebuilt, rebuild_partial, rebuild_whole}
use p2purr.Tests.{platform, idle, hello, hello-IsMessage}

-- A new packet at the start of a buffer that holds `hello`, of which `total` bytes are there.
abbrev arriving : ℕ → Context
arriving total = record {
  packet = for_rebuild platform 0 (pos total);
  recv_buffer = wire hello;
  buff_idx = 0;
  out_file = none;
}

arriving-Progress : (total : ℕ) → Progress hello 0 (for_rebuild platform 0 (pos total))
unfolding for_rebuild
arriving-Progress total = record {
  index_set = refl;
  short = omega arith;
  attached = refl;
  header_read = inl (
    record { read_none = refl; length_unknown = refl; no_length = refl; no_header = refl },
    refl,
  );
  payload_read = inl (refl, omega arith);
}

rebuild_whole_example :
    (t : Context) × (rebuild platform (arriving 15) ≡ ok tt t)
    × IsRebuilt hello t.packet
    × (t.buff_idx ≡ 15)
    × (t.recv_buffer ≡ wire hello)
    × (t.out_file ≡ none)
unfolding for_rebuild
rebuild_whole_example =
    rebuild_whole platform hello hello-IsMessage (omega arith) (arriving 15) 0 15 0
      (arriving-Progress 15) refl refl 15 15 refl (omega arith) refl (λ t lt. refl)

-- After eight bytes.
rebuild_partial_example :
    (t : Context) × (rebuild platform (arriving 8) ≡ ok tt t)
    × Progress hello 8 t.packet
    × (t.buff_idx ≡ 8)
    × (t.recv_buffer ≡ wire hello)
    × (t.out_file ≡ none)
    × (t.packet.pkt_built ≡ false)
unfolding for_rebuild
rebuild_partial_example =
    rebuild_partial platform hello hello-IsMessage (omega arith) (arriving 8) 0 8 0
      (arriving-Progress 8) refl refl 8 8 refl (omega arith) refl (omega arith) (omega arith)
      (λ t lt. refl)

from_payload-wire_example :
    from_payload platform 1 2 2 3 0 (some (7 ∷ 255 ∷ 9 ∷ [])) (pos 3) idle
    ≡ ok
        (some (wire hello ++ 0 ∷ []))
        (record idle { packet = sent platform hello [] false (some (7 ∷ 255 ∷ 9 ∷ 0 ∷ [])) })
from_payload-wire_example = from_payload-wire platform hello idle hello-IsMessage

from_file-wire_example :
    (t : Context) × (from_file platform 1 2 2 3 0 (97 ∷ []) idle
      ≡ ok (some (wire hello ++ 0 ∷ [])) t)
    × (t.built_pkt ≡ some (wire hello ++ 0 ∷ []))
    × (t.pkt_len ≡ pos 15)
from_file-wire_example = from_file-wire platform hello 97 [] idle refl hello-IsMessage

deserialize_int-serialize_int_example :
    (deserialize_int16 (serialize_int16 70000 ++ 5 ∷ []) ≡ some (70000 % 2 ^ 16))
    × (deserialize_int32 (serialize_int32 70000 ++ 5 ∷ []) ≡ some (70000 % 2 ^ 32))
    × (deserialize_int64 (serialize_int64 70000 ++ 5 ∷ []) ≡ some 70000)
deserialize_int-serialize_int_example = deserialize_int-serialize_int 70000 (5 ∷ []) (omega arith)

serialize_int32-deserialize_int32_example :
    (num : ℕ) × (deserialize_int32 (255 ∷ 255 ∷ 255 ∷ 254 ∷ []) ≡ some num)
    × (serialize_int32 (sign_extend_32 num) ≡ 255 ∷ 255 ∷ 255 ∷ 254 ∷ [])
serialize_int32-deserialize_int32_example =
    serialize_int32-deserialize_int32 255 255 255 254
      (omega arith, (omega arith, (omega arith, (omega arith, tt))))

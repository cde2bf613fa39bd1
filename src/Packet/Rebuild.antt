-- ===== src/Packet/Rebuild.antt =====
-- src/packet.cpp: a packet is put together from the bytes of the receive buffer: `header_ready`,
-- `rebuild_header`, `rebuild`. A loop works on its local variables and on the fields that it changes,
-- which are written back when it ends or throws.
pub mod Loops
pub mod Header
pub mod Body
pub mod Ready
pub mod Gate
pub mod Parse
pub mod Finish
pub mod Payload
pub mod Chunk
pub mod Step
pub mod Malformed
pub mod Empty
pub mod Halting
pub mod Advance
pub mod Ends
pub mod InRange
use p2purr.Base.{
  ℕ, zero, suc, ◌+◌, ◌-◌, ◌^◌, Bool, true, false, ◌||◌, Option, none, some, List, [], ltb, leb,
  ◌==◌, if◌then◌else◌, ℤ, pos, negsuc, ltb_ℤ, Outcome, ok, throw, fault, within, ◌>>=◌, ◌>>◌,
  checked, packet_exception, get_elem?, drop, replicate, read_n,
}
use p2purr.Serializer.{deserialize_int16, deserialize_int32}
use p2purr.Packet.{
  Packet, Platform, Context, PacketM, type_value, generic_file, set_build_pending,
  update_local_buff_info, update_buff_idx,
}
use p2purr.Packet.Build.{modify, make_pkt, set_pkt_len}
use Loops.{HeaderLoop, HeaderPtr, in_tmp, in_header, header_loop, PayloadLoop, payload_loop}

-- Rounds that suffice for a loop that ends at `buff_total_len`.
abbrev pub rounds : ℤ → ℕ
rounds (pos n) = n + 1
rounds (negsuc n) = 1

-- The test before the loop.
abbrev pub enters_header : Context → ℕ → Bool
enters_header s first =
    (first == 0xFF)
    || (ltb s.num_bytes_read s.full_hdr_len
        || (if ltb_ℤ s.buff_total_len (pos 3) then ltb s.num_bytes_read 3 else false))

-- What follows the loop.
pub header_result : ℕ → PacketM Bool
header_result idx s =
    if (if ltb_ℤ (pos idx) s.buff_total_len then ltb s.num_bytes_read s.full_hdr_len else true)
    then (do
      modify (λ p. record p { full_hdr_len = if leb p.full_hdr_len 3 then 0 else p.full_hdr_len })
      update_buff_idx
      modify (λ p. set_build_pending p true)
      λ t. ok false t)
        s
    else ok (leb s.full_hdr_len s.num_bytes_read) (record s { buff_idx = idx })

module _ (env : Platform) where
  -- The loop of `header_ready` as `Context` sees it: the local `idx` is the result.
  abbrev pub header_start : Context → HeaderLoop
  header_start s = record {
    idx = s.buff_idx;
    num_bytes_read = s.num_bytes_read;
    full_hdr_len = if s.full_hdr_len == 0 then 3 else s.full_hdr_len;
    hdr_len = s.hdr_len;
    buff_next = s.buff_next;
    header = s.header;
    tmp_header = env.uninitialised 3;
    hdr_ptr = elim s.header [ none ↦ in_tmp 0 | some h ↦ in_header s.num_bytes_read ];
  }

  abbrev pub header_end : Context → HeaderLoop → Context
  header_end s l = record s {
    packet = record (s.packet) {
      num_bytes_read = l.num_bytes_read;
      full_hdr_len = l.full_hdr_len;
      hdr_len = l.hdr_len;
      buff_next = l.buff_next;
      header = l.header;
    };
  }

  pub read_header : PacketM ℕ
  read_header s =
      within (λ _ l. ok l.idx (header_end s l)) (λ e l. throw e (header_end s l))
        (header_loop env s.recv_buffer s.buff_total_len (rounds s.buff_total_len) (header_start s))

  -- `bool Packet::header_ready()`, after `update_local_buff_info`.
  unfoldable pub header_ready : PacketM Bool
  unfolding read_header header_result
  header_ready s =
      (do
        first ← checked (get_elem? s.recv_buffer s.buff_next)
        idx ← if enters_header s first then read_header else (λ t. ok t.buff_idx t)
        header_result idx)
        s

-- `if(len <= 0) throw PacketException(…)` of an unsigned length.
unfoldable pub reject_zero : ℕ → PacketM (Unit {0})
reject_zero len s = if len == 0 then throw packet_exception s else ok tt s

-- The payload's memory: what there is, or new memory set to zero.
abbrev pub payload_or_new : Option (List ℕ) → ℕ → Option (List ℕ)
payload_or_new none len = some (replicate len 0)
payload_or_new (some old) len = some old

-- `rebuild_header` on the bytes `hdr` of the header, once `hdr_len` is known.
unfoldable pub parse_fields : List ℕ → PacketM (Unit {0})
parse_fields hdr = do
  ct ← checked (get_elem? hdr 3)
  cs ← checked (get_elem? hdr 4)
  enc ← checked (get_elem? hdr 5)
  encr ← checked (get_elem? hdr 6)
  compr ← checked (get_elem? hdr 7)
  len ← checked (deserialize_int32 (drop 8 hdr))
  modify (λ p. record p {
    type = ct;
    charset = cs;
    encoding = enc;
    encryption = encr;
    compression = compr;
    payload_len = len;
  })
  reject_zero len
  modify (λ p. record p {
    payload = payload_or_new p.payload len;
    has_file_attachment = if ct == type_value generic_file then true else p.has_file_attachment;
  })
  update_buff_idx

-- `void Packet::rebuild_header()`
unfoldable pub rebuild_header : PacketM (Unit {0})
rebuild_header s =
    (do
      hdr ← checked s.header
      len ← checked (deserialize_int16 (drop 1 hdr))
      modify (λ p. record p { hdr_len = len })
      reject_zero len
      parse_fields hdr)
      s

-- The payload loop as `Context` sees it. `num_bytes_read` is at least `full_hdr_len` here.
abbrev pub payload_start : Context → List ℕ → PayloadLoop
payload_start s data' = record {
  idx = s.buff_idx;
  num_bytes_read = s.num_bytes_read;
  buff_next = s.buff_next;
  pld = s.num_bytes_read - s.full_hdr_len;
  payload = data';
}

abbrev pub payload_end : Context → PayloadLoop → Context
payload_end s l = record s {
  packet = record (s.packet) {
    num_bytes_read = l.num_bytes_read;
    buff_next = l.buff_next;
    payload = some l.payload;
  };
  buff_idx = l.idx;
}

pub read_payload : PacketM (Unit {0})
read_payload s = elim s.payload [
  | none ↦ fault
  | some data' ↦
      within (λ _ l. ok tt (payload_end s l)) (λ e l. throw e (payload_end s l))
        (payload_loop s.recv_buffer s.buff_total_len s.pkt_len (rounds s.buff_total_len)
          (payload_start s data'))
]

module _ (env : Platform) where
  -- `void Packet::output_to_file(uint8_t *data)`
  unfoldable pub output_to_file : List ℕ → PacketM (Unit {0})
  output_to_file data' s =
      if env.can_write
      then (do
        written ← checked (read_n s.payload_len data')
        λ t. ok tt (record t { out_file = some written }))
          s
      else ok tt s

  pub write_attachment : List ℕ → PacketM (Unit {0})
  write_attachment data' s = if s.has_file_attachment then output_to_file data' s else ok tt s

  -- All bytes are there.
  pub complete : PacketM (Unit {0})
  unfolding write_attachment
  complete s = (do data' ← checked s.payload; write_attachment data'; make_pkt env) s

  -- The test on `num_bytes_remaining`; the result is `build_pending`. The difference of a negative
  -- `pkt_len` must not leave the range of `int`.
  pub finish : PacketM Bool
  unfolding complete
  finish s = elim s.pkt_len [
    | pos n ↦
        if ltb s.num_bytes_read n
        then ok true s
        else if s.num_bytes_read == n
        then (do complete; λ t. ok false t) s
        else throw packet_exception s
    | negsuc n ↦ if leb (n + 1 + s.num_bytes_read) (2 ^ 31) then throw packet_exception s else fault
  ]

  -- The rest of `rebuild`, once the header is there.
  pub rebuild_payload : PacketM (Unit {0})
  unfolding read_payload finish
  rebuild_payload = do
    modify set_pkt_len
    read_payload
    pending ← finish
    update_buff_idx
    modify (λ p. set_build_pending p pending)

  -- What follows `header_ready`.
  pub continue_rebuild : Bool → PacketM (Unit {0})
  unfolding rebuild_payload
  continue_rebuild true = do rebuild_header; rebuild_payload
  continue_rebuild false = λ s. ok tt s

  -- `void Packet::rebuild()`
  unfoldable pub rebuild : PacketM (Unit {0})
  unfolding continue_rebuild
  rebuild = do update_local_buff_info; ready ← header_ready env; continue_rebuild ready

-- `Packet(shared_ptr<uint8_t> buffer, shared_ptr<int> curr_buff_idx, int buff_total_len)`, on an index
-- and in memory that is not initialised.
unfoldable pub for_rebuild : Platform → ℕ → ℤ → Packet
for_rebuild env idx buff_total_len = record (env.raw_packet) {
  attachment_file_path = [];
  has_buffer = true;
  has_buff_idx = true;
  buff_total_len = buff_total_len;
  buff_pos_start = pos idx;
  buff_next = idx;
  pkt_built = false;
  pkt_rebuilding = false;
  has_file_attachment = false;
  payload = none;
  built_pkt = none;
  header = none;
  pkt_len = pos 0;
  hdr_len = 0;
  full_hdr_len = 0;
  payload_len = 0;
  num_bytes_read = 0;
}

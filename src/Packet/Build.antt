-- ===== src/Packet/Build.antt =====
-- src/packet.cpp: the constructors of packets to send, and `build`.
use p2purr.Base.{
  ℕ, zero, suc, ◌+◌, ◌-◌, ◌%◌, ◌^◌, true, false, Option, none, some, List, [], ◌∷◌, ◌++◌, length,
  ltb, ◌==◌, if◌then◌else◌, ℤ, pos, negsuc, Outcome, ok, throw, fault, ◌>>=◌, ◌>>◌, checked,
  packet_exception, take, drop, memcpy, store, read_n,
}
use p2purr.Serializer.{serialize_int16, serialize_int32}
use p2purr.Packet.{Packet, Platform, Context, PacketM, to_int32, to_uint32, set_build_pending}

-- An assignment to fields of the packet.
abbrev pub modify : (Packet → Packet) → PacketM (Unit {0})
modify f s = ok tt (record s { packet = f s.packet })

-- The bytes that `memcpy(…, p, n)` reads. Nothing is read from a null pointer if `n` is 0.
abbrev pub source : Option (List ℕ) → ℕ → Option (List ℕ)
source none n = if n == 0 then some [] else none
source (some p) n = read_n n p

-- The loop over `in_file.read` in 1024-byte pieces. A short read sets eof.
unfoldable pub read_all : ℕ → List ℕ → List ℕ → List ℕ
read_all zero file buffer = buffer
read_all (suc fuel) file buffer =
    let rest = read_all fuel (drop 1024 file) (buffer ++ take 1024 file) in
    if ltb (length file) 1024 then buffer ++ take 1024 file else rest

-- The bytes that `build_header` stores, from the first to the last.
unfoldable pub header_bytes : Packet → List ℕ
header_bytes p =
    0xFF
    ∷ (serialize_int16 9
        ++ ((p.type % 256)
            ∷ (p.charset % 256)
            ∷ (p.encoding % 256)
            ∷ (p.encryption % 256)
            ∷ (p.compression % 256)
            ∷ serialize_int32 p.payload_len))

-- `this->pkt_len = this->full_hdr_len + this->payload_len`, in `unsigned int`.
abbrev pub set_pkt_len : Packet → Packet
set_pkt_len p = record p { pkt_len = to_int32 ((p.full_hdr_len + p.payload_len) % 2 ^ 32) }

module _ (env : Platform) where
  -- What `process_input_file` does with the contents of an open file.
  unfoldable pub attach : List ℕ → PacketM (Unit {0})
  attach contents = do
    let len = length contents % 2 ^ 32
    copy ← checked (memcpy (env.uninitialised len) 0 (take len contents))
    modify (λ p. record p { payload_len = len; payload = some copy })

  -- `void Packet::process_input_file()`. A file that does not open is reported and left out.
  unfoldable pub process_input_file : PacketM (Unit {0})
  unfolding read_all attach
  process_input_file s = elim (env.read_file s.attachment_file_path) [
    | none ↦ ok tt s
    | some file ↦ attach (read_all (length file + 1) file []) s
  ]

  -- `void Packet::build_header()`
  unfoldable pub build_header : PacketM (Unit {0})
  unfolding header_bytes
  build_header s =
      (do
        h ← checked (memcpy (env.uninitialised 12) 0 (header_bytes s.packet))
        modify (λ p. record p { full_hdr_len = 12; hdr_len = 9; header = some h }))
        s

  -- `make_pkt` at a `pkt_len` of `n`.
  unfoldable pub assemble : ℕ → Context → Outcome Context (Unit {0})
  assemble n s =
      (do
        cleared ← checked (store (env.uninitialised (n + 1)) n 0)
        h ← checked (source s.header s.full_hdr_len)
        with_header ← checked (memcpy cleared 0 h)
        body ← checked (source s.payload s.payload_len)
        whole ← checked (memcpy with_header s.full_hdr_len body)
        modify (λ p. record p { built_pkt = some whole }))
        s

  -- `void Packet::make_pkt()`. `pkt_len + 1` must not overflow, and `malloc` of a negative size fails.
  unfoldable pub make_pkt : PacketM (Unit {0})
  unfolding assemble
  make_pkt s = elim s.pkt_len [
    | pos n ↦ if ltb n (2 ^ 31 - 1) then assemble n s else fault
    | negsuc n ↦ fault
  ]

  build_attachment : PacketM (Unit {0})
  build_attachment s = if s.has_file_attachment then process_input_file s else ok tt s

  build_anew : PacketM (Unit {0})
  unfolding build_attachment
  build_anew = do
    modify (λ p. set_build_pending p true)
    build_attachment
    build_header
    modify set_pkt_len
    make_pkt
    modify (λ p. set_build_pending p false)

  -- `uint8_t* Packet::build()`
  unfoldable pub build : PacketM (Option (List ℕ))
  unfolding build_anew
  build s = elim s.built_pkt [
    | some b ↦ ok (some b) s
    | none ↦ (do build_anew; λ t. ok t.built_pkt t) s
  ]

  module _ (ct cs enc compr encr : ℕ) where
    -- The fields that both constructors set first, in memory that is not initialised.
    abbrev pub described : Packet
    described = record (env.raw_packet) {
      type = ct;
      charset = cs;
      encoding = enc;
      encryption = encr;
      compression = compr;
      attachment_file_path = [];
      has_buffer = false;
      has_buff_idx = false;
    }

    -- `Packet(uint8_t *payload, int payload_len, …)`
    unfoldable pub from_payload : Option (List ℕ) → ℤ → PacketM (Option (List ℕ))
    from_payload none payload_len s = throw packet_exception s
    from_payload (some data') payload_len s =
        (do
          let len = to_uint32 payload_len
          ended ← checked (store (env.uninitialised ((len + 1) % 2 ^ 32)) len 0)
          read ← checked (read_n len data')
          copy ← checked (memcpy ended 0 read)
          modify (λ _. record described {
            payload_len = len;
            payload = some copy;
            built_pkt = none;
            header = none;
            has_file_attachment = false;
            keepalive = true;
          })
          build)
          s

    -- `Packet(string attachment_file_path, …)`
    unfoldable pub from_file : List ℕ → PacketM (Option (List ℕ))
    from_file path = do
      modify (λ _. record described {
        payload_len = 0;
        payload = none;
        built_pkt = none;
        header = none;
        attachment_file_path = path;
        has_file_attachment = elim path [ [] ↦ false | c ∷ cs ↦ true ];
        keepalive = true;
      })
      build

-- ===== src/Packet/Send.antt =====
-- The constructors of packets to send, against the wire format.
use p2purr.Base.{
  ℕ, zero, suc, ◌+◌, ◌^◌, ◌<◌, ◌≡◌, refl, sym, ap, ◌∙◌, Bool, true, false, Option, none, some, List,
  [], ◌∷◌, ◌++◌, append_assoc, append-nil, arith, length, inl, inr, Bool-cases, ltb, ltb→lt,
  ltb_false→le, take, drop, take_all, length-drop, take-append-drop, memcpy, read_n, memcpy_lem,
  read_n_lem, pos, ok, ◌>>◌,
}
use p2purr.Serializer.{serialize_int16}
use p2purr.Serializer.Bytes.{serialize_int32_lem}
use p2purr.Packet.{Packet, Platform, Context, set_build_pending}
use p2purr.Packet.Build.{
  modify, source, header_bytes, build_header, make_pkt, set_pkt_len, build, from_payload, from_file,
  described, process_input_file, read_all, attach,
}
use p2purr.Packet.Wire.{Message, IsMessage, wire_header, wire, length-wire}
use p2purr.Packet.Assemble.{room, length-room, store_end, source_all, make_pkt_lem}

-- The message that a packet is to carry.
abbrev pub message_of : Packet → List ℕ → Message
message_of p body = record {
  type = p.type;
  charset = p.charset;
  encoding = p.encoding;
  encryption = p.encryption;
  compression = p.compression;
  body = body;
}

nine : serialize_int16 9 ≡ 0 ∷ 9 ∷ []
unfolding serialize_int16
nine = refl

header_bytes-wire_header :
    (p : Packet) (body : List ℕ)
    → IsMessage (message_of p body)
    → p.payload_len ≡ length body
    → header_bytes p ≡ wire_header (message_of p body)
unfolding header_bytes
header_bytes-wire_header p body v e =
    ground (arith, nine, serialize_int32_lem p.payload_len (omega arith))

module _ (env : Platform) where
  copy_whole : (n : ℕ) (xs : List ℕ) → n ≡ length xs → memcpy (env.uninitialised n) 0 xs ≡ some xs
  copy_whole n xs e =
      ap (λ old. memcpy old 0 xs) (sym (append-nil (env.uninitialised n)))
      ∙ memcpy_lem [] (env.uninitialised n) [] xs 0 refl (env.length-uninitialised n ∙ e)
      ∙ ap some (append-nil xs)

  -- What `build` makes of a packet that has its payload.
  abbrev pub built : Packet → List ℕ → Packet
  built p body =
      set_build_pending
        (record p {
          full_hdr_len = 12;
          hdr_len = 9;
          header = some (wire_header (message_of p body));
          pkt_len = pos (12 + length body);
          built_pkt = some (wire (message_of p body) ++ 0 ∷ []);
        })
        false

  build_rest :
      (s : Context) (body : List ℕ)
      → IsMessage (message_of s.packet body)
      → s.payload_len ≡ length body
      → source s.payload s.payload_len ≡ some body
      → (do
        build_header env
        modify set_pkt_len
        make_pkt env
        modify (λ p. set_build_pending p false))
          s
        ≡ ok tt (record s { packet = built s.packet body })
  unfolding build_header
  build_rest s body v e eb = ground (arith, stored, made)
    where
      h : List ℕ
      h = wire_header (message_of s.packet body)

      stored : memcpy (env.uninitialised 12) 0 (header_bytes s.packet) ≡ some h
      stored = rw (header_bytes-wire_header s.packet body v e) (copy_whole 12 h refl)

      headed : Context
      headed = record s {
        packet =
            set_pkt_len (record (s.packet) { full_hdr_len = 12; hdr_len = 9; header = some h });
      }

      made :
          make_pkt env headed
          ≡ ok tt (record headed {
            packet = record (headed.packet) { built_pkt = some (h ++ (body ++ 0 ∷ [])) };
          })
      made =
          make_pkt_lem env (12 + length body) headed h body refl refl eb (ground arith)
            (omega arith) v.fits

  -- The packet that a constructor leaves, on the memory that it found.
  abbrev pub sent : Message → List ℕ → Bool → Option (List ℕ) → Packet
  sent m path attached payload =
      built
        (set_build_pending
          (record (described env m.type m.charset m.encoding m.compression m.encryption) {
            payload_len = length m.body;
            payload = payload;
            built_pkt = none;
            header = none;
            attachment_file_path = path;
            has_file_attachment = attached;
            keepalive = true;
          })
          true)
        m.body

  -- Given the fields and the payload of a message that fits, the constructor leaves a packet that is
  -- done and holds the message's wire format, with a zero behind it.
  pub from_payload-wire :
      (m : Message) (s : Context)
      → IsMessage m
      → from_payload env m.type m.charset m.encoding m.compression m.encryption
          (some m.body)
          (pos (length m.body))
          s
        ≡ ok
            (some (wire m ++ 0 ∷ []))
            (record s { packet = sent m [] false (some (m.body ++ 0 ∷ [])) })
  unfolding from_payload build set_build_pending
  from_payload-wire m s v = ground (
    arith,
    store_end env (length m.body),
    read,
    copied,
    build_rest (record s { packet = filled }) m.body v refl
        (read_n_lem (length m.body) m.body (0 ∷ []) refl),
  )
    where
      filled : Packet
      filled =
          set_build_pending
            (record (described env m.type m.charset m.encoding m.compression m.encryption) {
              payload_len = length m.body;
              payload = some (m.body ++ 0 ∷ []);
              built_pkt = none;
              header = none;
              has_file_attachment = false;
              keepalive = true;
            })
            true

      read : read_n (length m.body) m.body ≡ some m.body
      read = source_all env m.body

      copied : memcpy (room env (length m.body) ++ 0 ∷ []) 0 m.body ≡ some (m.body ++ 0 ∷ [])
      copied =
          memcpy_lem [] (room env (length m.body)) (0 ∷ []) m.body 0 refl
            (length-room env (length m.body))

  -- What is read of a file; nothing of one that does not open.
  abbrev pub contents_of : Option (List ℕ) → List ℕ
  contents_of none = []
  contents_of (some c) = c

  -- Given rounds for every 1024 bytes, the loop reads the whole file.
  read_all_lem :
      (fuel : ℕ) (file buffer : List ℕ)
      → length file < fuel
      → read_all fuel file buffer ≡ buffer ++ file
  unfolding read_all
  read_all_lem zero file buffer h = absurd (omega arith)
  read_all_lem (suc fuel) file buffer h = elim (Bool-cases (ltb (length file) 1024)) [
    | inl short ↦
        rw short
          (ap (◌++◌ buffer) (take_all 1024 file (omega (arith, ltb→lt (length file) 1024 short))))
    | inr long ↦ rw long (
        read_all_lem fuel (drop 1024 file) (buffer ++ take 1024 file)
          (omega (arith, ltb_false→le (length file) 1024 long, length-drop 1024 file))
        ∙ append_assoc buffer (take 1024 file) (drop 1024 file)
        ∙ ap (◌++◌ buffer) (take-append-drop 1024 file))
  ]

  process_input_file_lem :
      (s : Context) (r : Option (List ℕ))
      → env.read_file s.attachment_file_path ≡ r
      → length (contents_of r) < 2 ^ 32
      → s.payload_len ≡ 0
      → s.payload ≡ none
      → process_input_file env s
        ≡ ok tt (record s {
          packet = record (s.packet) { payload_len = length (contents_of r); payload = r };
        })
  unfolding process_input_file attach
  process_input_file_lem s none e lt el ep = ground arith
  process_input_file_lem s (some c) e lt el ep = ground (
    arith,
    read_all_lem (length c + 1) c [] (omega arith),
    take_all (length c) c (omega arith),
    copy_whole (length c) c refl,
  )

  source-contents_of :
      (r : Option (List ℕ)) → source r (length (contents_of r)) ≡ some (contents_of r)
  source-contents_of none = refl
  source-contents_of (some c) = source_all env c

  attached_packet : Message → List ℕ → Option (List ℕ) → Packet
  attached_packet m path payload =
      set_build_pending
        (record (described env m.type m.charset m.encoding m.compression m.encryption) {
          payload_len = length m.body;
          payload = payload;
          built_pkt = none;
          header = none;
          attachment_file_path = path;
          has_file_attachment = true;
          keepalive = true;
        })
        true

  -- Given the fields of a message that fits and a path that is not empty, where the file holds the
  -- message's payload, or does not open and the payload is empty, the constructor leaves a packet that
  -- holds the message's wire format, with a zero behind it, and its length.
  pub from_file-wire :
      (m : Message) (name : ℕ) (path : List ℕ) (s : Context)
      → m.body ≡ contents_of (env.read_file (name ∷ path))
      → IsMessage m
      → (t : Context) × (from_file env m.type m.charset m.encoding m.compression m.encryption
            (name ∷ path)
            s
          ≡ ok (some (wire m ++ 0 ∷ [])) t)
        × (t.built_pkt ≡ some (wire m ++ 0 ∷ []))
        × (t.pkt_len ≡ pos (length (wire m)))
  unfolding from_file build set_build_pending attached_packet
  from_file-wire m name path s e v = (
    record s { packet = built (attached_packet m (name ∷ path) found) m.body },
    ground (arith, opened, finished),
    refl,
    ap pos (omega (arith, length-wire m)),
  )
    where
      found : Option (List ℕ)
      found = env.read_file (name ∷ path)

      begun : Context
      begun = record s {
        packet = record (attached_packet m (name ∷ path) none) { payload_len = 0 };
      }

      opened :
          process_input_file env begun
          ≡ ok tt (record s { packet = attached_packet m (name ∷ path) found })
      opened =
          rw e
            (process_input_file_lem begun found refl (omega (arith, v.fits, ap length e)) refl refl)

      finished :
          (do
            build_header env
            modify set_pkt_len
            make_pkt env
            modify (λ p. set_build_pending p false))
            (record s { packet = attached_packet m (name ∷ path) found })
          ≡ ok tt (record s { packet = built (attached_packet m (name ∷ path) found) m.body })
      finished =
          build_rest (record s { packet = attached_packet m (name ∷ path) found }) m.body v refl
            (rw e (source-contents_of found))

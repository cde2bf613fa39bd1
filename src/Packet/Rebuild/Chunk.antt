-- ===== src/Packet/Rebuild/Chunk.antt =====
-- `rebuild` on a buffer that holds the next bytes of a packet in the wire format.
use p2purr.Base.{
  ℕ, ◌+◌, ◌-◌, ◌≤◌, ◌<◌, min, ◌≡◌, refl, ap, ap₂, subst, ◌∙◌, ◌⊎◌, inl, inr, Bool, true, ◌==◌,
  if◌then◌else◌, none, some, List, arith, length, replicate, length-replicate, get_elem?,
  get_elem?-some, get_elem?-append_right, Agree, Agree-head, ok, >>-ok, Bool-cases, ltb, ltb→lt,
  ltb_false→le,
}
use p2purr.Packet.{Packet, Platform, Context, type_value, generic_file}
use p2purr.Packet.Wire.{Message, IsMessage, wire_header, wire, length-wire}
use p2purr.Packet.Rebuild.{
  header_ready, rebuild_header, payload_or_new, rebuild_payload, continue_rebuild,
}
use p2purr.Packet.Rebuild.Header.{HasPreamble}
use p2purr.Packet.Rebuild.Ready.{with_header, IsFresh, HasHeader, ReadsAt, result_true}
use p2purr.Packet.Rebuild.Gate.{header_loads, ready_over}
use p2purr.Packet.Rebuild.Parse.{wire_header_of_Agree, parsed, rebuild_header_lem}
use p2purr.Packet.Rebuild.Payload.{HasBody}

-- The message carries a file.
abbrev pub is_file : Message → Bool
is_file m = m.type == type_value generic_file

-- Of the bytes of `m` the packet `p` has read the first `n`.
pub record Progress (m : Message) (n : ℕ) (p : Packet) : Type 0 where
  pub index_set : p.has_buff_idx ≡ true
  pub short : n < 12 + length m.body
  pub attached : (if is_file m then true else p.has_file_attachment) ≡ is_file m
  pub header_read :
      (IsFresh p × (n ≡ 0)) ⊎ ((h : List ℕ) × HasHeader n h p × Agree h 0 (wire m) 0 (min n 12))
  pub payload_read :
      ((p.payload ≡ none) × (n ≤ 12))
      ⊎ ((d : List ℕ) × (12 < n)
          × (p.payload ≡ some d)
          × (length d ≡ length m.body)
          × Agree d 0 m.body 0 (n - 12))

-- The part of a packet that `Progress` speaks of.
pub record SameProgress (p q : Packet) : Type 0 where
  pub index_same : q.has_buff_idx ≡ p.has_buff_idx
  pub attached_same : q.has_file_attachment ≡ p.has_file_attachment
  pub read_same : q.num_bytes_read ≡ p.num_bytes_read
  pub full_same : q.full_hdr_len ≡ p.full_hdr_len
  pub length_same : q.hdr_len ≡ p.hdr_len
  pub header_same : q.header ≡ p.header
  pub payload_same : q.payload ≡ p.payload

pub Progress-same :
    (m : Message) (n : ℕ) {p q : Packet} → SameProgress p q → Progress m n p → Progress m n q
Progress-same m n {p} {q} e g = record {
  index_set = e.index_same ∙ g.index_set;
  short = g.short;
  attached = ap (λ b. if is_file m then true else b) e.attached_same ∙ g.attached;
  header_read = elim g.header_read [
    | inl (f, z) ↦ inl (
      record {
        read_none = e.read_same ∙ f.read_none;
        length_unknown = e.full_same ∙ f.length_unknown;
        no_length = e.length_same ∙ f.no_length;
        no_header = e.header_same ∙ f.no_header;
      },
      z,
    )
    | inr (h, f, agree) ↦ inr (
      h,
      record {
        three = f.three;
        read_some = e.read_same ∙ f.read_some;
        length_known = e.full_same ∙ f.length_known;
        nine = e.length_same ∙ f.nine;
        header_is = e.header_same ∙ f.header_is;
        header_length = f.header_length;
      },
      agree,
    )
  ];
  payload_read = elim g.payload_read [
    | inl (none_yet, few) ↦ inl (e.payload_same ∙ none_yet, few)
    | inr (d, many, ed, size, agree) ↦ inr (d, many, e.payload_same ∙ ed, size, agree)
  ];
}

pub preamble : (m : Message) → HasPreamble (wire m)
preamble m = (refl, refl, refl, omega (arith, length-wire m))

-- Behind the header the wire is the payload.
pub Agree-body :
    (m : Message) (xs : List ℕ) (i off k : ℕ)
    → Agree xs i (wire m) (12 + off) k
    → Agree xs i m.body off k
Agree-body m xs i off k agree t lt =
    agree t lt
    ∙ ap (get_elem? (wire m)) (omega arith)
    ∙ get_elem?-append_right (wire_header m) m.body (off + t)

-- The payload's memory once the header is parsed, with `off` bytes read.
room_for :
    (m : Message) (n off : ℕ) (p : Packet)
    → n ≤ 12 + off
    → 12 + off ≤ n ⊎ (off ≡ 0)
    → ((p.payload ≡ none) × (n ≤ 12))
      ⊎ ((d : List ℕ) × (12 < n)
          × (p.payload ≡ some d)
          × (length d ≡ length m.body)
          × Agree d 0 m.body 0 (n - 12))
    → (d : List ℕ) × (payload_or_new p.payload (length m.body) ≡ some d)
      × (length d ≡ length m.body)
      × Agree d 0 m.body 0 off
room_for m n off p le ge (inl (e, few)) = (
  replicate (length m.body) 0,
  rw e,
  length-replicate (length m.body) 0,
  λ t lt. absurd (omega arith),
)
room_for m n off p le ge (inr (d, many, e, lend, agree)) =
    (d, rw e, lend, subst (Agree d 0 m.body 0) (omega arith) agree)

-- Before the end of the header, `min n 12` is `n`.
pub header_before :
    (w : List ℕ) {p : Packet} (n : ℕ)
    → n < 12
    → (IsFresh p × (n ≡ 0)) ⊎ ((h : List ℕ) × HasHeader n h p × Agree h 0 w 0 (min n 12))
    → (IsFresh p × (n ≡ 0)) ⊎ ((h : List ℕ) × HasHeader n h p × Agree h 0 w 0 n)
header_before w n lt (inl fresh) = inl fresh
header_before w n lt (inr (h, f, agree)) = inr (h, f, subst (Agree h 0 w 0) (omega arith) agree)

-- From the end of the header on, it is whole.
header_after :
    (m : Message) {p : Packet} (n : ℕ)
    → 12 ≤ n
    → (IsFresh p × (n ≡ 0)) ⊎ ((h : List ℕ) × HasHeader n h p × Agree h 0 (wire m) 0 (min n 12))
    → (h : List ℕ) × HasHeader n h p × (h ≡ wire_header m)
header_after m n ge (inl (f, e)) = absurd (omega arith)
header_after m n ge (inr (h, f, agree)) = (
  h,
  f,
  wire_header_of_Agree m h f.header_length (subst (Agree h 0 (wire m) 0) (omega arith) agree),
)

module _ (env : Platform) (m : Message) (v : IsMessage m) (ne : 0 < length m.body) (s : Context)
    (i total : ℕ) (r : ReadsAt i total s) where
  -- The packet with the header complete.
  abbrev pub gathered : ℕ → ℕ → List ℕ → Context
  gathered n i' h = record (with_header s n i' h) { buff_idx = i' }

  -- It goes on to the payload.
  pub gathered-HasBody :
      (n off i' : ℕ) (h d : List ℕ)
      → n ≡ 12 + off
      → h ≡ wire_header m
      → payload_or_new s.payload (length m.body) ≡ some d
      → length d ≡ length m.body
      → HasBody m i' total off d (parsed m (gathered n i' h) i')
  gathered-HasBody n off i' h d en eh ed ld = record {
    index_set = r.index_set;
    index_is = refl;
    next_is = refl;
    total_is = r.total_is;
    header_is = ap some eh;
    full_is = refl;
    payload_len_is = refl;
    read_is = en;
    payload_is = ed;
    room = ld;
  }

  pub gathered-rebuild_header :
      (n i' : ℕ) (h : List ℕ)
      → i' ≤ total
      → h ≡ wire_header m
      → continue_rebuild env true (gathered n i' h)
        ≡ rebuild_payload env (parsed m (gathered n i' h) i')
  unfolding continue_rebuild
  gathered-rebuild_header n i' h le eh = >>-ok rebuild_header (rebuild_payload env) (
      rebuild_header_lem m (gathered n i' h) i' total v ne (ap some eh) r.index_set refl r.total_is
        le)

  -- Where the buffer goes on behind the header, the header is complete after `k` bytes.
  pub record Gathered (n : ℕ) : Type 0 where
    pub k : ℕ
    pub off : ℕ
    pub h : List ℕ
    pub d : List ℕ
    pub counts : n + k ≡ 12 + off
    pub least : (off ≡ 0) ⊎ (k ≡ 0)
    pub inside : i + k < total
    pub ready : header_ready env s ≡ ok true (gathered (12 + off) (i + k) h)
    pub header_whole : h ≡ wire_header m
    pub space : payload_or_new s.payload (length m.body) ≡ some d
    pub size : length d ≡ length m.body
    pub filled : Agree d 0 m.body 0 off

  pub gather :
      (n c : ℕ)
      → Progress m n s.packet
      → i + c ≤ total
      → 12 < n + c
      → 0 < c
      → Agree s.recv_buffer i (wire m) n c
      → Gathered n
  gather n c g le past pos_c more = elim (Bool-cases (ltb n 12)) [
    | inl early ↦
        let lt : n < 12 = ltb→lt n 12 early in
        let (h, run, lh, agree) =
          header_loads env (wire m) (preamble m) i total s r (12 - n) n (i + (12 - n)) 12
            (omega arith) refl (omega arith) (omega arith) (omega arith) (omega arith) (inr refl)
            (header_before (wire m) n lt g.header_read) (λ t l. more t (omega arith)) in
        let (d, space, size, filled) =
          room_for m n 0 s.packet (omega arith) (inr refl) g.payload_read in
        record {
          k = 12 - n;
          off = 0;
          h = h;
          d = d;
          counts = omega arith;
          least = inl refl;
          inside = omega arith;
          ready = run ∙ result_true i total s r 12 (i + (12 - n)) h (omega arith) (omega arith);
          header_whole = wire_header_of_Agree m h lh agree;
          space = space;
          size = size;
          filled = filled;
        }
    | inr late ↦
        let ge : 12 ≤ n = ltb_false→le n 12 late in
        let (h, f, eh) = header_after m n ge g.header_read in
        let (b, eb) = get_elem?-some (wire m) n (omega (arith, g.short, length-wire m)) in
        let (d, space, size, filled) =
          room_for m n (n - 12) s.packet (omega arith) (inl (omega arith)) g.payload_read in
        record {
          k = 0;
          off = n - 12;
          h = h;
          d = d;
          counts = omega arith;
          least = inr refl;
          inside = omega arith;
          ready =
              ready_over env (wire m) (preamble m) i total s r n b h f ge (omega arith)
                (Agree-head s.recv_buffer (wire m) i n c pos_c more ∙ eb)
              ∙ ap₂ (λ x y. ok true (gathered x y h)) (omega arith) (omega arith);
          header_whole = eh;
          space = space;
          size = size;
          filled = filled;
        }
  ]

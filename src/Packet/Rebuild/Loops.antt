-- ===== src/Packet/Rebuild/Loops.antt =====
-- src/packet.cpp: the two loops that copy bytes out of the receive buffer.
use p2purr.Base.{
  ℕ, zero, suc, ◌+◌, ◌*◌, ◌%◌, ◌^◌, bit_or, true, false, Option, none, some, List, ltb, ◌==◌,
  if◌then◌else◌, ℤ, pos, ltb_ℤ, Outcome, ok, throw, fault, no_fuel, exits, M, ◌>>=◌,
  packet_exception, get_elem?, get_or, memcpy, store, checked,
}
use p2purr.Packet.{Platform}

-- `hdr_ptr`: a place in the local array `tmp_header` or in the allocated header.
pub data HeaderPtr : Type 0 where
  in_tmp in_header : ℕ → HeaderPtr

-- The variables of the loop of `header_ready`.
pub record HeaderLoop : Type 0 where
  pub idx : ℕ
  pub num_bytes_read : ℕ
  pub full_hdr_len : ℕ
  pub hdr_len : ℕ
  pub buff_next : ℕ
  pub header : Option (List ℕ)
  pub tmp_header : List ℕ
  pub hdr_ptr : HeaderPtr

-- `*hdr_ptr++ = *(this->buff_next)++`, at the byte read.
unfoldable pub put_byte : HeaderLoop → ℕ → Option HeaderLoop
put_byte l b = elim l.hdr_ptr [
  | in_tmp o ↦ elim (store l.tmp_header o b) [
    | none ↦ none
    | some tmp ↦
        some (record l { tmp_header = tmp; hdr_ptr = in_tmp (o + 1); buff_next = l.buff_next + 1 })
  ]
  | in_header o ↦ elim l.header [
    | none ↦ none
    | some h ↦ elim (store h o b) [
      | none ↦ none
      | some h' ↦
          some (record l {
            header = some h';
            hdr_ptr = in_header (o + 1);
            buff_next = l.buff_next + 1;
          })
    ]
  ]
]

-- The header's length from its second and third byte, in a `uint16_t`.
abbrev pub length_field : List ℕ → ℕ
length_field tmp = bit_or (get_or tmp 1 0 * 256) (get_or tmp 2 0) % 2 ^ 16

abbrev pub next_byte : HeaderLoop → HeaderLoop
next_byte l = record l { num_bytes_read = l.num_bytes_read + 1; idx = l.idx + 1 }

module _ (env : Platform) where
  -- The branch `num_bytes_read == 2`.
  unfoldable pub learn_length : HeaderLoop → Outcome HeaderLoop (Unit {0})
  learn_length l =
      let len = length_field l.tmp_header in
      let full = (len + 3) % 2 ^ 16 in
      if full == 0
      then throw packet_exception (record l { hdr_len = len; full_hdr_len = full })
      else elim (memcpy (env.uninitialised full) 0 l.tmp_header) [
        | none ↦ fault
        | some h ↦ ok tt (record l {
          hdr_len = len;
          full_hdr_len = full;
          header = some h;
          hdr_ptr = in_header (l.num_bytes_read + 1);
        })
      ]

  -- One round.
  unfoldable pub header_round : ℕ → M HeaderLoop (Unit {0})
  unfolding put_byte learn_length
  header_round b l = elim (put_byte l b) [
    | none ↦ fault
    | some l' ↦ elim (if l'.num_bytes_read == 2 then learn_length l' else ok tt l') [
      | ok _ m ↦ ok tt (next_byte m)
      | throw e m ↦ throw e m
      | fault ↦ fault
      | no_fuel ↦ no_fuel
      | exits ↦ exits
    ]
  ]

  -- `while(idx < buff_total_len && num_bytes_read < full_hdr_len)`
  unfoldable pub header_loop : List ℕ → ℤ → ℕ → M HeaderLoop (Unit {0})
  unfolding header_round
  header_loop buffer total zero l = no_fuel
  header_loop buffer total (suc fuel) l =
      elim (if ltb_ℤ (pos l.idx) total then ltb l.num_bytes_read l.full_hdr_len else false) [
        | true ↦
            (checked (get_elem? buffer l.buff_next) >>= λ b.
            header_round b >>= λ _. header_loop buffer total fuel)
              l
        | false ↦ ok tt l
      ]

-- The variables of the loop of `rebuild`; `pld` is an offset into `payload`.
pub record PayloadLoop : Type 0 where
  pub idx : ℕ
  pub num_bytes_read : ℕ
  pub buff_next : ℕ
  pub pld : ℕ
  pub payload : List ℕ

-- `*pld++ = *(this->buff_next)++; num_bytes_read++; idx++;` at the byte read.
unfoldable pub payload_round : ℕ → M PayloadLoop (Unit {0})
payload_round b l = elim (store l.payload l.pld b) [
  | none ↦ fault
  | some p ↦ ok tt (record {
    idx = l.idx + 1;
    num_bytes_read = l.num_bytes_read + 1;
    buff_next = l.buff_next + 1;
    pld = l.pld + 1;
    payload = p;
  })
]

-- `while((idx < buff_total_len) && (num_bytes_read < pkt_len))`
unfoldable pub payload_loop : List ℕ → ℤ → ℤ → ℕ → M PayloadLoop (Unit {0})
unfolding payload_round
payload_loop buffer total pkt_len zero l = no_fuel
payload_loop buffer total pkt_len (suc fuel) l =
    elim (if ltb_ℤ (pos l.idx) total then ltb_ℤ (pos l.num_bytes_read) pkt_len else false) [
      | true ↦
          (checked (get_elem? buffer l.buff_next) >>= λ b.
          payload_round b >>= λ _. payload_loop buffer total pkt_len fuel)
            l
      | false ↦ ok tt l
    ]

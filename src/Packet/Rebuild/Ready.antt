-- ===== src/Packet/Rebuild/Ready.antt =====
-- `header_ready` on a buffer that holds the next bytes of a packet in the wire format.
use p2purr.Base.{
  ℕ, ◌+◌, ◌-◌, ◌≤◌, ◌<◌, ◌≡◌, refl, ◌∙◌, ◌⊎◌, true, false, none, some, List, [], ◌∷◌, arith, length,
  Agree, Agree-head, Agree-shift, pos, ok,
}
use p2purr.Packet.{Packet, Platform, Context, set_build_pending}
use p2purr.Packet.Index.{update_buff_idx_lem}
use p2purr.Packet.Rebuild.{read_header, header_result}
use p2purr.Packet.Rebuild.Header.{
  known, known_loop, HasPreamble, allocated, length-allocated, allocated-Agree, first_rounds,
  over_loop,
}

-- `s` with `n` bytes read and the header `h`, whose length is known, at index `i` of the buffer.
abbrev pub with_header : Context → ℕ → ℕ → List ℕ → Context
with_header s n i h = record s {
  packet = record (s.packet) {
    num_bytes_read = n;
    full_hdr_len = 12;
    hdr_len = 9;
    buff_next = i;
    header = some h;
  };
}

-- Nothing of the packet has been read.
pub record IsFresh (p : Packet) : Type 0 where
  pub read_none : p.num_bytes_read ≡ 0
  pub length_unknown : p.full_hdr_len ≡ 0
  pub no_length : p.hdr_len ≡ 0
  pub no_header : p.header ≡ none

-- `n` bytes of the packet have been read, three at least; `h` holds those of the header.
pub record HasHeader (n : ℕ) (h : List ℕ) (p : Packet) : Type 0 where
  pub three : 3 ≤ n
  pub read_some : p.num_bytes_read ≡ n
  pub length_known : p.full_hdr_len ≡ 12
  pub nine : p.hdr_len ≡ 9
  pub header_is : p.header ≡ some h
  pub header_length : length h ≡ 12

-- The packet reads the buffer at `i`, of which `total` bytes count.
pub record ReadsAt (i total : ℕ) (s : Context) : Type 0 where
  pub index_is : s.buff_idx ≡ i
  pub next_is : s.buff_next ≡ i
  pub total_is : s.buff_total_len ≡ pos total
  pub index_set : s.has_buff_idx ≡ true

pub tmp_cases : (l : List ℕ) → length l ≡ 3 → (a : ℕ) × (b : ℕ) × (c : ℕ) × (l ≡ a ∷ b ∷ c ∷ [])
tmp_cases [] e = absurd (omega arith)
tmp_cases (a ∷ []) e = absurd (omega arith)
tmp_cases (a ∷ b ∷ []) e = absurd (omega arith)
tmp_cases (a ∷ b ∷ c ∷ []) e = (a, b, c, refl)
tmp_cases (a ∷ b ∷ c ∷ d ∷ l) e = absurd (omega arith)

module _ (env : Platform) (w : List ℕ) (p : HasPreamble w) (i total : ℕ) (s : Context)
    (r : ReadsAt i total s) where
  -- From the first byte on.
  pub read_header_fresh :
      (k i' n' : ℕ)
      → i + (3 + k) ≡ i'
      → 3 + k ≡ n'
      → i' ≤ total
      → n' ≤ 12
      → (i' ≡ total) ⊎ (n' ≡ 12)
      → IsFresh s.packet
      → Agree s.recv_buffer i w 0 (3 + k)
      → (h : List ℕ) × (read_header env s ≡ ok i' (with_header s n' i' h))
        × (length h ≡ 12)
        × Agree h 0 w 0 n'
  unfolding read_header
  read_header_fresh k i' n' ei en li ln stop f more =
      let (a, b, c, tmp) = tmp_cases (env.uninitialised 3) (env.length-uninitialised 3) in
      let (h, run, lh, agree) =
        known_loop env s.recv_buffer total w k (total - 2) (i + 3) 3 i' n' (allocated env)
          (0xFF ∷ 0 ∷ 9 ∷ []) (omega arith) (omega arith) en li ln stop (omega arith) p.3
          (length-allocated env) (allocated-Agree env w p)
          (Agree-shift s.recv_buffer w i 0 3 k more) in
      (
        h,
        ground (
          arith,
          tmp,
          first_rounds env s.recv_buffer total i (total - 2) a b c (omega arith)
              (Agree-head s.recv_buffer w i 0 (3 + k) (omega arith) more ∙ p.0)
              (more 1 (omega arith) ∙ p.1) (more 2 (omega arith) ∙ p.2),
          run,
        ),
        lh,
        agree,
      )

  -- From the fourth byte on.
  pub read_header_known :
      (k n i' n' : ℕ) (h : List ℕ)
      → i + k ≡ i'
      → n + k ≡ n'
      → i' ≤ total
      → n' ≤ 12
      → (i' ≡ total) ⊎ (n' ≡ 12)
      → HasHeader n h s.packet
      → Agree h 0 w 0 n
      → Agree s.recv_buffer i w n k
      → (h' : List ℕ) × (read_header env s ≡ ok i' (with_header s n' i' h'))
        × (length h' ≡ 12)
        × Agree h' 0 w 0 n'
  unfolding read_header
  read_header_known k n i' n' h ei en li ln stop f old more =
      let (h', run, lh, agree) =
        known_loop env s.recv_buffer total w k (total + 1) i n i' n' h (env.uninitialised 3)
          (omega arith) ei en li ln stop f.three p.3 f.header_length old more in
      (h', ground (arith, run), lh, agree)

  -- Past the header the loop does nothing.
  pub read_header_over :
      (n : ℕ) (h : List ℕ)
      → HasHeader n h s.packet
      → 12 ≤ n
      → read_header env s ≡ ok i (with_header s n i h)
  unfolding read_header
  read_header_over n h f ge = ground (
    arith,
    over_loop env s.recv_buffer total (total + 1) (known i n h (env.uninitialised 3)) (omega arith)
        ge,
  )

module _ (i total : ℕ) (s : Context) (r : ReadsAt i total s) where
  pub result_true :
      (n i' : ℕ) (h : List ℕ)
      → 12 ≤ n
      → i' < total
      → header_result i' (with_header s n i' h)
        ≡ ok true (record (with_header s n i' h) { buff_idx = i' })
  unfolding header_result
  result_true n i' h ge lt = ground arith

  -- The state in which a packet waits for the next buffer.
  abbrev pub waiting : ℕ → List ℕ → Context
  waiting n h = record s {
    packet = set_build_pending (with_header s n total h).packet true;
    buff_idx = total;
  }

  pub result_false :
      (n : ℕ) (h : List ℕ) → header_result total (with_header s n total h) ≡ ok false (waiting n h)
  unfolding header_result
  result_false n h = ground (
    arith,
    update_buff_idx_lem (with_header s n total h) total total r.index_set refl r.total_is
        (omega arith),
  )

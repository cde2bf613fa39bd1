-- ===== src/Packet/Rebuild/Header.antt =====
-- The loop of `header_ready` on the bytes of a header of the wire format.
use p2purr.Base.{
  ℕ, zero, suc, ◌+◌, ◌≤◌, ◌<◌, ◌≡◌, refl, sym, ap, subst, ◌∙◌, ◌⊎◌, none, some, List, [], ◌∷◌,
  arith, length, take, drop, length-take, length-drop, take-append-drop, set, length-set, get_elem?,
  get_elem?-some, Agree, Agree-head, Agree-shift, Agree-set, memcpy, memcpy_lem, store, store_lem,
  pos, ok,
}
use p2purr.Packet.{Platform}
use p2purr.Packet.Rebuild.Loops.{
  HeaderLoop, in_tmp, in_header, header_loop, header_round, put_byte, learn_length,
}

-- The loop behind the third byte of a header of 12.
abbrev pub known : ℕ → ℕ → List ℕ → List ℕ → HeaderLoop
known idx read h tmp = record {
  idx = idx;
  num_bytes_read = read;
  full_hdr_len = 12;
  hdr_len = 9;
  buff_next = idx;
  header = some h;
  tmp_header = tmp;
  hdr_ptr = in_header read;
}

module _ (env : Platform) (buf : List ℕ) (total : ℕ) (w : List ℕ) where
  known_round :
      (idx read : ℕ) (h tmp : List ℕ) (b : ℕ)
      → 3 ≤ read
      → read < length h
      → header_round env b (known idx read h tmp)
        ≡ ok tt (known (idx + 1) (read + 1) (set h read b) tmp)
  unfolding header_round
  known_round idx read h tmp b ge lt = ground (arith, store_lem h read b lt)

  -- It copies what the buffer has of the header.
  pub known_loop :
      (k fuel idx read idx' read' : ℕ) (h tmp : List ℕ)
      → k < fuel
      → idx + k ≡ idx'
      → read + k ≡ read'
      → idx' ≤ total
      → read' ≤ 12
      → (idx' ≡ total) ⊎ (read' ≡ 12)
      → 3 ≤ read
      → 12 ≤ length w
      → length h ≡ 12
      → Agree h 0 w 0 read
      → Agree buf idx w read k
      → (h' : List ℕ) × (header_loop env buf (pos total) fuel (known idx read h tmp)
          ≡ ok tt (known idx' read' h' tmp))
        × (length h' ≡ 12)
        × Agree h' 0 w 0 read'
  unfolding header_loop
  known_loop k zero idx read idx' read' h tmp lf ei er li lr stop ge lw lh agree more =
      absurd (omega arith)
  known_loop zero (suc fuel) idx read idx' read' h tmp lf ei er li lr stop ge lw lh agree more =
      (h, ground arith, lh, subst (Agree h 0 w 0) (omega arith) agree)
  known_loop (suc k) (suc fuel) idx read idx' read' h tmp lf ei er li lr stop ge lw lh agree more =
      let (b, eb) = get_elem?-some w read (omega arith) in
      let (h', run, lh', agree') =
        known_loop k fuel (idx + 1) (read + 1) idx' read' (set h read b) tmp (omega arith)
          (omega arith) (omega arith) li lr stop (omega arith) lw (length-set h read b ∙ lh)
          (Agree-set h w read b (omega arith) agree eb)
          (Agree-shift buf w idx read 1 k (subst (Agree buf idx w read) (omega arith) more)) in
      (
        h',
        ground (
          arith,
          Agree-head buf w idx read (suc k) (omega arith) more,
          eb,
          known_round idx read h tmp b ge (omega arith),
          run,
        ),
        lh',
        agree',
      )

-- The loop at the first byte of a packet. `t0`, `t1` and `t2` are what `tmp_header` holds.
abbrev pub unknown : ℕ → ℕ → ℕ → ℕ → HeaderLoop
unknown idx t0 t1 t2 = record {
  idx = idx;
  num_bytes_read = 0;
  full_hdr_len = 3;
  hdr_len = 0;
  buff_next = idx;
  header = none;
  tmp_header = t0 ∷ t1 ∷ t2 ∷ [];
  hdr_ptr = in_tmp 0;
}

-- A header of the format begins so.
abbrev pub HasPreamble : List ℕ → Type 0
HasPreamble w =
    (get_elem? w 0 ≡ some 0xFF)
    × (get_elem? w 1 ≡ some 0)
    × (get_elem? w 2 ≡ some 9)
    × (12 ≤ length w)

module _ (env : Platform) where
  -- The header that is allocated once its length is known.
  abbrev pub allocated : List ℕ
  allocated = 0xFF ∷ 0 ∷ 9 ∷ drop 3 (env.uninitialised 12)

  pub length-allocated : length allocated ≡ 12
  length-allocated =
      omega (arith, length-drop 3 (env.uninitialised 12), env.length-uninitialised 12)

  allocate : memcpy (env.uninitialised 12) 0 (0xFF ∷ 0 ∷ 9 ∷ []) ≡ some allocated
  allocate =
      ap (λ old. memcpy old 0 (0xFF ∷ 0 ∷ 9 ∷ [])) (sym (take-append-drop 3 (env.uninitialised 12)))
      ∙ memcpy_lem [] (take 3 (env.uninitialised 12)) (drop 3 (env.uninitialised 12))
          (0xFF ∷ 0 ∷ 9 ∷ []) 0 refl
          (omega (arith, length-take 3 (env.uninitialised 12), env.length-uninitialised 12))

  pub allocated-Agree : (w : List ℕ) → HasPreamble w → Agree allocated 0 w 0 3
  allocated-Agree w p zero lt = sym (p.0)
  allocated-Agree w p (suc zero) lt = sym (p.1)
  allocated-Agree w p (suc (suc zero)) lt = sym (p.2)
  allocated-Agree w p (suc (suc (suc t))) lt = absurd (omega arith)

  pub first_rounds :
      (buf : List ℕ) (total idx fuel t0 t1 t2 : ℕ)
      → idx + 3 ≤ total
      → get_elem? buf idx ≡ some 0xFF
      → get_elem? buf (idx + 1) ≡ some 0
      → get_elem? buf (idx + 2) ≡ some 9
      → header_loop env buf (pos total) (suc (suc (suc fuel))) (unknown idx t0 t1 t2)
        ≡ header_loop env buf (pos total) fuel (known (idx + 3) 3 allocated (0xFF ∷ 0 ∷ 9 ∷ []))
  unfolding header_loop header_round put_byte learn_length store
  first_rounds buf total idx fuel t0 t1 t2 h e0 e1 e2 = ground (arith, allocate)

  -- With the header complete the loop ends at once.
  pub over_loop :
      (buf : List ℕ) (total fuel : ℕ) (l : HeaderLoop)
      → 0 < fuel
      → l.full_hdr_len ≤ l.num_bytes_read
      → header_loop env buf (pos total) fuel l ≡ ok tt l
  unfolding header_loop
  over_loop buf total zero l h le = absurd (omega arith)
  over_loop buf total (suc fuel) l h le = ground arith

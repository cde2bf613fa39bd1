-- ===== src/Packet/Rebuild/Body.antt =====
-- The loop of `rebuild` on the bytes of a payload.
use p2purr.Base.{
  ℕ, zero, suc, ◌+◌, ◌≤◌, ◌<◌, ◌≡◌, subst, ◌∙◌, ◌⊎◌, List, arith, length, set, length-set,
  get_elem?-some, Agree, Agree-head, Agree-shift, Agree-set, store_lem, pos, ok,
}
use p2purr.Packet.Rebuild.Loops.{PayloadLoop, payload_loop, payload_round}

-- The loop with `off` bytes of the payload read, behind a header of 12.
abbrev pub reading : ℕ → ℕ → List ℕ → PayloadLoop
reading idx off p = record {
  idx = idx;
  num_bytes_read = 12 + off;
  buff_next = idx;
  pld = off;
  payload = p;
}

module _ (buf : List ℕ) (total : ℕ) (body : List ℕ) where
  reading_round :
      (idx off : ℕ) (p : List ℕ) (b : ℕ)
      → off < length p
      → payload_round b (reading idx off p) ≡ ok tt (reading (idx + 1) (off + 1) (set p off b))
  unfolding payload_round
  reading_round idx off p b lt = ground (arith, store_lem p off b lt)

  -- It copies what the buffer has of the payload.
  pub reading_loop :
      (k fuel idx off idx' off' : ℕ) (p : List ℕ)
      → k < fuel
      → idx + k ≡ idx'
      → off + k ≡ off'
      → idx' ≤ total
      → off' ≤ length body
      → (idx' ≡ total) ⊎ (off' ≡ length body)
      → length p ≡ length body
      → Agree p 0 body 0 off
      → Agree buf idx body off k
      → (p' : List ℕ) × (payload_loop buf
            (pos total)
            (pos (12 + length body))
            fuel
            (reading idx off p)
          ≡ ok tt (reading idx' off' p'))
        × (length p' ≡ length body)
        × Agree p' 0 body 0 off'
  unfolding payload_loop
  reading_loop k zero idx off idx' off' p lf ei er li lr stop lp agree more = absurd (omega arith)
  reading_loop zero (suc fuel) idx off idx' off' p lf ei er li lr stop lp agree more =
      (p, ground arith, lp, subst (Agree p 0 body 0) (omega arith) agree)
  reading_loop (suc k) (suc fuel) idx off idx' off' p lf ei er li lr stop lp agree more =
      let (b, eb) = get_elem?-some body off (omega arith) in
      let (p', run, lp', agree') =
        reading_loop k fuel (idx + 1) (off + 1) idx' off' (set p off b) (omega arith) (omega arith)
          (omega arith) li lr stop (length-set p off b ∙ lp)
          (Agree-set p body off b (omega arith) agree eb)
          (Agree-shift buf body idx off 1 k (subst (Agree buf idx body off) (omega arith) more)) in
      (
        p',
        ground (
          arith,
          Agree-head buf body idx off (suc k) (omega arith) more,
          eb,
          reading_round idx off p b (omega arith),
          run,
        ),
        lp',
        agree',
      )

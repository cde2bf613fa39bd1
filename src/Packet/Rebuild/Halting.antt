-- ===== src/Packet/Rebuild/Halting.antt =====
-- The loops of `header_ready` and `rebuild` end, whatever the buffer and the packet hold.
use p2purr.Base.{
  ℕ, zero, suc, ◌+◌, ◌%◌, ◌^◌, ◌≤◌, ◌<◌, ◌≡◌, refl, sym, ap, ◌∙◌, ◌⊎◌, inl, inr, Bool, true, false,
  Option, none, some, List, arith, ltb, ltb_false→le, ◌==◌, if◌then◌else◌, ℤ, pos, ltb_ℤ,
  Bool-cases, Outcome, ok, throw, fault, no_fuel, exits, ◌>>=◌, checked, get_elem?, memcpy, store,
  Halts, Halts-mono, >>=-Halts, checked-Halts, if-Halts,
}
use p2purr.Packet.{Platform}
use p2purr.Packet.Rebuild.Loops.{
  HeaderLoop, in_header, put_byte, length_field, next_byte, learn_length, header_round, header_loop,
  PayloadLoop, payload_round, payload_loop,
}

put_byte-some :
    (l l' : HeaderLoop) (b : ℕ)
    → put_byte l b ≡ some l'
    → (l'.idx ≡ l.idx) × (l'.buff_next ≡ l.buff_next + 1)
unfolding put_byte
put_byte-some l l' b e = ground arith

-- What the loop does from `l` to `t`: the read position follows the index, and the loop stops at the
-- end of the buffer or of the header.
pub record HeaderRan (total : ℕ) (l t : HeaderLoop) : Type 0 where
  pub forward : l.idx ≤ t.idx
  pub within_buffer : t.idx ≤ total
  pub in_step : t.buff_next + l.idx ≡ t.idx + l.buff_next
  pub stops : (t.idx ≡ total) ⊎ (t.full_hdr_len ≤ t.num_bytes_read)
  pub moves : (l.idx < t.idx) ⊎ ((l.idx ≡ total) ⊎ (l.full_hdr_len ≤ l.num_bytes_read))

module _ (env : Platform) where
  learn_length-Halts :
      (l : HeaderLoop)
      → Halts (λ _ t. (t.idx ≡ l.idx) × (t.buff_next ≡ l.buff_next)) (learn_length env l)
  unfolding learn_length
  learn_length-Halts l =
      if-Halts _ ((length_field l.tmp_header + 3) % 2 ^ 16 == 0) _ _ (λ _. tt)
        (λ _.
          copied
            (memcpy (env.uninitialised ((length_field l.tmp_header + 3) % 2 ^ 16)) 0 l.tmp_header))
    where
      copied :
          (o : Option (List ℕ))
          → Halts
              (λ _ t. (t.idx ≡ l.idx) × (t.buff_next ≡ l.buff_next))
              (elim o as (λ _. Outcome HeaderLoop (Unit {0})) [
                | none ↦ fault
                | some h ↦ ok tt (record l {
                  hdr_len = length_field l.tmp_header;
                  full_hdr_len = (length_field l.tmp_header + 3) % 2 ^ 16;
                  header = some h;
                  hdr_ptr = in_header (l.num_bytes_read + 1);
                })
              ])
      copied none = tt
      copied (some h) = (refl, refl)

  -- A round moves both indices on by one.
  header_round-Halts :
      (b : ℕ) (l : HeaderLoop)
      → Halts (λ _ t. (t.idx ≡ l.idx + 1) × (t.buff_next ≡ l.buff_next + 1)) (header_round env b l)
  unfolding header_round
  header_round-Halts b l = put (put_byte l b) (λ l' e. put_byte-some l l' b e)
    where
      after :
          (l' : HeaderLoop)
          → (l'.idx ≡ l.idx) × (l'.buff_next ≡ l.buff_next + 1)
          → (o : Outcome HeaderLoop (Unit {0}))
          → Halts (λ _ t. (t.idx ≡ l'.idx) × (t.buff_next ≡ l'.buff_next)) o
          → Halts
              (λ _ t. (t.idx ≡ l.idx + 1) × (t.buff_next ≡ l.buff_next + 1))
              (elim o as (λ _. Outcome HeaderLoop (Unit {0})) [
                | ok _ m ↦ ok tt (next_byte m)
                | throw e m ↦ throw e m
                | fault ↦ fault
                | no_fuel ↦ no_fuel
                | exits ↦ exits
              ])
      after l' (ei, en) (ok _ m) (mi, mn) = (ap (λ i. i + 1) (mi ∙ ei), mn ∙ en)
      after l' h (throw e m) p = tt
      after l' h fault p = tt
      after l' h no_fuel p = p
      after l' h exits p = p

      put :
          (o : Option HeaderLoop)
          → ((l' : HeaderLoop) → o ≡ some l' → (l'.idx ≡ l.idx) × (l'.buff_next ≡ l.buff_next + 1))
          → Halts
              (λ _ t. (t.idx ≡ l.idx + 1) × (t.buff_next ≡ l.buff_next + 1))
              (elim o as (λ _. Outcome HeaderLoop (Unit {0})) [
                | none ↦ fault
                | some l' ↦
                    elim (if l'.num_bytes_read == 2 then learn_length env l' else ok tt l') [
                      | ok _ m ↦ ok tt (next_byte m)
                      | throw e m ↦ throw e m
                      | fault ↦ fault
                      | no_fuel ↦ no_fuel
                      | exits ↦ exits
                    ]
              ])
      put none h = tt
      put (some l') h =
          after l' (h l' refl) (if l'.num_bytes_read == 2 then learn_length env l' else ok tt l') (
            if-Halts _ (l'.num_bytes_read == 2) _ _ (λ _. learn_length-Halts l')
              (λ _. (refl, refl)))

  pub header_loop-Halts :
      (buffer : List ℕ) (total fuel : ℕ) (l : HeaderLoop)
      → l.idx ≤ total
      → total < fuel + l.idx
      → Halts (λ _ t. HeaderRan total l t) (header_loop env buffer (pos total) fuel l)
  unfolding header_loop
  header_loop-Halts buffer total zero l le enough = absurd (omega arith)
  header_loop-Halts buffer total (suc fuel) l le enough =
      test (if ltb l.idx total then ltb l.num_bytes_read l.full_hdr_len else false) refl
        (λ m i n. header_loop-Halts buffer total fuel m i n)
    where
      test :
          (b : Bool)
          → (if ltb l.idx total then ltb l.num_bytes_read l.full_hdr_len else false) ≡ b
          → ((m : HeaderLoop)
              → m.idx ≤ total
              → total < fuel + m.idx
              → Halts (λ _ t. HeaderRan total m t) (header_loop env buffer (pos total) fuel m))
          → Halts
              (λ _ t. HeaderRan total l t)
              (elim b as (λ _. Outcome HeaderLoop (Unit {0})) [
                | true ↦
                    (checked (get_elem? buffer l.buff_next) >>= λ b.
                    header_round env b >>= λ _. header_loop env buffer (pos total) fuel)
                      l
                | false ↦ ok tt l
              ])
      test false e again = record {
        forward = omega arith;
        within_buffer = le;
        in_step = omega arith;
        stops = ground arith;
        moves = inr (ground arith);
      }
      test true e again =
          let lt : l.idx < total = ground arith in
          checked-Halts _ (get_elem? buffer l.buff_next) _ l (λ b _.
            >>=-Halts _ _ (header_round env b) _ l (header_round-Halts b l) (λ _ m (mi, mn).
              Halts-mono _ _ (header_loop env buffer (pos total) fuel m)
                (λ _ t h. record {
                  forward = omega (arith, h.forward);
                  within_buffer = h.within_buffer;
                  in_step = omega (arith, h.in_step);
                  stops = h.stops;
                  moves = inl (omega (arith, h.forward));
                })
                (again m (omega arith) (omega arith))))

pub record PayloadRan (total : ℕ) (pkt_len : ℤ) (l t : PayloadLoop) : Type 0 where
  pub forward : l.idx ≤ t.idx
  pub in_step : t.buff_next + l.idx ≡ t.idx + l.buff_next
  pub within_buffer : t.idx ≤ total
  pub stops : (t.idx ≡ total) ⊎ (ltb_ℤ (pos t.num_bytes_read) pkt_len ≡ false)

payload_round-Halts :
    (b : ℕ) (l : PayloadLoop)
    → Halts (λ _ t. (t.idx ≡ l.idx + 1) × (t.buff_next ≡ l.buff_next + 1)) (payload_round b l)
unfolding payload_round
payload_round-Halts b l = stored (store l.payload l.pld b)
  where
    stored :
        (o : Option (List ℕ))
        → Halts
            (λ _ t. (t.idx ≡ l.idx + 1) × (t.buff_next ≡ l.buff_next + 1))
            (elim o as (λ _. Outcome PayloadLoop (Unit {0})) [
              | none ↦ fault
              | some p ↦ ok tt (record {
                idx = l.idx + 1;
                num_bytes_read = l.num_bytes_read + 1;
                buff_next = l.buff_next + 1;
                pld = l.pld + 1;
                payload = p;
              })
            ])
    stored none = tt
    stored (some p) = (refl, refl)

pub payload_loop-Halts :
    (buffer : List ℕ) (total : ℕ) (pkt_len : ℤ) (fuel : ℕ) (l : PayloadLoop)
    → l.idx ≤ total
    → total < fuel + l.idx
    → Halts (λ _ t. PayloadRan total pkt_len l t) (payload_loop buffer (pos total) pkt_len fuel l)
unfolding payload_loop
payload_loop-Halts buffer total pkt_len zero l le enough = absurd (omega arith)
payload_loop-Halts buffer total pkt_len (suc fuel) l le enough =
    test (if ltb l.idx total then ltb_ℤ (pos l.num_bytes_read) pkt_len else false) refl
      (λ m i n. payload_loop-Halts buffer total pkt_len fuel m i n)
  where
    test :
        (b : Bool)
        → (if ltb l.idx total then ltb_ℤ (pos l.num_bytes_read) pkt_len else false) ≡ b
        → ((m : PayloadLoop)
            → m.idx ≤ total
            → total < fuel + m.idx
            → Halts
                (λ _ t. PayloadRan total pkt_len m t)
                (payload_loop buffer (pos total) pkt_len fuel m))
        → Halts
            (λ _ t. PayloadRan total pkt_len l t)
            (elim b as (λ _. Outcome PayloadLoop (Unit {0})) [
              | true ↦
                  (checked (get_elem? buffer l.buff_next) >>= λ b.
                  payload_round b >>= λ _. payload_loop buffer (pos total) pkt_len fuel)
                    l
              | false ↦ ok tt l
            ])
    test false e again = record {
      forward = omega arith;
      in_step = omega arith;
      within_buffer = le;
      stops = elim (Bool-cases (ltb l.idx total)) [
        | inl lt ↦
            inr (sym (ap (λ b. if b then ltb_ℤ (pos l.num_bytes_read) pkt_len else false) lt) ∙ e)
        | inr ge ↦ inl (omega (arith, ltb_false→le l.idx total ge))
      ];
    }
    test true e again =
        let lt : l.idx < total = ground arith in
        checked-Halts _ (get_elem? buffer l.buff_next) _ l (λ b _.
          >>=-Halts _ _ (payload_round b) _ l (payload_round-Halts b l) (λ _ m (mi, mn).
            Halts-mono _ _ (payload_loop buffer (pos total) pkt_len fuel m)
              (λ _ t h. record {
                forward = omega (arith, h.forward);
                in_step = omega (arith, h.in_step);
                within_buffer = h.within_buffer;
                stops = h.stops;
              })
              (again m (omega arith) (omega arith))))

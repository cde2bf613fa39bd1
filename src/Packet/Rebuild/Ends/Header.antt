-- ===== src/Packet/Rebuild/Ends/Header.antt =====
-- `header_ready` ends on every buffer and packet.
use p2purr.Base.{
  ℕ, ◌+◌, ◌≤◌, ◌<◌, ◌≡◌, refl, sym, subst, ◌∙◌, ◌⊎◌, inl, inr, Bool, true, false, none, arith, ltb,
  leb, le→leb, if◌then◌else◌, pos, ltb_ℤ, ok, get_elem?, Halts, >>=-Halts, checked-Halts, if-Halts,
  within-Halts,
}
use p2purr.Packet.{Platform, Context, update_buff_idx}
use p2purr.Packet.Rebuild.{
  rounds, enters_header, header_start, read_header, header_result, header_ready,
}
use p2purr.Packet.Rebuild.Loops.{header_loop}
use p2purr.Packet.Rebuild.Ready.{IsFresh}
use p2purr.Packet.Rebuild.Halting.{HeaderRan, header_loop-Halts}
use p2purr.Packet.Rebuild.Advance.{update_buff_idx-Halts}

-- The read position and the index are at `j` of a buffer of `total` bytes.
pub record IsAt (total j : ℕ) (s : Context) : Type 0 where
  pub next_is : s.buff_next ≡ j
  pub idx_is : s.buff_idx ≡ j
  pub total_is : s.buff_total_len ≡ pos total

module _ (env : Platform) (i total : ℕ) (lt : i < total) where
  -- What reading the header has done from `s` to `t`, with the local index at `j`.
  record HeaderRead (s : Context) (j : ℕ) (t : Context) : Type 0 where
    next_is : t.buff_next ≡ j
    total_is : t.buff_total_len ≡ pos total
    from : i ≤ j
    below : j ≤ total
    stops : (j ≡ total) ⊎ (t.full_hdr_len ≤ t.num_bytes_read)
    moves : IsFresh s.packet → (i < j) ⊎ (t.header ≡ none)

  read_header-Halts : (s : Context) → IsAt total i s → Halts (HeaderRead s) (read_header env s)
  unfolding read_header
  read_header-Halts s at =
      within-Halts _ _ _ _
        (header_loop env s.recv_buffer s.buff_total_len (rounds s.buff_total_len)
          (header_start env s))
        (subst
          (λ k.
            Halts (λ _ l. HeaderRan total (header_start env s) l)
              (header_loop env s.recv_buffer k (rounds k) (header_start env s)))
          (sym at.total_is)
          (header_loop-Halts env s.recv_buffer total (total + 1) (header_start env s)
            (omega (arith, at.idx_is)) (omega (arith, at.idx_is))))
        (λ _ l h. record {
          next_is = omega (arith, h.in_step, at.next_is, at.idx_is);
          total_is = at.total_is;
          from = omega (arith, h.forward, at.idx_is);
          below = h.within_buffer;
          stops = h.stops;
          moves = λ f. inl (elim h.moves [
            | inl on ↦ omega (arith, on, at.idx_is)
            | inr (inl e) ↦ absurd (omega (arith, e, at.idx_is))
            | inr (inr all) ↦ absurd (ground (arith, all, f.length_unknown, f.read_none))
          ]);
        })
        (λ e l. tt)

  -- Whether the header is ready, and where the index is then.
  abbrev pub Readiness : Context → Bool → Context → Type 0
  Readiness s false t = t.buff_idx ≡ total
  Readiness s true t =
      (j : ℕ) × (i ≤ j)
      × (j < total)
      × IsAt total j t
      × (IsFresh s.packet → (i < j) ⊎ (t.header ≡ none))

  header_result-Halts :
      (s : Context) (j : ℕ) (t : Context)
      → HeaderRead s j t
      → Halts (Readiness s) (header_result j t)
  unfolding header_result
  header_result-Halts s j t h =
      if-Halts _
        (if ltb_ℤ (pos j) t.buff_total_len then ltb t.num_bytes_read t.full_hdr_len else true) _ _
        (λ e.
          let learned = record t {
            packet = record (t.packet) {
              full_hdr_len = if leb t.full_hdr_len 3 then 0 else t.full_hdr_len;
            };
          } in
          >>=-Halts _ _ update_buff_idx _ learned (update_buff_idx-Halts learned)
            (λ _ u f. f.idx_follows ∙ h.next_is ∙ at_end e))
        (λ e.
          let (inside, all) = goes_on e in
          subst (λ b. Readiness s b (record t { buff_idx = j }))
            (sym (le→leb t.full_hdr_len t.num_bytes_read all))
            (
              j,
              h.from,
              inside,
              record { next_is = h.next_is; idx_is = refl; total_is = h.total_is },
              h.moves,
            ))
    where
      at_end :
          (if ltb_ℤ (pos j) t.buff_total_len then ltb t.num_bytes_read t.full_hdr_len else true)
            ≡ true
          → j ≡ total
      at_end e = elim h.stops [ inl z ↦ z | inr all ↦ ground (arith, h.below, h.total_is, all) ]

      goes_on :
          (if ltb_ℤ (pos j) t.buff_total_len then ltb t.num_bytes_read t.full_hdr_len else true)
            ≡ false
          → (j < total) × (t.full_hdr_len ≤ t.num_bytes_read)
      goes_on e = (ground (arith, h.total_is), ground (arith, h.total_is))

  pub header_ready-Halts : (s : Context) → IsAt total i s → Halts (Readiness s) (header_ready env s)
  unfolding header_ready
  header_ready-Halts s at = checked-Halts _ (get_elem? s.recv_buffer s.buff_next) _ s (λ first _.
      >>=-Halts (HeaderRead s) _
        (if enters_header s first then read_header env else (λ t. ok t.buff_idx t)) header_result s
        (entered first (enters_header s first) refl) (λ j t h. header_result-Halts s j t h))
    where
      entered :
          (first : ℕ) (b : Bool)
          → enters_header s first ≡ b
          → Halts (HeaderRead s) ((if b then read_header env else (λ t. ok t.buff_idx t)) s)
      entered first true e = read_header-Halts s at
      entered first false e = record {
        next_is = at.next_is ∙ sym at.idx_is;
        total_is = at.total_is;
        from = omega (arith, at.idx_is);
        below = omega (arith, at.idx_is);
        stops = inr (ground arith);
        moves = λ f. inr f.no_header;
      }

-- ===== src/Packet/Rebuild/Gate.antt =====
-- `header_ready`: whether a packet has its header, and what it has read by then.
use p2purr.Base.{
  ℕ, ◌+◌, ◌≤◌, ◌<◌, ◌≡◌, ap, ap₂, ◌∙◌, ◌⊎◌, inl, inr, true, false, some, List, arith, length,
  get_elem?, get_elem?-some, Agree, Agree-head, ◌-◌, subst₂, ok, ◌>>=◌, Bool-cases,
}
use p2purr.Packet.{Platform, Context}
use p2purr.Packet.Rebuild.{read_header, enters_header, header_result, header_ready}
use p2purr.Packet.Rebuild.Header.{HasPreamble}
use p2purr.Packet.Rebuild.Ready.{
  with_header, IsFresh, HasHeader, ReadsAt, read_header_fresh, read_header_known, read_header_over,
  result_true,
}

module _ (env : Platform) where
  pub entered :
      (s t : Context) (b idx : ℕ)
      → get_elem? s.recv_buffer s.buff_next ≡ some b
      → enters_header s b ≡ true
      → read_header env s ≡ ok idx t
      → header_ready env s ≡ header_result idx t
  unfolding header_ready
  entered s t b idx e enter run = rw (e, enter) (rw (run, ◌>>=◌))

  pub passed :
      (s : Context) (b : ℕ)
      → get_elem? s.recv_buffer s.buff_next ≡ some b
      → enters_header s b ≡ false
      → header_ready env s ≡ header_result s.buff_idx s
  unfolding header_ready
  passed s b e enter = rw (e, enter)

  module _ (w : List ℕ) (p : HasPreamble w) (i total : ℕ) (s : Context)
      (r : ReadsAt i total s) where
    same : (n : ℕ) (h : List ℕ) → HasHeader n h s.packet → s ≡ with_header s n i h
    same n h f = ground arith

    -- Past the header the packet is ready, whatever the next byte is.
    pub ready_over :
        (n b : ℕ) (h : List ℕ)
        → HasHeader n h s.packet
        → 12 ≤ n
        → i < total
        → get_elem? s.recv_buffer i ≡ some b
        → header_ready env s ≡ ok true (record (with_header s n i h) { buff_idx = i })
    ready_over n b h f ge lt e = elim (Bool-cases (enters_header s b)) [
      | inl enter ↦
          entered s (with_header s n i h) b i (ap (get_elem? s.recv_buffer) r.next_is ∙ e) enter
            (read_header_over env w p i total s r n h f ge)
          ∙ result_true i total s r n i h ge lt
      | inr pass ↦
          passed s b (ap (get_elem? s.recv_buffer) r.next_is ∙ e) pass
          ∙ ap₂ header_result r.index_is (same n h f)
          ∙ result_true i total s r n i h ge lt
    ]

    -- What has been read of the header before the call: nothing, or three bytes and more.
    abbrev pub HeaderRead : ℕ → Type 0
    HeaderRead n =
        (IsFresh s.packet × (n ≡ 0)) ⊎ ((h : List ℕ) × HasHeader n h s.packet × Agree h 0 w 0 n)

    enters_fresh : IsFresh s.packet → enters_header s 0xFF ≡ true
    enters_fresh f = ground arith

    enters_known :
        (n b : ℕ) (h : List ℕ) → HasHeader n h s.packet → n < 12 → enters_header s b ≡ true
    enters_known n b h f lt = ground arith

    -- Before that it reads on, to the end of the header or of the buffer.
    pub header_loads :
        (k n i' n' : ℕ)
        → 0 < k
        → i + k ≡ i'
        → n + k ≡ n'
        → 3 ≤ n'
        → i' ≤ total
        → n' ≤ 12
        → (i' ≡ total) ⊎ (n' ≡ 12)
        → HeaderRead n
        → Agree s.recv_buffer i w n k
        → (h : List ℕ) × (header_ready env s ≡ header_result i' (with_header s n' i' h))
          × (length h ≡ 12)
          × Agree h 0 w 0 n'
    header_loads k n i' n' pos_k ei en three li ln stop (inl (f, e)) more =
        let first : get_elem? s.recv_buffer s.buff_next ≡ some 0xFF =
          ap (get_elem? s.recv_buffer) r.next_is
          ∙ Agree-head s.recv_buffer w i n k pos_k more
          ∙ ap (get_elem? w) e
          ∙ p.0 in
        let (h, run, lh, agree) =
          read_header_fresh env w p i total s r (k - 3) i' n' (omega arith) (omega arith) li ln stop
            f (subst₂ (Agree s.recv_buffer i w) e (omega arith) more) in
        (h, entered s (with_header s n' i' h) 0xFF i' first (enters_fresh f) run, lh, agree)
    header_loads k n i' n' pos_k ei en three li ln stop (inr (h, f, old)) more =
        let (b, eb) = get_elem?-some w n (omega (arith, p.3)) in
        let first : get_elem? s.recv_buffer s.buff_next ≡ some b =
          ap (get_elem? s.recv_buffer) r.next_is
          ∙ Agree-head s.recv_buffer w i n k pos_k more
          ∙ eb in
        let (h', run, lh, agree) =
          read_header_known env w p i total s r k n i' n' h ei en li ln stop f old more in
        (
          h',
          entered s (with_header s n' i' h') b i' first (enters_known n b h f (omega arith)) run,
          lh,
          agree,
        )

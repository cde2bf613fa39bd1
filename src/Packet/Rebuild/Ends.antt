-- ===== src/Packet/Rebuild/Ends.antt =====
-- `rebuild` ends on every buffer and packet, and the index moves on or reaches the end of the buffer.
pub mod Header
use p2purr.Base.{
  ℕ, ◌+◌, ◌≤◌, ◌<◌, ◌≡◌, refl, sym, ap, subst, ◌∙◌, ◌⊎◌, inl, inr, Bool, true, false, not, Option,
  none, some, List, arith, ltb, leb, le→leb, if◌then◌else◌, pos, ltb_ℤ, Outcome, ok, throw, fault,
  within, get_elem?, Halts, Halts-mono, >>=-Halts, checked-Halts, if-Halts, within-Halts,
}
use p2purr.Packet.{Platform, Context, set_build_pending, update_local_buff_info, update_buff_idx}
use p2purr.Packet.Build.{modify, set_pkt_len}
use p2purr.Packet.Rebuild.{
  rounds, enters_header, header_start, read_header, header_result, header_ready, rebuild_header,
  payload_start, payload_end, read_payload, finish, rebuild_payload, continue_rebuild, rebuild,
}
use p2purr.Packet.Rebuild.Loops.{header_loop, payload_loop}
use p2purr.Packet.Rebuild.Ready.{IsFresh}
use p2purr.Packet.Rebuild.Halting.{HeaderRan, header_loop-Halts, PayloadRan, payload_loop-Halts}
use p2purr.Packet.Rebuild.Advance.{
  update_buff_idx-Halts, rebuild_header-Halts, Missing, finish-Halts,
}
use p2purr.Packet.Rebuild.Ends.Header.{IsAt, Readiness, header_ready-Halts}

module _ (env : Platform) (i total : ℕ) (lt : i < total) where
  -- What the payload loop has done from the index `j` on.
  record PayloadRead (j : ℕ) (t : Context) : Type 0 where
    k : ℕ
    from : j ≤ k
    at : IsAt total k t
    stops : (k ≡ total) ⊎ (ltb_ℤ (pos t.num_bytes_read) t.pkt_len ≡ false)

  read_payload-Halts :
      (j : ℕ) (s : Context)
      → j < total
      → IsAt total j s
      → Halts (λ _ t. PayloadRead j t) (read_payload s)
  unfolding read_payload
  read_payload-Halts j s inside at = given s.payload
    where
      given :
          (o : Option (List ℕ))
          → Halts
              (λ _ t. PayloadRead j t)
              (elim o as (λ _. Outcome Context (Unit {0})) [
                | none ↦ fault
                | some d ↦
                    within
                      (λ _ l. ok tt (payload_end s l))
                      (λ e l. throw e (payload_end s l))
                      (payload_loop s.recv_buffer s.buff_total_len s.pkt_len
                        (rounds s.buff_total_len)
                        (payload_start s d))
              ])
      given none = tt
      given (some d) =
          within-Halts _ _ _ _
            (payload_loop s.recv_buffer s.buff_total_len s.pkt_len (rounds s.buff_total_len)
              (payload_start s d))
            (subst
              (λ n.
                Halts (λ _ l. PayloadRan total s.pkt_len (payload_start s d) l)
                  (payload_loop s.recv_buffer n s.pkt_len (rounds n) (payload_start s d)))
              (sym at.total_is)
              (payload_loop-Halts s.recv_buffer total s.pkt_len (total + 1) (payload_start s d)
                (omega (arith, at.idx_is)) (omega (arith, at.idx_is))))
            (λ _ l h. record {
              k = l.idx;
              from = omega (arith, h.forward, at.idx_is);
              at = record {
                next_is = omega (arith, h.in_step, at.next_is, at.idx_is);
                idx_is = refl;
                total_is = at.total_is;
              };
              stops = h.stops;
            })
            (λ e l. tt)

  -- The packet is done, or the index is at the end of the buffer.
  abbrev pub DoneOrEnd : ℕ → Context → Type 0
  DoneOrEnd j t = (t.buff_idx ≡ total) ⊎ ((t.pkt_built ≡ true) × (j ≤ t.buff_idx))

  rebuild_payload-Halts :
      (j : ℕ) (s : Context)
      → j < total
      → IsAt total j s
      → Halts (λ _ t. DoneOrEnd j t) (rebuild_payload env s)
  unfolding rebuild_payload set_build_pending
  rebuild_payload-Halts j s inside at =
      let sized : Context = record s { packet = set_pkt_len s.packet } in
      >>=-Halts _ _ read_payload _ sized
        (read_payload-Halts j sized inside
          (record { next_is = at.next_is; idx_is = at.idx_is; total_is = at.total_is }))
        (λ _ t p. >>=-Halts _ _ (finish env) _ t (finish-Halts env t) (λ pending u (kept, missing).
          >>=-Halts _ _ update_buff_idx (λ _. modify (λ q. set_build_pending q pending)) u
            (update_buff_idx-Halts u)
            (λ _ v f.
              settled t p pending missing v (f.idx_follows ∙ kept.next_same ∙ p.at.next_is))))
    where
      settled :
          (t : Context) (p : PayloadRead j t) (pending : Bool)
          → Missing env t pending
          → (v : Context) → v.buff_idx ≡ p.k
          → DoneOrEnd j (record v { packet = set_build_pending v.packet pending })
      settled t p false missing v e = inr (refl, omega (arith, p.from))
      settled t p true missing v e =
          inl (elim p.stops [ inl z ↦ e ∙ z | inr all ↦ absurd (cc all) ])

  -- What a call of `rebuild` has done: the index is at the end of the buffer, or the packet is done; the
  -- index has not gone back, and has moved on if the packet is new.
  abbrev pub Advances : Context → Context → Type 0
  Advances s t =
      (t.buff_idx ≡ total)
      ⊎ ((t.pkt_built ≡ true) × (i ≤ t.buff_idx) × (IsFresh s.packet → i < t.buff_idx))

  continue_rebuild-Halts :
      (s : Context) (ready : Bool) (t : Context)
      → Readiness env i total lt s ready t
      → Halts (λ _ u. Advances s u) (continue_rebuild env ready t)
  unfolding continue_rebuild
  continue_rebuild-Halts s false t e = inl e
  continue_rebuild-Halts s true t (j, from, inside, at, moves) =
      >>=-Halts _ _ rebuild_header (λ _. rebuild_payload env) t (rebuild_header-Halts t)
        (λ _ u ((h, there), f).
          Halts-mono _ _ (rebuild_payload env u)
            (λ _ v d. elim d [
              | inl end' ↦ inl end'
              | inr (built, on) ↦ inr (
                built,
                omega arith,
                λ new. elim (moves new) [
                  | inl further ↦ omega arith
                  | inr missing ↦ absurd (cc (missing, there))
                ],
              )
            ])
            (rebuild_payload-Halts j u inside (record {
              next_is = f.next_same ∙ at.next_is;
              idx_is = f.idx_follows ∙ at.next_is;
              total_is = f.total_same ∙ at.total_is;
            })))

  pub rebuild-Halts :
      (s : Context)
      → s.buff_idx ≡ i
      → s.buff_total_len ≡ pos total
      → Halts (λ _ t. Advances s t) (rebuild env s)
  unfolding rebuild update_local_buff_info
  rebuild-Halts s ei et =
      let at_index : Context = record s {
        packet = record (s.packet) { buff_pos_start = pos s.buff_idx; buff_next = s.buff_idx };
      } in
      >>=-Halts (λ _ t. t ≡ at_index) _ update_local_buff_info _ s
        (if-Halts _ (not s.has_buff_idx) _ _ (λ _. tt) (λ _. refl))
        (λ _ t e.
          >>=-Halts _ _ (header_ready env) (continue_rebuild env) t
            (header_ready-Halts env i total lt t (record {
              next_is = ap (λ c. c.buff_next) e ∙ ei;
              idx_is = ap (λ c. c.buff_idx) e ∙ ei;
              total_is = ap (λ c. c.buff_total_len) e ∙ et;
            }))
            (λ ready u r.
              Halts-mono _ _ (continue_rebuild env ready u)
                (λ _ v d. elim d [
                  | inl end' ↦ inl end'
                  | inr (built, on, new) ↦ inr (built, on, λ f. new (Fresh-same f e))
                ])
                (continue_rebuild-Halts t ready u r)))
    where
      Fresh-same :
          {t : Context}
          → IsFresh s.packet
          → t ≡ record s {
            packet = record (s.packet) { buff_pos_start = pos s.buff_idx; buff_next = s.buff_idx };
          }
          → IsFresh t.packet
      Fresh-same f e = record {
        read_none = ap (λ c. c.num_bytes_read) e ∙ f.read_none;
        length_unknown = ap (λ c. c.full_hdr_len) e ∙ f.length_unknown;
        no_length = ap (λ c. c.hdr_len) e ∙ f.no_length;
        no_header = ap (λ c. c.header) e ∙ f.no_header;
      }

-- ===== src/Packet/Rebuild/InRange/Payload.antt =====
-- The payload loop, and `rebuild` as a whole, leave the index in range.
use p2purr.Base.{
  zero, suc, checked, subst₂, ℕ, ◌+◌, ◌≤◌, ◌≡◌, refl, sym, Bool, true, false, not, Option, none,
  some, List, arith, ltb, if◌then◌else◌, ℤ, pos, ltb_ℤ, Outcome, ok, throw, fault, within, ◌>>=◌,
  get_elem?, store, Leaves, >>=-Behaves, if-Behaves, within-Behaves, checked-Leaves, Halts-Leaves,
}
use p2purr.Packet.{Platform, Context, PacketM, update_local_buff_info, update_buff_idx}
use p2purr.Packet.Build.{set_pkt_len}
use p2purr.Packet.Rebuild.{
  rounds, header_ready, rebuild_header, payload_start, payload_end, read_payload, finish,
  rebuild_payload, continue_rebuild, rebuild,
}
use p2purr.Packet.Rebuild.Loops.{PayloadLoop, payload_round, payload_loop}
use p2purr.Packet.Rebuild.Halting.{PayloadRan, payload_loop-Halts}
use p2purr.Packet.Rebuild.InRange.{
  IsInStep, IsInRange, StaysInStep, in_range, update_buff_idx-StaysInStep,
  rebuild_header-StaysInStep,
}
use p2purr.Packet.Rebuild.InRange.Header.{header_ready-StaysInStep}
use p2purr.Packet.Rebuild.InRange.Finish.{finish-StaysInStep}

module _ (buffer : List ℕ) (total : ℕ) (env : Platform) where
  -- What holds of a call as a whole.
  abbrev pub StaysInRange : {A : Type 0} → Outcome Context A → Type 0
  StaysInRange = Leaves (λ _ t. IsInRange buffer total t) (λ _ t. IsInRange buffer total t)

  -- The rule for a sequence whose last call leaves the index in range.
  within_step :
      {A B : Type 0} (m : PacketM A) (f : A → PacketM B) (s : Context)
      → StaysInStep buffer total (m s)
      → ((a : A) (t : Context) → IsInStep buffer total t → StaysInRange (f a t))
      → StaysInRange ((m >>= f) s)
  within_step m f s h k =
      >>=-Behaves _ (λ _ t. IsInStep buffer total t) _ (λ _ t. IsInRange buffer total t) _ m f s h
        (λ _ _ q. q) k

  payload_round-Returns :
      (b : ℕ) (l : PayloadLoop) → Leaves (λ _ _. Unit {0}) (λ _ _. ⊥) (payload_round b l)
  unfolding payload_round
  payload_round-Returns b l = stored (store l.payload l.pld b)
    where
      stored :
          (o : Option (List ℕ))
          → Leaves
              (λ _ _. Unit {0})
              (λ _ _. ⊥)
              (elim o as (λ _. Outcome PayloadLoop (Unit {0})) [
                | none ↦ fault
                | some p ↦ ok tt (record {
                  idx = l.idx + 1;
                  num_bytes_read = l.num_bytes_read + 1;
                  buff_next = l.buff_next + 1;
                  pld = l.pld + 1;
                  payload = p;
                })
              ])
      stored none = tt
      stored (some p) = tt

  -- The payload loop does not throw.
  payload_loop-Returns :
      (pkt_len : ℤ) (fuel : ℕ) (l : PayloadLoop)
      → Leaves (λ _ _. Unit {0}) (λ _ _. ⊥) (payload_loop buffer (pos total) pkt_len fuel l)
  unfolding payload_loop
  payload_loop-Returns pkt_len zero l = tt
  payload_loop-Returns pkt_len (suc fuel) l =
      test (if ltb l.idx total then ltb_ℤ (pos l.num_bytes_read) pkt_len else false)
        (λ m. payload_loop-Returns pkt_len fuel m)
    where
      test :
          (b : Bool)
          → ((m : PayloadLoop)
              → Leaves
                  (λ _ _. Unit {0})
                  (λ _ _. ⊥)
                  (payload_loop buffer (pos total) pkt_len fuel m))
          → Leaves
              (λ _ _. Unit {0})
              (λ _ _. ⊥)
              (elim b as (λ _. Outcome PayloadLoop (Unit {0})) [
                | true ↦
                    (checked (get_elem? buffer l.buff_next) >>= λ b.
                    payload_round b >>= λ _. payload_loop buffer (pos total) pkt_len fuel)
                      l
                | false ↦ ok tt l
              ])
      test false again = tt
      test true again = checked-Leaves _ _ (get_elem? buffer l.buff_next) _ l (λ b.
          >>=-Behaves _ (λ _ _. Unit {0}) _ (λ _ _. ⊥) _ (payload_round b) _ l
            (payload_round-Returns b l) (λ _ _ n. n) (λ _ m _. again m))

  read_payload-StaysInStep :
      (s : Context) → IsInStep buffer total s → StaysInStep buffer total (read_payload s)
  unfolding read_payload
  read_payload-StaysInStep s h = given s.payload
    where
      given :
          (o : Option (List ℕ))
          → StaysInStep buffer total (elim o as (λ _. Outcome Context (Unit {0})) [
            | none ↦ fault
            | some d ↦
                within
                  (λ _ l. ok tt (payload_end s l))
                  (λ e l. throw e (payload_end s l))
                  (payload_loop s.recv_buffer s.buff_total_len s.pkt_len
                    (rounds s.buff_total_len)
                    (payload_start s d))
          ])
      given none = tt
      given (some d) =
          within-Behaves _ (λ _ l. PayloadRan total s.pkt_len (payload_start s d) l) (λ _ _. ⊥) _ _
            _ _
            (payload_loop s.recv_buffer s.buff_total_len s.pkt_len (rounds s.buff_total_len)
              (payload_start s d))
            (subst₂
              (λ bs n.
                Leaves (λ _ l. PayloadRan total s.pkt_len (payload_start s d) l) (λ _ _. ⊥)
                  (payload_loop bs n s.pkt_len (rounds n) (payload_start s d)))
              (sym h.buffer_is) (sym h.total_is)
              (Halts-Leaves _ _
                (payload_loop buffer (pos total) s.pkt_len (total + 1) (payload_start s d))
                (payload_loop-Halts buffer total s.pkt_len (total + 1) (payload_start s d) h.inside
                  (omega (arith, h.inside)))
                (payload_loop-Returns s.pkt_len (total + 1) (payload_start s d))))
            (λ _ l r. record {
              buffer_is = h.buffer_is;
              next_is = omega (arith, r.in_step, h.next_is);
              inside = r.within_buffer;
              total_is = h.total_is;
            })
            (λ _ _ n. absurd n)

  rebuild_payload-StaysInRange :
      (s : Context) → IsInStep buffer total s → StaysInRange (rebuild_payload env s)
  unfolding rebuild_payload
  rebuild_payload-StaysInRange s h =
      let sized : Context = record s { packet = set_pkt_len s.packet } in
      within_step read_payload _ sized
        (read_payload-StaysInStep sized (record {
          buffer_is = h.buffer_is;
          next_is = h.next_is;
          inside = h.inside;
          total_is = h.total_is;
        }))
        (λ _ t g.
          within_step (finish env) _ t (finish-StaysInStep buffer total env t g) (λ pending u k.
            within_step update_buff_idx _ u
              (update_buff_idx-StaysInStep buffer total u k.buffer_is
                (omega (arith, k.next_is, k.inside)) k.total_is)
              (λ _ v w. record { buffer_is = w.buffer_is; inside = w.inside })))

  continue_rebuild-StaysInRange :
      (ready : Bool) (s : Context)
      → IsInStep buffer total s
      → StaysInRange (continue_rebuild env ready s)
  unfolding continue_rebuild
  continue_rebuild-StaysInRange false s h = in_range buffer total s h
  continue_rebuild-StaysInRange true s h =
      within_step rebuild_header (λ _. rebuild_payload env) s
        (rebuild_header-StaysInStep buffer total s h) (λ _ t g. rebuild_payload-StaysInRange t g)

  pub rebuild-StaysInRange :
      (s : Context)
      → s.recv_buffer ≡ buffer
      → s.buff_idx ≤ total
      → s.buff_total_len ≡ pos total
      → StaysInRange (rebuild env s)
  unfolding rebuild update_local_buff_info
  rebuild-StaysInRange s same le size =
      within_step update_local_buff_info _ s
        (if-Behaves _ _ _ (not s.has_buff_idx) _ _ (λ _. tt)
          (λ _. record { buffer_is = same; next_is = refl; inside = le; total_is = size }))
        (λ _ t g.
          within_step (header_ready env) (continue_rebuild env) t
            (header_ready-StaysInStep buffer total env t g)
            (λ ready u k. continue_rebuild-StaysInRange ready u k))

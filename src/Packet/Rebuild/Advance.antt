-- ===== src/Packet/Rebuild/Advance.antt =====
-- `rebuild` ends, whatever the buffer and the packet hold, and the index moves on.
use p2purr.Base.{
  ℕ, ◌+◌, ◌^◌, ◌-◌, ◌≡◌, refl, ap, ◌∙◌, Bool, true, false, not, some, List, ltb, leb, ◌==◌,
  if◌then◌else◌, ℤ, pos, negsuc, ltb_ℤ, Outcome, ok, throw, fault, ◌>>=◌, packet_exception,
  get_elem?, drop, store, memcpy, read_n, Halts, Halts-mono, >>=-Halts, checked-Halts, if-Halts,
}
use p2purr.Serializer.{deserialize_int16, deserialize_int32}
use p2purr.Packet.{Packet, Platform, Context, type_value, generic_file, update_buff_idx}
use p2purr.Packet.Build.{make_pkt, assemble, source}
use p2purr.Packet.Rebuild.{
  reject_zero, payload_or_new, parse_fields, rebuild_header, output_to_file, write_attachment,
  complete, finish,
}

-- A call that leaves the read position, the index and the size of the buffer.
pub record Keeps (s t : Context) : Type 0 where
  pub next_same : t.buff_next ≡ s.buff_next
  pub idx_same : t.buff_idx ≡ s.buff_idx
  pub total_same : t.buff_total_len ≡ s.buff_total_len

Keeps-refl : (s : Context) → Keeps s s
Keeps-refl s = record { next_same = refl; idx_same = refl; total_same = refl }

-- A call after which the index is at the read position.
pub record Follows (s t : Context) : Type 0 where
  pub next_same : t.buff_next ≡ s.buff_next
  pub idx_follows : t.buff_idx ≡ s.buff_next
  pub total_same : t.buff_total_len ≡ s.buff_total_len

pub update_buff_idx-Halts : (s : Context) → Halts (λ _ t. Follows s t) (update_buff_idx s)
unfolding update_buff_idx
update_buff_idx-Halts s =
    if-Halts _ (not s.has_buff_idx) _ _ (λ _. tt)
      (λ _.
        if-Halts _ (ltb_ℤ s.buff_total_len (pos s.buff_next)) _ _ (λ _. tt)
          (λ _. record { next_same = refl; idx_follows = refl; total_same = refl }))

reject_zero-Halts : (len : ℕ) (s : Context) → Halts (λ _ t. Keeps s t) (reject_zero len s)
unfolding reject_zero
reject_zero-Halts len s = if-Halts _ (len == 0) _ _ (λ _. tt) (λ _. Keeps-refl s)

parse_fields-Halts : (hdr : List ℕ) (s : Context) → Halts (λ _ t. Follows s t) (parse_fields hdr s)
unfolding parse_fields
parse_fields-Halts hdr s = checked-Halts _ (get_elem? hdr 3) _ s (λ ct _.
    checked-Halts _ (get_elem? hdr 4) _ s (λ cs _. checked-Halts _ (get_elem? hdr 5) _ s (λ enc _.
      checked-Halts _ (get_elem? hdr 6) _ s (λ encr _.
        checked-Halts _ (get_elem? hdr 7) _ s (λ compr _.
          checked-Halts _ (deserialize_int32 (drop 8 hdr)) _ s (λ len _.
            let prepare = λ (p : Packet). record p {
              payload = payload_or_new p.payload len;
              has_file_attachment =
                  if ct == type_value generic_file then true else p.has_file_attachment;
            } in
            >>=-Halts _ _ (reject_zero len) _ _ (reject_zero-Halts len _) (λ _ t k.
              Halts-mono _ _ (update_buff_idx (record t { packet = prepare t.packet }))
                (λ _ u f. record {
                  next_same = f.next_same ∙ k.next_same;
                  idx_follows = f.idx_follows ∙ k.next_same;
                  total_same = f.total_same ∙ k.total_same;
                })
                (update_buff_idx-Halts (record t { packet = prepare t.packet })))))))))

pub rebuild_header-Halts :
    (s : Context)
    → Halts (λ _ t. ((h : List ℕ) × (s.header ≡ some h)) × Follows s t) (rebuild_header s)
unfolding rebuild_header
rebuild_header-Halts s = checked-Halts _ s.header _ s (λ hdr there.
    checked-Halts _ (deserialize_int16 (drop 1 hdr)) _ s (λ len _.
      let known : Context = record s { packet = record (s.packet) { hdr_len = len } } in
      >>=-Halts _ _ (reject_zero len) _ known (reject_zero-Halts len known) (λ _ t k.
        Halts-mono _ _ (parse_fields hdr t)
          (λ _ u f. (
            (hdr, there),
            record {
              next_same = f.next_same ∙ k.next_same;
              idx_follows = f.idx_follows ∙ k.next_same;
              total_same = f.total_same ∙ k.total_same;
            },
          ))
          (parse_fields-Halts hdr t))))

module _ (env : Platform) where
  make_pkt-Halts : (s : Context) → Halts (λ _ t. Keeps s t) (make_pkt env s)
  unfolding make_pkt assemble
  make_pkt-Halts s = sized s.pkt_len
    where
      sized :
          (k : ℤ)
          → Halts
              (λ _ t. Keeps s t)
              (elim k as (λ _. Outcome Context (Unit {0})) [
                | pos n ↦ if ltb n (2 ^ 31 - 1) then assemble env n s else fault
                | negsuc n ↦ fault
              ])
      sized (pos n) =
          if-Halts _ (ltb n (2 ^ 31 - 1)) _ _
            (λ _. checked-Halts _ (store (env.uninitialised (n + 1)) n 0) _ s (λ cleared _.
              checked-Halts _ (source s.header s.full_hdr_len) _ s (λ h _.
                checked-Halts _ (memcpy cleared 0 h) _ s (λ with_header _.
                  checked-Halts _ (source s.payload s.payload_len) _ s (λ body _.
                    checked-Halts _ (memcpy with_header s.full_hdr_len body) _ s (λ whole _.
                      record { next_same = refl; idx_same = refl; total_same = refl }))))))
            (λ _. tt)
      sized (negsuc n) = tt

  write_attachment-Halts :
      (d : List ℕ) (s : Context) → Halts (λ _ t. Keeps s t) (write_attachment env d s)
  unfolding write_attachment output_to_file
  write_attachment-Halts d s =
      if-Halts _ s.has_file_attachment _ _
        (λ _.
          if-Halts _ env.can_write _ _
            (λ _.
              checked-Halts _ (read_n s.payload_len d) _ s
                (λ written _. record { next_same = refl; idx_same = refl; total_same = refl }))
            (λ _. Keeps-refl s))
        (λ _. Keeps-refl s)

  complete-Halts : (s : Context) → Halts (λ _ t. Keeps s t) (complete env s)
  unfolding complete
  complete-Halts s = checked-Halts _ s.payload _ s (λ d _.
      >>=-Halts _ _ (write_attachment env d) _ s (write_attachment-Halts d s) (λ _ t k.
        Halts-mono _ _ (make_pkt env t)
          (λ _ u k'. record {
            next_same = k'.next_same ∙ k.next_same;
            idx_same = k'.idx_same ∙ k.idx_same;
            total_same = k'.total_same ∙ k.total_same;
          })
          (make_pkt-Halts t)))

  -- Bytes are missing only while the loop's test on them holds.
  abbrev pub Missing : Context → Bool → Type 0
  Missing s true = ltb_ℤ (pos s.num_bytes_read) s.pkt_len ≡ true
  Missing s false = Unit {0}

  pub finish-Halts :
      (s : Context) → Halts (λ pending t. Keeps s t × Missing s pending) (finish env s)
  unfolding finish
  finish-Halts s = sized s.pkt_len refl
    where
      sized :
          (k : ℤ)
          → s.pkt_len ≡ k
          → Halts
              (λ pending t. Keeps s t × Missing s pending)
              (elim k as (λ _. Outcome Context Bool) [
                | pos n ↦
                    if ltb s.num_bytes_read n
                    then ok true s
                    else if s.num_bytes_read == n
                    then (complete env >>= λ _ t. ok false t) s
                    else throw packet_exception s
                | negsuc n ↦
                    if leb (n + 1 + s.num_bytes_read) (2 ^ 31)
                    then throw packet_exception s
                    else fault
              ])
      sized (pos n) e =
          if-Halts _ (ltb s.num_bytes_read n) _ _
            (λ lt. (Keeps-refl s, ap (ltb_ℤ (pos s.num_bytes_read)) e ∙ lt))
            (λ _.
              if-Halts _ (s.num_bytes_read == n) _ _
                (λ _.
                  >>=-Halts _ _ (complete env) (λ _ t. ok false t) s (complete-Halts s)
                    (λ _ t k. (k, tt)))
                (λ _. tt))
      sized (negsuc n) e =
          if-Halts _ (leb (n + 1 + s.num_bytes_read) (2 ^ 31)) _ _ (λ _. tt) (λ _. tt)

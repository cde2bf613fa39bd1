-- ===== src/Packet/Rebuild/Finish.antt =====
-- The rest of `rebuild` behind the header: the payload loop, and what is done with a whole packet.
use p2purr.Base.{
  ℕ, ◌+◌, ◌-◌, ◌^◌, ◌≤◌, ◌<◌, ◌≡◌, refl, ap₂, ◌∙◌, ◌⊎◌, true, false, Option, some, List, [], ◌∷◌,
  ◌++◌, arith, length, Agree, pos, ok, checked->>=, >>-ok, if◌then◌else◌,
}
use p2purr.Packet.{Platform, Context}
use p2purr.Packet.Build.{source}
use p2purr.Packet.Assemble.{make_pkt_lem, source_all}
use p2purr.Packet.Rebuild.{read_payload, output_to_file, write_attachment, complete, finish}
use p2purr.Packet.Rebuild.Body.{reading_loop}

-- `s` with `off` bytes `p` of the payload read, at index `i`.
abbrev pub with_payload : Context → ℕ → ℕ → List ℕ → Context
with_payload s i off p = record s {
  packet = record (s.packet) { num_bytes_read = 12 + off; buff_next = i; payload = some p };
  buff_idx = i;
}

pub read_payload_lem :
    (s : Context) (body p : List ℕ) (total k i off i' off' : ℕ)
    → i + k ≡ i'
    → off + k ≡ off'
    → i' ≤ total
    → off' ≤ length body
    → (i' ≡ total) ⊎ (off' ≡ length body)
    → s.payload ≡ some p
    → s.buff_total_len ≡ pos total
    → s.pkt_len ≡ pos (12 + length body)
    → s.full_hdr_len ≡ 12
    → s.num_bytes_read ≡ 12 + off
    → s.buff_idx ≡ i
    → s.buff_next ≡ i
    → length p ≡ length body
    → Agree p 0 body 0 off
    → Agree s.recv_buffer i body off k
    → (p' : List ℕ) × (read_payload s ≡ ok tt (with_payload s i' off' p'))
      × (length p' ≡ length body)
      × Agree p' 0 body 0 off'
unfolding read_payload
read_payload_lem s body p total k i off i' off' ei eo li lo stop ep et el ef en ex eb lp old more =
    let (p', run, lp', agree) =
      reading_loop s.recv_buffer total body k (total + 1) i off i' off' p (omega arith) ei eo li lo
        stop lp old more in
    (p', ground (arith, run), lp', agree)

module _ (env : Platform) where
  -- The contents of "out.txt" after a packet with the payload `data'`.
  abbrev pub written : Context → List ℕ → Option (List ℕ)
  written s data' =
      if s.has_file_attachment
      then (if env.can_write then some data' else s.out_file)
      else s.out_file

  write_attachment_lem :
      (s : Context) (data' : List ℕ)
      → s.payload_len ≡ length data'
      → write_attachment env data' s ≡ ok tt (record s { out_file = written s data' })
  unfolding write_attachment output_to_file
  write_attachment_lem s data' e = ground (arith, source_all env data')

  -- A whole packet is written to the file if it has one attached, and joined.
  pub complete_lem :
      (s : Context) (h data' : List ℕ)
      → s.payload ≡ some data'
      → s.payload_len ≡ length data'
      → s.header ≡ some h
      → s.full_hdr_len ≡ length h
      → s.pkt_len ≡ pos (length h + length data')
      → length h + length data' < 2 ^ 31 - 1
      → complete env s
        ≡ ok tt (record s {
          packet = record (s.packet) { built_pkt = some (h ++ (data' ++ 0 ∷ [])) };
          out_file = written s data';
        })
  unfolding complete
  complete_lem s h data' ep el eh ef en lt =
      checked->>= s.payload _ {s = s} ep
      ∙ >>-ok (write_attachment env data') _ (write_attachment_lem s data' el)
      ∙ make_pkt_lem env (length h + length data') (record s { out_file = written s data' }) h data'
          eh ef (ap₂ source ep el ∙ source_all env data') en refl lt

  pub finish_pending :
      (s : Context) (n : ℕ) → s.pkt_len ≡ pos n → s.num_bytes_read < n → finish env s ≡ ok true s
  unfolding finish
  finish_pending s n e lt = ground arith

  pub finish_done :
      (s : Context) (n : ℕ) (t : Context)
      → s.pkt_len ≡ pos n
      → s.num_bytes_read ≡ n
      → complete env s ≡ ok tt t
      → finish env s ≡ ok false t
  unfolding finish
  finish_done s n t e en run = ground (arith, run)

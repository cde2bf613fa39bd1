-- ===== src/Packet/Rebuild/InRange/Finish.antt =====
-- `finish`, with what it calls, leaves the index in range.
use p2purr.Base.{
  ℕ, ◌+◌, ◌^◌, ◌-◌, Bool, true, false, List, ltb, leb, ◌==◌, if◌then◌else◌, ℤ, pos, negsuc, Outcome,
  ok, throw, fault, ◌>>=◌, packet_exception, store, memcpy, read_n, if-Behaves, checked-Leaves,
}
use p2purr.Packet.{Platform, Context}
use p2purr.Packet.Build.{make_pkt, assemble, source}
use p2purr.Packet.Rebuild.{output_to_file, write_attachment, complete, finish}
use p2purr.Packet.Rebuild.InRange.{IsInStep, StaysInStep, in_range, then-StaysInStep}

module _ (buffer : List ℕ) (total : ℕ) (env : Platform) where
  make_pkt-StaysInStep :
      (s : Context) → IsInStep buffer total s → StaysInStep buffer total (make_pkt env s)
  unfolding make_pkt assemble
  make_pkt-StaysInStep s h = sized s.pkt_len
    where
      sized :
          (k : ℤ)
          → StaysInStep buffer total (elim k as (λ _. Outcome Context (Unit {0})) [
            | pos n ↦ if ltb n (2 ^ 31 - 1) then assemble env n s else fault
            | negsuc n ↦ fault
          ])
      sized (pos n) =
          if-Behaves _ _ _ (ltb n (2 ^ 31 - 1)) _ _
            (λ _. checked-Leaves _ _ (store (env.uninitialised (n + 1)) n 0) _ s (λ cleared.
              checked-Leaves _ _ (source s.header s.full_hdr_len) _ s (λ front.
                checked-Leaves _ _ (memcpy cleared 0 front) _ s (λ with_header.
                  checked-Leaves _ _ (source s.payload s.payload_len) _ s (λ body.
                    checked-Leaves _ _ (memcpy with_header s.full_hdr_len body) _ s (λ whole.
                      record {
                        buffer_is = h.buffer_is;
                        next_is = h.next_is;
                        inside = h.inside;
                        total_is = h.total_is;
                      }))))))
            (λ _. tt)
      sized (negsuc n) = tt

  write_attachment-StaysInStep :
      (d : List ℕ) (s : Context)
      → IsInStep buffer total s
      → StaysInStep buffer total (write_attachment env d s)
  unfolding write_attachment output_to_file
  write_attachment-StaysInStep d s h =
      if-Behaves _ _ _ s.has_file_attachment _ _
        (λ _.
          if-Behaves _ _ _ env.can_write _ _
            (λ _. checked-Leaves _ _ (read_n s.payload_len d) _ s (λ written. record {
              buffer_is = h.buffer_is;
              next_is = h.next_is;
              inside = h.inside;
              total_is = h.total_is;
            }))
            (λ _. h))
        (λ _. h)

  complete-StaysInStep :
      (s : Context) → IsInStep buffer total s → StaysInStep buffer total (complete env s)
  unfolding complete
  complete-StaysInStep s h = checked-Leaves _ _ s.payload _ s (λ d.
      then-StaysInStep buffer total (write_attachment env d) _ s
        (write_attachment-StaysInStep d s h) (λ _ t g. make_pkt-StaysInStep t g))

  pub finish-StaysInStep :
      (s : Context) → IsInStep buffer total s → StaysInStep buffer total (finish env s)
  unfolding finish
  finish-StaysInStep s h = sized s.pkt_len
    where
      sized :
          (k : ℤ)
          → StaysInStep buffer total (elim k as (λ _. Outcome Context Bool) [
            | pos n ↦
                if ltb s.num_bytes_read n
                then ok true s
                else if s.num_bytes_read == n
                then (complete env >>= λ _ t. ok false t) s
                else throw packet_exception s
            | negsuc n ↦
                if leb (n + 1 + s.num_bytes_read) (2 ^ 31) then throw packet_exception s else fault
          ])
      sized (pos n) =
          if-Behaves _ _ _ (ltb s.num_bytes_read n) _ _ (λ _. h)
            (λ _.
              if-Behaves _ _ _ (s.num_bytes_read == n) _ _
                (λ _.
                  then-StaysInStep buffer total (complete env) (λ _ t. ok false t) s
                    (complete-StaysInStep s h) (λ _ t g. g))
                (λ _. in_range buffer total s h))
      sized (negsuc n) =
          if-Behaves _ _ _ (leb (n + 1 + s.num_bytes_read) (2 ^ 31)) _ _
            (λ _. in_range buffer total s h) (λ _. tt)

-- ===== src/Peer/Stream.antt =====
-- A run of packets in the wire format, and the rounds of `recv_pkt` on it.
pub mod Loop
use p2purr.Base.{
  Bool, true, false, if◌then◌else◌, ℕ, zero, suc, ◌+◌, ◌-◌, ◌≤◌, ◌<◌, ◌≡◌, refl, sym, ap, subst,
  ◌∙◌, ◌⊎◌, inl, inr, Option, none, some, List, [], ◌∷◌, ◌++◌, append-nil, append_assoc, arith,
  length, length-append, get_elem?-append_left, get_elem?-append_right, Agree, pos, ok, >>-ok,
  lt→ltb, le→ltb_false, get_elem?, ◌^◌,
}
use p2purr.Packet.{Packet, Platform, Context, set_buff_size}
use p2purr.Packet.Wire.{Message, IsMessage, wire, length-wire}
use p2purr.Packet.Rebuild.{for_rebuild, rebuild}
use p2purr.Packet.Rebuild.Chunk.{is_file, Progress, Progress-same}
use p2purr.Packet.Rebuild.Step.{file_after, IsRebuilt, rebuild_partial, rebuild_whole}
use p2purr.Peer.{PeerConnHandler, current, context, after, collected, settle, pkt_round, pkt_loop}

-- The receiver refuses an empty payload.
pub record IsDeliverable (m : Message) : Type 0 where
  pub message : IsMessage m
  pub not_empty : 0 < length m.body

-- Each message of a list is deliverable, and each packet of a list is the message at its place.
abbrev pub AllDeliverable : List Message → Type 0
AllDeliverable [] = Unit {0}
AllDeliverable (m ∷ ms) = IsDeliverable m × AllDeliverable ms

abbrev pub AllRebuilt : List Message → List Packet → Type 0
AllRebuilt [] [] = Unit {0}
AllRebuilt [] (p ∷ ps) = ⊥
AllRebuilt (m ∷ ms) [] = ⊥
AllRebuilt (m ∷ ms) (p ∷ ps) = IsRebuilt m p × AllRebuilt ms ps

-- The stream that the packets make.
abbrev pub wires : List Message → List ℕ
wires [] = []
wires (m ∷ ms) = wire m ++ wires ms

-- The current packet has read `n` bytes of the message; there is none before the first byte.
abbrev pub Holds : Message → ℕ → Option Packet → Type 0
Holds m n none = n ≡ 0
Holds m n (some p) = (0 < n) × Progress m n p

-- Where the stream may break off: before a packet, or behind its first three bytes.
abbrev pub IsBreak : Message → ℕ → Type 0
IsBreak m n = ((n ≡ 0) ⊎ (3 ≤ n)) × (n < length (wire m))

-- The first of the messages that the buffer ends.
abbrev pub first : List Message → Message → Message
first [] m' = m'
first (m ∷ ms) m' = m

pub Holds-length : (m : Message) (n : ℕ) (o : Option Packet) → Holds m n o → n < length (wire m)
Holds-length m n none h = omega (arith, length-wire m)
Holds-length m n (some p) (pos_n, h) = omega (arith, h.short, length-wire m)

fresh_attached : (b : Bool) → (if b then true else false) ≡ b
fresh_attached true = refl
fresh_attached false = refl

-- The contents of "out.txt" after the messages, and before them.
abbrev pub files_after : Platform → List Message → Option (List ℕ) → Option (List ℕ)
files_after env [] old = old
files_after env (m ∷ ms) old = files_after env ms (file_after env m old)

module _ (env : Platform) where
  fresh-Progress : (m : Message) (idx total : ℕ) → Progress m 0 (for_rebuild env idx (pos total))
  unfolding for_rebuild
  fresh-Progress m idx total = record {
    index_set = refl;
    short = omega arith;
    attached = fresh_attached (is_file m);
    header_read = inl (
      record { read_none = refl; length_unknown = refl; no_length = refl; no_header = refl },
      refl,
    );
    payload_read = inl (refl, omega arith);
  }

  pub current-Progress :
      (m : Message) (n total : ℕ) (s : PeerConnHandler) (o : Option Packet)
      → s.current_pkt ≡ o
      → Holds m n o
      → Progress m n (current env total s)
  unfolding current set_buff_size
  current-Progress m n total s none e h =
      rw (e, h)
        (Progress-same m 0
          (record {
            index_same = refl;
            attached_same = refl;
            read_same = refl;
            full_same = refl;
            length_same = refl;
            header_same = refl;
            payload_same = refl;
          })
          (fresh-Progress m s.curr_buff_idx total))
  current-Progress m n total s (some p) e h = rw e (
      Progress-same m n
        (record {
          index_same = refl;
          attached_same = refl;
          read_same = refl;
          full_same = refl;
          length_same = refl;
          header_same = refl;
          payload_same = refl;
        })
        h.1)

  pub current-buff_total_len :
      (total : ℕ) (s : PeerConnHandler)
      → total < 2 ^ 31
      → (current env total s).buff_total_len ≡ pos total
  unfolding current set_buff_size
  current-buff_total_len total s lt = ground arith

  -- What one round does with the outcome of `rebuild`.
  pub pkt_round-ok :
      (total : ℕ) (s : PeerConnHandler) (c : Context)
      → rebuild env (context env total s) ≡ ok tt c
      → pkt_round env total s ≡ ok tt (collected env s c)
  unfolding pkt_round
  pkt_round-ok total s c e = ap (settle env s) e

  pub pkt_loop_end :
      (fuel total : ℕ) (s : PeerConnHandler)
      → total ≤ s.curr_buff_idx
      → pkt_loop env fuel total s ≡ ok tt s
  unfolding pkt_loop
  pkt_loop_end zero total s le = rw (le→ltb_false s.curr_buff_idx total le)
  pkt_loop_end (suc fuel) total s le = rw (le→ltb_false s.curr_buff_idx total le)

  pub pkt_loop_round :
      (fuel total : ℕ) (s t : PeerConnHandler)
      → s.curr_buff_idx < total
      → pkt_round env total s ≡ ok tt t
      → pkt_loop env (suc fuel) total s ≡ pkt_loop env fuel total t
  unfolding pkt_loop
  pkt_loop_round fuel total s t lt e =
      rw (lt→ltb s.curr_buff_idx total lt) (>>-ok (pkt_round env total) (pkt_loop env fuel total) e)

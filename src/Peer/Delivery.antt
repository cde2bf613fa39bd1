-- ===== src/Peer/Delivery.antt =====
-- A whole stream of packets over as many calls of `recv_pkt` as it takes.
use p2purr.Base.{
  ℕ, zero, suc, ◌+◌, ◌<◌, ◌≡◌, refl, sym, ap, ap₂, ◌∙◌, subst, inl, inr, Option, none, List, [],
  ◌∷◌, ◌++◌, append-nil, append_assoc, arith, length, length-append, get_elem?,
  get_elem?-append_left, ok, ◌>>◌, >>-ok,
}
use p2purr.Packet.{Packet, Platform}
use p2purr.Packet.Wire.{Message, wire}
use p2purr.Socket.{RecvAnswer, got}
use p2purr.Peer.{PeerConnHandler, PeerM, recv_pkt}
use p2purr.Packet.Rebuild.Step.{file_after}
use p2purr.Peer.Stream.{files_after, AllDeliverable, AllRebuilt, wires, Holds, Holds-length}
use p2purr.Peer.Cut.{
  Follows, wires-Split, IsCut, IsCut-later, later_bytes, AllRebuilt-append, wires-append,
}
use p2purr.Peer.Receive.{IsListening, recv_pkt-got}

-- The pieces end to end, and as answers of `recv`.
abbrev pub concat : List (List ℕ) → List ℕ
concat [] = []
concat (piece ∷ pieces) = piece ++ concat pieces

abbrev pub gots : List (List ℕ) → List RecvAnswer → List RecvAnswer
gots [] rest = rest
gots (piece ∷ pieces) rest = got piece ∷ gots pieces rest

Follows-none : (ms : List Message) (o : Option Packet) → o ≡ none → Follows ms 0 o
Follows-none [] o e = e
Follows-none (m ∷ ms) o e = subst (Holds m 0) (sym e) refl

files_after-append :
    (env : Platform) (ms ms' : List Message) (old : Option (List ℕ))
    → files_after env (ms ++ ms') old ≡ files_after env ms' (files_after env ms old)
files_after-append env [] ms' old = refl
files_after-append env (m ∷ ms) ms' old = files_after-append env ms ms' (file_after env m old)

module _ (env : Platform) where
  -- As many calls of `recv_pkt`, as the poll thread makes them.
  unfoldable pub recv_pkts : ℕ → PeerM (Unit {0})
  recv_pkts zero s = ok tt s
  recv_pkts (suc n) s = (recv_pkt env >> recv_pkts n) s

  -- What the calls have done with the rest of a stream.
  abbrev Delivered : List Message → List RecvAnswer → ℕ → PeerConnHandler → Type 0
  Delivered ms rest n s =
      (t : PeerConnHandler) × (ps : List Packet) × (recv_pkts n s ≡ ok tt t)
      × AllRebuilt ms ps
      × (t.completed_pkts ≡ s.completed_pkts ++ ps)
      × (t.current_pkt ≡ none)
      × (t.sock_helper.os.recvs ≡ rest)
      × (t.out_file ≡ files_after env ms s.out_file)
      × IsListening t

  deliver :
      (pieces : List (List ℕ)) (ms : List Message) (n : ℕ) (s : PeerConnHandler)
      (rest : List RecvAnswer)
      → AllDeliverable ms
      → IsListening s
      → s.sock_helper.os.recvs ≡ gots pieces rest
      → n + length (concat pieces) ≡ length (wires ms)
      → IsCut s.buff_size ms n pieces
      → Follows ms n s.current_pkt
      → ((t : ℕ)
          → t < length (concat pieces)
          → get_elem? (concat pieces) t ≡ get_elem? (wires ms) (n + t))
      → Delivered ms rest (length pieces) s
  unfolding recv_pkts
  deliver [] [] n s rest ds v e en cut h agree =
      (s, [], refl, tt, sym (append-nil s.completed_pkts), h, e, refl, v)
  deliver [] (m ∷ ms) n s rest ds v e en cut h agree =
      absurd (omega (arith, Holds-length m n s.current_pkt h, length-append (wire m) (wires ms)))
  deliver (piece ∷ pieces) [] n s rest ds v e en (pos_n, fits, at, cut) h agree =
      absurd (omega (arith, length-append piece (concat pieces)))
  deliver (piece ∷ pieces) (m ∷ ms) n s rest ds v e en (pos_n, fits, at, cut) h agree =
      let size : length (concat (piece ∷ pieces)) ≡ length piece + length (concat pieces) =
        length-append piece (concat pieces) in
      let q = wires-Split m (m ∷ ms) (n + length piece) (omega arith) in
      let total : length (wires q.done) + length (wires q.later) ≡ length (wires (m ∷ ms)) =
        sym (length-append (wires q.done) (wires q.later))
        ∙ ap length (sym (wires-append q.done q.later) ∙ ap wires q.parts) in
      let (dd, db, dl) = q.deliverable ds ds.0 in
      let (t, ps, run, all, pushed, holds, et, zt, ot, vt) =
        recv_pkt-got env q.done q.broken n q.read s (gots pieces rest) piece dd db v e pos_n fits
          q.count
          (
            elim at [
              | inl z ↦ inl (q.at_offset ∙ z)
              | inr three ↦ inr (omega (arith, q.at_offset))
            ],
            q.inside,
          )
          (q.before n s.current_pkt (omega arith) h)
          (λ j lt.
            ap (get_elem? piece) (omega arith)
            ∙ sym (get_elem?-append_left piece (concat pieces) j lt)
            ∙ agree j (omega arith)
            ∙ sym (q.same (n + j) (omega arith))) in
      let (u, ps', runs, all', pushed', cleared, eu, ou, vu) =
        deliver pieces q.later q.read t rest dl vt et (omega (arith, q.count))
          (subst (λ room. IsCut room q.later q.read pieces) (sym zt)
            (IsCut-later s.buff_size q.done q.later (n + length piece) q.read pieces q.count
              (subst (λ xs. IsCut s.buff_size xs (n + length piece) pieces) (sym q.parts) cut)))
          (q.behind t.current_pkt holds)
          (later_bytes q.done q.later piece (concat pieces) n q.read q.count
            (λ j lt. agree j lt ∙ ap (λ xs. get_elem? (wires xs) (n + j)) (sym q.parts))) in
      (
        u,
        ps ++ ps',
        >>-ok (recv_pkt env) (recv_pkts (length pieces)) run ∙ runs,
        subst (λ xs. AllRebuilt xs (ps ++ ps')) q.parts
            (AllRebuilt-append q.done q.later ps ps' all all'),
        pushed' ∙ ap (λ xs. xs ++ ps') pushed ∙ append_assoc s.completed_pkts ps ps',
        cleared,
        eu,
        ou
            ∙ ap (files_after env q.later) ot
            ∙ sym (files_after-append env q.done q.later s.out_file)
            ∙ ap (λ xs. files_after env xs s.out_file) q.parts,
        vu,
      )

  -- A stream of messages that fit and are not empty arrives in pieces, none of them empty or larger than
  -- the buffer, and none ending behind the first or the second byte of a packet. On an open connection
  -- with no packet begun, as many calls of `recv_pkt` as there are pieces complete exactly the messages,
  -- in order and as they were sent, write the payloads of those that carry a file to the output file, in
  -- order, if it can be written, and leave the connection open, with no packet begun and the later answers
  -- of `recv` alone.
  pub recv_pkts-wires :
      (ms : List Message) (pieces : List (List ℕ)) (s : PeerConnHandler) (rest : List RecvAnswer)
      → AllDeliverable ms
      → IsListening s
      → s.current_pkt ≡ none
      → s.sock_helper.os.recvs ≡ gots pieces rest
      → concat pieces ≡ wires ms
      → IsCut s.buff_size ms 0 pieces
      → (t : PeerConnHandler) × (ps : List Packet) × (recv_pkts (length pieces) s ≡ ok tt t)
        × AllRebuilt ms ps
        × (t.completed_pkts ≡ s.completed_pkts ++ ps)
        × (t.current_pkt ≡ none)
        × (t.sock_helper.os.recvs ≡ rest)
        × (t.out_file ≡ files_after env ms s.out_file)
        × IsListening t
  recv_pkts-wires ms pieces s rest ds v c e ew cut =
      deliver pieces ms 0 s rest ds v e (omega (arith, ap length ew)) cut
        (Follows-none ms s.current_pkt c) (λ t lt. ap₂ (λ xs i. get_elem? xs i) ew (omega arith))

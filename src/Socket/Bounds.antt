-- ===== src/Socket/Bounds.antt =====
-- `receive` writes inside of the buffer only, whatever the operating system answers.
use p2purr.Base.{
  ℕ, ◌+◌, ◌≤◌, ◌<◌, ◌≡◌, refl, sym, ap, subst, ◌∙◌, true, not, none, some, List, [], ◌∷◌, ◌++◌,
  arith, length, length-append, length-take, length-drop, take, drop, memcpy, ltb, Bool-cases, inl,
  inr, le→leb, ltb→lt, ltb_false→le, if◌then◌else◌, Outcome, ok, Ends, within-Behaves, if-Behaves,
}
use p2purr.Socket.{
  RecvAnswer, got, closed, failed, Receiving, with_recvs, hang_up, recv_loop, receive, close_sock,
}
use p2purr.Socket.Transfer.{recv_loop_end, receive_once}
use p2purr.Socket.Silence.{at_answer}
use p2purr.Socket.Closing.{close_sock-Ends}

-- What `recv` documents of its next answer: it gives at least one byte, and no more than it was asked
-- for.
abbrev pub NextFits : ℕ → List RecvAnswer → Type 0
NextFits max' [] = Unit {0}
NextFits max' (got bytes ∷ rest) = (0 < length bytes) × (length bytes ≤ max')
NextFits max' (closed ∷ rest) = Unit {0}
NextFits max' (failed ∷ rest) = Unit {0}

length-memcpy :
    (dst : List ℕ) (off : ℕ) (src b : List ℕ) → memcpy dst off src ≡ some b → length b ≡ length dst
unfolding memcpy
length-memcpy dst off src b e = ground (
  arith,
  e,
  length-append (take off dst) (src ++ drop (off + length src) dst),
  length-append src (drop (off + length src) dst),
  length-take off dst,
  length-drop (off + length src) dst,
)

-- The buffer keeps its size, and no more bytes are counted than were asked for.
abbrev pub StaysInside : ℕ → Receiving → Outcome Receiving ℕ → Type 0
StaysInside max' r =
    Ends (λ n t. (n ≤ max') × (length t.buffer ≡ length r.buffer))
      (λ _ t. length t.buffer ≡ length r.buffer)

hang_up-StaysInside : (max' : ℕ) (r : Receiving) → StaysInside max' r (hang_up 0 r)
unfolding hang_up
hang_up-StaysInside max' r =
    within-Behaves _ _ _ _ _ _ _ (close_sock r.socket) (close_sock-Ends r.socket)
      (λ _ _ _. (omega arith, refl)) (λ _ _ _. refl)

module _ (off max' : ℕ) (r : Receiving) (fits : off + max' ≤ length r.buffer) where
  fitting_copy :
      (bytes : List ℕ)
      → length bytes ≤ max'
      → (b : List ℕ) × (memcpy r.buffer off bytes ≡ some b) × (length b ≡ length r.buffer)
  unfolding memcpy
  fitting_copy bytes few =
      let b = take off r.buffer ++ (bytes ++ drop (off + length bytes) r.buffer) in
      let copied : memcpy r.buffer off bytes ≡ some b =
        ap (λ c. if c then some b else none)
          (le→leb (off + length bytes) (length r.buffer) (omega arith)) in
      (b, copied, length-memcpy r.buffer off bytes b copied)

  receive-answered :
      (answers : List RecvAnswer)
      → r.socket.is_sock_open ≡ true
      → r.socket.os.recvs ≡ answers
      → (0 < max' → NextFits max' answers)
      → StaysInside max' r (receive off max' r)
  unfolding recv_loop
  receive-answered [] open' e next =
      subst (StaysInside max' r) (sym (at_answer off max' r [] [] open' e))
        (if-Behaves _ _ _ (ltb 0 max') _ _ (λ _. tt) (λ _. (omega arith, refl)))
  receive-answered (closed ∷ rest) open' e next =
      subst (StaysInside max' r) (sym (at_answer off max' r [] (closed ∷ rest) open' e)) (
        if-Behaves _ _ _ (ltb 0 max') _ _ (λ _. hang_up-StaysInside max' (with_recvs r rest))
          (λ _. (omega arith, refl)))
  receive-answered (failed ∷ rest) open' e next =
      subst (StaysInside max' r) (sym (at_answer off max' r [] (failed ∷ rest) open' e))
        (if-Behaves _ _ _ (ltb 0 max') _ _ (λ _. refl) (λ _. (omega arith, refl)))
  receive-answered (got bytes ∷ rest) open' e next = elim (Bool-cases (ltb 0 max')) [
    | inl some_room ↦
        let (some_bytes, few) = next (ltb→lt 0 max' some_room) in
        let (b, copied, same) = fitting_copy bytes few in
        subst (StaysInside max' r)
          (sym (receive_once off max' r rest bytes b open' e some_bytes few copied)) (few, same)
    | inr no_room ↦
        subst (StaysInside max' r)
          (sym (
            at_answer off max' r [] (got bytes ∷ rest) open' e
            ∙ recv_loop_end (got bytes ∷ rest) off max' 0 r (ltb_false→le 0 max' no_room)))
          (omega arith, refl)
  ]

  -- On any socket, if its next answer is as `recv` documents it, and the buffer has room for what is
  -- asked for: nothing is written outside.
  pub receive-StaysInside :
      (0 < max' → NextFits max' r.socket.os.recvs) → StaysInside max' r (receive off max' r)
  unfolding receive
  receive-StaysInside next = elim (Bool-cases r.socket.is_sock_open) [
    | inl open' ↦ receive-answered r.socket.os.recvs open' refl next
    | inr shut ↦
        subst
          (λ b.
            StaysInside max' r (if not b then ok 0 r else recv_loop r.socket.os.recvs off max' 0 r))
          (sym shut) (omega arith, refl)
  ]

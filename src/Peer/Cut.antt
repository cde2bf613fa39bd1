-- ===== src/Peer/Cut.antt =====
-- A stream of packets cut into the pieces that `recv` gives: where a piece ends.
use p2purr.Base.{
  ℕ, zero, suc, ◌+◌, ◌-◌, ◌≤◌, ◌<◌, ◌≡◌, refl, sym, ap, ◌∙◌, ◌⊎◌, inl, inr, Option, none, some,
  List, [], ◌∷◌, ◌++◌, append_assoc, arith, length, length-append, get_elem?, get_elem?-append_left,
  get_elem?-append_right, ap₂, Bool-cases, ltb, ltb→lt, le→ltb_false, ltb_false→le, if◌then◌else◌,
}
use p2purr.Packet.{Packet}
use p2purr.Packet.Wire.{Message, wire, length-wire}
use p2purr.Peer.Stream.{IsDeliverable, AllDeliverable, AllRebuilt, wires, Holds, first}

-- How far into its packet the byte at `k` stands.
unfoldable pub offset : List Message → ℕ → ℕ
offset [] k = k
offset (m ∷ ms) k = if ltb k (length (wire m)) then k else offset ms (k - length (wire m))

-- The current packet has read the first `n` bytes of the stream.
abbrev pub Follows : List Message → ℕ → Option Packet → Type 0
Follows [] n o = o ≡ none
Follows (m ∷ ms) n o = Holds m n o

pub wires-append : (xs ys : List Message) → wires (xs ++ ys) ≡ wires xs ++ wires ys
wires-append [] ys = refl
wires-append (x ∷ xs) ys =
    ap (◌++◌ (wire x)) (wires-append xs ys) ∙ sym (append_assoc (wire x) (wires xs) (wires ys))

get_elem?-append_congr :
    (xs ys zs : List ℕ) (k : ℕ)
    → ((t : ℕ) → t < k → get_elem? ys t ≡ get_elem? zs t)
    → (t : ℕ) → t < length xs + k
    → get_elem? (xs ++ ys) t ≡ get_elem? (xs ++ zs) t
get_elem?-append_congr [] ys zs k h t lt = h t (omega arith)
get_elem?-append_congr (x ∷ xs) ys zs k h zero lt = refl
get_elem?-append_congr (x ∷ xs) ys zs k h (suc t) lt =
    get_elem?-append_congr xs ys zs k h t (omega arith)

pub AllRebuilt-append :
    (ms ms' : List Message) (ps ps' : List Packet)
    → AllRebuilt ms ps
    → AllRebuilt ms' ps'
    → AllRebuilt (ms ++ ms') (ps ++ ps')
AllRebuilt-append [] ms' [] ps' a b = b
AllRebuilt-append [] ms' (p ∷ ps) ps' a b = elim a [ ]
AllRebuilt-append (m ∷ ms) ms' [] ps' a b = elim a [ ]
AllRebuilt-append (m ∷ ms) ms' (p ∷ ps) ps' (a, as') b = (a, AllRebuilt-append ms ms' ps ps' as' b)

-- The first `k` bytes of the stream: the packets that end there, and the one that is broken off, which
-- is `m0` where none is.
pub record Split (m0 : Message) (ms : List Message) (k : ℕ) : Type 0 where
  pub done : List Message
  pub later : List Message
  pub broken : Message
  pub read : ℕ
  pub parts : done ++ later ≡ ms
  pub count : k ≡ length (wires done) + read
  pub at_offset : read ≡ offset ms k
  pub inside : read < length (wire broken)
  pub same : (t : ℕ) → t < k → get_elem? (wires done ++ wire broken) t ≡ get_elem? (wires ms) t
  pub before : (n : ℕ) (o : Option Packet) → 0 < k → Follows ms n o → Holds (first done broken) n o
  pub behind : (o : Option Packet) → Holds broken read o → Follows later read o
  pub deliverable :
      AllDeliverable ms
      → IsDeliverable m0
      → AllDeliverable done × IsDeliverable broken × AllDeliverable later

-- Nothing of a packet is read before it is there.
Holds-none : (m : Message) (o : Option Packet) → Holds m 0 o → o ≡ none
Holds-none m none h = refl
Holds-none m (some p) (pos_n, h) = absurd (omega arith)

pub wires-Split : (m0 : Message) (ms : List Message) (k : ℕ) → k ≤ length (wires ms) → Split m0 ms k
unfolding offset
wires-Split m0 [] k le = record {
  done = [];
  later = [];
  broken = m0;
  read = 0;
  parts = refl;
  count = omega arith;
  at_offset = omega arith;
  inside = omega (arith, length-wire m0);
  same = λ t lt. absurd (omega arith);
  before = λ n o pos_k h. absurd (omega arith);
  behind = Holds-none m0;
  deliverable = λ ds d. (tt, d, tt);
}
wires-Split m0 (m ∷ ms) k le = elim (Bool-cases (ltb k (length (wire m)))) [
  | inl short ↦
      let lt : k < length (wire m) = ltb→lt k (length (wire m)) short in
      record {
        done = [];
        later = m ∷ ms;
        broken = m;
        read = k;
        parts = refl;
        count = omega arith;
        at_offset = rw short;
        inside = lt;
        same = λ t l. sym (get_elem?-append_left (wire m) (wires ms) t (omega arith));
        before = λ n o pos_k h. h;
        behind = λ o h. h;
        deliverable = λ (d, ds) d0. (tt, d, (d, ds));
      }
  | inr long ↦
      let ge : length (wire m) ≤ k = ltb_false→le k (length (wire m)) long in
      let size : length (wires (m ∷ ms)) ≡ length (wire m) + length (wires ms) =
        length-append (wire m) (wires ms) in
      let q = wires-Split m0 ms (k - length (wire m)) (omega arith) in
      record {
        done = m ∷ q.done;
        later = q.later;
        broken = q.broken;
        read = q.read;
        parts = ap (◌∷◌ m) q.parts;
        count = omega (arith, q.count, length-append (wire m) (wires q.done));
        at_offset = rw long q.at_offset;
        inside = q.inside;
        same = λ t lt.
            ap (λ xs. get_elem? xs t) (append_assoc (wire m) (wires q.done) (wire q.broken))
            ∙ get_elem?-append_congr (wire m) (wires q.done ++ wire q.broken) (wires ms)
                (k - length (wire m)) q.same t (omega arith);
        before = λ n o pos_k h. h;
        behind = q.behind;
        deliverable = λ (d, ds) d0. let (dq, dm, dl) = q.deliverable ds d0 in ((d, dq), dm, dl);
      }
]

-- Past the packets of `done`, the stream is that of `later`.
pub offset-append :
    (done later : List Message) (k j : ℕ)
    → k ≡ length (wires done) + j
    → offset (done ++ later) k ≡ offset later j
unfolding offset
offset-append [] later k j e = ap (offset later) (omega arith)
offset-append (m ∷ done) later k j e =
    let size : length (wires (m ∷ done)) ≡ length (wire m) + length (wires done) =
      length-append (wire m) (wires done) in
    rw (le→ltb_false k (length (wire m)) (omega arith))
      (offset-append done later (k - length (wire m)) j (omega arith))

-- The pieces are neither empty nor larger than `room`, and none ends behind the first or the second
-- byte of a packet.
abbrev pub IsCut : ℕ → List Message → ℕ → List (List ℕ) → Type 0
IsCut room ms n [] = Unit {0}
IsCut room ms n (piece ∷ pieces) =
    (0 < length piece)
    × (length piece ≤ room)
    × ((offset ms (n + length piece) ≡ 0) ⊎ (3 ≤ offset ms (n + length piece)))
    × IsCut room ms (n + length piece) pieces

pub IsCut-later :
    (room : ℕ) (done later : List Message) (k j : ℕ) (pieces : List (List ℕ))
    → k ≡ length (wires done) + j
    → IsCut room (done ++ later) k pieces
    → IsCut room later j pieces
IsCut-later room done later k j [] e h = tt
IsCut-later room done later k j (piece ∷ pieces) e (pos_n, fits, at, h) =
    let same = offset-append done later (k + length piece) (j + length piece) (omega arith) in
    (
      pos_n,
      fits,
      elim at [ inl z ↦ inl (omega (arith, same)) | inr three ↦ inr (omega (arith, same)) ],
      IsCut-later room done later (k + length piece) (j + length piece) pieces (omega arith) h,
    )

-- The bytes behind the first piece, in the stream of `later`.
pub later_bytes :
    (done later : List Message) (piece bytes : List ℕ) (n j : ℕ)
    → n + length piece ≡ length (wires done) + j
    → ((t : ℕ)
        → t < length (piece ++ bytes)
        → get_elem? (piece ++ bytes) t ≡ get_elem? (wires (done ++ later)) (n + t))
    → (t : ℕ) → t < length bytes
    → get_elem? bytes t ≡ get_elem? (wires later) (j + t)
later_bytes done later piece bytes n j e h t lt =
    sym (get_elem?-append_right piece bytes t)
    ∙ h (length piece + t) (omega (arith, length-append piece bytes))
    ∙ ap₂ (λ xs i. get_elem? xs i) (wires-append done later) (omega arith)
    ∙ get_elem?-append_right (wires done) (wires later) (j + t)

-- ===== src/Server/Order.antt =====
-- The order in which the iterators of the table's map give its entries, which an insertion may change.
use mathlib.Core.List.{Permᴰ}
use p2purr.Base.{
  suc, ◌≡◌, refl, sym, ap, ap₂, subst₂, ◌∙◌, Bool, true, false, ◌||◌, List, ◌∷◌, arith, length, ℤ,
  negsuc,
}
use p2purr.Peer.{PeerConnHandler}
use p2purr.Server.{PollFd, P2PurrServer, ==_ℤ}
use p2purr.Server.Table.{keys, member, Distinct, watches, AllWatched, ==_ℤ_sym}
use p2purr.Server.Sound.{Sound}

-- The server with its table in another order.
abbrev pub reordered : P2PurrServer → List (ℤ × PeerConnHandler) → P2PurrServer
reordered s peers = record s { sock_to_peer_map = peers }

pub keys-Perm : {xs ys : List (ℤ × PeerConnHandler)} → Permᴰ xs ys → Permᴰ (keys xs) (keys ys)
keys-Perm Permᴰ.nil = Permᴰ.nil
keys-Perm (Permᴰ.cons {a} {b} e p) = Permᴰ.cons (ap (λ q. q.0) e) (keys-Perm p)
keys-Perm (Permᴰ.swap {a} {b} {a'} {b'} e f) = Permᴰ.swap (ap (λ q. q.0) e) (ap (λ q. q.0) f)
keys-Perm (Permᴰ.trans p q) = Permᴰ.trans (keys-Perm p) (keys-Perm q)

length-Perm : {xs ys : List ℤ} → Permᴰ xs ys → length xs ≡ length ys
length-Perm Permᴰ.nil = refl
length-Perm (Permᴰ.cons e p) = ap suc (length-Perm p)
length-Perm (Permᴰ.swap e f) = refl
length-Perm (Permᴰ.trans p q) = length-Perm p ∙ length-Perm q

or_swap : (x y z : Bool) → (x || (y || z)) ≡ (y || (x || z))
or_swap true true z = refl
or_swap true false z = refl
or_swap false true z = refl
or_swap false false z = refl

member-Perm : (k : ℤ) {xs ys : List ℤ} → Permᴰ xs ys → member k xs ≡ member k ys
member-Perm k Permᴰ.nil = refl
member-Perm k (Permᴰ.cons e p) = ap₂ (λ j b. ==_ℤ j k || b) e (member-Perm k p)
member-Perm k (Permᴰ.swap {a} {b} {a'} {b'} {l} e f) =
    ap₂ (λ x y. ==_ℤ x k || (==_ℤ y k || member k l)) e f
    ∙ or_swap (==_ℤ b' k) (==_ℤ a' k) (member k l)
member-Perm k (Permᴰ.trans p q) = member-Perm k p ∙ member-Perm k q

pub Distinct-Perm : {xs ys : List ℤ} → Permᴰ xs ys → Distinct xs → Distinct ys
Distinct-Perm Permᴰ.nil d = tt
Distinct-Perm (Permᴰ.cons {a} {b} {l₁} {l₂} e p) (new', d) =
    (sym (member-Perm b p) ∙ ap (λ k. member k l₁) (sym e) ∙ new', Distinct-Perm p d)
Distinct-Perm (Permᴰ.swap {a} {b} {a'} {b'} {l} e f) (na, (nb, d)) =
    subst₂ (λ x y. Distinct (x ∷ y ∷ l)) f e (head_new, (tail_new, d))
  where
    apart : ==_ℤ b a ≡ false
    apart = ground arith

    head_new : (==_ℤ a b || member b l) ≡ false
    head_new = ap (λ c. c || member b l) (==_ℤ_sym a b ∙ apart) ∙ nb

    tail_new : member a l ≡ false
    tail_new = ground arith
Distinct-Perm (Permᴰ.trans p q) d = Distinct-Perm q (Distinct-Perm p d)

AllWatched-Perm :
    (ps : List PollFd) {xs ys : List ℤ} → Permᴰ xs ys → AllWatched xs ps → AllWatched ys ps
AllWatched-Perm ps Permᴰ.nil w = tt
AllWatched-Perm ps (Permᴰ.cons e p) (v, w, h) = (
  ap (λ k. ==_ℤ k (negsuc 0)) (sym e) ∙ v,
  ap (λ k. watches k ps) (sym e) ∙ w,
  AllWatched-Perm ps p h,
)
AllWatched-Perm ps (Permᴰ.swap e f) (va, wa, (vb, wb, h)) = (
  ap (λ k. ==_ℤ k (negsuc 0)) (sym f) ∙ vb,
  ap (λ k. watches k ps) (sym f) ∙ wb,
  (ap (λ k. ==_ℤ k (negsuc 0)) (sym e) ∙ va, ap (λ k. watches k ps) (sym e) ∙ wa, h),
)
AllWatched-Perm ps (Permᴰ.trans p q) w = AllWatched-Perm ps q (AllWatched-Perm ps p w)

pub reordered-Sound :
    (s : P2PurrServer) (peers : List (ℤ × PeerConnHandler))
    → Permᴰ s.sock_to_peer_map peers
    → Sound s
    → Sound (reordered s peers)
reordered-Sound s peers p h = record {
  inbound_limit = h.inbound_limit;
  outbound_limit = h.outbound_limit;
  bounded = omega (arith, h.bounded, length-Perm (keys-Perm p));
  distinct = Distinct-Perm (keys-Perm p) h.distinct;
  watched = AllWatched-Perm s.pollfd_list (keys-Perm p) h.watched;
}

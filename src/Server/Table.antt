-- ===== src/Server/Table.antt =====
-- The descriptors of the table of peers and of the poll list.
use p2purr.Base.{
  ℕ, ◌≡◌, refl, ap, ◌∙◌, Bool, true, false, ◌||◌, List, [], ◌∷◌, ◌++◌, arith, ℤ, pos, negsuc, ==→eq,
}
use p2purr.Peer.{PeerConnHandler}
use p2purr.Server.{PollFd, ==_ℤ, has_peer}

abbrev pub keys : List (ℤ × PeerConnHandler) → List ℤ
keys [] = []
keys ((k, peer) ∷ peers) = k ∷ keys peers

abbrev pub member : ℤ → List ℤ → Bool
member k [] = false
member k (j ∷ ks) = ==_ℤ j k || member k ks

-- No descriptor stands twice.
abbrev pub Distinct : List ℤ → Type 0
Distinct [] = Unit {0}
Distinct (k ∷ ks) = (member k ks ≡ false) × Distinct ks

-- Whether the poll list has an entry for the descriptor.
abbrev pub watches : ℤ → List PollFd → Bool
watches k [] = false
watches k (p ∷ ps) = ==_ℤ p.fd k || watches k ps

-- Every descriptor is one, and is watched.
abbrev pub AllWatched : List ℤ → List PollFd → Type 0
AllWatched [] ps = Unit {0}
AllWatched (k ∷ ks) ps = (==_ℤ k (negsuc 0) ≡ false) × (watches k ps ≡ true) × AllWatched ks ps

abbrev pub AllNot : ℤ → List ℤ → Type 0
AllNot fd [] = Unit {0}
AllNot fd (k ∷ ks) = (==_ℤ k fd ≡ false) × AllNot fd ks

pub ==_ℤ_refl : (a : ℤ) → ==_ℤ a a ≡ true
==_ℤ_refl (pos m) = ground arith
==_ℤ_refl (negsuc m) = ground arith

pub ==_ℤ_sym : (a b : ℤ) → ==_ℤ a b ≡ ==_ℤ b a
==_ℤ_sym (pos m) (pos n) = ground arith
==_ℤ_sym (pos m) (negsuc n) = refl
==_ℤ_sym (negsuc m) (pos n) = refl
==_ℤ_sym (negsuc m) (negsuc n) = ground arith

pub ==_ℤ→eq : (a b : ℤ) → ==_ℤ a b ≡ true → a ≡ b
==_ℤ→eq (pos m) (pos n) e = ap pos (==→eq m n e)
==_ℤ→eq (pos m) (negsuc n) e = cc
==_ℤ→eq (negsuc m) (pos n) e = cc
==_ℤ→eq (negsuc m) (negsuc n) e = ap negsuc (==→eq m n e)

pub has_peer-keys :
    (fd : ℤ) (peers : List (ℤ × PeerConnHandler)) → has_peer fd peers ≡ member fd (keys peers)
unfolding has_peer
has_peer-keys fd [] = refl
has_peer-keys fd ((k, peer) ∷ peers) = ap (λ b. ==_ℤ k fd || b) (has_peer-keys fd peers)

pub keys-append : (xs ys : List (ℤ × PeerConnHandler)) → keys (xs ++ ys) ≡ keys xs ++ keys ys
keys-append [] ys = refl
keys-append ((k, peer) ∷ xs) ys = ap (◌∷◌ k) (keys-append xs ys)

member-snoc :
    (j k : ℤ) (ks : List ℤ)
    → member j ks ≡ false
    → ==_ℤ k j ≡ false
    → member j (ks ++ k ∷ []) ≡ false
member-snoc j k [] h e = ground arith
member-snoc j k (i ∷ ks) h e = ground (arith, member-snoc j k ks)

pub Distinct-snoc :
    (k : ℤ) (ks : List ℤ) → Distinct ks → member k ks ≡ false → Distinct (ks ++ k ∷ [])
Distinct-snoc k [] d h = (refl, tt)
Distinct-snoc k (j ∷ ks) (dj, d) h =
    (member-snoc j k ks dj (==_ℤ_sym k j ∙ first'), Distinct-snoc k ks d rest)
  where
    first' : ==_ℤ j k ≡ false
    first' = ground arith

    rest : member k ks ≡ false
    rest = ground arith

watches-append : (k : ℤ) (ps qs : List PollFd) → watches k ps ≡ true → watches k (ps ++ qs) ≡ true
watches-append k [] qs h = cc
watches-append k (p ∷ ps) qs h = ground (arith, watches-append k ps qs)

watches-snoc :
    (k : ℤ) (e : ℕ) (ps : List PollFd) → watches k (ps ++ record { fd = k; events = e } ∷ []) ≡ true
watches-snoc k e [] = ground (arith, ==_ℤ_refl k)
watches-snoc k e (p ∷ ps) = ground (arith, watches-snoc k e ps)

pub AllWatched-append :
    (ks : List ℤ) (ps qs : List PollFd) → AllWatched ks ps → AllWatched ks (ps ++ qs)
AllWatched-append [] ps qs h = tt
AllWatched-append (k ∷ ks) ps qs (v, w, h) =
    (v, watches-append k ps qs w, AllWatched-append ks ps qs h)

pub AllWatched-snoc :
    (k : ℤ) (e : ℕ) (ks : List ℤ) (ps : List PollFd)
    → ==_ℤ k (negsuc 0) ≡ false
    → AllWatched ks ps
    → AllWatched (ks ++ k ∷ []) (ps ++ record { fd = k; events = e } ∷ [])
AllWatched-snoc k e [] ps v h = (v, watches-snoc k e ps, tt)
AllWatched-snoc k e (j ∷ ks) ps v (vj, w, h) =
    (vj, watches-append j ps _ w, AllWatched-snoc k e ks ps v h)

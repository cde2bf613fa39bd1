-- ===== src/Server/Registry.antt =====
-- The table of peers as a map from descriptors, whatever the order of its entries, and what the methods
-- do to this map.
pub mod Receiving
pub mod Removing
pub mod Sending
use mathlib.Core.List.{Permᴰ}
use p2purr.Base.{
  ℕ, ◌≡◌, refl, sym, ap, ap₂, subst, ◌∙◌, Bool, true, false, not, ◌||◌, ◌&&◌, ◌==◌, Option, none,
  some, List, [], ◌∷◌, ◌++◌, arith, if◌then◌else◌, Bool-cases, ◌⊎◌, inl, inr, ℤ, Outcome, ok, throw,
  fault, no_fuel, exits, within, M,
}
use p2purr.Packet.{Packet, Platform}
use p2purr.Peer.{PeerConnHandler, conn_active, recv_pkt, send_pkt, get_host, get_port}
use p2purr.Server.{
  PollFd, P2PurrServer, ==_ℤ, has_peer, insert_peer, same_text, recv_from, send_to, with_table,
  handle_client_communications,
}
use p2purr.Server.Disconnected.{active_peers, remove_disconnected_peers}
use p2purr.Server.Order.{keys-Perm, Distinct-Perm}
use p2purr.Server.Table.{keys, member, Distinct, ==_ℤ_refl, ==_ℤ_sym, ==_ℤ→eq}

-- What a map from descriptors to peers has under each.
abbrev pub Registry : Type 0
Registry = ℤ → Option PeerConnHandler

abbrev pub put : ℤ → PeerConnHandler → Registry → Registry
put fd peer r j = if ==_ℤ fd j then some peer else r j

-- The map that a table is.
unfoldable pub registry : List (ℤ × PeerConnHandler) → Registry
registry [] j = none
registry ((k, peer) ∷ peers) j = if ==_ℤ k j then some peer else registry peers j

-- A call on a table, as a call on the map.
abbrev pub viewed : {A : Type 0} → Outcome (List (ℤ × PeerConnHandler)) A → Outcome Registry A
viewed = within (λ a ts. ok a (registry ts)) (λ e ts. throw e (registry ts))

-- What a call on a peer leaves under its descriptor.
abbrev pub at_fd :
    {A B : Type 0} → (A → B) → ℤ → Registry → Outcome PeerConnHandler A → Outcome Registry B
at_fd g fd r = within (λ a t. ok (g a) (put fd t r)) (λ e t. throw e (put fd t r))

-- The server with the map in place of its table.
abbrev pub viewed_server :
    {A : Type 0} → Outcome P2PurrServer A → Outcome (Registry × P2PurrServer) A
viewed_server =
    within (λ a t. ok a (registry t.sock_to_peer_map, record t { sock_to_peer_map = [] }))
      (λ e t. throw e (registry t.sock_to_peer_map, record t { sock_to_peer_map = [] }))

-- A call on the map of a server.
abbrev pub with_registry :
    {A : Type 0} → P2PurrServer → Outcome Registry A → Outcome (Registry × P2PurrServer) A
with_registry s =
    within (λ a r. ok a (r, record s { sock_to_peer_map = [] }))
      (λ e r. throw e (r, record s { sock_to_peer_map = [] }))

pub put-again :
    (k : ℤ) (t peer : PeerConnHandler) (r : Registry) → put k t (put k peer r) ≡ put k t r
put-again k t peer r i j = at (==_ℤ k j) i
  where
    at :
        (b : Bool)
        → (if b then some t else (if b then some peer else r j)) ≡ (if b then some t else r j)
    at true = refl
    at false = refl

pub put-apart :
    (k fd : ℤ) (peer t : PeerConnHandler) (r : Registry)
    → ==_ℤ k fd ≡ false
    → put k peer (put fd t r) ≡ put fd t (put k peer r)
put-apart k fd peer t r apart i j = at (Bool-cases (==_ℤ k j)) (Bool-cases (==_ℤ fd j)) i
  where
    at :
        (==_ℤ k j ≡ true) ⊎ (==_ℤ k j ≡ false)
        → (==_ℤ fd j ≡ true) ⊎ (==_ℤ fd j ≡ false)
        → put k peer (put fd t r) j ≡ put fd t (put k peer r) j
    at (inl kj) (inl fj) =
        let same : k ≡ fd = ==_ℤ→eq k j kj ∙ sym (==_ℤ→eq fd j fj) in
        absurd (cc (apart, ap (λ x. ==_ℤ x fd) same, ==_ℤ_refl fd))
    at (inl kj) (inr fj) = ground arith
    at (inr kj) (inl fj) = ground arith
    at (inr kj) (inr fj) = ground arith

module _ {A : Type 0} where
  -- A call on the entries behind the first.
  abbrev pub over : ℤ → PeerConnHandler → Outcome Registry A → Outcome Registry A
  over k peer = within (λ a r. ok a (put k peer r)) (λ e r. throw e (put k peer r))

  pub viewed-behind :
      (k : ℤ) (peer : PeerConnHandler) (o : Outcome (List (ℤ × PeerConnHandler)) A)
      → viewed (within (λ a ts. ok a ((k, peer) ∷ ts)) (λ e ts. throw e ((k, peer) ∷ ts)) o)
        ≡ over k peer (viewed o)
  unfolding registry
  viewed-behind k peer (ok a ts) = refl
  viewed-behind k peer (throw e ts) = refl
  viewed-behind k peer fault = refl
  viewed-behind k peer no_fuel = refl
  viewed-behind k peer exits = refl

  pub viewed-with_table :
      (s : P2PurrServer) (o : Outcome (List (ℤ × PeerConnHandler)) A)
      → viewed_server (with_table s o) ≡ with_registry s (viewed o)
  viewed-with_table s (ok a ts) = refl
  viewed-with_table s (throw e ts) = refl
  viewed-with_table s fault = refl
  viewed-with_table s no_fuel = refl
  viewed-with_table s exits = refl

module _ {A B : Type 0} (g : A → B) where
  pub viewed-first :
      (k : ℤ) (peer : PeerConnHandler) (peers : List (ℤ × PeerConnHandler))
      (o : Outcome PeerConnHandler A)
      → viewed (within (λ a t. ok (g a) ((k, t) ∷ peers)) (λ e t. throw e ((k, t) ∷ peers)) o)
        ≡ at_fd g k (registry ((k, peer) ∷ peers)) o
  unfolding registry
  viewed-first k peer peers (ok a t) = ap (ok (g a)) (sym (put-again k t peer (registry peers)))
  viewed-first k peer peers (throw e t) = ap (throw e) (sym (put-again k t peer (registry peers)))
  viewed-first k peer peers fault = refl
  viewed-first k peer peers no_fuel = refl
  viewed-first k peer peers exits = refl

  pub over-at_fd :
      (k fd : ℤ) (peer : PeerConnHandler) (r : Registry) (o : Outcome PeerConnHandler A)
      → ==_ℤ k fd ≡ false
      → over k peer (at_fd g fd r o) ≡ at_fd g fd (put k peer r) o
  over-at_fd k fd peer r (ok a t) apart = ap (ok (g a)) (put-apart k fd peer t r apart)
  over-at_fd k fd peer r (throw e t) apart = ap (throw e) (put-apart k fd peer t r apart)
  over-at_fd k fd peer r fault apart = refl
  over-at_fd k fd peer r no_fuel apart = refl
  over-at_fd k fd peer r exits apart = refl

-- What is not a descriptor of the table has no peer.
pub registry-none :
    (j : ℤ) (peers : List (ℤ × PeerConnHandler))
    → member j (keys peers) ≡ false
    → registry peers j ≡ none
unfolding registry
registry-none j [] e = refl
registry-none j ((k, peer) ∷ peers) e = ground (arith, registry-none j peers)

-- The map does not depend on the order of the entries.
pub registry-Perm :
    {xs ys : List (ℤ × PeerConnHandler)}
    → Permᴰ xs ys
    → Distinct (keys xs)
    → registry xs ≡ registry ys
unfolding registry
registry-Perm Permᴰ.nil d = refl
registry-Perm (Permᴰ.cons e p) (new', d) = ap₂ (λ q r. put q.0 q.1 r) e (registry-Perm p d)
registry-Perm (Permᴰ.swap {a} {b} {a'} {b'} {l} e f) (na, (nb, d)) =
    put-apart a.0 b.0 a.1 b.1 (registry l) (==_ℤ_sym a.0 b.0 ∙ apart)
    ∙ ap₂ (λ q p. put q.0 q.1 (put p.0 p.1 (registry l))) f e
  where
    apart : ==_ℤ b.0 a.0 ≡ false
    apart = ground arith
registry-Perm (Permᴰ.trans p q) d =
    registry-Perm p d ∙ registry-Perm q (Distinct-Perm (keys-Perm p) d)

-- A peer of the map stays where entries are added behind the others.
pub registry-append :
    (j : ℤ) (xs ys : List (ℤ × PeerConnHandler)) (peer : PeerConnHandler)
    → registry xs j ≡ some peer
    → registry (xs ++ ys) j ≡ some peer
unfolding registry
registry-append j [] ys peer e = cc e
registry-append j ((k, p) ∷ xs) ys peer e = ground (arith, registry-append j xs ys peer)

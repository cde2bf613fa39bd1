-- ===== src/Server/Sweep.antt =====
-- `remove_disconnected_peers` and the descriptors that stay.
use p2purr.Base.{
  ◌≡◌, refl, sym, ap, ap₂, subst, ◌∙◌, true, false, not, ◌||◌, List, [], ◌∷◌, arith, if◌then◌else◌,
  ℤ, negsuc, Bool-cases, inl, inr,
}
use p2purr.Peer.{PeerConnHandler, conn_active}
use p2purr.Server.{PollFd, ==_ℤ}
use p2purr.Server.Disconnected.{active_peers, fds_to_rm, erase_fds, list_begin}
use p2purr.Server.Removal.{without, erase_fds-without}
use p2purr.Server.Table.{keys, member, Distinct, watches, AllWatched, AllNot, ==_ℤ_refl, ==_ℤ→eq}

module _ (k : ℤ) (peer : PeerConnHandler) (peers : List (ℤ × PeerConnHandler)) where
  pub active_peers_open :
      conn_active peer ≡ true → active_peers ((k, peer) ∷ peers) ≡ (k, peer) ∷ active_peers peers
  unfolding active_peers
  active_peers_open e =
      ap (λ b. if not b then active_peers peers else (k, peer) ∷ active_peers peers) e

  pub active_peers_shut :
      conn_active peer ≡ false → active_peers ((k, peer) ∷ peers) ≡ active_peers peers
  unfolding active_peers
  active_peers_shut e =
      ap (λ b. if not b then active_peers peers else (k, peer) ∷ active_peers peers) e

  fds_to_rm_open : conn_active peer ≡ true → fds_to_rm ((k, peer) ∷ peers) ≡ fds_to_rm peers
  unfolding fds_to_rm
  fds_to_rm_open e = ap (λ b. if not b then k ∷ fds_to_rm peers else fds_to_rm peers) e

  fds_to_rm_shut : conn_active peer ≡ false → fds_to_rm ((k, peer) ∷ peers) ≡ k ∷ fds_to_rm peers
  unfolding fds_to_rm
  fds_to_rm_shut e = ap (λ b. if not b then k ∷ fds_to_rm peers else fds_to_rm peers) e

pub member-active_peers :
    (j : ℤ) (peers : List (ℤ × PeerConnHandler))
    → member j (keys peers) ≡ false
    → member j (keys (active_peers peers)) ≡ false
unfolding active_peers
member-active_peers j [] h = refl
member-active_peers j ((k, peer) ∷ peers) h = elim (Bool-cases (conn_active peer)) [
  | inl open' ↦
      let rest = member-active_peers j peers (ground arith) in
      ap (λ xs. member j (keys xs)) (active_peers_open k peer peers open') ∙ ground (arith, rest)
  | inr shut ↦
      ap (λ xs. member j (keys xs)) (active_peers_shut k peer peers shut)
      ∙ member-active_peers j peers (ground arith)
]

pub Distinct-active_peers :
    (peers : List (ℤ × PeerConnHandler))
    → Distinct (keys peers)
    → Distinct (keys (active_peers peers))
unfolding active_peers
Distinct-active_peers [] d = tt
Distinct-active_peers ((k, peer) ∷ peers) (dk, d) = elim (Bool-cases (conn_active peer)) [
  | inl open' ↦
      subst (λ xs. Distinct (keys xs)) (sym (active_peers_open k peer peers open'))
        (member-active_peers k peers dk, Distinct-active_peers peers d)
  | inr shut ↦
      subst (λ xs. Distinct (keys xs)) (sym (active_peers_shut k peer peers shut))
        (Distinct-active_peers peers d)
]

AllWatched-active_peers :
    (peers : List (ℤ × PeerConnHandler)) (ps : List PollFd)
    → AllWatched (keys peers) ps
    → AllWatched (keys (active_peers peers)) ps
unfolding active_peers
AllWatched-active_peers [] ps h = tt
AllWatched-active_peers ((k, peer) ∷ peers) ps (v, w, h) = elim (Bool-cases (conn_active peer)) [
  | inl open' ↦
      subst (λ xs. AllWatched (keys xs) ps) (sym (active_peers_open k peer peers open'))
        (v, w, AllWatched-active_peers peers ps h)
  | inr shut ↦
      subst (λ xs. AllWatched (keys xs) ps) (sym (active_peers_shut k peer peers shut))
        (AllWatched-active_peers peers ps h)
]

AllNot-member : (k : ℤ) (ks : List ℤ) → member k ks ≡ false → AllNot k ks
AllNot-member k [] h = tt
AllNot-member k (j ∷ ks) h = (ground arith, AllNot-member k ks (ground arith))

member-fds_to_rm :
    (peers : List (ℤ × PeerConnHandler)) (fd : ℤ) (fds : List ℤ)
    → fds_to_rm peers ≡ fd ∷ fds
    → member fd (keys peers) ≡ true
unfolding fds_to_rm
member-fds_to_rm [] fd fds e = cc
member-fds_to_rm ((k, peer) ∷ peers) fd fds e = elim (Bool-cases (conn_active peer)) [
  | inl open' ↦
      let rest = member-fds_to_rm peers fd fds (sym (fds_to_rm_open k peer peers open') ∙ e) in
      ground (arith, rest)
  | inr shut ↦
      let same : k ≡ fd = cc (fds_to_rm_shut k peer peers shut) in
      subst (λ j. (==_ℤ k j || member j (keys peers)) ≡ true) same
        (ap (λ b. b || member k (keys peers)) (==_ℤ_refl k))
]

-- What stands in a list and what does not are two.
apart : (k fd : ℤ) (ks : List ℤ) → member k ks ≡ false → member fd ks ≡ true → ==_ℤ k fd ≡ false
apart k fd ks absent' present' = elim (Bool-cases (==_ℤ k fd)) [
  | inl here ↦ let same : k ≡ fd = ==_ℤ→eq k fd here in absurd (cc (ap (λ j. member j ks) same))
  | inr other ↦ other
]

-- The first descriptor that is removed is of none of the peers that stay.
AllNot-active_peers :
    (peers : List (ℤ × PeerConnHandler)) (fd : ℤ) (fds : List ℤ)
    → Distinct (keys peers)
    → fds_to_rm peers ≡ fd ∷ fds
    → AllNot fd (keys (active_peers peers))
unfolding fds_to_rm active_peers
AllNot-active_peers [] fd fds d e = tt
AllNot-active_peers ((k, peer) ∷ peers) fd fds (dk, d) e = elim (Bool-cases (conn_active peer)) [
  | inl open' ↦
      let e' = sym (fds_to_rm_open k peer peers open') ∙ e in
      subst (λ xs. AllNot fd (keys xs)) (sym (active_peers_open k peer peers open'))
        (
          apart k fd (keys peers) dk (member-fds_to_rm peers fd fds e'),
          AllNot-active_peers peers fd fds d e',
        )
  | inr shut ↦
      let same : k ≡ fd = cc (fds_to_rm_shut k peer peers shut) in
      subst (λ xs. AllNot fd (keys xs)) (sym (active_peers_shut k peer peers shut))
        (subst (λ j. AllNot j (keys (active_peers peers))) same
          (AllNot-member k (keys (active_peers peers)) (member-active_peers k peers dk)))
]

watches-without :
    (k fd : ℤ) (ps : List PollFd)
    → ==_ℤ k fd ≡ false
    → ==_ℤ k (negsuc 0) ≡ false
    → watches k ps ≡ true
    → watches k (without fd ps) ≡ true
unfolding without
watches-without k fd [] n v h = cc
watches-without k fd (p ∷ ps) n v h = elim (Bool-cases (==_ℤ p.fd k)) [
  | inl here ↦
      let same : p.fd ≡ k = ==_ℤ→eq p.fd k here in
      let stays : (==_ℤ p.fd fd || ==_ℤ p.fd (negsuc 0)) ≡ false =
        ap (λ j. ==_ℤ j fd || ==_ℤ j (negsuc 0)) same ∙ ap₂ (λ x y. x || y) n v in
      ap (λ b. watches k (if b then without fd ps else p ∷ without fd ps)) stays
      ∙ ap (λ b. b || watches k (without fd ps)) here
  | inr other ↦
      let rest = watches-without k fd ps n v (sym (ap (λ b. b || watches k ps) other) ∙ h) in
      elim (Bool-cases (==_ℤ p.fd fd || ==_ℤ p.fd (negsuc 0))) [
        | inl goes ↦
            ap (λ b. watches k (if b then without fd ps else p ∷ without fd ps)) goes ∙ rest
        | inr stays ↦
            ap (λ b. watches k (if b then without fd ps else p ∷ without fd ps)) stays
            ∙ ap₂ (λ x y. x || y) other rest
      ]
]

AllWatched-without :
    (fd : ℤ) (ks : List ℤ) (ps : List PollFd)
    → AllNot fd ks
    → AllWatched ks ps
    → AllWatched ks (without fd ps)
AllWatched-without fd [] ps n h = tt
AllWatched-without fd (k ∷ ks) ps (nk, n) (v, w, h) =
    (v, watches-without k fd ps nk v w, AllWatched-without fd ks ps n h)

-- Every peer that stays is watched still.
pub AllWatched-erase_fds :
    (peers : List (ℤ × PeerConnHandler)) (ps : List PollFd) (fds : List ℤ)
    → fds_to_rm peers ≡ fds
    → Distinct (keys peers)
    → AllWatched (keys peers) ps
    → AllWatched (keys (active_peers peers)) (erase_fds fds (list_begin ps))
unfolding erase_fds
AllWatched-erase_fds peers ps [] e d h = AllWatched-active_peers peers ps h
AllWatched-erase_fds peers ps (fd ∷ fds) e d h =
    subst (AllWatched (keys (active_peers peers))) (sym (erase_fds-without fd fds ps)) (
      AllWatched-without fd (keys (active_peers peers)) ps (AllNot-active_peers peers fd fds d e)
        (AllWatched-active_peers peers ps h))

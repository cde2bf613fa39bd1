-- ===== src/Server/Polling/Pass.antt =====
-- A pass over the poll list: past entries that are not ready, and up to the one that is.
use p2purr.Base.{
  ℕ, zero, suc, ◌+◌, ◌≤◌, ◌<◌, ◌≡◌, ◌≢◌, ap, ap₂, ◌∙◌, Bool, true, false, not, Option, none, some,
  arith, length, get_elem?, get_elem?-some, get_elem?-none, Bool-cases, inl, inr, ltb, ltb→lt,
  ltb_false→le, ◌==◌, if◌then◌else◌, Outcome, ok, ◌>>◌,
}
use p2purr.Packet.{Platform}
use p2purr.Socket.Setup.{Fresh}
use p2purr.Server.{PollFd, P2PurrServer, ==_ℤ, handle_new_client, handle_client_communications}
use p2purr.Server.Polling.{poll_pass}

-- `poll` answers that only the entry at a position is ready.
abbrev pub only : ℕ → ℕ → Bool
only k i = i == k

module _ (env : Platform) (events : ℕ) (fresh : ℕ → Fresh) (revents : ℕ → Bool) where
  -- What a pass does at an entry, by the tests that it makes.
  abbrev pub at_entry :
      ℕ → ℕ → P2PurrServer → Option PollFd → Bool → Bool → Outcome P2PurrServer (Unit {0})
  at_entry fuel pos' s entry running ready = elim entry [
    | none ↦ ok tt s
    | some pfd ↦
        if not running
        then ok tt s
        else if ready
        then if ==_ℤ pfd.fd s.server_sock_helper.sock
          then (handle_new_client events (fresh fuel) >> poll_pass env events fresh revents fuel 1)
              s
          else (handle_client_communications env pfd.fd
                >> poll_pass env events fresh revents fuel (pos' + 1))
              s
        else poll_pass env events fresh revents fuel (pos' + 1) s
  ]

  module _ (s : P2PurrServer) (runs : s.is_local_server_running ≡ true) where
    pub pass_over :
        (fuel pos' : ℕ) (pfd : PollFd)
        → get_elem? s.pollfd_list pos' ≡ some pfd
        → revents pos' ≡ false
        → poll_pass env events fresh revents (suc fuel) pos' s
          ≡ poll_pass env events fresh revents fuel (pos' + 1) s
    unfolding poll_pass
    pass_over fuel pos' pfd e idle =
        ap (λ o. at_entry fuel pos' s o s.is_local_server_running (revents pos')) e
        ∙ ap₂ (λ a b. at_entry fuel pos' s (some pfd) a b) runs idle

    -- Where no entry from a position on is ready, the rest of the pass does nothing.
    pub pass_idle :
        (fuel pos' : ℕ)
        → ((i : ℕ) → pos' ≤ i → revents i ≡ false)
        → length s.pollfd_list < fuel + pos'
        → pos' ≤ length s.pollfd_list
        → poll_pass env events fresh revents fuel pos' s ≡ ok tt s
    unfolding poll_pass
    pass_idle zero pos' idle enough le = absurd (omega arith)
    pass_idle (suc fuel) pos' idle enough le = elim (Bool-cases (ltb pos' (length s.pollfd_list))) [
      | inl lt ↦
          let (pfd, e) =
            get_elem?-some s.pollfd_list pos' (ltb→lt pos' (length s.pollfd_list) lt) in
          pass_over fuel pos' pfd e (idle pos' (omega arith))
          ∙ pass_idle fuel (pos' + 1) (λ i above. idle i (omega arith)) (omega arith)
              (omega (arith, ltb→lt pos' (length s.pollfd_list) lt))
      | inr n ↦
          ap (λ o. at_entry fuel pos' s o s.is_local_server_running (revents pos'))
            (get_elem?-none s.pollfd_list pos' (ltb_false→le pos' (length s.pollfd_list) n))
    ]

    -- A pass goes on to the first entry that is ready.
    pub pass_to :
        (fuel n pos' : ℕ)
        → ((i : ℕ) → pos' ≤ i → i < pos' + n → revents i ≡ false)
        → pos' + n < length s.pollfd_list
        → poll_pass env events fresh revents (fuel + n) pos' s
          ≡ poll_pass env events fresh revents fuel (pos' + n) s
    pass_to fuel zero pos' idle lt =
        ap₂ (λ f i. poll_pass env events fresh revents f i s) (omega arith) (omega arith)
    pass_to fuel (suc n) pos' idle lt =
        let (pfd, e) = get_elem?-some s.pollfd_list pos' (omega arith) in
        ap (λ f. poll_pass env events fresh revents f pos' s) (omega arith)
        ∙ pass_over (fuel + n) pos' pfd e (idle pos' (omega arith) (omega arith))
        ∙ pass_to fuel n (pos' + 1) (λ i above below. idle i (omega arith) (omega arith))
            (omega arith)
        ∙ ap (λ i. poll_pass env events fresh revents fuel i s) (omega arith)

pub only_at : (k : ℕ) → only k k ≡ true
only_at k = ground arith

pub only_other : (k i : ℕ) → i ≢ k → only k i ≡ false
only_other k i n = ground arith

-- ===== src/Server/Polling/Serve.antt =====
-- A pass over the poll list as a whole: it serves the descriptors that are ready, one after the other.
use p2purr.Base.{
  ℕ, zero, suc, ◌+◌, ◌<◌, ◌≡◌, refl, sym, ap, ap₂, subst, ◌∙◌, Bool, true, false, some, List, [],
  ◌∷◌, ◌++◌, append_assoc, arith, length, length-append, get_elem?, get_elem?-none,
  get_elem?-append_right, Bool-cases, inl, inr, if◌then◌else◌, ℤ, ok, ◌>>◌, >>-agree, Leaves,
  Behaves-any, within-Behaves,
}
use native.Mathlib.Nat.{add-zero}
use p2purr.Packet.{Platform}
use p2purr.Socket.Setup.{Fresh}
use p2purr.Server.{
  PollFd, P2PurrServer, ServerM, ==_ℤ, handle_new_client, handle_client_communications, recv_from,
}
use p2purr.Server.Polling.{poll_pass}
use p2purr.Server.Polling.Pass.{at_entry, pass_over}

-- The descriptors that are ready, of the entries from a position on.
abbrev pub ready_fds : (ℕ → Bool) → ℕ → List PollFd → List ℤ
ready_fds revents pos' [] = []
ready_fds revents pos' (pfd ∷ pfds) =
    let rest = ready_fds revents (pos' + 1) pfds in if revents pos' then pfd.fd ∷ rest else rest

-- None of them is the server's own.
abbrev pub NoneOwn : ℤ → List ℤ → Type 0
NoneOwn own [] = Unit {0}
NoneOwn own (fd ∷ fds) = (==_ℤ fd own ≡ false) × NoneOwn own fds

-- `handle_client_communications` on each descriptor.
unfoldable pub serve : Platform → List ℤ → ServerM (Unit {0})
serve env [] s = ok tt s
serve env (fd ∷ fds) s = (handle_client_communications env fd >> serve env fds) s

-- What such a call leaves of the server, where it returns.
record Stays (s t : P2PurrServer) : Type 0 where
  running_same : t.is_local_server_running ≡ s.is_local_server_running
  list_same : t.pollfd_list ≡ s.pollfd_list
  own_same : t.server_sock_helper ≡ s.server_sock_helper

handle_client_communications-Stays :
    (env : Platform) (fd : ℤ) (s : P2PurrServer)
    → Leaves (λ _ t. Stays s t) (λ _ _. Unit {0}) (handle_client_communications env fd s)
unfolding handle_client_communications
handle_client_communications-Stays env fd s =
    within-Behaves _ (λ _ _. Unit {0}) (λ _ _. Unit {0}) _ _ _ _
      (recv_from env fd s.sock_to_peer_map) (Behaves-any _)
      (λ _ _ _. record { running_same = refl; list_same = refl; own_same = refl }) (λ _ _ _. tt)

module _ (env : Platform) (events : ℕ) (fresh : ℕ → Fresh) (revents : ℕ → Bool) where
  at_position :
      (pfds before : List PollFd) (pos' : ℕ) (pfd : PollFd) (s : P2PurrServer)
      → s.pollfd_list ≡ before ++ pfd ∷ pfds
      → pos' ≡ length before
      → get_elem? s.pollfd_list pos' ≡ some pfd
  at_position pfds before pos' pfd s e at =
      ap₂ get_elem? e (at ∙ sym (add-zero (length before)))
      ∙ get_elem?-append_right before (pfd ∷ pfds) 0

  -- From a position on, with what stands before it.
  pub poll_pass-from :
      (ahead before : List PollFd) (fuel pos' : ℕ) (s : P2PurrServer)
      → s.is_local_server_running ≡ true
      → s.pollfd_list ≡ before ++ ahead
      → pos' ≡ length before
      → NoneOwn s.server_sock_helper.sock (ready_fds revents pos' ahead)
      → length ahead < fuel
      → poll_pass env events fresh revents fuel pos' s ≡ serve env (ready_fds revents pos' ahead) s
  unfolding poll_pass serve
  poll_pass-from ahead before zero pos' s runs e at other enough = absurd (omega arith)
  poll_pass-from [] before (suc fuel) pos' s runs e at other enough =
      ap
        (λ o.
          at_entry env events fresh revents fuel pos' s o s.is_local_server_running (revents pos'))
        (get_elem?-none s.pollfd_list pos' (omega (arith, ap length e, length-append before [])))
  poll_pass-from (pfd ∷ pfds) before (suc fuel) pos' s runs e at other enough =
      let here = at_position pfds before pos' pfd s e at in
      let moved : before ++ pfd ∷ pfds ≡ (before ++ pfd ∷ []) ++ pfds =
        sym (append_assoc before (pfd ∷ []) pfds) in
      let next : pos' + 1 ≡ length (before ++ pfd ∷ []) =
        omega (arith, length-append before (pfd ∷ [])) in
      elim (Bool-cases (revents pos')) [
        | inl ready ↦
            let (not_own, rest) =
              subst (λ b. NoneOwn s.server_sock_helper.sock (fds b)) ready other in
            ap
              (λ o.
                at_entry env events fresh revents fuel pos' s o s.is_local_server_running
                  (revents pos'))
              here
            ∙ ap₂ (λ a b. at_entry env events fresh revents fuel pos' s (some pfd) a b) runs ready
            ∙ ap
                (λ b.
                  if b
                  then (handle_new_client events (fresh fuel)
                        >> poll_pass env events fresh revents fuel 1)
                      s
                  else (handle_client_communications env pfd.fd
                        >> poll_pass env events fresh revents fuel (pos' + 1))
                      s)
                not_own
            ∙ >>-agree _ (handle_client_communications env pfd.fd)
                (poll_pass env events fresh revents fuel (pos' + 1))
                (serve env (ready_fds revents (pos' + 1) pfds)) s
                (handle_client_communications-Stays env pfd.fd s)
                (λ _ t v.
                  poll_pass-from pfds (before ++ pfd ∷ []) fuel (pos' + 1) t (v.running_same ∙ runs)
                    (v.list_same ∙ e ∙ moved) next
                    (subst (λ h. NoneOwn h.sock (ready_fds revents (pos' + 1) pfds))
                      (sym v.own_same) rest)
                    (omega arith))
            ∙ sym (ap (λ b. serve env (fds b) s) ready)
        | inr idle ↦
            pass_over env events fresh revents s runs fuel pos' pfd here idle
            ∙ poll_pass-from pfds (before ++ pfd ∷ []) fuel (pos' + 1) s runs (e ∙ moved) next
                (subst (λ b. NoneOwn s.server_sock_helper.sock (fds b)) idle other) (omega arith)
            ∙ sym (ap (λ b. serve env (fds b) s) idle)
      ]
    where
      fds : Bool → List ℤ
      fds b =
          if b
          then pfd.fd ∷ ready_fds revents (pos' + 1) pfds
          else ready_fds revents (pos' + 1) pfds

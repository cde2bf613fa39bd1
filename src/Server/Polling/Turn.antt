-- ===== src/Server/Polling/Turn.antt =====
-- A round of the poll thread as a whole: the client that waits, the descriptors that are ready, and the
-- peers that are gone.
use p2purr.Base.{
  ℕ, suc, ◌+◌, ◌<◌, ◌≡◌, refl, sym, ap, ap₂, subst, ◌∙◌, ◌⊎◌, inl, inr, Bool, true, false, some,
  List, [], ◌∷◌, ◌++◌, arith, length, length-append, get_elem?, Bool-cases, if◌then◌else◌, Outcome,
  ok, ◌>>◌, >>-agree,
}
use p2purr.Packet.{Platform}
use p2purr.Socket.Setup.{Fresh}
use p2purr.Server.{
  PollFd, P2PurrServer, ServerM, ==_ℤ, handle_new_client, handle_client_communications,
}
use p2purr.Server.Disconnected.{remove_disconnected_peers}
use p2purr.Server.Polling.{poll_pass, poll_body, poll_round}
use p2purr.Server.Polling.Pass.{at_entry, pass_over}
use p2purr.Server.Polling.Serve.{ready_fds, NoneOwn, serve, poll_pass-from}
use p2purr.Server.Polling.Welcome.{handle_new_client-Welcomes}

ready_fds-snoc :
    (revents : ℕ → Bool) (pfd : PollFd) (pfds : List PollFd) (pos' : ℕ)
    → revents (pos' + length pfds) ≡ false
    → ready_fds revents pos' (pfds ++ pfd ∷ []) ≡ ready_fds revents pos' pfds
ready_fds-snoc revents pfd [] pos' idle =
    ap (λ b. if b then pfd.fd ∷ [] else []) (ap revents (omega arith) ∙ idle)
ready_fds-snoc revents pfd (p ∷ pfds) pos' idle =
    ap (λ fds. if revents pos' then p.fd ∷ fds else fds)
      (ready_fds-snoc revents pfd pfds (pos' + 1) (ap revents (omega arith) ∙ idle))

-- The client that waits is let in, if the server's own entry is ready.
abbrev pub welcome : ℕ → Fresh → Bool → ServerM (Unit {0})
welcome events fresh ready s = if ready then handle_new_client events fresh s else ok tt s

module _ (env : Platform) (events : ℕ) (fresh : ℕ → Fresh) (revents : ℕ → Bool) (fuel : ℕ)
    (own : PollFd) (rest : List PollFd) where
  -- The pass behind the first entry, in a list that may have grown.
  pass_behind :
      (s : P2PurrServer)
      → s.is_local_server_running ≡ true
      → (s.pollfd_list ≡ own ∷ rest) ⊎ ((pfd : PollFd) × (s.pollfd_list ≡ own ∷ (rest ++ pfd ∷ [])))
      → NoneOwn s.server_sock_helper.sock (ready_fds revents 1 rest)
      → revents (length rest + 1) ≡ false
      → length rest + 1 < fuel
      → poll_pass env events fresh revents fuel 1 s ≡ serve env (ready_fds revents 1 rest) s
  pass_behind s runs (inl e) other unset enough =
      poll_pass-from env events fresh revents rest (own ∷ []) fuel 1 s runs e refl other
        (omega arith)
  pass_behind s runs (inr (pfd, e)) other unset enough =
      let same = ready_fds-snoc revents pfd rest 1 (ap revents (omega arith) ∙ unset) in
      poll_pass-from env events fresh revents (rest ++ pfd ∷ []) (own ∷ []) fuel 1 s runs e refl
        (subst (NoneOwn s.server_sock_helper.sock) (sym same) other)
        (omega (arith, length-append rest (pfd ∷ [])))
      ∙ ap (λ fds. serve env fds s) same

  poll_pass-turn :
      (s : P2PurrServer)
      → s.is_local_server_running ≡ true
      → s.pollfd_list ≡ own ∷ rest
      → ==_ℤ own.fd s.server_sock_helper.sock ≡ true
      → NoneOwn s.server_sock_helper.sock (ready_fds revents 1 rest)
      → revents (length rest + 1) ≡ false
      → length rest + 1 < fuel
      → poll_pass env events fresh revents (suc fuel) 0 s
        ≡ (welcome events (fresh fuel) (revents 0) >> serve env (ready_fds revents 1 rest)) s
  unfolding poll_pass
  poll_pass-turn s runs e mine other unset enough =
      let here : get_elem? s.pollfd_list 0 ≡ some own = ap (λ ps. get_elem? ps 0) e in
      elim (Bool-cases (revents 0)) [
        | inl ready ↦
            ap
              (λ o.
                at_entry env events fresh revents fuel 0 s o s.is_local_server_running (revents 0))
              here
            ∙ ap₂ (λ a b. at_entry env events fresh revents fuel 0 s (some own) a b) runs ready
            ∙ ap
                (λ b.
                  if b
                  then (handle_new_client events (fresh fuel)
                        >> poll_pass env events fresh revents fuel 1)
                      s
                  else (handle_client_communications env own.fd
                        >> poll_pass env events fresh revents fuel 1)
                      s)
                mine
            ∙ >>-agree _ (handle_new_client events (fresh fuel))
                (poll_pass env events fresh revents fuel 1) (serve env (ready_fds revents 1 rest)) s
                (handle_new_client-Welcomes events (fresh fuel) s)
                (λ _ t w.
                  pass_behind t (w.running_same ∙ runs) (grown t w.list_grown)
                    (subst (λ k. NoneOwn k (ready_fds revents 1 rest)) (sym w.own_same) other) unset
                    enough)
            ∙ sym (ap behind ready)
        | inr idle ↦
            pass_over env events fresh revents s runs fuel 0 own here idle
            ∙ pass_behind s runs (inl e) other unset enough
            ∙ sym (ap behind idle)
      ]
    where
      behind : Bool → Outcome P2PurrServer (Unit {0})
      behind b =
          ((λ t. if b then handle_new_client events (fresh fuel) t else ok tt t)
              >> serve env (ready_fds revents 1 rest))
            s

      grown :
          (t : P2PurrServer)
          → (t.pollfd_list ≡ s.pollfd_list)
            ⊎ ((pfd : PollFd) × (t.pollfd_list ≡ s.pollfd_list ++ pfd ∷ []))
          → (t.pollfd_list ≡ own ∷ rest)
            ⊎ ((pfd : PollFd) × (t.pollfd_list ≡ own ∷ (rest ++ pfd ∷ [])))
      grown t (inl same) = inl (same ∙ e)
      grown t (inr (pfd, more)) = inr (pfd, more ∙ ap (λ ps. ps ++ pfd ∷ []) e)

  -- On a running server whose own entry stands first in the poll list and nowhere else among the entries
  -- that are ready, when `poll` answers and the entry behind the last, which a new client may get and
  -- of which the source never sets `revents`, counts as not ready: with fuel for each entry and two more, a round does, whatever these calls do,
  -- the same as one call of `handle_new_client`, if the server's own entry is ready,
  -- `handle_client_communications` of each other descriptor that is ready, once and in the list's order,
  -- and `remove_disconnected_peers`.
  pub poll_round-turn :
      (s : P2PurrServer)
      → s.is_local_server_running ≡ true
      → s.pollfd_list ≡ own ∷ rest
      → ==_ℤ own.fd s.server_sock_helper.sock ≡ true
      → NoneOwn s.server_sock_helper.sock (ready_fds revents 1 rest)
      → revents (length rest + 1) ≡ false
      → length rest + 1 < fuel
      → poll_round env events fresh (some revents) (suc fuel) s
        ≡ (welcome events (fresh fuel) (revents 0) >> serve env (ready_fds revents 1 rest) >> λ t.
              ok tt (remove_disconnected_peers t))
            s
  unfolding poll_round poll_body
  poll_round-turn s runs e mine other unset enough =
      ap (λ b. if b then poll_body env events fresh (some revents) (suc fuel) s else ok tt s) runs
      ∙ ap (λ o. ((λ _. o) >> λ t. ok tt (remove_disconnected_peers t)) s)
          (poll_pass-turn s runs e mine other unset enough)

-- ===== src/Server/Polling.antt =====
-- src/p2purr_server.cpp, start_async_poll: one round of the poll thread.
pub mod Pass
pub mod Rounds
pub mod Serve
pub mod Welcome
pub mod Turn
pub mod Isolation
pub mod Busy
pub mod Trace
use p2purr.Base.{
  ℕ, zero, suc, ◌+◌, Bool, not, Option, none, some, get_elem?, if◌then◌else◌, Outcome, ok, throw,
  no_fuel, ◌>>◌, poll_exception, >>=-Behaves, if-Behaves,
}
use p2purr.Packet.{Platform}
use p2purr.Socket.Setup.{Fresh}
use p2purr.Server.{
  PollFd, P2PurrServer, ServerM, ==_ℤ, handle_new_client, handle_client_communications,
}
use p2purr.Server.Disconnected.{remove_disconnected_peers}
use p2purr.Server.Sound.{Sound, StaysSound}
use p2purr.Server.Methods.{handle_new_client-Sound, remove_disconnected_peers-Sound}
use p2purr.Server.Methods.Tables.{handle_client_communications-Sound}

module _ (env : Platform) (events : ℕ) (fresh : ℕ → Fresh) where
  -- The loop over the poll list, from a position on, on fuel. `revents` says of each position whether its
  -- entry has POLLIN; in an entry that is added during the pass nothing has set that field.
  pub poll_pass : (ℕ → Bool) → ℕ → ℕ → ServerM (Unit {0})
  poll_pass revents zero pos' s = no_fuel
  poll_pass revents (suc fuel) pos' s = elim (get_elem? s.pollfd_list pos') [
    | none ↦ ok tt s
    | some pfd ↦
        if not s.is_local_server_running
        then ok tt s
        else if revents pos'
        then if ==_ℤ pfd.fd s.server_sock_helper.sock
          then (handle_new_client events (fresh fuel) >> poll_pass revents fuel 1) s
          else (handle_client_communications env pfd.fd >> poll_pass revents fuel (pos' + 1)) s
        else poll_pass revents fuel (pos' + 1) s
  ]

  -- The body of `while(this->is_local_server_running)`, with what `poll` answers.
  unfoldable pub poll_body : Option (ℕ → Bool) → ℕ → ServerM (Unit {0})
  unfolding poll_pass
  poll_body none fuel s = throw poll_exception s
  poll_body (some revents) fuel s =
      (poll_pass revents fuel 0 >> λ t. ok tt (remove_disconnected_peers t)) s

  -- One round of the loop.
  unfoldable pub poll_round : Option (ℕ → Bool) → ℕ → ServerM (Unit {0})
  unfolding poll_body
  poll_round answer fuel s = if s.is_local_server_running then poll_body answer fuel s else ok tt s

  pub poll_pass-Sound :
      (revents : ℕ → Bool) (fuel pos' : ℕ) (s : P2PurrServer)
      → Sound s
      → StaysSound (poll_pass revents fuel pos' s)
  unfolding poll_pass
  poll_pass-Sound revents zero pos' s h = tt
  poll_pass-Sound revents (suc fuel) pos' s h =
      at (λ p t g. poll_pass-Sound revents fuel p t g) (get_elem? s.pollfd_list pos')
    where
      at :
          ((p : ℕ) (t : P2PurrServer) → Sound t → StaysSound (poll_pass revents fuel p t))
          → (entry : Option PollFd)
          → StaysSound (elim entry as (λ _. Outcome P2PurrServer (Unit {0})) [
            | none ↦ ok tt s
            | some pfd ↦
                if not s.is_local_server_running
                then ok tt s
                else if revents pos'
                then if ==_ℤ pfd.fd s.server_sock_helper.sock
                  then (handle_new_client events (fresh fuel) >> poll_pass revents fuel 1) s
                  else (handle_client_communications env pfd.fd
                        >> poll_pass revents fuel (pos' + 1))
                      s
                else poll_pass revents fuel (pos' + 1) s
          ])
      at again none = h
      at again (some pfd) =
          if-Behaves _ _ _ (not s.is_local_server_running) _ _ (λ _. h)
            (λ _.
              if-Behaves _ _ _ (revents pos') _ _
                (λ _.
                  if-Behaves _ _ _ (==_ℤ pfd.fd s.server_sock_helper.sock) _ _
                    (λ _.
                      >>=-Behaves _ (λ _ t. Sound t) _ (λ _ t. Sound t) _
                        (handle_new_client events (fresh fuel)) _ s
                        (handle_new_client-Sound events (fresh fuel) s h) (λ _ t g. g)
                        (λ _ t g. again 1 t g))
                    (λ _.
                      >>=-Behaves _ (λ _ t. Sound t) _ (λ _ t. Sound t) _
                        (handle_client_communications env pfd.fd) _ s
                        (handle_client_communications-Sound env pfd.fd s h) (λ _ t g. g)
                        (λ _ t g. again (pos' + 1) t g)))
                (λ _. again (pos' + 1) s h))

  poll_body-Sound :
      (answer : Option (ℕ → Bool)) (fuel : ℕ) (s : P2PurrServer)
      → Sound s
      → StaysSound (poll_body answer fuel s)
  unfolding poll_body
  poll_body-Sound none fuel s h = h
  poll_body-Sound (some revents) fuel s h =
      >>=-Behaves _ (λ _ t. Sound t) _ (λ _ t. Sound t) _ (poll_pass revents fuel 0) _ s
        (poll_pass-Sound revents fuel 0 s h) (λ _ t g. g)
        (λ _ t g. remove_disconnected_peers-Sound t g)

  pub poll_round-Sound :
      (answer : Option (ℕ → Bool)) (fuel : ℕ) (s : P2PurrServer)
      → Sound s
      → StaysSound (poll_round answer fuel s)
  unfolding poll_round
  poll_round-Sound answer fuel s h =
      if-Behaves _ _ _ s.is_local_server_running _ _ (λ _. poll_body-Sound answer fuel s h) (λ _. h)

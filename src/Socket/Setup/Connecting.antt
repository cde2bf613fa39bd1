-- ===== src/Socket/Setup/Connecting.antt =====
-- `connect_to_host` and `set_sock_options`: what holds when they return, and when they throw.
use p2purr.Base.{
  le→ltb_false, Behaves-any, ℕ, zero, suc, ◌+◌, ◌≡◌, ◌<◌, refl, ap, ◌∙◌, ◌⊎◌, inl, inr, Bool, true,
  false, Outcome, fault, List, [], ◌∷◌, arith, ltb, pos, ltb_ℤ, ok, Exception, connect_exception,
  fctrl_exception, socket_options_exception, ◌>>◌, ◌&&◌, Bool-cases, Ends, Leaves, if-Behaves,
  Behaves-mono, >>=-Behaves, ltb→lt, ltb_false→le,
}
use p2purr.Socket.Addresses.{read_ai}
use p2purr.Socket.{AddrInfo, AcceptAnswer, accepted, not_accepted, Socket}
use p2purr.Socket.Setup.{
  set_flags, set_blocking, set_options, set_sock_options, connect_descriptor, connect_to_host,
  handle_addr_fam_and_get_ip_port, accept_client, server_accept_conns,
}

-- Whether none of the first `n` answers is a failure.
abbrev pub all_of : ℕ → List Bool → Bool
all_of zero answers = true
all_of (suc n) [] = true
all_of (suc n) (b ∷ answers) = b && all_of n answers

module _ (s : Socket) where
  Kept : Exception → Socket → Type 0
  Kept e t =
      (t.is_sock_init ≡ s.is_sock_init)
      × ((e ≡ fctrl_exception) ⊎ ((e ≡ connect_exception) × (t.os.nonblocking ≡ false)))

set_options-Ends :
    (n failed' : ℕ) (answers : List Bool) (s : Socket)
    → Ends
        (λ _ t. (failed' ≡ 0) × (all_of n answers ≡ true))
        (λ e t. (e ≡ socket_options_exception) × ((0 < failed') ⊎ (all_of n answers ≡ false)))
        (set_options n failed' answers s)
unfolding set_options
set_options-Ends zero failed' answers s = elim (Bool-cases (ltb 0 failed')) [
  | inl some' ↦ rw some' (refl, inl (ltb→lt 0 failed' some'))
  | inr none' ↦ rw none' (omega (arith, ltb_false→le 0 failed' none'), refl)
]
set_options-Ends (suc n) failed' [] s = tt
set_options-Ends (suc n) failed' (true ∷ answers) s = set_options-Ends n failed' answers s
set_options-Ends (suc n) failed' (false ∷ answers) s =
    Behaves-mono _ _ _ _ _ (set_options n (failed' + 1) answers s)
      (λ _ t (z, _). absurd (omega arith)) (λ e t (same, _). (same, inr refl))
      (set_options-Ends n (failed' + 1) answers s)

-- `set_sock_options` makes six calls of `setsockopt`, whatever they answer. It returns only if all of
-- them succeed, and throws only if one fails.
pub set_sock_options-Ends :
    (s : Socket)
    → Ends
        (λ _ t. all_of 6 s.os.setsockopts ≡ true)
        (λ e t. (e ≡ socket_options_exception) × (all_of 6 s.os.setsockopts ≡ false))
        (set_sock_options s)
unfolding set_sock_options
set_sock_options-Ends s =
    Behaves-mono _ _ _ _ _ (set_options 6 0 s.os.setsockopts s) (λ _ t (_, all). all)
      (λ e t (same, why). (same, elim why [ inl lt ↦ absurd (omega arith) | inr fails ↦ fails ]))
      (set_options-Ends 6 0 s.os.setsockopts s)

set_flags-sock :
    (b : Bool) (answers : List Bool) (s : Socket)
    → Leaves (λ _ t. t.sock ≡ s.sock) (λ _ _. Unit {0}) (set_flags b answers s)
unfolding set_flags
set_flags-sock b [] s = tt
set_flags-sock b (false ∷ rest) s = tt
set_flags-sock b (true ∷ []) s = tt
set_flags-sock b (true ∷ false ∷ rest) s = tt
set_flags-sock b (true ∷ true ∷ rest) s = refl

connect_descriptor-sock :
    (answers : List Bool) (s : Socket)
    → Leaves (λ _ t. t.sock ≡ s.sock) (λ _ _. Unit {0}) (connect_descriptor answers s)
unfolding connect_descriptor
connect_descriptor-sock [] s = tt
connect_descriptor-sock (true ∷ rest) s = refl
connect_descriptor-sock (false ∷ rest) s = tt

read_ai-sock : (s : Socket) → Leaves (λ _ t. t.sock ≡ s.sock) (λ _ _. Unit {0}) (read_ai s)
unfolding read_ai
read_ai-sock s = at s.ai
  where
    at :
        (l : List AddrInfo)
        → Leaves
            (λ _ t. t.sock ≡ s.sock)
            (λ _ _. Unit {0})
            (elim l as (λ _. Outcome Socket (Unit {0})) [ [] ↦ fault | q ∷ qs ↦ ok tt s ])
    at [] = tt
    at (q ∷ qs) = refl

-- `connect_to_host` returns with a descriptor.
pub connect_to_host-sock :
    (s : Socket)
    → Leaves (λ _ t. ltb_ℤ t.sock (pos 0) ≡ false) (λ _ _. Unit {0}) (connect_to_host s)
unfolding connect_to_host set_blocking
connect_to_host-sock s =
    if-Behaves _ _ _ (ltb_ℤ s.sock (pos 0)) _ _ (λ _. tt)
      (λ e.
        >>=-Behaves _ _ _ _ (λ _ _. Unit {0}) (set_blocking true) _ s
          (set_flags-sock true s.os.fcntls s) (λ x t _. tt)
          (λ _ t first'.
            >>=-Behaves _ _ _ _ (λ _ _. Unit {0}) read_ai _ t (read_ai-sock t) (λ x u _. tt)
              (λ _ u read.
                >>=-Behaves _ _ _ _ (λ _ _. Unit {0}) (λ v. connect_descriptor v.os.connects v) _ u
                  (connect_descriptor-sock u.os.connects u) (λ x v _. tt)
                  (λ _ v second'.
                    >>=-Behaves _ _ _ _ (λ _ _. Unit {0}) (set_blocking false) _ v
                      (set_flags-sock false v.os.fcntls v) (λ x w _. tt)
                      (λ _ w third.
                        ap (λ k. ltb_ℤ k (pos 0)) (third ∙ second' ∙ read ∙ first') ∙ e)))))

accept_client-sock :
    (answers : List AcceptAnswer) (s : Socket)
    → Leaves (λ c _. ltb_ℤ c.2 (pos 0) ≡ false) (λ _ _. Unit {0}) (accept_client answers s)
unfolding accept_client
accept_client-sock [] s = tt
accept_client-sock (not_accepted ∷ rest) s = tt
accept_client-sock (accepted fd address ∷ rest) s =
    >>=-Behaves _ (λ _ _. Unit {0}) _ (λ _ _. Unit {0}) _ (handle_addr_fam_and_get_ip_port address)
      _ answered (Behaves-any (handle_addr_fam_and_get_ip_port address answered)) (λ _ _ _. tt)
      (λ a t _. le→ltb_false fd 0 (omega arith))
  where
    answered : Socket
    answered = record s { os = record (s.os) { accepts = rest } }

-- `server_accept_conns` returns with a descriptor.
pub server_accept_conns-sock :
    (s : Socket)
    → Leaves (λ c _. ltb_ℤ c.2 (pos 0) ≡ false) (λ _ _. Unit {0}) (server_accept_conns s)
unfolding server_accept_conns
server_accept_conns-sock s = accept_client-sock s.os.accepts s

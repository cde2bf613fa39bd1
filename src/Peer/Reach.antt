-- ===== src/Peer/Reach.antt =====
-- What is done with a connection, as steps, and the states that they lead to.
use p2purr.Base.{
  ℕ, ◌+◌, ◌≤◌, ◌≡◌, refl, sym, ap, ◌∙◌, [], ◌>>◌, exits, replicate, subst, Bool, true, false,
  Option, none, some, List, arith, length, length-replicate, ℤ, if◌then◌else◌, Outcome, ok, throw,
  Exception, Leaves, Ends, Behaves-any, Behaves-mono, >>=-Leaves, within-Behaves, checked-Leaves,
}
use p2purr.Packet.{Packet, Platform}
use p2purr.Socket.{Socket, send_data, close_sock}
use p2purr.Socket.Setup.{
  Fresh, is_unset, socket_helper, set_sock_options, set_blocking, connect_to_host,
}
use p2purr.Peer.{
  PeerConnHandler, accept_peer, new_peer, connect, close, send_pkt, packet_bytes, receive_at,
  recv_pkt, set_client, set_server, set_keepalive, set_mute_flags,
}
use p2purr.Peer.InBounds.{
  InBounds, StaysInBounds, NextGiven, receive_at-InBounds, recv_pkt-InBounds,
}

-- One call of a method, which returns, or throws in `connect`. In `recv_pkt` the system's next answer
-- has no more bytes than it is asked for.
pub data Use (env : Platform) : PeerConnHandler → PeerConnHandler → Type 0 where
  received :
      {s t : PeerConnHandler} {p : Option Packet}
      → NextGiven s
      → recv_pkt env s ≡ ok p t
      → Use env s t
  sent : {s t : PeerConnHandler} (pkt : Packet) → send_pkt pkt s ≡ ok tt t → Use env s t
  closed : {s t : PeerConnHandler} {b : Bool} → close s ≡ ok b t → Use env s t
  connected : {s t : PeerConnHandler} → connect s ≡ ok tt t → Use env s t
  not_connected : {s t : PeerConnHandler} {e : Exception} → connect s ≡ throw e t → Use env s t
  made_client : {s : PeerConnHandler} → Use env s (set_client s)
  made_server : {s : PeerConnHandler} → Use env s (set_server s)
  keepalive_set : {s : PeerConnHandler} (ka : Bool) → Use env s (set_keepalive ka s)
  muted :
      {s : PeerConnHandler} (mute_send mute_recv : Bool)
      → Use env s (set_mute_flags mute_send mute_recv s)

-- What the constructor and any number of such calls lead to.
pub data InUse (env : Platform) : PeerConnHandler → Type 0 where
  made :
      {s : PeerConnHandler} {helper : Socket} (fresh : Fresh) (host : List ℕ) (port : ℕ) (sock : ℤ)
      → new_peer fresh host port sock ≡ ok s helper
      → InUse env s
  then' : {s t : PeerConnHandler} → InUse env s → Use env s t → InUse env t

accept_peer-InBounds :
    (host : List ℕ) (port : ℕ) (sock : ℤ) (helper : Socket)
    → InBounds (accept_peer host port sock helper)
unfolding accept_peer
accept_peer-InBounds host port sock helper = by_kind (is_unset sock)
  where
    base : PeerConnHandler
    base = record {
      host = host;
      port = port;
      sock_helper = helper;
      recv_buffer = replicate 1500 0;
      curr_buff_idx = 0;
      buff_size = 1500;
      completed_pkts = [];
      current_pkt = none;
      out_file = none;
      keepalive = true;
      bloking = false;
      pause_send = false;
      pause_recv = false;
      client_conn = false;
      server_conn = false;
    }

    by_kind : (b : Bool) → InBounds (if b then set_server base else set_client base)
    by_kind true = record {
      size_is = refl;
      room = length-replicate {A = ℕ} 1500 0;
      inside = omega arith;
    }
    by_kind false = record {
      size_is = refl;
      room = length-replicate {A = ℕ} 1500 0;
      inside = omega arith;
    }

new_peer-InBounds :
    (fresh : Fresh) (host : List ℕ) (port : ℕ) (sock : ℤ)
    → Leaves (λ s _. InBounds s) (λ _ _. Unit {0}) (new_peer fresh host port sock)
unfolding new_peer
new_peer-InBounds fresh host port sock = given (socket_helper fresh host port sock)
  where
    given :
        (o : Option Socket)
        → Leaves
            (λ s _. InBounds s)
            (λ _ _. Unit {0})
            (elim o as (λ _. Outcome Socket PeerConnHandler) [
              | none ↦ exits
              | some helper ↦
                  (set_sock_options
                      >> (set_blocking false >> λ t. ok (accept_peer host port sock t) t))
                    helper
            ])
    given none = tt
    given (some helper) = >>=-Leaves _ set_sock_options _ helper (λ _ t.
        >>=-Leaves _ (set_blocking false) _ t (λ _ u. accept_peer-InBounds host port sock u))

-- What leaves the buffer and the index alone.
kept :
    {s t : PeerConnHandler}
    → t.buff_size ≡ s.buff_size
    → t.recv_buffer ≡ s.recv_buffer
    → t.curr_buff_idx ≡ s.curr_buff_idx
    → InBounds s
    → InBounds t
kept size buffer index h = record {
  size_is = size ∙ h.size_is;
  room = ap length buffer ∙ h.room ∙ sym size;
  inside = omega (arith, h.inside);
}

close-InBounds : (s : PeerConnHandler) → InBounds s → StaysInBounds (close s)
unfolding close
close-InBounds s h =
    within-Behaves _ (λ _ _. Unit {0}) (λ _ _. Unit {0}) _ _ _ _ (close_sock s.sock_helper)
      (Behaves-any _) (λ _ _ _. kept refl refl refl h) (λ _ _ _. kept refl refl refl h)

connect-InBounds : (s : PeerConnHandler) → InBounds s → StaysInBounds (connect s)
unfolding connect
connect-InBounds s h =
    within-Behaves _ (λ _ _. Unit {0}) (λ _ _. Unit {0}) _ _ _ _ (connect_to_host s.sock_helper)
      (Behaves-any _) (λ _ _ _. kept refl refl refl h) (λ _ _ _. kept refl refl refl h)

send_pkt-InBounds :
    (pkt : Packet) (s : PeerConnHandler) → InBounds s → StaysInBounds (send_pkt pkt s)
unfolding send_pkt
send_pkt-InBounds pkt s h = checked-Leaves _ _ (packet_bytes pkt) _ s (λ bytes.
    within-Behaves _ (λ _ _. Unit {0}) (λ _ _. Unit {0}) _ _ _ _ (send_data bytes s.sock_helper)
      (Behaves-any _) (λ _ _ _. kept refl refl refl h) (λ _ _ _. kept refl refl refl h))

module _ (env : Platform) where
  Use-InBounds : (s t : PeerConnHandler) → Use env s t → InBounds s → InBounds t
  Use-InBounds s t (received next e) h =
      subst (Leaves (λ _ u. InBounds u) (λ _ _. ⊥)) e (recv_pkt-InBounds env s h next)
  Use-InBounds s t (sent pkt e) h = subst StaysInBounds e (send_pkt-InBounds pkt s h)
  Use-InBounds s t (closed e) h = subst StaysInBounds e (close-InBounds s h)
  Use-InBounds s t (connected e) h = subst StaysInBounds e (connect-InBounds s h)
  Use-InBounds s t (not_connected e) h = subst StaysInBounds e (connect-InBounds s h)
  Use-InBounds s t made_client h = kept refl refl refl h
  Use-InBounds s t made_server h = kept refl refl refl h
  Use-InBounds s t (keepalive_set ka) h = kept refl refl refl h
  Use-InBounds s t (muted a b) h = kept refl refl refl h

  pub InUse-InBounds : (s : PeerConnHandler) → InUse env s → InBounds s
  InUse-InBounds s (made fresh host port sock e) =
      subst (Leaves (λ t _. InBounds t) (λ _ _. Unit {0})) e
        (new_peer-InBounds fresh host port sock)
  InUse-InBounds t (then' {s} u step) = Use-InBounds s t step (InUse-InBounds s u)

  -- Of a connection that is reached from the constructor by any sequence of calls, among them calls of
  -- `recv_pkt` on whatever bytes, each `recv` of which gives no more bytes than it is asked for: the
  -- buffer has its 1500 bytes, the index is not behind its end, and the next `receive`, if its `recv`
  -- gives at least one byte and no more than it is asked for, has no undefined behaviour, counts no more
  -- bytes than there are behind the index, and leaves the size of the buffer.
  pub InUse-receive_at :
      (s : PeerConnHandler)
      → InUse env s
      → NextGiven s
      → (length s.recv_buffer ≡ 1500)
        × (s.curr_buff_idx ≤ 1500)
        × Ends
            (λ n t. (n + s.curr_buff_idx ≤ 1500) × (length t.recv_buffer ≡ 1500))
            (λ _ t. length t.recv_buffer ≡ 1500)
            (receive_at s)
  InUse-receive_at s u next =
      let h : InBounds s = InUse-InBounds s u in
      (
        h.room ∙ h.size_is,
        omega (arith, h.inside, h.size_is),
        Behaves-mono _ _ _ _ _ (receive_at s) (λ n t (few, g). (few, g.room ∙ g.size_is))
            (λ _ t g. g.room ∙ g.size_is) (receive_at-InBounds s h next),
      )

-- ===== src/Socket.antt =====
-- src/sockethelper.cpp: a socket, its descriptor's life, and the loops of `send` and `recv`. The
-- operating system is a list of answers for each call; where they run out, the call does not return.
pub mod Transfer
pub mod Pieces
pub mod Closing
pub mod Silence
pub mod Ends
pub mod Bounds
pub mod Addresses
pub mod Setup
use p2purr.Base.{
  ℕ, ◌+◌, Bool, true, false, not, none, some, List, [], ◌∷◌, ◌++◌, length, take, drop, ltb, leb,
  ◌==◌, if◌then◌else◌, ℤ, negsuc, Outcome, ok, throw, fault, no_fuel, exits, within, M, ◌>>=◌, ◌>>◌,
  memcpy, receive_exception, send_exception, socket_close_exception, socket_shutdown_exception,
}

-- What `recv` may answer: some bytes, 0 for a connection that the peer closed, or -1.
pub data RecvAnswer : Type 0 where
  got : List ℕ → RecvAnswer
  closed failed : RecvAnswer

-- What `send` may answer: the number of bytes taken, or -1.
pub data SendAnswer : Type 0 where
  took : ℕ → SendAnswer
  refused : SendAnswer

-- The address of a client: its family, with the text that `inet_ntop` writes, which is empty on a
-- failure, and the port.
pub data ClientAddress : Type 0 where
  ipv4 ipv6 : List ℕ → ℕ → ClientAddress
  other_family : ClientAddress

-- What `accept` may answer: a descriptor with the client's address, or -1.
pub data AcceptAnswer : Type 0 where
  accepted : ℕ → ClientAddress → AcceptAnswer
  not_accepted : AcceptAnswer

-- An entry of the list that `getaddrinfo` gives: its family, with the text that `inet_ntop` writes, which
-- is empty on a failure. The code takes every family but AF_INET for AF_INET6.
pub data AddrInfo : Type 0 where
  ipv4_info ipv6_info : List ℕ → AddrInfo

-- The answers to come, the descriptor's flag O_NONBLOCK, and the bytes that `send` has taken so far. An
-- answer of the other calls is whether the call succeeds.
pub record Os : Type 0 where
  pub recvs : List RecvAnswer
  pub sends : List SendAnswer
  pub shutdowns : List Bool
  pub closes : List Bool
  pub accepts : List AcceptAnswer
  pub connects : List Bool
  pub binds : List Bool
  pub listens : List Bool
  pub fcntls : List Bool
  pub setsockopts : List Bool
  pub nonblocking : Bool
  pub transmitted : List ℕ

-- `class SocketHelper`. `ai` is the list of addresses, and NULL is the empty list.
pub record Socket : Type 0 where
  pub sock : ℤ
  pub host : List ℕ
  pub port : ℕ
  pub is_sock_open : Bool
  pub is_sock_init : Bool
  pub ai : List AddrInfo
  pub ipv4_addrs : List (List ℕ)
  pub ipv6_addrs : List (List ℕ)
  pub os : Os

abbrev pub SocketM : Type 0 → Type 0
SocketM = M Socket

-- `shutdown(this->sock, SHUT_WR)` with the answers to come, and `is_sock_init = false`.
unfoldable pub shut_down : List Bool → SocketM (Unit {0})
shut_down [] s = no_fuel
shut_down (true ∷ rest) s =
    ok tt (record s { is_sock_init = false; os = record (s.os) { shutdowns = rest } })
shut_down (false ∷ rest) s =
    throw socket_shutdown_exception (record s { os = record (s.os) { shutdowns = rest } })

-- `close(this->sock)` with the answers to come, and what follows it.
unfoldable pub close_descriptor : List Bool → SocketM (Unit {0})
close_descriptor [] s = no_fuel
close_descriptor (true ∷ rest) s =
    ok tt (record s { sock = negsuc 0; is_sock_open = false; os = record (s.os) { closes = rest } })
close_descriptor (false ∷ rest) s =
    throw socket_close_exception (record s { os = record (s.os) { closes = rest } })

-- The `try` block of `close_sock`.
unfoldable pub try_close : SocketM (Unit {0})
unfolding shut_down close_descriptor
try_close = (λ s. if s.is_sock_init then shut_down s.os.shutdowns s else ok tt s) >> λ s.
    close_descriptor s.os.closes s

-- `bool SocketHelper::close_sock()`. An exception is caught and reported.
unfoldable pub close_sock : SocketM Bool
unfolding try_close
close_sock s = if not s.is_sock_open then ok true s else elim (try_close s) [
  | ok _ t ↦ ok true t
  | throw e t ↦ ok false t
  | fault ↦ fault
  | no_fuel ↦ no_fuel
  | exits ↦ exits
]

-- After a `send` that took `bytes`.
abbrev pub transmit : Socket → List SendAnswer → List ℕ → Socket
transmit s rest bytes = record s {
  os = record (s.os) { sends = rest; transmitted = s.os.transmitted ++ bytes };
}

-- The loop of `send_data` on the answers to come, with `sent` bytes of `data'` taken.
pub send_loop : List ℕ → List SendAnswer → ℕ → SocketM ℕ
send_loop data' [] sent s = if ltb sent (length data') then no_fuel else ok sent s
send_loop data' (took n ∷ rest) sent s =
    let more = send_loop data' rest (sent + n) (transmit s rest (take n (drop sent data'))) in
    if ltb sent (length data') then more else ok sent s
send_loop data' (refused ∷ rest) sent s =
    if ltb sent (length data') then throw send_exception (transmit s rest []) else ok sent s

-- `bool SocketHelper::send_data(const uint8_t *data, int data_len)` on the first `data_len` bytes.
unfoldable pub send_data : List ℕ → SocketM Bool
unfolding send_loop
send_data data' = do sent ← λ s. send_loop data' s.os.sends 0 s; λ s. ok (sent == length data') s

-- `int get_sockfd()` and `bool get_sock_open()`
abbrev pub get_sockfd : Socket → ℤ
get_sockfd s = s.sock

abbrev pub get_sock_open : Socket → Bool
get_sock_open s = s.is_sock_open

-- A socket and the buffer that `receive` fills.
pub record Receiving : Type 0 where
  pub socket : Socket
  pub buffer : List ℕ

abbrev pub with_recvs : Receiving → List RecvAnswer → Receiving
with_recvs r rest = record r {
  socket = record (r.socket) { os = record (r.socket.os) { recvs = rest } };
}

-- The peer has closed the connection.
pub hang_up : ℕ → Receiving → Outcome Receiving ℕ
hang_up total r =
    within (λ closed' t. ok total (record r { socket = t }))
      (λ e t. throw e (record r { socket = t })) (close_sock r.socket)

-- `if(bytes_recvd > 0 && bytes_recvd <= max_msg_len) max_msg_len = bytes_recvd;`
abbrev pub lowered : ℕ → ℕ → ℕ
lowered n max' = if (if ltb 0 n then leb n max' else false) then n else max'

-- The loop of `receive` on the answers to come: the buffer is written from `off + total` on.
pub recv_loop : List RecvAnswer → ℕ → ℕ → ℕ → M Receiving ℕ
unfolding hang_up
recv_loop [] off max' total r = if ltb total max' then no_fuel else ok total r
recv_loop (got bytes ∷ rest) off max' total r =
    let n = length bytes in
    let more = λ (b : List ℕ).
      recv_loop rest off (lowered n max') (total + n) (record (with_recvs r rest) { buffer = b }) in
    if ltb total max'
    then (if n == 0
        then hang_up total (with_recvs r rest)
        else elim (memcpy r.buffer (off + total) bytes) [ none ↦ fault | some b ↦ more b ])
    else ok total r
recv_loop (closed ∷ rest) off max' total r =
    if ltb total max' then hang_up total (with_recvs r rest) else ok total r
recv_loop (failed ∷ rest) off max' total r =
    if ltb total max' then throw receive_exception (with_recvs r rest) else ok total r

-- `int SocketHelper::receive(uint8_t *buffer, int max_msg_len)` at offset `off` of the buffer.
unfoldable pub receive : ℕ → ℕ → M Receiving ℕ
unfolding recv_loop
receive off max' r =
    if not r.socket.is_sock_open then ok 0 r else recv_loop r.socket.os.recvs off max' 0 r

-- ===== src/Socket/Setup.antt =====
-- src/sockethelper.cpp: how a socket is made, given its options, connected, or set to listen.
pub mod Connecting
use p2purr.Base.{
  ℕ, zero, suc, ◌+◌, Bool, true, false, Option, none, some, List, [], ◌∷◌, ltb, ◌==◌, if◌then◌else◌,
  ℤ, pos, negsuc, ltb_ℤ, Outcome, ok, throw, fault, no_fuel, exits, M, ◌>>=◌, ◌>>◌,
  generic_exception, socket_exception, socket_options_exception, bind_exception, listen_exception,
  accept_exception, connect_exception, fctrl_exception,
}
use p2purr.Socket.{
  AcceptAnswer, AddrInfo, ClientAddress, ipv4, ipv6, other_family, accepted, not_accepted, Os,
  Socket, SocketM,
}
use p2purr.Socket.Addresses.{Addresses, resolve, read_ai}

-- What the system gives for a new helper: the answer of `socket`, those of `getaddrinfo`, and the answers
-- to come on the descriptor.
pub record Fresh : Type 0 where
  pub created : ℤ
  pub getaddrinfo : List ℕ → ℕ → Addresses
  pub os : Os

abbrev pub is_unset : ℤ → Bool
is_unset (pos n) = false
is_unset (negsuc n) = n == 0

-- `this->is_sock_open = true`, behind the `try` block. `resolve` returns or throws.
abbrev opened : Outcome Socket (Unit {0}) → Option Socket
opened (ok _ s) = some (record s { is_sock_open = true })
opened (throw e s) = none
opened fault = none
opened no_fuel = none
opened exits = none

-- `SocketHelper(string host, uint16_t port, sock_t sock)`. An exception is reported and
-- ends the process, which is `none`.
unfoldable pub socket_helper : Fresh → List ℕ → ℕ → ℤ → Option Socket
unfolding resolve
socket_helper fresh host port sock =
    let fd = if is_unset sock then fresh.created else sock in
    let s : Socket = record {
      sock = fd;
      host = host;
      port = port;
      is_sock_open = false;
      is_sock_init = false;
      ai = [];
      ipv4_addrs = [];
      ipv6_addrs = [];
      os = fresh.os;
    } in
    if is_unset fd then none else opened (resolve fresh.getaddrinfo s)

abbrev with_fcntls : Socket → List Bool → Bool → Socket
with_fcntls s rest nonblocking = record s {
  os = record (s.os) { fcntls = rest; nonblocking = nonblocking };
}

-- The two calls of `fcntl`, to read the flags and to write them.
unfoldable pub set_flags : Bool → List Bool → SocketM (Unit {0})
set_flags blocking [] s = no_fuel
set_flags blocking (false ∷ rest) s = throw fctrl_exception (with_fcntls s rest s.os.nonblocking)
set_flags blocking (true ∷ []) s = no_fuel
set_flags blocking (true ∷ false ∷ rest) s =
    throw fctrl_exception (with_fcntls s rest s.os.nonblocking)
set_flags blocking (true ∷ true ∷ rest) s =
    ok tt (with_fcntls s rest (if blocking then false else true))

-- `void set_blocking(bool blocking)`
unfoldable pub set_blocking : Bool → SocketM (Unit {0})
unfolding set_flags
set_blocking blocking s = set_flags blocking s.os.fcntls s

-- The calls of `setsockopt` that are left, and those that have failed: the sum of the return codes,
-- each 0 or -1, is the negative of their number.
unfoldable pub set_options : ℕ → ℕ → List Bool → SocketM (Unit {0})
set_options zero failed' rest s =
    let t = record s { os = record (s.os) { setsockopts = rest } } in
    if ltb 0 failed' then throw socket_options_exception t else ok tt t
set_options (suc left) failed' [] s = no_fuel
set_options (suc left) failed' (true ∷ rest) s = set_options left failed' rest s
set_options (suc left) failed' (false ∷ rest) s = set_options left (failed' + 1) rest s

-- `void set_sock_options()`
unfoldable pub set_sock_options : SocketM (Unit {0})
unfolding set_options
set_sock_options s = set_options 6 0 s.os.setsockopts s

-- `connect`, with the answers to come.
unfoldable pub connect_descriptor : List Bool → SocketM (Unit {0})
connect_descriptor [] s = no_fuel
connect_descriptor (true ∷ rest) s = ok tt (record s { os = record (s.os) { connects = rest } })
connect_descriptor (false ∷ rest) s =
    throw connect_exception (record s { os = record (s.os) { connects = rest } })

-- `void connect_to_host()`
unfoldable pub connect_to_host : SocketM (Unit {0})
unfolding connect_descriptor read_ai
connect_to_host s =
    if ltb_ℤ s.sock (pos 0)
    then throw socket_exception s
    else (do
      set_blocking true
      read_ai
      λ t. connect_descriptor t.os.connects t
      set_blocking false
      λ t. ok tt (record t { is_sock_init = true }))
        s

-- `bind`, then `listen`, with the answers to come. An exception is reported and ends the process.
unfoldable pub bind_and_listen : List Bool → List Bool → SocketM (Unit {0})
bind_and_listen [] listens s = no_fuel
bind_and_listen (false ∷ binds) listens s = exits
bind_and_listen (true ∷ binds) [] s = no_fuel
bind_and_listen (true ∷ binds) (false ∷ listens) s = exits
bind_and_listen (true ∷ binds) (true ∷ listens) s =
    ok tt
      (record s { is_sock_init = true; os = record (s.os) { binds = binds; listens = listens } })

-- `void init_server(int backlog)`
unfoldable pub init_server : SocketM (Unit {0})
unfolding bind_and_listen read_ai
init_server = read_ai >> λ s. bind_and_listen s.os.binds s.os.listens s

-- `if(ipstr[0] == '\0')` of the text, and what is returned.
abbrev ip_port : List ℕ → ℕ → SocketM (List ℕ × ℕ)
ip_port [] port s = throw generic_exception s
ip_port (c ∷ ip) port s = ok (c ∷ ip, port) s

-- `tuple<string, int> handle_addr_fam_and_get_ip_port(sa_family_t sa_family, struct sockaddr *sa)`. The
-- text of another family stays empty.
unfoldable pub handle_addr_fam_and_get_ip_port : ClientAddress → SocketM (List ℕ × ℕ)
handle_addr_fam_and_get_ip_port (ipv4 ipstr port) = ip_port ipstr port
handle_addr_fam_and_get_ip_port (ipv6 ipstr port) = ip_port ipstr port
handle_addr_fam_and_get_ip_port other_family = ip_port [] 0

-- `accept`, with the answers to come, and the client's address.
unfoldable pub accept_client : List AcceptAnswer → SocketM (List ℕ × ℕ × ℤ)
unfolding handle_addr_fam_and_get_ip_port
accept_client [] s = no_fuel
accept_client (not_accepted ∷ rest) s =
    throw accept_exception (record s { os = record (s.os) { accepts = rest } })
accept_client (accepted fd address ∷ rest) s =
    (do a ← handle_addr_fam_and_get_ip_port address; λ t. ok (a.0, a.1, pos fd) t)
      (record s { os = record (s.os) { accepts = rest } })

-- `tuple<string, int, sock_t> server_accept_conns()`
unfoldable pub server_accept_conns : SocketM (List ℕ × ℕ × ℤ)
unfolding accept_client
server_accept_conns s = accept_client s.os.accepts s

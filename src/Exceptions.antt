-- ===== src/Exceptions.antt =====
-- include/exceptionhandler.h: the text of an exception. A string is the list of its characters.
use p2purr.Base.{
  ℕ, Bool, ◌||◌, List, [], ◌∷◌, ◌==◌, if◌then◌else◌, ℤ, Exception, generic_exception,
  socket_exception, socket_options_exception, bind_exception, listen_exception, accept_exception,
  connect_exception, send_exception, receive_exception, get_addr_info_exception,
  socket_close_exception, socket_shutdown_exception, fctrl_exception, poll_exception,
  packet_exception,
}

-- An exception with `message` and `status_code`, which GetAddrInfoException calls `ai_ret_code`.
pub record Thrown : Type 0 where
  pub class' : Exception
  pub message : List ℕ
  pub status_code : ℤ

-- The values of EAGAIN and EWOULDBLOCK, and the texts of `strerror` and `gai_strerror`.
pub record ErrorCodes : Type 0 where
  pub eagain : ℕ
  pub ewouldblock : ℕ
  pub strerror : ℕ → List ℕ
  pub gai_strerror : ℤ → List ℕ

-- What is printed: the line that says which call has failed, if it names one; that with the last
-- `errno`; that with the code of `getaddrinfo`; and that of a packet.
pub data Line : Type 0 where
  occurred : Line
  occurred_in : Exception → Line
  last_errno : ℕ → List ℕ → Line
  return_code : ℤ → List ℕ → Line
  while_handling_a_packet : Line

module _ (codes : ErrorCodes) where
  -- `if(errno == EAGAIN || errno == EWOULDBLOCK)`
  pub would_block : ℕ → Bool
  would_block errno = errno == codes.eagain || errno == codes.ewouldblock

  -- `what()` of GenericException.
  abbrev what_generic : ℕ → Thrown → List Line × List ℕ
  what_generic errno e = (occurred ∷ last_errno errno (codes.strerror errno) ∷ [], e.message)

  -- `what()` of most other classes.
  abbrev what_of_call : ℕ → Thrown → List Line × List ℕ
  what_of_call errno e =
      (occurred_in e.class' ∷ last_errno errno (codes.strerror errno) ∷ [], e.message)

  -- `what()` of AcceptException and ReceiveException.
  pub what_unless_blocked : ℕ → Thrown → List Line × List ℕ
  unfolding would_block
  what_unless_blocked errno e = if would_block errno then ([], []) else what_of_call errno e

  -- `what()` of GetAddrInfoException.
  abbrev what_of_addrinfo : Thrown → List Line × List ℕ
  what_of_addrinfo e = (
    occurred_in e.class' ∷ return_code e.status_code (codes.gai_strerror e.status_code) ∷ [],
    e.message,
  )

  -- `what()` of PacketException.
  abbrev what_of_packet : Thrown → List Line × List ℕ
  what_of_packet e = (while_handling_a_packet ∷ [], e.message)

  -- `virtual const char* what()`, at the value of `errno`: the lines that are printed, and the text that
  -- is returned.
  unfoldable pub what : ℕ → Thrown → List Line × List ℕ
  unfolding what_unless_blocked
  what errno e = elim e.class' [
    | generic_exception ↦ what_generic errno e
    | socket_exception ↦ what_of_call errno e
    | socket_options_exception ↦ what_of_call errno e
    | bind_exception ↦ what_of_call errno e
    | listen_exception ↦ what_of_call errno e
    | accept_exception ↦ what_unless_blocked errno e
    | connect_exception ↦ what_of_call errno e
    | send_exception ↦ what_of_call errno e
    | receive_exception ↦ what_unless_blocked errno e
    | get_addr_info_exception ↦ what_of_addrinfo e
    | socket_close_exception ↦ what_of_call errno e
    | socket_shutdown_exception ↦ what_of_call errno e
    | fctrl_exception ↦ what_of_call errno e
    | poll_exception ↦ what_of_call errno e
    | packet_exception ↦ what_of_packet e
  ]

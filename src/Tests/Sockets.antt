-- ===== src/Tests/Sockets.antt =====
-- A socket that connects, one whose options fail, and one that takes the data in two pieces.
use p2purr.Base.{◌≡◌, refl, true, false, [], ◌∷◌, arith, ok, Ends, socket_options_exception}
use p2purr.Socket.{Socket, took, transmit, send_data}
use p2purr.Socket.Pieces.{send_data_exactly}
use p2purr.Socket.Setup.{set_sock_options}
use p2purr.Socket.Setup.Connecting.{all_of, set_sock_options-Ends}
use p2purr.Tests.{connection}

-- The third and the fifth call of `setsockopt` fail.
abbrev refusing : Socket
refusing = record connection {
  os = record (connection.os) { setsockopts = true ∷ true ∷ false ∷ true ∷ false ∷ true ∷ [] };
}

set_sock_options-Ends_example :
    Ends
      (λ _ t. all_of 6 refusing.os.setsockopts ≡ true)
      (λ e t. (e ≡ socket_options_exception) × (all_of 6 refusing.os.setsockopts ≡ false))
      (set_sock_options refusing)
set_sock_options-Ends_example = set_sock_options-Ends refusing

send_data_exactly_example :
    send_data (7 ∷ 255 ∷ 9 ∷ []) connection ≡ ok true (transmit connection [] (7 ∷ 255 ∷ 9 ∷ []))
send_data_exactly_example =
    send_data_exactly (7 ∷ 255 ∷ 9 ∷ []) (took 2 ∷ took 1 ∷ []) [] connection refl
      (omega arith, omega arith, (omega arith, omega arith, refl))

-- ===== src/Program.antt =====
-- main.cpp: the server of the program, from its start to the signal that ends it.
use p2purr.Base.{ℕ, List, [], ◌∷◌, Outcome, ok, throw, fault, no_fuel, exits, ◌>>◌}
use p2purr.Socket.Setup.{Fresh}
use p2purr.Server.{P2PurrServer, ServerM, new_server, start, stop, destroy_server}

-- `SERVER_ADDRESS` and `SERVER_PORT`: "0.0.0.0" and 10011.
abbrev server_address : List ℕ
server_address = 48 ∷ 46 ∷ 48 ∷ 46 ∷ 48 ∷ 46 ∷ 48 ∷ []

abbrev server_port : ℕ
server_port = 10011

-- `exit(1)`, which runs the destructor of the global server.
exit_1 : ServerM (Unit {0})
exit_1 = destroy_server >> λ s. exits

-- `void sig_handler(int s)`
sig_handler : ServerM (Unit {0})
unfolding exit_1
sig_handler = stop >> exit_1

-- `int main(int argc, char *argv[])` on the global server, where `pause` waits for the signal.
main : ServerM (Unit {0})
unfolding sig_handler
main = start >> sig_handler

-- The constructor of the global server, and `main`. An exception of the constructor ends the process.
unfoldable program : ℕ → Fresh → Outcome P2PurrServer (Unit {0})
unfolding main
program events fresh = elim (new_server events fresh server_address server_port) [
  | ok s helper ↦ main s
  | throw e helper ↦ exits
  | fault ↦ fault
  | no_fuel ↦ no_fuel
  | exits ↦ exits
]

-- ===== src/Lib.antt =====
-- p2purr: a peer-to-peer messenger. A `Packet` is built from a payload or a file and turned into bytes
-- (src/packet.cpp, with the integers of src/serializer.cpp); a `PeerConnHandler`
-- (src/peerconnhandler.cpp) hands the bytes to its `SocketHelper` (src/sockethelper.cpp), and on the
-- other side fills a buffer of 1500 bytes from its own and lets the current `Packet` rebuild itself
-- from it, call by call, until the buffer is used up. A `P2PurrServer` (src/p2purr_server.cpp) keeps the
-- table of these connections and the list of descriptors to poll, and main.cpp has one such server, from
-- its start to the signal that ends the program.
--
-- Files
--   Base              shared names; `Outcome`, which is what a call of a C++ method does (a value, a
--                     throw, undefined behaviour); arrays with checked reads and copies
--   Exceptions        include/exceptionhandler.h, what the methods what() print and return
--   Serializer        src/serializer.cpp, serialize_int* and deserialize_int*, on bit patterns
--   Serializer/Precision
--                     include/serializer.h and src/serializer.cpp, get_precision_info, serialize_float,
--                     deserialize_float
--   Packet            include/packet.h, and the small methods of src/packet.cpp
--   Packet/Build      the constructors to send, build, build_header, make_pkt, process_input_file
--   Packet/Wire       the wire format, written independently of sender and receiver
--   Packet/Rebuild    the constructor on the receive buffer, header_ready, rebuild_header, rebuild,
--                     output_to_file; the two loops are in Packet/Rebuild/Loops
--   Socket            src/sockethelper.cpp, send_data, receive, close_sock
--   Socket/Addresses  src/sockethelper.cpp, build_addrinfo_struct, get_all_ip_from_addrinfo, the
--                     destructor
--   Socket/Setup      src/sockethelper.cpp, the constructor, set_blocking, set_sock_options,
--                     connect_to_host, init_server, server_accept_conns
--   Peer              src/peerconnhandler.cpp
--   Peer/Ends         recv_pkt on whatever bytes, with Packet/Rebuild/Ends and Socket/Ends
--   Peer/InBounds     recv_pkt keeps the buffer and the index in bounds, with Packet/Rebuild/InRange and
--                     Socket/Bounds
--   Peer/Reach        the methods of a connection as steps, and the states that they lead to
--   Peer/Delivery     recv_pkt called once for each piece of a stream
--   Peer/Exchange     send_pkt called once for each packet, and its receiver
--   Server            src/p2purr_server.cpp, the constructor, the methods on the table of peers and on
--                     the poll list, start and stop
--   Server/Disconnected
--                     src/p2purr_server.cpp, remove_disconnected_peers
--   Server/Polling    src/p2purr_server.cpp, start_async_poll: a pass over the poll list, and a round
--   Server/Polling/Rounds
--                     rounds in which one peer's descriptor is ready
--   Server/Polling/Turn, Server/Polling/Busy
--                     a round as the calls that it makes; rounds in which any descriptors are ready
--   Server/Registry   the table as a map, in whatever order std::unordered_map gives its entries
--   Server/Moves      what may happen to the peers, said of this map alone, with Server/History
--   Server/Reach      the methods, the rounds and a new order of the table as steps, and the states that
--                     they lead to
--   Server/Traffic    handle_client_communications called once for each piece of a stream
--   Server/Sending    send_pkt_to_peer called once for each packet
--   Server/Channel    from the constructors of packets on one server to the poll thread of another
--   Program           main.cpp
--   Tests             concrete packets, sockets and servers
-- The other files below these hold proofs.
--
-- Correspondence. A pointer that may be null is an option, and a pointer into a buffer is an offset
-- with the buffer's contents in the state. Access out of range or through null is `fault`. `malloc`
-- and local arrays give the contents that the parameter `Platform.uninitialised` names, of which only
-- the length is known; the same parameter has the file system. The receive buffer and its index, which
-- a connection shares with its packets, are part of the state that a packet's methods pass on. The
-- operating system below a socket is a list of answers for each call, which are not tied to the descriptor:
-- the model also has runs that no system gives, such as a `bind` on -1 that succeeds. The program has one
-- file "out.txt", which every connection writes and none reads; the model has, as part of each
-- connection, what this connection last wrote to it, so it does not say which connection wrote last. A
-- client that is refused is kept, as `close` left it, in a list that the class does not have. The table of peers is the list of its entries in the
-- order in which the iterators of std::unordered_map give them.
--
-- Bounds and fuel. Integers keep their width: lengths are taken modulo 2 ^ 16 or 2 ^ 32 where the code
-- stores them so, and an `int` that is converted from an unsigned may be negative. The loops of
-- Packet/Rebuild/Loops run on one round for each byte up to `buff_total_len` and one more, which is
-- enough since each round moves the index on; the loop of `recv_pkt` has a round for each byte that
-- was received and one more, which is enough on any bytes. The loops of a socket run on the list of
-- answers, and do not return when it is used up. A pass of the poll thread runs on fuel, and one unit for
-- each entry of the poll list and one more is enough where one peer is ready, and two more where the list
-- may grow; what is proved of the reachable states holds of every amount.
--
-- Not modelled: two threads inside of one method of the server, the callbacks of a library build, the
-- conversions of getaddrinfo and inet_ntop (their results are answers of the system), the moment at
-- which shared objects are destroyed, the Windows branches, the registration of the signal handler, and
-- what is printed beside the text of exceptions.
pub mod Base
pub mod Exceptions
pub mod Serializer
pub mod Packet
pub mod Socket
pub mod Peer
pub mod Server
pub mod Program
pub mod Tests

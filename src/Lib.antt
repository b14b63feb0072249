-- ===== src/Lib.antt =====
-- pax_adb: the Android debug bridge for PAX terminals on Linux (the files named here are in src/).
-- The client (commandline.c, adb_client.c) sends requests to a server on the same machine. The server holds a transport per
-- device; packets of a device reach `handle_packet` (adb.c), which opens, feeds and closes the
-- sockets of sockets.c. This library models the build for the host (ADB_HOST = 1).
--
-- The parts:
-- - Base: shared names, Boolean tests on numbers, byte strings, lists measured by native numbers.
-- - Io: `readx` and `writex` of transport.c over the outcomes of the coming `read` and `write`
--   calls. A transfer with no outcome left is `blocked` or `waiting`: it has not returned. A read
--   behind the end of its buffer is `overrun`. Io/Exact is about what they transfer.
-- - Wire: `amessage` and `apacket` of adb.h, the sealing in `send_packet`, `check_header` and
--   `check_data` of transport.c, `remote_read` and `remote_write` of transport_local.c. The host is
--   little-endian; a 32-bit sum is taken modulo 2 ^ 32. Wire/Encoding, Wire/Checks and Wire/Transfer
--   hold the proofs.
-- - Adb: the state of the server that handlers share: sockets on an explicit heap (`asocket`, with
--   addresses for pointers and a constructor for each function that a function pointer can name), the
--   list of open sockets and the list of closing ones, the transports (`atransport`), the outcomes of
--   the coming writes, and what was done to the outside. A step returns none where the code would
--   follow a null or dangling pointer or call `fatal`; that a handler returns `some` is its memory
--   safety. Adb/Steps has the rules to reason about steps.
-- - Sockets: the making, finding and closing of sockets in sockets.c. `close_call` has fuel for calls
--   that nest, 4 in `close_socket`; Sockets/Retire is about what it takes. Sockets/Find is about
--   `find_local_socket`, Sockets/Dropping about `close_all_sockets`, whose restarts have one more than
--   the length of the list as fuel.
-- - Flow: the `enqueue` and `ready` functions of the sockets of sockets.c. Flow/Push is the write
--   loop, Flow/Arrival is about `local_socket_enqueue`, Flow/Events has the part of
--   `local_socket_event_func` for writable descriptors.
-- - Auth: `adb_auth_nextkey` of adb_auth_host.c. Reading keys and signing are parameters (`Env`).
-- - Banner: `parse_banner` of adb.c. A C string is the list of its bytes before the NUL; where the
--   payload of a CNXN packet has none, its end counts as one.
-- - Protocol: `handle_packet` of adb.c and the functions it calls. Protocol/Replies and, for
--   each packet that addresses sockets, Protocol/Opening, Resuming, Writing and Closing hold the
--   proofs; Protocol/Draining is about writable descriptors. `service_to_fd` and the smart
--   socket's `enqueue` are parameters (`Env`).
-- - Smart: how the smart socket of sockets.c collects a request (`smart_socket_enqueue`), the request
--   that `_adb_connect` of adb_client.c writes, and the commands of `format_host_command` of
--   commandline.c with their target.
-- - Transports: `qual_match` and `acquire_one_transport` of transport.c. The lists that the coming
--   looks at the transports see are an argument; with none left it still waits. Transports/Listing
--   is `list_transports`.
-- - Commandline: `escape_arg`, `pax_tool_command` and `pax_stream_and_parse_ret` of commandline.c.
-- - Sync: the stat, list, unlink, send and receive messages of file_sync_client.c. A loop over the
--   device's answers has one more than the number of the bytes to come as fuel, and an argument for
--   what it does at the end of the fuel, which it never reaches; Sync/Fuel is about it.
--   Sync/Files, Sync/Receiving and Sync/Asking are about the transfers.
-- - Fdevent: the event loop of fdevent.c on `select`. The links `next` and `prev` of the events stand
--   in Fdevent/Pending, the other fields and the static variables in a state that each function takes
--   and returns; none stands for `FATAL`, for a null or dangling pointer, and for a descriptor of
--   FD_SETSIZE (1024) or more as the index of an `fd_set`. What `realloc` leaves in
--   new memory and what the callbacks do are arguments. The table grows by at most 7 doublings, since
--   a descriptor above 32000 is refused. Fdevent/Pending/Ring, Removal and Queue are about the ring of
--   pointers, Fdevent/Tables and Registering about the descriptor table, Fdevent/Queued about the
--   events that are marked pending, Fdevent/Consistent about the invariant over all calls, and
--   Fdevent/Select about `fdevent_process` and `fdevent_loop`; the loop over the pending list has fuel,
--   of which one more than the number of pending events is enough.
-- - Listeners: the forward listeners of adb.c (`install_listener`, `remove_listener`,
--   `remove_all_listeners`) with their entries on the lists of the transports. Listeners/Names is
--   about the list, Listeners/Refinement and its modules Unbinding, Binding, Clearing and Steps about it
--   as a map. Listeners/Forwarding has `handle_forward_request`,
--   `format_listeners` and `local_name_to_fd`; what the socket helpers and `acquire_one_transport`
--   return are arguments. Listeners/Forwarding/Parsing is about the requests, with the one that
--   commandline.c writes.
-- - Client: `adb_status`, the request of `switch_socket_transport` and what `adb_query` makes of a reply,
--   of adb_client.c. Client/Status is about the replies that the server writes.
-- - Tests: concrete runs.
--
-- Not modelled: threads and locks (each handler runs on the server's one event loop), the
-- registration and release of transports, the other host requests of adb.c, the
-- copying of whole directories in file_sync_client.c, USB devices, process
-- start and logging, and the helpers that only call the operating system.
pub mod Base
pub mod Io
pub mod Wire
pub mod Adb
pub mod Sockets
pub mod Flow
pub mod Auth
pub mod Banner
pub mod Protocol
pub mod Smart
pub mod Commandline
pub mod Transports
pub mod Sync
pub mod Fdevent
pub mod Listeners
pub mod Client
pub mod Tests

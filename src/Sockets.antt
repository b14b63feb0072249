-- ===== src/Sockets.antt =====
-- sockets.c: how local, remote and smart sockets are made, found and closed.
pub mod Lists
pub mod Find
pub mod Retire
pub mod Tweak
pub mod Dropping
use pax_linux.Base.{
  ℕ, zero, suc, ◌+◌, ◌%◌, Bool, true, false, not, ◌||◌, List, [], ◌∷◌, ◌++◌, Option, none, some,
  length, take, drop, ◌==◌, if◌then◌else◌, bytes,
}
use pax_linux.Io.{WriteEvent, took, broken, interrupted, again}
use pax_linux.Wire.{Packet, send_packet, word}
use pax_linux.Adb.{
  Socket, Transport, Adb, M, ◌>>=◌, ◌>>◌, pure, fault, update, modify, load, store, free, emit,
  load_transport, store_transport, deref, local_enqueue, remote_enqueue, smart_enqueue, local_ready,
  local_ready_notify, remote_ready, smart_ready, local_close, local_close_notify, remote_close,
  smart_close, sent, wrote, closed_fd,
}
use pax_linux.Sockets.Lists.{remove, is_nil}
use pax_linux.Flow.Push.{Pushed, push_bytes}

-- A packet of `get_apacket` with the fields that its sender fills in.
abbrev pub new_packet : ℕ → ℕ → ℕ → List ℕ → Packet
new_packet command arg0 arg1 payload = record {
  msg = record {
    command = command;
    arg0 = arg0;
    arg1 = arg1;
    data_length = length payload;
    data_check = 0;
    magic = 0;
  };
  payload = payload;
}

abbrev pub a_okay : ℕ
a_okay = 0x5941_4b4f

abbrev pub a_clse : ℕ
a_clse = 0x4553_4c43

abbrev pub a_wrte : ℕ
a_wrte = 0x4554_5257

-- `send_packet(p, t)`: the sealed packet goes to the transport's thread; a null transport is fatal.
unfoldable pub transmit : Packet → Option ℕ → M (Unit {0})
transmit p t = do t' ← deref t; emit (sent t' (send_packet p))

-- Walk of `local_socket_list`: the first socket with the id decides.
pub find_loop : ℕ → ℕ → List ℕ → M (Option ℕ)
find_loop local_id peer_id [] = pure none
find_loop local_id peer_id (a ∷ rest) =
    let go_on = find_loop local_id peer_id rest in
    load a >>= λ s. elim (s.id == local_id) [
      | false ↦ go_on
      | true ↦ elim (peer_id == 0) [
        | true ↦ pure (some a)
        | false ↦ elim s.peer [
          | none ↦ pure none
          | some b ↦ load b >>= λ p. pure (if p.id == peer_id then some a else none)
        ]
      ]
    ]

unfoldable pub find_local_socket : ℕ → ℕ → M (Option ℕ)
unfolding find_loop
find_local_socket local_id peer_id st = find_loop local_id peer_id st.local_list st

-- `insert_local_socket` puts the socket at the tail of the list.
pub insert_local : ℕ → M (Unit {0})
insert_local a = do
  s ← load a
  store a (record s { linked = true })
  modify (λ st. record st { local_list = st.local_list ++ a ∷ [] })

pub insert_closing : ℕ → M (Unit {0})
insert_closing a = do
  s ← load a
  store a (record s { linked = true })
  modify (λ st. record st { closing_list = st.closing_list ++ a ∷ [] })

-- The next id is never 0: the counter skips it when it wraps.
pub next_socket_id : ℕ → ℕ
next_socket_id n = if (n + 1) % word == 0 then 1 else (n + 1) % word

pub install_local_socket : ℕ → M (Unit {0})
unfolding insert_local next_socket_id
install_local_socket a = do
  s ← load a
  modify (λ st. record st {
    heap = update st.heap a (some (record s { id = st.next_id }));
    next_id = next_socket_id st.next_id;
  })
  insert_local a

unfoldable pub remove_socket : ℕ → M (Unit {0})
remove_socket a = do
  s ← load a
  if not s.linked
      then pure tt
      else modify (λ st. record st {
        heap = update st.heap a (some (record s { linked = false; id = 0 }));
        local_list = remove a st.local_list;
        closing_list = remove a st.closing_list;
      })

-- `calloc` of a socket: a fresh address.
pub allocate : Socket → M ℕ
allocate s st = some (
  st.next_address,
  record st { heap = update st.heap st.next_address (some s); next_address = st.next_address + 1 },
)

unfoldable pub create_local_socket : ℕ → M ℕ
unfolding allocate install_local_socket
create_local_socket fd = do
  a ← allocate (record {
    id = 0;
    linked = false;
    closing = false;
    peer = none;
    fd = fd;
    wants_read = false;
    wants_write = false;
    pkts = [];
    enqueue = local_enqueue;
    ready = local_ready;
    shutdown = false;
    close = local_close;
    transport = none;
  })
  install_local_socket a
  pure a

pub add_transport_disconnect : ℕ → ℕ → M (Unit {0})
add_transport_disconnect t a = do
  r ← load_transport t
  store_transport t (record r { disconnects = r.disconnects ++ a ∷ [] })

unfoldable pub remove_transport_disconnect : ℕ → ℕ → M (Unit {0})
remove_transport_disconnect t a = do
  r ← load_transport t
  store_transport t (record r { disconnects = remove a r.disconnects })

-- An id of 0 is fatal.
unfoldable pub create_remote_socket : ℕ → ℕ → M ℕ
unfolding allocate add_transport_disconnect
create_remote_socket id t = if id == 0 then fault else do
  a ← allocate (record {
    id = id;
    linked = false;
    closing = false;
    peer = none;
    fd = 0;
    wants_read = false;
    wants_write = false;
    pkts = [];
    enqueue = remote_enqueue;
    ready = remote_ready;
    shutdown = true;
    close = remote_close;
    transport = some t;
  })
  add_transport_disconnect t a
  pure a

unfoldable pub remote_socket_shutdown : ℕ → M (Unit {0})
unfolding transmit
remote_socket_shutdown a = do
  s ← load a
  elim s.peer [
    | none ↦ transmit (new_packet a_clse 0 s.id []) s.transport
    | some b ↦ load b >>= λ p. transmit (new_packet a_clse p.id s.id []) s.transport
  ]

-- The descriptor is closed, unwritten packets are dropped.
unfoldable pub local_socket_destroy : ℕ → M (Unit {0})
unfolding remove_socket
local_socket_destroy a = do s ← load a; emit (closed_fd s.fd); remove_socket a; free a

-- `writex` on the coming outcomes: what goes out, and the outcomes not yet used. With none left
-- nothing more is written.
unfoldable pub write_exact : List WriteEvent → List ℕ → List ℕ × List WriteEvent
write_exact left [] = ([], left)
write_exact [] (b ∷ bs) = ([], [])
write_exact (took k ∷ left) (b ∷ bs) =
    let rest = write_exact left (drop k bs) in (b ∷ take k bs ++ rest.0, rest.1)
write_exact (broken ∷ left) (b ∷ bs) = ([], left)
write_exact (interrupted ∷ left) (b ∷ bs) = write_exact left (b ∷ bs)
write_exact (again ∷ left) (b ∷ bs) = write_exact left (b ∷ bs)

-- The descriptor has taken these bytes.
unfoldable pub note_written : ℕ → List ℕ × List WriteEvent → M (Unit {0})
note_written fd r = modify (λ st. record st {
  writes = r.1;
  events = if is_nil r.0 then st.events else st.events ++ wrote fd r.0 ∷ [];
})

-- `sendfailmsg(fd, "closed")`: the reason goes out only behind the whole of what stands before it.
unfoldable pub send_closed : ℕ → M (Unit {0})
unfolding write_exact note_written
send_closed fd st =
    (let r = write_exact st.writes (bytes "FAIL0006") in
        note_written fd r
        >> (if length r.0 == 8
            then (λ st1. note_written fd (write_exact st1.writes (bytes "closed")) st1)
            else pure tt))
      st

-- What `local_socket_close_locked` does to its peer before it closes it.
unfoldable pub unhook : ℕ → M (Unit {0})
unfolding remote_socket_shutdown
unhook b = do
  p ← load b
  if p.shutdown then remote_socket_shutdown b else pure tt
  p' ← load b
  store b (record p' { peer = none })

-- `s->peer = 0`.
unfoldable pub clear_peer : ℕ → M (Unit {0})
clear_peer a = do s ← load a; store a (record s { peer = none })

-- The end of `local_socket_close_locked`: destroyed at once, or on the closing list until its
-- packets are written.
unfoldable pub finish_close : ℕ → M (Unit {0})
unfolding local_socket_destroy remove_socket insert_closing
finish_close a = do
  s ← load a
  if s.closing || is_nil s.pkts then local_socket_destroy a else do
    store a (record s { closing = true; wants_read = false })
    remove_socket a
    insert_closing a

-- The end of `remote_socket_close`.
unfoldable pub finish_remote : ℕ → M (Unit {0})
unfolding remove_transport_disconnect
finish_remote a = do s ← load a; t ← deref s.transport; remove_transport_disconnect t a; free a

-- What `local_socket_close_notify` does before it calls the new close function.
unfoldable pub fail_notify : ℕ → M (Unit {0})
unfolding send_closed
fail_notify a = do
  s ← load a
  store a (record s { ready = local_ready; shutdown = false; close = local_close })
  send_closed s.fd

-- The close functions, over the call `s->close(s)` of a socket.
module _ (again : ℕ → M (Unit {0})) where
  unfoldable pub detach_peer : ℕ → Option ℕ → M (Unit {0})
  unfolding unhook clear_peer
  detach_peer a none = pure tt
  detach_peer a (some b) = do unhook b; again b; clear_peer a

  unfoldable pub local_socket_close_locked : ℕ → M (Unit {0})
  unfolding detach_peer finish_close
  local_socket_close_locked a = do s ← load a; detach_peer a s.peer; finish_close a

  unfoldable pub local_socket_close_notify : ℕ → M (Unit {0})
  unfolding fail_notify
  local_socket_close_notify a = do fail_notify a; again a

  unfoldable pub close_remote_peer : Option ℕ → M (Unit {0})
  unfolding clear_peer
  close_remote_peer none = pure tt
  close_remote_peer (some b) = do clear_peer b; again b

  unfoldable pub remote_socket_close : ℕ → M (Unit {0})
  unfolding close_remote_peer finish_remote
  remote_socket_close a = do s ← load a; close_remote_peer s.peer; finish_remote a

  pub smart_socket_close : ℕ → M (Unit {0})
  unfolding close_remote_peer
  smart_socket_close a = do s ← load a; close_remote_peer s.peer; free a

-- `s->close(s)`. The fuel bounds how deep the calls nest.
unfoldable pub close_call : ℕ → ℕ → M (Unit {0})
close_call zero a = fault
close_call (suc fuel) a = do
  s ← load a
  elim s.close [
    | local_close ↦ local_socket_close_locked (close_call fuel) a
    | local_close_notify ↦ local_socket_close_notify (close_call fuel) a
    | remote_close ↦ remote_socket_close (close_call fuel) a
    | smart_close ↦ smart_socket_close (close_call fuel) a
  ]

-- How deep the calls may nest.
abbrev pub close_fuel : ℕ
close_fuel = 4

unfoldable pub close_socket : ℕ → M (Unit {0})
unfolding close_call
close_socket = close_call close_fuel

-- ===== src/Flow.antt =====
-- The flow of bytes through the sockets of sockets.c: their `enqueue` and `ready` functions.
pub mod Push
pub mod Arrival
pub mod Events
use pax_linux.Base.{
  ℕ, zero, suc, ◌+◌, ◌%◌, Bool, true, false, not, ◌||◌, List, [], ◌∷◌, ◌++◌, Option, none, some,
  length, take, ◌==◌, if◌then◌else◌, bytes,
}
use pax_linux.Io.{WriteEvent, took}
use pax_linux.Wire.{Packet, send_packet, word}
use pax_linux.Adb.{
  Socket, Transport, Adb, M, ◌>>=◌, ◌>>◌, pure, fault, update, modify, load, store, free, emit,
  load_transport, store_transport, deref, local_enqueue, remote_enqueue, smart_enqueue, local_ready,
  local_ready_notify, remote_ready, smart_ready, local_close, local_close_notify, remote_close,
  smart_close, sent, wrote, closed_fd,
}
use pax_linux.Sockets.Lists.{remove, is_nil}
use pax_linux.Flow.Push.{Pushed, push_bytes}
use pax_linux.Sockets.{new_packet, a_okay, a_wrte, transmit, close_socket, note_written}

-- What `enqueue` returns: 0, 1 or -1.
pub data Enqueued : Type 0 where
  more not_ready peer_closed : Enqueued

-- `adb_write` in a loop: bytes go out, outcomes are used up.
pub write_out : ℕ → List ℕ → M Pushed
unfolding push_bytes
write_out fd bs st =
    let r = push_bytes st.writes bs in
    let done = if is_nil r.written then st.events else st.events ++ wrote fd r.written ∷ [] in
    some (r, record st { writes = r.left; events = done })

-- Unwritten bytes go to the tail of the queue, and the descriptor is watched for writing.
pub queue : ℕ → List ℕ → M Enqueued
queue a rest = do
  s ← load a
  store a (record s { pkts = s.pkts ++ rest ∷ []; wants_write = true })
  pure not_ready

unfoldable pub local_socket_enqueue : ℕ → List ℕ → M Enqueued
unfolding write_out queue close_socket
local_socket_enqueue a bs = do
  s ← load a
  if not (is_nil s.pkts) then queue a bs else do
    r ← write_out s.fd bs
    if r.failed
        then (do close_socket a; pure not_ready)
        else if is_nil r.rest
        then pure more
        else queue a r.rest

unfoldable pub remote_socket_enqueue : ℕ → List ℕ → M Enqueued
unfolding transmit
remote_socket_enqueue a bs = do
  s ← load a
  b ← deref s.peer
  p ← load b
  transmit (new_packet a_wrte p.id s.id bs) s.transport
  pure not_ready

pub local_socket_ready : ℕ → M (Unit {0})
local_socket_ready a = do s ← load a; store a (record s { wants_read = true })

pub remote_socket_ready : ℕ → M (Unit {0})
unfolding transmit
remote_socket_ready a = do
  s ← load a
  b ← deref s.peer
  p ← load b
  transmit (new_packet a_okay p.id s.id []) s.transport

-- One `adb_write`: what goes out, and the outcomes not yet used.
unfoldable pub write_once : List WriteEvent → List ℕ → List ℕ × List WriteEvent
write_once [] bs = ([], [])
write_once (took k ∷ left) bs = (take (suc k) bs, left)
write_once (_ ∷ left) bs = ([], left)

-- The go-ahead of a connection that was opened through a smart socket. Whether it could be written is
-- not looked at.
pub local_socket_ready_notify : ℕ → M (Unit {0})
unfolding local_socket_ready write_once note_written
local_socket_ready_notify a = do
  s ← load a
  store a (record s { ready = local_ready; shutdown = false; close = local_close })
  λ st. note_written s.fd (write_once st.writes (bytes "OKAY")) st
  local_socket_ready a

-- `s->ready(s)`; that of a smart socket does nothing.
unfoldable pub ready_socket : ℕ → M (Unit {0})
unfolding local_socket_ready local_socket_ready_notify remote_socket_ready
ready_socket a = do
  s ← load a
  elim s.ready [
    | local_ready ↦ local_socket_ready a
    | local_ready_notify ↦ local_socket_ready_notify a
    | remote_ready ↦ remote_socket_ready a
    | smart_ready ↦ pure tt
  ]

-- ===== src/Tests/Server.antt =====
-- The packet handlers on a server with one transport.
use pax_linux.Base.{
  ℕ, Option, List, inl, inr, refl, true, false, [], ◌∷◌, none, some, ◌==◌, if◌then◌else◌, arith,
  bytes, none-ne-some, ap, sym, ◌∙◌, ◌≡◌, some_inj,
}
use pax_linux.Wire.{send_packet, Packet}
use pax_linux.Adb.{
  Event, wrote, closed_fd, local_ready_notify, local_close_notify, Transport, Adb, Socket, device,
  update, sent,
}
use pax_linux.Adb.Steps.{Ensures, Returns}
use pax_linux.Sockets.{new_packet, a_clse, a_wrte, a_okay, close_socket, find_local_socket}
use pax_linux.Sockets.Find.{find_local_socket-Found, Outcome}
use pax_linux.Sockets.Retire.{IsSound}
use pax_linux.Sockets.Dropping.{close_all_sockets}
use pax_linux.Sockets.Dropping.Emptying.{Dropped, close_all_sockets-Dropped}
use pax_linux.Protocol.{
  Env, a_open, handle_packet, handle_open, handle_clse, handle_wrte, handle_okay,
}
use pax_linux.Protocol.Replies.{handle_packet-offline}
use pax_linux.Protocol.Closing.{
  ClosesOrRefuses, handle_clse_any_transport, handle_clse-ClosesOrRefuses,
}
use pax_linux.Flow.{local_socket_enqueue}
use pax_linux.Flow.Arrival.{Arrived, local_socket_enqueue-Arrived}
use pax_linux.Io.{took}
use pax_linux.Sockets.Tweak.{same_sockets-IsSound, Tweaked-IsSound}
use pax_linux.Flow.Events.{Drained, IsDrained, on_writable}
use pax_linux.Protocol.Draining.{Writable, on_writable-Writable}
use pax_linux.Protocol.Writing.{DeliversOrIgnores, handle_wrte-DeliversOrIgnores}
use pax_linux.Protocol.Resuming.{Okayed, handle_okay-Okayed}
use pax_linux.Protocol.Joining.{Joined-IsSound}
use pax_linux.Protocol.Opening.{Opened, local_end, remote_end, handle_open-IsSound}

abbrev env : Env
env = record {
  service_to_fd = λ name. some 40;
  keys = 1 ∷ 2 ∷ [];
  sign = λ key token. some (key ∷ token);
  user_key = none;
  smart = λ a bs st. none;
}

abbrev online_transport : Transport
online_transport = record {
  connection_state = device;
  online = true;
  disconnects = [];
  product = none;
  model = none;
  device = none;
  key = none;
  failed_auth_attempts = 0;
}

abbrev empty : Adb
empty = record {
  heap = λ a. none;
  next_address = 1;
  local_list = [];
  closing_list = [];
  next_id = 1;
  transports =
      λ t. if t == 7 then some online_transport else if t == 8 then some online_transport else none;
  writes = [];
  events = [];
}

empty-IsSound : IsSound empty
empty-IsSound = record {
  peers = λ a b s h to. absurd (none-ne-some h);
  senders = λ a s h k. absurd (none-ne-some h);
  listed = λ a o. absurd (ground arith);
  fresh = λ a h. refl;
}

-- One connection, of the local socket 1 to the socket 33 of the device on transport 7.
abbrev connected : Adb
connected = record empty {
  heap = update (update (λ a. none) 1 (some (local_end 1 40 2))) 2 (some (remote_end 33 7 1));
  next_address = 3;
  local_list = 1 ∷ [];
  next_id = 2;
}

connected-IsSound : IsSound connected
connected-IsSound =
    Joined-IsSound 1 2 (local_end 1 40 2) (remote_end 33 7 1) empty connected empty-IsSound
      (record {
        heap_a = refl;
        heap_b = refl;
        others = λ x na nb. ground arith;
        to = refl;
        back = refl;
        distinct = omega arith;
        lonely = λ x s h to. none-ne-some h;
        fresh = refl;
        senders_a = λ k. absurd (ground arith);
        senders_b = λ k. ground arith;
        listed = λ x o. inr (ground arith);
        listed_a = λ o. (refl, record { close = inl refl; ready = inl refl; enqueue = refl });
        below = omega arith;
        below_a = omega arith;
        below_b = omega arith;
        transports = λ t. refl;
      })

abbrev header : ℕ → ℕ → ℕ → Packet
header command arg0 arg1 = record {
  msg = record {
    command = command;
    arg0 = arg0;
    arg1 = arg1;
    data_length = 6;
    data_check = 0;
    magic = 0;
  };
  payload = bytes "shell:";
}

find_local_socket-Found_example : Outcome 1 33 (1 ∷ []) connected (find_local_socket 1 33 connected)
find_local_socket-Found_example =
    find_local_socket-Found 1 33 connected
      (λ a b s h to. let (p, hp, back, ne) = connected-IsSound.peers a b s h to in (p, hp))
      (λ a o. let (s, h, l, c) = connected-IsSound.listed a o in (s, h))

close_all_sockets-Dropped_example : Ensures (close_all_sockets 7 connected) (Dropped 7 connected)
close_all_sockets-Dropped_example =
    close_all_sockets-Dropped 7 connected connected-IsSound λ x s o h.
      let e : x ≡ 1 = ground arith in
      ap (λ (z : Socket). z.close) (some_inj (sym h ∙ ap connected.heap e))

-- The same while the local socket waits for the answer to its opening.
abbrev opening : Adb
opening = record connected {
  writes = took 99 ∷ took 99 ∷ [];
  heap =
      update connected.heap 1 (
        some
          (record (local_end 1 40 2) { ready = local_ready_notify; close = local_close_notify }));
}

abbrev log : Option (Unit {0} × Adb) → List Event
log none = []
log (some (u, st)) = st.events

-- The close function of the socket tells the client that it is closed, `close_all_sockets` does not.
told :
    log (close_socket 1 opening)
    ≡ wrote 40 (bytes "FAIL0006")
      ∷ wrote 40 (bytes "closed")
      ∷ sent 7 (send_packet (new_packet a_clse 1 33 []))
      ∷ closed_fd 40
      ∷ []
unfolding close_socket pax_linux.Sockets.close_call pax_linux.Sockets.local_socket_close_locked
    pax_linux.Sockets.local_socket_close_notify pax_linux.Sockets.remote_socket_close
    pax_linux.Sockets.close_remote_peer pax_linux.Sockets.detach_peer pax_linux.Sockets.fail_notify
    pax_linux.Sockets.send_closed pax_linux.Sockets.note_written pax_linux.Sockets.write_exact
    pax_linux.Sockets.finish_remote pax_linux.Sockets.finish_close pax_linux.Sockets.unhook
    pax_linux.Sockets.remote_socket_shutdown pax_linux.Sockets.local_socket_destroy
    pax_linux.Sockets.remove_socket pax_linux.Sockets.transmit pax_linux.Sockets.clear_peer
    pax_linux.Sockets.remove_transport_disconnect send_packet
told = refl

untold :
    log (close_all_sockets 7 opening)
    ≡ sent 7 (send_packet (new_packet a_clse 1 33 [])) ∷ closed_fd 40 ∷ []
unfolding close_all_sockets pax_linux.Sockets.Dropping.close_loop pax_linux.Sockets.Dropping.next_of
    pax_linux.Sockets.Dropping.of_transport pax_linux.Sockets.Dropping.is_of
    pax_linux.Sockets.close_call pax_linux.Sockets.local_socket_close_locked
    pax_linux.Sockets.local_socket_close_notify pax_linux.Sockets.remote_socket_close
    pax_linux.Sockets.close_remote_peer pax_linux.Sockets.detach_peer pax_linux.Sockets.fail_notify
    pax_linux.Sockets.send_closed pax_linux.Sockets.note_written pax_linux.Sockets.write_exact
    pax_linux.Sockets.finish_remote pax_linux.Sockets.finish_close pax_linux.Sockets.unhook
    pax_linux.Sockets.remote_socket_shutdown pax_linux.Sockets.local_socket_destroy
    pax_linux.Sockets.remove_socket pax_linux.Sockets.transmit pax_linux.Sockets.clear_peer
    pax_linux.Sockets.remove_transport_disconnect send_packet
untold = refl

abbrev gone : Adb
gone = record connected { transports = λ t. some (record online_transport { online = false }) }

handle_packet-offline_example : handle_packet env (header a_clse 33 1) 7 gone ≡ some (tt, gone)
handle_packet-offline_example =
    handle_packet-offline env (header a_clse 33 1) 7 gone
      (record online_transport { online = false }) refl refl (inr (inr (inl refl)))

handle_clse_any_transport_example :
    handle_clse env (header a_clse 33 1) 7 connected
    ≡ handle_clse env (header a_clse 33 1) 8 connected
handle_clse_any_transport_example =
    handle_clse_any_transport env (header a_clse 33 1) 7 8 connected online_transport
      online_transport refl refl refl refl (omega arith)

handle_clse-ClosesOrRefuses_example :
    Ensures
      (handle_clse env (header a_clse 0 1) 8 connected)
      (λ st'. IsSound st' × ClosesOrRefuses connected (header a_clse 0 1) 8 st')
handle_clse-ClosesOrRefuses_example =
    handle_clse-ClosesOrRefuses env (header a_clse 0 1) 8 connected online_transport
      connected-IsSound refl refl (omega arith)

handle_open-IsSound_example :
    Ensures
      (handle_open env (header a_open 34 0) 7 connected)
      (λ st'. IsSound st' × Opened 34 7 40 connected st')
handle_open-IsSound_example =
    handle_open-IsSound env (header a_open 34 0) 7 40 connected online_transport connected-IsSound
      refl refl (omega arith) refl refl

-- The descriptor takes four bytes and then blocks.
abbrev writing : Adb
writing = record connected { writes = took 3 ∷ [] }

writing-IsSound : IsSound writing
writing-IsSound = same_sockets-IsSound connected writing connected-IsSound refl refl refl refl

local_socket_enqueue-Arrived_example :
    Returns
      (local_socket_enqueue 1 (bytes "shell:") writing)
      (λ res st'. IsSound st' × Arrived 1 (bytes "shell:") (local_end 1 40 2) writing res st')
local_socket_enqueue-Arrived_example =
    local_socket_enqueue-Arrived 1 (bytes "shell:") (local_end 1 40 2) writing writing-IsSound refl

handle_wrte-DeliversOrIgnores_example :
    Ensures
      (handle_wrte env (header a_wrte 33 1) 7 writing)
      (λ st'. IsSound st' × DeliversOrIgnores writing (header a_wrte 33 1) 7 st')
handle_wrte-DeliversOrIgnores_example =
    handle_wrte-DeliversOrIgnores env (header a_wrte 33 1) 7 writing online_transport
      writing-IsSound refl refl (omega arith) (omega arith)

handle_okay-Okayed_example :
    Ensures
      (handle_okay env (header a_okay 33 1) 7 connected)
      (λ st'. IsSound st' × Okayed connected (header a_okay 33 1) 7 st')
handle_okay-Okayed_example =
    handle_okay-Okayed env (header a_okay 33 1) 7 connected online_transport connected-IsSound refl
      refl (omega arith) (omega arith)

-- The socket has seven bytes to write in two packets.
abbrev waiting_socket : Socket
waiting_socket = record (local_end 1 40 2) {
  pkts = bytes "abc" ∷ bytes "defg" ∷ [];
  wants_write = true;
}

abbrev backlogged : Adb
backlogged = record writing { heap = update connected.heap 1 (some waiting_socket) }

backlogged-IsSound : IsSound backlogged
backlogged-IsSound =
    Tweaked-IsSound 1 (local_end 1 40 2) waiting_socket writing backlogged writing-IsSound (record {
      was = refl;
      now = refl;
      others = λ x ne. ground arith;
      peer = refl;
      linked = refl;
      local = λ l. record { close = l.close; ready = l.ready; enqueue = l.enqueue };
      sends = λ k. k;
      transport = refl;
      local_list = refl;
      next_address = refl;
      transports = λ t. refl;
    })

on_writable-Writable_example :
    (d : Drained) × IsDrained backlogged.writes waiting_socket.pkts d
    × Returns
        (on_writable 1 backlogged)
        (λ go st'. IsSound st' × Writable 1 waiting_socket backlogged d go st')
on_writable-Writable_example =
    on_writable-Writable 1 waiting_socket backlogged backlogged-IsSound refl
      (inr (2, remote_end 33 7 1, refl, refl, λ e. ground arith))

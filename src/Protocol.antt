-- ===== src/Protocol.antt =====
-- `handle_packet` of adb.c: what the server does with a packet of a device, in the build for the
-- host (ADB_HOST), with the calls that it makes into sockets.c, transport.c and adb_auth_host.c.
pub mod Replies
pub mod Closing
pub mod Joining
pub mod Opening
pub mod Readying
pub mod Writing
pub mod Resuming
pub mod Draining
use pax_linux.Base.{
  ℕ, ◌+◌, ◌-◌, ◌%◌, Bool, true, false, not, ◌&&◌, List, [], ◌∷◌, ◌++◌, Option, none, some, take,
  ◌==◌, if◌then◌else◌, bytes,
}
use pax_linux.Wire.{Packet, word, max_payload}
use pax_linux.Adb.{
  ConnectionState, offline, unauthorized, transports_changed, M, ◌>>=◌, ◌>>◌, pure, load, store,
  free, emit, load_transport, store_transport, deref, local_enqueue, remote_enqueue, smart_enqueue,
}
use pax_linux.Sockets.{
  new_packet, a_okay, a_clse, a_wrte, transmit, find_local_socket, create_local_socket,
  create_remote_socket, remove_transport_disconnect, close_socket, clear_peer,
}
use pax_linux.Flow.{Enqueued, more, local_socket_enqueue, remote_socket_enqueue, ready_socket}
use pax_linux.Auth.{adb_auth_nextkey}
use pax_linux.Banner.{c_string, parse_banner}

abbrev pub a_sync : ℕ
a_sync = 0x434e_5953

abbrev pub a_cnxn : ℕ
a_cnxn = 0x4e58_4e43

abbrev pub a_open : ℕ
a_open = 0x4e45_504f

abbrev pub a_auth : ℕ
a_auth = 0x4854_5541

abbrev pub a_hdsk : ℕ
a_hdsk = 0x4b53_4448

abbrev pub a_version : ℕ
a_version = 0x0100_0000

abbrev pub auth_token : ℕ
auth_token = 1

abbrev pub auth_signature : ℕ
auth_signature = 2

abbrev pub auth_rsapublickey : ℕ
auth_rsapublickey = 3

abbrev pub handshake_req : ℕ
handshake_req = 1

abbrev pub handshake_res : ℕ
handshake_res = 2

-- "paxadb".
abbrev pub handshake_magic : List ℕ
handshake_magic = bytes "paxadb"

-- What the handlers take from outside: `service_to_fd` on the service names, the private keys and
-- OpenSSL's signature (none where signing fails), the text of the public key (none where it can
-- not be read), and the `enqueue` of a smart socket.
pub record Env : Type 0 where
  pub service_to_fd : List ℕ → Option ℕ
  pub keys : List ℕ
  pub sign : ℕ → List ℕ → Option (List ℕ)
  pub user_key : Option (List ℕ)
  pub smart : ℕ → List ℕ → M Enqueued

pub send_ready : ℕ → ℕ → ℕ → M (Unit {0})
unfolding transmit
send_ready local remote t = transmit (new_packet a_okay local remote []) (some t)

pub send_close : ℕ → ℕ → ℕ → M (Unit {0})
unfolding transmit
send_close local remote t = transmit (new_packet a_clse local remote []) (some t)

-- `fill_connect_data` of the host writes "host::" with its terminating NUL.
abbrev pub connect_data : List ℕ
connect_data = bytes "host::" ++ 0 ∷ []

pub send_connect : ℕ → M (Unit {0})
unfolding transmit
send_connect t = transmit (new_packet a_cnxn a_version max_payload connect_data) (some t)

pub handle_online : ℕ → M (Unit {0})
handle_online t = do r ← load_transport t; store_transport t (record r { online = true })

-- `remote_socket_disconnect`, the callback of a remote socket.
pub disconnect_peer : Option ℕ → M (Unit {0})
unfolding clear_peer close_socket
disconnect_peer none = pure tt
disconnect_peer (some b) = do clear_peer b; close_socket b

pub remote_socket_disconnect : ℕ → M (Unit {0})
unfolding disconnect_peer remove_transport_disconnect
remote_socket_disconnect a = do
  s ← load a
  disconnect_peer s.peer
  t ← deref s.transport
  remove_transport_disconnect t a
  free a

pub run_disconnects : List ℕ → M (Unit {0})
unfolding remote_socket_disconnect
run_disconnects [] = pure tt
run_disconnects (a ∷ rest) =
    let others = run_disconnects rest in do remote_socket_disconnect a; others

pub run_transport_disconnects : ℕ → M (Unit {0})
unfolding run_disconnects
run_transport_disconnects t = do r ← load_transport t; run_disconnects r.disconnects

pub handle_offline : ℕ → M (Unit {0})
unfolding run_transport_disconnects
handle_offline t = do
  r ← load_transport t
  store_transport t (record r { online = false })
  run_transport_disconnects t

pub set_connection_state : ℕ → ConnectionState → M (Unit {0})
set_connection_state t c = do
  r ← load_transport t
  store_transport t (record r { connection_state = c })

-- `parse_banner` on the transport.
pub identify : List ℕ → ℕ → M (Unit {0})
identify banner t = do
  r ← load_transport t
  let (r', told) = parse_banner banner r
  store_transport t r'
  if told then emit transports_changed else pure tt

pub is_offline : ConnectionState → Bool
is_offline offline = true
is_offline _ = false

pub handle_sync : Packet → ℕ → M (Unit {0})
unfolding transmit send_connect set_connection_state handle_offline
handle_sync p t =
    if not (p.arg0 == 0)
    then (do transmit p (some t); send_connect t)
    else do set_connection_state t offline; handle_offline t; transmit p (some t)

pub handle_cnxn : Packet → ℕ → M (Unit {0})
unfolding set_connection_state handle_offline identify handle_online is_offline
handle_cnxn p t = do
  r ← load_transport t
  if is_offline r.connection_state
      then pure tt
      else do set_connection_state t offline; handle_offline t
  identify (c_string p.payload) t
  handle_online t

-- `t` is not the transport.
pub is_other : Option ℕ → ℕ → Bool
is_other none t = true
is_other (some u) t = not (u == t)

-- The peer is on another transport than `t`.
pub foreign_peer : Option ℕ → ℕ → M Bool
unfolding is_other
foreign_peer none t = pure false
foreign_peer (some b) t = do q ← load b; pure (is_other q.transport t)

-- The service name: the payload up to its last byte, which is overwritten by NUL.
pub service_name : Packet → List ℕ
unfolding c_string
service_name p = c_string (take (p.data_length - 1) p.payload)

module _ (env : Env) where
  open env use {service_to_fd, keys, sign, user_key, smart}

  -- `send_auth_publickey`: nothing is sent where the key can not be read.
  pub send_auth_publickey : ℕ → M (Unit {0})
  unfolding transmit
  send_auth_publickey t = elim user_key [
    | none ↦ pure tt
    | some k ↦ transmit (new_packet a_auth auth_rsapublickey 0 k) (some t)
  ]

  -- `send_auth_response`: nothing is sent where signing fails.
  pub send_auth_response : ℕ → List ℕ → ℕ → M (Unit {0})
  unfolding transmit
  send_auth_response key token t = elim (sign key token) [
    | none ↦ pure tt
    | some s ↦ transmit (new_packet a_auth auth_signature 0 s) (some t)
  ]

  -- On the host a signature is never accepted, no new token is made, and a public key is ignored.
  pub handle_auth : Packet → ℕ → M (Unit {0})
  unfolding set_connection_state send_auth_publickey send_auth_response adb_auth_nextkey
  handle_auth p t =
      if p.arg0 == auth_token
      then (do
        r ← load_transport t
        let next = adb_auth_nextkey keys r.key
        store_transport t (record r { connection_state = unauthorized; key = next })
        elim next [
          | none ↦ send_auth_publickey t
          | some k ↦ send_auth_response k (take p.data_length p.payload) t
        ])
      else if p.arg0 == auth_signature
      then (do
        r ← load_transport t
        store_transport t (record r { failed_auth_attempts = (r.failed_auth_attempts + 1) % word }))
      else pure tt

  pub handle_open : Packet → ℕ → M (Unit {0})
  unfolding create_local_socket create_remote_socket send_close send_ready ready_socket service_name
  handle_open p t = do
    r ← load_transport t
    if not (r.online && not (p.arg0 == 0) && p.arg1 == 0)
        then pure tt
        else elim (service_to_fd (service_name p)) [
          | none ↦ send_close 0 p.arg0 t
          | some fd ↦ do
            a ← create_local_socket fd
            b ← create_remote_socket p.arg0 t
            s ← load a
            store a (record s { peer = some b })
            q ← load b
            store b (record q { peer = some a })
            send_ready s.id q.id t
            ready_socket a
        ]

  -- The first OKAY makes the connection, later ones must carry the id of the peer.
  pub handle_okay : Packet → ℕ → M (Unit {0})
  unfolding find_local_socket create_remote_socket ready_socket
  handle_okay p t = do
    r ← load_transport t
    if not (r.online && not (p.arg0 == 0) && not (p.arg1 == 0)) then pure tt else do
      found ← find_local_socket p.arg1 0
      elim found [
        | none ↦ pure tt
        | some a ↦ do
          s ← load a
          elim s.peer [
            | none ↦ do
              b ← create_remote_socket p.arg0 t
              store a (record s { peer = some b })
              q ← load b
              store b (record q { peer = some a })
              ready_socket a
            | some b ↦ do q ← load b; if q.id == p.arg0 then ready_socket a else pure tt
          ]
      ]

  pub handle_clse : Packet → ℕ → M (Unit {0})
  unfolding find_local_socket foreign_peer close_socket
  handle_clse p t = do
    r ← load_transport t
    if not (r.online && not (p.arg1 == 0)) then pure tt else do
      found ← find_local_socket p.arg1 p.arg0
      elim found [
        | none ↦ pure tt
        | some a ↦ do
          s ← load a
          foreign ← foreign_peer s.peer t
          if p.arg0 == 0 && foreign then pure tt else close_socket a
      ]

  -- `s->enqueue(s, p)`.
  pub enqueue_socket : ℕ → List ℕ → M Enqueued
  unfolding local_socket_enqueue remote_socket_enqueue
  enqueue_socket a bs = do
    s ← load a
    elim s.enqueue [
      | local_enqueue ↦ local_socket_enqueue a bs
      | remote_enqueue ↦ remote_socket_enqueue a bs
      | smart_enqueue ↦ smart a bs
    ]

  pub handle_wrte : Packet → ℕ → M (Unit {0})
  unfolding find_local_socket enqueue_socket send_ready
  handle_wrte p t = do
    r ← load_transport t
    if not (r.online && not (p.arg0 == 0) && not (p.arg1 == 0)) then pure tt else do
      found ← find_local_socket p.arg1 p.arg0
      elim found [
        | none ↦ pure tt
        | some a ↦ do
          result ← enqueue_socket a (take p.data_length p.payload)
          elim result [ more ↦ do s ← load a; send_ready s.id p.arg0 t | _ ↦ pure tt ]
      ]

  -- The PAX handshake: a request is answered by the magic string.
  pub handle_hdsk : Packet → ℕ → M (Unit {0})
  unfolding transmit
  handle_hdsk p t =
      if p.arg0 == handshake_req
      then transmit (new_packet a_hdsk handshake_res 0 handshake_magic) (some t)
      else pure tt

  pub handle_packet : Packet → ℕ → M (Unit {0})
  unfolding handle_sync handle_cnxn handle_auth handle_open handle_okay handle_clse handle_wrte
      handle_hdsk
  handle_packet p t =
      if p.command == a_sync
      then handle_sync p t
      else if p.command == a_cnxn
      then handle_cnxn p t
      else if p.command == a_auth
      then handle_auth p t
      else if p.command == a_open
      then handle_open p t
      else if p.command == a_okay
      then handle_okay p t
      else if p.command == a_clse
      then handle_clse p t
      else if p.command == a_wrte
      then handle_wrte p t
      else if p.command == a_hdsk
      then handle_hdsk p t
      else pure tt

-- ===== src/Adb.antt =====
-- The state of the server that the packet handlers share: the sockets of sockets.c on an explicit
-- heap, the two socket lists, and the transports (adb.h: `asocket`, `atransport`). A function
-- pointer of a socket is a constructor that names the function.
pub mod Steps
use pax_linux.Base.{ℕ, Bool, List, [], ◌∷◌, ◌++◌, Option, none, some, ◌==◌, if◌then◌else◌}
use pax_linux.Io.{WriteEvent}
use pax_linux.Wire.{Packet}

-- The values of the function pointers of an `asocket`.
pub data Enqueue : Type 0 where
  local_enqueue remote_enqueue smart_enqueue : Enqueue

pub data Ready : Type 0 where
  local_ready local_ready_notify remote_ready smart_ready : Ready

pub data Close : Type 0 where
  local_close local_close_notify remote_close smart_close : Close

-- `asocket`. `linked` says that `next` and `prev` are not null, `shutdown` that the pointer of
-- that name is `remote_socket_shutdown` and not null; `pkts` are the unwritten bytes of the
-- packets from `pkt_first` to `pkt_last`.
pub record Socket : Type 0 where
  pub id : ℕ
  pub linked : Bool
  pub closing : Bool
  pub peer : Option ℕ
  pub fd : ℕ
  pub wants_read : Bool
  pub wants_write : Bool
  pub pkts : List (List ℕ)
  pub enqueue : Enqueue
  pub ready : Ready
  pub shutdown : Bool
  pub close : Close
  pub transport : Option ℕ

-- The connection states `CS_*`.
pub data ConnectionState : Type 0 where
  offline bootloader device host recovery noperm sideload unauthorized : ConnectionState

-- The part of `atransport` that the handlers use. `disconnects` holds the remote sockets whose
-- `adisconnect` is on the transport's list; `key` is the private key that was tried last.
pub record Transport : Type 0 where
  pub connection_state : ConnectionState
  pub online : Bool
  pub disconnects : List ℕ
  pub product : Option (List ℕ)
  pub model : Option (List ℕ)
  pub device : Option (List ℕ)
  pub key : Option ℕ
  pub failed_auth_attempts : ℕ

-- What the server does to the outside.
pub data Event : Type 0 where
  sent : ℕ → Packet → Event
  wrote : ℕ → List ℕ → Event
  closed_fd : ℕ → Event
  transports_changed : Event

-- `local_list` is `local_socket_list`, `closing_list` is `local_socket_closing_list`. `writes` are
-- the outcomes of the coming calls of `adb_write`, and `events` what was done, oldest first.
pub record Adb : Type 0 where
  pub heap : ℕ → Option Socket
  pub next_address : ℕ
  pub local_list : List ℕ
  pub closing_list : List ℕ
  pub next_id : ℕ
  pub transports : ℕ → Option Transport
  pub writes : List WriteEvent
  pub events : List Event

-- A step that may fault: `none` is a read or a write through a null or dangling pointer, or a
-- call of `fatal`.
abbrev pub M {ℓ} : Type ℓ → Type ℓ
M A = Adb → Option (A × Adb)

infixl 10 ◌>>=◌ ◌>>◌
abbrev pub ◌>>=◌ {ℓ κ} : {A : Type ℓ} {B : Type κ} → M A → (A → M B) → M B
◌>>=◌ m f st = elim (m st) [ none ↦ none | some (a, st') ↦ f a st' ]

abbrev pub ◌>>◌ {κ} : {B : Type κ} → M (Unit {0}) → M B → M B
m >> k = m >>= λ _. k

abbrev pub pure {ℓ} : {A : Type ℓ} → A → M A
pure a st = some (a, st)

abbrev pub fault {ℓ} : {A : Type ℓ} → M A
fault st = none

-- A map that differs at one address.
abbrev pub update {ℓ} : {A : Type ℓ} → (ℕ → Option A) → ℕ → Option A → ℕ → Option A
update f a v x = if x == a then v else f x

abbrev pub modify : (Adb → Adb) → M (Unit {0})
modify f st = some (tt, f st)

-- `*s`.
abbrev pub load : ℕ → M Socket
load a st = elim (st.heap a) [ none ↦ none | some s ↦ some (s, st) ]

abbrev pub store : ℕ → Socket → M (Unit {0})
store a s st = some (tt, record st { heap = update st.heap a (some s) })

abbrev pub free : ℕ → M (Unit {0})
free a st = some (tt, record st { heap = update st.heap a none })

abbrev pub emit : Event → M (Unit {0})
emit e st = some (tt, record st { events = st.events ++ e ∷ [] })

abbrev pub load_transport : ℕ → M Transport
load_transport t st = elim (st.transports t) [ none ↦ none | some r ↦ some (r, st) ]

abbrev pub store_transport : ℕ → Transport → M (Unit {0})
store_transport t r st = some (tt, record st { transports = update st.transports t (some r) })

-- `p->f(…)` through a pointer that may be null.
abbrev pub deref {ℓ} : {A : Type ℓ} → Option A → M A
deref none = fault
deref (some a) = pure a

-- ===== src/Listeners.antt =====
-- The forward listeners of adb.c: what is bound to a local name, and the requests that change it.
pub mod Names
pub mod Refinement
pub mod Forwarding
use pax_linux.Base.{
  ℕ, zero, suc, ◌+◌, ◌-◌, ◌≤◌, min, Bool, true, false, not, ◌&&◌, ◌||◌, List, [], ◌∷◌, ◌++◌, Option,
  none, some, length, take, ltb, leb, ◌==◌, if◌then◌else◌, bytes, str_eq, has_prefix, drop,
}
use pax_linux.Smart.{TransportType, hex4}
use pax_linux.Sockets.Lists.{remove}

-- `alistener`, with its address. Its `fdevent` is the one of `fd`.
pub record Listener : Type 0 where
  pub address : ℕ
  pub fd : ℕ
  pub local_name : List ℕ
  pub connect_to : List ℕ
  pub transport : Option ℕ

-- `listener_list`, the listeners whose `disconnect` is on the list of each transport, and the
-- descriptors that were closed. Memory is never short.
pub record Table : Type 0 where
  pub listeners : List Listener
  pub hooks : ℕ → List ℕ
  pub closed : List ℕ
  pub next_address : ℕ

infixl 10 ◌>>=◌
abbrev pub ◌>>=◌ {ℓ κ} : {A : Type ℓ} {B : Type κ} → Option A → (A → Option B) → Option B
none >>= f = none
some a >>= f = f a

abbrev pub set_hooks : Table → ℕ → List ℕ → Table
set_hooks t x l = record t { hooks = λ y. if y == x then l else t.hooks y }

-- `add_transport_disconnect` and `remove_transport_disconnect`; a null transport is a fault.
abbrev pub add_hook : Table → Option ℕ → ℕ → Option Table
add_hook t none a = none
add_hook t (some x) a = some (set_hooks t x (t.hooks x ++ a ∷ []))

abbrev pub remove_hook : Table → Option ℕ → ℕ → Option Table
remove_hook t none a = none
remove_hook t (some x) a = some (set_hooks t x (remove a (t.hooks x)))

-- A listener like that of `*smartsocket*`.
abbrev pub is_special : List ℕ → Bool
is_special [] = false
is_special (c ∷ rest) = c == 42

-- The first listener with the name.
unfoldable pub find_named : List ℕ → List Listener → Option Listener
find_named name [] = none
find_named name (l ∷ rest) =
    let later = find_named name rest in if str_eq name l.local_name then some l else later

-- The list without the listener at the address.
unfoldable pub unlink : ℕ → List Listener → List Listener
unlink a [] = []
unlink a (l ∷ rest) = let later = unlink a rest in if l.address == a then later else l ∷ later

-- The list with another listener at its address.
pub set_listener : Listener → List Listener → List Listener
set_listener l [] = []
set_listener l (x ∷ rest) =
    let later = set_listener l rest in if x.address == l.address then l ∷ later else x ∷ later

-- `if(transport)`: the entry on the transport's list, where there is a transport.
hook : Table → Option ℕ → ℕ → Option Table
hook t none a = some t
hook t (some x) a = add_hook t (some x) a

unhook : Table → Option ℕ → ℕ → Option Table
unhook t none a = some t
unhook t (some x) a = remove_hook t (some x) a

unfoldable pub free_listener : Table → Listener → Option Table
unfolding unlink unhook
free_listener t l =
    unhook (record t { listeners = unlink l.address t.listeners; closed = t.closed ++ l.fd ∷ [] })
      l.transport l.address

abbrev pub listener_disconnect : Table → Listener → Option Table
listener_disconnect t l = free_listener t l

pub data Status : Type 0 where
  ok internal_error cannot_bind cannot_rebind not_found : Status

same_transport : Option ℕ → Option ℕ → Bool
same_transport none none = true
same_transport none (some y) = false
same_transport (some x) none = false
same_transport (some x) (some y) = x == y

-- The transport of the listener that is being rebound changes with its entry there.
move_hook : Table → Option ℕ → Option ℕ → ℕ → Option Table
unfolding same_transport
move_hook t old new a =
    if same_transport old new then some t else (remove_hook t old a >>= λ t1. add_hook t1 new a)

rebind : Table → Listener → List ℕ → Option ℕ → Option Table
unfolding set_listener move_hook
rebind t l connect_to transport =
    move_hook
      (record t {
        listeners =
            set_listener (record l { connect_to = connect_to; transport = transport }) t.listeners;
      })
      l.transport transport l.address

-- The new listener goes to the end of the list.
enlist : Table → ℕ → List ℕ → List ℕ → Option ℕ → Option Table
unfolding hook
enlist t fd local_name connect_to transport = do
  let l : Listener = record {
    address = t.next_address;
    fd = fd;
    local_name = local_name;
    connect_to = connect_to;
    transport = transport;
  }
  let t1 = record t { listeners = t.listeners ++ l ∷ []; next_address = t.next_address + 1 }
  hook t1 transport l.address

-- `bind` is `local_name_to_fd`; none is a negative result.
pub install_listener :
    (List ℕ → Option ℕ) → Table → List ℕ → List ℕ → Option ℕ → Bool → Option (Status × Table)
unfolding find_named rebind enlist
install_listener bind t local_name connect_to transport no_rebind =
    elim (find_named local_name t.listeners) [
      | some l ↦
          if is_special l.connect_to
          then some (internal_error, t)
          else if no_rebind
          then some (cannot_rebind, t)
          else rebind t l connect_to transport >>= λ t1. some (ok, t1)
      | none ↦ elim (bind local_name) [
        | none ↦ some (cannot_bind, t)
        | some fd ↦ enlist t fd local_name connect_to transport >>= λ t1. some (ok, t1)
      ]
    ]

-- The transport is not looked at.
unfoldable pub remove_listener : Table → List ℕ → Option ℕ → Option (Status × Table)
unfolding find_named free_listener
remove_listener t local_name transport = elim (find_named local_name t.listeners) [
  | none ↦ some (not_found, t)
  | some l ↦ listener_disconnect t l >>= λ t1. some (ok, t1)
]

-- The walk keeps the next listener before it frees one.
remove_ordinary : List Listener → Table → Option Table
remove_ordinary [] t = some t
remove_ordinary (l ∷ rest) t =
    let go = remove_ordinary rest in
    if is_special l.connect_to then go t else (listener_disconnect t l >>= go)

pub remove_all_listeners : Table → Option Table
unfolding remove_ordinary
remove_all_listeners t = remove_ordinary t.listeners t

-- ===== src/Listeners/Refinement.antt =====
-- The forward listeners of adb.c as a map from local names to what they connect to.
pub mod Unbinding
pub mod Binding
pub mod Clearing
pub mod Steps
use mathlib.Core.Path.{subst}
use pax_linux.Base.{
  ℕ, ◌+◌, ◌≤◌, ◌≡◌, refl, sym, ◌∙◌, ap, Bool, true, false, List, [], ◌∷◌, ◌++◌, append-nil,
  append_assoc, Option, none, some, none-ne-some, arith, ◌==◌, if◌then◌else◌, Bool-cases,
  Option-cases, inl, inr, str_eq,
}
use pax_linux.Sockets.Lists.{remove}
use pax_linux.Listeners.{
  Listener, Table, Status, ok, internal_error, cannot_bind, cannot_rebind, not_found, find_named,
  unlink, set_listener, is_special, install_listener, remove_listener, remove_all_listeners,
  remove_ordinary, free_listener, rebind, enlist, hook, unhook, move_hook, set_hooks, ◌>>=◌,
}
use pax_linux.Listeners.Names.{
  named, addressed, IsApart, find-Place, Around, IsApart-Around, drop-IsApart, swap-IsApart,
  snoc-IsApart, unlink_middle, set_listener_middle, find-append, find-named, named-find,
  named-append, addressed-append, str_eq→eq,
}

pub record Target : Type 0 where
  pub connect_to : List ℕ
  pub transport : Option ℕ

abbrev pub Map : Type 0
Map = List ℕ → Option Target

abbrev pub target_of : Option Listener → Option Target
target_of none = none
target_of (some l) = some (record { connect_to = l.connect_to; transport = l.transport })

-- What is bound to a local name.
abbrev pub bound : Table → Map
bound t x = target_of (find_named x t.listeners)

abbrev pub put : Map → List ℕ → Option Target → Map
put m name v x = if str_eq x name then v else m x

-- The promise of the three operations, on the map alone.
pub data Request : Type 0 where
  binds : (local_name connect_to : List ℕ) → (transport : ℕ) → (no_rebind : Bool) → Request
  unbinds : (local_name : List ℕ) → (transport : Option ℕ) → Request
  unbinds_all : Request

abbrev pub Answer : Type 0
Answer = Status × Map

abbrev pub spec_bind : Bool → Map → List ℕ → Target → Bool → Option Target → Answer
spec_bind can_bind m name v no_rebind none =
    if can_bind then (ok, put m name (some v)) else (cannot_bind, m)
spec_bind can_bind m name v no_rebind (some old) =
    if is_special old.connect_to
    then (internal_error, m)
    else if no_rebind
    then (cannot_rebind, m)
    else (ok, put m name (some v))

abbrev pub spec_unbind : Map → List ℕ → Option Target → Answer
spec_unbind m name none = (not_found, m)
spec_unbind m name (some old) = (ok, put m name none)

-- The special listeners stay.
abbrev pub only_special : Option Target → Option Target
only_special none = none
only_special (some v) = if is_special v.connect_to then some v else none

abbrev pub is_some {ℓ} : {A : Type ℓ} → Option A → Bool
is_some none = false
is_some (some a) = true

abbrev pub spec : (List ℕ → Option ℕ) → Request → Map → Answer
spec bind (binds name connect_to transport no_rebind) m =
    spec_bind (is_some (bind name)) m name
      (record { connect_to = connect_to; transport = some transport }) no_rebind (m name)
spec bind (unbinds name transport) m = spec_unbind m name (m name)
spec bind unbinds_all m = (ok, λ x. only_special (m x))

unfoldable pub step : (List ℕ → Option ℕ) → Request → Table → Option (Status × Table)
step bind (binds name connect_to transport no_rebind) t =
    install_listener bind t name connect_to (some transport) no_rebind
step bind (unbinds name transport) t = remove_listener t name transport
step bind unbinds_all t = remove_all_listeners t >>= λ t1. some (ok, t1)

-- Names and addresses are apart, and the next address is new.
pub record IsTidy (t : Table) : Type 0 where
  pub apart : IsApart t.listeners
  pub fresh : (a : ℕ) → t.next_address ≤ a → addressed a t.listeners ≡ false

-- The code does what the map promises.
pub record Refines (a : Answer) (r : Option (Status × Table)) : Type 0 where
  pub table : Table
  pub run : r ≡ some (a.0, table)
  pub tidy : IsTidy table
  pub same : (x : List ℕ) → bound table x ≡ a.1 x

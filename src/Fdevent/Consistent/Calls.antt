-- ===== src/Fdevent/Consistent/Calls.antt =====
-- The calls by which the rest of the program changes events of fdevent.c.
use pax_linux.Base.{ℕ, ◌<◌, ◌≡◌, ◌≢◌, true, Option, some}
use pax_linux.Fdevent.Pending.{list_pending}
use pax_linux.Fdevent.{
  Events, Fdevent, FdFunc, Loop, fdevent_install, fdevent_remove, fdevent_set, fdevent_add,
  fdevent_del, fdevent_destroy, fd_setsize,
}
use pax_linux.Fdevent.Registering.{IsFree}

-- The calls that the rest of the program makes.
pub data Call : Type 0 where
  installs : (a fd : ℕ) → FdFunc → (memory : ℕ → Option ℕ) → Call
  removes destroys : (a : ℕ) → Call
  sets adds dels : (a : ℕ) → Events → Call

pub step : Call → Loop → Option Loop
step (installs a fd func memory) l = fdevent_install (some memory) l a (some fd) func
step (removes a) l = fdevent_remove l a
step (destroys a) l = fdevent_destroy l (some a)
step (sets a events) l = fdevent_set l a events
step (adds a events) l = fdevent_add l a events
step (dels a events) l = fdevent_del l a events

-- There is an event at `a`.
abbrev pub IsThere : Loop → ℕ → Type 0
IsThere l a = (f : Fdevent) × (l.fdes a ≡ some f)

-- What a call may assume: an event that it names is there, and what it installs is free.
abbrev pub IsAllowed : Loop → Call → Type 0
IsAllowed l (installs a fd func memory) = (fd < fd_setsize) × (a ≢ list_pending) × IsFree l a fd
IsAllowed l (removes a) = IsThere l a
IsAllowed l (destroys a) = (f : Fdevent) × (l.fdes a ≡ some f) × (f.created ≡ true)
IsAllowed l (sets a events) = IsThere l a
IsAllowed l (adds a events) = IsThere l a
IsAllowed l (dels a events) = IsThere l a

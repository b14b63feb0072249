-- ===== src/Listeners/Refinement/Steps.antt =====
-- All requests to the listeners of adb.c.
use pax_linux.Base.{ℕ, List, Option}
use pax_linux.Listeners.{Table}
use pax_linux.Listeners.Refinement.{
  bound, Request, spec, step, IsTidy, Refines, unbinds, binds, unbinds_all,
}
use pax_linux.Listeners.Refinement.Unbinding.{unbind-Refines}
use pax_linux.Listeners.Refinement.Binding.{bind-Refines}
use pax_linux.Listeners.Refinement.Clearing.{unbind_all-Refines}

-- The listeners implement a map from local names to what they connect to, as long as no name and no
-- address stands twice and only special listeners have no transport, which every request keeps. No
-- request meets a null transport. Binding answers `internal_error` for the name of a special
-- listener, `cannot_rebind` for another bound name where that is not wanted and `cannot_bind` where
-- no descriptor is had, and changes nothing then; otherwise the name connects to the new target.
-- Removing a name that is bound unbinds it, whatever transport is given and also where the listener
-- is special. Removing all keeps the special ones. No other name changes.
pub step-Refines :
    (bind : List ℕ → Option ℕ) (q : Request) (t : Table)
    → IsTidy t
    → Refines (spec bind q (bound t)) (step bind q t)
unfolding step
step-Refines bind (binds name connect_to transport no_rebind) t d =
    bind-Refines bind t name connect_to transport no_rebind d
step-Refines bind (unbinds name transport) t d = unbind-Refines t name transport d
step-Refines bind unbinds_all t d = unbind_all-Refines t d

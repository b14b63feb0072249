-- ===== src/Fdevent/Consistent.antt =====
-- The invariant of fdevent.c.
pub mod Setting
pub mod Removing
pub mod Calls
use pax_linux.Base.{
  none-ne-some, ℕ, ◌+◌, ◌≤◌, ◌<◌, ◌≡◌, ◌≢◌, refl, sym, ◌∙◌, ap, Bool, true, false, not, ◌&&◌, List,
  [], ◌∷◌, Option, none, some, arith, ◌==◌, if◌then◌else◌, Bool-cases, inl, inr, length, some_inj,
}
use pax_linux.Sockets.Lists.{on, remove}
use pax_linux.Fdevent.Pending.{Links, assign, list_pending, fdevent_plist_remove, ◌>>=◌}
use pax_linux.Fdevent.Pending.Queue.{empty_links-Represents}
use pax_linux.Fdevent.{
  start, Events, Fdevent, FdFunc, Loop, no_events, minus, union, same_events, store_event,
  installed, fdevent_install, fdevent_remove, fdevent_set, fdevent_add, fdevent_del, fdevent_create,
  fdevent_destroy, fdevent_update, fdevent_disconnect, fdevent_unregister, settle,
}
use pax_linux.Fdevent.Tables.{
  IsTabled, IsActive, store_event-IsTabled, watch-IsTabled, assign_self, relink-IsTabled,
}
use pax_linux.Fdevent.Registering.{IsFree, fdevent_install_lem}
use pax_linux.Fdevent.Queued.{IsQueued, store_event-IsQueued, leave-IsQueued, away}

-- The tables and the pending list, which holds the events `xs`, agree with the events.
pub record IsConsistent (l : Loop) (xs : List ℕ) : Type 0 where
  pub tabled : IsTabled l
  pub queued : IsQueued l.fdes l.links xs

-- The call has a result, which is consistent, and the pending list has not grown.
abbrev pub Keeps : List ℕ → Option Loop → Type 0
Keeps xs r = (k : Loop) × (ys : List ℕ) × (r ≡ some k) × IsConsistent k ys × (length ys ≤ length xs)

length-remove-le : (a : ℕ) (xs : List ℕ) → length (remove a xs) ≤ length xs
length-remove-le a [] = omega arith
length-remove-le a (x ∷ xs) = ground (arith, length-remove-le a xs)

-- Before the first event is installed nothing is watched and nothing is pending.
pub start-IsConsistent : IsConsistent start []
start-IsConsistent = record {
  tabled = record {
    found = λ a f (h, e). absurd (none-ne-some h);
    watched = λ a f (h, e). absurd (none-ne-some h);
    backed = λ i w. absurd (cc w);
    room = omega arith;
    fits = omega arith;
    size = inl refl;
  };
  queued = record {
    ring = empty_links-Represents;
    pending = λ a f h. absurd (none-ne-some h);
    live = λ a h. absurd (cc h);
    origin = refl;
  };
}

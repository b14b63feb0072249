-- ===== src/Tests/Loop.antt =====
-- The event loop on concrete events.
use pax_linux.Base.{
  Option-cases, ◌⊎◌, ◌∙◌, ℕ, ◌≤◌, ◌≡◌, refl, sym, Bool, true, false, [], ◌∷◌, none, some, arith,
  ◌==◌, ==_iff, if◌then◌else◌, some_inj, inl, inr, Bool-cases, none-ne-some,
}
use pax_linux.Sockets.Lists.{on, remove}
use pax_linux.Fdevent.{
  fdevent_install, fdevent_register, fdevent_connect, make_room, grow, grown_table, Events, Fdevent,
  client, Loop, no_events, start, fdevent_set, minus, entry,
}
use pax_linux.Fdevent.Pending.{
  ◌>>=◌, Links, empty_links, fdevent_plist_enqueue, fdevent_plist_remove, fdevent_plist_dequeue,
}
use pax_linux.Fdevent.Pending.Ring.{Represents}
use pax_linux.Fdevent.Pending.Queue.{plist_refines, Front, empty_links-Represents}
use pax_linux.Fdevent.Tables.{IsTabled}
use pax_linux.Fdevent.Consistent.{IsConsistent}
use mathlib.Core.Path.{subst}
use pax_linux.Fdevent.Consistent.Setting.{set-Keeps}
use pax_linux.Fdevent.Select.{Selected, returned, fdevent_process, turn, Callback, ended, faulted}
use pax_linux.Fdevent.Select.Signals.{Scanned, IsHonest}
use pax_linux.Fdevent.Select.Processing.{process-Scanned}
use pax_linux.Fdevent.Select.Serving.{turn_ends, Faults, IsCourteous}

-- The ring with the events 1 and 2.
abbrev two : Links
two = record {
  next = λ a. if a == 0 then some 1 else if a == 1 then some 2 else if a == 2 then some 0 else none;
  prev = λ a. if a == 0 then some 2 else if a == 1 then some 0 else if a == 2 then some 1 else none;
}

plist_refines_example :
    ((a : ℕ)
      → on a (0 ∷ 1 ∷ 2 ∷ []) ≡ false
      → (k : Links) × (fdevent_plist_enqueue two a ≡ some k) × Represents k (1 ∷ 2 ∷ a ∷ []))
    × ((a : ℕ)
        → on a (1 ∷ 2 ∷ []) ≡ true
        → (k : Links) × (fdevent_plist_remove two a ≡ some k)
          × Represents k (remove a (1 ∷ 2 ∷ [])))
    × Front (1 ∷ 2 ∷ []) (fdevent_plist_dequeue two)
plist_refines_example =
    plist_refines two (1 ∷ 2 ∷ [])
      ((refl, refl, (refl, refl, (refl, refl))), (refl, (refl, (refl, tt))))

-- Descriptor 5 is watched for reading and writing by the event at address 1.
abbrev wish : Events
wish = record no_events { read = true; write = true }

abbrev event : Bool → Fdevent
event pending = record {
  fd = 5;
  force_eof = false;
  wanted = wish;
  active = true;
  pending = pending;
  created = false;
  events = if pending then wish else no_events;
  func = client 7;
}

abbrev ring : Bool → Links
ring false = empty_links
ring true = record {
  next = λ a. if a == 0 then some 1 else if a == 1 then some 0 else none;
  prev = λ a. if a == 0 then some 1 else if a == 1 then some 0 else none;
}

abbrev watching : Bool → Loop
watching pending = record {
  fdes = λ a. if a == 1 then some (event pending) else none;
  links = ring pending;
  fd_table = λ i. if i == 5 then some 1 else none;
  fd_table_max = 256;
  select_n = 6;
  read_fds = λ i. i == 5;
  write_fds = λ i. i == 5;
  error_fds = λ i. false;
  closed = [];
  called = [];
}

only :
    (pending : Bool) (a : ℕ) (f : Fdevent)
    → (watching pending).fdes a ≡ some f
    → (a ≡ 1) × (f ≡ event pending)
only pending a f h = elim (Bool-cases (a == 1)) [
  | inl same ↦ ((==_iff a 1).0 same, sym (some_inj (rw same at h)))
  | inr other ↦ absurd (none-ne-some (rw other at h))
]

watching-IsTabled : (pending : Bool) → IsTabled (watching pending)
watching-IsTabled pending = record {
  found = λ a f (h, e). let (u, v) = only pending a f h in rw (u, v) (omega arith, refl);
  watched = λ a f (h, e). let (u, v) = only pending a f h in rw v (refl, refl, refl);
  backed = λ i w. (1, event pending, (refl, refl), ground arith);
  room = omega arith;
  fits = omega arith;
  size = inr (omega arith);
}

idle-IsConsistent : IsConsistent (watching false) []
idle-IsConsistent = record {
  tabled = watching-IsTabled false;
  queued = record {
    ring = empty_links-Represents;
    pending = λ a f h. let (u, v) = only false a f h in rw v refl;
    live = λ a h. absurd (cc h);
    origin = refl;
  };
}

busy-IsConsistent : IsConsistent (watching true) (1 ∷ [])
busy-IsConsistent = record {
  tabled = watching-IsTabled true;
  queued = record {
    ring = ((refl, refl, (refl, refl)), (refl, (refl, tt)));
    pending = λ a f h. let (u, v) = only true a f h in rw (u, v) refl;
    live = λ a h. (event true, ground arith);
    origin = refl;
  };
}

abbrev reading : Events
reading = record no_events { read = true }

-- A wanted event that is pending is dropped, one that is no longer wanted is still reported.
dropped :
    (fdevent_set (watching true) 1 reading >>= λ l. l.fdes 1)
    ≡ some (record (event true) { wanted = reading; events = minus wish reading })
unfolding fdevent_set pax_linux.Fdevent.settle pax_linux.Fdevent.fdevent_update
    pax_linux.Fdevent.watch
dropped = refl

-- `select` reports that descriptor 5 can be read.
abbrev readable : Selected
readable = record { count = 1; rfd = λ i. i == 5; wfd = λ i. false; efd = λ i. false }

readable-IsHonest : IsHonest (watching false) readable
readable-IsHonest i h = ground arith

process-Scanned_example :
    Scanned readable 0
      (watching false)
      []
      (fdevent_process (λ i. true) (returned readable) (watching false))
process-Scanned_example =
    process-Scanned (λ i. true) readable (watching false) [] (omega arith) refl readable-IsHonest
      idle-IsConsistent

-- A callback after which the event at address 1 is no longer watched.
abbrev stop_watching : Callback
stop_watching func fd events l = fdevent_set l 1 no_events

no_event : (l : Loop) → l.fdes 1 ≡ none → fdevent_set l 1 no_events ≡ none
unfolding fdevent_set
no_event l h = rw (fdevent_set, ◌>>=◌, h) refl

stop_watching-IsCourteous : IsCourteous stop_watching
stop_watching-IsCourteous func fd events l xs c j run = elim (Option-cases (l.fdes 1)) [
  | inl nothing ↦ absurd (none-ne-some (sym (no_event l nothing) ∙ run))
  | inr (f, h) ↦
      let (k, ys, e, d, le) = set-Keeps l xs 1 f no_events h c in
      (ys, subst (λ z. IsConsistent z ys) (some_inj (sym e ∙ run)) d, le)
]

-- A callback that does so to its own event, which is off the pending list when it is called.
abbrev stop_own : Callback
stop_own func fd events l = entry l fd >>= λ e.
    e >>= λ a. l.fdes a >>= λ f. if f.pending then some l else fdevent_set l a no_events

turn_ends_example :
    (m : ℕ) × ((k : ℕ)
      → m ≤ k
      → ((turn stop_watching (λ i. true) (returned readable) k (watching false) ≡ faulted)
          × Faults stop_watching)
        ⊎ ((j : Loop) × (turn stop_watching (λ i. true) (returned readable) k (watching false)
              ≡ ended j)
            × IsConsistent j []))
turn_ends_example =
    turn_ends stop_watching (λ i. true) readable (watching false) [] (omega arith) refl
      readable-IsHonest idle-IsConsistent stop_watching-IsCourteous

-- Descriptor 1024 has no bit in the sets.
no_bit :
    (fdevent_install (some (λ i. some 9)) start 1 (some 1024) (client 7) >>= λ l.
    fdevent_set l 1 reading)
    ≡ none
unfolding fdevent_install fdevent_register fdevent_connect make_room grow grown_table fdevent_set
    pax_linux.Fdevent.fdevent_update
no_bit = refl

-- The table for descriptor 200 has 256 entries, of which the upper 128 are not cleared.
stale_entry :
    (fdevent_install (some (λ i. some 9)) start 1 (some 200) (client 7) >>= λ l. l.fd_table 150)
    ≡ some 9
unfolding fdevent_install fdevent_register fdevent_connect make_room grow grown_table
stale_entry = refl

-- ===== src/Fdevent/Select/Serving.antt =====
-- The inner loop of `fdevent_loop` of fdevent.c, over callbacks that use the calls of fdevent.h.
use pax_linux.Base.{
  ℕ, zero, suc, ◌≤◌, ◌<◌, ◌≡◌, refl, sym, ◌∙◌, Bool, true, false, List, [], ◌∷◌, ◌++◌, Option, none,
  Option-cases, ◌⊎◌, inl, inr, some, arith, ◌==◌, length,
}
use pax_linux.Fdevent.Pending.{Links, fdevent_plist_dequeue, ◌>>=◌}
use pax_linux.Fdevent.Pending.Queue.{fdevent_plist_dequeue-none}
use pax_linux.Fdevent.{Events, Fdevent, FdFunc, Loop, no_events, store_event}
use pax_linux.Fdevent.Select.{
  ended, faulted, Selected, Callback, fdevent_call_fdfunc, call_pending, turn, fdevent_process,
  returned,
}
use pax_linux.Fdevent.Tables.{store_event-IsTabled}
use pax_linux.Fdevent.Queued.{first-IsQueued}
use pax_linux.Fdevent.Consistent.{IsConsistent}
use pax_linux.Fdevent.Select.Signals.{Scanned, total, IsHonest}
use pax_linux.Fdevent.Select.Processing.{process-Scanned}

-- The loop once the event `a` has left the list and before its callback runs.
abbrev served : Loop → Links → ℕ → Fdevent → Loop
served l k a f =
    store_event (record l { links = k; called = l.called ++ a ∷ [] }) a
      (record f { events = no_events; pending = false })

record First (l : Loop) (a : ℕ) (xs : List ℕ) : Type 0 where
  links : Links
  event : Fdevent
  there : l.fdes a ≡ some event
  pending : event.pending ≡ true
  taken : fdevent_plist_dequeue l.links ≡ some (record { links = links; node = some a })
  consistent : IsConsistent (served l links a event) xs

first : (l : Loop) (a : ℕ) (xs : List ℕ) → IsConsistent l (a ∷ xs) → First l a xs
first l a xs c =
    let (f, h) = c.queued.live a (ground arith) in
    let g = record f { events = no_events; pending = false } in
    let (k, run, q) = first-IsQueued l.fdes l.links xs a g refl c.queued in
    let t = store_event-IsTabled l a f g h refl refl (λ z. refl) c.tabled in
    record {
      links = k;
      event = f;
      there = h;
      pending = sym (c.queued.pending a f h) ∙ ground arith;
      taken = run;
      consistent = record {
        tabled = record {
          found = t.found;
          watched = t.watched;
          backed = t.backed;
          room = t.room;
          fits = t.fits;
          size = t.size;
        };
        queued = q;
      };
    }

call_pending_empty :
    (callback : Callback) (k : ℕ) (l : Loop)
    → IsConsistent l []
    → call_pending callback (suc k) l ≡ ended l
unfolding call_pending
call_pending_empty callback k l c =
    rw (call_pending, fdevent_plist_dequeue-none l.links c.queued.ring) refl

-- What the callback of the first pending event does.
abbrev answer : Callback → (l : Loop) (a : ℕ) (xs : List ℕ) → First l a xs → Option Loop
answer callback l a xs f =
    callback f.event.func f.event.fd f.event.events (served l f.links a f.event)

call_pending-First :
    (callback : Callback) (k a : ℕ) (l j : Loop) (xs : List ℕ) (f : First l a xs)
    → answer callback l a xs f ≡ some j
    → call_pending callback (suc k) l ≡ call_pending callback k j
unfolding call_pending fdevent_call_fdfunc
call_pending-First callback k a l j xs f run =
    rw (call_pending, f.taken) (rw (fdevent_call_fdfunc, ◌>>=◌, f.there, f.pending) (rw run refl))

call_pending-faulted :
    (callback : Callback) (k a : ℕ) (l : Loop) (xs : List ℕ) (f : First l a xs)
    → answer callback l a xs f ≡ none
    → call_pending callback (suc k) l ≡ faulted
unfolding call_pending fdevent_call_fdfunc
call_pending-faulted callback k a l xs f run =
    rw (call_pending, f.taken) (rw (fdevent_call_fdfunc, ◌>>=◌, f.there, f.pending) (rw run refl))

-- The callback has a fault on some consistent loop.
abbrev pub Faults : Callback → Type 0
Faults callback =
    (func : FdFunc) × (fd : ℕ) × (events : Events) × (l : Loop) × (xs : List ℕ) × IsConsistent l xs
    × (callback func fd events l ≡ none)

-- Where the callback returns, it has kept the loop consistent and made no event pending.
abbrev pub IsCourteous : Callback → Type 0
IsCourteous callback =
    (func : FdFunc) (fd : ℕ) (events : Events) (l : Loop) (xs : List ℕ)
    → IsConsistent l xs
    → (j : Loop) → callback func fd events l ≡ some j
    → (ys : List ℕ) × IsConsistent j ys × (length ys ≤ length xs)

call_pending_ends :
    (callback : Callback)
    → IsCourteous callback
    → (k : ℕ) (l : Loop) (xs : List ℕ) → length xs < k
    → IsConsistent l xs
    → ((call_pending callback k l ≡ faulted) × Faults callback)
      ⊎ ((j : Loop) × (call_pending callback k l ≡ ended j) × IsConsistent j [])
call_pending_ends callback law zero l xs lt c = absurd (omega arith)
call_pending_ends callback law (suc k) l [] lt c = inr (l, call_pending_empty callback k l c, c)
call_pending_ends callback law (suc k) l (a ∷ xs) lt c =
    let f = first l a xs c in
    elim (Option-cases (answer callback l a xs f)) [
      | inl bad ↦ inl (
        call_pending-faulted callback k a l xs f bad,
        (
          f.event.func,
          f.event.fd,
          f.event.events,
          served l f.links a f.event,
          xs,
          f.consistent,
          bad,
        ),
      )
      | inr (j, run) ↦
          let (ys, d, le) =
            law f.event.func f.event.fd f.event.events (served l f.links a f.event) xs f.consistent
              j run in
          elim (call_pending_ends callback law k j ys (omega (arith, le)) d) [
            | inl (stop, bad) ↦ inl (call_pending-First callback k a l j xs f run ∙ stop, bad)
            | inr (i, rest, e) ↦ inr (i, call_pending-First callback k a l j xs f run ∙ rest, e)
          ]
    ]

-- Where the callback returns, it has left the pending list alone.
abbrev pub IsQuiet : Callback → Type 0
IsQuiet callback =
    (func : FdFunc) (fd : ℕ) (events : Events) (l : Loop) (xs : List ℕ)
    → IsConsistent l xs
    → (j : Loop) → callback func fd events l ≡ some j
    → IsConsistent j xs × (j.called ≡ l.called)

module _ (callback : Callback) (valid : ℕ → Bool) (s : Selected) (l : Loop) (xs : List ℕ)
    (counted : total s l.select_n 0 ≤ s.count) (some_count : (s.count == 0) ≡ false)
    (honest : IsHonest l s) (c : IsConsistent l xs) where
  sc : Scanned s 0 l xs (fdevent_process valid (returned s) l)
  sc = process-Scanned valid s l xs counted some_count honest c

  turn_run : (k : ℕ) → turn callback valid (returned s) k l ≡ call_pending callback k sc.loop
  unfolding turn
  turn_run k = rw (turn, sc.run) refl

  -- One turn of the event loop ends: where `select` counted and reported as in `fdevent_process`
  -- above and the callbacks, where they return, keep the loop consistent and make no event pending,
  -- there is a number of rounds from which on the loop over the pending list has ended, with nothing
  -- pending and the tables consistent, unless a callback itself had a fault.
  pub turn_ends :
      IsCourteous callback
      → (m : ℕ) × ((k : ℕ)
          → m ≤ k
          → ((turn callback valid (returned s) k l ≡ faulted) × Faults callback)
            ⊎ ((j : Loop) × (turn callback valid (returned s) k l ≡ ended j) × IsConsistent j []))
  turn_ends law = (
    suc (length sc.list),
    λ k le. elim (call_pending_ends callback law k sc.loop sc.list (omega arith) sc.consistent) [
      | inl (stop, bad) ↦ inl (turn_run k ∙ stop, bad)
      | inr (j, run, d) ↦ inr (j, turn_run k ∙ run, d)
    ],
  )

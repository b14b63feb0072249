-- ===== src/Fdevent/Consistent/Setting.antt =====
-- `fdevent_set` of fdevent.c under the invariant.
use pax_linux.Base.{
  ltb, ℕ, ◌≡◌, refl, sym, ◌∙◌, Bool, true, false, List, Option, some, arith, if◌then◌else◌,
  Bool-cases, inl, inr,
}
use pax_linux.Sockets.Lists.{on, remove}
use pax_linux.Fdevent.Pending.{◌>>=◌}
use pax_linux.Fdevent.{
  Events, Fdevent, Loop, no_events, minus, same_events, store_event, fdevent_set, watch,
  fdevent_update, fd_setsize, settle,
}
use pax_linux.Fdevent.Tables.{
  IsTabled, store_event-IsTabled, watch-IsTabled, assign_self, relink-IsTabled,
}
use pax_linux.Fdevent.Queued.{IsQueued, store_event-IsQueued, leave-IsQueued, away}
use pax_linux.Fdevent.Consistent.{IsConsistent, Keeps, length-remove-le}

-- The loop may be given another description of the event at `a`, of which these parts are fixed.
abbrev pub Accepts : Loop → ℕ → ℕ → Bool → Events → Type 0
Accepts l a fd active wanted =
    (g : Fdevent) → g.fd ≡ fd → g.active ≡ active → g.wanted ≡ wanted → IsTabled (store_event l a g)

pub settle-Keeps :
    (l : Loop) (xs : List ℕ) (a : ℕ) (f g : Fdevent) (events : Events)
    → Accepts l a g.fd g.active g.wanted
    → l.fdes a ≡ some f
    → f.pending ≡ true
    → g.pending ≡ true
    → IsQueued l.fdes l.links xs
    → Keeps xs (settle l a g events)
unfolding settle
settle-Keeps l xs a f g events t h p p' q = elim (Bool-cases (same_events e no_events)) [
  | inl empty ↦
      let left = record g { events = e; pending = false } in
      let (k, run, r) = leave-IsQueued l.fdes l.links xs a f left h p refl q in
      (
        store_event (record l { links = k }) a left,
        remove a xs,
        rw (empty, run) refl,
        record {
          tabled = relink-IsTabled (store_event l a left) k (t left refl refl refl);
          queued = r;
        },
        length-remove-le a xs,
      )
  | inr some_left ↦
      let left = record g { events = e } in
      (
        store_event l a left,
        xs,
        rw some_left refl,
        record {
          tabled = t left refl refl refl;
          queued =
              store_event-IsQueued l.fdes l.links xs a left (q.pending a f h ∙ p ∙ sym p')
                (away l.fdes a f q.origin h) q;
        },
        omega arith,
      )
]
  where
    e : Events
    e = minus g.events events

-- What `watch` leaves, if the event is active.
pub updated : Loop → ℕ → Fdevent → Events → Bool → Loop
updated l a f events active = if active then watch l a f events else l

pub updated-Accepts :
    (l : Loop) (a : ℕ) (f : Fdevent) (events : Events) (active : Bool)
    → l.fdes a ≡ some f
    → f.active ≡ active
    → IsTabled l
    → Accepts (updated l a f events active) a f.fd active events
unfolding updated
updated-Accepts l a f events true h e t g d v w =
    store_event-IsTabled (watch l a f events) a (record f { wanted = events }) g
      (unfold watch in assign_self l.fdes a (some (record f { wanted = events }))) d (v ∙ sym e)
      (λ z. w) (watch-IsTabled l a f events (h, e) t)
updated-Accepts l a f events false h e t g d v w =
    store_event-IsTabled l a f g h d (v ∙ sym e) (λ z. absurd (cc (z, v))) t

pub updated-IsQueued :
    (l : Loop) (xs : List ℕ) (a : ℕ) (f : Fdevent) (events : Events) (active : Bool)
    → l.fdes a ≡ some f
    → IsQueued l.fdes l.links xs
    → let u = updated l a f events active in
      (g : Fdevent) × (u.fdes a ≡ some g) × (g.pending ≡ f.pending) × IsQueued u.fdes u.links xs
unfolding updated watch
updated-IsQueued l xs a f events true h q = (
  record f { wanted = events },
  assign_self l.fdes a (some (record f { wanted = events })),
  refl,
  store_event-IsQueued l.fdes l.links xs a (record f { wanted = events }) (q.pending a f h)
      (away l.fdes a f q.origin h) q,
)
updated-IsQueued l xs a f events false h q = (f, h, refl, q)

-- The rest of `fdevent_set`, of a loop whose sets are up to date.
pub finished : Loop → ℕ → Fdevent → Events → Bool → Option Loop
finished u a g events pending = if pending then settle u a g events else some (store_event u a g)

pub finished-Keeps :
    (u : Loop) (xs : List ℕ) (a : ℕ) (f g : Fdevent) (events : Events) (pending : Bool)
    → Accepts u a g.fd g.active g.wanted
    → u.fdes a ≡ some f
    → f.pending ≡ pending
    → g.pending ≡ pending
    → IsQueued u.fdes u.links xs
    → Keeps xs (finished u a g events pending)
unfolding finished
finished-Keeps u xs a f g events true t h p p' q = settle-Keeps u xs a f g events t h p p' q
finished-Keeps u xs a f g events false t h p p' q = (
  store_event u a g,
  xs,
  refl,
  record {
    tabled = t g refl refl refl;
    queued =
        store_event-IsQueued u.fdes u.links xs a g (q.pending a f h ∙ p ∙ sym p')
          (away u.fdes a f q.origin h) q;
  },
  omega arith,
)

pub set_run :
    (l : Loop) (a : ℕ) (f : Fdevent) (events : Events)
    → l.fdes a ≡ some f
    → same_events f.wanted events ≡ false
    → (f.active ≡ true → ltb f.fd fd_setsize ≡ true)
    → fdevent_set l a events
      ≡ finished (updated l a f events f.active) a (record f { wanted = events }) events f.pending
unfolding fdevent_set fdevent_update finished updated
set_run l a f events h other in_set = elim (Bool-cases f.active) [
  | inl on ↦ rw (h, ◌>>=◌, other, on, in_set on) refl
  | inr off ↦ rw (h, ◌>>=◌, other, off) refl
]

pub set-Keeps :
    (l : Loop) (xs : List ℕ) (a : ℕ) (f : Fdevent) (events : Events)
    → l.fdes a ≡ some f
    → IsConsistent l xs
    → Keeps xs (fdevent_set l a events)
set-Keeps l xs a f events h c = elim (Bool-cases (same_events f.wanted events)) [
  | inl same ↦ (l, xs, unfold fdevent_set in rw (h, ◌>>=◌, same) refl, c, omega arith)
  | inr other ↦
      let (g, hg, same, q) = updated-IsQueued l xs a f events f.active h c.queued in
      let in_set : f.active ≡ true → ltb f.fd fd_setsize ≡ true =
        λ on. ground (arith, (c.tabled.found a f (h, on)).0, c.tabled.fits) in
      rw (set_run l a f events h other in_set) (
        finished-Keeps (updated l a f events f.active) xs a g (record f { wanted = events }) events
          f.pending (updated-Accepts l a f events f.active h refl c.tabled) hg same refl q)
]

updated-called :
    (l : Loop) (a : ℕ) (f : Fdevent) (events : Events) (active : Bool)
    → (updated l a f events active).called ≡ l.called
unfolding updated watch
updated-called l a f events true = refl
updated-called l a f events false = refl

finished_quiet :
    (u : Loop) (a : ℕ) (g : Fdevent) (events : Events) (pending : Bool)
    → pending ≡ false
    → finished u a g events pending ≡ some (store_event u a g)
unfolding finished
finished_quiet u a g events true e = cc
finished_quiet u a g events false e = refl

-- On an event that is not pending the pending list stays.
pub set_quiet :
    (l : Loop) (xs : List ℕ) (a : ℕ) (f : Fdevent) (events : Events)
    → l.fdes a ≡ some f
    → f.pending ≡ false
    → IsConsistent l xs
    → (j : Loop) × (fdevent_set l a events ≡ some j) × IsConsistent j xs × (j.called ≡ l.called)
set_quiet l xs a f events h off c = elim (Bool-cases (same_events f.wanted events)) [
  | inl same ↦ (l, unfold fdevent_set in rw (h, ◌>>=◌, same) refl, c, refl)
  | inr other ↦
      let (g, hg, same, q) = updated-IsQueued l xs a f events f.active h c.queued in
      let in_set : f.active ≡ true → ltb f.fd fd_setsize ≡ true =
        λ on. ground (arith, (c.tabled.found a f (h, on)).0, c.tabled.fits) in
      let u = updated l a f events f.active in
      let new = record f { wanted = events } in
      (
        store_event u a new,
        set_run l a f events h other in_set ∙ finished_quiet u a new events f.pending off,
        record {
          tabled = updated-Accepts l a f events f.active h refl c.tabled new refl refl refl;
          queued =
              store_event-IsQueued u.fdes u.links xs a new (q.pending a g hg ∙ same)
                (away u.fdes a g q.origin hg) q;
        },
        updated-called l a f events f.active,
      )
]

-- ===== src/Fdevent/Select/Signals.antt =====
-- What `fdevent_process` of fdevent.c does with the sets that `select` returns.
use pax_linux.Base.{
  ℕ, zero, suc, ◌+◌, ◌≤◌, ◌<◌, ◌≡◌, ◌≢◌, refl, sym, ◌∙◌, ap, Bool, true, false, not, ◌||◌, List, [],
  ◌∷◌, ◌++◌, Option, some, arith, ◌==◌, ==_iff, Bool-cases, inl, inr, some_inj,
}
use pax_linux.Sockets.Lists.{on, on-append}
use pax_linux.Fdevent.Pending.{Links, ◌>>=◌}
use pax_linux.Fdevent.{Events, Fdevent, Loop, no_events, union, same_events, store_event}
use pax_linux.Fdevent.Select.{Selected, reported, signal, bit}
use pax_linux.Fdevent.Tables.{
  IsTabled, IsActive, is_watched, store_event-IsTabled, assign_self, assign_other, same_fd_same,
  relink-IsTabled,
}
use pax_linux.Fdevent.Queued.{store_event-IsQueued, join-IsQueued, away}
use pax_linux.Fdevent.Consistent.{IsConsistent}

-- The sets report something for `i`.
abbrev pub reports : Selected → ℕ → Bool
reports s i = not (same_events (reported s i) no_events)

-- The event at `a` has been signalled, and no other event has changed.
pub record Signalled (l : Loop) (a : ℕ) (f : Fdevent) (more : Events) (xs : List ℕ)
    (r : Option Loop) : Type 0 where
  pub links : Links
  pub event : Fdevent
  pub list : List ℕ
  pub run : r ≡ some (store_event (record l { links = links }) a event)
  pub fd : event.fd ≡ f.fd
  pub active : event.active ≡ f.active
  pub events : event.events ≡ union f.events more
  pub consistent : IsConsistent (store_event (record l { links = links }) a event) list
  pub here : on a list ≡ true
  pub others : (x : ℕ) → (x == a) ≡ false → on x list ≡ on x xs

pub signalled :
    (l : Loop) (xs : List ℕ) (a : ℕ) (f : Fdevent) (events : Events)
    → l.fdes a ≡ some f
    → IsConsistent l xs
    → Signalled l a f events xs (signal l a events)
unfolding signal
signalled l xs a f events h c = elim (Bool-cases f.pending) [
  | inl p ↦
      let g = record f { events = union f.events events } in
      record {
        links = l.links;
        event = g;
        list = xs;
        run = rw (h, ◌>>=◌, p) refl;
        fd = refl;
        active = refl;
        events = refl;
        consistent = record {
          tabled = store_event-IsTabled l a f g h refl refl (λ z. refl) c.tabled;
          queued =
              store_event-IsQueued l.fdes l.links xs a g (c.queued.pending a f h)
                (away l.fdes a f c.queued.origin h) c.queued;
        };
        here = c.queued.pending a f h ∙ p;
        others = λ x e. refl;
      }
  | inr n ↦
      let g = record f { events = union f.events events; pending = true } in
      let (k, run, q) = join-IsQueued l.fdes l.links xs a f g h n refl c.queued in
      record {
        links = k;
        event = g;
        list = xs ++ a ∷ [];
        run = rw (h, ◌>>=◌, n, run) refl;
        fd = refl;
        active = refl;
        events = refl;
        consistent = record {
          tabled =
              relink-IsTabled (store_event l a g) k
                (store_event-IsTabled l a f g h refl refl (λ z. refl) c.tabled);
          queued = q;
        };
        here = ground (arith, on-append a xs (a ∷ []));
        others = λ x e. ground (arith, on-append x xs (a ∷ []));
      }
]

-- The bits of the sets for the `k` descriptors from `i`.
abbrev pub total : Selected → ℕ → ℕ → ℕ
total s zero i = 0
total s (suc k) i = bit (s.rfd i) + bit (s.wfd i) + bit (s.efd i) + total s k (i + 1)

pub total-none :
    (s : Selected) (k i j : ℕ)
    → total s k i ≡ 0
    → i ≤ j
    → j < i + k
    → (s.rfd j ≡ false) × (s.wfd j ≡ false) × (s.efd j ≡ false)
total-none s zero i j z p q = absurd (omega arith)
total-none s (suc k) i j z p q = elim (Bool-cases (i == j)) [
  | inl same ↦ rw (← (==_iff i j).0 same) (
    no_bit (s.rfd i) (omega arith),
    no_bit (s.wfd i) (omega arith),
    no_bit (s.efd i) (omega arith),
  )
  | inr other ↦ total-none s k (i + 1) j (omega arith) (ground arith) (omega arith)
]
  where
    no_bit : (b : Bool) → bit b ≡ 0 → b ≡ false
    no_bit true e = absurd (omega arith)
    no_bit false e = refl

-- What the loop over the descriptors from `i` has done to an active event.
pub record Handled (s : Selected) (i : ℕ) (k : Loop) (xs ys : List ℕ) (a : ℕ) (f : Fdevent)
    : Type 0 where
  pub event : Fdevent
  pub active : IsActive k a event
  pub fd : event.fd ≡ f.fd
  pub reached :
      i ≤ f.fd
      → (event.events ≡ union f.events (reported s f.fd)) × (on a ys ≡ (on a xs || reports s f.fd))
  pub passed : f.fd < i → (event.events ≡ f.events) × (on a ys ≡ on a xs)

-- The loop ends without a fault and has handled every active event.
pub record Scanned (s : Selected) (i : ℕ) (l : Loop) (xs : List ℕ) (r : Option Loop) : Type 0 where
  pub loop : Loop
  pub list : List ℕ
  pub run : r ≡ some loop
  pub consistent : IsConsistent loop list
  pub handled : (a : ℕ) (f : Fdevent) → IsActive l a f → Handled s i loop xs list a f

-- Only watched descriptors are reported.
abbrev pub IsHonest : Loop → Selected → Type 0
IsHonest l s = (i : ℕ) → reports s i ≡ true → is_watched l i ≡ true

pub quiet_report :
    (s : Selected) (i : ℕ)
    → s.rfd i ≡ false
    → s.wfd i ≡ false
    → s.efd i ≡ false
    → reports s i ≡ false
quiet_report s i r w e = ground arith

quiet_union : (s : Selected) (i : ℕ) (e : Events) → reports s i ≡ false → union e (reported s i) ≡ e
quiet_union s i e h = ground arith

pub nothing_left :
    (s : Selected) (i : ℕ) (l : Loop) (xs : List ℕ)
    → ((a : ℕ) (f : Fdevent) → IsActive l a f → i ≤ f.fd → reports s f.fd ≡ false)
    → IsConsistent l xs
    → Scanned s i l xs (some l)
nothing_left s i l xs quiet c = record {
  loop = l;
  list = xs;
  run = refl;
  consistent = c;
  handled = λ a f p. record {
    event = f;
    active = p;
    fd = refl;
    reached =
        λ h. (sym (quiet_union s f.fd f.events (quiet a f p h)), ground (arith, quiet a f p h));
    passed = λ h. (refl, refl);
  };
}

-- A descriptor for which nothing is reported is passed over.
pub pass_over :
    (s : Selected) (i : ℕ) (l : Loop) (xs : List ℕ) (r : Option Loop)
    → reports s i ≡ false
    → Scanned s (i + 1) l xs r
    → Scanned s i l xs r
pass_over s i l xs r quiet d = record {
  loop = d.loop;
  list = d.list;
  run = d.run;
  consistent = d.consistent;
  handled = λ a f p. earlier a f (d.handled a f p);
}
  where
    at_i :
        (a : ℕ) (f : Fdevent) (h : Handled s (i + 1) d.loop xs d.list a f)
        → f.fd ≡ i
        → (h.event.events ≡ union f.events (reported s f.fd))
          × (on a d.list ≡ (on a xs || reports s f.fd))
    at_i a f h e =
        let (u, v) = h.passed (omega arith) in
        let q : reports s f.fd ≡ false = ap (reports s) e ∙ quiet in
        (u ∙ sym (quiet_union s f.fd f.events q), ground (arith, q, v))

    earlier :
        (a : ℕ) (f : Fdevent)
        → Handled s (i + 1) d.loop xs d.list a f
        → Handled s i d.loop xs d.list a f
    earlier a f h = record {
      event = h.event;
      active = h.active;
      fd = h.fd;
      reached = λ le. elim (Bool-cases (f.fd == i)) [
        | inl same ↦ at_i a f h ((==_iff f.fd i).0 same)
        | inr other ↦ h.reached (ground arith)
      ];
      passed = λ lt. h.passed (omega arith);
    }

-- The event of a reported descriptor is signalled, and the rest is handled after it.
pub signal_first :
    (s : Selected) (i : ℕ) (l k : Loop) (xs ys : List ℕ) (a : ℕ) (f : Fdevent) (r : Option Loop)
    (sg : Signalled l a f (reported s i) xs r)
    → IsTabled l
    → IsActive l a f
    → f.fd ≡ i
    → reports s i ≡ true
    → ((b : ℕ) (g : Fdevent)
        → IsActive (store_event (record l { links = sg.links }) a sg.event) b g
        → Handled s (i + 1) k sg.list ys b g)
    → (b : ℕ) (g : Fdevent) → IsActive l b g
    → Handled s i k xs ys b g
signal_first s i l k xs ys a f r sg t p e on_i all b g q = elim (Bool-cases (b == a)) [
  | inl same ↦
      let eq : b ≡ a = (==_iff b a).0 same in
      let same_event : g ≡ f = some_inj (sym q.0 ∙ ap l.fdes eq ∙ p.0) in
      rw (eq, same_event) the_first
  | inr other ↦ another other (all b g (assign_other l.fdes a b (some sg.event) other ∙ q.0, q.1))
]
  where
    fd_i : sg.event.fd ≡ i
    fd_i = sg.fd ∙ e

    the_first : Handled s i k xs ys a f
    the_first =
        let h = all a sg.event (assign_self l.fdes a (some sg.event), sg.active ∙ p.1) in
        let (u, v) = h.passed (omega (arith, fd_i)) in
        record {
          event = h.event;
          active = h.active;
          fd = h.fd ∙ sg.fd;
          reached = λ le. (
            u ∙ sg.events ∙ ap (λ j. union f.events (reported s j)) (sym e),
            v ∙ sg.here ∙ ground (arith, ap (reports s) e, on_i),
          );
          passed = λ lt. absurd (omega arith);
        }

    another : (b == a) ≡ false → Handled s (i + 1) k sg.list ys b g → Handled s i k xs ys b g
    another other h = record {
      event = h.event;
      active = h.active;
      fd = h.fd;
      reached = λ le.
          let (u, v) = h.reached (omega (arith, apart)) in
          (u, v ∙ ap (λ z. z || reports s g.fd) (sg.others b other));
      passed = λ lt. let (u, v) = h.passed (omega arith) in (u, v ∙ sg.others b other);
    }
      where
        apart : g.fd ≢ i
        apart z = cc (other, (==_iff b a).1 (same_fd_same l b a g f t q p (z ∙ sym e)))

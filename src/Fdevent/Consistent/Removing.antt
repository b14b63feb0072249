-- ===== src/Fdevent/Consistent/Removing.antt =====
-- The other calls of fdevent.c under the invariant: what adds and removes events.
use pax_linux.Base.{
  ℕ, ◌<◌, ◌≤◌, ◌≡◌, ◌≢◌, refl, sym, ◌∙◌, ap, Bool, true, false, List, Option, some, arith,
  if◌then◌else◌, Bool-cases, inl, inr, length,
}
use pax_linux.Sockets.Lists.{on, remove}
use pax_linux.Fdevent.Pending.{Links, assign, list_pending, fdevent_plist_remove, ◌>>=◌}
use pax_linux.Fdevent.{
  Events, Fdevent, FdFunc, Loop, no_events, minus, union, store_event, installed, fdevent_install,
  fdevent_remove, fdevent_add, fdevent_del, fdevent_destroy, fdevent_disconnect, fdevent_unregister,
  fd_setsize,
}
use pax_linux.Fdevent.Tables.{IsTabled, store_event-IsTabled, relink-IsTabled}
use pax_linux.Fdevent.Tables.Retiring.{retire_lem}
use pax_linux.Fdevent.Registering.{IsFree, fdevent_install_lem}
use pax_linux.Fdevent.Queued.{IsQueued, store_event-IsQueued, leave-IsQueued, away}
use pax_linux.Fdevent.Consistent.{IsConsistent, Keeps, length-remove-le}
use pax_linux.Fdevent.Consistent.Setting.{set-Keeps}

-- The list without the event, if it is pending.
pub unlinked_part :
    (l : Loop) (xs : List ℕ) (a : ℕ) (f g : Fdevent) (pending : Bool)
    → l.fdes a ≡ some f
    → f.pending ≡ pending
    → g.pending ≡ false
    → IsQueued l.fdes l.links xs
    → (k : Links) × (ys : List ℕ) × ((if pending
          then fdevent_plist_remove l.links a
          else some l.links)
        ≡ some k)
      × IsQueued (assign l.fdes a (some g)) k ys
      × (length ys ≤ length xs)
unlinked_part l xs a f g true h p n q =
    let (k, run, r) = leave-IsQueued l.fdes l.links xs a f g h p n q in
    (k, remove a xs, run, r, length-remove-le a xs)
unlinked_part l xs a f g false h p n q = (
  l.links,
  xs,
  refl,
  store_event-IsQueued l.fdes l.links xs a g (q.pending a f h ∙ p ∙ sym n)
      (away l.fdes a f q.origin h) q,
  omega arith,
)

-- The tables without the event, if it is active.
pub retired_part :
    (l : Loop) (a : ℕ) (f g : Fdevent) (active : Bool)
    → l.fdes a ≡ some f
    → f.active ≡ active
    → g.active ≡ false
    → g.fd ≡ f.fd
    → IsTabled l
    → (k : Loop) × ((if active
          then (fdevent_disconnect l f.fd >>= λ j. fdevent_unregister j a f)
          else some l)
        ≡ some k)
      × (k.fdes ≡ l.fdes)
      × (k.links ≡ l.links)
      × IsTabled (store_event k a g)
retired_part l a f g true h p n d t = retire_lem l a f g (h, p) n t
retired_part l a f g false h p n d t =
    (l, refl, refl, refl, store_event-IsTabled l a f g h d (n ∙ sym p) (λ z. absurd (cc (z, n))) t)

-- The event once it is removed.
abbrev pub removed : Fdevent → Fdevent
removed f = record f {
  wanted = no_events;
  active = false;
  pending = false;
  created = false;
  events = no_events;
}

pub remove_run :
    (l : Loop) (a : ℕ) (f : Fdevent) (links : Links) (k : Loop)
    → l.fdes a ≡ some f
    → (if f.pending then fdevent_plist_remove l.links a else some l.links) ≡ some links
    → (if f.active
        then (fdevent_disconnect (record l { links = links }) f.fd >>= λ j.
            fdevent_unregister j a f)
        else some (record l { links = links }))
      ≡ some k
    → fdevent_remove l a ≡ some (store_event k a (removed f))
unfolding fdevent_remove
remove_run l a f links k h p q =
    rw (h, ◌>>=◌, p) (ap (λ m. m >>= λ l2. some (store_event l2 a (removed f))) q)

pub remove-Keeps :
    (l : Loop) (xs : List ℕ) (a : ℕ) (f : Fdevent)
    → l.fdes a ≡ some f
    → IsConsistent l xs
    → Keeps xs (fdevent_remove l a)
remove-Keeps l xs a f h c =
    let (links, ys, p, q, le) = unlinked_part l xs a f (removed f) f.pending h refl refl c.queued in
    let (k, run, same_fdes, same_links, t) =
      retired_part (record l { links = links }) a f (removed f) f.active h refl refl refl
        (relink-IsTabled l links c.tabled) in
    (
      store_event k a (removed f),
      ys,
      remove_run l a f links k h p run,
      record { tabled = t; queued = rw (same_fdes, same_links) q },
      le,
    )

pub add-Keeps :
    (l : Loop) (xs : List ℕ) (a : ℕ) (f : Fdevent) (events : Events)
    → l.fdes a ≡ some f
    → IsConsistent l xs
    → Keeps xs (fdevent_add l a events)
unfolding fdevent_add
add-Keeps l xs a f events h c = rw (h, ◌>>=◌) (set-Keeps l xs a f (union f.wanted events) h c)

pub del-Keeps :
    (l : Loop) (xs : List ℕ) (a : ℕ) (f : Fdevent) (events : Events)
    → l.fdes a ≡ some f
    → IsConsistent l xs
    → Keeps xs (fdevent_del l a events)
unfolding fdevent_del
del-Keeps l xs a f events h c = rw (h, ◌>>=◌) (set-Keeps l xs a f (minus f.wanted events) h c)

pub not_listed :
    (l : Loop) (xs : List ℕ) (a fd : ℕ)
    → IsFree l a fd
    → IsQueued l.fdes l.links xs
    → on a xs ≡ false
not_listed l xs a fd free q = elim (Bool-cases (on a xs)) [
  | inl here ↦ let (f, h) = q.live a here in absurd (cc (here, q.pending a f h, (free.event f h).1))
  | inr off ↦ off
]

pub install-Keeps :
    (l : Loop) (xs : List ℕ) (a fd : ℕ) (func : FdFunc) (memory : ℕ → Option ℕ)
    → fd < fd_setsize
    → a ≢ list_pending
    → IsFree l a fd
    → IsConsistent l xs
    → Keeps xs (fdevent_install (some memory) l a (some fd) func)
install-Keeps l xs a fd func memory small off free c =
    let (k, run, same_fdes, same_links, t) =
      fdevent_install_lem l a fd func memory small free c.tabled in
    (
      k,
      xs,
      run,
      record {
        tabled = t;
        queued =
            rw (same_fdes, same_links)
              (store_event-IsQueued l.fdes l.links xs a (installed fd func)
                (not_listed l xs a fd free c.queued) off c.queued);
      },
      omega arith,
    )

pub destroy-Keeps :
    (l : Loop) (xs : List ℕ) (a : ℕ) (f : Fdevent)
    → l.fdes a ≡ some f
    → f.created ≡ true
    → IsConsistent l xs
    → Keeps xs (fdevent_destroy l (some a))
unfolding fdevent_destroy
destroy-Keeps l xs a f h made c = rw (h, ◌>>=◌, made) (remove-Keeps l xs a f h c)

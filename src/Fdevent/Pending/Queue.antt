-- ===== src/Fdevent/Pending/Queue.antt =====
-- The pending list of fdevent.c as a queue: `fdevent_plist_enqueue` and `fdevent_plist_dequeue`
-- on the ring.
use pax_linux.Base.{
  ℕ, ◌≡◌, refl, sym, ◌∙◌, true, false, List, [], ◌∷◌, ◌++◌, Option, none, some, arith, ◌==◌,
  some_inj,
}
use pax_linux.Sockets.Lists.{on, remove, on-append}
use pax_linux.Fdevent.Pending.{
  Links, Dequeued, set_next, set_prev, list_pending, empty_links, fdevent_plist_enqueue,
  fdevent_plist_remove, fdevent_plist_dequeue, unlink_first,
}
use pax_linux.Fdevent.Pending.Ring.{
  Segment, Represents, last_on, retarget, join, last_of, append-IsDistinct,
}
use pax_linux.Fdevent.Pending.Removal.{
  without, plist_remove_run, off_list, fdevent_plist_remove_lem, fdevent_plist_remove_on,
}

-- The ring with `node` at its end, after `p`.
abbrev with_last : Links → ℕ → ℕ → Links
with_last l p node =
    set_prev (set_next (set_prev (set_next l node (some list_pending)) node (some p)) p (some node))
      list_pending (some node)

plist_enqueue_run :
    (l : Links) (p node : ℕ)
    → l.prev list_pending ≡ some p
    → fdevent_plist_enqueue l node ≡ some (with_last l p node)
unfolding fdevent_plist_enqueue
plist_enqueue_run l p node hp = ground arith

-- A new event goes to the end.
pub fdevent_plist_enqueue_lem :
    (l : Links) (xs : List ℕ) (node : ℕ)
    → Represents l xs
    → on node (list_pending ∷ xs) ≡ false
    → (k : Links) × (fdevent_plist_enqueue l node ≡ some k) × Represents k (xs ++ node ∷ [])
fdevent_plist_enqueue_lem l xs node (s, (z, d)) off =
    let (p, hp) = last_of l list_pending xs list_pending s in
    let po = last_on l list_pending xs list_pending p s hp in
    let other = off_list p node (list_pending ∷ xs) off po in
    (
      with_last l p node,
      plist_enqueue_run l p node hp,
      (
        join (with_last l p node) list_pending xs node [] list_pending
            (retarget l (with_last l p node) list_pending xs list_pending node p (z, d) hp
              (ground arith) (ground (arith, other))
              (λ x o e. rw (e, off_list x node (list_pending ∷ xs) off o) refl)
              (λ x o.
                rw (off_list x list_pending xs z o, off_list x node xs (ground (arith, off)) o)
                  refl)
              s)
            (ground (arith, other), ground arith),
        (
          ground (arith, on-append list_pending xs (node ∷ []), off),
          append-IsDistinct xs (node ∷ []) d (refl, tt)
              (λ x o. ground (arith, off_list x node xs (ground (arith, off)) o)),
        ),
      ),
    )

plist_dequeue_run :
    (l : Links) (node n : ℕ)
    → (node == list_pending) ≡ false
    → l.next list_pending ≡ some node
    → l.next node ≡ some n
    → fdevent_plist_dequeue l
      ≡ some (record { links = without l list_pending node n; node = some node })
unfolding fdevent_plist_dequeue unlink_first
plist_dequeue_run l node n z h hn = ground arith

-- The event at the front is taken, and an empty ring stays as it is.
pub fdevent_plist_dequeue-none :
    (l : Links)
    → Represents l []
    → fdevent_plist_dequeue l ≡ some (record { links = l; node = none })
unfolding fdevent_plist_dequeue
fdevent_plist_dequeue-none l ((f, g), d) = ground arith

next_of :
    (l : Links) (x : ℕ) (xs : List ℕ) (b : ℕ) → Segment l x xs b → (n : ℕ) × (l.next x ≡ some n)
next_of l x [] b (f, g) = (b, f)
next_of l x (y ∷ xs) b (f, g, s) = (y, f)

pub fdevent_plist_dequeue-some :
    (l : Links) (node : ℕ) (xs : List ℕ)
    → Represents l (node ∷ xs)
    → (k : Links) × (fdevent_plist_dequeue l ≡ some (record { links = k; node = some node }))
      × Represents k xs
fdevent_plist_dequeue-some l node xs ((f, g, s), d) =
    let (k, run, r) = fdevent_plist_remove_lem l [] node xs ((f, g, s), d) in
    let (n, hn) = next_of l node xs list_pending s in
    let e : k ≡ without l list_pending node n =
      some_inj (sym run ∙ plist_remove_run l list_pending node n g hn) in
    (k, rw e (plist_dequeue_run l node n (ground (arith, d)) f hn), r)

-- The pointers of an empty list.
pub empty_links-Represents : Represents empty_links []
empty_links-Represents = ((refl, refl), (refl, tt))

-- What the front of a queue is, and what is left.
abbrev pub Front : List ℕ → Option Dequeued → Type 0
Front [] r = (d : Dequeued) × (r ≡ some d) × (d.node ≡ none) × Represents d.links []
Front (x ∷ xs) r = (d : Dequeued) × (r ≡ some d) × (d.node ≡ some x) × Represents d.links xs

plist_dequeue-Front :
    (l : Links) (xs : List ℕ) → Represents l xs → Front xs (fdevent_plist_dequeue l)
plist_dequeue-Front l [] r =
    (record { links = l; node = none }, fdevent_plist_dequeue-none l r, refl, r)
plist_dequeue-Front l (x ∷ xs) r =
    let (k, run, s) = fdevent_plist_dequeue-some l x xs r in
    (record { links = k; node = some x }, run, refl, s)

-- The `next` and `prev` pointers of the pending list implement a queue of events: where they stand
-- for a list, enqueueing an event that is not
-- on it appends the event, removing one that is on it deletes it, and dequeueing takes the first,
-- or nothing from an empty queue; none of them meets a null pointer.
pub plist_refines :
    (l : Links) (xs : List ℕ)
    → Represents l xs
    → ((a : ℕ)
        → on a (list_pending ∷ xs) ≡ false
        → (k : Links) × (fdevent_plist_enqueue l a ≡ some k) × Represents k (xs ++ a ∷ []))
      × ((a : ℕ)
          → on a xs ≡ true
          → (k : Links) × (fdevent_plist_remove l a ≡ some k) × Represents k (remove a xs))
      × Front xs (fdevent_plist_dequeue l)
plist_refines l xs r = (
  λ a h. fdevent_plist_enqueue_lem l xs a r h,
  λ a h. fdevent_plist_remove_on l xs a r h,
  plist_dequeue-Front l xs r,
)

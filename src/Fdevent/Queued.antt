-- ===== src/Fdevent/Queued.antt =====
-- The pending list of fdevent.c against the events: `FDE_PENDING` says which events it holds.
use pax_linux.Base.{
  ℕ, ◌≡◌, ◌≢◌, refl, sym, ◌∙◌, ap, inl, inr, true, false, List, [], ◌∷◌, ◌++◌, Option, none, some,
  arith, ◌==◌, ==_iff, none-ne-some, Bool-cases,
}
use pax_linux.Sockets.Lists.{on, remove, on-remove, on-append}
use pax_linux.Fdevent.Pending.{
  Links, assign, list_pending, fdevent_plist_enqueue, fdevent_plist_remove, fdevent_plist_dequeue,
}
use pax_linux.Fdevent.Pending.Queue.{fdevent_plist_enqueue_lem, fdevent_plist_dequeue-some}
use pax_linux.Fdevent.Pending.Removal.{fdevent_plist_remove_on}
use pax_linux.Fdevent.Pending.Ring.{Represents}
use pax_linux.Fdevent.{Fdevent}
use pax_linux.Fdevent.Tables.{assign_cases, assign_other, assign_self, ne_test}

-- The ring holds the events `xs`, which are those that are pending.
pub record IsQueued (fdes : ℕ → Option Fdevent) (links : Links) (xs : List ℕ) : Type 0 where
  pub ring : Represents links xs
  pub pending : (a : ℕ) (f : Fdevent) → fdes a ≡ some f → on a xs ≡ f.pending
  pub live : (a : ℕ) → on a xs ≡ true → (f : Fdevent) × (fdes a ≡ some f)
  pub origin : fdes list_pending ≡ none

-- No event stands at the address of the list's head.
pub away :
    (fdes : ℕ → Option Fdevent) (a : ℕ) (f : Fdevent)
    → fdes list_pending ≡ none
    → fdes a ≡ some f
    → a ≢ list_pending
away fdes a f o h e = none-ne-some (sym o ∙ ap fdes (sym e) ∙ h)

-- Another list and another event at `a`, where both agree on every other event.
change :
    (fdes : ℕ → Option Fdevent) (links k : Links) (xs ys : List ℕ) (a : ℕ) (g : Fdevent)
    → IsQueued fdes links xs
    → Represents k ys
    → ((x : ℕ) → (x == a) ≡ false → on x ys ≡ on x xs)
    → on a ys ≡ g.pending
    → a ≢ list_pending
    → IsQueued (assign fdes a (some g)) k ys
change fdes links k xs ys a g q r same here off = record {
  ring = r;
  pending = λ x f h. elim (assign_cases fdes a x g f h) [
    | inl (e, d) ↦ rw (e, d) here
    | inr (e, p) ↦ same x e ∙ q.pending x f p
  ];
  live = λ x h. elim (Bool-cases (x == a)) [
    | inl e ↦ (g, ap (assign fdes a (some g)) ((==_iff x a).0 e) ∙ assign_self fdes a (some g))
    | inr e ↦
        let (f, p) = q.live x (sym (same x e) ∙ h) in (f, assign_other fdes a x (some g) e ∙ p)
  ];
  origin =
      assign_other fdes a list_pending (some g) (ne_test list_pending a (λ e. off (sym e)))
      ∙ q.origin;
}

-- An event whose place on the list does not change.
pub store_event-IsQueued :
    (fdes : ℕ → Option Fdevent) (links : Links) (xs : List ℕ) (a : ℕ) (g : Fdevent)
    → on a xs ≡ g.pending
    → a ≢ list_pending
    → IsQueued fdes links xs
    → IsQueued (assign fdes a (some g)) links xs
store_event-IsQueued fdes links xs a g here off q =
    change fdes links links xs xs a g q q.ring (λ x e. refl) here off

-- A pending event leaves the list, wherever it stands.
pub leave-IsQueued :
    (fdes : ℕ → Option Fdevent) (links : Links) (xs : List ℕ) (a : ℕ) (f g : Fdevent)
    → fdes a ≡ some f
    → f.pending ≡ true
    → g.pending ≡ false
    → IsQueued fdes links xs
    → (k : Links) × (fdevent_plist_remove links a ≡ some k)
      × IsQueued (assign fdes a (some g)) k (remove a xs)
leave-IsQueued fdes links xs a f g h p n q =
    let (k, run, r) = fdevent_plist_remove_on links xs a q.ring (q.pending a f h ∙ p) in
    (
      k,
      run,
      change fdes links k xs (remove a xs) a g q r (λ x e. ground (arith, on-remove x a xs))
          (ground (arith, on-remove a a xs)) (away fdes a f q.origin h),
    )

-- An event that is not pending joins the end of the list.
pub join-IsQueued :
    (fdes : ℕ → Option Fdevent) (links : Links) (xs : List ℕ) (a : ℕ) (f g : Fdevent)
    → fdes a ≡ some f
    → f.pending ≡ false
    → g.pending ≡ true
    → IsQueued fdes links xs
    → (k : Links) × (fdevent_plist_enqueue links a ≡ some k)
      × IsQueued (assign fdes a (some g)) k (xs ++ a ∷ [])
join-IsQueued fdes links xs a f g h p n q =
    let off = away fdes a f q.origin h in
    let (k, run, r) =
      fdevent_plist_enqueue_lem links xs a q.ring
        (ground (arith, ne_test list_pending a (λ e. off (sym e)), q.pending a f h)) in
    (
      k,
      run,
      change fdes links k xs (xs ++ a ∷ []) a g q r (λ x e. ground (arith, on-append x xs (a ∷ [])))
          (ground (arith, on-append a xs (a ∷ []))) off,
    )

-- The first event is taken from the list.
pub first-IsQueued :
    (fdes : ℕ → Option Fdevent) (links : Links) (xs : List ℕ) (a : ℕ) (g : Fdevent)
    → g.pending ≡ false
    → IsQueued fdes links (a ∷ xs)
    → (k : Links) × (fdevent_plist_dequeue links ≡ some (record { links = k; node = some a }))
      × IsQueued (assign fdes a (some g)) k xs
first-IsQueued fdes links xs a g n q =
    let (k, run, r) = fdevent_plist_dequeue-some links a xs q.ring in
    let (f, h) = q.live a (ground arith) in
    (
      k,
      run,
      change fdes links k (a ∷ xs) xs a g q r (λ x e. ground arith) (ground (arith, q.ring.1))
          (away fdes a f q.origin h),
    )

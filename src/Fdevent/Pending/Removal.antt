-- ===== src/Fdevent/Pending/Removal.antt =====
-- `fdevent_plist_remove` of fdevent.c on the ring.
use mathlib.Core.Path.{subst}
use pax_linux.Base.{
  ℕ, ◌≡◌, refl, sym, ◌∙◌, ap, Bool, true, false, List, [], ◌∷◌, ◌++◌, append-nil, none, some, arith,
  ◌==◌, ==_iff, Bool-cases, inl, inr, ==_refl, ◌||◌,
}
use pax_linux.Sockets.Lists.{on, remove, on-append}
use pax_linux.Fdevent.Pending.{Links, set_next, set_prev, list_pending, fdevent_plist_remove}
use pax_linux.Fdevent.Pending.Ring.{
  Segment, IsDistinct, Represents, keep, last_on, retarget, split, join, last_of, IsDistinct-append,
  append-IsDistinct,
}

-- The links after `node`, between `p` and `n`, has been taken out.
abbrev pub without : Links → ℕ → ℕ → ℕ → Links
without l p node n =
    set_prev (set_next (set_prev (set_next l p (some n)) n (some p)) node none) node none

pub plist_remove_run :
    (l : Links) (p node n : ℕ)
    → l.prev node ≡ some p
    → l.next node ≡ some n
    → fdevent_plist_remove l node ≡ some (without l p node n)
unfolding fdevent_plist_remove
plist_remove_run l p node n hp hn = ground arith

-- Distinctness of the ring around one event.
pub record Around (us : List ℕ) (node : ℕ) (vs : List ℕ) : Type 0 where
  nonzero : (node == list_pending) ≡ false
  left : IsDistinct (list_pending ∷ us)
  right : IsDistinct (list_pending ∷ vs)
  not_left : on node us ≡ false
  not_right : on node vs ≡ false
  apart : (x : ℕ) → on x us ≡ true → on x vs ≡ false

pub Around-IsDistinct :
    (us : List ℕ) (node : ℕ) (vs : List ℕ)
    → IsDistinct (list_pending ∷ us ++ node ∷ vs)
    → Around us node vs
Around-IsDistinct us node vs (z, d) =
    let (du, (nv, dv), apart) = IsDistinct-append us (node ∷ vs) d in
    record {
      nonzero = ground (arith, on-append 0 us (node ∷ vs));
      left = (ground (arith, on-append 0 us (node ∷ vs)), du);
      right = (ground (arith, on-append 0 us (node ∷ vs)), dv);
      not_left = elim (Bool-cases (on node us)) [
        | inl h ↦ absurd (ground (arith, apart node h))
        | inr h ↦ h
      ];
      not_right = nv;
      apart = λ x h. ground (arith, apart x h);
    }

pub off_list : (x y : ℕ) (l : List ℕ) → on y l ≡ false → on x l ≡ true → (x == y) ≡ false
off_list x y l n o = elim (Bool-cases (x == y)) [
  | inl same ↦ absurd (cc (n, o, ap (λ z. on z l) ((==_iff x y).0 same)))
  | inr other ↦ other
]

-- The part before `node` is led to what comes after it.
pub left_part :
    (l : Links) (us : List ℕ) (node : ℕ) (vs : List ℕ) (p n : ℕ)
    → Around us node vs
    → Segment l list_pending us node
    → l.prev node ≡ some p
    → (n == node) ≡ false
    → on n us ≡ false
    → Segment (without l p node n) list_pending us n
left_part l us node vs p n a s hp nn nu =
    retarget l (without l p node n) list_pending us node n p a.left hp
      (ground (arith, last_on l list_pending us node p s hp, a.nonzero, a.not_left)) (ground arith)
      (λ x o e.
        rw (off_list x node (list_pending ∷ us) (ground (arith, a.nonzero, a.not_left)) o, e) refl)
      (λ x o. rw (off_list x node us a.not_left o, off_list x n us nu o) refl) s

pub left_off :
    {us : List ℕ} {node : ℕ} {vs : List ℕ}
    → Around us node vs
    → (x : ℕ) → on x vs ≡ true
    → on x us ≡ false
left_off {us} a x h = elim (Bool-cases (on x us)) [
  | inl o ↦ absurd (cc (a.apart x o, h))
  | inr o ↦ o
]

pub right_off :
    {us : List ℕ} {node : ℕ} {vs : List ℕ}
    → Around us node vs
    → (x : ℕ) → on x (list_pending ∷ us) ≡ true
    → on x vs ≡ false
right_off {us} {node} {vs} a x h = elim (Bool-cases (list_pending == x)) [
  | inl same ↦ cc (a.right.0, ap (λ z. on z vs) ((==_iff list_pending x).0 same))
  | inr other ↦ a.apart x (ground arith)
]

pub remove_middle :
    (l : Links) (us : List ℕ) (node : ℕ) (vs : List ℕ)
    → Around us node vs
    → Segment l list_pending (us ++ node ∷ vs) list_pending
    → (k : Links) × (fdevent_plist_remove l node ≡ some k)
      × Segment k list_pending (us ++ vs) list_pending
remove_middle l us node [] a s =
    let (left, (f, g)) = split l list_pending us node [] list_pending s in
    let (p, hp) = last_of l list_pending us node left in
    (
      without l p node list_pending,
      plist_remove_run l p node list_pending hp f,
      rw (append-nil us)
          (left_part l us node [] p list_pending a left hp (ground (arith, a.nonzero)) a.left.0),
    )
remove_middle l us node (n ∷ vs) a s =
    let (left, (f, g, t)) = split l list_pending us node (n ∷ vs) list_pending s in
    let (p, hp) = last_of l list_pending us node left in
    let po = last_on l list_pending us node p left hp in
    (
      without l p node n,
      plist_remove_run l p node n hp f,
      join (without l p node n) list_pending us n vs list_pending
          (left_part l us node (n ∷ vs) p n a left hp (ground (arith, a.not_right))
            (left_off a n (ground arith)))
          (keep l (without l p node n) n vs list_pending
            (λ x o.
              rw
                (off_list x node (n ∷ vs) a.not_right o, off_list x p (n ∷ vs) (right_off a p po) o)
                refl)
            (λ x o.
              rw
                (
                  off_list x node (vs ++ list_pending ∷ [])
                      (ground
                        (arith, a.not_right, a.nonzero, on-append node vs (list_pending ∷ [])))
                      o,
                  off_list x n (vs ++ list_pending ∷ [])
                      (ground (arith, a.right, on-append n vs (list_pending ∷ []))) o,
                )
                refl)
            t),
    )

-- Taking an event out of the ring, wherever it stands, leaves the other events in order.
pub fdevent_plist_remove_lem :
    (l : Links) (us : List ℕ) (node : ℕ) (vs : List ℕ)
    → Represents l (us ++ node ∷ vs)
    → (k : Links) × (fdevent_plist_remove l node ≡ some k) × Represents k (us ++ vs)
fdevent_plist_remove_lem l us node vs (s, d) =
    let a = Around-IsDistinct us node vs d in
    let (k, run, t) = remove_middle l us node vs a s in (k, run, (t, fewer a))
  where
    fewer : Around us node vs → IsDistinct (list_pending ∷ us ++ vs)
    fewer a = (
      ground (arith, on-append list_pending us vs, a.left, a.right),
      append-IsDistinct us vs a.left.1 a.right.1 a.apart,
    )

-- Where an event stands in the list.
pub split_at :
    (a : ℕ) (xs : List ℕ)
    → on a xs ≡ true
    → (us : List ℕ) × (vs : List ℕ) × (xs ≡ us ++ a ∷ vs) × (on a us ≡ false)
split_at a [] h = cc
split_at a (x ∷ xs) h = elim (Bool-cases (x == a)) [
  | inl same ↦ ([], xs, ap (λ z. z ∷ xs) ((==_iff x a).0 same), refl)
  | inr other ↦
      let (us, vs, e, n) = split_at a xs (ground arith) in
      (x ∷ us, vs, ap (λ z. x ∷ z) e, ground arith)
]

pub remove_off : (a : ℕ) (xs : List ℕ) → on a xs ≡ false → remove a xs ≡ xs
remove_off a [] h = refl
remove_off a (x ∷ xs) h =
    rw (either_off (x == a) (on a xs) h) (ap (λ z. x ∷ z) (remove_off a xs (ground arith)))
  where
    either_off : (b c : Bool) → (b || c) ≡ false → b ≡ false
    either_off b c e = ground arith

pub remove_split :
    (a : ℕ) (us vs : List ℕ)
    → on a us ≡ false
    → on a vs ≡ false
    → remove a (us ++ a ∷ vs) ≡ us ++ vs
remove_split a [] vs h k = rw (==_refl a) (remove_off a vs k)
remove_split a (u ∷ us) vs h k = elim (Bool-cases (u == a)) [
  | inl same ↦ absurd (ground arith)
  | inr other ↦ rw other (ap (λ z. u ∷ z) (remove_split a us vs (ground arith) k))
]

-- Any event of the ring can be taken out.
pub fdevent_plist_remove_on :
    (l : Links) (xs : List ℕ) (a : ℕ)
    → Represents l xs
    → on a xs ≡ true
    → (k : Links) × (fdevent_plist_remove l a ≡ some k) × Represents k (remove a xs)
fdevent_plist_remove_on l xs a r h =
    let (us, vs, e, off) = split_at a xs h in
    let here = subst (Represents l) e r in
    let (k, run, s) = fdevent_plist_remove_lem l us a vs here in
    let same : remove a xs ≡ us ++ vs =
      ap (remove a) e ∙ remove_split a us vs off (Around-IsDistinct us a vs here.1).not_right in
    (k, run, subst (Represents k) (sym same) s)

-- ===== src/Fdevent/Pending/Ring.antt =====
-- The ring of `next` and `prev` pointers of fdevent.c: which list of events it stands for.
use pax_linux.Base.{
  ℕ, ◌≡◌, sym, ◌∙◌, ap, true, false, List, [], ◌∷◌, ◌++◌, some, arith, ◌==◌, ==_iff, some_inj,
  Bool-cases, inl, inr,
}
use pax_linux.Sockets.Lists.{on, on-append}
use pax_linux.Fdevent.Pending.{Links, list_pending}

-- From `a` over the events `xs` to `b`, each `next` goes forward and each `prev` back.
abbrev pub Segment : Links → ℕ → List ℕ → ℕ → Type 0
Segment l a [] b = (l.next a ≡ some b) × (l.prev b ≡ some a)
Segment l a (x ∷ xs) b = (l.next a ≡ some x) × (l.prev x ≡ some a) × Segment l x xs b

-- No address stands twice.
abbrev pub IsDistinct : List ℕ → Type 0
IsDistinct [] = Unit
IsDistinct (x ∷ xs) = (on x xs ≡ false) × IsDistinct xs

-- The ring through `list_pending` holds exactly these events, in this order.
abbrev pub Represents : Links → List ℕ → Type 0
Represents l xs = Segment l list_pending xs list_pending × IsDistinct (list_pending ∷ xs)

-- Pointers that no one has changed still make the segment.
pub keep :
    (l k : Links) (a : ℕ) (xs : List ℕ) (b : ℕ)
    → ((x : ℕ) → on x (a ∷ xs) ≡ true → k.next x ≡ l.next x)
    → ((x : ℕ) → on x (xs ++ b ∷ []) ≡ true → k.prev x ≡ l.prev x)
    → Segment l a xs b
    → Segment k a xs b
keep l k a [] b n p (f, g) = (n a (ground arith) ∙ f, p b (ground arith) ∙ g)
keep l k a (x ∷ xs) b n p (f, g, s) = (
  n a (ground arith) ∙ f,
  p x (ground arith) ∙ g,
  keep l k x xs b (λ y h. n y (ground arith)) (λ y h. p y (ground arith)) s,
)

-- The last event before the end is one of the segment.
pub last_on :
    (l : Links) (a : ℕ) (xs : List ℕ) (b p : ℕ)
    → Segment l a xs b
    → l.prev b ≡ some p
    → on p (a ∷ xs) ≡ true
last_on l a [] b p (f, g) h = ground (arith, some_inj (sym g ∙ h))
last_on l a (x ∷ xs) b p (f, g, s) h = ground (arith, last_on l x xs b p s h)

-- The segment led to another end.
pub retarget :
    (l k : Links) (a : ℕ) (xs : List ℕ) (b c p : ℕ)
    → IsDistinct (a ∷ xs)
    → l.prev b ≡ some p
    → k.next p ≡ some c
    → k.prev c ≡ some p
    → ((x : ℕ) → on x (a ∷ xs) ≡ true → (x == p) ≡ false → k.next x ≡ l.next x)
    → ((x : ℕ) → on x xs ≡ true → k.prev x ≡ l.prev x)
    → Segment l a xs b
    → Segment k a xs c
retarget l k a [] b c p d h kn kp n q (f, g) =
    let e : p ≡ a = some_inj (sym h ∙ g) in (ap k.next (sym e) ∙ kn, kp ∙ ap some e)
retarget l k a (x ∷ xs) b c p (d, ds) h kn kp n q (f, g, s) = (
  n a (ground arith) (apart (last_on l x xs b p s h)) ∙ f,
  q x (ground arith) ∙ g,
  retarget l k x xs b c p ds h kn kp (λ y o. n y (ground arith)) (λ y o. q y (ground arith)) s,
)
  where
    apart : on p (x ∷ xs) ≡ true → (a == p) ≡ false
    apart o = ground arith

pub split :
    (l : Links) (a : ℕ) (us : List ℕ) (x : ℕ) (vs : List ℕ) (b : ℕ)
    → Segment l a (us ++ x ∷ vs) b
    → Segment l a us x × Segment l x vs b
split l a [] x vs b (f, g, s) = ((f, g), s)
split l a (u ∷ us) x vs b (f, g, s) =
    let (left, right) = split l u us x vs b s in ((f, g, left), right)

pub join :
    (l : Links) (a : ℕ) (us : List ℕ) (x : ℕ) (vs : List ℕ) (b : ℕ)
    → Segment l a us x
    → Segment l x vs b
    → Segment l a (us ++ x ∷ vs) b
join l a [] x vs b (f, g) s = (f, g, s)
join l a (u ∷ us) x vs b (f, g, s) t = (f, g, join l u us x vs b s t)

pub last_of :
    (l : Links) (a : ℕ) (us : List ℕ) (x : ℕ) → Segment l a us x → (p : ℕ) × (l.prev x ≡ some p)
last_of l a [] x (f, g) = (a, g)
last_of l a (u ∷ us) x (f, g, s) = last_of l u us x s

-- What distinctness says of a list in two parts.
pub IsDistinct-append :
    (us ys : List ℕ)
    → IsDistinct (us ++ ys)
    → IsDistinct us × IsDistinct ys × ((x : ℕ) → on x us ≡ true → on x ys ≡ false)
IsDistinct-append [] ys d = (tt, d, λ x h. ground arith)
IsDistinct-append (u ∷ us) ys (n, d) =
    let (du, dy, apart) = IsDistinct-append us ys d in
    (
      (ground (arith, on-append u us ys), du),
      dy,
      λ x h. elim (Bool-cases (u == x)) [
        | inl same ↦ rw (← (==_iff u x).0 same) (ground (arith, on-append u us ys))
        | inr other ↦ apart x (ground arith)
      ],
    )

pub append-IsDistinct :
    (us ys : List ℕ)
    → IsDistinct us
    → IsDistinct ys
    → ((x : ℕ) → on x us ≡ true → on x ys ≡ false)
    → IsDistinct (us ++ ys)
append-IsDistinct [] ys du dy apart = dy
append-IsDistinct (u ∷ us) ys (n, du) dy apart = (
  ground (arith, on-append u us ys, apart u (ground arith)),
  append-IsDistinct us ys du dy (λ x h. apart x (ground arith)),
)

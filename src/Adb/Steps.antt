-- ===== src/Adb/Steps.antt =====
-- Reasoning about steps: a step that does not fault, with what holds of its result and state.
use mathlib.Core.Path.{refl, subst, sym}
use pax_linux.Base.{
  ℕ, ◌≡◌, ◌⊎◌, inl, inr, List, [], ◌∷◌, ◌++◌, Bool, true, false, Option, none, some, if◌then◌else◌,
}
use pax_linux.Adb.{Event, Socket, Transport, Adb, M, ◌>>=◌, ◌>>◌, load, load_transport}

-- The step does not fault, and its result and state meet `P`.
abbrev pub Returns : {A : Type 0} → Option (A × Adb) → (A → Adb → Type 0) → Type 0
Returns none P = ⊥
Returns (some (a, st)) P = P a st

abbrev pub Ensures : Option (Unit {0} × Adb) → (Adb → Type 0) → Type 0
Ensures none P = ⊥
Ensures (some (u, st)) P = P st

pub Ensures_map :
    (r : Option (Unit {0} × Adb)) (P Q : Adb → Type 0)
    → Ensures r P
    → ((st : Adb) → P st → Q st)
    → Ensures r Q
Ensures_map none P Q h step = h
Ensures_map (some (u, st)) P Q h step = step st h

pub Ensures_both :
    (r : Option (Unit {0} × Adb)) (P Q : Adb → Type 0)
    → Ensures r P
    → Ensures r Q
    → Ensures r (λ st. P st × Q st)
Ensures_both none P Q h k = h
Ensures_both (some (u, st)) P Q h k = (h, k)

-- A step after a step.
pub Ensures_then :
    (m k : M (Unit {0})) (st : Adb) (P Q : Adb → Type 0)
    → Ensures (m st) P
    → ((st' : Adb) → P st' → Ensures (k st') Q)
    → Ensures ((m >> k) st) Q
Ensures_then m k st P Q h step = after (m st) h
  where
    after :
        (r : Option (Unit {0} × Adb))
        → Ensures r P
        → Ensures (elim r [ none ↦ none | some (u, st') ↦ k st' ]) Q
    after none g = g
    after (some (u, st')) g = step st' g

-- A step after a step with a result.
pub Ensures_bind :
    {A : Type 0} (m : M A) (k : A → M (Unit {0})) (st : Adb) (P : A → Adb → Type 0)
    (Q : Adb → Type 0)
    → Returns (m st) P
    → ((a : A) (st' : Adb) → P a st' → Ensures (k a st') Q)
    → Ensures ((m >>= k) st) Q
Ensures_bind {A} m k st P Q h step = after (m st) h
  where
    after :
        (r : Option (A × Adb))
        → Returns r P
        → Ensures (elim r [ none ↦ none | some (a, st') ↦ k a st' ]) Q
    after none g = g
    after (some (a, st')) g = step a st' g

pub Ensures_load :
    (a : ℕ) (s : Socket) (k : Socket → M (Unit {0})) (st : Adb) (Q : Adb → Type 0)
    → st.heap a ≡ some s
    → Ensures (k s st) Q
    → Ensures ((load a >>= k) st) Q
Ensures_load a s k st Q h g = rw (h, ◌>>=◌) g

pub Ensures_load_transport :
    (t : ℕ) (r : Transport) (k : Transport → M (Unit {0})) (st : Adb) (Q : Adb → Type 0)
    → st.transports t ≡ some r
    → Ensures (k r st) Q
    → Ensures ((load_transport t >>= k) st) Q
Ensures_load_transport t r k st Q h g = rw (h, ◌>>=◌) g

pub Ensures_if :
    (b : Bool) (m k : M (Unit {0})) (st : Adb) (Q : Adb → Type 0)
    → (b ≡ true → Ensures (m st) Q)
    → (b ≡ false → Ensures (k st) Q)
    → Ensures ((if b then m else k) st) Q
Ensures_if true m k st Q h g = h refl
Ensures_if false m k st Q h g = g refl

-- A step that changes nothing, before a step.
pub Ensures_read :
    {A : Type 0} (m : M A) (k : A → M (Unit {0})) (st : Adb) (P : A → Type 0) (Q : Adb → Type 0)
    → Returns (m st) (λ a st'. (st' ≡ st) × P a)
    → ((a : A) → P a → Ensures (k a st) Q)
    → Ensures ((m >>= k) st) Q
Ensures_read m k st P Q h step =
    Ensures_bind m k st (λ a st'. (st' ≡ st) × P a) Q h
      λ a st' (e, p). subst (λ x. Ensures (k a x) Q) (sym e) (step a p)

-- The same before a step with a result.
pub Returns_read :
    {A B : Type 0} (m : M A) (k : A → M B) (st : Adb) (P : A → Type 0) (Q : B → Adb → Type 0)
    → Returns (m st) (λ a st'. (st' ≡ st) × P a)
    → ((a : A) → P a → Returns (k a st) Q)
    → Returns ((m >>= k) st) Q
Returns_read {A} {B} m k st P Q h step = after (m st) h
  where
    after :
        (r : Option (A × Adb))
        → Returns r (λ a st'. (st' ≡ st) × P a)
        → Returns (elim r [ none ↦ none | some (a, st') ↦ k a st' ]) Q
    after none g = g
    after (some (a, st')) (e, p) = subst (λ x. Returns (k a x) Q) (sym e) (step a p)

-- The event stands in the list.
pub Has : Event → List Event → Type 0
Has e [] = ⊥
Has e (x ∷ l) = (x ≡ e) ⊎ Has e l

-- Every event of the first list stands in the second one.
pub Grows : List Event → List Event → Type 0
Grows l m = (e : Event) → Has e l → Has e m

pub Grows-refl : (l : List Event) → Grows l l
unfolding Grows
Grows-refl l e h = h

pub Grows-trans : (l m n : List Event) → Grows l m → Grows m n → Grows l n
unfolding Grows
Grows-trans l m n f g e h = g e (f e h)

pub Grows-apply : (l m : List Event) (e : Event) → Has e l → Grows l m → Has e m
unfolding Grows
Grows-apply l m e h f = f e h

pub Grows-append : (l m : List Event) → Grows l (l ++ m)
unfolding Grows Has
Grows-append l m e h = in_front l m e h
  where
    in_front : (l m : List Event) (e : Event) → Has e l → Has e (l ++ m)
    in_front [] m e h = absurd h
    in_front (x ∷ l) m e (inl same) = inl same
    in_front (x ∷ l) m e (inr later) = inr (in_front l m e later)

pub Has-snoc : (l : List Event) (e : Event) → Has e (l ++ e ∷ [])
unfolding Has
Has-snoc [] e = inl refl
Has-snoc (x ∷ l) e = inr (Has-snoc l e)

-- ===== src/Listeners/Names.antt =====
-- The listener list of adb.c by the names and the addresses on it.
use pax_linux.Base.{
  ℕ, ◌≡◌, refl, sym, ◌∙◌, ap, Bool, true, false, ◌||◌, List, [], ◌∷◌, ◌++◌, Option, none, some,
  some_inj, none-ne-some, arith, ◌==◌, ==_iff, ==_refl, Bool-cases, inl, inr, str_eq,
}
use pax_linux.Listeners.{Listener, find_named, unlink, set_listener, is_special}

pub str_eq→eq : (s t : List ℕ) → str_eq s t ≡ true → s ≡ t
str_eq→eq [] [] h = refl
str_eq→eq [] (y ∷ ys) h = cc
str_eq→eq (x ∷ xs) [] h = cc
str_eq→eq (x ∷ xs) (y ∷ ys) h =
    let e : x ≡ y = ground arith in
    ap (λ c. c ∷ xs) e ∙ ap (λ r. y ∷ r) (str_eq→eq xs ys (ground arith))

pub str_eq_refl : (s : List ℕ) → str_eq s s ≡ true
str_eq_refl [] = refl
str_eq_refl (x ∷ xs) = rw (==_refl x) (str_eq_refl xs)

-- The list holds a listener with the name, or with the address.
abbrev pub named : List ℕ → List Listener → Bool
named x [] = false
named x (l ∷ rest) = str_eq x l.local_name || named x rest

abbrev pub addressed : ℕ → List Listener → Bool
addressed a [] = false
addressed a (l ∷ rest) = (l.address == a) || addressed a rest

-- Only a listener like that of `*smartsocket*` has no transport.
abbrev pub IsOwned : Listener → Type 0
IsOwned l = is_special l.connect_to ≡ false → (x : ℕ) × (l.transport ≡ some x)

-- No name and no address stands twice.
abbrev pub IsApart : List Listener → Type 0
IsApart [] = Unit
IsApart (l ∷ rest) =
    (named l.local_name rest ≡ false)
    × (addressed l.address rest ≡ false)
    × IsOwned l
    × IsApart rest

pub find-named : (x : List ℕ) (ls : List Listener) → named x ls ≡ false → find_named x ls ≡ none
unfolding find_named
find-named x [] h = refl
find-named x (l ∷ rest) h =
    rw (left_off (str_eq x l.local_name) (named x rest) h) (find-named x rest (ground arith))
  where
    left_off : (b c : Bool) → (b || c) ≡ false → b ≡ false
    left_off b c e = ground arith

pub named-find : (x : List ℕ) (ls : List Listener) → find_named x ls ≡ none → named x ls ≡ false
unfolding find_named
named-find x [] h = refl
named-find x (l ∷ rest) h = elim (Bool-cases (str_eq x l.local_name)) [
  | inl same ↦ absurd (none-ne-some (sym (rw same at h)))
  | inr other ↦ rw other (named-find x rest (rw other at h))
]

-- What is found has the name and stands on the list.
pub found_named :
    (x : List ℕ) (ls : List Listener) (l : Listener)
    → find_named x ls ≡ some l
    → (x ≡ l.local_name) × (addressed l.address ls ≡ true)
unfolding find_named
found_named x [] l h = absurd (none-ne-some h)
found_named x (y ∷ rest) l h = elim (Bool-cases (str_eq x y.local_name)) [
  | inl same ↦
      let e : y ≡ l = some_inj (rw same at h) in
      (
        str_eq→eq x y.local_name same ∙ ap (λ (z : Listener). z.local_name) e,
        ground (arith, ap (λ (z : Listener). z.address) e),
      )
  | inr other ↦ let (n, a) = found_named x rest l (rw other at h) in (n, ground arith)
]

abbrev pub or_else {ℓ} : {A : Type ℓ} → Option A → Option A → Option A
or_else none o = o
or_else (some a) o = some a

pub find-append :
    (x : List ℕ) (us vs : List Listener)
    → find_named x (us ++ vs) ≡ or_else (find_named x us) (find_named x vs)
unfolding find_named
find-append x [] vs = refl
find-append x (u ∷ us) vs = elim (Bool-cases (str_eq x u.local_name)) [
  | inl same ↦ rw same refl
  | inr other ↦ rw other (find-append x us vs)
]

pub named-append :
    (x : List ℕ) (us vs : List Listener) → named x (us ++ vs) ≡ (named x us || named x vs)
named-append x [] vs = refl
named-append x (u ∷ us) vs = ground (arith, named-append x us vs)

pub addressed-append :
    (a : ℕ) (us vs : List Listener) → addressed a (us ++ vs) ≡ (addressed a us || addressed a vs)
addressed-append a [] vs = refl
addressed-append a (u ∷ us) vs = ground (arith, addressed-append a us vs)

-- Where the listener that is found stands.
pub record Place (wanted : List ℕ) (l : Listener) (ls : List Listener) : Type 0 where
  pub before : List Listener
  pub after : List Listener
  pub cut : ls ≡ before ++ l ∷ after
  pub name : wanted ≡ l.local_name
  pub not_before : named l.local_name before ≡ false

pub find-Place :
    (name : List ℕ) (ls : List Listener) (l : Listener)
    → find_named name ls ≡ some l
    → Place name l ls
unfolding find_named
find-Place name [] l h = absurd (none-ne-some h)
find-Place name (y ∷ rest) l h = elim (Bool-cases (str_eq name y.local_name)) [
  | inl same ↦
      let e : y ≡ l = some_inj (rw same at h) in
      record {
        before = [];
        after = rest;
        cut = ap (λ z. z ∷ rest) e;
        name = str_eq→eq name y.local_name same ∙ ap (λ (z : Listener). z.local_name) e;
        not_before = refl;
      }
  | inr other ↦
      let p = find-Place name rest l (rw other at h) in
      record {
        before = y ∷ p.before;
        after = p.after;
        cut = ap (λ r. y ∷ r) p.cut;
        name = p.name;
        not_before = rw (sym (ap (λ n. str_eq n y.local_name) p.name) ∙ other) p.not_before;
      }
]

-- What surrounds a listener has neither its name nor its address.
pub record Around (us : List Listener) (l : Listener) (vs : List Listener) : Type 0 where
  pub name_before : named l.local_name us ≡ false
  pub name_after : named l.local_name vs ≡ false
  pub address_before : addressed l.address us ≡ false
  pub address_after : addressed l.address vs ≡ false
  pub owned : IsOwned l

str_eq_comm : (s t : List ℕ) → str_eq s t ≡ false → str_eq t s ≡ false
str_eq_comm s t h = elim (Bool-cases (str_eq t s)) [
  | inl same ↦ absurd (cc (h, ap (str_eq s) (str_eq→eq t s same), str_eq_refl s))
  | inr other ↦ other
]

pub IsApart-Around :
    (us : List Listener) (l : Listener) (vs : List Listener)
    → IsApart (us ++ l ∷ vs)
    → Around us l vs
IsApart-Around [] l vs (n, a, o, d) = record {
  name_before = refl;
  name_after = n;
  address_before = refl;
  address_after = a;
  owned = o;
}
IsApart-Around (u ∷ us) l vs (n, a, o, d) =
    let r = IsApart-Around us l vs d in
    record {
      name_before = ground (
        arith,
        r.name_before,
        str_eq_comm u.local_name l.local_name
            (ground (arith, n, named-append u.local_name us (l ∷ vs))),
      );
      name_after = r.name_after;
      address_before = ground (arith, r.address_before, a, addressed-append u.address us (l ∷ vs));
      address_after = r.address_after;
      owned = r.owned;
    }

pub drop-IsApart :
    (us : List Listener) (l : Listener) (vs : List Listener)
    → IsApart (us ++ l ∷ vs)
    → IsApart (us ++ vs)
drop-IsApart [] l vs (n, a, o, d) = d
drop-IsApart (u ∷ us) l vs (n, a, o, d) = (
  ground (arith, n, named-append u.local_name us (l ∷ vs), named-append u.local_name us vs),
  ground (arith, a, addressed-append u.address us (l ∷ vs), addressed-append u.address us vs),
  o,
  drop-IsApart us l vs d,
)

-- Another listener with the same name and the same address.
pub swap-IsApart :
    (us : List Listener) (l k : Listener) (vs : List Listener)
    → k.local_name ≡ l.local_name
    → k.address ≡ l.address
    → IsOwned k
    → IsApart (us ++ l ∷ vs)
    → IsApart (us ++ k ∷ vs)
swap-IsApart [] l k vs e f ok (n, a, o, d) =
    (ap (λ x. named x vs) e ∙ n, ap (λ x. addressed x vs) f ∙ a, ok, d)
swap-IsApart (u ∷ us) l k vs e f ok (n, a, o, d) = (
  ground (
    arith,
    n,
    ap (str_eq u.local_name) e,
    named-append u.local_name us (l ∷ vs),
    named-append u.local_name us (k ∷ vs),
  ),
  ground
      (arith, a, f, addressed-append u.address us (l ∷ vs), addressed-append u.address us (k ∷ vs)),
  o,
  swap-IsApart us l k vs e f ok d,
)

pub snoc-IsApart :
    (us : List Listener) (l : Listener)
    → named l.local_name us ≡ false
    → addressed l.address us ≡ false
    → IsOwned l
    → IsApart us
    → IsApart (us ++ l ∷ [])
snoc-IsApart [] l n a o d = (refl, refl, o, tt)
snoc-IsApart (u ∷ us) l n a o (n', a', o', d) = (
  ground (
    arith,
    n,
    n',
    str_eq_comm l.local_name u.local_name (ground (arith, n)),
    named-append u.local_name us (l ∷ []),
  ),
  ground (arith, a, a', addressed-append u.address us (l ∷ [])),
  o',
  snoc-IsApart us l (ground (arith, n)) (ground (arith, a)) o d,
)

unlink_off : (a : ℕ) (ls : List Listener) → addressed a ls ≡ false → unlink a ls ≡ ls
unfolding unlink
unlink_off a [] h = refl
unlink_off a (l ∷ rest) h =
    rw (left_off (l.address == a) (addressed a rest) h)
      (ap (λ r. l ∷ r) (unlink_off a rest (ground arith)))
  where
    left_off : (b c : Bool) → (b || c) ≡ false → b ≡ false
    left_off b c e = ground arith

pub unlink_middle :
    (us : List Listener) (l : Listener) (vs : List Listener)
    → addressed l.address us ≡ false
    → addressed l.address vs ≡ false
    → unlink l.address (us ++ l ∷ vs) ≡ us ++ vs
unfolding unlink
unlink_middle [] l vs a b = rw (==_refl l.address) (unlink_off l.address vs b)
unlink_middle (u ∷ us) l vs a b = elim (Bool-cases (u.address == l.address)) [
  | inl same ↦ absurd (ground arith)
  | inr other ↦ rw other (ap (λ r. u ∷ r) (unlink_middle us l vs (ground arith) b))
]

set_listener_off :
    (k : Listener) (ls : List Listener) → addressed k.address ls ≡ false → set_listener k ls ≡ ls
unfolding set_listener
set_listener_off k [] h = refl
set_listener_off k (l ∷ rest) h =
    rw (left_off (l.address == k.address) (addressed k.address rest) h)
      (ap (λ r. l ∷ r) (set_listener_off k rest (ground arith)))
  where
    left_off : (b c : Bool) → (b || c) ≡ false → b ≡ false
    left_off b c e = ground arith

pub set_listener_middle :
    (us : List Listener) (l k : Listener) (vs : List Listener)
    → k.address ≡ l.address
    → addressed l.address us ≡ false
    → addressed l.address vs ≡ false
    → set_listener k (us ++ l ∷ vs) ≡ us ++ k ∷ vs
unfolding set_listener
set_listener_middle [] l k vs e a b =
    rw ((==_iff l.address k.address).1 (sym e))
      (ap (λ r. k ∷ r) (set_listener_off k vs (ap (λ x. addressed x vs) e ∙ b)))
set_listener_middle (u ∷ us) l k vs e a b = elim (Bool-cases (u.address == k.address)) [
  | inl same ↦ absurd (ground arith)
  | inr other ↦ rw other (ap (λ r. u ∷ r) (set_listener_middle us l k vs e (ground arith) b))
]

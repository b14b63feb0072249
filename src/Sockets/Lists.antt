-- ===== src/Sockets/Lists.antt =====
-- The socket lists of sockets.c as lists of addresses.
use pax_linux.Base.{
  ℕ, ◌≡◌, refl, Bool, true, false, not, ◌&&◌, ◌||◌, List, [], ◌∷◌, ◌++◌, arith, ◌==◌, if◌then◌else◌,
}

-- Unlinking a socket takes its address out of the list that holds it.
abbrev pub remove : ℕ → List ℕ → List ℕ
remove a [] = []
remove a (x ∷ xs) = let rest = remove a xs in if x == a then rest else x ∷ rest

abbrev pub is_nil {ℓ} : {A : Type ℓ} → List A → Bool
is_nil [] = true
is_nil (x ∷ xs) = false

-- The address stands in the list.
abbrev pub on : ℕ → List ℕ → Bool
on a [] = false
on a (x ∷ xs) = (x == a) || on a xs

pub on-remove : (x a : ℕ) (l : List ℕ) → on x (remove a l) ≡ (not (a == x) && on x l)
on-remove x a [] = ground arith
on-remove x a (y ∷ l) = ground (arith, on-remove x a l)

pub on-append : (x : ℕ) (l m : List ℕ) → on x (l ++ m) ≡ (on x l || on x m)
on-append x [] m = refl
on-append x (y ∷ l) m = ground (arith, on-append x l m)

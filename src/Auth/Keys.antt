-- ===== src/Auth/Keys.antt =====
-- The keys that `adb_auth_nextkey` of adb_auth_host.c offers, one call after another.
use mathlib.Core.Path.{subst}
use pax_linux.Base.{
  ℕ, zero, suc, ◌≡◌, refl, ap, sym, false, List, [], ◌∷◌, ◌++◌, Option, none, some, length, ◌==◌,
  arith, append_assoc,
}
use pax_linux.Auth.{first_key, key_after, adb_auth_nextkey}
use pax_linux.Sockets.Lists.{on}

-- The list nodes are different addresses.
abbrev pub AreDistinct : List ℕ → Type 0
AreDistinct [] = Unit
AreDistinct (k ∷ keys) = (on k keys ≡ false) × AreDistinct keys

-- The keys that up to `n` AUTH tokens in a row are answered with, each call after the last one.
pub offered : ℕ → List ℕ → Option ℕ → List ℕ
unfolding adb_auth_nextkey
offered zero keys current = []
offered (suc n) keys current = elim (adb_auth_nextkey keys current) [
  | none ↦ []
  | some k ↦ k ∷ offered n keys (some k)
]

key_after-append :
    (before : List ℕ) (k : ℕ) (rest : List ℕ)
    → AreDistinct (before ++ k ∷ rest)
    → key_after k (before ++ k ∷ rest) ≡ first_key rest
unfolding key_after
key_after-append [] k rest d = ground arith
key_after-append (b ∷ before) k rest d =
    ground (arith, key_after-append before k rest d.1, apart before d.0)
  where
    apart : (xs : List ℕ) → on b (xs ++ k ∷ rest) ≡ false → (b == k) ≡ false
    apart [] h = ground arith
    apart (x ∷ xs) h = ground (arith, apart xs)

offered-after :
    (before : List ℕ) (k : ℕ) (rest : List ℕ)
    → AreDistinct (before ++ k ∷ rest)
    → offered (suc (length rest)) (before ++ k ∷ rest) (some k) ≡ rest
unfolding offered adb_auth_nextkey first_key
offered-after before k [] d = rw (offered, adb_auth_nextkey, key_after-append before k [] d) refl
offered-after before k (r ∷ rest) d =
    let e = append_assoc before (k ∷ []) (r ∷ rest) in
    rw (offered, adb_auth_nextkey, key_after-append before k (r ∷ rest) d)
      (ap (λ t. r ∷ t)
        (subst (λ keys. offered (suc (length rest)) keys (some r) ≡ rest) e
          (offered-after (before ++ k ∷ []) r rest (subst AreDistinct (sym e) d))))

-- Starting from no key, the tokens of a device are answered with every private key once, in the
-- order of the list, and then with none (the public key is sent): the search ends.
pub offered-all : (keys : List ℕ) → AreDistinct keys → offered (suc (length keys)) keys none ≡ keys
unfolding offered adb_auth_nextkey first_key
offered-all [] d = refl
offered-all (k ∷ keys) d = ap (λ t. k ∷ t) (offered-after [] k keys d)

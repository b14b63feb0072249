-- ===== src/Sockets/Dropping.antt =====
-- `close_all_sockets` of sockets.c and its search.
pub mod Emptying
use mathlib.Core.Bool.{false≢true}
use mathlib.Core.Path.{subst}
use pax_linux.Base.{
  ℕ, zero, suc, ◌+◌, ◌<◌, ◌≤◌, ◌≡◌, ◌≢◌, ◌⊎◌, inl, inr, refl, sym, ◌∙◌, ap, Bool, true, false,
  Bool-cases, Option-cases, List, [], ◌∷◌, length, Option, none, some, ◌==◌, ==_iff, ◌||◌,
  if◌then◌else◌, arith, none-ne-some, some_inj,
}
use pax_linux.Adb.{Socket, Adb, M, ◌>>=◌, ◌>>◌, pure, load}
use pax_linux.Adb.Steps.{Returns, Returns_read, Ensures, Ensures_read, Ensures_then, Ensures_map}
use pax_linux.Sockets.{local_socket_close_locked, close_call}
use pax_linux.Sockets.Lists.{on}
use pax_linux.Sockets.Retire.{IsSound, Settled, close_socket-IsSound}
use pax_linux.Sockets.Retire.Pair.{local_call}

unfoldable pub is_of : Option ℕ → ℕ → Bool
is_of none t = false
is_of (some u) t = u == t

-- The test of `close_all_sockets`.
unfoldable pub of_transport : ℕ → Socket → M Bool
unfolding is_of
of_transport t s =
    if is_of s.transport t
    then pure true
    else elim s.peer [ none ↦ pure false | some b ↦ load b >>= λ p. pure (is_of p.transport t) ]

-- The first socket of the list for which it holds.
unfoldable pub next_of : ℕ → List ℕ → M (Option ℕ)
next_of t [] = pure none
next_of t (a ∷ rest) =
    let go_on = next_of t rest in
    load a >>= λ s. of_transport t s >>= λ b. if b then pure (some a) else go_on

-- After each close the search begins again. The fuel bounds how often.
unfoldable pub close_loop : ℕ → ℕ → M (Unit {0})
close_loop t zero st = none
close_loop t (suc fuel) st =
    (next_of t st.local_list >>= λ o. elim o [
      | none ↦ pure tt
      | some a ↦ local_socket_close_locked (close_call 3) a >> close_loop t fuel
    ])
      st

unfoldable pub close_all_sockets : ℕ → M (Unit {0})
unfolding close_loop
close_all_sockets t st = close_loop t (suc (length st.local_list)) st

-- The socket or its peer is on the transport.
abbrev pub IsOf : Adb → ℕ → Socket → Type 0
IsOf st t s =
    (s.transport ≡ some t)
    ⊎ ((b : ℕ) × (p : Socket) × (s.peer ≡ some b) × (st.heap b ≡ some p) × (p.transport ≡ some t))

abbrev Decides : Type 0 → Bool → Type 0
Decides P b = (b ≡ true → P) × (b ≡ false → ¬ P)

is_of-true : (o : Option ℕ) (t : ℕ) → is_of o t ≡ true → o ≡ some t
unfolding is_of
is_of-true o t h = ground arith

is_of-false : (o : Option ℕ) (t : ℕ) → is_of o t ≡ false → o ≢ some t
unfolding is_of
is_of-false o t h = ground arith

load-same :
    (a : ℕ) (s : Socket) (st : Adb)
    → st.heap a ≡ some s
    → Returns (load a st) (λ r st'. (st' ≡ st) × (r ≡ s))
load-same a s st h = rw (Returns, h) (refl, refl)

of_transport-IsOf :
    (t a : ℕ) (s : Socket) (st : Adb)
    → IsSound st
    → st.heap a ≡ some s
    → Returns (of_transport t s st) (λ b st'. (st' ≡ st) × Decides (IsOf st t s) b)
unfolding of_transport
of_transport-IsOf t a s st v h = elim (Bool-cases (is_of s.transport t)) [
  | inl own ↦
      rw own (refl, (λ _. inl (is_of-true s.transport t own), λ k. absurd (false≢true (sym k))))
  | inr other ↦ elim (Option-cases s.peer) [
    | inl alone ↦
        rw (other, alone)
          (
            refl,
            (
              λ k. absurd (false≢true k),
              λ k of. elim of [
                | inl e ↦ is_of-false s.transport t other e
                | inr (b, p, to, hp, e) ↦ none-ne-some to
              ],
            ),
          )
    | inr (b, to) ↦
        let (p, hp, back, ne) = v.peers a b s h to in
        rw (other, to)
          (rw (hp, ◌>>=◌)
            (
              refl,
              (
                λ k. inr (b, p, refl, hp, is_of-true p.transport t k),
                λ k of. elim of [
                  | inl e ↦ is_of-false s.transport t other e
                  | inr (c, q, toc, hq, e) ↦
                      let same : q ≡ p = some_inj (sym hq ∙ ap st.heap (some_inj (sym toc)) ∙ hp) in
                      is_of-false p.transport t k (ap (λ (x : Socket). x.transport) (sym same) ∙ e)
                ],
              ),
            ))
  ]
]

-- What the search has found.
abbrev NextOf : ℕ → List ℕ → Adb → Option ℕ → Type 0
NextOf t list st none = (x : ℕ) (s : Socket) → on x list ≡ true → st.heap x ≡ some s → ¬ IsOf st t s
NextOf t list st (some a) = (s : Socket) × (st.heap a ≡ some s) × (on a list ≡ true) × IsOf st t s

on_head : (a : ℕ) (rest : List ℕ) → on a (a ∷ rest) ≡ true
on_head a rest = ground arith

later :
    (t a : ℕ) (rest : List ℕ) (st : Adb) (s : Socket) (o : Option ℕ)
    → st.heap a ≡ some s
    → ¬ IsOf st t s
    → NextOf t rest st o
    → NextOf t (a ∷ rest) st o
later t a rest st s none h not_of n = λ x r ox hx of. elim (Bool-cases (a == x)) [
  | inl same ↦
      let e : s ≡ r = some_inj (sym h ∙ ap st.heap ((==_iff a x).0 same) ∙ hx) in
      not_of (subst (IsOf st t) (sym e) of)
  | inr other ↦ n x r (rw other at ox) hx of
]
later t a rest st s (some x) h not_of (r, hr, ox, of) = (r, hr, ground arith, of)

decided :
    (t a : ℕ) (rest : List ℕ) (st : Adb) (s : Socket)
    → st.heap a ≡ some s
    → (b : Bool) → Decides (IsOf st t s) b
    → Returns (next_of t rest st) (λ o st'. (st' ≡ st) × NextOf t rest st o)
    → Returns
        ((if b then pure (some a) else next_of t rest) st)
        (λ o st'. (st' ≡ st) × NextOf t (a ∷ rest) st o)
decided t a rest st s h true d ih = (refl, (s, h, on_head a rest, d.0 refl))
decided t a rest st s h false d ih = go (next_of t rest st) ih
  where
    go :
        (r : Option (Option ℕ × Adb))
        → Returns r (λ o st'. (st' ≡ st) × NextOf t rest st o)
        → Returns r (λ o st'. (st' ≡ st) × NextOf t (a ∷ rest) st o)
    go none g = g
    go (some (o, st')) (e, n) = (e, later t a rest st s o h (d.1 refl) n)

next_of-NextOf :
    (t : ℕ) (list : List ℕ) (st : Adb)
    → IsSound st
    → ((x : ℕ) → on x list ≡ true → (s : Socket) × (st.heap x ≡ some s))
    → Returns (next_of t list st) (λ o st'. (st' ≡ st) × NextOf t list st o)
unfolding next_of
next_of-NextOf t [] st v live = (refl, λ x s o h of. false≢true o)
next_of-NextOf t (a ∷ rest) st v live =
    let (s, hs) = live a (ground arith) in
    let ih = next_of-NextOf t rest st v (λ x o. live x (ground arith)) in
    let Goal = NextOf t (a ∷ rest) st in
    Returns_read (load a) _ st (λ r. r ≡ s) (λ o st'. (st' ≡ st) × Goal o) (load-same a s st hs)
      λ r e.
        Returns_read (of_transport t r) _ st (Decides (IsOf st t r)) (λ o st'. (st' ≡ st) × Goal o)
          (of_transport-IsOf t a r st v (hs ∙ ap some (sym e)))
          λ b d. decided t a rest st r (hs ∙ ap some (sym e)) b d ih

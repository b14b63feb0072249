-- ===== src/Sockets/Dropping/Emptying.antt =====
-- The loop of `close_all_sockets` of sockets.c: each close takes a socket off the list.
use mathlib.Core.Path.{subst}
use pax_linux.Base.{
  ℕ, zero, suc, ◌<◌, ◌≤◌, ◌≡◌, ◌≢◌, inl, inr, refl, sym, ◌∙◌, ap, true, false, Bool-cases, List, [],
  ◌∷◌, length, Option, none, some, ◌==◌, if◌then◌else◌, arith, some_inj,
}
use pax_linux.Adb.{Socket, Adb, M, ◌>>◌, pure, local_close}
use pax_linux.Adb.Steps.{Ensures, Ensures_read, Ensures_then, Ensures_map}
use pax_linux.Sockets.{close_socket, close_call, local_socket_close_locked}
use pax_linux.Sockets.Lists.{on}
use pax_linux.Sockets.Dropping.{
  IsOf, NextOf, next_of-NextOf, next_of, close_loop, close_all_sockets,
}
use pax_linux.Sockets.Retire.{IsSound, Settled, close_socket-IsSound}
use pax_linux.Sockets.Retire.Pair.{local_call}

-- How many entries of a fixed list still stand in the list of sockets.
count : List ℕ → List ℕ → ℕ
count list [] = 0
count list (x ∷ xs) = let rest = count list xs in if on x list then suc rest else rest

count-length : (list all : List ℕ) → count list all ≤ length all
unfolding count
count-length list [] = omega arith
count-length list (x ∷ xs) = ground (arith, count-length list xs)

count-le :
    (few many all : List ℕ)
    → ((x : ℕ) → on x few ≡ true → on x many ≡ true)
    → count few all ≤ count many all
unfolding count
count-le few many [] sub = omega arith
count-le few many (x ∷ xs) sub = elim (Bool-cases (on x few)) [
  | inl there ↦ rw (there, sub x there) (omega (arith, count-le few many xs sub))
  | inr away ↦ rw away (ground (arith, count-le few many xs sub))
]

-- An entry that is left out makes it less.
count-lt :
    (a : ℕ) (few many all : List ℕ)
    → ((x : ℕ) → on x few ≡ true → on x many ≡ true)
    → on a few ≡ false
    → on a many ≡ true
    → on a all ≡ true
    → count few all < count many all
unfolding count
count-lt a few many [] sub out old listed = absurd (ground arith)
count-lt a few many (x ∷ xs) sub out old listed = elim (Bool-cases (x == a)) [
  | inl same ↦
      let e : a ≡ x = ground arith in
      rw (subst (λ y. on y few ≡ false) e out, subst (λ y. on y many ≡ true) e old)
        (omega (arith, count-le few many xs sub))
  | inr other ↦
      let ih = count-lt a few many xs sub out old (ground arith) in
      elim (Bool-cases (on x few)) [
        | inl there ↦ rw (there, sub x there) (omega (arith, ih))
        | inr away ↦ rw away (ground (arith, ih))
      ]
]

-- No socket of the list waits for the answer to its opening: each is closed by
-- `local_socket_close`.
abbrev pub ArePlain : Adb → Type 0
ArePlain st =
    (x : ℕ) (s : Socket) → on x st.local_list ≡ true → st.heap x ≡ some s → s.close ≡ local_close

-- What `close_all_sockets` has left.
pub record Dropped (t : ℕ) (st st' : Adb) : Type 0 where
  pub sound : IsSound st'
  pub gone :
      (x : ℕ) (s : Socket) → on x st'.local_list ≡ true → st'.heap x ≡ some s → ¬ IsOf st' t s
  pub kept : (x : ℕ) (s : Socket) → st.heap x ≡ some s → ¬ IsOf st t s → st'.heap x ≡ some s

-- The close of a socket of the transport.
module _ (t a : ℕ) (s : Socket) (st st' : Adb) (v : IsSound st) (ha : st.heap a ≡ some s)
    (of : IsOf st t s) (c : Settled a st st') where
  not_self : (x : ℕ) (r : Socket) → st.heap x ≡ some r → ¬ IsOf st t r → x ≢ a
  not_self x r h n xa = n (subst (IsOf st t) (some_inj (sym ha ∙ ap st.heap (sym xa) ∙ h)) of)

  not_peer : (x : ℕ) (r : Socket) → st.heap x ≡ some r → ¬ IsOf st t r → r.peer ≢ some a
  not_peer x r h n to =
      let (p, hp, back, ne) = v.peers x a r h to in
      let sp : s ≡ p = some_inj (sym ha ∙ hp) in
      elim of [
        | inl e ↦ n (inr (a, s, to, ha, e))
        | inr (b, q, tob, hb, e) ↦
            let bx : b ≡ x = some_inj (sym tob ∙ ap (λ (z : Socket). z.peer) sp ∙ back) in
            let qr : q ≡ r = some_inj (sym hb ∙ ap st.heap bx ∙ h) in
            n (inl (ap (λ (z : Socket). z.transport) (sym qr) ∙ e))
      ]

  others_kept : (x : ℕ) (r : Socket) → st.heap x ≡ some r → ¬ IsOf st t r → st'.heap x ≡ some r
  others_kept x r h n = c.kept x r h (not_self x r h n) (not_peer x r h n)

  others_stay : (x : ℕ) (r : Socket) → st.heap x ≡ some r → ¬ IsOf st t r → ¬ IsOf st' t r
  others_stay x r h n (inl e) = n (inl e)
  others_stay x r h n (inr (b, q, to, hq, e)) =
      let (p, hp, back, ne) = v.peers x b r h to in
      let left =
        c.kept b p hp (λ ba. not_peer x r h n (to ∙ ap some ba))
          (λ k. not_self x r h n (some_inj (sym back ∙ k))) in
      let same : q ≡ p = some_inj (sym hq ∙ left) in
      n (inr (b, p, to, hp, ap (λ (z : Socket). z.transport) (sym same) ∙ e))

  plain_still : ArePlain st → ArePlain st'
  plain_still pl x r o h =
      let (old, off) = c.listed x o in
      let (q, hq, linked, loc) = v.listed x old in
      let (xa, np) = off q hq loc linked in
      let same : q ≡ r = some_inj (sym (c.kept x q hq xa np) ∙ h) in
      ap (λ (z : Socket). z.close) (sym same) ∙ pl x q old hq

  taken_off : on a st'.local_list ≡ false
  taken_off = elim (Bool-cases (on a st'.local_list)) [
    | inl o ↦
        let (old, off) = c.listed a o in
        let (q, hq, linked, loc) = v.listed a old in absurd ((off q hq loc linked).0 refl)
    | inr o ↦ o
  ]

  Dropped-then : (st2 : Adb) → Dropped t st' st2 → Dropped t st st2
  Dropped-then st2 d = record {
    sound = d.sound;
    gone = d.gone;
    kept = λ x r h n. d.kept x r (others_kept x r h n) (others_stay x r h n);
  }

-- The states in which the loop has fuel enough.
record Fuelled (fuel : ℕ) (all : List ℕ) (st : Adb) : Type 0 where
  sound : IsSound st
  plain : ArePlain st
  among : (x : ℕ) → on x st.local_list ≡ true → on x all ≡ true
  enough : count st.local_list all < fuel

-- One round, over the rest of the loop.
round :
    (t fuel : ℕ) (all : List ℕ) (st : Adb)
    → Fuelled (suc fuel) all st
    → ((st' : Adb) → Fuelled fuel all st' → Ensures (close_loop t fuel st') (Dropped t st'))
    → (o : Option ℕ) → NextOf t st.local_list st o
    → Ensures
        (elim o as (λ x. M (Unit {0})) [
          | none ↦ pure tt
          | some a ↦ local_socket_close_locked (close_call 3) a >> close_loop t fuel
        ]
          st)
        (Dropped t st)
round t fuel all st f rest none n = record { sound = f.sound; gone = n; kept = λ x s h m. h }
round t fuel all st f rest (some a) (s, ha, oa, of) =
    let v = f.sound in
    let P = λ (st' : Adb). IsSound st' × Settled a st st' in
    Ensures_then (local_socket_close_locked (close_call 3) a) (close_loop t fuel) st P
      (Dropped t st)
      (subst (λ r. Ensures r P) (local_call 3 a s st ha (f.plain a s oa ha))
        (unfold close_socket in close_socket-IsSound a s st v ha))
      λ st' (v', c).
        Ensures_map (close_loop t fuel st') (Dropped t st') (Dropped t st)
          (rest st' (record {
            sound = v';
            plain = plain_still t a s st st' v ha of c f.plain;
            among = λ x o. f.among x (c.listed x o).0;
            enough = omega (
              arith,
              f.enough,
              count-lt a st'.local_list st.local_list all (λ x o. (c.listed x o).0)
                  (taken_off t a s st st' v ha of c) oa (f.among a oa),
            );
          }))
          (Dropped-then t a s st st' v ha of c)

close_loop-Dropped :
    (t fuel : ℕ) (all : List ℕ) (st : Adb)
    → Fuelled fuel all st
    → Ensures (close_loop t fuel st) (Dropped t st)
unfolding close_loop
close_loop-Dropped t zero all st f = absurd (omega (arith, f.enough))
close_loop-Dropped t (suc fuel) all st f =
    Ensures_read (next_of t st.local_list) _ st (NextOf t st.local_list st) (Dropped t st)
      (next_of-NextOf t st.local_list st f.sound
        (λ x o. let (s, hs, linked, loc) = f.sound.listed x o in (s, hs)))
      (round t fuel all st f (λ st' g. close_loop-Dropped t fuel all st' g))

-- In a sound state in which no listed socket waits for the answer to its opening,
-- `close_all_sockets` ends without a fault, whichever sockets its closes take off the list. The
-- state is sound again, no listed socket is left that is on the transport or has its peer there,
-- and every socket of which neither holds is unchanged.
pub close_all_sockets-Dropped :
    (t : ℕ) (st : Adb) → IsSound st → ArePlain st → Ensures (close_all_sockets t st) (Dropped t st)
unfolding close_all_sockets
close_all_sockets-Dropped t st v pl =
    close_loop-Dropped t (suc (length st.local_list)) st.local_list st (record {
      sound = v;
      plain = pl;
      among = λ x o. o;
      enough = omega (arith, count-length st.local_list st.local_list);
    })

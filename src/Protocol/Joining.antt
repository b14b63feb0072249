-- ===== src/Protocol/Joining.antt =====
-- New pairs of peers, as the OPEN and OKAY packets of adb.c make them.
use mathlib.Core.Path.{subst}
use native.Mathlib.Decide.{ℕ_discrete}
use pax_linux.Base.{
  ℕ, ◌≤◌, ◌<◌, ◌≡◌, ◌≢◌, ◌⊎◌, inl, inr, sym, ◌∙◌, ap, true, none, some, arith, none-ne-some,
  some_inj,
}
use pax_linux.Adb.{Adb, Socket}
use pax_linux.Sockets.Lists.{on}
use pax_linux.Sockets.Retire.{IsSound}
use pax_linux.Sockets.Retire.Alone.{online_at, HasTransport, Sends, IsLocal}
use pax_linux.Sockets.Retire.Pair.{IsThere-keep}

-- A new pair of peers joins a sound state: `b` is a fresh address, `a` is fresh or had no peer.
pub record Joined (a : ℕ) (la : Socket) (b : ℕ) (lb : Socket) (st st' : Adb) : Type 0 where
  pub heap_a : st'.heap a ≡ some la
  pub heap_b : st'.heap b ≡ some lb
  pub others : (x : ℕ) → x ≢ a → x ≢ b → st'.heap x ≡ st.heap x
  pub to : la.peer ≡ some b
  pub back : lb.peer ≡ some a
  pub distinct : a ≢ b
  pub lonely : (x : ℕ) (s : Socket) → st.heap x ≡ some s → s.peer ≢ some a
  pub fresh : st.heap b ≡ none
  pub senders_a : Sends la → HasTransport st la
  pub senders_b : Sends lb → HasTransport st lb
  pub listed : (x : ℕ) → on x st'.local_list ≡ true → (on x st.local_list ≡ true) ⊎ (x ≡ a)
  pub listed_a : on a st'.local_list ≡ true → (la.linked ≡ true) × IsLocal la
  pub below : st.next_address ≤ st'.next_address
  pub below_a : a < st'.next_address
  pub below_b : b < st'.next_address
  pub transports : (t : ℕ) → online_at st' t ≡ online_at st t

-- Each address is one of the two, or is as it was.
Joined-cases : {P : Type 0} (a b x : ℕ) → (x ≡ a → P) → (x ≡ b → P) → (x ≢ a → x ≢ b → P) → P
Joined-cases a b x ifa ifb other = elim (ℕ_discrete x a) [
  | yes e ↦ ifa e
  | no na ↦ elim (ℕ_discrete x b) [ yes e ↦ ifb e | no nb ↦ other na nb ]
]

pub Joined-IsSound :
    (a b : ℕ) (la lb : Socket) (st st' : Adb) → IsSound st → Joined a la b lb st st' → IsSound st'
Joined-IsSound a b la lb st st' v j = record {
  peers = λ x y s h to.
      Joined-cases a b x
        (λ xa.
          let same : la ≡ s = some_inj (sym j.heap_a ∙ ap st'.heap (sym xa) ∙ h) in
          let yb : b ≡ y = some_inj (sym j.to ∙ ap (λ (t : Socket). t.peer) same ∙ to) in
          (
            lb,
            ap st'.heap (sym yb) ∙ j.heap_b,
            j.back ∙ ap some (sym xa),
            λ e. j.distinct (sym xa ∙ e ∙ sym yb),
          ))
        (λ xb.
          let same : lb ≡ s = some_inj (sym j.heap_b ∙ ap st'.heap (sym xb) ∙ h) in
          let ya : a ≡ y = some_inj (sym j.back ∙ ap (λ (t : Socket). t.peer) same ∙ to) in
          (
            la,
            ap st'.heap (sym ya) ∙ j.heap_a,
            j.to ∙ ap some (sym xb),
            λ e. j.distinct (ya ∙ sym e ∙ xb),
          ))
        (λ xa xb.
          let old = sym (j.others x xa xb) ∙ h in
          let (q, hq, back, ne) = v.peers x y s old to in
          (
            q,
            j.others y (λ ya. j.lonely x s old (to ∙ ap some ya))
                  (λ yb. none-ne-some (sym j.fresh ∙ ap st.heap (sym yb) ∙ hq))
                ∙ hq,
            back,
            ne,
          ));
  senders = λ x s h k.
      Joined-cases a b x
        (λ xa. keep (some_inj (sym j.heap_a ∙ ap st'.heap (sym xa) ∙ h)) j.senders_a k)
        (λ xb. keep (some_inj (sym j.heap_b ∙ ap st'.heap (sym xb) ∙ h)) j.senders_b k)
        (λ xa xb.
          IsThere-keep s.transport st st' j.transports
            (v.senders x s (sym (j.others x xa xb) ∙ h) k));
  listed = λ x o.
      Joined-cases a b x
        (λ xa.
          let (lk, loc) = j.listed_a (ap (λ n. on n st'.local_list) (sym xa) ∙ o) in
          (la, ap st'.heap xa ∙ j.heap_a, lk, loc))
        (λ xb. elim (j.listed x o) [
          | inl old ↦
              let (s, hs, lk, loc) = v.listed x old in
              absurd (none-ne-some (sym j.fresh ∙ ap st.heap (sym xb) ∙ hs))
          | inr xa ↦ absurd (j.distinct (sym xa ∙ xb))
        ])
        (λ xa xb. elim (j.listed x o) [
          | inl old ↦ let (s, hs, lk, loc) = v.listed x old in (s, j.others x xa xb ∙ hs, lk, loc)
          | inr e ↦ absurd (xa e)
        ]);
  fresh = λ x h.
      Joined-cases a b x (λ xa. absurd (omega (arith, j.below_a)))
        (λ xb. absurd (omega (arith, j.below_b)))
        (λ xa xb. j.others x xa xb ∙ v.fresh x (omega (arith, j.below)));
}
  where
    keep : {s l : Socket} → l ≡ s → (Sends l → HasTransport st l) → Sends s → HasTransport st' s
    keep {s} e sends k =
        IsThere-keep s.transport st st' j.transports
          (subst (λ (x : Socket). Sends x → HasTransport st x) e sends k)

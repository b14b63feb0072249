-- ===== src/Sockets/Retire.antt =====
-- The close protocol of sockets.c: what the close of a socket does to it, to its peer and to the
-- socket list.
pub mod Alone
pub mod Pair
use mathlib.Core.Path.{subst}
use native.Mathlib.Decide.{ℕ_discrete}
use pax_linux.Base.{
  ℕ, suc, ◌≤◌, ◌≡◌, ◌≢◌, ◌⊎◌, inl, inr, sym, refl, ◌∙◌, ap, Bool, true, false, List, Option, none,
  some, Option-cases, none-ne-some, some_inj,
}
use pax_linux.Adb.{Socket, Adb, remote_close}
use pax_linux.Adb.Steps.{Ensures, Ensures_map}
use pax_linux.Sockets.{close_socket, close_call}
use pax_linux.Sockets.Lists.{on}
use pax_linux.Sockets.Retire.Alone.{
  Closed, retired, unlisted, online_at, HasTransport, Sends, IsThere, IsLocal, alone-Closed,
  retired-some, on_unlisted, hooks_at, lingering, unhooked, on-lingering, on-unhooked,
  on-unhooked_self, retired-lingering, lingering-unpaired,
}
use pax_linux.Sockets.Retire.Pair.{Tells, PairClosed, unpaired, pair-PairClosed, IsThere-keep}

-- The sockets hang together: peers are mutual and live, what sends packets has a transport, the
-- socket list holds live, linked local sockets, and nothing lives above the next address.
pub record IsSound (st : Adb) : Type 0 where
  pub peers :
      (a b : ℕ) (s : Socket)
      → st.heap a ≡ some s
      → s.peer ≡ some b
      → (p : Socket) × (st.heap b ≡ some p) × (p.peer ≡ some a) × (a ≢ b)
  pub senders : (a : ℕ) (s : Socket) → st.heap a ≡ some s → Sends s → HasTransport st s
  pub listed :
      (a : ℕ)
      → on a st.local_list ≡ true
      → (s : Socket) × (st.heap a ≡ some s) × (s.linked ≡ true) × IsLocal s
  pub fresh : (a : ℕ) → st.next_address ≤ a → st.heap a ≡ none

-- The socket at `x` is `a`, or its peer is `a`.
abbrev pub IsOfPair : ℕ → Socket → ℕ → Type 0
IsOfPair a s x = (x ≡ a) ⊎ (s.peer ≡ some a)

-- What the close of `a` has left: every other socket but its peer is untouched, with its place on
-- the closing list and among the disconnect functions of the transports; the two are retired, what
-- is left of them stands on the closing list, no disconnect function of theirs is left, a local
-- socket has sent CLSE with both ids where its peer is a remote one, and no entry of the socket list is new or points at one of the two.
pub record Settled (a : ℕ) (st st' : Adb) : Type 0 where
  pub each :
      (x : ℕ) (r : Socket)
      → st'.heap x ≡ some r
      → ((st.heap x ≡ some r) × (x ≢ a) × (r.peer ≢ some a))
        ⊎ ((s : Socket) × (st.heap x ≡ some s) × (retired (unpaired s) ≡ some r))
  pub kept :
      (x : ℕ) (s : Socket) → st.heap x ≡ some s → x ≢ a → s.peer ≢ some a → st'.heap x ≡ some s
  pub self : (s : Socket) → st.heap a ≡ some s → st'.heap a ≡ retired (unpaired s)
  pub listed :
      (x : ℕ)
      → on x st'.local_list ≡ true
      → (on x st.local_list ≡ true)
        × ((s : Socket)
            → st.heap x ≡ some s
            → IsLocal s
            → s.linked ≡ true
            → (x ≢ a) × (s.peer ≢ some a))
  pub waiting :
      (x : ℕ) (s : Socket)
      → st.heap x ≡ some s
      → x ≢ a
      → s.peer ≢ some a
      → (on x st'.closing_list ≡ on x st.closing_list)
        × ((t : ℕ) → on x (hooks_at st' t) ≡ on x (hooks_at st t))
  pub lingers :
      (x : ℕ) (s r : Socket)
      → st.heap x ≡ some s
      → IsOfPair a s x
      → st'.heap x ≡ some r
      → on x st'.closing_list ≡ true
  pub withdrawn :
      (x : ℕ) (s : Socket) (t : ℕ)
      → st.heap x ≡ some s
      → IsOfPair a s x
      → s.close ≡ remote_close
      → s.transport ≡ some t
      → on x (hooks_at st' t) ≡ false
  pub told :
      (s p : Socket) (b : ℕ)
      → st.heap a ≡ some s
      → s.peer ≡ some b
      → st.heap b ≡ some p
      → Tells s p st'
  pub transports : (t : ℕ) → online_at st' t ≡ online_at st t
  pub next_address : st'.next_address ≡ st.next_address

same_socket : (st : Adb) (x : ℕ) {s r : Socket} → st.heap x ≡ some s → st.heap x ≡ some r → s ≡ r
same_socket st x p q = some_inj (sym p ∙ q)

unpaired-none : (s : Socket) → s.peer ≡ none → unpaired s ≡ s
unpaired-none s p = ap (λ o. record s { peer = o }) (sym p)

IsLocal-unpaired : (p : Socket) → IsLocal p → IsLocal (unpaired p)
IsLocal-unpaired p l = record { close = l.close; ready = l.ready; enqueue = l.enqueue }

-- The only socket whose peer is `a` is the peer of `a`.
peer_of :
    (a x : ℕ) (s r : Socket) (st : Adb)
    → IsSound st
    → st.heap a ≡ some s
    → st.heap x ≡ some r
    → r.peer ≡ some a
    → s.peer ≡ some x
peer_of a x s r st v h e k =
    let (p, hp, back, ne) = v.peers x a r e k in
    ap (λ (t : Socket). t.peer) (same_socket st a h hp) ∙ back

-- The ends of the pair of `a`.
alone_pair :
    (a : ℕ) (s : Socket) (st : Adb)
    → IsSound st
    → st.heap a ≡ some s
    → s.peer ≡ none
    → (x : ℕ) (q : Socket) → st.heap x ≡ some q
    → IsOfPair a q x
    → x ≡ a
alone_pair a s st v h p x q e (inl xa) = xa
alone_pair a s st v h p x q e (inr k) = absurd (none-ne-some (sym p ∙ peer_of a x s q st v h e k))

pair_ends :
    (a b : ℕ) (s : Socket) (st : Adb)
    → IsSound st
    → st.heap a ≡ some s
    → s.peer ≡ some b
    → (x : ℕ) (q : Socket) → st.heap x ≡ some q
    → IsOfPair a q x
    → (x ≡ a) ⊎ (x ≡ b)
pair_ends a b s st v h to x q e (inl xa) = inl xa
pair_ends a b s st v h to x q e (inr k) = inr (some_inj (sym (peer_of a x s q st v h e k) ∙ to))

Closed-Settled :
    (a : ℕ) (s : Socket) (st st' : Adb)
    → IsSound st
    → st.heap a ≡ some s
    → s.peer ≡ none
    → Closed a s st st'
    → Settled a st st'
Closed-Settled a s st st' v h p c = record {
  each = λ x r e. elim (ℕ_discrete x a) [
    | yes xa ↦ inr (
      s,
      ap st.heap xa ∙ h,
      ap retired (unpaired-none s p) ∙ sym c.self ∙ ap st'.heap (sym xa) ∙ e,
    )
    | no xa ↦ inl (
      sym (c.others x xa) ∙ e,
      xa,
      λ k. none-ne-some (sym p ∙ peer_of a x s r st v h (sym (c.others x xa) ∙ e) k),
    )
  ];
  kept = λ x r e xa k. c.others x xa ∙ e;
  self = λ r e.
      c.self
      ∙ sym (ap retired (unpaired-none s p))
      ∙ ap (λ t. retired (unpaired t)) (same_socket st a h e);
  listed = λ x e.
      let (o, off) = on_unlisted x a s st.local_list (ap (on x) (sym c.local_list) ∙ e) in
      (
        o,
        λ r er loc lk. (
          λ xa.
              let sm = same_socket st x er (ap st.heap xa ∙ h) in
              off (subst IsLocal sm loc) (sym (ap (λ (t : Socket). t.linked) sm) ∙ lk) xa,
          λ k. none-ne-some (sym p ∙ peer_of a x s r st v h er k),
        ),
      );
  waiting = λ x r e xa k. (
    ap (on x) c.closing_list ∙ on-lingering x a s st.closing_list xa,
    λ t. ap (on x) (c.hooks t) ∙ on-unhooked x a s t (hooks_at st t) xa,
  );
  lingers = λ x q r e o k.
      let xa = alone_pair a s st v h p x q e o in
      ap (λ y. on y st'.closing_list) xa
      ∙ ap (on a) c.closing_list
      ∙ retired-lingering a s r st.closing_list (sym c.self ∙ ap st'.heap (sym xa) ∙ k);
  withdrawn = λ x q t e o cl tr.
      let xa = alone_pair a s st v h p x q e o in
      let sm = same_socket st x e (ap st.heap xa ∙ h) in
      ap (λ y. on y (hooks_at st' t)) xa
      ∙ ap (on a) (c.hooks t)
      ∙ on-unhooked_self a s t (hooks_at st t) (sym (ap (λ (y : Socket). y.close) sm) ∙ cl)
          (sym (ap (λ (y : Socket). y.transport) sm) ∙ tr);
  told = λ r q b e k eb.
      absurd (none-ne-some (sym p ∙ sym (ap (λ (y : Socket). y.peer) (same_socket st a e h)) ∙ k));
  transports = c.transports;
  next_address = c.next_address;
}

PairClosed-Settled :
    (a b : ℕ) (s p : Socket) (st st' : Adb)
    → IsSound st
    → st.heap a ≡ some s
    → st.heap b ≡ some p
    → s.peer ≡ some b
    → p.peer ≡ some a
    → b ≢ a
    → PairClosed a s b p st st'
    → Settled a st st'
PairClosed-Settled a b s p st st' v ha hb to back ba c = record {
  each = λ x r e. elim (ℕ_discrete x a) [
    | yes xa ↦ inr (s, ap st.heap xa ∙ ha, sym c.self ∙ ap st'.heap (sym xa) ∙ e)
    | no xa ↦ elim (ℕ_discrete x b) [
      | yes xb ↦ inr (p, ap st.heap xb ∙ hb, sym c.peer ∙ ap st'.heap (sym xb) ∙ e)
      | no xb ↦ inl (
        sym (c.others x xa xb) ∙ e,
        xa,
        λ k. xb (some_inj (sym (peer_of a x s r st v ha (sym (c.others x xa xb) ∙ e) k) ∙ to)),
      )
    ]
  ];
  kept = λ x r e xa k.
      c.others x xa
        (λ xb. k (ap (λ (t : Socket). t.peer) (same_socket st x e (ap st.heap xb ∙ hb)) ∙ back))
      ∙ e;
  self = λ r e. c.self ∙ ap (λ t. retired (unpaired t)) (same_socket st a ha e);
  listed = λ x e.
      let inner = unlisted b (unpaired p) st.local_list in
      let (o1, off1) = on_unlisted x a s inner (ap (on x) (sym c.local_list) ∙ e) in
      let (o2, off2) = on_unlisted x b (unpaired p) st.local_list o1 in
      (
        o2,
        λ r er loc lk. (
          λ xa.
              let sm = same_socket st x er (ap st.heap xa ∙ ha) in
              off1 (subst IsLocal sm loc) (sym (ap (λ (t : Socket). t.linked) sm) ∙ lk) xa,
          λ k.
              let xb : x ≡ b = some_inj (sym (peer_of a x s r st v ha er k) ∙ to) in
              let sm = same_socket st x er (ap st.heap xb ∙ hb) in
              off2 (IsLocal-unpaired p (subst IsLocal sm loc))
                (sym (ap (λ (t : Socket). t.linked) sm) ∙ lk) xb,
        ),
      );
  waiting = λ x r e xa k.
      let xb : x ≢ b =
        λ xb. k (ap (λ (t : Socket). t.peer) (same_socket st x e (ap st.heap xb ∙ hb)) ∙ back) in
      (
        ap (on x) c.closing_list
            ∙ on-lingering x a s (lingering b (unpaired p) st.closing_list) xa
            ∙ on-lingering x b (unpaired p) st.closing_list xb,
        λ t.
            ap (on x) (c.hooks t)
            ∙ on-unhooked x a s t (unhooked b (unpaired p) t (hooks_at st t)) xa
            ∙ on-unhooked x b (unpaired p) t (hooks_at st t) xb,
      );
  lingers = λ x q r e o k. elim (pair_ends a b s st v ha to x q e o) [
    | inl xa ↦
        ap (λ y. on y st'.closing_list) xa
        ∙ ap (on a) c.closing_list
        ∙ ap (on a) (sym (lingering-unpaired a s (lingering b (unpaired p) st.closing_list)))
        ∙ retired-lingering a (unpaired s) r (lingering b (unpaired p) st.closing_list)
            (sym c.self ∙ ap st'.heap (sym xa) ∙ k)
    | inr xb ↦
        ap (λ y. on y st'.closing_list) xb
        ∙ ap (on b) c.closing_list
        ∙ on-lingering b a s (lingering b (unpaired p) st.closing_list) ba
        ∙ retired-lingering b (unpaired p) r st.closing_list (sym c.peer ∙ ap st'.heap (sym xb) ∙ k)
  ];
  withdrawn = λ x q t e o cl tr. elim (pair_ends a b s st v ha to x q e o) [
    | inl xa ↦
        let sm = same_socket st x e (ap st.heap xa ∙ ha) in
        ap (λ y. on y (hooks_at st' t)) xa
        ∙ ap (on a) (c.hooks t)
        ∙ on-unhooked_self a s t (unhooked b (unpaired p) t (hooks_at st t))
            (sym (ap (λ (y : Socket). y.close) sm) ∙ cl)
            (sym (ap (λ (y : Socket). y.transport) sm) ∙ tr)
    | inr xb ↦
        let sm = same_socket st x e (ap st.heap xb ∙ hb) in
        ap (λ y. on y (hooks_at st' t)) xb
        ∙ ap (on b) (c.hooks t)
        ∙ on-unhooked b a s t (unhooked b (unpaired p) t (hooks_at st t)) ba
        ∙ on-unhooked_self b (unpaired p) t (hooks_at st t)
            (sym (ap (λ (y : Socket). y.close) sm) ∙ cl)
            (sym (ap (λ (y : Socket). y.transport) sm) ∙ tr)
  ];
  told = λ r q x e k eq.
      let sr = same_socket st a ha e in
      let xb : b ≡ x = some_inj (sym to ∙ ap (λ (y : Socket). y.peer) sr ∙ k) in
      let pq = same_socket st x (ap st.heap (sym xb) ∙ hb) eq in
      subst (λ z. Tells z q st') sr (subst (λ z. Tells s z st') pq c.told);
  transports = c.transports;
  next_address = c.next_address;
}

-- A sound state stays sound.
Settled-IsSound : (a : ℕ) (st st' : Adb) → IsSound st → Settled a st st' → IsSound st'
Settled-IsSound a st st' v t = record {
  peers = λ x y r e k. elim (t.each x r e) [
    | inl (old, xa, nb) ↦
        let (p, hp, back, ne) = v.peers x y r old k in
        (p, t.kept y p hp (λ ya. nb (k ∙ ap some ya)) (λ q. xa (some_inj (sym back ∙ q))), back, ne)
    | inr (s, old, ret) ↦ absurd (none-ne-some (sym (retired-some (unpaired s) r refl ret).0 ∙ k))
  ];
  senders = λ x r e k. elim (t.each x r e) [
    | inl (old, xa, nb) ↦ IsThere-keep r.transport st st' t.transports (v.senders x r old k)
    | inr (s, old, ret) ↦
        let (_, _, sends, same) = retired-some (unpaired s) r refl ret in
        subst (IsThere st') (sym same)
          (IsThere-keep s.transport st st' t.transports (v.senders x s old (sends k)))
  ];
  listed = λ x e.
      let (o, off) = t.listed x e in
      let (s, hs, lk, loc) = v.listed x o in
      let (xa, nb) = off s hs loc lk in (s, t.kept x s hs xa nb, lk, loc);
  fresh = λ x e.
      still_fresh x (v.fresh x (subst (λ n. n ≤ x) t.next_address e)) (Option-cases (st'.heap x));
}
  where
    still_fresh :
        (x : ℕ)
        → st.heap x ≡ none
        → (st'.heap x ≡ none) ⊎ ((r : Socket) × (st'.heap x ≡ some r))
        → st'.heap x ≡ none
    still_fresh x h (inl e) = e
    still_fresh x h (inr (r, e)) = elim (t.each x r e) [
      | inl (old, xa, nb) ↦ absurd (none-ne-some (sym h ∙ old))
      | inr (s, old, ret) ↦ absurd (none-ne-some (sym h ∙ old))
    ]

close_by_peer :
    (a : ℕ) (s : Socket) (st : Adb)
    → IsSound st
    → st.heap a ≡ some s
    → (s.peer ≡ none) ⊎ ((b : ℕ) × (s.peer ≡ some b))
    → Ensures (close_socket a st) (Settled a st)
unfolding close_socket
close_by_peer a s st v h (inl p) =
    Ensures_map (close_call 4 a st) (Closed a s st) (Settled a st)
      (alone-Closed 2 a s st h p (v.senders a s h)) λ st' c. Closed-Settled a s st st' v h p c
close_by_peer a s st v h (inr (b, to)) =
    let (p, hb, back, ne) = v.peers a b s h to in
    Ensures_map (close_call 4 a st) (PairClosed a s b p st) (Settled a st)
      (pair-PairClosed 0 a b s p st h hb to back ne (v.senders a s h) (v.senders b p hb))
      λ st' c. PairClosed-Settled a b s p st st' v h hb to back (λ e. ne (sym e)) c

pub close_socket-IsSound :
    (a : ℕ) (s : Socket) (st : Adb)
    → IsSound st
    → st.heap a ≡ some s
    → Ensures (close_socket a st) (λ st'. IsSound st' × Settled a st st')
close_socket-IsSound a s st v h =
    Ensures_map (close_socket a st) (Settled a st) (λ st'. IsSound st' × Settled a st st')
      (close_by_peer a s st v h (Option-cases s.peer)) λ st' t. (Settled-IsSound a st st' v t, t)

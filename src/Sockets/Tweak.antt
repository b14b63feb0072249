-- ===== src/Sockets/Tweak.antt =====
-- A change of one socket that keeps its peer, its transport and what kind of socket it is.
use mathlib.Core.Path.{subst}
use native.Mathlib.Decide.{ℕ_discrete}
use pax_linux.Base.{ℕ, ◌≤◌, ◌≡◌, ◌≢◌, ◌∙◌, sym, ap, Option, none, some, none-ne-some, some_inj}
use pax_linux.Adb.{Socket, Adb}
use pax_linux.Sockets.Lists.{on}
use pax_linux.Sockets.Retire.{IsSound}
use pax_linux.Sockets.Retire.Alone.{online_at, HasTransport, IsThere, Sends, IsLocal}
use pax_linux.Sockets.Retire.Pair.{IsThere-keep}

-- The socket `s` at `a` has become `r`, and nothing else of the sockets has changed.
pub record Tweaked (a : ℕ) (s r : Socket) (st st' : Adb) : Type 0 where
  pub was : st.heap a ≡ some s
  pub now : st'.heap a ≡ some r
  pub others : (x : ℕ) → x ≢ a → st'.heap x ≡ st.heap x
  pub peer : r.peer ≡ s.peer
  pub linked : r.linked ≡ s.linked
  pub local : IsLocal s → IsLocal r
  pub sends : Sends r → Sends s
  pub transport : r.transport ≡ s.transport
  pub local_list : st'.local_list ≡ st.local_list
  pub next_address : st'.next_address ≡ st.next_address
  pub transports : (t : ℕ) → online_at st' t ≡ online_at st t

-- The socket at an address is the changed one, or as it was.
Tweaked-cases :
    (P : Socket → Type 0) (a : ℕ) (s r : Socket) (st st' : Adb) (x : ℕ) (u : Socket)
    → Tweaked a s r st st'
    → st'.heap x ≡ some u
    → (x ≡ a → P r)
    → (x ≢ a → st.heap x ≡ some u → P u)
    → P u
Tweaked-cases P a s r st st' x u k h changed kept = elim (ℕ_discrete x a) [
  | yes e ↦ subst P (some_inj (sym k.now ∙ ap st'.heap (sym e) ∙ h)) (changed e)
  | no ne ↦ kept ne (sym (k.others x ne) ∙ h)
]

-- A partner is still one.
partner_keep :
    (a : ℕ) (s r : Socket) (st st' : Adb) (x y : ℕ)
    → Tweaked a s r st st'
    → (p : Socket) × (st.heap y ≡ some p) × (p.peer ≡ some x) × (x ≢ y)
    → (p : Socket) × (st'.heap y ≡ some p) × (p.peer ≡ some x) × (x ≢ y)
partner_keep a s r st st' x y k (p, hp, back, ne) = elim (ℕ_discrete y a) [
  | yes e ↦ (
    r,
    ap st'.heap e ∙ k.now,
    k.peer ∙ ap (λ (t : Socket). t.peer) (some_inj (sym k.was ∙ ap st.heap (sym e) ∙ hp)) ∙ back,
    ne,
  )
  | no other ↦ (p, k.others y other ∙ hp, back, ne)
]

pub Tweaked-IsSound :
    (a : ℕ) (s r : Socket) (st st' : Adb) → IsSound st → Tweaked a s r st st' → IsSound st'
Tweaked-IsSound a s r st st' v k = record {
  peers = λ x y u h.
      Tweaked-cases
        (λ (q : Socket).
          q.peer ≡ some y → (p : Socket) × (st'.heap y ≡ some p) × (p.peer ≡ some x) × (x ≢ y))
        a s r st st' x u k h
        (λ e to.
          partner_keep a s r st st' x y k (v.peers x y s (ap st.heap e ∙ k.was) (sym k.peer ∙ to)))
        (λ ne old to. partner_keep a s r st st' x y k (v.peers x y u old to));
  senders = λ x u h.
      Tweaked-cases (λ (q : Socket). Sends q → HasTransport st' q) a s r st st' x u k h
        (λ e sends.
          subst (IsThere st') (sym k.transport)
            (IsThere-keep s.transport st st' k.transports (v.senders a s k.was (k.sends sends))))
        (λ ne old sends. IsThere-keep u.transport st st' k.transports (v.senders x u old sends));
  listed = λ x o.
      let (u, hu, lk, loc) = v.listed x (ap (on x) (sym k.local_list) ∙ o) in
      elim (ℕ_discrete x a) [
        | yes e ↦
            let same : u ≡ s = some_inj (sym hu ∙ ap st.heap e ∙ k.was) in
            (
              r,
              ap st'.heap e ∙ k.now,
              k.linked ∙ ap (λ (t : Socket). t.linked) (sym same) ∙ lk,
              k.local (subst IsLocal same loc),
            )
        | no ne ↦ (u, k.others x ne ∙ hu, lk, loc)
      ];
  fresh = λ x above.
      let free = v.fresh x (subst (λ n. n ≤ x) k.next_address above) in
      elim (ℕ_discrete x a) [
        | yes e ↦ absurd (none-ne-some (sym free ∙ ap st.heap e ∙ k.was))
        | no ne ↦ k.others x ne ∙ free
      ];
}

-- Nothing of the sockets has changed.
pub same_sockets-IsSound :
    (st st' : Adb)
    → IsSound st
    → st'.heap ≡ st.heap
    → st'.local_list ≡ st.local_list
    → st'.next_address ≡ st.next_address
    → st'.transports ≡ st.transports
    → IsSound st'
same_sockets-IsSound st st' v h l n t = record {
  peers =
      subst
        (λ (heap : ℕ → Option Socket).
          (a b : ℕ) (s : Socket)
          → heap a ≡ some s
          → s.peer ≡ some b
          → (p : Socket) × (heap b ≡ some p) × (p.peer ≡ some a) × (a ≢ b))
        (sym h) v.peers;
  senders = λ x u k sends.
      IsThere-keep u.transport st st'
        (λ i. ap (λ f. elim (f i) [ none ↦ none | some r ↦ some r.online ]) t)
        (v.senders x u (ap (λ f. f x) (sym h) ∙ k) sends);
  listed = λ x o.
      let (u, hu, lk, loc) = v.listed x (ap (on x) (sym l) ∙ o) in
      (u, ap (λ f. f x) h ∙ hu, lk, loc);
  fresh = λ x above. ap (λ f. f x) h ∙ v.fresh x (subst (λ m. m ≤ x) n above);
}

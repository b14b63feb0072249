-- ===== src/Sockets/Find.antt =====
-- `find_local_socket` of sockets.c.
use mathlib.Core.Path.{subst}
use pax_linux.Base.{
  ℕ, ◌≡◌, ◌≢◌, ◌⊎◌, none-ne-some, refl, ◌∙◌, sym, ap, ◌==◌, ==_iff, true, false, Bool-cases,
  Option-cases, inl, inr, List, [], ◌∷◌, Option, none, some, arith, if◌then◌else◌, some_inj,
}
use pax_linux.Adb.{Socket, Adb, ◌>>=◌}
use pax_linux.Adb.Steps.{Returns}
use pax_linux.Sockets.{find_loop, find_local_socket}
use pax_linux.Sockets.Lists.{on}

-- The socket `s` at `a` is the first one of the list with the id.
abbrev pub IsFirst : ℕ → List ℕ → Adb → ℕ → Socket → Type 0
IsFirst l [] st a s = ⊥
IsFirst l (x ∷ rest) st a s =
    ((x ≡ a) × (st.heap a ≡ some s) × (s.id ≡ l))
    ⊎ (((r : Socket) → st.heap x ≡ some r → r.id ≢ l) × IsFirst l rest st a s)

-- The socket has a peer with the id, if one is asked for.
abbrev pub Matches : Adb → ℕ → Socket → Type 0
Matches st peer_id s =
    peer_id ≢ 0
    → (b : ℕ) × (p : Socket) × (s.peer ≡ some b) × (st.heap b ≡ some p) × (p.id ≡ peer_id)

-- The socket at `a` is the first of the list with the id, and has, where a peer is asked for, that
-- peer.
pub record FoundAt (local_id peer_id : ℕ) (list : List ℕ) (st : Adb) (a : ℕ) : Type 0 where
  pub socket : Socket
  pub live : st.heap a ≡ some socket
  pub listed : on a list ≡ true
  pub id : socket.id ≡ local_id
  pub first : IsFirst local_id list st a socket
  pub peer : Matches st peer_id socket

-- Nothing is found: no socket of the list has the id, or the first one that has it has not the peer.
pub record NotFound (local_id peer_id : ℕ) (list : List ℕ) (st : Adb) : Type 0 where
  pub absent : (a : ℕ) (s : Socket) → IsFirst local_id list st a s → ¬ Matches st peer_id s

abbrev pub Found : ℕ → ℕ → List ℕ → Adb → Option ℕ → Type 0
Found l r list st none = NotFound l r list st
Found l r list st (some a) = FoundAt l r list st a

abbrev pub AreLive : List ℕ → Adb → Type 0
AreLive list st = (a : ℕ) → on a list ≡ true → (s : Socket) × (st.heap a ≡ some s)

abbrev pub PeersLive : Adb → Type 0
PeersLive st =
    (a b : ℕ) (s : Socket)
    → st.heap a ≡ some s
    → s.peer ≡ some b
    → (p : Socket) × (st.heap b ≡ some p)

abbrev pub Outcome : ℕ → ℕ → List ℕ → Adb → Option (Option ℕ × Adb) → Type 0
Outcome l r list st res = Returns res (λ o st'. (st' ≡ st) × Found l r list st o)

-- The socket at the head has another id: the search goes on.
skip_head :
    (l r a : ℕ) (rest : List ℕ) (st : Adb) (s : Socket) (res : Option (Option ℕ × Adb))
    → st.heap a ≡ some s
    → s.id ≢ l
    → Outcome l r rest st res
    → Outcome l r (a ∷ rest) st res
skip_head l r a rest st s none h ne o = o
skip_head l r a rest st s (some (none, st')) h ne (e, n) = (
  e,
  record {
    absent = λ x sx first m. elim first [
      | inl (ax, hx, idx) ↦
          ne (ap (λ (t : Socket). t.id) (some_inj (sym h ∙ ap st.heap ax ∙ hx)) ∙ idx)
      | inr (other, f) ↦ n.absent x sx f m
    ];
  },
)
skip_head l r a rest st s (some (some x, st')) h ne (e, f) = (
  e,
  record {
    socket = f.socket;
    live = f.live;
    listed = ground (arith, f.listed);
    id = f.id;
    first = inr (λ t ht k. ne (ap (λ (u : Socket). u.id) (some_inj (sym h ∙ ht)) ∙ k), f.first);
    peer = f.peer;
  },
)

on_head : (a : ℕ) (rest : List ℕ) → on a (a ∷ rest) ≡ true
on_head a rest = ground arith

on_tail : (x a : ℕ) (rest : List ℕ) → on x rest ≡ true → on x (a ∷ rest) ≡ true
on_tail x a rest h = ground arith

ne_of_false : (a b : ℕ) → (a == b) ≡ false → a ≢ b
ne_of_false a b h = ground arith

-- The socket at the head has the id: it decides.
module _ (l r a : ℕ) (rest : List ℕ) (st : Adb) (s : Socket) (hs : st.heap a ≡ some s)
    (id : (s.id == l) ≡ true) where
  any_peer : r ≡ 0 → Found l r (a ∷ rest) st (some a)
  any_peer z = record {
    socket = s;
    live = hs;
    listed = on_head a rest;
    id = (==_iff s.id l).0 id;
    first = inl (refl, hs, (==_iff s.id l).0 id);
    peer = λ ne. absurd (ne z);
  }

  -- The first socket with the id is the one at the head.
  head_only :
      (¬ Matches st r s) → (x : ℕ) (sx : Socket) → IsFirst l (a ∷ rest) st x sx → ¬ Matches st r sx
  head_only differs x sx (inl (ax, hx, idx)) m =
      differs (subst (Matches st r) (sym (some_inj (sym hs ∙ ap st.heap ax ∙ hx))) m)
  head_only differs x sx (inr (other, f)) m = other s hs ((==_iff s.id l).0 id)

  no_peer : s.peer ≡ none → (r == 0) ≡ false → Found l r (a ∷ rest) st none
  no_peer alone wanted = record {
    absent =
        head_only
          λ m. let (b, p, to, hp, e) = m (ne_of_false r 0 wanted) in none-ne-some (sym alone ∙ to);
  }

  wrong_peer :
      (b : ℕ) (p : Socket)
      → s.peer ≡ some b
      → st.heap b ≡ some p
      → (r == 0) ≡ false
      → p.id ≢ r
      → Found l r (a ∷ rest) st none
  wrong_peer b p to hp wanted ne = record {
    absent = head_only λ m.
        let (c, q, toc, hq, e) = m (ne_of_false r 0 wanted) in
        let same : p ≡ q = some_inj (sym hp ∙ ap st.heap (some_inj (sym to ∙ toc)) ∙ hq) in
        ne (ap (λ (t : Socket). t.id) same ∙ e);
  }

  the_peer :
      (b : ℕ) (p : Socket)
      → s.peer ≡ some b
      → st.heap b ≡ some p
      → (r == 0) ≡ false
      → Found l r (a ∷ rest) st (if p.id == r then some a else none)
  the_peer b p to hp wanted = elim (Bool-cases (p.id == r)) [
    | inl same ↦ rw same (record {
      socket = s;
      live = hs;
      listed = on_head a rest;
      id = (==_iff s.id l).0 id;
      first = inl (refl, hs, (==_iff s.id l).0 id);
      peer = λ ne. (b, p, to, hp, (==_iff p.id r).0 same);
    })
    | inr other ↦ rw other (wrong_peer b p to hp wanted (ne_of_false p.id r other))
  ]

find_loop_step :
    (l r a : ℕ) (rest : List ℕ) (st : Adb) (s : Socket)
    → PeersLive st
    → st.heap a ≡ some s
    → Outcome l r rest st (find_loop l r rest st)
    → Outcome l r (a ∷ rest) st (find_loop l r (a ∷ rest) st)
unfolding find_loop
find_loop_step l r a rest st s pl hs ih = elim (Bool-cases (s.id == l)) [
  | inr no_id ↦
      rw (hs, ◌>>=◌) (rw no_id (skip_head l r a rest st s _ hs (ne_of_false s.id l no_id) ih))
  | inl id ↦ elim (Bool-cases (r == 0)) [
    | inl any ↦
        rw (hs, ◌>>=◌) (rw (id, any) (refl, any_peer l r a rest st s hs id ((==_iff r 0).0 any)))
    | inr wanted ↦ elim (Option-cases s.peer) [
      | inl alone ↦
          rw (hs, ◌>>=◌) (rw (id, wanted, alone) (refl, no_peer l r a rest st s hs id alone wanted))
      | inr (b, to) ↦
          let (p, hp) = pl a b s hs to in
          rw (hs, ◌>>=◌)
            (rw (id, wanted, to)
              (rw (hp, ◌>>=◌) (refl, the_peer l r a rest st s hs id b p to hp wanted)))
    ]
  ]
]

find_loop-Found :
    (l r : ℕ) (list : List ℕ) (st : Adb)
    → PeersLive st
    → AreLive list st
    → Outcome l r list st (find_loop l r list st)
find_loop-Found l r [] st pl al =
    unfold find_loop in (refl, record { absent = λ x sx first m. elim first [ ] })
find_loop-Found l r (a ∷ rest) st pl al =
    let (s, hs) = al a (on_head a rest) in
    find_loop_step l r a rest st s pl hs
      (find_loop-Found l r rest st pl (λ x ox. al x (on_tail x a rest ox)))

-- Where peers and list entries are live, `find_local_socket` follows no dangling pointer and changes
-- nothing. It finds the first socket of the list with the id if the peer id is 0 or that socket has
-- a peer of that id, and else none.
pub find_local_socket-Found :
    (l r : ℕ) (st : Adb)
    → PeersLive st
    → AreLive st.local_list st
    → Outcome l r st.local_list st (find_local_socket l r st)
unfolding find_local_socket
find_local_socket-Found l r st pl al = find_loop-Found l r st.local_list st pl al

-- ===== src/Fdevent/Tables.antt =====
-- The tables of fdevent.c: `fd_table` and the sets that `select` watches, against the events that
-- are active.
pub mod Retiring
use mathlib.Core.Path.{subst}
use pax_linux.Base.{
  ℕ, zero, suc, ◌+◌, ◌-◌, ◌*◌, ◌^◌, ◌≤◌, ◌<◌, ◌≡◌, ◌≢◌, refl, sym, ◌∙◌, ap, ◌⊎◌, inl, inr, Bool,
  true, false, ◌||◌, Option, none, some, arith, ltb, leb, ◌==◌, ==_iff, if◌then◌else◌, some_inj,
  Bool-cases, ==_refl, List, [], ◌∷◌, ◌++◌, none-ne-some, Option-cases,
}
use pax_linux.Fdevent.Pending.{Links, assign, ◌>>=◌}
use pax_linux.Fdevent.{
  Events, Fdevent, Loop, store_event, entry, no_events, last_used, fdevent_disconnect, watch,
  fdevent_connect, fdevent_register, fdevent_unregister, make_room, grow, grown_table, fdevent_init,
  points_to, fd_setsize,
}

-- Some set watches the descriptor.
abbrev pub is_watched : Loop → ℕ → Bool
is_watched l i = l.read_fds i || l.write_fds i || l.error_fds i

abbrev pub IsActive : Loop → ℕ → Fdevent → Type 0
IsActive l a f = (l.fdes a ≡ some f) × (f.active ≡ true)

-- The table finds every active event, the sets watch what it wants and have a bit for it, and
-- nothing else is watched.
pub record IsTabled (l : Loop) : Type 0 where
  pub found :
      (a : ℕ) (f : Fdevent) → IsActive l a f → (f.fd < l.select_n) × (l.fd_table f.fd ≡ some a)
  pub watched :
      (a : ℕ) (f : Fdevent)
      → IsActive l a f
      → (l.read_fds f.fd ≡ f.wanted.read)
        × (l.write_fds f.fd ≡ f.wanted.write)
        × (l.error_fds f.fd ≡ f.wanted.error)
  pub backed :
      (i : ℕ) → is_watched l i ≡ true → (a : ℕ) × (f : Fdevent) × IsActive l a f × (f.fd ≡ i)
  pub room : l.select_n ≤ l.fd_table_max
  pub fits : l.select_n ≤ fd_setsize
  pub size : (l.fd_table_max ≡ 0) ⊎ (256 ≤ l.fd_table_max)

-- What is read back from a map that was changed at one address.
pub assign_cases {ℓ} :
    {A : Type ℓ} (m : ℕ → Option A) (a x : ℕ) (g r : A)
    → assign m a (some g) x ≡ some r
    → ((x ≡ a) × (r ≡ g)) ⊎ (((x == a) ≡ false) × (m x ≡ some r))
assign_cases m a x g r h = elim (Bool-cases (x == a)) [
  | inl same ↦ inl ((==_iff x a).0 same, some_inj (ground arith))
  | inr other ↦ inr (other, ground arith)
]

pub assign_other {ℓ} :
    {A : Type ℓ} (m : ℕ → A) (a x : ℕ) (v : A) → (x == a) ≡ false → assign m a v x ≡ m x
assign_other m a x v h = ground arith

pub assign_self {ℓ} : {A : Type ℓ} (m : ℕ → A) (a : ℕ) (v : A) → assign m a v a ≡ v
assign_self m a v = ground arith

-- Another description of an event that keeps its descriptor, its activity and what it wants.
pub store_event-IsTabled :
    (l : Loop) (a : ℕ) (f g : Fdevent)
    → l.fdes a ≡ some f
    → g.fd ≡ f.fd
    → g.active ≡ f.active
    → (g.active ≡ true → g.wanted ≡ f.wanted)
    → IsTabled l
    → IsTabled (store_event l a g)
store_event-IsTabled l a f g h same_fd same_active same_wanted t = record {
  found = λ x r (hx, on). elim (assign_cases l.fdes a x g r hx) [
    | inl (e, d) ↦ rw (e, d, same_fd) (t.found a f (h, was r d on))
    | inr (e, k) ↦ t.found x r (k, on)
  ];
  watched = λ x r (hx, on). elim (assign_cases l.fdes a x g r hx) [
    | inl (e, d) ↦
        rw (d, same_fd, same_wanted (ap (λ (z : Fdevent). z.active) (sym d) ∙ on))
          (t.watched a f (h, was r d on))
    | inr (e, k) ↦ t.watched x r (k, on)
  ];
  backed = λ i w.
      let (b, r, (hb, on), e) = t.backed i w in
      elim (Bool-cases (b == a)) [
        | inl same ↦
            let q : f ≡ r = some_inj (sym h ∙ ap l.fdes (sym ((==_iff b a).0 same)) ∙ hb) in
            (
              a,
              g,
              (assign_self l.fdes a (some g), same_active ∙ ap (λ (z : Fdevent). z.active) q ∙ on),
              same_fd ∙ ap (λ (z : Fdevent). z.fd) q ∙ e,
            )
        | inr other ↦ (b, r, (assign_other l.fdes a b (some g) other ∙ hb, on), e)
      ];
  room = t.room;
  fits = t.fits;
  size = t.size;
}
  where
    was : (r : Fdevent) → r ≡ g → r.active ≡ true → f.active ≡ true
    was r d on = sym same_active ∙ ap (λ (z : Fdevent). z.active) (sym d) ∙ on

-- The links of a loop have no part in its tables.
pub relink-IsTabled : (l : Loop) (k : Links) → IsTabled l → IsTabled (record l { links = k })
relink-IsTabled l k t = record {
  found = t.found;
  watched = t.watched;
  backed = t.backed;
  room = t.room;
  fits = t.fits;
  size = t.size;
}

-- Active events with one descriptor are one.
pub same_fd_same :
    (l : Loop) (a b : ℕ) (f g : Fdevent)
    → IsTabled l
    → IsActive l a f
    → IsActive l b g
    → f.fd ≡ g.fd
    → a ≡ b
same_fd_same l a b f g t p q e =
    some_inj (sym (t.found a f p).1 ∙ ap l.fd_table e ∙ (t.found b g q).1)

pub ne_test : (a b : ℕ) → a ≢ b → (a == b) ≡ false
ne_test a b h = elim (Bool-cases (a == b)) [
  | inl same ↦ absurd (h ((==_iff a b).0 same))
  | inr other ↦ other
]

other_fd :
    (l : Loop) (a x : ℕ) (f r : Fdevent)
    → IsTabled l
    → IsActive l a f
    → IsActive l x r
    → (x == a) ≡ false
    → (r.fd == f.fd) ≡ false
other_fd l a x f r t p q e =
    ne_test r.fd f.fd λ same. cc (e, (==_iff x a).1 (same_fd_same l x a r f t q p same))

other_event :
    (l : Loop) (a x : ℕ) (f r : Fdevent) (i : ℕ)
    → IsActive l a f
    → IsActive l x r
    → r.fd ≡ i
    → (i == f.fd) ≡ false
    → (x == a) ≡ false
other_event l a x f r i p q e other = ne_test x a λ same.
    let same_event : r ≡ f = some_inj (sym q.0 ∙ ap l.fdes same ∙ p.0) in
    cc (other, (==_iff i f.fd).1 (sym e ∙ ap (λ (z : Fdevent). z.fd) same_event))

-- `FDE_READ`, `FDE_WRITE` and `FDE_ERROR` of an active event, and the sets with them.
pub watch-IsTabled :
    (l : Loop) (a : ℕ) (f : Fdevent) (events : Events)
    → IsActive l a f
    → IsTabled l
    → IsTabled (watch l a f events)
unfolding watch
watch-IsTabled l a f events p t = record {
  found = λ x r (hx, on). elim (assign_cases l.fdes a x g r hx) [
    | inl (e, d) ↦ rw (e, d) (t.found a f p)
    | inr (e, k) ↦ t.found x r (k, on)
  ];
  watched = λ x r (hx, on). elim (assign_cases l.fdes a x g r hx) [
    | inl (e, d) ↦ rw d (
      assign_self l.read_fds f.fd events.read,
      assign_self l.write_fds f.fd events.write,
      assign_self l.error_fds f.fd events.error,
    )
    | inr (e, k) ↦
        let o = other_fd l a x f r t p (k, on) e in
        let (wr, ww, we) = t.watched x r (k, on) in
        (
          assign_other l.read_fds f.fd r.fd events.read o ∙ wr,
          assign_other l.write_fds f.fd r.fd events.write o ∙ ww,
          assign_other l.error_fds f.fd r.fd events.error o ∙ we,
        )
  ];
  backed = λ i w. elim (Bool-cases (i == f.fd)) [
    | inl same ↦ (a, g, (assign_self l.fdes a (some g), p.1), sym ((==_iff i f.fd).0 same))
    | inr other ↦
        let (b, r, (hb, on), e) = t.backed i (ground (arith, w, other)) in
        let o = other_event l a b f r i p (hb, on) e other in
        (b, r, (assign_other l.fdes a b (some g) o ∙ hb, on), e)
  ];
  room = t.room;
  fits = t.fits;
  size = t.size;
}
  where
    g : Fdevent
    g = record f { wanted = events }

pub entry-some : (l : Loop) (i : ℕ) → i < l.fd_table_max → entry l i ≡ some (l.fd_table i)
entry-some l i h = ground arith

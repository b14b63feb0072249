-- ===== src/Fdevent/Tables/Retiring.antt =====
-- `fdevent_disconnect` and `fdevent_unregister` of fdevent.c against the tables.
use pax_linux.Base.{
  ltb, ℕ, zero, suc, ◌+◌, ◌≤◌, ◌<◌, ◌≡◌, refl, sym, ◌∙◌, ap, inl, inr, true, false, none, some,
  arith, ◌==◌, ==_iff, if◌then◌else◌, Bool-cases, ==_refl, [], ◌∷◌, ◌++◌, none-ne-some,
  Option-cases,
}
use pax_linux.Fdevent.Pending.{assign, ◌>>=◌}
use pax_linux.Fdevent.{
  Fdevent, Loop, store_event, last_used, fdevent_disconnect, fdevent_unregister, points_to,
  fd_setsize,
}
use pax_linux.Fdevent.Tables.{
  IsActive, IsTabled, assign_cases, assign_other, other_fd, other_event, entry-some,
}

last_used-some :
    (l : Loop) (k i n bound : ℕ)
    → i + k ≤ l.fd_table_max
    → i + k ≤ bound
    → n < bound
    → n ≤ i
    → (m : ℕ) × (last_used l k i n ≡ some m)
      × (n ≤ m)
      × (m < bound)
      × ((j : ℕ) (b : ℕ) → i ≤ j → j < i + k → l.fd_table j ≡ some b → j ≤ m)
unfolding last_used
last_used-some l zero i n bound h hb hn le =
    (n, refl, omega arith, hn, λ j b p q e. absurd (omega arith))
last_used-some l (suc k) i n bound h hb hn le = elim (Option-cases (l.fd_table i)) [
  | inl e ↦
      let (m, run, p, q, all) =
        last_used-some l k (i + 1) n bound (omega arith) (omega arith) hn (omega arith) in
      (
        m,
        rw (entry-some l i (omega arith), e) run,
        p,
        q,
        λ j b u v w. elim (Bool-cases (i == j)) [
          | inl same ↦ absurd (none-ne-some (sym e ∙ ap l.fd_table ((==_iff i j).0 same) ∙ w))
          | inr other ↦ all j b (ground arith) (omega arith) w
        ],
      )
  | inr (b, e) ↦
      let (m, run, p, q, all) =
        last_used-some l k (i + 1) i bound (omega arith) (omega arith) (omega arith)
          (omega arith) in
      (
        m,
        rw (entry-some l i (omega arith), e) run,
        omega arith,
        q,
        λ j c u v w. elim (Bool-cases (i == j)) [
          | inl same ↦ omega (arith, (==_iff i j).0 same)
          | inr other ↦ all j c (ground arith) (omega arith) w
        ],
      )
]

-- The loop without the active event at `a`, whose search for the last entry gave `m`.
abbrev retired : Loop → ℕ → Fdevent → ℕ → Loop
retired l a f m = record l {
  read_fds = assign l.read_fds f.fd false;
  write_fds = assign l.write_fds f.fd false;
  error_fds = assign l.error_fds f.fd false;
  select_n = m + 1;
  fd_table = assign l.fd_table f.fd none;
  closed = if f.wanted.dont_close then l.closed else l.closed ++ f.fd ∷ [];
}

unregister_run :
    (l : Loop) (a : ℕ) (f : Fdevent)
    → f.fd < l.fd_table_max
    → l.fd_table f.fd ≡ some a
    → fdevent_unregister l a f
      ≡ some (record l {
        fd_table = assign l.fd_table f.fd none;
        closed = if f.wanted.dont_close then l.closed else l.closed ++ f.fd ∷ [];
      })
unfolding fdevent_unregister points_to
unregister_run l a f h e = rw (entry-some l f.fd h, e, ==_refl a) refl

retire_run :
    (l : Loop) (a : ℕ) (f : Fdevent)
    → IsActive l a f
    → IsTabled l
    → (m : ℕ) × ((fdevent_disconnect l f.fd >>= λ k. fdevent_unregister k a f)
        ≡ some (retired l a f m))
      × (m < l.select_n)
      × ((j : ℕ) (b : ℕ) → j < l.select_n → l.fd_table j ≡ some b → j ≤ m)
unfolding fdevent_disconnect
retire_run l a f p t =
    let (below, e) = t.found a f p in
    let in_set : ltb f.fd fd_setsize ≡ true = ground (arith, t.fits) in
    let (m, run, _, q, all) =
      last_used-some
        (record l {
          read_fds = assign l.read_fds f.fd false;
          write_fds = assign l.write_fds f.fd false;
          error_fds = assign l.error_fds f.fd false;
        })
        l.select_n 0 0 l.select_n (omega (arith, t.room)) (omega arith) (omega arith)
        (omega arith) in
    (
      m,
      rw (in_set, run) (unregister_run _ a f (omega (arith, t.room)) e),
      q,
      λ j b h w. all j b (omega arith) (omega arith) w,
    )

retired-IsTabled :
    (l : Loop) (a : ℕ) (f g : Fdevent) (m : ℕ)
    → IsActive l a f
    → g.active ≡ false
    → m < l.select_n
    → ((j : ℕ) (b : ℕ) → j < l.select_n → l.fd_table j ≡ some b → j ≤ m)
    → IsTabled l
    → IsTabled (store_event (retired l a f m) a g)
retired-IsTabled l a f g m p off below all t = record {
  found = λ x r (hx, on). elim (assign_cases l.fdes a x g r hx) [
    | inl (e, d) ↦ absurd (dead r d on)
    | inr (e, k) ↦
        let (lt, w) = t.found x r (k, on) in
        (
          ground (arith, all r.fd x lt w),
          assign_other l.fd_table f.fd r.fd none (other_fd l a x f r t p (k, on) e) ∙ w,
        )
  ];
  watched = λ x r (hx, on). elim (assign_cases l.fdes a x g r hx) [
    | inl (e, d) ↦ absurd (dead r d on)
    | inr (e, k) ↦
        let o = other_fd l a x f r t p (k, on) e in
        let (wr, ww, we) = t.watched x r (k, on) in
        (
          assign_other l.read_fds f.fd r.fd false o ∙ wr,
          assign_other l.write_fds f.fd r.fd false o ∙ ww,
          assign_other l.error_fds f.fd r.fd false o ∙ we,
        )
  ];
  backed = λ i w. elim (Bool-cases (i == f.fd)) [
    | inl same ↦ absurd (ground (arith, w, same))
    | inr other ↦
        let (b, r, (hb, on), e) = t.backed i (ground (arith, w, other)) in
        let o = other_event l a b f r i p (hb, on) e other in
        (b, r, (assign_other l.fdes a b (some g) o ∙ hb, on), e)
  ];
  room = omega (arith, t.room);
  fits = omega (arith, t.fits);
  size = t.size;
}
  where
    dead : (r : Fdevent) → r ≡ g → r.active ≡ true → ⊥
    dead r d on = cc (off, on, ap (λ (z : Fdevent). z.active) d)

-- An active event is taken out of the tables without a fault.
pub retire_lem :
    (l : Loop) (a : ℕ) (f g : Fdevent)
    → IsActive l a f
    → g.active ≡ false
    → IsTabled l
    → (k : Loop) × ((fdevent_disconnect l f.fd >>= λ j. fdevent_unregister j a f) ≡ some k)
      × (k.fdes ≡ l.fdes)
      × (k.links ≡ l.links)
      × IsTabled (store_event k a g)
retire_lem l a f g p off t =
    let (m, run, below, all) = retire_run l a f p t in
    (retired l a f m, run, refl, refl, retired-IsTabled l a f g m p off below all t)

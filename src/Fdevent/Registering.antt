-- ===== src/Fdevent/Registering.antt =====
-- `fdevent_install` of fdevent.c against the tables: the growth of `fd_table`, the new entry and
-- `select_n`.
use pax_linux.Base.{
  ℕ, zero, suc, ◌+◌, ◌*◌, ◌≤◌, ◌<◌, ◌≡◌, ◌≢◌, refl, sym, ◌∙◌, ap, ◌⊎◌, inl, inr, true, false,
  Option, some, arith, leb, ◌==◌, if◌then◌else◌, Bool-cases, leb→le, le→ltb,
}
use pax_linux.Fdevent.Pending.{assign, ◌>>=◌}
use pax_linux.Fdevent.{
  Fdevent, FdFunc, Loop, store_event, installed, fdevent_connect, fdevent_register, fdevent_install,
  make_room, grow, grown_table, fdevent_init, fd_setsize,
}
use pax_linux.Fdevent.Tables.{
  IsTabled, IsActive, is_watched, assign_cases, assign_other, assign_self, ne_test,
}

-- `max` doubled `k` times.
abbrev doubled : ℕ → ℕ → ℕ
doubled zero max = max
doubled (suc k) max = doubled k (2 * max)

-- Doubling passes every descriptor that is below the last size.
grow_above : (k max fd : ℕ) → fd < doubled k max → (max ≤ grow k max fd) × (fd < grow k max fd)
unfolding grow
grow_above zero max fd h = (omega arith, omega arith)
grow_above (suc k) max fd h = elim (Bool-cases (leb max fd)) [
  | inl more ↦ rw (grow, more) (let (p, q) = grow_above k (2 * max) fd h in (omega arith, q))
  | inr done ↦ rw (grow, done) (omega arith, ground arith)
]

-- What the table has become: room for the new descriptor, the old entries, and the sets to watch,
-- which are new if the table is.
record Grown (l k : Loop) (fd : ℕ) : Type 0 where
  fdes : k.fdes ≡ l.fdes
  links : k.links ≡ l.links
  select_n : k.select_n ≡ l.select_n
  bigger : l.fd_table_max ≤ k.fd_table_max
  above : fd < k.fd_table_max
  size : 256 ≤ k.fd_table_max
  entries : (i : ℕ) → i < l.fd_table_max → k.fd_table i ≡ l.fd_table i
  sets :
      ((k.read_fds ≡ l.read_fds) × (k.write_fds ≡ l.write_fds) × (k.error_fds ≡ l.error_fds))
      ⊎ ((l.fd_table_max ≡ 0)
          × ((i : ℕ) → (k.read_fds i ≡ false) × (k.write_fds i ≡ false) × (k.error_fds i ≡ false)))

nonempty : (n : ℕ) → 256 ≤ n → (n == 0) ≡ false
nonempty n h = ground arith

make_room-Grown :
    (l : Loop) (fd : ℕ) (memory : ℕ → Option ℕ)
    → fd ≤ 32000
    → l.fd_table_max ≤ fd
    → (l.fd_table_max ≡ 0) ⊎ (256 ≤ l.fd_table_max)
    → (k : Loop) × (make_room (some memory) l fd ≡ some k) × Grown l k fd
unfolding make_room fdevent_init
make_room-Grown l fd memory small over (inl empty) =
    let (p, q) = grow_above 7 256 fd (omega arith) in
    (
      record (fdevent_init l) {
        fd_table_max = grow 7 256 fd;
        fd_table = grown_table l.fd_table l.fd_table_max (grow 7 256 fd) memory;
      },
      rw (le→ltb fd 32000 small, empty) refl,
      record {
        fdes = refl;
        links = refl;
        select_n = refl;
        bigger = omega arith;
        above = q;
        size = p;
        entries = λ i h. absurd (omega arith);
        sets = inr (empty, λ i. (refl, refl, refl));
      },
    )
make_room-Grown l fd memory small over (inr big) =
    let (p, q) = grow_above 7 l.fd_table_max fd (omega arith) in
    (
      record l {
        fd_table_max = grow 7 l.fd_table_max fd;
        fd_table = grown_table l.fd_table l.fd_table_max (grow 7 l.fd_table_max fd) memory;
      },
      rw (le→ltb fd 32000 small, nonempty l.fd_table_max big) refl,
      record {
        fdes = refl;
        links = refl;
        select_n = refl;
        bigger = p;
        above = q;
        size = omega arith;
        entries = λ i h. unfold grown_table in ground arith;
        sets = inl (refl, refl, refl);
      },
    )

registered-Grown :
    (l : Loop) (a fd : ℕ) (memory : ℕ → Option ℕ)
    → fd ≤ 32000
    → (l.fd_table_max ≡ 0) ⊎ (256 ≤ l.fd_table_max)
    → (k : Loop) × (fdevent_register (some memory) l a (some fd)
        ≡ some (record k { fd_table = assign k.fd_table fd (some a) }))
      × Grown l k fd
unfolding fdevent_register
registered-Grown l a fd memory small size = elim (Bool-cases (leb l.fd_table_max fd)) [
  | inl over ↦
      let (k, run, g) = make_room-Grown l fd memory small (leb→le _ _ over) size in
      (k, rw (over, run) refl, g)
  | inr under ↦ (
    l,
    rw under refl,
    record {
      fdes = refl;
      links = refl;
      select_n = refl;
      bigger = omega arith;
      above = ground arith;
      size = ground arith;
      entries = λ i h. refl;
      sets = inl (refl, refl, refl);
    },
  )
]

-- The event and the descriptor are not in use.
pub record IsFree (l : Loop) (a fd : ℕ) : Type 0 where
  pub event : (f : Fdevent) → l.fdes a ≡ some f → (f.active ≡ false) × (f.pending ≡ false)
  pub descriptor : (b : ℕ) (f : Fdevent) → IsActive l b f → f.fd ≢ fd

quiet :
    (l : Loop) (a fd : ℕ)
    → IsTabled l
    → IsFree l a fd
    → (l.read_fds fd ≡ false) × (l.write_fds fd ≡ false) × (l.error_fds fd ≡ false)
quiet l a fd t free = elim (Bool-cases (is_watched l fd)) [
  | inl on ↦ let (b, f, p, e) = t.backed fd on in absurd (free.descriptor b f p e)
  | inr off ↦ (ground arith, ground arith, ground arith)
]

-- The growth does not read the event that is being installed.
of_store :
    (l k : Loop) (a fd : ℕ) (f : Fdevent)
    → Grown (store_event l a f) k fd
    → Grown l (record k { fdes = l.fdes }) fd
of_store l k a fd f g = record {
  fdes = refl;
  links = g.links;
  select_n = g.select_n;
  bigger = g.bigger;
  above = g.above;
  size = g.size;
  entries = g.entries;
  sets = g.sets;
}

-- What is watched below `select_n` stays so, and nothing is watched that was not.
Grown-watched :
    (l k : Loop) (fd i : ℕ)
    → IsTabled l
    → Grown l k fd
    → i < l.select_n
    → (k.read_fds i ≡ l.read_fds i)
      × (k.write_fds i ≡ l.write_fds i)
      × (k.error_fds i ≡ l.error_fds i)
Grown-watched l k fd i t g h = elim g.sets [
  | inl (r, w, e) ↦ (ap (λ s. s i) r, ap (λ s. s i) w, ap (λ s. s i) e)
  | inr (empty, _) ↦ absurd (omega (arith, t.room))
]

Grown-unwatched :
    (l k : Loop) (fd i : ℕ)
    → Grown l k fd
    → (l.read_fds i ≡ false) × (l.write_fds i ≡ false) × (l.error_fds i ≡ false)
    → (k.read_fds i ≡ false) × (k.write_fds i ≡ false) × (k.error_fds i ≡ false)
Grown-unwatched l k fd i g (p, q, s) = elim g.sets [
  | inl (r, w, e) ↦ (ap (λ s. s i) r ∙ p, ap (λ s. s i) w ∙ q, ap (λ s. s i) e ∙ s)
  | inr (_, all) ↦ all i
]

Grown-backed :
    (l k : Loop) (fd i : ℕ) → Grown l k fd → is_watched k i ≡ true → is_watched l i ≡ true
Grown-backed l k fd i g h = elim (Bool-cases (is_watched l i)) [
  | inl on ↦ on
  | inr off ↦
      absurd
        (ground (arith, h, Grown-unwatched l k fd i g (ground arith, ground arith, ground arith)))
]

-- The loop with the new entry, once `fdevent_connect` has seen it.
abbrev entered : Loop → Loop → ℕ → ℕ → FdFunc → Loop
entered l k a fd func = record k {
  fdes = assign l.fdes a (some (installed fd func));
  fd_table = assign k.fd_table fd (some a);
  select_n = if leb k.select_n fd then fd + 1 else k.select_n;
}

entered-IsTabled :
    (l k : Loop) (a fd : ℕ) (func : FdFunc)
    → IsTabled l
    → IsFree l a fd
    → Grown l k fd
    → fd < fd_setsize
    → IsTabled (entered l k a fd func)
entered-IsTabled l k a fd func t free g small = record {
  found = λ x r (hx, on). elim (assign_cases l.fdes a x f r hx) [
    | inl (e, d) ↦ rw (e, d) (ground arith, assign_self k.fd_table fd (some a))
    | inr (e, p) ↦
        let (lt, w) = t.found x r (p, on) in
        (
          ground (arith, g.select_n),
          assign_other k.fd_table fd r.fd (some a) (ne_test r.fd fd (free.descriptor x r (p, on)))
              ∙ g.entries r.fd (omega (arith, t.room))
              ∙ w,
        )
  ];
  watched = λ x r (hx, on). elim (assign_cases l.fdes a x f r hx) [
    | inl (e, d) ↦ rw d (Grown-unwatched l k fd fd g (quiet l a fd t free))
    | inr (e, p) ↦
        let (u, v, w) = Grown-watched l k fd r.fd t g (t.found x r (p, on)).0 in
        let (u', v', w') = t.watched x r (p, on) in (u ∙ u', v ∙ v', w ∙ w')
  ];
  backed = λ i w.
      let (b, r, (hb, on), e) = t.backed i (Grown-backed l k fd i g w) in
      let o = ne_test b a (λ same. cc (on, (free.event r (ap l.fdes (sym same) ∙ hb)).0)) in
      (b, r, (assign_other l.fdes a b (some f) o ∙ hb, on), e);
  room = ground (arith, g.select_n, t.room, g.bigger, g.above);
  fits = ground (arith, g.select_n, t.fits);
  size = inr g.size;
}
  where
    f : Fdevent
    f = installed fd func

connect-entered :
    (l k : Loop) (a fd : ℕ) (func : FdFunc)
    → k.fdes ≡ assign l.fdes a (some (installed fd func))
    → fdevent_connect (record k { fd_table = assign k.fd_table fd (some a) }) fd
      ≡ entered l k a fd func
unfolding fdevent_connect
connect-entered l k a fd func e = elim (Bool-cases (leb k.select_n fd)) [
  | inl above ↦ rw above (
      ap (λ m. record k { fdes = m; fd_table = assign k.fd_table fd (some a); select_n = fd + 1 })
        e)
  | inr below ↦
      rw below (ap (λ m. record k { fdes = m; fd_table = assign k.fd_table fd (some a) }) e)
]

-- A descriptor below `FD_SETSIZE` that no active event has is installed without a fault, if `realloc`
-- gives the memory it is asked for.
pub fdevent_install_lem :
    (l : Loop) (a fd : ℕ) (func : FdFunc) (memory : ℕ → Option ℕ)
    → fd < fd_setsize
    → IsFree l a fd
    → IsTabled l
    → (k : Loop) × (fdevent_install (some memory) l a (some fd) func ≡ some k)
      × (k.fdes ≡ assign l.fdes a (some (installed fd func)))
      × (k.links ≡ l.links)
      × IsTabled k
unfolding fdevent_install
fdevent_install_lem l a fd func memory small free t =
    let (k, run, g) =
      registered-Grown (store_event l a (installed fd func)) a fd memory (omega arith) t.size in
    let h = of_store l k a fd (installed fd func) g in
    (
      entered l k a fd func,
      ap (λ m. m >>= λ l1. some (fdevent_connect l1 fd)) run
          ∙ ap some (connect-entered l k a fd func g.fdes),
      refl,
      g.links,
      entered-IsTabled l (record k { fdes = l.fdes }) a fd func t free h small,
    )

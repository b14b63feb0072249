-- ===== src/Listeners/Refinement/Binding.antt =====
-- `install_listener` of adb.c on the map of the listeners.
use mathlib.Core.Path.{subst}
use pax_linux.Base.{
  ℕ, ◌+◌, ◌≡◌, refl, sym, ◌∙◌, ap, Bool, true, false, List, [], ◌∷◌, ◌++◌, append-nil, Option, none,
  some, none-ne-some, arith, ◌==◌, if◌then◌else◌, Bool-cases, Option-cases, inl, inr, str_eq,
}
use pax_linux.Sockets.Lists.{remove}
use pax_linux.Listeners.{
  Listener, Table, Status, ok, internal_error, cannot_bind, cannot_rebind, find_named, set_listener,
  is_special, install_listener, rebind, enlist, hook, move_hook, set_hooks, ◌>>=◌,
}
use pax_linux.Listeners.Names.{
  addressed, IsApart, find-Place, IsApart-Around, swap-IsApart, snoc-IsApart, set_listener_middle,
  named-find, addressed-append,
}
use pax_linux.Listeners.Refinement.{
  target_of, bound, put, Answer, spec_bind, is_some, IsTidy, Refines,
}
use pax_linux.Listeners.Refinement.Unbinding.{Lists, find_at, rebound, around}

move_hook-Lists :
    (t : Table) (o : Option ℕ) (x y a : ℕ)
    → o ≡ some x
    → Lists t t.listeners (move_hook t o (some y) a)
unfolding move_hook
move_hook-Lists t none x y a e = absurd (none-ne-some e)
move_hook-Lists t (some z) x y a e = elim (Bool-cases (z == y)) [
  | inl same ↦ record { table = t; run = rw same refl; listeners = refl; next_address = refl }
  | inr other ↦
      let u = set_hooks t z (remove a (t.hooks z)) in
      record {
        table = set_hooks u y (u.hooks y ++ a ∷ []);
        run = rw other refl;
        listeners = refl;
        next_address = refl;
      }
]

bind_old-Refines :
    (t : Table) (name connect_to : List ℕ) (transport : ℕ) (l : Listener)
    → find_named name t.listeners ≡ some l
    → is_special l.connect_to ≡ false
    → IsTidy t
    → Refines
        (
          ok,
          put
              (bound t)
              name
              (some (record { connect_to = connect_to; transport = some transport })),
        )
        (rebind t l connect_to (some transport) >>= λ t1. some (ok, t1))
unfolding rebind
bind_old-Refines t name connect_to transport l e ordinary d =
    let p = find-Place name t.listeners l e in
    let a = around t p.before l p.after p.cut d in
    let (x, hx) = a.owned ordinary in
    let k = record l { connect_to = connect_to; transport = some transport } in
    let other =
      swap-IsApart p.before l k p.after refl refl (λ h. (transport, refl))
        (subst IsApart p.cut d.apart) in
    let r =
      move_hook-Lists (record t { listeners = set_listener k t.listeners }) l.transport x transport
        l.address hx in
    let now =
      r.listeners
      ∙ ap (set_listener k) p.cut
      ∙ set_listener_middle p.before l k p.after refl a.address_before a.address_after in
    record {
      table = r.table;
      run = rw r.run refl;
      tidy = record {
        apart = subst IsApart (sym now) other;
        fresh = λ b le.
            ap (addressed b) now
            ∙ ground (
              arith,
              d.fresh b (omega (arith, r.next_address)),
              ap (addressed b) p.cut,
              addressed-append b p.before (l ∷ p.after),
              addressed-append b p.before (k ∷ p.after),
            );
      };
      same = λ x.
          ap (λ ls. target_of (find_named x ls)) now
          ∙ rebound p.before l k p.after x a (IsApart-Around p.before k p.after other) refl
          ∙ rw (p.name, p.cut) refl;
    }

hook-Lists : (t : Table) (o : Option ℕ) (a : ℕ) → Lists t t.listeners (hook t o a)
unfolding hook
hook-Lists t none a = record { table = t; run = refl; listeners = refl; next_address = refl }
hook-Lists t (some x) a = record {
  table = set_hooks t x (t.hooks x ++ a ∷ []);
  run = refl;
  listeners = refl;
  next_address = refl;
}

if_target :
    (x name : List ℕ) (l : Listener) (o p : Option Listener)
    → o ≡ p
    → target_of (if str_eq x name then some l else o)
      ≡ (if str_eq x name then target_of (some l) else target_of p)
if_target x name l o p e = elim (Bool-cases (str_eq x name)) [
  | inl same ↦ rw same refl
  | inr other ↦ rw other (ap target_of e)
]

bind_new-Refines :
    (t : Table) (fd : ℕ) (name connect_to : List ℕ) (transport : ℕ)
    → find_named name t.listeners ≡ none
    → IsTidy t
    → Refines
        (
          ok,
          put
              (bound t)
              name
              (some (record { connect_to = connect_to; transport = some transport })),
        )
        (enlist t fd name connect_to (some transport) >>= λ t1. some (ok, t1))
unfolding enlist
bind_new-Refines t fd name connect_to transport e d =
    let l : Listener = record {
      address = t.next_address;
      fd = fd;
      local_name = name;
      connect_to = connect_to;
      transport = some transport;
    } in
    let r =
      hook-Lists (record t { listeners = t.listeners ++ l ∷ []; next_address = t.next_address + 1 })
        (some transport) l.address in
    let apart =
      snoc-IsApart t.listeners l (named-find name t.listeners e)
        (d.fresh t.next_address (omega arith)) (λ h. (transport, refl)) d.apart in
    let a = IsApart-Around t.listeners l [] apart in
    record {
      table = r.table;
      run = ap (λ m. m >>= λ t1. some (ok, t1)) r.run;
      tidy = record {
        apart = subst IsApart (sym r.listeners) apart;
        fresh = λ b le.
            ap (addressed b) r.listeners
            ∙ ground (
              arith,
              d.fresh b (omega (arith, r.next_address)),
              r.next_address,
              le,
              addressed-append b t.listeners (l ∷ []),
            );
      };
      same = λ x.
          ap (λ ls. target_of (find_named x ls)) r.listeners
          ∙ ap target_of (find_at t.listeners l [] x a)
          ∙ if_target x name l (find_named x (t.listeners ++ [])) (find_named x t.listeners)
              (ap (find_named x) (append-nil t.listeners));
    }

pub bind-Refines :
    (bind : List ℕ → Option ℕ) (t : Table) (name connect_to : List ℕ) (transport : ℕ)
    (no_rebind : Bool)
    → IsTidy t
    → Refines
        (spec_bind
          (is_some (bind name))
          (bound t)
          name
          (record { connect_to = connect_to; transport = some transport })
          no_rebind
          (bound t name))
        (install_listener bind t name connect_to (some transport) no_rebind)
unfolding install_listener
bind-Refines bind t name connect_to transport no_rebind d =
    elim (Option-cases (find_named name t.listeners)) [
      | inl e ↦ elim (Option-cases (bind name)) [
        | inl b ↦ rw (install_listener, e, b) (unchanged cannot_bind)
        | inr (fd, b) ↦
            rw (install_listener, e, b) (bind_new-Refines t fd name connect_to transport e d)
      ]
      | inr (l, e) ↦ elim (Bool-cases (is_special l.connect_to)) [
        | inl special ↦ rw (install_listener, e, special) (unchanged internal_error)
        | inr ordinary ↦
            rw (install_listener, e, ordinary)
              (choose no_rebind (bind_old-Refines t name connect_to transport l e ordinary d))
      ]
    ]
  where
    unchanged : (s : Status) → Refines (s, bound t) (some (s, t))
    unchanged s = record { table = t; run = refl; tidy = d; same = λ x. refl }

    choose :
        {a : Answer} {r : Option (Status × Table)} (b : Bool)
        → Refines a r
        → Refines
            (if b then (cannot_rebind, bound t) else a)
            (if b then some (cannot_rebind, t) else r)
    choose true h = unchanged cannot_rebind
    choose false h = h

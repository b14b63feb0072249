-- ===== src/Listeners/Refinement/Unbinding.antt =====
-- What the code of adb.c that takes a listener away does to the map of the listeners.
use mathlib.Core.Path.{subst}
use pax_linux.Base.{
  ℕ, ◌≡◌, refl, sym, ◌∙◌, ap, true, false, List, [], ◌∷◌, ◌++◌, Option, none, some, arith,
  if◌then◌else◌, Bool-cases, Option-cases, inl, inr, str_eq,
}
use pax_linux.Sockets.Lists.{remove}
use pax_linux.Listeners.{
  Listener, Table, find_named, unlink, remove_listener, free_listener, unhook, set_hooks,
}
use pax_linux.Listeners.Names.{
  named, addressed, IsApart, find-Place, Around, IsApart-Around, drop-IsApart, unlink_middle,
  find-append, find-named, named-append, addressed-append, str_eq→eq,
}
use pax_linux.Listeners.Refinement.{target_of, bound, spec_unbind, IsTidy, Refines}

pub find_head :
    (l : Listener) (vs : List Listener) (x : List ℕ)
    → str_eq x l.local_name ≡ true
    → find_named x (l ∷ vs) ≡ some l
unfolding find_named
find_head l vs x h = rw h refl

pub find_tail :
    (l : Listener) (vs : List Listener) (x : List ℕ)
    → str_eq x l.local_name ≡ false
    → find_named x (l ∷ vs) ≡ find_named x vs
unfolding find_named
find_tail l vs x h = rw h refl

pub find_at :
    (us : List Listener) (l : Listener) (vs : List Listener) (x : List ℕ)
    → Around us l vs
    → find_named x (us ++ l ∷ vs)
      ≡ (if str_eq x l.local_name then some l else find_named x (us ++ vs))
find_at us l vs x a = elim (Bool-cases (str_eq x l.local_name)) [
  | inl same ↦
      let gone =
        find-named x us (ap (λ n. named n us) (str_eq→eq x l.local_name same) ∙ a.name_before) in
      find-append x us (l ∷ vs) ∙ rw (gone, find_head l vs x same, same) refl
  | inr other ↦
      find-append x us (l ∷ vs) ∙ rw (find_tail l vs x other, other) (sym (find-append x us vs))
]

find_gone :
    (us : List Listener) (l : Listener) (vs : List Listener) (x : List ℕ)
    → Around us l vs
    → str_eq x l.local_name ≡ true
    → find_named x (us ++ vs) ≡ none
find_gone us l vs x a same = find-named x (us ++ vs) (
    ap (λ n. named n (us ++ vs)) (str_eq→eq x l.local_name same)
    ∙ ground (arith, named-append l.local_name us vs, a.name_before, a.name_after))

-- Taking a listener out, or putting another in its place, changes what is bound to its name alone.
unbound :
    (us : List Listener) (l : Listener) (vs : List Listener) (x : List ℕ)
    → Around us l vs
    → target_of (find_named x (us ++ vs))
      ≡ (if str_eq x l.local_name then none else target_of (find_named x (us ++ l ∷ vs)))
unbound us l vs x a = elim (Bool-cases (str_eq x l.local_name)) [
  | inl same ↦ rw same (ap target_of (find_gone us l vs x a same))
  | inr other ↦ rw (find_at us l vs x a, other) refl
]

pub rebound :
    (us : List Listener) (l k : Listener) (vs : List Listener) (x : List ℕ)
    → Around us l vs
    → Around us k vs
    → k.local_name ≡ l.local_name
    → target_of (find_named x (us ++ k ∷ vs)) ≡ (
        if str_eq x l.local_name
        then target_of (some k)
        else target_of (find_named x (us ++ l ∷ vs)))
rebound us l k vs x a b e = elim (Bool-cases (str_eq x l.local_name)) [
  | inl same ↦ rw (find_at us k vs x b, ap (str_eq x) e, same) refl
  | inr other ↦ rw (find_at us k vs x b, find_at us l vs x a, ap (str_eq x) e, other) refl
]

-- The run has a result with these listeners, and no address was given out.
pub record Lists (t : Table) (ls : List Listener) (r : Option Table) : Type 0 where
  pub table : Table
  pub run : r ≡ some table
  pub listeners : table.listeners ≡ ls
  pub next_address : table.next_address ≡ t.next_address

unhook-Lists : (t : Table) (o : Option ℕ) (a : ℕ) → Lists t t.listeners (unhook t o a)
unfolding unhook
unhook-Lists t none a = record { table = t; run = refl; listeners = refl; next_address = refl }
unhook-Lists t (some x) a = record {
  table = set_hooks t x (remove a (t.hooks x));
  run = refl;
  listeners = refl;
  next_address = refl;
}

freed : Table → Listener → Table
freed t l = record t { listeners = unlink l.address t.listeners; closed = t.closed ++ l.fd ∷ [] }

pub free-Lists :
    (t : Table) (us : List Listener) (l : Listener) (vs : List Listener)
    → t.listeners ≡ us ++ l ∷ vs
    → Around us l vs
    → Lists t (us ++ vs) (free_listener t l)
unfolding freed
free-Lists t us l vs e a =
    let d = unhook-Lists (freed t l) l.transport l.address in
    record {
      table = d.table;
      run = unfold free_listener in d.run;
      listeners =
          d.listeners
          ∙ ap (unlink l.address) e
          ∙ unlink_middle us l vs a.address_before a.address_after;
      next_address = d.next_address;
    }

pub around :
    (t : Table) (us : List Listener) (l : Listener) (vs : List Listener)
    → t.listeners ≡ us ++ l ∷ vs
    → IsTidy t
    → Around us l vs
around t us l vs e d = IsApart-Around us l vs (subst IsApart e d.apart)

pub fewer-IsTidy :
    (t k : Table) (us : List Listener) (l : Listener) (vs : List Listener)
    → t.listeners ≡ us ++ l ∷ vs
    → k.listeners ≡ us ++ vs
    → k.next_address ≡ t.next_address
    → IsTidy t
    → IsTidy k
fewer-IsTidy t k us l vs e f n d = record {
  apart = subst IsApart (sym f) (drop-IsApart us l vs (subst IsApart e d.apart));
  fresh = λ a le.
      ap (addressed a) f
      ∙ ground (
        arith,
        d.fresh a (omega (arith, n)),
        ap (addressed a) e,
        addressed-append a us (l ∷ vs),
        addressed-append a us vs,
      );
}

pub unbind-Refines :
    (t : Table) (name : List ℕ) (transport : Option ℕ)
    → IsTidy t
    → Refines (spec_unbind (bound t) name (bound t name)) (remove_listener t name transport)
unfolding remove_listener
unbind-Refines t name transport d = elim (Option-cases (find_named name t.listeners)) [
  | inl e ↦ rw (remove_listener, e) (record { table = t; run = refl; tidy = d; same = λ x. refl })
  | inr (l, e) ↦
      let p = find-Place name t.listeners l e in
      let a = around t p.before l p.after p.cut d in
      let r = free-Lists t p.before l p.after p.cut a in
      rw (remove_listener, e)
        (record {
          table = r.table;
          run = rw r.run refl;
          tidy = fewer-IsTidy t r.table p.before l p.after p.cut r.listeners r.next_address d;
          same = λ x.
              ap (λ ls. target_of (find_named x ls)) r.listeners
              ∙ unbound p.before l p.after x a
              ∙ rw (p.name, p.cut) refl;
        })
]

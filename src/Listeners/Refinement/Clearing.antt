-- ===== src/Listeners/Refinement/Clearing.antt =====
-- `remove_all_listeners` of adb.c on the map of the listeners.
use pax_linux.Base.{
  ℕ, ◌≡◌, refl, sym, ◌∙◌, ap, true, List, [], ◌∷◌, ◌++◌, append_assoc, Option, some, if◌then◌else◌,
  Bool-cases, inl, inr, str_eq,
}
use pax_linux.Listeners.{
  Listener, Table, ok, find_named, is_special, remove_all_listeners, remove_ordinary, ◌>>=◌,
}
use pax_linux.Listeners.Names.{named, IsApart, find-named, str_eq→eq}
use pax_linux.Listeners.Refinement.{target_of, bound, only_special, IsTidy, Refines}
use pax_linux.Listeners.Refinement.Unbinding.{
  find_head, find_tail, free-Lists, around, fewer-IsTidy,
}

abbrev specials : List Listener → List Listener
specials [] = []
specials (l ∷ rest) = if is_special l.connect_to then l ∷ specials rest else specials rest

-- What is left of the walk over the listeners `ls`, behind `ps`.
record Walked (ps ls : List Listener) (r : Option Table) : Type 0 where
  table : Table
  run : r ≡ some table
  listeners : table.listeners ≡ ps ++ specials ls
  tidy : IsTidy table

walk :
    (ps ls : List Listener) (t : Table)
    → t.listeners ≡ ps ++ ls
    → IsTidy t
    → Walked ps ls (remove_ordinary ls t)
unfolding remove_ordinary
walk ps [] t e d = record { table = t; run = refl; listeners = e; tidy = d }
walk ps (l ∷ rest) t e d = elim (Bool-cases (is_special l.connect_to)) [
  | inl special ↦
      let w = walk (ps ++ l ∷ []) rest t (e ∙ sym (append_assoc ps (l ∷ []) rest)) d in
      record {
        table = w.table;
        run = rw special w.run;
        listeners = w.listeners ∙ append_assoc ps (l ∷ []) (specials rest) ∙ rw special refl;
        tidy = w.tidy;
      }
  | inr ordinary ↦
      let r = free-Lists t ps l rest e (around t ps l rest e d) in
      let w =
        walk ps rest r.table r.listeners
          (fewer-IsTidy t r.table ps l rest e r.listeners r.next_address d) in
      record {
        table = w.table;
        run = rw (ordinary, r.run) w.run;
        listeners = w.listeners ∙ rw ordinary refl;
        tidy = w.tidy;
      }
]

special_target :
    (l : Listener)
    → is_special l.connect_to ≡ true
    → target_of (some l) ≡ only_special (target_of (some l))
special_target l h = rw h refl

find-specials :
    (ls : List Listener) (x : List ℕ)
    → IsApart ls
    → target_of (find_named x (specials ls)) ≡ only_special (target_of (find_named x ls))
find-specials [] x d = unfold find_named in refl
find-specials (l ∷ rest) x (n, a, o, d) = elim (Bool-cases (is_special l.connect_to)) [
  | inl special ↦ elim (Bool-cases (str_eq x l.local_name)) [
    | inl same ↦
        rw (find_head l rest x same) (
          rw special (ap target_of (find_head l (specials rest) x same)) ∙ special_target l special)
    | inr other ↦
        rw (find_tail l rest x other)
          (rw special (ap target_of (find_tail l (specials rest) x other)) ∙ find-specials rest x d)
  ]
  | inr ordinary ↦ elim (Bool-cases (str_eq x l.local_name)) [
    | inl same ↦
        let gone = find-named x rest (ap (λ y. named y rest) (str_eq→eq x l.local_name same) ∙ n) in
        rw (find_head l rest x same)
          (rw ordinary (find-specials rest x d ∙ ap (λ o. only_special (target_of o)) gone))
    | inr other ↦ rw (find_tail l rest x other) (rw ordinary (find-specials rest x d))
  ]
]

pub unbind_all-Refines :
    (t : Table)
    → IsTidy t
    → Refines (ok, λ x. only_special (bound t x)) (remove_all_listeners t >>= λ t1. some (ok, t1))
unfolding remove_all_listeners
unbind_all-Refines t d =
    let w = walk [] t.listeners t refl d in
    record {
      table = w.table;
      run = ap (λ m. m >>= λ t1. some (ok, t1)) w.run;
      tidy = w.tidy;
      same = λ x.
          ap (λ ls. target_of (find_named x ls)) w.listeners ∙ find-specials t.listeners x d.apart;
    }

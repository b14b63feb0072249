-- ===== src/Fdevent/Select/Processing.antt =====
-- `fdevent_process` of fdevent.c as a whole: the loop over the descriptors.
use pax_linux.Base.{
  ltb, ℕ, zero, suc, ◌+◌, ◌-◌, ◌≤◌, ◌<◌, ◌≡◌, refl, sym, ◌∙◌, ap, Bool, true, false, List, Option,
  some, arith, ◌==◌, Bool-cases, inl, inr,
}
use pax_linux.Fdevent.Pending.{◌>>=◌}
use pax_linux.Fdevent.{Loop, no_events, same_events, store_event, fd_setsize}
use pax_linux.Fdevent.Select.{
  Selected, reported, signal, scan_fds, bit, dispatch, fdevent_process, returned,
}
use pax_linux.Fdevent.Tables.{entry-some}
use pax_linux.Fdevent.Consistent.{IsConsistent}
use pax_linux.Fdevent.Select.Signals.{
  reports, signalled, total, total-none, Scanned, IsHonest, quiet_report, nothing_left, pass_over,
  signal_first,
}

scan_fds-signal :
    (s : Selected) (k i n a : ℕ) (l j : Loop)
    → (n == 0) ≡ false
    → ltb i fd_setsize ≡ true
    → same_events (reported s i) no_events ≡ false
    → i < l.fd_table_max
    → l.fd_table i ≡ some a
    → signal l a (reported s i) ≡ some j
    → scan_fds s (suc k) i n l
      ≡ scan_fds s k (i + 1) (n - (bit (s.rfd i) + bit (s.wfd i) + bit (s.efd i))) j
unfolding scan_fds
scan_fds-signal s k i n a l j more in_set found lt e run =
    rw (more, in_set, found, entry-some l i lt, e, run) refl

is_reported :
    (s : Selected) (i : ℕ) → same_events (reported s i) no_events ≡ false → reports s i ≡ true
is_reported s i h = ground arith

not_reported :
    (s : Selected) (i : ℕ) → same_events (reported s i) no_events ≡ true → reports s i ≡ false
not_reported s i h = ground arith

in_set : (i k n : ℕ) → n ≤ fd_setsize → i + suc k ≡ n → ltb i fd_setsize ≡ true
in_set i k n fits e = ground arith

-- The run goes on after another step.
after_step :
    (s : Selected) (i : ℕ) (l : Loop) (xs : List ℕ) (r r' : Option Loop)
    → r ≡ r'
    → Scanned s i l xs r'
    → Scanned s i l xs r
after_step s i l xs r r' e d = rw e d

scan_fds-Scanned :
    (s : Selected) (k i n : ℕ) (l : Loop) (xs : List ℕ)
    → i + k ≡ l.select_n
    → total s k i ≤ n
    → IsHonest l s
    → IsConsistent l xs
    → Scanned s i l xs (scan_fds s k i n l)
scan_fds-Scanned s zero i n l xs e le honest c =
    unfold scan_fds in
    nothing_left s i l xs (λ a f p h. absurd (omega (arith, (c.tabled.found a f p).0))) c
scan_fds-Scanned s (suc k) i n l xs e le honest c = elim (Bool-cases (n == 0)) [
  | inl done ↦
      after_step s i l xs (scan_fds s (suc k) i n l) (some l) (unfold scan_fds in rw done refl) (
        nothing_left s i l xs
          (λ a f p h.
            let (r, w, x) =
              total-none s (suc k) i f.fd (ground (arith, le)) h
                (omega (arith, (c.tabled.found a f p).0)) in
            quiet_report s f.fd r w x)
          c)
  | inr more ↦ elim (Bool-cases (same_events (reported s i) no_events)) [
    | inl none_here ↦
        after_step s i l xs (scan_fds s (suc k) i n l)
          (scan_fds s k (i + 1) (n - (bit (s.rfd i) + bit (s.wfd i) + bit (s.efd i))) l)
          (unfold scan_fds in rw (more, in_set i k l.select_n c.tabled.fits e, none_here) refl)
          (pass_over s i l xs _ (not_reported s i none_here)
            (scan_fds-Scanned s k (i + 1) _ l xs (omega arith) (omega arith) honest c))
    | inr found ↦
        let (a, f, p, at_i) = c.tabled.backed i (honest i (is_reported s i found)) in
        let (lt, entry_a) = c.tabled.found a f p in
        let sg = signalled l xs a f (reported s i) p.0 c in
        let d =
          scan_fds-Scanned s k (i + 1) (n - (bit (s.rfd i) + bit (s.wfd i) + bit (s.efd i)))
            (store_event (record l { links = sg.links }) a sg.event) sg.list (omega arith)
            (omega arith) honest sg.consistent in
        record {
          loop = d.loop;
          list = d.list;
          run =
              scan_fds-signal s k i n a l (store_event (record l { links = sg.links }) a sg.event)
                more (in_set i k l.select_n c.tabled.fits e) found
                (omega (arith, at_i, c.tabled.room)) (ap l.fd_table (sym at_i) ∙ entry_a) sg.run
              ∙ d.run;
          consistent = d.consistent;
          handled =
              signal_first s i l d.loop xs d.list a f _ sg c.tabled p at_i (is_reported s i found)
                d.handled;
        }
  ]
]

-- Where `select` counted every descriptor in its sets and reported only watched ones,
-- `fdevent_process` does not fault and keeps the tables and the pending list consistent; every
-- active event has the reported events of its descriptor added to its own, and is pending
-- afterwards if it was before or if something was reported for it, and only then.
pub process-Scanned :
    (valid : ℕ → Bool) (s : Selected) (l : Loop) (xs : List ℕ)
    → total s l.select_n 0 ≤ s.count
    → (s.count == 0) ≡ false
    → IsHonest l s
    → IsConsistent l xs
    → Scanned s 0 l xs (fdevent_process valid (returned s) l)
unfolding fdevent_process dispatch
process-Scanned valid s l xs le some_count honest c =
    after_step s 0 l xs _ (scan_fds s l.select_n 0 s.count l) (rw (some_count, ◌>>=◌) refl)
      (scan_fds-Scanned s l.select_n 0 s.count l xs (omega arith) le honest c)

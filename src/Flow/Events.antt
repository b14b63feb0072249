-- ===== src/Flow/Events.antt =====
-- `local_socket_event_func` of sockets.c where the descriptor can be written (FDE_WRITE).
use mathlib.Core.Path.{subst}
use pax_linux.Base.{
  ◌⊎◌, inl, inr, sym, append-nil, Bool-cases, arith, ℕ, Bool, true, false, not, List, [], ◌∷◌, ◌++◌,
  some, take, drop, ◌≡◌, refl, ap, ◌∙◌, if◌then◌else◌, take-append-drop, append_assoc,
}
use pax_linux.Io.{WriteEvent, took, interrupted, again, broken}
use pax_linux.Adb.{M, ◌>>=◌, ◌>>◌, pure, load, store, deref, wrote}
use pax_linux.Sockets.{close_socket}
use pax_linux.Sockets.Lists.{is_nil}
use pax_linux.Flow.Push.{Pushed}
use pax_linux.Flow.{ready_socket}

-- The inner loop: unlike the one of `local_socket_enqueue` it goes on after EINTR.
pub flush_bytes : List WriteEvent → List ℕ → Pushed
flush_bytes left [] = record { written = []; rest = []; failed = false; left = left }
flush_bytes [] (b ∷ bs) = record { written = []; rest = b ∷ bs; failed = false; left = [] }
flush_bytes (again ∷ left) (b ∷ bs) = record {
  written = [];
  rest = b ∷ bs;
  failed = false;
  left = left;
}
flush_bytes (interrupted ∷ left) (b ∷ bs) = flush_bytes left (b ∷ bs)
flush_bytes (broken ∷ left) (b ∷ bs) = record {
  written = [];
  rest = b ∷ bs;
  failed = true;
  left = left;
}
flush_bytes (took k ∷ left) (b ∷ bs) =
    let r = flush_bytes left (drop k bs) in record r { written = b ∷ take k bs ++ r.written }

-- What went out of the queue and what is left of it.
pub record Drained : Type 0 where
  pub written : List ℕ
  pub rest : List (List ℕ)
  pub failed : Bool
  pub left : List WriteEvent

-- The outer loop: the next packet once one is written whole.
pub drain : List WriteEvent → List (List ℕ) → Drained
unfolding flush_bytes
drain events [] = record { written = []; rest = []; failed = false; left = events }
drain events (p ∷ ps) =
    let r = flush_bytes events p in
    let d = drain r.left ps in
    if is_nil r.rest
    then record d { written = r.written ++ d.written }
    else record { written = r.written; rest = r.rest ∷ ps; failed = r.failed; left = r.left }

unfoldable pub drain_out : ℕ → List (List ℕ) → M Drained
unfolding drain
drain_out fd pkts st =
    let d = drain st.writes pkts in
    let done = if is_nil d.written then st.events else st.events ++ wrote fd d.written ∷ [] in
    some (d, record st { writes = d.left; events = done })

-- Everything is written: the descriptor is no longer watched, and the peer may send more.
unfoldable pub resume_peer : ℕ → M (Unit {0})
unfolding ready_socket
resume_peer a = do
  s ← load a
  store a (record s { wants_write = false })
  b ← deref s.peer
  ready_socket b

-- The part for FDE_WRITE; the result says whether the function goes on to FDE_READ.
unfoldable pub on_writable : ℕ → M Bool
unfolding drain_out close_socket resume_peer
on_writable a = do
  s ← load a
  d ← drain_out s.fd s.pkts
  store a (record s { pkts = d.rest })
  if d.failed
      then (close_socket a >> pure false)
      else if not (is_nil d.rest)
      then pure false
      else if s.closing
      then (close_socket a >> pure false)
      else (resume_peer a >> pure true)

-- The bytes of the queue, in order.
abbrev pub queued : List (List ℕ) → List ℕ
queued [] = []
queued (p ∷ ps) = p ++ queued ps

flush_bytes_whole :
    (events : List WriteEvent) (bs : List ℕ)
    → (flush_bytes events bs).written ++ (flush_bytes events bs).rest ≡ bs
unfolding flush_bytes
flush_bytes_whole events [] = refl
flush_bytes_whole [] (b ∷ bs) = refl
flush_bytes_whole (again ∷ left) (b ∷ bs) = refl
flush_bytes_whole (interrupted ∷ left) (b ∷ bs) = flush_bytes_whole left (b ∷ bs)
flush_bytes_whole (broken ∷ left) (b ∷ bs) = refl
flush_bytes_whole (took k ∷ left) (b ∷ bs) =
    let r = flush_bytes left (drop k bs) in
    ap (λ t. b ∷ t)
      (append_assoc (take k bs) r.written r.rest
        ∙ ap (λ t. take k bs ++ t) (flush_bytes_whole left (drop k bs))
        ∙ take-append-drop k bs)

-- From the outcomes `events` the loop comes to `left` over outcomes that do not end it.
abbrev pub Goes : List WriteEvent → List WriteEvent → Type 0
Goes [] left = [] ≡ left
Goes (took k ∷ events) left = (took k ∷ events ≡ left) ⊎ Goes events left
Goes (interrupted ∷ events) left = (interrupted ∷ events ≡ left) ⊎ Goes events left
Goes (again ∷ events) left = again ∷ events ≡ left
Goes (broken ∷ events) left = broken ∷ events ≡ left

pub Goes-refl : (events : List WriteEvent) → Goes events events
Goes-refl [] = refl
Goes-refl (took k ∷ events) = inl refl
Goes-refl (interrupted ∷ events) = inl refl
Goes-refl (again ∷ events) = refl
Goes-refl (broken ∷ events) = refl

pub Goes-trans : (a b c : List WriteEvent) → Goes a b → Goes b c → Goes a c
Goes-trans [] b c h k = subst (λ x. Goes x c) (sym h) k
Goes-trans (took n ∷ a) b c (inl h) k = subst (λ x. Goes x c) (sym h) k
Goes-trans (took n ∷ a) b c (inr h) k = inr (Goes-trans a b c h k)
Goes-trans (interrupted ∷ a) b c (inl h) k = subst (λ x. Goes x c) (sym h) k
Goes-trans (interrupted ∷ a) b c (inr h) k = inr (Goes-trans a b c h k)
Goes-trans (again ∷ a) b c h k = subst (λ x. Goes x c) (sym h) k
Goes-trans (broken ∷ a) b c h k = subst (λ x. Goes x c) (sym h) k

-- Why a loop over the outcomes has stopped: nothing is left to write, the descriptor would block
-- (as it does with no outcome left), or it has failed.
pub data Stops (events left : List WriteEvent) : Bool → Bool → Type 0 where
  emptied : Goes events left → Stops events left true false
  blocked : Goes events (again ∷ left) → Stops events left false false
  exhausted : Goes events [] → left ≡ [] → Stops events left false false
  failing : Goes events (broken ∷ left) → Stops events left false true

Stops-then :
    (a b left : List WriteEvent) (nothing_left failed : Bool)
    → Goes a b
    → Stops b left nothing_left failed
    → Stops a left nothing_left failed
Stops-then a b left n f g (emptied h) = emptied (Goes-trans a b left g h)
Stops-then a b left n f g (blocked h) = blocked (Goes-trans a b (again ∷ left) g h)
Stops-then a b left n f g (exhausted h e) = exhausted (Goes-trans a b [] g h) e
Stops-then a b left n f g (failing h) = failing (Goes-trans a b (broken ∷ left) g h)

Stops_end : (a left : List WriteEvent) (failed : Bool) → Stops a left true failed → Goes a left
Stops_end a left f (emptied h) = h

took_Goes : (k : ℕ) (events : List WriteEvent) → Goes (took k ∷ events) events
took_Goes k events = inr (Goes-refl events)

flush_bytes-Stops :
    (events : List WriteEvent) (bs : List ℕ)
    → let r = flush_bytes events bs in Stops events r.left (is_nil r.rest) r.failed
unfolding flush_bytes
flush_bytes-Stops events [] = emptied (Goes-refl events)
flush_bytes-Stops [] (b ∷ bs) = exhausted refl refl
flush_bytes-Stops (again ∷ left) (b ∷ bs) = blocked refl
flush_bytes-Stops (interrupted ∷ left) (b ∷ bs) =
    Stops-then (interrupted ∷ left) left _ _ _ (inr (Goes-refl left))
      (flush_bytes-Stops left (b ∷ bs))
flush_bytes-Stops (broken ∷ left) (b ∷ bs) = failing refl
flush_bytes-Stops (took k ∷ left) (b ∷ bs) =
    Stops-then (took k ∷ left) left _ _ _ (took_Goes k left) (flush_bytes-Stops left (drop k bs))

-- What `drain` does: the bytes written and those left are the bytes of the queue, in order, and it
-- stops for one of the reasons.
pub record IsDrained (events : List WriteEvent) (pkts : List (List ℕ)) (d : Drained) : Type 0 where
  pub whole : d.written ++ queued d.rest ≡ queued pkts
  pub stops : Stops events d.left (is_nil d.rest) d.failed

pub drain-IsDrained :
    (events : List WriteEvent) (pkts : List (List ℕ)) → IsDrained events pkts (drain events pkts)
unfolding drain
drain-IsDrained events [] = record { whole = refl; stops = emptied (Goes-refl events) }
drain-IsDrained events (p ∷ ps) =
    let r = flush_bytes events p in
    let ih = drain-IsDrained r.left ps in
    let stop = flush_bytes-Stops events p in
    let whole = flush_bytes_whole events p in
    elim (Bool-cases (is_nil r.rest)) [
      | inl out ↦ rw out (record {
        whole =
            append_assoc r.written (drain r.left ps).written (queued (drain r.left ps).rest)
            ∙ ap (λ t. r.written ++ t) ih.whole
            ∙ ap (λ t. t ++ queued ps) (none_left r.rest r.written out ∙ whole);
        stops =
            Stops-then events r.left _ _ _
              (Stops_end events r.left r.failed
                (subst (λ b. Stops events r.left b r.failed) out stop))
              ih.stops;
      })
      | inr some_left ↦ rw some_left (record {
        whole = sym (append_assoc r.written r.rest (queued ps)) ∙ ap (λ t. t ++ queued ps) whole;
        stops = subst (λ b. Stops events r.left b r.failed) some_left stop;
      })
    ]
  where
    none_left : (rest written : List ℕ) → is_nil rest ≡ true → written ≡ written ++ rest
    none_left [] written h = sym (append-nil written)
    none_left (b ∷ rest) written h = absurd (ground arith)

-- ===== src/Flow/Arrival.antt =====
-- Bytes that arrive for a local socket: what `local_socket_enqueue` does with them.
use mathlib.Core.Path.{subst}
use pax_linux.Base.{
  append-nil, take, drop, Bool, not, ◌&&◌, ℕ, ◌≡◌, ◌≢◌, ◌∙◌, sym, ap, refl, inl, inr, true, false,
  Bool-cases, List, [], ◌∷◌, ◌++◌, Option, none, some, arith, if◌then◌else◌,
}
use pax_linux.Adb.{Socket, Adb, ◌>>◌, pure, update, wrote}
use pax_linux.Adb.Steps.{Returns, Ensures}
use pax_linux.Sockets.{close_socket}
use pax_linux.Flow.{Enqueued, more, not_ready, local_socket_enqueue, write_out, queue}
use pax_linux.Sockets.Lists.{is_nil}
use pax_linux.Flow.Push.{
  Pushed, push_bytes, push_bytes_whole, accepted, fails, is_empty, push_bytes-IsPushed,
}
use pax_linux.Io.{WriteEvent}
use pax_linux.Sockets.Retire.{IsSound, Settled, close_socket-IsSound}
use pax_linux.Sockets.Tweak.{Tweaked, Tweaked-IsSound, same_sockets-IsSound}

-- The state after bytes went out.
abbrev pub after_write : ℕ → Pushed → Adb → Adb
after_write fd r st = record st {
  writes = r.left;
  events = if is_nil r.written then st.events else st.events ++ wrote fd r.written ∷ [];
}

-- The socket with more bytes to write.
abbrev pub with_backlog : Socket → List ℕ → Socket
with_backlog s rest = record s { pkts = s.pkts ++ rest ∷ []; wants_write = true }

abbrev pub stored : ℕ → Socket → Adb → Adb
stored a s st = record st { heap = update st.heap a (some s) }

module _ (a : ℕ) (bs : List ℕ) (s : Socket) (st : Adb) (h : st.heap a ≡ some s) where
  enqueue_behind :
      is_nil s.pkts ≡ false
      → local_socket_enqueue a bs st ≡ some (not_ready, stored a (with_backlog s bs) st)
  unfolding local_socket_enqueue queue
  enqueue_behind waits = ground arith

  enqueue_whole :
      is_nil s.pkts ≡ true
      → (push_bytes st.writes bs).failed ≡ false
      → is_nil (push_bytes st.writes bs).rest ≡ true
      → local_socket_enqueue a bs st ≡ some (more, after_write s.fd (push_bytes st.writes bs) st)
  unfolding local_socket_enqueue write_out
  enqueue_whole free fine all = ground arith

  enqueue_part :
      is_nil s.pkts ≡ true
      → (push_bytes st.writes bs).failed ≡ false
      → is_nil (push_bytes st.writes bs).rest ≡ false
      → local_socket_enqueue a bs st
        ≡ some (
          not_ready,
          stored a
              (with_backlog s (push_bytes st.writes bs).rest)
              (after_write s.fd (push_bytes st.writes bs) st),
        )
  unfolding local_socket_enqueue write_out queue
  enqueue_part free fine some_left = ground arith

  enqueue_failed :
      is_nil s.pkts ≡ true
      → (push_bytes st.writes bs).failed ≡ true
      → local_socket_enqueue a bs st
        ≡ (close_socket a >> pure not_ready) (after_write s.fd (push_bytes st.writes bs) st)
  unfolding local_socket_enqueue write_out
  enqueue_failed free broke = ground arith

-- The bytes that the descriptor accepts, and the others.
abbrev pub out_now : List ℕ → Adb → List ℕ
out_now bs st = take (accepted st.writes) bs

abbrev pub left_over : List ℕ → Adb → List ℕ
left_over bs st = drop (accepted st.writes) bs

-- The state once these bytes went out, of which `left` are the outcomes not yet used.
abbrev pub gone_out : ℕ → List ℕ → List WriteEvent → Adb → Adb
gone_out fd written left st = record st {
  writes = left;
  events = if is_nil written then st.events else st.events ++ wrote fd written ∷ [];
}

-- What has become of the bytes `bs` at the socket `s`: all written, behind a backlog that waits
-- already, in part written with the rest queued because the descriptor would block, or the
-- descriptor failed with bytes left and the socket is closed.
pub data Arrived (a : ℕ) (bs : List ℕ) (s : Socket) (st : Adb) : Enqueued → Adb → Type 0 where
  all_written :
      s.pkts ≡ []
      → left_over bs st ≡ []
      → (left : List WriteEvent) → Arrived a bs s st more (gone_out s.fd bs left st)
  behind : s.pkts ≢ [] → Arrived a bs s st not_ready (stored a (with_backlog s bs) st)
  part_written :
      s.pkts ≡ []
      → left_over bs st ≢ []
      → fails st.writes ≡ false
      → (left : List WriteEvent)
      → Arrived a bs s st not_ready
          (stored a (with_backlog s (left_over bs st)) (gone_out s.fd (out_now bs st) left st))
  broke :
      s.pkts ≡ []
      → left_over bs st ≢ []
      → fails st.writes ≡ true
      → (left : List WriteEvent) (st' : Adb) → Settled a (gone_out s.fd (out_now bs st) left st) st'
      → Arrived a bs s st not_ready st'

is_nil-true : {A : Type 0} (xs : List A) → is_nil xs ≡ true → xs ≡ []
is_nil-true [] h = refl
is_nil-true (x ∷ xs) h = cc

is_nil-false : {A : Type 0} (xs : List A) → is_nil xs ≡ false → xs ≢ []
is_nil-false [] h e = cc
is_nil-false (x ∷ xs) h e = cc

backlog-Tweaked :
    (a : ℕ) (s : Socket) (rest : List ℕ) (st st1 : Adb)
    → st.heap a ≡ some s
    → st1.heap ≡ st.heap
    → st1.local_list ≡ st.local_list
    → st1.next_address ≡ st.next_address
    → st1.transports ≡ st.transports
    → Tweaked a s (with_backlog s rest) st (stored a (with_backlog s rest) st1)
backlog-Tweaked a s rest st st1 h he l n t = record {
  was = h;
  now = ground arith;
  others = λ x ne. ground (arith, ap (λ f. f x) he);
  peer = refl;
  linked = refl;
  local = λ v. record { close = v.close; ready = v.ready; enqueue = v.enqueue };
  sends = λ k. k;
  transport = refl;
  local_list = l;
  next_address = n;
  transports = λ i. ap (λ f. elim (f i) [ none ↦ none | some r ↦ some r.online ]) t;
}

after_close :
    (a : ℕ) (st : Adb) (P : Adb → Type 0)
    → Ensures (close_socket a st) P
    → Returns ((close_socket a >> pure not_ready) st) (λ res st'. (res ≡ not_ready) × P st')
after_close a st P k = after (close_socket a st) k
  where
    after :
        (r : Option (Unit {0} × Adb))
        → Ensures r P
        → Returns
            (elim r [ none ↦ none | some (u, st') ↦ some (not_ready, st') ])
            (λ res st'. (res ≡ not_ready) × P st')
    after none g = g
    after (some (u, st')) g = (refl, g)

Returns_map :
    {A : Type 0} (r : Option (A × Adb)) (P Q : A → Adb → Type 0)
    → Returns r P
    → ((x : A) (st : Adb) → P x st → Q x st)
    → Returns r Q
Returns_map none P Q g step = g
Returns_map (some (x, st)) P Q g step = step x st g

not_failed : (b : Bool) (bs : List ℕ) → (b && not (is_empty bs)) ≡ false → bs ≢ [] → b ≡ false
not_failed b [] h ne = absurd (ne refl)
not_failed b (x ∷ bs) h ne = ground arith

has_failed : (b : Bool) (bs : List ℕ) → (b && not (is_empty bs)) ≡ true → (b ≡ true) × (bs ≢ [])
has_failed b [] h = absurd (ground arith)
has_failed b (x ∷ bs) h = (ground arith, λ e. cc e)

-- Bytes that arrive for a live local socket of a sound state: no fault, and the state stays sound.
-- Behind a backlog they are queued. Else those that the descriptor accepts are written; if these
-- are all, 0 is returned; the others are queued if the descriptor would block, and where a write
-- fails in another way the socket is closed, and its peer with it.
pub local_socket_enqueue-Arrived :
    (a : ℕ) (bs : List ℕ) (s : Socket) (st : Adb)
    → IsSound st
    → st.heap a ≡ some s
    → Returns (local_socket_enqueue a bs st) (λ res st'. IsSound st' × Arrived a bs s st res st')
local_socket_enqueue-Arrived a bs s st v h =
    let r = push_bytes st.writes bs in
    let p = push_bytes-IsPushed st.writes bs in
    let st1 = after_write s.fd r st in
    let Q : Enqueued → Adb → Type 0 = λ res st'. IsSound st' × Arrived a bs s st res st' in
    let sound1 = same_sockets-IsSound st st1 v refl refl refl refl in
    elim (Bool-cases (is_nil s.pkts)) [
      | inr waits ↦
          subst (λ x. Returns x Q) (sym (enqueue_behind a bs s st h waits))
            (
              Tweaked-IsSound a s (with_backlog s bs) st (stored a (with_backlog s bs) st) v
                  (backlog-Tweaked a s bs st st h refl refl refl refl),
              behind (is_nil-false s.pkts waits),
            )
      | inl free ↦
          let nil = is_nil-true s.pkts free in
          elim (Bool-cases r.failed) [
            | inl bad ↦
                let (err, some_left) = has_failed (fails st.writes) r.rest (sym p.failed ∙ bad) in
                subst (λ x. Returns x Q) (sym (enqueue_failed a bs s st h free bad))
                  (Returns_map _ _ Q (after_close a st1 _ (close_socket-IsSound a s st1 sound1 h))
                    λ res st' (e, (v', d)). (
                      v',
                      subst (λ x. Arrived a bs s st x st') (sym e)
                          (broke nil (λ z. some_left (p.rest ∙ z)) err r.left st'
                            (subst (λ w. Settled a (gone_out s.fd w r.left st) st') p.written d)),
                    ))
            | inr fine ↦ elim (Bool-cases (is_nil r.rest)) [
              | inl all ↦
                  let none_left = is_nil-true r.rest all in
                  let whole : r.written ≡ bs =
                    sym (append-nil r.written)
                    ∙ ap (λ t. r.written ++ t) (sym none_left)
                    ∙ push_bytes_whole st.writes bs in
                  subst (λ x. Returns x Q) (sym (enqueue_whole a bs s st h free fine all))
                    (
                      sound1,
                      subst (λ w. Arrived a bs s st more (gone_out s.fd w r.left st)) (sym whole)
                          (all_written nil (sym p.rest ∙ none_left) r.left),
                    )
              | inr left ↦
                  let some_left = is_nil-false r.rest left in
                  subst (λ x. Returns x Q) (sym (enqueue_part a bs s st h free fine left))
                    (
                      Tweaked-IsSound a s (with_backlog s r.rest) st
                          (stored a (with_backlog s r.rest) st1) v
                          (backlog-Tweaked a s r.rest st st1 h refl refl refl refl),
                      subst
                          (λ w.
                            Arrived a bs s st not_ready
                              (stored a (with_backlog s r.rest) (gone_out s.fd w r.left st)))
                          (sym p.written)
                          (subst
                            (λ w. Arrived a bs s st not_ready (
                              stored a (with_backlog s w)
                                (gone_out s.fd (out_now bs st) r.left st)))
                            (sym p.rest)
                            (part_written nil (λ z. some_left (p.rest ∙ z))
                              (not_failed (fails st.writes) r.rest (sym p.failed ∙ fine) some_left)
                              r.left)),
                    )
            ]
          ]
    ]

-- ===== src/Protocol/Draining.antt =====
-- `local_socket_event_func` of sockets.c for a writable descriptor, in a sound state.
use mathlib.Core.Bool.{false≢true}
use pax_linux.Base.{
  ℕ, ◌≡◌, ◌∙◌, sym, ap, refl, ◌⊎◌, inl, inr, Bool, true, false, not, [], ◌∷◌, ◌++◌, Option, none,
  some, arith, if◌then◌else◌, some_inj,
}
use pax_linux.Adb.{
  Socket, Adb, M, deref, Ready, local_ready, local_ready_notify, remote_ready, smart_ready, ◌>>=◌,
  ◌>>◌, pure, update, wrote, sent,
}
use pax_linux.Adb.Steps.{Returns, Ensures, Ensures_map}
use pax_linux.Sockets.{close_socket, new_packet, a_okay}
use pax_linux.Sockets.Lists.{is_nil}
use pax_linux.Sockets.Retire.{IsSound, Settled, close_socket-IsSound}
use pax_linux.Sockets.Retire.Alone.{HasTransport, IsThere}
use pax_linux.Sockets.Tweak.{Tweaked, Tweaked-IsSound, same_sockets-IsSound}
use pax_linux.Flow.{ready_socket}
use mathlib.Core.Path.{subst}
use pax_linux.Wire.{send_packet}
use pax_linux.Flow.Events.{
  Drained, IsDrained, drain-IsDrained, drain, drain_out, resume_peer, on_writable,
}
use pax_linux.Protocol.Readying.{Readied, ready_socket-Readied, Readied-Tweaked}

-- A socket that answers its peer's readiness with a packet has a transport, and a peer.
abbrev pub MayAnswer : Adb → Socket → Type 0
MayAnswer st q = q.ready ≡ remote_ready → HasTransport st q

-- What the `ready` function of the socket `q` at `b` has done, whose peer has the id `local_id`: a
-- local socket reads on, a remote one sends OKAY, a smart one does nothing.
pub data Answered (b : ℕ) (q : Socket) (local_id : ℕ) (st : Adb) : Adb → Type 0 where
  reads_on :
      (q.ready ≡ local_ready) ⊎ (q.ready ≡ local_ready_notify)
      → (st' : Adb) → Readied b q st st'
      → Answered b q local_id st st'
  sends_okay :
      q.ready ≡ remote_ready
      → (t : ℕ) → q.transport ≡ some t
      → Answered b q local_id st (record st {
        events = st.events ++ sent t (send_packet (new_packet a_okay local_id q.id [])) ∷ [];
      })
  stays : q.ready ≡ smart_ready → Answered b q local_id st st

remote_answer :
    (b c t : ℕ) (q p : Socket) (st : Adb)
    → st.heap b ≡ some q
    → q.peer ≡ some c
    → st.heap c ≡ some p
    → q.ready ≡ remote_ready
    → q.transport ≡ some t
    → Ensures (ready_socket b st) (λ st'. st' ≡ record st {
      events = st.events ++ sent t (send_packet (new_packet a_okay p.id q.id [])) ∷ [];
    })
unfolding ready_socket
remote_answer b c t q p st hb to hc e k = ground arith

transport_of : (o : Option ℕ) (st : Adb) → IsThere st o → (t : ℕ) × (o ≡ some t)
transport_of none st h = absurd h
transport_of (some t) st h = (t, refl)

-- `ready` of a socket with a peer keeps the state sound.
ready_socket-Answered :
    (b c : ℕ) (q p : Socket) (st : Adb)
    → IsSound st
    → st.heap b ≡ some q
    → q.peer ≡ some c
    → st.heap c ≡ some p
    → MayAnswer st q
    → Ensures (ready_socket b st) (λ st'. IsSound st' × Answered b q p.id st st')
ready_socket-Answered b c q p st v h to hc may = by_ready q.ready refl
  where
    local :
        (q.ready ≡ local_ready) ⊎ (q.ready ≡ local_ready_notify)
        → Ensures (ready_socket b st) (λ st'. IsSound st' × Answered b q p.id st st')
    local e =
        Ensures_map _ (Readied b q st) _ (ready_socket-Readied b q st h e) λ st' k.
          (Tweaked-IsSound b q _ st st' v (Readied-Tweaked b q st st' h k), reads_on e st' k)

    by_ready :
        (k : Ready)
        → q.ready ≡ k
        → Ensures (ready_socket b st) (λ st'. IsSound st' × Answered b q p.id st st')
    by_ready local_ready e = local (inl e)
    by_ready local_ready_notify e = local (inr e)
    by_ready remote_ready e =
        let (t, k) = transport_of q.transport st (may e) in
        Ensures_map _ _ _ (remote_answer b c t q p st h to hc e k) λ st' same.
          subst (λ x. IsSound x × Answered b q p.id st x) (sym same)
            (same_sockets-IsSound st _ v refl refl refl refl, sends_okay e t k)
    by_ready smart_ready e = unfold ready_socket in rw (h, ◌>>=◌) (rw e (v, stays refl))

-- The state when the queue has been written as far as it goes.
abbrev pub after_drain : ℕ → Socket → Drained → Adb → Adb
after_drain a s d st = record st {
  heap = update st.heap a (some (record s { pkts = d.rest }));
  writes = d.left;
  events = if is_nil d.written then st.events else st.events ++ wrote s.fd d.written ∷ [];
}

abbrev drained : ℕ → Socket → Adb → Adb
drained a s st = after_drain a s (drain st.writes s.pkts) st

-- Nothing more is to be written, so the descriptor is not watched for it.
abbrev pub unwatched : ℕ → Socket → Adb → Adb
unwatched a s st = record st { heap = update st.heap a (some (record s { wants_write = false })) }

drained-Tweaked :
    (a : ℕ) (s : Socket) (st : Adb)
    → st.heap a ≡ some s
    → Tweaked a s (record s { pkts = (drain st.writes s.pkts).rest }) st (drained a s st)
drained-Tweaked a s st h = record {
  was = h;
  now = ground arith;
  others = λ x ne. ground arith;
  peer = refl;
  linked = refl;
  local = λ l. record { close = l.close; ready = l.ready; enqueue = l.enqueue };
  sends = λ k. k;
  transport = refl;
  local_list = refl;
  next_address = refl;
  transports = λ t. refl;
}

unwatched-Tweaked :
    (a : ℕ) (s : Socket) (st : Adb)
    → st.heap a ≡ some s
    → Tweaked a s
        (record s { wants_write = false })
        st
        (record st { heap = update st.heap a (some (record s { wants_write = false })) })
unwatched-Tweaked a s st h = record {
  was = h;
  now = ground arith;
  others = λ x ne. ground arith;
  peer = refl;
  linked = refl;
  local = λ l. record { close = l.close; ready = l.ready; enqueue = l.enqueue };
  sends = λ k. k;
  transport = refl;
  local_list = refl;
  next_address = refl;
  transports = λ t. refl;
}

deref_some :
    (o : Option ℕ) (b : ℕ) (k : ℕ → M (Unit {0})) (st : Adb) (Q : Adb → Type 0)
    → o ≡ some b
    → Ensures (k b st) Q
    → Ensures ((deref o >>= k) st) Q
deref_some o b k st Q e g = rw e g

resume_peer-Answered :
    (a b : ℕ) (s q : Socket) (st : Adb)
    → IsSound st
    → st.heap a ≡ some s
    → s.peer ≡ some b
    → st.heap b ≡ some q
    → MayAnswer st q
    → Ensures (resume_peer a st) (λ st'. IsSound st' × Answered b q s.id (unwatched a s st) st')
unfolding resume_peer
resume_peer-Answered a b s q st v h to hb may =
    let st1 = unwatched a s st in
    let (q', hq', back, ne) = v.peers a b s h to in
    let back' : q.peer ≡ some a = ap (λ (x : Socket). x.peer) (some_inj (sym hb ∙ hq')) ∙ back in
    let tweak = unwatched-Tweaked a s st h in
    rw (h, ◌>>=◌)
      (deref_some s.peer b ready_socket st1 _ to (
        ready_socket-Answered b a q _ st1 (Tweaked-IsSound a s _ st st1 v tweak)
          (tweak.others b (λ e. ne (sym e)) ∙ hb) back' tweak.now may))

-- What the function has done where the descriptor of the socket `s` at `a` can be written, the
-- queue having been written as far as in `d`.
pub data Writable (a : ℕ) (s : Socket) (st : Adb) (d : Drained) : Bool → Adb → Type 0 where
  broke :
      (st' : Adb)
      → d.failed ≡ true
      → Settled a (after_drain a s d st) st'
      → Writable a s st d false st'
  backlog :
      d.failed ≡ false → is_nil d.rest ≡ false → Writable a s st d false (after_drain a s d st)
  ended :
      (st' : Adb)
      → d.failed ≡ false
      → is_nil d.rest ≡ true
      → s.closing ≡ true
      → Settled a (after_drain a s d st) st'
      → Writable a s st d false st'
  resumed :
      (st' : Adb) (b : ℕ) (q : Socket)
      → d.failed ≡ false
      → is_nil d.rest ≡ true
      → s.closing ≡ false
      → s.peer ≡ some b
      → st.heap b ≡ some q
      → Answered b q s.id (unwatched a (record s { pkts = d.rest }) (after_drain a s d st)) st'
      → Writable a s st d true st'

with_result :
    (m : M (Unit {0})) (go : Bool) (st : Adb) (P : Adb → Type 0) (Q : Bool → Adb → Type 0)
    → Ensures (m st) P
    → ((st' : Adb) → P st' → Q go st')
    → Returns ((m >> pure go) st) Q
with_result m go st P Q h step = after (m st) h
  where
    after :
        (r : Option (Unit {0} × Adb))
        → Ensures r P
        → Returns (elim r [ none ↦ none | some (u, st') ↦ some (go, st') ]) Q
    after none g = g
    after (some (u, st')) g = step st' g

Returns_if :
    (b : Bool) (m k : M Bool) (st : Adb) (Q : Bool → Adb → Type 0)
    → (b ≡ true → Returns (m st) Q)
    → (b ≡ false → Returns (k st) Q)
    → Returns ((if b then m else k) st) Q
Returns_if true m k st Q h g = h refl
Returns_if false m k st Q h g = g refl

-- Where the descriptor of a live local socket can be written, and the socket is closing or has a
-- peer that may be told, nothing faults and the state stays sound. The queue is written in order
-- until it is empty, the descriptor would block, or a write fails, interrupted ones being repeated.
-- A failed write, or the last byte of a closing socket, closes it; with bytes left the rest stays
-- queued; an empty queue is no longer waited for and its peer is told to go on, and only then is the
-- descriptor read as well.
pub on_writable-Writable :
    (a : ℕ) (s : Socket) (st : Adb)
    → IsSound st
    → st.heap a ≡ some s
    → (s.closing ≡ true)
      ⊎ ((b : ℕ) × (q : Socket) × (s.peer ≡ some b) × (st.heap b ≡ some q) × MayAnswer st q)
    → (d : Drained) × IsDrained st.writes s.pkts d
      × Returns (on_writable a st) (λ go st'. IsSound st' × Writable a s st d go st')
unfolding on_writable drain_out
on_writable-Writable a s st v h next =
    let d = drain st.writes s.pkts in
    let tweak = drained-Tweaked a s st h in
    let sound = Tweaked-IsSound a s _ st (drained a s st) v tweak in
    let closed = close_socket-IsSound a _ (drained a s st) sound tweak.now in
    (
      d,
      drain-IsDrained st.writes s.pkts,
      rw (h, ◌>>=◌)
          (Returns_if d.failed _ _ (drained a s st) _
            (λ bad.
              with_result (close_socket a) false (drained a s st) _ _ closed
                λ st' (v', k). (v', broke st' bad k))
            (λ fine.
              Returns_if (not (is_nil d.rest)) _ _ (drained a s st) _
                (λ left. (sound, backlog fine (ground arith)))
                (λ all.
                  Returns_if s.closing _ _ (drained a s st) _
                    (λ closing.
                      with_result (close_socket a) false (drained a s st) _ _ closed
                        λ st' (v', k). (v', ended st' fine (ground arith) closing k))
                    (λ running.
                      with_result (resume_peer a) true (drained a s st) Resumed _
                        (resumes sound tweak running next)
                        λ st' (v', (b, q, to, hb, k)).
                          (v', resumed st' b q fine (ground arith) running to hb k))))),
    )
  where
    Resumed : Adb → Type 0
    Resumed st' =
        IsSound st'
        × ((b : ℕ) × (q : Socket) × (s.peer ≡ some b)
            × (st.heap b ≡ some q)
            × Answered b q s.id
                (unwatched a (record s { pkts = (drain st.writes s.pkts).rest }) (drained a s st))
                st')

    resumes :
        IsSound (drained a s st)
        → Tweaked a s (record s { pkts = (drain st.writes s.pkts).rest }) st (drained a s st)
        → s.closing ≡ false
        → (s.closing ≡ true)
          ⊎ ((b : ℕ) × (q : Socket) × (s.peer ≡ some b) × (st.heap b ≡ some q) × MayAnswer st q)
        → Ensures (resume_peer a (drained a s st)) Resumed
    resumes sound tweak running (inl closing) = absurd (false≢true (sym running ∙ closing))
    resumes sound tweak running (inr (b, q, to, hb, may)) =
        let (p, hp, back, ne) = v.peers a b s h to in
        Ensures_map _ _ Resumed
          (resume_peer-Answered a b (record s { pkts = (drain st.writes s.pkts).rest }) q
            (drained a s st) sound tweak.now to (tweak.others b (λ e. ne (sym e)) ∙ hb) may)
          λ st' (v', k). (v', (b, q, to, hb, k))

-- ===== src/Protocol/Readying.antt =====
-- The `ready` functions of local sockets in sockets.c, and the first OKAY of a connection.
use mathlib.Core.Path.{subst}
use pax_linux.Base.{
  ltb, ltb→lt, ℕ, ◌+◌, ◌<◌, ◌≡◌, ◌≢◌, ◌⊎◌, inl, inr, refl, sym, ◌∙◌, ap, true, false, Bool-cases,
  [], ◌∷◌, ◌++◌, none, some, arith, if◌then◌else◌, bytes, none-ne-some, some_inj,
}
use pax_linux.Adb.{
  Transport, Adb, Socket, Ready, ◌>>=◌, ◌>>◌, load, store, wrote, local_ready, local_ready_notify,
  local_close,
}
use pax_linux.Adb.Steps.{Ensures}
use pax_linux.Sockets.{create_remote_socket, note_written}
use pax_linux.Flow.{ready_socket, write_once}
use pax_linux.Sockets.Retire.{IsSound}
use pax_linux.Sockets.Retire.Alone.{online_at, IsThere, Sends, IsLocal}
use pax_linux.Sockets.Lists.{on, is_nil}
use pax_linux.Sockets.Tweak.{Tweaked}
use pax_linux.Protocol.Opening.{remote_end, IsThere-online}
use pax_linux.Protocol.Joining.{Joined}

-- A local socket after its `ready` function: it reads from its descriptor, and is an ordinary one.
pub readied : Socket → Socket
readied s = elim s.ready [
  | local_ready ↦ record s { wants_read = true }
  | local_ready_notify ↦ record s {
    ready = local_ready;
    shutdown = false;
    close = local_close;
    wants_read = true;
  }
  | _ ↦ s
]

pub record Readied (a : ℕ) (s : Socket) (st st' : Adb) : Type 0 where
  pub local : st'.heap a ≡ some (readied s)
  pub others : (x : ℕ) → x ≢ a → st'.heap x ≡ st.heap x
  pub local_list : st'.local_list ≡ st.local_list
  pub next_address : st'.next_address ≡ st.next_address
  pub transports : (t : ℕ) → online_at st' t ≡ online_at st t
  pub told :
      s.ready ≡ local_ready_notify
      → let r = write_once st.writes (bytes "OKAY") in
        (st'.events ≡ (if is_nil r.0 then st.events else st.events ++ wrote s.fd r.0 ∷ []))
        × (st'.writes ≡ r.1)

pub ready_socket-Readied :
    (a : ℕ) (s : Socket) (st : Adb)
    → st.heap a ≡ some s
    → (s.ready ≡ local_ready) ⊎ (s.ready ≡ local_ready_notify)
    → Ensures (ready_socket a st) (Readied a s st)
unfolding ready_socket readied note_written
ready_socket-Readied a s st h (inl e) = ground arith
ready_socket-Readied a s st h (inr e) = ground arith

-- What the first OKAY for the socket `s` at `a` leaves.
pub record Connected (a : ℕ) (s : Socket) (remote t : ℕ) (st st' : Adb) : Type 0 where
  pub local : st'.heap a ≡ some (readied (record s { peer = some st.next_address }))
  pub peer : st'.heap st.next_address ≡ some (remote_end remote t a)
  pub others : (x : ℕ) → x ≢ a → x ≢ st.next_address → st'.heap x ≡ st.heap x
  pub local_list : st'.local_list ≡ st.local_list
  pub next_address : st'.next_address ≡ st.next_address + 1
  pub transports : (u : ℕ) → online_at st' u ≡ online_at st u

pub connect-Connected :
    (a : ℕ) (s : Socket) (remote t : ℕ) (st : Adb) (r : Transport)
    → st.heap a ≡ some s
    → a ≢ st.next_address
    → st.transports t ≡ some r
    → remote ≢ 0
    → (s.ready ≡ local_ready) ⊎ (s.ready ≡ local_ready_notify)
    → Ensures
        ((create_remote_socket remote t >>= λ b.
            store a (record s { peer = some b })
            >> (load b >>= λ q. store b (record q { peer = some a }) >> ready_socket a))
          st)
        (Connected a s remote t st)
unfolding ready_socket readied note_written create_remote_socket
connect-Connected a s remote t st r h ne ht nz (inl e) = ground arith
connect-Connected a s remote t st r h ne ht nz (inr e) = ground arith

readied_lem :
    (s : Socket)
    → ((readied s).peer ≡ s.peer)
      × ((readied s).linked ≡ s.linked)
      × ((readied s).transport ≡ s.transport)
      × (Sends (readied s) → Sends s)
unfolding readied
readied_lem s = (ground arith, ground arith, ground arith, readied_sends s.ready refl)
  where
    readied_sends : (k : Ready) → s.ready ≡ k → Sends (readied s) → Sends s
    readied_sends k e h = ground arith

readied-IsLocal : (s : Socket) → IsLocal s → IsLocal (readied s)
unfolding readied
readied-IsLocal s v = record {
  close = ground (arith, v.close);
  ready = ground (arith, v.ready);
  enqueue = ground (arith, v.enqueue);
}

pub Readied-Tweaked :
    (a : ℕ) (s : Socket) (st st' : Adb)
    → st.heap a ≡ some s
    → Readied a s st st'
    → Tweaked a s (readied s) st st'
Readied-Tweaked a s st st' h k =
    let (peer, linked, transport, sends) = readied_lem s in
    record {
      was = h;
      now = k.local;
      others = k.others;
      peer = peer;
      linked = linked;
      local = readied-IsLocal s;
      sends = sends;
      transport = transport;
      local_list = k.local_list;
      next_address = k.next_address;
      transports = k.transports;
    }

-- A live socket stands below the next address.
pub below_next :
    (a : ℕ) (s : Socket) (st : Adb) → IsSound st → st.heap a ≡ some s → a < st.next_address
below_next a s st v h = elim (Bool-cases (ltb a st.next_address)) [
  | inl below ↦ ltb→lt a st.next_address below
  | inr above ↦ absurd (none-ne-some (sym (v.fresh a (ground arith)) ∙ h))
]

pub Connected-Joined :
    (a : ℕ) (s : Socket) (remote t : ℕ) (st st' : Adb) (r : Transport)
    → IsSound st
    → st.heap a ≡ some s
    → s.peer ≡ none
    → s.linked ≡ true
    → IsLocal s
    → st.transports t ≡ some r
    → Connected a s remote t st st'
    → Joined a
        (readied (record s { peer = some st.next_address }))
        st.next_address
        (remote_end remote t a)
        st
        st'
Connected-Joined a s remote t st st' r v h alone lk loc ht k =
    let (peer, linked, transport, sends) = readied_lem (record s { peer = some st.next_address }) in
    record {
      heap_a = k.local;
      heap_b = k.peer;
      others = k.others;
      to = peer;
      back = refl;
      distinct = omega (arith, below_next a s st v h);
      lonely = λ x u hu to.
          let (q, hq, back, ne) = v.peers x a u hu to in
          none-ne-some (sym alone ∙ ap (λ (y : Socket). y.peer) (some_inj (sym h ∙ hq)) ∙ back);
      fresh = v.fresh st.next_address (omega arith);
      senders_a = λ c. subst (IsThere st) (sym transport) (v.senders a s h (sends c));
      senders_b = λ c. IsThere-online st t r ht;
      listed = λ x o. inl (ap (on x) (sym k.local_list) ∙ o);
      listed_a = λ o. (
        linked ∙ lk,
        readied-IsLocal (record s { peer = some st.next_address })
            (record { close = loc.close; ready = loc.ready; enqueue = loc.enqueue }),
      );
      below = omega (arith, k.next_address);
      below_a = omega (arith, k.next_address, below_next a s st v h);
      below_b = omega (arith, k.next_address);
      transports = k.transports;
    }

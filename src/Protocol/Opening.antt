-- ===== src/Protocol/Opening.antt =====
-- OPEN packets (`A_OPEN` in `handle_packet` of adb.c).
use pax_linux.Base.{
  ℕ, ◌+◌, ◌≡◌, ◌≢◌, ◌⊎◌, inl, refl, sym, ◌∙◌, ap, true, false, [], ◌∷◌, ◌++◌, none, some, arith,
  none-ne-some,
}
use pax_linux.Wire.{Packet, send_packet}
use pax_linux.Adb.{
  Transport, Adb, Socket, sent, local_enqueue, remote_enqueue, local_ready, remote_ready,
  local_close, remote_close,
}
use pax_linux.Adb.Steps.{Ensures, Ensures_map}
use pax_linux.Sockets.{new_packet, a_okay}
use pax_linux.Sockets.Lists.{on, on-append}
use pax_linux.Sockets.Retire.{IsSound}
use pax_linux.Protocol.Joining.{Joined, Joined-IsSound}
use pax_linux.Sockets.Retire.Alone.{online_at, IsThere}
use pax_linux.Protocol.{Env, handle_open, service_name}

-- The two sockets of a new connection.
abbrev pub local_end : ℕ → ℕ → ℕ → Socket
local_end id fd peer = record {
  id = id;
  linked = true;
  closing = false;
  peer = some peer;
  fd = fd;
  wants_read = true;
  wants_write = false;
  pkts = [];
  enqueue = local_enqueue;
  ready = local_ready;
  shutdown = false;
  close = local_close;
  transport = none;
}

abbrev pub remote_end : ℕ → ℕ → ℕ → Socket
remote_end id t peer = record {
  id = id;
  linked = false;
  closing = false;
  peer = some peer;
  fd = 0;
  wants_read = false;
  wants_write = false;
  pkts = [];
  enqueue = remote_enqueue;
  ready = remote_ready;
  shutdown = true;
  close = remote_close;
  transport = some t;
}

-- What an OPEN packet with the sender's id `remote` has made, for the descriptor of its service.
pub record Opened (remote t fd : ℕ) (st st' : Adb) : Type 0 where
  pub local : st'.heap st.next_address ≡ some (local_end st.next_id fd (st.next_address + 1))
  pub peer : st'.heap (st.next_address + 1) ≡ some (remote_end remote t st.next_address)
  pub others : (x : ℕ) → x ≢ st.next_address → x ≢ st.next_address + 1 → st'.heap x ≡ st.heap x
  pub local_list : st'.local_list ≡ st.local_list ++ st.next_address ∷ []
  pub next_address : st'.next_address ≡ st.next_address + 1 + 1
  pub transports : (u : ℕ) → online_at st' u ≡ online_at st u
  pub events :
      st'.events ≡ st.events ++ sent t (send_packet (new_packet a_okay st.next_id remote [])) ∷ []

handle_open-Opened :
    (env : Env) (p : Packet) (t fd : ℕ) (st : Adb) (r : Transport)
    → st.transports t ≡ some r
    → r.online ≡ true
    → p.arg0 ≢ 0
    → p.arg1 ≡ 0
    → env.service_to_fd (service_name p) ≡ some fd
    → Ensures (handle_open env p t st) (Opened p.arg0 t fd st)
unfolding handle_open
handle_open-Opened env p t fd st r ht on ne z sv = ground arith

pub IsThere-online :
    (st : Adb) (t : ℕ) (r : Transport) → st.transports t ≡ some r → IsThere st (some t)
IsThere-online st t r h = ground arith

Opened-Joined :
    (remote t fd : ℕ) (st st' : Adb) (r : Transport)
    → IsSound st
    → st.transports t ≡ some r
    → Opened remote t fd st st'
    → Joined st.next_address
        (local_end st.next_id fd (st.next_address + 1))
        (st.next_address + 1)
        (remote_end remote t st.next_address)
        st
        st'
Opened-Joined remote t fd st st' r v ht o = record {
  heap_a = o.local;
  heap_b = o.peer;
  others = o.others;
  to = refl;
  back = refl;
  distinct = omega arith;
  lonely = λ x s h to.
      let (q, hq, back, ne) = v.peers x st.next_address s h to in
      none-ne-some (sym (v.fresh st.next_address (omega arith)) ∙ hq);
  fresh = v.fresh (st.next_address + 1) (omega arith);
  senders_a = λ k. absurd (ground arith);
  senders_b = λ k. IsThere-online st t r ht;
  listed = λ x h. new_entry x h;
  listed_a = λ h. (refl, record { close = inl refl; ready = inl refl; enqueue = refl });
  below = omega (arith, o.next_address);
  below_a = omega (arith, o.next_address);
  below_b = omega (arith, o.next_address);
  transports = o.transports;
}
  where
    new_entry :
        (x : ℕ) → on x st'.local_list ≡ true → (on x st.local_list ≡ true) ⊎ (x ≡ st.next_address)
    new_entry x h =
        let e : on x (st.local_list ++ st.next_address ∷ []) ≡ true =
          ap (on x) (sym o.local_list) ∙ h in
        ground (arith, on-append x st.local_list (st.next_address ∷ []))

-- An OPEN packet of a device on an online transport, with a sender's id and no receiver's, whose
-- service has a descriptor: the state stays sound, a local socket on the descriptor and a remote
-- socket with the sender's id are each other's peers, every older socket is unchanged, and the
-- one packet sent is the OKAY that carries both ids.
pub handle_open-IsSound :
    (env : Env) (p : Packet) (t fd : ℕ) (st : Adb) (r : Transport)
    → IsSound st
    → st.transports t ≡ some r
    → r.online ≡ true
    → p.arg0 ≢ 0
    → p.arg1 ≡ 0
    → env.service_to_fd (service_name p) ≡ some fd
    → Ensures (handle_open env p t st) (λ st'. IsSound st' × Opened p.arg0 t fd st st')
handle_open-IsSound env p t fd st r v ht on ne z sv =
    Ensures_map (handle_open env p t st) (Opened p.arg0 t fd st) _
      (handle_open-Opened env p t fd st r ht on ne z sv)
      λ st' o. (
        Joined-IsSound st.next_address (st.next_address + 1)
            (local_end st.next_id fd (st.next_address + 1)) (remote_end p.arg0 t st.next_address) st
            st' v (Opened-Joined p.arg0 t fd st st' r v ht o),
        o,
      )

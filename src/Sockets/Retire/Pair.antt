-- ===== src/Sockets/Retire/Pair.antt =====
-- Closing a socket that has a peer: the pair is taken apart, and both ends are closed.
use pax_linux.Base.{
  ℕ, suc, ◌≡◌, ◌≢◌, ◌∙◌, sym, refl, ap, Option, none, some, true, ◌⊎◌, [], ◌∷◌, Option-cases, arith,
  inl, inr,
}
use pax_linux.Adb.{
  Socket, Adb, Event, sent, M, ◌>>=◌, ◌>>◌, free, local_close, local_close_notify, remote_close,
  smart_close,
}
use pax_linux.Adb.Steps.{
  Ensures, Ensures_map, Ensures_then, Ensures_both, Has, Has-snoc, Grows, Grows-refl, Grows-append,
  Grows-apply,
}
use pax_linux.Wire.{send_packet}
use pax_linux.Sockets.{
  new_packet, a_clse, close_call, unhook, clear_peer, finish_close, finish_remote, fail_notify,
  local_socket_close_locked, local_socket_close_notify, remote_socket_close, smart_socket_close,
}
use pax_linux.Sockets.Retire.Alone.{
  Closed, retired, unlisted, online_at, HasTransport, IsThere, Sends, alone-Closed,
  finish_close-Closed, finish_remote-Closed, free-Closed, retired-remote, retired-smart, Became,
  renamed, fail_notify-Became, notify_call, retired-notify, unlisted-notify, unlisted-unpaired,
  by_close, lingering, unhooked, hooks_at, lingering-notify, unhooked-notify, lingering-unpaired,
  unhooked-unpaired,
}

abbrev pub unpaired : Socket → Socket
unpaired s = record s { peer = none }

-- The CLSE packet to the remote socket `p` on behalf of its peer `s`.
abbrev pub clse : Socket → Socket → ℕ → Event
clse s p t = sent t (send_packet (new_packet a_clse s.id p.id []))

-- A close of the local socket `s` sends CLSE to its peer where that is a remote socket.
abbrev pub Tells : Socket → Socket → Adb → Type 0
Tells s p st =
    (s.close ≡ local_close) ⊎ (s.close ≡ local_close_notify)
    → (t : ℕ) → p.shutdown ≡ true
    → p.transport ≡ some t
    → Has (clse s p t) st.events

Tells-Grows :
    (s p : Socket) (st st' : Adb) → Grows st.events st'.events → Tells s p st → Tells s p st'
Tells-Grows s p st st' g k c t sh tr = Grows-apply st.events st'.events (clse s p t) (k c t sh tr) g

unhook-Became :
    (a b : ℕ) (s p : Socket) (st : Adb)
    → st.heap a ≡ some s
    → st.heap b ≡ some p
    → p.peer ≡ some a
    → (Sends p → HasTransport st p)
    → Ensures (unhook b st) (Became b (unpaired p) st)
unfolding unhook
unhook-Became a b s p st ha hb back k = elim (Option-cases p.transport) [
  | inl e ↦ ground (arith, Grows-refl st.events)
  | inr (t, e) ↦ ground (arith, Grows-refl st.events, Grows-append st.events (clse s p t ∷ []))
]

unhook-Tells :
    (a b : ℕ) (s p : Socket) (st : Adb)
    → st.heap a ≡ some s
    → st.heap b ≡ some p
    → p.peer ≡ some a
    → (Sends p → HasTransport st p)
    → Ensures (unhook b st) (Tells s p)
unfolding unhook
unhook-Tells a b s p st ha hb back k = elim (Option-cases p.transport) [
  | inl e ↦ ground arith
  | inr (t, e) ↦ ground (arith, Has-snoc st.events (clse s p t))
]

clear_peer-Became :
    (a : ℕ) (s : Socket) (st : Adb)
    → st.heap a ≡ some s
    → Ensures (clear_peer a st) (Became a (unpaired s) st)
unfolding clear_peer
clear_peer-Became a s st h = ground (arith, Grows-refl st.events)

-- Both ends of a pair are closed.
pub record PairClosed (a : ℕ) (s : Socket) (b : ℕ) (p : Socket) (st st' : Adb) : Type 0 where
  pub self : st'.heap a ≡ retired (unpaired s)
  pub peer : st'.heap b ≡ retired (unpaired p)
  pub others : (x : ℕ) → x ≢ a → x ≢ b → st'.heap x ≡ st.heap x
  pub local_list : st'.local_list ≡ unlisted a s (unlisted b (unpaired p) st.local_list)
  pub closing_list : st'.closing_list ≡ lingering a s (lingering b (unpaired p) st.closing_list)
  pub hooks : (t : ℕ) → hooks_at st' t ≡ unhooked a s t (unhooked b (unpaired p) t (hooks_at st t))
  pub transports : (t : ℕ) → online_at st' t ≡ online_at st t
  pub next_address : st'.next_address ≡ st.next_address
  pub next_id : st'.next_id ≡ st.next_id
  pub told : Tells s p st'

pub IsThere-keep :
    (o : Option ℕ) (st st' : Adb)
    → ((t : ℕ) → online_at st' t ≡ online_at st t)
    → IsThere st o
    → IsThere st' o
IsThere-keep none st st' same h = h
IsThere-keep (some t) st st' same h = λ e. h (sym (same t) ∙ e)

-- One step of a close call, by the function that the socket's pointer names.
module _ (g a : ℕ) (s : Socket) (st : Adb) (h : st.heap a ≡ some s) where
  pub local_call :
      s.close ≡ local_close
      → close_call (suc g) a st ≡ local_socket_close_locked (close_call g) a st
  unfolding close_call
  local_call c = rw (h, ◌>>=◌) (rw c)

  remote_call :
      s.close ≡ remote_close → close_call (suc g) a st ≡ remote_socket_close (close_call g) a st
  unfolding close_call
  remote_call c = rw (h, ◌>>=◌) (rw c)

  smart_call :
      s.close ≡ smart_close → close_call (suc g) a st ≡ smart_socket_close (close_call g) a st
  unfolding close_call
  smart_call c = rw (h, ◌>>=◌) (rw c)

-- The bodies at a socket with a peer.
module _ (again : ℕ → M (Unit {0})) (a b : ℕ) (s : Socket) (st : Adb) (h : st.heap a ≡ some s)
    (to : s.peer ≡ some b) where
  local_body :
      local_socket_close_locked again a st
      ≡ ((unhook b >> (again b >> clear_peer a)) >> finish_close a) st
  unfolding local_socket_close_locked
  local_body = rw (h, ◌>>=◌) (rw to)

  remote_body : remote_socket_close again a st ≡ ((clear_peer b >> again b) >> finish_remote a) st
  unfolding remote_socket_close
  remote_body = rw (h, ◌>>=◌) (rw to)

  smart_body : smart_socket_close again a st ≡ ((clear_peer b >> again b) >> free a) st
  unfolding smart_socket_close
  smart_body = rw (h, ◌>>=◌) (rw to)

-- What stands between the two ends' closes: the peer is closed, and the socket has no peer.
record Midway (a : ℕ) (s : Socket) (b : ℕ) (p : Socket) (st st' : Adb) : Type 0 where
  self : st'.heap a ≡ some s
  peer : st'.heap b ≡ retired (unpaired p)
  others : (x : ℕ) → x ≢ a → x ≢ b → st'.heap x ≡ st.heap x
  local_list : st'.local_list ≡ unlisted b (unpaired p) st.local_list
  closing_list : st'.closing_list ≡ lingering b (unpaired p) st.closing_list
  hooks : (t : ℕ) → hooks_at st' t ≡ unhooked b (unpaired p) t (hooks_at st t)
  transports : (t : ℕ) → online_at st' t ≡ online_at st t
  next_address : st'.next_address ≡ st.next_address
  next_id : st'.next_id ≡ st.next_id
  told : Tells s p st'

finish_pair :
    (a b : ℕ) (s p : Socket) (st st4 st' : Adb)
    → a ≢ b
    → retired s ≡ retired (unpaired s)
    → Midway a s b p st st4
    → Closed a s st4 st'
    → PairClosed a s b p st st'
finish_pair a b s p st st4 st' ne r m c = record {
  self = c.self ∙ r;
  peer = c.others b (λ e. ne (sym e)) ∙ m.peer;
  others = λ x na nb. c.others x na ∙ m.others x na nb;
  local_list = c.local_list ∙ ap (unlisted a s) m.local_list;
  closing_list = c.closing_list ∙ ap (lingering a s) m.closing_list;
  hooks = λ t. c.hooks t ∙ ap (unhooked a s t) (m.hooks t);
  transports = λ t. c.transports t ∙ m.transports t;
  next_address = c.next_address ∙ m.next_address;
  next_id = c.next_id ∙ m.next_id;
  told = Tells-Grows s p st4 st' c.grows m.told;
}

remote-not_local :
    (s : Socket)
    → s.close ≡ remote_close
    → (s.close ≡ local_close) ⊎ (s.close ≡ local_close_notify)
    → ⊥
remote-not_local s c l = ground arith

smart-not_local :
    (s : Socket)
    → s.close ≡ smart_close
    → (s.close ≡ local_close) ⊎ (s.close ≡ local_close_notify)
    → ⊥
smart-not_local s c l = ground arith

module _ (f a b : ℕ) (s p : Socket) (st : Adb) (ha : st.heap a ≡ some s) (hb : st.heap b ≡ some p)
    (to : s.peer ≡ some b) (back : p.peer ≡ some a) (ne : a ≢ b) (sa : Sends s → HasTransport st s)
    (sb : Sends p → HasTransport st p) where
  -- The peer's close, after its own pointer back was cleared.
  close_peer-Midway :
      (st1 : Adb)
      → Became b (unpaired p) st st1
      → Tells s p st1
      → Ensures (close_call (suc (suc f)) b st1) (Midway a s b p st)
  close_peer-Midway st1 u k =
      Ensures_map (close_call (suc (suc f)) b st1) (Closed b (unpaired p) st1) (Midway a s b p st)
        (alone-Closed f b (unpaired p) st1 u.self refl
          (λ k. IsThere-keep p.transport st st1 u.transports (sb k)))
        λ st2 c. record {
          self = c.others a ne ∙ u.others a ne ∙ ha;
          peer = c.self;
          others = λ x na nb. c.others x nb ∙ u.others x nb;
          local_list = c.local_list ∙ ap (unlisted b (unpaired p)) u.local_list;
          closing_list = c.closing_list ∙ ap (lingering b (unpaired p)) u.closing_list;
          hooks = λ t. c.hooks t ∙ ap (unhooked b (unpaired p) t) (u.hooks t);
          transports = λ t. c.transports t ∙ u.transports t;
          next_address = c.next_address ∙ u.next_address;
          next_id = c.next_id ∙ u.next_id;
          told = Tells-Grows s p st1 st2 c.grows k;
        }

  clear_self-Midway :
      (st2 : Adb)
      → Midway a s b p st st2
      → Ensures (clear_peer a st2) (Midway a (unpaired s) b p st)
  clear_self-Midway st2 m =
      Ensures_map (clear_peer a st2) (Became a (unpaired s) st2) (Midway a (unpaired s) b p st)
        (clear_peer-Became a s st2 m.self)
        λ st3 u. record {
          self = u.self;
          peer = u.others b (λ e. ne (sym e)) ∙ m.peer;
          others = λ x na nb. u.others x na ∙ m.others x na nb;
          local_list = u.local_list ∙ m.local_list;
          closing_list = u.closing_list ∙ m.closing_list;
          hooks = λ t. u.hooks t ∙ m.hooks t;
          transports = λ t. u.transports t ∙ m.transports t;
          next_address = u.next_address ∙ m.next_address;
          next_id = u.next_id ∙ m.next_id;
          told = Tells-Grows s p st2 st3 u.grows m.told;
        }

  taken_apart :
      Ensures
        ((unhook b >> (close_call (suc (suc f)) b >> clear_peer a)) st)
        (Midway a (unpaired s) b p st)
  taken_apart =
      let again = close_call (suc (suc f)) b in
      let after = Midway a (unpaired s) b p st in
      Ensures_then (unhook b) (again >> clear_peer a) st
        (λ st1. Became b (unpaired p) st st1 × Tells s p st1) after
        (Ensures_both (unhook b st) (Became b (unpaired p) st) (Tells s p)
          (unhook-Became a b s p st ha hb back sb) (unhook-Tells a b s p st ha hb back sb))
        λ st1 u.
          Ensures_then again (clear_peer a) st1 (Midway a s b p st) after
            (close_peer-Midway st1 u.0 u.1) clear_self-Midway

  peer_closed :
      ((s.close ≡ local_close) ⊎ (s.close ≡ local_close_notify) → ⊥)
      → Ensures ((clear_peer b >> close_call (suc (suc f)) b) st) (Midway a s b p st)
  peer_closed other =
      Ensures_then (clear_peer b) (close_call (suc (suc f)) b) st (Became b (unpaired p) st)
        (Midway a s b p st) (clear_peer-Became b p st hb)
        λ st1 u. close_peer-Midway st1 u (λ l. absurd (other l))

  local-PairClosed :
      s.close ≡ local_close
      → Ensures (close_call (suc (suc (suc f))) a st) (PairClosed a (unpaired s) b p st)
  local-PairClosed c =
      let again = close_call (suc (suc f)) in
      rw (local_call (suc (suc f)) a s st ha c ∙ local_body again a b s st ha to) (
        Ensures_then (unhook b >> (again b >> clear_peer a)) (finish_close a) st
          (Midway a (unpaired s) b p st) (PairClosed a (unpaired s) b p st) taken_apart
          λ st4 m.
            Ensures_map (finish_close a st4) (Closed a (unpaired s) st4)
              (PairClosed a (unpaired s) b p st) (finish_close-Closed a (unpaired s) st4 m.self c)
              λ st' d. finish_pair a b (unpaired s) p st st4 st' ne refl m d)

  remote-PairClosed :
      s.close ≡ remote_close → Ensures (close_call (suc (suc (suc f))) a st) (PairClosed a s b p st)
  remote-PairClosed c =
      let again = close_call (suc (suc f)) in
      rw (remote_call (suc (suc f)) a s st ha c ∙ remote_body again a b s st ha to) (
        Ensures_then (clear_peer b >> again b) (finish_remote a) st (Midway a s b p st)
          (PairClosed a s b p st) (peer_closed (remote-not_local s c))
          λ st4 m.
            Ensures_map (finish_remote a st4) (Closed a s st4) (PairClosed a s b p st)
              (finish_remote-Closed a s st4 m.self c
                (IsThere-keep s.transport st st4 m.transports (sa (inr c))))
              λ st' d. finish_pair a b s p st st4 st' ne (retired-remote s c) m d)

  smart-PairClosed :
      s.close ≡ smart_close → Ensures (close_call (suc (suc (suc f))) a st) (PairClosed a s b p st)
  smart-PairClosed c =
      let again = close_call (suc (suc f)) in
      rw (smart_call (suc (suc f)) a s st ha c ∙ smart_body again a b s st ha to) (
        Ensures_then (clear_peer b >> again b) (free a) st (Midway a s b p st)
          (PairClosed a s b p st) (peer_closed (smart-not_local s c))
          λ st4 m.
            Ensures_map (free a st4) (Closed a s st4) (PairClosed a s b p st)
              (free-Closed a s st4 m.self c)
              λ st' d. finish_pair a b s p st st4 st' ne (retired-smart s c) m d)

module _ (f a b : ℕ) (s p : Socket) (st : Adb) (ha : st.heap a ≡ some s) (hb : st.heap b ≡ some p)
    (to : s.peer ≡ some b) (back : p.peer ≡ some a) (ne : a ≢ b) (sa : Sends s → HasTransport st s)
    (sb : Sends p → HasTransport st p) where
  after_notify :
      s.close ≡ local_close_notify
      → (st1 : Adb) → Became a (renamed s) st st1
      → Ensures (close_call (suc (suc (suc f))) a st1) (PairClosed a s b p st)
  unfolding renamed
  after_notify c st1 u =
      Ensures_map (close_call (suc (suc (suc f))) a st1)
        (PairClosed a (unpaired (renamed s)) b p st1) (PairClosed a s b p st)
        (local-PairClosed f a b (renamed s) p st1 u.self (u.others b (λ e. ne (sym e)) ∙ hb) to back
          ne (λ k. elim k [ inl t ↦ absurd (ground arith) | inr t ↦ absurd (ground arith) ])
          (λ k. IsThere-keep p.transport st st1 u.transports (sb k)) refl)
        λ st' d. record {
          self = d.self ∙ retired-notify s c;
          peer = d.peer;
          others = λ x na nb. d.others x na nb ∙ u.others x na;
          local_list =
              d.local_list
              ∙ unlisted-notify a s _ c
              ∙ ap (λ l. unlisted a s (unlisted b (unpaired p) l)) u.local_list;
          closing_list =
              d.closing_list
              ∙ lingering-notify a s _ c
              ∙ ap (λ l. lingering a s (lingering b (unpaired p) l)) u.closing_list;
          hooks = λ t.
              d.hooks t
              ∙ unhooked-notify a s t _ c
              ∙ ap (λ l. unhooked a s t (unhooked b (unpaired p) t l)) (u.hooks t);
          transports = λ t. d.transports t ∙ u.transports t;
          next_address = d.next_address ∙ u.next_address;
          next_id = d.next_id ∙ u.next_id;
          told = λ l t sh tr. d.told (inl refl) t sh tr;
        }

  notify-PairClosed :
      s.close ≡ local_close_notify
      → Ensures (close_call (suc (suc (suc (suc f)))) a st) (PairClosed a s b p st)
  unfolding renamed local_socket_close_notify
  notify-PairClosed c = rw (notify_call (suc (suc (suc f))) a s st ha c) (
      Ensures_then (fail_notify a) (close_call (suc (suc (suc f))) a) st (Became a (renamed s) st)
        (PairClosed a s b p st) (fail_notify-Became a s st ha) (after_notify c))

  -- Whatever function closes it, four nested calls close a socket and its peer.
  pub pair-PairClosed : Ensures (close_call (suc (suc (suc (suc f)))) a st) (PairClosed a s b p st)
  pair-PairClosed =
      by_close s.close
        (λ c.
          Ensures_map (close_call (suc (suc (suc (suc f)))) a st) (PairClosed a (unpaired s) b p st)
            (PairClosed a s b p st) (local-PairClosed (suc f) a b s p st ha hb to back ne sa sb c)
            λ st' d. record {
              self = d.self;
              peer = d.peer;
              others = d.others;
              local_list = d.local_list ∙ unlisted-unpaired a s _;
              closing_list = d.closing_list ∙ lingering-unpaired a s _;
              hooks = λ t. d.hooks t ∙ unhooked-unpaired a s t _;
              transports = d.transports;
              next_address = d.next_address;
              next_id = d.next_id;
              told = d.told;
            })
        notify-PairClosed (remote-PairClosed (suc f) a b s p st ha hb to back ne sa sb)
        (smart-PairClosed (suc f) a b s p st ha hb to back ne sa sb)

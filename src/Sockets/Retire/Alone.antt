-- ===== src/Sockets/Retire/Alone.antt =====
-- Closing a socket that has no peer.
use pax_linux.Base.{
  ℕ, suc, ◌≡◌, ◌≢◌, ◌⊎◌, Bool, ◌||◌, ◌==◌, [], ◌∷◌, ◌++◌, List, Option, none, some, refl, inr, true,
  false, arith, if◌then◌else◌, bytes, inl, ap, ◌∙◌, Bool-cases, length,
}
use pax_linux.Adb.{
  Socket, Adb, Close, local_close, local_close_notify, remote_close, smart_close, local_ready,
  local_ready_notify, local_enqueue, free, closed_fd, wrote, update, pure, ◌>>=◌,
}
use pax_linux.Io.{WriteEvent}
use pax_linux.Adb.Steps.{
  Ensures, Ensures_then, Ensures_map, Grows, Grows-refl, Grows-append, Grows-trans, Ensures_load,
}
use pax_linux.Sockets.Lists.{remove, is_nil, on, on-remove, on-append}
use pax_linux.Sockets.{
  close_call, finish_close, fail_notify, send_closed, note_written, write_exact, finish_remote,
  local_socket_close_locked, local_socket_close_notify, remote_socket_close, smart_socket_close,
}

-- A local socket with no peer after its close: gone, or on the closing list while packets wait.
pub retired_local : Socket → Option Socket
retired_local s =
    if s.closing || is_nil s.pkts
    then none
    else some (record s {
      id = if s.linked then 0 else s.id;
      linked = true;
      closing = true;
      wants_read = false;
    })

-- What is left of a socket with no peer when it has been closed.
pub retired : Socket → Option Socket
unfolding retired_local
retired s = elim s.close [
  | local_close ↦ retired_local s
  | local_close_notify ↦
      retired_local (record s { ready = local_ready; shutdown = false; close = local_close })
  | remote_close ↦ none
  | smart_close ↦ none
]

-- Closing a local socket takes it off the socket list.
pub unlisted : ℕ → Socket → List ℕ → List ℕ
unlisted a s l = elim s.close [
  | local_close ↦ if s.linked then remove a l else l
  | local_close_notify ↦ if s.linked then remove a l else l
  | remote_close ↦ l
  | smart_close ↦ l
]

-- Closing a local socket puts it at the end of the closing list where packets wait.
pub lingering : ℕ → Socket → List ℕ → List ℕ
lingering a s l =
    let off = if s.linked then remove a l else l in
    let local = if s.closing || is_nil s.pkts then off else off ++ a ∷ [] in
    elim s.close [
      | local_close ↦ local
      | local_close_notify ↦ local
      | remote_close ↦ l
      | smart_close ↦ l
    ]

-- The sockets whose disconnect functions a transport calls when it goes away.
abbrev pub hooks_at : Adb → ℕ → List ℕ
hooks_at st t = elim (st.transports t) [ none ↦ [] | some r ↦ r.disconnects ]

-- Closing a remote socket takes its disconnect function off the list of its transport.
pub unhooked : ℕ → Socket → ℕ → List ℕ → List ℕ
unhooked a s u l = elim s.close [
  | local_close ↦ l
  | local_close_notify ↦ l
  | remote_close ↦ elim s.transport [ none ↦ l | some t ↦ if u == t then remove a l else l ]
  | smart_close ↦ l
]

-- A transport is there, and whether it is online.
abbrev pub online_at : Adb → ℕ → Option Bool
online_at st t = elim (st.transports t) [ none ↦ none | some r ↦ some r.online ]

-- A socket that sends packets has a transport.
abbrev pub IsThere : Adb → Option ℕ → Type 0
IsThere st none = ⊥
IsThere st (some t) = online_at st t ≢ none

abbrev pub HasTransport : Adb → Socket → Type 0
HasTransport st s = IsThere st s.transport

-- A socket that was made by `create_local_socket`: its functions are those of local sockets.
pub record IsLocal (s : Socket) : Type 0 where
  pub close : (s.close ≡ local_close) ⊎ (s.close ≡ local_close_notify)
  pub ready : (s.ready ≡ local_ready) ⊎ (s.ready ≡ local_ready_notify)
  pub enqueue : s.enqueue ≡ local_enqueue

abbrev pub Sends : Socket → Type 0
Sends s = (s.shutdown ≡ true) ⊎ (s.close ≡ remote_close)

pub record Closed (a : ℕ) (s : Socket) (st st' : Adb) : Type 0 where
  pub self : st'.heap a ≡ retired s
  pub others : (x : ℕ) → x ≢ a → st'.heap x ≡ st.heap x
  pub local_list : st'.local_list ≡ unlisted a s st.local_list
  pub closing_list : st'.closing_list ≡ lingering a s st.closing_list
  pub hooks : (t : ℕ) → hooks_at st' t ≡ unhooked a s t (hooks_at st t)
  pub grows : Grows st.events st'.events
  pub transports : (t : ℕ) → online_at st' t ≡ online_at st t
  pub next_address : st'.next_address ≡ st.next_address
  pub next_id : st'.next_id ≡ st.next_id

-- Only the socket at `b` has changed on the heap, to `p`; lists and transports are as they were.
pub record Became (b : ℕ) (p : Socket) (st st' : Adb) : Type 0 where
  pub self : st'.heap b ≡ some p
  pub others : (x : ℕ) → x ≢ b → st'.heap x ≡ st.heap x
  pub local_list : st'.local_list ≡ st.local_list
  pub closing_list : st'.closing_list ≡ st.closing_list
  pub hooks : (t : ℕ) → hooks_at st' t ≡ hooks_at st t
  pub transports : (t : ℕ) → online_at st' t ≡ online_at st t
  pub next_address : st'.next_address ≡ st.next_address
  pub next_id : st'.next_id ≡ st.next_id
  pub grows : Grows st.events st'.events

-- A socket whose close first writes a failure message goes on as a local one.
unfoldable pub renamed : Socket → Socket
renamed s = record s { ready = local_ready; shutdown = false; close = local_close }

-- Something was written, and nothing else has changed.
record Told (st st' : Adb) : Type 0 where
  same : st' ≡ record st { writes = st'.writes; events = st'.events }
  grows : Grows st.events st'.events

note_written-Told :
    (fd : ℕ) (r : List ℕ × List WriteEvent) (st : Adb) → Ensures (note_written fd r st) (Told st)
unfolding note_written
note_written-Told fd r st = elim (Bool-cases (is_nil r.0)) [
  | inl nothing ↦ record { same = refl; grows = rw nothing (Grows-refl st.events) }
  | inr something ↦ record {
    same = refl;
    grows = rw something (Grows-append st.events (wrote fd r.0 ∷ []));
  }
]

Told-trans : (st0 st1 st2 : Adb) → Told st0 st1 → Told st1 st2 → Told st0 st2
Told-trans st0 st1 st2 t u = record {
  same =
      u.same
      ∙ ap {A = Adb} {B = Adb} (λ x. record x { writes = st2.writes; events = st2.events }) t.same;
  grows = Grows-trans st0.events st1.events st2.events t.grows u.grows;
}

send_closed-Told : (fd : ℕ) (st : Adb) → Ensures (send_closed fd st) (Told st)
unfolding send_closed
send_closed-Told fd st =
    let r = write_exact st.writes (bytes "FAIL0006") in
    Ensures_then (note_written fd r)
      (if length r.0 == 8
        then (λ st1. note_written fd (write_exact st1.writes (bytes "closed")) st1)
        else pure tt)
      st (Told st) (Told st) (note_written-Told fd r st)
      λ st1 t. elim (Bool-cases (length r.0 == 8)) [
        | inl whole ↦ rw whole (
            let q = write_exact st1.writes (bytes "closed") in
            Ensures_map (note_written fd q st1) (Told st1) (Told st) (note_written-Told fd q st1)
              λ st2 u. Told-trans st st1 st2 t u)
        | inr cut ↦ rw cut t
      ]

pub fail_notify-Became :
    (a : ℕ) (s : Socket) (st : Adb)
    → st.heap a ≡ some s
    → Ensures (fail_notify a st) (Became a (renamed s) st)
unfolding fail_notify renamed
fail_notify-Became a s st h =
    let st1 = record st { heap = update st.heap a (some (renamed s)) } in
    Ensures_load a s _ st (Became a (renamed s) st) h (
      Ensures_map (send_closed s.fd st1) (Told st1) (Became a (renamed s) st)
        (send_closed-Told s.fd st1)
        λ st2 t. record {
          self = ap (λ (x : Adb). x.heap a) t.same ∙ ground arith;
          others = λ x ne. ap (λ (y : Adb). y.heap x) t.same ∙ ground arith;
          local_list = ap (λ (x : Adb). x.local_list) t.same;
          closing_list = ap (λ (x : Adb). x.closing_list) t.same;
          hooks = λ u. ap (λ (x : Adb). hooks_at x u) t.same;
          transports = λ u. ap (λ (x : Adb). online_at x u) t.same;
          next_address = ap (λ (x : Adb). x.next_address) t.same;
          next_id = ap (λ (x : Adb). x.next_id) t.same;
          grows = t.grows;
        })

module _ (f a : ℕ) (s : Socket) (st : Adb) (h : st.heap a ≡ some s) (p : s.peer ≡ none) where
  local-Closed : s.close ≡ local_close → Ensures (close_call (suc f) a st) (Closed a s st)
  unfolding close_call local_socket_close_locked local_socket_close_notify remote_socket_close
      smart_socket_close retired unlisted lingering unhooked
  local-Closed c =
      ground (arith, Grows-refl st.events, Grows-append st.events (closed_fd s.fd ∷ []))

  smart-Closed : s.close ≡ smart_close → Ensures (close_call (suc f) a st) (Closed a s st)
  unfolding close_call local_socket_close_locked local_socket_close_notify remote_socket_close
      smart_socket_close retired unlisted lingering unhooked
  smart-Closed c = ground (arith, Grows-refl st.events)

  remote-Closed :
      s.close ≡ remote_close → HasTransport st s → Ensures (close_call (suc f) a st) (Closed a s st)
  unfolding close_call local_socket_close_locked local_socket_close_notify remote_socket_close
      smart_socket_close retired unlisted lingering unhooked
  remote-Closed c t = ground (arith, Grows-refl st.events)

-- One step of a close call whose function writes a failure message first.
pub notify_call :
    (g a : ℕ) (s : Socket) (st : Adb)
    → st.heap a ≡ some s
    → s.close ≡ local_close_notify
    → close_call (suc g) a st ≡ local_socket_close_notify (close_call g) a st
unfolding close_call
notify_call g a s st h c = rw (h, ◌>>=◌) (rw c)

retired-renamed : (s : Socket) → s.close ≡ local_close_notify → retired (renamed s) ≡ retired s
unfolding retired renamed
retired-renamed s c = ground arith

lists-renamed :
    (a : ℕ) (s : Socket)
    → s.close ≡ local_close_notify
    → ((l : List ℕ) → unlisted a (renamed s) l ≡ unlisted a s l)
      × ((l : List ℕ) → lingering a (renamed s) l ≡ lingering a s l)
      × ((t : ℕ) (l : List ℕ) → unhooked a (renamed s) t l ≡ unhooked a s t l)
unfolding unlisted lingering unhooked renamed
lists-renamed a s c = (λ l. ground arith, λ l. ground arith, λ t l. ground arith)

notify-Closed :
    (f a : ℕ) (s : Socket) (st : Adb)
    → st.heap a ≡ some s
    → s.peer ≡ none
    → s.close ≡ local_close_notify
    → Ensures (close_call (suc (suc f)) a st) (Closed a s st)
unfolding local_socket_close_notify
notify-Closed f a s st h p c = rw (notify_call (suc f) a s st h c) (
    let (un, lin, hk) = lists-renamed a s c in
    Ensures_then (fail_notify a) (close_call (suc f) a) st (Became a (renamed s) st) (Closed a s st)
      (fail_notify-Became a s st h)
      λ st1 u.
        Ensures_map (close_call (suc f) a st1) (Closed a (renamed s) st1) (Closed a s st)
          (local-Closed f a (renamed s) st1 u.self (unfold renamed in p) (unfold renamed in refl))
          λ st' d. record {
            self = d.self ∙ retired-renamed s c;
            others = λ x ne. d.others x ne ∙ u.others x ne;
            local_list = d.local_list ∙ un st1.local_list ∙ ap (unlisted a s) u.local_list;
            closing_list =
                d.closing_list ∙ lin st1.closing_list ∙ ap (lingering a s) u.closing_list;
            hooks = λ t. d.hooks t ∙ hk t (hooks_at st1 t) ∙ ap (unhooked a s t) (u.hooks t);
            transports = λ t. d.transports t ∙ u.transports t;
            next_address = d.next_address ∙ u.next_address;
            next_id = d.next_id ∙ u.next_id;
            grows = Grows-trans st.events st1.events st'.events u.grows d.grows;
          })

pub by_close :
    {P : Type 0} (c : Close)
    → (c ≡ local_close → P)
    → (c ≡ local_close_notify → P)
    → (c ≡ remote_close → P)
    → (c ≡ smart_close → P)
    → P
by_close local_close l n r m = l refl
by_close local_close_notify l n r m = n refl
by_close remote_close l n r m = r refl
by_close smart_close l n r m = m refl

-- Closing a socket that has no peer takes two nested calls at most.
pub alone-Closed :
    (f a : ℕ) (s : Socket) (st : Adb)
    → st.heap a ≡ some s
    → s.peer ≡ none
    → (Sends s → HasTransport st s)
    → Ensures (close_call (suc (suc f)) a st) (Closed a s st)
alone-Closed f a s st h p t =
    by_close s.close (local-Closed (suc f) a s st h p) (notify-Closed f a s st h p)
      (λ c. remote-Closed (suc f) a s st h p c (t (inr c))) (smart-Closed (suc f) a s st h p)

pub finish_close-Closed :
    (a : ℕ) (s : Socket) (st : Adb)
    → st.heap a ≡ some s
    → s.close ≡ local_close
    → Ensures (finish_close a st) (Closed a s st)
unfolding finish_close retired unlisted lingering unhooked
finish_close-Closed a s st h c =
    ground (arith, Grows-refl st.events, Grows-append st.events (closed_fd s.fd ∷ []))

pub finish_remote-Closed :
    (a : ℕ) (s : Socket) (st : Adb)
    → st.heap a ≡ some s
    → s.close ≡ remote_close
    → HasTransport st s
    → Ensures (finish_remote a st) (Closed a s st)
unfolding finish_remote retired unlisted lingering unhooked
finish_remote-Closed a s st h c t = ground (arith, Grows-refl st.events)

pub free-Closed :
    (a : ℕ) (s : Socket) (st : Adb)
    → st.heap a ≡ some s
    → s.close ≡ smart_close
    → Ensures (free a st) (Closed a s st)
unfolding retired unlisted lingering unhooked
free-Closed a s st h c = ground (arith, Grows-refl st.events)

-- What is left of a remote or smart socket is nothing, whatever its peer.
pub retired-remote :
    (s : Socket) → s.close ≡ remote_close → retired s ≡ retired (record s { peer = none })
unfolding retired
retired-remote s c = ground arith

pub retired-smart :
    (s : Socket) → s.close ≡ smart_close → retired s ≡ retired (record s { peer = none })
unfolding retired
retired-smart s c = ground arith

pub retired-notify :
    (s : Socket)
    → s.close ≡ local_close_notify
    → retired (record s { ready = local_ready; shutdown = false; close = local_close; peer = none })
      ≡ retired (record s { peer = none })
unfolding retired
retired-notify s c = ground arith

pub unlisted-notify :
    (a : ℕ) (s : Socket) (l : List ℕ)
    → s.close ≡ local_close_notify
    → unlisted a
        (record s { ready = local_ready; shutdown = false; close = local_close; peer = none })
        l
      ≡ unlisted a s l
unfolding unlisted
unlisted-notify a s l c = ground arith

pub lingering-notify :
    (a : ℕ) (s : Socket) (l : List ℕ)
    → s.close ≡ local_close_notify
    → lingering a
        (record s { ready = local_ready; shutdown = false; close = local_close; peer = none })
        l
      ≡ lingering a s l
unfolding lingering
lingering-notify a s l c = ground arith

pub unhooked-notify :
    (a : ℕ) (s : Socket) (t : ℕ) (l : List ℕ)
    → s.close ≡ local_close_notify
    → unhooked a
        (record s { ready = local_ready; shutdown = false; close = local_close; peer = none })
        t
        l
      ≡ unhooked a s t l
unfolding unhooked
unhooked-notify a s t l c = ground arith

pub lingering-unpaired :
    (a : ℕ) (s : Socket) (l : List ℕ) → lingering a (record s { peer = none }) l ≡ lingering a s l
unfolding lingering
lingering-unpaired a s l = refl

pub unhooked-unpaired :
    (a : ℕ) (s : Socket) (t : ℕ) (l : List ℕ)
    → unhooked a (record s { peer = none }) t l ≡ unhooked a s t l
unfolding unhooked
unhooked-unpaired a s t l = refl

pub on-lingering : (x a : ℕ) (s : Socket) (l : List ℕ) → x ≢ a → on x (lingering a s l) ≡ on x l
unfolding lingering
on-lingering x a s l ne =
    ground (arith, on-remove x a l, on-append x (remove a l) (a ∷ []), on-append x l (a ∷ []))

pub on-unhooked :
    (x a : ℕ) (s : Socket) (t : ℕ) (l : List ℕ) → x ≢ a → on x (unhooked a s t l) ≡ on x l
unfolding unhooked
on-unhooked x a s t l ne = ground (arith, on-remove x a l)

-- What is left of a closed socket stands on the closing list.
pub retired-lingering :
    (a : ℕ) (s r : Socket) (l : List ℕ) → retired s ≡ some r → on a (lingering a s l) ≡ true
unfolding retired lingering
retired-lingering a s r l e =
    ground (arith, on-append a (remove a l) (a ∷ []), on-append a l (a ∷ []))

-- A closed remote socket is not called when its transport goes away.
pub on-unhooked_self :
    (a : ℕ) (s : Socket) (t : ℕ) (l : List ℕ)
    → s.close ≡ remote_close
    → s.transport ≡ some t
    → on a (unhooked a s t l) ≡ false
unfolding unhooked
on-unhooked_self a s t l c e = ground (arith, on-remove a a l)

pub unlisted-unpaired :
    (a : ℕ) (s : Socket) (l : List ℕ) → unlisted a (record s { peer = none }) l ≡ unlisted a s l
unfolding unlisted
unlisted-unpaired a s l = refl

-- What is left of a closed socket has no peer, and still sends only through its transport.
pub retired-some :
    (s r : Socket)
    → s.peer ≡ none
    → retired s ≡ some r
    → (r.peer ≡ none) × (r.closing ≡ true) × (Sends r → Sends s) × (r.transport ≡ s.transport)
unfolding retired
retired-some s r p e = (
  ground arith,
  ground arith,
  λ k. elim (s.close) [ local_close ↦ ground arith | _ ↦ ground arith ],
  ground arith,
)

pub on_unlisted :
    (x a : ℕ) (s : Socket) (l : List ℕ)
    → on x (unlisted a s l) ≡ true
    → (on x l ≡ true) × (IsLocal s → s.linked ≡ true → x ≢ a)
unfolding unlisted
on_unlisted x a s l h = ground (arith, on-remove x a l)

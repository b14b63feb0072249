-- ===== src/Fdevent/Select.antt =====
-- The loop of fdevent.c: `fdevent_process` and `fdevent_loop`.
pub mod Signals
pub mod Processing
pub mod Serving
use pax_linux.Base.{
  ℕ, zero, suc, ◌+◌, ◌-◌, Bool, true, false, not, List, [], ◌∷◌, ◌++◌, Option, none, some, ltb,
  ◌==◌, if◌then◌else◌,
}
use pax_linux.Fdevent.Pending.{
  Dequeued, assign, fdevent_plist_enqueue, fdevent_plist_dequeue, ◌>>=◌,
}
use pax_linux.Fdevent.{
  Events, FdFunc, Fdevent, Loop, no_events, union, same_events, store_event, entry, fdevent_create,
  fdevent_add, subproc_event_func, fd_setsize,
}

-- The three sets that `select` returns, and the number of descriptors in them.
pub record Selected : Type 0 where
  pub count : ℕ
  pub rfd : ℕ → Bool
  pub wfd : ℕ → Bool
  pub efd : ℕ → Bool

-- How `select` ends: it returns sets, or it fails with `EINTR`, with `EBADF` or otherwise.
pub data SelectResult : Type 0 where
  returned : Selected → SelectResult
  interrupted bad_descriptor failed : SelectResult

-- `fdevent_fd_check` over the `k` descriptors from `i`; `valid` tells for which `fcntl` succeeds.
fd_check : (ℕ → Bool) → Loop → ℕ → ℕ → Selected → Option Selected
fd_check valid l zero i s = some s
fd_check valid l (suc k) i s = do
  e ← entry l i
  t ← elim e [
    | none ↦ some s
    | some a ↦
        if valid i
        then some s
        else if ltb i fd_setsize
        then some (record s { count = s.count + 1; rfd = assign s.rfd i true })
        else none
  ]
  fd_check valid l k (i + 1) t

pub fdevent_fd_check : (ℕ → Bool) → Loop → Selected → Option Selected
unfolding fd_check
fdevent_fd_check valid l s = fd_check valid l l.select_n 0 s

abbrev pub bit : Bool → ℕ
bit true = 1
bit false = 0

-- The events that the sets report for `i`.
abbrev pub reported : Selected → ℕ → Events
reported s i = record no_events { read = s.rfd i; write = s.wfd i; error = s.efd i }

-- `fde->events |= events`, and the event joins the pending list unless it is there.
pub signal : Loop → ℕ → Events → Option Loop
signal l a events = do
  f ← l.fdes a
  let g = record f { events = union f.events events }
  if f.pending
      then some (store_event l a g)
      else (fdevent_plist_enqueue l.links a >>= λ links.
          some (store_event (record l { links = links }) a (record g { pending = true })))

-- The `k` descriptors from `i`, as long as the `n` that `select` counted have not all been seen.
-- The source's `n` may fall below 0, which ends the loop as 0 does.
scan_fds : Selected → ℕ → ℕ → ℕ → Loop → Option Loop
unfolding signal
scan_fds s zero i n l = some l
scan_fds s (suc k) i n l =
    let rest = scan_fds s k (i + 1) (n - (bit (s.rfd i) + bit (s.wfd i) + bit (s.efd i))) in
    if n == 0
    then some l
    else if not (ltb i fd_setsize)
    then none
    else if same_events (reported s i) no_events
    then rest l
    else (entry l i >>= λ e. e >>= λ a. signal l a (reported s i) >>= rest)

-- What follows a `select` that returned a count or failed with `EBADF`.
dispatch : (ℕ → Bool) → Loop → Selected → Option Loop
unfolding fd_check scan_fds
dispatch valid l s = do
  t ← if s.count == 0 then fdevent_fd_check valid l s else some s
  scan_fds t l.select_n 0 t.count l

abbrev cleared : Selected
cleared = record { count = 0; rfd = λ i. false; wfd = λ i. false; efd = λ i. false }

pub fdevent_process : (ℕ → Bool) → SelectResult → Loop → Option Loop
unfolding dispatch
fdevent_process valid (returned s) l = dispatch valid l s
fdevent_process valid interrupted l = some l
fdevent_process valid bad_descriptor l = dispatch valid l cleared
fdevent_process valid failed l = some l

-- What a callback does, given its event and the reported events.
abbrev pub Callback : Type 0
Callback = FdFunc → ℕ → Events → Loop → Option Loop

pub fdevent_call_fdfunc : Callback → Loop → ℕ → Option Loop
fdevent_call_fdfunc callback l a = do
  f ← l.fdes a
  let g = record f { events = no_events }
  if f.pending
      then callback f.func f.fd f.events
          (store_event (record l { called = l.called ++ a ∷ [] }) a (record g { pending = false }))
      else some (store_event l a g)

-- The event of a shell whose end was reported: it is called at once if nothing is left to read and
-- it is not on the pending list. `rcount` is what `FIONREAD` gives.
end_of_shell : Callback → ℕ → Loop → ℕ → Fdevent → Option Loop
unfolding fdevent_call_fdfunc
end_of_shell callback rcount l a f = do
  let g = record f { force_eof = true }
  let h = record g { events = union g.events (record no_events { read = true }) }
  if not (rcount == 0)
      then some (store_event l a g)
      else if f.pending
      then some (store_event l a h)
      else fdevent_call_fdfunc callback (store_event l a (record h { pending = true })) a

-- `message` is what `readx` reads from the pair: none if it fails, and in it none for a negative
-- descriptor.
pub fdevent_subproc_event_func : Callback → Option (Option ℕ) → ℕ → ℕ → Events → Loop → Option Loop
unfolding end_of_shell
fdevent_subproc_event_func callback message rcount fd events l = do
  e ← entry l fd
  a ← e
  l1 ← fdevent_add l a (record no_events { read = true })
  if events.read
      then (message >>= λ m. elim m [
        | none ↦ some l1
        | some subproc_fd ↦ elim (entry l1 subproc_fd) [
          | none ↦ some l1
          | some none ↦ some l1
          | some (some b) ↦ l1.fdes b >>= λ f.
              if f.fd == subproc_fd then end_of_shell callback rcount l1 b f else some l1
        ]
      ])
      else some l1

-- How the loop over the pending list goes: it ends, it has a fault, or it still runs.
pub data Turned : Type 0 where
  ended : Loop → Turned
  faulted running : Turned

-- `while((fde = fdevent_plist_dequeue())) fdevent_call_fdfunc(fde)`, at most `k` rounds.
call_pending : Callback → ℕ → Loop → Turned
unfolding fdevent_call_fdfunc
call_pending callback zero l = running
call_pending callback (suc k) l = elim (fdevent_plist_dequeue l.links) [
  | none ↦ faulted
  | some d ↦ elim d.node [
    | none ↦ ended (record l { links = d.links })
    | some a ↦ elim (fdevent_call_fdfunc callback (record l { links = d.links }) a) [
      | none ↦ faulted
      | some l1 ↦ call_pending callback k l1
    ]
  ]
]

-- One turn of `fdevent_loop`.
pub turn : Callback → (ℕ → Bool) → SelectResult → ℕ → Loop → Turned
unfolding call_pending
turn callback valid outcome k l = elim (fdevent_process valid outcome l) [
  | none ↦ faulted
  | some l1 ↦ call_pending callback k l1
]

-- `fdevent_subproc_setup`: `socket` is the descriptor `s[1]` of the pair, `none` if there is none.
pub fdevent_subproc_setup : Option ℕ → Option ℕ → Option (ℕ → Option ℕ) → Loop → Option Loop
fdevent_subproc_setup socket address left l = do
  fd ← socket
  r ← fdevent_create address left l (some fd) subproc_event_func
  a ← r.0
  fdevent_add r.1 a (record no_events { read = true })

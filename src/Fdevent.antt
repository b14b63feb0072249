-- ===== src/Fdevent.antt =====
-- The event loop of fdevent.c, in the version on `select`: events of file descriptors, the table
-- that finds them by their descriptor, and the sets that `select` watches.
pub mod Pending
pub mod Select
pub mod Tables
pub mod Queued
pub mod Consistent
pub mod Registering
use pax_linux.Base.{
  ℕ, zero, suc, ◌+◌, ◌-◌, ◌*◌, ◌/◌, Bool, true, false, not, ◌&&◌, ◌||◌, List, [], ◌∷◌, ◌++◌, Option,
  none, some, ltb, leb, ◌==◌, if◌then◌else◌,
}
use Pending.{
  Links, assign, empty_links, fdevent_plist_enqueue, fdevent_plist_remove, Dequeued,
  fdevent_plist_dequeue, ◌>>=◌,
}

-- A set of the bits `FDE_READ`, `FDE_WRITE`, `FDE_ERROR`, `FDE_TIMEOUT` and `FDE_DONT_CLOSE`; the
-- other bits of `FDE_EVENTMASK` have no name and no use.
pub record Events : Type 0 where
  pub read : Bool
  pub write : Bool
  pub error : Bool
  pub timeout : Bool
  pub dont_close : Bool

abbrev pub no_events : Events
no_events = record {
  read = false;
  write = false;
  error = false;
  timeout = false;
  dont_close = false;
}

abbrev pub union : Events → Events → Events
union a b = record {
  read = a.read || b.read;
  write = a.write || b.write;
  error = a.error || b.error;
  timeout = a.timeout || b.timeout;
  dont_close = a.dont_close || b.dont_close;
}

-- `a & ~b`.
abbrev pub minus : Events → Events → Events
minus a b = record {
  read = a.read && not b.read;
  write = a.write && not b.write;
  error = a.error && not b.error;
  timeout = a.timeout && not b.timeout;
  dont_close = a.dont_close && not b.dont_close;
}

abbrev pub same_bit : Bool → Bool → Bool
same_bit true b = b
same_bit false b = not b

abbrev pub same_events : Events → Events → Bool
same_events a b =
    same_bit a.read b.read
    && same_bit a.write b.write
    && same_bit a.error b.error
    && same_bit a.timeout b.timeout
    && same_bit a.dont_close b.dont_close

-- A callback with its `userdata`: the one of this file, or the one with this number.
pub data FdFunc : Type 0 where
  subproc_event_func : FdFunc
  client : ℕ → FdFunc

-- `fdevent`, without its links. `wanted` is `state & FDE_EVENTMASK`; `active`, `pending` and
-- `created` are the bits `FDE_ACTIVE`, `FDE_PENDING` and `FDE_CREATED` of `state`.
pub record Fdevent : Type 0 where
  pub fd : ℕ
  pub force_eof : Bool
  pub wanted : Events
  pub active : Bool
  pub pending : Bool
  pub created : Bool
  pub events : Events
  pub func : FdFunc

-- The static variables of fdevent.c, the events by their addresses, the descriptors that were
-- closed and the events whose callback was called, oldest first.
pub record Loop : Type 0 where
  pub fdes : ℕ → Option Fdevent
  pub links : Links
  pub fd_table : ℕ → Option ℕ
  pub fd_table_max : ℕ
  pub select_n : ℕ
  pub read_fds : ℕ → Bool
  pub write_fds : ℕ → Bool
  pub error_fds : ℕ → Bool
  pub closed : List ℕ
  pub called : List ℕ

-- The state before the first event is installed.
abbrev pub start : Loop
start = record {
  fdes = λ a. none;
  links = empty_links;
  fd_table = λ i. none;
  fd_table_max = 0;
  select_n = 0;
  read_fds = λ i. false;
  write_fds = λ i. false;
  error_fds = λ i. false;
  closed = [];
  called = [];
}

abbrev pub store_event : Loop → ℕ → Fdevent → Loop
store_event l a f = record l { fdes = assign l.fdes a (some f) }

-- `fd_table[i]`; outside the table there is nothing to read.
abbrev pub entry : Loop → ℕ → Option (Option ℕ)
entry l i = if ltb i l.fd_table_max then some (l.fd_table i) else none

-- `FD_SETSIZE`: an `fd_set` has so many bits. What lies beyond is other memory, so a step that
-- touches the bit of a larger descriptor has no result.
abbrev pub fd_setsize : ℕ
fd_setsize = 1024

fdevent_init : Loop → Loop
fdevent_init l = record l { read_fds = λ i. false; write_fds = λ i. false; error_fds = λ i. false }

unfoldable pub fdevent_connect : Loop → ℕ → Loop
fdevent_connect l fd = if leb l.select_n fd then record l { select_n = fd + 1 } else l

-- The last of the `k` entries from `i` that is not null, or `n`.
last_used : Loop → ℕ → ℕ → ℕ → Option ℕ
last_used l zero i n = some n
last_used l (suc k) i n = do e ← entry l i; last_used l k (i + 1) (elim e [ none ↦ n | some a ↦ i ])

pub fdevent_disconnect : Loop → ℕ → Option Loop
unfolding last_used
fdevent_disconnect l fd = if not (ltb fd fd_setsize) then none else do
  let l1 = record l {
    read_fds = assign l.read_fds fd false;
    write_fds = assign l.write_fds fd false;
    error_fds = assign l.error_fds fd false;
  }
  n ← last_used l1 l.select_n 0 0
  some (record l1 { select_n = n + 1 })

-- The new events of the event `a`, and the sets to watch.
unfoldable pub watch : Loop → ℕ → Fdevent → Events → Loop
watch l a f events =
    store_event
      (record l {
        read_fds = assign l.read_fds f.fd events.read;
        write_fds = assign l.write_fds f.fd events.write;
        error_fds = assign l.error_fds f.fd events.error;
      })
      a (record f { wanted = events })

unfoldable pub fdevent_update : Loop → ℕ → Fdevent → Events → Option Loop
unfolding watch
fdevent_update l a f events = if ltb f.fd fd_setsize then some (watch l a f events) else none

-- `while(fd_table_max <= fd) fd_table_max *= 2`, at most `k` rounds.
unfoldable pub grow : ℕ → ℕ → ℕ → ℕ
grow zero max fd = max
grow (suc k) max fd = elim (leb max fd) [ true ↦ grow k (2 * max) fd | false ↦ max ]

-- The table after `realloc` and `memset`: entries from `old` up are what `realloc` left, but for
-- the `sizeof(int) * (max - old)` bytes that are cleared, which are half of the pointers of 8 bytes.
unfoldable pub grown_table : (ℕ → Option ℕ) → ℕ → ℕ → (ℕ → Option ℕ) → ℕ → Option ℕ
grown_table table old max left i =
    if ltb i old then table i else if ltb i (old + (max - old) / 2) then none else left i

-- The table with room for `fd`. `left` is the memory that `realloc` returns, `none` if it fails.
unfoldable pub make_room : Option (ℕ → Option ℕ) → Loop → ℕ → Option Loop
unfolding fdevent_init
make_room left l fd = if ltb 32000 fd then none else do
  let l1 = if l.fd_table_max == 0 then record (fdevent_init l) { fd_table_max = 256 } else l
  let max = grow 7 l1.fd_table_max fd
  memory ← left
  some (record l1 {
    fd_table_max = max;
    fd_table = grown_table l1.fd_table l.fd_table_max max memory;
  })

-- `fd` is `none` if it is negative.
unfoldable pub fdevent_register : Option (ℕ → Option ℕ) → Loop → ℕ → Option ℕ → Option Loop
unfolding make_room
fdevent_register left l a fd = do
  i ← fd
  l1 ← if leb l.fd_table_max i then make_room left l i else some l
  some (record l1 { fd_table = assign l1.fd_table i (some a) })

points_to : Option ℕ → ℕ → Bool
points_to none a = false
points_to (some b) a = b == a

pub fdevent_unregister : Loop → ℕ → Fdevent → Option Loop
unfolding points_to
fdevent_unregister l a f = do
  e ← entry l f.fd
  if points_to e a
      then some (record l {
        fd_table = assign l.fd_table f.fd none;
        closed = if f.wanted.dont_close then l.closed else l.closed ++ f.fd ∷ [];
      })
      else none

-- The event as `fdevent_install` fills it in.
abbrev pub installed : ℕ → FdFunc → Fdevent
installed fd func = record {
  fd = fd;
  force_eof = false;
  wanted = no_events;
  active = true;
  pending = false;
  created = false;
  events = no_events;
  func = func;
}

unfoldable pub fdevent_install : Option (ℕ → Option ℕ) → Loop → ℕ → Option ℕ → FdFunc → Option Loop
unfolding fdevent_register fdevent_connect
fdevent_install left l a fd func = do
  i ← fd
  l1 ← fdevent_register left (store_event l a (installed i func)) a (some i)
  some (fdevent_connect l1 i)

pub fdevent_remove : Loop → ℕ → Option Loop
unfolding fdevent_disconnect fdevent_unregister
fdevent_remove l a = do
  f ← l.fdes a
  links ← if f.pending then fdevent_plist_remove l.links a else some l.links
  let l1 = record l { links = links }
  l2 ← if f.active then (fdevent_disconnect l1 f.fd >>= λ k. fdevent_unregister k a f) else some l1
  some (
      store_event l2 a (record f {
        wanted = no_events;
        active = false;
        pending = false;
        created = false;
        events = no_events;
      }))

-- The events that a pending event still has to report.
unfoldable pub settle : Loop → ℕ → Fdevent → Events → Option Loop
settle l a f events = do
  let g = record f { events = minus f.events events }
  if same_events g.events no_events
      then (fdevent_plist_remove l.links a >>= λ links.
          some (store_event (record l { links = links }) a (record g { pending = false })))
      else some (store_event l a g)

unfoldable pub fdevent_set : Loop → ℕ → Events → Option Loop
unfolding fdevent_update settle
fdevent_set l a events = do
  f ← l.fdes a
  if same_events f.wanted events then some l else do
    l1 ← if f.active then fdevent_update l a f events else some l
    let g = record f { wanted = events }
    if f.pending then settle l1 a g events else some (store_event l1 a g)

pub fdevent_add : Loop → ℕ → Events → Option Loop
fdevent_add l a events = do f ← l.fdes a; fdevent_set l a (union f.wanted events)

pub fdevent_del : Loop → ℕ → Events → Option Loop
fdevent_del l a events = do f ← l.fdes a; fdevent_set l a (minus f.wanted events)

-- `address` is what `malloc` returns, `none` for a null pointer; the result is the new event.
pub fdevent_create :
    Option ℕ → Option (ℕ → Option ℕ) → Loop → Option ℕ → FdFunc → Option (Option ℕ × Loop)
fdevent_create none left l fd func = some (none, l)
fdevent_create (some a) left l fd func = do
  l1 ← fdevent_install left l a fd func
  f ← l1.fdes a
  some (some a, store_event l1 a (record f { created = true }))

pub fdevent_destroy : Loop → Option ℕ → Option Loop
fdevent_destroy l none = some l
fdevent_destroy l (some a) = do f ← l.fdes a; if f.created then fdevent_remove l a else none

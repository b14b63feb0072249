-- ===== src/Listeners/Forwarding.antt =====
-- The forwarding requests of adb.c: `handle_forward_request`, the list of the listeners and the
-- socket behind a local name.
pub mod Parsing
use pax_linux.Base.{
  ℕ, zero, suc, ◌+◌, ◌-◌, ◌*◌, ◌%◌, ◌^◌, min, Bool, true, false, not, ◌&&◌, ◌||◌, List, [], ◌∷◌,
  ◌++◌, Option, none, some, length, take, drop, ltb, leb, ◌==◌, if◌then◌else◌, bytes, str_eq,
  has_prefix,
}
use pax_linux.Smart.{hex4}
use pax_linux.Sockets.Lists.{is_nil}
use pax_linux.Listeners.{
  Listener, Table, Status, ok, internal_error, cannot_bind, cannot_rebind, not_found, is_special,
  install_listener, remove_listener, remove_all_listeners, ◌>>=◌,
}

-- Where a server socket listens.
pub data Endpoint : Type 0 where
  any_interface loopback : (port : ℕ) → Endpoint
  abstract_name file_name : List ℕ → Endpoint

unfoldable pub skip_spaces : List ℕ → List ℕ
skip_spaces [] = []
skip_spaces (c ∷ rest) =
    let later = skip_spaces rest in if c == 32 || (leb 9 c && leb c 13) then later else c ∷ rest

leading_digits : ℕ → List ℕ → ℕ
leading_digits n [] = n
leading_digits n (c ∷ rest) =
    let later = leading_digits (n * 10 + (c - 48)) rest in if leb 48 c && leb c 57 then later else n

-- `strtol` stops at the ends of a 64-bit number; the int is the low 32 bits, kept as a word.
signed : List ℕ → ℕ
unfolding leading_digits
signed [] = 0
signed (c ∷ rest) =
    if c == 45
    then (2 ^ 32 - min (leading_digits 0 rest) (2 ^ 63) % 2 ^ 32) % 2 ^ 32
    else min (leading_digits 0 (if c == 43 then rest else c ∷ rest)) (2 ^ 63 - 1) % 2 ^ 32

pub atoi_word : List ℕ → ℕ
unfolding skip_spaces signed
atoi_word s = signed (skip_spaces s)

-- `local_name_to_fd` up to the call that opens the socket; `listen_all` is `gListenAll > 0`.
unfoldable pub local_endpoint : Bool → List ℕ → Option Endpoint
unfolding atoi_word
local_endpoint listen_all name =
    if has_prefix (bytes "tcp:") name
    then some (
        if listen_all
        then any_interface (atoi_word (drop 4 name))
        else loopback (atoi_word (drop 4 name)))
    else if has_prefix (bytes "local:") name
    then some (abstract_name (drop 6 name))
    else if has_prefix (bytes "localabstract:") name
    then some (abstract_name (drop 14 name))
    else if has_prefix (bytes "localfilesystem:") name
    then some (file_name (drop 16 name))
    else none

-- `open` is what the socket helpers return, none for a negative result.
pub local_name_to_fd : (Endpoint → Option ℕ) → Bool → List ℕ → Option ℕ
unfolding local_endpoint
local_name_to_fd open_socket listen_all name = local_endpoint listen_all name >>= open_socket

-- The line of a listener; `serial` gives the serial number of a transport.
pub format_listener : (ℕ → List ℕ) → Listener → Option (List ℕ)
format_listener serial l = do
  x ← l.transport
  some (serial x ++ 32 ∷ l.local_name ++ 32 ∷ l.connect_to ++ 10 ∷ [])

-- The length of the lines, when there is no buffer.
pub listeners_size : (ℕ → List ℕ) → List Listener → Option ℕ
unfolding format_listener
listeners_size serial [] = some 0
listeners_size serial (l ∷ rest) =
    let later = listeners_size serial rest in
    if is_special l.connect_to
    then later
    else (do line ← format_listener serial l; n ← later; some (length line + n))

-- The lines in a buffer of this size. A line that does not fit is a fault: the unsigned size
-- wraps, and the next line would be written behind the buffer.
pub listeners_text : (ℕ → List ℕ) → List Listener → ℕ → Option (List ℕ)
unfolding format_listener
listeners_text serial [] room = some []
listeners_text serial (l ∷ rest) room =
    let later = listeners_text serial rest in
    if is_special l.connect_to then later room else (do
      line ← format_listener serial l
      let left = room - length line
      if ltb room (length line)
          then none
          else if left == 0
          then some (take (room - 1) line)
          else (later left >>= λ text. some (line ++ text)))

-- `sendfailmsg` and `send_msg_with_okay`, of which at most 65535 bytes are sent.
abbrev pub fail_message : List ℕ → List ℕ
fail_message reason = bytes "FAIL" ++ hex4 (min (length reason) 0xffff) ++ take 0xffff reason

abbrev pub okay_message : List ℕ → List ℕ
okay_message text = bytes "OKAY" ++ hex4 (min (length text) 0xffff) ++ take 0xffff text

-- `strchr(s, c)`: what stands before the first `c` and what behind it.
pub cut_at : ℕ → List ℕ → Option (List ℕ × List ℕ)
cut_at c [] = none
cut_at c (x ∷ rest) =
    let later = cut_at c rest in
    if x == c then some ([], rest) else (later >>= λ (a, b). some (x ∷ a, b))

-- The outcome of `acquire_one_transport`: a transport, or the text of the error.
pub data Acquisition : Type 0 where
  got : ℕ → Acquisition
  refused : List ℕ → Acquisition

-- The reply after an installation or a removal.
abbrev pub bind_reply : Status → List ℕ
bind_reply ok = bytes "OKAYOKAY"
bind_reply cannot_bind = fail_message (bytes "cannot bind to socket")
bind_reply cannot_rebind = fail_message (bytes "cannot rebind existing socket")
bind_reply _ = fail_message (bytes "internal error")

abbrev pub unbind_reply : Status → List ℕ
unbind_reply ok = bytes "OKAYOKAY"
unbind_reply _ = fail_message (bytes "cannot remove listener")

-- A request that was handled, with what was written to the client, or one of another kind.
pub data Handled : Type 0 where
  handled : List ℕ → Table → Handled
  not_forwarding : Handled

module _ (bind : List ℕ → Option ℕ) (acquire : Acquisition) (serial : ℕ → List ℕ) (t : Table) where
  list_forward : Option Handled
  list_forward = do
    n ← listeners_size serial t.listeners
    text ← listeners_text serial t.listeners (n + 1)
    some (handled (okay_message text) t)

  malformed : Handled
  malformed = handled (fail_message (bytes "malformed forward spec")) t

  -- With the transport, of which the text of the error is sent if there is none.
  with_transport : (ℕ → Option Handled) → Option Handled
  with_transport go = elim acquire [
    | got x ↦ go x
    | refused reason ↦ some (handled (fail_message reason) t)
  ]

  create_forward : Bool → List ℕ → Option Handled
  unfolding malformed with_transport
  create_forward no_rebind spec = elim (cut_at 59 spec) [
    | none ↦ some malformed
    | some (local_name, remote) ↦
        if is_nil local_name || is_nil remote || is_special remote
        then some malformed
        else with_transport λ x.
          install_listener bind t local_name remote (some x) no_rebind >>= λ (status, t1).
          some (handled (bind_reply status) t1)
  ]

  kill_forward : List ℕ → Option Handled
  unfolding malformed with_transport
  kill_forward local_name =
      if is_nil local_name
      then some malformed
      else with_transport λ x. remove_listener t local_name (some x) >>= λ (status, t1).
          some (handled (unbind_reply status) t1)

  pub handle_forward_request : List ℕ → Option Handled
  unfolding list_forward create_forward kill_forward
  handle_forward_request service =
      if str_eq service (bytes "list-forward")
      then list_forward
      else if str_eq service (bytes "killforward-all")
      then (remove_all_listeners t >>= λ t1. some (handled (bytes "OKAYOKAY") t1))
      else if has_prefix (bytes "forward:") service
      then (if has_prefix (bytes "norebind:") (drop 8 service)
          then create_forward true (drop 17 service)
          else create_forward false (drop 8 service))
      else if has_prefix (bytes "killforward:") service
      then kill_forward (drop 12 service)
      else some not_forwarding

-- ===== src/Smart.antt =====
-- The smart socket of sockets.c: how `smart_socket_enqueue` collects a request and reads its
-- header (in the build for the host), and how adb_client.c writes one.
pub mod Requests
pub mod Targets
use pax_linux.Base.{
  ℕ, ◌+◌, ◌-◌, ◌*◌, ◌/◌, ◌%◌, Bool, true, false, ◌&&◌, ◌||◌, List, [], ◌∷◌, ◌++◌, Option, none,
  some, length, take, drop, leb, ltb, ◌==◌, if◌then◌else◌, bytes, has_prefix,
}
use pax_linux.Wire.{word, max_payload}
use pax_linux.Banner.{c_string, split_at_char}

abbrev pub is_digit : ℕ → Bool
is_digit c = leb b'0' c && leb c b'9'

-- The value of a hexadecimal digit.
pub hex_digit : ℕ → Option ℕ
hex_digit c =
    if is_digit c
    then some (c - b'0')
    else if leb b'a' c && leb c b'f'
    then some (c - b'a' + 10)
    else if leb b'A' c && leb c b'F'
    then some (c - b'A' + 10)
    else none

-- The loop of `unhex`; `n << 4` leaves its low four bits free for the digit.
pub unhex_loop : ℕ → List ℕ → ℕ
unfolding hex_digit
unhex_loop n [] = n
unhex_loop n (c ∷ rest) = elim (hex_digit c) [
  | none ↦ 0xffff_ffff
  | some d ↦ unhex_loop (n * 16 % word + d) rest
]

pub unhex : List ℕ → ℕ
unfolding unhex_loop
unhex s = unhex_loop 0 s

-- What a packet makes of the request so far.
pub data Frame : Type 0 where
  waiting : List ℕ → Frame
  bad : Frame
  request : List ℕ → Frame

-- The text behind the four digits is read as a C string.
pub read_frame : List ℕ → Frame
unfolding unhex c_string
read_frame buf =
    if ltb (length buf) 4
    then waiting buf
    else let len = unhex (take 4 buf) in
      if ltb len 1 || ltb 1024 len
      then bad
      else if ltb (length buf) (len + 4)
      then waiting buf
      else request (c_string (take len (drop 4 buf)))

-- `pkt_first` and the packet that arrives.
pub collect : Option (List ℕ) → List ℕ → Frame
unfolding read_frame
collect none p = read_frame p
collect (some buf) p =
    if ltb max_payload (length buf + length p) then bad else read_frame (buf ++ p)

-- The packets of the client one after another, up to the first that settles the request.
pub collect_all : Option (List ℕ) → List (List ℕ) → Frame
unfolding collect
collect_all none [] = waiting []
collect_all (some buf) [] = waiting buf
collect_all kept (p ∷ rest) = elim (collect kept p) [
  | waiting buf ↦ collect_all (some buf) rest
  | bad ↦ bad
  | request s ↦ request s
]

-- The prefixes of `skip_host_serial`.
abbrev pub prefixes : List (List ℕ)
prefixes = bytes "usb:" ∷ bytes "product:" ∷ bytes "model:" ∷ bytes "device:" ∷ []

-- The digits at the head of a string, and what is behind them.
pub digits : List ℕ → List ℕ × List ℕ
digits [] = ([], [])
digits (c ∷ rest) =
    if is_digit c then (let (ds, s) = digits rest in (c ∷ ds, s)) else ([], c ∷ rest)

-- Digits, where there are any and a colon follows, and what is behind the colon.
pub before_colon : List ℕ × List ℕ → Option (List ℕ × List ℕ)
before_colon ([], behind) = none
before_colon (d ∷ ds, []) = none
before_colon (d ∷ ds, c ∷ behind) = if c == b':' then some (d ∷ ds, behind) else none

-- The port behind a colon, where there is one.
pub port : List ℕ → Option (List ℕ × List ℕ)
unfolding digits before_colon
port s = before_colon (digits s)

-- A serial number `host` or `host:port`, cut at the colon behind it.
pub host_serial : List ℕ → Option (List ℕ × List ℕ)
unfolding split_at_char port
host_serial service = elim (split_at_char b':' service) [
  | none ↦ none
  | some (host, rest) ↦ elim (port rest) [
    | none ↦ some (host, rest)
    | some (ds, behind) ↦ some (host ++ b':' ∷ ds, behind)
  ]
]

-- A serial number that begins with one of the prefixes ends at the next colon.
pub prefixed_serial : List (List ℕ) → List ℕ → Option (List ℕ × List ℕ)
unfolding host_serial split_at_char
prefixed_serial [] service = host_serial service
prefixed_serial (p ∷ ps) service =
    if has_prefix p service
    then elim (split_at_char b':' (drop (length p) service)) [
      | none ↦ none
      | some (serial, behind) ↦ some (p ++ serial, behind)
    ]
    else prefixed_serial ps service

-- `skip_host_serial`: the serial number before the colon that it finds, and what is behind.
pub skip_host_serial : List ℕ → Option (List ℕ × List ℕ)
unfolding prefixed_serial
skip_host_serial service = prefixed_serial prefixes service

pub data TransportType : Type 0 where
  usb local any host : TransportType

-- A request to the server itself, or a service of the device.
pub data Target : Type 0 where
  host_service : TransportType → Option (List ℕ) → List ℕ → Target
  device_service : List ℕ → Target

pub target : List ℕ → Target
unfolding skip_host_serial
target s =
    if has_prefix (bytes "host-serial:") s
    then elim (skip_host_serial (drop 12 s)) [
      | none ↦ host_service any none (drop 12 s)
      | some (serial, service) ↦ host_service any (some serial) service
    ]
    else if has_prefix (bytes "host-usb:") s
    then host_service usb none (drop 9 s)
    else if has_prefix (bytes "host-local:") s
    then host_service local none (drop 11 s)
    else if has_prefix (bytes "host:") s
    then host_service any none (drop 5 s)
    else device_service s

-- `format_host_command` of commandline.c, which writes what `target` reads.
pub format_host_command : List ℕ → TransportType → Option (List ℕ) → List ℕ
format_host_command command ttype (some serial) = bytes "host-serial:" ++ (serial ++ b':' ∷ command)
format_host_command command usb none = bytes "host-usb:" ++ command
format_host_command command local none = bytes "host-local:" ++ command
format_host_command command _ none = bytes "host:" ++ command

-- A digit of `%x`.
unfoldable pub hex_char : ℕ → ℕ
hex_char d = if ltb d 10 then b'0' + d else b'a' + d - 10

-- `snprintf(tmp, 5, "%04x", len)` of a length that four digits hold.
unfoldable pub hex4 : ℕ → List ℕ
unfolding hex_char
hex4 n =
    hex_char (n / 4096 % 16)
    ∷ hex_char (n / 256 % 16)
    ∷ hex_char (n / 16 % 16)
    ∷ hex_char (n % 16)
    ∷ []

-- What `_adb_connect` writes for a service; none is refused as too long.
unfoldable pub connect_request : List ℕ → Option (List ℕ)
unfolding hex4
connect_request service =
    if ltb (length service) 1 || ltb 1024 (length service)
    then none
    else some (hex4 (length service) ++ service)

-- ===== src/Client.antt =====
-- The client's side of a connection to the server: `adb_status`, `switch_socket_transport` and
-- `adb_query` of adb_client.c.
pub mod Status
use pax_linux.Base.{
  ℕ, ◌+◌, ◌-◌, ◌*◌, ◌/◌, ◌%◌, ◌^◌, min, Bool, true, false, ◌&&◌, ◌||◌, List, [], ◌∷◌, ◌++◌, Option,
  none, some, length, take, leb, ◌==◌, if◌then◌else◌, bytes, str_eq,
}
use pax_linux.Io.{done, failed, blocked, overrun, Stream, readx}
use pax_linux.Smart.{TransportType, usb, local, any, host, hex_digit, hex_char, hex4}
use pax_linux.Listeners.Forwarding.{skip_spaces}

-- The digits of `strtoul` with base 16. The inputs have four characters, which do not overflow,
-- and the callers keep the result in an `unsigned`, which wraps a negative one.
pub hex_prefix : ℕ → List ℕ → ℕ
hex_prefix n [] = n
hex_prefix n (c ∷ rest) = elim (hex_digit c) [ none ↦ n | some d ↦ hex_prefix (n * 16 + d) rest ]

-- The digits behind `0x`, if it is there.
pub magnitude : List ℕ → ℕ
unfolding hex_prefix
magnitude [] = 0
magnitude (c ∷ []) = hex_prefix 0 (c ∷ [])
magnitude (c ∷ x ∷ rest) =
    if c == 48 && (x == 120 || x == 88) then hex_prefix 0 rest else hex_prefix 0 (c ∷ x ∷ rest)

pub signed_hex : List ℕ → ℕ
unfolding magnitude
signed_hex [] = 0
signed_hex (c ∷ rest) =
    if c == 45
    then (2 ^ 32 - magnitude rest) % 2 ^ 32
    else if c == 43
    then magnitude rest
    else magnitude (c ∷ rest)

pub strtoul16 : List ℕ → ℕ
unfolding signed_hex
strtoul16 s = signed_hex (skip_spaces s)

-- `%02x` of a byte.
hex2 : ℕ → List ℕ
hex2 c = hex_char (c / 16 % 16) ∷ hex_char (c % 16) ∷ []

spaced : List ℕ → List ℕ
unfolding hex2
spaced [] = []
spaced (c ∷ []) = hex2 c
spaced (c ∷ d ∷ rest) = hex2 c ++ 32 ∷ spaced (d ∷ rest)

-- How `adb_status` ends: the server has accepted, or the text of `adb_error`, or it still waits.
pub data Answer : Type 0 where
  accepted : Stream → Answer
  error : List ℕ → Answer
  unanswered : Answer

-- The text of the server, of which 255 bytes are kept.
pub read_error : Stream → Answer
unfolding strtoul16
read_error s = elim (readx 4 s) [
  | failed ↦ error (bytes "protocol fault (status len)")
  | blocked ↦ unanswered
  | overrun ↦ unanswered
  | done (digits, s1) ↦ elim (readx (min (strtoul16 digits) 255) s1) [
    | failed ↦ error (bytes "protocol fault (status read)")
    | blocked ↦ unanswered
    | overrun ↦ unanswered
    | done (text, s2) ↦ error text
  ]
]

unfoldable pub adb_status : Stream → Answer
unfolding read_error spaced
adb_status s = elim (readx 4 s) [
  | failed ↦ error (bytes "protocol fault (no status)")
  | blocked ↦ unanswered
  | overrun ↦ unanswered
  | done (word, s1) ↦
      if str_eq word (bytes "OKAY")
      then accepted s1
      else if str_eq word (bytes "FAIL")
      then read_error s1
      else error (bytes "protocol fault (status " ++ spaced word ++ bytes "?!)")
]

-- The service that `switch_socket_transport` asks for, none where no switch is necessary. The
-- buffer holds 63 bytes.
unfoldable pub switch_service : Option (List ℕ) → TransportType → Option (List ℕ)
switch_service (some serial) ttype = some (take 63 (bytes "host:transport:" ++ serial))
switch_service none usb = some (bytes "host:transport-usb")
switch_service none local = some (bytes "host:transport-local")
switch_service none any = some (bytes "host:transport-any")
switch_service none host = none

-- The reply of `adb_query`, behind the status: none is a failure.
pub query_reply : Stream → Option (List ℕ)
unfolding strtoul16
query_reply s = elim (readx 4 s) [
  | done (digits, s1) ↦
      if leb 0xffff (strtoul16 digits)
      then none
      else elim (readx (strtoul16 digits) s1) [ done (text, s2) ↦ some text | _ ↦ none ]
  | _ ↦ none
]

-- What `adb_query` returns: the text, or NULL with or without the reason of the server.
pub data Queried : Type 0 where
  replied : List ℕ → Queried
  rejected : List ℕ → Queried
  no_text : Queried

-- The rest of `adb_query` once `_adb_connect` has written the request.
pub query_answer : Stream → Queried
unfolding query_reply
query_answer s = elim (adb_status s) [
  | accepted s1 ↦ elim (query_reply s1) [ some text ↦ replied text | none ↦ no_text ]
  | error reason ↦ rejected reason
  | unanswered ↦ no_text
]

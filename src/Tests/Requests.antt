-- ===== src/Tests/Requests.antt =====
-- Requests of clients, the choice of a transport, and the PAX commands on concrete texts.
use pax_linux.Base.{false, ℕ, ◌≡◌, ◌↔◌, refl, true, List, [], ◌∷◌, length, none, some, arith, bytes}
use pax_linux.Adb.{ConnectionState}
use pax_linux.Auth.Keys.{offered, offered-all}
use pax_linux.Smart.{
  usb, any, host_service, target, format_host_command, connect_request, collect_all, request, hex4,
  hex_char,
}
use pax_linux.Smart.Requests.{HasNoNul, collect_all-connect_request}
use pax_linux.Smart.Targets.{host_port, target-serial}
use pax_linux.Commandline.{
  tool_service, append_args, escape_arg, escape_chars, code_of, find_behind, digits_before, atoi,
  normalise, negated, parse_loop, stream_and_parse_ret,
}
use pax_linux.Commandline.Words.{plain, split_words, is_meta}
use pax_linux.Transports.{
  Device, Wanted, acquire_once, took, scan, refusal, matches, qual_match, match_chars, sanitize,
  qual_char_is_invalid, matches_type, is_noperm,
}
use pax_linux.Transports.{acquire_one_transport, found}
use pax_linux.Transports.Listing.{list_transports, list_transports-Lists, Lists}
use pax_linux.Transports.Choice.{candidates, only, IsUsable, acquire_once-took}

offered-all_example : offered 4 (5 ∷ 9 ∷ 7 ∷ []) none ≡ 5 ∷ 9 ∷ 7 ∷ []
offered-all_example = offered-all (5 ∷ 9 ∷ 7 ∷ []) (refl, (refl, (refl, tt)))

abbrev version : List ℕ
version = bytes "host:version"

abbrev packets : List (List ℕ)
packets = bytes "0" ∷ bytes "00cho" ∷ [] ∷ bytes "st:version" ∷ []

version_written : connect_request version ≡ some (bytes "000chost:version")
unfolding connect_request hex4 hex_char
version_written = refl

collect_all-connect_request_example :
    (collect_all none packets ≡ request version) × (length (bytes "000chost:version") ≡ 16)
collect_all-connect_request_example =
    collect_all-connect_request version (bytes "000chost:version") packets nul version_written refl
  where
    nul : HasNoNul version
    nul = ground arith

target-serial_example :
    target (format_host_command (bytes "get-state") usb (some (bytes "box:5555")))
    ≡ host_service any (some (bytes "box:5555")) (bytes "get-state")
target-serial_example =
    target-serial (bytes "box:5555") (bytes "get-state") usb
      (host_port (bytes "box") b'5' (bytes "555") refl (refl, (refl, (refl, (refl, tt)))))
      (refl, (refl, (refl, (refl, tt))))

abbrev arguments : List (List ℕ)
arguments = bytes "write" ∷ [] ∷ bytes "a (b)" ∷ []

-- A semicolon is not escaped: a shell finds a second command behind it.
semicolon_kept :
    tool_service (bytes "systool") (bytes "a;b" ∷ []) ≡ some (bytes "shell:systool a;b")
unfolding tool_service append_args escape_arg escape_chars
semicolon_kept = refl

semicolon_read : split_words plain none (bytes "systool a;b") ≡ none
unfolding split_words is_meta
semicolon_read = refl

-- The marker is cut by the end of a read: success is reported.
marker_cut : stream_and_parse_ret true (bytes "[SYSTO" ∷ bytes "OL:-5]" ∷ []) ≡ 0
unfolding stream_and_parse_ret parse_loop code_of find_behind
marker_cut = refl

marker_whole : stream_and_parse_ret true (bytes "x[SYSTOOL:-305]" ∷ bytes "y" ∷ []) ≡ negated 305
unfolding stream_and_parse_ret parse_loop code_of find_behind digits_before atoi normalise
marker_whole = refl

abbrev terminal : Device
terminal = record {
  serial = some (bytes "0820");
  devpath = none;
  product = some (bytes "a920");
  model = some (bytes "A 920");
  device = none;
  type = usb;
  state = ConnectionState.device;
}

list_transports-Lists_example :
    (k : ℕ) × Lists
      (terminal ∷ terminal ∷ [])
      40
      k
      (list_transports false (terminal ∷ terminal ∷ []) 40)
list_transports-Lists_example = list_transports-Lists (terminal ∷ terminal ∷ []) 40 (omega arith)

-- `devices -l` writes behind the buffer where the qualifiers of a device do not fit.
overrun : list_transports true (terminal ∷ []) 30 ≡ none
unfolding list_transports
overrun = refl

abbrev locked : Device
locked = record terminal { serial = some (bytes "0821"); state = ConnectionState.noperm }

abbrev by_model : Wanted
by_model = record { serial = some (bytes "model:A_920"); type = any }

acquire_once-took_example :
    (acquire_once (some ConnectionState.device) by_model (locked ∷ terminal ∷ []) ≡ took terminal)
    ↔ ((only (candidates by_model (locked ∷ terminal ∷ [])) ≡ some terminal)
        × IsUsable (some ConnectionState.device) ConnectionState.device)
acquire_once-took_example =
    acquire_once-took (some ConnectionState.device) by_model (locked ∷ terminal ∷ []) terminal

taken : acquire_once (some ConnectionState.device) by_model (locked ∷ terminal ∷ []) ≡ took terminal
unfolding acquire_once scan refusal matches qual_match match_chars sanitize qual_char_is_invalid
    matches_type is_noperm
taken = refl

-- The first look sees two devices of the model, the second one.
abbrev looks : List (List Device)
looks =
    (terminal ∷ record terminal { serial = some (bytes "0822") } ∷ [])
    ∷ (locked ∷ terminal ∷ [])
    ∷ []

found_later : acquire_one_transport (some ConnectionState.device) by_model looks ≡ found terminal
unfolding acquire_one_transport acquire_once scan refusal matches qual_match match_chars sanitize
    qual_char_is_invalid matches_type is_noperm
found_later = refl

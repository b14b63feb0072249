-- ===== src/Transports.antt =====
-- The choice of a transport for a request: `qual_match` and `acquire_one_transport` of
-- transport.c, over the part of an `atransport` that identifies a device.
pub mod Choice
pub mod Listing
use pax_linux.Base.{
  ℕ, Bool, true, false, not, ◌&&◌, ◌||◌, List, [], ◌∷◌, ◌++◌, Option, none, some, map, leb, ◌==◌,
  if◌then◌else◌, bytes, str_eq,
}
use pax_linux.Adb.{
  ConnectionState, offline, bootloader, device, host, recovery, noperm, sideload, unauthorized,
}
use pax_linux.Smart.{TransportType, usb, local, any}
use pax_linux.Sockets.Lists.{is_nil}

pub record Device : Type 0 where
  pub serial : Option (List ℕ)
  pub devpath : Option (List ℕ)
  pub product : Option (List ℕ)
  pub model : Option (List ℕ)
  pub device : Option (List ℕ)
  pub type : TransportType
  pub state : ConnectionState

unfoldable pub qual_char_is_invalid : ℕ → Bool
qual_char_is_invalid c =
    if leb b'A' c && leb c b'Z'
    then false
    else if leb b'a' c && leb c b'z'
    then false
    else if leb b'0' c && leb c b'9'
    then false
    else true

-- A loop of `qual_match`: the text behind the pattern, where it begins with the pattern.
unfoldable pub match_chars : List ℕ → List ℕ → Option (List ℕ)
match_chars [] text = some text
match_chars (c ∷ pattern) [] = none
match_chars (c ∷ pattern) (x ∷ text) =
    let rest = match_chars pattern text in if c == x then rest else none

unfoldable pub sanitize : Bool → ℕ → ℕ
unfolding qual_char_is_invalid
sanitize b c = if b && qual_char_is_invalid c then b'_' else c

unfoldable pub qual_match : List ℕ → List ℕ → Option (List ℕ) → Bool → Bool
unfolding match_chars sanitize
qual_match [] prefix none b = true
qual_match [] prefix (some qual) b = is_nil qual
qual_match (c ∷ text) prefix none b = false
qual_match (c ∷ text) prefix (some qual) b = elim (match_chars prefix (c ∷ text)) [
  | none ↦ false
  | some rest ↦ elim (match_chars (map (sanitize b) qual) rest) [
    | none ↦ false
    | some behind ↦ is_nil behind
  ]
]

abbrev pub same_string : Option (List ℕ) → List ℕ → Bool
same_string none s = false
same_string (some t) s = str_eq s t

-- What is asked for: a serial number, or else a type.
pub record Wanted : Type 0 where
  pub serial : Option (List ℕ)
  pub type : TransportType

unfoldable pub matches_type : TransportType → TransportType → Bool
matches_type usb usb = true
matches_type local local = true
matches_type any _ = true
matches_type _ _ = false

unfoldable pub matches : Wanted → Device → Bool
unfolding qual_match matches_type
matches w t = elim w.serial [
  | none ↦ matches_type w.type t.type
  | some s ↦
      same_string t.serial s
      || same_string t.devpath s
      || qual_match s (bytes "product:") t.product false
      || qual_match s (bytes "model:") t.model true
      || qual_match s (bytes "device:") t.device false
]

-- The texts of `error_out`.
pub data Failure : Type 0 where
  not_found insufficient_permissions more_than_one_device more_than_one_emulator
        more_than_one_device_and_emulator is_unauthorized is_offline invalid_state :
      Failure

pub ambiguity : Wanted → Failure
ambiguity w = elim w.serial [
  | some s ↦ more_than_one_device
  | none ↦ elim w.type [
    | local ↦ more_than_one_emulator
    | any ↦ more_than_one_device_and_emulator
    | _ ↦ more_than_one_device
  ]
]

unfoldable pub is_noperm : ConnectionState → Bool
is_noperm noperm = true
is_noperm _ = false

pub record Scan : Type 0 where
  pub result : Option Device
  pub ambiguous : Bool
  pub error : Failure

-- The walk of `transport_list`, with `result` and the error so far.
unfoldable pub scan : Wanted → List Device → Option Device → Failure → Scan
unfolding matches ambiguity is_noperm
scan w [] result error = record { result = result; ambiguous = false; error = error }
scan w (t ∷ rest) result error =
    let denied = scan w rest result insufficient_permissions in
    let taken = scan w rest (some t) error in
    let passed = scan w rest result error in
    let too_many : Scan = record { result = none; ambiguous = true; error = ambiguity w } in
    if is_noperm t.state
    then denied
    else if matches w t
    then elim result [ none ↦ taken | some r ↦ too_many ]
    else passed

-- The number of a state in the enum, for comparisons.
abbrev pub state_code : ConnectionState → ℕ
state_code offline = 0
state_code bootloader = 1
state_code device = 2
state_code host = 3
state_code recovery = 4
state_code noperm = 5
state_code sideload = 6
state_code unauthorized = 7

-- Why a device that was found is not taken; the required state is none for `CS_ANY`.
unfoldable pub refusal : Option ConnectionState → ConnectionState → Option Failure
refusal required unauthorized = some is_unauthorized
refusal required offline = some is_offline
refusal none state = none
refusal (some s) state = if state_code state == state_code s then none else some invalid_state

pub data Taken : Type 0 where
  took : Device → Taken
  refused : Failure → Bool → Taken

-- One look at the list; a refusal says whether the choice was ambiguous.
unfoldable pub acquire_once : Option ConnectionState → Wanted → List Device → Taken
unfolding scan refusal
acquire_once required w list =
    let s = scan w list none not_found in
    elim s.result [
      | none ↦ refused s.error s.ambiguous
      | some t ↦ elim (refusal required t.state) [ none ↦ took t | some e ↦ refused e s.ambiguous ]
    ]

pub data Acquired : Type 0 where
  found : Device → Acquired
  failed : Failure → Acquired
  still_waiting : Acquired

-- `goto retry`: with a required state it looks again after a second, unless the choice by type was
-- ambiguous. The lists are what the coming looks see.
unfoldable pub acquire_one_transport :
    Option ConnectionState → Wanted → List (List Device) → Acquired
unfolding acquire_once
acquire_one_transport required w [] = still_waiting
acquire_one_transport required w (list ∷ later) =
    let again = acquire_one_transport required w later in
    elim (acquire_once required w list) [
      | took t ↦ found t
      | refused e ambiguous ↦ elim required [
        | none ↦ failed e
        | some s ↦ elim w.serial [
          | some serial ↦ again
          | none ↦ if not ambiguous then again else failed e
        ]
      ]
    ]

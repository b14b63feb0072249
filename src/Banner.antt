-- ===== src/Banner.antt =====
-- `parse_banner` of adb.c: the identity that a device sends in its CNXN packet. A string is the
-- list of its bytes up to the terminating NUL.
use pax_linux.Base.{
  ℕ, List, [], ◌∷◌, ◌++◌, Option, none, some, Bool, true, false, ◌==◌, if◌then◌else◌, bytes, str_eq,
}
use pax_linux.Adb.{ConnectionState, Transport, bootloader, device, host, recovery, sideload}

-- The C string that starts at the head of a buffer.
unfoldable pub c_string : List ℕ → List ℕ
c_string [] = []
c_string (c ∷ rest) = if c == 0 then [] else c ∷ c_string rest

-- `strchr(s, c)`: what stands before the first `c`, and what behind it.
unfoldable pub split_at_char : ℕ → List ℕ → Option (List ℕ × List ℕ)
split_at_char c [] = none
split_at_char c (x ∷ rest) =
    let later = split_at_char c rest in
    if x == c
    then some ([], rest)
    else elim later [ none ↦ none | some (before, behind) ↦ some (x ∷ before, behind) ]

-- The tokens of `strtok_r`: the runs between separators, empty ones left out. The first argument
-- is the token under way, in reverse order.
abbrev pub close_token : List ℕ → List (List ℕ) → List (List ℕ)
close_token [] rest = rest
close_token (x ∷ token) rest = (x ∷ token) ∷ rest

pub tokens_from : ℕ → List ℕ → List ℕ → List (List ℕ)
tokens_from sep token [] = close_token token []
tokens_from sep token (x ∷ rest) =
    let next = tokens_from sep [] rest in
    let longer = tokens_from sep (token ++ x ∷ []) rest in
    if x == sep then close_token token next else longer

pub tokens : ℕ → List ℕ → List (List ℕ)
unfolding tokens_from
tokens sep s = tokens_from sep [] s

-- `qual_overwrite`: an empty value clears the qualifier.
pub qual_overwrite : List ℕ → Option (List ℕ)
qual_overwrite [] = none
qual_overwrite (x ∷ xs) = some (x ∷ xs)

-- One `key=value` of the banner; a token without `=` is passed over.
pub apply_property : List ℕ → Transport → Transport
unfolding split_at_char qual_overwrite
apply_property token t = elim (split_at_char b'=' token) [
  | none ↦ t
  | some (key, value) ↦
      if str_eq key (bytes "ro.product.name")
      then record t { product = qual_overwrite value }
      else if str_eq key (bytes "ro.product.model")
      then record t { model = qual_overwrite value }
      else if str_eq key (bytes "ro.product.device")
      then record t { device = qual_overwrite value }
      else t
]

pub apply_properties : List (List ℕ) → Transport → Transport
unfolding apply_property
apply_properties [] t = t
apply_properties (token ∷ rest) t = apply_properties rest (apply_property token t)

-- The state that the type of the banner names, and whether the trackers are told.
pub state_of_type : List ℕ → ConnectionState × Bool
state_of_type type =
    if str_eq type (bytes "bootloader")
    then (bootloader, true)
    else if str_eq type (bytes "device")
    then (device, true)
    else if str_eq type (bytes "recovery")
    then (recovery, true)
    else if str_eq type (bytes "sideload")
    then (sideload, true)
    else (host, false)

-- The properties of a banner `type::properties`; the second field is not used.
pub with_properties : List ℕ → Transport → Transport
unfolding split_at_char tokens apply_properties
with_properties fields t = elim (split_at_char b':' fields) [
  | none ↦ t
  | some (_, properties) ↦ apply_properties (tokens b';' properties) t
]

-- The transport after the banner, and whether `update_transports` was called.
unfoldable pub parse_banner : List ℕ → Transport → Transport × Bool
unfolding split_at_char with_properties state_of_type
parse_banner banner t = elim (split_at_char b':' banner) [
  | none ↦ let (state, told) = state_of_type banner in (record t { connection_state = state }, told)
  | some (type, fields) ↦
      let (state, told) = state_of_type type in
      (record (with_properties fields t) { connection_state = state }, told)
]

-- ===== src/Commandline.antt =====
-- The PAX commands of commandline.c: the shell command that runs a tool of the terminal
-- (`escape_arg`, `pax_tool_command`) and the exit code that is read from its output
-- (`pax_stream_and_parse_ret`). An int is its two's complement, a number below 2 ^ 32.
pub mod Words
use pax_linux.Base.{
  ℕ, zero, suc, ◌+◌, ◌-◌, ◌*◌, ◌%◌, ◌^◌, min, Bool, true, false, ◌&&◌, ◌||◌, List, [], ◌∷◌, ◌++◌,
  Option, none, some, length, drop, ltb, leb, ◌==◌, if◌then◌else◌, bytes, has_prefix, str_eq,
}
use pax_linux.Wire.{word}

abbrev pub should_escape : ℕ → Bool
should_escape c = c == b' ' || c == b'\'' || c == b'"' || c == b'\\' || c == b'(' || c == b')'

-- The second loop of `escape_arg`.
unfoldable pub escape_chars : List ℕ → List ℕ
escape_chars [] = []
escape_chars (c ∷ rest) =
    if should_escape c then b'\\' ∷ c ∷ escape_chars rest else c ∷ escape_chars rest

-- An empty argument becomes a pair of double quotes.
unfoldable pub escape_arg : List ℕ → List ℕ
unfolding escape_chars
escape_arg [] = b'"' ∷ b'"' ∷ []
escape_arg (c ∷ rest) = escape_chars (c ∷ rest)

-- The loop of `pax_tool_command` over the arguments.
unfoldable pub append_args : List (List ℕ) → List ℕ
unfolding escape_arg
append_args [] = []
append_args (a ∷ rest) = b' ' ∷ (escape_arg a ++ append_args rest)

-- `svc` of `pax_tool_command`; none where the text and its NUL do not fit the 4096 bytes of the
-- array, since the bound of `strncat` is not the room that is left.
unfoldable pub tool_service : List ℕ → List (List ℕ) → Option (List ℕ)
unfolding append_args
tool_service tool args =
    let svc = bytes "shell:" ++ (tool ++ append_args args) in
    if ltb (length svc) 4096 then some svc else none

-- Which subcommands push their last argument as a file first (`file_based`).
pub file_based : List ℕ → List ℕ → Bool
file_based tool sub =
    if str_eq tool (bytes "systool")
    then str_eq sub (bytes "update")
      || str_eq sub (bytes "write")
      || str_eq sub (bytes "install")
      || str_eq sub (bytes "apn")
      || str_eq sub (bytes "puk")
    else str_eq sub (bytes "install")

-- `memmem`: what is behind the first `marker`.
unfoldable pub find_behind : List ℕ → List ℕ → Option (List ℕ)
find_behind marker [] = if has_prefix marker [] then some [] else none
find_behind marker (c ∷ rest) =
    let later = find_behind marker rest in
    if has_prefix marker (c ∷ rest) then some (drop (length marker) (c ∷ rest)) else later

-- Up to `room` digits before the closing bracket; other characters are passed over.
unfoldable pub digits_before : ℕ → List ℕ → List ℕ
digits_before room [] = []
digits_before zero (c ∷ rest) = []
digits_before (suc room) (c ∷ rest) =
    let skipped = digits_before (suc room) rest in
    let more = digits_before room rest in
    if c == b']' then [] else if leb b'0' c && leb c b'9' then c ∷ more else skipped

abbrev pub value_of : ℕ → List ℕ → ℕ
value_of n [] = n
value_of n (c ∷ rest) = value_of (n * 10 + (c - b'0')) rest

-- `atoi`: `strtol` stops at the greatest 64-bit number, and the int is its low 32 bits.
unfoldable pub atoi : List ℕ → ℕ
atoi ds = min (value_of 0 ds) (2 ^ 63 - 1) % word

-- `-n`.
abbrev pub negated : ℕ → ℕ
negated n = (word - n % word) % word

-- The exit codes of the tool as the client reports them.
unfoldable pub normalise : ℕ → ℕ
normalise ret =
    if ret == negated 4
    then negated 6
    else if ret == negated 22 || ret == negated 101
    then 0
    else if ltb 9 ((ret + 310) % word)
    then negated 5
    else ret

abbrev pub marker : List ℕ
marker = bytes "[SYSTOOL:-"

-- The code that one buffer full sets, if it holds a marker.
unfoldable pub code_of : List ℕ → Option ℕ
unfolding find_behind digits_before atoi normalise
code_of buf = elim (find_behind marker buf) [
  | none ↦ none
  | some q ↦ some (normalise (negated (atoi (digits_before 31 q))))
]

-- The loop over what the reads return, with `ret` so far.
unfoldable pub parse_loop : ℕ → List (List ℕ) → ℕ
unfolding code_of
parse_loop ret [] = ret
parse_loop ret (buf ∷ rest) = elim (code_of buf) [
  | none ↦ parse_loop ret rest
  | some code ↦ parse_loop code rest
]

unfoldable pub stream_and_parse_ret : Bool → List (List ℕ) → ℕ
unfolding parse_loop
stream_and_parse_ret false reads = 0
stream_and_parse_ret true reads = parse_loop 0 reads

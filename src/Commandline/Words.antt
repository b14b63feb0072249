-- ===== src/Commandline/Words.antt =====
-- How a shell splits the command of `pax_tool_command` of commandline.c into words.
use pax_linux.Base.{
  ℕ, ◌≡◌, false, Bool, true, not, ◌||◌, Option, none, List, [], ◌∷◌, ◌++◌, some, ◌==◌,
  if◌then◌else◌,
}
use pax_linux.Commandline.{should_escape}

-- The characters outside of quotes with which a shell does more than to split words, those that
-- `escape_arg` escapes included.
unfoldable pub is_meta : ℕ → Bool
is_meta c =
    c == b'\''
    || c == b'('
    || c == b')'
    || c == b';'
    || c == b'&'
    || c == b'|'
    || c == b'$'
    || c == b'`'
    || c == b'<'
    || c == b'>'
    || c == b'*'
    || c == b'?'
    || c == b'['
    || c == b'#'
    || c == b'~'
    || c == b'!'
    || c == b'{'
    || c == b'}'
    || c == 9
    || c == 10

-- Where a shell is in a line.
pub data Mode : Type 0 where
  plain quoted backslash : Mode

-- The characters of the word under way, if there is one.
abbrev so_far : Option (List ℕ) → List ℕ
so_far none = []
so_far (some w) = w

abbrev before_words : Option (List ℕ) → Option (List (List ℕ)) → Option (List (List ℕ))
before_words w none = none
before_words none (some words) = some words
before_words (some w) (some words) = some (w ∷ words)

-- The words of a line, none where the line is more than words. Spaces stand between words, a
-- backslash takes the next character as it is, and double quotes make a word even if it is empty.
unfoldable pub split_words : Mode → Option (List ℕ) → List ℕ → Option (List (List ℕ))
unfolding is_meta
split_words plain w [] = before_words w (some [])
split_words quoted w [] = none
split_words backslash w [] = none
split_words plain w (c ∷ rest) =
    let next = split_words plain none rest in
    let escaped = split_words backslash w rest in
    let opened = split_words quoted (some (so_far w)) rest in
    let longer = split_words plain (some (so_far w ++ c ∷ [])) rest in
    if c == b' '
    then before_words w next
    else if c == b'\\'
    then escaped
    else if c == b'"'
    then opened
    else if is_meta c
    then none
    else longer
split_words backslash w (c ∷ rest) =
    let longer = split_words plain (some (so_far w ++ c ∷ [])) rest in
    if c == 10 then none else longer
split_words quoted w (c ∷ rest) =
    let closed = split_words plain w rest in
    let longer = split_words quoted (some (so_far w ++ c ∷ [])) rest in
    if c == b'"' then closed else if c == b'\\' || c == b'$' || c == b'`' then none else longer

-- Every character is escaped by `escape_arg` or has no meaning to a shell.
abbrev pub IsTame : List ℕ → Type 0
IsTame [] = Unit
IsTame (c ∷ rest) = ((should_escape c || not (is_meta c)) ≡ true) × IsTame rest

abbrev pub AreTame : List (List ℕ) → Type 0
AreTame [] = Unit
AreTame (a ∷ rest) = IsTame a × AreTame rest

-- The word under way with more characters.
abbrev longer_by : Option (List ℕ) → List ℕ → Option (List ℕ)
longer_by w [] = w
longer_by w (c ∷ s) = some (so_far w ++ c ∷ s)

-- No character of the tool's name is escaped, has a meaning to a shell, or makes it an assignment.
abbrev pub IsOrdinary : List ℕ → Type 0
IsOrdinary [] = Unit
IsOrdinary (c ∷ rest) =
    (should_escape c ≡ false) × (is_meta c ≡ false) × ((c == b'=') ≡ false) × IsOrdinary rest

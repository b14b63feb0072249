-- ===== src/Smart/Targets.antt =====
-- The host commands of `format_host_command` of commandline.c at the smart socket of sockets.c.
use pax_linux.Base.{
  ℕ, ◌≡◌, refl, ap, ◌∙◌, true, false, List, [], ◌∷◌, ◌++◌, none, some, arith, has_prefix,
  append_assoc,
}
use pax_linux.Banner.{split_at_char}
use pax_linux.Smart.{
  TransportType, any, host_service, target, format_host_command, skip_host_serial, prefixed_serial,
  host_serial, port, before_colon, digits, prefixes, is_digit,
}
use pax_linux.Sockets.Lists.{on}

-- None of the prefixes that `skip_host_serial` knows begins the service.
abbrev pub HasNoPrefix : List (List ℕ) → List ℕ → Type 0
HasNoPrefix [] s = Unit
HasNoPrefix (p ∷ ps) s = (has_prefix p s ≡ false) × HasNoPrefix ps s

prefixed_serial-plain :
    (ps : List (List ℕ)) (s : List ℕ) → HasNoPrefix ps s → prefixed_serial ps s ≡ host_serial s
unfolding prefixed_serial
prefixed_serial-plain [] s h = refl
prefixed_serial-plain (p ∷ ps) s h = rw h.0 (prefixed_serial-plain ps s h.1)

split_at_char-append :
    (c : ℕ) (before behind : List ℕ)
    → on c before ≡ false
    → split_at_char c (before ++ c ∷ behind) ≡ some (before, behind)
unfolding split_at_char
split_at_char-append c [] behind h = ground arith
split_at_char-append c (x ∷ before) behind h =
    rw (split_at_char-append c before behind (ground arith)) (ground arith)

abbrev pub AreDigits : List ℕ → Type 0
AreDigits [] = Unit
AreDigits (c ∷ cs) = (is_digit c ≡ true) × AreDigits cs

digits-append : (ds rest : List ℕ) → AreDigits ds → digits (ds ++ b':' ∷ rest) ≡ (ds, b':' ∷ rest)
unfolding digits
digits-append [] rest h = refl
digits-append (d ∷ ds) rest h = rw (h.0, digits-append ds rest h.1) refl

port-append :
    (d : ℕ) (ds rest : List ℕ)
    → AreDigits (d ∷ ds)
    → port (d ∷ (ds ++ b':' ∷ rest)) ≡ some (d ∷ ds, rest)
unfolding port before_colon
port-append d ds rest h = ap before_colon (digits-append (d ∷ ds) rest h)

-- A serial number without a colon (the command does not begin like a port), or a host and a port.
pub data IsSerial (command : List ℕ) : List ℕ → Type 0 where
  name : {serial : List ℕ} → on b':' serial ≡ false → port command ≡ none → IsSerial command serial
  host_port :
      (h : List ℕ) (d : ℕ) (ds : List ℕ)
      → on b':' h ≡ false
      → AreDigits (d ∷ ds)
      → IsSerial command (h ++ b':' ∷ d ∷ ds)

host_serial-IsSerial :
    {serial : List ℕ} (command : List ℕ)
    → IsSerial command serial
    → host_serial (serial ++ b':' ∷ command) ≡ some (serial, command)
unfolding host_serial
host_serial-IsSerial {serial} command (name colon no_port) =
    rw (host_serial, split_at_char-append b':' serial command colon, no_port) refl
host_serial-IsSerial command (host_port h d ds colon number) =
    ap host_serial (append_assoc h (b':' ∷ d ∷ ds) (b':' ∷ command))
    ∙ (rw
        (
          host_serial,
          split_at_char-append b':' h (d ∷ (ds ++ b':' ∷ command)) colon,
          port-append d ds command number,
        )
        refl)

-- The command for a serial number, which does not begin with `usb:`, `product:`, `model:` or
-- `device:`, reaches the server as that command for that serial number, also where the serial
-- number is a host and a port with a colon between them.
pub target-serial :
    (serial command : List ℕ) (ttype : TransportType)
    → IsSerial command serial
    → HasNoPrefix prefixes (serial ++ b':' ∷ command)
    → target (format_host_command command ttype (some serial))
      ≡ host_service any (some serial) command
unfolding target format_host_command skip_host_serial
target-serial serial command ttype v plain =
    rw (prefixed_serial-plain prefixes (serial ++ b':' ∷ command) plain)
      (rw (host_serial-IsSerial command v) refl)

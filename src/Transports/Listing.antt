-- ===== src/Transports/Listing.antt =====
-- The list of the devices: `format_transport` and `list_transports` of transport.c.
use pax_linux.Base.{
  ℕ, zero, suc, ◌-◌, ◌≤◌, ◌<◌, ◌≡◌, refl, ap, ◌⊎◌, inl, inr, Bool, true, false, List, [], ◌∷◌, ◌++◌,
  Option, none, some, map, length, length-append, take, ltb, leb, leb→le, ◌==◌, if◌then◌else◌,
  bytes, arith, Bool-cases,
}
use pax_linux.Adb.{
  ConnectionState, offline, bootloader, device, host, recovery, noperm, sideload, unauthorized,
}
use pax_linux.Transports.{Device, sanitize}

infixl 10 ◌>>=◌
abbrev ◌>>=◌ {ℓ κ} : {A : Type ℓ} {B : Type κ} → Option A → (A → Option B) → Option B
none >>= f = none
some a >>= f = f a

pub statename : ConnectionState → List ℕ
statename offline = bytes "offline"
statename bootloader = bytes "bootloader"
statename device = bytes "device"
statename host = bytes "host"
statename recovery = bytes "recovery"
statename sideload = bytes "sideload"
statename noperm = bytes "no permissions"
statename unauthorized = bytes "unauthorized"

-- The serial number that is shown.
shown_serial : Option (List ℕ) → List ℕ
shown_serial none = bytes "????????????"
shown_serial (some []) = bytes "????????????"
shown_serial (some (c ∷ rest)) = c ∷ rest

spaces : ℕ → List ℕ
spaces zero = []
spaces (suc n) = 32 ∷ spaces n

-- `%-22s`.
padded : List ℕ → List ℕ
unfolding spaces
padded s = s ++ spaces (22 - length s)

-- What has been written, and the room that is left in the buffer.
record Cursor : Type 0 where
  text : List ℕ
  room : ℕ

-- Text that is longer than the room is a fault: the unsigned size wraps, and what comes next is
-- written behind the buffer.
write : Cursor → List ℕ → Option Cursor
write c s =
    if ltb c.room (length s)
    then none
    else some (record { text = c.text ++ s; room = c.room - length s })

add_qual : Cursor → List ℕ → Option (List ℕ) → Bool → Option Cursor
unfolding write
add_qual c prefix none sanitized = some c
add_qual c prefix (some []) sanitized = some c
add_qual c prefix (some (q ∷ qual)) sanitized =
    if c.room == 0 then some c else write c (prefix ++ map (sanitize sanitized) (q ∷ qual))

pub short_line : Device → List ℕ
unfolding statename shown_serial
short_line d = shown_serial d.serial ++ 9 ∷ statename d.state ++ 10 ∷ []

-- The line of a device in a buffer of this size. What `snprintf` cuts off counts in its result.
pub format_transport : Bool → Device → ℕ → Option (List ℕ)
unfolding statename shown_serial padded write add_qual short_line
format_transport false d room = some (short_line d)
format_transport true d room = do
  c1 ←
      write (record { text = []; room = room })
        (padded (shown_serial d.serial) ++ 32 ∷ statename d.state)
  c2 ← add_qual c1 (bytes " ") d.devpath false
  c3 ← add_qual c2 (bytes " product:") d.product false
  c4 ← add_qual c3 (bytes " model:") d.model true
  c5 ← add_qual c4 (bytes " device:") d.device false
  some (c5.text ++ 10 ∷ [])

-- The lines up to the first that does not fit with the terminating NUL.
unfoldable pub list_transports : Bool → List Device → ℕ → Option (List ℕ)
unfolding format_transport
list_transports long [] room = some []
list_transports long (d ∷ rest) room =
    let later = list_transports long rest in
    format_transport long d room >>= λ line.
    if leb room (length line)
    then some []
    else (later (room - length line) >>= λ text. some (line ++ text))

abbrev pub lines : List Device → List ℕ
lines [] = []
lines (d ∷ rest) = short_line d ++ lines rest

-- The lines of the first `k` devices, of which no more would fit.
abbrev pub Lists : List Device → ℕ → ℕ → Option (List ℕ) → Type 0
Lists ds room k r =
    (r ≡ some (lines (take k ds)))
    × (length (lines (take k ds)) < room)
    × ((take k ds ≡ ds) ⊎ (room ≤ length (lines (take (suc k) ds))))

list_cons :
    (d : Device) (rest : List Device) (room : ℕ)
    → leb room (length (short_line d)) ≡ false
    → (text : List ℕ) → list_transports false rest (room - length (short_line d)) ≡ some text
    → list_transports false (d ∷ rest) room ≡ some (short_line d ++ text)
unfolding list_transports format_transport
list_cons d rest room fits text e = rw (fits, e) refl

list_full :
    (d : Device) (rest : List Device) (room : ℕ)
    → leb room (length (short_line d)) ≡ true
    → list_transports false (d ∷ rest) room ≡ some []
unfolding list_transports format_transport
list_full d rest room full = rw full refl

-- In a buffer that is not empty the list of `devices`, without `-l`, ends with the last whole line
-- that leaves room for the terminating NUL: it is the lines of the first devices, shorter than the
-- buffer, and either all devices are there or the next line would not fit.
pub list_transports-Lists :
    (ds : List Device) (room : ℕ)
    → 0 < room
    → (k : ℕ) × Lists ds room k (list_transports false ds room)
list_transports-Lists [] room h = (0, (unfold list_transports in refl, h, inl refl))
list_transports-Lists (d ∷ rest) room h = elim (Bool-cases (leb room (length (short_line d)))) [
  | inl full ↦ (
    0,
    (
      list_full d rest room full,
      h,
      inr (omega (arith, leb→le _ _ full, length-append (short_line d) [])),
    ),
  )
  | inr fits ↦
      let n = length (short_line d) in
      let lt : n < room = ground arith in
      let (k, (e, lt', more)) = list_transports-Lists rest (room - n) (omega arith) in
      (
        suc k,
        (
          list_cons d rest room fits (lines (take k rest)) e,
          omega (arith, length-append (short_line d) (lines (take k rest))),
          elim more [
            | inl all ↦ inl (ap (λ z. d ∷ z) all)
            | inr no_room ↦
                inr
                  (omega (arith, no_room, length-append (short_line d) (lines (take (suc k) rest))))
          ],
        ),
      )
]

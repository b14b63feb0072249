-- ===== src/Tests/Client.antt =====
-- The client of the server on concrete replies.
use pax_linux.Base.{ℕ, zero, suc, ◌≡◌, refl, List, [], ◌∷◌, ◌++◌, some, arith, bytes}
use pax_linux.Io.{ReadEvent, ready, interrupted, Stream}
use pax_linux.Smart.{usb}
use pax_linux.Listeners.Forwarding.{okay_message}
use pax_linux.Client.{error, replied, adb_status, query_answer, switch_service}
use pax_linux.Client.Status.{okay, query_answer-message}

-- Reads of one byte each, behind an interruption.
abbrev single : ℕ → List ReadEvent
single zero = interrupted ∷ []
single (suc n) = ready 0 ∷ single n

abbrev listed : Stream
listed = record {
  bytes = okay_message (bytes "emulator-5554") ++ bytes "more";
  events = ready 5 ∷ single 24;
}

query_answer-message_example : query_answer listed ≡ replied (bytes "emulator-5554")
query_answer-message_example =
    query_answer-message listed (okay (bytes "emulator-5554")) (bytes "more") (omega arith)
      (refl, omega arith)

-- An unknown status is shown by its bytes.
unknown_status :
    adb_status (record { bytes = bytes "ABCD"; events = ready 9 ∷ [] })
    ≡ error (bytes "protocol fault (status 41 42 43 44?!)")
unfolding adb_status pax_linux.Io.readx pax_linux.Io.read_loop pax_linux.Io.after pax_linux.Io.chunk
    pax_linux.Smart.hex_char
unknown_status = refl

-- A serial of more than 48 bytes is cut.
long_serial :
    switch_service (some (bytes "0123456789012345678901234567890123456789012345678")) usb
    ≡ some (bytes "host:transport:012345678901234567890123456789012345678901234567")
unfolding switch_service
long_serial = refl

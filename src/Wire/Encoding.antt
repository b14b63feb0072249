-- ===== src/Wire/Encoding.antt =====
-- The bytes of an `amessage` (adb.h).
use pax_linux.Base.{ℕ, ◌<◌, ◌≡◌, refl, List, length, ◌++◌, arith}
use pax_linux.Wire.{Message, word, le32, read_le32, message_bytes, message_size, message_of_bytes}

-- The fields of a message are 32-bit words.
pub record IsWords (m : Message) : Type 0 where
  pub command : m.command < word
  pub arg0 : m.arg0 < word
  pub arg1 : m.arg1 < word
  pub data_length : m.data_length < word
  pub data_check : m.data_check < word
  pub magic : m.magic < word

pub read_le32-le32 : (n : ℕ) (rest : List ℕ) → n < word → read_le32 (le32 n ++ rest) ≡ n
unfolding read_le32 le32
read_le32-le32 n rest h = omega arith

pub length-message_bytes : (m : Message) → length (message_bytes m) ≡ message_size
unfolding message_bytes
length-message_bytes m = refl

-- The 24 bytes of a header whose fields are 32-bit words are read back as that header.
pub message_of_bytes-message_bytes :
    (m : Message) → IsWords m → message_of_bytes (message_bytes m) ≡ m
unfolding message_of_bytes message_bytes
message_of_bytes-message_bytes m w = ground arith

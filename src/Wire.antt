-- ===== src/Wire.antt =====
-- The packets of the protocol: adb.h (`amessage`, `apacket`), their sealing and checks in
-- transport.c, and their transfer in transport_local.c and transport_usb.c. A 32-bit field is a
-- number; every sum of the code is taken modulo 2 ^ 32.
pub mod Encoding
pub mod Checks
pub mod Transfer
use pax_linux.Base.{
  ℕ, ◌+◌, ◌*◌, ◌/◌, ◌%◌, ◌^◌, bit_xor, Bool, true, false, not, List, [], ◌∷◌, ◌++◌, Option, none,
  some, length, take, drop, ltb, ◌==◌, if◌then◌else◌,
}
use pax_linux.Io.{Io, done, failed, ◌>>=◌, Stream, readx, WriteEvent, Written, writex}

abbrev pub word : ℕ
word = 2 ^ 32

abbrev pub all_ones : ℕ
all_ones = 0xffff_ffff

abbrev pub max_payload : ℕ
max_payload = 4096

-- `amessage`.
pub record Message : Type 0 where
  pub command : ℕ
  pub arg0 : ℕ
  pub arg1 : ℕ
  pub data_length : ℕ
  pub data_check : ℕ
  pub magic : ℕ

-- `apacket`: `payload` is what stands in its buffer `data`.
pub record Packet : Type 0 where
  pub msg : Message
  pub open msg use *
  pub payload : List ℕ

-- A 32-bit word in the memory of a little-endian host.
unfoldable pub le32 : ℕ → List ℕ
le32 n = n % 256 ∷ n / 256 % 256 ∷ n / 65536 % 256 ∷ n / 16777216 % 256 ∷ []

unfoldable pub read_le32 : List ℕ → ℕ
read_le32 (a ∷ b ∷ c ∷ d ∷ rest) = a + b * 256 + c * 65536 + d * 16777216
read_le32 _ = 0

-- `struct amessage` as its 24 bytes, `sizeof(amessage)`.
unfoldable pub message_bytes : Message → List ℕ
unfolding le32
message_bytes m =
    le32 m.command
    ++ (le32 m.arg0 ++ (le32 m.arg1 ++ (le32 m.data_length ++ (le32 m.data_check ++ le32 m.magic))))

abbrev pub message_size : ℕ
message_size = 24

unfoldable pub message_of_bytes : List ℕ → Message
unfolding read_le32
message_of_bytes b = record {
  command = read_le32 b;
  arg0 = read_le32 (drop 4 b);
  arg1 = read_le32 (drop 8 b);
  data_length = read_le32 (drop 12 b);
  data_check = read_le32 (drop 16 b);
  magic = read_le32 (drop 20 b);
}

-- `while (count-- > 0) sum += *x++;`
unfoldable pub sum_bytes : ℕ → List ℕ → ℕ
sum_bytes acc [] = acc
sum_bytes acc (x ∷ xs) = sum_bytes ((acc + x) % word) xs

-- What `send_packet` writes into the packet before it goes to the transport's thread.
unfoldable pub send_packet : Packet → Packet
unfolding sum_bytes
send_packet p = record p {
  msg = record p.msg {
    magic = bit_xor p.command all_ones;
    data_check = sum_bytes 0 (take p.data_length p.payload);
  };
}

-- Both checks return 0 (`true` here) or -1.
unfoldable pub check_header : Message → Bool
check_header m =
    if not (m.magic == bit_xor m.command all_ones)
    then false
    else if ltb max_payload m.data_length
    then false
    else true

unfoldable pub check_data : Packet → Bool
check_data p = sum_bytes 0 (take p.data_length p.payload) == p.data_check

-- `remote_read` of transport_local.c.
unfoldable pub remote_read : Stream → Io (Packet × Stream)
remote_read s = do
  (header, s1) ← readx message_size s
  let m = message_of_bytes header
  if not (check_header m) then failed else do
    (data_bytes, s2) ← readx m.data_length s1
    let p : Packet = record { msg = m; payload = data_bytes }
    if not (check_data p) then failed else done (p, s2)

-- `remote_write` of transport_local.c: the header and the payload lie behind one another.
unfoldable pub remote_write : List WriteEvent → Packet → Written
remote_write events p = writex events (message_bytes p.msg ++ take p.data_length p.payload)

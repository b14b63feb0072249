-- ===== src/Wire/Checks.antt =====
-- The checksum and the magic of a packet: `send_packet` and the two checks of transport.c.
use pax_linux.Base.{
  ℕ, zero, suc, ◌+◌, ◌*◌, ◌%◌, ◌≤◌, ◌<◌, ◌≡◌, ◌≢◌, ◌↔◌, refl, ap, bit_xor, true, false, List, [],
  ◌∷◌, length, arith, take_all,
}
use pax_linux.Base.Bits.{bit_xor_ones}
use pax_linux.Wire.{
  Message, Packet, word, all_ones, max_payload, sum_bytes, send_packet, check_header, check_data,
}
use pax_linux.Wire.Encoding.{IsWords}

-- The sum of the bytes, with no wrap.
pub total : List ℕ → ℕ
total [] = 0
total (x ∷ xs) = x + total xs

abbrev pub AreBytes : List ℕ → Type 0
AreBytes [] = Unit
AreBytes (x ∷ xs) = (x < 256) × AreBytes xs

sum_bytes-eq-total :
    (acc : ℕ) (xs : List ℕ) → acc < word → sum_bytes acc xs ≡ (acc + total xs) % word
unfolding sum_bytes total
sum_bytes-eq-total acc [] h = omega arith
sum_bytes-eq-total acc (x ∷ xs) h =
    omega (arith, sum_bytes-eq-total ((acc + x) % word) xs (omega arith))

total-le : (xs : List ℕ) → AreBytes xs → total xs ≤ 255 * length xs
unfolding total
total-le [] h = omega arith
total-le (x ∷ xs) h = omega (arith, total-le xs h.1)

-- A payload as the transport may carry it.
pub record IsSendable (p : Packet) : Type 0 where
  pub words : IsWords p.msg
  pub small : p.data_length ≤ max_payload
  pub full : length p.payload ≡ p.data_length
  pub octets : AreBytes p.payload

-- Of a sendable packet the checksum that `send_packet` writes is the sum of the payload's bytes:
-- it never wraps.
send_packet-data_check : (p : Packet) → IsSendable p → (send_packet p).data_check ≡ total p.payload
unfolding send_packet
send_packet-data_check p v =
    rw (take_all p.data_length p.payload (omega arith))
      (omega (arith, sum_bytes-eq-total 0 p.payload (omega arith), total-le p.payload v.octets))

xor_all_ones-lt : (x : ℕ) → x < word → bit_xor x all_ones < word
xor_all_ones-lt x h = omega (arith, bit_xor_ones 32 x h)

-- What `send_packet` seals passes both checks, and is still sendable.
pub send_packet_checks :
    (p : Packet)
    → IsSendable p
    → (check_header (send_packet p).msg ≡ true)
      × (check_data (send_packet p) ≡ true)
      × IsSendable (send_packet p)
send_packet_checks p v = (
  unfold send_packet check_header in ground arith,
  unfold send_packet check_data in ground arith,
  record {
    words = record {
      command = unfold send_packet in v.words.command;
      arg0 = unfold send_packet in v.words.arg0;
      arg1 = unfold send_packet in v.words.arg1;
      data_length = unfold send_packet in v.words.data_length;
      data_check = omega (arith, send_packet-data_check p v, total-le p.payload v.octets);
      magic = unfold send_packet in xor_all_ones-lt p.command v.words.command;
    };
    small = unfold send_packet in v.small;
    full = unfold send_packet in v.full;
    octets = unfold send_packet in v.octets;
  },
)

-- A header passes exactly when its magic is the complement of its command and the announced
-- payload fits the buffer.
pub check_header_iff :
    (m : Message)
    → (check_header m ≡ true)
      ↔ ((m.magic ≡ bit_xor m.command all_ones) × (m.data_length ≤ max_payload))
unfolding check_header
check_header_iff m = ground arith

-- A byte of the payload replaced by another.
abbrev pub set : List ℕ → ℕ → ℕ → List ℕ
set [] i v = []
set (x ∷ xs) zero v = v ∷ xs
set (x ∷ xs) (suc i) v = x ∷ set xs i v

abbrev pub get_or : List ℕ → ℕ → ℕ → ℕ
get_or [] i d = d
get_or (x ∷ xs) zero d = x
get_or (x ∷ xs) (suc i) d = get_or xs i d

length-set : (xs : List ℕ) (i v : ℕ) → length (set xs i v) ≡ length xs
length-set [] i v = refl
length-set (x ∷ xs) zero v = refl
length-set (x ∷ xs) (suc i) v = ap suc (length-set xs i v)

AreBytes-set : (xs : List ℕ) (i v : ℕ) → v < 256 → AreBytes xs → AreBytes (set xs i v)
AreBytes-set [] i v h b = tt
AreBytes-set (x ∷ xs) zero v h b = (h, b.1)
AreBytes-set (x ∷ xs) (suc i) v h b = (b.0, AreBytes-set xs i v h b.1)

total-set :
    (xs : List ℕ) (i v : ℕ) → i < length xs → total (set xs i v) + get_or xs i 0 ≡ total xs + v
unfolding total
total-set [] i v h = absurd (omega arith)
total-set (x ∷ xs) zero v h = omega arith
total-set (x ∷ xs) (suc i) v h = omega (arith, total-set xs i v (omega arith))

-- The packet with byte `i` of its payload damaged on the way.
abbrev pub damage : Packet → ℕ → ℕ → Packet
damage p i v = record p { payload = set p.payload i v }

-- `check_data` finds every damage to a single byte of a sealed packet.
pub check_data-damage :
    (p : Packet) (i v : ℕ)
    → IsSendable p
    → i < length p.payload
    → v < 256
    → get_or p.payload i 0 ≢ v
    → check_data (damage (send_packet p) i v) ≡ false
check_data-damage p i v s hi hv ne =
    unfold send_packet check_data in
    rw
      (
        take_all p.data_length p.payload (omega arith),
        take_all p.data_length (set p.payload i v) (omega (arith, length-set p.payload i v)),
      )
      (ground (
        arith,
        sum_bytes-eq-total 0 p.payload,
        sum_bytes-eq-total 0 (set p.payload i v),
        total-set p.payload i v hi,
        total-le p.payload s.octets,
        total-le (set p.payload i v) (AreBytes-set p.payload i v hv s.octets),
        length-set p.payload i v,
        s.full,
        s.small,
        ne,
      ))

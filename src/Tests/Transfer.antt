-- ===== src/Tests/Transfer.antt =====
-- Transfers and checks on concrete packets and descriptors.
use pax_linux.Base.{
  ◌≤◌, drop, take, ◌≡◌, refl, true, false, List, [], ◌∷◌, ◌++◌, length, none, some, arith, bytes,
}
use pax_linux.Io.{
  ready, ReadEvent, done, Stream, readx, read_loop, chunk, after, took, again, WriteEvent, whole,
  partial, writex, before,
}
use pax_linux.Io.Exact.{IsNext, IsDone, ready_count, readx_lem, IsSent, writex_lem}
use pax_linux.Wire.{
  Message, Packet, max_payload, message_bytes, message_of_bytes, message_size, send_packet,
  check_header, check_data, remote_read, remote_write, le32, read_le32, sum_bytes,
}
use pax_linux.Wire.Checks.{IsSendable, send_packet_checks, check_data-damage, damage}
use pax_linux.Wire.Transfer.{packet_bytes, remote_read-remote_write, remote_read_sound}
use pax_linux.Adb.{device, host, Transport}
use pax_linux.Banner.{parse_banner}

abbrev message : Message
message = record {
  command = 0x4554_5257;
  arg0 = 1;
  arg1 = 2;
  data_length = 2;
  data_check = 0;
  magic = 0;
}

abbrev packet : Packet
packet = record { msg = message; payload = 200 ∷ 100 ∷ [] }

packet-IsSendable : IsSendable packet
packet-IsSendable = record {
  words = record {
    command = omega arith;
    arg0 = omega arith;
    arg1 = omega arith;
    data_length = omega arith;
    data_check = omega arith;
    magic = omega arith;
  };
  small = omega arith;
  full = refl;
  octets = (omega arith, (omega arith, tt));
}

-- As many reads as the packet of 26 bytes needs at most, the first of up to 12 bytes.
abbrev reads : List ReadEvent
reads =
    ready 11
    ∷ ReadEvent.interrupted
    ∷ ready 30
    ∷ ready 0
    ∷ ready 0
    ∷ ready 0
    ∷ ready 0
    ∷ ready 0
    ∷ ready 0
    ∷ ready 0
    ∷ ready 0
    ∷ ready 0
    ∷ ready 0
    ∷ ready 0
    ∷ ready 0
    ∷ ready 0
    ∷ ready 0
    ∷ ready 0
    ∷ ready 0
    ∷ ready 0
    ∷ ready 0
    ∷ ready 0
    ∷ ready 0
    ∷ ready 0
    ∷ ready 0
    ∷ ready 0
    ∷ ready 0
    ∷ []

abbrev short : Stream
short = record { bytes = 7 ∷ 8 ∷ 9 ∷ []; events = ready 0 ∷ ReadEvent.interrupted ∷ ready 5 ∷ [] }

short_read : readx 2 short ≡ done (7 ∷ 8 ∷ [], record { bytes = 9 ∷ []; events = [] })
unfolding readx read_loop chunk after
short_read = refl

readx_lem_example :
    IsNext 2 (7 ∷ 8 ∷ 9 ∷ []) (readx 2 short)
    × (2 ≤ ready_count short.events → 2 ≤ length short.bytes → IsDone (readx 2 short))
readx_lem_example = readx_lem 2 short

abbrev stops : List WriteEvent
stops = took 0 ∷ again ∷ took 1 ∷ WriteEvent.broken ∷ []

stopped_write : writex stops (1 ∷ 2 ∷ 3 ∷ 4 ∷ []) ≡ partial (1 ∷ 2 ∷ 3 ∷ [])
unfolding writex before
stopped_write = refl

writex_lem_example : IsSent (1 ∷ 2 ∷ 3 ∷ 4 ∷ []) (writex stops (1 ∷ 2 ∷ 3 ∷ 4 ∷ []))
writex_lem_example = writex_lem stops (1 ∷ 2 ∷ 3 ∷ 4 ∷ [])

send_packet_checks_example :
    (check_header (send_packet packet).msg ≡ true)
    × (check_data (send_packet packet) ≡ true)
    × IsSendable (send_packet packet)
send_packet_checks_example = send_packet_checks packet packet-IsSendable

check_data-damage_example : check_data (damage (send_packet packet) 1 101) ≡ false
check_data-damage_example =
    check_data-damage packet 1 101 packet-IsSendable (omega arith) (omega arith) (omega arith)

abbrev sealed : Packet
sealed = record packet { msg = record message { data_check = 300; magic = 0xbaab_ada8 } }

abbrev incoming : Stream
incoming = record { bytes = packet_bytes sealed ++ 5 ∷ []; events = reads }

written :
    remote_write (took 9 ∷ took 100 ∷ []) (send_packet packet) ≡ whole (packet_bytes sealed) []
unfolding remote_write writex before send_packet sum_bytes message_bytes le32
written = refl

remote_read-remote_write_example :
    (s' : Stream) × (remote_read incoming ≡ done (send_packet packet, s')) × (s'.bytes ≡ 5 ∷ [])
remote_read-remote_write_example =
    remote_read-remote_write packet (took 9 ∷ took 100 ∷ []) [] (packet_bytes sealed) (5 ∷ [])
      incoming packet-IsSendable written refl (omega arith)

abbrev behind : Stream
behind = record { bytes = 5 ∷ []; events = drop 5 reads }

read_back : remote_read incoming ≡ done (sealed, behind)
unfolding remote_read readx read_loop chunk after message_of_bytes read_le32 message_bytes le32
    check_header check_data sum_bytes
read_back = refl

remote_read_sound_example :
    (check_header sealed.msg ≡ true)
    × (check_data sealed ≡ true)
    × (length sealed.payload ≡ 2)
    × (2 ≤ max_payload)
    × (incoming.bytes ≡ take message_size incoming.bytes ++ (sealed.payload ++ 5 ∷ []))
    × (sealed.msg ≡ message_of_bytes (take message_size incoming.bytes))
remote_read_sound_example = remote_read_sound incoming behind sealed read_back

abbrev fresh_transport : Transport
fresh_transport = record {
  connection_state = host;
  online = false;
  disconnects = [];
  product = none;
  model = some [];
  device = none;
  key = none;
  failed_auth_attempts = 0;
}

identified :
    parse_banner (bytes "device::ro.product.name=a920;;ro.product.model=;x") fresh_transport ≡ (
      record fresh_transport {
        connection_state = device;
        product = some (bytes "a920");
        model = none;
      },
      true,
    )
unfolding parse_banner
identified = refl

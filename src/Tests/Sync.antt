-- ===== src/Tests/Sync.antt =====
-- A file sent and a file received.
use pax_linux.Base.{length, ℕ, ◌≡◌, refl, true, List, [], ◌∷◌, ◌++◌, some, none, arith, bytes}
use pax_linux.Io.{
  failed, blocked, ready, done, readx, read_loop, chunk, after, took, writex, before,
}
use pax_linux.Wire.{le32, read_le32}
use pax_linux.Sync.{
  try_put, get_into, Link, sync_unlink, ask, header, copied, sync_send, put, get, save,
  write_data_file, write_chunks, read_status, sync_recv, begin_recv, recv_loop, list_loop, exceeds,
  count_of_int,
}
use pax_linux.Sync.Files.{read_frames}
use pax_linux.Sync.Fuel.{recv_loop_fuel, list_loop_fuel}
use pax_linux.Sync.Receiving.{sync_recv-read_frames}

abbrev okay : List ℕ
okay = bytes "OKAY" ++ 0 ∷ 0 ∷ 0 ∷ 0 ∷ []

abbrev link : Link
link = record {
  input = record { bytes = okay; events = ready 7 ∷ [] };
  writes = took 99 ∷ took 99 ∷ took 99 ∷ took 99 ∷ took 99 ∷ took 99 ∷ [];
  out = [];
  file_writes = [];
  file = [];
}

abbrev sent_tail : List ℕ
sent_tail =
    bytes "DATA"
    ++ (2
        ∷ 0
        ∷ 0
        ∷ 0
        ∷ (bytes "ab"
            ++ (bytes "DATA"
                ++ (1 ∷ 0 ∷ 0 ∷ 0 ∷ (bytes "c" ++ (bytes "DONE" ++ 9 ∷ 0 ∷ 0 ∷ 0 ∷ []))))))

abbrev after_send : Link
after_send = record link {
  input = record { bytes = []; events = [] };
  writes = [];
  out = bytes "SEND" ++ (6 ∷ 0 ∷ 0 ∷ 0 ∷ (bytes "/t" ++ (bytes ",420" ++ sent_tail)));
}

abbrev incoming_file : Link
incoming_file = record link {
  input = record {
    bytes = sent_tail ++ 77 ∷ [];
    events = ready 7 ∷ ready 7 ∷ ready 7 ∷ ready 7 ∷ ready 7 ∷ [];
  };
  file_writes = took 9 ∷ took 9 ∷ [];
}

abbrev after_recv : Link
after_recv = record incoming_file {
  input = record { bytes = 77 ∷ []; events = [] };
  writes = took 99 ∷ took 99 ∷ took 99 ∷ took 99 ∷ [];
  out = bytes "RECV" ++ (2 ∷ 0 ∷ 0 ∷ 0 ∷ bytes "/t");
  file_writes = [];
  file = bytes "abc";
}

file_received : sync_recv (bytes "/t") true incoming_file ≡ done (copied, after_recv)
unfolding sync_recv begin_recv recv_loop get_into exceeds count_of_int put save header le32 get
    read_le32 writex before readx read_loop chunk after
file_received = refl

sync_recv-read_frames_example :
    (fuel : ℕ) × (content : List ℕ) × (time : ℕ) × (read_frames fuel (sent_tail ++ 77 ∷ [])
      ≡ some (content, time, 77 ∷ []))
    × (bytes "abc" ≡ [] ++ content)
sync_recv-read_frames_example =
    sync_recv-read_frames (bytes "/t") true incoming_file after_recv file_received

abbrev after_unlink : Link
after_unlink = record link {
  input = record { bytes = []; events = [] };
  writes = took 99 ∷ took 99 ∷ took 99 ∷ took 99 ∷ [];
  out = bytes "ULNK" ++ (2 ∷ 0 ∷ 0 ∷ 0 ∷ bytes "/t");
}

unlinked : sync_unlink (bytes "/t") link ≡ done (tt, after_unlink)
unfolding sync_unlink ask put header le32 get read_le32 writex before readx read_loop chunk after
unlinked = refl

-- The file could not be opened: the device gets an empty one, and success is reported.
unreadable :
    sync_send
      (bytes "/t")
      (bytes ",420")
      none
      9
      (record link { writes = took 99 ∷ took 99 ∷ took 99 ∷ took 99 ∷ [] })
    ≡ done (
      tt,
      record link {
        input = record { bytes = []; events = [] };
        writes = [];
        out =
            bytes "SEND"
            ++ (6
                ∷ 0
                ∷ 0
                ∷ 0
                ∷ (bytes "/t" ++ (bytes ",420" ++ (bytes "DONE" ++ 9 ∷ 0 ∷ 0 ∷ 0 ∷ []))));
      },
    )
unfolding sync_send put try_put header le32 write_data_file write_chunks read_status get read_le32
    writex before readx read_loop chunk after
unreadable = refl

to_come : length incoming_file.input.bytes ≡ 28
to_come = refl

recv_loop_fuel_example :
    recv_loop (λ l. failed) 29 okay incoming_file ≡ recv_loop (λ l. blocked) 60 okay incoming_file
recv_loop_fuel_example =
    recv_loop_fuel (λ l. failed) (λ l. blocked) 29 60 okay incoming_file (omega (arith, to_come))
      (omega (arith, to_come))

list_loop_fuel_example :
    list_loop (λ l. failed) 29 incoming_file ≡ list_loop (λ l. blocked) 60 incoming_file
list_loop_fuel_example =
    list_loop_fuel (λ l. failed) (λ l. blocked) 29 60 incoming_file (omega (arith, to_come))
      (omega (arith, to_come))

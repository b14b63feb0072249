-- ===== src/Sync.antt =====
-- The sync protocol of file_sync_client.c over a connection to the device: stat, list, unlink,
-- send and receive, with no progress shown. A function of the code that returns -1 has `failed`,
-- and one that waits for the device is `blocked`.
pub mod Files
pub mod Receiving
pub mod Asking
pub mod Fuel
use pax_linux.Base.{
  ℕ, zero, suc, ◌+◌, ◌-◌, ◌^◌, Bool, true, false, not, ◌||◌, List, [], ◌∷◌, ◌++◌, Option, none,
  some, length, take, drop, ltb, ◌==◌, if◌then◌else◌, bytes,
}
use pax_linux.Io.{
  done, failed, blocked, overrun, Stream, readx, WriteEvent, took, broken, interrupted, again,
  Written, whole, partial, waiting, writex,
}
use pax_linux.Io.{Io}
use pax_linux.Wire.{le32, read_le32}

-- The connection `fd`, with the bytes written to it so far, and the local file that is received.
pub record Link : Type 0 where
  pub input : Stream
  pub writes : List WriteEvent
  pub out : List ℕ
  pub file_writes : List WriteEvent
  pub file : List ℕ

abbrev pub Step {ℓ} : Type ℓ → Type ℓ
Step A = Link → Io (A × Link)

infixl 10 ◌>>=◌ ◌>>◌
abbrev pub ◌>>=◌ {ℓ κ} : {A : Type ℓ} {B : Type κ} → Step A → (A → Step B) → Step B
◌>>=◌ m f l = elim (m l) [
  | done r ↦ f r.0 r.1
  | failed ↦ failed
  | blocked ↦ blocked
  | overrun ↦ overrun
]

abbrev pub ◌>>◌ {κ} : {B : Type κ} → Step (Unit {0}) → Step B → Step B
m >> k = m >>= λ _. k

abbrev pub pure {ℓ} : {A : Type ℓ} → A → Step A
pure a l = done (a, l)

abbrev pub fail {ℓ} : {A : Type ℓ} → Step A
fail l = failed

-- `writex(fd, …)`.
unfoldable pub put : List ℕ → Step (Unit {0})
put bs l = elim (writex l.writes bs) [
  | whole sent left ↦ done (tt, record l { writes = left; out = l.out ++ sent })
  | partial sent ↦ failed
  | waiting sent ↦ blocked
]

-- `readx(fd, …)`.
unfoldable pub get : ℕ → Step (List ℕ)
get n l = elim (readx n l.input) [
  | done r ↦ done (r.0, record l { input = r.1 })
  | failed ↦ failed
  | blocked ↦ blocked
  | overrun ↦ overrun
]

-- `readx` into a buffer of `size` bytes, beyond which the source writes where it asks for more.
unfoldable pub get_into : ℕ → ℕ → Step (List ℕ)
unfolding get
get_into size n = if ltb size n then (λ l. overrun) else get n

-- `writex(lfd, …)`.
unfoldable pub save : List ℕ → Step (Unit {0})
save bs l = elim (writex l.file_writes bs) [
  | whole sent left ↦ done (tt, record l { file_writes = left; file = l.file ++ sent })
  | partial sent ↦ failed
  | waiting sent ↦ blocked
]

abbrev pub id_stat : ℕ
id_stat = 0x5441_5453

abbrev pub id_list : ℕ
id_list = 0x5453_494c

abbrev pub id_ulnk : ℕ
id_ulnk = 0x4b4e_4c55

abbrev pub id_send : ℕ
id_send = 0x444e_4553

abbrev pub id_recv : ℕ
id_recv = 0x5643_4552

abbrev pub id_dent : ℕ
id_dent = 0x544e_4544

abbrev pub id_done : ℕ
id_done = 0x454e_4f44

abbrev pub id_data : ℕ
id_data = 0x4154_4144

abbrev pub id_okay : ℕ
id_okay = 0x5941_4b4f

abbrev pub id_fail : ℕ
id_fail = 0x4c49_4146

abbrev pub id_quit : ℕ
id_quit = 0x5449_5551

abbrev pub sync_data_max : ℕ
sync_data_max = 65536

-- A header of two words: `msg.req`, `msg.data`, `msg.status`.
unfoldable pub header : ℕ → ℕ → List ℕ
unfolding le32
header id n = le32 id ++ le32 n

-- A request: its header, and in a second write the path.
unfoldable pub ask : ℕ → List ℕ → Step (Unit {0})
unfolding put header
ask id path = do put (header id (length path)); put path

-- `msg.stat`, 16 bytes, where it answers a STAT request.
pub record Stat : Type 0 where
  pub mode : ℕ
  pub size : ℕ
  pub time : ℕ

pub sync_finish_readtime : Step Stat
unfolding get read_le32
sync_finish_readtime = do
  b ← get 16
  if not (read_le32 b == id_stat)
      then fail
      else pure (record {
        mode = read_le32 (drop 4 b);
        size = read_le32 (drop 8 b);
        time = read_le32 (drop 12 b);
      })

pub sync_start_readtime : List ℕ → Step (Unit {0})
unfolding ask
sync_start_readtime path = ask id_stat path

-- The time and the mode of a file.
pub sync_readtime : List ℕ → Step (ℕ × ℕ)
unfolding ask sync_finish_readtime
sync_readtime path = do ask id_stat path; s ← sync_finish_readtime; pure (s.time, s.mode)

pub sync_readmode : List ℕ → Step ℕ
unfolding ask sync_finish_readtime
sync_readmode path = do ask id_stat path; s ← sync_finish_readtime; pure s.mode

unfoldable pub sync_unlink : List ℕ → Step (Unit {0})
unfolding ask get read_le32
sync_unlink path = do
  ask id_ulnk path
  b ← get 8
  if not (read_le32 b == id_okay) then fail else pure tt

pub sync_quit : Step (Unit {0})
unfolding put header
sync_quit = put (header id_quit 0)

-- The count that `readx` gets from an int: a negative one becomes a huge `size_t`.
unfoldable pub count_of_int : ℕ → ℕ
count_of_int n = if ltb n (2 ^ 31) then n else n + (2 ^ 64 - 2 ^ 32)

-- The test `len > bound` on an int, which no negative number passes.
unfoldable pub exceeds : ℕ → ℕ → Bool
exceeds n bound = if ltb n (2 ^ 31) then ltb bound n else false

-- A directory entry.
pub record Entry : Type 0 where
  pub mode : ℕ
  pub size : ℕ
  pub time : ℕ
  pub name : List ℕ

-- The loop of `sync_ls`; `stuck` is what it does where the fuel is at its end. An answer other than
-- DENT and DONE, or too long a name, ends it with -1.
pub list_loop : Step (List Entry) → ℕ → Step (List Entry)
unfolding get get_into read_le32 exceeds count_of_int
list_loop stuck zero l = stuck l
list_loop stuck (suc fuel) l =
    (get 20 >>= λ b.
    if read_le32 b == id_done
    then pure []
    else if not (read_le32 b == id_dent)
    then fail
    else if exceeds (read_le32 (drop 16 b)) 256
    then fail
    else get_into 256 (count_of_int (read_le32 (drop 16 b))) >>= λ name.
        list_loop stuck fuel >>= λ rest. pure (
          record {
            mode = read_le32 (drop 4 b);
            size = read_le32 (drop 8 b);
            time = read_le32 (drop 12 b);
            name = name;
          }
          ∷ rest))
      l

-- Every entry takes 20 bytes at least, so the bytes to come are fuel enough.
pub sync_ls : List ℕ → Step (List Entry)
unfolding put header list_loop
sync_ls path = if ltb 1024 (length path) then fail else do
  put (header id_list (length path))
  put path
  λ l. list_loop (λ m. blocked) (suc (length l.input.bytes)) l

-- What the reads of the local file return: nothing where it can not be opened, and an error ends
-- the list like the end of the file.
abbrev pub LocalFile : Type 0
LocalFile = Option (List (List ℕ))

-- The outcomes behind the one at which `writex` fails.
unfoldable pub after_failure : List WriteEvent → List ℕ → List WriteEvent
after_failure events [] = events
after_failure [] (b ∷ bs) = []
after_failure (took k ∷ events) (b ∷ bs) = after_failure events (drop k bs)
after_failure (broken ∷ events) (b ∷ bs) = events
after_failure (interrupted ∷ events) (b ∷ bs) = after_failure events (b ∷ bs)
after_failure (again ∷ events) (b ∷ bs) = after_failure events (b ∷ bs)

-- `writex(fd, …)` whose caller goes on where it fails; the result says whether it did not.
unfoldable pub try_put : List ℕ → Step Bool
unfolding after_failure
try_put bs l = elim (writex l.writes bs) [
  | whole sent left ↦ done (true, record l { writes = left; out = l.out ++ sent })
  | partial sent ↦
      done (false, record l { writes = after_failure l.writes bs; out = l.out ++ sent })
  | waiting sent ↦ blocked
]

-- The loop of `write_data_file`, which ends where a write fails.
unfoldable pub write_chunks : List (List ℕ) → Step (Unit {0})
unfolding try_put header
write_chunks [] = pure tt
write_chunks (c ∷ rest) =
    let more = write_chunks rest in
    try_put (header id_data (length c) ++ c) >>= λ ok. if ok then more else pure tt

-- `write_data_file`. Its result, -1 where the file can not be opened or a write fails, is not looked
-- at by `sync_send`.
unfoldable pub write_data_file : LocalFile → Step (Unit {0})
unfolding write_chunks
write_data_file none = pure tt
write_data_file (some chunks) = write_chunks chunks

-- The answer to `sync_send` is not OKAY: the message of a FAIL is read, and -1 returned.
unfoldable pub refused_by_device : List ℕ → Step (Unit {0})
unfolding get_into read_le32 exceeds count_of_int
refused_by_device b =
    if read_le32 b == id_fail
    then (get_into sync_data_max
          (if exceeds (read_le32 (drop 4 b)) 256 then 256 else count_of_int (read_le32 (drop 4 b)))
        >>= λ msg. fail)
    else fail

-- The last step of `sync_send`: the answer of the device.
unfoldable pub read_status : Step (Unit {0})
unfolding get read_le32 refused_by_device
read_status = do b ← get 8; if not (read_le32 b == id_okay) then refused_by_device b else pure tt

-- `sync_send` of a regular file; `suffix` is the text `,mode` of `snprintf`.
unfoldable pub sync_send : List ℕ → List ℕ → LocalFile → ℕ → Step (Unit {0})
unfolding put header write_data_file read_status
sync_send rpath suffix local mtime = if ltb 1024 (length rpath) then fail else do
  put (header id_send (length rpath + length suffix))
  put rpath
  put suffix
  write_data_file local
  put (header id_done mtime)
  read_status

-- What `sync_recv` ends with where it returns 0: the file, or the device's message.
pub data Received : Type 0 where
  copied : Received
  refused : List ℕ → Received

pub remote_error : ℕ → ℕ → Step Received
unfolding get_into exceeds count_of_int le32
remote_error id n =
    if id == id_fail
    then (get_into sync_data_max (if exceeds n 256 then 256 else count_of_int n) >>= λ msg.
        pure (refused msg))
    else pure (refused (le32 id))

-- The loop of `sync_recv` from `handle_data` on; `stuck` is what it does where the fuel is at its end.
unfoldable pub recv_loop : Step Received → ℕ → List ℕ → Step Received
unfolding get get_into read_le32 exceeds count_of_int save remote_error
recv_loop stuck zero b l = stuck l
recv_loop stuck (suc fuel) b l =
    (if read_le32 b == id_done
        then pure copied
        else if not (read_le32 b == id_data)
        then remote_error (read_le32 b) (read_le32 (drop 4 b))
        else if exceeds (read_le32 (drop 4 b)) sync_data_max
        then fail
        else get_into sync_data_max (count_of_int (read_le32 (drop 4 b))) >>= λ chunk.
            save chunk >> (get 8 >>= λ next. recv_loop stuck fuel next))
      l

-- The local file is made, or not.
unfoldable pub begin_recv : Bool → List ℕ → Step Received
unfolding recv_loop
begin_recv false b l = failed
begin_recv true b l = recv_loop (λ m. blocked) (suc (length l.input.bytes)) b l

-- `sync_recv` into a local file that can be made or not.
unfoldable pub sync_recv : List ℕ → Bool → Step Received
unfolding put header get read_le32 begin_recv remote_error
sync_recv rpath creatable = if ltb 1024 (length rpath) then fail else do
  put (header id_recv (length rpath))
  put rpath
  b ← get 8
  if (read_le32 b == id_data) || (read_le32 b == id_done)
      then begin_recv creatable b
      else remote_error (read_le32 b) (read_le32 (drop 4 b))

-- ===== src/Wire/Transfer.antt =====
-- `remote_read` and `remote_write` of transport_local.c.
use mathlib.Core.Path.{subst, ap₂}
use pax_linux.Base.{
  ℕ, ◌+◌, ◌≤◌, ◌≡◌, refl, sym, ap, append_assoc, ◌∙◌, Bool, true, false, not, List, ◌++◌, length,
  take, drop, arith, if◌then◌else◌, take-append_left, drop-append_left, take-append-drop,
  length-append, take_all,
}
use pax_linux.Io.{Io, done, failed, >>=-eq-done, done-injective, Stream, readx, WriteEvent, whole}
use pax_linux.Io.Exact.{ready_count, Reads, readx-Reads, readx-done, IsSent, writex_lem}
use pax_linux.Wire.{
  Packet, max_payload, message_bytes, message_size, message_of_bytes, send_packet, check_header,
  check_data, remote_read, remote_write,
}
use pax_linux.Wire.Encoding.{length-message_bytes, message_of_bytes-message_bytes}
use pax_linux.Wire.Checks.{IsSendable, send_packet_checks, check_header_iff}

-- The bytes of a packet on the wire.
abbrev pub packet_bytes : Packet → List ℕ
packet_bytes p = message_bytes p.msg ++ p.payload

-- `remote_read` of a packet's bytes, where both checks pass.
module _ (p : Packet) (v : IsSendable p) (h : check_header p.msg ≡ true) (d : check_data p ≡ true)
    (s : Stream) (rest : List ℕ) (e : s.bytes ≡ message_bytes p.msg ++ (p.payload ++ rest))
    (enough : message_size + p.data_length ≤ ready_count s.events) where
  length-stream : length s.bytes ≡ message_size + p.data_length + length rest
  length-stream = omega (
    arith,
    ap length e,
    length-append (message_bytes p.msg) (p.payload ++ rest),
    length-append p.payload rest,
    length-message_bytes p.msg,
    v.full,
  )

  header_read : Reads message_size s
  header_read = readx-Reads message_size s (omega arith) (omega (arith, length-stream))

  left-header_read : header_read.left.bytes ≡ p.payload ++ rest
  left-header_read =
      header_read.behind
      ∙ ap (drop message_size) e
      ∙ drop-append_left message_size (message_bytes p.msg) (p.payload ++ rest)
          (sym (length-message_bytes p.msg))

  message-header_read : message_of_bytes (take message_size s.bytes) ≡ p.msg
  message-header_read =
      ap (λ b. message_of_bytes (take message_size b)) e
      ∙ ap message_of_bytes (
          take-append_left message_size (message_bytes p.msg) (p.payload ++ rest)
            (sym (length-message_bytes p.msg)))
      ∙ message_of_bytes-message_bytes p.msg v.words

  payload_read : Reads p.data_length header_read.left
  payload_read =
      readx-Reads p.data_length header_read.left (omega (arith, header_read.events))
        (omega (arith, ap length left-header_read, length-append p.payload rest, v.full))

  payload-payload_read : take p.data_length header_read.left.bytes ≡ p.payload
  payload-payload_read =
      ap (take p.data_length) left-header_read
      ∙ take-append_left p.data_length p.payload rest (sym v.full)

  remote_read_steps : (s' : Stream) × (remote_read s ≡ done (p, s')) × (s'.bytes ≡ rest)
  remote_read_steps = (
    payload_read.left,
    unfold remote_read in
        rw header_read.result
          (rw (message-header_read, h, payload_read.result, payload-payload_read, d) refl),
    payload_read.behind
        ∙ ap (drop p.data_length) left-header_read
        ∙ drop-append_left p.data_length p.payload rest (sym v.full),
  )

remote_write-whole :
    (q : Packet) (writes left : List WriteEvent) (out : List ℕ)
    → IsSendable q
    → remote_write writes q ≡ whole out left
    → out ≡ message_bytes q.msg ++ q.payload
unfolding remote_write
remote_write-whole q writes left out v w =
    let b = message_bytes q.msg ++ take q.data_length q.payload in
    let sent : IsSent b (whole out left) = subst (IsSent b) w (writex_lem writes b) in
    sent
    ∙ ap (λ t. message_bytes q.msg ++ t) (take_all q.data_length q.payload (omega (arith, v.full)))

data_length-send_packet : (p : Packet) → (send_packet p).data_length ≡ p.data_length
unfolding send_packet
data_length-send_packet p = refl

-- A sealed packet that `remote_write` has put out is what `remote_read` of the far side returns,
-- whatever pieces `read` delivers it in and whatever follows it, and the descriptor is left
-- behind it. It is enough that `read` returns bytes 24 + data_length times before it breaks.
pub remote_read-remote_write :
    (p : Packet) (writes left : List WriteEvent) (out rest : List ℕ) (s : Stream)
    → IsSendable p
    → remote_write writes (send_packet p) ≡ whole out left
    → s.bytes ≡ out ++ rest
    → message_size + p.data_length ≤ ready_count s.events
    → (s' : Stream) × (remote_read s ≡ done (send_packet p, s')) × (s'.bytes ≡ rest)
remote_read-remote_write p writes left out rest s v w e enough =
    let q = send_packet p in
    let (h, d, v') = send_packet_checks p v in
    let sent = remote_write-whole q writes left out v' w in
    remote_read_steps q v' h d s rest
      (e ∙ ap (λ t. t ++ rest) sent ∙ append_assoc (message_bytes q.msg) q.payload rest)
      (omega (arith, data_length-send_packet p))

-- What `remote_read` has read, step by step.
record Received (s s' : Stream) (p : Packet) : Type 0 where
  left : Stream
  header : readx message_size s ≡ done (take message_size s.bytes, left)
  header_left : left.bytes ≡ drop message_size s.bytes
  message : p.msg ≡ message_of_bytes (take message_size s.bytes)
  data_bytes : readx p.data_length left ≡ done (p.payload, s')
  header_checked : check_header p.msg ≡ true
  data_checked : check_data p ≡ true

checked-done :
    {A : Type 0} (b : Bool) (r : Io A) {a : A}
    → (if not b then failed else r) ≡ done a
    → (b ≡ true) × (r ≡ done a)
checked-done true r h = (refl, h)
checked-done false r h = cc

received : (s s' : Stream) (p : Packet) → remote_read s ≡ done (p, s') → Received s s' p
unfolding remote_read
received s s' p e =
    let ((header, s1), e1, f1) = >>=-eq-done (readx message_size s) _ e in
    let m = message_of_bytes header in
    let (c1, f2) = checked-done (check_header m) _ f1 in
    let ((data_bytes, s2), e2, f3) = >>=-eq-done (readx m.data_length s1) _ f2 in
    let q : Packet = record { msg = m; payload = data_bytes } in
    let (c2, f4) = checked-done (check_data q) _ f3 in
    let whole_header = readx-done message_size s header s1 e1 in
    subst (λ (t : Packet × Stream). Received s t.1 t.0) (done-injective f4)
      (record {
        left = s1;
        header = e1 ∙ ap (λ t. done (t, s1)) whole_header.0;
        header_left = whole_header.1;
        message = ap message_of_bytes whole_header.0;
        data_bytes = e2;
        header_checked = c1;
        data_checked = c2;
      })

-- Whatever bytes arrive, a packet that `remote_read` returns has passed both checks, its payload
-- is as long as its header says, and fits the buffer of 4096 bytes.
pub remote_read_sound :
    (s s' : Stream) (p : Packet)
    → remote_read s ≡ done (p, s')
    → (check_header p.msg ≡ true)
      × (check_data p ≡ true)
      × (length p.payload ≡ p.data_length)
      × (p.data_length ≤ max_payload)
      × (s.bytes ≡ take message_size s.bytes ++ (p.payload ++ s'.bytes))
      × (p.msg ≡ message_of_bytes (take message_size s.bytes))
remote_read_sound s s' p e =
    let r = received s s' p e in
    let data_read = readx-done p.data_length r.left p.payload s' r.data_bytes in
    (
      r.header_checked,
      r.data_checked,
      data_read.2,
      ((check_header_iff p.msg).0 r.header_checked).1,
      sym (
          ap (λ t. take message_size s.bytes ++ t)
            (ap₂ ◌++◌ data_read.0 data_read.1
              ∙ take-append-drop p.data_length r.left.bytes
              ∙ r.header_left)
          ∙ take-append-drop message_size s.bytes),
      r.message,
    )

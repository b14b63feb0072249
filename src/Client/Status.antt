-- ===== src/Client/Status.antt =====
-- The replies of `sendfailmsg` and `send_msg_with_okay` as the client of adb_client.c reads them.
use pax_linux.Base.{
  ℕ, ◌+◌, ◌*◌, ◌/◌, ◌%◌, ◌≤◌, ◌<◌, min, ◌≡◌, refl, sym, ◌∙◌, ap, false, ◌&&◌, List, [], ◌∷◌, ◌++◌,
  some, length, length-append, length-take, take, drop, arith, leb, ◌==◌, bytes, Bool-cases, inl,
  inr, take_all, take-append-drop, take-append_left, drop-append_left, append_assoc,
}
use pax_linux.Io.{done, Stream, readx}
use pax_linux.Io.Exact.{ready_count, readx-Reads}
use pax_linux.Smart.{hex_char, hex4}
use pax_linux.Smart.Requests.{hex_digit-hex_char, length-hex4}
use pax_linux.Listeners.Forwarding.{skip_spaces, fail_message, okay_message}
use pax_linux.Client.{
  hex_prefix, magnitude, signed_hex, strtoul16, error, read_error, adb_status, query_reply, Queried,
  replied, rejected, query_answer,
}

-- A digit of `%x` is no space, no sign and no `x`.
plain :
    (d : ℕ)
    → d < 16
    → let c = hex_char d in
      ((c == 32) ≡ false)
      × ((leb 9 c && leb c 13) ≡ false)
      × ((c == 45) ≡ false)
      × ((c == 43) ≡ false)
      × ((c == 120) ≡ false)
      × ((c == 88) ≡ false)
unfolding hex_char
plain d h = (ground arith, ground arith, ground arith, ground arith, ground arith, ground arith)

prefix_step :
    (n d : ℕ) (rest : List ℕ)
    → d < 16
    → hex_prefix n (hex_char d ∷ rest) ≡ hex_prefix (n * 16 + d) rest
unfolding hex_prefix
prefix_step n d rest h = rw (hex_prefix, hex_digit-hex_char d h) refl

skip_spaces-digit :
    (d : ℕ) (rest : List ℕ) → d < 16 → skip_spaces (hex_char d ∷ rest) ≡ hex_char d ∷ rest
unfolding skip_spaces
skip_spaces-digit d rest h = let p = plain d h in rw (p.0, p.1) refl

magnitude_plain :
    (c x : ℕ) (rest : List ℕ)
    → (x == 120) ≡ false
    → (x == 88) ≡ false
    → magnitude (c ∷ x ∷ rest) ≡ hex_prefix 0 (c ∷ x ∷ rest)
unfolding magnitude
magnitude_plain c x rest p q = elim (Bool-cases (c == 48)) [
  | inl zero_first ↦ rw (zero_first, p, q) refl
  | inr other ↦ rw other refl
]

signed_hex-digit :
    (d : ℕ) (rest : List ℕ)
    → d < 16
    → signed_hex (hex_char d ∷ rest) ≡ magnitude (hex_char d ∷ rest)
unfolding signed_hex
signed_hex-digit d rest h = let p = plain d h in rw (p.2, p.3) refl

strtoul16-digits :
    (a b c d : ℕ)
    → a < 16
    → b < 16
    → c < 16
    → d < 16
    → strtoul16 (hex_char a ∷ hex_char b ∷ hex_char c ∷ hex_char d ∷ [])
      ≡ ((a * 16 + b) * 16 + c) * 16 + d
unfolding strtoul16
strtoul16-digits a b c d ha hb hc hd =
    let s = hex_char b ∷ hex_char c ∷ hex_char d ∷ [] in
    let p = plain b hb in
    ap signed_hex (skip_spaces-digit a s ha)
    ∙ signed_hex-digit a s ha
    ∙ magnitude_plain (hex_char a) (hex_char b) (hex_char c ∷ hex_char d ∷ []) p.4 p.5
    ∙ prefix_step 0 a s ha
    ∙ prefix_step (0 * 16 + a) b (hex_char c ∷ hex_char d ∷ []) hb
    ∙ prefix_step ((0 * 16 + a) * 16 + b) c (hex_char d ∷ []) hc
    ∙ prefix_step (((0 * 16 + a) * 16 + b) * 16 + c) d [] hd
    ∙ (unfold hex_prefix in omega arith)

-- The length in a reply is read back.
strtoul16-hex4 : (n : ℕ) → n < 65536 → strtoul16 (hex4 n) ≡ n
unfolding hex4
strtoul16-hex4 n h =
    strtoul16-digits (n / 4096 % 16) (n / 256 % 16) (n / 16 % 16) (n % 16) (omega arith)
      (omega arith) (omega arith) (omega arith)
    ∙ omega arith

-- A stream that still delivers these bytes, of which `k` can be read before it breaks.
abbrev pub Delivers : Stream → ℕ → List ℕ → Type 0
Delivers s k bs = (s.bytes ≡ bs) × (k ≤ ready_count s.events)

-- The next `n` bytes are read whole.
record Next (s : Stream) (n : ℕ) (a rest : List ℕ) (k : ℕ) : Type 0 where
  left : Stream
  result : readx n s ≡ done (a, left)
  delivers : Delivers left k rest

delivered :
    (s : Stream) (n : ℕ) (a rest : List ℕ) (k : ℕ)
    → n ≡ length a
    → Delivers s (n + k) (a ++ rest)
    → Next s n a rest k
delivered s n a rest k size (e, h) =
    let r = readx-Reads n s (omega arith) (omega (arith, ap length e, length-append a rest)) in
    record {
      left = r.left;
      result =
          r.result ∙ ap (λ z. done (z, r.left)) (ap (take n) e ∙ take-append_left n a rest size);
      delivers =
          (r.behind ∙ ap (drop n) e ∙ drop-append_left n a rest size, omega (arith, r.events));
    }

-- The three parts of a reply, when its text is not cut.
message_whole :
    (word text rest : List ℕ)
    → length text ≤ 65535
    → (word ++ hex4 (min (length text) 0xffff) ++ take 0xffff text) ++ rest
      ≡ word ++ (hex4 (length text) ++ (text ++ rest))
message_whole word text rest h =
    let size : min (length text) 0xffff ≡ length text = omega arith in
    ap (λ n. (word ++ hex4 n ++ take 0xffff text) ++ rest) size
    ∙ ap (λ kept. (word ++ hex4 (length text) ++ kept) ++ rest) (take_all 0xffff text h)
    ∙ append_assoc (word ++ hex4 (length text)) text rest
    ∙ append_assoc word (hex4 (length text)) (text ++ rest)

read_error-text :
    (s : Stream) (reason rest : List ℕ)
    → length reason ≤ 65535
    → Delivers s (4 + min (length reason) 255) (hex4 (length reason) ++ (reason ++ rest))
    → read_error s ≡ error (take 255 reason)
unfolding read_error
read_error-text s reason rest h d =
    let a =
      delivered s 4 (hex4 (length reason)) (reason ++ rest) (min (length reason) 255)
        (sym (length-hex4 (length reason))) d in
    let cut : reason ++ rest ≡ take 255 reason ++ (drop 255 reason ++ rest) =
      ap (λ z. z ++ rest) (sym (take-append-drop 255 reason))
      ∙ append_assoc (take 255 reason) (drop 255 reason) rest in
    let size : min (length reason) 255 ≡ length (take 255 reason) =
      omega (arith, length-take 255 reason) in
    let b =
      delivered a.left (min (length reason) 255) (take 255 reason) (drop 255 reason ++ rest) 0 size
        (a.delivers.0 ∙ cut, omega (arith, a.delivers.1)) in
    rw (read_error, a.result, strtoul16-hex4 (length reason) (omega arith), b.result) refl

query_reply-text :
    (s : Stream) (text rest : List ℕ)
    → length text < 65535
    → Delivers s (4 + length text) (hex4 (length text) ++ (text ++ rest))
    → query_reply s ≡ some text
unfolding query_reply
query_reply-text s text rest h d =
    let a =
      delivered s 4 (hex4 (length text)) (text ++ rest) (length text)
        (sym (length-hex4 (length text))) d in
    let b =
      delivered a.left (length text) text rest 0 refl (a.delivers.0, omega (arith, a.delivers.1)) in
    let fits : leb 0xffff (length text) ≡ false = ground arith in
    rw (query_reply, a.result, strtoul16-hex4 (length text) (omega arith), fits, b.result) refl

adb_status-fail_message :
    (s : Stream) (reason rest : List ℕ)
    → length reason ≤ 65535
    → Delivers s (8 + min (length reason) 255) (fail_message reason ++ rest)
    → adb_status s ≡ error (take 255 reason)
unfolding adb_status
adb_status-fail_message s reason rest h d =
    let body : Delivers s (8 + min (length reason) 255)
        (bytes "FAIL" ++ (hex4 (length reason) ++ (reason ++ rest))) =
      (d.0 ∙ message_whole (bytes "FAIL") reason rest h, d.1) in
    let a =
      delivered s 4 (bytes "FAIL") (hex4 (length reason) ++ (reason ++ rest))
        (4 + min (length reason) 255) refl (body.0, omega (arith, body.1)) in
    rw (adb_status, a.result) (read_error-text a.left reason rest h a.delivers)

query_answer-okay_message :
    (s : Stream) (text rest : List ℕ)
    → length text < 65535
    → Delivers s (8 + length text) (okay_message text ++ rest)
    → query_answer s ≡ replied text
unfolding query_answer adb_status
query_answer-okay_message s text rest h d =
    let body : Delivers s (8 + length text)
        (bytes "OKAY" ++ (hex4 (length text) ++ (text ++ rest))) =
      (d.0 ∙ message_whole (bytes "OKAY") text rest (omega (arith, h)), d.1) in
    let a =
      delivered s 4 (bytes "OKAY") (hex4 (length text) ++ (text ++ rest)) (4 + length text) refl
        (body.0, omega (arith, body.1)) in
    rw (query_answer, adb_status, a.result, query_reply-text a.left text rest h a.delivers) refl

-- What the server says to a query, with the bytes of it, and what the client makes of them.
pub data Reply : Type 0 where
  okay : List ℕ → Reply
  fail : List ℕ → Reply

abbrev pub said : Reply → List ℕ
said (okay text) = text
said (fail reason) = reason

abbrev pub message : Reply → List ℕ
message (okay text) = okay_message text
message (fail reason) = fail_message reason

abbrev pub heard : Reply → Queried
heard (okay text) = replied text
heard (fail reason) = rejected (take 255 reason)

-- When a reply of the server to a query, of less than 65535 bytes of text, arrives unbroken,
-- however it is cut by the reads, `adb_query` returns the text that `send_msg_with_okay` sent, and
-- fails with the first 255 bytes of the reason that `sendfailmsg` sent.
pub query_answer-message :
    (s : Stream) (r : Reply) (rest : List ℕ)
    → length (said r) < 65535
    → Delivers s (8 + length (said r)) (message r ++ rest)
    → query_answer s ≡ heard r
unfolding query_answer
query_answer-message s (okay text) rest h d = query_answer-okay_message s text rest h d
query_answer-message s (fail reason) rest h d =
    rw (query_answer, adb_status-fail_message s reason rest (omega arith) (d.0, omega (arith, d.1)))
      refl

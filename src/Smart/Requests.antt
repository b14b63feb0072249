-- ===== src/Smart/Requests.antt =====
-- The requests of `_adb_connect` of adb_client.c at the smart socket of sockets.c.
use pax_linux.Base.{
  ℕ, zero, suc, ◌+◌, ◌*◌, ◌/◌, ◌%◌, ◌≤◌, ◌<◌, ◌≡◌, ◌≢◌, ◌⊎◌, inl, inr, refl, sym, ap, ◌∙◌, ◌||◌,
  List, [], ◌∷◌, ◌++◌, none, some, length, take, drop, ltb, arith, lt→ltb, le→ltb, Bool-cases,
  append_assoc, append-nil, length-append, take_all, take-append_left, drop-append_left,
}
use pax_linux.Wire.{word, max_payload}
use pax_linux.Banner.{c_string}
use pax_linux.Smart.{
  hex_digit, hex_char, hex4, unhex, unhex_loop, waiting, request, read_frame, collect, collect_all,
  connect_request,
}

abbrev pub HasNoNul : List ℕ → Type 0
HasNoNul [] = Unit
HasNoNul (c ∷ rest) = (c ≢ 0) × HasNoNul rest

c_string_all : (s : List ℕ) → HasNoNul s → c_string s ≡ s
unfolding c_string
c_string_all [] h = refl
c_string_all (c ∷ rest) h = ground (arith, c_string_all rest h.1)

pub hex_digit-hex_char : (d : ℕ) → d < 16 → hex_digit (hex_char d) ≡ some d
unfolding hex_digit hex_char
hex_digit-hex_char d h = ground arith

unhex_loop_step :
    (n d : ℕ) (rest : List ℕ)
    → d < 16
    → unhex_loop n (hex_char d ∷ rest) ≡ unhex_loop (n * 16 % word + d) rest
unfolding unhex_loop
unhex_loop_step n d rest h = rw (unhex_loop, hex_digit-hex_char d h) refl

unhex-hex4 : (n : ℕ) → n < 65536 → unhex (hex4 n) ≡ n
unfolding unhex hex4
unhex-hex4 n h =
    unhex_loop_step 0 (n / 4096 % 16)
      (hex_char (n / 256 % 16) ∷ hex_char (n / 16 % 16) ∷ hex_char (n % 16) ∷ []) (omega arith)
    ∙ unhex_loop_step (0 * 16 % word + n / 4096 % 16) (n / 256 % 16)
        (hex_char (n / 16 % 16) ∷ hex_char (n % 16) ∷ []) (omega arith)
    ∙ unhex_loop_step ((0 * 16 % word + n / 4096 % 16) * 16 % word + n / 256 % 16) (n / 16 % 16)
        (hex_char (n % 16) ∷ []) (omega arith)
    ∙ unhex_loop_step
        (((0 * 16 % word + n / 4096 % 16) * 16 % word + n / 256 % 16) * 16 % word + n / 16 % 16)
        (n % 16) [] (omega arith)
    ∙ (unfold unhex_loop in omega arith)

pub length-hex4 : (n : ℕ) → length (hex4 n) ≡ 4
unfolding hex4
length-hex4 n = refl

take-append_left_short : (n : ℕ) (xs ys : List ℕ) → n ≤ length xs → take n (xs ++ ys) ≡ take n xs
take-append_left_short zero xs ys h = refl
take-append_left_short (suc n) [] ys h = absurd (omega arith)
take-append_left_short (suc n) (x ∷ xs) ys h =
    ap (λ t. x ∷ t) (take-append_left_short n xs ys (omega arith))

length-ne : (xs : List ℕ) → xs ≢ [] → 0 < length xs
length-ne [] ne = absurd (ne refl)
length-ne (x ∷ xs) ne = omega arith

missing :
    (service buf rest : List ℕ)
    → buf ++ rest ≡ hex4 (length service) ++ service
    → rest ≢ []
    → length buf < length service + 4
missing service buf rest e ne = omega (
  arith,
  ap length e,
  length-append buf rest,
  length-append (hex4 (length service)) service,
  length-hex4 (length service),
  length-ne rest ne,
)

-- The length that stands at the head of what has arrived.
head_length :
    (service buf rest : List ℕ)
    → length service ≤ 1024
    → buf ++ rest ≡ hex4 (length service) ++ service
    → 4 ≤ length buf
    → unhex (take 4 buf) ≡ length service
head_length service buf rest hs e four =
    ap unhex (
      sym (take-append_left_short 4 buf rest four)
      ∙ ap (take 4) e
      ∙ take-append_left 4 (hex4 (length service)) service (sym (length-hex4 (length service))))
    ∙ unhex-hex4 (length service) (omega arith)

-- Too little of a request has arrived.
read_frame_waiting :
    (service buf rest : List ℕ)
    → 0 < length service
    → length service ≤ 1024
    → buf ++ rest ≡ hex4 (length service) ++ service
    → rest ≢ []
    → read_frame buf ≡ waiting buf
unfolding read_frame
read_frame_waiting service buf rest h hs e ne = elim (Bool-cases (ltb (length buf) 4)) [
  | inl short ↦ rw short refl
  | inr full ↦
      let len = head_length service buf rest hs e (ground arith) in
      let more = missing service buf rest e ne in
      rw (full, len)
        (rw
          (
            le→ltb 1 (length service) h,
            le→ltb (length service) 1024 hs,
            lt→ltb (length buf) (length service + 4) more,
          )
          refl)
]

-- The whole request has arrived.
read_frame_request :
    (service : List ℕ)
    → HasNoNul service
    → 0 < length service
    → length service ≤ 1024
    → read_frame (hex4 (length service) ++ service) ≡ request service
unfolding read_frame
read_frame_request service nul h hs =
    let b = hex4 (length service) ++ service in
    let size : length b ≡ length service + 4 =
      omega (arith, length-append (hex4 (length service)) service, length-hex4 (length service)) in
    let four = sym (length-hex4 (length service)) in
    let len : unhex (take 4 b) ≡ length service =
      head_length service b [] hs (append-nil b) (omega (arith, size)) in
    let text : c_string (take (length service) (drop 4 b)) ≡ service =
      ap (λ t. c_string (take (length service) t))
        (drop-append_left 4 (hex4 (length service)) service four)
      ∙ ap c_string (take_all (length service) service (omega arith))
      ∙ c_string_all service nul in
    rw (len, text)
      (rw
        (
          le→ltb 4 (length b) (omega (arith, size)),
          le→ltb 1 (length service) h,
          le→ltb (length service) 1024 hs,
          le→ltb (length service + 4) (length b) (omega (arith, size)),
        )
        refl)

-- The bytes of the packets.
abbrev pub joined : List (List ℕ) → List ℕ
joined [] = []
joined (p ∷ rest) = p ++ joined rest

nil-cases : (xs : List ℕ) → (xs ≡ []) ⊎ (xs ≢ [])
nil-cases [] = inl refl
nil-cases (x ∷ xs) = inr (λ h. cc)

-- The request `service`, of which `buf` has arrived, in the packets that follow.
module _ (service : List ℕ) (nul : HasNoNul service) (h : 0 < length service)
    (hs : length service ≤ 1024) where
  read_frame-framed :
      (buf rest : List ℕ)
      → buf ++ rest ≡ hex4 (length service) ++ service
      → ((rest ≡ []) × (read_frame buf ≡ request service))
        ⊎ ((rest ≢ []) × (read_frame buf ≡ waiting buf))
  read_frame-framed buf rest e = elim (nil-cases rest) [
    | inl nil ↦ inl (
      nil,
      ap read_frame (sym (append-nil buf) ∙ ap (λ t. buf ++ t) (sym nil) ∙ e)
          ∙ read_frame_request service nul h hs,
    )
    | inr ne ↦ inr (ne, read_frame_waiting service buf rest h hs e ne)
  ]

  fits :
      (buf p rest : List ℕ)
      → buf ++ (p ++ rest) ≡ hex4 (length service) ++ service
      → length buf + length p ≤ max_payload
  fits buf p rest e = omega (
    arith,
    ap length e,
    length-append buf (p ++ rest),
    length-append p rest,
    length-append (hex4 (length service)) service,
    length-hex4 (length service),
  )

  collect_all_rest :
      (packets : List (List ℕ)) (buf : List ℕ)
      → buf ++ joined packets ≡ hex4 (length service) ++ service
      → joined packets ≢ []
      → collect_all (some buf) packets ≡ request service
  unfolding collect_all collect
  collect_all_rest [] buf e ne = absurd (ne refl)
  collect_all_rest (p ∷ rest) buf e ne =
      let e' = append_assoc buf p (joined rest) ∙ e in
      let small = le→ltb (length buf + length p) max_payload (fits buf p (joined rest) e) in
      elim (read_frame-framed (buf ++ p) (joined rest) e') [
        | inl (nil, done) ↦ rw (collect_all, collect, small, done) refl
        | inr (more, wait) ↦
            rw (collect_all, collect, small, wait) (collect_all_rest rest (buf ++ p) e' more)
      ]

  collect_all_first :
      (packets : List (List ℕ))
      → joined packets ≡ hex4 (length service) ++ service
      → collect_all none packets ≡ request service
  unfolding collect_all collect
  collect_all_first [] e =
      absurd (omega (arith, ap length e, length-append (hex4 (length service)) service))
  collect_all_first (p ∷ rest) e = elim (read_frame-framed p (joined rest) e) [
    | inl (nil, done) ↦ rw (collect_all, collect, done) refl
    | inr (more, wait) ↦ rw (collect_all, collect, wait) (collect_all_rest rest p e more)
  ]

-- A service (1 to 1024 bytes, no NUL) that `_adb_connect` writes as four hexadecimal digits and
-- its name is what the smart socket reads, whatever packets its bytes arrive in: no packet before
-- the last one settles the request, and none is refused. A longer service is not written.
pub collect_all-connect_request :
    (service b : List ℕ) (packets : List (List ℕ))
    → HasNoNul service
    → connect_request service ≡ some b
    → joined packets ≡ b
    → (collect_all none packets ≡ request service) × (length b ≡ length service + 4)
unfolding connect_request
collect_all-connect_request service b packets nul c e =
    elim (Bool-cases (ltb (length service) 1 || ltb 1024 (length service))) [
      | inl long ↦ absurd (ground arith)
      | inr good ↦
          let w : hex4 (length service) ++ service ≡ b = ground arith in
          (
            collect_all_first service nul (ground arith) (ground arith) packets (e ∙ sym w),
            omega (
              arith,
              ap length w,
              length-append (hex4 (length service)) service,
              length-hex4 (length service),
            ),
          )
    ]

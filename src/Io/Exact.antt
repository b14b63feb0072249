-- ===== src/Io/Exact.antt =====
-- The outcomes of `readx` and `writex` of transport.c, against the bytes of the descriptor and of
-- the buffer.
use mathlib.Core.Path.{subst}
use pax_linux.Base.{
  ℕ, zero, suc, ◌+◌, ◌-◌, ◌≤◌, ◌<◌, ◌≡◌, ◌≢◌, refl, ◌∙◌, ap, List, [], ◌∷◌, ◌++◌, length, take,
  drop, arith, append_assoc, length-take, length-drop, take-take-drop, drop-drop, take-append-drop,
}
use pax_linux.Io.{
  ReadEvent, ready, interrupted, broken, Io, done, failed, blocked, overrun, Stream, chunk, after,
  read_loop, readx, WriteEvent, took, again, Written, whole, partial, waiting, before, writex,
}

-- The number of `read` calls that return bytes, where none breaks.
abbrev pub ready_count : List ReadEvent → ℕ
ready_count [] = 0
ready_count (ready k ∷ events) = suc (ready_count events)
ready_count (interrupted ∷ events) = ready_count events
ready_count (broken ∷ events) = 0

-- The outcome is the next `n` bytes.
abbrev pub IsNext : ℕ → List ℕ → Io (List ℕ × Stream) → Type 0
IsNext n bytes (done (got, s)) =
    (got ≡ take n bytes) × (s.bytes ≡ drop n bytes) × (n ≤ length bytes)
IsNext n bytes _ = Unit

abbrev pub IsDone {ℓ} : {A : Type ℓ} → Io A → Type 0
IsDone (done a) = Unit
IsDone _ = ⊥

after-IsNext :
    (r n : ℕ) (bytes : List ℕ) (rest : Io (List ℕ × Stream))
    → r ≤ n
    → r ≤ length bytes
    → IsNext (n - r) (drop r bytes) rest
    → IsNext n bytes (after (take r bytes) rest)
unfolding after
after-IsNext r n bytes (done (more, s)) h hb h2 = (
  ap (λ t. take r bytes ++ t) h2.0 ∙ take-take-drop r (n - r) bytes ∙ ap (λ k. take k bytes) sum,
  h2.1 ∙ drop-drop r (n - r) bytes ∙ ap (λ k. drop k bytes) sum,
  omega (arith, length-drop r bytes),
)
  where
    sum : r + (n - r) ≡ n
    sum = omega arith
after-IsNext r n bytes failed h hb h2 = tt
after-IsNext r n bytes blocked h hb h2 = tt
after-IsNext r n bytes overrun h hb h2 = tt

read_loop-IsNext :
    (events : List ReadEvent) (n : ℕ) (bytes : List ℕ) → IsNext n bytes (read_loop events n bytes)
unfolding read_loop chunk
read_loop-IsNext events zero bytes = (refl, refl, omega arith)
read_loop-IsNext [] (suc n) bytes = tt
read_loop-IsNext (interrupted ∷ events) (suc n) bytes = read_loop-IsNext events (suc n) bytes
read_loop-IsNext (broken ∷ events) (suc n) bytes = tt
read_loop-IsNext (ready k ∷ events) (suc n) [] = tt
read_loop-IsNext (ready k ∷ events) (suc n) (b ∷ bytes) =
    let r = chunk k (suc n) (b ∷ bytes) in
    after-IsNext r (suc n) (b ∷ bytes) (read_loop events (suc n - r) (drop r (b ∷ bytes)))
      (omega arith) (omega arith) (read_loop-IsNext events (suc n - r) (drop r (b ∷ bytes)))

after-IsDone : (got : List ℕ) (rest : Io (List ℕ × Stream)) → IsDone rest → IsDone (after got rest)
unfolding after
after-IsDone got (done (more, s)) h = tt
after-IsDone got failed h = h
after-IsDone got blocked h = h
after-IsDone got overrun h = h

-- With enough calls that return bytes, the loop ends with all that was wanted.
read_loop-IsDone :
    (events : List ReadEvent) (n : ℕ) (bytes : List ℕ)
    → n ≤ ready_count events
    → n ≤ length bytes
    → IsDone (read_loop events n bytes)
unfolding read_loop chunk after
read_loop-IsDone events zero bytes h hb = tt
read_loop-IsDone [] (suc n) bytes h hb = absurd (omega arith)
read_loop-IsDone (interrupted ∷ events) (suc n) bytes h hb =
    read_loop-IsDone events (suc n) bytes h hb
read_loop-IsDone (broken ∷ events) (suc n) bytes h hb = absurd (omega arith)
read_loop-IsDone (ready k ∷ events) (suc n) [] h hb = absurd (omega arith)
read_loop-IsDone (ready k ∷ events) (suc n) (b ∷ bytes) h hb =
    let r = chunk k (suc n) (b ∷ bytes) in
    after-IsDone (take r (b ∷ bytes)) (read_loop events (suc n - r) (drop r (b ∷ bytes))) (
      read_loop-IsDone events (suc n - r) (drop r (b ∷ bytes)) (omega arith)
        (omega (arith, length-drop r (b ∷ bytes))))

-- A transfer of `n` bytes uses up at most `n` calls that return bytes.
abbrev pub Leaves : ℕ → ℕ → Io (List ℕ × Stream) → Type 0
Leaves c n (done (got, s)) = c ≤ ready_count s.events + n
Leaves c n _ = Unit

after-Leaves :
    (c n r : ℕ) (got : List ℕ) (rest : Io (List ℕ × Stream))
    → 0 < r
    → r ≤ n
    → Leaves c (n - r) rest
    → Leaves (suc c) n (after got rest)
unfolding after
after-Leaves c n r got (done (more, s)) h hr h2 = omega arith
after-Leaves c n r got failed h hr h2 = tt
after-Leaves c n r got blocked h hr h2 = tt
after-Leaves c n r got overrun h hr h2 = tt

read_loop-Leaves :
    (events : List ReadEvent) (n : ℕ) (bytes : List ℕ)
    → Leaves (ready_count events) n (read_loop events n bytes)
unfolding read_loop chunk
read_loop-Leaves events zero bytes = omega arith
read_loop-Leaves [] (suc n) bytes = tt
read_loop-Leaves (interrupted ∷ events) (suc n) bytes = read_loop-Leaves events (suc n) bytes
read_loop-Leaves (broken ∷ events) (suc n) bytes = tt
read_loop-Leaves (ready k ∷ events) (suc n) [] = tt
read_loop-Leaves (ready k ∷ events) (suc n) (b ∷ bytes) =
    let r = chunk k (suc n) (b ∷ bytes) in
    after-Leaves (ready_count events) (suc n) r (take r (b ∷ bytes))
      (read_loop events (suc n - r) (drop r (b ∷ bytes))) (omega arith) (omega arith)
      (read_loop-Leaves events (suc n - r) (drop r (b ∷ bytes)))

pub readx-Leaves : (n : ℕ) (s : Stream) → Leaves (ready_count s.events) n (readx n s)
unfolding readx
readx-Leaves n s = read_loop-Leaves s.events n s.bytes

-- Where `readx` returns 0, the buffer holds the next `n` bytes of the descriptor and the
-- descriptor stands behind them. It does return 0 if that many bytes are to come, and `read`
-- returns bytes at least `n` times before it breaks.
pub readx_lem :
    (n : ℕ) (s : Stream)
    → IsNext n s.bytes (readx n s)
      × (n ≤ ready_count s.events → n ≤ length s.bytes → IsDone (readx n s))
unfolding readx
readx_lem n s = (read_loop-IsNext s.events n s.bytes, read_loop-IsDone s.events n s.bytes)

-- What the outcome says of the bytes put out.
abbrev pub IsSent : List ℕ → Written → Type 0
IsSent bytes (whole out events) = out ≡ bytes
IsSent bytes (partial out) = (rest : List ℕ) × (out ++ rest ≡ bytes) × (rest ≢ [])
IsSent bytes (waiting out) = (rest : List ℕ) × (out ++ rest ≡ bytes) × (rest ≢ [])

before-IsSent :
    (out bytes : List ℕ) (w : Written) → IsSent bytes w → IsSent (out ++ bytes) (before out w)
unfolding before
before-IsSent out bytes (whole more events) h = ap (λ t. out ++ t) h
before-IsSent out bytes (partial more) (rest, e, ne) =
    (rest, append_assoc out more rest ∙ ap (λ t. out ++ t) e, ne)
before-IsSent out bytes (waiting more) (rest, e, ne) =
    (rest, append_assoc out more rest ∙ ap (λ t. out ++ t) e, ne)

cons-ne-nil {ℓ} : {A : Type ℓ} (x : A) (xs : List A) → x ∷ xs ≢ []
cons-ne-nil x xs h = cc

-- `writex` returns 0 only when every byte of the buffer went out, in order. Where it returns -1
-- or has not returned, what went out is a strict prefix of the buffer.
pub writex_lem : (events : List WriteEvent) (bytes : List ℕ) → IsSent bytes (writex events bytes)
unfolding writex
writex_lem events [] = refl
writex_lem [] (b ∷ bytes) = (b ∷ bytes, refl, cons-ne-nil b bytes)
writex_lem (WriteEvent.interrupted ∷ events) (b ∷ bytes) = writex_lem events (b ∷ bytes)
writex_lem (again ∷ events) (b ∷ bytes) = writex_lem events (b ∷ bytes)
writex_lem (WriteEvent.broken ∷ events) (b ∷ bytes) = (b ∷ bytes, refl, cons-ne-nil b bytes)
writex_lem (took k ∷ events) (b ∷ bytes) =
    subst (λ t. IsSent t (before (b ∷ take k bytes) (writex events (drop k bytes))))
      (ap (λ t. b ∷ t) (take-append-drop k bytes))
      (before-IsSent (b ∷ take k bytes) (drop k bytes) _ (writex_lem events (drop k bytes)))

-- A complete transfer, for a caller: its bytes, and what it leaves.
pub record Reads (n : ℕ) (s : Stream) : Type 0 where
  pub left : Stream
  pub result : readx n s ≡ done (take n s.bytes, left)
  pub behind : left.bytes ≡ drop n s.bytes
  pub events : ready_count s.events ≤ ready_count left.events + n

Reads_of :
    (n : ℕ) (s : Stream) (r : Io (List ℕ × Stream))
    → readx n s ≡ r
    → IsNext n s.bytes r
    → Leaves (ready_count s.events) n r
    → IsDone r
    → Reads n s
Reads_of n s (done (got, s')) e next leaves d = record {
  left = s';
  result = e ∙ ap (λ t. done (t, s')) next.0;
  behind = next.1;
  events = leaves;
}
Reads_of n s failed e next leaves d = absurd d
Reads_of n s blocked e next leaves d = absurd d
Reads_of n s overrun e next leaves d = absurd d

pub readx-Reads : (n : ℕ) (s : Stream) → n ≤ ready_count s.events → n ≤ length s.bytes → Reads n s
readx-Reads n s h hb =
    Reads_of n s (readx n s) refl (readx_lem n s).0 (readx-Leaves n s) ((readx_lem n s).1 h hb)

-- A transfer that returned, for a caller.
pub readx-done :
    (n : ℕ) (s : Stream) (got : List ℕ) (s' : Stream)
    → readx n s ≡ done (got, s')
    → (got ≡ take n s.bytes) × (s'.bytes ≡ drop n s.bytes) × (length got ≡ n)
readx-done n s got s' e =
    let next : IsNext n s.bytes (done (got, s')) = subst (IsNext n s.bytes) e (readx_lem n s).0 in
    (next.0, next.1, ap length next.0 ∙ (omega (arith, length-take n s.bytes, next.2)))

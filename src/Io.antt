-- ===== src/Io.antt =====
-- The exact-count transfers `readx` and `writex` of transport.c.
-- A descriptor is the bytes that its far side still delivers, and the outcomes of the coming
-- `read` calls. A call with no outcome left has not returned: it is `blocked`.
pub mod Exact
use pax_linux.Base.{ℕ, zero, suc, ◌+◌, ◌-◌, min, ◌≡◌, refl, List, [], ◌∷◌, ◌++◌, length, take, drop}

-- One return of `read`: at most `k + 1` bytes, -1 with EINTR, or -1 with another errno.
pub data ReadEvent : Type 0 where
  ready : ℕ → ReadEvent
  interrupted broken : ReadEvent

pub data Io {ℓ} (A : Type ℓ) : Type ℓ where
  done : A → Io A
  failed blocked overrun : Io A

infixl 10 ◌>>=◌
abbrev pub ◌>>=◌ {ℓ κ} : {A : Type ℓ} {B : Type κ} → Io A → (A → Io B) → Io B
done a >>= f = f a
failed >>= f = failed
blocked >>= f = blocked
overrun >>= f = overrun

-- Inversion of a bind that returns.
pub >>=-eq-done {ℓ κ} :
    {A : Type ℓ} {B : Type κ} (m : Io A) (f : A → Io B) {b : B}
    → (m >>= f) ≡ done b
    → (a : A) × (m ≡ done a) × (f a ≡ done b)
>>=-eq-done (done a) f h = (a, refl, h)
>>=-eq-done failed f h = cc
>>=-eq-done blocked f h = cc
>>=-eq-done overrun f h = cc

pub done-injective {ℓ} : {A : Type ℓ} {a b : A} → done a ≡ done b → a ≡ b
done-injective h = cc

pub record Stream : Type 0 where
  pub bytes : List ℕ
  pub events : List ReadEvent

-- How many bytes one `read` returns for `n` wanted.
unfoldable pub chunk : ℕ → ℕ → List ℕ → ℕ
chunk k n bytes = min (k + 1) (min n (length bytes))

-- `p += r` writes behind what was read before.
unfoldable pub after : List ℕ → Io (List ℕ × Stream) → Io (List ℕ × Stream)
after got rest = do (more, s) ← rest; done (got ++ more, s)

-- The loop of `readx`. At the end of the bytes `read` returns 0, which is an error too.
unfoldable pub read_loop : List ReadEvent → ℕ → List ℕ → Io (List ℕ × Stream)
read_loop events zero bytes = done ([], record { bytes = bytes; events = events })
read_loop [] (suc n) bytes = blocked
read_loop (interrupted ∷ events) (suc n) bytes = read_loop events (suc n) bytes
read_loop (broken ∷ events) (suc n) bytes = failed
read_loop (ready k ∷ events) (suc n) [] = failed
read_loop (ready k ∷ events) (suc n) (b ∷ bytes) =
    let r = chunk k (suc n) (b ∷ bytes) in
    after (take r (b ∷ bytes)) (read_loop events (suc n - r) (drop r (b ∷ bytes)))

unfoldable pub readx : ℕ → Stream → Io (List ℕ × Stream)
readx n s = read_loop s.events n s.bytes

-- One return of `write`: at most `k + 1` bytes taken, EINTR, EAGAIN, or any other failure
-- (a return of 0 among them).
pub data WriteEvent : Type 0 where
  took : ℕ → WriteEvent
  interrupted again broken : WriteEvent

-- What `writex` has put out, and how it ended.
pub data Written : Type 0 where
  whole : List ℕ → List WriteEvent → Written
  partial : List ℕ → Written
  waiting : List ℕ → Written

unfoldable pub before : List ℕ → Written → Written
before out (whole more events) = whole (out ++ more) events
before out (partial more) = partial (out ++ more)
before out (waiting more) = waiting (out ++ more)

-- The loop of `writex`: after EINTR, and after a pause for EAGAIN, it goes on.
unfoldable pub writex : List WriteEvent → List ℕ → Written
writex events [] = whole [] events
writex [] (b ∷ bytes) = waiting []
writex (interrupted ∷ events) (b ∷ bytes) = writex events (b ∷ bytes)
writex (again ∷ events) (b ∷ bytes) = writex events (b ∷ bytes)
writex (broken ∷ events) (b ∷ bytes) = partial []
writex (took k ∷ events) (b ∷ bytes) = before (b ∷ take k bytes) (writex events (drop k bytes))

-- ===== src/Sync/Files.antt =====
-- What a file transfer puts on the connection, and what it takes from it: the frames of a file.
use pax_linux.Base.{
  ℕ, Bool, true, false, zero, suc, ◌≤◌, ◌≡◌, inl, inr, refl, sym, ap, ◌∙◌, Bool-cases, List, [],
  ◌∷◌, ◌++◌, Option, none, some, length, take, drop, ltb, ◌==◌, if◌then◌else◌, append_assoc,
  append-nil,
}
use pax_linux.Io.{
  Io, done, done-injective, failed, blocked, overrun, Stream, readx, writex, WriteEvent, broken,
  Written, whole, partial, waiting,
}
use pax_linux.Io.Exact.{IsSent, writex_lem, readx-done}
use pax_linux.Wire.{read_le32}
use pax_linux.Sync.{
  Link, Step, ◌>>=◌, ◌>>◌, pure, put, get, get_into, header, id_data, id_done, sync_data_max,
  count_of_int,
}

-- The bytes of a frame in front of those of the next ones.
abbrev pub prepend : List ℕ → Option (List ℕ × ℕ × List ℕ) → Option (List ℕ × ℕ × List ℕ)
prepend c none = none
prepend c (some (file, time, rest)) = some (c ++ file, time, rest)

-- The frames of a file, as the receiving side takes them: DATA frames up to a DONE, with the
-- bytes, the number that DONE carries, and what follows.
unfoldable pub read_frames : ℕ → List ℕ → Option (List ℕ × ℕ × List ℕ)
read_frames zero bs = none
read_frames (suc fuel) bs =
    let n = count_of_int (read_le32 (drop 4 bs)) in
    let rest = read_frames fuel (drop n (drop 8 bs)) in
    if read_le32 bs == id_done
    then some ([], read_le32 (drop 4 bs), drop 8 bs)
    else if read_le32 bs == id_data
    then prepend (take n (drop 8 bs)) rest
    else none

abbrev pub joined : List (List ℕ) → List ℕ
joined [] = []
joined (c ∷ rest) = c ++ joined rest

-- The DATA frames of the chunks.
abbrev pub frames : List (List ℕ) → List ℕ
frames [] = []
frames (c ∷ rest) = (header id_data (length c) ++ c) ++ frames rest

-- The chunks fit the buffer.
abbrev pub AreChunks : List (List ℕ) → Type 0
AreChunks [] = Unit
AreChunks (c ∷ rest) = (length c ≤ sync_data_max) × AreChunks rest

-- A step that, where it succeeds, has written exactly the bytes.
unfoldable pub Writes : {A : Type 0} → Step A → List ℕ → Type 0
Writes {A} m bs = (l l' : Link) (a : A) → m l ≡ done (a, l') → l'.out ≡ l.out ++ bs

pub >>=-eq-done :
    {A B : Type 0} (m : Step A) (f : A → Step B) (l : Link) {r : B × Link}
    → (m >>= f) l ≡ done r
    → (a : A) × (l1 : Link) × (m l ≡ done (a, l1)) × (f a l1 ≡ done r)
>>=-eq-done {A} {B} m f l {r} e = by_result (m l) refl e
  where
    by_result :
        (o : Io (A × Link))
        → m l ≡ o
        → (elim o as (λ x. Io (B × Link)) [
          | done q ↦ f q.0 q.1
          | failed ↦ failed
          | blocked ↦ blocked
          | overrun ↦ overrun
        ])
          ≡ done r
        → (a : A) × (l1 : Link) × (m l ≡ done (a, l1)) × (f a l1 ≡ done r)
    by_result (done (a, l1)) h k = (a, l1, h, k)
    by_result failed h k = cc
    by_result blocked h k = cc
    by_result overrun h k = cc

pub Writes-then :
    {B : Type 0} (m : Step (Unit {0})) (k : Step B) (xs ys : List ℕ)
    → Writes m xs
    → Writes k ys
    → Writes (m >> k) (xs ++ ys)
unfolding Writes
Writes-then m k xs ys wm wk l l' b e =
    let (u, l1, e1, e2) = >>=-eq-done m (λ v. k) l e in
    wk l1 l' b e2 ∙ ap (λ t. t ++ ys) (wm l l1 u e1) ∙ append_assoc l.out xs ys

pub put-Writes : (bs : List ℕ) → Writes (put bs) bs
unfolding Writes put
put-Writes bs l l' u e = by_result (writex l.writes bs) (writex_lem l.writes bs) e
  where
    by_result :
        (w : Written)
        → IsSent bs w
        → (elim w as (λ x. Io (Unit {0} × Link)) [
          | whole sent left ↦ done (tt, record l { writes = left; out = l.out ++ sent })
          | partial sent ↦ failed
          | waiting sent ↦ blocked
        ])
          ≡ done (u, l')
        → l'.out ≡ l.out ++ bs
    by_result (whole sent left) s k =
        ap (λ (x : Link). x.out) (sym (ap (λ (x : Unit {0} × Link). x.1) (done-injective k)))
        ∙ ap (λ t. l.out ++ t) s
    by_result (partial sent) s k = cc
    by_result (waiting sent) s k = cc

pure-Writes : {A : Type 0} (a : A) → Writes (pure a) []
unfolding Writes
pure-Writes a l l' b e = ap (λ x. (x.1).out) (sym (done-injective e)) ∙ sym (append-nil l.out)

-- What a read takes.
pub get-done :
    (n : ℕ) (l l' : Link) (bs : List ℕ)
    → get n l ≡ done (bs, l')
    → (bs ≡ take n l.input.bytes)
      × (l'.input.bytes ≡ drop n l.input.bytes)
      × (l'.out ≡ l.out)
      × (l'.file ≡ l.file)
      × (length bs ≡ n)
unfolding get
get-done n l l' bs e = by_result (readx n l.input) refl e
  where
    by_result :
        (o : Io (List ℕ × Stream))
        → readx n l.input ≡ o
        → (elim o as (λ x. Io (List ℕ × Link)) [
          | done r ↦ done (r.0, record l { input = r.1 })
          | failed ↦ failed
          | blocked ↦ blocked
          | overrun ↦ overrun
        ])
          ≡ done (bs, l')
        → (bs ≡ take n l.input.bytes)
          × (l'.input.bytes ≡ drop n l.input.bytes)
          × (l'.out ≡ l.out)
          × (l'.file ≡ l.file)
          × (length bs ≡ n)
    by_result (done (got, s)) h k =
        let (a, b, c) = readx-done n l.input got s h in
        let e' = done-injective k in
        let same : got ≡ bs = ap (λ x. x.0) e' in
        (
          sym same ∙ a,
          ap (λ x. (x.1).input.bytes) (sym e') ∙ b,
          ap (λ x. (x.1).out) (sym e'),
          ap (λ x. (x.1).file) (sym e'),
          ap length (sym same) ∙ c,
        )
    by_result failed h k = cc
    by_result blocked h k = cc
    by_result overrun h k = cc

-- Where a read into a buffer returns, it is a read.
pub get_into-done :
    (size n : ℕ) (l l' : Link) (bs : List ℕ)
    → get_into size n l ≡ done (bs, l')
    → get n l ≡ done (bs, l')
unfolding get_into
get_into-done size n l l' bs e = elim (Bool-cases (ltb size n)) [
  | inl more ↦ absurd (overrun-ne (rw more at e))
  | inr fits ↦ rw fits at e
]
  where
    overrun-ne : {r : List ℕ × Link} → overrun ≡ done r → ⊥
    overrun-ne h = cc

-- No write fails.
abbrev pub unbroken : List WriteEvent → Bool
unbroken [] = true
unbroken (broken ∷ events) = false
unbroken (_ ∷ events) = unbroken events

abbrev Fine : Written → Type 0
Fine (whole sent left) = unbroken left ≡ true
Fine (partial sent) = ⊥
Fine (waiting sent) = Unit

-- A step that, where it succeeds and no write fails, has written exactly the bytes, and whose
-- later writes do not fail either.
unfoldable pub Sends : Step (Unit {0}) → List ℕ → Type 0
Sends m bs =
    (l l' : Link) (u : Unit {0})
    → unbroken l.writes ≡ true
    → m l ≡ done (u, l')
    → (l'.out ≡ l.out ++ bs) × (unbroken l'.writes ≡ true)

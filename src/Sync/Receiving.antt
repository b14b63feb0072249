-- ===== src/Sync/Receiving.antt =====
-- `sync_recv` of file_sync_client.c against the frames that a device sends.
use mathlib.Core.Path.{ap₂}
use pax_linux.Base.{
  ℕ, zero, suc, ◌≤◌, ◌≡◌, ◌≢◌, inl, inr, refl, sym, ap, ◌∙◌, Bool, true, false, Bool-cases, ◌||◌,
  List, [], ◌∷◌, ◌++◌, some, length, take, drop, ltb, ◌==◌, if◌then◌else◌, arith, append_assoc,
  append-nil, drop-append_left, take-append-drop, length-drop,
}
use pax_linux.Io.{
  Io, done, done-injective, failed, blocked, writex, Written, whole, partial, waiting,
}
use pax_linux.Io.Exact.{IsSent, writex_lem}
use pax_linux.Wire.{read_le32}
use pax_linux.Sync.{
  Link, ◌>>=◌, put, get, get_into, save, header, id_data, id_done, id_recv, id_fail, sync_data_max,
  count_of_int, exceeds, Received, copied, refused, recv_loop, begin_recv, remote_error, sync_recv,
}
use pax_linux.Sync.Files.{prepend, read_frames, >>=-eq-done, get-done, get_into-done}

fail-ne {ℓ} : {A : Type ℓ} {r : A} → failed ≡ done r → ⊥
fail-ne h = cc

blocked-ne {ℓ} : {A : Type ℓ} {r : A} → blocked ≡ done r → ⊥
blocked-ne h = cc

-- The step leaves the input alone.
pub put_keeps :
    (bs : List ℕ) (l l' : Link) (u : Unit {0})
    → put bs l ≡ done (u, l')
    → (l'.input.bytes ≡ l.input.bytes) × (l'.file ≡ l.file)
unfolding put
put_keeps bs l l' u e = by_result (writex l.writes bs) e
  where
    by_result :
        (w : Written)
        → (elim w as (λ x. Io (Unit {0} × Link)) [
          | whole sent left ↦ done (tt, record l { writes = left; out = l.out ++ sent })
          | partial sent ↦ failed
          | waiting sent ↦ blocked
        ])
          ≡ done (u, l')
        → (l'.input.bytes ≡ l.input.bytes) × (l'.file ≡ l.file)
    by_result (whole sent left) k = (
      ap (λ x. (x.1).input.bytes) (sym (done-injective k)),
      ap (λ x. (x.1).file) (sym (done-injective k)),
    )
    by_result (partial sent) k = absurd (fail-ne k)
    by_result (waiting sent) k = absurd (blocked-ne k)

pub save-done :
    (bs : List ℕ) (l l' : Link) (u : Unit {0})
    → save bs l ≡ done (u, l')
    → (l'.input.bytes ≡ l.input.bytes) × (l'.file ≡ l.file ++ bs)
unfolding save
save-done bs l l' u e = by_result (writex l.file_writes bs) (writex_lem l.file_writes bs) e
  where
    by_result :
        (w : Written)
        → IsSent bs w
        → (elim w as (λ x. Io (Unit {0} × Link)) [
          | whole sent left ↦ done (tt, record l { file_writes = left; file = l.file ++ sent })
          | partial sent ↦ failed
          | waiting sent ↦ blocked
        ])
          ≡ done (u, l')
        → (l'.input.bytes ≡ l.input.bytes) × (l'.file ≡ l.file ++ bs)
    by_result (whole sent left) s k = (
      ap (λ x. (x.1).input.bytes) (sym (done-injective k)),
      ap (λ x. (x.1).file) (sym (done-injective k)) ∙ ap (λ t. l.file ++ t) s,
    )
    by_result (partial sent) s k = absurd (fail-ne k)
    by_result (waiting sent) s k = absurd (blocked-ne k)

read_le32-append : (b rest : List ℕ) → 4 ≤ length b → read_le32 (b ++ rest) ≡ read_le32 b
unfolding read_le32
read_le32-append [] rest h = absurd (omega arith)
read_le32-append (x ∷ []) rest h = absurd (omega arith)
read_le32-append (x ∷ y ∷ []) rest h = absurd (omega arith)
read_le32-append (x ∷ y ∷ z ∷ []) rest h = absurd (omega arith)
read_le32-append (x ∷ y ∷ z ∷ w ∷ b) rest h = refl

drop-append : (n : ℕ) (b rest : List ℕ) → n ≤ length b → drop n (b ++ rest) ≡ drop n b ++ rest
drop-append zero b rest h = refl
drop-append (suc n) [] rest h = absurd (omega arith)
drop-append (suc n) (x ∷ b) rest h = drop-append n b rest (omega arith)

-- A header in front of the bytes to come.
module _ (b rest : List ℕ) (eight : length b ≡ 8) where
  id_in_front : read_le32 (b ++ rest) ≡ read_le32 b
  id_in_front = read_le32-append b rest (omega arith)

  number_in_front : read_le32 (drop 4 (b ++ rest)) ≡ read_le32 (drop 4 b)
  number_in_front =
      ap read_le32 (drop-append 4 b rest (omega arith))
      ∙ read_le32-append (drop 4 b) rest (omega (arith, length-drop 4 b))

  rest_behind : drop 8 (b ++ rest) ≡ rest
  rest_behind = drop-append_left 8 b rest (sym eight)

  read_frames-last :
      (fuel : ℕ)
      → (read_le32 b == id_done) ≡ true
      → read_frames (suc fuel) (b ++ rest) ≡ some ([], read_le32 (drop 4 b), rest)
  unfolding read_frames
  read_frames-last fuel last = rw (id_in_front, number_in_front, rest_behind, last) refl

  read_frames-next :
      (fuel : ℕ)
      → (read_le32 b == id_done) ≡ false
      → (read_le32 b == id_data) ≡ true
      → read_frames (suc fuel) (b ++ rest)
        ≡ prepend
            (take (count_of_int (read_le32 (drop 4 b))) rest)
            (read_frames fuel (drop (count_of_int (read_le32 (drop 4 b))) rest))
  unfolding read_frames
  read_frames-next fuel more data_frame =
      rw (id_in_front, number_in_front, rest_behind, more, data_frame) refl

refused-ne :
    {msg : List ℕ} {x y : Link}
    → ◌≡◌ {A = Io (Received × Link)} (done (refused msg, x)) (done (copied, y))
    → ⊥
refused-ne h = cc

remote_error-refused : (id n : ℕ) (l l' : Link) → remote_error id n l ≢ done (copied, l')
unfolding remote_error
remote_error-refused id n l l' e = elim (Bool-cases (id == id_fail)) [
  | inl failing ↦
      let (msg, l1, e1, e2) =
        >>=-eq-done (get_into sync_data_max (if exceeds n 256 then 256 else count_of_int n)) _ l
          (rw failing at e) in
      refused-ne e2
  | inr other ↦ refused-ne (rw other at e)
]

-- What has been copied, from the header `b` and the bytes to come.
abbrev Copied : ℕ → List ℕ → Link → Link → Type 0
Copied fuel b l l' =
    (content : List ℕ) × (time : ℕ) × (read_frames fuel (b ++ l.input.bytes)
      ≡ some (content, time, l'.input.bytes))
    × (l'.file ≡ l.file ++ content)

-- A DATA frame, where the rest has been copied as it says.
Copied-next :
    (fuel : ℕ) (b : List ℕ) (l l1 l2 l3 l' : Link) (chunk next : List ℕ) (u : Unit {0})
    → length b ≡ 8
    → (read_le32 b == id_done) ≡ false
    → (read_le32 b == id_data) ≡ true
    → get (count_of_int (read_le32 (drop 4 b))) l ≡ done (chunk, l1)
    → save chunk l1 ≡ done (u, l2)
    → get 8 l2 ≡ done (next, l3)
    → Copied fuel next l3 l'
    → Copied (suc fuel) b l l'
Copied-next fuel b l l1 l2 l3 l' chunk next u eight more data_frame e1 e2 e3
      (content, time, frames, file) =
    let n = count_of_int (read_le32 (drop 4 b)) in
    let (taken, left, out1, file1, size1) = get-done n l l1 chunk e1 in
    let (left2, file2) = save-done chunk l1 l2 u e2 in
    let (taken3, left3, out3, file3, size3) = get-done 8 l2 l3 next e3 in
    let again : drop n l.input.bytes ≡ next ++ l3.input.bytes =
      sym left
      ∙ sym left2
      ∙ sym (take-append-drop 8 l2.input.bytes)
      ∙ ap₂ ◌++◌ (sym taken3) (sym left3) in
    (
      chunk ++ content,
      time,
      read_frames-next b l.input.bytes eight fuel more data_frame
          ∙ ap₂ prepend (sym taken) (ap (read_frames fuel) again ∙ frames),
      file
          ∙ ap (λ t. t ++ content) (file3 ∙ file2 ∙ ap (λ t. t ++ chunk) file1)
          ∙ append_assoc l.file chunk content,
    )

recv_loop-Copied :
    (fuel : ℕ) (b : List ℕ) (l l' : Link)
    → length b ≡ 8
    → recv_loop (λ m. blocked) fuel b l ≡ done (copied, l')
    → Copied fuel b l l'
unfolding recv_loop
recv_loop-Copied zero b l l' eight e = absurd (blocked-ne e)
recv_loop-Copied (suc fuel) b l l' eight e = elim (Bool-cases (read_le32 b == id_done)) [
  | inl last ↦
      let same : l ≡ l' = ap (λ x. x.1) (done-injective (rw last at e)) in
      (
        [],
        read_le32 (drop 4 b),
        read_frames-last b l.input.bytes eight fuel last
            ∙ ap (λ (x : Link). some ([], read_le32 (drop 4 b), x.input.bytes)) same,
        ap (λ (x : Link). x.file) (sym same) ∙ sym (append-nil l.file),
      )
  | inr more ↦ elim (Bool-cases (read_le32 b == id_data)) [
    | inr other ↦
        absurd
          (remote_error-refused (read_le32 b) (read_le32 (drop 4 b)) l l' (rw (more, other) at e))
    | inl data_frame ↦ elim (Bool-cases (exceeds (read_le32 (drop 4 b)) sync_data_max)) [
      | inl large ↦ absurd (fail-ne (rw (more, data_frame, large) at e))
      | inr fits ↦
          let n = count_of_int (read_le32 (drop 4 b)) in
          let (chunk, l1, e0, k1) =
            >>=-eq-done (get_into sync_data_max n) _ l (rw (more, data_frame, fits) at e) in
          let e1 = get_into-done sync_data_max n l l1 chunk e0 in
          let (u, l2, e2, k2) = >>=-eq-done (save chunk) _ l1 k1 in
          let (next, l3, e3, k3) = >>=-eq-done (get 8) _ l2 k2 in
          let size = (get-done 8 l2 l3 next e3).4 in
          Copied-next fuel b l l1 l2 l3 l' chunk next u eight more data_frame e1 e2 e3
            (recv_loop-Copied fuel next l3 l' size k3)
    ]
  ]
]

begin_recv-Copied :
    (creatable : Bool) (b : List ℕ) (l l' : Link)
    → length b ≡ 8
    → begin_recv creatable b l ≡ done (copied, l')
    → (fuel : ℕ) × Copied fuel b l l'
unfolding begin_recv
begin_recv-Copied false b l l' eight e = absurd (fail-ne e)
begin_recv-Copied true b l l' eight e =
    (suc (length l.input.bytes), recv_loop-Copied (suc (length l.input.bytes)) b l l' eight e)

-- What has been copied from the bytes to come.
abbrev Transferred : Link → Link → Type 0
Transferred l l' =
    (fuel : ℕ) × (content : List ℕ) × (time : ℕ) × (read_frames fuel l.input.bytes
      ≡ some (content, time, l'.input.bytes))
    × (l'.file ≡ l.file ++ content)

-- A step before it that leaves the input and the file alone.
Transferred-keep :
    (l l1 l' : Link)
    → (l1.input.bytes ≡ l.input.bytes) × (l1.file ≡ l.file)
    → Transferred l1 l'
    → Transferred l l'
Transferred-keep l l1 l' (input, file) (fuel, content, time, frames, saved) = (
  fuel,
  content,
  time,
  ap (read_frames fuel) (sym input) ∙ frames,
  saved ∙ ap (λ t. t ++ content) file,
)

Copied-Transferred :
    (b : List ℕ) (l l1 l' : Link)
    → get 8 l ≡ done (b, l1)
    → (fuel : ℕ) × Copied fuel b l1 l'
    → Transferred l l'
Copied-Transferred b l l1 l' e (fuel, (content, time, frames, file)) =
    let (taken, left, out1, file1, size) = get-done 8 l l1 b e in
    let again : l.input.bytes ≡ b ++ l1.input.bytes =
      sym (take-append-drop 8 l.input.bytes) ∙ ap₂ ◌++◌ (sym taken) (sym left) in
    (fuel, content, time, ap (read_frames fuel) again ∙ frames, file ∙ ap (λ t. t ++ content) file1)

-- From the first header on.
first_header :
    (creatable : Bool) (l l' : Link)
    → (get 8 >>= λ b.
          if (read_le32 b == id_data) || (read_le32 b == id_done)
          then begin_recv creatable b
          else remote_error (read_le32 b) (read_le32 (drop 4 b)))
        l
      ≡ done (copied, l')
    → Transferred l l'
first_header creatable l l' e =
    let (b, l1, e1, k1) = >>=-eq-done (get 8) _ l e in
    elim (Bool-cases ((read_le32 b == id_data) || (read_le32 b == id_done))) [
      | inr neither ↦
          absurd
            (remote_error-refused (read_le32 b) (read_le32 (drop 4 b)) l1 l' (rw neither at k1))
      | inl frame ↦
          Copied-Transferred b l l1 l' e1
            (begin_recv-Copied creatable b l1 l' (get-done 8 l l1 b e1).4 (rw frame at k1))
    ]

-- Where `sync_recv` reports a copied file, the device has sent whole frames, and the bytes put
-- into the local file are those of the frames, in order and none besides. What stands on the
-- connection behind the frames is left there.
pub sync_recv-read_frames :
    (rpath : List ℕ) (creatable : Bool) (l l' : Link)
    → sync_recv rpath creatable l ≡ done (copied, l')
    → (fuel : ℕ) × (content : List ℕ) × (time : ℕ) × (read_frames fuel l.input.bytes
        ≡ some (content, time, l'.input.bytes))
      × (l'.file ≡ l.file ++ content)
unfolding sync_recv
sync_recv-read_frames rpath creatable l l' e = elim (Bool-cases (ltb 1024 (length rpath))) [
  | inl long ↦ absurd (fail-ne (rw long at e))
  | inr short ↦
      let (u, l1, e1, k1) = >>=-eq-done (put (header id_recv (length rpath))) _ l (rw short at e) in
      let (w, l2, e2, k2) = >>=-eq-done (put rpath) _ l1 k1 in
      Transferred-keep l l1 l' (put_keeps (header id_recv (length rpath)) l l1 u e1)
        (Transferred-keep l1 l2 l' (put_keeps rpath l1 l2 w e2) (first_header creatable l2 l' k2))
]

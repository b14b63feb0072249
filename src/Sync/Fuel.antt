-- ===== src/Sync/Fuel.antt =====
-- The fuel of the loops of `sync_ls` and `sync_recv` (file_sync_client.c).
use pax_linux.Base.{
  ℕ, zero, suc, ◌+◌, ◌<◌, ◌≡◌, refl, ap, Bool-cases, inl, inr, List, length, drop, ◌==◌, arith,
  length-drop, length-take,
}
use pax_linux.Io.{Io, done, failed, blocked, overrun}
use pax_linux.Wire.{read_le32}
use pax_linux.Sync.{
  Link, Step, ◌>>=◌, get, get_into, Received, Entry, save, recv_loop, list_loop, id_data, id_done,
  id_dent, sync_data_max, count_of_int, exceeds,
}
use pax_linux.Sync.Files.{get-done, get_into-done}
use pax_linux.Sync.Receiving.{save-done}

-- Two continuations that agree wherever the first step leads.
bind_same :
    {A B : Type 0} (m : Step A) (f g : A → Step B) (l : Link)
    → ((a : A) (l1 : Link) → m l ≡ done (a, l1) → f a l1 ≡ g a l1)
    → (m >>= f) l ≡ (m >>= g) l
bind_same {A} {B} m f g l same = by_result (m l) refl
  where
    by_result :
        (o : Io (A × Link))
        → m l ≡ o
        → (elim o as (λ x. Io (B × Link)) [
          | done r ↦ f r.0 r.1
          | failed ↦ failed
          | blocked ↦ blocked
          | overrun ↦ overrun
        ])
          ≡ (elim o as (λ x. Io (B × Link)) [
            | done r ↦ g r.0 r.1
            | failed ↦ failed
            | blocked ↦ blocked
            | overrun ↦ overrun
          ])
    by_result (done (a, l1)) h = same a l1 h
    by_result failed h = refl
    by_result blocked h = refl
    by_result overrun h = refl

-- Two first steps that agree.
bind_first :
    {A B : Type 0} (m n : Step A) (f : A → Step B) (l : Link)
    → m l ≡ n l
    → (m >>= f) l ≡ (n >>= f) l
bind_first {A} {B} m n f l e =
    ap
      (λ o. elim o as (λ x. Io (B × Link)) [
        | done r ↦ f r.0 r.1
        | failed ↦ failed
        | blocked ↦ blocked
        | overrun ↦ overrun
      ])
      e

-- A read takes its bytes from the input.
get_shorter :
    (n : ℕ) (l l1 : Link) (bs : List ℕ)
    → get n l ≡ done (bs, l1)
    → length l1.input.bytes + n ≡ length l.input.bytes
get_shorter n l l1 bs e =
    let (taken, left, out1, file1, size) = get-done n l l1 bs e in
    omega (
      arith,
      ap length taken,
      length-take n l.input.bytes,
      ap length left,
      length-drop n l.input.bytes,
      size,
    )

-- From a fuel above the number of the bytes to come on, the loop of `sync_recv` gives the same
-- result whatever the fuel is and whatever it does at the end of the fuel: it never comes there.
pub recv_loop_fuel :
    (stuck stuck' : Step Received) (f g : ℕ) (b : List ℕ) (l : Link)
    → length l.input.bytes < f
    → length l.input.bytes < g
    → recv_loop stuck f b l ≡ recv_loop stuck' g b l
unfolding recv_loop
recv_loop_fuel stuck stuck' zero g b l hf hg = absurd (omega arith)
recv_loop_fuel stuck stuck' (suc f) zero b l hf hg = absurd (omega arith)
recv_loop_fuel stuck stuck' (suc f) (suc g) b l hf hg = elim (Bool-cases (read_le32 b == id_done)) [
  | inl last ↦ rw (recv_loop, last) refl
  | inr more ↦ elim (Bool-cases (read_le32 b == id_data)) [
    | inr other ↦ rw (recv_loop, more, other) refl
    | inl data_frame ↦ elim (Bool-cases (exceeds (read_le32 (drop 4 b)) sync_data_max)) [
      | inl large ↦ rw (recv_loop, more, data_frame, large) refl
      | inr fits ↦
          rw (more, data_frame, fits)
            (bind_same (get_into sync_data_max (count_of_int (read_le32 (drop 4 b)))) _ _ l
              λ chunk l1 e1. bind_same (save chunk) _ _ l1 λ u l2 e2.
                bind_same (get 8) _ _ l2 λ next l3 e3.
                  let n = count_of_int (read_le32 (drop 4 b)) in
                  let s1 = get_shorter n l l1 chunk (get_into-done sync_data_max n l l1 chunk e1) in
                  let s2 = ap length (save-done chunk l1 l2 u e2).0 in
                  let s3 = get_shorter 8 l2 l3 next e3 in
                  recv_loop_fuel stuck stuck' f g next l3 (omega (arith, s1, s2, s3))
                    (omega (arith, s1, s2, s3)))
    ]
  ]
]

-- From a fuel above the number of the bytes to come on, the loop of `sync_ls` gives the same
-- result whatever the fuel is and whatever it does at the end of the fuel: it never comes there.
pub list_loop_fuel :
    (stuck stuck' : Step (List Entry)) (f g : ℕ) (l : Link)
    → length l.input.bytes < f
    → length l.input.bytes < g
    → list_loop stuck f l ≡ list_loop stuck' g l
unfolding list_loop
list_loop_fuel stuck stuck' zero g l hf hg = absurd (omega arith)
list_loop_fuel stuck stuck' (suc f) zero l hf hg = absurd (omega arith)
list_loop_fuel stuck stuck' (suc f) (suc g) l hf hg = bind_same (get 20) _ _ l λ b l1 e1.
    elim (Bool-cases (read_le32 b == id_done)) [
      | inl last ↦ rw last refl
      | inr more ↦ elim (Bool-cases (read_le32 b == id_dent)) [
        | inr other ↦ rw (more, other) refl
        | inl entry ↦ elim (Bool-cases (exceeds (read_le32 (drop 16 b)) 256)) [
          | inl long ↦ rw (more, entry, long) refl
          | inr fits ↦
              rw (more, entry, fits)
                (bind_same (get_into 256 (count_of_int (read_le32 (drop 16 b)))) _ _ l1
                  λ name l2 e2.
                    let s1 = get_shorter 20 l l1 b e1 in
                    let n = count_of_int (read_le32 (drop 16 b)) in
                    let s2 = get_shorter n l1 l2 name (get_into-done 256 n l1 l2 name e2) in
                    bind_first (list_loop stuck f) (list_loop stuck' g) _ l2 (
                      list_loop_fuel stuck stuck' f g l2 (omega (arith, s1, s2))
                        (omega (arith, s1, s2))))
        ]
      ]
    ]

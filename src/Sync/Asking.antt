-- ===== src/Sync/Asking.antt =====
-- Requests with one answer: the PAX request to delete a file.
use pax_linux.Base.{
  ℕ, ◌≡◌, sym, ap, ◌∙◌, Bool-cases, inl, inr, List, ◌++◌, length, take, ◌==◌, ==_iff,
}
use pax_linux.Io.{done, done-injective, failed}
use pax_linux.Wire.{read_le32}
use pax_linux.Sync.{Link, put, get, header, ask, id_ulnk, id_okay, sync_unlink}
use pax_linux.Sync.Files.{Writes, Writes-then, put-Writes, >>=-eq-done, get-done}
use pax_linux.Sync.Receiving.{put_keeps}

fail-ne : {r : Unit {0} × Link} → failed ≡ done r → ⊥
fail-ne h = cc

ask-done :
    (id : ℕ) (path : List ℕ) (l l' : Link) (u : Unit {0})
    → ask id path l ≡ done (u, l')
    → (l'.out ≡ l.out ++ (header id (length path) ++ path)) × (l'.input.bytes ≡ l.input.bytes)
unfolding ask Writes
ask-done id path l l' u e =
    let (v, l1, e1, e2) = >>=-eq-done (put (header id (length path))) _ l e in
    (
      Writes-then (put (header id (length path))) (put path) (header id (length path)) path
          (put-Writes (header id (length path))) (put-Writes path) l l' u e,
      (put_keeps path l1 l' u e2).0 ∙ (put_keeps (header id (length path)) l l1 v e1).0,
    )

-- `sync_unlink` returns 0 only where it has written the ULNK request for the path, and nothing
-- else, and the device's answer of 8 bytes begins with OKAY.
sync_unlink-ask :
    (path : List ℕ) (l l' : Link)
    → sync_unlink path l ≡ done (tt, l')
    → (l'.out ≡ l.out ++ (header id_ulnk (length path) ++ path))
      × (read_le32 (take 8 l.input.bytes) ≡ id_okay)
unfolding sync_unlink
sync_unlink-ask path l l' e =
    let (u, l1, e1, k1) = >>=-eq-done (ask id_ulnk path) _ l e in
    let (b, l2, e2, k2) = >>=-eq-done (get 8) _ l1 k1 in
    let (out1, input1) = ask-done id_ulnk path l l1 u e1 in
    let (taken, left, out2, file2, size) = get-done 8 l1 l2 b e2 in
    elim (Bool-cases (read_le32 b == id_okay)) [
      | inr bad ↦ absurd (fail-ne (rw bad at k2))
      | inl good ↦ (
        ap (λ x. (x.1).out) (sym (done-injective (rw good at k2))) ∙ out2 ∙ out1,
        ap read_le32 (ap (take 8) (sym input1) ∙ sym taken) ∙ (==_iff (read_le32 b) id_okay).0 good,
      )
    ]

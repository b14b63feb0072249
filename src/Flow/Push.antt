-- ===== src/Flow/Push.antt =====
-- The write loop of `local_socket_enqueue` of sockets.c: a packet goes out until the descriptor
-- would block or fails.
use pax_linux.Base.{
  ℕ, zero, suc, ◌+◌, sym, not, ◌&&◌, arith, Bool, true, false, List, [], ◌∷◌, ◌++◌, take, drop, ◌≡◌,
  refl, ap, ◌∙◌, take-append-drop, append_assoc,
}
use pax_linux.Io.{WriteEvent, took, interrupted, again, broken}

-- What went out, what is left, whether the write failed, and the outcomes not yet used.
pub record Pushed : Type 0 where
  pub written : List ℕ
  pub rest : List ℕ
  pub failed : Bool
  pub left : List WriteEvent

-- With no outcome left the descriptor would block. EINTR counts as a failure here.
unfoldable pub push_bytes : List WriteEvent → List ℕ → Pushed
push_bytes left [] = record { written = []; rest = []; failed = false; left = left }
push_bytes [] (b ∷ bs) = record { written = []; rest = b ∷ bs; failed = false; left = [] }
push_bytes (again ∷ left) (b ∷ bs) = record {
  written = [];
  rest = b ∷ bs;
  failed = false;
  left = left;
}
push_bytes (interrupted ∷ left) (b ∷ bs) = record {
  written = [];
  rest = b ∷ bs;
  failed = true;
  left = left;
}
push_bytes (broken ∷ left) (b ∷ bs) = record {
  written = [];
  rest = b ∷ bs;
  failed = true;
  left = left;
}
push_bytes (took k ∷ left) (b ∷ bs) =
    let r = push_bytes left (drop k bs) in record r { written = b ∷ take k bs ++ r.written }

-- Nothing is lost or reordered: what went out and what is left make up the packet.
pub push_bytes_whole :
    (events : List WriteEvent) (bs : List ℕ)
    → (push_bytes events bs).written ++ (push_bytes events bs).rest ≡ bs
unfolding push_bytes
push_bytes_whole events [] = refl
push_bytes_whole [] (b ∷ bs) = refl
push_bytes_whole (again ∷ left) (b ∷ bs) = refl
push_bytes_whole (interrupted ∷ left) (b ∷ bs) = refl
push_bytes_whole (broken ∷ left) (b ∷ bs) = refl
push_bytes_whole (took k ∷ left) (b ∷ bs) =
    let r = push_bytes left (drop k bs) in
    ap (λ t. b ∷ t)
      (append_assoc (take k bs) r.written r.rest
        ∙ ap (λ t. take k bs ++ t) (push_bytes_whole left (drop k bs))
        ∙ take-append-drop k bs)

-- What the descriptor accepts before a call of `write` returns -1, and whether that call fails in
-- another way than by blocking.
abbrev pub accepted : List WriteEvent → ℕ
accepted [] = 0
accepted (took k ∷ events) = suc k + accepted events
accepted (_ ∷ events) = 0

abbrev pub fails : List WriteEvent → Bool
fails [] = false
fails (took k ∷ events) = fails events
fails (again ∷ events) = false
fails (interrupted ∷ events) = true
fails (broken ∷ events) = true

abbrev pub is_empty : List ℕ → Bool
is_empty [] = true
is_empty (b ∷ bs) = false

take_nil : (n : ℕ) → ◌≡◌ {A = List ℕ} [] (take n [])
take_nil zero = refl
take_nil (suc n) = refl

drop_nil : (n : ℕ) → ◌≡◌ {A = List ℕ} [] (drop n [])
drop_nil zero = refl
drop_nil (suc n) = refl

take-plus : (k n : ℕ) (bs : List ℕ) → take (k + n) bs ≡ take k bs ++ take n (drop k bs)
take-plus zero n bs = ap (λ m. take m bs) (omega arith)
take-plus (suc k) n [] = sym (take_nil (suc k + n)) ∙ take_nil n
take-plus (suc k) n (b ∷ bs) =
    let e : suc k + n ≡ suc (k + n) = omega arith in
    ap (λ m. take m (b ∷ bs)) e ∙ ap (λ t. b ∷ t) (take-plus k n bs)

drop-plus : (k n : ℕ) (bs : List ℕ) → drop (k + n) bs ≡ drop n (drop k bs)
drop-plus zero n bs = ap (λ m. drop m bs) (omega arith)
drop-plus (suc k) n [] = sym (drop_nil (suc k + n)) ∙ drop_nil n
drop-plus (suc k) n (b ∷ bs) =
    let e : suc k + n ≡ suc (k + n) = omega arith in ap (λ m. drop m (b ∷ bs)) e ∙ drop-plus k n bs

-- What goes out is what the descriptor accepts, and the loop fails only at an outcome that is an
-- error other than EAGAIN, with bytes left.
pub record IsPushed (events : List WriteEvent) (bs : List ℕ) (r : Pushed) : Type 0 where
  pub written : r.written ≡ take (accepted events) bs
  pub rest : r.rest ≡ drop (accepted events) bs
  pub failed : r.failed ≡ (fails events && not (is_empty r.rest))

pub push_bytes-IsPushed :
    (events : List WriteEvent) (bs : List ℕ) → IsPushed events bs (push_bytes events bs)
unfolding push_bytes
push_bytes-IsPushed events [] = record {
  written = take_nil (accepted events);
  rest = drop_nil (accepted events);
  failed = ground arith;
}
push_bytes-IsPushed [] (b ∷ bs) = record { written = refl; rest = refl; failed = refl }
push_bytes-IsPushed (again ∷ left) (b ∷ bs) = record { written = refl; rest = refl; failed = refl }
push_bytes-IsPushed (interrupted ∷ left) (b ∷ bs) = record {
  written = refl;
  rest = refl;
  failed = refl;
}
push_bytes-IsPushed (broken ∷ left) (b ∷ bs) = record { written = refl; rest = refl; failed = refl }
push_bytes-IsPushed (took k ∷ left) (b ∷ bs) =
    let ih = push_bytes-IsPushed left (drop k bs) in
    let e : suc k + accepted left ≡ suc (k + accepted left) = omega arith in
    record {
      written =
          ap (λ t. b ∷ take k bs ++ t) ih.written
          ∙ ap (λ t. b ∷ t) (sym (take-plus k (accepted left) bs))
          ∙ ap (λ m. take m (b ∷ bs)) (sym e);
      rest = ih.rest ∙ sym (drop-plus k (accepted left) bs) ∙ ap (λ m. drop m (b ∷ bs)) (sym e);
      failed = ih.failed;
    }

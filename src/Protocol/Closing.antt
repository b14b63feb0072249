-- ===== src/Protocol/Closing.antt =====
-- CLSE packets (`A_CLSE` in `handle_packet` of adb.c).
use mathlib.Core.Bool.{false≢true}
use pax_linux.Base.{
  ℕ, ◌≡◌, ◌≢◌, ◌⊎◌, inl, inr, refl, sym, ◌∙◌, ap, true, false, not, ◌&&◌, Option, none, some, ◌==◌,
  if◌then◌else◌, arith, none-ne-some, some_inj,
}
use pax_linux.Wire.{Packet}
use pax_linux.Adb.{Transport, Adb, Socket, M, ◌>>=◌, pure, load}
use pax_linux.Adb.Steps.{
  Ensures, Ensures_read, Returns, Ensures_load, Ensures_load_transport, Ensures_map, Ensures_if,
}
use pax_linux.Sockets.{find_local_socket, close_socket}
use pax_linux.Sockets.Find.{Found, FoundAt, find_local_socket-Found}
use pax_linux.Sockets.Retire.{IsSound, Settled, close_socket-IsSound}
use pax_linux.Protocol.{Env, handle_clse, foreign_peer, is_other}

-- A CLSE packet that names the peer (arg0 is not 0) is carried out alike whichever online
-- transport it comes from: the transport of the peer is not looked at.
pub handle_clse_any_transport :
    (env : Env) (p : Packet) (t u : ℕ) (st : Adb) (rt ru : Transport)
    → st.transports t ≡ some rt
    → st.transports u ≡ some ru
    → rt.online ≡ true
    → ru.online ≡ true
    → p.arg0 ≢ 0
    → handle_clse env p t st ≡ handle_clse env p u st
unfolding handle_clse foreign_peer
handle_clse_any_transport env p t u st rt ru ht hu ot ou ne = ground arith

-- The socket has a peer on another transport than `t`.
pub record IsForeign (st : Adb) (s : Socket) (t : ℕ) : Type 0 where
  pub address : ℕ
  pub peer : Socket
  pub to : s.peer ≡ some address
  pub live : st.heap address ≡ some peer
  pub elsewhere : peer.transport ≢ some t

-- Why a CLSE packet is refused.
pub data IsRefused (st : Adb) (p : Packet) (t : ℕ) : Type 0 where
  not_found : Found p.arg1 p.arg0 st.local_list st none → IsRefused st p t
  foreign :
      (a : ℕ) (f : FoundAt p.arg1 p.arg0 st.local_list st a)
      → p.arg0 ≡ 0
      → IsForeign st f.socket t
      → IsRefused st p t

-- A CLSE packet that is carried out on the socket at `a`.
pub record IsClosing (st : Adb) (p : Packet) (t a : ℕ) (st' : Adb) : Type 0 where
  pub found : FoundAt p.arg1 p.arg0 st.local_list st a
  pub own : p.arg0 ≡ 0 → ¬ IsForeign st found.socket t
  pub settled : Settled a st st'

abbrev pub ClosesOrRefuses : Adb → Packet → ℕ → Adb → Type 0
ClosesOrRefuses st p t st' = ((st' ≡ st) × IsRefused st p t) ⊎ ((a : ℕ) × IsClosing st p t a st')

is_other-ne : (o : Option ℕ) (t : ℕ) → is_other o t ≡ true → o ≢ some t
unfolding is_other
is_other-ne o t h = ground arith

is_other-eq : (o : Option ℕ) (t : ℕ) → is_other o t ≡ false → o ≡ some t
unfolding is_other
is_other-eq o t h = ground arith

foreign_peer-IsForeign :
    (st : Adb) (s : Socket) (t : ℕ) (o : Option ℕ)
    → s.peer ≡ o
    → ((b : ℕ) → o ≡ some b → (q : Socket) × (st.heap b ≡ some q))
    → Returns
        (foreign_peer o t st)
        (λ f st'. (st' ≡ st) × ((f ≡ true → IsForeign st s t) × (f ≡ false → ¬ IsForeign st s t)))
unfolding foreign_peer
foreign_peer-IsForeign st s t none e live =
    (refl, (λ k. absurd (false≢true k), λ k f. none-ne-some (sym e ∙ f.to)))
foreign_peer-IsForeign st s t (some b) e live =
    let (q, hq) = live b refl in
    rw (hq, ◌>>=◌)
      (
        refl,
        (
          λ k. record {
            address = b;
            peer = q;
            to = e;
            live = hq;
            elsewhere = is_other-ne q.transport t k;
          },
          λ k f.
              let ab : b ≡ f.address = some_inj (sym e ∙ f.to) in
              let same : q ≡ f.peer = some_inj (sym hq ∙ ap st.heap ab ∙ f.live) in
              f.elsewhere
                (ap (λ (x : Socket). x.transport) (sym same) ∙ is_other-eq q.transport t k),
        ),
      )

-- After the search.
Found-handle_clse :
    (p : Packet) (t : ℕ) (st : Adb)
    → IsSound st
    → (o : Option ℕ) → Found p.arg1 p.arg0 st.local_list st o
    → Ensures
        (elim o as (λ x. M (Unit {0})) [
          | none ↦ pure tt
          | some a ↦ load a >>= λ s. foreign_peer s.peer t >>= λ foreign.
              if p.arg0 == 0 && foreign then pure tt else close_socket a
        ]
          st)
        (λ st'. IsSound st' × ClosesOrRefuses st p t st')
Found-handle_clse p t st v none f = (v, inl (refl, not_found f))
Found-handle_clse p t st v (some a) f = Ensures_load a f.socket _ st _ f.live (
    Ensures_read (foreign_peer f.socket.peer t) _ st
      (λ b. (b ≡ true → IsForeign st f.socket t) × (b ≡ false → ¬ IsForeign st f.socket t)) _
      (foreign_peer-IsForeign st f.socket t f.socket.peer refl
        (λ b to. let (q, hq, back, n) = v.peers a b f.socket f.live to in (q, hq)))
      λ b (yes_foreign, not_foreign).
        Ensures_if (p.arg0 == 0 && b) _ _ st _
          (λ k. (v, inl (refl, foreign a f (ground arith) (yes_foreign (ground arith)))))
          (λ k.
            Ensures_map (close_socket a st) (λ st'. IsSound st' × Settled a st st') _
              (close_socket-IsSound a f.socket st v f.live)
              λ st' (v', d). (
                v',
                inr (a, record { found = f; own = λ z. not_foreign (ground arith); settled = d }),
              )))

-- A CLSE packet on an online transport with a socket id faults nowhere and keeps the state sound.
-- It closes the socket that `find_local_socket` finds and only that pair, unless none is found, or
-- the packet names no peer (arg0 = 0) and the socket's peer is on another transport: then nothing
-- changes.
pub handle_clse-ClosesOrRefuses :
    (env : Env) (p : Packet) (t : ℕ) (st : Adb) (r : Transport)
    → IsSound st
    → st.transports t ≡ some r
    → r.online ≡ true
    → p.arg1 ≢ 0
    → Ensures (handle_clse env p t st) (λ st'. IsSound st' × ClosesOrRefuses st p t st')
unfolding handle_clse
handle_clse-ClosesOrRefuses env p t st r v ht on ne = Ensures_load_transport t r _ st _ ht (
    Ensures_if (not (r.online && not (p.arg1 == 0))) _ _ st _ (λ k. absurd (ground arith))
      (λ k.
        Ensures_read (find_local_socket p.arg1 p.arg0) _ st (Found p.arg1 p.arg0 st.local_list st) _
          (find_local_socket-Found p.arg1 p.arg0 st
            (λ a b s h to. let (q, hq, back, n) = v.peers a b s h to in (q, hq))
            (λ a o. let (s, hs, l, c) = v.listed a o in (s, hs)))
          (Found-handle_clse p t st v)))

-- ===== src/Protocol/Writing.antt =====
-- WRTE packets (`A_WRTE` in `handle_packet` of adb.c).
use mathlib.Core.Path.{subst}
use pax_linux.Base.{
  ℕ, ◌≡◌, ◌≢◌, ◌⊎◌, inl, inr, refl, sym, ◌∙◌, ap, true, not, ◌&&◌, List, [], ◌∷◌, ◌++◌, Option,
  none, some, take, ◌==◌, arith, some_inj,
}
use pax_linux.Wire.{Packet, send_packet}
use pax_linux.Adb.{
  Transport, Adb, Socket, M, ◌>>=◌, pure, load, sent, local_enqueue, remote_enqueue, smart_enqueue,
}
use pax_linux.Adb.Steps.{
  Returns, Ensures, Ensures_read, Ensures_bind, Ensures_map, Ensures_load_transport, Ensures_if,
}
use pax_linux.Sockets.{new_packet, a_okay, find_local_socket}
use pax_linux.Flow.{
  Enqueued, more, not_ready, peer_closed, local_socket_enqueue, remote_socket_enqueue,
}
use pax_linux.Sockets.Find.{Found, FoundAt, find_local_socket-Found}
use pax_linux.Sockets.Retire.{IsSound}
use pax_linux.Flow.Arrival.{Arrived, all_written, gone_out, local_socket_enqueue-Arrived}
use pax_linux.Sockets.Tweak.{same_sockets-IsSound}
use pax_linux.Protocol.{Env, handle_wrte, enqueue_socket, send_ready}

-- The bytes that a WRTE packet carries.
abbrev pub carried : Packet → List ℕ
carried p = take p.data_length p.payload

-- The OKAY for the sender of a WRTE packet, from the socket with the id `local`.
abbrev pub acknowledgement : ℕ → Packet → Packet
acknowledgement local p = send_packet (new_packet a_okay local p.arg0 [])

-- What a WRTE packet does to the socket `s` at `a` that it names.
pub data Delivered (st : Adb) (p : Packet) (t a : ℕ) (s : Socket) : Adb → Type 0 where
  acknowledged :
      (st1 : Adb)
      → Arrived a (carried p) s st more st1
      → Delivered st p t a s
          (record st1 { events = st1.events ++ sent t (acknowledgement s.id p) ∷ [] })
  held : (st' : Adb) → Arrived a (carried p) s st not_ready st' → Delivered st p t a s st'

abbrev pub DeliversOrIgnores : Adb → Packet → ℕ → Adb → Type 0
DeliversOrIgnores st p t st' =
    ((st' ≡ st) × Found p.arg1 p.arg0 st.local_list st none)
    ⊎ ((a : ℕ) × (f : FoundAt p.arg1 p.arg0 st.local_list st a) × Delivered st p t a f.socket st')

load_step :
    {A : Type 0} (a : ℕ) (s : Socket) (k : Socket → M A) (st : Adb)
    → st.heap a ≡ some s
    → (load a >>= k) st ≡ k s st
load_step a s k st h = rw (h, ◌>>=◌) refl

-- A socket of the list is a local one, so its own `enqueue` is called.
enqueue_local :
    (env : Env) (a : ℕ) (bs : List ℕ) (s : Socket) (st : Adb)
    → st.heap a ≡ some s
    → s.enqueue ≡ local_enqueue
    → enqueue_socket env a bs st ≡ local_socket_enqueue a bs st
unfolding enqueue_socket
enqueue_local env a bs s st h e =
    load_step a s _ st h
    ∙ ap
        (λ f.
          (elim f as (λ x. M Enqueued) [
            | local_enqueue ↦ local_socket_enqueue a bs
            | remote_enqueue ↦ remote_socket_enqueue a bs
            | smart_enqueue ↦ env.smart a bs
          ])
            st)
        e

acknowledge :
    (p : Packet) (t a : ℕ) (s : Socket) (st st1 : Adb)
    → IsSound st
    → st.heap a ≡ some s
    → (res : Enqueued) → IsSound st1
    → Arrived a (carried p) s st res st1
    → Ensures
        (elim res as (λ x. M (Unit {0})) [
          | more ↦ load a >>= λ u. send_ready u.id p.arg0 t
          | _ ↦ pure tt
        ]
          st1)
        (λ st'. IsSound st' × Delivered st p t a s st')
unfolding send_ready
acknowledge p t a s st st1 v h more v1 (all_written nil e left) =
    rw (h, ◌>>=◌)
      (
        same_sockets-IsSound _ _ v1 refl refl refl refl,
        acknowledged (gone_out s.fd (carried p) left st) (all_written nil e left),
      )
acknowledge p t a s st st1 v h not_ready v1 k = (v1, held st1 k)
acknowledge p t a s st st1 v h peer_closed v1 k = elim k [ ]

Found-handle_wrte :
    (env : Env) (p : Packet) (t : ℕ) (st : Adb)
    → IsSound st
    → (o : Option ℕ) → Found p.arg1 p.arg0 st.local_list st o
    → Ensures
        (elim o as (λ x. M (Unit {0})) [
          | none ↦ pure tt
          | some a ↦ enqueue_socket env a (take p.data_length p.payload) >>= λ result.
              elim result as (λ x. M (Unit {0})) [
                | more ↦ load a >>= λ u. send_ready u.id p.arg0 t
                | _ ↦ pure tt
              ]
        ]
          st)
        (λ st'. IsSound st' × DeliversOrIgnores st p t st')
Found-handle_wrte env p t st v none f = (v, inl (refl, f))
Found-handle_wrte env p t st v (some a) f =
    let (s, hs, lk, loc) = v.listed a f.listed in
    let same : s ≡ f.socket = some_inj (sym hs ∙ f.live) in
    let enq : f.socket.enqueue ≡ local_enqueue =
      ap (λ (x : Socket). x.enqueue) (sym same) ∙ loc.enqueue in
    Ensures_bind (enqueue_socket env a (carried p)) _ st
      (λ res st'. IsSound st' × Arrived a (carried p) f.socket st res st') _
      (subst (λ x. Returns x (λ res st'. IsSound st' × Arrived a (carried p) f.socket st res st'))
        (sym (enqueue_local env a (carried p) f.socket st f.live enq))
        (local_socket_enqueue-Arrived a (carried p) f.socket st v f.live))
      λ res st1 (v1, k).
        Ensures_map _ (λ st'. IsSound st' × Delivered st p t a f.socket st') _
          (acknowledge p t a f.socket st st1 v f.live res v1 k) λ st' (v', d). (v', inr (a, f, d))

-- A WRTE packet on an online transport with both ids faults nowhere and keeps the state sound. If
-- `find_local_socket` finds its socket, the packet's bytes are written to the descriptor or
-- queued in order (or the descriptor fails and the socket is closed with its peer), and an OKAY
-- with the socket's id goes back exactly when all of them were written; else nothing changes.
pub handle_wrte-DeliversOrIgnores :
    (env : Env) (p : Packet) (t : ℕ) (st : Adb) (r : Transport)
    → IsSound st
    → st.transports t ≡ some r
    → r.online ≡ true
    → p.arg0 ≢ 0
    → p.arg1 ≢ 0
    → Ensures (handle_wrte env p t st) (λ st'. IsSound st' × DeliversOrIgnores st p t st')
unfolding handle_wrte
handle_wrte-DeliversOrIgnores env p t st r v ht online ne0 ne1 =
    Ensures_load_transport t r _ st _ ht (
      Ensures_if (not (r.online && not (p.arg0 == 0) && not (p.arg1 == 0))) _ _ st _
        (λ k. absurd (ground arith))
        (λ k.
          Ensures_read (find_local_socket p.arg1 p.arg0) _ st (Found p.arg1 p.arg0 st.local_list st)
            _
            (find_local_socket-Found p.arg1 p.arg0 st
              (λ a b s h to. let (q, hq, back, n) = v.peers a b s h to in (q, hq))
              (λ a o. let (s, hs, l, c) = v.listed a o in (s, hs)))
            (Found-handle_wrte env p t st v)))

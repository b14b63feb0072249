-- ===== src/Protocol/Resuming.antt =====
-- OKAY packets (`A_OKAY` in `handle_packet` of adb.c).
use mathlib.Core.Path.{subst}
use pax_linux.Base.{
  ℕ, ◌≡◌, ◌≢◌, refl, sym, ◌∙◌, ap, true, not, ◌&&◌, Option, none, some, ◌==◌, ==_iff, if◌then◌else◌,
  arith, some_inj,
}
use pax_linux.Wire.{Packet}
use pax_linux.Adb.{Transport, Adb, Socket, M, ◌>>=◌, ◌>>◌, pure, load, store}
use pax_linux.Adb.Steps.{
  Ensures, Ensures_read, Ensures_map, Ensures_load, Ensures_load_transport, Ensures_if,
}
use pax_linux.Sockets.{find_local_socket, create_remote_socket}
use pax_linux.Flow.{ready_socket}
use pax_linux.Sockets.Find.{Found, FoundAt, find_local_socket-Found}
use pax_linux.Sockets.Retire.{IsSound}
use pax_linux.Sockets.Retire.Alone.{IsLocal}
use pax_linux.Sockets.Tweak.{Tweaked-IsSound}
use pax_linux.Protocol.{Env, handle_okay}
use pax_linux.Protocol.Joining.{Joined-IsSound}
use pax_linux.Protocol.Readying.{
  readied, Readied, Connected, ready_socket-Readied, connect-Connected, Readied-Tweaked, below_next,
  Connected-Joined,
}

-- What an OKAY packet does: nothing, or it connects or resumes the socket that it names.
pub data Okayed (st : Adb) (p : Packet) (t : ℕ) (st' : Adb) : Type 0 where
  not_found : st' ≡ st → Found p.arg1 0 st.local_list st none → Okayed st p t st'
  other_peer :
      st' ≡ st
      → (a b : ℕ) (f : FoundAt p.arg1 0 st.local_list st a) (q : Socket) → f.socket.peer ≡ some b
      → st.heap b ≡ some q
      → q.id ≢ p.arg0
      → Okayed st p t st'
  connected :
      (a : ℕ) (f : FoundAt p.arg1 0 st.local_list st a)
      → f.socket.peer ≡ none
      → Connected a f.socket p.arg0 t st st'
      → Okayed st p t st'
  resumed :
      (a b : ℕ) (f : FoundAt p.arg1 0 st.local_list st a) (q : Socket)
      → f.socket.peer ≡ some b
      → st.heap b ≡ some q
      → q.id ≡ p.arg0
      → Readied a f.socket st st'
      → Okayed st p t st'

-- The socket that the packet names, by its peer.
module _ (p : Packet) (t : ℕ) (st : Adb) (r : Transport) (v : IsSound st)
    (ht : st.transports t ≡ some r) (nz : p.arg0 ≢ 0) (a : ℕ)
    (f : FoundAt p.arg1 0 st.local_list st a) where
  socket-IsLocal : (f.socket.linked ≡ true) × IsLocal f.socket
  socket-IsLocal =
      let (s, hs, lk, loc) = v.listed a f.listed in
      let same : s ≡ f.socket = some_inj (sym hs ∙ f.live) in
      (ap (λ (x : Socket). x.linked) (sym same) ∙ lk, subst IsLocal same loc)

  connects :
      f.socket.peer ≡ none
      → Ensures
          ((create_remote_socket p.arg0 t >>= λ b.
              store a (record f.socket { peer = some b })
              >> (load b >>= λ q. store b (record q { peer = some a }) >> ready_socket a))
            st)
          (λ st'. IsSound st' × Okayed st p t st')
  connects alone =
      Ensures_map _ (Connected a f.socket p.arg0 t st) _
        (connect-Connected a f.socket p.arg0 t st r f.live
          (omega (arith, below_next a f.socket st v f.live)) ht nz socket-IsLocal.1.ready)
        λ st' k. (
          Joined-IsSound a st.next_address _ _ st st' v (
              Connected-Joined a f.socket p.arg0 t st st' r v f.live alone socket-IsLocal.0
                socket-IsLocal.1 ht k),
          connected a f alone k,
        )

  resumes :
      (b : ℕ)
      → f.socket.peer ≡ some b
      → Ensures
          ((load b >>= λ q. if q.id == p.arg0 then ready_socket a else pure tt) st)
          (λ st'. IsSound st' × Okayed st p t st')
  resumes b to =
      let (q, hq, back, ne) = v.peers a b f.socket f.live to in
      Ensures_load b q _ st _ hq (
        Ensures_if (q.id == p.arg0) (ready_socket a) _ st _
          (λ k.
            Ensures_map _ (Readied a f.socket st) _
              (ready_socket-Readied a f.socket st f.live socket-IsLocal.1.ready)
              λ st' d. (
                Tweaked-IsSound a f.socket (readied f.socket) st st' v
                    (Readied-Tweaked a f.socket st st' f.live d),
                resumed a b f q to hq ((==_iff q.id p.arg0).0 k) d,
              ))
          (λ k. (v, other_peer refl a b f q to hq (ground arith))))

  by_peer :
      (o : Option ℕ)
      → f.socket.peer ≡ o
      → Ensures
          (elim o as (λ x. M (Unit {0})) [
            | none ↦ create_remote_socket p.arg0 t >>= λ b.
                store a (record f.socket { peer = some b })
                >> (load b >>= λ q. store b (record q { peer = some a }) >> ready_socket a)
            | some b ↦ load b >>= λ q. if q.id == p.arg0 then ready_socket a else pure tt
          ]
            st)
          (λ st'. IsSound st' × Okayed st p t st')
  by_peer none alone = connects alone
  by_peer (some b) to = resumes b to

-- An OKAY packet on an online transport with both ids faults nowhere and keeps the state sound.
-- For a local socket without a peer it makes a remote socket with the sender's id on this
-- transport, each the other's peer; for one whose peer has the sender's id it lets the socket read
-- on, after the go-ahead to a client that waits for it; else nothing changes.
pub handle_okay-Okayed :
    (env : Env) (p : Packet) (t : ℕ) (st : Adb) (r : Transport)
    → IsSound st
    → st.transports t ≡ some r
    → r.online ≡ true
    → p.arg0 ≢ 0
    → p.arg1 ≢ 0
    → Ensures (handle_okay env p t st) (λ st'. IsSound st' × Okayed st p t st')
unfolding handle_okay
handle_okay-Okayed env p t st r v ht online ne0 ne1 = Ensures_load_transport t r _ st _ ht (
    Ensures_if (not (r.online && not (p.arg0 == 0) && not (p.arg1 == 0))) _ _ st _
      (λ k. absurd (ground arith))
      (λ k.
        Ensures_read (find_local_socket p.arg1 0) _ st (Found p.arg1 0 st.local_list st) _
          (find_local_socket-Found p.arg1 0 st
            (λ a b s h to. let (q, hq, back, n) = v.peers a b s h to in (q, hq))
            (λ a o. let (s, hs, l, c) = v.listed a o in (s, hs)))
          λ o f. after_search o f))
  where
    after_search :
        (o : Option ℕ)
        → Found p.arg1 0 st.local_list st o
        → Ensures
            (elim o as (λ x. M (Unit {0})) [
              | none ↦ pure tt
              | some a ↦ load a >>= λ s. elim s.peer as (λ x. M (Unit {0})) [
                | none ↦ create_remote_socket p.arg0 t >>= λ b.
                    store a (record s { peer = some b })
                    >> (load b >>= λ q. store b (record q { peer = some a }) >> ready_socket a)
                | some b ↦ load b >>= λ q. if q.id == p.arg0 then ready_socket a else pure tt
              ]
            ]
              st)
            (λ st'. IsSound st' × Okayed st p t st')
    after_search none f = (v, not_found refl f)
    after_search (some a) f =
        Ensures_load a f.socket _ st _ f.live (by_peer p t st r v ht ne0 a f f.socket.peer refl)

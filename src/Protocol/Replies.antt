-- ===== src/Protocol/Replies.antt =====
-- What `handle_packet` does with packets of a transport that is offline.
use pax_linux.Base.{ℕ, ◌≡◌, ◌⊎◌, false, some, arith}
use pax_linux.Wire.{Packet}
use pax_linux.Adb.{Transport, Adb}
use pax_linux.Sockets.{a_okay, a_clse, a_wrte}
use pax_linux.Protocol.{Env, a_open, handle_packet}

-- While its transport is offline, an OPEN, OKAY, CLSE or WRTE packet of a device has no effect.
pub handle_packet-offline :
    (env : Env) (p : Packet) (t : ℕ) (st : Adb) (r : Transport)
    → st.transports t ≡ some r
    → r.online ≡ false
    → (p.command ≡ a_open) ⊎ (p.command ≡ a_okay) ⊎ (p.command ≡ a_clse) ⊎ (p.command ≡ a_wrte)
    → handle_packet env p t st ≡ some (tt, st)
unfolding handle_packet
handle_packet-offline env p t st r h off c = ground arith

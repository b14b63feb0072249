-- ===== src/Listeners/Forwarding/Parsing.antt =====
-- The forwarding requests that commandline.c writes, as `handle_forward_request` of adb.c reads them.
use pax_linux.Base.{
  ℕ, ◌≡◌, refl, ◌∙◌, Bool, true, false, ◌||◌, List, [], ◌∷◌, ◌++◌, Option, none, some, arith, ◌==◌,
  if◌then◌else◌, bytes, has_prefix,
}
use pax_linux.Sockets.Lists.{on, is_nil}
use pax_linux.Listeners.{
  Table, Status, ok, is_special, install_listener, remove_all_listeners, find_named, ◌>>=◌,
}
use pax_linux.Listeners.Refinement.{Request, binds, unbinds, unbinds_all, step}
use pax_linux.Listeners.Forwarding.{
  got, handled, handle_forward_request, bind_reply, unbind_reply, cut_at, fail_message,
  create_forward, kill_forward, with_transport, Endpoint, local_name_to_fd, local_endpoint,
}

-- A request in the form that the server documents: `forward:[norebind:]<local>;<remote>` and
-- `killforward:<local>`.
abbrev pub service_of : Request → List ℕ
service_of (binds local_name remote x true) =
    bytes "forward:" ++ bytes "norebind:" ++ local_name ++ 59 ∷ remote
service_of (binds local_name remote x false) = bytes "forward:" ++ local_name ++ 59 ∷ remote
service_of (unbinds local_name x) = bytes "killforward:" ++ local_name
service_of unbinds_all = bytes "killforward-all"

-- The names are not empty, the local name has no semicolon, and the remote name no asterisk first.
abbrev pub IsWellFormed : ℕ → Request → Type 0
IsWellFormed x (binds local_name remote y no_rebind) =
    (y ≡ x)
    × (on 59 local_name ≡ false)
    × (is_nil local_name ≡ false)
    × (is_nil remote ≡ false)
    × (is_special remote ≡ false)
    × (no_rebind ≡ false → has_prefix (bytes "norebind:") (local_name ++ 59 ∷ remote) ≡ false)
IsWellFormed x (unbinds local_name y) = (y ≡ some x) × (is_nil local_name ≡ false)
IsWellFormed x unbinds_all = Unit

abbrev pub reply_of : Request → Status → List ℕ
reply_of (binds _ _ _ _) s = bind_reply s
reply_of (unbinds _ _) s = unbind_reply s
reply_of unbinds_all s = bytes "OKAYOKAY"

cut_first : (c : ℕ) (a b : List ℕ) → on c a ≡ false → cut_at c (a ++ c ∷ b) ≡ some (a, b)
unfolding cut_at
cut_first c [] b h = ground arith
cut_first c (x ∷ a) b h = rw (left_off (x == c) (on c a) h, cut_first c a b (ground arith)) refl
  where
    left_off : (p q : Bool) → (p || q) ≡ false → p ≡ false
    left_off p q e = ground arith

answered :
    (m : Option Table)
    → (m >>= λ t. some (handled (bytes "OKAYOKAY") t)) ≡ (
        m >>= (λ t. some (ok, t)) >>= λ (status, t). some (handled (reply_of unbinds_all status) t))
answered none = refl
answered (some t) = refl

module _ (bind : List ℕ → Option ℕ) (serial : ℕ → List ℕ) (t : Table) (x : ℕ) where
  created :
      (local_name remote : List ℕ) (no_rebind : Bool)
      → on 59 local_name ≡ false
      → is_nil local_name ≡ false
      → is_nil remote ≡ false
      → is_special remote ≡ false
      → create_forward bind (got x) serial t no_rebind (local_name ++ 59 ∷ remote) ≡ (
          install_listener bind t local_name remote (some x) no_rebind >>= λ (status, t1).
          some (handled (bind_reply status) t1))
  unfolding create_forward with_transport
  created local_name remote no_rebind h nl nr ns =
      rw (create_forward, cut_first 59 local_name remote h, nl, nr, ns) refl

  -- A well-formed request for the transport that is acquired is carried out as the operation that
  -- it names, and answered with its status: `handle_forward_request` reads back the names of
  -- `forward:<local>;<remote>`, `forward:norebind:<local>;<remote>` and `killforward:<local>`.
  pub handle_forward_request-service_of :
      (q : Request)
      → IsWellFormed x q
      → handle_forward_request bind (got x) serial t (service_of q)
        ≡ (step bind q t >>= λ (status, t1). some (handled (reply_of q status) t1))
  unfolding handle_forward_request step kill_forward with_transport
  handle_forward_request-service_of (binds l r y true) (e, h, nl, nr, ns, p) =
      rw e (created l r true h nl nr ns)
  handle_forward_request-service_of (binds l r y false) (e, h, nl, nr, ns, p) =
      rw (e, p refl) (created l r false h nl nr ns)
  handle_forward_request-service_of (unbinds l y) (e, nl) = rw (e, kill_forward, nl) refl
  handle_forward_request-service_of unbinds_all h = answered (remove_all_listeners t)

-- What commandline.c sends for `forward <local> <remote>`, without the prefix of the host.
pub forward_service : Bool → List ℕ → List ℕ → List ℕ
forward_service no_rebind local_name remote =
    (if no_rebind then bytes "forward:norebind:" else bytes "forward")
    ++ 58 ∷ local_name
    ++ 59 ∷ remote

no_colon_name :
    (open_socket : Endpoint → Option ℕ) (listen_all : Bool) (name : List ℕ)
    → local_name_to_fd open_socket listen_all (58 ∷ name) ≡ none
unfolding local_name_to_fd local_endpoint
no_colon_name open_socket listen_all name = refl

-- `adb forward --no-rebind` never binds anything: its service has a colon too many, so that the
-- server looks for a local name that begins with a colon. With a local name that has no semicolon,
-- a remote name that is not empty and does not begin with an asterisk, and no listener with the
-- local name behind a colon, the answer is `cannot bind to socket` and nothing changes.
pub no_rebind-cannot_bind :
    (open_socket : Endpoint → Option ℕ) (listen_all : Bool) (serial : ℕ → List ℕ) (t : Table)
    (x : ℕ) (local_name remote : List ℕ)
    → on 59 local_name ≡ false
    → is_nil remote ≡ false
    → is_special remote ≡ false
    → find_named (58 ∷ local_name) t.listeners ≡ none
    → handle_forward_request
        (local_name_to_fd open_socket listen_all)
        (got x)
        serial
        t
        (forward_service true local_name remote)
      ≡ some (handled (fail_message (bytes "cannot bind to socket")) t)
unfolding handle_forward_request forward_service install_listener
no_rebind-cannot_bind open_socket listen_all serial t x local_name remote h nr ns free =
    created (local_name_to_fd open_socket listen_all) serial t x (58 ∷ local_name) remote true
      (ground (arith, h)) refl nr ns
    ∙ rw (install_listener, free, no_colon_name open_socket listen_all local_name) refl

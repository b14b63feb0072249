-- ===== src/Tests/Forwards.antt =====
-- The forward listeners on a concrete list.
use pax_linux.Base.{
  ℕ, ◌≡◌, refl, true, false, List, [], ◌∷◌, Option, none, some, arith, bytes, ◌==◌, if◌then◌else◌,
}
use pax_linux.Listeners.{Listener, Table, find_named, install_listener, remove_listener, ◌>>=◌}
use pax_linux.Listeners.Refinement.{binds, step, spec, bound, IsTidy, Refines}
use pax_linux.Listeners.Refinement.Steps.{step-Refines}
use pax_linux.Listeners.Forwarding.{
  got, handled, handle_forward_request, fail_message, bind_reply, local_name_to_fd, local_endpoint,
  loopback,
}
use pax_linux.Listeners.Forwarding.Parsing.{
  forward_service, handle_forward_request-service_of, no_rebind-cannot_bind,
}

abbrev smart : Listener
smart = record {
  address = 0;
  fd = 3;
  local_name = bytes "tcp:5037";
  connect_to = bytes "*smartsocket*";
  transport = none;
}

abbrev forwarded : Listener
forwarded = record {
  address = 1;
  fd = 4;
  local_name = bytes "tcp:8000";
  connect_to = bytes "tcp:80";
  transport = some 7;
}

abbrev table : Table
table = record {
  listeners = smart ∷ forwarded ∷ [];
  hooks = λ x. if x == 7 then 1 ∷ [] else [];
  closed = [];
  next_address = 2;
}

table-IsTidy : IsTidy table
table-IsTidy = record {
  apart = (refl, refl, (λ h. absurd (cc h)), (refl, refl, (λ h. (7, refl)), tt));
  fresh = λ a le. ground arith;
}

-- Every name can be bound.
abbrev bind : List ℕ → Option ℕ
bind name = some 5

step-Refines_example :
    Refines
      (spec bind (binds (bytes "tcp:8000") (bytes "tcp:81") 9 false) (bound table))
      (step bind (binds (bytes "tcp:8000") (bytes "tcp:81") 9 false) table)
step-Refines_example =
    step-Refines bind (binds (bytes "tcp:8000") (bytes "tcp:81") 9 false) table table-IsTidy

handle_forward_request-service_of_example :
    handle_forward_request bind
      (got 9)
      (λ x. bytes "pax")
      table
      (bytes "forward:norebind:tcp:8000;tcp:81")
    ≡ (install_listener bind table (bytes "tcp:8000") (bytes "tcp:81") (some 9) true
        >>= λ (status, t1). some (handled (bind_reply status) t1))
unfolding step
handle_forward_request-service_of_example =
    handle_forward_request-service_of bind (λ x. bytes "pax") table 9
      (binds (bytes "tcp:8000") (bytes "tcp:81") 9 true)
      (refl, refl, refl, refl, refl, λ h. absurd (cc h))

no_rebind-cannot_bind_example :
    handle_forward_request
      (local_name_to_fd (λ e. some 5) false)
      (got 9)
      (λ x. bytes "pax")
      table
      (forward_service true (bytes "tcp:9000") (bytes "tcp:81"))
    ≡ some (handled (fail_message (bytes "cannot bind to socket")) table)
unfolding find_named
no_rebind-cannot_bind_example =
    no_rebind-cannot_bind (λ e. some 5) false (λ x. bytes "pax") table 9 (bytes "tcp:9000")
      (bytes "tcp:81") refl refl refl refl

-- The name of the smart socket can be removed like any other, although removing all keeps it.
smart_socket_removed :
    (remove_listener table (bytes "tcp:5037") (some 9) >>= λ (s, t1). some t1.listeners)
    ≡ some (forwarded ∷ [])
unfolding remove_listener
smart_socket_removed = refl

port_of_name : local_endpoint false (bytes "tcp: 08x") ≡ some (loopback 8)
unfolding local_endpoint
port_of_name = refl

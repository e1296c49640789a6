-- ===== src/Tests/Requesting.antt =====
-- The theorem on the client of src/client.cpp at concrete inputs.
use async_event_loop.Base.{true, ℤ, pos, failed, ◌≡◌, ◌⊎◌, refl, false, [], ◌∷◌, List, Bytes}
use async_event_loop.Outcome.{ok}
use async_event_loop.Kernel.{Kernel, AddrInfo, SendLaws}
use async_event_loop.Kernel.Flags.{af_inet, af_inet6}
use async_event_loop.Application.{bytes}
use async_event_loop.Standalone.{returned, exited}
use async_event_loop.Client.{request, client_main}
use async_event_loop.Client.Sending.{Took, client_sends}
use async_event_loop.Tests.Simulation.{Sim, sim, start}
use async_event_loop.Tests.Simulation.Laws.{sim_sending}

-- A system on which connections succeed.
abbrev online : Kernel
online = record sim { connect = λ d a s. (pos 0, s) }

online_sending : SendLaws online
online_sending = record {
  send_takes = sim_sending.send_takes;
  send_fails = sim_sending.send_fails;
  ctl_sends_nothing = sim_sending.ctl_sends_nothing;
  recv_sends_nothing = sim_sending.recv_sends_nothing;
}

abbrev host : ℤ → AddrInfo
host family = record { ai_family = family; ai_socktype = pos 1; ai_protocol = pos 6; ai_addr = [] }

-- Its `send` takes five bytes of the request.
abbrev two_hosts : Sim
two_hosts = record start { hosts = host af_inet6 ∷ host af_inet ∷ []; limits = 5 ∷ [] }

abbrev called : List Bytes
called = [] ∷ bytes "localhost" ∷ bytes "80" ∷ []

-- Behind the call of `socket`.
abbrev socketed : Sim
socketed = (online.socket af_inet (pos 1) (pos 6) two_hosts).1

client_sends_example :
    ((client_main online called two_hosts ≡ ok (exited 1, socketed)) × (failed (pos 5) ≡ true))
    ⊎ ((client_main online called two_hosts ≡ ok (exited 1, socketed))
        × (failed (pos 5) ≡ false)
        × (failed (pos 0) ≡ true))
    ⊎ ((client_main online called two_hosts
          ≡ ok (returned (pos 0), (online.send (pos 5) request socketed).1))
        × (failed (pos 5) ≡ false)
        × (failed (pos 0) ≡ false)
        × Took online (pos 5) socketed (online.send (pos 5) request socketed))
client_sends_example =
    client_sends online online_sending [] (bytes "localhost") (bytes "80") [] two_hosts
      (host af_inet6 ∷ []) [] (host af_inet) refl ((λ e. cc), tt) refl

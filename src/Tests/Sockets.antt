-- ===== src/Tests/Sockets.antt =====
-- The theorems on the socket and epoll wrappers at concrete inputs.
use async_event_loop.Base.{
  ℕ, ℤ, pos, minus_one, ◌≡◌, ◌≢◌, ◌⊎◌, inl, refl, true, false, none, some, List, [], ◌∷◌,
}
use async_event_loop.Kernel.{AddrInfo}
use async_event_loop.Kernel.Flags.{af_inet, af_inet6}
use async_event_loop.SocketUtilities.{
  select_endpoint, get_endpoint, get_socket, bind_and_listen, accept_connection,
}
use async_event_loop.SocketUtilities.Endpoint.{Chooses, get_endpoint-Chooses}
use async_event_loop.SocketUtilities.Sockets.{
  get_socket_ready, get_socket_leaks, bind_and_listen_result, accept_connection_ready,
  accept_connection_stale,
}
use async_event_loop.Tests.Simulation.{Sim, sim, start}
use async_event_loop.Tests.Simulation.Laws.{sim_socket}

abbrev host : ℤ → ℕ → AddrInfo
host family n = record {
  ai_family = family;
  ai_socktype = pos 1;
  ai_protocol = pos 6;
  ai_addr = n ∷ [];
}

abbrev with_hosts : Sim
with_hosts = record start { hosts = host af_inet6 1 ∷ host af_inet 2 ∷ host af_inet 3 ∷ [] }

abbrev host_list : List AddrInfo
host_list = host af_inet6 1 ∷ host af_inet 2 ∷ host af_inet 3 ∷ []

get_endpoint-Chooses_example :
    ((pos 0 ≡ pos 0) × Chooses af_inet host_list (get_endpoint sim af_inet true [] [] with_hosts).0)
    ⊎ ((pos 0 ≢ pos 0) × ((get_endpoint sim af_inet true [] [] with_hosts).0 ≡ none))
get_endpoint-Chooses_example = get_endpoint-Chooses sim af_inet true [] [] with_hosts

get_endpoint_last : (get_endpoint sim af_inet true [] [] with_hosts).0 ≡ some (host af_inet 3)
unfolding get_endpoint select_endpoint
get_endpoint_last = refl

get_socket_ready_example :
    ((get_socket sim (host af_inet 3) true false start).1.opened (pos 5) ≡ true)
    × ((true ≡ false)
        ⊎ ((get_socket sim (host af_inet 3) true false start).1.reusable (pos 5) ≡ true))
    × ((false ≡ true)
        ⊎ ((get_socket sim (host af_inet 3) true false start).1.nonblocking (pos 5) ≡ true))
unfolding get_socket
get_socket_ready_example = get_socket_ready sim sim_socket (host af_inet 3) true false start refl

abbrev strict : Sim
strict = record start { refuses_options = true }

get_socket_leaks_example :
    (get_socket sim (host af_inet 3) true false strict).1.opened (pos 5) ≡ true
unfolding get_socket
get_socket_leaks_example =
    get_socket_leaks sim sim_socket (host af_inet 3) true false strict refl refl

bind_and_listen_result_example :
    ((bind_and_listen sim (pos 5) (host af_inet 3) 10 start).0 ≡ minus_one)
    ⊎ (((bind_and_listen sim (pos 5) (host af_inet 3) 10 start).0 ≡ pos 0)
        × ((bind_and_listen sim (pos 5) (host af_inet 3) 10 start).1.bound (pos 5) ≡ true)
        × ((bind_and_listen sim (pos 5) (host af_inet 3) 10 start).1.listening (pos 5) ≡ true))
bind_and_listen_result_example =
    bind_and_listen_result sim sim_socket (pos 5) (host af_inet 3) 10 start

abbrev one_peer : ℤ → Sim
one_peer family = record start { peers = family ∷ [] }

accept_connection_ready_example :
    ((accept_connection sim (pos 3) (one_peer af_inet)).0 ≡ pos 5)
    × ((accept_connection sim (pos 3) (one_peer af_inet)).1.opened
          (accept_connection sim (pos 3) (one_peer af_inet)).0
        ≡ true)
    × ((accept_connection sim (pos 3) (one_peer af_inet)).1.nonblocking
          (accept_connection sim (pos 3) (one_peer af_inet)).0
        ≡ true)
unfolding accept_connection
accept_connection_ready_example =
    accept_connection_ready sim sim_socket (pos 3) (one_peer af_inet) (inl refl) refl

accept_connection_stale_example :
    (accept_connection sim (pos 3) (one_peer (pos 1))).1.opened
      (accept_connection sim (pos 3) (one_peer (pos 1))).0
    ≡ false
unfolding accept_connection
accept_connection_stale_example =
    accept_connection_stale sim sim_socket (pos 3) (one_peer (pos 1)) (λ e. cc) (λ e. cc) refl refl

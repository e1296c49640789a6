-- ===== src/Tests/OneFile.antt =====
-- The theorems on the server of src/temp.cpp at concrete inputs. Its requests are the bytes that have
-- been appended.
use async_event_loop.Base.{
  int_eq, ℤ, pos, ◌≡◌, ◌⊎◌, refl, false, none, some, [], ◌∷◌, ◌++◌, Bytes, arith,
}
use async_event_loop.UnorderedMap.{find}
use async_event_loop.Outcome.{ok, fault, use_after_free}
use async_event_loop.Heap.{object, put}
use async_event_loop.Kernel.{AddrInfo, Event, received}
use async_event_loop.Kernel.Flags.{epollin, epollhup, eagain, af_inet, af_inet6}
use async_event_loop.Standalone.{
  Requests, exited, Standalone, lookup_fd, handle_new_connection, delete_object, disconnect,
  handle_already_connected, event_loop,
}
use async_event_loop.Standalone.Receiving.{
  no_more, piece, appended, with_connection, received-Arrives,
}
use async_event_loop.Standalone.Reuse.{reused_descriptor_use_after_free}
use async_event_loop.Standalone.Startup.{main, idle}
use async_event_loop.Standalone.Startup.Choice.{Listens, Refuses, main_takes_first_ipv4}
use async_event_loop.Tests.Simulation.{Sim, sim, start}
use async_event_loop.Tests.Simulation.Laws.{sim_epoll}

abbrev pub collect : Requests sim
collect = record {
  HttpConnection = Bytes;
  fresh = λ d. [];
  append_to_buffer = λ bs c. c ++ bs;
  request_complete = λ c. false;
  destroyed = λ c s. s;
}

-- A client on the descriptor 6, which has sent one byte.
abbrev one_client : Sim → Standalone sim collect
one_client s = record {
  kernel = s;
  fd_map = (pos 6, some 0) ∷ [];
  connections = some (65 ∷ []) ∷ [];
}

abbrev readable : Event
readable = record { events = epollin; fd = pos 6 }

abbrev incoming : Sim
incoming = record start { inbox = received 66 [] ∷ received 67 (68 ∷ []) ∷ [] }

received-Arrives_example :
    handle_already_connected sim collect 3 readable (one_client incoming)
    ≡ ok (
        with_connection sim collect 0
          (appended sim collect ((66 ∷ []) ∷ (67 ∷ 68 ∷ []) ∷ []) (65 ∷ []))
          start
          (one_client incoming))
unfolding find object
received-Arrives_example =
    received-Arrives sim collect readable 0 (65 ∷ []) (one_client incoming) refl refl refl refl
      (piece 66 [] refl (piece 67 (68 ∷ []) refl (no_more eagain refl))) 3 (omega arith)

-- The client of the descriptor 6 hangs up, and the next client gets that descriptor.
abbrev before : Standalone sim collect
before = one_client (record start { next = 6; peers = af_inet ∷ []; inbox = received 66 [] ∷ [] })

abbrev hangup : Event
hangup = record { events = epollhup; fd = pos 6 }

abbrev hung_up : Standalone sim collect
hung_up = record before { kernel = (sim.close (pos 6) before.kernel).1; connections = none ∷ [] }

abbrev next_client : Standalone sim collect
next_client = (handle_new_connection sim collect (pos 3) (pos 4) hung_up).1

reused_descriptor_use_after_free_example :
    (object 1 next_client.connections ≡ some [])
    × (handle_already_connected sim collect 1 readable next_client ≡ fault use_after_free)
unfolding find object put handle_already_connected lookup_fd disconnect delete_object
    handle_new_connection
reused_descriptor_use_after_free_example =
    reused_descriptor_use_after_free sim collect 0 0 (pos 3) (pos 4) hangup readable 0 66 []
      (65 ∷ []) before hung_up next_client refl refl refl refl refl refl refl refl refl refl

abbrev pub host : ℤ → AddrInfo
host family = record { ai_family = family; ai_socktype = pos 1; ai_protocol = pos 6; ai_addr = [] }

abbrev pub both : Sim
both = record start { hosts = host af_inet6 ∷ host af_inet ∷ [] }

main_takes_first_ipv4_example :
    ((s' : Sim) × Refuses sim (host af_inet) both s'
      × (main sim collect 9 9 both ≡ ok (exited 1, idle sim collect s')))
    ⊎ ((sockfd : ℤ) × (epollfd : ℤ) × (s' : Sim) × Listens sim (host af_inet) both sockfd epollfd s'
        × (main sim collect 9 9 both
            ≡ event_loop sim collect 9 9 sockfd epollfd (idle sim collect s'))
        × (sim.interest s' epollfd sockfd ≡ some epollin))
main_takes_first_ipv4_example =
    main_takes_first_ipv4 sim collect sim_epoll 9 9 both (host af_inet6 ∷ []) [] (host af_inet) refl
      ((λ e. cc), tt) refl

-- ===== src/Tests/Exiting.antt =====
-- Whole runs of the server of src/temp.cpp at concrete inputs.
use async_event_loop.Base.{
  int_eq, int_eqb_iff, ℤ, pos, ◌≡◌, ◌⊎◌, inl, inr, refl, none, some, List, [], ◌∷◌, arith,
}
use async_event_loop.UnorderedMap.{find}
use async_event_loop.Outcome.{Safe, ok}
use async_event_loop.Heap.{object, put}
use async_event_loop.Kernel.{Event, received}
use async_event_loop.Kernel.Flags.{epollin, epollhup, af_inet}
use async_event_loop.Standalone.{
  Standalone, exited, client_mask, insert_new, lookup_fd, handle_new_connection, load,
  delete_object, disconnect, append_request, recv_all, after_recv, handle_already_connected,
  handle_events, event_loop,
}
use async_event_loop.Standalone.Serving.{InOrder, IsServed}
use async_event_loop.Standalone.Handlers.{reuses, WatchesNothingMore}
use async_event_loop.Standalone.Events.{
  Due, reuses_in, reuses_from, AfterEvents, handle_events-AfterEvents,
}
use async_event_loop.Standalone.Lifetime.{reuses_after, main_exits}
use async_event_loop.Standalone.Startup.{check, set_up, first_ipv4, run_server, main}
use async_event_loop.Tests.Simulation.{Sim, sim, start, update}
use async_event_loop.Tests.Simulation.Laws.{sim_epoll, sim_interest, sim_waiting}
use async_event_loop.Tests.Reports.{Mem-reports, once_of_report}
use async_event_loop.Tests.OneFile.{collect, both, host}

abbrev connecting : Event
connecting = record { events = epollin; fd = pos 5 }

-- A client connects, sends two bytes and hangs up, and the next `epoll_wait` fails.
abbrev visited : Sim
visited = record both {
  peers = af_inet ∷ [];
  inbox = received 66 [] ∷ received 67 [] ∷ [];
  waits =
      (connecting ∷ [])
      ∷ (record { events = epollin; fd = pos 7 } ∷ [])
      ∷ (record { events = epollhup; fd = pos 7 } ∷ [])
      ∷ [];
}

collect-WatchesNothingMore : WatchesNothingMore sim collect
collect-WatchesNothingMore c t e d mask h = h

-- The run ends within four rounds, with the object of the client deleted.
visited_ends :
    (s : Sim) × (main sim collect 4 3 visited
      ≡ ok
          (exited 1, record { kernel = s; fd_map = (pos 7, some 0) ∷ []; connections = none ∷ [] }))
unfolding main set_up check first_ipv4 run_server event_loop handle_events handle_new_connection
    handle_already_connected insert_new lookup_fd disconnect delete_object append_request recv_all
    after_recv load find object put
visited_ends = (_, refl)

main_exits_example : Safe (λ r. r.0 ≡ exited 1) (main sim collect 4 3 visited)
unfolding reuses_after reuses_from reuses_in reuses set_up check first_ipv4 handle_events
    handle_new_connection handle_already_connected insert_new lookup_fd disconnect delete_object
    append_request recv_all after_recv load find object put
main_exits_example =
    main_exits sim sim_epoll sim_interest sim_waiting collect collect-WatchesNothingMore 3 4 visited
      (host af_inet) refl refl

-- A server with a client on the descriptor 6.
abbrev serving : Standalone sim collect
serving = record {
  kernel = record start {
    next = 7;
    watching = update (update (λ d. none) (pos 5) (some epollin)) (pos 6) (some client_mask);
    peers = af_inet ∷ [];
    inbox = received 66 [] ∷ [];
  };
  fd_map = (pos 6, some 0) ∷ [];
  connections = some [] ∷ [];
}

abbrev reported : List Event
reported = record { events = epollin; fd = pos 6 } ∷ connecting ∷ []

serving-InOrder : InOrder sim collect (pos 5) (pos 4) (Due reported) serving
unfolding find object
serving-InOrder = record {
  watched = λ d mask e. served d (ground (arith, int_eqb_iff (pos 5) d, int_eqb_iff (pos 6) d));
  queued = λ d m. served d (among d m);
  made = λ d p e. ground (arith, int_eqb_iff (pos 6) d);
  own = λ d c p e f. ground (arith, int_eqb_iff (pos 6) d, int_eqb_iff (pos 6) c);
}
  where
    served : (d : ℤ) → (pos 6 ≡ d) ⊎ (pos 5 ≡ d) → (d ≡ pos 5) ⊎ IsServed sim collect d serving
    served d (inl e) = inr (rw (← e) (0, refl, ([], refl)))
    served d (inr e) = inl (rw (← e) refl)

    among : (d : ℤ) → Due reported d → (pos 6 ≡ d) ⊎ (pos 5 ≡ d)
    among d m =
        ground (arith, Mem-reports d reported m, int_eqb_iff d (pos 6), int_eqb_iff d (pos 5))

handle_events-AfterEvents_example :
    Safe
      (AfterEvents sim collect (pos 5) (pos 4))
      (handle_events sim collect 2 (pos 5) (pos 4) reported serving)
unfolding reuses_in reuses handle_new_connection handle_already_connected insert_new lookup_fd
    append_request recv_all after_recv load find object put
handle_events-AfterEvents_example =
    handle_events-AfterEvents sim sim_epoll sim_interest collect collect-WatchesNothingMore 2
      (pos 5) (pos 4) reported serving (once_of_report (λ d. some 0) reported refl) refl
      serving-InOrder

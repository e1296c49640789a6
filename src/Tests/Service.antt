-- ===== src/Tests/Service.antt =====
-- The safety of the server at concrete inputs. The parser of these tests finds a whole message in
-- every piece.
use async_event_loop.Base.{int_eq, pos, ◌≡◌, refl, none, some, [], ◌∷◌, arith}
use async_event_loop.UnorderedMap.{find, assign}
use async_event_loop.Base.{◌≤◌, failed, false, length}
use async_event_loop.Kernel.{Event, received}
use async_event_loop.Kernel.Flags.{epollin, af_inet}
use async_event_loop.Http.{Headers, new_request}
use async_event_loop.Http.Callbacks.{url, message_complete}
use async_event_loop.Reactor.{new_reactor, async_accept, add_track, finish_track}
use async_event_loop.Connection.{Parser, Conn, World, Callback, accepting, new_connection}
use async_event_loop.SocketUtilities.{get_epoll_instance, add_epoll_interest, accept_connection}
use async_event_loop.Server.{accept_mask, accept_one, run_closure}
use async_event_loop.Application.{clients, Handler, on_request, on_client_error}
use async_event_loop.Application.Serving.{IsServing}
use async_event_loop.Application.Service.{listening-Serves}
use async_event_loop.ThreadSafeMap.{insert, get_size}
use async_event_loop.Application.Runs.{stop, event, run-Safe, run_size}
use async_event_loop.Tests.Simulation.{Sim}
use async_event_loop.Base.{minus_one, true, bytes_eq}
use async_event_loop.Outcome.{ok, Safe}
use async_event_loop.SocketUtilities.{get_endpoint, select_endpoint}
use async_event_loop.Application.{bytes, main}
use async_event_loop.Application.Startup.{main_fails_silently}
use async_event_loop.Tests.Queue.{list_queue}
use async_event_loop.Tests.Simulation.{sim, start}
use async_event_loop.Tests.Simulation.Laws.{sim_epoll, sim_interest, sim_sending, sim_waiting}
use async_event_loop.Application.Lifetime.{Served, Stops, main-Safe, main-Stops}
use async_event_loop.Kernel.{recv_error}
use async_event_loop.Kernel.Flags.{epollout, eagain}
use async_event_loop.Base.{ℕ, inl, inr}

abbrev pub whole : Parser
whole = record {
  State = Unit {0};
  init = tt;
  execute = λ s bs. ((url bs ∷ message_complete ∷ [], 0), s);
}

abbrev pub same_order : Headers → Headers
same_order hs = hs

abbrev pub client : Conn sim whole Handler
client = record {
  socket = pos 6;
  request = new_request;
  response = none;
  parser = tt;
  sent_bytes = 0;
  send_buffer = [];
  cb = on_request;
  err = on_client_error;
}

abbrev event_of : ℕ → ℕ → Event
event_of d mask = record { events = mask; fd = pos d }

abbrev pub readable : Event
readable = event_of 6 epollin

abbrev new_one : World sim whole Handler
new_one = new_reactor sim 10 start []

listening-Serves_example :
    let (status, w') = async_accept sim (pos 3) (accepting on_request on_client_error) new_one in
    IsServing sim whole same_order sim_interest 0 w'
    × (failed status ≡ false → IsServing sim whole same_order sim_interest 1 w')
unfolding new_reactor get_epoll_instance
listening-Serves_example =
    listening-Serves sim sim_epoll sim_interest whole same_order (pos 3) on_client_error new_one
      (λ c. ground arith) refl

-- A server that listens on the descriptor 3, before and after it has accepted its first client.
abbrev listening : World sim whole Handler
listening =
    (async_accept sim (pos 3) (accepting on_request on_client_error) (
      new_reactor sim 10 (record start { peers = af_inet ∷ []; inbox = received 65 [] ∷ [] }) [])).1

abbrev knock : Event
knock = record { events = epollin; fd = pos 3 }

abbrev accepted : World sim whole Handler
accepted = accept_one sim whole knock on_request on_client_error listening

run-Safe_example :
    (cb : Callback Handler) × (find (pos 6) accepted.event_callback_.map_ ≡ some cb)
    × Safe
        (IsServing sim whole same_order sim_interest 0)
        (run_closure sim whole (clients sim whole same_order 3) cb readable accepted)
unfolding new_reactor get_epoll_instance async_accept add_epoll_interest finish_track insert assign
    find accept_one accept_connection new_connection add_track run_closure
run-Safe_example =
    run-Safe sim sim_epoll sim_interest sim_sending whole same_order (λ s bs. refl) 3 (pos 3)
      on_client_error
      (new_reactor sim 10 (record start { peers = af_inet ∷ []; inbox = received 65 [] ∷ [] }) [])
      accepted readable accept_mask (λ c. ground arith) refl
      (event knock epollin (accepting on_request on_client_error) refl refl refl stop) refl

run_size_example :
    (get_size accepted.event_callback_ ≡ pos (length accepted.event_callback_.map_))
    × (1 ≤ length accepted.event_callback_.map_)
    × (length accepted.event_callback_.map_ ≤ sim_interest.limit)
unfolding new_reactor get_epoll_instance async_accept add_epoll_interest finish_track insert assign
    find accept_one accept_connection new_connection add_track run_closure
run_size_example =
    run_size sim sim_epoll sim_interest sim_sending whole same_order (λ s bs. refl) 3 (pos 3)
      on_client_error
      (new_reactor sim 10 (record start { peers = af_inet ∷ []; inbox = received 65 [] ∷ [] }) [])
      accepted (λ c. ground arith) refl refl
      (event knock epollin (accepting on_request on_client_error) refl refl refl stop)

-- A system with an address of IPv4, two clients who call at once and send a message each, and five
-- batches of events: the first for the listening socket, the others for both clients.
abbrev busy : Sim
busy = record start {
  hosts =
      record { ai_family = af_inet; ai_socktype = pos 1; ai_protocol = pos 6; ai_addr = [] } ∷ [];
  peers = af_inet ∷ af_inet ∷ [];
  inbox = received 65 [] ∷ recv_error eagain ∷ received 66 [] ∷ recv_error eagain ∷ [];
  limits = 1000 ∷ 20 ∷ 1000 ∷ [];
  waits =
      (event_of 6 epollin ∷ [])
      ∷ (event_of 6 epollin ∷ [])
      ∷ (event_of 7 epollin ∷ event_of 8 epollin ∷ [])
      ∷ (event_of 8 epollout ∷ event_of 7 epollout ∷ [])
      ∷ (event_of 7 epollout ∷ [])
      ∷ [];
}

main-Safe_example :
    Safe
      (Served sim sim_epoll sim_interest sim_sending sim_waiting whole same_order list_queue
        (λ s bs. refl)
        (λ server w. IsServing sim whole same_order sim_interest 0 w))
      (main sim whole same_order list_queue 9 9 ([] ∷ [] ∷ bytes "80" ∷ []) busy)
unfolding get_epoll_instance get_endpoint select_endpoint
main-Safe_example =
    main-Safe sim sim_epoll sim_interest sim_sending sim_waiting whole same_order list_queue
      (λ s bs. refl) 9 9 [] [] (bytes "80") [] busy
      (record { ai_family = af_inet; ai_socktype = pos 1; ai_protocol = pos 6; ai_addr = [] }) refl

main-Stops_example :
    Safe
      (Served sim sim_epoll sim_interest sim_sending sim_waiting whole same_order list_queue
        (λ s bs. refl)
        (Stops sim sim_epoll sim_interest sim_sending sim_waiting whole same_order list_queue
          (λ s bs. refl)))
      (main sim whole same_order list_queue 9 9 ([] ∷ [] ∷ bytes "80" ∷ []) busy)
unfolding get_epoll_instance get_endpoint select_endpoint
main-Stops_example =
    main-Stops sim sim_epoll sim_interest sim_sending sim_waiting whole same_order list_queue
      (λ s bs. refl) 9 9 [] [] (bytes "80") [] busy
      (record { ai_family = af_inet; ai_socktype = pos 1; ai_protocol = pos 6; ai_addr = [] }) refl

-- A host with an address, and a system that refuses the options of sockets.
abbrev refusing : Sim
refusing = record start {
  refuses_options = true;
  hosts =
      record { ai_family = af_inet; ai_socktype = pos 1; ai_protocol = pos 6; ai_addr = [] } ∷ [];
}

main_fails_silently_example :
    (w : World sim whole Handler) × (main sim whole same_order list_queue 9 9
        ([] ∷ [] ∷ bytes "80" ∷ [])
        refusing
      ≡ ok (pos 0, some (record { socket = minus_one; status = minus_one }, w)))
    × (w.event_callback_.map_ ≡ [])
unfolding get_endpoint select_endpoint get_epoll_instance
main_fails_silently_example =
    main_fails_silently sim sim_epoll sim_interest whole same_order list_queue 9 9 [] []
      (bytes "80") [] refusing
      (record { ai_family = af_inet; ai_socktype = pos 1; ai_protocol = pos 6; ai_addr = [] }) refl
      (inr (inl refl))

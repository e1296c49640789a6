-- ===== src/Tests/Visiting.antt =====
-- A client that is served by the event loop, at a concrete input.
use mathlib.Core.Path.{subst}
use mathlib.Core.List.Perm
use async_event_loop.Base.{
  int_eq, ℕ, suc, ◌≤◌, pos, ◌≡◌, refl, ap, none, some, [], ◌∷◌, bytes_eq, arith, length, true,
  false, Option,
}
use async_event_loop.UnorderedMap.{find, assign}
use async_event_loop.Outcome.{Outcome, ok, fault}
use async_event_loop.Heap.{object, put}
use async_event_loop.ThreadSafeMap.{insert}
use async_event_loop.Kernel.{Event, received, sent}
use async_event_loop.Kernel.Flags.{epollin, epollout, eagain, af_inet}
use async_event_loop.SocketUtilities.{
  accept_connection, add_epoll_interest, modify_epoll_interest, close_connection,
}
use async_event_loop.Http.{new_request}
use async_event_loop.Http.Callbacks.{url}
use async_event_loop.Connection.{
  load, store, serialize, conn_read, conn_write, send_loop, delete_connection,
}
use async_event_loop.Connection.Handling.{
  handle_event, receive, recv_loop, execute_parser, parser_calls, parser_call, on_message_complete,
  transmit,
}
use async_event_loop.Reactor.{modify_track, finish_track}
use async_event_loop.Server.{run_closure}
use async_event_loop.Application.{call}
use async_event_loop.Http.Response.{response_bytes, append_header}
use async_event_loop.Http.Response.Reader.{read_response}
use async_event_loop.Reactor.{listen_sock}
use async_event_loop.Reactor.Single.{IsWaiting}
use async_event_loop.Connection.{Conn, World, accepting, handling}
use async_event_loop.Connection.Sending.{unsent}
use Prim.Native.Nat.{◌-◌}
use async_event_loop.Application.{Handler, on_request, on_client_error, response_of, page, bytes}
use async_event_loop.Application.Serving.{answer}
use async_event_loop.Application.Message.{piece, last}
use async_event_loop.Server.Accepting.{Welcomes, run_closure-Welcomes}
use async_event_loop.Application.{clients}
use async_event_loop.Application.Visit.Draining.{run, woke, Drains, round, gone, Leaves}
use async_event_loop.Application.Visit.Coming.{newcomer, accepted, Connects, Asks}
use async_event_loop.Application.Visit.Served.{visit-Leaves}
use async_event_loop.Tests.Simulation.{Sim, sim, start, update}
use async_event_loop.Tests.Simulation.Laws.{sim_sending, sim_streams}
use async_event_loop.Tests.Queue.{list_queue}
use async_event_loop.Tests.Service.{same_order}
use async_event_loop.Tests.Arriving.{pairs, sim_send-Waits}

abbrev on_fd : ℕ → ℕ → Event
on_fd d mask = record { events = mask; fd = pos d }

-- A server that listens on the descriptor 5. Its next client is on 6, sends a request in two pieces
-- and has room for all of the answer.
abbrev listening : World sim pairs Handler
listening = record {
  kernel = record start {
    next = 6;
    watching = update (λ d. none) (pos 5) (some epollin);
    peers = af_inet ∷ [];
    inbox = received 65 [] ∷ received 66 (67 ∷ []) ∷ [];
    limits = 300 ∷ [];
    waits = (on_fd 5 epollin ∷ []) ∷ (on_fd 6 epollin ∷ []) ∷ (on_fd 6 epollout ∷ []) ∷ [];
  };
  epollfd_ = pos 4;
  max_events_ = 10;
  event_callback_ = record { map_ = (pos 5, accepting on_request on_client_error) ∷ [] };
  event_priority_ = record { map_ = (pos 5, listen_sock) ∷ [] };
  app = [];
}

listening-IsWaiting : IsWaiting sim list_queue (run sim pairs same_order list_queue 3) [] listening
listening-IsWaiting = record { is_empty = refl; some_left = omega arith; small = omega arith }

abbrev wakes : World sim pairs Handler → World sim pairs Handler
wakes = woke sim pairs same_order list_queue 3

abbrev opened : Sim
opened = (accept_connection sim (pos 5) (wakes listening).kernel).1

connects : Connects sim pairs same_order list_queue 3 (pos 5) (pos 6) opened listening
unfolding accept_connection add_epoll_interest
connects = record {
  event = on_fd 5 epollin;
  told = refl;
  readable = (refl, refl, refl);
  accepts = refl;
  good = refl;
  registers = refl;
}

abbrev after_accept : World sim pairs Handler
after_accept = accepted sim pairs same_order (pos 6) opened (wakes listening)

asks : Asks sim pairs same_order list_queue 3 (pos 6) 2 after_accept
unfolding accept_connection add_epoll_interest modify_epoll_interest insert assign
asks = record {
  event = on_fd 6 epollin;
  told = refl;
  readable = (refl, refl, refl);
  idle = refl;
  errno = eagain;
  asked = _;
  system = _;
  parser = _;
  comes =
      piece 65 [] (url (65 ∷ []) ∷ []) true refl refl (tt, tt)
        (last 66 (67 ∷ []) (url (66 ∷ 67 ∷ []) ∷ []) false refl refl (tt, tt) refl tt);
  registers = refl;
}

-- The world that comes out, which is this one where none does.
abbrev result : Outcome (World sim pairs Handler) → World sim pairs Handler
result (ok w) = w
result (fault x) = listening

abbrev live_of : Option (Conn sim pairs Handler) → Conn sim pairs Handler
live_of (some c) = c
live_of none = newcomer sim pairs same_order (pos 6)

abbrev asked_of : Outcome (World sim pairs Handler)
asked_of =
    run sim pairs same_order list_queue 3 (handling 0 on_request on_client_error) (on_fd 6 epollin)
      (wakes after_accept)

drains : (n : ℕ) → Drains sim pairs same_order list_queue 3 0 (pos 6) (suc n) (result asked_of)
unfolding accept_connection add_epoll_interest modify_epoll_interest insert assign run_closure
    handle_event receive recv_loop execute_parser parser_calls parser_call on_message_complete
    transmit load store serialize conn_read conn_write send_loop delete_connection call modify_track
    finish_track object put response_bytes append_header response_of close_connection
drains n =
    round (on_fd 6 epollout) refl (refl, refl, refl, refl)
      (λ c e.
        subst
          (λ c.
            (m : ℕ) × ((sim.send (pos 6) (unsent sim pairs c) (wakes (result asked_of)).kernel).0
              ≡ sent (suc m)))
          (ap live_of e) (length (answer same_order) - 1, refl))
      (λ w' e. gone (subst (λ w. object 0 w.app ≡ none) (ap result e) refl))

answer-fits : length (answer same_order) ≤ 300
unfolding response_bytes append_header response_of assign
answer-fits = omega arith

visit-Leaves_example :
    Leaves sim pairs same_order list_queue 3 0 (pos 6) (answer same_order) 302 [] listening
    × (read_response (answer same_order)
        ≡ some (record {
          version = bytes "1.1";
          status_code = bytes "200";
          status_message = bytes "OK";
          headers = (response_of new_request).headers;
          body = page;
        }))
unfolding find asks
visit-Leaves_example =
    visit-Leaves sim sim_sending pairs same_order list_queue 3 sim_streams (λ hs. Perm.refl hs)
      (pos 5) (pos 6) opened 2 300 [] listening listening-IsWaiting (omega arith) refl connects asks
      (omega arith) (λ bs s. sim_send-Waits bs s.limits s) answer-fits
      (λ w2 e.
        subst (Drains sim pairs same_order list_queue 3 0 (pos 6) 300) (ap result e) (drains 299))

-- The same server with a client on the descriptor 7.
abbrev occupied : World sim pairs Handler
occupied = record listening {
  app = some (newcomer sim pairs same_order (pos 7)) ∷ [];
  event_callback_ = record {
    map_ =
        (pos 5, accepting on_request on_client_error)
        ∷ (pos 7, handling 0 on_request on_client_error)
        ∷ [];
  };
}

run_closure-Welcomes_example :
    (w' : World sim pairs Handler) × (run_closure sim pairs
        (clients sim pairs same_order 3)
        (accepting on_request on_client_error)
        (on_fd 5 epollin)
        occupied
      ≡ ok w')
    × Welcomes sim pairs (pos 6) on_request on_client_error occupied w'
unfolding accept_connection
run_closure-Welcomes_example =
    run_closure-Welcomes sim sim_sending sim_streams pairs (clients sim pairs same_order 3)
      on_request on_client_error (on_fd 5 epollin) occupied

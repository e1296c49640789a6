-- ===== src/Tests/Arriving.antt =====
-- Requests that arrive in pieces, at concrete inputs.
use async_event_loop.Kernel.{received, end_of_stream}
use async_event_loop.Base.{
  Bool, true, false, if◌then◌else◌, ℕ, pos, refl, none, some, List, [], ◌∷◌, Bytes, bytes_eq, arith,
}
use async_event_loop.Outcome.{Returns}
use async_event_loop.Heap.{object}
use async_event_loop.Http.{new_request}
use async_event_loop.Reactor.{new_sock}
use async_event_loop.Connection.Progress.{Waits}
use async_event_loop.Application.{Handler, on_request, on_client_error, call}
use async_event_loop.Application.Arrival.{Arrives}
use async_event_loop.Application.Message.{piece, last}
use async_event_loop.Server.{run_closure}
use async_event_loop.Connection.Isolation.{Others}
use async_event_loop.Application.Isolation.{run_closure-Others}
use async_event_loop.Application.{clients}
use async_event_loop.Application.Exchange.{half_closed_unanswered}
use async_event_loop.SocketUtilities.{modify_epoll_interest}
use async_event_loop.Http.Callbacks.{url, message_complete}
use async_event_loop.Connection.{Parser, Conn, World, handling}
use async_event_loop.Connection.Handling.{handle_event}
use async_event_loop.Tests.Simulation.{Sim, sim, sim_send, start}
use async_event_loop.Tests.Simulation.Laws.{sim_sending, sim_streams}
use async_event_loop.Tests.Service.{same_order, readable}

-- A parser of messages of two pieces.
abbrev pub pairs : Parser
pairs = record {
  State = Bool;
  init = false;
  execute = λ second bs.
      if second then ((url bs ∷ message_complete ∷ [], 0), false) else ((url bs ∷ [], 0), true);
}

abbrev caller : Conn sim pairs Handler
caller = record {
  socket = pos 6;
  request = new_request;
  response = none;
  parser = false;
  sent_bytes = 0;
  send_buffer = [];
  cb = on_request;
  err = on_client_error;
}

pub sim_send-Waits :
    (bs : Bytes) (limits : List ℕ) (s : Sim) → Waits (sim_send (pos 6) bs limits s).0
sim_send-Waits bs [] s = refl
sim_send-Waits bs (n ∷ limits) s = tt

-- A message arrives in two pieces.
abbrev asked : World sim pairs Handler
asked = record {
  kernel = record start { inbox = received 65 [] ∷ received 66 (67 ∷ []) ∷ [] };
  epollfd_ = pos 4;
  max_events_ = 10;
  event_callback_ = record { map_ = (pos 6, handling 1 on_request on_client_error) ∷ [] };
  event_priority_ = record { map_ = (pos 6, new_sock) ∷ [] };
  app = none ∷ some caller ∷ [];
}

-- The same, from a client that has closed its side behind the message.
abbrev half_closed : World sim pairs Handler
half_closed = record asked {
  kernel = record start { inbox = received 65 [] ∷ received 66 (67 ∷ []) ∷ end_of_stream ∷ [] };
}

half_closed_unanswered_example : Arrives sim pairs same_order 1 (pos 6) [] (
    handle_event sim pairs
      (call sim pairs same_order)
      3
      1
      readable
      on_request
      on_client_error
      half_closed)
unfolding object modify_epoll_interest
half_closed_unanswered_example =
    half_closed_unanswered sim sim_sending pairs same_order 1 3 readable on_request half_closed refl
      refl refl refl refl refl
      (piece 65 [] (url (65 ∷ []) ∷ []) true refl refl (tt, tt)
        (last 66 (67 ∷ []) (url (66 ∷ 67 ∷ []) ∷ []) false refl refl (tt, tt) refl tt))
      (omega arith)

-- The same client with another one beside it.
abbrev beside : World sim pairs Handler
beside = record asked { app = some (record caller { socket = pos 7 }) ∷ some caller ∷ [] }

run_closure-Others_example : Returns (Others sim pairs 1 (pos 6) beside) (
    run_closure sim pairs
      (clients sim pairs same_order 3)
      (handling 1 on_request on_client_error)
      readable
      beside)
unfolding object
run_closure-Others_example =
    run_closure-Others sim sim_sending sim_streams pairs same_order 3 1 readable on_request
      on_client_error caller beside refl

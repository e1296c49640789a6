-- ===== src/Tests/Connections.antt =====
-- The theorems on connections and on the application at concrete inputs. The parser of these tests
-- keeps nothing, takes every byte for a part of the URL, and rejects a piece that starts with 0.
use mathlib.Core.List.Perm
use async_event_loop.Base.{
  ℕ, zero, pos, int_eq, ◌≡◌, refl, none, some, List, [], ◌∷◌, Bytes, bytes_eq, arith,
}
use async_event_loop.Outcome.{Outcome, ok, fault, use_after_free}
use async_event_loop.Heap.{object, put}
use async_event_loop.Kernel.{Event, received}
use async_event_loop.Kernel.Flags.{epollin, eagain}
use async_event_loop.Http.{new_request}
use async_event_loop.Http.Callbacks.{ParserCall, url, on_calls}
use async_event_loop.Connection.{Parser, Conn, World}
use async_event_loop.Connection.Handling.{receive, handle_event}
use async_event_loop.Connection.Receiving.{no_more, chunk, receive-Reads}
use async_event_loop.Application.{Handler, on_request, on_client_error, call}
use async_event_loop.Application.Faults.{parse_error_use_after_free}
use async_event_loop.Application.Answers.{Answered, request-Answered}
use async_event_loop.Tests.Service.{same_order}
use async_event_loop.Tests.Simulation.{Sim, sim, start}

abbrev url_calls : Bytes → List ParserCall × ℕ
url_calls (zero ∷ bs) = ([], 1)
url_calls bs = (url bs ∷ [], 0)

abbrev urls : Parser
urls = record { State = Unit {0}; init = tt; execute = λ s bs. (url_calls bs, s) }

abbrev call_in_order : Handler → ℕ → World sim urls Handler → Outcome (World sim urls Handler)
call_in_order = call sim urls same_order

-- A connection on the descriptor 6 that has sent the first of three bytes.
abbrev half_sent : Conn sim urls Handler
half_sent = record {
  socket = pos 6;
  request = new_request;
  response = none;
  parser = tt;
  sent_bytes = 1;
  send_buffer = 65 ∷ 66 ∷ 67 ∷ [];
  cb = on_request;
  err = on_client_error;
}

abbrev in_world : Sim → World sim urls Handler
in_world s = record {
  kernel = s;
  epollfd_ = pos 4;
  max_events_ = 10;
  event_callback_ = record { map_ = [] };
  event_priority_ = record { map_ = [] };
  app = none ∷ some half_sent ∷ [];
}

-- The first `send` takes one byte, the second what is left.
abbrev writable : World sim urls Handler
writable = in_world (record start { limits = 1 ∷ 9 ∷ [] })

-- Two pieces of a URL arrive.
abbrev incoming : Sim
incoming = record start { inbox = received 65 [] ∷ received 66 (67 ∷ []) ∷ [] }

abbrev read_url : Conn sim urls Handler
read_url = record half_sent {
  request = on_calls (url (66 ∷ 67 ∷ []) ∷ []) (on_calls (url (65 ∷ []) ∷ []) new_request);
}

receive-Reads_example :
    receive sim urls call_in_order 3 1 on_client_error (in_world incoming)
    ≡ ok (record (in_world start) { app = put 1 (some read_url) (in_world start).app })
unfolding object
receive-Reads_example =
    receive-Reads sim urls call_in_order 1 on_client_error (in_world incoming) refl
      (chunk 65 [] (url (65 ∷ []) ∷ []) tt refl refl (tt, tt)
        (chunk 66 (67 ∷ []) (url (66 ∷ 67 ∷ []) ∷ []) tt refl refl (tt, tt) (no_more eagain refl)))
      3 (omega arith)

-- A piece that the parser rejects.
abbrev garbage : Sim
garbage = record start { inbox = received 0 [] ∷ [] }

abbrev readable : Event
readable = record { events = epollin; fd = pos 6 }

parse_error_use_after_free_example :
    handle_event sim urls call_in_order 2 1 readable on_request on_client_error (in_world garbage)
    ≡ fault use_after_free
unfolding object
parse_error_use_after_free_example =
    parse_error_use_after_free sim urls same_order 0 1 readable on_request half_sent
      (in_world garbage) 0 [] [] 1 tt refl refl refl refl refl tt (λ e. omega arith)

request-Answered_example :
    Answered sim urls same_order (λ hs. Perm.refl hs) 1 half_sent (in_world start)
unfolding object
request-Answered_example =
    request-Answered sim urls same_order (λ hs. Perm.refl hs) 1 half_sent (in_world start) refl

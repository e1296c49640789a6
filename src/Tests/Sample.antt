-- ===== src/Tests/Sample.antt =====
-- The theorems on the program of main.cpp at concrete inputs. The parser of these tests has its calls
-- prepared: each piece is answered by the next ones, and an empty piece is an error.
use async_event_loop.Base.{ℕ, ◌≡◌, refl, List, [], ◌∷◌, ◌++◌, Bytes, bytes_eq, arith}
use async_event_loop.UnorderedMap.{find}
use async_event_loop.Http.Callbacks.{ParserCall}
use async_event_loop.Http.Callbacks.Fragments.{done, keep}
use async_event_loop.Http.Callbacks.Messages.{Message, calls_of, field_calls, last_value}
use async_event_loop.Connection.{Parser}
use async_event_loop.Application.{bytes}
use async_event_loop.Tests.Service.{same_order}
use async_event_loop.Http.{HttpRequest, new_request}
use async_event_loop.Http.Callbacks.{on_calls}
use async_event_loop.Application.{print_http_request}
use async_event_loop.Demo.{empty_request, demo_written, demo_start, demo_run}
use async_event_loop.Demo.Agreement.{end, chunk, demo_run_prints, demo_run_rejects}

abbrev message : Message
message = record {
  verb = bytes "GET";
  target = bytes "/";
  http_version = bytes "1.1";
  fields = (bytes "Host", bytes "a") ∷ [];
  payload = [];
}

abbrev answer : Bytes → List ParserCall → (List ParserCall × ℕ) × List ParserCall
answer [] calls = (([], 1), calls)
answer (b ∷ bs) calls = ((calls, 0), [])

abbrev prepared : Parser
prepared = record {
  State = List ParserCall;
  init = calls_of message;
  execute = λ calls bs. answer bs calls;
}

abbrev collected : HttpRequest
collected = on_calls (calls_of message) new_request

demo_run_prints_example :
    (demo_run prepared same_order
        (bytes "a" ∷ bytes "b" ∷ [])
        prepared.init
        empty_request
        demo_start
      ≡ (
        0,
        (demo_start ++ demo_written (calls_of message ++ []) empty_request)
            ++ print_http_request same_order (on_calls (calls_of message ++ []) new_request),
      ))
    × (collected.method ≡ bytes "GET")
    × (collected.url ≡ bytes "/")
    × (collected.version ≡ bytes "1.1")
    × (collected.body ≡ [])
    × ((k : Bytes) → find k collected.headers ≡ last_value k message.fields)
unfolding calls_of field_calls
demo_run_prints_example =
    demo_run_prints prepared same_order message (bytes "a" ∷ bytes "b" ∷ []) demo_start
      (keep _ (keep _ (keep _ (keep _ (keep _ (keep _ (keep _ (keep _ (keep _ (keep _ done))))))))))
      (chunk (bytes "a") (calls_of message) refl (chunk (bytes "b") [] refl end))

demo_run_rejects_example :
    demo_run prepared same_order
      (bytes "a" ∷ [] ∷ bytes "b" ∷ [])
      prepared.init
      empty_request
      demo_start
    ≡ (1, demo_start ++ demo_written ((calls_of message ++ []) ++ []) empty_request)
demo_run_rejects_example =
    demo_run_rejects prepared same_order (bytes "a" ∷ []) (bytes "b" ∷ []) [] demo_start
      (chunk (bytes "a") (calls_of message) refl end) (λ e. omega arith)

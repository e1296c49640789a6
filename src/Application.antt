-- ===== src/Application.antt =====
-- src/server.cpp: the application, and its functions on connections.
pub mod Faults
pub mod Startup
pub mod Answers
pub mod Delivery
pub mod Arrival
pub mod Requests
pub mod Message
pub mod Incoming
pub mod Exchange
pub mod Visit
pub mod Isolation
pub mod Serving
pub mod Safety
pub mod Events
pub mod Transmitting
pub mod Service
pub mod Runs
pub mod Rounds
pub mod Lifetime
pub mod Bystanders
use async_event_loop.Base.{
  ℕ, zero, suc, ◌+◌, ◌/◌, ◌%◌, ℤ, pos, ◌≡◌, Option, none, some, List, [], ◌∷◌, ◌++◌, Bytes,
  bytes_eq, length, foldl, if◌then◌else◌, ltb,
}
use async_event_loop.UnorderedMap.{assign}
use async_event_loop.Outcome.{Outcome, ok, fault, null_dereference, out_of_fuel, ◌>>=◌}
use async_event_loop.Kernel.{Kernel}
use async_event_loop.Http.{Headers, HttpRequest, HttpResponse, new_response}
use async_event_loop.Reactor.{EventQueue, new_reactor}
use async_event_loop.Connection.{Parser, World, conn_read, conn_write, delete_connection}
use async_event_loop.Connection.Interface.{Connection, client_connection}
use async_event_loop.Server.{HttpServer, new_server, listen_and_serve}
use Prim.Native.Char.{code}
use Prim.Native.String.{String}

-- The bytes of an ASCII literal.
abbrev pub bytes : String → Bytes
bytes String.[] = []
bytes (String.◌∷◌ c s) = code c ∷ bytes s

-- The functions that `main` passes to `listen` and to `write`.
pub data Handler : Type 0 where
  on_request on_client_error on_sent on_send_error : Handler

-- `std::to_string` of a number below 100
abbrev pub to_string : ℕ → Bytes
to_string n = if ltb n 10 then (n + 48) ∷ [] else (n / 10 % 10 + 48) ∷ (n % 10 + 48) ∷ []

abbrev pub page : Bytes
page = bytes "This is fast!! C++ server"

abbrev pub max_events : ℕ
max_events = 100000

-- The response that `main` builds for every request.
unfoldable pub response_of : HttpRequest → HttpResponse
response_of request = record new_response {
  version = bytes "1.1";
  status_code = bytes "200";
  status_message = bytes "OK";
  headers = assign (bytes "Content-Length") (to_string (length page)) (
      assign (bytes "Connection") (bytes "close")
        (assign (bytes "Content-Type") (bytes "text/plain") []));
  body = page;
}

-- What the code writes as `\n`, which a literal has no escape for.
abbrev pub newline : Bytes
newline = 10 ∷ []

-- The body of the loop of `printHttpRequest` over the headers.
unfoldable pub print_header : Bytes → Bytes × Bytes → Bytes
print_header out (name, value) = out ++ bytes "    " ++ name ++ bytes ": " ++ value ++ newline

-- `printHttpRequest`: what it writes.
unfoldable pub print_http_request : (Headers → Headers) → HttpRequest → Bytes
unfolding print_header
print_http_request order request =
    let head : Bytes =
      bytes "HTTP Request:"
      ++ newline
      ++ bytes "  Method:  "
      ++ request.method
      ++ newline
      ++ bytes "  URL:     "
      ++ request.url
      ++ newline
      ++ bytes "  Version: "
      ++ request.version
      ++ newline
      ++ bytes "  Headers:"
      ++ newline in
    foldl print_header head (order request.headers)
    ++ bytes "  Body:"
    ++ newline
    ++ elim request.body [ [] ↦ bytes "    [empty]" ++ newline | b ∷ bs ↦ (b ∷ bs) ++ newline ]

module _ (k : Kernel) (ps : Parser) (order : Headers → Headers) where
  -- A call of one of the functions on a connection. The request is never NULL.
  unfoldable pub call : Handler → ℕ → World k ps Handler → Outcome (World k ps Handler)
  call on_request p w = do
    request ← conn_read k ps p w
    conn_write k ps order p (response_of request) on_sent on_send_error w
  call on_client_error p w = delete_connection k ps p w
  call on_sent p w = delete_connection k ps p w
  call on_send_error p w = delete_connection k ps p w

  -- The connections of the server, with a bound on the rounds of the loop over `recv`.
  abbrev pub clients : ℕ → ℕ → Connection (World k ps Handler) Handler
  clients fuel = client_connection k ps order call fuel

  -- `main` on the arguments of the program, with bounds on the rounds of the two loops. With too few
  -- it returns 1 and makes no server.
  unfoldable pub main :
      EventQueue
      → ℕ
      → ℕ
      → List Bytes
      → k.State
      → Outcome (ℤ × Option (HttpServer × World k ps Handler))
  main pq rounds fuel (program ∷ address ∷ port ∷ rest) s = do
    let ioc : World k ps Handler = new_reactor k max_events s []
    (server, s') ← new_server k address port ioc.kernel
    (status, server', w) ←
        listen_and_serve k ps (clients fuel) pq rounds server on_request on_client_error
          (record ioc { kernel = s' })
    ok (pos 0, some (server', w))
  main pq rounds fuel (program ∷ address ∷ []) s = ok (pos 1, none)
  main pq rounds fuel (program ∷ []) s = ok (pos 1, none)
  main pq rounds fuel [] s = ok (pos 1, none)

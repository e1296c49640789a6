-- ===== src/Connection/Interface.antt =====
-- include/connection_types.h: `class Connection`, and `Clientconnection` as one.
use async_event_loop.Base.{ℕ}
use async_event_loop.Outcome.{Outcome}
use async_event_loop.Kernel.{Kernel, Event}
use async_event_loop.Http.{Headers, HttpRequest, HttpResponse}
use async_event_loop.Connection.{Parser, World, conn_read, conn_write, conn_close}
use async_event_loop.Connection.Handling.{handle_event}

-- The virtual functions of a connection. `write` and `read` of the source pass the response and the
-- request through pointers to anything.
pub record Connection (W Handler : Type 0) : Type 0 where
  pub write : HttpResponse → Handler → Handler → W → Outcome W
  pub read : W → Outcome HttpRequest
  pub close : W → Outcome W
  pub handle_event : Event → Handler → Handler → W → Outcome W

-- A pointer to a client connection, with a bound on the rounds of the loop over `recv`.
abbrev pub client_connection :
    (k : Kernel) (ps : Parser)
    → (Headers → Headers)
    → {Handler : Type 0} → (Handler → ℕ → World k ps Handler → Outcome (World k ps Handler))
    → ℕ
    → ℕ
    → Connection (World k ps Handler) Handler
client_connection k ps order call fuel p = record {
  write = conn_write k ps order p;
  read = conn_read k ps p;
  close = conn_close k ps p;
  handle_event = handle_event k ps call fuel p;
}

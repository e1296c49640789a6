-- ===== src/Connection/Handling.antt =====
-- include/connection_types.h: `handleEvent` of `Clientconnection`, and the callbacks of the parser under it.
use async_event_loop.Base.{ℕ, zero, suc, ◌||◌, List, [], ◌∷◌, Bytes, ◌==◌, if◌then◌else◌, length}
use async_event_loop.Outcome.{Outcome, ok, fault, out_of_fuel, ◌>>=◌}
use async_event_loop.Kernel.{
  Kernel, Event, Received, received, end_of_stream, recv_error, sent, send_error,
}
use async_event_loop.Kernel.Flags.{epollin, epollout, epollerr, has, eagain, ewouldblock}
use async_event_loop.Http.Callbacks.{ParserCall, message_complete, on_call}
use async_event_loop.Connection.{
  Parser, World, all_sent, stopped, recv_buffer_size, load, store, send_loop,
}

module _ (k : Kernel) (ps : Parser) {Handler : Type 0}
    (call : Handler → ℕ → World k ps Handler → Outcome (World k ps Handler)) where
  -- `on_message_complete`
  unfoldable pub on_message_complete : ℕ → World k ps Handler → Outcome (World k ps Handler)
  on_message_complete p w = do c ← load k ps p w; call c.cb p w

  -- A callback of the parser, which reaches the connection through `parser->data`.
  unfoldable pub parser_call : ℕ → ParserCall → World k ps Handler → Outcome (World k ps Handler)
  unfolding on_message_complete
  parser_call p message_complete w = on_message_complete p w
  parser_call p other w = do
    c ← load k ps p w
    ok (store k ps p (record c { request = on_call other c.request }) w)

  unfoldable pub parser_calls :
      ℕ → List ParserCall → World k ps Handler → Outcome (World k ps Handler)
  parser_calls p [] w = ok w
  parser_calls p (c ∷ cs) w = do w' ← parser_call p c w; parser_calls p cs w'

  -- `llhttp_execute(this->parser, …)`, which writes the parser of the connection back.
  unfoldable pub execute_parser : ℕ → Bytes → World k ps Handler → Outcome (ℕ × World k ps Handler)
  execute_parser p bytes w = do
    c ← load k ps p w
    let ((calls, llerror), parser) = ps.execute c.parser bytes
    w' ← parser_calls p calls w
    c' ← load k ps p w'
    ok (llerror, store k ps p (record c' { parser = parser }) w')

  -- `while ((read_bytes = recv(…)) > 0)`, with the number of rounds as fuel. After a parsing error
  -- the loop calls `error` and goes on.
  unfoldable pub recv_loop :
      ℕ → ℕ → Handler → World k ps Handler → Outcome (Received × World k ps Handler)
  recv_loop zero p error w = fault out_of_fuel
  recv_loop (suc fuel) p error w = do
    c ← load k ps p w
    let (r, s') = k.recv c.socket recv_buffer_size w.kernel
    let w' : World k ps Handler = record w { kernel = s' }
    elim r [
      | received b bs ↦ do
        (llerror, w'') ← execute_parser p (b ∷ bs) w'
        w''' ← (if llerror == 0 then ok w'' else call error p w'')
        recv_loop fuel p error w'''
      | end_of_stream ↦ ok (end_of_stream, w')
      | recv_error errno ↦ ok (recv_error errno, w')
    ]

  -- The branch of EPOLLIN.
  unfoldable pub receive : ℕ → ℕ → Handler → World k ps Handler → Outcome (World k ps Handler)
  receive fuel p error w = do
    (read_bytes, w') ← recv_loop fuel p error w
    elim read_bytes [
      | end_of_stream ↦ call error p w'
      | received b bs ↦ ok w'
      | recv_error errno ↦ ok w'
    ]

  -- The branch of EPOLLOUT. The loop needs one round for each byte at most.
  unfoldable pub transmit :
      ℕ → Handler → Handler → World k ps Handler → Outcome (World k ps Handler)
  transmit p success error w = do
    c ← load k ps p w
    (end, c', s') ← send_loop k ps (suc (length c.send_buffer)) c w.kernel
    let w' : World k ps Handler = store k ps p c' (record w { kernel = s' })
    elim end [
      | all_sent ↦ call success p w'
      | stopped (sent n) ↦ ok w'
      | stopped (send_error errno) ↦
          if errno == eagain || errno == ewouldblock then ok w' else call error p w'
    ]

  -- `fuel` bounds the rounds of the loop over `recv`.
  unfoldable pub handle_event :
      ℕ → ℕ → Event → Handler → Handler → World k ps Handler → Outcome (World k ps Handler)
  handle_event fuel p ev success error w = do
    c ← load k ps p w
    if has ev.events epollerr
        then call error p w
        else (if has ev.events epollin
            then receive fuel p error w
            else (if has ev.events epollout then transmit p success error w else ok w))
